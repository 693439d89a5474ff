-- ===== src/Tests/Grub.antt =====
-- A boot directory whose grub.cfg is a symlink to a file with a block of ostree.
use mathlib.Core.List.{append_assoc}
use bootupd.Base.Path.{join}
use bootupd.Base.{
  Str, codes, ◌++◌, ◌≡◌, ◌⊎◌, ◌≢◌, refl, sym, ok_inj, arith, true, false, none, List, [], ◌∷◌, map,
  ok, err, failed, inl,
}
use bootupd.Model.{ContentMetadata}
use bootupd.Component.Tools.{Tools}
use bootupd.Statefile.{Platform}
use bootupd.Bootupd.Migrate.{begin_mark, end_mark}
use bootupd.Bootupd.Migration.{
  GrubDir, grub_config_dir, backup_config, stripped_config, client_run_migrate_static_grub_config,
}
use bootupd.Bootupd.Migration.Stripped.{IsGrubDir}
use bootupd.Bootupd.Migration.Ended.{KeepsGrub, IsStatic, migration_atomic}
use bootupd.Tests.Machine.{Text, read_new, read_old}

record Boot : Type 0 where
  cfg : Str
  tmp : Str
  buf : Str

abbrev cfg_of : Boot → Str
cfg_of w = w.cfg

abbrev tmp_of : Boot → Str
tmp_of w = w.tmp

abbrev buf_of : Boot → Str
buf_of w = w.buf

abbrev platform : Platform
platform = record {
  Machine = Boot;
  Json = Text;
  to_writer = λ s. inl s;
  from_str = read_new;
  from_str_01 = read_old;
  and_utc = λ t. t;
  open_dir = λ _ _. ok tt;
  read_statefile = λ _ w. ok none;
  statefile_exists = λ _ w. false;
  write_statefile = λ _ t w. (ok tt, w);
  lock_exclusive = λ _ w. (ok tt, w);
  register_sigterm = λ w. (ok tt, w);
  is_read_only = λ _ _. ok true;
  remount_rw = λ _ w. (ok true, w);
  fail_eval = λ _ _. none;
}

abbrev tools : Tools Boot
tools = record {
  Text = ContentMetadata;
  exists = λ p _. true;
  try_exists = λ _ _. ok true;
  created = λ _ _. ok 5;
  open_dir = λ _ _. ok tt;
  sub_dir = λ _ _ _. ok tt;
  open_file_optional = λ _ _ _. ok none;
  write_file_with = λ _ _ _ w. (ok tt, w);
  from_reader = λ t. ok t;
  to_writer = λ m. m;
  open_aleph = λ _ _. err (failed "No such file");
  read_dir = λ _ _. ok none;
  fd_path = λ _ _. ok (codes "/");
  status = λ _ w. (ok true, w);
  output = λ _ w. (ok (false, ok []), w);
  findmnt = λ _ _. ok [];
  find_parent_devices = λ _ _. ok [];
  partitions_of = λ _ _. ok [];
  parse_from_str = λ _. none;
}

abbrev lines : List Str
lines = codes "set timeout=1" ∷ begin_mark ∷ codes "menuentry" ∷ end_mark ∷ []

abbrev boot_dir : GrubDir Boot
boot_dir = record {
  create_mark = λ _ w. w;
  read_link = λ _ _. ok (codes "../loader/grub.cfg");
  copy = λ _ _ w. (ok tt, w);
  open_lines = λ _ _. ok (map ok lines);
  write_file = λ _ w. (ok tt, record w { tmp = []; buf = [] });
  write_all = λ s w. (ok tt, record w { buf = w.buf ++ s });
  flush = λ w. (ok tt, record w { tmp = w.tmp ++ w.buf; buf = [] });
  syncfs = λ w. w;
  local_exchange = λ _ _ w. (ok tt, record w { cfg = w.tmp; tmp = w.cfg });
  remove_file = λ _ w. record w { tmp = [] };
}

link_target :
    (path : Str) → ok (codes "../loader/grub.cfg") ≡ ok path → path ≡ codes "../loader/grub.cfg"
link_target path e = sym (ok_inj e)

target_elsewhere :
    (join grub_config_dir (codes "../loader/grub.cfg") ≢ backup_config)
    × (join grub_config_dir (codes "../loader/grub.cfg") ≢ join grub_config_dir stripped_config)
unfolding join
target_elsewhere = (ground arith, ground arith)

boot_dir-IsGrubDir : IsGrubDir cfg_of tmp_of buf_of boot_dir
boot_dir-IsGrubDir = record {
  leads_elsewhere = λ path w e. rw (link_target path e) target_elsewhere;
  mark_keeps = λ w. refl;
  copy_keeps = λ a w n. refl;
  file_keeps = λ w n. refl;
  file_empty = λ w h. (refl, refl);
  write_keeps = λ s w. refl;
  write_appends = λ s w h. sym (append_assoc w.tmp w.buf s);
  flush_keeps = λ w. refl;
  flush_writes = λ w h. refl;
  sync_keeps = λ w. (refl, refl);
  exchanges = λ w h. refl;
  exchange_failed = λ w h. cc;
  remove_keeps = λ w. refl;
}

tools-KeepsGrub : KeepsGrub platform tools cfg_of
tools-KeepsGrub = record {
  output_keeps = λ w. refl;
  status_keeps = λ w. refl;
  remount_keeps = λ w. refl;
}

abbrev before : Boot
before = record { cfg = codes "menuentry"; tmp = []; buf = [] }

migration_atomic_example :
    (cfg_of (client_run_migrate_static_grub_config platform tools boot_dir before).1
      ≡ cfg_of before)
    ⊎ IsStatic cfg_of tmp_of buf_of boot_dir boot_dir-IsGrubDir
        (cfg_of before)
        (client_run_migrate_static_grub_config platform tools boot_dir before).1
migration_atomic_example =
    migration_atomic platform tools boot_dir cfg_of tmp_of buf_of boot_dir-IsGrubDir tools-KeepsGrub
      before
