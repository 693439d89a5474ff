-- ===== src/Tests/Esp.antt =====
-- A machine that is booted by EFI, with an ESP that is not mounted yet.
use bootupd.Base.{
  Str, ℕ, codes, ◌==◌, ◌≡◌, ◌⊎◌, refl, Bool, true, false, ◌||◌, Option, none, some, List, [], ◌∷◌,
  Result, ok, err, failed, Exec, is_some, if◌then◌else◌, inl,
}
use bootupd.Base.Map.{get}
use bootupd.Model.{ContentMetadata, InstalledContent, Adoptable}
use bootupd.Component.{valid}
use bootupd.Component.Tools.{Tools}
use bootupd.Component.Available.{query_adopt_state, get_component_update, get_aleph_version}
use bootupd.Statefile.{Platform}
use bootupd.Bios.{is_efi_booted}
use bootupd.Packagesystem.Query.{run}
use bootupd.Filetree.{
  FileMetadata, FileTree, FileTreeDiff, Found, missing, a_file, diff, relative_diff_to,
}
use bootupd.Filetree.Diff.{IsTree}
use bootupd.Filetree.Scan.{Entries, dir, file, end, entry, new_from_dir}
use bootupd.Filetree.Disk.{Disk}
use bootupd.Filetree.Apply.{
  apply_diff, place_of, cleanup_dir, remove_loop, get_first_dir, remove_at, prepare_removal,
  copy_dir, write_loop, write_at, prepare_write, copy_if, dir_name, exchange_loop, put_in_place,
  exchange_fail_point, syncfs, clean_loop,
}
use bootupd.Efi.Host.{Host}
use bootupd.Efi.Mount.{
  find_mounted, mount_first, mount_esp, ensure_mounted, ensure_mounted_esp, open_esp,
  open_esp_optional, esp_path, drop, umount_args, set_cell, get_esp_device, validate_esp,
  first_existing,
}
use bootupd.Efi.Mount.Mounted.{
  KeepsCell, IsEsp, IsMounted, IsFoundOrMounted, ensure_mounted_esp_lem,
}
use bootupd.Efi.Mount.Dropped.{drop-ensure_mounted_esp}
use bootupd.Efi.Firmware.{
  skip_systemd_bootloaders, get_loader_info, get_stub_info, read_efi_var_utf16_string,
}
use bootupd.Efi.Operations.{
  run_update, adopt_update, validate, query_adopt, query_adopt_on, query_update, read_update_dir,
  validation,
}
use bootupd.Efi.Updates.{mounted, IsAdopted, adopt_update_applies, validate_valid}
use bootupd.Tests.Folder.{Folder, nothing, a_dir, folder}
use bootupd.Tests.Machine.{Text, read_new, read_old, new_build, old_build}

pub record Station : Type 0 where
  pub cell : Option Str
  pub state : Option Text
  pub esp : Folder

abbrev pub station : Platform
station = record {
  Machine = Station;
  Json = Text;
  to_writer = λ s. inl s;
  from_str = read_new;
  from_str_01 = read_old;
  and_utc = λ t. t;
  open_dir = λ _ _. ok tt;
  read_statefile = λ _ w. ok w.state;
  statefile_exists = λ _ w. is_some w.state;
  write_statefile = λ _ t w. (ok tt, record w { state = some t });
  lock_exclusive = λ _ w. (ok tt, w);
  register_sigterm = λ w. (ok tt, w);
  is_read_only = λ _ _. ok false;
  remount_rw = λ _ w. (ok true, w);
  fail_eval = λ _ _. none;
}

abbrev pub meta : ℕ → FileMetadata
meta n = record { size = n; sha512 = codes "sha512:0a" }

abbrev pub there : Str → Bool
there p =
    p == codes "/boot/efi"
    || p == codes "/dev/disk/by-partlabel/EFI-SYSTEM"
    || p == codes "/sysroot/.coreos-aleph-version.json"

abbrev pub tools : Tools Station
tools = record {
  Text = ContentMetadata;
  exists = λ p _. there p;
  try_exists = λ _ _. ok true;
  created = λ _ _. ok 5;
  open_dir = λ _ _. ok tt;
  sub_dir = λ _ _ _. ok tt;
  open_file_optional = λ _ _ _. ok (some new_build);
  write_file_with = λ _ _ _ w. (ok tt, w);
  from_reader = λ t. ok t;
  to_writer = λ m. m;
  open_aleph = λ _ _. ok (ok (codes "39"), ok 3);
  read_dir = λ _ _. ok none;
  fd_path = λ _ _. ok (codes "/");
  status = λ _ w. (ok true, w);
  output = λ _ w. (ok (true, ok []), w);
  findmnt = λ _ _. err (failed "No file system");
  find_parent_devices = λ _ _. ok [];
  partitions_of = λ _ _. ok [];
  parse_from_str = λ _. some 0;
}

abbrev pub image : Entries
image =
    entry (some (codes "fedora")) (dir (entry (some (codes "b.cfg")) (file (ok (meta 1))) end)) end

abbrev pub source : Str → Option FileMetadata
source p = get ((codes "fedora/b.cfg", meta 1) ∷ []) p

abbrev pub on_esp : {A : Type 0} → Exec Folder A → Exec Station A
on_esp m w = ((m w.esp).0, record w { esp = (m w.esp).1 })

abbrev pub esp_disk : Disk Station
esp_disk = record {
  list_dir = λ w. end;
  exists = λ x w. (folder end source).exists x w.esp;
  cp_a = λ x y. on_esp ((folder end source).cp_a x y);
  remove_file = λ p. on_esp ((folder end source).remove_file p);
  remove_file_optional = λ p. on_esp ((folder end source).remove_file_optional p);
  remove_all = λ p. on_esp ((folder end source).remove_all p);
  ensure_dir_all = λ p. on_esp ((folder end source).ensure_dir_all p);
  copy_file_at = λ s p. on_esp ((folder end source).copy_file_at s p);
  local_exchange = λ a b. on_esp ((folder end source).local_exchange a b);
  local_rename = λ a b. on_esp ((folder end source).local_rename a b);
  reopen = λ w. ok tt;
  sync = λ w. (ok tt, w);
  fail_eval = λ n w. none;
}

abbrev pub host : Host Station
host = record {
  mountpoint = λ w. w.cell;
  set_mountpoint = λ m w. record w { cell = m };
  statfs = λ _ _. ok 61267;
  fstatfs = λ _ _. ok 19780;
  sub_dir_optional = λ _ _ _. ok true;
  list_dir = λ _ _. image;
  metadata_optional =
      λ _ _ p. ok (if p == codes "fedora/a.cfg" then a_file (ok (meta 1)) else missing);
  walk = λ _ _. [];
  disk = λ _ _. esp_disk;
  remove_dir_all = λ _ w. (ok tt, w);
  status_in = λ _ _ w. (ok true, w);
  read = λ _ _. ok [];
  read_to_string = λ _ _. ok [];
  exists_at = λ _ _ _. ok false;
  os_release_name = λ _. ok (codes "Fedora Linux");
  without_release = λ s. s;
  to_lowercase = λ s. s;
  from_vec = λ _. ok [];
}

abbrev pub idle : Station
idle = record {
  cell = none;
  state = none;
  esp = λ x.
      if x == codes "fedora" then a_dir (λ r. get ((codes "a.cfg", meta 1) ∷ []) r) else nothing;
}

host-KeepsCell : KeepsCell station tools host
host-KeepsCell = record {
  mountpoint_set = λ m w. refl;
  status_keeps = λ args w. refl;
  remount_keeps = λ p w. refl;
}

mounts : (ensure_mounted_esp station tools host (codes "/") idle).0 ≡ ok (codes "/boot/efi")
unfolding ensure_mounted_esp ensure_mounted find_mounted mount_esp mount_first get_esp_device
    first_existing run set_cell bootupd.Base.Path.join bootupd.Base.str_dec
mounts = refl

ensure_mounted_esp_lem_example :
    IsFoundOrMounted station tools host host-KeepsCell
      (codes "/boot/efi")
      idle
      (ensure_mounted_esp station tools host (codes "/") idle).1
ensure_mounted_esp_lem_example =
    ensure_mounted_esp_lem station tools host host-KeepsCell (codes "/") (codes "/boot/efi") idle
      mounts

drop-ensure_mounted_esp_example :
    let v = (ensure_mounted_esp station tools host (codes "/") idle).1 in
    (host.mountpoint (drop station tools host v) ≡ none)
    × ((IsEsp station tools host host-KeepsCell (codes "/boot/efi") idle
          × (drop station tools host v ≡ v))
        ⊎ (IsMounted station tools host host-KeepsCell (codes "/boot/efi") idle v
            × (drop station tools host v
                ≡ (tools.status (umount_args (codes "/boot/efi")) (host.set_mountpoint none v)).1)))
drop-ensure_mounted_esp_example =
    drop-ensure_mounted_esp station tools host host-KeepsCell (codes "/") (codes "/boot/efi") idle
      refl mounts

abbrev pub old_tree : FileTree
old_tree = record { children = (codes "fedora/a.cfg", meta 1) ∷ [] }

abbrev pub new_tree : FileTree
new_tree = record { children = (codes "fedora/b.cfg", meta 1) ∷ [] }

abbrev pub installed : InstalledContent
installed = record { meta = old_build; filetree = some old_tree; adopted_from = none }

abbrev pub updated : InstalledContent
updated = record { meta = new_build; filetree = some new_tree; adopted_from = none }

pub updates : (run_update station tools host installed idle).0 ≡ ok updated
unfolding run_update query_update get_component_update read_update_dir new_from_dir open_esp
    esp_path ensure_mounted_esp ensure_mounted find_mounted mount_esp mount_first get_esp_device
    first_existing run set_cell bootupd.Base.Path.join validate_esp diff apply_diff place_of
    bootupd.Base.Split.split_once get cleanup_dir bootupd.Base.str_dec bootupd.Base.set_insert
    remove_loop get_first_dir remove_at prepare_removal copy_dir write_loop write_at prepare_write
    copy_if dir_name exchange_loop put_in_place exchange_fail_point syncfs clean_loop
    bootupd.Filetree.Scan.scan_entries bootupd.Filetree.Scan.add_child bootupd.Base.Map.insert
    bootupd.Base.str_lt
updates = refl

pub old_tree-IsTree : IsTree old_tree
old_tree-IsTree = tt

recorded : get old_tree.children (codes "fedora/a.cfg") ≡ some (meta 1)
unfolding get bootupd.Base.str_dec
recorded = refl

validates : (validate station tools host installed idle).0 ≡ ok valid
unfolding validate is_efi_booted open_esp esp_path validation relative_diff_to ensure_mounted_esp
    ensure_mounted find_mounted mount_esp mount_first get_esp_device first_existing run set_cell
    bootupd.Base.Path.join bootupd.Base.str_dec
validates = refl

validate_valid_example :
    (esp : Str) × ((open_esp station tools host
        (ensure_mounted_esp station tools host (codes "/") idle).1).0
      ≡ ok esp)
    × (host.metadata_optional esp (mounted station tools host idle) (codes "fedora/a.cfg")
        ≡ ok (a_file (ok (meta 1))))
validate_valid_example =
    validate_valid station tools host idle installed old_tree (codes "fedora/a.cfg") (meta 1)
      old_tree-IsTree refl recorded validates

abbrev adopted : InstalledContent
adopted = record {
  meta = new_build;
  filetree = some new_tree;
  adopted_from = some (record { timestamp = 3; version = codes "39" });
}

adopts : (adopt_update station tools host new_build idle).0 ≡ ok adopted
unfolding adopt_update query_adopt query_adopt_on open_esp_optional is_efi_booted
    skip_systemd_bootloaders get_loader_info get_stub_info read_efi_var_utf16_string
    query_adopt_state get_aleph_version relative_diff_to read_update_dir new_from_dir open_esp
    esp_path ensure_mounted_esp ensure_mounted find_mounted mount_esp mount_first get_esp_device
    first_existing run set_cell bootupd.Base.Path.join validate_esp apply_diff place_of
    bootupd.Base.Split.split_once get cleanup_dir bootupd.Base.str_dec bootupd.Base.set_insert
    remove_loop get_first_dir remove_at prepare_removal copy_dir write_loop write_at prepare_write
    copy_if dir_name exchange_loop put_in_place exchange_fail_point syncfs clean_loop
    bootupd.Filetree.Scan.scan_entries bootupd.Filetree.Scan.add_child bootupd.Base.Map.insert
    bootupd.Base.str_lt
adopts = refl

adopt_update_applies_example :
    (from : Adoptable) × (new : FileTree) × (d : FileTreeDiff) × (esp : Str) × IsAdopted station
      tools host idle new_build adopted from new d esp
adopt_update_applies_example = adopt_update_applies station tools host idle new_build adopted adopts
