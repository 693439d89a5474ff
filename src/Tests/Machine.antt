-- ===== src/Tests/Machine.antt =====
-- A machine with one state file, on a disk that may be full, and two components.
use bootupd.Base.{
  is_some, Str, codes, ◌≡◌, refl, ◌⊎◌, inl, inr, Bool, true, false, Option, none, some, [], ◌∷◌,
  Result, ok, err, Error, failed,
}
use bootupd.Model.{ContentMetadata, InstalledContent, SavedState}
use bootupd.Model.Legacy.{SavedState01}
use bootupd.Component.{Component, valid}
use bootupd.Statefile.{Platform, IsLawful}
use bootupd.Component.Tools.{Tools, Partition}
use bootupd.Blockdev.{esp_type_guid, bios_boot_type_guid}
use bootupd.Bootupd.Steps.{KeepsState, AreComponents}

abbrev pub Text : Type 0
Text = SavedState ⊎ SavedState01

pub record Disk : Type 0 where
  pub file : Option Text
  pub full : Bool

abbrev pub no_space : Error
no_space = failed "No space left on device"

abbrev pub read_new : Text → Result SavedState
read_new (inl s) = ok s
read_new (inr old) = err (failed "missing field")

abbrev pub read_old : Text → Result SavedState01
read_old (inl s) = err (failed "expected date")
read_old (inr old) = ok old

abbrev pub write : Bool → Text → Disk → Result (Unit {0}) × Disk
write true t w = (err no_space, w)
write false t w = (ok tt, record w { file = some t })

abbrev pub machine : Platform
machine = record {
  Machine = Disk;
  Json = Text;
  to_writer = λ s. inl s;
  from_str = read_new;
  from_str_01 = read_old;
  and_utc = λ t. t;
  open_dir = λ _ _. ok tt;
  read_statefile = λ _ w. ok w.file;
  statefile_exists = λ _ w. is_some w.file;
  write_statefile = λ _ t w. write w.full t w;
  lock_exclusive = λ _ w. (ok tt, w);
  register_sigterm = λ w. (ok tt, w);
  is_read_only = λ _ _. ok true;
  remount_rw = λ _ w. (ok true, w);
  fail_eval = λ _ _. none;
}

look_write :
    (b : Bool) (t : Text) (w : Disk) → (write b t w).0 ≡ ok tt → (write b t w).1.file ≡ some t
look_write true t w h = cc
look_write false t w h = refl

look_full :
    (b : Bool) (t : Text) (w : Disk) (e : Error)
    → (write b t w).0 ≡ err e
    → (write b t w).1.file ≡ w.file
look_full true t w e h = refl
look_full false t w e h = cc

pub machine-IsLawful : IsLawful machine
machine-IsLawful = record {
  from_str-to_writer = λ s. refl;
  look-write = λ root t w h. rw (look_write w.full t w h) refl;
  look-write_failed = λ root t w e h. rw (look_full w.full t w e h) refl;
  lock_quiet = λ at root w. refl;
  sigterm_quiet = λ root w. refl;
  remount_quiet = λ at root w. refl;
}

abbrev pub old_build : ContentMetadata
old_build = record { timestamp = 100; version = codes "grub2-2.02" }

abbrev pub new_build : ContentMetadata
new_build = record { timestamp = 200; version = codes "grub2-2.06" }

abbrev pub content : ContentMetadata → InstalledContent
content m = record { meta = m; filetree = none; adopted_from = none }

-- A component with an update, whose `run_update` ends in the given way.
abbrev pub tool : Str → Result InstalledContent → Component Disk
tool called outcome = record {
  name = called;
  query_adopt = λ w. (ok none, w);
  adopt_update = λ m w. (ok (record (content m) { adopted_from = some old_build }), w);
  install = λ _ _ _ _ w. (ok (content new_build), w);
  generate_update_metadata = λ _ w. (ok new_build, w);
  query_update = λ _. ok (some new_build);
  run_update = λ _ w. (outcome, w);
  validate = λ _ w. (ok valid, w);
  get_efi_vendor = λ _ _. ok none;
  unmount = λ w. w;
}

abbrev pub efi : Component Disk
efi = tool (codes "EFI") (ok (content new_build))

abbrev pub bios : Component Disk
bios = tool (codes "BIOS") (err (failed "Failed to run grub2-install"))

pub tool-KeepsState :
    (called : Str) (outcome : Result InstalledContent) → KeepsState machine (tool called outcome)
tool-KeepsState called outcome = record {
  run_update_quiet = λ i root w. refl;
  adopt_update_quiet = λ m root w. refl;
  query_adopt_quiet = λ root w. refl;
  validate_quiet = λ i root w. refl;
  unmount_quiet = λ root w. refl;
}

pub components : AreComponents machine efi bios
components = record {
  efi_name = refl;
  bios_name = refl;
  efi_keeps = tool-KeepsState (codes "EFI") (ok (content new_build));
  bios_keeps = tool-KeepsState (codes "BIOS") (err (failed "Failed to run grub2-install"));
}

abbrev pub both : SavedState
both = record {
  installed = (codes "BIOS", content old_build) ∷ (codes "EFI", content old_build) ∷ [];
  pending = none;
  static_configs = none;
}

abbrev pub holding : SavedState → Disk
holding s = record { file = some (inl s); full = false }

abbrev pub part : Str → Str → Partition
part n t = record { node = n; parttype = t }

-- One disk with an ESP and a BIOS boot partition, on which every command succeeds.
abbrev pub tools : Tools Disk
tools = record {
  Text = ContentMetadata;
  exists = λ _ _. true;
  try_exists = λ _ _. ok true;
  created = λ _ _. ok 5;
  open_dir = λ _ _. ok tt;
  sub_dir = λ _ _ _. ok tt;
  open_file_optional = λ _ _ _. ok (some new_build);
  write_file_with = λ _ _ _ w. (ok tt, w);
  from_reader = λ t. ok t;
  to_writer = λ m. m;
  open_aleph = λ _ _. ok (ok (codes "39"), ok 3);
  read_dir = λ _ _. ok none;
  fd_path = λ _ _. ok (codes "/");
  status = λ _ w. (ok true, w);
  output = λ _ w. (ok (true, ok []), w);
  findmnt = λ _ _. ok (
      record {
        source = codes "/dev/vda3";
        fstype = codes "ext4";
        options = codes "rw";
        uuid = none;
      }
      ∷ []);
  find_parent_devices = λ _ _. ok (codes "/dev/vda" ∷ []);
  partitions_of = λ _ _.
      ok (
        part (codes "/dev/vda1") bios_boot_type_guid ∷ part (codes "/dev/vda2") esp_type_guid ∷ []);
  parse_from_str = λ _. some 0;
}
