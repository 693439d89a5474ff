-- ===== src/Efi/Operations.antt =====
-- src/efi.rs: the operations of the component for EFI. The daemon calls them with the root that it
-- holds open at `/`.
use bootupd.Base.{
  Str, codes, ◌++◌, Bool, not, ◌&&◌, Option, none, some, List, [], ◌∷◌, map, Result, ok, err,
  failed, panicked, Exec, pure, bail, lift, ask, ◌>>=◌, ◌>>◌, and_then, ok_or, if◌then◌else◌,
  is_some,
}
use bootupd.Base.Path.{join}
use bootupd.Model.{ContentMetadata, InstalledContent, Adoptable}
use bootupd.Component.{Component, ValidationResult, valid, skip, errors}
use bootupd.Component.Tools.{Tools}
use bootupd.Component.Available.{
  get_component_update, query_adopt_state, write_update_metadata, component_updatedir,
  component_updatedirname,
}
use bootupd.Packagesystem.Query.{query_files, run}
use bootupd.Statefile.{Platform}
use bootupd.Bios.{is_efi_booted}
use bootupd.Util.{filenames}
use bootupd.Filetree.{FileTree, FileTreeDiff, diff, relative_diff_to}
use bootupd.Filetree.Scan.{new_from_dir}
use bootupd.Filetree.Apply.{apply_diff}
use bootupd.Efi.Host.{Host}
use bootupd.Efi.Mount.{
  get_esp_device, ensure_mounted_esp, open_esp, open_esp_optional, validate_esp, drop,
}
use bootupd.Efi.Firmware.{skip_systemd_bootloaders, update_firmware}
use bootupd.Efi.Vendor.{efi_name, get_efi_vendor}

-- `BOOT_PREFIX` of src/ostreeutil.rs
abbrev boot_prefix : Str
boot_prefix = codes "usr/lib/ostree-boot"

abbrev root_dir : Str
root_dir = codes "/"

abbrev pub updated_dir : Str
updated_dir = join root_dir (component_updatedirname efi_name)

abbrev pub changed_lines : List Str → List Str
changed_lines = map (λ f. codes "Changed: " ++ f)

abbrev pub removed_lines : List Str → List Str
removed_lines = map (λ f. codes "Removed: " ++ f)

abbrev pub verdict_of : List Str → ValidationResult
verdict_of [] = valid
verdict_of (e ∷ errs) = errors (e ∷ errs)

-- The end of `validate`. Nothing is ever listed as added.
unfoldable pub validation : FileTreeDiff → Result ValidationResult
validation d = elim d.additions [
  | [] ↦ ok (verdict_of (changed_lines d.changes ++ removed_lines d.removals))
  | a ∷ rest ↦ err (panicked "assertion failed: `(left == right)`")
]

module _ (P : Platform) (T : Tools P.Machine) (H : Host P.Machine) where
  -- The rest of `query_adopt`, where there is an ESP.
  unfoldable pub query_adopt_on : Option Str → Exec P.Machine (Option Adoptable)
  query_adopt_on none = pure none
  query_adopt_on (some esp) = do
    skips ← ask (skip_systemd_bootloaders T H)
    if skips then pure none else ask (query_adopt_state T)

  unfoldable pub query_adopt : Exec P.Machine (Option Adoptable)
  unfolding query_adopt_on
  query_adopt = do esp ← open_esp_optional P T H; query_adopt_on esp

  -- The directory of the update with its tree.
  unfoldable pub read_update_dir : P.Machine → Result FileTree
  read_update_dir w =
      and_then (T.sub_dir root_dir (component_updatedirname efi_name) w)
        (λ _. new_from_dir (H.list_dir updated_dir w))

  unfoldable pub adopt_update : ContentMetadata → Exec P.Machine InstalledContent
  unfolding query_adopt read_update_dir
  adopt_update updatemeta = do
    found ← query_adopt
    meta ← lift (ok_or found (failed "Failed to find adoptable system"))
    esp ← open_esp P T H
    ask (validate_esp P T H esp)
    updatef ← ask read_update_dir
    d ← ask (λ w. relative_diff_to updatef (H.metadata_optional esp w))
    apply_diff (H.disk updated_dir esp) d none
    pure (record { meta = updatemeta; filetree = some updatef; adopted_from = some meta.version })

  abbrev pub cp_args : Str → List Str
  cp_args destdir =
      codes "cp"
      ∷ codes "-rp"
      ∷ codes "--reflink=auto"
      ∷ component_updatedirname efi_name
      ∷ destdir
      ∷ []

  -- The boot entry, where a vendor is found.
  add_entry : Str → Str → Option Str → Exec P.Machine (Unit {0})
  add_entry device destd none = pure tt
  add_entry device destd (some vendordir) = update_firmware T H device destd vendordir

  unfoldable pub install : Str → Str → Str → Bool → Exec P.Machine InstalledContent
  unfolding add_entry
  install src_root dest_root device firmware = do
    found ← ask (get_component_update T src_root efi_name)
    meta ← lift (ok_or found (failed "No update metadata for component found"))
    ask (T.sub_dir src_root (component_updatedirname efi_name))
    ft ← ask (λ w. new_from_dir (H.list_dir (join src_root (component_updatedirname efi_name)) w))
    destdir ← ensure_mounted_esp P T H dest_root
    ask (T.open_dir destdir)
    ask (validate_esp P T H destdir)
    copied ← H.status_in src_root (cp_args destdir)
    if not copied then bail (failed "Child exited") else do
      if not firmware
          then pure tt
          else do vendor ← ask (get_efi_vendor T H src_root); add_entry device destdir vendor
      pure (record { meta = meta; filetree = some ft; adopted_from = none })

  unfoldable pub query_update : P.Machine → Result (Option ContentMetadata)
  query_update = get_component_update T root_dir efi_name

  unfoldable pub run_update : InstalledContent → Exec P.Machine InstalledContent
  unfolding query_update read_update_dir
  run_update current = do
    currentf ← lift (ok_or current.filetree (failed "No filetree for installed EFI found!"))
    found ← ask query_update
    updatemeta ← lift (ok_or found (panicked "update available"))
    updatef ← ask read_update_dir
    ensure_mounted_esp P T H root_dir
    destdir ← open_esp P T H
    ask (validate_esp P T H destdir)
    apply_diff (H.disk updated_dir destdir) (diff currentf updatef) none
    pure (record { meta = updatemeta; filetree = some updatef; adopted_from = none })

  unfoldable pub remove_cruft : Str → List Str → Exec P.Machine (Unit {0})
  remove_cruft bootdir [] = pure tt
  remove_cruft bootdir (p ∷ rest) = do
    there ← ask (λ w. ok (T.exists (join bootdir p) w))
    if there then H.remove_dir_all (join bootdir p) else pure tt
    remove_cruft bootdir rest

  -- The files that the package system left are moved to their place.
  unfoldable pub move_files : Str → Str → Exec P.Machine (Unit {0})
  unfolding remove_cruft
  move_files bootdir dest_efidir = do
    there ← ask (λ w. ok (T.exists bootdir w))
    if not there then pure tt else do
      remove_cruft bootdir (codes "loader" ∷ codes "grub2" ∷ [])
      found ← ask (λ w. ok (T.exists (join bootdir (codes "efi/EFI")) w))
      if not found
          then bail (failed "Failed to find efi/EFI")
          else run T (codes "mv" ∷ join bootdir (codes "efi/EFI") ∷ dest_efidir ∷ [])

  unfoldable pub generate_update_metadata : Str → Exec P.Machine ContentMetadata
  unfolding move_files
  generate_update_metadata sysroot_path = do
    let dest_efidir = component_updatedir sysroot_path efi_name
    move_files (join sysroot_path boot_prefix) dest_efidir
    ask (T.open_dir dest_efidir)
    files ← ask (λ w. filenames (H.list_dir dest_efidir w))
    meta ← query_files T sysroot_path (map (λ f. codes "/boot/efi/EFI/" ++ f) files)
    write_update_metadata T sysroot_path efi_name meta
    pure meta

  unfoldable pub validate : InstalledContent → Exec P.Machine ValidationResult
  validate current = do
    booted ← ask (is_efi_booted T)
    device ← ask (λ w. ok (get_esp_device P T H w))
    if not booted && not (is_some device) then pure skip else do
      currentf ← lift (ok_or current.filetree (failed "No filetree for installed EFI found!"))
      ensure_mounted_esp P T H root_dir
      efidir ← open_esp P T H
      d ← ask (λ w. relative_diff_to currentf (H.metadata_optional efidir w))
      lift (validation d)

  -- `Efi` as a component; its value is dropped with the unmount.
  abbrev pub efi : Component P.Machine
  efi = record {
    name = efi_name;
    query_adopt = query_adopt;
    adopt_update = adopt_update;
    install = install;
    generate_update_metadata = generate_update_metadata;
    query_update = query_update;
    run_update = run_update;
    validate = validate;
    get_efi_vendor = get_efi_vendor T H;
    unmount = drop P T H;
  }
