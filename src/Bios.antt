-- ===== src/Bios.antt =====
-- src/bios.rs: the component for BIOS booting, which runs grub2-install. Built for x86_64.
pub mod Runs
use bootupd.Base.{
  Str, codes, Bool, true, false, Option, none, some, List, [], ◌∷◌, Result, ok, err, failed,
  panicked, Exec, pure, bail, lift, ask, ◌>>=◌, ◌>>◌, and_then, ok_or, if◌then◌else◌, not, ◌&&◌,
  is_some,
}
use bootupd.Base.Path.{join}
use bootupd.Model.{ContentMetadata, InstalledContent, Adoptable}
use bootupd.Component.{Component, ValidationResult, skip}
use bootupd.Component.Tools.{Tools}
use bootupd.Component.Available.{get_component_update, query_adopt_state, write_update_metadata}
use bootupd.Blockdev.{get_single_device, get_bios_boot_partition}
use bootupd.Packagesystem.Query.{query_files}

abbrev grub_bin : Str
grub_bin = codes "usr/sbin/grub2-install"

abbrev pub bios_name : Str
bios_name = codes "BIOS"

module _ {W : Type 0} (T : Tools W) where
  unfoldable pub check_grub_modules : W → Result Bool
  check_grub_modules = T.try_exists (codes "/usr/lib/grub/i386-pc")

  abbrev pub grub_install_args : Str → Str → List Str
  grub_install_args dest_root device =
      codes "/usr/sbin/grub2-install"
      ∷ codes "--target"
      ∷ codes "i386-pc"
      ∷ codes "--boot-directory"
      ∷ join dest_root (codes "boot")
      ∷ codes "--modules"
      ∷ codes "mdraid1x part_gpt"
      ∷ device
      ∷ []

  unfoldable pub run_grub_install : Str → Str → Exec W (Unit {0})
  unfolding check_grub_modules
  run_grub_install dest_root device = do
    modules ← ask check_grub_modules
    if not modules then bail (failed "Failed to find grub2-modules") else do
      found ← ask (λ w. ok (T.exists (codes "/usr/sbin/grub2-install") w))
      if not found then bail (failed "Failed to find grub2-install") else do
        cmdout ← T.output (grub_install_args dest_root device)
        if cmdout.0 then pure tt else bail (failed "Failed to run grub2-install")

  -- An error of the search for the device is only logged, one of the search on it panics.
  bios_boot_of : W → Result Str → Result (Option Str)
  bios_boot_of w (err _) = ok none
  bios_boot_of w (ok device) = elim (get_bios_boot_partition T w device) [
    | ok part ↦ ok part
    | err _ ↦ err (panicked "get bios_boot part")
  ]

  unfoldable pub bios_boot_partition : W → Result (Option Str)
  unfolding bios_boot_of
  bios_boot_partition w = bios_boot_of w (get_single_device T (codes "/") w)

  -- `is_efi_booted` of src/efi.rs
  unfoldable pub is_efi_booted : W → Result Bool
  is_efi_booted = T.try_exists (codes "/sys/firmware/efi")

  unfoldable pub query_adopt : W → Result (Option Adoptable)
  unfolding is_efi_booted bios_boot_partition
  query_adopt w = and_then (is_efi_booted w) λ efi.
      if not efi
      then query_adopt_state T w
      else and_then (bios_boot_partition w)
          (λ part. if is_some part then query_adopt_state T w else ok none)

  abbrev content : ContentMetadata → Option ContentMetadata → InstalledContent
  content meta from = record { meta = meta; filetree = none; adopted_from = from }

  unfoldable pub adopt_update : ContentMetadata → Exec W InstalledContent
  unfolding query_adopt run_grub_install
  adopt_update update = do
    found ← ask query_adopt
    meta ← lift (ok_or found (failed "Failed to find adoptable system"))
    device ← ask (get_single_device T (codes "/"))
    run_grub_install (codes "/") device
    pure (content update (some meta.version))

  unfoldable pub install : Str → Str → Str → Bool → Exec W InstalledContent
  unfolding run_grub_install
  install src_root dest_root device _ = do
    found ← ask (get_component_update T src_root bios_name)
    meta ← lift (ok_or found (failed "No update metadata for component found"))
    run_grub_install dest_root device
    pure (content meta none)

  unfoldable pub generate_update_metadata : Str → Exec W ContentMetadata
  generate_update_metadata sysroot_path = do
    found ← ask (λ w. ok (T.exists (join sysroot_path grub_bin) w))
    if not found then bail (failed "Failed to find grub2-install") else do
      meta ← query_files T sysroot_path (join sysroot_path grub_bin ∷ [])
      write_update_metadata T sysroot_path bios_name meta
      pure meta

  -- The daemon calls it with the root that it holds open at `/`.
  unfoldable pub run_update : InstalledContent → Exec W InstalledContent
  unfolding run_grub_install
  run_update _ = do
    found ← ask (get_component_update T (codes "/") bios_name)
    updatemeta ← lift (ok_or found (panicked "update available"))
    dest_root ← ask (T.fd_path (codes "/"))
    device ← ask (get_single_device T dest_root)
    run_grub_install dest_root device
    pure (content updatemeta none)

  abbrev pub bios : Component W
  bios = record {
    name = bios_name;
    query_adopt = ask query_adopt;
    adopt_update = adopt_update;
    install = install;
    generate_update_metadata = generate_update_metadata;
    query_update = get_component_update T (codes "/") bios_name;
    run_update = run_update;
    validate = λ _. pure skip;
    get_efi_vendor = λ _ _. ok none;
    unmount = λ w. w;
  }
