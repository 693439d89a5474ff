-- ===== src/Bootupd/Installed.antt =====
-- What `install` refuses, and which components its loop records.
use bootupd.Base.{
  Str, codes, ◌==◌, ◌≡◌, Bool, true, false, not, ◌&&◌, ◌||◌, Option, List, [], ◌∷◌, Result, ok, err,
  Error, failed, continue-ok, is_some, is_empty, Bool-cases, Result-cases, ok_inj, inl, inr, arith,
  Exec,
}
use bootupd.Base.Map.{BTreeMap, get, insert, get-insert}
use bootupd.Model.{ContentMetadata, InstalledContent}
use bootupd.Component.{Component}
use bootupd.Statefile.{Platform, ensure_not_present}
use bootupd.Bootupd.Install.{ConfigMode, install, install_loop, add_vendor}

module _ (P : Platform) (efi bios : Component P.Machine) (is_efi_booted : P.Machine → Result Bool)
    (self_metadata : P.Machine → Result ContentMetadata)
    (install_grub_configs : Str → Option Str → Bool → Exec P.Machine (Unit {0})) where
  -- Where the destination has a state file already, `install` fails and leaves the machine as it
  -- was.
  pub install_present :
      (source dest : Str) (device : Option Str) (mode : ConfigMode) (firmware : Bool)
      (targets : Option (List Str)) (auto : Bool) (w : P.Machine)
      → P.statefile_exists dest w ≡ true
      → (e : Error) × (install P efi bios is_efi_booted self_metadata install_grub_configs source
            dest device mode firmware targets auto w
          ≡ (err e, w))
  unfolding install ensure_not_present
  install_present source dest device mode firmware targets auto w h =
      elim (Result-cases (P.open_dir source w)) [
        | inl (_, e) ↦ (failed "already exists", rw (e, h))
        | inr (x, e) ↦ (x, rw e)
      ]

  -- The components that are installed: all targets, but for BIOS without a device.
  pub installs : Str → List (Component P.Machine) → Str → Bool
  installs device [] name = false
  installs device (c ∷ rest) name =
      (name == c.name && not (c.name == codes "BIOS" && is_empty device))
      || installs device rest name

  -- If the loop of `install` succeeds, what is recorded as installed has, besides what was there,
  -- exactly the names of the targets, but for BIOS where no device is given.
  pub install_loop-installs :
      (source dest device : Str) (firmware : Bool) (targets : List (Component P.Machine))
      (installed : BTreeMap InstalledContent) (vendor : Option Str) (w : P.Machine) (name : Str)
      {r : BTreeMap InstalledContent × Option Str}
      → (install_loop P efi bios is_efi_booted self_metadata install_grub_configs source dest device
          firmware targets installed vendor w).0
        ≡ ok r
      → is_some (get r.0 name) ≡ (is_some (get installed name) || installs device targets name)
  unfolding install_loop installs
  install_loop-installs source dest device firmware [] installed vendor w name h =
      ground (arith, ok_inj h)
  install_loop-installs source dest device firmware (c ∷ rest) installed vendor w name h =
      elim (Bool-cases (c.name == codes "BIOS" && is_empty device)) [
        | inl skipped ↦ ground (
          arith,
          skipped,
          install_loop-installs source dest device firmware rest installed vendor w name
              (rw skipped at h),
        )
        | inr done ↦
            let h1 = rw done at h in
            let (meta, e, h2) = continue-ok (c.install source dest device firmware w).0 _ _ h1 in
            let (found, f, h3) = continue-ok (c.get_efi_vendor source _) _ _ h2 in
            let (vendor', g, h4) =
              continue-ok
                (add_vendor P efi bios is_efi_booted self_metadata install_grub_configs vendor
                  found)
                _ _ h3 in
            ground (
              arith,
              done,
              get-insert installed c.name name meta,
              install_loop-installs source dest device firmware rest (insert installed c.name meta)
                  vendor' _ name h4,
            )
      ]
