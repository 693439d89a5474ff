-- ===== src/Tests/State.antt =====
-- Runs of `update`, `adopt_and_update`, `status` and the state file on small machines.
use mathlib.Core.Option.{get_or}
use bootupd.Base.{
  Str, codes, ◌≡◌, refl, ◌⊎◌, ◌↔◌, inl, inr, Bool, true, false, Option, none, some, List, [], ◌∷◌,
  Result, ok, err, Error, failed, arith, ◌≢◌, ◌≤◌, ◌<◌,
}
use bootupd.Base.Map.{get, insert, IsSorted}
use bootupd.Model.{
  InstalledContent, SavedState, no_state, can_upgrade_to, from_metadata, upgradable, Status,
  ComponentStatus,
}
use bootupd.Model.Legacy.{SavedState01, converted}
use bootupd.Component.{Component, new_from_name}
use bootupd.Statefile.{load_from_disk, update_state}
use bootupd.Statefile.Roundtrip.{load_old_format}
use bootupd.Bootupd.{slash, updated, update, adopt_and_update, or_default}
use bootupd.Bootupd.Status.{status, component_status}
use bootupd.Bootupd.Recorded.{Due, NoPending, update_records, update_failed, update_never_pending}
use bootupd.Bootupd.Adopt.{adopt_records, adopt_failed, Adoption}
use bootupd.Bootupd.Report.{Reported, status_reports}
use bootupd.Tests.Machine.{
  Disk, machine, machine-IsLawful, no_space, old_build, new_build, content, efi, bios, components,
  both, holding,
}

abbrev upgraded : SavedState
upgraded = record both { installed = insert both.installed (codes "EFI") (content new_build) }

update_run :
    (update machine efi bios (codes "EFI") (holding both)).0 ≡ ok (updated old_build none new_build)
unfolding update load_from_disk new_from_name bootupd.Bootupd.update_component get can_upgrade_to
    bootupd.Bootupd.apply_update
update_run = refl

update_records_example :
    (state : SavedState) × (inst n : InstalledContent) × (c : Component Disk) × (u : Disk) × Due
      machine machine-IsLawful efi bios components
      (codes "EFI")
      (holding both)
      state
      inst
      c
      new_build
    × ((c.run_update inst u).0 ≡ ok n)
    × (old_build ≡ inst.meta)
    × (none ≡ get (get_or state.pending []) (codes "EFI"))
    × (load_from_disk machine slash (update machine efi bios (codes "EFI") (holding both)).1
        ≡ ok (
            some (record state {
              installed = insert state.installed (codes "EFI") n;
              pending = none;
            })))
update_records_example =
    update_records machine machine-IsLawful efi bios components (codes "EFI") (holding both)
      update_run

-- `run_update` of the BIOS component fails.
update_fails :
    (update machine efi bios (codes "BIOS") (holding both)).0
    ≡ err (failed "Failed to run grub2-install")
unfolding update load_from_disk new_from_name bootupd.Bootupd.update_component get can_upgrade_to
    bootupd.Bootupd.apply_update
update_fails = refl

update_failed_example :
    (load_from_disk machine slash (update machine efi bios (codes "BIOS") (holding both)).1
      ≡ load_from_disk machine slash (holding both))
    ⊎ ((state : SavedState) × (load_from_disk machine slash (holding both) ≡ ok (some state))
        × (load_from_disk machine slash (update machine efi bios (codes "BIOS") (holding both)).1
            ≡ ok (some (record state { pending = none }))))
update_failed_example =
    update_failed machine machine-IsLawful efi bios components (codes "BIOS") (holding both)
      update_fails

nothing_pending : NoPending (load_from_disk machine slash (holding both))
unfolding load_from_disk
nothing_pending = refl

update_never_pending_example :
    NoPending
      (load_from_disk machine slash (update machine efi bios (codes "BIOS") (holding both)).1)
update_never_pending_example =
    update_never_pending machine machine-IsLawful efi bios components (codes "BIOS") (holding both)
      nothing_pending

adopt_run : (adopt_and_update machine efi bios (codes "EFI") (holding no_state)).0 ≡ ok new_build
unfolding adopt_and_update load_from_disk new_from_name bootupd.Bootupd.adopt_component get
adopt_run = refl

adopt_records_example :
    Adoption machine machine-IsLawful efi bios components
      (codes "EFI")
      (holding no_state)
      new_build
      (adopt_and_update machine efi bios (codes "EFI") (holding no_state)).1
adopt_records_example =
    adopt_records machine machine-IsLawful efi bios components (codes "EFI") (holding no_state)
      adopt_run

-- The component is installed already.
adopt_fails :
    (adopt_and_update machine efi bios (codes "EFI") (holding both)).0
    ≡ err (failed "Component is already installed")
unfolding adopt_and_update load_from_disk new_from_name bootupd.Bootupd.adopt_component get
adopt_fails = refl

adopt_failed_example :
    load_from_disk machine slash (adopt_and_update machine efi bios (codes "EFI") (holding both)).1
    ≡ load_from_disk machine slash (holding both)
adopt_failed_example =
    adopt_failed machine machine-IsLawful efi bios components (codes "EFI") (holding both)
      adopt_fails

both-IsSorted : IsSorted both.installed
unfolding bootupd.Base.str_lt
both-IsSorted = (refl, tt)

both_loaded : load_from_disk machine slash (holding both) ≡ ok (some both)
unfolding load_from_disk
both_loaded = refl

abbrev listed : ComponentStatus
listed = record {
  installed = old_build;
  interrupted = none;
  update = some new_build;
  updatable = upgradable;
  adopted_from = none;
}

abbrev report : Status
report = record { components = (codes "BIOS", listed) ∷ (codes "EFI", listed) ∷ []; adoptable = [] }

status_run : (status machine efi bios (holding both)).0 ≡ ok report
unfolding status load_from_disk get bootupd.Bootupd.Status.get_components insert
    bootupd.Base.str_dec bootupd.Base.str_lt bootupd.Base.Map.remove
    bootupd.Bootupd.Status.adoptable_loop component_status from_metadata
status_run = refl

status_reports_example :
    Reported machine efi bios
      (holding both)
      both
      (codes "EFI")
      (get both.installed (codes "EFI"))
      report
status_reports_example =
    status_reports machine efi bios (holding both) both (codes "EFI") both-IsSorted both_loaded
      status_run

save_run : (update_state machine slash both (holding no_state)).0 ≡ ok tt
unfolding update_state
save_run = refl

abbrev full_disk : Disk
full_disk = record (holding no_state) { full = true }

save_fails : (update_state machine slash both full_disk).0 ≡ err no_space
unfolding update_state
save_fails = refl

abbrev legacy : SavedState01
legacy = record {
  installed =
      (
        codes "EFI",
        record { meta = record { timestamp = 7; version = codes "shim-15" }; filetree = none },
      )
      ∷ [];
  pending = none;
}

abbrev legacy_disk : Disk
legacy_disk = record { file = some (inr legacy); full = false }

load_old_format_example :
    (s : SavedState) × (load_from_disk machine slash legacy_disk ≡ ok (some s))
    × (get s.installed (codes "EFI")
        ≡ converted machine.and_utc (get legacy.installed (codes "EFI")) none)
    × (s.pending ≡ none)
    × (s.static_configs ≡ none)
load_old_format_example =
    load_old_format machine slash legacy_disk (inr legacy) (failed "missing field") legacy
      (codes "EFI") refl refl refl refl tt
