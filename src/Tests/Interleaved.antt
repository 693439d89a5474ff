-- ===== src/Tests/Interleaved.antt =====
-- An update of EFI and an adoption of BIOS in two processes, which interleave.
use bootupd.Base.{
  Str, ℕ, codes, ◌≡◌, refl, Bool, true, false, Option, none, some, List, [], ◌∷◌, Result, ok, eqb,
  if◌then◌else◌, arith,
}
use bootupd.Base.Map.{get, insert}
use bootupd.Model.{InstalledContent, SavedState, no_state, can_upgrade_to}
use bootupd.Component.{new_from_name}
use bootupd.Statefile.{load_from_disk, acquire_write_lock, update_state}
use bootupd.Bootupd.Lasting.{IsKept}
use bootupd.Bootupd.Concurrent.Overwritten.{turns-overwritten}
use bootupd.Bootupd.{slash, updated, ensure_writable_boot}
use bootupd.Bootupd.Concurrent.{
  Phase, update_starts, adopt_starts, ended, did_adopt, World, turn, turns, action,
}
use bootupd.Bootupd.Concurrent.Turns.{is_fresh, turns-one_guard}
use bootupd.Bootupd.Concurrent.Sound.{turns-written, turns-installed}
use bootupd.Bootupd.Concurrent.Alone.{repeat}
use bootupd.Tests.Machine.{
  Disk, machine, machine-IsLawful, efi, bios, components, holding, old_build, new_build, content,
  tool-KeepsState,
}

abbrev efi_alone : SavedState
efi_alone = record no_state { installed = (codes "EFI", content old_build) ∷ [] }

abbrev jobs : ℕ → Phase Disk
jobs p =
    if eqb p 0
    then update_starts (codes "EFI")
    else if eqb p 1
    then adopt_starts (codes "BIOS")
    else ended (did_adopt (ok old_build))

abbrev start : World Disk
start = record { machine = holding efi_alone; holder = none; phase = jobs }

all_fresh : (p : ℕ) → is_fresh (jobs p) ≡ true
all_fresh p = ground arith

loads : load_from_disk machine slash start.machine ≡ ok (some efi_alone)
unfolding load_from_disk
loads = refl

-- Both load the state, then the second goes to its end, then the first.
abbrev crossing : List ℕ
crossing = 0 ∷ 1 ∷ 1 ∷ 1 ∷ 1 ∷ 1 ∷ 1 ∷ 1 ∷ 0 ∷ 0 ∷ 0 ∷ 0 ∷ 0 ∷ 0 ∷ 0 ∷ []

abbrev installed_of : Result (Option SavedState) → Str → Option InstalledContent
installed_of (ok (some s)) name = get s.installed name
installed_of _ name = none

-- The first is between its saves when the second has loaded and waits.
abbrev between : List ℕ
between = 0 ∷ 1 ∷ 1 ∷ 1 ∷ 0 ∷ 0 ∷ 0 ∷ 0 ∷ 1 ∷ []

-- The record of the adoption is lost.
crossing_lost :
    installed_of
      (load_from_disk machine slash (turns machine efi bios crossing start).machine)
      (codes "BIOS")
    ≡ none
unfolding turns load_from_disk turn action new_from_name get ensure_writable_boot acquire_write_lock
    update_state can_upgrade_to insert
crossing_lost = refl

turns-one_guard_example : ◌≡◌ {A = ℕ} 0 0
unfolding turns load_from_disk turn action new_from_name get ensure_writable_boot acquire_write_lock
    update_state can_upgrade_to insert
turns-one_guard_example = turns-one_guard machine efi bios between start all_fresh 0 0 refl refl

turns-written_example :
    load_from_disk machine slash (turns machine efi bios between start).machine
    ≡ ok (some efi_alone)
unfolding turns load_from_disk turn action new_from_name get ensure_writable_boot acquire_write_lock
    update_state can_upgrade_to insert
turns-written_example =
    turns-written machine machine-IsLawful efi bios components between start all_fresh
      (some efi_alone) 0 efi_alone loads refl

turns-installed_example :
    (t : SavedState) × (j : InstalledContent) × (load_from_disk machine slash
        (turns machine efi bios crossing start).machine
      ≡ ok (some t))
    × (get t.installed (codes "EFI") ≡ some j)
    × IsKept machine machine-IsLawful efi bios components
        (codes "EFI")
        efi_alone
        (content old_build)
        j
unfolding get bootupd.Base.str_dec
turns-installed_example =
    turns-installed machine machine-IsLawful efi bios components crossing start all_fresh efi_alone
      (codes "EFI") (content old_build) loads refl

-- The first waits for the lock, after the second has gone to its end.
abbrev waiting : World Disk
waiting = turns machine efi bios (0 ∷ 0 ∷ 0 ∷ 1 ∷ 1 ∷ 1 ∷ 1 ∷ 1 ∷ 1 ∷ 1 ∷ []) start

adopted :
    installed_of (load_from_disk machine slash waiting.machine) (codes "BIOS")
    ≡ some (record (content new_build) { adopted_from = some old_build })
unfolding turns load_from_disk turn action new_from_name get ensure_writable_boot acquire_write_lock
    update_state can_upgrade_to insert bootupd.Base.str_lt
adopted = refl

turns-overwritten_example :
    (t : SavedState) × (load_from_disk machine slash
        (turns machine efi bios (repeat 5 0) waiting).machine
      ≡ ok (some t))
    × (get t.installed (codes "BIOS") ≡ get efi_alone.installed (codes "BIOS"))
unfolding turns load_from_disk turn action new_from_name get ensure_writable_boot acquire_write_lock
    update_state can_upgrade_to insert bootupd.Base.str_lt
turns-overwritten_example =
    turns-overwritten machine machine-IsLawful efi bios efi (tool-KeepsState _ _) efi_alone
      (content old_build) new_build 0 waiting refl refl
      (some (record efi_alone {
        installed =
            (codes "BIOS", record (content new_build) { adopted_from = some old_build })
            ∷ efi_alone.installed;
      }))
      (updated old_build none new_build) (codes "BIOS") refl refl refl
