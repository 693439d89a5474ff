-- ===== src/Bootupd.antt =====
-- src/bootupd.rs: the daemon's operations on the saved state and the components, run by one process.
-- The lines that they print are not modelled, but for those of the status in Print. The lock is taken
-- here, and its release stands in Concurrent.
pub mod Status
pub mod Client
pub mod Install
pub mod Steps
pub mod Update
pub mod Recorded
pub mod Adopt
pub mod Migrate
pub mod Migration
pub mod Generate
pub mod Print
pub mod Printed
pub mod Saved
pub mod Due
pub mod Through
pub mod Lasting
pub mod Concurrent
pub mod Report
pub mod ClientRuns
pub mod Installed
use mathlib.Core.Option.{get_or}
use bootupd.Base.{
  Str, codes, Option, none, some, [], failed, Exec, pure, bail, lift, ask, ◌>>=◌, ◌>>◌, ok_or,
  if◌then◌else◌, is_some,
}
use bootupd.Base.Map.{get, insert}
use bootupd.Model.{ContentMetadata, InstalledContent, SavedState, no_state, can_upgrade_to}
use bootupd.Component.{Component, ValidationResult, new_from_name, owning}
use bootupd.Statefile.{
  Platform, load_from_disk, acquire_write_lock, update_state, ensure_writable_mount,
}

pub data ComponentUpdateResult : Type 0 where
  at_latest_version : ComponentUpdateResult
  updated : ContentMetadata → Option ContentMetadata → ContentMetadata → ComponentUpdateResult

-- `unwrap_or_default()`
abbrev pub or_default : Option SavedState → SavedState
or_default none = no_state
or_default (some s) = s

abbrev pub slash : Str
slash = codes "/"

-- The update that `update` goes on with: `Some(p) if inst.meta.can_upgrade_to(p)`.
abbrev pub wanted : ContentMetadata → Option ContentMetadata → Option ContentMetadata
wanted from none = none
wanted from (some p) = if can_upgrade_to from p then some p else none

module _ (P : Platform) where
  unfoldable pub ensure_writable_boot : Exec P.Machine (Unit {0})
  unfolding ensure_writable_mount
  ensure_writable_boot = ensure_writable_mount P (codes "/boot")

  -- The rest of `update` once an update is wanted. `take()` leaves `None` in `state.pending`, and
  -- the container that is taken out, into which the update is inserted and from which it is removed
  -- again, is written nowhere.
  unfoldable pub apply_update :
      Component P.Machine
      → SavedState
      → InstalledContent
      → ContentMetadata
      → Exec P.Machine ComponentUpdateResult
  unfolding ensure_writable_boot acquire_write_lock update_state
  apply_update component state inst update = do
    ensure_writable_boot
    let interrupted = get (get_or state.pending []) component.name
    let state' = record state { pending = none }
    acquire_write_lock P slash
    update_state P slash state'
    newinst ← component.run_update inst
    update_state P slash
        (record state' { installed = insert state'.installed component.name newinst })
    pure (updated inst.meta interrupted update)

  update_if :
      Component P.Machine
      → SavedState
      → InstalledContent
      → Option ContentMetadata
      → Exec P.Machine ComponentUpdateResult
  update_if component state inst none = pure at_latest_version
  update_if component state inst (some update) = apply_update component state inst update

  unfoldable pub update_component :
      Str → Component P.Machine → SavedState → Exec P.Machine ComponentUpdateResult
  unfolding update_if
  update_component name component state = do
    inst ← lift (ok_or (get state.installed name) (failed "Component is not installed"))
    ask (P.open_dir slash)
    found ← ask component.query_update
    update_if component state inst (wanted inst.meta found)

  -- The rest of `adopt_and_update` for a component that is not installed.
  unfoldable pub adopt_fresh : Component P.Machine → SavedState → Exec P.Machine ContentMetadata
  unfolding ensure_writable_boot acquire_write_lock update_state
  adopt_fresh component state = do
    ensure_writable_boot
    found ← ask component.query_update
    update ← lift (ok_or found (failed "Component has no available update"))
    acquire_write_lock P slash
    inst ← component.adopt_update update
    update_state P slash (record state { installed = insert state.installed component.name inst })
    pure update

  unfoldable pub adopt_component :
      Str → Component P.Machine → SavedState → Exec P.Machine ContentMetadata
  unfolding adopt_fresh
  adopt_component name component state =
      if is_some (get state.installed name)
      then bail (failed "Component is already installed")
      else adopt_fresh component state

module _ (P : Platform) (efi bios : Component P.Machine) where
  unfoldable pub update : Str → Exec P.Machine ComponentUpdateResult
  update name = do
    loaded ← ask (load_from_disk P slash)
    component ← lift (new_from_name efi bios name)
    owning component (update_component P name component (or_default loaded))

  unfoldable pub adopt_and_update : Str → Exec P.Machine ContentMetadata
  adopt_and_update name = do
    ask (P.open_dir slash)
    loaded ← ask (load_from_disk P slash)
    component ← lift (new_from_name efi bios name)
    owning component (adopt_component P name component (or_default loaded))

  unfoldable pub validate : Str → Exec P.Machine ValidationResult
  validate name = do
    loaded ← ask (load_from_disk P slash)
    component ← lift (new_from_name efi bios name)
    owning component do
      inst ←
          lift
            (ok_or (get (or_default loaded).installed name) (failed "Component is not installed"))
      component.validate inst
