-- ===== src/Bootupd/Concurrent.antt =====
-- `update` and `adopt_and_update` of src/bootupd.rs in several processes at once, interleaved at the
-- statements that read or change the machine, and the guard of src/backend/statefile.rs that they take.
-- The lock on run/bootupd-lock is the field `holder`: `lock_exclusive` waits while another process
-- holds it. The guard is dropped when the function returns, and the component after it.
pub mod Solo
pub mod Alone
pub mod Locked
pub mod Acted
pub mod Turns
pub mod Sound
pub mod Overwritten
use mathlib.Core.Option.{get_or}
use bootupd.Base.{
  Str, ℕ, Bool, true, false, ◌&&◌, Option, none, some, List, [], ◌∷◌, Result, ok, err, Error,
  failed, Exec, ask, and_then, ok_or, if◌then◌else◌, is_some, eqb,
}
use bootupd.Base.Map.{get, insert}
use bootupd.Model.{ContentMetadata, InstalledContent, SavedState}
use bootupd.Component.{Component, new_from_name}
use bootupd.Statefile.{Platform, load_from_disk, acquire_write_lock, update_state}
use bootupd.Bootupd.{
  ComponentUpdateResult, at_latest_version, updated, slash, or_default, wanted,
  ensure_writable_boot,
}

-- What a process returns.
pub data Reply : Type 0 where
  did_update : Result ComponentUpdateResult → Reply
  did_adopt : Result ContentMetadata → Reply

-- Where a process stands, with the variables that it holds there.
pub data Phase (W : Type 0) : Type 0 where
  update_starts : Str → Phase W
  update_loaded : Str → Component W → SavedState → Phase W
  update_wanted update_waits update_locked update_cleared :
      Component W → SavedState → InstalledContent → ContentMetadata → Phase W
  update_ran :
      Component W → SavedState → InstalledContent → ContentMetadata → InstalledContent → Phase W
  adopt_starts : Str → Phase W
  adopt_loaded : Str → Component W → SavedState → Phase W
  adopt_writable : Component W → SavedState → Phase W
  adopt_waits adopt_locked : Component W → SavedState → ContentMetadata → Phase W
  adopt_ran : Component W → SavedState → ContentMetadata → InstalledContent → Phase W
  ending : Component W → Reply → Phase W
  ended : Reply → Phase W

module _ {W : Type 0} where
  -- The next statement is `acquire_write_lock`.
  abbrev pub waits : Phase W → Bool
  waits (update_waits _ _ _ _) = true
  waits (adopt_waits _ _ _) = true
  waits _ = false

  -- The process has its `StateLockGuard`.
  abbrev pub holds : Phase W → Bool
  holds (update_locked _ _ _ _) = true
  holds (update_cleared _ _ _ _) = true
  holds (update_ran _ _ _ _ _) = true
  holds (adopt_locked _ _ _) = true
  holds (adopt_ran _ _ _ _) = true
  holds _ = false

  -- A statement that may fail, and where the process stands then.
  abbrev pub goes : {A : Type 0} → Result A → (A → Phase W) → (Error → Phase W) → Phase W
  goes (ok a) next fails = next a
  goes (err e) next fails = fails e

  abbrev pub does : {A : Type 0} → Exec W A → (A → Phase W) → (Error → Phase W) → W → Phase W × W
  does m next fails w = (goes (m w).0 next fails, (m w).1)

  abbrev pub update_fails : Component W → Error → Phase W
  update_fails c e = ending c (did_update (err e))

  abbrev pub adopt_fails : Component W → Error → Phase W
  adopt_fails c e = ending c (did_adopt (err e))

  -- After the test of the version.
  abbrev pub update_due_at :
      Component W → SavedState → InstalledContent → Option ContentMetadata → Phase W
  update_due_at c state inst none = ending c (did_update (ok at_latest_version))
  update_due_at c state inst (some new) = update_wanted c state inst new

module _ (P : Platform) (efi bios : Component P.Machine) where
  -- What both functions read first.
  abbrev pub load_component : Str → P.Machine → Result (Component P.Machine × SavedState)
  load_component name w =
      and_then (load_from_disk P slash w)
        (λ o. and_then (new_from_name efi bios name) (λ c. ok (c, or_default o)))

  -- `adopt_and_update` opens the root first.
  abbrev pub open_component : Str → P.Machine → Result (Component P.Machine × SavedState)
  open_component name w = and_then (P.open_dir slash w) (λ _. load_component name w)

  abbrev pub find_update :
      Str
      → Component P.Machine
      → SavedState
      → P.Machine
      → Result (InstalledContent × Option ContentMetadata)
  find_update name c state w =
      and_then (ok_or (get state.installed name) (failed "Component is not installed")) (λ inst.
        and_then (P.open_dir slash w)
          (λ _. and_then (c.query_update w) (λ found. ok (inst, found))))

  abbrev pub offered : Component P.Machine → P.Machine → Result ContentMetadata
  offered c w =
      and_then (c.query_update w)
        (λ found. ok_or found (failed "Component has no available update"))

  -- The next statements of a process.
  unfoldable pub action : Phase P.Machine → P.Machine → Phase P.Machine × P.Machine
  action (update_starts name) =
      does (ask (load_component name)) (λ r. update_loaded name r.0 r.1)
        (λ e. ended (did_update (err e)))
  action (update_loaded name c state) =
      does (ask (find_update name c state)) (λ r. update_due_at c state r.0 (wanted r.0.meta r.1))
        (update_fails c)
  action (update_wanted c state inst new) =
      does (ensure_writable_boot P) (λ _. update_waits c state inst new) (update_fails c)
  action (update_waits c state inst new) =
      does (acquire_write_lock P slash) (λ _. update_locked c state inst new) (update_fails c)
  action (update_locked c state inst new) =
      does (update_state P slash (record state { pending = none }))
        (λ _. update_cleared c state inst new) (update_fails c)
  action (update_cleared c state inst new) =
      does (c.run_update inst) (update_ran c state inst new) (update_fails c)
  action (update_ran c state inst new newinst) =
      does
        (update_state P slash
          (record state { installed = insert state.installed c.name newinst; pending = none }))
        (λ _.
          ending c (did_update (ok (updated inst.meta (get (get_or state.pending []) c.name) new))))
        (update_fails c)
  action (adopt_starts name) =
      does (ask (open_component name)) (λ r. adopt_loaded name r.0 r.1)
        (λ e. ended (did_adopt (err e)))
  action (adopt_loaded name c state) =
      if is_some (get state.installed name)
      then (λ w. (adopt_fails c (failed "Component is already installed"), w))
      else does (ensure_writable_boot P) (λ _. adopt_writable c state) (adopt_fails c)
  action (adopt_writable c state) = does (ask (offered c)) (adopt_waits c state) (adopt_fails c)
  action (adopt_waits c state new) =
      does (acquire_write_lock P slash) (λ _. adopt_locked c state new) (adopt_fails c)
  action (adopt_locked c state new) =
      does (c.adopt_update new) (adopt_ran c state new) (adopt_fails c)
  action (adopt_ran c state new inst) =
      does (update_state P slash (record state { installed = insert state.installed c.name inst }))
        (λ _. ending c (did_adopt (ok new))) (adopt_fails c)
  action (ending c r) = λ w. (ended r, c.unmount w)
  action (ended r) = λ w. (ended r, w)

-- The machine, the holder of the lock, and the processes by number.
pub record World (W : Type 0) : Type 0 where
  pub machine : W
  pub holder : Option ℕ
  pub phase : ℕ → Phase W

module _ {W : Type 0} where
  -- The guard comes with the lock, and its drop releases it.
  abbrev pub holder_after : ℕ → Phase W → Phase W → Option ℕ → Option ℕ
  holder_after p old new holder = if holds new then some p else if holds old then none else holder

  abbrev pub moved : ℕ → Phase W × W → World W → World W
  moved p (ph, w) s = record {
    machine = w;
    holder = holder_after p (s.phase p) ph s.holder;
    phase = λ q. if eqb q p then ph else s.phase q;
  }

module _ (P : Platform) (efi bios : Component P.Machine) where
  -- A turn of a process: it waits, or goes on to its next statement.
  unfoldable pub turn : ℕ → World P.Machine → World P.Machine
  turn p s =
      if waits (s.phase p) && is_some s.holder
      then s
      else moved p (action P efi bios (s.phase p) s.machine) s

  -- The turns of a schedule.
  unfoldable pub turns : List ℕ → World P.Machine → World P.Machine
  turns [] s = s
  turns (p ∷ rest) s = turns rest (turn p s)
