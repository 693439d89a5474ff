-- ===== src/Bootupd/Concurrent/Solo.antt =====
-- The turns of one process, with nobody else there, against the functions of src/bootupd.rs.
use mathlib.Core.Option.{get_or}
use bootupd.Base.{
  Str, ℕ, zero, suc, ◌≡◌, refl, Option, none, some, [], Result, err, failed, Exec, ok_or, is_some,
  inl, inr, Result-cases, Bool-cases, ask, lift, pure, ◌>>=◌, ◌>>◌,
}
use bootupd.Base.Map.{get, insert}
use bootupd.Model.{ContentMetadata, InstalledContent, SavedState}
use bootupd.Component.{Component, new_from_name}
use bootupd.Statefile.{Platform, load_from_disk, acquire_write_lock, update_state}
use bootupd.Bootupd.{
  ComponentUpdateResult, updated, slash, or_default, wanted, ensure_writable_boot, update,
  adopt_and_update, apply_update, update_component, update_if, adopt_component, adopt_fresh,
}
use bootupd.Bootupd.Concurrent.{
  Reply, did_update, did_adopt, Phase, update_starts, update_loaded, update_wanted, ending, ended,
  does, action, update_due_at, adopt_writable, adopt_waits, update_waits, adopt_loaded,
  adopt_starts,
}

module _ (P : Platform) (efi bios : Component P.Machine) where
  -- The turns of one process, with nobody else there.
  unfoldable pub solo : ℕ → Phase P.Machine → P.Machine → Phase P.Machine × P.Machine
  solo zero ph w = (ph, w)
  solo (suc k) ph w = solo k (action P efi bios ph w).0 (action P efi bios ph w).1

  solo-ended : (k : ℕ) (r : Reply) (w : P.Machine) → solo k (ended r) w ≡ (ended r, w)
  unfolding solo action
  solo-ended zero r w = refl
  solo-ended (suc k) r w = solo-ended k r w

  solo-ending :
      (k : ℕ) (c : Component P.Machine) (r : Reply) (w : P.Machine)
      → solo (suc k) (ending c r) w ≡ (ended r, c.unmount w)
  unfolding solo action
  solo-ending k c r w = solo-ended k r (c.unmount w)

  module _ {R : Type 0} (reply : Result R → Reply) (c : Component P.Machine) where
    -- The process ends as the rest of the function does.
    abbrev pub EndsAs : ℕ → Phase P.Machine → Exec P.Machine R → Type 0
    EndsAs k ph m = (w : P.Machine) → solo k ph w ≡ (ended (reply (m w).0), c.unmount (m w).1)

    -- A statement and what follows it.
    solo-does :
        {A : Type 0} (k : ℕ) (m : Exec P.Machine A) (f : A → Phase P.Machine)
        (rest : A → Exec P.Machine R) (w : P.Machine)
        → ((a : A) → EndsAs (suc k) (f a) (rest a))
        → solo
            (suc k)
            (does m f (λ e. ending c (reply (err e))) w).0
            (does m f (λ e. ending c (reply (err e))) w).1
          ≡ (ended (reply ((m >>= rest) w).0), c.unmount ((m >>= rest) w).1)
    solo-does k m f rest w next = elim (Result-cases (m w).0) [
      | inl (a, e) ↦ rw e (next a (m w).1)
      | inr (e, f) ↦ rw f (solo-ending k c (reply (err e)) (m w).1)
    ]

  -- The end of `update`, from the lock on.
  abbrev pub update_locking :
      Component P.Machine
      → SavedState
      → InstalledContent
      → ContentMetadata
      → Exec P.Machine ComponentUpdateResult
  update_locking c state i new =
      acquire_write_lock P slash
      >> (update_state P slash (record state { pending = none })
          >> (c.run_update i >>= λ n.
              update_state P slash
                (record state { installed = insert state.installed c.name n; pending = none })
              >> pure (updated i.meta (get (get_or state.pending []) c.name) new)))

  pub update_waits-EndsAs :
      (c : Component P.Machine) (state : SavedState) (i : InstalledContent) (new : ContentMetadata)
      → EndsAs did_update c 5 (update_waits c state i new) (update_locking c state i new)
  unfolding action solo
  update_waits-EndsAs c state i new w =
      solo-does did_update c 3 (acquire_write_lock P slash) _ _ w λ _ w2.
        solo-does did_update c 2 (update_state P slash _) _ _ w2 λ _ w3.
          solo-does did_update c 1 (c.run_update i) _ _ w3
            λ n w4. solo-does did_update c 0 (update_state P slash _) _ _ w4 λ _. solo-ending 0 c _

  wanted-EndsAs :
      (c : Component P.Machine) (state : SavedState) (i : InstalledContent) (new : ContentMetadata)
      → EndsAs did_update c 6 (update_wanted c state i new) (apply_update P c state i new)
  unfolding action apply_update solo
  wanted-EndsAs c state i new w =
      solo-does did_update c 4 (ensure_writable_boot P) _ _ w λ _. update_waits-EndsAs c state i new

  due-EndsAs :
      (c : Component P.Machine) (state : SavedState) (i : InstalledContent)
      (found : Option ContentMetadata)
      → EndsAs did_update c 6 (update_due_at c state i found) (update_if P c state i found)
  unfolding update_if
  due-EndsAs c state i none = solo-ending 5 c _
  due-EndsAs c state i (some new) = wanted-EndsAs c state i new

  loaded-EndsAs :
      (name : Str) (c : Component P.Machine) (state : SavedState)
      → EndsAs did_update c 7 (update_loaded name c state) (update_component P name c state)
  unfolding action update_component solo
  loaded-EndsAs name c state w =
      elim (Result-cases (ok_or (get state.installed name) (failed "Component is not installed"))) [
        | inr (e, f) ↦ rw f (solo-ending 5 c _ w)
        | inl (i, f) ↦ rw f (elim (Result-cases (P.open_dir slash w)) [
          | inr (e, g) ↦ rw g (solo-ending 5 c _ w)
          | inl (_, g) ↦ rw g (elim (Result-cases (c.query_update w)) [
            | inr (e, h) ↦ rw h (solo-ending 5 c _ w)
            | inl (found, h) ↦ rw h (due-EndsAs c state i (wanted i.meta found) w)
          ])
        ])
      ]

  -- In eight turns without others a process for `update` ends with what `update` returns, and leaves
  -- the machine as `update` does.
  solo-update :
      (name : Str) (w : P.Machine)
      → solo 8 (update_starts name) w
        ≡ (ended (did_update (update P efi bios name w).0), (update P efi bios name w).1)
  unfolding action update solo
  solo-update name w = elim (Result-cases (load_from_disk P slash w)) [
    | inr (e, f) ↦ rw f (solo-ended 7 _ w)
    | inl (o, f) ↦ rw f (elim (Result-cases (new_from_name efi bios name)) [
      | inr (e, g) ↦ rw g (solo-ended 7 _ w)
      | inl (c, g) ↦ rw g (loaded-EndsAs name c (or_default o) w)
    ])
  ]

  -- The end of `adopt_and_update`, from the lock on.
  abbrev adopt_locking :
      Component P.Machine → SavedState → ContentMetadata → Exec P.Machine ContentMetadata
  adopt_locking c state new =
      acquire_write_lock P slash
      >> (c.adopt_update new >>= λ inst.
          update_state P slash (record state { installed = insert state.installed c.name inst })
          >> pure new)

  waits-EndsAs :
      (c : Component P.Machine) (state : SavedState) (new : ContentMetadata)
      → EndsAs did_adopt c 4 (adopt_waits c state new) (adopt_locking c state new)
  unfolding action solo
  waits-EndsAs c state new w = solo-does did_adopt c 2 (acquire_write_lock P slash) _ _ w λ _ w1.
      solo-does did_adopt c 1 (c.adopt_update new) _ _ w1
        λ inst w2. solo-does did_adopt c 0 (update_state P slash _) _ _ w2 λ _. solo-ending 0 c _

  fresh-EndsAs :
      (c : Component P.Machine) (state : SavedState)
      → EndsAs did_adopt c 5 (adopt_writable c state) (
          ask c.query_update >>= λ found.
          lift (ok_or found (failed "Component has no available update")) >>= adopt_locking c state)
  unfolding action solo
  fresh-EndsAs c state w = elim (Result-cases (c.query_update w)) [
    | inr (e, f) ↦ rw f (solo-ending 3 c _ w)
    | inl (none, f) ↦ rw f (solo-ending 3 c _ w)
    | inl (some new, f) ↦ rw f (waits-EndsAs c state new w)
  ]

  adopt_loaded-EndsAs :
      (name : Str) (c : Component P.Machine) (state : SavedState)
      → EndsAs did_adopt c 6 (adopt_loaded name c state) (adopt_component P name c state)
  unfolding action solo adopt_component adopt_fresh
  adopt_loaded-EndsAs name c state w = elim (Bool-cases (is_some (get state.installed name))) [
    | inl e ↦ rw e (solo-ending 4 c _ w)
    | inr e ↦
        rw e (solo-does did_adopt c 4 (ensure_writable_boot P) _ _ w λ _. fresh-EndsAs c state)
  ]

  -- The same for `adopt_and_update`, in seven turns.
  solo-adopt_and_update :
      (name : Str) (w : P.Machine)
      → solo 7 (adopt_starts name) w ≡ (
        ended (did_adopt (adopt_and_update P efi bios name w).0),
        (adopt_and_update P efi bios name w).1,
      )
  unfolding action adopt_and_update solo
  solo-adopt_and_update name w = elim (Result-cases (P.open_dir slash w)) [
    | inr (e, f) ↦ rw f (solo-ended 6 _ w)
    | inl (_, f) ↦ rw f (elim (Result-cases (load_from_disk P slash w)) [
      | inr (e, g) ↦ rw g (solo-ended 6 _ w)
      | inl (o, g) ↦ rw g (elim (Result-cases (new_from_name efi bios name)) [
        | inr (e, h) ↦ rw h (solo-ended 6 _ w)
        | inl (c, h) ↦ rw h (adopt_loaded-EndsAs name c (or_default o) w)
      ])
    ])
  ]
