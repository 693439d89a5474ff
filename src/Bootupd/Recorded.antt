-- ===== src/Bootupd/Recorded.antt =====
-- `update` as its callers meet it: the outcomes, and what a load of the state file shows then.
use mathlib.Core.Option.{get_or}
use mathlib.Core.Path.{subst}
use bootupd.Base.{
  Str, ◌≡◌, refl, ◌∙◌, ◌⊎◌, inl, inr, true, Option, none, some, [], Result, ok, err, Error,
}
use bootupd.Base.Ends.{Runs, Ends-ok, Ends-err, result_step, Ends-mono, Ends_either}
use bootupd.Base.Map.{get, insert}
use bootupd.Model.{ContentMetadata, InstalledContent, SavedState, no_state, can_upgrade_to}
use bootupd.Component.{Component, new_from_name, owning}
use bootupd.Statefile.{Platform, IsLawful, look, load_from_disk}
use bootupd.Bootupd.{
  ComponentUpdateResult, at_latest_version, updated, slash, or_default, update_component, update,
}
use bootupd.Bootupd.Steps.{
  KeepsState, Saw, Sees, load_of_Sees, load_of_Holds, AreComponents, name-new_from_name,
  new_from_name-KeepsState,
}
use bootupd.Bootupd.Update.{Ended, Kept, update_component-Runs}

-- What was loaded, if a state was, has no update pending.
abbrev pub NoPending : Result (Option SavedState) → Type 0
NoPending (ok (some s)) = s.pending ≡ none
NoPending (ok none) = Unit
NoPending (err e) = Unit

module _ (P : Platform) (L : IsLawful P) (efi bios : Component P.Machine)
    (C : AreComponents P efi bios) (name : Str) (w : P.Machine) where
  -- An update to `new` was due: the state and the component at hand, and the update found.
  abbrev pub Due : SavedState → InstalledContent → Component P.Machine → ContentMetadata → Type 0
  Due state inst c new =
      (load_from_disk P slash w ≡ ok (some state))
      × (get state.installed name ≡ some inst)
      × (new_from_name efi bios name ≡ ok c)
      × (c.query_update w ≡ ok (some new))
      × (can_upgrade_to inst.meta new ≡ true)

  abbrev pub ResultOf : ComponentUpdateResult → P.Machine → Type 0
  ResultOf r v =
      ((r ≡ at_latest_version) × (load_from_disk P slash v ≡ load_from_disk P slash w))
      ⊎ ((state : SavedState) × (inst n : InstalledContent) × (c : Component P.Machine)
          × (new : ContentMetadata) × (u : P.Machine) × Due state inst c new
          × ((c.run_update inst u).0 ≡ ok n)
          × (r ≡ updated inst.meta (get (get_or state.pending []) name) new)
          × (load_from_disk P slash v
              ≡ ok (
                  some
                    (record state { installed = insert state.installed name n; pending = none }))))

  abbrev pub ErrorOf : P.Machine → Type 0
  ErrorOf v =
      (load_from_disk P slash v ≡ load_from_disk P slash w)
      ⊎ ((state : SavedState) × (load_from_disk P slash w ≡ ok (some state))
          × (load_from_disk P slash v ≡ ok (some (record state { pending = none }))))

  module _ (c : Component P.Machine) (made : new_from_name efi bios name ≡ ok c) where
    keeps : KeepsState P c
    keeps = new_from_name-KeepsState P efi bios C name c made

    -- The drop at the end shows in no load.
    Sees-unmount : (x : Saw P) (v : P.Machine) → Sees P L x v → Sees P L x (c.unmount v)
    Sees-unmount x v h = keeps.unmount_quiet slash v ∙ h

    no_state-Runs : Runs ResultOf ErrorOf (owning c (update_component P name c no_state)) w
    unfolding update_component get
    no_state-Runs = inl (load_of_Sees P L w (c.unmount w) (Sees-unmount (look P slash w) w refl))

    Ended-ResultOf :
        (state : SavedState) (r : ComponentUpdateResult) (v : P.Machine)
        → load_from_disk P slash w ≡ ok (some state)
        → Ended P L c keeps name state (look P slash w) w r v
        → ResultOf r (c.unmount v)
    Ended-ResultOf state r v loaded (inl (inst, found, g, q, e, latest, h)) =
        inl (latest, load_of_Sees P L w (c.unmount v) (Sees-unmount _ v h))
    Ended-ResultOf state r v loaded (inr (inst, new, g, q, can, (n, u, ran, e, h))) =
        let named = name-new_from_name P efi bios C name c made in
        inr (
          state,
          inst,
          n,
          c,
          new,
          u,
          (loaded, g, made, q, can),
          ran,
          subst (λ k. r ≡ updated inst.meta (get (get_or state.pending []) k) new) named e,
          subst
              (λ k.
                load_from_disk P slash (c.unmount v)
                ≡ ok (
                    some (record state { installed = insert state.installed k n; pending = none })))
              named (load_of_Holds P L w (c.unmount v) _ loaded (Sees-unmount _ v h)),
        )

    Kept-ErrorOf :
        (state : SavedState) (v : P.Machine)
        → load_from_disk P slash w ≡ ok (some state)
        → Kept P L c keeps name state (look P slash w) w v
        → ErrorOf (c.unmount v)
    Kept-ErrorOf state v loaded (inl h) =
        inl (load_of_Sees P L w (c.unmount v) (Sees-unmount _ v h))
    Kept-ErrorOf state v loaded (inr h) =
        inr (state, loaded, load_of_Holds P L w (c.unmount v) _ loaded (Sees-unmount _ v h))

    owned-Runs :
        (o : Option SavedState)
        → load_from_disk P slash w ≡ ok o
        → Runs ResultOf ErrorOf (owning c (update_component P name c (or_default o))) w
    owned-Runs none loaded = no_state-Runs
    owned-Runs (some state) loaded =
        Ends-mono (Ended P L c keeps name state (look P slash w) w)
          (Kept P L c keeps name state (look P slash w) w) ResultOf ErrorOf
          (update_component P name c state w).0 (λ r. Ended-ResultOf state r _ loaded)
          (Kept-ErrorOf state _ loaded)
          (update_component-Runs P L c keeps name state (look P slash w) w refl)

  pub update-Runs : Runs ResultOf ErrorOf (update P efi bios name) w
  unfolding update
  update-Runs = result_step ResultOf ErrorOf (load_from_disk P slash w) _ w (inl refl) λ o loaded.
      result_step ResultOf ErrorOf (new_from_name efi bios name) _ w (inl refl)
        λ c made. owned-Runs c made o loaded

  -- If `update` reports an update from `previous` to `new`, then the state had the component
  -- installed as `previous`, `new` is the update that the component offered and is an upgrade, the
  -- report names what was pending, and the state file now holds what `run_update` returned, with
  -- nothing else changed but `pending`, which is cleared.
  pub update_records :
      {previous new : ContentMetadata} {interrupted : Option ContentMetadata}
      → (update P efi bios name w).0 ≡ ok (updated previous interrupted new)
      → (state : SavedState) × (inst n : InstalledContent) × (c : Component P.Machine)
        × (u : P.Machine) × Due state inst c new
        × ((c.run_update inst u).0 ≡ ok n)
        × (previous ≡ inst.meta)
        × (interrupted ≡ get (get_or state.pending []) name)
        × (load_from_disk P slash (update P efi bios name w).1
            ≡ ok
                (some (record state { installed = insert state.installed name n; pending = none })))
  update_records {previous} {new} {interrupted} e =
      elim (Ends-ok ResultOf ErrorOf _ _ update-Runs e) [
        | inl l ↦ absurd (ne_at_latest l.0)
        | inr (state, inst, n, c, new', u, due, ran, r, h) ↦
            let same : new' ≡ new = cc in
            (state, inst, n, c, u, subst (Due state inst c) same due, ran, cc, cc, h)
      ]
    where
      ne_at_latest : updated previous interrupted new ≡ at_latest_version → ⊥
      ne_at_latest h = cc

  -- If `update` fails, the state file is as before, or the state that it held with its `pending`
  -- cleared: what is recorded as installed never changes.
  pub update_failed :
      {e : Error}
      → (update P efi bios name w).0 ≡ err e
      → (load_from_disk P slash (update P efi bios name w).1 ≡ load_from_disk P slash w)
        ⊎ ((state : SavedState) × (load_from_disk P slash w ≡ ok (some state))
            × (load_from_disk P slash (update P efi bios name w).1
                ≡ ok (some (record state { pending = none }))))
  update_failed e = Ends-err ResultOf ErrorOf _ _ update-Runs e

  -- Where no update is pending in the state file, none is after `update`, whatever its outcome, so
  -- also not when it is interrupted by an error of `run_update`.
  pub update_never_pending :
      NoPending (load_from_disk P slash w)
      → NoPending (load_from_disk P slash (update P efi bios name w).1)
  update_never_pending h =
      Ends_either ResultOf ErrorOf (update P efi bios name w).0
        (λ r. elim [
          | inl l ↦ rw (l.1) h
          | inr (state, inst, n, c, new, u, due, ran, e, g) ↦ rw g refl
        ])
        (elim [ inl l ↦ rw l h | inr (state, loaded, g) ↦ rw g refl ]) update-Runs
