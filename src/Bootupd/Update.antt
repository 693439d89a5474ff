-- ===== src/Bootupd/Update.antt =====
-- What `update` leaves in the state file, on every outcome.
use mathlib.Core.Option.{get_or}
use bootupd.Base.{
  Str, ◌≡◌, refl, ap, ◌∙◌, ◌⊎◌, inl, inr, true, Option, none, some, [], ok, ok_or, ok_or-ok,
  Bool-cases, arith,
}
use bootupd.Base.Ends.{Runs, result_step, Ends-mono}
use bootupd.Base.Map.{get, insert}
use bootupd.Model.{ContentMetadata, InstalledContent, SavedState, can_upgrade_to}
use bootupd.Component.{Component}
use bootupd.Statefile.{Platform, IsLawful, acquire_write_lock}
use bootupd.Bootupd.{
  ComponentUpdateResult, at_latest_version, updated, slash, wanted, ensure_writable_boot,
  apply_update, update_if, update_component,
}
use bootupd.Bootupd.Steps.{
  KeepsState, Saw, Sees, Holds, quiet_step, write_step, writable_boot-IsQuiet, lock-IsQuiet,
}

module _ (P : Platform) (L : IsLawful P) (c : Component P.Machine) (K : KeepsState P c)
    (state : SavedState) (inst : InstalledContent) (x : Saw P) where
  abbrev pub cleared : SavedState
  cleared = record state { pending = none }

  -- The update is recorded, with what `run_update` returned.
  abbrev pub Applied : ContentMetadata → ComponentUpdateResult → P.Machine → Type 0
  Applied new r w =
      (n : InstalledContent) × (v : P.Machine) × ((c.run_update inst v).0 ≡ ok n)
      × (r ≡ updated inst.meta (get (get_or state.pending []) c.name) new)
      × Holds P L x (record cleared { installed = insert state.installed c.name n }) w

  -- The state file is as it was, or without its `pending`.
  abbrev pub Stayed : P.Machine → Type 0
  Stayed w = Sees P L x w ⊎ Holds P L x cleared w

  apply_update-Runs :
      (new : ContentMetadata) (w : P.Machine)
      → Sees P L x w
      → Runs (Applied new) Stayed (apply_update P c state inst new) w
  unfolding apply_update
  apply_update-Runs new w h =
      quiet_step P L (Applied new) Stayed x (ensure_writable_boot P) _ w (writable_boot-IsQuiet P L)
        (λ _. inl) h
        λ _ _ h1.
          quiet_step P L (Applied new) Stayed x (acquire_write_lock P slash) _ _ (lock-IsQuiet P L)
            (λ _. inl) h1
            λ _ _ h2.
              write_step P L (Applied new) Stayed x cleared _ _ (λ _. inl) h2
                λ v h3.
                  quiet_step P L (Applied new) Stayed _ (c.run_update inst) _ v
                    (K.run_update_quiet inst) (λ _. inr) h3
                    λ n e h4.
                      write_step P L (Applied new) Stayed _
                        (record cleared { installed = insert state.installed c.name n }) _ _
                        (λ _. inr) h4 (λ _ h5. (n, v, e, refl, h5))

module _ (P : Platform) (L : IsLawful P) (c : Component P.Machine) (K : KeepsState P c) (name : Str)
    (state : SavedState) (x : Saw P) (w0 : P.Machine) where
  -- The update was wanted, and is recorded.
  abbrev pub Updated : ComponentUpdateResult → P.Machine → Type 0
  Updated r w =
      (inst : InstalledContent) × (new : ContentMetadata) × (get state.installed name ≡ some inst)
      × (c.query_update w0 ≡ ok (some new))
      × (can_upgrade_to inst.meta new ≡ true)
      × Applied P L c K state inst x new r w

  -- No update was wanted, and nothing happened.
  abbrev pub Latest : ComponentUpdateResult → P.Machine → Type 0
  Latest r w =
      (inst : InstalledContent) × (found : Option ContentMetadata) × (get state.installed name
        ≡ some inst)
      × (c.query_update w0 ≡ ok found)
      × (wanted inst.meta found ≡ none)
      × (r ≡ at_latest_version)
      × Sees P L x w

  abbrev pub Ended : ComponentUpdateResult → P.Machine → Type 0
  Ended r w = Latest r w ⊎ Updated r w

  wanted-some :
      (from : ContentMetadata) (found : Option ContentMetadata) (new : ContentMetadata)
      → wanted from found ≡ some new
      → (found ≡ some new) × (can_upgrade_to from new ≡ true)
  wanted-some from none new h = cc
  wanted-some from (some p) new h = elim (Bool-cases (can_upgrade_to from p)) [
    | inl e ↦ ground arith
    | inr e ↦ ground arith
  ]

  update_if-Runs :
      (inst : InstalledContent) (found o : Option ContentMetadata)
      → get state.installed name ≡ some inst
      → c.query_update w0 ≡ ok found
      → wanted inst.meta found ≡ o
      → Sees P L x w0
      → Runs Ended (Stayed P L c K state inst x) (update_if P c state inst o) w0
  unfolding update_if
  update_if-Runs inst found none g q e h = inl (inst, found, g, q, e, refl, h)
  update_if-Runs inst found (some new) g q e h =
      let want = wanted-some inst.meta found new e in
      Ends-mono (Applied P L c K state inst x new) (Stayed P L c K state inst x) Ended
        (Stayed P L c K state inst x) _ (λ r a. inr (inst, new, g, q ∙ ap ok want.0, want.1, a))
        (λ s. s) (apply_update-Runs P L c K state inst x new w0 h)

  -- On an error the file is as it was, or without its `pending`.
  abbrev pub Kept : P.Machine → Type 0
  Kept w = Sees P L x w ⊎ Holds P L x (record state { pending = none }) w

  pub update_component-Runs : Sees P L x w0 → Runs Ended Kept (update_component P name c state) w0
  unfolding update_component
  update_component-Runs h =
      result_step Ended Kept (ok_or (get state.installed name) _) _ w0 (inl h) λ inst g.
        result_step Ended Kept (P.open_dir slash w0) _ w0 (inl h) λ _ _.
          result_step Ended Kept (c.query_update w0) _ w0 (inl h)
            λ found q. update_if-Runs inst found _ (ok_or-ok _ _ g) q refl h
