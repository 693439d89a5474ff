-- ===== src/Bootupd/Adopt.antt =====
-- `adopt_and_update`: its outcomes, and what a load of the state file shows then.
use mathlib.Core.Path.{subst}
use bootupd.Base.{
  Str, ◌≡◌, refl, ap, ◌∙◌, Option, none, some, ok, err, Error, ok_or, ok_or-ok, Option-cases, inl,
  inr,
}
use bootupd.Base.Ends.{Runs, Ends-ok, Ends-err, result_step, Ends-mono}
use bootupd.Base.Map.{get, insert}
use bootupd.Model.{ContentMetadata, InstalledContent, SavedState}
use bootupd.Component.{Component, new_from_name, owning}
use bootupd.Statefile.{Platform, IsLawful, look, load_from_disk, acquire_write_lock}
use bootupd.Bootupd.{
  slash, or_default, ensure_writable_boot, adopt_fresh, adopt_component, adopt_and_update,
}
use bootupd.Bootupd.Steps.{
  KeepsState, Saw, Sees, Holds, load_of_Sees, load_of_Holds, AreComponents, name-new_from_name,
  new_from_name-KeepsState, quiet_step, write_step, writable_boot-IsQuiet, lock-IsQuiet,
}

module _ (P : Platform) (L : IsLawful P) (c : Component P.Machine) (K : KeepsState P c) (name : Str)
    (state : SavedState) (x : Saw P) where
  -- `update` was found, and what `adopt_update` returned for it is recorded.
  abbrev Adopted : ContentMetadata → P.Machine → Type 0
  Adopted new w =
      (n : InstalledContent) × (q u : P.Machine) × (c.query_update q ≡ ok (some new))
      × ((c.adopt_update new u).0 ≡ ok n)
      × Holds P L x (record state { installed = insert state.installed c.name n }) w

  adopt_fresh-Runs :
      (w : P.Machine) → Sees P L x w → Runs Adopted (Sees P L x) (adopt_fresh P c state) w
  unfolding adopt_fresh
  adopt_fresh-Runs w h =
      quiet_step P L Adopted (Sees P L x) x (ensure_writable_boot P) _ w (writable_boot-IsQuiet P L)
        (λ _ s. s) h
        λ _ _ h1. result_step Adopted (Sees P L x) (c.query_update _) _ _ h1 λ found q.
          result_step Adopted (Sees P L x) (ok_or found _) _ _ h1 λ new g.
            quiet_step P L Adopted (Sees P L x) x (acquire_write_lock P slash) _ _
              (lock-IsQuiet P L) (λ _ s. s) h1
              λ _ _ h2.
                quiet_step P L Adopted (Sees P L x) x (c.adopt_update new) _ _
                  (K.adopt_update_quiet new) (λ _ s. s) h2
                  λ n e h3.
                    write_step P L Adopted (Sees P L x) x
                      (record state { installed = insert state.installed c.name n }) _ _ (λ _ s. s)
                      h3 (λ _ h4. (n, _, _, q ∙ ap ok (ok_or-ok found _ g), e, h4))

  pub adopt_component-Runs :
      (w : P.Machine)
      → Sees P L x w
      → Runs
          (λ new v. (get state.installed name ≡ none) × Adopted new v)
          (Sees P L x)
          (adopt_component P name c state)
          w
  unfolding adopt_component
  adopt_component-Runs w h = elim (Option-cases (get state.installed name)) [
    | inr (i, e) ↦ rw e h
    | inl e ↦ rw e (
        Ends-mono Adopted (Sees P L x)
          (λ new v. (◌≡◌ {A = Option InstalledContent} none none) × Adopted new v) (Sees P L x)
          (adopt_fresh P c state w).0 (λ _ a. (refl, a)) (λ s. s) (adopt_fresh-Runs w h))
  ]

module _ (P : Platform) (L : IsLawful P) (efi bios : Component P.Machine)
    (C : AreComponents P efi bios) (name : Str) (w : P.Machine) where
  abbrev pub Adoption : ContentMetadata → P.Machine → Type 0
  Adoption new v =
      (o : Option SavedState) × (c : Component P.Machine) × (n : InstalledContent) × (q
        u : P.Machine)
      × (load_from_disk P slash w ≡ ok o)
      × (get (or_default o).installed name ≡ none)
      × (new_from_name efi bios name ≡ ok c)
      × (c.query_update q ≡ ok (some new))
      × ((c.adopt_update new u).0 ≡ ok n)
      × (load_from_disk P slash v
          ≡ ok
              (some (record (or_default o) { installed = insert (or_default o).installed name n })))

  abbrev pub ErrorOf : P.Machine → Type 0
  ErrorOf v = load_from_disk P slash v ≡ load_from_disk P slash w

  module _ (c : Component P.Machine) (made : new_from_name efi bios name ≡ ok c) where
    keeps : KeepsState P c
    keeps = new_from_name-KeepsState P efi bios C name c made

    Sees-unmount : (x : Saw P) (v : P.Machine) → Sees P L x v → Sees P L x (c.unmount v)
    Sees-unmount x v h = keeps.unmount_quiet slash v ∙ h

    Adopted-Adoption :
        (o : Option SavedState) (new : ContentMetadata) (v : P.Machine)
        → load_from_disk P slash w ≡ ok o
        → (get (or_default o).installed name ≡ none)
          × Adopted P L c keeps name (or_default o) (look P slash w) new v
        → Adoption new (c.unmount v)
    Adopted-Adoption o new v loaded (absent, (n, q, u, found, ran, h)) =
        let s = or_default o in
        (
          o,
          c,
          n,
          q,
          u,
          loaded,
          absent,
          made,
          found,
          ran,
          subst
              (λ k.
                load_from_disk P slash (c.unmount v)
                ≡ ok (some (record s { installed = insert s.installed k n })))
              (name-new_from_name P efi bios C name c made)
              (load_of_Holds P L w (c.unmount v) _ loaded (Sees-unmount _ v h)),
        )

    owned-Runs :
        (o : Option SavedState)
        → load_from_disk P slash w ≡ ok o
        → Runs Adoption ErrorOf (owning c (adopt_component P name c (or_default o))) w
    owned-Runs o loaded =
        Ends-mono
          (λ new v.
            (get (or_default o).installed name ≡ none)
            × Adopted P L c keeps name (or_default o) (look P slash w) new v)
          (Sees P L (look P slash w)) Adoption ErrorOf (adopt_component P name c (or_default o) w).0
          (λ new. Adopted-Adoption o new _ loaded)
          (λ h. load_of_Sees P L w (c.unmount _) (Sees-unmount _ _ h))
          (adopt_component-Runs P L c keeps name (or_default o) (look P slash w) w refl)

  pub adopt_and_update-Runs : Runs Adoption ErrorOf (adopt_and_update P efi bios name) w
  unfolding adopt_and_update
  adopt_and_update-Runs = result_step Adoption ErrorOf (P.open_dir slash w) _ w refl λ _ _.
      result_step Adoption ErrorOf (load_from_disk P slash w) _ w refl λ o loaded.
        result_step Adoption ErrorOf (new_from_name efi bios name) _ w refl
          λ c made. owned-Runs c made o loaded

  -- If `adopt_and_update` succeeds with `new`, then the component was not installed, it offered
  -- `new` as its update, and the state file now holds the state from before (the empty one if there
  -- was none) with what `adopt_update` returned installed under the name.
  pub adopt_records :
      {new : ContentMetadata}
      → (adopt_and_update P efi bios name w).0 ≡ ok new
      → Adoption new (adopt_and_update P efi bios name w).1
  adopt_records e = Ends-ok Adoption ErrorOf _ _ adopt_and_update-Runs e

  -- If `adopt_and_update` fails, a load of the state file gives what it gave before.
  pub adopt_failed :
      {e : Error}
      → (adopt_and_update P efi bios name w).0 ≡ err e
      → load_from_disk P slash (adopt_and_update P efi bios name w).1 ≡ load_from_disk P slash w
  adopt_failed e = Ends-err Adoption ErrorOf _ _ adopt_and_update-Runs e
