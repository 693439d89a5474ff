-- ===== src/Bootupd/Through.antt =====
-- Predicates that survive `status` and the loops of `client_run_update`, however these end.
pub mod Known
use bootupd.Base.{
  Str, codes, ◌==◌, ◌⊎◌, Option-cases, ◌≡◌, refl, ◌∙◌, Bool, true, false, Option, none, some, List,
  [], ◌∷◌, Result, ok, err, ok_or, ok_or-ok, Exec, ◌>>=◌, continue, continue-ok, ok_inj, sym,
  Bool-cases, inl, inr, str_lt, ◌&&◌, is_empty,
}
use mathlib.Core.Path.{subst}
use bootupd.Base.Map.{BTreeMap, get, insert, remove}
use bootupd.Model.{
  InstalledContent, SavedState, no_update_available, at_latest_version, upgradable, would_downgrade,
  ComponentUpdatable, ComponentStatus, Adoptable, Status,
}
use bootupd.Component.{Component}
use bootupd.Statefile.{Platform, look, load_from_disk}
use bootupd.Bootupd.{slash, update, adopt_and_update}
use bootupd.Bootupd.Status.{
  installed_loop, adoptable_loop, add_adoptable, installed_part, get_components, status,
}
use bootupd.Bootupd.Steps.{KeepsState, AreComponents}
use bootupd.Bootupd.Through.Known.{
  AllKeep, insert-AllKeep, remove-AllKeep, get-AllKeep, installed_loop-AllKeep,
}
use bootupd.Bootupd.Client.{has_updated, update_loop, adopt_loop, client_run_update, try_fail_point}

module _ {W : Type 0} (H : W → Type 0) where
  -- The predicate holds after the action where it held before.
  abbrev pub Through : {A : Type 0} → Exec W A → Type 0
  Through m = (w : W) → H w → H (m w).1

  pub continue-Through :
      {A B : Type 0} (r : Result A) (f : A → Exec W B) (w : W)
      → H w
      → ((a : A) → r ≡ ok a → Through (f a))
      → H (continue r f w).1
  continue-Through (ok a) f w h k = k a refl w h
  continue-Through (err e) f w h k = h

ComponentUpdatable-cases :
    (u : ComponentUpdatable)
    → (u ≡ upgradable)
      ⊎ ((u ≡ no_update_available) ⊎ ((u ≡ at_latest_version) ⊎ (u ≡ would_downgrade)))
ComponentUpdatable-cases upgradable = inl refl
ComponentUpdatable-cases no_update_available = inr (inl refl)
ComponentUpdatable-cases at_latest_version = inr (inr (inl refl))
ComponentUpdatable-cases would_downgrade = inr (inr (inr refl))

module _ (P : Platform) (H : P.Machine → Type 0)
    (unseen : (w v : P.Machine) → look P slash v ≡ look P slash w → H w → H v) where
  installed_loop-Through :
      (state : SavedState) (l : BTreeMap InstalledContent) (known : BTreeMap (Component P.Machine))
      (ret : BTreeMap ComponentStatus)
      → AllKeep P known
      → Through H (installed_loop P state l known ret)
  unfolding installed_loop
  installed_loop-Through state [] known ret all w h = h
  installed_loop-Through state ((name, ic) ∷ rest) known ret all w h =
      continue-Through H (ok_or (get known name) _) _ w h λ c e v g.
        continue-Through H (c.query_update v) _ (c.unmount v)
          (unseen v (c.unmount v)
            ((get-AllKeep P known name c (ok_or-ok _ _ e) all).unmount_quiet slash v) g)
          λ u _.
            installed_loop-Through state rest (remove known name) _
              (remove-AllKeep P known name all)

  adoptable_loop-Through :
      (l : BTreeMap (Component P.Machine)) (ret : BTreeMap Adoptable)
      → AllKeep P l
      → Through H (adoptable_loop P l ret)
  unfolding adoptable_loop
  adoptable_loop-Through [] ret all w h = h
  adoptable_loop-Through ((name, c) ∷ rest) ret all w h =
      continue-Through H (c.query_adopt w).0 _ _
        (unseen w _
          (all.0.unmount_quiet slash (c.query_adopt w).1 ∙ all.0.query_adopt_quiet slash w) h)
        λ found _. adoptable_loop-Through rest (add_adoptable P name found ret) all.1

  module _ (efi bios : Component P.Machine) (C : AreComponents P efi bios) where
    all_known : AllKeep P (get_components efi bios)
    unfolding get_components
    all_known =
        insert-AllKeep P (insert [] bios.name bios) efi.name efi C.efi_keeps
          (insert-AllKeep P [] bios.name bios C.bios_keeps tt)

    installed_part-Through :
        (o : Option SavedState) → Through H (installed_part P o (get_components efi bios))
    unfolding installed_part
    installed_part-Through none w h = h
    installed_part-Through (some s) w h =
        installed_loop-Through s s.installed (get_components efi bios) [] all_known w h

    installed_part-AllKeep :
        (o : Option SavedState) (w : P.Machine)
        (r : BTreeMap (Component P.Machine) × BTreeMap ComponentStatus)
        → (installed_part P o (get_components efi bios) w).0 ≡ ok r
        → AllKeep P r.0
    unfolding installed_part
    installed_part-AllKeep none w r e = subst (λ q. AllKeep P q.0) (ok_inj e) all_known
    installed_part-AllKeep (some s) w r e =
        installed_loop-AllKeep P s s.installed (get_components efi bios) [] w r all_known e

    pub status-Through : Through H (status P efi bios)
    unfolding status
    status-Through w h = continue-Through H (P.open_dir slash w) _ w h λ _ _ w1 h1.
        continue-Through H (load_from_disk P slash w1) _ w1 h1 λ o _ w2 h2.
          continue-Through H (installed_part P o (get_components efi bios) w2).0 _ _
            (installed_part-Through o w2 h2)
            λ r e w3 h3.
              continue-Through H (adoptable_loop P r.0 [] w3).0 _ _
                (adoptable_loop-Through r.0 [] (installed_part-AllKeep o w2 r e) w3 h3)
                λ _ _ w4 h4. h4

    module _ (updates : (n : Str) → Through H (update P efi bios n))
        (adopts : (n : Str) → Through H (adopt_and_update P efi bios n)) where
      update_loop-Through :
          (l : List (Str × ComponentStatus)) (done : Bool)
          → Through H (update_loop P efi bios l done)
      unfolding update_loop
      update_loop-Through [] done w h = h
      update_loop-Through ((n, s) ∷ l) done w h = elim (ComponentUpdatable-cases s.updatable) [
        | inl e ↦ rw e (
            continue-Through H (update P efi bios n w).0 _ _ (updates n w h)
              λ r _. update_loop-Through l (has_updated r done))
        | inr (inl e) ↦ rw e (update_loop-Through l done w h)
        | inr (inr (inl e)) ↦ rw e (update_loop-Through l done w h)
        | inr (inr (inr e)) ↦ rw e (update_loop-Through l done w h)
      ]

      adopt_loop-Through :
          (l : List (Str × Adoptable)) (done : Bool) → Through H (adopt_loop P efi bios l done)
      unfolding adopt_loop
      adopt_loop-Through [] done w h = h
      adopt_loop-Through ((n, a) ∷ l) done w h = elim (Bool-cases a.confident) [
        | inl e ↦ rw e (
            continue-Through H (adopt_and_update P efi bios n w).0 _ _ (adopts n w h)
              λ _ _. adopt_loop-Through l true)
        | inr f ↦ rw f (adopt_loop-Through l done w h)
      ]

      update_components-Through :
          (st : Status)
          → Through H
              (update_loop P efi bios st.components false >>= adopt_loop P efi bios st.adoptable)
      update_components-Through st w h =
          continue-Through H (update_loop P efi bios st.components false w).0 _ _
            (update_loop-Through st.components false w h)
            λ done _. adopt_loop-Through st.adoptable done

      fail_point_same : (name : Str) (w : P.Machine) → (try_fail_point P name w).1 ≡ w
      unfolding try_fail_point
      fail_point_same name w = elim (Option-cases (P.fail_eval name w)) [
        | inl f ↦ rw (try_fail_point, f) refl
        | inr (e, f) ↦ rw (try_fail_point, f) refl
      ]

      pub client_run_update-Through : Through H (client_run_update P efi bios)
      unfolding client_run_update
      client_run_update-Through w h =
          continue-Through H (try_fail_point P (codes "update") w).0 _ _
            (subst H (sym (fail_point_same (codes "update") w)) h)
            λ _ _ w0 h0.
              continue-Through H (status P efi bios w0).0 _ _ (status-Through w0 h0) λ st _ w1 h1.
                elim (Bool-cases (is_empty st.components && is_empty st.adoptable)) [
                  | inl e ↦ rw e h1
                  | inr e ↦ rw e (update_components-Through st w1 h1)
                ]
