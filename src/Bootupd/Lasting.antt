-- ===== src/Bootupd/Lasting.antt =====
-- What `client_run_update` keeps of the state file, however it ends.
use mathlib.Core.Path.{subst}
use bootupd.Base.{
  Str, ◌==◌, ◌≡◌, refl, sym, ap, ◌∙◌, ◌⊎◌, inl, inr, Option, none, some, Result, ok, Bool-cases,
  str_eq,
}
use bootupd.Base.Ends.{Ends_either}
use bootupd.Base.Map.{get, insert, get-insert}
use bootupd.Model.{InstalledContent, SavedState}
use bootupd.Component.{Component, new_from_name}
use bootupd.Statefile.{Platform, IsLawful, load_from_disk}
use bootupd.Bootupd.{slash, or_default, update, adopt_and_update}
use bootupd.Bootupd.Steps.{AreComponents, load_of_Sees}
use bootupd.Bootupd.Recorded.{update-Runs}
use bootupd.Bootupd.Adopt.{adopt_and_update-Runs}
use bootupd.Bootupd.Client.{client_run_update}
use bootupd.Bootupd.Through.{Through, client_run_update-Through}

module _ (P : Platform) (L : IsLawful P) (efi bios : Component P.Machine)
    (C : AreComponents P efi bios) (name : Str) (before : SavedState) (i : InstalledContent) where
  -- The record is as it was, or one that `run_update` of the component returned.
  abbrev pub IsKept : InstalledContent → Type 0
  IsKept j =
      (j ≡ i)
      ⊎ ((c : Component P.Machine) × (k : InstalledContent) × (u : P.Machine) × (new_from_name efi
              bios name
            ≡ ok c)
          × ((c.run_update k u).0 ≡ ok j))

  abbrev pub Lasts : SavedState → Type 0
  Lasts t =
      ((j : InstalledContent) × (get t.installed name ≡ some j) × IsKept j)
      × ((t.pending ≡ before.pending) ⊎ (t.pending ≡ none))

  -- A load gives a state in which the component is still installed.
  abbrev pub Held : P.Machine → Type 0
  Held v = (t : SavedState) × (load_from_disk P slash v ≡ ok (some t)) × Lasts t

  Held-same :
      (w v : P.Machine) → load_from_disk P slash v ≡ load_from_disk P slash w → Held w → Held v
  Held-same w v e (t, loaded, h) = (t, e ∙ loaded, h)

  same_state :
      {s t : SavedState} → ◌≡◌ {A = Result (Option SavedState)} (ok (some s)) (ok (some t)) → s ≡ t
  same_state h = cc

  same_load :
      (w : P.Machine) {o : Option SavedState} {s : SavedState}
      → load_from_disk P slash w ≡ ok (some s)
      → load_from_disk P slash w ≡ ok o
      → o ≡ some s
  same_load w h g = cc

  -- The state after an update of some component.
  updated-Lasts :
      (n : Str) (s : SavedState) (new : InstalledContent) (c : Component P.Machine)
      (k : InstalledContent) (u : P.Machine)
      → new_from_name efi bios n ≡ ok c
      → (c.run_update k u).0 ≡ ok new
      → Lasts s
      → Lasts (record s { installed = insert s.installed n new; pending = none })
  updated-Lasts n s new c k u made ran ((j, found, kept), _) = elim (Bool-cases (name == n)) [
    | inl e ↦ (
      (
        new,
        get-insert s.installed n name new ∙ rw e refl,
        inr (c, k, u, rw (str_eq name n e) made, ran),
      ),
      inr refl,
    )
    | inr e ↦ ((j, get-insert s.installed n name new ∙ rw e found, kept), inr refl)
  ]

  update-Held : (n : Str) → Through Held (update P efi bios n)
  update-Held n w (t, loaded, h) =
      Ends_either _ _ (update P efi bios n w).0
        (λ r. elim [
          | inl l ↦ Held-same w _ l.1 (t, loaded, h)
          | inr (s, inst, new, c, _, u, due, ran, _, after) ↦ (
            _,
            after,
            updated-Lasts n s new c inst u due.2 ran
                (subst Lasts (same_state (sym loaded ∙ due.0)) h),
          )
        ])
        (elim [
          | inl l ↦ Held-same w _ l (t, loaded, h)
          | inr (s, seen, after) ↦
              let h' = subst Lasts (same_state (sym loaded ∙ seen)) h in
              (_, after, (h'.0, inr refl))
        ])
        (update-Runs P L efi bios C n w)

  -- The state after an adoption, of a component that was not installed.
  adopted-Lasts :
      (n : Str) (s : SavedState) (new : InstalledContent)
      → get s.installed n ≡ none
      → Lasts s
      → Lasts (record s { installed = insert s.installed n new })
  adopted-Lasts n s new absent ((j, found, kept), p) = elim (Bool-cases (name == n)) [
    | inl e ↦
        absurd (none-ne-some (sym absent ∙ ap (get s.installed) (sym (str_eq name n e)) ∙ found))
    | inr e ↦ ((j, get-insert s.installed n name new ∙ rw e found, kept), p)
  ]
    where
      none-ne-some : ◌≡◌ {A = Option InstalledContent} none (some j) → ⊥
      none-ne-some q = cc

  adopt-Held : (n : Str) → Through Held (adopt_and_update P efi bios n)
  adopt-Held n w (t, loaded, h) =
      Ends_either _ _ (adopt_and_update P efi bios n w).0
        (λ r (o, c, new, _, _, seen, absent, _, _, _, after).
          let same : or_default o ≡ t = ap or_default (same_load w loaded seen) in
          (_, after, adopted-Lasts n (or_default o) new absent (subst Lasts (sym same) h)))
        (λ l. Held-same w _ l (t, loaded, h)) (adopt_and_update-Runs P L efi bios C n w)

  -- However `client_run_update` ends, with an error at any point included, a component that the state
  -- file had installed still is: it is recorded as before, or as a `run_update` of it returned it. And
  -- what is pending is as before, or cleared.
  pub client_run_update_keeps :
      (w : P.Machine)
      → load_from_disk P slash w ≡ ok (some before)
      → get before.installed name ≡ some i
      → (t : SavedState) × (load_from_disk P slash (client_run_update P efi bios w).1 ≡ ok (some t))
        × Lasts t
  client_run_update_keeps w loaded found =
      client_run_update-Through P Held (λ w' v e. Held-same w' v (load_of_Sees P L w' v e)) efi bios
        C update-Held adopt-Held w (before, loaded, ((i, found, inl refl), inl refl))
