-- ===== src/Bootupd/Concurrent/Acted.antt =====
-- The statements of a process, one by one: what each leaves for the process and for the others.
use mathlib.Core.Path.{subst}
use bootupd.Base.{
  Str, ◌≡◌, refl, sym, ap, ◌∙◌, false, Option, none, some, ok, Error, and_then-ok, is_some, inl,
  inr, Bool-cases, ask, ok_inj,
}
use bootupd.Base.Map.{get, insert}
use bootupd.Model.{ContentMetadata, InstalledContent, SavedState}
use bootupd.Component.{Component, new_from_name}
use bootupd.Statefile.{Platform, IsLawful, load_from_disk, acquire_write_lock}
use bootupd.Bootupd.{slash, or_default, wanted, ensure_writable_boot}
use bootupd.Bootupd.Steps.{
  KeepsState, AreComponents, name-new_from_name, new_from_name-KeepsState, writable_boot-IsQuiet,
  lock-IsQuiet,
}
use bootupd.Bootupd.Concurrent.{
  Phase, update_starts, update_loaded, update_wanted, update_waits, update_locked, update_cleared,
  update_ran, adopt_starts, adopt_loaded, adopt_writable, adopt_waits, adopt_locked, adopt_ran,
  ending, ended, action, update_fails, load_component, open_component, find_update, offered,
  update_due_at,
}
use bootupd.Bootupd.Concurrent.Locked.{
  Made, Invariant, quiet-After, write-After, Loads-same, Ours, Fine, Shows, Loads, After,
}

module _ (P : Platform) (L : IsLawful P) (efi bios : Component P.Machine)
    (C : AreComponents P efi bios) (I : Invariant P efi bios) where
  fails_fine :
      (c : Component P.Machine) (w : P.Machine)
      → KeepsState P c
      → (e : Error) → KeepsState P c × Shows P L efi bios C I (update_fails c e) w
  fails_fine c w k e = (k, λ s h. cc)

  load_component-Ours :
      (name : Str) (w : P.Machine) (r : Component P.Machine × SavedState)
      → Loads P L efi bios C I w
      → load_component P efi bios name w ≡ ok r
      → Ours P L efi bios C I r.0 r.1 × (r.0.name ≡ name)
  load_component-Ours name w r (o, loaded, g) h =
      let (o', seen, h1) = and_then-ok (load_from_disk P slash w) _ h in
      let (c, made, h2) = and_then-ok (new_from_name efi bios name) _ h1 in
      let same_c : c ≡ r.0 = ap (λ (x : Component P.Machine × SavedState). x.0) (ok_inj h2) in
      let same_s : or_default o' ≡ r.1 =
        ap (λ (x : Component P.Machine × SavedState). x.1) (ok_inj h2) in
      let named = name-new_from_name P efi bios C name c made in
      (
        (
          subst (KeepsState P) same_c (new_from_name-KeepsState P efi bios C name c made),
          subst I.Holds (ap or_default (ok_inj (sym loaded ∙ seen)) ∙ same_s) g,
          subst (Made P efi bios) same_c (ap (new_from_name efi bios) named ∙ made),
        ),
        subst (λ (x : Component P.Machine). x.name ≡ name) same_c named,
      )

  is_none : {A : Type 0} (o : Option A) → is_some o ≡ false → o ≡ none
  is_none none h = refl
  is_none (some a) h = cc

  due-Fine :
      (c : Component P.Machine) (s : SavedState) (i : InstalledContent)
      (found : Option ContentMetadata) (w : P.Machine)
      → Ours P L efi bios C I c s
      → Fine P L efi bios C I (update_due_at c s i found)
        × Shows P L efi bios C I (update_due_at c s i found) w
  due-Fine c s i none w h = (h.0, λ _ q. cc)
  due-Fine c s i (some new) w h = (h, λ _ q. cc)

  pub action-After :
      (ph : Phase P.Machine) (w : P.Machine)
      → Fine P L efi bios C I ph
      → Shows P L efi bios C I ph w
      → Loads P L efi bios C I w
      → After P L efi bios C I ph w (action P efi bios ph w)
  unfolding action
  action-After (update_starts n) w fine shows loads =
      quiet-After P L efi bios C I (update_starts n) (ask (load_component P efi bios n)) _ _ w refl
        loads (λ r e. ((load_component-Ours n w r loads e).0, λ _ h. cc)) (λ e. (tt, λ _ h. cc))
  action-After (update_loaded n c s) w fine shows loads =
      quiet-After P L efi bios C I (update_loaded n c s) (ask (find_update P efi bios n c s)) _ _ w
        refl loads (λ r _. due-Fine c s r.0 (wanted r.0.meta r.1) w fine) (fails_fine c w fine.0)
  action-After (update_wanted c s i m) w fine shows loads =
      quiet-After P L efi bios C I (update_wanted c s i m) (ensure_writable_boot P) _ _ w
        (writable_boot-IsQuiet P L slash w) loads (λ _ _. (fine, λ _ h. cc)) (fails_fine c w fine.0)
  action-After (update_waits c s i m) w fine shows loads =
      quiet-After P L efi bios C I (update_waits c s i m) (acquire_write_lock P slash) _ _ w
        (lock-IsQuiet P L slash w) loads (λ _ _. (fine, λ _ h. cc)) (fails_fine c w fine.0)
  action-After (update_locked c s i m) w fine shows loads =
      write-After P L efi bios C I (update_locked c s i m) (record s { pending = none }) _ _ w refl
        (I.clears s fine.1) loads (fine, λ _ h. cc) (fails_fine c w fine.0)
  action-After (update_cleared c s i m) w fine shows loads =
      quiet-After P L efi bios C I (update_cleared c s i m) (c.run_update i) _ _ w
        (fine.0.run_update_quiet i slash w) loads (λ n e. ((fine, (fine.2, i, w, e)), shows))
        (fails_fine c w fine.0)
  action-After (update_ran c s i m n) w fine shows loads =
      write-After P L efi bios C I (update_ran c s i m n)
        (record s { installed = insert s.installed c.name n; pending = none }) _ _ w refl
        (I.clears (record s { installed = insert s.installed c.name n })
          (I.updates s c n (fine.0).1 fine.1))
        loads ((fine.0).0, λ _ h. cc) (fails_fine c w (fine.0).0)
  action-After (adopt_starts n) w fine shows loads =
      quiet-After P L efi bios C I (adopt_starts n) (ask (open_component P efi bios n)) _ _ w refl
        loads
        (λ r e.
          let (_, _, e1) = and_then-ok (P.open_dir slash w) _ e in
          (load_component-Ours n w r loads e1, λ _ h. cc))
        (λ e. (tt, λ _ h. cc))
  action-After (adopt_loaded n c s) w fine shows loads =
      elim (Bool-cases (is_some (get s.installed n))) [
        | inl e ↦ rw e ((fine.0).0, λ _ h. cc, λ _. refl, loads)
        | inr e ↦ rw e (
            quiet-After P L efi bios C I (adopt_loaded n c s) (ensure_writable_boot P) _ _ w
              (writable_boot-IsQuiet P L slash w) loads
              (λ _ _.
                ((fine.0, ap (get s.installed) fine.1 ∙ is_none (get s.installed n) e), λ _ h. cc))
              (λ e'. ((fine.0).0, λ _ h. cc)))
      ]
  action-After (adopt_writable c s) w fine shows loads =
      quiet-After P L efi bios C I (adopt_writable c s) (ask (offered P efi bios c)) _ _ w refl
        loads (λ _ _. (fine, λ _ h. cc)) (λ _. ((fine.0).0, λ _ h. cc))
  action-After (adopt_waits c s m) w fine shows loads =
      quiet-After P L efi bios C I (adopt_waits c s m) (acquire_write_lock P slash) _ _ w
        (lock-IsQuiet P L slash w) loads (λ _ _. (fine, λ _ h. cc)) (λ _. ((fine.0).0, λ _ h. cc))
  action-After (adopt_locked c s m) w fine shows loads =
      quiet-After P L efi bios C I (adopt_locked c s m) (c.adopt_update m) _ _ w
        ((fine.0).0.adopt_update_quiet m slash w) loads (λ _ _. (fine, λ _ h. cc))
        (λ _. ((fine.0).0, λ _ h. cc))
  action-After (adopt_ran c s m i) w fine shows loads =
      write-After P L efi bios C I (adopt_ran c s m i)
        (record s { installed = insert s.installed c.name i }) _ _ w refl
        (I.adopts s c i (fine.0).1 fine.1) loads ((fine.0).0, λ _ h. cc)
        (λ _. ((fine.0).0, λ _ h. cc))
  action-After (ending c r) w fine shows loads = (
    tt,
    λ _ h. cc,
    λ _. fine.unmount_quiet slash w,
    Loads-same P L efi bios C I w (c.unmount w) (fine.unmount_quiet slash w) loads,
  )
  action-After (ended r) w fine shows loads = (tt, λ _ h. cc, λ _. refl, loads)
