-- ===== src/Bootupd/ClientRuns.antt =====
-- When `client_run_validate` succeeds.
use bootupd.Base.{
  Str, ◌≡◌, refl, ap, ◌∙◌, ◌↔◌, Bool, true, false, List, [], ◌∷◌, ok, failed, pure, bail,
  continue-ok, err-ne-ok, arith, if◌then◌else◌,
}
use bootupd.Model.{ComponentStatus, Status}
use bootupd.Component.{Component, ValidationResult}
use bootupd.Statefile.{Platform}
use bootupd.Bootupd.{validate}
use bootupd.Bootupd.Status.{status}
use bootupd.Bootupd.Client.{has_errors, validate_loop, validate_components, client_run_validate}

module _ (P : Platform) (efi bios : Component P.Machine) where
  -- Each listed component in turn is validated, and none reports errors.
  Validated : List (Str × ComponentStatus) → P.Machine → Type 0
  Validated [] w = Unit
  Validated ((name, _) ∷ rest) w =
      (r : ValidationResult) × ((validate P efi bios name w).0 ≡ ok r)
      × (has_errors r false ≡ false)
      × Validated rest (validate P efi bios name w).1

  has_errors_caught :
      (r : ValidationResult) (caught : Bool)
      → has_errors r caught ≡ false
      → (has_errors r false ≡ false) × (caught ≡ false)
  has_errors_caught r caught h = ground arith

  validate_loop-Validated :
      (l : List (Str × ComponentStatus)) (caught : Bool) (w : P.Machine)
      → (validate_loop P efi bios l caught w).0 ≡ ok false
      → Validated l w × (caught ≡ false)
  unfolding validate_loop Validated
  validate_loop-Validated [] caught w h = (tt, cc)
  validate_loop-Validated ((name, c) ∷ l) caught w h =
      let (r, q, h1) = continue-ok (validate P efi bios name w).0 _ _ h in
      let (v, e) = validate_loop-Validated l (has_errors r caught) _ h1 in
      let (clean, e') = has_errors_caught r caught e in ((r, q, clean, v), e')

  Validated-validate_loop :
      (l : List (Str × ComponentStatus)) (caught : Bool) (w : P.Machine)
      → caught ≡ false
      → Validated l w
      → (validate_loop P efi bios l caught w).0 ≡ ok false
  unfolding validate_loop Validated
  Validated-validate_loop [] caught w e v = ap ok e
  Validated-validate_loop ((name, c) ∷ l) caught w e (r, q, clean, v) =
      rw q (Validated-validate_loop l (has_errors r caught) _ (ap (has_errors r) e ∙ clean) v)

  caught_ok :
      (caught : Bool) (w : P.Machine)
      → ((if caught then bail (failed "Caught validation errors") else pure tt) w).0 ≡ ok tt
      → caught ≡ false
  caught_ok true w h = absurd (err-ne-ok h)
  caught_ok false w h = refl

  validate_components_iff :
      (l : List (Str × ComponentStatus)) (w : P.Machine)
      → ((validate_components P efi bios l w).0 ≡ ok tt) ↔ Validated l w
  unfolding validate_components Validated
  validate_components_iff [] w = (λ _. tt, λ _. refl)
  validate_components_iff (x ∷ l) w = (
    λ h.
        let (caught, q, h1) = continue-ok (validate_loop P efi bios (x ∷ l) false w).0 _ _ h in
        (validate_loop-Validated (x ∷ l) false w (q ∙ ap ok (caught_ok caught _ h1))).0,
    λ v. rw (Validated-validate_loop (x ∷ l) false w refl v),
  )

  -- `client_run_validate` succeeds exactly if `status` does and every component that it lists is
  -- validated in turn without an error; otherwise it fails.
  client_run_validate_iff :
      (w : P.Machine)
      → ((client_run_validate P efi bios w).0 ≡ ok tt) ↔ (
          (st : Status) × ((status P efi bios w).0 ≡ ok st)
          × Validated st.components (status P efi bios w).1)
  unfolding client_run_validate
  client_run_validate_iff w = (
    λ h.
        let (st, q, h1) = continue-ok (status P efi bios w).0 _ _ h in
        (st, q, (validate_components_iff st.components _).0 h1),
    λ (st, q, v). rw q ((validate_components_iff st.components _).1 v),
  )
