-- ===== src/Bootupd/Client.antt =====
-- `client_run_update`, `client_run_adopt_and_update` and `client_run_validate` of src/bootupd.rs.
use bootupd.Base.{
  Str, codes, Bool, true, false, ◌&&◌, none, some, List, [], ◌∷◌, failed, Exec, pure, bail, ◌>>=◌,
  ◌>>◌, if◌then◌else◌, is_empty,
}
use bootupd.Model.{upgradable, ComponentStatus, Adoptable}
use bootupd.Component.{Component, ValidationResult, errors}
use bootupd.Statefile.{Platform}
use bootupd.Bootupd.{
  ComponentUpdateResult, at_latest_version, updated, update, adopt_and_update, validate,
}
use bootupd.Bootupd.Status.{status}

-- `try_fail_point!` of src/failpoints.rs
unfoldable pub try_fail_point : (P : Platform) → Str → Exec P.Machine (Unit {0})
try_fail_point P name w = elim (P.fail_eval name w) [ none ↦ (pure tt) w | some e ↦ (bail e) w ]

-- Whether the run counts as an update.
abbrev pub has_updated : ComponentUpdateResult → Bool → Bool
has_updated at_latest_version before = before
has_updated (updated _ _ _) before = true

abbrev pub has_errors : ValidationResult → Bool → Bool
has_errors (errors _) before = true
has_errors _ before = before

module _ (P : Platform) (efi bios : Component P.Machine) where
  -- The loop over the components; a race with another client is only reported.
  unfoldable pub update_loop : List (Str × ComponentStatus) → Bool → Exec P.Machine Bool
  update_loop [] done = pure done
  update_loop ((name, cstatus) ∷ rest) done = elim cstatus.updatable [
    | upgradable ↦ do r ← update P efi bios name; update_loop rest (has_updated r done)
    | _ ↦ update_loop rest done
  ]

  unfoldable pub adopt_loop : List (Str × Adoptable) → Bool → Exec P.Machine Bool
  adopt_loop [] done = pure done
  adopt_loop ((name, adoptable) ∷ rest) done = elim adoptable.confident [
    | true ↦ do adopt_and_update P efi bios name; adopt_loop rest true
    | false ↦ adopt_loop rest done
  ]

  -- The result is the flag `updated`, which chooses the last message.
  unfoldable pub client_run_update : Exec P.Machine Bool
  unfolding try_fail_point
  client_run_update = do
    try_fail_point P (codes "update")
    found ← status P efi bios
    if is_empty found.components && is_empty found.adoptable
        then pure false
        else do done ← update_loop found.components false; adopt_loop found.adoptable done

  adopt_all : List (Str × Adoptable) → Exec P.Machine (Unit {0})
  adopt_all [] = pure tt
  adopt_all ((name, _) ∷ rest) = do adopt_and_update P efi bios name; adopt_all rest

  unfoldable pub client_run_adopt_and_update : Exec P.Machine (Unit {0})
  unfolding adopt_all
  client_run_adopt_and_update = do found ← status P efi bios; adopt_all found.adoptable

  unfoldable pub validate_loop : List (Str × ComponentStatus) → Bool → Exec P.Machine Bool
  validate_loop [] caught = pure caught
  validate_loop ((name, _) ∷ rest) caught = do
    r ← validate P efi bios name
    validate_loop rest (has_errors r caught)

  -- The rest of `client_run_validate` once the status is known.
  unfoldable pub validate_components : List (Str × ComponentStatus) → Exec P.Machine (Unit {0})
  unfolding validate_loop
  validate_components components = if is_empty components then pure tt else do
    caught ← validate_loop components false
    if caught then bail (failed "Caught validation errors") else pure tt

  unfoldable pub client_run_validate : Exec P.Machine (Unit {0})
  unfolding validate_components
  client_run_validate = do found ← status P efi bios; validate_components found.components
