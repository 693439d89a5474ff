-- ===== src/Bootupd/Steps.antt =====
-- Rules that follow what a load of the state file sees through an operation, step by step.
use mathlib.Core.Path.{subst}
use bootupd.Base.{
  ◌⊎◌, inl, inr, Str, codes, ◌≡◌, refl, ◌∙◌, Option, some, Result, ok, Exec, continue, arith, ap,
  and_then,
}
use bootupd.Base.Ends.{Runs, Ends-continue, Ends-cases}
use bootupd.Model.{ContentMetadata, InstalledContent, SavedState}
use bootupd.Component.{Component, new_from_name}
use bootupd.Statefile.{
  Platform, IsLawful, IsQuiet, look, load_from_disk, parse_file, acquire_write_lock, update_state,
}
use bootupd.Bootupd.{slash, ensure_writable_boot}

-- What the operations of a component may not do: touch the state file.
pub record KeepsState (P : Platform) (c : Component P.Machine) : Type 0 where
  pub run_update_quiet : (i : InstalledContent) → IsQuiet P (λ w. (c.run_update i w).1)
  pub adopt_update_quiet : (m : ContentMetadata) → IsQuiet P (λ w. (c.adopt_update m w).1)
  pub query_adopt_quiet : IsQuiet P (λ w. (c.query_adopt w).1)
  pub validate_quiet : (i : InstalledContent) → IsQuiet P (λ w. (c.validate i w).1)
  pub unmount_quiet : IsQuiet P c.unmount

-- What a load sees of a saved state.
abbrev pub Saw : Platform → Type 0
Saw P = Result (Unit {0}) × Result (Option P.Json)

module _ (P : Platform) (L : IsLawful P) where
  -- A load sees `x`.
  abbrev pub Sees : Saw P → P.Machine → Type 0
  Sees x w = look P slash w ≡ x

  -- A load sees the text of `s`, in a root that opens as in `x`.
  abbrev pub Holds : Saw P → SavedState → P.Machine → Type 0
  Holds x s = Sees (x.0, ok (some (P.to_writer s)))

  -- A quiet action leaves what is seen, and hands on its result.
  pub quiet_step :
      {A B : Type 0} (Q : B → P.Machine → Type 0) (E : P.Machine → Type 0) (x : Saw P)
      (m : Exec P.Machine A) (f : A → Exec P.Machine B) (w : P.Machine)
      → IsQuiet P (λ v. (m v).1)
      → ((v : P.Machine) → Sees x v → E v)
      → Sees x w
      → ((a : A) → (m w).0 ≡ ok a → Sees x (m w).1 → Runs Q E (f a) (m w).1)
      → Runs Q E (continue (m w).0 f) (m w).1
  quiet_step Q E x m f w q weak h next =
      Ends-continue (λ a v. (v ≡ (m w).1) × ((m w).0 ≡ ok a)) Q E (m w).0 f (m w).1
        (Ends-cases _ E (m w).0 (m w).1 (λ _ e. (refl, e)) (λ _ _. weak _ (q slash w ∙ h)))
        (λ a g. next a g.1 (q slash w ∙ h))

  pub writable_boot-IsQuiet : IsQuiet P (λ w. (ensure_writable_boot P w).1)
  unfolding ensure_writable_boot
  writable_boot-IsQuiet root w = ground (arith, L.remount_quiet (codes "/boot") root w)

  pub lock-IsQuiet : IsQuiet P (λ w. (acquire_write_lock P slash w).1)
  unfolding acquire_write_lock
  lock-IsQuiet root w =
      ground (arith, L.lock_quiet slash root w, L.sigterm_quiet root (P.lock_exclusive slash w).1)

  write_outcome :
      (E : P.Machine → Type 0) (x : Saw P) (s : SavedState) (w : P.Machine)
      → ((v : P.Machine) → Sees x v → E v)
      → Sees x w
      → Runs (λ _. Holds x s) E (update_state P slash s) w
  unfolding update_state
  write_outcome E x s w weak h =
      Ends-cases (λ _. Holds x s) E _ _
        (λ a e. ground (arith, L.look-write slash (P.to_writer s) w e))
        (λ e f. weak _ (L.look-write_failed slash (P.to_writer s) w e f ∙ h))

  -- A write puts the new state in place, or fails and leaves what is seen.
  pub write_step :
      {B : Type 0} (Q : B → P.Machine → Type 0) (E : P.Machine → Type 0) (x : Saw P)
      (s : SavedState) (f : Unit {0} → Exec P.Machine B) (w : P.Machine)
      → ((v : P.Machine) → Sees x v → E v)
      → Sees x w
      → ((v : P.Machine) → Holds x s v → Runs Q E (f tt) v)
      → Runs Q E (continue (update_state P slash s w).0 f) (update_state P slash s w).1
  write_step Q E x s f w weak h next =
      Ends-continue (λ _. Holds x s) Q E _ f _ (write_outcome E x s w weak h) (λ _. next _)

module _ (P : Platform) (L : IsLawful P) (w v : P.Machine) where
  pub load_of_Sees :
      Sees P L (look P slash w) v → load_from_disk P slash v ≡ load_from_disk P slash w
  unfolding load_from_disk
  load_of_Sees h = ap (λ (s : Saw P). and_then s.0 (λ _. and_then s.1 (parse_file P))) h

  pub load_of_Holds :
      (s : SavedState) {o : Option SavedState}
      → load_from_disk P slash w ≡ ok o
      → Holds P L (look P slash w) s v
      → load_from_disk P slash v ≡ ok (some s)
  unfolding load_from_disk
  load_of_Holds s loaded h = ground (arith, L.from_str-to_writer s)

-- The two components: their names, and that neither touches the state file.
pub record AreComponents (P : Platform) (efi bios : Component P.Machine) : Type 0 where
  pub efi_name : efi.name ≡ codes "EFI"
  pub bios_name : bios.name ≡ codes "BIOS"
  pub efi_keeps : KeepsState P efi
  pub bios_keeps : KeepsState P bios

module _ (P : Platform) (efi bios : Component P.Machine) (C : AreComponents P efi bios) where
  pub name-new_from_name :
      (name : Str) (c : Component P.Machine) → new_from_name efi bios name ≡ ok c → c.name ≡ name
  unfolding new_from_name
  name-new_from_name name c h = ground (arith, C.efi_name, C.bios_name)

  new_from_name-cases :
      (name : Str) (c : Component P.Machine)
      → new_from_name efi bios name ≡ ok c
      → (efi ≡ c) ⊎ (bios ≡ c)
  unfolding new_from_name
  new_from_name-cases name c h = ground arith

  pub new_from_name-KeepsState :
      (name : Str) (c : Component P.Machine) → new_from_name efi bios name ≡ ok c → KeepsState P c
  new_from_name-KeepsState name c h = elim (new_from_name-cases name c h) [
    | inl e ↦ subst (KeepsState P) e C.efi_keeps
    | inr e ↦ subst (KeepsState P) e C.bios_keeps
  ]
