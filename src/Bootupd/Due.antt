-- ===== src/Bootupd/Due.antt =====
-- When an update goes through.
use mathlib.Core.Option.{get_or}
use bootupd.Base.{
  Str, codes, ◌≡◌, refl, Bool, true, Option, some, [], ok, and_then-ok, Bool-cases, inl, inr,
}
use bootupd.Base.Ends.{after}
use bootupd.Base.Map.{get}
use bootupd.Model.{ContentMetadata, InstalledContent, SavedState, can_upgrade_to}
use bootupd.Component.{Component, new_from_name}
use bootupd.Statefile.{
  Platform, load_from_disk, acquire_write_lock, update_state, ensure_writable_mount,
}
use bootupd.Bootupd.{updated, slash, ensure_writable_boot, apply_update, update_component, update}

-- A root that is loaded from opens.
load-open_dir :
    (P : Platform) (w : P.Machine) {o : Option SavedState}
    → load_from_disk P slash w ≡ ok o
    → P.open_dir slash w ≡ ok tt
unfolding load_from_disk
load-open_dir P w h = let (u, e, _) = and_then-ok (P.open_dir slash w) _ h in e

-- A machine on which nothing that `update` asks for fails.
pub record Works (P : Platform) : Type 0 where
  pub tells_read_only : (at : Str) (w : P.Machine) → (b : Bool) × (P.is_read_only at w ≡ ok b)
  pub remounts : (at : Str) (w : P.Machine) → (P.remount_rw at w).0 ≡ ok true
  pub locks : (at : Str) (w : P.Machine) → (P.lock_exclusive at w).0 ≡ ok tt
  pub registers : (w : P.Machine) → (P.register_sigterm w).0 ≡ ok tt
  pub writes : (at : Str) (t : P.Json) (w : P.Machine) → (P.write_statefile at t w).0 ≡ ok tt

module _ (P : Platform) (W : Works P) where
  boot_works : (w : P.Machine) → (ensure_writable_boot P w).0 ≡ ok tt
  unfolding ensure_writable_boot ensure_writable_mount
  boot_works w =
      let (b, e) = W.tells_read_only (codes "/boot") w in
      elim (Bool-cases b) [
        | inl t ↦ rw (e, t, W.remounts (codes "/boot") w) refl
        | inr f ↦ rw (e, f) refl
      ]

  lock_works : (at : Str) (w : P.Machine) → (acquire_write_lock P at w).0 ≡ ok tt
  unfolding acquire_write_lock
  lock_works at w = rw (W.locks at w, W.registers _) refl

  save_works : (at : Str) (s : SavedState) (w : P.Machine) → (update_state P at s w).0 ≡ ok tt
  unfolding update_state
  save_works at s w = W.writes at (P.to_writer s) w

  apply_works :
      (c : Component P.Machine) (state : SavedState) (inst : InstalledContent)
      (new : ContentMetadata)
      → ((u : P.Machine) → (n : InstalledContent) × ((c.run_update inst u).0 ≡ ok n))
      → (w : P.Machine)
      → (apply_update P c state inst new w).0
        ≡ ok (updated inst.meta (get (get_or state.pending []) c.name) new)
  unfolding apply_update
  apply_works c state inst new runs w = after (ensure_writable_boot P w).0 _ _ (boot_works w) (
      after (acquire_write_lock P slash _).0 _ _ (lock_works slash _) (
        after (update_state P slash _ _).0 _ _ (save_works slash _ _) (
          after (c.run_update inst _).0 _ _ (runs _).1
            (after (update_state P slash _ _).0 _ _ (save_works slash _ _) refl))))

  module _ (efi bios : Component P.Machine) (name : Str) (w : P.Machine) where
    -- On a machine where nothing fails that `update` asks for, an update of an installed component to
    -- a version that it can be upgraded to, which the component offers, is made and reported, if
    -- `run_update` succeeds.
    pub update_due :
        (state : SavedState) (inst : InstalledContent) (c : Component P.Machine)
        (new : ContentMetadata)
        → load_from_disk P slash w ≡ ok (some state)
        → get state.installed name ≡ some inst
        → new_from_name efi bios name ≡ ok c
        → c.query_update w ≡ ok (some new)
        → can_upgrade_to inst.meta new ≡ true
        → ((u : P.Machine) → (n : InstalledContent) × ((c.run_update inst u).0 ≡ ok n))
        → (update P efi bios name w).0
          ≡ ok (updated inst.meta (get (get_or state.pending []) c.name) new)
    unfolding update update_component
    update_due state inst c new loaded found made offered can runs =
        rw (loaded, made, found, load-open_dir P w loaded, offered, can)
          (apply_works c state inst new runs w)
