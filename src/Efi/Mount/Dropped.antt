-- ===== src/Efi/Mount/Dropped.antt =====
-- The mount of the component when it is dropped.
use bootupd.Base.{Str, ◌≡◌, ◌⊎◌, ap, sym, ◌∙◌, Option, none, some, List, ok, inl, inr, arith}
use bootupd.Component.Tools.{Tools}
use bootupd.Packagesystem.Query.{run}
use bootupd.Statefile.{Platform}
use bootupd.Efi.Host.{Host}
use bootupd.Efi.Mount.{ensure_mounted_esp, unmount_at, unmount, drop, set_cell, umount_args}
use bootupd.Efi.Mount.Mounted.{KeepsCell, IsEsp, IsMounted, ensure_mounted_esp_lem}

module _ (P : Platform) (T : Tools P.Machine) (H : Host P.Machine) (K : KeepsCell P T H) where
  run_machine : (args : List Str) (w : P.Machine) → (run T args w).1 ≡ (T.status args w).1
  unfolding run
  run_machine args w = ground arith

  drop-none : (v : P.Machine) → H.mountpoint v ≡ none → drop P T H v ≡ v
  unfolding drop unmount unmount_at
  drop-none v e = ap (λ c. (unmount_at P T H c v).1) e

  drop-some :
      (v : P.Machine) (mnt : Str)
      → H.mountpoint v ≡ some mnt
      → drop P T H v ≡ (T.status (umount_args mnt) (H.set_mountpoint none v)).1
  unfolding drop unmount unmount_at set_cell
  drop-some v mnt e =
      ap (λ c. (unmount_at P T H c v).1) e
      ∙ (run_machine (umount_args mnt) (H.set_mountpoint none v))

  -- A mount that the component made is unmounted when it is dropped, and one that it found stays; in
  -- either case nothing is left in the cell.
  pub drop-ensure_mounted_esp :
      (root mnt : Str) (w : P.Machine)
      → H.mountpoint w ≡ none
      → (ensure_mounted_esp P T H root w).0 ≡ ok mnt
      → let v = (ensure_mounted_esp P T H root w).1 in
        (H.mountpoint (drop P T H v) ≡ none)
        × ((IsEsp P T H K mnt w × (drop P T H v ≡ v))
            ⊎ (IsMounted P T H K mnt w v
                × (drop P T H v ≡ (T.status (umount_args mnt) (H.set_mountpoint none v)).1)))
  drop-ensure_mounted_esp root mnt w fresh h =
      let v = (ensure_mounted_esp P T H root w).1 in
      elim (ensure_mounted_esp_lem P T H K root mnt w h) [
        | inl (cell, _) ↦ absurd (some-ne-none (sym cell ∙ fresh))
        | inr (inl (_, cell, esp)) ↦
            (ap H.mountpoint (drop-none v cell) ∙ cell, inl (esp, drop-none v cell))
        | inr (inr (_, made)) ↦
            let dropped = drop-some v mnt made.0 in
            (
              ap H.mountpoint dropped ∙ K.status_keeps _ _ ∙ K.mountpoint_set none v,
              inr (made, dropped),
            )
      ]
    where
      some-ne-none : {s : Str} → ◌≡◌ {A = Option Str} (some s) none → ⊥
      some-ne-none k = cc
