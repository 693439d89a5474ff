-- ===== src/Efi/Mount/Mounted.antt =====
-- How `ensure_mounted_esp` comes to a mount.
use mathlib.Core.Path.{subst}
use bootupd.Base.{
  Str, ◌≡◌, ◌⊎◌, refl, ap, sym, ◌∙◌, true, Option, none, some, List, [], ◌∷◌, Result, ok,
  continue-ok, ok_or-ok, ok_inj, Bool-cases, inl, inr, err-ne-ok, ok_or, arith, eqb,
}
use bootupd.Base.Path.{join}
use bootupd.Component.Tools.{Tools}
use bootupd.Packagesystem.Query.{run}
use bootupd.Statefile.{Platform, ensure_writable_mount}
use bootupd.Efi.Host.{Host}
use bootupd.Efi.Mount.{
  find_mounted, mount_first, mount_esp, ensure_mounted, ensure_mounted_esp, set_cell, mount_args,
  esp_mounts, get_esp_device, msdos_super_magic,
}

-- The cell holds what was put into it, and only the component changes it.
pub record KeepsCell (P : Platform) (T : Tools P.Machine) (H : Host P.Machine) : Type 0 where
  pub mountpoint_set : (m : Option Str) (w : P.Machine) → H.mountpoint (H.set_mountpoint m w) ≡ m
  pub status_keeps :
      (args : List Str) (w : P.Machine) → H.mountpoint (T.status args w).1 ≡ H.mountpoint w
  pub remount_keeps : (p : Str) (w : P.Machine) → H.mountpoint (P.remount_rw p w).1 ≡ H.mountpoint w

module _ (P : Platform) (T : Tools P.Machine) (H : Host P.Machine) (K : KeepsCell P T H) where
  ensure_writable_mount_keeps :
      (p : Str) (w : P.Machine) → H.mountpoint (ensure_writable_mount P p w).1 ≡ H.mountpoint w
  unfolding ensure_writable_mount
  ensure_writable_mount_keeps p w = grind (arith, K.remount_keeps)

  run_keeps : (args : List Str) (w : P.Machine) → H.mountpoint (run T args w).1 ≡ H.mountpoint w
  unfolding run
  run_keeps args w = grind (arith, K.status_keeps)

  -- Whatever it finds, the first loop leaves the cell.
  find_mounted_keeps :
      (root : Str) (l : List Str) (w : P.Machine)
      → H.mountpoint (find_mounted P T H root l w).1 ≡ H.mountpoint w
  unfolding find_mounted
  find_mounted_keeps root [] w = refl
  find_mounted_keeps root (mnt ∷ rest) w =
      grind (arith, ensure_writable_mount_keeps, find_mounted_keeps root rest)

  -- There is a mounted ESP at the path.
  abbrev pub IsEsp : Str → P.Machine → Type 0
  IsEsp mnt w = (T.exists mnt w ≡ true) × (H.statfs mnt w ≡ ok msdos_super_magic)

  find_mounted-IsEsp :
      (root : Str) (l : List Str) (w : P.Machine) {mnt : Str}
      → (find_mounted P T H root l w).0 ≡ ok (some mnt)
      → IsEsp mnt w
  unfolding find_mounted
  find_mounted-IsEsp root [] w h = cc
  find_mounted-IsEsp root (at ∷ rest) w {mnt} h = elim (Bool-cases (T.exists (join root at) w)) [
    | inr gone ↦ find_mounted-IsEsp root rest w (rw gone at h)
    | inl here ↦
        let (f_type, e, h1) = continue-ok (H.statfs (join root at) w) _ w (rw here at h) in
        elim (Bool-cases (eqb f_type msdos_super_magic)) [
          | inr foreign ↦ find_mounted-IsEsp root rest w (rw foreign at h1)
          | inl fat ↦
              let (_, _, h2) =
                continue-ok (ensure_writable_mount P (join root at) w).0 _ _ (rw fat at h1) in
              let same : join root at ≡ mnt = cc in
              (
                ap (λ x. T.exists x w) (sym same) ∙ here,
                ap (λ x. H.statfs x w) (sym same) ∙ e ∙ ap ok (ground arith),
              )
        ]
  ]

  find_mounted-none :
      (root : Str) (l : List Str) (w : P.Machine)
      → (find_mounted P T H root l w).0 ≡ ok none
      → (find_mounted P T H root l w).1 ≡ w
  unfolding find_mounted
  find_mounted-none root [] w h = refl
  find_mounted-none root (at ∷ rest) w h = elim (Bool-cases (T.exists (join root at) w)) [
    | inr gone ↦ rw gone (find_mounted-none root rest w (rw gone at h))
    | inl here ↦
        let (f_type, e, h1) = continue-ok (H.statfs (join root at) w) _ w (rw here at h) in
        elim (Bool-cases (eqb f_type msdos_super_magic)) [
          | inr foreign ↦ rw (here, e, foreign) (find_mounted-none root rest w (rw foreign at h1))
          | inl fat ↦
              let (_, _, h2) =
                continue-ok (ensure_writable_mount P (join root at) w).0 _ _ (rw fat at h1) in
              absurd (some-ne-none h2)
        ]
  ]
    where
      some-ne-none : {s : Str} → ◌≡◌ {A = Result (Option Str)} (ok (some s)) (ok none) → ⊥
      some-ne-none k = cc

  run_ok :
      (args : List Str) (w : P.Machine) → (run T args w).0 ≡ ok tt → (T.status args w).0 ≡ ok true
  unfolding run
  run_ok args w h =
      let (done, e, h1) = continue-ok (T.status args w).0 _ _ h in
      elim (Bool-cases done) [
        | inl good ↦ e ∙ ap ok good
        | inr bad ↦ absurd (err-ne-ok (rw bad at h1))
      ]

  -- The device is mounted at the path by a command that succeeded.
  abbrev pub IsMounted : Str → P.Machine → P.Machine → Type 0
  IsMounted mnt w v =
      (H.mountpoint v ≡ some mnt)
      × (device : Str) × (get_esp_device P T H w ≡ some device)
      × (T.exists mnt w ≡ true)
      × ((T.status (mount_args device mnt) w).0 ≡ ok true)

  mount_first-cases :
      (device root : Str) (l : List Str) (w : P.Machine)
      → (mount_first P T H device root l w).0 ≡ ok tt
      → ((mount_first P T H device root l w).1 ≡ w)
        ⊎ ((mnt : Str) × (H.mountpoint (mount_first P T H device root l w).1 ≡ some mnt)
            × (T.exists mnt w ≡ true)
            × ((T.status (mount_args device mnt) w).0 ≡ ok true))
  unfolding mount_first set_cell
  mount_first-cases device root [] w h = inl refl
  mount_first-cases device root (at ∷ rest) w h = elim (Bool-cases (T.exists (join root at) w)) [
    | inr gone ↦ rw gone (mount_first-cases device root rest w (rw gone at h))
    | inl here ↦
        let (_, e, _) =
          continue-ok (run T (mount_args device (join root at)) w).0 _ _ (rw here at h) in
        inr (
          join root at,
          rw (here, e) (K.mountpoint_set _ _),
          here,
          run_ok (mount_args device (join root at)) w e,
        )
  ]

  -- It was mounted before, or it is reused, or it was mounted now.
  abbrev pub IsFoundOrMounted : Str → P.Machine → P.Machine → Type 0
  IsFoundOrMounted mnt w v =
      ((H.mountpoint w ≡ some mnt) × (v ≡ w))
      ⊎ (((H.mountpoint w ≡ none) × (H.mountpoint v ≡ none) × IsEsp mnt w)
          ⊎ ((H.mountpoint w ≡ none) × IsMounted mnt w v))

  mount_esp-none :
      (root : Str) (w : P.Machine) {mnt : Str}
      → H.mountpoint w ≡ none
      → (mount_esp P T H root none w).0 ≡ ok mnt
      → IsMounted mnt w (mount_esp P T H root none w).1
  unfolding mount_esp
  mount_esp-none root w {mnt} fresh h =
      let (device, d, h1) = continue-ok (ok_or (get_esp_device P T H w) _) _ w h in
      let (_, e, h2) = continue-ok (mount_first P T H device root esp_mounts w).0 _ _ h1 in
      elim (mount_first-cases device root esp_mounts w e) [
        | inl same ↦ absurd (err-ne-ok (rw (same, fresh) at h2))
        | inr (at, cell, here, done) ↦
            let same : at ≡ mnt = ok_inj (rw cell at h2) in
            rw (d, e)
              (
                cell ∙ ap some same,
                device,
                ok_or-ok (get_esp_device P T H w) _ d,
                ap (λ x. T.exists x w) (sym same) ∙ here,
                ap (λ x. (T.status (mount_args device x) w).0) (sym same) ∙ done,
              )
      ]

  mount_esp-IsFoundOrMounted :
      (root : Str) (found : Option Str) (w v : P.Machine) {mnt : Str}
      → H.mountpoint w ≡ none
      → H.mountpoint v ≡ H.mountpoint w
      → (find_mounted P T H root esp_mounts w).0 ≡ ok found
      → (found ≡ none → v ≡ w)
      → (mount_esp P T H root found v).0 ≡ ok mnt
      → IsFoundOrMounted mnt w (mount_esp P T H root found v).1
  unfolding mount_esp
  mount_esp-IsFoundOrMounted root none w v {mnt} fresh keeps e same h =
      let moves : P.Machine → Type 0 = λ u.
        (mount_esp P T H root none u).0 ≡ ok mnt
        → IsMounted mnt w (mount_esp P T H root none u).1 in
      inr (inr (fresh, subst moves (sym (same refl)) (mount_esp-none root w fresh) h))
  mount_esp-IsFoundOrMounted root (some at) w v {mnt} fresh keeps e same h =
      let there = find_mounted-IsEsp root esp_mounts w (e ∙ ap (λ x. ok (some x)) (ok_inj h)) in
      inr (inl (fresh, keeps ∙ fresh, there))

  ensure_mounted-IsFoundOrMounted :
      (root : Str) (cell : Option Str) (w : P.Machine) {mnt : Str}
      → H.mountpoint w ≡ cell
      → (ensure_mounted P T H root cell w).0 ≡ ok mnt
      → IsFoundOrMounted mnt w (ensure_mounted P T H root cell w).1
  unfolding ensure_mounted
  ensure_mounted-IsFoundOrMounted root (some at) w c h = inl (c ∙ ap some (ok_inj h), refl)
  ensure_mounted-IsFoundOrMounted root none w c h =
      let (found, e, h1) = continue-ok (find_mounted P T H root esp_mounts w).0 _ _ h in
      rw e (
        mount_esp-IsFoundOrMounted root found w _ c (find_mounted_keeps root esp_mounts w) e
          (λ n. find_mounted-none root esp_mounts w (e ∙ ap ok n)) h1)

  -- If `ensure_mounted_esp` succeeds, then the partition was mounted by the component before and
  -- nothing is done; or it had mounted none, the path is an existing mount of a FAT file system, which
  -- it does not take for its own; or it had mounted none, and the mount of the ESP device at the path
  -- succeeded and is remembered.
  pub ensure_mounted_esp_lem :
      (root mnt : Str) (w : P.Machine)
      → (ensure_mounted_esp P T H root w).0 ≡ ok mnt
      → IsFoundOrMounted mnt w (ensure_mounted_esp P T H root w).1
  unfolding ensure_mounted_esp
  ensure_mounted_esp_lem root mnt w h =
      ensure_mounted-IsFoundOrMounted root (H.mountpoint w) w refl h
