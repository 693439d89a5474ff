-- ===== src/Efi/Updates.antt =====
-- What the operations of the component for EFI did, where they succeed.
use bootupd.Base.{
  Str, codes, ◌≡◌, refl, ap, sym, ◌∙◌, false, ◌&&◌, not, Option, none, some, List, [], ◌∷◌, ◌++◌,
  Result, ok, continue-ok, continue-rest, ok_or-ok, ok_inj, Bool-cases, inl, inr, err-ne-ok, ok_or,
  is_some, contains,
}
use bootupd.Base.Map.{get}
use bootupd.Model.{ContentMetadata, InstalledContent, Adoptable}
use bootupd.Component.{ValidationResult, valid, skip}
use bootupd.Component.Tools.{Tools}
use bootupd.Component.Available.{query_adopt_state}
use bootupd.Statefile.{Platform}
use bootupd.Bios.{is_efi_booted}
use bootupd.Filetree.{FileMetadata, FileTree, FileTreeDiff, a_file, diff, relative_diff_to}
use bootupd.Filetree.Diff.{IsTree}
use bootupd.Filetree.Adoption.{relative_diff_to_unlisted}
use bootupd.Filetree.Apply.{apply_diff}
use bootupd.Efi.Host.{Host}
use bootupd.Efi.Firmware.{skip_systemd_bootloaders}
use bootupd.Efi.Mount.{
  ensure_mounted_esp, open_esp, open_esp_optional, validate_esp, get_esp_device,
}
use bootupd.Efi.Operations.{
  query_adopt, adopt_update, run_update, validate, query_update, read_update_dir, updated_dir,
  validation, verdict_of, changed_lines, removed_lines, query_adopt_on,
}

module _ (P : Platform) (T : Tools P.Machine) (H : Host P.Machine) (w : P.Machine) where
  -- The machine on which the ESP has been mounted and opened.
  abbrev pub mounted : P.Machine
  mounted = (open_esp P T H (ensure_mounted_esp P T H (codes "/") w).1).1

  -- The files recorded, those of the update, the ESP, and what was done to it.
  abbrev pub IsUpdated : InstalledContent → InstalledContent → FileTree → FileTree → Str → Type 0
  IsUpdated i n old new esp =
      (i.filetree ≡ some old)
      × (read_update_dir P T H w ≡ ok new)
      × ((open_esp P T H (ensure_mounted_esp P T H (codes "/") w).1).0 ≡ ok esp)
      × (validate_esp P T H esp mounted ≡ ok tt)
      × ((apply_diff (H.disk updated_dir esp) (diff old new) none mounted).0 ≡ ok tt)
      × ((run_update P T H i w).1
          ≡ (apply_diff (H.disk updated_dir esp) (diff old new) none mounted).1)
      × (query_update P T H w ≡ ok (some n.meta))
      × (n.filetree ≡ some new)
      × (n.adopted_from ≡ none)

  pub run_update-IsUpdated :
      (i n : InstalledContent)
      → (run_update P T H i w).0 ≡ ok n
      → (old new : FileTree) × (esp : Str) × IsUpdated i n old new esp
  unfolding run_update
  run_update-IsUpdated i n h =
      let (old, o, h1, z1) = continue-rest (ok_or i.filetree _) _ w h in
      let (found, q, h2, z2) = continue-rest (query_update P T H w) _ w h1 in
      let (meta, e, h3, z3) = continue-rest (ok_or found _) _ w h2 in
      let (new, r, h4, z4) = continue-rest (read_update_dir P T H w) _ w h3 in
      let (mnt, m, h5, z5) = continue-rest (ensure_mounted_esp P T H _ w).0 _ _ h4 in
      let (esp, p, h6, z6) = continue-rest (open_esp P T H _).0 _ _ h5 in
      let (_, f, h7, z7) = continue-rest (validate_esp P T H esp _) _ _ h6 in
      let (_, a, h8, z8) =
        continue-rest (apply_diff (H.disk updated_dir esp) (diff old new) none _).0 _ _ h7 in
      let same = ok_inj h8 in
      (
        old,
        new,
        esp,
        (
          ok_or-ok i.filetree _ o,
          r,
          p,
          f,
          a,
          ap (λ x. x.1) (z1 ∙ z2 ∙ z3 ∙ z4 ∙ z5 ∙ z6 ∙ z7 ∙ z8),
          q ∙ ap ok (ok_or-ok found _ e) ∙ ap (λ (c : InstalledContent). ok (some c.meta)) same,
          sym (ap (λ (c : InstalledContent). c.filetree) same),
          sym (ap (λ (c : InstalledContent). c.adopted_from) same),
        ),
      )

  query_adopt_on-some :
      (esp : Option Str) (v : P.Machine) {a : Adoptable}
      → (query_adopt_on P T H esp v).0 ≡ ok (some a)
      → (skip_systemd_bootloaders T H v ≡ ok false) × (query_adopt_state T v ≡ ok (some a))
  unfolding query_adopt_on
  query_adopt_on-some none v h = cc
  query_adopt_on-some (some esp) v h =
      let (skips, e, h1) = continue-ok (skip_systemd_bootloaders T H v) _ v h in
      elim (Bool-cases skips) [
        | inl skipped ↦ absurd (none-ne-some (rw skipped at h1))
        | inr goes ↦ (e ∙ ap ok goes, rw goes at h1)
      ]
    where
      none-ne-some :
          {x : Adoptable} → ◌≡◌ {A = Result (Option Adoptable)} (ok none) (ok (some x)) → ⊥
      none-ne-some k = cc

  query_adopt-some :
      {a : Adoptable}
      → (query_adopt P T H w).0 ≡ ok (some a)
      → (skip_systemd_bootloaders T H (open_esp_optional P T H w).1 ≡ ok false)
        × (query_adopt_state T (open_esp_optional P T H w).1 ≡ ok (some a))
  unfolding query_adopt
  query_adopt-some h =
      let (esp, e, h1) = continue-ok (open_esp_optional P T H w).0 _ _ h in
      query_adopt_on-some esp _ h1

  -- The machine on which an adoption has opened the ESP, after its query.
  abbrev pub opened : P.Machine
  opened = (open_esp P T H (query_adopt P T H w).1).1

  -- What was adopted, the files of the update, what differs on the ESP, and what was done to it.
  abbrev pub IsAdopted :
      ContentMetadata → InstalledContent → Adoptable → FileTree → FileTreeDiff → Str → Type 0
  IsAdopted m n from new d esp =
      (skip_systemd_bootloaders T H (open_esp_optional P T H w).1 ≡ ok false)
      × (query_adopt_state T (open_esp_optional P T H w).1 ≡ ok (some from))
      × ((open_esp P T H (query_adopt P T H w).1).0 ≡ ok esp)
      × (validate_esp P T H esp opened ≡ ok tt)
      × (read_update_dir P T H opened ≡ ok new)
      × (relative_diff_to new (H.metadata_optional esp opened) ≡ ok d)
      × ((apply_diff (H.disk updated_dir esp) d none opened).0 ≡ ok tt)
      × ((adopt_update P T H m w).1 ≡ (apply_diff (H.disk updated_dir esp) d none opened).1)
      × (n ≡ record { meta = m; filetree = some new; adopted_from = some from.version })

  -- If an adoption by the component for EFI succeeds, systemd-boot did not boot the system and it was
  -- adoptable, the diff of the files of the update relative to the EFI system partition that was
  -- opened, a FAT file system, was applied to that partition as the last step, and what is recorded is
  -- the given version with the files of the update and the version that was adopted.
  pub adopt_update_applies :
      (m : ContentMetadata) (n : InstalledContent)
      → (adopt_update P T H m w).0 ≡ ok n
      → (from : Adoptable) × (new : FileTree) × (d : FileTreeDiff) × (esp : Str) × IsAdopted m n
          from new d esp
  unfolding adopt_update
  adopt_update_applies m n h =
      let (found, q, h1, z1) = continue-rest (query_adopt P T H w).0 _ _ h in
      let (from, e, h2, z2) = continue-rest (ok_or found _) _ _ h1 in
      let (skips, state) = query_adopt-some (q ∙ ap ok (ok_or-ok found _ e)) in
      let (esp, p, h3, z3) = continue-rest (open_esp P T H _).0 _ _ h2 in
      let (_, f, h4, z4) = continue-rest (validate_esp P T H esp _) _ _ h3 in
      let (new, r, h5, z5) = continue-rest (read_update_dir P T H _) _ _ h4 in
      let (d, g, h6, z6) =
        continue-rest (relative_diff_to new (H.metadata_optional esp _)) _ _ h5 in
      let (_, a, h7, z7) = continue-rest (apply_diff (H.disk updated_dir esp) d none _).0 _ _ h6 in
      (
        from,
        new,
        d,
        esp,
        (
          skips,
          state,
          p,
          f,
          r,
          g,
          a,
          ap (λ x. x.1) (z1 ∙ z2 ∙ z3 ∙ z4 ∙ z5 ∙ z6 ∙ z7),
          sym (ok_inj h7),
        ),
      )

  lines-valid :
      (cs rs : List Str)
      → verdict_of (changed_lines cs ++ removed_lines rs) ≡ valid
      → (cs ≡ []) × (rs ≡ [])
  lines-valid [] [] h = (refl, refl)
  lines-valid [] (r ∷ rs) h = cc
  lines-valid (c ∷ cs) rs h = cc

  validation-valid :
      (d : FileTreeDiff) → validation d ≡ ok valid → (d.changes ≡ []) × (d.removals ≡ [])
  unfolding validation
  validation-valid d h = by_additions d.additions refl
    where
      by_additions : (l : List Str) → d.additions ≡ l → (d.changes ≡ []) × (d.removals ≡ [])
      by_additions [] e = lines-valid d.changes d.removals (ok_inj (rw e at h))
      by_additions (a ∷ l) e = absurd (err-ne-ok (rw e at h))

  -- If `validate` of the component for EFI reports the content as valid, then every file that was
  -- recorded is on the EFI system partition that was opened with the size and the digest that were
  -- recorded.
  pub validate_valid :
      (i : InstalledContent) (t : FileTree) (p : Str) (m : FileMetadata)
      → IsTree t
      → i.filetree ≡ some t
      → get t.children p ≡ some m
      → (validate P T H i w).0 ≡ ok valid
      → (esp : Str) × ((open_esp P T H (ensure_mounted_esp P T H (codes "/") w).1).0 ≡ ok esp)
        × (H.metadata_optional esp mounted p ≡ ok (a_file (ok m)))
  unfolding validate
  validate_valid i t p m s e g h =
      let v = (open_esp P T H (ensure_mounted_esp P T H (codes "/") w).1).1 in
      let (booted, b, h1) = continue-ok (is_efi_booted T w) _ w h in
      elim (Bool-cases (not booted && not (is_some (get_esp_device P T H w)))) [
        | inl skips ↦ absurd (skip-ne-valid (rw skips at h1))
        | inr goes ↦
            let (old, o, h2) = continue-ok (ok_or i.filetree _) _ w (rw goes at h1) in
            let (mnt, u, h3) = continue-ok (ensure_mounted_esp P T H _ w).0 _ _ h2 in
            let (esp, q, h4) = continue-ok (open_esp P T H _).0 _ _ h3 in
            let (d, r, h5) =
              continue-ok (relative_diff_to old (H.metadata_optional esp v)) _ v h4 in
            let (changes, removals) = validation-valid d h5 in
            let same_tree : old ≡ t = cc in
            (
              esp,
              q,
              relative_diff_to_unlisted (H.metadata_optional esp v) p t s
                  (ap (λ x. relative_diff_to x (H.metadata_optional esp v)) (sym same_tree) ∙ r) g
                  (ap (λ l. contains l p) removals) (ap (λ l. contains l p) changes),
            )
      ]
    where
      skip-ne-valid : ◌≡◌ {A = Result ValidationResult} (ok skip) (ok valid) → ⊥
      skip-ne-valid k = cc
