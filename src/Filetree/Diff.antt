-- ===== src/Filetree/Diff.antt =====
-- What a diff says of each path.
use bootupd.Base.{
  Str, ◌≡◌, refl, ap, ◌∙◌, Bool, true, false, not, ◌&&◌, ◌||◌, Option, none, some, [], ◌∷◌, arith,
  if◌then◌else◌, is_some, contains, set_insert, contains-set_insert,
}
use bootupd.Base.Map.{BTreeMap, get, IsSorted, Above-IsSorted, get_of_Above}
use bootupd.Filetree.{
  FileMetadata, FileTree, FileTreeDiff, same_metadata, compare_file, compare_files, add_files,
  diff_impl, no_diff,
}

abbrev pub differs : Option FileMetadata → Option FileMetadata → Bool
differs (some v1) (some v2) = not (same_metadata v1 v2)
differs _ _ = false

abbrev pub lost : Option FileMetadata → Option FileMetadata → Bool
lost (some v1) none = true
lost _ _ = false

module _ (updated : BTreeMap FileMetadata) (p : Str) where
  compare_files-changes :
      (l : BTreeMap FileMetadata) (d : FileTreeDiff)
      → IsSorted l
      → contains (compare_files l updated d).changes p
        ≡ (contains d.changes p || differs (get l p) (get updated p))
  unfolding compare_files compare_file get
  compare_files-changes [] d s = ground arith
  compare_files-changes ((k, v) ∷ l) d s = ground (
    arith,
    contains-set_insert k p d.changes,
    compare_files-changes l (compare_file updated k v d) (Above-IsSorted k l s),
    get_of_Above k l s,
  )

  compare_files-removals :
      (l : BTreeMap FileMetadata) (d : FileTreeDiff)
      → IsSorted l
      → contains (compare_files l updated d).removals p
        ≡ (contains d.removals p || lost (get l p) (get updated p))
  unfolding compare_files compare_file get
  compare_files-removals [] d s = ground arith
  compare_files-removals ((k, v) ∷ l) d s = ground (
    arith,
    contains-set_insert k p d.removals,
    compare_files-removals l (compare_file updated k v d) (Above-IsSorted k l s),
    get_of_Above k l s,
  )

  compare_files-additions :
      (l : BTreeMap FileMetadata) (d : FileTreeDiff)
      → (compare_files l updated d).additions ≡ d.additions
  unfolding compare_files compare_file
  compare_files-additions [] d = refl
  compare_files-additions ((k, v) ∷ l) d =
      ground (arith, compare_files-additions l (compare_file updated k v d))

module _ (self : BTreeMap FileMetadata) (p : Str) where
  abbrev after_add : Str → FileTreeDiff → FileTreeDiff
  after_add k d =
      if is_some (get self k) then d else record d { additions = set_insert k d.additions }

  add_files-additions :
      (l : BTreeMap FileMetadata) (d : FileTreeDiff)
      → contains (add_files l self d).additions p
        ≡ (contains d.additions p || lost (get l p) (get self p))
  unfolding add_files get
  add_files-additions [] d = ground arith
  add_files-additions ((k, v) ∷ l) d =
      ground (arith, contains-set_insert k p d.additions, add_files-additions l (after_add k d))

  add_files_rest :
      (l : BTreeMap FileMetadata) (d : FileTreeDiff)
      → ((add_files l self d).changes ≡ d.changes) × ((add_files l self d).removals ≡ d.removals)
  unfolding add_files
  add_files_rest [] d = (refl, refl)
  add_files_rest ((k, v) ∷ l) d = ground (arith, add_files_rest l (after_add k d))

-- The trees keep their keys in order, as every `BTreeMap` does.
abbrev pub IsTree : FileTree → Type 0
IsTree t = IsSorted t.children

module _ (a b : FileTree) (p : Str) (sa : IsTree a) where
  -- A path is in `removals` if it is in the old tree alone, in `changes` if its size or its digest
  -- differs, and in `additions` if it is in the new tree alone and additions are asked for.
  pub diff_impl_paths :
      (check_additions : Bool)
      → let d = diff_impl a b check_additions in
        (contains d.removals p ≡ lost (get a.children p) (get b.children p))
        × (contains d.changes p ≡ differs (get a.children p) (get b.children p))
        × (contains d.additions p ≡ (check_additions && lost (get b.children p) (get a.children p)))
  unfolding diff_impl
  diff_impl_paths false = (
    compare_files-removals b.children p a.children no_diff sa,
    compare_files-changes b.children p a.children no_diff sa,
    ap (λ l. contains l p) (compare_files-additions b.children p a.children no_diff),
  )
  diff_impl_paths true =
      let d = compare_files a.children b.children no_diff in
      let rest = add_files_rest a.children p b.children d in
      let same = compare_files-additions b.children p a.children no_diff in
      (
        ap (λ l. contains l p) rest.1 ∙ compare_files-removals b.children p a.children no_diff sa,
        ap (λ l. contains l p) rest.0 ∙ compare_files-changes b.children p a.children no_diff sa,
        add_files-additions a.children p b.children d
            ∙ ap (λ l. contains l p || lost (get b.children p) (get a.children p)) same,
      )
