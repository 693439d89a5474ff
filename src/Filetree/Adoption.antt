-- ===== src/Filetree/Adoption.antt =====
-- `relative_diff_to`: what it finds on a disk, looking only at the paths of the tree.
use bootupd.Base.{
  Str, codes, ◌≡◌, Bool, true, false, not, ◌||◌, Option, none, some, [], ◌∷◌, arith, Result, ok,
  and_then-ok, err-ne-ok, starts_with, contains, contains-set_insert, Bool-cases, inl, inr, ◌==◌,
  str_eq, ap, sym, ◌∙◌, err, refl,
}
use bootupd.Base.Map.{BTreeMap, get, IsSorted, Above-IsSorted, get_of_Above}
use bootupd.Filetree.{
  FileMetadata, FileTree, FileTreeDiff, same_metadata, compare_found, relative_loop,
  relative_diff_to, no_diff, Found, missing, other, a_file,
}
use bootupd.Filetree.Diff.{IsTree}
use bootupd.Filetree.Patch.{same_metadata_iff}

-- What a path of the tree is, by what the disk has there.
abbrev pub absent : Option FileMetadata → Result Found → Bool
absent (some v) (ok missing) = true
absent _ _ = false

abbrev pub altered : Option FileMetadata → Result Found → Bool
altered (some v) (ok other) = true
altered (some v) (ok (a_file (ok w))) = not (same_metadata v w)
altered _ _ = false

module _ (dir : Str → Result Found) (p : Str) where
  abbrev Lists : BTreeMap FileMetadata → FileTreeDiff → FileTreeDiff → Type 0
  Lists l d r =
      (contains r.removals p ≡ (contains d.removals p || absent (get l p) (dir p)))
      × (contains r.changes p ≡ (contains d.changes p || altered (get l p) (dir p)))
      × (r.additions ≡ d.additions)

  compare_found-Lists :
      (k : Str) (v : FileMetadata) (found : Found) (d e : FileTreeDiff)
      → compare_found k v found d ≡ ok e
      → dir k ≡ ok found
      → Lists ((k, v) ∷ []) d e
  unfolding compare_found get
  compare_found-Lists k v missing d e h g = ground (arith, contains-set_insert k p d.removals)
  compare_found-Lists k v other d e h g = ground (arith, contains-set_insert k p d.changes)
  compare_found-Lists k v (a_file r) d e h g = ground (arith, contains-set_insert k p d.changes)

  -- The head and the rest of the tree are told apart by the path.
  Lists-cons :
      (k : Str) (v : FileMetadata) (l : BTreeMap FileMetadata) (d e r : FileTreeDiff)
      → get l k ≡ none
      → Lists ((k, v) ∷ []) d e
      → Lists l e r
      → Lists ((k, v) ∷ l) d r
  unfolding get
  Lists-cons k v l d e r fresh h g = ground arith

  relative_loop-Lists :
      (l : BTreeMap FileMetadata) (d r : FileTreeDiff)
      → IsSorted l
      → relative_loop l dir d ≡ ok r
      → Lists l d r
  unfolding relative_loop get
  relative_loop-Lists [] d r s h = ground arith
  relative_loop-Lists ((k, v) ∷ l) d r s h = elim (Bool-cases (starts_with k (codes "/"))) [
    | inl e ↦ absurd (err-ne-ok (rw e at h))
    | inr e ↦
        let (found, g, h1) = and_then-ok (dir k) _ (rw e at h) in
        let (d', c, h2) = and_then-ok (compare_found k v found d) _ h1 in
        Lists-cons k v l d d' r (get_of_Above k l s) (compare_found-Lists k v found d d' c g)
          (relative_loop-Lists l d' r (Above-IsSorted k l s) h2)
  ]

-- A path is listed as removed if the tree has it and the disk has nothing there, and as changed if
-- the disk has something else than a file there, or a file of another size or digest. Nothing is
-- listed as added, and no path outside the tree is listed.
relative_diff_to_paths :
    (t : FileTree) (dir : Str → Result Found) (p : Str) {r : FileTreeDiff}
    → IsTree t
    → relative_diff_to t dir ≡ ok r
    → (contains r.removals p ≡ absent (get t.children p) (dir p))
      × (contains r.changes p ≡ altered (get t.children p) (dir p))
      × (r.additions ≡ [])
unfolding relative_diff_to
relative_diff_to_paths t dir p s h = relative_loop-Lists dir p t.children no_diff _ s h

-- What `relative_diff_to` can go on with.
abbrev pub readable : Result Found → Bool
readable (ok missing) = true
readable (ok other) = true
readable (ok (a_file (ok w))) = true
readable _ = false

module _ (dir : Str → Result Found) (p : Str) where
  compare_found-readable :
      (k : Str) (v : FileMetadata) (found : Found) (d e : FileTreeDiff)
      → compare_found k v found d ≡ ok e
      → readable (ok found) ≡ true
  unfolding compare_found
  compare_found-readable k v missing d e h = refl
  compare_found-readable k v other d e h = refl
  compare_found-readable k v (a_file (ok w)) d e h = refl
  compare_found-readable k v (a_file (err x)) d e h = cc

  relative_loop-readable :
      (l : BTreeMap FileMetadata) (d r : FileTreeDiff) {m : FileMetadata}
      → relative_loop l dir d ≡ ok r
      → get l p ≡ some m
      → readable (dir p) ≡ true
  unfolding relative_loop get
  relative_loop-readable [] d r h g = cc
  relative_loop-readable ((k, v) ∷ l) d r {m} h g = elim (Bool-cases (starts_with k (codes "/"))) [
    | inl e ↦ absurd (err-ne-ok (rw e at h))
    | inr e ↦
        let (found, f, h1) = and_then-ok (dir k) _ (rw e at h) in
        let (d', c, h2) = and_then-ok (compare_found k v found d) _ h1 in
        elim (Bool-cases (p == k)) [
          | inl same ↦
              ap (λ x. readable (dir x)) (str_eq p k same)
              ∙ ap readable f
              ∙ compare_found-readable k v found d d' c
          | inr apart ↦ relative_loop-readable l d' r h2 (rw apart at g)
        ]
  ]

  -- A path of the tree that is listed neither as removed nor as changed is on the disk as in the tree.
  pub relative_diff_to_unlisted :
      (t : FileTree) {r : FileTreeDiff} {m : FileMetadata}
      → IsTree t
      → relative_diff_to t dir ≡ ok r
      → get t.children p ≡ some m
      → contains r.removals p ≡ false
      → contains r.changes p ≡ false
      → dir p ≡ ok (a_file (ok m))
  unfolding relative_diff_to
  relative_diff_to_unlisted t {r} {m} s h g kept same =
      let paths = relative_diff_to_paths t dir p s h in
      let absent_not = sym paths.0 ∙ kept in
      let altered_not = sym paths.1 ∙ same in
      as_recorded (dir p) (relative_loop-readable t.children no_diff r h g) (rw g at absent_not)
        (rw g at altered_not)
    where
      as_recorded :
          (x : Result Found)
          → readable x ≡ true
          → absent (some m) x ≡ false
          → altered (some m) x ≡ false
          → x ≡ ok (a_file (ok m))
      as_recorded (ok missing) a b c = cc
      as_recorded (ok other) a b c = cc
      as_recorded (ok (a_file (err e))) a b c = cc
      as_recorded (ok (a_file (ok w))) a b c =
          let equal : same_metadata m w ≡ true = ground arith in
          ap (λ x. ok (a_file (ok x))) (sym ((same_metadata_iff m w).0 equal))
      as_recorded (err e) a b c = cc
