-- ===== src/Filetree/Patch.antt =====
-- A diff as what it does to the files of a tree.
use bootupd.Base.{
  Str, ◌≡◌, refl, sym, ap, ◌∙◌, ◌↔◌, true, false, ◌||◌, Option, none, some, arith, if◌then◌else◌,
  contains, Bool-cases, inl, inr,
}
use bootupd.Base.Map.{get}
use bootupd.Filetree.{FileMetadata, FileTree, FileTreeDiff, same_metadata, diff, changes, updates}
use bootupd.Filetree.Diff.{IsTree, differs, lost, diff_impl_paths}

pub same_metadata_iff : (a b : FileMetadata) → (same_metadata a b ≡ true) ↔ (a ≡ b)
unfolding same_metadata
same_metadata_iff a b = ground arith

-- What a path holds once a diff is applied: nothing where it is removed, what the source has where
-- it is changed or added, and what it held before elsewhere.
abbrev pub patched {ℓ} :
    {A : Type ℓ} → FileTreeDiff → (Str → Option A) → (Str → Option A) → Str → Option A
patched d source old p =
    if contains d.removals p
    then none
    else if contains d.changes p || contains d.additions p
    then source p
    else old p

lost-or-differs :
    (o n : Option FileMetadata)
    → (if lost o n then none else if differs o n || lost n o then n else o) ≡ n
lost-or-differs none none = refl
lost-or-differs none (some v) = refl
lost-or-differs (some v) none = refl
lost-or-differs (some v) (some w) = elim (Bool-cases (same_metadata v w)) [
  | inl e ↦ rw e (ap some ((same_metadata_iff v w).0 e))
  | inr e ↦ rw e
]

differs_comm : (o n : Option FileMetadata) → differs o n ≡ differs n o
unfolding same_metadata
differs_comm none none = refl
differs_comm none (some v) = refl
differs_comm (some v) none = refl
differs_comm (some v) (some w) = ground arith

module _ (a b : FileTree) (p : Str) (sa : IsTree a) where
  -- Applying `a.diff(b)` with the files of `b` as the source makes every path of `a` what it is in
  -- `b`.
  pub patched-diff : patched (diff a b) (get b.children) (get a.children) p ≡ get b.children p
  unfolding diff
  patched-diff =
      let paths = diff_impl_paths a b p sa true in
      rw (paths.0, paths.1, paths.2) (lost-or-differs (get a.children p) (get b.children p))

  -- `a.diff(b)` and `b.diff(a)` list the same changes, and each removes what the other adds.
  -- `a.changes(b)` is `a.diff(b)` without its additions, and what `a.updates(b)` lists as removed is
  -- what `a.diff(b)` adds.
  diff_converse :
      IsTree b
      → (contains (diff b a).changes p ≡ contains (diff a b).changes p)
        × (contains (diff b a).removals p ≡ contains (diff a b).additions p)
        × (contains (diff b a).additions p ≡ contains (diff a b).removals p)
        × (contains (changes a b).changes p ≡ contains (diff a b).changes p)
        × (contains (changes a b).removals p ≡ contains (diff a b).removals p)
        × (contains (changes a b).additions p ≡ false)
        × (contains (updates a b).removals p ≡ contains (diff a b).additions p)
  unfolding diff changes updates
  diff_converse sb =
      let ab = diff_impl_paths a b p sa true in
      let ba = diff_impl_paths b a p sb true in
      let ch = diff_impl_paths a b p sa false in
      let up = diff_impl_paths b a p sb false in
      (
        ba.1 ∙ differs_comm (get b.children p) (get a.children p) ∙ sym ab.1,
        ba.0 ∙ sym ab.2,
        ba.2 ∙ sym ab.0,
        ch.1 ∙ sym ab.1,
        ch.0 ∙ sym ab.0,
        ch.2,
        up.0 ∙ sym ab.2,
      )
