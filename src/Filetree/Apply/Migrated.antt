-- ===== src/Filetree/Apply/Migrated.antt =====
-- `apply_diff` of a diff between two trees, path by path.
use mathlib.Core.Option.{get_or}
use bootupd.Base.{
  Str, ℕ, ◌++◌, ◌==◌, ◌≡◌, refl, sym, ap, ◌∙◌, true, false, ◌&&◌, ◌||◌, Option, none, some, List,
  [], ◌∷◌, ok, if◌then◌else◌, contains, Bool-cases, Option-cases, inl, inr, arith, str_eq, eqb,
}
use bootupd.Base.Map.{get}
use bootupd.Base.Split.{split_once}
use bootupd.Filetree.{FileMetadata, FileTree, diff, same_metadata}
use bootupd.Filetree.Diff.{IsTree, differs, lost, diff_impl_paths}
use bootupd.Filetree.Patch.{same_metadata_iff}
use bootupd.Filetree.Disk.{Disk, IsDisk, Top, Place, same}
use bootupd.Filetree.Apply.{ApplyUpdateOptions, default_opts, place_of, apply_diff}
use bootupd.Filetree.Apply.View.{IsLive, View, put}
use bootupd.Filetree.Apply.Removal.{removed_from}
use bootupd.Filetree.Apply.Written.{written_to}
use bootupd.Filetree.Apply.Applied.{
  written, updated, IsTidy, AreListed, cleaned, files_at, apply_diff_applies,
}

split_once_joins : (c : ℕ) (s a b : Str) → split_once c s ≡ some (a, b) → s ≡ (a ++ (c ∷ b))
unfolding split_once
split_once_joins c [] a b h = cc
split_once_joins c (d ∷ s) a b h = elim (Bool-cases (eqb d c)) [
  | inl e ↦ let h' = rw e at h in grind arith
  | inr n ↦ elim (Option-cases (split_once c s)) [
    | inl e ↦ let h' = rw (n, e) at h in cc
    | inr ((x, y), e) ↦
        let at_rest = split_once_joins c s x y e in let h' = rw (n, e) at h in grind arith
  ]
]

-- The path of a place.
abbrev path_of : Place → Str
path_of (first, none) = first
path_of (first, some rest) = first ++ (b'/' ∷ rest)

path_of-place_of : (p : Str) → path_of (place_of p) ≡ p
unfolding place_of
path_of-place_of p = elim (Option-cases (split_once b'/' p)) [
  | inl e ↦ rw e refl
  | inr ((a, b), e) ↦ rw e (sym (split_once_joins b'/' p a b e))
]

same_eq : (a b : Option Str) → same a b ≡ true → a ≡ b
same_eq none none h = refl
same_eq none (some b) h = cc
same_eq (some a) none h = cc
same_eq (some a) (some b) h = ap some (str_eq a b h)

same_refl : (a : Option Str) → same a a ≡ true
same_refl none = refl
same_refl (some a) = ground arith

same_place : (p q : Place) → (p.0 == q.0) ≡ true → same p.1 q.1 ≡ true → p ≡ q
same_place (a, r) (b, s) e h = let first = str_eq a b e in let rest = same_eq r s h in cc

-- Two paths are the same exactly if their places are.
place_of-eq :
    (p q : Str)
    → ((place_of p).0 == (place_of q).0 && same (place_of p).1 (place_of q).1) ≡ (p == q)
place_of-eq p q = elim (Bool-cases (p == q)) [
  | inl e ↦
      rw
        (
          ap (λ x. (place_of x).0) (str_eq p q e),
          ap (λ x. (place_of x).1) (str_eq p q e),
          same_refl (place_of q).1,
        )
        (ground arith)
  | inr n ↦ elim (Bool-cases ((place_of p).0 == (place_of q).0)) [
    | inr e ↦ rw e (sym n)
    | inl e ↦ elim (Bool-cases (same (place_of p).1 (place_of q).1)) [
      | inr h ↦ rw (e, h) (sym n)
      | inl h ↦
          let at_path = ap path_of (same_place (place_of p) (place_of q) e h) in
          let paths : p ≡ q = sym (path_of-place_of p) ∙ at_path ∙ path_of-place_of q in
          ground arith
    ]
  ]
]

put-place_of :
    (p q : Str) (A : View) (m : Option FileMetadata)
    → put A (place_of q) m (place_of p).0 (place_of p).1
      ≡ (if p == q then m else A (place_of p).0 (place_of p).1)
put-place_of p q A m = rw (place_of-eq p q) refl

removed_from-place_of :
    (A : View) (ps : List Str) (p : Str)
    → removed_from A ps (place_of p).0 (place_of p).1
      ≡ (if contains ps p then none else A (place_of p).0 (place_of p).1)
unfolding removed_from
removed_from-place_of A [] p = refl
removed_from-place_of A (q ∷ ps) p =
    ground (arith, removed_from-place_of (put A (place_of q) none) ps p, put-place_of p q A none)

written_to-place_of :
    (source : Str → Option FileMetadata) (A : View) (ps : List Str) (p : Str)
    → written_to source A ps (place_of p).0 (place_of p).1
      ≡ (if contains ps p then source p else A (place_of p).0 (place_of p).1)
unfolding written_to
written_to-place_of source A [] p = refl
written_to-place_of source A (q ∷ ps) p = ground (
  arith,
  written_to-place_of source (put A (place_of q) (source q)) ps p,
  put-place_of p q A (source q),
)

contains-append :
    (xs ys : List Str) (a : Str) → contains (xs ++ ys) a ≡ (contains xs a || contains ys a)
contains-append [] ys a = refl
contains-append (x ∷ xs) ys a = ground (arith, contains-append xs ys a)

-- A path holds what the second tree has, if it held what the first has.
lost_or_written :
    (o n : Option FileMetadata)
    → (if differs o n || lost n o then n else if lost o n then none else o) ≡ n
lost_or_written none none = refl
lost_or_written none (some v) = refl
lost_or_written (some v) none = refl
lost_or_written (some v) (some w) = elim (Bool-cases (same_metadata v w)) [
  | inl e ↦ rw e (ap some ((same_metadata_iff v w).0 e))
  | inr e ↦ rw e refl
]

module _ {W : Type 0} (top : W → Str → Top) (source : Str → Option FileMetadata) (D : Disk W)
    (L : IsDisk top source D) (a b : FileTree) (sa : IsTree a) (opts : Option ApplyUpdateOptions)
    (all : (get_or opts default_opts).skip_removals ≡ false) (w : W)
    (listed : AreListed top source D L w)
    (tidy : IsTidy (diff a b) opts (files_at top source D L (cleaned top source D L w))) (p : Str)
    (live : IsLive (place_of p).0) where
  -- What the directory of a machine holds at the path.
  abbrev pub held : W → Option FileMetadata
  held v = files_at top source D L v (place_of p).0 (place_of p).1

  updated-diff :
      held (cleaned top source D L w) ≡ get a.children p
      → source p ≡ get b.children p
      → updated source
          (diff a b)
          opts
          (files_at top source D L (cleaned top source D L w))
          (place_of p).0
          (place_of p).1
        ≡ get b.children p
  unfolding diff
  updated-diff old new =
      let d = diff a b in
      let A = files_at top source D L (cleaned top source D L w) in
      let paths = diff_impl_paths a b p sa true in
      rw
        (
          all,
          written_to-place_of source (removed_from A d.removals) (written d) p,
          contains-append d.changes d.additions p,
          removed_from-place_of A d.removals p,
          paths.0,
          paths.1,
          paths.2,
          old,
          new,
        )
        (lost_or_written (get a.children p) (get b.children p))

  -- If `apply_diff` of `a.diff(b)`, with removals, succeeds on a directory whose listed temporary names
  -- are all that there are and for which the diff is tidy, then a path that held after the cleanup what
  -- it is in `a`, and that the source has as it is in `b`, is as in `b` in the end.
  pub apply_diff-diff :
      held (cleaned top source D L w) ≡ get a.children p
      → source p ≡ get b.children p
      → (apply_diff D (diff a b) opts w).0 ≡ ok tt
      → files_at top source D L (apply_diff D (diff a b) opts w).1 (place_of p).0 (place_of p).1
        ≡ get b.children p
  apply_diff-diff old new done =
      apply_diff_applies top source D L (diff a b) opts w listed tidy (place_of p).0 live
        (place_of p).1 done
      ∙ updated-diff old new
