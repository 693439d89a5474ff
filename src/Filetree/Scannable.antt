-- ===== src/Filetree/Scannable.antt =====
-- Which directories `new_from_dir` accepts, and the tree that it returns.
use mathlib.Core.Path.{subst}
use bootupd.Base.{
  Str, ◌≡◌, refl, ◌↔◌, inl, inr, false, none, some, [], ◌∷◌, List, Result, ok, and_then-ok,
  err-ne-ok, starts_with, Bool-cases,
}
use bootupd.Base.Map.{BTreeMap, insert, IsSorted, insert-IsSorted}
use bootupd.Filetree.{FileMetadata, FileTree}
use bootupd.Filetree.Diff.{IsTree}
use bootupd.Filetree.Scan.{
  Node, file, dir, symlink, other, bad, Entries, end, entry, broken, tmp_prefix, add_child,
  scan_entries, scan_node, new_from_dir,
}

-- Every entry, at any depth, is a directory or a file that can be read, with a name that is UTF-8
-- and does not begin with the prefix of temporary files.
unfoldable mutual
  pub IsPlain : Entries → Type 0
  IsPlain end = Unit
  IsPlain (broken e rest) = ⊥
  IsPlain (entry none node rest) = ⊥
  IsPlain (entry (some name) node rest) =
      (starts_with name tmp_prefix ≡ false) × IsPlainNode node × IsPlain rest

  pub IsPlainNode : Node → Type 0
  IsPlainNode (file r) = (m : FileMetadata) × (r ≡ ok m)
  IsPlainNode (dir es) = IsPlain es
  IsPlainNode symlink = ⊥
  IsPlainNode other = ⊥
  IsPlainNode (bad e) = ⊥

mutual
  unfolding IsPlain scan_entries

  scan_entries_total :
      (es : Entries) (ret : BTreeMap FileMetadata)
      → IsPlain es
      → (m : BTreeMap FileMetadata) × (scan_entries es ret ≡ ok m)
  scan_entries_total end ret h = (ret, refl)
  scan_entries_total (broken e rest) ret h = absurd h
  scan_entries_total (entry none node rest) ret h = absurd h
  scan_entries_total (entry (some name) node rest) ret (n, p, h) =
      let (m, e) = scan_node_total name node ret p in
      let (m', e') = scan_entries_total rest m h in (m', rw (n, e) e')

  scan_node_total :
      (name : Str) (node : Node) (ret : BTreeMap FileMetadata)
      → IsPlainNode node
      → (m : BTreeMap FileMetadata) × (scan_node name node ret ≡ ok m)
  scan_node_total name (file r) ret (m, e) = (insert ret name m, rw e)
  scan_node_total name (dir es) ret h =
      let (m, e) = scan_entries_total es [] h in (add_child name m ret, rw e)
  scan_node_total name symlink ret h = absurd h
  scan_node_total name other ret h = absurd h
  scan_node_total name (bad e) ret h = absurd h

mutual
  unfolding IsPlain scan_entries

  scan_entries-IsPlain :
      (es : Entries) (ret m : BTreeMap FileMetadata) → scan_entries es ret ≡ ok m → IsPlain es
  scan_entries-IsPlain end ret m h = tt
  scan_entries-IsPlain (broken e rest) ret m h = cc
  scan_entries-IsPlain (entry none node rest) ret m h = cc
  scan_entries-IsPlain (entry (some name) node rest) ret m h =
      elim (Bool-cases (starts_with name tmp_prefix)) [
        | inl e ↦ absurd (err-ne-ok (rw e at h))
        | inr e ↦
            let (ret', g, h') = and_then-ok (scan_node name node ret) _ (rw e at h) in
            (e, scan_node-IsPlainNode name node ret ret' g, scan_entries-IsPlain rest ret' m h')
      ]

  scan_node-IsPlainNode :
      (name : Str) (node : Node) (ret m : BTreeMap FileMetadata)
      → scan_node name node ret ≡ ok m
      → IsPlainNode node
  scan_node-IsPlainNode name (file r) ret m h = let (meta, e, _) = and_then-ok r _ h in (meta, e)
  scan_node-IsPlainNode name (dir es) ret m h =
      let (files, e, _) = and_then-ok (scan_entries es []) _ h in scan_entries-IsPlain es [] files e
  scan_node-IsPlainNode name symlink ret m h = cc
  scan_node-IsPlainNode name other ret m h = cc
  scan_node-IsPlainNode name (bad e) ret m h = cc

add_child-IsSorted :
    (name : Str) (l : List (Str × FileMetadata)) (ret : BTreeMap FileMetadata)
    → IsSorted ret
    → IsSorted (add_child name l ret)
unfolding add_child
add_child-IsSorted name [] ret s = s
add_child-IsSorted name ((k, v) ∷ l) ret s = add_child-IsSorted name l _ (insert-IsSorted ret _ v s)

ok-IsSorted :
    (a m : BTreeMap FileMetadata)
    → IsSorted a
    → ◌≡◌ {A = Result (BTreeMap FileMetadata)} (ok a) (ok m)
    → IsSorted m
ok-IsSorted a m s h = let e : a ≡ m = cc in subst IsSorted e s

ok-injective : {a b : FileTree} → ◌≡◌ {A = Result FileTree} (ok a) (ok b) → a ≡ b
ok-injective h = cc

mutual
  unfolding scan_entries

  scan_entries-IsSorted :
      (es : Entries) (ret m : BTreeMap FileMetadata)
      → IsSorted ret
      → scan_entries es ret ≡ ok m
      → IsSorted m
  scan_entries-IsSorted end ret m s h = ok-IsSorted ret m s h
  scan_entries-IsSorted (broken e rest) ret m s h = absurd (err-ne-ok h)
  scan_entries-IsSorted (entry none node rest) ret m s h = absurd (err-ne-ok h)
  scan_entries-IsSorted (entry (some name) node rest) ret m s h =
      elim (Bool-cases (starts_with name tmp_prefix)) [
        | inl e ↦ absurd (err-ne-ok (rw e at h))
        | inr e ↦
            let (ret', g, h') = and_then-ok (scan_node name node ret) _ (rw e at h) in
            scan_entries-IsSorted rest ret' m (scan_node-IsSorted name node ret ret' s g) h'
      ]

  scan_node-IsSorted :
      (name : Str) (node : Node) (ret m : BTreeMap FileMetadata)
      → IsSorted ret
      → scan_node name node ret ≡ ok m
      → IsSorted m
  scan_node-IsSorted name (file r) ret m s h =
      let (meta, e, h') = and_then-ok r _ h in ok-IsSorted _ m (insert-IsSorted ret name meta s) h'
  scan_node-IsSorted name (dir es) ret m s h =
      let (files, e, h') = and_then-ok (scan_entries es []) _ h in
      ok-IsSorted _ m (add_child-IsSorted name files ret s) h'
  scan_node-IsSorted name symlink ret m s h = absurd (err-ne-ok h)
  scan_node-IsSorted name other ret m s h = absurd (err-ne-ok h)
  scan_node-IsSorted name (bad e) ret m s h = absurd (err-ne-ok h)

-- `new_from_dir` succeeds exactly on the plain directories.
pub new_from_dir_iff : (d : Entries) → ((t : FileTree) × (new_from_dir d ≡ ok t)) ↔ IsPlain d
unfolding new_from_dir
new_from_dir_iff d = (
  λ (t, h).
      let (files, e, _) = and_then-ok (scan_entries d []) _ h in scan_entries-IsPlain d [] files e,
  λ plain. let (files, e) = scan_entries_total d [] plain in (record { children = files }, rw e),
)

-- The tree that `new_from_dir` returns has its paths in order, each once.
new_from_dir-IsTree : (d : Entries) (t : FileTree) → new_from_dir d ≡ ok t → IsTree t
unfolding new_from_dir
new_from_dir-IsTree d t h =
    let (files, e, h') = and_then-ok (scan_entries d []) _ h in
    subst IsTree (ok-injective h') (scan_entries-IsSorted d [] files tt e)
