-- ===== src/Tests/Applying.antt =====
-- `apply_diff` on a directory in memory that has a temporary copy left from an earlier run.
use bootupd.Base.{
  Str, ℕ, codes, ◌==◌, ◌≡◌, ◌⊎◌, refl, sym, ap, ◌∙◌, Bool, true, false, Option, none, some, List,
  [], ◌∷◌, ok, is_some, if◌then◌else◌, contains, arith, inl, inr, Bool-cases, str_eq, starts_with,
}
use bootupd.Base.Map.{get}
use bootupd.Base.Split.{split_once}
use bootupd.Filetree.{FileMetadata, FileTree, FileTreeDiff, diff}
use bootupd.Filetree.Diff.{IsTree}
use bootupd.Filetree.Scan.{Entries, dir, end, entry}
use bootupd.Filetree.Apply.{
  apply_diff, place_of, tmp_name, cleanup_dir, remove_loop, get_first_dir, remove_at,
  prepare_removal, copy_dir, write_loop, write_at, prepare_write, copy_if, dir_name, exchange_loop,
  put_in_place, exchange_fail_point, syncfs, clean_loop,
}
use bootupd.Filetree.Apply.Removal.{removed_from}
use bootupd.Filetree.Apply.View.{IsLive}
use bootupd.Filetree.Apply.Applied.{
  IsTidy, AreListed, cleaned, files_at, updated, apply_diff_applies, apply_diff_atomic,
}
use bootupd.Filetree.Apply.Migrated.{apply_diff-diff}
use bootupd.Tests.Folder.{Folder, nothing, a_dir, top, folder, folder-IsDisk}

abbrev meta : ℕ → FileMetadata
meta n = record { size = n; sha512 = codes "sha512:0a" }

abbrev before : FileTree
before = record { children = (codes "EFI/a.cfg", meta 1) ∷ (codes "EFI/shim.efi", meta 2) ∷ [] }

abbrev after : FileTree
after = record { children = (codes "EFI/b.cfg", meta 1) ∷ (codes "EFI/shim.efi", meta 3) ∷ [] }

abbrev source : Str → Option FileMetadata
source p = get after.children p

abbrev left : Entries
left = entry (some (codes ".btmp.EFI")) (dir end) end

abbrev start : Folder
start x =
    if x == codes ".btmp.EFI"
    then a_dir (λ _. none)
    else if x == codes "EFI"
    then a_dir (λ r. get ((codes "a.cfg", meta 1) ∷ (codes "shim.efi", meta 2) ∷ []) r)
    else nothing

before-IsTree : IsTree before
unfolding bootupd.Base.str_lt
before-IsTree = (refl, tt)

abbrev steps : FileTreeDiff
steps = diff before after

listed : AreListed top source (folder left source) (folder-IsDisk left source) start
unfolding bootupd.Filetree.Cleanup.IsRemovable bootupd.Base.str_dec
listed x = elim (Bool-cases (tmp_name x == codes ".btmp.EFI")) [
  | inl e ↦ inr (inl (str_eq (tmp_name x) (codes ".btmp.EFI") e, tt))
  | inr n ↦ inl (rw n refl)
]

abbrev written_paths : List Str
written_paths = codes "EFI/shim.efi" ∷ codes "EFI/b.cfg" ∷ []

nothing_below :
    (x q : Str)
    → contains written_paths x ≡ true
    → removed_from
        (files_at top source
          (folder left source)
          (folder-IsDisk left source)
          (cleaned top source (folder left source) (folder-IsDisk left source) start))
        (codes "EFI/a.cfg" ∷ [])
        x
        (some q)
      ≡ none
unfolding cleanup_dir removed_from place_of split_once bootupd.Base.str_dec
nothing_below x q h = elim (Bool-cases (x == codes ".btmp.EFI")) [
  | inl e ↦ absurd (other_name (codes ".btmp.EFI") (str_eq x (codes ".btmp.EFI") e) refl)
  | inr n ↦ elim (Bool-cases (x == codes "EFI")) [
    | inl e ↦ absurd (other_name (codes "EFI") (str_eq x (codes "EFI") e) refl)
    | inr m ↦ rw (n, m) refl
  ]
]
  where
    other_name : (y : Str) → x ≡ y → contains written_paths y ≡ false → ⊥
    other_name y e k = let c = sym h ∙ ap (contains written_paths) e ∙ k in cc

tidy : IsTidy steps none (
    files_at top source
      (folder left source)
      (folder-IsDisk left source)
      (cleaned top source (folder left source) (folder-IsDisk left source) start))
unfolding diff get place_of split_once bootupd.Base.set_insert bootupd.Base.str_dec
tidy = ((refl, refl, tt), (refl, refl, (refl, refl, tt)), nothing_below)

held_before :
    files_at top source
      (folder left source)
      (folder-IsDisk left source)
      (cleaned top source (folder left source) (folder-IsDisk left source) start)
      (place_of (codes "EFI/a.cfg")).0
      (place_of (codes "EFI/a.cfg")).1
    ≡ get before.children (codes "EFI/a.cfg")
unfolding get cleanup_dir place_of split_once bootupd.Base.str_dec
held_before = refl

gone_after : source (codes "EFI/a.cfg") ≡ get after.children (codes "EFI/a.cfg")
gone_after = refl

top-IsLive : IsLive (place_of (codes "EFI/a.cfg")).0
unfolding place_of split_once
top-IsLive = refl

succeeds : (apply_diff (folder left source) steps none start).0 ≡ ok tt
unfolding apply_diff place_of split_once get cleanup_dir bootupd.Base.str_dec diff
    bootupd.Base.set_insert remove_loop get_first_dir remove_at prepare_removal copy_dir write_loop
    write_at prepare_write copy_if dir_name exchange_loop put_in_place exchange_fail_point syncfs
    clean_loop
succeeds = refl

-- The run takes the old file away, as the new tree has it no more.
apply_diff-diff_example :
    files_at top source
      (folder left source)
      (folder-IsDisk left source)
      (apply_diff (folder left source) steps none start).1
      (place_of (codes "EFI/a.cfg")).0
      (place_of (codes "EFI/a.cfg")).1
    ≡ get after.children (codes "EFI/a.cfg")
apply_diff-diff_example =
    apply_diff-diff top source (folder left source) (folder-IsDisk left source) before after
      before-IsTree none refl start listed tidy (codes "EFI/a.cfg") top-IsLive held_before
      gone_after succeeds

-- The new file is there.
apply_diff_applies_example :
    files_at top source
      (folder left source)
      (folder-IsDisk left source)
      (apply_diff (folder left source) steps none start).1
      (codes "EFI")
      (some (codes "b.cfg"))
    ≡ updated source steps none
        (files_at top source
          (folder left source)
          (folder-IsDisk left source)
          (cleaned top source (folder left source) (folder-IsDisk left source) start))
        (codes "EFI")
        (some (codes "b.cfg"))
apply_diff_applies_example =
    apply_diff_applies top source (folder left source) (folder-IsDisk left source) steps none start
      listed tidy (codes "EFI") refl (some (codes "b.cfg")) succeeds

spared : contains steps.removals (codes "EFI") ≡ false
unfolding diff bootupd.Base.set_insert bootupd.Base.str_dec get
spared = refl

apply_diff_atomic_example :
    (top (apply_diff (folder left source) steps none start).1 (codes "EFI")
      ≡ top
          (cleaned top source (folder left source) (folder-IsDisk left source) start)
          (codes "EFI"))
    ⊎ ((r : Option Str)
        → files_at top source
            (folder left source)
            (folder-IsDisk left source)
            (apply_diff (folder left source) steps none start).1
            (codes "EFI")
            r
          ≡ updated source steps none
              (files_at top source
                (folder left source)
                (folder-IsDisk left source)
                (cleaned top source (folder left source) (folder-IsDisk left source) start))
              (codes "EFI")
              r)
apply_diff_atomic_example =
    apply_diff_atomic top source (folder left source) (folder-IsDisk left source) steps none start
      listed tidy (codes "EFI") refl spared
