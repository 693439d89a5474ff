-- ===== src/Filetree.antt =====
-- src/filetree.rs: the files of a directory by path, and what differs between two such trees.
pub mod Diff
pub mod Patch
pub mod Adoption
pub mod Scan
pub mod Scannable
pub mod Cleanup
pub mod Digest
pub mod Disk
pub mod Apply
use bootupd.Base.{
  Str, ℕ, ◌==◌, str_dec, eqb, Bool, true, false, ◌&&◌, Option, none, some, List, [], ◌∷◌, Result,
  ok, err, if◌then◌else◌, is_some, contains, set_insert, and_then, starts_with, codes, panicked,
}
use bootupd.Base.Map.{BTreeMap, get}

-- `SHA512String` is the text of a digest.
pub record FileMetadata : Type 0 where
  pub size : ℕ
  pub sha512 : Str

-- `#[derive(PartialEq)]`
unfoldable pub same_metadata : FileMetadata → FileMetadata → Bool
unfolding str_dec
same_metadata a b = eqb a.size b.size && a.sha512 == b.sha512

pub record FileTree : Type 0 where
  pub children : BTreeMap FileMetadata

-- The three `HashSet`s, as lists in the order in which they are filled.
pub record FileTreeDiff : Type 0 where
  pub additions : List Str
  pub removals : List Str
  pub changes : List Str

abbrev no_diff : FileTreeDiff
no_diff = record { additions = []; removals = []; changes = [] }

-- One round of the first loop of `diff_impl`, over the files of `self`.
compare_file : BTreeMap FileMetadata → Str → FileMetadata → FileTreeDiff → FileTreeDiff
unfolding same_metadata
compare_file updated k v1 d = elim (get updated k) [
  | some v2 ↦ if same_metadata v1 v2 then d else record d { changes = set_insert k d.changes }
  | none ↦ record d { removals = set_insert k d.removals }
]

unfoldable pub compare_files :
    List (Str × FileMetadata) → BTreeMap FileMetadata → FileTreeDiff → FileTreeDiff
unfolding compare_file
compare_files [] updated d = d
compare_files ((k, v1) ∷ rest) updated d = compare_files rest updated (compare_file updated k v1 d)

-- The second loop, over the keys of `updated`.
unfoldable pub add_files :
    List (Str × FileMetadata) → BTreeMap FileMetadata → FileTreeDiff → FileTreeDiff
add_files [] self d = d
add_files ((k, _) ∷ rest) self d =
    add_files rest self
      (if is_some (get self k) then d else record d { additions = set_insert k d.additions })

unfoldable pub diff_impl : FileTree → FileTree → Bool → FileTreeDiff
unfolding compare_files add_files
diff_impl self updated check_additions =
    let d = compare_files self.children updated.children no_diff in
    if check_additions then add_files updated.children self.children d else d

unfoldable pub diff : FileTree → FileTree → FileTreeDiff
unfolding diff_impl
diff self updated = diff_impl self updated true

unfoldable pub changes : FileTree → FileTree → FileTreeDiff
unfolding diff_impl
changes self current = diff_impl self current false

unfoldable pub updates : FileTree → FileTree → FileTreeDiff
unfolding diff_impl
updates self current = diff_impl current self false

-- What `metadata_optional` finds at a path below a directory: nothing, a file with the metadata
-- that `new_from_path` computes for it (or the error of reading it), or something else.
pub data Found : Type 0 where
  missing other : Found
  a_file : Result FileMetadata → Found

-- One round of the loop of `relative_diff_to`.
compare_found : Str → FileMetadata → Found → FileTreeDiff → Result FileTreeDiff
unfolding same_metadata
compare_found path info missing d = ok (record d { removals = set_insert path d.removals })
compare_found path info other d = ok (record d { changes = set_insert path d.changes })
compare_found path info (a_file r) d = and_then r λ target.
    ok (if same_metadata info target then d else record d { changes = set_insert path d.changes })

-- The directory is given by what it has at each path, or the error of asking.
relative_loop :
    List (Str × FileMetadata) → (Str → Result Found) → FileTreeDiff → Result FileTreeDiff
unfolding compare_found
relative_loop [] dir d = ok d
relative_loop ((path, info) ∷ rest) dir d =
    if starts_with path (codes "/")
    then err (panicked "assertion failed: !path.starts_with('/')")
    else and_then (dir path)
        (λ found. and_then (compare_found path info found d) (λ d'. relative_loop rest dir d'))

unfoldable pub relative_diff_to : FileTree → (Str → Result Found) → Result FileTreeDiff
unfolding relative_loop
relative_diff_to self dir = relative_loop self.children dir no_diff
