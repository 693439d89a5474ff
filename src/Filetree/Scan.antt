-- ===== src/Filetree/Scan.antt =====
-- `unsorted_from_dir`, `new_from_dir` and `cleanup_tmp` of src/filetree.rs, over a directory as
-- openat shows it.
use bootupd.Base.{
  Str, codes, Option, none, some, List, [], ◌∷◌, ◌++◌, Result, ok, err, failed, Error, and_then,
  starts_with, if◌then◌else◌,
}
use bootupd.Base.Map.{BTreeMap, insert}
use bootupd.Filetree.{FileMetadata, FileTree}

-- An entry's type as `get_file_type` reports it. A file comes with what `new_from_path` computes
-- for it, and `bad` is an entry whose type cannot be read. A name that is not UTF-8 is `none`, and
-- `broken` is an error of the listing. A subdirectory that is listed can be opened.
mutual
  pub data Node : Type 0 where
    file : Result FileMetadata → Node
    dir : Entries → Node
    symlink other : Node
    bad : Error → Node

  pub data Entries : Type 0 where
    end : Entries
    entry : Option Str → Node → Entries → Entries
    broken : Error → Entries → Entries

abbrev pub tmp_prefix : Str
tmp_prefix = codes ".btmp."

-- The files of a subdirectory, under its name.
unfoldable pub add_child :
    Str → List (Str × FileMetadata) → BTreeMap FileMetadata → BTreeMap FileMetadata
add_child name [] ret = ret
add_child name ((k, v) ∷ rest) ret = add_child name rest (insert ret (name ++ (codes "/" ++ k)) v)

-- The `HashMap` is kept in key order: the order shows nowhere.
unfoldable mutual
  pub scan_entries : Entries → BTreeMap FileMetadata → Result (BTreeMap FileMetadata)
  scan_entries end ret = ok ret
  scan_entries (broken e rest) ret = err e
  scan_entries (entry none node rest) ret = err (failed "Invalid UTF-8 filename")
  scan_entries (entry (some name) node rest) ret =
      if starts_with name tmp_prefix
      then err (failed "File contains our temporary prefix!")
      else and_then (scan_node name node ret) (λ ret'. scan_entries rest ret')

  pub scan_node : Str → Node → BTreeMap FileMetadata → Result (BTreeMap FileMetadata)
  scan_node name (file r) ret = and_then r (λ meta. ok (insert ret name meta))
  scan_node name (dir child) ret =
      and_then (scan_entries child []) (λ files. ok (add_child name files ret))
  scan_node name symlink ret = err (failed "Unsupported symbolic link")
  scan_node name other ret = err (failed "Unsupported non-file/directory")
  scan_node name (bad e) ret = err e

unfoldable pub new_from_dir : Entries → Result FileTree
unfolding scan_entries
new_from_dir d = and_then (scan_entries d []) (λ files. ok (record { children = files }))

-- `cleanup_tmp`, where `remove` is the outcome of removing a name. The result is what is left of
-- the directory; what an error leaves is not modelled.
module _ (remove : Str → Result (Unit {0})) where
  unfoldable mutual
    pub cleanup_tmp : Entries → Result Entries
    cleanup_tmp end = ok end
    cleanup_tmp (broken e rest) = err e
    cleanup_tmp (entry none node rest) =
        and_then (cleanup_tmp rest) (λ rest'. ok (entry none node rest'))
    cleanup_tmp (entry (some name) (dir child) rest) =
        let stays = and_then (cleanup_tmp child) (λ child'.
          and_then (cleanup_tmp rest) (λ rest'. ok (entry (some name) (dir child') rest'))) in
        let goes = and_then (remove name) (λ _. cleanup_tmp rest) in
        if starts_with name tmp_prefix then goes else stays
    cleanup_tmp (entry (some name) (file r) rest) =
        let stays = and_then (cleanup_tmp rest) (λ rest'. ok (entry (some name) (file r) rest')) in
        let goes = and_then (remove name) (λ _. cleanup_tmp rest) in
        if starts_with name tmp_prefix then goes else stays
    cleanup_tmp (entry (some name) (bad e) rest) = err e
    cleanup_tmp (entry (some name) symlink rest) =
        and_then (cleanup_tmp rest) (λ rest'. ok (entry (some name) symlink rest'))
    cleanup_tmp (entry (some name) other rest) =
        and_then (cleanup_tmp rest) (λ rest'. ok (entry (some name) other rest'))
