-- ===== src/Util.antt =====
-- src/util.rs: the names of the files of a directory, the output of a command, and the container
-- that the program may run in.
use bootupd.Base.{
  Str, codes, ◌++◌, Bool, true, Option, none, some, List, [], ◌∷◌, Result, ok, err, failed, Exec,
  bail, lift, ◌>>=◌, and_then, if◌then◌else◌, set_insert, ◌||◌,
}
use bootupd.Component.Tools.{Tools}
use bootupd.Filetree.Scan.{Node, file, dir, symlink, other, bad, Entries, end, entry, broken}

-- `getenv_utf8`, of a variable that is unset, or its text where that is UTF-8.
unfoldable pub getenv_utf8 : Option (Option Str) → Result (Option Str)
getenv_utf8 none = ok none
getenv_utf8 (some none) = err (failed "is invalid UTF-8")
getenv_utf8 (some (some v)) = ok (some v)

-- The names of a subdirectory, under its own.
unfoldable pub add_names : Str → List Str → List Str → List Str
add_names name [] ret = ret
add_names name (k ∷ rest) ret = add_names name rest (set_insert (codes "/" ++ (name ++ k)) ret)

-- The loop over a listing at all depths, and one round of it.
unfoldable mutual
  pub list_names : Entries → List Str → Result (List Str)
  list_names end ret = ok ret
  list_names (broken e rest) ret = err e
  list_names (entry none node rest) ret = err (failed "Invalid UTF-8 filename")
  list_names (entry (some name) node rest) ret =
      and_then (name_node name node ret) (λ ret'. list_names rest ret')

  pub name_node : Str → Node → List Str → Result (List Str)
  name_node name (file r) ret = ok (set_insert (codes "/" ++ name) ret)
  name_node name (dir child) ret =
      and_then (list_names child []) (λ names. ok (add_names name names ret))
  name_node name symlink ret = err (failed "Unsupported symbolic link")
  name_node name other ret = err (failed "Unsupported non-file/directory")
  name_node name (bad e) ret = err e

unfoldable pub filenames : Entries → Result (List Str)
unfolding list_names
filenames d = list_names d []

module _ {W : Type 0} (T : Tools W) where
  unfoldable pub cmd_output : List Str → Exec W Str
  cmd_output cmd = do
    result ← T.output cmd
    if result.0 then lift result.1 else bail (failed "failed")

  -- Whether a variable is set in the environment is an argument.
  unfoldable pub running_in_container : (Str → Bool) → W → Bool
  running_in_container is_set w =
      if is_set (codes "container")
      then true
      else T.exists (codes "/run/.containerenv") w || T.exists (codes "/.dockerenv") w
