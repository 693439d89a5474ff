-- ===== src/Packagesystem/Query.antt =====
-- `query_files` of src/packagesystem.rs and the command of rpm from src/ostreeutil.rs.
use bootupd.Base.{
  Str, codes, ◌++◌, Bool, true, false, Option, none, some, List, [], ◌∷◌, Result, ok, err, failed,
  Exec, pure, bail, lift, ask, ◌>>=◌, ◌>>◌, and_then, if◌then◌else◌, not, starts_with,
}
use bootupd.Base.Path.{join}
use bootupd.Model.{ContentMetadata}
use bootupd.Component.Tools.{Tools}
use bootupd.Packagesystem.{rpm_parse_metadata}

abbrev pub sysimage_rpm_dbpath : Str
sysimage_rpm_dbpath = codes "usr/lib/sysimage/rpm"

abbrev pub legacy_rpmostree_dbpath : Str
legacy_rpmostree_dbpath = codes "usr/share/rpm"

-- Whether a name that does not begin with a dot comes, before an error of the listing.
unfoldable pub has_name : List (Result Str) → Result Bool
has_name [] = ok false
has_name (err e ∷ rest) = err e
has_name (ok name ∷ rest) = if starts_with name (codes ".") then has_name rest else ok true

listed_name : Option (List (Result Str)) → Result Bool
unfolding has_name
listed_name none = ok false
listed_name (some entries) = has_name entries

module _ {W : Type 0} (T : Tools W) where
  unfoldable pub is_nonempty_dir : Str → W → Result Bool
  unfolding listed_name
  is_nonempty_dir path w = and_then (T.read_dir path w) listed_name

  -- `CommandRunExt::run` of src/util.rs
  unfoldable pub run : List Str → Exec W (Unit {0})
  run args = do done ← T.status args; if done then pure tt else bail (failed "Child exited")

  -- The loop of `rpm_cmd` over the paths of the database.
  unfoldable pub dbpath_arg : Str → List Str → Exec W (List Str)
  unfolding is_nonempty_dir run
  dbpath_arg sysroot [] = pure []
  dbpath_arg sysroot (dbpath ∷ rest) = do
    nonempty ← ask (is_nonempty_dir (join sysroot dbpath))
    if not nonempty then dbpath_arg sysroot rest else do
      run (codes "ls" ∷ codes "-al" ∷ join sysroot dbpath ∷ [])
      pure ((codes "--dbpath=" ++ join sysroot dbpath) ∷ [])

  -- The command with its first arguments.
  unfoldable pub rpm_cmd : Str → Exec W (List Str)
  unfolding dbpath_arg
  rpm_cmd sysroot = do
    arg ← dbpath_arg sysroot (sysimage_rpm_dbpath ∷ legacy_rpmostree_dbpath ∷ [])
    pure (codes "rpm" ∷ arg)

  abbrev query_args : List Str
  query_args = codes "-q" ∷ codes "--queryformat" ∷ codes "%{nevra},%{buildtime} " ∷ codes "-f" ∷ []

  unfoldable pub query_files : Str → List Str → Exec W ContentMetadata
  unfolding rpm_cmd rpm_parse_metadata
  query_files sysroot_path paths = do
    c ← rpm_cmd sysroot_path
    rpmout ← T.output (c ++ (query_args ++ paths))
    if not rpmout.0
        then bail (failed "Failed to invoke rpm -qf")
        else lift (rpm_parse_metadata T.parse_from_str rpmout.1)
