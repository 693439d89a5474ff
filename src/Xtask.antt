-- ===== src/Xtask.antt =====
-- xtask/src/main.rs: the build tasks, over the commands and the files that they work with. What is
-- printed is left out.
pub mod Integer
pub mod Version
pub mod Spec
pub mod Packaged
use bootupd.Base.{
  Str, ℕ, codes, ◌==◌, ◌++◌, Bool, true, false, Option, none, some, List, [], ◌∷◌, Result, ok, err,
  failed, panicked, Error, Exec, pure, bail, lift, ask, ◌>>=◌, ◌>>◌, and_then, ok_or, eqb, ◌∙◌,
  if◌then◌else◌, starts_with,
}
use bootupd.Base.Path.{join}
use bootupd.Base.Lines.{trim}
use bootupd.Efi.Vendor.{file_name}
use bootupd.Grubconfigs.{ends_with}
use bootupd.Xtask.Integer.{ℤ, parse_i64}

-- The commands of xshell and of `std::process`, the files, and chrono. A command is its words.
pub record Shell (W : Type 0) : Type 1 where
  pub NaiveDateTime : Type 0
  pub from_timestamp_opt : ℤ → Option NaiveDateTime
  pub format : Str → NaiveDateTime → Str
  -- `cmd!(…).run()` in a directory, and `cmd!(…).read()`
  pub run : Str → List Str → Exec W (Unit {0})
  pub read : List Str → Exec W Str
  -- a command with its output in a file that is open for it: whether it succeeded
  pub status : List Str → Str → Exec W Bool
  pub create_dir_all : Str → Exec W (Unit {0})
  pub create : Str → Exec W (Unit {0})
  -- a line that is written to the end of a file, without a buffer
  pub writeln : Str → Str → Exec W (Unit {0})
  pub rename : Str → Str → Exec W (Unit {0})
  pub tempdir_in : Str → Exec W Str
  -- the lines of a file, and the names in a directory as texts, if they are UTF-8
  pub open_lines : Str → W → Result (List (Result Str))
  pub read_dir : Str → W → Result (List (Result (Option Str)))

pub record Package : Type 0 where
  pub version : Str
  pub srcpath : Str

abbrev pub name : Str
name = codes "bootupd"

abbrev pub vendorpath : Str
vendorpath = codes "vendor.tar.zstd"

-- `trim_start_matches` of a character, and `replace` of one by another.
unfoldable pub trim_start_matches : ℕ → Str → Str
trim_start_matches a [] = []
trim_start_matches a (c ∷ s) = let rest = trim_start_matches a s in if eqb c a then rest else c ∷ s

unfoldable pub replace : ℕ → ℕ → Str → Str
replace a b [] = []
replace a b (c ∷ s) = (if eqb c a then b else c) ∷ replace a b s

unfoldable pub gitrev_to_version : Str → Str
unfolding trim_start_matches replace trim
gitrev_to_version v = replace b'-' b'.' (trim_start_matches b'v' (trim v))

abbrev pub unwrapped : Option Str → Result Str
unwrapped o = ok_or o (panicked "called `Option::unwrap()` on a `None` value")

abbrev pub source_rpm : Str
source_rpm = codes ".src.rpm"

-- The first name that ends in `.src.rpm`, below the directory.
unfoldable pub find_srpm : Str → List (Result (Option Str)) → Result (Option Str)
unfolding ends_with join
find_srpm td [] = ok none
find_srpm td (err e ∷ rest) = err e
find_srpm td (ok none ∷ rest) = find_srpm td rest
find_srpm td (ok (some n) ∷ rest) =
    if ends_with n source_rpm then ok (some (join td n)) else find_srpm td rest

-- The name of a macro with its value, as an argument of rpmbuild.
abbrev pub define : Str → Str → List Str
define td k = codes "--define" ∷ (k ++ (codes " " ++ td)) ∷ []

abbrev pub rpmbuild : Str → List Str
rpmbuild td =
    codes "rpmbuild"
    ∷ (define td (codes "_sourcedir")
        ++ (define td (codes "_specdir")
            ++ (define td (codes "_builddir")
                ++ (define td (codes "_srcrpmdir")
                    ++ (define td (codes "_rpmdir")
                        ++ (codes "--define"
                            ∷ (codes "_buildrootdir " ++ (td ++ codes "/.build"))
                            ∷ codes "-bs"
                            ∷ (name ++ codes ".spec")
                            ∷ []))))))

abbrev pub replaced_mark : Str
replaced_mark = codes "# Replaced by cargo xtask package-srpm"

-- The directory that the task runs in is the empty path.
abbrev pub here : Str
here = []

pub data Task : Type 0 where
  vendor_task package_task package_srpm_task help_task : Task

-- The task by the second argument of the program.
unfoldable pub task_of : List Str → Task
task_of [] = help_task
task_of (_ ∷ []) = help_task
task_of (_ ∷ (cmd ∷ _)) =
    if cmd == codes "vendor"
    then vendor_task
    else if cmd == codes "package"
    then package_task
    else if cmd == codes "package-srpm"
    then package_srpm_task
    else help_task

module _ {W : Type 0} (S : Shell W) where
  unfoldable pub get_target_dir : Exec W Str
  get_target_dir = do S.create_dir_all (codes "target"); pure (codes "target")

  unfoldable pub vendor : Exec W (Unit {0})
  unfolding get_target_dir
  vendor = do
    get_target_dir
    S.run here (
        codes "cargo"
        ∷ codes "vendor-filterer"
        ∷ codes "--prefix=vendor"
        ∷ codes "--format=tar.zstd"
        ∷ vendorpath
        ∷ [])

  abbrev pub describe : List Str
  describe = codes "git" ∷ codes "describe" ∷ codes "--tags" ∷ []

  -- What follows the first command: its output, or another command.
  abbrev pub gitrev_of : Result Str → Exec W Str
  gitrev_of (ok rev) = pure (gitrev_to_version rev)
  gitrev_of (err _) = do
    desc ← S.read (describe ++ (codes "--always" ∷ []))
    pure (codes "0." ++ desc)

  unfoldable pub gitrev : Exec W Str
  unfolding gitrev_to_version
  gitrev w = gitrev_of (S.read describe w).0 (S.read describe w).1

  abbrev pub date_format : Str
  date_format = codes "%Y%m%d%H%M"

  abbrev pub show : List Str
  show = codes "git" ∷ codes "show" ∷ codes "-s" ∷ codes "--format=%ct" ∷ []

  -- What is made of the output of `git show`.
  unfoldable pub timestamp_of : Str → Result Str
  unfolding parse_i64 trim
  timestamp_of out =
      and_then (ok_or (parse_i64 (trim out)) (failed "invalid digit or overflow")) λ n.
        and_then (ok_or (S.from_timestamp_opt n) (failed "Failed to parse timestamp"))
          λ ts. ok (S.format date_format ts)

  unfoldable pub git_timestamp : Exec W Str
  unfolding timestamp_of
  git_timestamp = do ts ← S.read show; lift (timestamp_of ts)

  abbrev pub archive : Str → List Str
  archive namev =
      codes "git"
      ∷ codes "archive"
      ∷ codes "--format=tar"
      ∷ codes "--prefix"
      ∷ (namev ++ codes "/")
      ∷ codes "HEAD"
      ∷ []

  -- The archive of a version.
  unfoldable pub package_version : Str → Exec W Package
  unfolding get_target_dir join
  package_version v = do
    let namev = name ++ (codes "-" ++ v)
    target ← get_target_dir
    let p = join target (namev ++ codes ".tar.zstd")
    S.create p
    st ← S.status (archive namev) p
    if st
        then pure (record { version = v; srcpath = p })
        else bail (failed "Failed to run git archive")

  unfoldable pub impl_package : Exec W Package
  unfolding gitrev git_timestamp package_version
  impl_package = do
    v ← gitrev
    timestamp ← git_timestamp
    package_version (timestamp ++ (codes "." ++ v))

  unfoldable pub package_main : Exec W (Unit {0})
  unfolding impl_package
  package_main = do impl_package; pure tt

  -- One line of the spec file in the copy.
  unfoldable pub write_line : Str → Str → Str → Exec W (Unit {0})
  write_line out v line =
      if starts_with line (codes "Version:")
      then (do S.writeln out replaced_mark; S.writeln out (codes "Version: " ++ v))
      else S.writeln out line

  unfoldable pub write_lines : Str → Str → List (Result Str) → Exec W (Unit {0})
  unfolding write_line
  write_lines out v [] = pure tt
  write_lines out v (err e ∷ rest) = bail e
  write_lines out v (ok line ∷ rest) = do write_line out v line; write_lines out v rest

  -- The spec file with the version, in the directory.
  unfoldable pub write_spec : Str → Str → Exec W (Unit {0})
  unfolding write_lines join
  write_spec td v = do
    specin ← ask (S.open_lines (codes "contrib/packaging/" ++ (name ++ codes ".spec")))
    let out = join td (name ++ codes ".spec")
    S.create out
    write_lines out v specin

  -- The source package that rpmbuild has left, moved to the target directory.
  unfoldable pub take_srpm : Str → Exec W Str
  unfolding find_srpm file_name join
  take_srpm td = do
    entries ← ask (S.read_dir td)
    found ← lift (find_srpm td entries)
    srpm ← lift (ok_or found (failed "Failed to find generated .src.rpm"))
    n ← lift (unwrapped (file_name srpm))
    S.rename srpm (join (codes "target") n)
    pure (join (codes "target") n)

  unfoldable pub impl_srpm : Exec W Str
  unfolding impl_package vendor write_spec take_srpm file_name join
  impl_srpm = do
    pkg ← impl_package
    vendor
    td ← S.tempdir_in (codes "target")
    n ← lift (unwrapped (file_name pkg.srcpath))
    S.rename pkg.srcpath (join td n)
    S.rename vendorpath (join td (name ++ (codes "-" ++ (pkg.version ++ codes "-vendor.tar.zstd"))))
    write_spec td pkg.version
    S.run td (rpmbuild td)
    take_srpm td

  unfoldable pub package_srpm : Exec W (Unit {0})
  unfolding impl_srpm
  package_srpm = do impl_srpm; pure tt

  unfoldable pub print_help : Exec W (Unit {0})
  print_help = pure tt

  unfoldable pub run_task : Task → Exec W (Unit {0})
  unfolding vendor package_main package_srpm print_help
  run_task vendor_task = vendor
  run_task package_task = package_main
  run_task package_srpm_task = package_srpm
  run_task help_task = print_help

  -- The shell is made first, which may fail.
  unfoldable pub try_main : Result (Unit {0}) → List Str → Exec W (Unit {0})
  unfolding run_task task_of
  try_main shell args = do lift shell; run_task (task_of args)

  -- The exit status.
  abbrev pub exit_status : Result (Unit {0}) → ℕ
  exit_status (ok _) = 0
  exit_status (err _) = 1

  unfoldable pub main : Result (Unit {0}) → List Str → W → ℕ × W
  unfolding try_main
  main shell args w = (exit_status (try_main shell args w).0, (try_main shell args w).1)
