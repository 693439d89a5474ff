-- ===== src/Tests/Tasks.antt =====
-- The build tasks on files in memory.
use bootupd.Base.{
  Str, codes, ◌==◌, ◌++◌, ◌≡◌, refl, ap, true, none, some, List, [], ◌∷◌, map, Result, ok, err,
  failed, arith, if◌then◌else◌, Option,
}
use bootupd.Xtask.{Shell, Package, impl_package, impl_srpm}
use bootupd.Xtask.Integer.{ℤ}
use bootupd.Xtask.Packaged.{Packaged, impl_package_lem}

-- The lines of each file.
abbrev Files : Type 0
Files = Str → List Str

abbrev printed : List Str → Result Str
printed [] = err (failed "no command")
printed (_ ∷ []) = err (failed "no subcommand")
printed (_ ∷ (sub ∷ _)) =
    if sub == codes "describe" then ok (codes "v0.2-3-gab") else ok (codes "1700000000")

abbrev spec_lines : List (Result Str)
spec_lines = ok (codes "Name: bootupd") ∷ ok (codes "Version: 0.1") ∷ ok (codes "Release: 1") ∷ []

abbrev found : List (Result (Option Str))
found = ok none ∷ ok (some (codes "bootupd.spec")) ∷ ok (some (codes "bootupd-1.src.rpm")) ∷ []

abbrev shell : Shell Files
shell = record {
  NaiveDateTime = ℤ;
  from_timestamp_opt = λ n. some n;
  format = λ _ _. codes "202311142213";
  run = λ _ _ w. (ok tt, w);
  read = λ cmd w. (printed cmd, w);
  status = λ _ _ w. (ok true, w);
  create_dir_all = λ _ w. (ok tt, w);
  create = λ p w. (ok tt, λ q. if q == p then [] else w q);
  writeln = λ p line w. (ok tt, λ q. if q == p then w q ++ (line ∷ []) else w q);
  rename = λ _ _ w. (ok tt, w);
  tempdir_in = λ p w. (ok (p ++ codes "/.tmp"), w);
  open_lines = λ _ _. ok spec_lines;
  read_dir = λ _ _. ok found;
}

abbrev no_files : Files
no_files q = []

abbrev packaged : Package
packaged = record {
  version = codes "202311142213.0.2.3.gab";
  srcpath = codes "target/bootupd-202311142213.0.2.3.gab.tar.zstd";
}

packages : (impl_package shell no_files).0 ≡ ok packaged
unfolding impl_package bootupd.Base.str_dec bootupd.Base.Split.is_whitespace
packages = refl

impl_package_lem_example : Packaged shell packaged (impl_package shell no_files).1
impl_package_lem_example = impl_package_lem shell no_files packaged packages

srpm_moved : (impl_srpm shell no_files).0 ≡ ok (codes "target/bootupd-1.src.rpm")
unfolding impl_srpm bootupd.Base.str_dec bootupd.Base.Split.is_whitespace
    bootupd.Efi.after_last_slash
srpm_moved = refl
