-- ===== src/Tests/Files.antt =====
-- Trees, directories, files of grub and outputs of rpm that the theorems are applied to.
use Prim.Native.Nat.{◌-◌, ◌*◌, ◌/◌, ◌%◌}
use bootupd.Base.{
  Str, ℕ, ◌+◌, codes, ◌≡◌, ◌≢◌, ◌↔◌, ◌&&◌, refl, Bool, true, false, Option, none, some, List, [],
  ◌∷◌, ◌++◌, Result, ok, err, failed, ltb, if◌then◌else◌, ◌||◌, zero, suc, contains, arith, inl,
  inr,
}
use bootupd.Base.Map.{get}
use bootupd.Base.Split.{is_whitespace}
use bootupd.Filetree.{
  FileMetadata, FileTree, FileTreeDiff, diff, diff_impl, changes, updates, relative_diff_to, Found,
  missing, other, a_file,
}
use bootupd.Filetree.Diff.{IsTree, differs, lost, diff_impl_paths}
use bootupd.Filetree.Patch.{patched, patched-diff}
use bootupd.Filetree.Scan.{Node, Entries, file, dir, end, entry, new_from_dir, cleanup_tmp}
use bootupd.Filetree.Scannable.{IsPlain, new_from_dir_iff}
use bootupd.Filetree.Cleanup.{IsCleanable}
use bootupd.Model.{DateTime, ContentMetadata}
use bootupd.Packagesystem.{rpm_parse_metadata}
use bootupd.Packagesystem.Parse.{rpm_output, table, AreNames, AreReadable}
use bootupd.Packagesystem.Payload.{commas, AtMost, rpm_parse_metadata_lem}

abbrev shim : Str
shim = codes "shim.efi"

abbrev meta : ℕ → FileMetadata
meta n = record { size = n; sha512 = codes "sha512:0a" }

abbrev before : FileTree
before = record { children = (codes "a.cfg", meta 1) ∷ (shim, meta 2) ∷ [] }

abbrev after : FileTree
after = record { children = (codes "b.cfg", meta 1) ∷ (shim, meta 3) ∷ [] }

before-IsTree : IsTree before
unfolding bootupd.Base.str_lt
before-IsTree = (refl, tt)

after-IsTree : IsTree after
unfolding bootupd.Base.str_lt
after-IsTree = (refl, tt)

diff_impl_paths_example :
    (contains (diff_impl before after true).removals shim
      ≡ lost (get before.children shim) (get after.children shim))
    × (contains (diff_impl before after true).changes shim
        ≡ differs (get before.children shim) (get after.children shim))
    × (contains (diff_impl before after true).additions shim
        ≡ (true && lost (get after.children shim) (get before.children shim)))
diff_impl_paths_example = diff_impl_paths before after shim before-IsTree true

patched-diff_example :
    patched (diff before after) (get after.children) (get before.children) shim
    ≡ get after.children shim
patched-diff_example = patched-diff before after shim before-IsTree

-- A disk with another file for each path.
abbrev altered_disk : Str → Result Found
altered_disk p = ok (a_file (ok (meta 9)))

abbrev all_changed : FileTreeDiff
all_changed = record { additions = []; removals = []; changes = shim ∷ codes "a.cfg" ∷ [] }

relative_run : relative_diff_to before altered_disk ≡ ok all_changed
unfolding relative_diff_to bootupd.Base.set_insert
relative_run = refl

-- A directory with a subdirectory, without and with a file that an interrupted update left.
abbrev esp : Entries
esp = entry (some (codes "EFI")) (dir (entry (some shim) (file (ok (meta 2))) end)) end

abbrev left_over : Entries
left_over = entry (some (codes ".btmp.EFI")) (dir end) esp

esp-IsPlain : IsPlain esp
unfolding IsPlain
esp-IsPlain = (refl, (refl, (meta 2, refl), tt), tt)

abbrev removed : Str → Result (Unit {0})
removed name = ok tt

new_from_dir_iff_example : ((t : FileTree) × (new_from_dir esp ≡ ok t)) ↔ IsPlain esp
new_from_dir_iff_example = new_from_dir_iff esp

abbrev esp_tree : FileTree
esp_tree = record { children = (codes "EFI/shim.efi", meta 2) ∷ [] }

esp_run : new_from_dir esp ≡ ok esp_tree
unfolding new_from_dir bootupd.Filetree.Scan.add_child bootupd.Base.Map.insert
esp_run = refl

left_over-IsCleanable : IsCleanable left_over
unfolding IsCleanable
left_over-IsCleanable = (inl (refl, tt), (inr (inr (meta 2, refl), tt), tt))

cleanup_run : cleanup_tmp removed left_over ≡ ok esp
unfolding cleanup_tmp
cleanup_run = refl

-- A date as the seconds in decimal digits.
decimal : ℕ → ℕ → Str → Str
decimal zero n digits = digits
decimal (suc fuel) n digits =
    let rest = decimal fuel (n / 10) ((b'0' + n % 10) ∷ digits) in
    if ltb n 10 then (b'0' + n) ∷ digits else rest

print_date : DateTime → Str
unfolding decimal
print_date t = decimal 20 (t / 1000000000) []

read_seconds : Str → ℕ → Option ℕ
read_seconds [] n = some (n * 1000000000)
read_seconds (c ∷ s) n =
    let rest = read_seconds s (n * 10 + (c - b'0')) in
    if ltb c b'0' || ltb b'9' c then none else rest

parse_date : Str → Option DateTime
unfolding read_seconds
parse_date [] = none
parse_date (c ∷ s) = read_seconds (c ∷ s) 0

abbrev first_build : DateTime
first_build = 1681321788000000000

abbrev packages : List (Str × DateTime)
packages = (codes "grub", 1678886460000000000) ∷ (codes "shim", 1667260800000000000) ∷ []

names : AreNames ((codes "shim", first_build) ∷ packages)
unfolding is_whitespace
names = ground arith

readable : AreReadable print_date parse_date ((codes "shim", first_build) ∷ packages)
unfolding is_whitespace print_date parse_date
readable = ground arith

rpm_parse_metadata_lem_example :
    (md : ContentMetadata) × (rpm_parse_metadata parse_date
        (ok (rpm_output print_date ((codes "shim", first_build) ∷ packages)))
      ≡ ok md)
    × (md.version ≡ commas (table ((codes "shim", first_build) ∷ packages) []))
    × ((k : Str) → AtMost (get (table ((codes "shim", first_build) ∷ packages) []) k) md.timestamp)
    × ((k : Str) × (get (table ((codes "shim", first_build) ∷ packages) []) k ≡ some md.timestamp))
rpm_parse_metadata_lem_example =
    rpm_parse_metadata_lem print_date parse_date (codes "shim") first_build packages names readable
