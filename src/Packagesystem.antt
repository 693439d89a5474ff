-- ===== src/Packagesystem.antt =====
-- `rpm_parse_metadata` of src/packagesystem.rs: the version and the date of a payload, from the
-- output of `rpm -q --queryformat '%{nevra},%{buildtime} '`.
pub mod Parse
pub mod Payload
pub mod Query
use bootupd.Base.{
  Str, ℕ, codes, Option, none, some, List, [], ◌∷◌, ◌++◌, Result, ok, err, failed, and_then, ok_or,
  if◌then◌else◌, is_empty, ltb,
}
use bootupd.Base.Map.{BTreeMap, insert}
use bootupd.Base.Split.{split_once, split_whitespace}
use bootupd.Model.{DateTime, ContentMetadata}

-- The loop that joins the keys of the map.
unfoldable pub join_loop : Str → BTreeMap DateTime → Str
join_loop s [] = s
join_loop s ((n, _) ∷ rest) = join_loop ((if is_empty s then s else s ++ codes ",") ++ n) rest

-- The last element of the ordered set of the values.
unfoldable pub largest_timestamp : DateTime → BTreeMap DateTime → DateTime
largest_timestamp t [] = t
largest_timestamp t ((_, u) ∷ rest) = largest_timestamp (if ltb t u then u else t) rest

-- `parse_from_str` is chrono's `DateTime::parse_from_str(_, "%s")` in UTC.
module _ (parse_from_str : Str → Option DateTime) where
  unfoldable pub parse_fields : Option (Str × Str) → Result (Str × DateTime)
  parse_fields none = err (failed "Failed to parse")
  parse_fields (some (name, ts)) = elim (parse_from_str ts) [
    | some nt ↦ ok (name, nt)
    | none ↦ err (failed "Failed to parse rpm buildtime")
  ]

  unfoldable pub parse_package : Str → Result (Str × DateTime)
  unfolding parse_fields
  parse_package s = parse_fields (split_once b',' s)

  -- `collect::<Result<BTreeMap<_, _>>>()`: a later package replaces an earlier one of its name.
  unfoldable pub collect_packages : List Str → BTreeMap DateTime → Result (BTreeMap DateTime)
  unfolding parse_package
  collect_packages [] pkgs = ok pkgs
  collect_packages (s ∷ rest) pkgs =
      and_then (parse_package s) (λ (name, nt). collect_packages rest (insert pkgs name nt))

-- The version lists the names in order, and the date is the latest.
unfoldable pub packages_metadata : BTreeMap DateTime → Result ContentMetadata
unfolding join_loop largest_timestamp
packages_metadata [] = err (failed "Failed to find any RPM packages")
packages_metadata ((n, t) ∷ rest) =
    ok (record { timestamp = largest_timestamp t rest; version = join_loop [] ((n, t) ∷ rest) })

-- The argument is what `str::from_utf8` makes of the output.
unfoldable pub rpm_parse_metadata : (Str → Option DateTime) → Result Str → Result ContentMetadata
unfolding collect_packages packages_metadata
rpm_parse_metadata parse_from_str stdout =
    and_then stdout λ text.
      and_then (collect_packages parse_from_str (split_whitespace text) []) packages_metadata
