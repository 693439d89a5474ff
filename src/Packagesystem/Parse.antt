-- ===== src/Packagesystem/Parse.antt =====
-- The output of rpm is read back: each package under its name, the latest date, and the names in
-- order without repetition.
use bootupd.Base.{Str, ◌≡◌, ◌≢◌, refl, false, Option, some, List, [], ◌∷◌, ◌++◌, ok}
use bootupd.Base.Map.{BTreeMap, insert}
use bootupd.Base.Split.{
  split_once_found, Free, split_whitespace, split_whitespace-nil, split_whitespace-append, NoSpace,
  is_whitespace,
}
use bootupd.Model.{DateTime}
use bootupd.Packagesystem.{parse_fields, parse_package, collect_packages}

module _ (print : DateTime → Str) where
  -- What rpm prints for the packages.
  pub rpm_output : List (Str × DateTime) → Str
  rpm_output [] = []
  rpm_output ((n, t) ∷ rest) = (n ++ (b',' ∷ print t)) ++ (32 ∷ rpm_output rest)

-- A name is not empty and has neither a comma nor white space.
abbrev pub IsName : Str → Type 0
IsName n = (n ≢ []) × Free b',' n × NoSpace n

abbrev pub AreNames : List (Str × DateTime) → Type 0
AreNames [] = Unit
AreNames ((n, _) ∷ rest) = IsName n × AreNames rest

-- The packages by name, the last one of each.
unfoldable pub table : List (Str × DateTime) → BTreeMap DateTime → BTreeMap DateTime
table [] m = m
table ((n, t) ∷ rest) m = table rest (insert m n t)

NoSpace-append : (s t : Str) → NoSpace s → NoSpace t → NoSpace (s ++ t)
NoSpace-append [] t h k = k
NoSpace-append (c ∷ s) t (n, h) k = (n, NoSpace-append s t h k)

comma_is_no_space : is_whitespace b',' ≡ false
unfolding is_whitespace
comma_is_no_space = refl

split_whitespace_word :
    (w t : Str) → w ≢ [] → NoSpace w → split_whitespace (w ++ (32 ∷ t)) ≡ w ∷ split_whitespace t
split_whitespace_word [] t n h = absurd (n refl)
split_whitespace_word (c ∷ w) t n h = split_whitespace-append c w t h

module _ (print : DateTime → Str) (parse_from_str : Str → Option DateTime) where
  -- The date of each package reads back from what rpm prints, which has no white space.
  abbrev pub AreReadable : List (Str × DateTime) → Type 0
  AreReadable [] = Unit
  AreReadable ((_, t) ∷ rest) =
      (parse_from_str (print t) ≡ some t) × NoSpace (print t) × AreReadable rest

  parse_package-print :
      (n : Str) (t : DateTime)
      → Free b',' n
      → parse_from_str (print t) ≡ some t
      → parse_package parse_from_str (n ++ (b',' ∷ print t)) ≡ ok (n, t)
  unfolding parse_package parse_fields
  parse_package-print n t h reads = rw (split_once_found b',' n (print t) h, parse_fields, reads)

  word-ne-nil : (n s : Str) → n ++ (b',' ∷ s) ≢ []
  word-ne-nil [] s h = cc
  word-ne-nil (c ∷ n) s h = cc

  pub collect_packages-rpm_output :
      (pkgs : List (Str × DateTime)) (m : BTreeMap DateTime)
      → AreNames pkgs
      → AreReadable pkgs
      → collect_packages parse_from_str (split_whitespace (rpm_output print pkgs)) m
        ≡ ok (table pkgs m)
  unfolding rpm_output table collect_packages
  collect_packages-rpm_output [] m h k = rw (split_whitespace-nil)
  collect_packages-rpm_output ((n, t) ∷ pkgs) m ((ne, free, ns), h) (reads, plain, k) =
      rw
        (
          split_whitespace_word (n ++ (b',' ∷ print t)) (rpm_output print pkgs)
              (word-ne-nil n (print t))
              (NoSpace-append n (b',' ∷ print t) ns (comma_is_no_space, plain)),
          parse_package-print n t free reads,
        )
        (collect_packages-rpm_output pkgs (insert m n t) h k)
