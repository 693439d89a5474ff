-- ===== src/Packagesystem/Payload.antt =====
-- `rpm_parse_metadata` on the output of rpm for some packages: the version and the date.
use bootupd.Base.{
  Str, ◌≤◌, ◌≡◌, ◌≢◌, refl, ap, ◌∙◌, Option, none, some, List, [], ◌∷◌, ◌++◌, ok, arith,
  if◌then◌else◌, ◌==◌, ◌⊎◌, inl, inr, ltb, Bool-cases, Option-cases,
}
use bootupd.Base.Map.{
  BTreeMap, get, insert, Above, IsSorted, insert-IsSorted, get_of_Above, Above-IsSorted,
}
use bootupd.Base.Split.{++_assoc}
use bootupd.Model.{DateTime, ContentMetadata}
use bootupd.Packagesystem.{join_loop, largest_timestamp, packages_metadata, rpm_parse_metadata}
use bootupd.Packagesystem.Parse.{
  rpm_output, AreNames, AreReadable, table, collect_packages-rpm_output,
}

-- The keys with a comma between each two.
unfoldable pub commas : BTreeMap DateTime → Str
commas [] = []
commas ((n, _) ∷ []) = n
commas ((n, _) ∷ ((k, t) ∷ m)) = n ++ (b',' ∷ commas ((k, t) ∷ m))

abbrev AreNonempty : BTreeMap DateTime → Type 0
AreNonempty [] = Unit
AreNonempty ((n, _) ∷ m) = (n ≢ []) × AreNonempty m

comma_assoc : (s n t : Str) → ((s ++ (b',' ∷ [])) ++ n) ++ t ≡ s ++ (b',' ∷ (n ++ t))
comma_assoc [] n t = refl
comma_assoc (c ∷ s) n t = ap (λ (v : Str). c ∷ v) (comma_assoc s n t)

join_loop-commas :
    (s : Str) (n : Str) (t : DateTime) (m : BTreeMap DateTime)
    → s ≢ []
    → AreNonempty m
    → join_loop s ((n, t) ∷ m) ≡ s ++ (b',' ∷ commas ((n, t) ∷ m))
unfolding join_loop commas
join_loop-commas [] n t m h a = absurd (h refl)
join_loop-commas (c ∷ s) n t [] h a = ap (λ (v : Str). c ∷ v) (++_assoc s (b',' ∷ []) n)
join_loop-commas (c ∷ s) n t ((k, u) ∷ m) h a =
    join_loop-commas (c ∷ ((s ++ (b',' ∷ [])) ++ n)) k u m (λ e. absurd cc) a.1
    ∙ ap (λ (v : Str). c ∷ v) (comma_assoc s n (b',' ∷ commas ((k, u) ∷ m)))

join_loop-nil :
    (n : Str) (t : DateTime) (m : BTreeMap DateTime)
    → AreNonempty ((n, t) ∷ m)
    → join_loop [] ((n, t) ∷ m) ≡ commas ((n, t) ∷ m)
unfolding join_loop commas
join_loop-nil n t [] h = refl
join_loop-nil n t ((k, u) ∷ m) (ne, h) = join_loop-commas n k u m ne h.1

insert-AreNonempty :
    (m : BTreeMap DateTime) (n : Str) (t : DateTime)
    → n ≢ []
    → AreNonempty m
    → AreNonempty (insert m n t)
unfolding insert
insert-AreNonempty [] n t h a = (h, tt)
insert-AreNonempty ((k, u) ∷ m) n t h a = ground (arith, insert-AreNonempty m n t h a.1)

table-AreNonempty :
    (pkgs : List (Str × DateTime)) (m : BTreeMap DateTime)
    → AreNames pkgs
    → AreNonempty m
    → AreNonempty (table pkgs m)
unfolding table
table-AreNonempty [] m h a = a
table-AreNonempty ((n, t) ∷ pkgs) m (name, h) a =
    table-AreNonempty pkgs (insert m n t) h (insert-AreNonempty m n t name.0 a)

table-IsSorted :
    (pkgs : List (Str × DateTime)) (m : BTreeMap DateTime) → IsSorted m → IsSorted (table pkgs m)
unfolding table
table-IsSorted [] m h = h
table-IsSorted ((n, t) ∷ pkgs) m h = table-IsSorted pkgs (insert m n t) (insert-IsSorted m n t h)

insert-ne-nil : (m : BTreeMap DateTime) (n : Str) (t : DateTime) → insert m n t ≢ []
unfolding insert
insert-ne-nil [] n t = ground arith
insert-ne-nil ((k, u) ∷ m) n t = ground arith

table-ne-nil : (pkgs : List (Str × DateTime)) (m : BTreeMap DateTime) → m ≢ [] → table pkgs m ≢ []
unfolding table
table-ne-nil [] m h = h
table-ne-nil ((n, t) ∷ pkgs) m h = table-ne-nil pkgs (insert m n t) (insert-ne-nil m n t)

largest_timestamp_start : (u : DateTime) (m : BTreeMap DateTime) → u ≤ largest_timestamp u m
unfolding largest_timestamp
largest_timestamp_start u [] = omega arith
largest_timestamp_start u ((k, t) ∷ m) =
    ground (arith, largest_timestamp_start (if ltb u t then t else u) m)

largest_timestamp_upper :
    (u : DateTime) (m : BTreeMap DateTime) (n : Str) (t : DateTime)
    → get m n ≡ some t
    → t ≤ largest_timestamp u m
unfolding largest_timestamp get
largest_timestamp_upper u [] n t h = absurd cc
largest_timestamp_upper u ((k, v) ∷ m) n t h = ground (
  arith,
  largest_timestamp_upper (if ltb u v then v else u) m n t,
  largest_timestamp_start (if ltb u v then v else u) m,
)

-- The largest of the values is the first one or that of a key.
largest_timestamp_found :
    (u : DateTime) (m : BTreeMap DateTime)
    → IsSorted m
    → (largest_timestamp u m ≡ u) ⊎ ((n : Str) × (get m n ≡ some (largest_timestamp u m)))
unfolding largest_timestamp get
largest_timestamp_found u [] s = inl refl
largest_timestamp_found u ((k, v) ∷ m) s = elim (Bool-cases (ltb u v)) [
  | inl later ↦ elim (largest_timestamp_found v m (Above-IsSorted k m s)) [
    | inl e ↦ inr (k, ground (arith, later, e))
    | inr (n, e) ↦ inr (n, ground (arith, later, e, get_of_Above k m s))
  ]
  | inr earlier ↦ elim (largest_timestamp_found u m (Above-IsSorted k m s)) [
    | inl e ↦ inl (ground (arith, earlier, e))
    | inr (n, e) ↦ inr (n, ground (arith, earlier, e, get_of_Above k m s))
  ]
]

-- A date, if there is one, is not after another.
abbrev pub AtMost : Option DateTime → DateTime → Type 0
AtMost none t = Unit
AtMost (some u) t = u ≤ t

upper :
    (n : Str) (t : DateTime) (m : BTreeMap DateTime) (k : Str)
    → AtMost (get ((n, t) ∷ m) k) (largest_timestamp t m)
unfolding get
upper n t m k = elim (Option-cases (if k == n then some t else get m k)) [
  | inl e ↦ rw e tt
  | inr (u, e) ↦
      rw e (ground (arith, e, largest_timestamp_upper t m k u, largest_timestamp_start t m))
]

found :
    (n : Str) (t : DateTime) (m : BTreeMap DateTime)
    → Above n m
    → (k : Str) × (get ((n, t) ∷ m) k ≡ some (largest_timestamp t m))
unfolding get
found n t m s = elim (largest_timestamp_found t m (Above-IsSorted n m s)) [
  | inl e ↦ (n, ground (arith, e))
  | inr (k, e) ↦ (k, ground (arith, e, get_of_Above n m s))
]

-- The version that the names of a map make.
packages_metadata_lem :
    (m : BTreeMap DateTime)
    → m ≢ []
    → IsSorted m
    → AreNonempty m
    → (md : ContentMetadata) × (packages_metadata m ≡ ok md)
      × (md.version ≡ commas m)
      × ((n : Str) → AtMost (get m n) md.timestamp)
      × ((n : Str) × (get m n ≡ some md.timestamp))
unfolding packages_metadata
packages_metadata_lem [] h s a = absurd (h refl)
packages_metadata_lem ((n, t) ∷ m) h s a = (
  record { timestamp = largest_timestamp t m; version = join_loop [] ((n, t) ∷ m) },
  refl,
  join_loop-nil n t m a,
  upper n t m,
  found n t m s,
)

module _ (print : DateTime → Str) (parse_from_str : Str → Option DateTime) where
  -- From what rpm prints for at least one package, whose names are not empty and have neither a
  -- comma nor white space, `rpm_parse_metadata` makes metadata: the version is the names in order,
  -- each once, with a comma between each two, and the timestamp is the latest of the build times,
  -- where the last of two packages of one name counts.
  pub rpm_parse_metadata_lem :
      (n : Str) (t : DateTime) (pkgs : List (Str × DateTime))
      → AreNames ((n, t) ∷ pkgs)
      → AreReadable print parse_from_str ((n, t) ∷ pkgs)
      → (md : ContentMetadata) × (rpm_parse_metadata parse_from_str
            (ok (rpm_output print ((n, t) ∷ pkgs)))
          ≡ ok md)
        × (md.version ≡ commas (table ((n, t) ∷ pkgs) []))
        × ((k : Str) → AtMost (get (table ((n, t) ∷ pkgs) []) k) md.timestamp)
        × ((k : Str) × (get (table ((n, t) ∷ pkgs) []) k ≡ some md.timestamp))
  unfolding rpm_parse_metadata insert table
  rpm_parse_metadata_lem n t pkgs names readable =
      rw (collect_packages-rpm_output print parse_from_str ((n, t) ∷ pkgs) [] names readable) (
        packages_metadata_lem (table ((n, t) ∷ pkgs) [])
          (table-ne-nil pkgs (insert [] n t) (insert-ne-nil [] n t))
          (table-IsSorted ((n, t) ∷ pkgs) [] tt) (table-AreNonempty ((n, t) ∷ pkgs) [] names tt))
