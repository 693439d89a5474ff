-- ===== src/Base/Map.antt =====
-- `BTreeMap<String, V>` as its entries in key order, with `insert`, `get`, `remove` and iteration.
use bootupd.Base.{
  Str, ◌==◌, str_lt, str_lt_irrefl, str_lt_trans, str_lt_total, ◌≡◌, refl, true, Option, none, some,
  List, [], ◌∷◌, arith, if◌then◌else◌,
}

abbrev pub BTreeMap {ℓ} : Type ℓ → Type ℓ
BTreeMap V = List (Str × V)

module _ {ℓ} {V : Type ℓ} where
  unfoldable pub get : BTreeMap V → Str → Option V
  get [] k = none
  get ((j, v) ∷ m) k = if k == j then some v else get m k

  unfoldable pub insert : BTreeMap V → Str → V → BTreeMap V
  insert [] k v = (k, v) ∷ []
  insert ((j, w) ∷ m) k v =
      if k == j
      then (k, v) ∷ m
      else if str_lt k j
      then (k, v) ∷ (j, w) ∷ m
      else (j, w) ∷ insert m k v

  unfoldable pub remove : BTreeMap V → Str → BTreeMap V
  remove [] k = []
  remove ((j, w) ∷ m) k = if k == j then m else (j, w) ∷ remove m k

  -- The keys strictly ascend, and all lie above `lo` if there is one.
  abbrev pub Above : Str → BTreeMap V → Type 0
  Above lo [] = Unit
  Above lo ((j, _) ∷ m) = (str_lt lo j ≡ true) × Above j m

  abbrev pub IsSorted : BTreeMap V → Type 0
  IsSorted [] = Unit
  IsSorted ((j, _) ∷ m) = Above j m

  pub get-nil : (k : Str) → get [] k ≡ none
  unfolding get
  get-nil k = refl

  pub get-insert :
      (m : BTreeMap V) (k j : Str) (v : V)
      → get (insert m k v) j ≡ (if j == k then some v else get m j)
  unfolding get insert
  get-insert [] k j v = refl
  get-insert ((i, w) ∷ m) k j v = ground (arith, get-insert m k j v)

  insert-Above :
      (lo : Str) (m : BTreeMap V) (k : Str) (v : V)
      → str_lt lo k ≡ true
      → Above lo m
      → Above lo (insert m k v)
  unfolding insert
  insert-Above lo [] k v h s = (h, tt)
  insert-Above lo ((j, w) ∷ m) k v h s = ground (arith, insert-Above j m k v, str_lt_total k j)

  pub insert-IsSorted : (m : BTreeMap V) (k : Str) (v : V) → IsSorted m → IsSorted (insert m k v)
  unfolding insert
  insert-IsSorted [] k v s = tt
  insert-IsSorted ((j, w) ∷ m) k v s = ground (arith, insert-Above j m k v, str_lt_total k j)

  Above-trans : (lo j : Str) (m : BTreeMap V) → str_lt lo j ≡ true → Above j m → Above lo m
  Above-trans lo j [] h s = tt
  Above-trans lo j ((k, _) ∷ m) h s = (str_lt_trans lo j k h s.0, s.1)

  pub get_of_Above : (lo : Str) (m : BTreeMap V) → Above lo m → get m lo ≡ none
  unfolding get
  get_of_Above lo [] s = refl
  get_of_Above lo ((j, w) ∷ m) s =
      ground (arith, str_lt_irrefl lo, get_of_Above lo m (Above-trans lo j m s.0 s.1))

  pub Above-IsSorted : (lo : Str) (m : BTreeMap V) → Above lo m → IsSorted m
  Above-IsSorted lo [] s = tt
  Above-IsSorted lo ((j, _) ∷ m) s = s.1

  pub get-remove :
      (m : BTreeMap V) (k j : Str)
      → IsSorted m
      → get (remove m k) j ≡ (if j == k then none else get m j)
  unfolding get remove
  get-remove [] k j s = ground arith
  get-remove ((i, w) ∷ m) k j s =
      ground (arith, get-remove m k j (Above-IsSorted i m s), get_of_Above i m s)

  remove-Above : (lo : Str) (m : BTreeMap V) (k : Str) → Above lo m → Above lo (remove m k)
  unfolding remove
  remove-Above lo [] k s = tt
  remove-Above lo ((j, w) ∷ m) k s =
      ground (arith, remove-Above j m k s.1, Above-trans lo j m s.0 s.1)

  pub remove-IsSorted : (m : BTreeMap V) (k : Str) → IsSorted m → IsSorted (remove m k)
  unfolding remove
  remove-IsSorted [] k s = tt
  remove-IsSorted ((j, w) ∷ m) k s = ground (arith, remove-Above j m k s, Above-IsSorted j m s)
