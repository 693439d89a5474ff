-- ===== src/Base/Text.antt =====
-- A Rust `str` as the list of its code points, with the equality and the order of `str`.
use Prim.Native.Nat.{ℕ}
use Prim.Native.Char.{code}
use Prim.Native.String.{String}
use mathlib.Core.Path.{◌≡◌, refl, ap}
use mathlib.Core.Logic.{◌≢◌, inl, inr, ite}
use mathlib.Core.Bool.{Bool, true, false, ◌&&◌, ◌||◌}
use mathlib.Core.List.{List, [], ◌∷◌}
use native.Mathlib.Omega.{arith}
use native.Mathlib.Decide.{ℕ_discrete}
use bootupd.Base.Tests.{ltb, eqb, if◌then◌else◌, Bool-cases}

abbrev pub Str : Type 0
Str = List ℕ

-- The text of a literal.
abbrev pub codes : String → Str
codes String.[] = []
codes (String.◌∷◌ c s) = code c ∷ codes s

-- Shut in proofs: a split on it gives the equation or its negation.
unfoldable pub str_dec : Discrete Str
unfolding ℕ_discrete
str_dec = hlevel ℕ_discrete

infix 50 ◌==◌
abbrev pub ◌==◌ : Str → Str → Bool
s == t = ite (str_dec s t) true false

pub str_eq : (s t : Str) → (s == t) ≡ true → s ≡ t
str_eq s t h = ground arith

-- `Ord for str`. The order of code points is the order of their UTF-8 bytes.
unfoldable pub str_lt : Str → Str → Bool
str_lt s [] = false
str_lt [] (d ∷ t) = true
str_lt (c ∷ s) (d ∷ t) = ltb c d || (eqb c d && str_lt s t)

pub str_lt_irrefl : (s : Str) → str_lt s s ≡ false
unfolding str_lt
str_lt_irrefl [] = refl
str_lt_irrefl (c ∷ s) = ground (arith, str_lt_irrefl s)

pub str_lt_trans : (s t u : Str) → str_lt s t ≡ true → str_lt t u ≡ true → str_lt s u ≡ true
unfolding str_lt
str_lt_trans s [] u p q = cc
str_lt_trans s (d ∷ t) [] p q = cc
str_lt_trans [] (d ∷ t) (e ∷ u) p q = refl
str_lt_trans (c ∷ s) (d ∷ t) (e ∷ u) p q = ground (arith, str_lt_trans s t u)

pub str_lt_total : (s t : Str) → str_lt s t ≡ false → s ≢ t → str_lt t s ≡ true
unfolding str_lt
str_lt_total [] [] p n = absurd (n refl)
str_lt_total (c ∷ s) [] p n = refl
str_lt_total [] (d ∷ t) p n = cc
str_lt_total (c ∷ s) (d ∷ t) p n = ground (arith, str_lt_total s t)

abbrev pub starts_with : Str → Str → Bool
starts_with s [] = true
starts_with [] (c ∷ p) = false
starts_with (d ∷ s) (c ∷ p) = eqb d c && starts_with s p

-- A `HashSet<String>` as a list without repetition, in any order.
abbrev pub contains : List Str → Str → Bool
contains [] a = false
contains (x ∷ xs) a = a == x || contains xs a

unfoldable pub set_insert : Str → List Str → List Str
set_insert a xs = if contains xs a then xs else a ∷ xs

pub contains-set_insert :
    (a b : Str) (xs : List Str) → contains (set_insert a xs) b ≡ (b == a || contains xs b)
unfolding set_insert
contains-set_insert a b xs = elim (Bool-cases (contains xs a)) [
  | inl e ↦ rw e (ground (arith, ap (contains xs)))
  | inr e ↦ rw e
]
