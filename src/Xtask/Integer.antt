-- ===== src/Xtask/Integer.antt =====
-- `parse::<i64>()` of the standard library, as the build tasks use it on a timestamp.
use Prim.Native.Nat.{◌-◌, ◌*◌, ◌^◌}
use mathlib.Core.Path.{subst}
use bootupd.Base.{
  Str, ℕ, zero, suc, ◌+◌, ◌≤◌, ◌<◌, ◌≡◌, refl, sym, ap, ◌∙◌, true, Option, none, some, [], ◌∷◌,
  ◌||◌, eqb, ltb, arith, if◌then◌else◌, Bool-cases, inl, inr,
}

-- `negsuc n` is -(n + 1).
pub data ℤ : Type 0 where
  pos : ℕ → ℤ
  negsuc : ℕ → ℤ

abbrev pub negated : ℕ → ℤ
negated zero = pos 0
negated (suc n) = negsuc n

-- The digits after `n`; a number above the limit is an overflow.
unfoldable pub scan_digits : ℕ → ℕ → Str → Option ℕ
scan_digits limit n [] = some n
scan_digits limit n (c ∷ s) =
    let m = n * 10 + (c - b'0') in
    let rest = scan_digits limit m s in
    if ltb c b'0' || ltb b'9' c then none else if ltb limit m then none else rest

-- At least one digit.
unfoldable pub scan_number : ℕ → Str → Option ℕ
unfolding scan_digits
scan_number limit [] = none
scan_number limit (c ∷ s) = scan_digits limit 0 (c ∷ s)

abbrev pub i64_limit : ℕ
i64_limit = 2 ^ 63

abbrev signed : (ℕ → ℤ) → Option ℕ → Option ℤ
signed f none = none
signed f (some n) = some (f n)

unfoldable pub parse_i64 : Str → Option ℤ
unfolding scan_number
parse_i64 [] = none
parse_i64 (c ∷ s) =
    if eqb c b'+'
    then signed pos (scan_number (i64_limit - 1) s)
    else if eqb c b'-'
    then signed negated (scan_number i64_limit s)
    else signed pos (scan_number (i64_limit - 1) (c ∷ s))

abbrev pub Fits : ℤ → Type 0
Fits (pos n) = n < i64_limit
Fits (negsuc n) = n < i64_limit

-- The number that digits spell after `n`, with no bound.
abbrev pub value : ℕ → Str → ℕ
value n [] = n
value n (c ∷ s) = value (n * 10 + (c - b'0')) s

abbrev pub AreDigits : Str → Type 0
AreDigits [] = Unit
AreDigits (c ∷ s) = (b'0' ≤ c) × (c ≤ b'9') × AreDigits s

-- The text of an integer: digits, after a sign or none.
pub data Spells : Str → ℤ → Type 0 where
  plain : (c : ℕ) (s : Str) → AreDigits (c ∷ s) → Spells (c ∷ s) (pos (value 0 (c ∷ s)))
  plus : (c : ℕ) (s : Str) → AreDigits (c ∷ s) → Spells (b'+' ∷ (c ∷ s)) (pos (value 0 (c ∷ s)))
  minus :
      (c : ℕ) (s : Str) → AreDigits (c ∷ s) → Spells (b'-' ∷ (c ∷ s)) (negated (value 0 (c ∷ s)))

scan_digits_sound :
    (limit n : ℕ) (s : Str) (r : ℕ)
    → n ≤ limit
    → scan_digits limit n s ≡ some r
    → AreDigits s × (r ≡ value n s) × (r ≤ limit)
unfolding scan_digits
scan_digits_sound limit n [] r fits h = ground arith
scan_digits_sound limit n (c ∷ s) r fits h =
    ground (arith, scan_digits_sound limit (n * 10 + (c - b'0')) s r)

scan_number_sound :
    (limit : ℕ) (s : Str) (r : ℕ)
    → scan_number limit s ≡ some r
    → (c : ℕ) × (t : Str) × (s ≡ c ∷ t) × AreDigits s × (r ≡ value 0 s) × (r ≤ limit)
unfolding scan_number
scan_number_sound limit [] r h = cc
scan_number_sound limit (c ∷ s) r h =
    let (d, e, f) = scan_digits_sound limit 0 (c ∷ s) r (omega arith) h in (c, s, refl, d, e, f)

signed-some :
    (f : ℕ → ℤ) (o : Option ℕ) (n : ℤ) → signed f o ≡ some n → (m : ℕ) × (o ≡ some m) × (f m ≡ n)
signed-some f none n h = cc
signed-some f (some m) n h = (m, refl, cc)

Fits-negated : (m : ℕ) → m ≤ i64_limit → Fits (negated m)
Fits-negated zero h = omega arith
Fits-negated (suc m) h = omega arith

-- The number at the end of a text, and what the text spells with what stands before it.
spelled :
    (limit : ℕ) (f : ℕ → ℤ) (g : Str → Str) (s : Str) (n : ℤ)
    → ((c : ℕ) (t : Str) → AreDigits (c ∷ t) → Spells (g (c ∷ t)) (f (value 0 (c ∷ t))))
    → ((m : ℕ) → m ≤ limit → Fits (f m))
    → signed f (scan_number limit s) ≡ some n
    → Spells (g s) n × Fits n
spelled limit f g s n make fits h =
    let (m, found, e) = signed-some f (scan_number limit s) n h in
    let (c, t, same, digits, exact, below) = scan_number_sound limit s m found in
    (
      subst (Spells (g s)) (ap f (sym exact) ∙ e)
          (subst (λ x. AreDigits x → Spells (g x) (f (value 0 x))) (sym same) (make c t) digits),
      subst Fits e (fits m below),
    )

-- What is parsed is the integer that the text spells, and is in the range of `i64`.
pub parse_i64_sound : (s : Str) (n : ℤ) → parse_i64 s ≡ some n → Spells s n × Fits n
unfolding parse_i64
parse_i64_sound [] n h = cc
parse_i64_sound (c ∷ s) n h = elim (Bool-cases (eqb c b'+')) [
  | inl e ↦
      let h' = rw e at h in
      subst (λ x. Spells (x ∷ s) n × Fits n) (sym (eqb_eq c b'+' e))
        (spelled (i64_limit - 1) pos (λ t. b'+' ∷ t) s n plus (λ m k. omega arith) h')
  | inr p ↦ elim (Bool-cases (eqb c b'-')) [
    | inl e ↦
        let h' = rw (p, e) at h in
        subst (λ x. Spells (x ∷ s) n × Fits n) (sym (eqb_eq c b'-' e))
          (spelled i64_limit negated (λ t. b'-' ∷ t) s n minus Fits-negated h')
    | inr q ↦
        let h' = rw (p, q) at h in
        spelled (i64_limit - 1) pos (λ t. t) (c ∷ s) n plain (λ m k. omega arith) h'
  ]
]
  where
    eqb_eq : (a b : ℕ) → eqb a b ≡ true → a ≡ b
    eqb_eq a b e = ground arith
