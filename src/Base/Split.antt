-- ===== src/Base/Split.antt =====
-- The parts of a text: `split_once`, `splitn(2, …)`, `split_whitespace`, `lines` and the trims.
use bootupd.Base.{
  Str, ℕ, ◌≡◌, ◌≢◌, refl, ap, Bool, true, false, not, ◌&&◌, ◌||◌, Option, none, some, List, [], ◌∷◌,
  ◌++◌, eqb, leb, arith, if◌then◌else◌,
}

-- The text up to the first `c`, and after it.
unfoldable pub split_once : ℕ → Str → Option (Str × Str)
split_once c [] = none
split_once c (d ∷ s) =
    if eqb d c
    then some ([], s)
    else elim (split_once c s) [ none ↦ none | some (a, b) ↦ some (d ∷ a, b) ]

-- No character of the text is `c`.
abbrev pub Free : ℕ → Str → Type 0
Free c [] = Unit
Free c (d ∷ s) = (d ≢ c) × Free c s

unfoldable pub is_free : ℕ → Str → Bool
is_free c [] = true
is_free c (d ∷ s) = not (eqb d c) && is_free c s

pub is_free-Free : (c : ℕ) (s : Str) → is_free c s ≡ true → Free c s
unfolding is_free
is_free-Free c [] h = tt
is_free-Free c (d ∷ s) h = ground (arith, is_free-Free c s)

pub split_once_found : (c : ℕ) (s t : Str) → Free c s → split_once c (s ++ (c ∷ t)) ≡ some (s, t)
unfolding split_once
split_once_found c [] t h = ground arith
split_once_found c (d ∷ s) t (n, h) = ground (arith, split_once_found c s t h)

pub split_once-none : (c : ℕ) (s : Str) → Free c s → split_once c s ≡ none
unfolding split_once
split_once-none c [] h = refl
split_once-none c (d ∷ s) (n, h) = ground (arith, split_once-none c s h)

-- `char::is_whitespace`
unfoldable pub is_whitespace : ℕ → Bool
is_whitespace c =
    (leb 9 c && leb c 13)
    || eqb c 32
    || eqb c 133
    || eqb c 160
    || eqb c 5760
    || (leb 8192 c && leb c 8202)
    || eqb c 8232
    || eqb c 8233
    || eqb c 8239
    || eqb c 8287
    || eqb c 12288

abbrev push_word : Str → List Str → List Str
push_word [] words = words
push_word (c ∷ w) words = (c ∷ w) ∷ words

-- The first word, if the text begins with one, and the words after it.
split_words : Str → Str × List Str
split_words [] = ([], [])
split_words (c ∷ s) =
    let (word, words) = split_words s in
    if is_whitespace c then ([], push_word word words) else (c ∷ word, words)

unfoldable pub split_whitespace : Str → List Str
unfolding split_words
split_whitespace s = let (word, words) = split_words s in push_word word words

pub split_whitespace-nil : split_whitespace [] ≡ []
unfolding split_whitespace split_words
split_whitespace-nil = refl

abbrev pub NoSpace : Str → Type 0
NoSpace [] = Unit
NoSpace (c ∷ s) = (is_whitespace c ≡ false) × NoSpace s

split_words-append :
    (s t : Str)
    → NoSpace s
    → split_words (s ++ (32 ∷ t)) ≡ (s, push_word (split_words t).0 (split_words t).1)
unfolding split_words is_whitespace
split_words-append [] t h = refl
split_words-append (c ∷ s) t (n, h) = ground (arith, split_words-append s t h)

-- A word that is followed by a space is the first of the words.
pub split_whitespace-append :
    (c : ℕ) (s t : Str)
    → NoSpace (c ∷ s)
    → split_whitespace ((c ∷ s) ++ (32 ∷ t)) ≡ (c ∷ s) ∷ split_whitespace t
unfolding split_whitespace
split_whitespace-append c s t h =
    ap (λ (r : Str × List Str). push_word r.0 r.1) (split_words-append (c ∷ s) t h)

pub ++_assoc : (s t u : Str) → (s ++ t) ++ u ≡ s ++ (t ++ u)
++_assoc [] t u = refl
++_assoc (c ∷ s) t u = ap (λ (v : Str). c ∷ v) (++_assoc s t u)
