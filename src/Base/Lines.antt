-- ===== src/Base/Lines.antt =====
-- `lines`, `strip_prefix` and the trims of a text.
use bootupd.Base.{
  Str, ℕ, ◌≡◌, refl, Bool, ◌&&◌, Option, none, some, List, [], ◌∷◌, ◌++◌, eqb, arith, if◌then◌else◌,
  is_empty, starts_with,
}
use bootupd.Base.Split.{is_whitespace, Free}

abbrev add_char : ℕ → List Str → List Str
add_char c [] = (c ∷ []) ∷ []
add_char c (line ∷ rest) = (c ∷ line) ∷ rest

-- A line ends with a line feed, and a carriage return before it belongs to the end.
unfoldable pub lines : Str → List Str
lines [] = []
lines (c ∷ s) =
    let rest = lines s in
    if eqb c 10
    then [] ∷ rest
    else if eqb c 13 && starts_with s (10 ∷ [])
    then rest
    else add_char c rest

unfoldable pub strip_prefix : Str → Str → Option Str
strip_prefix [] s = some s
strip_prefix (p ∷ ps) [] = none
strip_prefix (p ∷ ps) (c ∷ s) = let rest = strip_prefix ps s in if eqb p c then rest else none

unfoldable pub trim_end_matches : (ℕ → Bool) → Str → Str
trim_end_matches f [] = []
trim_end_matches f (c ∷ s) =
    let rest = trim_end_matches f s in if is_empty rest && f c then [] else c ∷ rest

trim_start : Str → Str
trim_start [] = []
trim_start (c ∷ s) = let rest = trim_start s in if is_whitespace c then rest else c ∷ s

unfoldable pub trim : Str → Str
unfolding trim_start trim_end_matches
trim s = trim_end_matches is_whitespace (trim_start s)

-- A line that is printed is the first of the lines.
pub lines-append : (s t : Str) → Free 10 s → Free 13 s → lines (s ++ (10 ∷ t)) ≡ s ∷ lines t
unfolding lines
lines-append [] t h k = refl
lines-append (c ∷ s) t (n, h) (m, k) = ground (arith, lines-append s t h k)

pub lines-nil : lines [] ≡ []
unfolding lines
lines-nil = refl

-- The character at the end goes, where the rest has none.
pub trim_end_matches-append :
    (c : ℕ) (s : Str) → Free c s → trim_end_matches (λ d. eqb d c) (s ++ (c ∷ [])) ≡ s
unfolding trim_end_matches
trim_end_matches-append c [] h = ground arith
trim_end_matches-append c (d ∷ s) (n, h) = ground (arith, trim_end_matches-append c s h)

-- Where no such character is, nothing goes.
pub trim_end_matches-Free : (c : ℕ) (s : Str) → Free c s → trim_end_matches (λ d. eqb d c) s ≡ s
unfolding trim_end_matches
trim_end_matches-Free c [] h = refl
trim_end_matches-Free c (d ∷ s) (n, h) = ground (arith, trim_end_matches-Free c s h)

pub trim-space : (s : Str) → trim (32 ∷ s) ≡ trim s
unfolding trim trim_start is_whitespace
trim-space s = refl

-- A text begins with a prefix and more where what is left of it begins with the more.
pub starts_with-strip_prefix :
    (p q s r : Str) → strip_prefix p s ≡ some r → starts_with s (p ++ q) ≡ starts_with r q
unfolding strip_prefix
starts_with-strip_prefix [] q s r h = ground arith
starts_with-strip_prefix (c ∷ p) q [] r h = ground arith
starts_with-strip_prefix (c ∷ p) q (d ∷ s) r h = ground (arith, starts_with-strip_prefix p q s r)

pub Free-append : (c : ℕ) (s t : Str) → Free c s → Free c t → Free c (s ++ t)
Free-append c [] t h k = k
Free-append c (d ∷ s) t (n, h) k = (n, Free-append c s t h k)
