-- ===== src/Xtask/Version.antt =====
-- The version that is made of a tag of git.
use bootupd.Base.{Str, ℕ, ◌≡◌, ◌≢◌, refl, false, [], ◌∷◌, arith, starts_with}
use bootupd.Base.Split.{Free}
use bootupd.Base.Lines.{trim}
use bootupd.Xtask.{trim_start_matches, replace, gitrev_to_version}

replace-Free : (a b : ℕ) (s : Str) → b ≢ a → Free a (replace a b s)
unfolding replace
replace-Free a b [] n = tt
replace-Free a b (c ∷ s) n = (ground arith, replace-Free a b s n)

trimmed_start : (a : ℕ) (s : Str) → starts_with (trim_start_matches a s) (a ∷ []) ≡ false
unfolding trim_start_matches
trimmed_start a [] = refl
trimmed_start a (c ∷ s) = ground (arith, trimmed_start a s)

replaced_start :
    (a b v : ℕ) (s : Str)
    → b ≢ v
    → starts_with s (v ∷ []) ≡ false
    → starts_with (replace a b s) (v ∷ []) ≡ false
unfolding replace
replaced_start a b v [] n h = refl
replaced_start a b v (c ∷ s) n h = ground arith

-- A text with no dash that does not begin with a `v`.
abbrev pub IsVersion : Str → Type 0
IsVersion v = Free b'-' v × (starts_with v (b'v' ∷ []) ≡ false)

pub gitrev_to_version-IsVersion : (v : Str) → IsVersion (gitrev_to_version v)
unfolding gitrev_to_version
gitrev_to_version-IsVersion v =
    let s = trim_start_matches b'v' (trim v) in
    (
      replace-Free b'-' b'.' s (omega arith),
      replaced_start b'-' b'.' b'v' s (omega arith) (trimmed_start b'v' (trim v)),
    )
