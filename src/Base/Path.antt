-- ===== src/Base/Path.antt =====
-- Paths as texts: `Path::join`.
use bootupd.Base.{Str, codes, eqb, Bool, false, [], ◌∷◌, ◌++◌, if◌then◌else◌, is_empty, starts_with}

ends_with_slash : Str → Bool
ends_with_slash [] = false
ends_with_slash (c ∷ []) = eqb c b'/'
ends_with_slash (_ ∷ (c ∷ s)) = ends_with_slash (c ∷ s)

-- An absolute path replaces the first, and a slash is put between where there is none.
unfoldable pub join : Str → Str → Str
unfolding ends_with_slash
join a b =
    if starts_with b (codes "/")
    then b
    else if is_empty a
    then b
    else if ends_with_slash a
    then a ++ b
    else a ++ (codes "/" ++ b)
