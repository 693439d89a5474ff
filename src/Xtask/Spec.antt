-- ===== src/Xtask/Spec.antt =====
-- The spec file that `package-srpm` writes.
use bootupd.Base.{
  Str, ℕ, codes, ◌==◌, ◌++◌, ◌≡◌, refl, sym, ap, ◌∙◌, Bool, true, false, not, ◌&&◌, List, [], ◌∷◌,
  map, Result, ok, err, Exec, pure, continue-ok, continue-rest, continue, ◌>>=◌, ◌>>◌, arith,
  if◌then◌else◌, starts_with, Bool-cases, inl, inr,
}
use mathlib.Core.List.{append_assoc, append-nil}
use bootupd.Base.Path.{join}
use bootupd.Xtask.{Shell, replaced_mark, write_line, write_lines, write_spec}

abbrev pub is_version : Str → Bool
is_version line = starts_with line (codes "Version:")

-- The lines with a property.
abbrev pub select : (Str → Bool) → List Str → List Str
select p [] = []
select p (x ∷ xs) = let rest = select p xs in if p x then x ∷ rest else rest

-- Neither a version nor the comment that is written above one.
abbrev pub is_kept : Str → Bool
is_kept line = not (is_version line) && not (line == replaced_mark)

abbrev pub version_line : Str → Str
version_line v = codes "Version: " ++ v

-- The lines that are written for one line, and for all.
abbrev line_out : Str → Str → List Str
line_out v line = if is_version line then replaced_mark ∷ version_line v ∷ [] else line ∷ []

abbrev lines_out : Str → List Str → List Str
lines_out v [] = []
lines_out v (line ∷ rest) = line_out v line ++ lines_out v rest

select-append :
    (p : Str → Bool) (xs ys : List Str) → select p (xs ++ ys) ≡ select p xs ++ select p ys
select-append p [] ys = refl
select-append p (x ∷ xs) ys = ground (arith, select-append p xs ys)

mark-is_kept : is_kept replaced_mark ≡ false
unfolding bootupd.Base.str_dec
mark-is_kept = refl

kept_line : (v line : Str) → select is_kept (line_out v line) ≡ select is_kept (line ∷ [])
kept_line v line = ground (arith, mark-is_kept)

version_lines :
    (v line : Str)
    → select is_version (line_out v line) ≡ (if is_version line then version_line v ∷ [] else [])
version_lines v line = elim (Bool-cases (is_version line)) [
  | inl e ↦ rw e refl
  | inr n ↦ rw n (rw n refl)
]

select-cons :
    (p : Str → Bool) (x : Str) (xs : List Str)
    → select p (x ∷ xs) ≡ select p (x ∷ []) ++ select p xs
select-cons p x xs = ground arith

lines_out_kept :
    (v : Str) (lines : List Str) → select is_kept (lines_out v lines) ≡ select is_kept lines
lines_out_kept v [] = refl
lines_out_kept v (line ∷ rest) =
    select-append is_kept (line_out v line) (lines_out v rest)
    ∙ rw (kept_line v line, lines_out_kept v rest) (sym (select-cons is_kept line rest))

lines_out_versions :
    (v : Str) (lines : List Str)
    → select is_version (lines_out v lines) ≡ map (λ _. version_line v) (select is_version lines)
lines_out_versions v [] = refl
lines_out_versions v (line ∷ rest) =
    select-append is_version (line_out v line) (lines_out v rest)
    ∙ rw (version_lines v line, lines_out_versions v rest) (ground arith)

abbrev pub spec_in : Str
spec_in = codes "contrib/packaging/bootupd.spec"

abbrev pub spec_out : Str → Str
spec_out td = join td (codes "bootupd.spec")

module _ {W : Type 0} (S : Shell W) (text : Str → W → List Str)
    -- a file that is made is empty, and a line goes to its end
    (create_empties : (p : Str) (w : W) → (S.create p w).0 ≡ ok tt → text p (S.create p w).1 ≡ [])
    (writeln_appends : (p line : Str) (w : W)
      → (S.writeln p line w).0 ≡ ok tt
      → text p (S.writeln p line w).1 ≡ text p w ++ (line ∷ [])) where
  write_line_lem :
      (out v line : Str) (w : W)
      → (write_line S out v line w).0 ≡ ok tt
      → text out (write_line S out v line w).1 ≡ text out w ++ line_out v line
  unfolding write_line
  write_line_lem out v line w h = elim (Bool-cases (is_version line)) [
    | inl e ↦
        let h' = rw e at h in
        let (_, first, second, rest) = continue-rest (S.writeln out replaced_mark w).0 _ _ h' in
        rw e (
          ap (λ (r : Result (Unit {0}) × W). text out r.1) rest
          ∙ writeln_appends out _ _ second
          ∙ ap (λ t. t ++ (version_line v ∷ [])) (writeln_appends out replaced_mark w first)
          ∙ append_assoc (text out w) (replaced_mark ∷ []) (version_line v ∷ []))
    | inr n ↦ let h' = rw n at h in rw n (writeln_appends out line w h')
  ]

  write_lines_lem :
      (out v : Str) (rs : List (Result Str)) (w : W)
      → (write_lines S out v rs w).0 ≡ ok tt
      → (lines : List Str) × (rs ≡ map ok lines)
        × (text out (write_lines S out v rs w).1 ≡ text out w ++ lines_out v lines)
  unfolding write_lines
  write_lines_lem out v [] w h = ([], refl, sym (append-nil _))
  write_lines_lem out v (err e ∷ rs) w h = cc
  write_lines_lem out v (ok line ∷ rs) w h =
      let (_, one, more, rest) = continue-rest (write_line S out v line w).0 _ _ h in
      let (lines, read, after) = write_lines_lem out v rs _ more in
      (
        line ∷ lines,
        ap (λ t. ok line ∷ t) read,
        ap (λ (r : Result (Unit {0}) × W). text out r.1) rest
            ∙ after
            ∙ ap (λ t. t ++ lines_out v lines) (write_line_lem out v line w one)
            ∙ append_assoc (text out w) (line_out v line) (lines_out v lines),
      )

  -- If `write_spec` succeeds, then it could read every line of the spec file, and what it wrote has
  -- one version line, with the new version, for each version line there, and otherwise, but for the
  -- comment that goes with them, the other lines as they were and in their order.
  write_spec_lem :
      (td v : Str) (w : W)
      → (write_spec S td v w).0 ≡ ok tt
      → (lines : List Str) × (S.open_lines spec_in w ≡ ok (map ok lines))
        × (select is_version (text (spec_out td) (write_spec S td v w).1)
            ≡ map (λ _. version_line v) (select is_version lines))
        × (select is_kept (text (spec_out td) (write_spec S td v w).1) ≡ select is_kept lines)
  unfolding write_spec
  write_spec_lem td v w h =
      let (rs, opened, h1, r1) = continue-rest (S.open_lines spec_in w) _ w h in
      let (_, made, h2, r2) = continue-rest (S.create (spec_out td) w).0 _ _ h1 in
      let (lines, read, after) = write_lines_lem (spec_out td) v rs _ h2 in
      let written : text (spec_out td) (write_spec S td v w).1 ≡ lines_out v lines =
        ap (λ (r : Result (Unit {0}) × W). text (spec_out td) r.1) (r1 ∙ r2)
        ∙ after
        ∙ ap (λ t. t ++ lines_out v lines) (create_empties (spec_out td) w made) in
      (
        lines,
        opened ∙ ap ok read,
        ap (select is_version) written ∙ lines_out_versions v lines,
        ap (select is_kept) written ∙ lines_out_kept v lines,
      )
