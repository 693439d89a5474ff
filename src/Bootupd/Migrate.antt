-- ===== src/Bootupd/Migrate.antt =====
-- The loop of `client_run_migrate_static_grub_config` (src/bootupd.rs) that strips the entries
-- generated by ostree from grub.cfg, over the lines of the file.
use bootupd.Base.{
  Str, ℕ, codes, ◌==◌, ◌≡◌, ◌≢◌, refl, ap, ◌∙◌, Bool, true, false, List, [], ◌∷◌, ◌++◌, arith,
  if◌then◌else◌,
}

abbrev pub begin_mark : Str
begin_mark = codes "### BEGIN /etc/grub.d/15_ostree ###"

abbrev pub end_mark : Str
end_mark = codes "### END /etc/grub.d/15_ostree ###"

-- The flag after the test of the end mark, and after that of the begin mark.
unfoldable pub still_skips : Bool → Str → Bool
still_skips skip line = if line == end_mark then false else skip

unfoldable pub starts_skip : Str → Bool
starts_skip line = line == begin_mark

unfoldable pub strip_loop : Bool → List Str → List Str
unfolding still_skips starts_skip
strip_loop skip [] = []
strip_loop skip (line ∷ lines) =
    let skipping = still_skips skip line in
    let dropped = strip_loop skipping lines in
    let written = line ∷ strip_loop (starts_skip line) lines in
    if skipping then dropped else written

unfoldable pub strip_ostree : List Str → List Str
unfolding strip_loop
strip_ostree lines = strip_loop false lines

-- No line of the list is the text `t`.
abbrev pub Lacks : Str → List Str → Type 0
Lacks t [] = Unit
Lacks t (line ∷ lines) = (line ≢ t) × Lacks t lines

abbrev fifth : Str → ℕ
fifth (a ∷ b ∷ c ∷ d ∷ e ∷ rest) = e
fifth _ = 0

begin-ne-end : end_mark ≢ begin_mark
begin-ne-end h = omega (arith, ap fifth h)

-- What the tests do on lines that are no marks.
still_skips_ne : (skip : Bool) (line : Str) → line ≢ end_mark → still_skips skip line ≡ skip
unfolding still_skips
still_skips_ne skip line n = ground arith

still_skips_end : (skip : Bool) → still_skips skip end_mark ≡ false
unfolding still_skips
still_skips_end skip = ground arith

still_skips-false : (line : Str) → still_skips false line ≡ false
unfolding still_skips
still_skips-false line = ground arith

starts_skip_ne : (line : Str) → line ≢ begin_mark → starts_skip line ≡ false
unfolding starts_skip
starts_skip_ne line n = ground arith

starts_skip_begin : starts_skip begin_mark ≡ true
unfolding starts_skip
starts_skip_begin = ground arith

strip_loop-skipped :
    (mid rest : List Str)
    → Lacks end_mark mid
    → strip_loop true (mid ++ end_mark ∷ rest) ≡ end_mark ∷ strip_loop false rest
unfolding strip_loop
strip_loop-skipped [] rest h = rw (still_skips_end true, starts_skip_ne end_mark begin-ne-end)
strip_loop-skipped (line ∷ mid) rest (n, h) =
    rw (still_skips_ne true line n) (strip_loop-skipped mid rest h)

strip_loop-unclosed : (mid : List Str) → Lacks end_mark mid → strip_loop true mid ≡ []
unfolding strip_loop
strip_loop-unclosed [] h = refl
strip_loop-unclosed (line ∷ mid) (n, h) =
    rw (still_skips_ne true line n) (strip_loop-unclosed mid h)

strip_loop-outside :
    (pre rest : List Str)
    → Lacks begin_mark pre
    → strip_loop false (pre ++ rest) ≡ pre ++ strip_loop false rest
unfolding strip_loop
strip_loop-outside [] rest h = refl
strip_loop-outside (line ∷ pre) rest (n, h) =
    rw (still_skips-false line, starts_skip_ne line n)
      (ap (λ l. line ∷ l) (strip_loop-outside pre rest h))

strip_loop-begin :
    (lines : List Str) → strip_loop false (begin_mark ∷ lines) ≡ begin_mark ∷ strip_loop true lines
unfolding strip_loop
strip_loop-begin lines = rw (still_skips-false begin_mark, starts_skip_begin)

-- Of a file with a block of ostree the marks stay and the lines between them go, the lines before
-- the block stay, and the rest is stripped in turn. Where the block is not closed, all goes that
-- follows its begin mark.
pub strip_ostree_block :
    (pre mid rest : List Str)
    → Lacks begin_mark pre
    → Lacks end_mark mid
    → (strip_ostree (pre ++ (begin_mark ∷ (mid ++ end_mark ∷ rest)))
        ≡ pre ++ (begin_mark ∷ end_mark ∷ strip_ostree rest))
      × (strip_ostree (pre ++ (begin_mark ∷ mid)) ≡ pre ++ (begin_mark ∷ []))
unfolding strip_ostree
strip_ostree_block pre mid rest hp hm = (
  strip_loop-outside pre _ hp
      ∙ ap (λ l. pre ++ l)
          (strip_loop-begin _ ∙ ap (λ l. begin_mark ∷ l) (strip_loop-skipped mid rest hm)),
  strip_loop-outside pre _ hp
      ∙ ap (λ l. pre ++ l)
          (strip_loop-begin mid ∙ ap (λ l. begin_mark ∷ l) (strip_loop-unclosed mid hm)),
)
