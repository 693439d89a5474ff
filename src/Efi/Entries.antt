-- ===== src/Efi/Entries.antt =====
-- The output of efibootmgr, and the entries that it stands for.
use mathlib.Core.List.{append-nil}
use bootupd.Base.{
  Str, ℕ, codes, ◌≡◌, ◌≢◌, refl, ap, sym, starts_with, ◌∙◌, Bool, true, false, Option, none, some,
  List, [], ◌∷◌, ◌++◌, arith, if◌then◌else◌,
}
use bootupd.Base.Lines.{
  lines-nil, lines-append, strip_prefix, trim_end_matches-append, trim, Free-append,
  trim_end_matches-Free, trim-space, starts_with-strip_prefix,
}
use bootupd.Base.Split.{Free, split_once, split_once_found, split_once-none, ++_assoc}
use bootupd.Efi.{
  BootEntry, parse_boot_entries, parse_lines, parse_rest, parse_stripped, before_tab,
  entry_of_parts,
}

-- The lines that efibootmgr prints: an entry with its number, whether it is active, its label and
-- what follows the tab, where there is one; or another line.
pub data Line : Type 0 where
  an_entry : Str → Bool → Str → Option Str → Line
  another : Str → Line

abbrev mark_of : Bool → ℕ
mark_of active = if active then b'*' else b' '

abbrev tail_of : Option Str → Str
tail_of none = []
tail_of (some info) = b'\t' ∷ info

abbrev pub text_of : Line → Str
text_of (an_entry id active label info) =
    codes "Boot" ++ (id ++ (mark_of active ∷ (b' ' ∷ (label ++ tail_of info))))
text_of (another line) = line

unfoldable pub output_of : List Line → Str
output_of [] = []
output_of (l ∷ rest) = text_of l ++ (10 ∷ output_of rest)

-- The name of an entry is its label without the white space at the ends.
abbrev pub entries_of : List Line → List BootEntry
entries_of [] = []
entries_of (an_entry id active label info ∷ rest) =
    record { id = id; name = trim label } ∷ entries_of rest
entries_of (another line ∷ rest) = entries_of rest

-- The line has no end of line in it.
abbrev IsOneLine : Str → Type 0
IsOneLine s = Free 10 s × Free 13 s

-- The number of an entry begins with 0 and has no space, tab or star, and its label has no tab.
-- Another line does not begin with `Boot0`.
abbrev pub IsPrinted : Line → Type 0
IsPrinted (an_entry id active label info) =
    ((rest : Str) × (id ≡ b'0' ∷ rest))
    × (Free b' ' id × Free b'\t' id × Free b'*' id)
    × Free b'\t' label
    × IsOneLine (text_of (an_entry id active label info))
IsPrinted (another line) = (starts_with line (codes "Boot0") ≡ false) × IsOneLine line

abbrev pub ArePrinted : List Line → Type 0
ArePrinted [] = Unit
ArePrinted (l ∷ rest) = IsPrinted l × ArePrinted rest

abbrev parse_text : Str → Option BootEntry
parse_text s = parse_stripped (strip_prefix (codes "Boot") s)

starts_with_zero : (id rest t : Str) → id ≡ b'0' ∷ rest → starts_with (id ++ t) (codes "0") ≡ true
starts_with_zero id rest t e = rw e (ground arith)

star_ne_tab : ◌≢◌ {A = ℕ} b'*' b'\t'
star_ne_tab = ground arith

space_ne_tab : ◌≢◌ {A = ℕ} b' ' b'\t'
space_ne_tab = ground arith

star_ne_space : ◌≢◌ {A = ℕ} b'*' b' '
star_ne_space = ground arith

mark_ne_tab : (active : Bool) → ◌≢◌ {A = ℕ} (mark_of active) b'\t'
mark_ne_tab true = star_ne_tab
mark_ne_tab false = space_ne_tab

-- What is left of the line after its tab goes is the same with a tab and without.
before_tail :
    (parts : Str) (info : Option Str)
    → Free b'\t' parts
    → before_tab (parts ++ tail_of info) (split_once b'\t' (parts ++ tail_of info)) ≡ parts
before_tail parts none h = rw (append-nil parts, split_once-none b'\t' parts h) refl
before_tail parts (some info) h = rw (split_once_found b'\t' parts info h) refl

marked_entry :
    (id : Str) (active : Bool) (label : Str)
    → Free b' ' id
    → Free b'*' id
    → entry_of_parts (split_once b' ' (id ++ (mark_of active ∷ (b' ' ∷ label))))
      ≡ some (record { id = id; name = trim label })
unfolding entry_of_parts
marked_entry id true label space star =
    let first : (id ++ (b'*' ∷ [])) ++ (b' ' ∷ label) ≡ id ++ (b'*' ∷ (b' ' ∷ label)) =
      ++_assoc id (b'*' ∷ []) (b' ' ∷ label) in
    ap (λ s. entry_of_parts (split_once b' ' s)) (sym first)
    ∙ ap entry_of_parts (
        split_once_found b' ' (id ++ (b'*' ∷ [])) label
          (Free-append b' ' id _ space (star_ne_space, tt)))
    ∙ rw (trim_end_matches-append b'*' id star) refl
marked_entry id false label space star =
    ap entry_of_parts (split_once_found b' ' id (b' ' ∷ label) space)
    ∙ rw (trim_end_matches-Free b'*' id star, trim-space label) refl

parse_text-an_entry :
    (id : Str) (active : Bool) (label : Str) (info : Option Str)
    → IsPrinted (an_entry id active label info)
    → parse_text (text_of (an_entry id active label info))
      ≡ some (record { id = id; name = trim label })
unfolding strip_prefix parse_rest
parse_text-an_entry id active label info ((rest, z), (space, tab, star), label_tab, one) =
    let parts = id ++ (mark_of active ∷ (b' ' ∷ label)) in
    let line = id ++ (mark_of active ∷ (b' ' ∷ (label ++ tail_of info))) in
    let whole : parts ++ tail_of info ≡ line =
      ++_assoc id (mark_of active ∷ (b' ' ∷ label)) (tail_of info) in
    let cut : before_tab line (split_once b'\t' line) ≡ parts =
      ap (λ s. before_tab s (split_once b'\t' s)) (sym whole)
      ∙ before_tail parts info
          (Free-append b'\t' id _ tab (mark_ne_tab active, (space_ne_tab, label_tab))) in
    rw (starts_with_zero id rest _ z, cut) (marked_entry id active label space star)

ignored :
    (left : Option Str)
    → ((r : Str) → left ≡ some r → starts_with r (codes "0") ≡ false)
    → parse_stripped left ≡ none
unfolding parse_rest
ignored none h = refl
ignored (some r) h = rw (h r refl) refl

parse_text-another :
    (line : Str) → starts_with line (codes "Boot0") ≡ false → parse_text line ≡ none
parse_text-another line h =
    ignored (strip_prefix (codes "Boot") line)
      (λ r e. sym (starts_with-strip_prefix (codes "Boot") (codes "0") line r e) ∙ h)

-- From the output of efibootmgr, `parse_boot_entries` reads the entries in their order, active or
-- not and with what follows a tab or without: each with its number and with its label less the white
-- space at the ends. It ignores the lines that do not begin with `Boot0`. A number begins with 0 and
-- has no space, tab or star, a label has no tab, and no line has an end of line in it.
pub parse_boot_entries-output_of :
    (ls : List Line) → ArePrinted ls → parse_boot_entries (output_of ls) ≡ entries_of ls
unfolding parse_boot_entries output_of parse_lines
parse_boot_entries-output_of [] p = rw lines-nil refl
parse_boot_entries-output_of (an_entry id active label info ∷ rest) (p, ps) =
    let line = text_of (an_entry id active label info) in
    rw (lines-append line (output_of rest) p.3.0 p.3.1, parse_text-an_entry id active label info p)
      (ap (λ l. record { id = id; name = trim label } ∷ l) (parse_boot_entries-output_of rest ps))
parse_boot_entries-output_of (another line ∷ rest) (p, ps) =
    rw (lines-append line (output_of rest) p.1.0 p.1.1, parse_text-another line p.0)
      (parse_boot_entries-output_of rest ps)
