-- ===== src/Efi.antt =====
-- src/efi.rs: the boot entries of the firmware.
pub mod Entries
pub mod Host
pub mod Mount
pub mod Firmware
pub mod Vendor
pub mod Operations
pub mod Updated
pub mod Updates
use bootupd.Base.{
  ℕ, Str, codes, ◌==◌, ◌++◌, eqb, Bool, true, false, Option, none, some, List, [], ◌∷◌, Result, ok,
  err, failed, Exec, pure, bail, lift, ask, ◌>>=◌, ◌>>◌, and_then, if◌then◌else◌, not, starts_with,
  ok_or,
}
use bootupd.Base.Lines.{lines, strip_prefix, trim_end_matches, trim}
use bootupd.Base.Split.{split_once}
use bootupd.Base.Path.{join}
use bootupd.Component.Tools.{Tools}
use bootupd.Blockdev.{inspect_filesystem}
use bootupd.Packagesystem.Query.{run}

pub record BootEntry : Type 0 where
  pub id : Str
  pub name : Str

abbrev pub is_star : ℕ → Bool
is_star c = eqb c b'*'

-- What comes before the first tab.
abbrev before_tab : Str → Option (Str × Str) → Str
before_tab line none = line
before_tab line (some (parts, _)) = parts

unfoldable pub entry_of_parts : Option (Str × Str) → Option BootEntry
entry_of_parts none = none
entry_of_parts (some (id, name)) =
    some (record { id = trim_end_matches is_star id; name = trim name })

-- A line after its `Boot`.
unfoldable pub parse_rest : Str → Option BootEntry
unfolding entry_of_parts
parse_rest line =
    if starts_with line (codes "0")
    then entry_of_parts (split_once b' ' (before_tab line (split_once b'\t' line)))
    else none

abbrev pub parse_stripped : Option Str → Option BootEntry
parse_stripped none = none
parse_stripped (some line) = parse_rest line

abbrev push_entry : Option BootEntry → List BootEntry → List BootEntry
push_entry none entries = entries
push_entry (some e) entries = e ∷ entries

-- The loop over the lines.
unfoldable pub parse_lines : List Str → List BootEntry
parse_lines [] = []
parse_lines (line ∷ rest) =
    push_entry (parse_stripped (strip_prefix (codes "Boot") line)) (parse_lines rest)

unfoldable pub parse_boot_entries : Str → List BootEntry
unfolding parse_lines
parse_boot_entries output = parse_lines (lines output)

abbrev pub efibootmgr : Str
efibootmgr = codes "efibootmgr"

abbrev pub shim : Str
shim = codes "shimx64.efi"

-- The text after the last slash, `rsplit_once('/')`.
unfoldable pub after_last_slash : Str → Option Str
after_last_slash [] = none
after_last_slash (c ∷ s) = elim (after_last_slash s) [
  | some t ↦ some t
  | none ↦ if eqb c b'/' then some s else none
]

-- `to_lowercase` is that of `str`. `read_to_string` reads a file, and `exists_at` is `exists` of a
-- directory that is held open.
module _ {W : Type 0} (T : Tools W) (to_lowercase : Str → Str)
    (read_to_string : Str → W → Result Str) (exists_at : Str → Str → W → Result Bool) where
  unfoldable pub delete_entries : Str → List BootEntry → Exec W (Unit {0})
  unfolding run
  delete_entries target [] = pure tt
  delete_entries target (entry ∷ rest) =
      if to_lowercase entry.name == target
      then run T (efibootmgr ∷ codes "-b" ∷ entry.id ∷ codes "-B" ∷ [])
        >> delete_entries target rest
      else delete_entries target rest

  unfoldable pub clear_efi_target : Str → Exec W (Unit {0})
  unfolding delete_entries
  clear_efi_target target = do
    output ← T.output (efibootmgr ∷ [])
    if not output.0
        then bail (failed "Failed to invoke efibootmgr")
        else do text ← lift output.1; delete_entries (to_lowercase target) (parse_boot_entries text)

  abbrev create_args : Str → Str → Str → Str → List Str
  create_args device partition_number loader target =
      efibootmgr
      ∷ codes "--create"
      ∷ codes "--disk"
      ∷ device
      ∷ codes "--part"
      ∷ partition_number
      ∷ codes "--loader"
      ∷ loader
      ∷ codes "--label"
      ∷ target
      ∷ []

  -- The source bails if the shim does exist below the directory.
  unfoldable pub create_efi_boot_entry : Str → Str → Str → Str → Exec W (Unit {0})
  create_efi_boot_entry device espdir vendordir target = do
    fsinfo ← ask (inspect_filesystem T espdir)
    devname ← lift (ok_or (after_last_slash fsinfo.source) (failed "Failed to parse source"))
    partition_number ←
        ask (read_to_string (codes "/sys/class/block/" ++ (devname ++ codes "/partition")))
    found ← ask (exists_at espdir (vendordir ++ (codes "/" ++ shim)))
    if found then bail (failed "Failed to find shimx64.efi") else do
      st ← T.status (
          create_args device partition_number
            (codes "\\EFI\\" ++ (vendordir ++ (codes "\\" ++ shim))) target)
      if st then pure tt else bail (failed "Failed to invoke efibootmgr")
