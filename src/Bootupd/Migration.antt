-- ===== src/Bootupd/Migration.antt =====
-- `client_run_migrate_static_grub_config` of src/bootupd.rs, over the directory /boot/grub2.
pub mod Stripped
pub mod Ended
use bootupd.Base.{
  Str, ℕ, codes, ◌==◌, Bool, true, false, not, List, [], ◌∷◌, Result, ok, err, failed, Exec, pure,
  bail, lift, ask, ◌>>=◌, ◌>>◌, and_then, if◌then◌else◌,
}
use bootupd.Base.Lines.{trim_end_matches}
use bootupd.Base.Split.{is_whitespace}
use bootupd.Base.Path.{join}
use bootupd.Component.Tools.{Tools}
use bootupd.Packagesystem.Query.{run}
use bootupd.Statefile.{Platform}
use bootupd.Bootupd.{ensure_writable_boot}
use bootupd.Bootupd.Migrate.{still_skips, starts_skip}

-- What the code does in the directory. What ignores its error only changes the machine.
pub record GrubDir (W : Type 0) : Type 0 where
  -- `File::create` of the mark that the bootloader reads BLS files
  pub create_mark : Str → W → W
  pub read_link : Str → W → Result Str
  pub copy : Str → Str → Exec W (Unit {0})
  -- `File::open`, and the lines that `BufReader::lines` reads
  pub open_lines : Str → W → Result (List (Result Str))
  -- the temporary file behind its `BufWriter`: opened empty, written to and flushed
  pub write_file : Str → Exec W (Unit {0})
  pub write_all : Str → Exec W (Unit {0})
  pub flush : Exec W (Unit {0})
  pub syncfs : W → W
  pub local_exchange : Str → Str → Exec W (Unit {0})
  pub remove_file : Str → W → W

abbrev pub grub_config_dir : Str
grub_config_dir = codes "/boot/grub2"

abbrev pub stripped_config : Str
stripped_config = codes "grub.cfg.stripped"

abbrev pub backup_config : Str
backup_config = codes "/boot/grub2/grub.cfg.backup"

abbrev pub newline : Str
newline = codes "\n"

abbrev pub get_args : List Str
get_args =
    codes "ostree"
    ∷ codes "config"
    ∷ codes "--repo=/sysroot/ostree/repo"
    ∷ codes "get"
    ∷ codes "sysroot.bootloader"
    ∷ []

abbrev pub set_args : List Str
set_args =
    codes "ostree"
    ∷ codes "config"
    ∷ codes "--repo=/sysroot/ostree/repo"
    ∷ codes "set"
    ∷ codes "sysroot.bootloader"
    ∷ codes "none"
    ∷ []

-- Whether the migration was done already, by the outcome of the query. It fails for a key that is
-- not set.
unfoldable pub is_migrated : Bool × Result Str → Result Bool
is_migrated (false, _) = ok false
is_migrated (true, stdout) =
    and_then stdout (λ res. ok (trim_end_matches is_whitespace res == codes "none"))

-- An action whose error is ignored.
abbrev pub ignoring : {W : Type 0} → (W → W) → Exec W (Unit {0})
ignoring f w = (ok tt, f w)

module _ {W : Type 0} (G : GrubDir W) where
  -- The loop over the lines.
  unfoldable pub write_stripped : Bool → List (Result Str) → Exec W (Unit {0})
  write_stripped skip [] = pure tt
  write_stripped skip (r ∷ rest) = do
    line ← lift r
    let skipping = still_skips skip line
    let dropped = write_stripped skipping rest
    if skipping
        then dropped
        else do G.write_all line; G.write_all newline; write_stripped (starts_skip line) rest

  -- The symlink is replaced by the stripped text of the file that it leads to.
  unfoldable pub replace_link : Str → Exec W (Unit {0})
  unfolding write_stripped
  replace_link path = do
    let current_config = join grub_config_dir path
    G.copy current_config backup_config
    lines ← ask (G.open_lines current_config)
    G.write_file stripped_config
    write_stripped false lines
    G.flush
    ignoring G.syncfs
    G.local_exchange stripped_config (codes "grub.cfg")
    ignoring G.syncfs
    ignoring (G.remove_file stripped_config)

  unfoldable pub migrate_link : Result Str → Exec W (Unit {0})
  unfolding replace_link
  migrate_link (err _) = pure tt
  migrate_link (ok path) = replace_link path

module _ (P : Platform) (T : Tools P.Machine) (G : GrubDir P.Machine) where
  unfoldable pub client_run_migrate_static_grub_config : Exec P.Machine (Unit {0})
  unfolding is_migrated migrate_link ensure_writable_boot
  client_run_migrate_static_grub_config = do
    result ← T.output get_args
    migrated ← lift (is_migrated result)
    if migrated then pure tt else do
      ensure_writable_boot P
      ask (T.open_dir grub_config_dir)
      ignoring (G.create_mark (codes "/boot/grub2/.grub2-blscfg-supported"))
      link ← ask (λ w. ok (G.read_link (codes "grub.cfg") w))
      migrate_link G link
      status ← T.status set_args
      if status then pure tt else bail (failed "Failed to set 'sysroot.bootloader'")
