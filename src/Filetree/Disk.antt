-- ===== src/Filetree/Disk.antt =====
-- A directory on a disk as openat, openat_ext, cp and the kernel offer it to src/filetree.rs.
use bootupd.Base.{
  Str, ◌==◌, ◌≡◌, Bool, true, false, Option, none, some, Result, ok, err, Error, Exec,
  if◌then◌else◌, is_some,
}
use bootupd.Filetree.{FileMetadata}
use bootupd.Filetree.Scan.{Entries}

-- A path below a directory: its first name, and the rest if there is one.
abbrev pub Place : Type 0
Place = Str × Option Str

-- The directory that an action works on is fixed. `copy_file_at` copies a path of the source
-- directory.
pub record Disk (W : Type 0) : Type 0 where
  -- the listing, at all depths, as `list_dir` and `get_file_type` show it
  pub list_dir : W → Entries
  pub exists : Str → W → Result Bool
  -- `cp -a` in the directory, and whether it succeeded
  pub cp_a : Str → Str → Exec W Bool
  pub remove_file : Place → Exec W (Unit {0})
  pub remove_file_optional : Place → Exec W (Unit {0})
  pub remove_all : Place → Exec W (Unit {0})
  pub ensure_dir_all : Place → Exec W (Unit {0})
  pub copy_file_at : Str → Place → Exec W (Unit {0})
  pub local_exchange : Str → Str → Exec W (Unit {0})
  pub local_rename : Str → Str → Exec W (Unit {0})
  -- `openat(d, ".")` and `syncfs` of rustix
  pub reopen : W → Result (Unit {0})
  pub sync : Exec W (Unit {0})
  -- `fail::eval` at a named fail point
  pub fail_eval : Str → W → Option Error

-- What a name of the directory holds: nothing, or files, each by the rest of its path. A file that
-- stands at the name itself has no rest.
abbrev pub Top : Type 0
Top = Option (Option Str → Option FileMetadata)

abbrev pub files : Top → Option Str → Option FileMetadata
files none r = none
files (some f) r = f r

abbrev pub same : Option Str → Option Str → Bool
same none none = true
same (some a) (some b) = a == b
same _ _ = false

abbrev pub without : Str → Top → Top
without r none = none
without r (some f) = some (λ q. if same q (some r) then none else f q)

abbrev pub only : Option FileMetadata → Option Str → Option FileMetadata
only m none = m
only m (some _) = none

abbrev pub with_file : Option Str → Option FileMetadata → Top → Top
with_file none m t = some (only m)
with_file (some r) m t = some (λ q. if same q (some r) then m else files t q)

-- The documented behaviour, by what each name holds: an action changes the name that it is given
-- alone, whatever its outcome; an exchange or a rename is atomic.
module _ {W : Type 0} (top : W → Str → Top) where
  abbrev pub Spares : Str → (W → W) → Type 0
  Spares y f = (x : Str) (w : W) → (x == y) ≡ false → top (f w) x ≡ top w x

  pub record IsDisk (source : Str → Option FileMetadata) (D : Disk W) : Type 0 where
    pub exists_tells : (x : Str) (w : W) (b : Bool) → D.exists x w ≡ ok b → is_some (top w x) ≡ b
    pub cp_spares : (x y : Str) → Spares y (λ w. (D.cp_a x y w).1)
    pub cp_copies :
        (x y : Str) (w : W)
        → (D.cp_a x y w).0 ≡ ok true
        → is_some (top w y) ≡ false
        → (top (D.cp_a x y w).1 y ≡ top w x) × (is_some (top w x) ≡ true)
    pub remove_file_spares : (p : Place) → Spares p.0 (λ w. (D.remove_file p w).1)
    pub remove_file_removes :
        (y : Str) (w : W)
        → (D.remove_file (y, none) w).0 ≡ ok tt
        → top (D.remove_file (y, none) w).1 y ≡ none
    pub remove_all_spares : (p : Place) → Spares p.0 (λ w. (D.remove_all p w).1)
    pub remove_all_removes :
        (y : Str) (w : W)
        → (D.remove_all (y, none) w).0 ≡ ok tt
        → top (D.remove_all (y, none) w).1 y ≡ none
    pub optional_spares : (p : Place) → Spares p.0 (λ w. (D.remove_file_optional p w).1)
    -- what is removed at a name is a file, with nothing below it
    pub optional_removes :
        (y : Str) (w : W)
        → (D.remove_file_optional (y, none) w).0 ≡ ok tt
        → (top (D.remove_file_optional (y, none) w).1 y ≡ none)
          × ((r : Str) → files (top w y) (some r) ≡ none)
    pub optional_removes_below :
        (y r : Str) (w : W)
        → (D.remove_file_optional (y, some r) w).0 ≡ ok tt
        → top (D.remove_file_optional (y, some r) w).1 y ≡ without r (top w y)
    pub ensure_spares : (p : Place) → Spares p.0 (λ w. (D.ensure_dir_all p w).1)
    pub ensure_makes :
        (p : Place) (w : W)
        → (D.ensure_dir_all p w).0 ≡ ok tt
        → top (D.ensure_dir_all p w).1 p.0 ≡ some (files (top w p.0))
    pub copy_spares : (s : Str) (p : Place) → Spares p.0 (λ w. (D.copy_file_at s p w).1)
    pub copy_copies :
        (s : Str) (p : Place) (w : W)
        → (D.copy_file_at s p w).0 ≡ ok tt
        → top (D.copy_file_at s p w).1 p.0 ≡ with_file p.1 (source s) (top w p.0)
    pub exchange_swaps :
        (a b : Str) (w : W)
        → (a == b) ≡ false
        → (D.local_exchange a b w).0 ≡ ok tt
        → (top (D.local_exchange a b w).1 a ≡ top w b)
          × (top (D.local_exchange a b w).1 b ≡ top w a)
          × ((x : Str)
              → (x == a) ≡ false
              → (x == b) ≡ false
              → top (D.local_exchange a b w).1 x ≡ top w x)
    pub exchange_failed :
        (a b : Str) (w : W) (e : Error)
        → (D.local_exchange a b w).0 ≡ err e
        → top (D.local_exchange a b w).1 ≡ top w
    pub rename_moves :
        (a b : Str) (w : W)
        → (a == b) ≡ false
        → (D.local_rename a b w).0 ≡ ok tt
        → (top (D.local_rename a b w).1 b ≡ top w a)
          × ((x : Str)
              → (x == a) ≡ false
              → (x == b) ≡ false
              → top (D.local_rename a b w).1 x ≡ top w x)
    pub rename_failed :
        (a b : Str) (w : W) (e : Error)
        → (D.local_rename a b w).0 ≡ err e
        → top (D.local_rename a b w).1 ≡ top w
    pub sync_keeps : (w : W) → top (D.sync w).1 ≡ top w
