-- ===== src/Efi/Host.antt =====
-- What src/efi.rs calls and does not define, beside what every component calls.
use bootupd.Base.{Str, ℕ, Bool, Option, List, Result, Exec}
use bootupd.Filetree.{Found}
use bootupd.Filetree.Scan.{Entries}
use bootupd.Filetree.Disk.{Disk}

-- An entry that walkdir finds: whether it is a file, its name, and its path, where they are UTF-8.
pub record DirEntry : Type 0 where
  pub is_file : Bool
  pub file_name : Option Str
  pub path : Option Str

-- A directory that the source holds open is given by its path.
pub record Host (W : Type 0) : Type 0 where
  -- the cell of `struct Efi` with the path that it has mounted
  pub mountpoint : W → Option Str
  pub set_mountpoint : Option Str → W → W
  -- the type of the file system at a path, by `statfs` and by `fstatfs`
  pub statfs : Str → W → Result ℕ
  pub fstatfs : Str → W → Result ℕ
  -- `sub_dir_optional`: whether it is there
  pub sub_dir_optional : Str → Str → W → Result Bool
  -- the listing of a directory at all depths, `metadata_optional` below one, walkdir
  pub list_dir : Str → W → Entries
  pub metadata_optional : Str → W → Str → Result Found
  pub walk : Str → W → List DirEntry
  -- the actions of `apply_diff` from one directory to another
  pub disk : Str → Str → Disk W
  pub remove_dir_all : Str → Exec W (Unit {0})
  -- a command that is run in a directory, and whether it succeeded
  pub status_in : Str → List Str → Exec W Bool
  -- `fs::read`, `read_to_string`, and `exists` of a directory that is held open
  pub read : Str → W → Result (List ℕ)
  pub read_to_string : Str → W → Result Str
  pub exists_at : Str → Str → W → Result Bool
  -- the name in /etc/os-release, and what `Regex` leaves without ` *release.*`
  pub os_release_name : W → Result Str
  pub without_release : Str → Str
  -- `str::to_lowercase`, and `U16CString::from_vec` with `to_string_lossy`
  pub to_lowercase : Str → Str
  pub from_vec : List ℕ → Result Str
