-- ===== src/Component/Tools.antt =====
-- What the components call and do not define: the file system, the commands that they run, findmnt,
-- the partition tables, serde_json and chrono.
use bootupd.Base.{Str, Bool, Option, List, Result, Exec}
use bootupd.Model.{DateTime, ContentMetadata}

-- A row of a partition table.
pub record Partition : Type 0 where
  pub node : Str
  pub parttype : Str

-- A file system as findmnt reports it.
pub record Filesystem : Type 0 where
  pub source : Str
  pub fstype : Str
  pub options : Str
  pub uuid : Option Str

-- Directories that the source holds open are given by their paths.
pub record Tools (W : Type 0) : Type 1 where
  pub Text : Type 0
  -- `Path::exists`, `Path::try_exists`, `metadata()?.created()?`
  pub exists : Str → W → Bool
  pub try_exists : Str → W → Result Bool
  pub created : Str → W → Result DateTime
  -- `openat::Dir::open`, and `sub_dir`, `open_file_optional` and `write_file_with` at a path below
  -- the directory
  pub open_dir : Str → W → Result (Unit {0})
  pub sub_dir : Str → Str → W → Result (Unit {0})
  pub open_file_optional : Str → Str → W → Result (Option Text)
  pub write_file_with : Str → Str → Text → Exec W (Unit {0})
  -- serde_json on `ContentMetadata`
  pub from_reader : Text → Result ContentMetadata
  pub to_writer : ContentMetadata → Text
  -- a version file that is opened: what serde_json reads as its version, and its creation time
  pub open_aleph : Str → W → Result (Result Str × Result DateTime)
  -- the names in a directory, or nothing where it does not exist
  pub read_dir : Str → W → Result (Option (List (Result Str)))
  -- the path of a directory that is held open, `read_link("/proc/self/fd/…")`
  pub fd_path : Str → W → Result Str
  -- a command that is run to its end: whether it succeeded, and its output as UTF-8
  pub status : List Str → Exec W Bool
  pub output : List Str → Exec W (Bool × Result Str)
  -- `run_and_parse_json` of findmnt in a directory, and the functions of bootc_blockdev
  pub findmnt : Str → W → Result (List Filesystem)
  pub find_parent_devices : Str → W → Result (List Str)
  pub partitions_of : Str → W → Result (List Partition)
  -- chrono's `DateTime::parse_from_str(_, "%s")` in UTC
  pub parse_from_str : Str → Option DateTime
