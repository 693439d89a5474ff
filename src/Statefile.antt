-- ===== src/Statefile.antt =====
-- src/backend/statefile.rs: loading and replacing boot/bootupd-state.json. The machine, serde_json
-- and chrono are the parameter `Platform`.
pub mod Roundtrip
use bootupd.Base.{
  ◌≡◌, Str, Bool, not, Option, none, some, Result, ok, err, failed, Error, Exec, pure, bail, ask,
  ◌>>=◌, ◌>>◌, and_then, if◌then◌else◌,
}
use bootupd.Model.{DateTime, SavedState}
use bootupd.Model.Legacy.{NaiveDateTime, SavedState01, upconvert}

-- What the code calls and does not define. A directory stands for the state file below it.
pub record Platform : Type 1 where
  pub Machine : Type 0
  -- the text of a state file
  pub Json : Type 0
  -- serde_json on the two formats, `NaiveDateTime::and_utc`
  pub to_writer : SavedState → Json
  pub from_str : Json → Result SavedState
  pub from_str_01 : Json → Result SavedState01
  pub and_utc : NaiveDateTime → DateTime
  -- `openat::Dir::open`
  pub open_dir : Str → Machine → Result (Unit {0})
  -- `open_file_optional` and `read_to_string`, `Path::exists`, `write_file_with_sync`
  pub read_statefile : Str → Machine → Result (Option Json)
  pub statefile_exists : Str → Machine → Bool
  pub write_statefile : Str → Json → Exec Machine (Unit {0})
  -- the lock file with its exclusive lock, and the handler of SIGTERM
  pub lock_exclusive : Str → Exec Machine (Unit {0})
  pub register_sigterm : Exec Machine (Unit {0})
  -- `statvfs(p)` with the flag RDONLY, and `mount -o remount,rw p` with its success
  pub is_read_only : Str → Machine → Result Bool
  pub remount_rw : Str → Exec Machine Bool
  -- `fail::eval` at a named fail point
  pub fail_eval : Str → Machine → Option Error

-- What a load of the state file sees: whether the root opens, and the text.
abbrev pub look : (P : Platform) → Str → P.Machine → Result (Unit {0}) × Result (Option P.Json)
look P root w = (P.open_dir root w, P.read_statefile root w)

-- A change of the machine that no load sees.
abbrev pub IsQuiet : (P : Platform) → (P.Machine → P.Machine) → Type 0
IsQuiet P f = (root : Str) (w : P.Machine) → look P root (f w) ≡ look P root w

-- The documented behaviour that the proofs rely on.
pub record IsLawful (P : Platform) : Type 0 where
  -- serde reads back what it wrote
  pub from_str-to_writer : (s : SavedState) → P.from_str (P.to_writer s) ≡ ok s
  -- the file is replaced atomically: either the new text is there, or the old one
  pub look-write :
      (root : Str) (t : P.Json) (w : P.Machine)
      → (P.write_statefile root t w).0 ≡ ok tt
      → look P root (P.write_statefile root t w).1 ≡ (P.open_dir root w, ok (some t))
  pub look-write_failed :
      (root : Str) (t : P.Json) (w : P.Machine) (e : Error)
      → (P.write_statefile root t w).0 ≡ err e
      → look P root (P.write_statefile root t w).1 ≡ look P root w
  -- locking, the signal handler and remounting do not touch the file
  pub lock_quiet : (at : Str) → IsQuiet P (λ w. (P.lock_exclusive at w).1)
  pub sigterm_quiet : IsQuiet P (λ w. (P.register_sigterm w).1)
  pub remount_quiet : (at : Str) → IsQuiet P (λ w. (P.remount_rw at w).1)

module _ (P : Platform) where
  -- The two formats are tried in turn, and the error is that of the first.
  unfoldable pub parse_state : P.Json → Result SavedState
  parse_state s = elim (P.from_str s) [
    | ok state ↦ ok state
    | err e ↦ elim (P.from_str_01 s) [ ok old ↦ ok (upconvert P.and_utc old) | err _ ↦ err e ]
  ]

  unfoldable pub parse_file : Option P.Json → Result (Option SavedState)
  unfolding parse_state
  parse_file none = ok none
  parse_file (some s) = and_then (parse_state s) (λ state. ok (some state))

  unfoldable pub load_from_disk : Str → P.Machine → Result (Option SavedState)
  unfolding parse_file
  load_from_disk root w =
      and_then (P.open_dir root w) (λ _. and_then (P.read_statefile root w) parse_file)

  unfoldable pub ensure_not_present : Str → P.Machine → Result (Unit {0})
  ensure_not_present root w =
      if P.statefile_exists root w then err (failed "already exists") else ok tt

  unfoldable pub acquire_write_lock : Str → Exec P.Machine (Unit {0})
  acquire_write_lock sysroot = do P.lock_exclusive sysroot; P.register_sigterm

  unfoldable pub update_state : Str → SavedState → Exec P.Machine (Unit {0})
  update_state sysroot state = P.write_statefile sysroot (P.to_writer state)

  -- `ensure_writable_mount` of src/util.rs
  unfoldable pub ensure_writable_mount : Str → Exec P.Machine (Unit {0})
  ensure_writable_mount p = do
    rdonly ← ask (P.is_read_only p)
    if not rdonly then pure tt else do
      done ← P.remount_rw p
      if done then pure tt else bail (failed "Failed to remount writable")
