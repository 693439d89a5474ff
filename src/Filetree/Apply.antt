-- ===== src/Filetree/Apply.antt =====
-- `apply_diff` of src/filetree.rs with its helpers, as actions on a disk. A path in a diff is names
-- joined by single slashes, as `new_from_dir` makes it. The `HashMap` of updates is the set of its
-- keys, since each value is the temporary name of its key.
pub mod View
pub mod Prepare
pub mod Removal
pub mod Writing
pub mod Written
pub mod Exchange
pub mod Cleaned
pub mod Applied
pub mod Migrated
use mathlib.Core.Option.{get_or}
use bootupd.Base.{
  Str, codes, ◌++◌, ◌≡◌, Bool, false, not, Option, none, some, List, [], ◌∷◌, Result, ok, err,
  failed, Error, Exec, pure, bail, lift, ask, ◌>>=◌, ◌>>◌, if◌then◌else◌, starts_with, is_empty,
  set_insert, true, eqb,
}
use bootupd.Base.Split.{split_once}
use bootupd.Filetree.{FileMetadata, FileTreeDiff}
use bootupd.Filetree.Scan.{
  Node, file, dir, symlink, other, bad, Entries, end, entry, broken, tmp_prefix,
}
use bootupd.Filetree.Disk.{Disk, Place}

pub record ApplyUpdateOptions : Type 0 where
  pub skip_removals : Bool
  pub skip_sync : Bool

abbrev pub default_opts : ApplyUpdateOptions
default_opts = record { skip_removals = false; skip_sync = false }

abbrev split_place : Str → Option (Str × Str) → Place
split_place path none = (path, none)
split_place path (some (first, rest)) = (first, some rest)

-- The first name of a path and what `strip_prefix` leaves of it.
unfoldable pub place_of : Str → Place
place_of path = split_place path (split_once b'/' path)

abbrev pub tmp_name : Str → Str
tmp_name first = tmp_prefix ++ first

unfoldable pub get_first_dir : Str → Result (Str × Str)
get_first_dir path =
    if is_empty path
    then err (failed "Invalid path")
    else ok ((place_of path).0, tmp_name (place_of path).0)

-- A name in a directory.
abbrev pub below : Option Place → Str → Place
below none name = (name, none)
below (some (first, none)) name = (first, some name)
below (some (first, some rest)) name = (first, some (rest ++ (codes "/" ++ name)))

-- The text before the last slash, `parent`.
unfoldable pub dir_name : Str → Option Str
dir_name [] = none
dir_name (c ∷ s) = elim (dir_name s) [
  | none ↦ if eqb c b'/' then some [] else none
  | some d ↦ some (c ∷ d)
]

module _ {W : Type 0} (D : Disk W) where
  -- The walk of `cleanup_tmp` below a place, over the listing.
  unfoldable pub cleanup_dir : Option Place → Entries → Exec W (Unit {0})
  cleanup_dir at end = pure tt
  cleanup_dir at (broken e rest) = bail e
  cleanup_dir at (entry none node rest) = cleanup_dir at rest
  cleanup_dir at (entry (some name) (dir child) rest) =
      if starts_with name tmp_prefix
      then D.remove_all (below at name) >> cleanup_dir at rest
      else cleanup_dir (some (below at name)) child >> cleanup_dir at rest
  cleanup_dir at (entry (some name) (file r) rest) =
      if starts_with name tmp_prefix
      then D.remove_file (below at name) >> cleanup_dir at rest
      else cleanup_dir at rest
  cleanup_dir at (entry (some name) symlink rest) = cleanup_dir at rest
  cleanup_dir at (entry (some name) other rest) = cleanup_dir at rest
  cleanup_dir at (entry (some name) (bad e) rest) = bail e

  unfoldable pub syncfs : Exec W (Unit {0})
  syncfs = do ask D.reopen; D.sync

  unfoldable pub copy_dir : Str → Str → Exec W (Unit {0})
  copy_dir src dst = do done ← D.cp_a src dst; if done then pure tt else bail (failed "cp failed")

  -- The copy of a directory that a removal below it needs.
  unfoldable pub prepare_removal : Str → List Str → Bool → Exec W (List Str)
  prepare_removal first updates true = pure updates
  prepare_removal first updates false = do
    copy_dir first (tmp_name first)
    pure (set_insert first updates)

  -- One round of the loop over the removals.
  unfoldable pub remove_at : Place → List Str → Exec W (List Str)
  remove_at (first, none) updates = do D.remove_file_optional (first, none); pure updates
  remove_at (first, some rest) updates = do
    there ← ask (D.exists (tmp_name first))
    updates' ← prepare_removal first updates there
    D.remove_file_optional (tmp_name first, some rest)
    pure updates'

  unfoldable pub remove_loop : List Str → List Str → Exec W (List Str)
  remove_loop [] updates = pure updates
  remove_loop (path ∷ paths) updates = do
    lift (get_first_dir path)
    updates' ← remove_at (place_of path) updates
    remove_loop paths updates'

  -- The copy of a directory that a file is written to, where there is one and it has no copy yet.
  unfoldable pub copy_if : Str → Bool → Exec W (Unit {0})
  copy_if first false = pure tt
  copy_if first true = copy_dir first (tmp_name first)

  unfoldable pub prepare_write : Str → Bool → Exec W (Unit {0})
  prepare_write first true = pure tt
  prepare_write first false = do here ← ask (D.exists first); copy_if first here

  -- One round of the loop over the changes and the additions.
  unfoldable pub write_at : Str → Place → List Str → Exec W (List Str)
  write_at path (first, none) updates = do
    D.copy_file_at path (tmp_name first, none)
    pure (set_insert first updates)
  write_at path (first, some rest) updates = do
    there ← ask (D.exists (tmp_name first))
    prepare_write first there
    D.ensure_dir_all (tmp_name first, dir_name rest)
    D.remove_file_optional (tmp_name first, some rest)
    D.copy_file_at path (tmp_name first, some rest)
    pure (set_insert first updates)

  unfoldable pub write_loop : List Str → List Str → Exec W (List Str)
  write_loop [] updates = pure updates
  write_loop (path ∷ paths) updates = do
    lift (get_first_dir path)
    updates' ← write_at path (place_of path) updates
    write_loop paths updates'

  unfoldable pub put_in_place : Str → Bool → Exec W (Unit {0})
  put_in_place dst true = D.local_exchange (tmp_name dst) dst
  put_in_place dst false = D.local_rename (tmp_name dst) dst

  fail_outcome : Option Error → Result (Unit {0})
  fail_outcome none = ok tt
  fail_outcome (some e) = err e

  -- `try_fail_point!("update::exchange")`
  unfoldable pub exchange_fail_point : Exec W (Unit {0})
  unfolding fail_outcome
  exchange_fail_point = ask (λ w. fail_outcome (D.fail_eval (codes "update::exchange") w))

  unfoldable pub exchange_loop : List Str → Exec W (Unit {0})
  exchange_loop [] = pure tt
  exchange_loop (dst ∷ rest) = do
    here ← ask (D.exists dst)
    put_in_place dst here
    exchange_fail_point
    exchange_loop rest

  unfoldable pub clean_loop : List Str → Exec W (Unit {0})
  clean_loop [] = pure tt
  clean_loop (first ∷ rest) = do D.remove_all (tmp_name first, none); clean_loop rest

  -- The first two loops, on a directory without temporary names: all that comes before the exchange.
  unfoldable pub prepare : FileTreeDiff → ApplyUpdateOptions → Exec W (List Str)
  prepare diff opts = do
    updates ← if opts.skip_removals then pure [] else remove_loop diff.removals []
    write_loop (diff.changes ++ diff.additions) updates

  -- The exchange and what follows it.
  unfoldable pub finish : ApplyUpdateOptions → List Str → Exec W (Unit {0})
  finish opts updates = do
    exchange_loop updates
    if opts.skip_sync then pure tt else syncfs
    clean_loop updates
    if opts.skip_sync then pure tt else syncfs

  unfoldable pub apply_diff : FileTreeDiff → Option ApplyUpdateOptions → Exec W (Unit {0})
  unfolding prepare finish
  apply_diff diff opts w =
      (cleanup_dir none (D.list_dir w)
          >> (prepare diff (get_or opts default_opts) >>= finish (get_or opts default_opts)))
        w
