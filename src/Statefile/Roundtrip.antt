-- ===== src/Statefile/Roundtrip.antt =====
-- What is saved is loaded, and a state file of the first format is loaded with what it held.
use bootupd.Base.{Str, ◌≡◌, ap, Option, none, some, Result, ok, err, Error, arith, and_then}
use bootupd.Base.Map.{get, IsSorted}
use bootupd.Model.{SavedState}
use bootupd.Model.Legacy.{SavedState01, upconvert, upconvert_lem, converted}
use bootupd.Statefile.{Platform, IsLawful, parse_file, load_from_disk, update_state}

module _ (P : Platform) (root : Str) (w : P.Machine) where
  -- After a save that succeeds, in a root that opens, a load gives what was saved.
  load-update_state :
      IsLawful P
      → (s : SavedState) → P.open_dir root w ≡ ok tt
      → (update_state P root s w).0 ≡ ok tt
      → load_from_disk P root (update_state P root s w).1 ≡ ok (some s)
  unfolding load_from_disk update_state
  load-update_state L s opens h =
      ground (arith, L.look-write root (P.to_writer s) w h, L.from_str-to_writer s, opens)

  -- After a save that fails, a load gives what it gave before.
  load-update_state_failed :
      IsLawful P
      → (s : SavedState) (e : Error) → (update_state P root s w).0 ≡ err e
      → load_from_disk P root (update_state P root s w).1 ≡ load_from_disk P root w
  unfolding load_from_disk update_state
  load-update_state_failed L s e h =
      ap
        (λ (x : Result (Unit {0}) × Result (Option P.Json)).
          and_then x.0 (λ _. and_then x.1 (parse_file P)))
        (L.look-write_failed root (P.to_writer s) w e h)

  -- In a root that opens, a state file that only the first format reads, with its components in
  -- order, is loaded: each component has the version, the files and the date (in UTC) that it had
  -- there and no adopted version, no other is installed, and nothing is pending.
  pub load_old_format :
      (t : P.Json) (e : Error) (old : SavedState01) (name : Str)
      → P.open_dir root w ≡ ok tt
      → P.read_statefile root w ≡ ok (some t)
      → P.from_str t ≡ err e
      → P.from_str_01 t ≡ ok old
      → IsSorted old.installed
      → (s : SavedState) × (load_from_disk P root w ≡ ok (some s))
        × (get s.installed name ≡ converted P.and_utc (get old.installed name) none)
        × (s.pending ≡ none)
        × (s.static_configs ≡ none)
  unfolding load_from_disk
  load_old_format t e old name opens found new reads sorted =
      let kept = upconvert_lem P.and_utc old name sorted in
      (upconvert P.and_utc old, ground (arith, opens, found, new, reads), kept.0, kept.1, kept.2)
