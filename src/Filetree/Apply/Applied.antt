-- ===== src/Filetree/Apply/Applied.antt =====
-- What `apply_diff` does to the directory, by its outcome.
use mathlib.Core.Option.{get_or}
use bootupd.Base.{
  Str, ◌≡◌, refl, ap, ◌∙◌, ◌⊎◌, Bool, true, false, Option, none, List, [], ◌++◌, ok, pure, ◌>>=◌,
  if◌then◌else◌, is_some, contains, inl, inr, arith,
}
use bootupd.Base.Ends.{Runs, Ends-cases, Ends-continue, Ends-mono, Ends-ok, Ends_either}
use bootupd.Filetree.{FileMetadata, FileTreeDiff}
use bootupd.Filetree.Disk.{Disk, IsDisk, Top, files}
use bootupd.Filetree.Apply.{
  tmp_name, cleanup_dir, remove_loop, prepare, finish, apply_diff, ApplyUpdateOptions, default_opts,
}
use bootupd.Filetree.Apply.View.{IsLive, View}
use bootupd.Filetree.Apply.Removal.{AreTold, removed_from, Removing, remove_loop-Runs}
use bootupd.Filetree.Apply.Writing.{K, Prep}
use bootupd.Filetree.Apply.Written.{written_to, AreFlat, write_loop-Runs}
use bootupd.Filetree.Apply.Exchange.{AreNew, AreEither, finish-Runs}
use bootupd.Filetree.Apply.Cleaned.{Free, Q, E, cleanup_dir-Runs}

-- The paths that are written, and the directory after the removals.
abbrev pub written : FileTreeDiff → List Str
written diff = diff.changes ++ diff.additions

abbrev pub kept_after : FileTreeDiff → Option ApplyUpdateOptions → View → View
kept_after diff opts A =
    if (get_or opts default_opts).skip_removals then A else removed_from A diff.removals

-- In neither list is a path below another one, and nothing is below a file that is written.
abbrev pub IsTidy : FileTreeDiff → Option ApplyUpdateOptions → View → Type 0
IsTidy diff opts A =
    AreTold (contains diff.removals) diff.removals
    × AreTold (contains (written diff)) (written diff)
    × AreFlat (contains (written diff)) (kept_after diff opts A)

-- The directory that the diff asks for, from the files of the source.
abbrev pub updated :
    (Str → Option FileMetadata) → FileTreeDiff → Option ApplyUpdateOptions → View → View
updated source diff opts A = written_to source (kept_after diff opts A) (written diff)

module _ {W : Type 0} (top : W → Str → Top) (source : Str → Option FileMetadata) (D : Disk W)
    (L : IsDisk top source D) where
  -- The directory after the cleanup, and its files.
  abbrev pub cleaned : W → W
  cleaned w = (cleanup_dir D none (D.list_dir w) w).1

  abbrev pub files_at : W → View
  files_at w x r = files (top w x) r

  -- Each temporary name that is there is listed, as a file or a directory.
  abbrev pub AreListed : W → Type 0
  AreListed w = (x : Str) → Free top source D L (tmp_name x) (D.list_dir w) w

  abbrev pub Holds : View → W → Type 0
  Holds A v = (x : Str) (r : Option Str) → IsLive x → files_at v x r ≡ A x r

  -- But for the names that are removed at once, each name is old or new.
  abbrev pub IsOldOrNew : FileTreeDiff → W → View → W → Type 0
  IsOldOrNew diff w0 A v =
      (x : Str)
      → IsLive x
      → contains diff.removals x ≡ false
      → (top v x ≡ top w0 x) ⊎ ((r : Option Str) → files_at v x r ≡ A x r)

  module _ (diff : FileTreeDiff) (w0 : W) where
    abbrev alone : Str → Bool
    alone = contains diff.removals

    abbrev IsReady : View → List Str → W → Type 0
    IsReady = Prep top source D L (top w0) alone

    abbrev AreKept : W → Type 0
    AreKept = K top source D L (top w0) alone

    removals-Runs :
        (A : View) (skip : Bool)
        → AreTold alone diff.removals
        → IsReady A [] w0
        → Runs
            (IsReady (if skip then A else removed_from A diff.removals))
            AreKept
            (if skip then pure [] else remove_loop D diff.removals [])
            w0
    removals-Runs A true told p = p
    removals-Runs A false told p =
        Ends-mono (Removing top source D L (top w0) alone _) AreKept _ AreKept _ (λ _ r. r.0)
          (λ k. k)
          (remove_loop-Runs top source D L (top w0) alone A diff.removals [] w0 told
            (p, λ x c. absurd (false-ne-true c)))
      where
        false-ne-true : ◌≡◌ {A = Bool} false true → ⊥
        false-ne-true k = cc

    prepare-Runs :
        (opts : Option ApplyUpdateOptions) (A : View)
        → IsTidy diff opts A
        → IsReady A [] w0
        → Runs
            (IsReady (updated source diff opts A))
            AreKept
            (prepare D diff (get_or opts default_opts))
            w0
    unfolding prepare
    prepare-Runs opts A (told, tells, flat) p =
        Ends-continue (IsReady (kept_after diff opts A)) (IsReady (updated source diff opts A))
          AreKept _ _ _ (removals-Runs A (get_or opts default_opts).skip_removals told p)
          λ u p'.
            write_loop-Runs top source D L (top w0) alone (contains (written diff))
              (kept_after diff opts A) (written diff) u _ tells flat p'

    new-Holds :
        (A : View) (u : List Str) (v z : W)
        → IsReady A u v
        → AreNew top source D L u v z
        → Holds A z
    new-Holds A u v z p new x r live = ap (λ (t : Top). files t r) (new x live) ∙ p.1 x r live

    either-IsOldOrNew :
        (A : View) (u : List Str) (v z : W)
        → IsReady A u v
        → AreEither top source D L u v z
        → IsOldOrNew diff w0 A z
    either-IsOldOrNew A u v z p either x live a = elim (either x live) [
      | inl e ↦ inl (e ∙ p.3 x live a)
      | inr (c, e) ↦ inr (λ r. ap (λ (t : Top). files t r) e ∙ rw c at (p.1 x r live))
    ]

  free-Ready :
      (diff : FileTreeDiff) (w0 : W)
      → ((x : Str) → is_some (top w0 (tmp_name x)) ≡ false)
      → IsReady diff w0 (files_at w0) [] w0
  free-Ready diff w0 free = (free, (λ x r live. refl), tt, (λ x live a. refl))

  -- The cleanup frees every temporary name.
  cleaned_free :
      (w : W)
      → AreListed w
      → (cleanup_dir D none (D.list_dir w) w).0 ≡ ok tt
      → (x : Str) → is_some (top (cleaned w) (tmp_name x)) ≡ false
  cleaned_free w listed done x =
      Ends-ok (Q top source D L (tmp_name x)) (E top source D L (tmp_name x)) _ (cleaned w)
        (cleanup_dir-Runs top source D L (tmp_name x) (ground arith) (D.list_dir w) w (listed x))
        done

  -- What follows the cleanup, with both outcomes.
  prepared-Runs :
      (diff : FileTreeDiff) (opts : Option ApplyUpdateOptions) (w0 : W)
      → IsTidy diff opts (files_at w0)
      → ((x : Str) → is_some (top w0 (tmp_name x)) ≡ false)
      → Runs
          (λ _. Holds (updated source diff opts (files_at w0)))
          (IsOldOrNew diff w0 (updated source diff opts (files_at w0)))
          (prepare D diff (get_or opts default_opts) >>= finish D (get_or opts default_opts))
          w0
  prepared-Runs diff opts w0 tidy free =
      let A = updated source diff opts (files_at w0) in
      let Q : Unit {0} → W → Type 0 = λ _. Holds A in
      let E = IsOldOrNew diff w0 A in
      Ends-continue (IsReady diff w0 A) Q E _ _ _
        (Ends-mono (IsReady diff w0 A) (AreKept diff w0) (IsReady diff w0 A) E _ (λ _ p. p)
          (λ kept x live a. inl (kept x live a))
          (prepare-Runs diff w0 opts (files_at w0) tidy (free-Ready diff w0 free)))
        λ u p.
          Ends-mono (λ _. AreNew top source D L u _) (AreEither top source D L u _) Q E _
            (λ _. new-Holds diff w0 A u _ _ p) (either-IsOldOrNew diff w0 A u _ _ p)
            (finish-Runs top source D L (get_or opts default_opts) u _ p.2)

  -- Both outcomes of `apply_diff`.
  apply_diff-Runs :
      (diff : FileTreeDiff) (opts : Option ApplyUpdateOptions) (w : W)
      → AreListed w
      → IsTidy diff opts (files_at (cleaned w))
      → Runs
          (λ _. Holds (updated source diff opts (files_at (cleaned w))))
          (IsOldOrNew diff (cleaned w) (updated source diff opts (files_at (cleaned w))))
          (apply_diff D diff opts)
          w
  unfolding apply_diff
  apply_diff-Runs diff opts w listed tidy =
      let A = updated source diff opts (files_at (cleaned w)) in
      let free = (x : Str) → is_some (top (cleaned w) (tmp_name x)) ≡ false in
      Ends-continue (λ _ _. free) (λ _. Holds A) (IsOldOrNew diff (cleaned w) A) _ _ (cleaned w)
        (Ends-cases (λ _ _. free) (IsOldOrNew diff (cleaned w) A) _ (cleaned w)
          (λ _ done. cleaned_free w listed done) (λ _ _ x live a. inl refl))
        (λ _ free. prepared-Runs diff opts (cleaned w) tidy free)

  module _ (diff : FileTreeDiff) (opts : Option ApplyUpdateOptions) (w : W) (listed : AreListed w)
      (tidy : IsTidy diff opts (files_at (cleaned w))) (x : Str) (live : IsLive x) where
    abbrev target : View
    target = updated source diff opts (files_at (cleaned w))

    -- If `apply_diff` succeeds, every temporary name that was there was listed, and the paths of the
    -- diff are tidy, then a name that is not temporary holds exactly the files that it held after the
    -- cleanup, with the removals of the diff taken away (unless they are skipped) and its changes and
    -- additions taken from the source.
    pub apply_diff_applies :
        (r : Option Str)
        → (apply_diff D diff opts w).0 ≡ ok tt
        → files_at (apply_diff D diff opts w).1 x r
          ≡ updated source diff opts (files_at (cleaned w)) x r
    apply_diff_applies r done =
        Ends-ok (λ _. Holds target) (IsOldOrNew diff (cleaned w) target) _ _
          (apply_diff-Runs diff opts w listed tidy) done x r live

    -- Whatever the outcome of `apply_diff`, an error at any point included, if every temporary name
    -- that was there was listed and the paths of the diff are tidy, then a name that is not temporary
    -- and is not itself a removal holds either what it held after the cleanup or exactly the files
    -- that the diff asks for.
    pub apply_diff_atomic :
        contains diff.removals x ≡ false
        → (top (apply_diff D diff opts w).1 x ≡ top (cleaned w) x)
          ⊎ ((r : Option Str)
              → files_at (apply_diff D diff opts w).1 x r
                ≡ updated source diff opts (files_at (cleaned w)) x r)
    apply_diff_atomic spared =
        Ends_either (λ _. Holds target) (IsOldOrNew diff (cleaned w) target) _
          (λ _ h x live a. inr (λ r. h x r live)) (λ e. e) (apply_diff-Runs diff opts w listed tidy)
          x live spared
