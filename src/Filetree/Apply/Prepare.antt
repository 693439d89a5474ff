-- ===== src/Filetree/Apply/Prepare.antt =====
-- The first two loops of `apply_diff`: they bring the temporary names to what the diff asks for, and
-- leave the live names, whatever their outcome.
use bootupd.Base.{
  Str, ◌==◌, str_eq, ◌≡◌, refl, sym, ap, ◌∙◌, Bool, true, false, Option, none, some, List, [], ◌∷◌,
  ok, Exec, pure, bail, failed, if◌then◌else◌, is_some, contains, set_insert, contains-set_insert,
  Bool-cases, inl, inr, arith,
}
use bootupd.Base.Ends.{Runs, Ends-cases, Ends-continue}
use bootupd.Filetree.{FileMetadata}
use bootupd.Filetree.Disk.{Disk, IsDisk, Spares, Top, files, without, with_file}
use bootupd.Filetree.Apply.{tmp_name, copy_dir, prepare_removal}
use bootupd.Filetree.Apply.View.{
  IsLive, TracksOff, ShowsOff, live-ne-tmp, View, put, Tracks, Shows, Sets, Adds, Tracks-tmp,
  Shows-tmp,
}

-- The updates are live names, listed once each.
abbrev pub AreUpdates : List Str → Type 0
AreUpdates [] = Unit
AreUpdates (x ∷ xs) = IsLive x × (contains xs x ≡ false) × AreUpdates xs

pub set_insert-AreUpdates :
    (x : Str) (u : List Str) → IsLive x → AreUpdates u → AreUpdates (set_insert x u)
unfolding set_insert
set_insert-AreUpdates x u live h = elim (Bool-cases (contains u x)) [
  | inl e ↦ rw e h
  | inr n ↦ rw n (live, n, h)
]

module _ {W : Type 0} (top : W → Str → Top) (source : Str → Option FileMetadata) (D : Disk W)
    (L : IsDisk top source D)
    -- what the names held before, and the names that a removal takes away at once
    (base : Str → Top) (alone : Str → Bool) where
  -- The live names are as before, but for files that are removed at once.
  abbrev pub Kept : W → Type 0
  Kept w = (x : Str) → IsLive x → alone x ≡ false → top w x ≡ base x

  -- The directory is going to be `A`.
  abbrev pub Prepared : View → List Str → W → Type 0
  Prepared A u w = Tracks u (top w) × Shows u (top w) A × AreUpdates u × Kept w

  pub Kept-tmp :
      (f : Str) (w w' : W)
      → ((x : Str) → (x == tmp_name f) ≡ false → top w' x ≡ top w x)
      → Kept w
      → Kept w'
  Kept-tmp f w w' spares h x live a = spares x (live-ne-tmp x f live) ∙ h x live a

  -- From `w` to `v`, the temporary name of `f` is set to `t`, and nothing else.
  abbrev pub TmpSet : Str → Top → W → W → Type 0
  TmpSet f t w v = Kept v × Sets (tmp_name f) t (top w) (top v)

  -- An action on the temporary name of `f`, after which it holds `t`.
  pub tmp_step :
      {X : Type 0} (f : Str) (m : Exec W X) (t : W → Top) (w : W)
      → Spares top (tmp_name f) (λ v. (m v).1)
      → ((x : X) → (m w).0 ≡ ok x → top (m w).1 (tmp_name f) ≡ t w)
      → Kept w
      → Runs (λ _. TmpSet f (t w) w) Kept m w
  tmp_step f m t w spares holds h =
      let kept = Kept-tmp f w (m w).1 (λ x n. spares x w n) h in
      Ends-cases _ Kept (m w).0 (m w).1 (λ x e. (kept, (λ y n. spares y w n, holds x e)))
        (λ _ _. kept)

  -- What holds once the temporary name of `f` is set.
  pub set-Prepared :
      (A A' : View) (f : Str) (u u' : List Str) (t : Top) (v v' : W)
      → Adds f u u'
      → AreUpdates u'
      → is_some t ≡ true
      → ((q : Option Str) → files t q ≡ A' f q)
      → ((x : Str) (q : Option Str) → (x == f) ≡ false → A' x q ≡ A x q)
      → TracksOff f u (top v)
      → ShowsOff f u (top v) A
      → TmpSet f t v v'
      → Prepared A' u' v'
  set-Prepared A A' f u u' t v v' add unique there at_f apart tracks shows (kept, set) = (
    Tracks-tmp f u u' add t (top v) (top v') set there tracks,
    Shows-tmp f u u' add t (top v) (top v') set A A' at_f apart shows,
    unique,
    kept,
  )

  abbrev pub Copied : Str → W → W → Type 0
  Copied f w v = Kept v × Sets (tmp_name f) (top w f) (top w) (top v) × (is_some (top w f) ≡ true)

  -- The exit status of the copy.
  Copied-if :
      (f : Str) (w v : W) (b : Bool)
      → Kept v × (b ≡ true → Copied f w v)
      → Runs (λ _. Copied f w) Kept (if b then pure tt else bail (failed "cp failed")) v
  Copied-if f w v true h = h.1 refl
  Copied-if f w v false h = h.0

  -- A copy of `f` under a temporary name that is free.
  pub copy_dir-Runs :
      (f : Str) (w : W)
      → is_some (top w (tmp_name f)) ≡ false
      → Kept w
      → Runs (λ _. Copied f w) Kept (copy_dir D f (tmp_name f)) w
  unfolding copy_dir
  copy_dir-Runs f w free h =
      let kept =
        Kept-tmp f w (D.cp_a f (tmp_name f) w).1 (λ x n. L.cp_spares f (tmp_name f) x w n) h in
      Ends-continue (λ b v. Kept v × (b ≡ true → Copied f w v)) (λ _. Copied f w) Kept _ _ _
        (Ends-cases _ Kept (D.cp_a f (tmp_name f) w).0 (D.cp_a f (tmp_name f) w).1
          (λ b e. (
            kept,
            λ t.
                let copy = L.cp_copies f (tmp_name f) w (e ∙ ap ok t) free in
                (kept, (λ x n. L.cp_spares f (tmp_name f) x w n, copy.0), copy.1),
          ))
          (λ _ _. kept))
        (λ b. Copied-if f w _ b)

  -- Names that are updated already, and a new one.
  pub Adds-old : (f : Str) (u : List Str) → contains u f ≡ true → Adds f u u
  Adds-old f u h x = elim (Bool-cases (x == f)) [
    | inl e ↦ rw e (ap (contains u) (str_eq x f e) ∙ h)
    | inr n ↦ rw n
  ]

  pub Adds-new : (f : Str) (u : List Str) → Adds f u (set_insert f u)
  Adds-new f u x = contains-set_insert f x u

  -- What a copy of `f`, which is not updated, shows is what `f` shows.
  pub Copied-Prepared :
      (A : View) (f : Str) (u : List Str) (w v : W)
      → IsLive f
      → contains u f ≡ false
      → Prepared A u w
      → Copied f w v
      → Prepared A (set_insert f u) v
  Copied-Prepared A f u w v live fresh (tracks, shows, unique, _) (kept, set, there) = (
    Tracks-tmp f u (set_insert f u) (Adds-new f u) (top w f) (top w) (top v) set there
        (λ x _. tracks x),
    Shows-tmp f u (set_insert f u) (Adds-new f u) (top w f) (top w) (top v) set A A
        (λ r. rw fresh at (shows f r live)) (λ _ _ _. refl) (λ x r _. shows x r),
    set_insert-AreUpdates f u live unique,
    kept,
  )

  -- The first part of a removal below `f`: afterwards `f` is updated.
  pub prepare_removal-Runs :
      (A : View) (f : Str) (u : List Str) (w : W) (there : Bool)
      → IsLive f
      → is_some (top w (tmp_name f)) ≡ there
      → Prepared A u w
      → Runs
          (λ u' v. Prepared A u' v × (contains u' f ≡ true) × Adds f u u')
          Kept
          (prepare_removal D f u there)
          w
  unfolding prepare_removal
  prepare_removal-Runs A f u w true live e p =
      let old = sym (p.0 f) ∙ e in (p, old, Adds-old f u old)
  prepare_removal-Runs A f u w false live e p =
      Ends-continue (λ _. Copied f w) _ Kept _ _ _ (copy_dir-Runs f w e p.3)
        λ _ c. (
          Copied-Prepared A f u w _ live (sym (p.0 f) ∙ e) p c,
          Adds-new f u f ∙ ground arith,
          Adds-new f u,
        )

-- Removing and writing below a name, by what the name shows.
pub without_shows :
    (A : View) (f r : Str) (t : Top) (q : Option Str)
    → ((q : Option Str) → files t q ≡ A f q)
    → files (without r t) q ≡ put A (f, some r) none f q
without_shows A f r none q h = ground (arith, h q)
without_shows A f r (some g) q h = ground (arith, h q)

pub with_file_shows :
    (A : View) (f r : Str) (m : Option FileMetadata) (t : Top) (q : Option Str)
    → ((q : Option Str) → files t q ≡ A f q)
    → files (with_file (some r) m t) q ≡ put A (f, some r) m f q
with_file_shows A f r m t q h = ground (arith, h q)
