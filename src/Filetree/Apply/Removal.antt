-- ===== src/Filetree/Apply/Removal.antt =====
-- The loop of `apply_diff` over the removals.
use bootupd.Base.{
  Str, ◌==◌, ◌≡◌, refl, sym, ap, ◌∙◌, Bool, true, false, Option, none, some, List, [], ◌∷◌, pure,
  ◌>>◌, is_some, contains, Bool-cases, inl, inr, arith, str_eq,
}
use bootupd.Base.Ends.{Runs, Ends-cases, Ends-continue, result_step}
use bootupd.Filetree.{FileMetadata}
use bootupd.Filetree.Disk.{Disk, IsDisk, Top, Place, files, without}
use bootupd.Filetree.Apply.{tmp_name, remove_at, remove_loop, get_first_dir, place_of}
use bootupd.Filetree.Apply.View.{IsLive, View, put, Sets, Adds, Tracks-live, Shows-live}
use bootupd.Filetree.Apply.Prepare.{
  Kept, Prepared, TmpSet, tmp_step, set-Prepared, prepare_removal-Runs, Adds-old, without_shows,
}

abbrev pub is_top : Place → Bool
is_top (_, none) = true
is_top (_, some _) = false

-- The paths begin with live names, and `f` tells which of these names are paths themselves.
abbrev pub AreTold : (Str → Bool) → List Str → Type 0
AreTold f [] = Unit
AreTold f (p ∷ ps) = IsLive (place_of p).0 × (f (place_of p).0 ≡ is_top (place_of p)) × AreTold f ps

-- The directory with the paths removed.
unfoldable pub removed_from : View → List Str → View
removed_from A [] = A
removed_from A (p ∷ ps) = removed_from (put A (place_of p) none) ps

module _ {W : Type 0} (top : W → Str → Top) (source : Str → Option FileMetadata) (D : Disk W)
    (L : IsDisk top source D) (base : Str → Top) (alone : Str → Bool) where
  -- Only names are updated that no removal takes away at once.
  abbrev pub AreDirs : List Str → Type 0
  AreDirs u = (x : Str) → contains u x ≡ true → alone x ≡ false

  abbrev pub Removing : View → List Str → W → Type 0
  Removing A u w = Prepared top source D L base alone A u w × AreDirs u

  true-ne-false : ◌≡◌ {A = Bool} true false → ⊥
  true-ne-false h = cc

  Adds-AreDirs :
      (f : Str) (u u' : List Str) → Adds f u u' → alone f ≡ false → AreDirs u → AreDirs u'
  Adds-AreDirs f u u' add n h x e = elim (Bool-cases (x == f)) [
    | inl same_name ↦ ap alone (str_eq x f same_name) ∙ n
    | inr other ↦ h x (sym (add x ∙ rw other) ∙ e)
  ]

  abbrev K : W → Type 0
  K = Kept top source D L base alone

  not-alone : (u : List Str) (f : Str) → AreDirs u → alone f ≡ true → contains u f ≡ false
  not-alone u f dirs a = elim (Bool-cases (contains u f)) [
    | inl c ↦ absurd (true-ne-false (sym a ∙ dirs f c))
    | inr n ↦ n
  ]

  Kept-top :
      (f : Str) (w v : W)
      → alone f ≡ true
      → ((x : Str) → (x == f) ≡ false → top v x ≡ top w x)
      → K w
      → K v
  Kept-top f w v a spares h x live n = elim (Bool-cases (x == f)) [
    | inl e ↦ absurd (true-ne-false (sym a ∙ ap alone (sym (str_eq x f e)) ∙ n))
    | inr other ↦ spares x other ∙ h x live n
  ]

  remove_top-Runs :
      (A : View) (f : Str) (u : List Str) (w : W)
      → IsLive f
      → alone f ≡ true
      → Removing A u w
      → Runs (Removing (put A (f, none) none)) K (remove_at D (f, none) u) w
  unfolding remove_at
  remove_top-Runs A f u w live a ((tracks, shows, unique, kept), dirs) =
      let m = D.remove_file_optional (f, none) w in
      let spares : (x : Str) → (x == f) ≡ false → top m.1 x ≡ top w x =
        λ x n. L.optional_spares (f, none) x w n in
      let kept' = Kept-top f w m.1 a spares kept in
      Ends-continue (λ _ v. Removing (put A (f, none) none) u v) _ K _ _ _
        (Ends-cases _ K m.0 m.1
          (λ _ e.
            let gone = L.optional_removes f w e in
            let set : Sets f none (top w) (top m.1) = (spares, gone.0) in
            let fresh = not-alone u f dirs a in
            (
              (
                Tracks-live f u none (top w) (top m.1) set live tracks,
                Shows-live f u none (top w) (top m.1) set live A (put A (f, none) none) fresh
                    (top_shows A f w live (λ q. rw fresh at (shows f q live)) gone.1)
                    (λ x q n. rw n) shows,
                unique,
                kept',
              ),
              dirs,
            ))
          (λ _ _. kept'))
        (λ _ r. r)
    where
      top_shows :
          (A : View) (f : Str) (w : W)
          → IsLive f
          → ((q : Option Str) → files (top w f) q ≡ A f q)
          → ((q : Str) → files (top w f) (some q) ≡ none)
          → (q : Option Str) → ◌≡◌ {A = Option FileMetadata} none (put A (f, none) none f q)
      top_shows A f w live h gone none = ground arith
      top_shows A f w live h gone (some q) = rw (sym (h (some q)), gone q) (ground arith)

  is_some-without : (r : Str) (t : Top) → is_some (without r t) ≡ is_some t
  is_some-without r none = refl
  is_some-without r (some g) = refl

  -- The removal below a name that is updated.
  remove_copied-Runs :
      (A : View) (f r : Str) (u : List Str) (v : W)
      → IsLive f
      → contains u f ≡ true
      → Removing A u v
      → Runs
          (Removing (put A (f, some r) none))
          K
          (D.remove_file_optional (tmp_name f, some r) >> pure u)
          v
  remove_copied-Runs A f r u v live old (p, dirs) =
      let t = without r (top v (tmp_name f)) in
      let m = D.remove_file_optional (tmp_name f, some r) in
      let add = Adds-old top source D L base alone f u old in
      Ends-continue (λ _. TmpSet top source D L base alone f t v)
        (Removing (put A (f, some r) none)) K (m v).0 _ (m v).1
        (tmp_step top source D L base alone f m (λ _. t) v (L.optional_spares (tmp_name f, some r))
          (λ _ e. L.optional_removes_below (tmp_name f) r v e) p.3)
        λ _ set. (
          set-Prepared top source D L base alone A (put A (f, some r) none) f u u t v _ add p.2
              (is_some-without r _ ∙ p.0 f ∙ old)
              (λ q. without_shows A f r _ q (λ q'. rw old at (p.1 f q' live))) (λ x q n. rw n)
              (λ x _. p.0 x) (λ x q _. p.1 x q) set,
          dirs,
        )

  remove_below-Runs :
      (A : View) (f r : Str) (u : List Str) (w : W)
      → IsLive f
      → alone f ≡ false
      → Removing A u w
      → Runs (Removing (put A (f, some r) none)) K (remove_at D (f, some r) u) w
  unfolding remove_at
  remove_below-Runs A f r u w live a (p, dirs) =
      result_step (Removing (put A (f, some r) none)) K (D.exists (tmp_name f) w) _ w p.3 λ there e.
        Ends-continue
          (λ u' v. Prepared top source D L base alone A u' v × (contains u' f ≡ true) × Adds f u u')
          (Removing (put A (f, some r) none)) K _ _ _
          (prepare_removal-Runs top source D L base alone A f u w there live
            (L.exists_tells (tmp_name f) w there e) p)
          λ u' (p', old, add).
            remove_copied-Runs A f r u' _ live old (p', Adds-AreDirs f u u' add a dirs)

  remove_at-Runs :
      (A : View) (p : Place) (u : List Str) (w : W)
      → IsLive p.0
      → alone p.0 ≡ is_top p
      → Removing A u w
      → Runs (Removing (put A p none)) K (remove_at D p u) w
  remove_at-Runs A (f, none) u w live a h = remove_top-Runs A f u w live a h
  remove_at-Runs A (f, some r) u w live a h = remove_below-Runs A f r u w live a h

  pub remove_loop-Runs :
      (A : View) (paths u : List Str) (w : W)
      → AreTold alone paths
      → Removing A u w
      → Runs (Removing (removed_from A paths)) K (remove_loop D paths u) w
  unfolding remove_loop removed_from
  remove_loop-Runs A [] u w told h = h
  remove_loop-Runs A (p ∷ ps) u w (live, a, told) h =
      result_step _ K (get_first_dir p) _ w h.0.3 λ _ _.
        Ends-continue (Removing (put A (place_of p) none)) _ K _ _ _
          (remove_at-Runs A (place_of p) u w live a h)
          (λ u' h'. remove_loop-Runs (put A (place_of p) none) ps u' _ told h')
