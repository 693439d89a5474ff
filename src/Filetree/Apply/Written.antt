-- ===== src/Filetree/Apply/Written.antt =====
-- The loop of `apply_diff` over the changes and the additions: each path is written.
use bootupd.Base.{
  Str, ◌==◌, ◌≡◌, refl, sym, ap, ◌∙◌, Bool, true, false, Option, none, some, List, [], ◌∷◌, Exec,
  pure, ◌>>◌, is_some, contains, set_insert, Bool-cases, inl, inr, arith, str_eq,
}
use bootupd.Base.Ends.{Runs, Ends-continue, result_step, Ends-mono}
use bootupd.Filetree.{FileMetadata}
use bootupd.Filetree.Disk.{Disk, IsDisk, Top, Place, files, without, with_file, only}
use bootupd.Filetree.Apply.{tmp_name, dir_name, write_at, write_loop, get_first_dir, place_of}
use bootupd.Filetree.Apply.View.{IsLive, View, put}
use bootupd.Filetree.Apply.Prepare.{
  set_insert-AreUpdates, TmpSet, tmp_step, set-Prepared, Adds-old, Adds-new, without_shows,
  with_file_shows,
}
use bootupd.Filetree.Apply.Removal.{is_top, AreTold}
use bootupd.Filetree.Apply.Writing.{K, Prep, Ready, prepare_write-Runs}

-- The directory with the paths written from the source.
unfoldable pub written_to : (Str → Option FileMetadata) → View → List Str → View
written_to source A [] = A
written_to source A (p ∷ ps) = written_to source (put A (place_of p) (source p)) ps

-- Below the names that are written as files there is nothing.
abbrev pub AreFlat : (Str → Bool) → View → Type 0
AreFlat single A = (x q : Str) → single x ≡ true → A x (some q) ≡ none

module _ {W : Type 0} (top : W → Str → Top) (source : Str → Option FileMetadata) (D : Disk W)
    (L : IsDisk top source D) (base : Str → Top) (alone single : Str → Bool) where
  abbrev Keeping : W → Type 0
  Keeping = K top source D L base alone

  abbrev Writing : View → List Str → W → Type 0
  Writing = Prep top source D L base alone

  contains_inserted : (f : Str) (u : List Str) → contains (set_insert f u) f ≡ true
  contains_inserted f u = Adds-new top source D L base alone f u f ∙ ground arith

  -- A step on the temporary name of `f`, which is updated.
  step_at :
      (A A' : View) (f : Str) (u : List Str) (m : Exec W (Unit {0})) (t : Top) (v : W)
      → contains u f ≡ true
      → Writing A u v
      → Runs (λ _. TmpSet top source D L base alone f t v) Keeping m v
      → is_some t ≡ true
      → ((q : Option Str) → files t q ≡ A' f q)
      → ((x : Str) (q : Option Str) → (x == f) ≡ false → A' x q ≡ A x q)
      → Runs (λ _. Writing A' u) Keeping m v
  step_at A A' f u m t v old p run there at_f apart =
      let R : Unit {0} → W → Type 0 = λ _. Writing A' u in
      Ends-mono (λ _. TmpSet top source D L base alone f t v) Keeping R Keeping (m v).0
        (λ _ set.
          set-Prepared top source D L base alone A A' f u u t v _
            (Adds-old top source D L base alone f u old) p.2 there at_f apart (λ x _. p.0 x)
            (λ x q _. p.1 x q) set)
        (λ k. k) run

  top_shows :
      (A : View) (f : Str) (m : Option FileMetadata) (q : Option Str)
      → ((q : Str) → A f (some q) ≡ none)
      → only m q ≡ put A (f, none) m f q
  top_shows A f m none h = ground arith
  top_shows A f m (some q) h = ground (arith, h q)

  write_top-Runs :
      (A : View) (path f : Str) (u : List Str) (w : W)
      → IsLive f
      → ((q : Str) → A f (some q) ≡ none)
      → Writing A u w
      → Runs (Writing (put A (f, none) (source path))) Keeping (write_at D path (f, none) u) w
  unfolding write_at
  write_top-Runs A path f u w live flat p =
      let t : Top = some (only (source path)) in
      let m = D.copy_file_at path (tmp_name f, none) in
      Ends-continue (λ _. TmpSet top source D L base alone f t w)
        (Writing (put A (f, none) (source path))) Keeping (m w).0 _ (m w).1
        (tmp_step top source D L base alone f m (λ _. t) w (L.copy_spares path (tmp_name f, none))
          (λ _ e. L.copy_copies path (tmp_name f, none) w e) p.3)
        λ _ set.
          set-Prepared top source D L base alone A (put A (f, none) (source path)) f u
            (set_insert f u) t w _ (Adds-new top source D L base alone f u)
            (set_insert-AreUpdates f u live p.2) refl (λ q. top_shows A f (source path) q flat)
            (λ x q n. rw n) (λ x _. p.0 x) (λ x q _. p.1 x q) set

  -- The directories above the file, on the way to it.
  ensure-Runs :
      (A : View) (f : Str) (r : Option Str) (u : List Str) (w : W)
      → IsLive f
      → Ready top source D L base alone A f u w
      → Runs (λ _. Writing A (set_insert f u)) Keeping (D.ensure_dir_all (tmp_name f, r)) w
  ensure-Runs A f r u w live (unique, kept, tracks, shows, at_f) =
      let t : Top = some (files (top w (tmp_name f))) in
      let m = D.ensure_dir_all (tmp_name f, r) in
      let R : Unit {0} → W → Type 0 = λ _. Writing A (set_insert f u) in
      Ends-mono (λ _. TmpSet top source D L base alone f t w) Keeping R Keeping (m w).0
        (λ _ set.
          set-Prepared top source D L base alone A A f u (set_insert f u) t w _
            (Adds-new top source D L base alone f u) (set_insert-AreUpdates f u live unique) refl
            at_f (λ _ _ _. refl) tracks shows set)
        (λ k. k)
        (tmp_step top source D L base alone f m (λ _. t) w (L.ensure_spares (tmp_name f, r))
          (λ _ e. L.ensure_makes (tmp_name f, r) w e) kept)

  is_some-without : (r : Str) (t : Top) → is_some (without r t) ≡ is_some t
  is_some-without r none = refl
  is_some-without r (some g) = refl

  remove_old-Runs :
      (A : View) (f r : Str) (u : List Str) (w : W)
      → IsLive f
      → contains u f ≡ true
      → Writing A u w
      → Runs
          (λ _. Writing (put A (f, some r) none) u)
          Keeping
          (D.remove_file_optional (tmp_name f, some r))
          w
  remove_old-Runs A f r u w live old p =
      let t = without r (top w (tmp_name f)) in
      let m = D.remove_file_optional (tmp_name f, some r) in
      step_at A (put A (f, some r) none) f u m t w old p
        (tmp_step top source D L base alone f m (λ _. t) w (L.optional_spares (tmp_name f, some r))
          (λ _ e. L.optional_removes_below (tmp_name f) r w e) p.3)
        (is_some-without r _ ∙ p.0 f ∙ old)
        (λ q. without_shows A f r _ q (λ q'. rw old at (p.1 f q' live))) (λ x q n. rw n)

  copy_new-Runs :
      (A : View) (path f r : Str) (u : List Str) (w : W)
      → IsLive f
      → contains u f ≡ true
      → Writing A u w
      → Runs
          (λ _. Writing (put A (f, some r) (source path)) u)
          Keeping
          (D.copy_file_at path (tmp_name f, some r))
          w
  copy_new-Runs A path f r u w live old p =
      let t = with_file (some r) (source path) (top w (tmp_name f)) in
      let m = D.copy_file_at path (tmp_name f, some r) in
      step_at A (put A (f, some r) (source path)) f u m t w old p
        (tmp_step top source D L base alone f m (λ _. t) w (L.copy_spares path (tmp_name f, some r))
          (λ _ e. L.copy_copies path (tmp_name f, some r) w e) p.3)
        refl
        (λ q.
          with_file_shows A f r (source path) (top w (tmp_name f)) q
            (λ q'. rw old at (p.1 f q' live)))
        (λ x q n. rw n)

  -- The old file is removed and the new one copied.
  replace-Runs :
      (A : View) (path f r : Str) (u : List Str) (w : W)
      → IsLive f
      → contains u f ≡ true
      → Writing A u w
      → Runs
          (Writing (put (put A (f, some r) none) (f, some r) (source path)))
          Keeping
          (D.remove_file_optional (tmp_name f, some r)
            >> (D.copy_file_at path (tmp_name f, some r) >> pure u))
          w
  replace-Runs A path f r u w live old p =
      let B = put A (f, some r) none in
      let C = put B (f, some r) (source path) in
      Ends-continue (λ _. Writing B u) (Writing C) Keeping _ _ _
        (remove_old-Runs A f r u w live old p)
        λ _ p'.
          Ends-continue (λ _. Writing C u) (Writing C) Keeping _ _ _
            (copy_new-Runs B path f r u _ live old p') (λ _ p''. p'')

  put-put :
      (A : View) (p : Place) (m n : Option FileMetadata) (x : Str) (q : Option Str)
      → put (put A p m) p n x q ≡ put A p n x q
  put-put A p m n x q = ground arith

  write_below-Runs :
      (A : View) (path f r : Str) (u : List Str) (w : W)
      → IsLive f
      → Writing A u w
      → Runs (Writing (put A (f, some r) (source path))) Keeping (write_at D path (f, some r) u) w
  unfolding write_at
  write_below-Runs A path f r u w live p =
      let C = put (put A (f, some r) none) (f, some r) (source path) in
      let E = put A (f, some r) (source path) in
      let added = set_insert f u in
      Ends-mono (Writing C) Keeping (Writing E) Keeping (write_at D path (f, some r) u w).0
        (λ u' c. (c.0, λ x q l. c.1 x q l ∙ put-put A (f, some r) none (source path) x q, c.2, c.3))
        (λ k. k)
        (result_step (Writing C) Keeping (D.exists (tmp_name f) w) _ w p.3 λ there e.
          Ends-continue (λ _. Ready top source D L base alone A f u) (Writing C) Keeping _ _ _
            (prepare_write-Runs top source D L base alone A f u w there live
              (L.exists_tells (tmp_name f) w there e) p)
            λ _ ready.
              Ends-continue (λ _. Writing A added) (Writing C) Keeping _ _ _
                (ensure-Runs A f (dir_name r) u _ live ready)
                λ _ p'. replace-Runs A path f r added _ live (contains_inserted f u) p')

  AreFlat-put :
      (A : View) (p : Place) (m : Option FileMetadata)
      → single p.0 ≡ is_top p
      → AreFlat single A
      → AreFlat single (put A p m)
  AreFlat-put A (f, none) m s flat x q h = ground (arith, flat x q h)
  AreFlat-put A (f, some r) m s flat x q h = elim (Bool-cases (x == f)) [
    | inl e ↦ absurd (true-ne-false (sym h ∙ ap single (str_eq x f e) ∙ s))
    | inr n ↦ rw n (flat x q h)
  ]
    where
      true-ne-false : ◌≡◌ {A = Bool} true false → ⊥
      true-ne-false k = cc

  write_at-Runs :
      (A : View) (path : Str) (p : Place) (u : List Str) (w : W)
      → IsLive p.0
      → single p.0 ≡ is_top p
      → AreFlat single A
      → Writing A u w
      → Runs (Writing (put A p (source path))) Keeping (write_at D path p u) w
  write_at-Runs A path (f, none) u w live s flat p =
      write_top-Runs A path f u w live (λ q. flat f q s) p
  write_at-Runs A path (f, some r) u w live s flat p = write_below-Runs A path f r u w live p

  pub write_loop-Runs :
      (A : View) (paths u : List Str) (w : W)
      → AreTold single paths
      → AreFlat single A
      → Writing A u w
      → Runs (Writing (written_to source A paths)) Keeping (write_loop D paths u) w
  unfolding write_loop written_to
  write_loop-Runs A [] u w told flat p = p
  write_loop-Runs A (path ∷ paths) u w (live, s, told) flat p =
      result_step _ Keeping (get_first_dir path) _ w p.3 λ _ _.
        Ends-continue (Writing (put A (place_of path) (source path))) _ Keeping _ _ _
          (write_at-Runs A path (place_of path) u w live s flat p)
          (λ u' p'.
            write_loop-Runs (put A (place_of path) (source path)) paths u' _ told
              (AreFlat-put A (place_of path) (source path) s flat) p')
