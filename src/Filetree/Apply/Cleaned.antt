-- ===== src/Filetree/Apply/Cleaned.antt =====
-- The cleanup at the start of `apply_diff` frees the temporary names.
use bootupd.Base.{
  Str, ◌==◌, ◌≡◌, refl, sym, ap, ◌∙◌, ◌⊎◌, Bool, true, false, Option, none, some, Result, ok, err,
  Exec, continue, is_some, starts_with, Bool-cases, inl, inr, str_eq, arith,
}
use bootupd.Base.Ends.{Runs, Ends-cases, Ends-continue}
use bootupd.Filetree.{FileMetadata}
use bootupd.Filetree.Scan.{
  Node, file, dir, symlink, other, bad, Entries, end, entry, broken, tmp_prefix,
}
use bootupd.Filetree.Cleanup.{IsRemovable}
use bootupd.Filetree.Disk.{Disk, IsDisk, Top, Place}
use bootupd.Filetree.Apply.{cleanup_dir, below}

-- The listing has the name, as a file or a directory.
abbrev pub Lists : Entries → Str → Type 0
Lists end n = ⊥
Lists (broken e rest) n = Lists rest n
Lists (entry none node rest) n = Lists rest n
Lists (entry (some m) node rest) n = ((n ≡ m) × IsRemovable node) ⊎ Lists rest n

below-first : (p : Place) (name : Str) → (below (some p) name).0 ≡ p.0
below-first (f, none) name = refl
below-first (f, some r) name = refl

module _ {W : Type 0} (top : W → Str → Top) (source : Str → Option FileMetadata) (D : Disk W)
    (L : IsDisk top source D) (n : Str) where
  abbrev Stays : W → W → Type 0
  Stays w v = top v n ≡ top w n

  then-Stays :
      {A B : Type 0} (r : Result A) (k : A → Exec W B) (w v : W)
      → Stays w v
      → ((a : A) (v : W) → Stays v (k a v).1)
      → Stays w (continue r k v).1
  then-Stays (ok a) k w v h g = g a v ∙ h
  then-Stays (err e) k w v h g = h

  -- A walk below another name leaves this one.
  cleanup_below :
      (p : Place) (es : Entries) (w : W)
      → (n == p.0) ≡ false
      → Stays w (cleanup_dir D (some p) es w).1
  unfolding cleanup_dir
  cleanup_below p end w h = refl
  cleanup_below p (broken e rest) w h = refl
  cleanup_below p (entry none node rest) w h = cleanup_below p rest w h
  cleanup_below p (entry (some name) (dir child) rest) w h =
      let q = below (some p) name in
      let apart : (n == q.0) ≡ false = ap (λ y. n == y) (below-first p name) ∙ h in
      elim (Bool-cases (starts_with name tmp_prefix)) [
        | inl e ↦ rw e (
            then-Stays (D.remove_all q w).0 (λ _. cleanup_dir D (some p) rest) w _
              (L.remove_all_spares q n w apart) (λ _ v. cleanup_below p rest v h))
        | inr e ↦ rw e (
            then-Stays (cleanup_dir D (some q) child w).0 (λ _. cleanup_dir D (some p) rest) w _
              (cleanup_below q child w apart) (λ _ v. cleanup_below p rest v h))
      ]
  cleanup_below p (entry (some name) (file r) rest) w h =
      let q = below (some p) name in
      let apart : (n == q.0) ≡ false = ap (λ y. n == y) (below-first p name) ∙ h in
      elim (Bool-cases (starts_with name tmp_prefix)) [
        | inl e ↦ rw e (
            then-Stays (D.remove_file q w).0 (λ _. cleanup_dir D (some p) rest) w _
              (L.remove_file_spares q n w apart) (λ _ v. cleanup_below p rest v h))
        | inr e ↦ rw e (cleanup_below p rest w h)
      ]
  cleanup_below p (entry (some name) symlink rest) w h = cleanup_below p rest w h
  cleanup_below p (entry (some name) other rest) w h = cleanup_below p rest w h
  cleanup_below p (entry (some name) (bad e) rest) w h = refl

  abbrev pub Free : Entries → W → Type 0
  Free es w = (is_some (top w n) ≡ false) ⊎ Lists es n

  abbrev pub E : W → Type 0
  E w = Unit

  abbrev pub Q : Unit {0} → W → Type 0
  Q _ w = is_some (top w n) ≡ false

  not-equal : (m : Str) → (n == m) ≡ false → n ≡ m → ⊥
  not-equal m e same = ground arith

  -- What is left to free once the first entry is dealt with.
  passed :
      (m : Str) (node : Node) (rest : Entries) (w v : W)
      → (n ≡ m → is_some (top v n) ≡ false)
      → ((n == m) ≡ false → Stays w v)
      → Free (entry (some m) node rest) w
      → Free rest v
  passed m node rest w v gone stays h = elim (Bool-cases (n == m)) [
    | inl e ↦ inl (gone (str_eq n m e))
    | inr e ↦ elim h [
      | inl f ↦ inl (ap is_some (stays e) ∙ f)
      | inr l ↦ elim l [ inl (same, _) ↦ absurd (not-equal m e same) | inr k ↦ inr k ]
    ]
  ]

  module _ (tmp : starts_with n tmp_prefix ≡ true) where
    not_tmp : (m : Str) → starts_with m tmp_prefix ≡ false → n ≡ m → ⊥
    not_tmp m e same = true-ne-false (sym tmp ∙ ap (λ x. starts_with x tmp_prefix) same ∙ e)
      where
        true-ne-false : ◌≡◌ {A = Bool} true false → ⊥
        true-ne-false k = cc

    pub cleanup_dir-Runs : (es : Entries) (w : W) → Free es w → Runs Q E (cleanup_dir D none es) w
    unfolding cleanup_dir IsRemovable
    cleanup_dir-Runs end w (inl f) = f
    cleanup_dir-Runs end w (inr b) = absurd b
    cleanup_dir-Runs (broken e rest) w h = tt
    cleanup_dir-Runs (entry none node rest) w (inl f) = cleanup_dir-Runs rest w (inl f)
    cleanup_dir-Runs (entry none node rest) w (inr l) = cleanup_dir-Runs rest w (inr l)
    cleanup_dir-Runs (entry (some m) (dir child) rest) w h =
        elim (Bool-cases (starts_with m tmp_prefix)) [
          | inl e ↦
              let r = D.remove_all (m, none) w in
              rw e (
                Ends-continue (λ _. Free rest) Q E r.0 _ r.1
                  (Ends-cases (λ _. Free rest) E r.0 r.1
                    (λ _ done.
                      passed m (dir child) rest w r.1
                        (λ same.
                          ap (λ x. is_some (top r.1 x)) same
                          ∙ ap is_some (L.remove_all_removes m w done))
                        (L.remove_all_spares (m, none) n w) h)
                    (λ _ _. tt))
                  (λ _. cleanup_dir-Runs rest r.1))
          | inr e ↦
              let r = cleanup_dir D (some (m, none)) child w in
              rw e (
                Ends-continue (λ _. Free rest) Q E r.0 _ r.1
                  (Ends-cases (λ _. Free rest) E r.0 r.1
                    (λ _ _.
                      passed m (dir child) rest w r.1 (λ same. absurd (not_tmp m e same))
                        (cleanup_below (m, none) child w) h)
                    (λ _ _. tt))
                  (λ _. cleanup_dir-Runs rest r.1))
        ]
    cleanup_dir-Runs (entry (some m) (file x) rest) w h =
        elim (Bool-cases (starts_with m tmp_prefix)) [
          | inl e ↦
              let r = D.remove_file (m, none) w in
              rw e (
                Ends-continue (λ _. Free rest) Q E r.0 _ r.1
                  (Ends-cases (λ _. Free rest) E r.0 r.1
                    (λ _ done.
                      passed m (file x) rest w r.1
                        (λ same.
                          ap (λ x. is_some (top r.1 x)) same
                          ∙ ap is_some (L.remove_file_removes m w done))
                        (L.remove_file_spares (m, none) n w) h)
                    (λ _ _. tt))
                  (λ _. cleanup_dir-Runs rest r.1))
          | inr e ↦ rw e (
              cleanup_dir-Runs rest w
                (passed m (file x) rest w w (λ same. absurd (not_tmp m e same)) (λ _. refl) h))
        ]
    cleanup_dir-Runs (entry (some m) symlink rest) w (inl f) = cleanup_dir-Runs rest w (inl f)
    cleanup_dir-Runs (entry (some m) symlink rest) w (inr (inl l)) = absurd l.1
    cleanup_dir-Runs (entry (some m) symlink rest) w (inr (inr k)) = cleanup_dir-Runs rest w (inr k)
    cleanup_dir-Runs (entry (some m) other rest) w (inl f) = cleanup_dir-Runs rest w (inl f)
    cleanup_dir-Runs (entry (some m) other rest) w (inr (inl l)) = absurd l.1
    cleanup_dir-Runs (entry (some m) other rest) w (inr (inr k)) = cleanup_dir-Runs rest w (inr k)
    cleanup_dir-Runs (entry (some m) (bad e) rest) w h = tt
