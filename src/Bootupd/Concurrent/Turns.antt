-- ===== src/Bootupd/Concurrent/Turns.antt =====
-- Who holds the lock, in the interleavings of updates and adoptions.
use bootupd.Base.{
  ℕ, ◌≡◌, refl, sym, ap, ◌∙◌, inl, inr, Bool, true, false, ◌&&◌, Option, none, some, List, Exec,
  ask, Result-cases, [], ◌∷◌, Error, is_some, Bool-cases, eqb, arith,
}
use bootupd.Base.Map.{get}
use bootupd.Model.{ContentMetadata, InstalledContent, SavedState}
use bootupd.Component.{Component}
use bootupd.Statefile.{Platform}
use bootupd.Bootupd.{wanted, ensure_writable_boot}
use bootupd.Bootupd.Concurrent.{
  Phase, update_starts, update_loaded, update_wanted, update_waits, update_locked, update_cleared,
  update_ran, adopt_starts, adopt_loaded, adopt_writable, adopt_waits, adopt_locked, adopt_ran,
  ending, ended, does, action, load_component, open_component, find_update, offered, holds, waits,
  update_due_at, World, turn, turns, moved,
}
use bootupd.Bootupd.Concurrent.Locked.{written}

module _ {W : Type 0} where
  pub written-holds : (ph : Phase W) (s : SavedState) → written ph ≡ some s → holds ph ≡ true
  written-holds ph s h = ground arith

  -- The process has no guard after the statement.
  IsFree : Phase W × W → Type 0
  IsFree r = holds r.0 ≡ false

  free : (ph : Phase W) (w : W) → holds ph ≡ false → IsFree (ph, w)
  unfolding IsFree
  free ph w h = h

  does-IsFree :
      {A : Type 0} (m : Exec W A) (next : A → Phase W) (fails : Error → Phase W) (w : W)
      → ((a : A) → holds (next a) ≡ false)
      → ((e : Error) → holds (fails e) ≡ false)
      → IsFree (does m next fails w)
  unfolding IsFree
  does-IsFree m next fails w good bad = elim (Result-cases (m w).0) [
    | inl (a, e) ↦ rw e (good a)
    | inr (e, f) ↦ rw f (bad e)
  ]

  due-holds :
      (c : Component W) (s : SavedState) (i : InstalledContent) (o : Option ContentMetadata)
      → holds (update_due_at c s i o) ≡ false
  due-holds c s i none = refl
  due-holds c s i (some m) = refl

module _ (P : Platform) (efi bios : Component P.Machine) where
  -- The guard is taken at one statement alone.
  action-IsFree :
      (ph : Phase P.Machine) (w : P.Machine)
      → holds ph ≡ false
      → waits ph ≡ false
      → IsFree (action P efi bios ph w)
  unfolding action
  action-IsFree (update_starts n) w h g =
      does-IsFree (ask (load_component P efi bios n)) _ _ w (λ _. refl) (λ _. refl)
  action-IsFree (update_loaded n c s) w h g =
      does-IsFree (ask (find_update P efi bios n c s)) _ _ w
        (λ r. due-holds c s r.0 (wanted r.0.meta r.1)) (λ _. refl)
  action-IsFree (update_wanted c s i m) w h g =
      does-IsFree (ensure_writable_boot P) _ _ w (λ _. refl) (λ _. refl)
  action-IsFree (update_waits c s i m) w h g = cc
  action-IsFree (update_locked c s i m) w h g = cc
  action-IsFree (update_cleared c s i m) w h g = cc
  action-IsFree (update_ran c s i m n) w h g = cc
  action-IsFree (adopt_starts n) w h g =
      does-IsFree (ask (open_component P efi bios n)) _ _ w (λ _. refl) (λ _. refl)
  action-IsFree (adopt_loaded n c s) w h g = elim (Bool-cases (is_some (get s.installed n))) [
    | inl e ↦ rw e (free _ w refl)
    | inr e ↦ rw e (does-IsFree (ensure_writable_boot P) _ _ w (λ _. refl) (λ _. refl))
  ]
  action-IsFree (adopt_writable c s) w h g =
      does-IsFree (ask (offered P efi bios c)) _ _ w (λ _. refl) (λ _. refl)
  action-IsFree (adopt_waits c s m) w h g = cc
  action-IsFree (adopt_locked c s m) w h g = cc
  action-IsFree (adopt_ran c s m i) w h g = cc
  action-IsFree (ending c r) w h g = free _ _ refl
  action-IsFree (ended r) w h g = free _ w refl

  action-holds :
      (ph : Phase P.Machine) (w : P.Machine)
      → holds ph ≡ false
      → waits ph ≡ false
      → holds (action P efi bios ph w).0 ≡ false
  unfolding IsFree
  action-holds = action-IsFree

pub eqb_refl : (a : ℕ) → eqb a a ≡ true
eqb_refl a = ground arith

pub eqb_eq : (a b : ℕ) → eqb a b ≡ true → a ≡ b
eqb_eq a b h = ground arith

-- Before its first statement, or after its last.
abbrev pub is_fresh : {W : Type 0} → Phase W → Bool
is_fresh (update_starts _) = true
is_fresh (adopt_starts _) = true
is_fresh (ended _) = true
is_fresh _ = false

pub fresh-holds : {W : Type 0} (ph : Phase W) → is_fresh ph ≡ true → holds ph ≡ false
fresh-holds ph h = ground arith

module _ (P : Platform) (efi bios : Component P.Machine) where
  -- A process that has its guard is the holder of the lock.
  abbrev pub IsExclusive : World P.Machine → Type 0
  IsExclusive s = (p : ℕ) → holds (s.phase p) ≡ true → s.holder ≡ some p

  module _ (p : ℕ) (s : World P.Machine) (S : IsExclusive s)
      (goes_on : (waits (s.phase p) && is_some s.holder) ≡ false) where
    abbrev pub next : Phase P.Machine × P.Machine
    next = action P efi bios (s.phase p) s.machine

    pub other_free :
        (q : ℕ) → eqb q p ≡ false → holds (s.phase q) ≡ true → holds (s.phase p) ≡ false
    other_free q ne h = ground (arith, S q h, S p)

    other_waits : (q : ℕ) → holds (s.phase q) ≡ true → waits (s.phase p) ≡ false
    other_waits q h = ground (arith, S q h)

    pub moved-IsExclusive : IsExclusive (moved p next s)
    moved-IsExclusive q h = elim (Bool-cases (eqb q p)) [
      | inl e ↦ rw (rw e at h) (ap some (sym (eqb_eq q p e)))
      | inr ne ↦
          let held : holds (s.phase q) ≡ true = rw ne at h in
          let free = other_free q ne held in
          rw (action-holds P efi bios (s.phase p) s.machine free (other_waits q held), free)
            (S q held)
    ]

  pub turn-IsExclusive :
      (p : ℕ) (s : World P.Machine) → IsExclusive s → IsExclusive (turn P efi bios p s)
  unfolding turn
  turn-IsExclusive p s S = elim (Bool-cases (waits (s.phase p) && is_some s.holder)) [
    | inl e ↦ rw e S
    | inr e ↦ rw e (moved-IsExclusive p s S e)
  ]

  turns-IsExclusive :
      (l : List ℕ) (s : World P.Machine) → IsExclusive s → IsExclusive (turns P efi bios l s)
  unfolding turns
  turns-IsExclusive [] s S = S
  turns-IsExclusive (p ∷ l) s S = turns-IsExclusive l (turn P efi bios p s) (turn-IsExclusive p s S)

  -- Where every process is before its first statement or after its last, no two processes come to
  -- have their guards at once, in whatever order they take their turns: two that have one are the same.
  pub turns-one_guard :
      (l : List ℕ) (s : World P.Machine)
      → ((p : ℕ) → is_fresh (s.phase p) ≡ true)
      → (p q : ℕ) → holds ((turns P efi bios l s).phase p) ≡ true
      → holds ((turns P efi bios l s).phase q) ≡ true
      → p ≡ q
  turns-one_guard l s fresh p q hp hq =
      let S =
        turns-IsExclusive l s
          (λ r h. absurd (true-ne-false (sym h ∙ fresh-holds (s.phase r) (fresh r)))) in
      some_inj (sym (S p hp) ∙ S q hq)
    where
      true-ne-false : true ≡ false → ⊥
      true-ne-false h = cc

      some_inj : some p ≡ some q → p ≡ q
      some_inj h = cc
