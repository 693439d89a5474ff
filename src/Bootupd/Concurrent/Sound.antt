-- ===== src/Bootupd/Concurrent/Sound.antt =====
-- The state file in the interleavings of updates and adoptions.
use bootupd.Base.{
  Str, ℕ, str_eq, ap, ◌==◌, ◌≡◌, refl, sym, ◌∙◌, true, false, ◌&&◌, Option, none, some, List, [],
  ◌∷◌, ok, is_some, Bool-cases, eqb, arith, inl, inr,
}
use bootupd.Base.Map.{get, insert, get-insert, get-nil}
use bootupd.Model.{InstalledContent, SavedState}
use bootupd.Component.{Component}
use bootupd.Statefile.{Platform, IsLawful, load_from_disk}
use bootupd.Bootupd.{slash, or_default}
use bootupd.Bootupd.Steps.{AreComponents, load_of_Sees}
use bootupd.Bootupd.Concurrent.{Phase, holds, waits, action, World, turn, turns, moved}
use bootupd.Bootupd.Concurrent.Locked.{Invariant, Ran, written, Fine, Shows, Loads, After}
use bootupd.Bootupd.Concurrent.Acted.{action-After}
use bootupd.Bootupd.Lasting.{IsKept}
use bootupd.Component.{new_from_name}
use bootupd.Bootupd.Concurrent.Turns.{
  written-holds, is_fresh, fresh-holds, IsExclusive, other_free, moved-IsExclusive,
}

none-ne-some : {j : InstalledContent} → none ≡ some j → ⊥
none-ne-some h = cc

module _ (P : Platform) (L : IsLawful P) (efi bios : Component P.Machine)
    (C : AreComponents P efi bios) where
  module _ (I : Invariant P efi bios) where
    -- Every process has its component and a good state, what a process has written is there until it
    -- writes again, and the state file can be read.
    record IsSound (s : World P.Machine) : Type 0 where
      pub exclusive : IsExclusive P efi bios s
      pub fine : (p : ℕ) → Fine P L efi bios C I (s.phase p)
      pub shows : (p : ℕ) → Shows P L efi bios C I (s.phase p) s.machine
      pub loads : Loads P L efi bios C I s.machine

    module _ (p : ℕ) (s : World P.Machine) (S : IsSound s)
        (goes_on : (waits (s.phase p) && is_some s.holder) ≡ false) where
      abbrev next : Phase P.Machine × P.Machine
      next = action P efi bios (s.phase p) s.machine

      after : After P L efi bios C I (s.phase p) s.machine next
      after = action-After P L efi bios C I (s.phase p) s.machine (S.fine p) (S.shows p) S.loads

      moved-Fine : (q : ℕ) → Fine P L efi bios C I ((moved p next s).phase q)
      moved-Fine q = elim (Bool-cases (eqb q p)) [
        | inl e ↦ rw e after.0
        | inr ne ↦ rw ne (S.fine q)
      ]

      moved-Shows : (q : ℕ) → Shows P L efi bios C I ((moved p next s).phase q) next.1
      moved-Shows q t h = elim (Bool-cases (eqb q p)) [
        | inl e ↦ after.1 t (rw e at h)
        | inr ne ↦
            let h' : written (s.phase q) ≡ some t = rw ne at h in
            let free =
              other_free P efi bios p s S.exclusive goes_on q ne (written-holds (s.phase q) t h') in
            load_of_Sees P L s.machine next.1 (after.2 free) ∙ S.shows q t h'
      ]

    turn-IsSound : (p : ℕ) (s : World P.Machine) → IsSound s → IsSound (turn P efi bios p s)
    unfolding turn
    turn-IsSound p s S = elim (Bool-cases (waits (s.phase p) && is_some s.holder)) [
      | inl e ↦ rw e S
      | inr e ↦ rw e (record {
        exclusive = moved-IsExclusive P efi bios p s S.exclusive e;
        fine = moved-Fine p s S e;
        shows = moved-Shows p s S e;
        loads = (after p s S e).3;
      })
    ]

    turns-IsSound : (l : List ℕ) (s : World P.Machine) → IsSound s → IsSound (turns P efi bios l s)
    unfolding turns
    turns-IsSound [] s S = S
    turns-IsSound (p ∷ l) s S = turns-IsSound l (turn P efi bios p s) (turn-IsSound p s S)

    fresh-Fine : (ph : Phase P.Machine) → is_fresh ph ≡ true → Fine P L efi bios C I ph
    fresh-Fine ph h = ground arith

    fresh-IsSound :
        (s : World P.Machine) (o : Option SavedState)
        → ((p : ℕ) → is_fresh (s.phase p) ≡ true)
        → load_from_disk P slash s.machine ≡ ok o
        → I.Holds (or_default o)
        → IsSound s
    fresh-IsSound s o fresh loaded g = record {
      exclusive = λ p h. absurd (true-ne-false (sym h ∙ none_holds p));
      fine = λ p. fresh-Fine (s.phase p) (fresh p);
      shows = λ p t h. absurd (true-ne-false (sym (written-holds (s.phase p) t h) ∙ none_holds p));
      loads = (o, loaded, g);
    }
      where
        true-ne-false : true ≡ false → ⊥
        true-ne-false h = cc

        none_holds : (p : ℕ) → holds (s.phase p) ≡ false
        none_holds p = fresh-holds (s.phase p) (fresh p)

  abbrev anything : Invariant P efi bios
  anything = record {
    Holds = λ _. Unit;
    clears = λ _ g. g;
    updates = λ _ _ _ g _. g;
    adopts = λ _ _ _ g _. g;
  }

  module _ (l : List ℕ) (s : World P.Machine) (fresh : (p : ℕ) → is_fresh (s.phase p) ≡ true) where
    -- Where every process is before its first statement or after its last and the state file can be
    -- read, and components do not touch that file, what an update has saved before its
    -- `run_update` is what the state file holds until that update saves again, whatever turns the other
    -- processes take in between.
    pub turns-written :
        (o : Option SavedState) (p : ℕ) (t : SavedState)
        → load_from_disk P slash s.machine ≡ ok o
        → written ((turns P efi bios l s).phase p) ≡ some t
        → load_from_disk P slash (turns P efi bios l s).machine ≡ ok (some t)
    turns-written o p t loaded h =
        (turns-IsSound anything l s (fresh-IsSound anything s o fresh loaded tt)).shows p t h

    module _ (before : SavedState) (name : Str) (i : InstalledContent) where
      -- The component is installed, as before or as a `run_update` of it returned it.
      Has : SavedState → Type 0
      Has t =
          (j : InstalledContent) × (get t.installed name ≡ some j)
          × IsKept P L efi bios C name before i j

      clear-Has : (t : SavedState) → Has t → Has (record t { pending = none })
      unfolding Has
      clear-Has t h = h

      update-Has :
          (t : SavedState) (c : Component P.Machine) (n : InstalledContent)
          → Has t
          → Ran P efi bios c n
          → Has (record t { installed = insert t.installed c.name n })
      unfolding Has
      update-Has t c n (j, found, kept) (made, k, u, ran) = elim (Bool-cases (name == c.name)) [
        | inl e ↦ (
          n,
          get-insert t.installed c.name name n ∙ rw e refl,
          inr (c, k, u, ap (new_from_name efi bios) (str_eq name c.name e) ∙ made, ran),
        )
        | inr e ↦ (j, get-insert t.installed c.name name n ∙ rw e found, kept)
      ]

      adopt-Has :
          (t : SavedState) (c : Component P.Machine) (n : InstalledContent)
          → Has t
          → get t.installed c.name ≡ none
          → Has (record t { installed = insert t.installed c.name n })
      unfolding Has
      adopt-Has t c n (j, found, kept) absent = elim (Bool-cases (name == c.name)) [
        | inl e ↦
            absurd (
              none-ne-some (sym absent ∙ ap (get t.installed) (sym (str_eq name c.name e)) ∙ found))
        | inr e ↦ (j, get-insert t.installed c.name name n ∙ rw e found, kept)
      ]

      abbrev stays : Invariant P efi bios
      stays = record { Holds = Has; clears = clear-Has; updates = update-Has; adopts = adopt-Has }

      of_loads :
          (w : P.Machine) (o : Option SavedState)
          → load_from_disk P slash w ≡ ok o
          → Has (or_default o)
          → (t : SavedState) × (j : InstalledContent) × (load_from_disk P slash w ≡ ok (some t))
            × (get t.installed name ≡ some j)
            × IsKept P L efi bios C name before i j
      unfolding Has
      of_loads w none _ (j, there, _) = absurd (none-ne-some (sym (get-nil name) ∙ there))
      of_loads w (some t) e (j, there, kept) = (t, j, e, there, kept)

      first-Has : get before.installed name ≡ some i → Has before
      unfolding Has
      first-Has found = (i, found, inl refl)

      -- Where every process is before its first statement or after its last, and components do not
      -- touch the state file: a component that is installed is installed after any turns of updates and
      -- adoptions, none of which has to have ended, recorded as at the start or as a `run_update` of it
      -- returned it, and the state file can be read.
      pub turns-installed :
          load_from_disk P slash s.machine ≡ ok (some before)
          → get before.installed name ≡ some i
          → (t : SavedState) × (j : InstalledContent) × (load_from_disk P slash
                (turns P efi bios l s).machine
              ≡ ok (some t))
            × (get t.installed name ≡ some j)
            × IsKept P L efi bios C name before i j
      turns-installed loaded found =
          let S =
            turns-IsSound stays l s
              (fresh-IsSound stays s (some before) fresh loaded (first-Has found)) in
          of_loads (turns P efi bios l s).machine S.loads.0 S.loads.1 S.loads.2
