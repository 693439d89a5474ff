-- ===== src/Bootupd/Concurrent/Locked.antt =====
-- What a turn of one process may leave for the others.
use bootupd.Base.{
  ◌≡◌, sym, ap, ◌∙◌, true, false, Option, none, some, ok, Error, Exec, inl, inr, Result-cases,
}
use bootupd.Base.Map.{get, insert}
use bootupd.Model.{InstalledContent, SavedState}
use bootupd.Component.{Component, new_from_name}
use bootupd.Statefile.{Platform, IsLawful, look, load_from_disk, update_state}
use bootupd.Bootupd.{slash, or_default}
use bootupd.Bootupd.Steps.{KeepsState, AreComponents, load_of_Sees, load_of_Holds}
use bootupd.Bootupd.Concurrent.{
  Phase, update_starts, update_loaded, update_wanted, update_waits, update_locked, update_cleared,
  update_ran, adopt_starts, adopt_loaded, adopt_writable, adopt_waits, adopt_locked, adopt_ran,
  ending, ended, does, holds,
}

module _ {W : Type 0} where
  -- What the process has put into the state file and goes on from.
  abbrev pub written : Phase W → Option SavedState
  written (update_cleared c state i new) = some (record state { pending = none })
  written (update_ran c state i new n) = some (record state { pending = none })
  written _ = none

module _ (P : Platform) (efi bios : Component P.Machine) where
  abbrev pub Made : Component P.Machine → Type 0
  Made c = new_from_name efi bios c.name ≡ ok c

  -- A `run_update` of the component returned the record.
  abbrev pub Ran : Component P.Machine → InstalledContent → Type 0
  Ran c n = Made c × (k : InstalledContent) × (u : P.Machine) × ((c.run_update k u).0 ≡ ok n)

-- A property of states that every save keeps.
pub record Invariant (P : Platform) (efi bios : Component P.Machine) : Type 1 where
  pub Holds : SavedState → Type 0
  pub clears : (s : SavedState) → Holds s → Holds (record s { pending = none })
  pub updates :
      (s : SavedState) (c : Component P.Machine) (n : InstalledContent)
      → Holds s
      → Ran P efi bios c n
      → Holds (record s { installed = insert s.installed c.name n })
  pub adopts :
      (s : SavedState) (c : Component P.Machine) (i : InstalledContent)
      → Holds s
      → get s.installed c.name ≡ none
      → Holds (record s { installed = insert s.installed c.name i })

module _ (P : Platform) (L : IsLawful P) (efi bios : Component P.Machine)
    (C : AreComponents P efi bios) (I : Invariant P efi bios) where
  abbrev pub Ours : Component P.Machine → SavedState → Type 0
  Ours c s = KeepsState P c × I.Holds s × Made P efi bios c

  abbrev pub Absent : Component P.Machine → SavedState → Type 0
  Absent c s = get s.installed c.name ≡ none

  -- The component and the state at hand.
  abbrev pub Fine : Phase P.Machine → Type 0
  Fine (update_starts n) = Unit
  Fine (update_loaded n c s) = Ours c s
  Fine (update_wanted c s i m) = Ours c s
  Fine (update_waits c s i m) = Ours c s
  Fine (update_locked c s i m) = Ours c s
  Fine (update_cleared c s i m) = Ours c s
  Fine (update_ran c s i m n) = Ours c s × Ran P efi bios c n
  Fine (adopt_starts n) = Unit
  Fine (adopt_loaded n c s) = Ours c s × (c.name ≡ n)
  Fine (adopt_writable c s) = Ours c s × Absent c s
  Fine (adopt_waits c s m) = Ours c s × Absent c s
  Fine (adopt_locked c s m) = Ours c s × Absent c s
  Fine (adopt_ran c s m i) = Ours c s × Absent c s
  Fine (ending c r) = KeepsState P c
  Fine (ended r) = Unit

  -- What the process has written is there.
  abbrev pub Shows : Phase P.Machine → P.Machine → Type 0
  Shows ph w = (s : SavedState) → written ph ≡ some s → load_from_disk P slash w ≡ ok (some s)

  abbrev pub Loads : P.Machine → Type 0
  Loads w = (o : Option SavedState) × (load_from_disk P slash w ≡ ok o) × I.Holds (or_default o)

  -- After a turn: where the process stands, what the others see unless it held the lock, and that the
  -- state file can be read.
  abbrev pub After : Phase P.Machine → P.Machine → Phase P.Machine × P.Machine → Type 0
  After ph w r =
      Fine r.0 × Shows r.0 r.1 × (holds ph ≡ false → look P slash r.1 ≡ look P slash w) × Loads r.1

  pub Loads-same : (w v : P.Machine) → look P slash v ≡ look P slash w → Loads w → Loads v
  Loads-same w v e (o, loaded, g) = (o, load_of_Sees P L w v e ∙ loaded, g)

  Shows-same :
      (ph : Phase P.Machine) (w v : P.Machine)
      → look P slash v ≡ look P slash w
      → Shows ph w
      → Shows ph v
  Shows-same ph w v e shows s h = load_of_Sees P L w v e ∙ shows s h

  -- A statement that does not touch the state file.
  pub quiet-After :
      {A : Type 0} (ph : Phase P.Machine) (m : Exec P.Machine A) (next : A → Phase P.Machine)
      (fails : Error → Phase P.Machine) (w : P.Machine)
      → look P slash (m w).1 ≡ look P slash w
      → Loads w
      → ((a : A) → (m w).0 ≡ ok a → Fine (next a) × Shows (next a) w)
      → ((e : Error) → Fine (fails e) × Shows (fails e) w)
      → After ph w (does m next fails w)
  quiet-After ph m next fails w same loads good bad = elim (Result-cases (m w).0) [
    | inl (a, e) ↦ rw e (
      (good a e).0,
      Shows-same (next a) w (m w).1 same (good a e).1,
      λ _. same,
      Loads-same w (m w).1 same loads,
    )
    | inr (e, f) ↦ rw f (
      (bad e).0,
      Shows-same (fails e) w (m w).1 same (bad e).1,
      λ _. same,
      Loads-same w (m w).1 same loads,
    )
  ]

  -- A save, under the lock.
  pub write-After :
      (ph : Phase P.Machine) (t : SavedState) (next : Phase P.Machine)
      (fails : Error → Phase P.Machine) (w : P.Machine)
      → holds ph ≡ true
      → I.Holds t
      → Loads w
      → Fine next × ((s : SavedState) → written next ≡ some s → t ≡ s)
      → ((e : Error) → Fine (fails e) × Shows (fails e) w)
      → After ph w (does (update_state P slash t) (λ _. next) fails w)
  unfolding update_state
  write-After ph t next fails w held g loads good bad =
      elim (Result-cases (P.write_statefile slash (P.to_writer t) w).0) [
        | inl (_, e) ↦
            let v = (P.write_statefile slash (P.to_writer t) w).1 in
            let there : load_from_disk P slash v ≡ ok (some t) =
              load_of_Holds P L w v t loads.1 (L.look-write slash (P.to_writer t) w e) in
            rw e (
              good.0,
              λ s h. there ∙ ap (λ x. ok (some x)) (good.1 s h),
              λ free. absurd (true-ne-false (sym held ∙ free)),
              (some t, there, g),
            )
        | inr (e, f) ↦
            let same = L.look-write_failed slash (P.to_writer t) w e f in
            rw f (
              (bad e).0,
              Shows-same (fails e) w _ same (bad e).1,
              λ _. same,
              Loads-same w _ same loads,
            )
      ]
    where
      true-ne-false : true ≡ false → ⊥
      true-ne-false h = cc
