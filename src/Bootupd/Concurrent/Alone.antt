-- ===== src/Bootupd/Concurrent/Alone.antt =====
-- The turns of one process while the others have none.
use bootupd.Base.{
  ℕ, zero, suc, ◌≡◌, refl, ap, ◌∙◌, true, false, none, some, List, [], ◌∷◌, if◌then◌else◌, inl, inr,
  Bool-cases, arith,
}
use bootupd.Component.{Component}
use bootupd.Statefile.{Platform}
use bootupd.Bootupd.Concurrent.{Phase, action, World, turn, turns, holds, waits, moved}
use bootupd.Bootupd.Concurrent.Turns.{eqb_refl}
use bootupd.Bootupd.Concurrent.Solo.{solo}

-- A schedule of turns of one process.
abbrev pub repeat : ℕ → ℕ → List ℕ
repeat zero p = []
repeat (suc k) p = p ∷ repeat k p

module _ (P : Platform) (efi bios : Component P.Machine) where
  -- The lock is held by the process exactly while its guard is there.
  abbrev pub HolderOf : ℕ → World P.Machine → Type 0
  HolderOf p s = s.holder ≡ (if holds (s.phase p) then some p else none)

  -- A process that waits holds nothing.
  waits-holds : (ph : Phase P.Machine) → waits ph ≡ true → holds ph ≡ false
  waits-holds ph h = ground arith

  turn_free :
      (p : ℕ) (s : World P.Machine)
      → HolderOf p s
      → turn P efi bios p s ≡ moved p (action P efi bios (s.phase p) s.machine) s
  unfolding turn
  turn_free p s h = elim (Bool-cases (waits (s.phase p))) [
    | inr e ↦ rw e refl
    | inl e ↦ rw (e, h, waits-holds (s.phase p) e) refl
  ]

  moved-HolderOf :
      (p : ℕ) (s : World P.Machine) (next : Phase P.Machine × P.Machine)
      → HolderOf p s
      → HolderOf p (moved p next s)
  moved-HolderOf p s next h = ground (arith, eqb_refl p)

  -- What becomes of one process and of the machine.
  abbrev pub of_one : ℕ → World P.Machine → Phase P.Machine × P.Machine
  of_one p s = (s.phase p, s.machine)

  of_one-moved :
      (p : ℕ) (s : World P.Machine) (next : Phase P.Machine × P.Machine)
      → of_one p (moved p next s) ≡ next
  of_one-moved p s next = rw (eqb_refl p) refl

  pub turns-solo :
      (k p : ℕ) (s : World P.Machine)
      → HolderOf p s
      → of_one p (turns P efi bios (repeat k p) s) ≡ solo P efi bios k (of_one p s).0 (of_one p s).1
  unfolding turns solo
  turns-solo zero p s h = refl
  turns-solo (suc k) p s h =
      let next = action P efi bios (s.phase p) s.machine in
      ap (λ t. of_one p (turns P efi bios (repeat k p) t)) (turn_free p s h)
      ∙ turns-solo k p (moved p next s) (moved-HolderOf p s next h)
      ∙ ap (λ (x : Phase P.Machine × P.Machine). solo P efi bios k x.0 x.1) (of_one-moved p s next)
