-- ===== src/Bootupd/Through/Known.antt =====
-- The components that `status` holds: none of them touches the state file.
use bootupd.Base.{
  Str, ◌==◌, ◌≡◌, some, [], ◌∷◌, ok, ok_or, continue-ok, ok_inj, Bool-cases, inl, inr, str_lt,
}
use mathlib.Core.Path.{subst}
use bootupd.Base.Map.{BTreeMap, get, insert, remove}
use bootupd.Model.{InstalledContent, SavedState, ComponentStatus}
use bootupd.Component.{Component}
use bootupd.Statefile.{Platform}
use bootupd.Bootupd.Status.{installed_loop}
use bootupd.Bootupd.Steps.{KeepsState}

module _ (P : Platform) where
  abbrev pub AllKeep : BTreeMap (Component P.Machine) → Type 0
  AllKeep [] = Unit
  AllKeep ((_, c) ∷ m) = KeepsState P c × AllKeep m

  pub insert-AllKeep :
      (m : BTreeMap (Component P.Machine)) (k : Str) (c : Component P.Machine)
      → KeepsState P c
      → AllKeep m
      → AllKeep (insert m k c)
  unfolding insert
  insert-AllKeep [] k c q h = (q, tt)
  insert-AllKeep ((j, d) ∷ m) k c q h = elim (Bool-cases (k == j)) [
    | inl e ↦ rw e (q, h.1)
    | inr n ↦ elim (Bool-cases (str_lt k j)) [
      | inl l ↦ rw (n, l) (q, h)
      | inr g ↦ rw (n, g) (h.0, insert-AllKeep m k c q h.1)
    ]
  ]

  pub remove-AllKeep :
      (m : BTreeMap (Component P.Machine)) (k : Str) → AllKeep m → AllKeep (remove m k)
  unfolding remove
  remove-AllKeep [] k h = tt
  remove-AllKeep ((j, d) ∷ m) k h = elim (Bool-cases (k == j)) [
    | inl e ↦ rw e (h.1)
    | inr n ↦ rw n (h.0, remove-AllKeep m k h.1)
  ]

  pub get-AllKeep :
      (m : BTreeMap (Component P.Machine)) (k : Str) (c : Component P.Machine)
      → get m k ≡ some c
      → AllKeep m
      → KeepsState P c
  unfolding get
  get-AllKeep [] k c e h = cc
  get-AllKeep ((j, d) ∷ m) k c e h = elim (Bool-cases (k == j)) [
    | inl f ↦ subst (KeepsState P) (some_inj (rw f at e)) (h.0)
    | inr n ↦ get-AllKeep m k c (rw n at e) h.1
  ]
    where
      some_inj : {x y : Component P.Machine} → some x ≡ some y → x ≡ y
      some_inj q = cc

  pub installed_loop-AllKeep :
      (state : SavedState) (l : BTreeMap InstalledContent) (known : BTreeMap (Component P.Machine))
      (ret : BTreeMap ComponentStatus) (w : P.Machine)
      (r : BTreeMap (Component P.Machine) × BTreeMap ComponentStatus)
      → AllKeep known
      → (installed_loop P state l known ret w).0 ≡ ok r
      → AllKeep r.0
  unfolding installed_loop
  installed_loop-AllKeep state [] known ret w r h e = subst (λ q. AllKeep q.0) (ok_inj e) h
  installed_loop-AllKeep state ((name, ic) ∷ rest) known ret w r h e =
      let (c, _, e1) = continue-ok (ok_or (get known name) _) _ w e in
      let (u, _, e2) = continue-ok (c.query_update w) _ _ e1 in
      installed_loop-AllKeep state rest (remove known name) _ _ r (remove-AllKeep known name h) e2
