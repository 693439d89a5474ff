-- ===== src/Bootupd/Saved/Components.antt =====
-- The components that `install` owns: there is one at least, and their drop is quiet.
use mathlib.Core.Path.{subst}
use bootupd.Base.{
  Str, ◌==◌, ◌≡◌, refl, sym, ap, ◌∙◌, Bool, true, false, [], ◌∷◌, Result, ok, err, is_empty,
  Bool-cases, str_lt, ok_inj, inl, inr, arith,
}
use bootupd.Base.Map.{BTreeMap, insert}
use bootupd.Component.{Component}
use bootupd.Statefile.{Platform, IsQuiet}
use bootupd.Bootupd.Status.{get_components_impl}

module _ (P : Platform) where
  abbrev pub AreQuiet : BTreeMap (Component P.Machine) → Type 0
  AreQuiet [] = Unit
  AreQuiet ((_, c) ∷ m) = IsQuiet P c.unmount × AreQuiet m

  insert-AreQuiet :
      (m : BTreeMap (Component P.Machine)) (k : Str) (c : Component P.Machine)
      → IsQuiet P c.unmount
      → AreQuiet m
      → AreQuiet (insert m k c)
  unfolding insert
  insert-AreQuiet [] k c q h = (q, tt)
  insert-AreQuiet ((j, d) ∷ m) k c q h = elim (Bool-cases (k == j)) [
    | inl e ↦ rw e (q, h.1)
    | inr n ↦ elim (Bool-cases (str_lt k j)) [
      | inl l ↦ rw (n, l) (q, h)
      | inr g ↦ rw (n, g) (h.0, insert-AreQuiet m k c q h.1)
    ]
  ]

  pub get_components_impl-AreQuiet :
      (efi bios : Component P.Machine) (auto : Bool) (booted : Result Bool)
      (all : BTreeMap (Component P.Machine))
      → IsQuiet P efi.unmount
      → IsQuiet P bios.unmount
      → get_components_impl efi bios auto booted ≡ ok all
      → AreQuiet all
  unfolding get_components_impl
  get_components_impl-AreQuiet efi bios true (err e) all q r h = cc
  get_components_impl-AreQuiet efi bios true (ok true) all q r h =
      subst AreQuiet (ok_inj h) (insert-AreQuiet [] efi.name efi q tt)
  get_components_impl-AreQuiet efi bios true (ok false) all q r h =
      subst AreQuiet (ok_inj h) (insert-AreQuiet [] bios.name bios r tt)
  get_components_impl-AreQuiet efi bios false booted all q r h = subst AreQuiet (ok_inj h) (
      insert-AreQuiet (insert [] bios.name bios) efi.name efi q
        (insert-AreQuiet [] bios.name bios r tt))

  insert-is_empty :
      (m : BTreeMap (Component P.Machine)) (k : Str) (c : Component P.Machine)
      → is_empty (insert m k c) ≡ false
  unfolding insert
  insert-is_empty [] k c = refl
  insert-is_empty ((j, d) ∷ m) k c = ground arith

  pub all-is_empty :
      (efi bios : Component P.Machine) (auto : Bool) (booted : Result Bool)
      (all : BTreeMap (Component P.Machine))
      → get_components_impl efi bios auto booted ≡ ok all
      → is_empty all ≡ false
  unfolding get_components_impl
  all-is_empty efi bios true (err e) all h = cc
  all-is_empty efi bios true (ok true) all h =
      ap is_empty (sym (ok_inj h)) ∙ insert-is_empty [] efi.name efi
  all-is_empty efi bios true (ok false) all h =
      ap is_empty (sym (ok_inj h)) ∙ insert-is_empty [] bios.name bios
  all-is_empty efi bios false booted all h =
      ap is_empty (sym (ok_inj h)) ∙ insert-is_empty (insert [] bios.name bios) efi.name efi
