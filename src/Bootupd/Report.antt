-- ===== src/Bootupd/Report.antt =====
-- What `status` reports of each name.
use mathlib.Core.Path.{subst}
use bootupd.Base.{
  Str, ◌==◌, ◌≡◌, refl, ap, sym, ◌∙◌, inl, inr, false, Option, none, some, [], ◌∷◌, Result, ok,
  ok_or, ok_or-ok, continue-ok, if◌then◌else◌, arith, str_eq, Bool-cases,
}
use bootupd.Base.Map.{
  BTreeMap, get, get-nil, insert, remove, get-insert, get-remove, insert-IsSorted, remove-IsSorted,
  IsSorted, Above-IsSorted, get_of_Above,
}
use bootupd.Model.{
  from_metadata, ContentMetadata, InstalledContent, SavedState, ComponentStatus, Adoptable, Status,
}
use bootupd.Component.{Component}
use bootupd.Statefile.{Platform, load_from_disk}
use bootupd.Bootupd.{slash}
use bootupd.Bootupd.Status.{
  component_status, interrupted_of, installed_loop, adoptable_loop, add_adoptable, installed_part,
  get_components, status,
}

module _ (P : Platform) (state : SavedState) (name : Str) where
  abbrev unmount_found : Option (Component P.Machine) → P.Machine → P.Machine
  unmount_found none w = w
  unmount_found (some c) w = c.unmount w

  -- The machine at which the name's own component is asked for its update: the components that are
  -- installed under the names before it have been asked and dropped, in their order.
  abbrev pub met :
      BTreeMap InstalledContent → BTreeMap (Component P.Machine) → P.Machine → P.Machine
  met [] known w = w
  met ((k, _) ∷ rest) known w =
      let later = met rest (remove known k) (unmount_found (get known k) w) in
      if name == k then w else later

  -- What the loop over the installed components leaves of a name that it meets, at a machine, or
  -- does not meet.
  abbrev Gathered :
      Option InstalledContent
      → BTreeMap (Component P.Machine)
      → BTreeMap ComponentStatus
      → P.Machine
      → BTreeMap (Component P.Machine) × BTreeMap ComponentStatus
      → Type 0
  Gathered none known ret v r = (get r.1 name ≡ get ret name) × (get r.0 name ≡ get known name)
  Gathered (some ic) known ret v r =
      ((c : Component P.Machine) × (update : Option ContentMetadata) × (get known name ≡ some c)
        × (c.query_update v ≡ ok update)
        × (get r.1 name ≡ some (component_status state name ic update)))
      × (get r.0 name ≡ none)

  Gathered-same :
      (o : Option InstalledContent) (known known' : BTreeMap (Component P.Machine))
      (ret ret' : BTreeMap ComponentStatus) (v : P.Machine)
      (r : BTreeMap (Component P.Machine) × BTreeMap ComponentStatus)
      → get known' name ≡ get known name
      → get ret' name ≡ get ret name
      → Gathered o known' ret' v r
      → Gathered o known ret v r
  Gathered-same none known known' ret ret' v r p q g = (g.0 ∙ q, g.1 ∙ p)
  Gathered-same (some ic) known known' ret ret' v r p q ((c, u, e, asked, s), gone) =
      ((c, u, sym p ∙ e, asked, s), gone)

  Gathered-cons :
      (k : Str) (ic : InstalledContent) (rest : BTreeMap InstalledContent)
      (known : BTreeMap (Component P.Machine)) (ret : BTreeMap ComponentStatus)
      (c : Component P.Machine) (u : Option ContentMetadata) (w : P.Machine)
      (r : BTreeMap (Component P.Machine) × BTreeMap ComponentStatus)
      → get known k ≡ some c
      → c.query_update w ≡ ok u
      → get rest k ≡ none
      → IsSorted known
      → Gathered
          (get rest name)
          (remove known k)
          (insert ret k (component_status state k ic u))
          (met rest (remove known k) (c.unmount w))
          r
      → Gathered (get ((k, ic) ∷ rest) name) known ret (met ((k, ic) ∷ rest) known w) r
  unfolding get
  Gathered-cons k ic rest known ret c u w r is_c asked fresh sorted g =
      elim (Bool-cases (name == k)) [
        | inl e ↦
            let same : name ≡ k = str_eq name k e in
            let new = component_status state k ic u in
            let v = met rest (remove known k) (c.unmount w) in
            let g' : Gathered none (remove known k) (insert ret k new) v r =
              subst (λ o. Gathered o (remove known k) (insert ret k new) v r)
                (ap (get rest) same ∙ fresh) g in
            rw e (
              (
                c,
                u,
                ap (get known) same ∙ is_c,
                asked,
                g'.0
                    ∙ get-insert ret k name new
                    ∙ rw e (ap (λ j. some (component_status state j ic u)) (sym same)),
              ),
              g'.1 ∙ get-remove known k name sorted ∙ rw e,
            )
        | inr e ↦
            rw (e, is_c)
              (Gathered-same (get rest name) known (remove known k) ret _ _ r
                (get-remove known k name sorted ∙ rw e) (get-insert ret k name _ ∙ rw e) g)
      ]

  installed_loop-Gathered :
      (rest : BTreeMap InstalledContent) (known : BTreeMap (Component P.Machine))
      (ret : BTreeMap ComponentStatus) (w : P.Machine)
      (r : BTreeMap (Component P.Machine) × BTreeMap ComponentStatus)
      → IsSorted rest
      → IsSorted known
      → (installed_loop P state rest known ret w).0 ≡ ok r
      → Gathered (get rest name) known ret (met rest known w) r
  unfolding installed_loop
  installed_loop-Gathered [] known ret w r s t h = rw (get-nil name) (ground arith)
  installed_loop-Gathered ((k, ic) ∷ rest) known ret w r s t h =
      let (c, e, h1) = continue-ok (ok_or (get known k) _) _ w h in
      let (u, q, h2) = continue-ok (c.query_update w) _ _ h1 in
      Gathered-cons k ic rest known ret c u w r (ok_or-ok (get known k) _ e) q
        (get_of_Above k rest s) t
        (installed_loop-Gathered rest (remove known k)
          (insert ret k (component_status state k ic u)) (c.unmount w) r (Above-IsSorted k rest s)
          (remove-IsSorted known k t) h2)

module _ (P : Platform) (name : Str) where
  absent_cons :
      (k : Str) (c : Component P.Machine) (l : BTreeMap (Component P.Machine))
      → get ((k, c) ∷ l) name ≡ none
      → ((name == k) ≡ false) × (get l name ≡ none)
  unfolding get
  absent_cons k c l h = ground arith

  get-add_adoptable :
      (k : Str) (found : Option Adoptable) (ret : BTreeMap Adoptable)
      → (name == k) ≡ false
      → get (add_adoptable P k found ret) name ≡ get ret name
  get-add_adoptable k none ret e = refl
  get-add_adoptable k (some a) ret e = get-insert ret k name a ∙ rw e

  -- The loop over the rest adds only names that are left.
  adoptable_loop-get :
      (l : BTreeMap (Component P.Machine)) (ret r : BTreeMap Adoptable) (w : P.Machine)
      → get l name ≡ none
      → (adoptable_loop P l ret w).0 ≡ ok r
      → get r name ≡ get ret name
  unfolding adoptable_loop
  adoptable_loop-get [] ret r w e h = cc
  adoptable_loop-get ((k, c) ∷ l) ret r w e h =
      let (found, q, h1) = continue-ok (c.query_adopt w).0 _ _ h in
      let (ne, e') = absent_cons k c l e in
      adoptable_loop-get l (add_adoptable P k found ret) r _ e' h1
      ∙ get-add_adoptable k found ret ne

module _ (P : Platform) (efi bios : Component P.Machine) (w : P.Machine) (state : SavedState)
    (name : Str) where
  -- A name is listed with the status of what is installed under it and the update that its component
  -- offers, and is not adoptable; or nothing is installed under it and it is not listed.
  abbrev pub Reported : Option InstalledContent → Status → Type 0
  Reported none st = get st.components name ≡ none
  Reported (some ic) st =
      ((c : ComponentStatus) × (component : Component P.Machine) × (get st.components name ≡ some c)
        × (get (get_components efi bios) name ≡ some component)
        × (component.query_update (met P state name state.installed (get_components efi bios) w)
            ≡ ok c.update)
        × (c.installed ≡ ic.meta)
        × (c.interrupted ≡ interrupted_of state.pending name)
        × (c.updatable ≡ from_metadata ic.meta c.update)
        × (c.adopted_from ≡ ic.adopted_from))
      × (get st.adoptable name ≡ none)

  Gathered-Reported :
      (o : Option InstalledContent) (r : BTreeMap (Component P.Machine) × BTreeMap ComponentStatus)
      (v : P.Machine) (a : BTreeMap Adoptable)
      → Gathered P state name o
          (get_components efi bios)
          []
          (met P state name state.installed (get_components efi bios) w)
          r
      → (adoptable_loop P r.0 [] v).0 ≡ ok a
      → Reported o (record { components = r.1; adoptable = a })
  unfolding component_status
  Gathered-Reported none r v a g h = g.0 ∙ get-nil name
  Gathered-Reported (some ic) r v a g h =
      let (c, u, known, asked, found) = g.0 in
      (
        (component_status state name ic u, c, found, known, asked, refl, refl, refl, refl),
        adoptable_loop-get P name r.0 [] a v g.1 h ∙ get-nil name,
      )

  get_components-IsSorted : IsSorted (get_components efi bios)
  unfolding get_components
  get_components-IsSorted = insert-IsSorted _ efi.name efi (insert-IsSorted [] bios.name bios tt)

  ok-injective : (a b : Status) → ◌≡◌ {A = Result Status} (ok a) (ok b) → a ≡ b
  ok-injective a b h = cc

  -- If `status` succeeds with a saved state, then it lists exactly the installed components, each
  -- with its own metadata, the version it was adopted from, the update that was pending for it, the
  -- update that its component offers at the machine where the components before it were dropped, and
  -- the verdict on that update; and none of them as adoptable.
  pub status_reports :
      {st : Status}
      → IsSorted state.installed
      → load_from_disk P slash w ≡ ok (some state)
      → (status P efi bios w).0 ≡ ok st
      → Reported (get state.installed name) st
  unfolding status installed_part
  status_reports {st} s loaded h =
      let (_, _, h0) = continue-ok (P.open_dir slash w) _ w h in
      let h1 = rw loaded at h0 in
      let known = get_components efi bios in
      let (r, q, h2) = continue-ok (installed_loop P state state.installed known [] w).0 _ _ h1 in
      let (a, q', h3) = continue-ok (adoptable_loop P r.0 [] _).0 _ _ h2 in
      let g =
        installed_loop-Gathered P state name state.installed known [] w r s get_components-IsSorted
          q in
      subst (Reported (get state.installed name)) (ok-injective _ st h3)
        (Gathered-Reported (get state.installed name) r _ a g q')
