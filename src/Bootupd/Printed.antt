-- ===== src/Bootupd/Printed.antt =====
-- `print_status` on what `status` returns.
use mathlib.Core.Path.{subst}
use bootupd.Base.{
  Str, codes, ◌≡◌, refl, ◌∙◌, sym, ◌↔◌, Bool, true, false, Option, none, some, List, [], ◌∷◌,
  Result, ok, err, continue-ok, ok_or, arith, is_some, is_empty, if◌then◌else◌, pure, ◌>>◌, ok_inj,
  err-ne-ok, Error,
}
use bootupd.Base.Map.{BTreeMap, insert, remove, get}
use bootupd.Model.{
  ContentMetadata, InstalledContent, SavedState, no_update_available, at_latest_version, upgradable,
  would_downgrade, ComponentUpdatable, from_metadata, ComponentStatus, Adoptable, Status,
}
use bootupd.Component.{Component}
use bootupd.Statefile.{Platform, load_from_disk}
use bootupd.Bootupd.{slash}
use bootupd.Bootupd.Status.{
  component_status, installed_loop, installed_part, adoptable_loop, get_components, status,
}
use bootupd.Bootupd.Print.{
  Print, println, print_interrupted, update_message, print_component, print_components,
  print_adoptable, print_adoptables, print_aleph, print_listed, print_machine, print_status,
}

-- An upgrade comes with its update.
abbrev pub IsBacked : ComponentStatus → Type 0
IsBacked c = c.updatable ≡ upgradable → is_some c.update ≡ true

abbrev AreBacked : BTreeMap ComponentStatus → Type 0
AreBacked [] = Unit
AreBacked ((_, c) ∷ m) = IsBacked c × AreBacked m

insert-AreBacked :
    (m : BTreeMap ComponentStatus) (k : Str) (c : ComponentStatus)
    → IsBacked c
    → AreBacked m
    → AreBacked (insert m k c)
unfolding insert
insert-AreBacked [] k c h s = (h, tt)
insert-AreBacked ((j, d) ∷ m) k c h s = ground (arith, insert-AreBacked m k c h s.1)

component_status-IsBacked :
    (state : SavedState) (k : Str) (ic : InstalledContent) (u : Option ContentMetadata)
    → IsBacked (component_status state k ic u)
unfolding component_status from_metadata
component_status-IsBacked state k ic none h = cc
component_status-IsBacked state k ic (some u) h = refl

module _ (P : Platform) where
  installed_loop-AreBacked :
      (state : SavedState) (rest : List (Str × InstalledContent))
      (known : BTreeMap (Component P.Machine)) (ret : BTreeMap ComponentStatus) (w : P.Machine)
      (r : BTreeMap (Component P.Machine) × BTreeMap ComponentStatus)
      → AreBacked ret
      → (installed_loop P state rest known ret w).0 ≡ ok r
      → AreBacked r.1
  unfolding installed_loop
  installed_loop-AreBacked state [] known ret w r s h = subst (λ x. AreBacked x.1) (ok_inj h) s
  installed_loop-AreBacked state ((k, ic) ∷ rest) known ret w r s h =
      let (c, e, h1) = continue-ok (ok_or (get known k) _) _ w h in
      let (u, q, h2) = continue-ok (c.query_update w) _ _ h1 in
      installed_loop-AreBacked state rest (remove known k)
        (insert ret k (component_status state k ic u)) (c.unmount w) r
        (insert-AreBacked ret k (component_status state k ic u)
          (component_status-IsBacked state k ic u) s)
        h2

  installed_part-AreBacked :
      (o : Option SavedState) (known : BTreeMap (Component P.Machine)) (w : P.Machine)
      (r : BTreeMap (Component P.Machine) × BTreeMap ComponentStatus)
      → (installed_part P o known w).0 ≡ ok r
      → AreBacked r.1
  unfolding installed_part
  installed_part-AreBacked none known w r h = subst (λ x. AreBacked x.1) (ok_inj h) tt
  installed_part-AreBacked (some state) known w r h =
      installed_loop-AreBacked state state.installed known [] w r tt h

  status-AreBacked :
      (efi bios : Component P.Machine) (w : P.Machine) (st : Status)
      → (status P efi bios w).0 ≡ ok st
      → AreBacked st.components
  unfolding status
  status-AreBacked efi bios w st h =
      let (_, _, h0) = continue-ok (P.open_dir slash w) _ w h in
      let (o, _, h1) = continue-ok (load_from_disk P slash w) _ w h0 in
      let (r, q, h2) = continue-ok (installed_part P o (get_components efi bios) w).0 _ _ h1 in
      let (a, _, h3) = continue-ok (adoptable_loop P r.0 [] _).0 _ _ h2 in
      subst (λ x. AreBacked x.components) (ok_inj h3)
        (installed_part-AreBacked o (get_components efi bios) w r q)

abbrev Prints : Print → Type 0
Prints m = (out : List Str) → (m out).0 ≡ ok tt

then-Prints : (m k : Print) → Prints m → Prints k → Prints (m >> k)
then-Prints m k h g out = rw (h out) (g (m out).1)

println-Prints : (line : Str) → Prints (println line)
unfolding println
println-Prints line out = refl

if-Prints : (b : Bool) (line : Str) → Prints (if b then println line else pure tt)
if-Prints true line out = println-Prints line out
if-Prints false line out = refl

print_interrupted-Prints : (o : Option ContentMetadata) → Prints (print_interrupted o)
unfolding print_interrupted println
print_interrupted-Prints none out = refl
print_interrupted-Prints (some i) out = refl

print_aleph-Prints : (o : Option ContentMetadata) → Prints (print_aleph o)
unfolding print_aleph println
print_aleph-Prints none out = refl
print_aleph-Prints (some a) out = refl

update_message_lem :
    (v : ComponentUpdatable) (u : Option ContentMetadata)
    → (v ≡ upgradable → is_some u ≡ true)
    → (msg : Str) × (update_message v u ≡ ok msg)
unfolding update_message
update_message_lem no_update_available u h = (_, refl)
update_message_lem at_latest_version u h = (_, refl)
update_message_lem would_downgrade u h = (_, refl)
update_message_lem upgradable (some m) h = (_, refl)
update_message_lem upgradable none h = cc (h refl)

print_component-Prints :
    (name : Str) (c : ComponentStatus) → IsBacked c → Prints (print_component name c)
unfolding print_component println
print_component-Prints name c h out =
    let (msg, e) = update_message_lem c.updatable c.update h in
    rw (print_interrupted-Prints c.interrupted _, e) refl

print_components-Prints : (m : BTreeMap ComponentStatus) → AreBacked m → Prints (print_components m)
unfolding print_components
print_components-Prints [] h out = refl
print_components-Prints ((k, c) ∷ m) (b, h) out =
    then-Prints (print_component k c) (print_components m) (print_component-Prints k c b)
      (print_components-Prints m h) out

print_adoptable-Prints : (k : Str) (a : Adoptable) → Prints (print_adoptable k a)
unfolding print_adoptable println
print_adoptable-Prints k a out = refl

print_adoptables-Prints : (m : BTreeMap Adoptable) → Prints (print_adoptables m)
unfolding print_adoptables
print_adoptables-Prints [] out = refl
print_adoptables-Prints ((k, a) ∷ m) out =
    then-Prints (print_adoptable k a) (print_adoptables m) (print_adoptable-Prints k a)
      (print_adoptables-Prints m) out

listed-Prints : (st : Status) → AreBacked st.components → Prints (print_listed st)
unfolding print_listed
listed-Prints st h =
    let first =
      if is_empty st.components then println (codes "No components installed.") else pure tt in
    let second =
      if is_empty st.adoptable then println (codes "No components are adoptable.") else pure tt in
    let last = print_adoptables st.adoptable in
    then-Prints first (print_components st.components >> (second >> last))
      (if-Prints (is_empty st.components) (codes "No components installed."))
      (then-Prints (print_components st.components) (second >> last)
        (print_components-Prints st.components h)
        (then-Prints second last
          (if-Prints (is_empty st.adoptable) (codes "No components are adoptable."))
          (print_adoptables-Prints st.adoptable)))

print_machine_iff :
    (aleph : Result (Option ContentMetadata)) (booted : Result Bool) (out : List Str)
    → ((print_machine aleph booted out).0 ≡ ok tt)
      ↔ (((a : Option ContentMetadata) × (aleph ≡ ok a)) × ((b : Bool) × (booted ≡ ok b)))
unfolding print_machine println
print_machine_iff (err e) booted out = (λ h. cc, λ ((a, h), _). cc)
print_machine_iff (ok a) (err e) out =
    (λ h. absurd (err-ne-ok (sym (failing e) ∙ h)), λ (_, (b, h)). cc)
  where
    failing : (e : Error) → (print_machine (ok a) (err e) out).0 ≡ err e
    failing e = rw (print_aleph-Prints a out)
print_machine_iff (ok a) (ok b) out =
    (λ _. ((a, refl), (b, refl)), λ _. rw (print_aleph-Prints a out) refl)

-- What `status` returns is printed without a panic: `print_status` succeeds on it exactly if the
-- version file of the system can be read, where there is one, and the firmware tells how the
-- system was booted.
pub print_status-status :
    (P : Platform) (efi bios : Component P.Machine) (w : P.Machine) (st : Status)
    (aleph : Result (Option ContentMetadata)) (booted : Result Bool) (out : List Str)
    → (status P efi bios w).0 ≡ ok st
    → ((print_status st aleph booted out).0 ≡ ok tt)
      ↔ (((a : Option ContentMetadata) × (aleph ≡ ok a)) × ((b : Bool) × (booted ≡ ok b)))
unfolding print_status
print_status-status P efi bios w st aleph booted out h =
    rw (listed-Prints st (status-AreBacked P efi bios w st h) out)
      (print_machine_iff aleph booted (print_listed st out).1)
