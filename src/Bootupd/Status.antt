-- ===== src/Bootupd/Status.antt =====
-- `get_components_impl` and `status` of src/bootupd.rs, for x86_64.
use bootupd.Base.{
  Str, Bool, true, false, Option, none, some, List, [], ◌∷◌, ok, err, failed, panicked, Result,
  Exec, pure, lift, ask, ◌>>=◌, ◌>>◌, ok_or,
}
use bootupd.Base.Map.{BTreeMap, get, insert, remove}
use bootupd.Model.{
  ContentMetadata, InstalledContent, SavedState, from_metadata, ComponentStatus, Adoptable, Status,
}
use bootupd.Component.{Component, owning}
use bootupd.Statefile.{Platform, load_from_disk}
use bootupd.Bootupd.{slash}

module _ {W : Type 0} (efi bios : Component W) where
  abbrev insert_component : Component W → BTreeMap (Component W) → BTreeMap (Component W)
  insert_component c m = insert m c.name c

  auto_components : Result Bool → Result (BTreeMap (Component W))
  auto_components (err _) = err (panicked "called `Result::unwrap()` on an `Err` value")
  auto_components (ok true) = ok (insert_component efi [])
  auto_components (ok false) = ok (insert_component bios [])

  -- The argument is `is_efi_booted()`, which `auto` alone asks for.
  unfoldable pub get_components_impl : Bool → Result Bool → Result (BTreeMap (Component W))
  unfolding auto_components
  get_components_impl true booted = auto_components booted
  get_components_impl false _ = ok (insert_component efi (insert_component bios []))

  unfoldable pub get_components : BTreeMap (Component W)
  get_components = insert_component efi (insert_component bios [])

abbrev pub interrupted_of : Option (BTreeMap ContentMetadata) → Str → Option ContentMetadata
interrupted_of none name = none
interrupted_of (some p) name = get p name

-- The status of one installed component.
unfoldable pub component_status :
    SavedState → Str → InstalledContent → Option ContentMetadata → ComponentStatus
component_status state name ic update = record {
  installed = ic.meta;
  interrupted = interrupted_of state.pending name;
  update = update;
  updatable = from_metadata ic.meta update;
  adopted_from = ic.adopted_from;
}

module _ (P : Platform) where
  -- The loop over `state.installed`: it takes each component out of the known ones.
  unfoldable pub installed_loop :
      SavedState
      → List (Str × InstalledContent)
      → BTreeMap (Component P.Machine)
      → BTreeMap ComponentStatus
      → Exec P.Machine (BTreeMap (Component P.Machine) × BTreeMap ComponentStatus)
  installed_loop state [] known ret = pure (known, ret)
  installed_loop state ((name, ic) ∷ rest) known ret = do
    component ← lift (ok_or (get known name) (failed "Unknown component installed"))
    update ← owning component (ask component.query_update)
    installed_loop state rest (remove known name)
        (insert ret name (component_status state name ic update))

  abbrev pub add_adoptable : Str → Option Adoptable → BTreeMap Adoptable → BTreeMap Adoptable
  add_adoptable name none ret = ret
  add_adoptable name (some a) ret = insert ret name a

  -- The loop over the components that are left.
  unfoldable pub adoptable_loop :
      List (Str × Component P.Machine) → BTreeMap Adoptable → Exec P.Machine (BTreeMap Adoptable)
  adoptable_loop [] ret = pure ret
  adoptable_loop ((name, component) ∷ rest) ret = do
    found ← owning component component.query_adopt
    adoptable_loop rest (add_adoptable name found ret)

  unfoldable pub installed_part :
      Option SavedState
      → BTreeMap (Component P.Machine)
      → Exec P.Machine (BTreeMap (Component P.Machine) × BTreeMap ComponentStatus)
  unfolding installed_loop
  installed_part none known = pure (known, [])
  installed_part (some state) known = installed_loop state state.installed known []

  unfoldable pub status : Component P.Machine → Component P.Machine → Exec P.Machine Status
  unfolding installed_part
  status efi bios = do
    ask (P.open_dir slash)
    state ← ask (load_from_disk P slash)
    found ← installed_part state (get_components efi bios)
    adoptable ← adoptable_loop found.0 []
    pure (record { components = found.1; adoptable = adoptable })
