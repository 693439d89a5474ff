-- ===== src/Bootupd/Install.antt =====
-- `ConfigMode` and `install` of src/bootupd.rs.
use mathlib.Core.Option.{get_or}
use bootupd.Base.{
  Str, codes, ◌==◌, Bool, true, false, not, ◌&&◌, Option, none, some, List, [], ◌∷◌, Result, ok,
  err, failed, panicked, Exec, pure, bail, lift, ask, ◌>>=◌, ◌>>◌, ok_or, and_then, if◌then◌else◌,
  is_empty,
}
use bootupd.Base.Map.{BTreeMap, get, insert}
use bootupd.Model.{ContentMetadata, InstalledContent}
use bootupd.Component.{Component}
use bootupd.Statefile.{Platform, ensure_not_present, update_state}
use bootupd.Bootupd.Status.{get_components_impl}

pub data ConfigMode : Type 0 where
  no_configs static with_uuid : ConfigMode

unfoldable pub enabled_with_uuid : ConfigMode → Option Bool
enabled_with_uuid no_configs = none
enabled_with_uuid static = some false
enabled_with_uuid with_uuid = some true

module _ {W : Type 0} where
  -- `map(|name| all_components.get(name)…).collect::<Result<Vec<_>>>()`
  unfoldable pub named_components : BTreeMap (Component W) → List Str → Result (List (Component W))
  named_components all [] = ok []
  named_components all (name ∷ names) =
      let rest = named_components all names in
      and_then (ok_or (get all name) (failed "Unknown component"))
        (λ c. and_then rest (λ cs. ok (c ∷ cs)))

  unfoldable pub components_of : BTreeMap (Component W) → List (Component W)
  components_of [] = []
  components_of ((_, c) ∷ rest) = c ∷ components_of rest

  unfoldable pub select_components :
      BTreeMap (Component W) → Option (List Str) → Bool → Result (List (Component W))
  unfolding components_of
  select_components all none auto = ok (components_of all)
  select_components all (some names) auto =
      if auto
      then err (panicked "assertion failed: !auto_components")
      else named_components all names

module _ (P : Platform) (efi bios : Component P.Machine) (is_efi_booted : P.Machine → Result Bool)
    (self_metadata : P.Machine → Result ContentMetadata)
    (install_grub_configs : Str → Option Str → Bool → Exec P.Machine (Unit {0})) where
  -- The vendor is taken from the first component that has one; a second one panics.
  unfoldable pub add_vendor : Option Str → Option Str → Result (Option Str)
  add_vendor installed none = ok installed
  add_vendor none (some vendor) = ok (some vendor)
  add_vendor (some _) (some vendor) =
      err (panicked "assertion failed: installed_efi_vendor.is_none()")

  unfoldable pub install_loop :
      Str
      → Str
      → Str
      → Bool
      → List (Component P.Machine)
      → BTreeMap InstalledContent
      → Option Str
      → Exec P.Machine (BTreeMap InstalledContent × Option Str)
  unfolding add_vendor
  install_loop source dest device firmware [] installed vendor = pure (installed, vendor)
  install_loop source dest device firmware (c ∷ rest) installed vendor =
      if c.name == codes "BIOS" && is_empty device
      then install_loop source dest device firmware rest installed vendor
      else do
        meta ← c.install source dest device firmware
        found ← ask (c.get_efi_vendor source)
        vendor' ← lift (add_vendor vendor found)
        install_loop source dest device firmware rest (insert installed c.name meta) vendor'

  -- The static configs, with the metadata that goes into the state.
  unfoldable pub install_configs :
      Str → Option Str → Option Bool → Exec P.Machine (Option ContentMetadata)
  install_configs dest vendor none = pure none
  install_configs dest vendor (some uuid) = do
    self_meta ← ask self_metadata
    install_grub_configs dest vendor uuid
    pure (some self_meta)

  unfoldable pub install_components :
      Str → Str → Str → ConfigMode → Bool → List (Component P.Machine) → Exec P.Machine (Unit {0})
  unfolding install_loop install_configs
  install_components source dest device configs firmware targets = do
    found ← install_loop source dest device firmware targets [] none
    ask (P.open_dir dest)
    static_configs ← install_configs dest found.1 (enabled_with_uuid configs)
    update_state P dest
        (record { installed = found.0; pending = none; static_configs = static_configs })

  -- The components are owned by `all_components`, and are dropped at the end.
  unfoldable pub drop_all : List (Str × Component P.Machine) → P.Machine → P.Machine
  drop_all [] w = w
  drop_all ((_, c) ∷ rest) w = drop_all rest (c.unmount w)

  unfoldable pub owning_all :
      BTreeMap (Component P.Machine) → Exec P.Machine (Unit {0}) → Exec P.Machine (Unit {0})
  unfolding drop_all
  owning_all all body w = ((body w).0, drop_all all (body w).1)

  unfoldable pub install_targets :
      Str
      → Str
      → Str
      → ConfigMode
      → Bool
      → Option (List Str)
      → Bool
      → BTreeMap (Component P.Machine)
      → Exec P.Machine (Unit {0})
  unfolding install_components select_components
  install_targets source dest device configs firmware targets auto all = do
    chosen ← lift (select_components all targets auto)
    if is_empty chosen && not auto
        then bail (failed "No components specified")
        else install_components source dest device configs firmware chosen

  unfoldable pub install :
      Str
      → Str
      → Option Str
      → ConfigMode
      → Bool
      → Option (List Str)
      → Bool
      → Exec P.Machine (Unit {0})
  unfolding install_targets owning_all select_components
  install source dest device configs firmware targets auto = do
    ask (P.open_dir source)
    ask (ensure_not_present P dest)
    all ← ask (λ w. get_components_impl efi bios auto (is_efi_booted w))
    if is_empty all
        then pure tt
        else owning_all all
            (install_targets source dest (get_or device []) configs firmware targets auto all)
