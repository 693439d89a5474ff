-- ===== src/Component.antt =====
-- src/component.rs: the interface of a bootloader component and the lookup by name. Built for
-- x86_64, where both components exist.
pub mod Tools
pub mod Available
use bootupd.Base.{
  Str, codes, ◌==◌, str_dec, Bool, Option, List, Result, ok, err, failed, Exec, if◌then◌else◌,
}
use bootupd.Model.{ContentMetadata, InstalledContent, Adoptable}

pub data ValidationResult : Type 0 where
  valid skip : ValidationResult
  errors : List Str → ValidationResult

-- `trait Component`. What only reads the machine is a query. `unmount` is the drop of the value.
pub record Component (W : Type 0) : Type 0 where
  pub name : Str
  pub query_adopt : Exec W (Option Adoptable)
  pub adopt_update : ContentMetadata → Exec W InstalledContent
  pub install : Str → Str → Str → Bool → Exec W InstalledContent
  pub generate_update_metadata : Str → Exec W ContentMetadata
  pub query_update : W → Result (Option ContentMetadata)
  pub run_update : InstalledContent → Exec W InstalledContent
  pub validate : InstalledContent → Exec W ValidationResult
  pub get_efi_vendor : Str → W → Result (Option Str)
  pub unmount : W → W

module _ {W : Type 0} where
  -- `efi` and `bios` are `Efi::default()` and `Bios::default()`.
  unfoldable pub new_from_name : Component W → Component W → Str → Result (Component W)
  unfolding str_dec
  new_from_name efi bios name =
      if name == codes "EFI"
      then ok efi
      else if name == codes "BIOS"
      then ok bios
      else err (failed "No component")

  -- A block that owns a component: the value is dropped however the block ends.
  abbrev pub owning : {A : Type 0} → Component W → Exec W A → Exec W A
  owning c body w = ((body w).0, c.unmount (body w).1)
