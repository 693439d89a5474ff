-- ===== src/Tests/Installing.antt =====
-- An installation onto an empty disk, without a device.
use mathlib.Core.Option.{get_or}
use bootupd.Base.{
  Str, codes, ◌≡◌, refl, Bool, true, false, Option, none, some, List, [], Result, ok, Exec,
}
use bootupd.Base.Map.{BTreeMap}
use bootupd.Model.{ContentMetadata, SavedState}
use bootupd.Component.{Component}
use bootupd.Statefile.{load_from_disk}
use bootupd.Bootupd.Status.{get_components_impl}
use bootupd.Bootupd.Install.{install, select_components, static}
use bootupd.Bootupd.Saved.{IsSaved, install-load}
use bootupd.Tests.Machine.{Disk, machine, machine-IsLawful, efi, bios, components, new_build}

abbrev empty_disk : Disk
empty_disk = record { file = none; full = false }

-- `/proc/self/exe` was built later, and the configs of grub are written.
abbrev no_booted : Disk → Result Bool
no_booted _ = ok false

abbrev self_build : Disk → Result ContentMetadata
self_build _ = ok new_build

abbrev configs_written : Str → Option Str → Bool → Exec Disk (Unit {0})
configs_written _ _ _ w = (ok tt, w)

installed :
    (install machine efi bios no_booted self_build configs_written
      (codes "/src")
      (codes "/dest")
      none
      static
      true
      none
      false
      empty_disk).0
    ≡ ok tt
unfolding install bootupd.Base.str_dec bootupd.Base.Map.insert bootupd.Base.str_lt
    bootupd.Statefile.ensure_not_present get_components_impl
    bootupd.Bootupd.Install.enabled_with_uuid bootupd.Statefile.update_state
installed = refl

install-load_example :
    (all : BTreeMap (Component Disk)) × (chosen : List (Component Disk)) × (state : SavedState)
    × (get_components_impl efi bios false (no_booted empty_disk) ≡ ok all)
    × (select_components all none false ≡ ok chosen)
    × IsSaved machine machine-IsLawful efi bios components no_booted self_build configs_written
        (λ dest vendor uuid root w. refl)
        (codes "/src")
        (codes "/dest")
        (get_or none [])
        static
        true
        chosen
        state
    × (load_from_disk machine
          (codes "/dest")
          (install machine efi bios no_booted self_build configs_written
            (codes "/src")
            (codes "/dest")
            none
            static
            true
            none
            false
            empty_disk).1
        ≡ ok (some state))
install-load_example =
    install-load machine machine-IsLawful efi bios components no_booted self_build configs_written
      (λ dest vendor uuid root w. refl) (codes "/src") (codes "/dest") none static true none false
      empty_disk installed
