-- ===== src/Bootupd/Saved.antt =====
-- The state file that `install` leaves.
pub mod Components
use mathlib.Core.Option.{get_or}
use mathlib.Core.Path.{subst}
use bootupd.Base.{
  Str, codes, ◌==◌, ◌≡◌, refl, sym, ap, ◌∙◌, Bool, true, false, not, ◌&&◌, ◌||◌, Option, none, some,
  List, [], ◌∷◌, Result, ok, err, Error, failed, panicked, continue-ok, continue-rest, is_some,
  is_empty, Bool-cases, Result-cases, str_lt, ok_inj, inl, inr, arith, Exec, and_then,
  if◌then◌else◌, err-ne-ok,
}
use bootupd.Base.Map.{BTreeMap, get, insert, get-nil}
use bootupd.Model.{ContentMetadata, InstalledContent, SavedState}
use bootupd.Component.{Component}
use bootupd.Statefile.{
  Platform, IsLawful, IsQuiet, look, load_from_disk, parse_file, parse_state, update_state,
  ensure_not_present,
}
use bootupd.Bootupd.Steps.{KeepsState, AreComponents, Saw}
use bootupd.Bootupd.Status.{get_components_impl}
use bootupd.Bootupd.Install.{
  ConfigMode, enabled_with_uuid, install, install_loop, install_configs, install_components,
  install_targets, select_components, drop_all, owning_all,
}
use bootupd.Bootupd.Saved.Components.{AreQuiet, get_components_impl-AreQuiet, all-is_empty}
use bootupd.Bootupd.Installed.{installs, install_loop-installs}

module _ (P : Platform) (L : IsLawful P) (efi bios : Component P.Machine)
    (C : AreComponents P efi bios) (is_efi_booted : P.Machine → Result Bool)
    (self_metadata : P.Machine → Result ContentMetadata)
    (install_grub_configs : Str → Option Str → Bool → Exec P.Machine (Unit {0}))
    -- the installation of the static configs does not touch the state file
    (configs_quiet : (dest : Str) (vendor : Option Str) (uuid : Bool)
      → IsQuiet P (λ w. (install_grub_configs dest vendor uuid w).1)) where
  drop_all-IsQuiet :
      (all : BTreeMap (Component P.Machine))
      → AreQuiet P all
      → IsQuiet P (drop_all P efi bios is_efi_booted self_metadata install_grub_configs all)
  unfolding drop_all
  drop_all-IsQuiet [] h root w = refl
  drop_all-IsQuiet ((_, c) ∷ rest) h root w =
      drop_all-IsQuiet rest h.1 root (c.unmount w) ∙ h.0 root w

  install_configs-quiet :
      (root dest : Str) (vendor : Option Str) (uuid : Option Bool) (w : P.Machine)
      → look P root
          (install_configs P efi bios is_efi_booted self_metadata install_grub_configs dest vendor
            uuid w).1
        ≡ look P root w
  unfolding install_configs
  install_configs-quiet root dest vendor none w = refl
  install_configs-quiet root dest vendor (some uuid) w = elim (Result-cases (self_metadata w)) [
    | inr (e, f) ↦ rw f refl
    | inl (m, f) ↦ rw f (elim (Result-cases (install_grub_configs dest vendor uuid w).0) [
      | inl (_, g) ↦ rw g (configs_quiet dest vendor uuid root w)
      | inr (_, g) ↦ rw g (configs_quiet dest vendor uuid root w)
    ])
  ]

  install_configs-some :
      (dest : Str) (vendor : Option Str) (uuid : Option Bool) (w : P.Machine)
      (m : Option ContentMetadata)
      → (install_configs P efi bios is_efi_booted self_metadata install_grub_configs dest vendor
          uuid w).0
        ≡ ok m
      → is_some m ≡ is_some uuid
  unfolding install_configs
  install_configs-some dest vendor none w m h = ap is_some (sym (ok_inj h))
  install_configs-some dest vendor (some uuid) w m h =
      let (self, _, h1) = continue-ok (self_metadata w) _ w h in
      let (_, _, h2) = continue-ok (install_grub_configs dest vendor uuid w).0 _ _ h1 in
      ap is_some (sym (ok_inj h2))

  module _ (source dest device : Str) (configs : ConfigMode) (firmware : Bool) where
    -- The state that is saved: the targets are installed, but for BIOS without a device, no update
    -- is pending, and the static configs are there as they were asked for.
    abbrev pub IsSaved : List (Component P.Machine) → SavedState → Type 0
    IsSaved targets state =
        ((name : Str)
          → is_some (get state.installed name)
            ≡ installs P efi bios is_efi_booted self_metadata install_grub_configs device targets
                name)
        × (state.pending ≡ none)
        × (is_some state.static_configs ≡ is_some (enabled_with_uuid configs))

    install_components-IsSaved :
        (targets : List (Component P.Machine)) (w : P.Machine)
        → (install_components P efi bios is_efi_booted self_metadata install_grub_configs source
            dest device configs firmware targets w).0
          ≡ ok tt
        → (state : SavedState) × IsSaved targets state
          × (look P dest
                (install_components P efi bios is_efi_booted self_metadata install_grub_configs
                  source dest device configs firmware targets w).1
              ≡ (ok tt, ok (some (P.to_writer state))))
    unfolding install_components update_state
    install_components-IsSaved targets w h =
        let (found, e1, h1, r1) =
          continue-rest
            (install_loop P efi bios is_efi_booted self_metadata install_grub_configs source dest
              device firmware targets [] none w).0
            _ _ h in
        let (_, e2, h2, r2) = continue-rest (P.open_dir dest _) _ _ h1 in
        let (static_configs, e3, h3, r3) =
          continue-rest
            (install_configs P efi bios is_efi_booted self_metadata install_grub_configs dest
              found.1 (enabled_with_uuid configs) _).0
            _ _ h2 in
        let state : SavedState = record {
          installed = found.0;
          pending = none;
          static_configs = static_configs;
        } in
        let before =
          (install_loop P efi bios is_efi_booted self_metadata install_grub_configs source dest
            device firmware targets [] none w).1 in
        let opens : P.open_dir dest _ ≡ ok tt =
          ap (λ (x : Saw P). x.0)
            (install_configs-quiet dest dest found.1 (enabled_with_uuid configs) before)
          ∙ e2 in
        (
          state,
          (
            λ name.
                install_loop-installs P efi bios is_efi_booted self_metadata install_grub_configs
                  source dest device firmware targets [] none w name e1
                ∙ ap
                    (λ (o : Option InstalledContent).
                      is_some o
                      || installs P efi bios is_efi_booted self_metadata install_grub_configs device
                          targets name)
                    (get-nil name),
            refl,
            install_configs-some dest found.1 (enabled_with_uuid configs) before static_configs e3,
          ),
          ap (λ (x : Result (Unit {0}) × P.Machine). look P dest x.1) (r1 ∙ r2 ∙ r3)
              ∙ L.look-write dest (P.to_writer state) _ h3
              ∙ ap (λ o. (o, ok (some (P.to_writer state)))) opens,
        )

  load_of_look :
      (root : Str) (w : P.Machine) (state : SavedState)
      → look P root w ≡ (ok tt, ok (some (P.to_writer state)))
      → load_from_disk P root w ≡ ok (some state)
  unfolding load_from_disk
  load_of_look root w state h = ground (arith, L.from_str-to_writer state)

  install_targets-IsSaved :
      (source dest device : Str) (mode : ConfigMode) (firmware : Bool) (targets : Option (List Str))
      (auto : Bool) (all : BTreeMap (Component P.Machine)) (w : P.Machine)
      → (install_targets P efi bios is_efi_booted self_metadata install_grub_configs source dest
          device mode firmware targets auto all w).0
        ≡ ok tt
      → (chosen : List (Component P.Machine)) × (state : SavedState) × (select_components all
            targets auto
          ≡ ok chosen)
        × IsSaved source dest device mode firmware chosen state
        × (look P dest
              (install_targets P efi bios is_efi_booted self_metadata install_grub_configs source
                dest device mode firmware targets auto all w).1
            ≡ (ok tt, ok (some (P.to_writer state))))
  unfolding install_targets
  install_targets-IsSaved source dest device mode firmware targets auto all w h =
      let (chosen, e, h1, r1) = continue-rest (select_components all targets auto) _ w h in
      elim (Bool-cases (is_empty chosen && not auto)) [
        | inl none_chosen ↦ absurd (err-ne-ok (rw none_chosen at h1))
        | inr some_chosen ↦
            let h2 = rw some_chosen at h1 in
            let (state, saved, seen) =
              install_components-IsSaved source dest device mode firmware chosen w h2 in
            (chosen, state, e, saved, rw (r1, some_chosen) seen)
      ]

  -- If `install` succeeds, then it chose components, and a load at the destination gives the state
  -- that it saved: exactly the chosen components are installed, but for BIOS without a device, no
  -- update is pending, and the metadata of the static configs is there exactly if they were asked
  -- for.
  pub install-load :
      (source dest : Str) (device : Option Str) (mode : ConfigMode) (firmware : Bool)
      (targets : Option (List Str)) (auto : Bool) (w : P.Machine)
      → (install P efi bios is_efi_booted self_metadata install_grub_configs source dest device mode
          firmware targets auto w).0
        ≡ ok tt
      → (all : BTreeMap (Component P.Machine)) × (chosen : List (Component P.Machine))
        × (state : SavedState) × (get_components_impl efi bios auto (is_efi_booted w) ≡ ok all)
        × (select_components all targets auto ≡ ok chosen)
        × IsSaved source dest (get_or device []) mode firmware chosen state
        × (load_from_disk P dest
              (install P efi bios is_efi_booted self_metadata install_grub_configs source dest
                device mode firmware targets auto w).1
            ≡ ok (some state))
  unfolding install owning_all
  install-load source dest device mode firmware targets auto w h =
      let (_, e1, h1, r1) = continue-rest (P.open_dir source w) _ w h in
      let (_, e2, h2, r2) = continue-rest (ensure_not_present P dest w) _ w h1 in
      let (all, e3, h3, r3) =
        continue-rest (get_components_impl efi bios auto (is_efi_booted w)) _ w h2 in
      let some_component = all-is_empty P efi bios auto (is_efi_booted w) all e3 in
      let h4 = rw some_component at h3 in
      let (chosen, state, e4, saved, seen) =
        install_targets-IsSaved source dest (get_or device []) mode firmware targets auto all w
          h4 in
      let quiet = drop_all-IsQuiet all (
        get_components_impl-AreQuiet P efi bios auto (is_efi_booted w) all efi_quiet bios_quiet
          e3) in
      (
        all,
        chosen,
        state,
        e3,
        e4,
        saved,
        load_of_look dest _ state (
            ap (λ (x : Result (Unit {0}) × P.Machine). look P dest x.1) (r1 ∙ r2 ∙ r3)
            ∙ rw some_component (quiet dest _ ∙ seen)),
      )
    where
      efi_quiet : IsQuiet P efi.unmount
      efi_quiet = let k : KeepsState P efi = C.efi_keeps in k.unmount_quiet

      bios_quiet : IsQuiet P bios.unmount
      bios_quiet = let k : KeepsState P bios = C.bios_keeps in k.unmount_quiet
