-- ===== src/Bootupd/Generate.antt =====
-- `generate_update_metadata` and `print_status_avail` of src/bootupd.rs.
use bootupd.Base.{
  Str, codes, ◌++◌, Option, none, some, List, [], ◌∷◌, Exec, pure, ◌>>◌, if◌then◌else◌,
}
use bootupd.Base.Path.{join}
use bootupd.Model.{upgradable, ComponentStatus, Adoptable, Status}
use bootupd.Component.{Component}
use bootupd.Component.Available.{bootupd_updates_dir}
use bootupd.Bootupd.Status.{get_components}

-- The components that are the values of a map, and their drop.
module _ {W : Type 0} where
  unfoldable pub generate_loop : Str → List (Str × Component W) → Exec W (Unit {0})
  generate_loop sysroot_path [] = pure tt
  generate_loop sysroot_path ((_, component) ∷ rest) = do
    component.generate_update_metadata sysroot_path
    generate_loop sysroot_path rest

  unfoldable pub drop_values : List (Str × Component W) → W → W
  drop_values [] w = w
  drop_values ((_, component) ∷ rest) w = drop_values rest (component.unmount w)

  -- `create_dir_all` is that of `std::fs`.
  unfoldable pub generate_update_metadata :
      Component W → Component W → (Str → Exec W (Unit {0})) → Str → Exec W (Unit {0})
  unfolding generate_loop drop_values
  generate_update_metadata efi bios create_dir_all sysroot_path = do
    create_dir_all (join sysroot_path bootupd_updates_dir)
    let all = get_components efi bios
    let body = generate_loop sysroot_path all
    λ w. ((body w).0, drop_values all (body w).1)

unfoldable pub upgradable_names : List (Str × ComponentStatus) → List Str
upgradable_names [] = []
upgradable_names ((name, component) ∷ rest) = elim component.updatable [
  | upgradable ↦ name ∷ upgradable_names rest
  | _ ↦ upgradable_names rest
]

unfoldable pub adoptable_names : List (Str × Adoptable) → List Str
adoptable_names [] = []
adoptable_names ((name, adoptable) ∷ rest) =
    let others = adoptable_names rest in if adoptable.confident then name ∷ others else others

-- `join(" ")`
unfoldable pub spaced : List Str → Str
spaced [] = []
spaced (name ∷ []) = name
spaced (name ∷ (other ∷ rest)) = name ++ (codes " " ++ spaced (other ∷ rest))

-- The line that is printed, if there is one.
unfoldable pub print_status_avail : Status → Option Str
unfolding spaced
print_status_avail status =
    elim (upgradable_names status.components ++ adoptable_names status.adoptable) [
      | [] ↦ none
      | name ∷ rest ↦ some (codes "Updates available: " ++ spaced (name ∷ rest))
    ]
