-- ===== src/Component/Available.antt =====
-- src/component.rs and src/coreos.rs: the update that the system offers for a component, and what
-- makes the system adoptable.
use bootupd.Base.{
  Str, codes, ◌++◌, true, Option, none, some, Result, ok, Exec, ask, ◌>>◌, and_then, if◌then◌else◌,
  not,
}
use bootupd.Base.Path.{join}
use bootupd.Model.{ContentMetadata, Adoptable}
use bootupd.Component.Tools.{Tools}

abbrev pub bootupd_updates_dir : Str
bootupd_updates_dir = codes "usr/lib/bootupd/updates"

-- A component is given by its name.
unfoldable pub component_updatedirname : Str → Str
unfolding join
component_updatedirname name = join bootupd_updates_dir name

unfoldable pub component_updatedir : Str → Str → Str
unfolding component_updatedirname
component_updatedir sysroot name = join sysroot (component_updatedirname name)

unfoldable pub component_update_data_name : Str → Str
component_update_data_name name = name ++ codes ".json"

module _ {W : Type 0} (T : Tools W) where
  unfoldable pub write_update_metadata : Str → Str → ContentMetadata → Exec W (Unit {0})
  unfolding component_update_data_name
  write_update_metadata sysroot name meta = do
    ask (T.open_dir sysroot)
    ask (T.sub_dir sysroot bootupd_updates_dir)
    T.write_file_with sysroot (join bootupd_updates_dir (component_update_data_name name))
        (T.to_writer meta)

  read_update : Option T.Text → Result (Option ContentMetadata)
  read_update none = ok none
  read_update (some f) = and_then (T.from_reader f) (λ u. ok (some u))

  unfoldable pub get_component_update : Str → Str → W → Result (Option ContentMetadata)
  unfolding component_update_data_name read_update
  get_component_update sysroot name w =
      and_then
        (T.open_file_optional sysroot (join bootupd_updates_dir (component_update_data_name name))
          w)
        read_update

  abbrev pub aleph_path : Str
  aleph_path = codes "sysroot/.coreos-aleph-version.json"

  -- The version and the creation time of the file.
  unfoldable pub get_aleph_version : Str → W → Result (Option ContentMetadata)
  get_aleph_version root w =
      if not (T.exists (join root aleph_path) w)
      then ok none
      else and_then (T.open_aleph (join root aleph_path) w) λ (version, created).
        and_then version
          λ v. and_then created (λ ts. ok (some (record { timestamp = ts; version = v })))

  abbrev pub adoptable : ContentMetadata → Adoptable
  adoptable meta = record { version = meta; confident = true }

  abbrev pub ostree_deploy_dir : Str
  ostree_deploy_dir = codes "/ostree/deploy"

  -- The second part of `query_adopt_state`, for a system without a version file.
  adopt_ostree : W → Result (Option Adoptable)
  adopt_ostree w =
      if T.exists ostree_deploy_dir w
      then and_then (T.created ostree_deploy_dir w)
          (λ t. ok (some (adoptable (record { timestamp = t; version = codes "unknown" }))))
      else ok none

  adopt_aleph : W → Option ContentMetadata → Result (Option Adoptable)
  unfolding adopt_ostree
  adopt_aleph w none = adopt_ostree w
  adopt_aleph w (some meta) = ok (some (adoptable meta))

  unfoldable pub query_adopt_state : W → Result (Option Adoptable)
  unfolding adopt_aleph get_aleph_version
  query_adopt_state w = and_then (get_aleph_version (codes "/") w) (adopt_aleph w)
