-- ===== src/Model.antt =====
-- src/model.rs: the metadata of a bootloader build, the state saved on disk and the status report.
pub mod Upgrade
pub mod Legacy
use bootupd.Base.{Str, ℕ, ◌==◌, ltb, Bool, false, Option, none, some, [], if◌then◌else◌}
use bootupd.Base.Map.{BTreeMap}
use bootupd.Filetree.{FileTree}

-- `chrono::DateTime<Utc>` as the nanoseconds since the earliest instant that it can hold.
abbrev pub DateTime : Type 0
DateTime = ℕ

pub record ContentMetadata : Type 0 where
  pub timestamp : DateTime
  pub version : Str

unfoldable pub can_upgrade_to : ContentMetadata → ContentMetadata → Bool
can_upgrade_to self target =
    if self.version == target.version then false else ltb self.timestamp target.timestamp

pub record InstalledContent : Type 0 where
  pub meta : ContentMetadata
  pub filetree : Option FileTree
  pub adopted_from : Option ContentMetadata

pub record SavedState : Type 0 where
  pub installed : BTreeMap InstalledContent
  pub pending : Option (BTreeMap ContentMetadata)
  pub static_configs : Option ContentMetadata

-- `SavedState::default()`
abbrev pub no_state : SavedState
no_state = record { installed = []; pending = none; static_configs = none }

pub data ComponentUpdatable : Type 0 where
  no_update_available at_latest_version upgradable would_downgrade : ComponentUpdatable

unfoldable pub from_metadata : ContentMetadata → Option ContentMetadata → ComponentUpdatable
unfolding can_upgrade_to
from_metadata from none = no_update_available
from_metadata from (some to) =
    if from.version == to.version
    then at_latest_version
    else if can_upgrade_to from to
    then upgradable
    else would_downgrade

pub record ComponentStatus : Type 0 where
  pub installed : ContentMetadata
  pub interrupted : Option ContentMetadata
  pub update : Option ContentMetadata
  pub updatable : ComponentUpdatable
  pub adopted_from : Option ContentMetadata

pub record Adoptable : Type 0 where
  pub version : ContentMetadata
  pub confident : Bool

pub record Status : Type 0 where
  pub components : BTreeMap ComponentStatus
  pub adoptable : BTreeMap Adoptable
