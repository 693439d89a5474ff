-- ===== src/Model/Upgrade.antt =====
-- The order that `can_upgrade_to` puts on builds, and the status that is shown of it.
use bootupd.Base.{◌≤◌, ◌<◌, ◌≡◌, ◌≢◌, ◌↔◌, true, false, some, none, arith}
use bootupd.Model.{
  ContentMetadata, can_upgrade_to, from_metadata, no_update_available, at_latest_version,
  upgradable, would_downgrade,
}

pub can_upgrade_to_iff :
    (a b : ContentMetadata)
    → (can_upgrade_to a b ≡ true) ↔ ((a.version ≢ b.version) × (a.timestamp < b.timestamp))
unfolding can_upgrade_to
can_upgrade_to_iff a b = ground arith

-- The four verdicts exclude each other: no update without one to compare, the latest version on an
-- equal version whatever its date, an upgrade exactly where `update` would go ahead, and a
-- downgrade for another version that is not newer.
pub from_metadata_iff :
    (a b : ContentMetadata)
    → (from_metadata a none ≡ no_update_available)
      × ((from_metadata a (some b) ≡ at_latest_version) ↔ (a.version ≡ b.version))
      × ((from_metadata a (some b) ≡ upgradable) ↔ (can_upgrade_to a b ≡ true))
      × ((from_metadata a (some b) ≡ would_downgrade)
          ↔ ((a.version ≢ b.version) × (b.timestamp ≤ a.timestamp)))
unfolding from_metadata
from_metadata_iff a b = ground arith

-- A chain of upgrades, each allowed by `can_upgrade_to`.
pub data Upgrades (a : ContentMetadata) : ContentMetadata → Type 0 where
  one : {b : ContentMetadata} → can_upgrade_to a b ≡ true → Upgrades a b
  more : {b c : ContentMetadata} → Upgrades a b → can_upgrade_to b c ≡ true → Upgrades a c

Upgrades-lt : {a c : ContentMetadata} → Upgrades a c → a.timestamp < c.timestamp
Upgrades-lt {a} (one {b} h) = ((can_upgrade_to_iff a b).0 h).1
Upgrades-lt {a} (more {b} {c} u h) = omega (arith, Upgrades-lt u, ((can_upgrade_to_iff b c).0 h).1)

-- However many upgrades follow each other, the last build is newer than the first, so no chain of
-- them leads back to where it began, and none leads back by one more upgrade.
pub Upgrades-newer :
    (a c : ContentMetadata)
    → Upgrades a c
    → (a.timestamp < c.timestamp) × (can_upgrade_to c a ≡ false)
unfolding can_upgrade_to
Upgrades-newer a c u = let h = Upgrades-lt u in (h, ground arith)
