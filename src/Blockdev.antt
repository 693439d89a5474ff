-- ===== src/Blockdev.antt =====
-- src/blockdev.rs and src/filesystem.rs: the devices under a root, and their boot partitions.
pub mod Colocated
use bootupd.Base.{
  Str, codes, ◌==◌, Option, none, some, List, [], ◌∷◌, Result, ok, err, failed, and_then, ok_or,
  if◌then◌else◌, not,
}
use bootupd.Base.Path.{join}
use bootupd.Component.Tools.{Tools, Partition, Filesystem}

abbrev first {ℓ} : {A : Type ℓ} → List A → Option A
first [] = none
first (a ∷ _) = some a

-- `find(|p| p.parttype == guid)`
find_type : Str → List Partition → Option Partition
find_type guid [] = none
find_type guid (p ∷ rest) = if p.parttype == guid then some p else find_type guid rest

abbrev node_of : Option Partition → Option Str
node_of none = none
node_of (some p) = some p.node

abbrev pub esp_type_guid : Str
esp_type_guid = codes "C12A7328-F81F-11D2-BA4B-00A0C93EC93B"

abbrev pub bios_boot_type_guid : Str
bios_boot_type_guid = codes "21686148-6449-6E6F-744E-656564454649"

module _ {W : Type 0} (T : Tools W) where
  unfoldable pub inspect_filesystem : Str → W → Result Filesystem
  inspect_filesystem root w =
      and_then (T.findmnt root w) (λ o. ok_or (first o) (failed "findmnt returned no data"))

  unfoldable pub get_devices : Str → W → Result (List Str)
  unfolding inspect_filesystem
  get_devices target_root w =
      if not (T.exists (join target_root (codes "boot")) w)
      then err (failed "boot does not exist")
      else and_then (T.open_dir (join target_root (codes "boot")) w) λ _.
        and_then (inspect_filesystem (join target_root (codes "boot")) w)
          (λ fsinfo. T.find_parent_devices fsinfo.source w)

  single : List Str → Result Str
  single [] = err (failed "Failed to find parent device")
  single (parent ∷ []) = ok parent
  single (_ ∷ (_ ∷ _)) = err (failed "Found multiple parent devices")

  unfoldable pub get_single_device : Str → W → Result Str
  unfolding single
  get_single_device target_root w = and_then (get_devices target_root w) single

  unfoldable pub get_esp_partition : W → Str → Result (Option Str)
  unfolding find_type
  get_esp_partition w device =
      and_then (T.partitions_of device w) (λ table. ok (node_of (find_type esp_type_guid table)))

  unfoldable pub get_bios_boot_partition : W → Str → Result (Option Str)
  unfolding find_type
  get_bios_boot_partition w device =
      and_then (T.partitions_of device w)
        (λ table. ok (node_of (find_type bios_boot_type_guid table)))

  abbrev pub push : Option Str → List Str → List Str
  push none found = found
  push (some node) found = node ∷ found

  -- The loops over the devices; the nodes are found in their order.
  collect : (Str → Result (Option Str)) → List Str → Result (List Str)
  collect partition [] = ok []
  collect partition (device ∷ devices) =
      let rest = collect partition devices in
      and_then (partition device) (λ node. and_then rest (λ found. ok (push node found)))

  unfoldable pub find_colocated_esps : Str → W → Result (List Str)
  unfolding collect
  find_colocated_esps target_root w =
      and_then (get_devices target_root w) (collect (get_esp_partition w))

  unfoldable pub find_colocated_bios_boot : Str → W → Result (List Str)
  unfolding collect
  find_colocated_bios_boot target_root w =
      and_then (get_devices target_root w) (collect (get_bios_boot_partition w))
