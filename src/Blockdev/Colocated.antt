-- ===== src/Blockdev/Colocated.antt =====
-- The partitions found on all devices of a root.
use bootupd.Base.{
  Str, ◌≡◌, ◌≢◌, refl, ap, sym, ◌∙◌, ◌↔◌, ◌⊎◌, inl, inr, Option, none, some, List, [], ◌∷◌, Result,
  ok, and_then, and_then-ok, ok_inj, arith,
}
use bootupd.Component.Tools.{Tools, Partition}
use bootupd.Blockdev.{
  get_devices, get_esp_partition, get_bios_boot_partition, collect, push, find_type, node_of,
  find_colocated_esps, find_colocated_bios_boot, esp_type_guid, bios_boot_type_guid,
}

-- The first partition of a type in a table, if there is one.
abbrev pub Chosen : Str → List Partition → Option Str → Type 0
Chosen guid [] r = r ≡ none
Chosen guid (p ∷ table) r =
    ((p.parttype ≡ guid) × (r ≡ some p.node)) ⊎ ((p.parttype ≢ guid) × Chosen guid table r)

find_type-Chosen :
    (guid : Str) (table : List Partition) → Chosen guid table (node_of (find_type guid table))
unfolding find_type
find_type-Chosen guid [] = refl
find_type-Chosen guid (p ∷ table) = ground (arith, find_type-Chosen guid table)

Chosen-unique :
    (guid : Str) (table : List Partition) (r : Option Str)
    → Chosen guid table r
    → r ≡ node_of (find_type guid table)
unfolding find_type
Chosen-unique guid [] r h = h
Chosen-unique guid (p ∷ table) r (inl (e, h)) = ground arith
Chosen-unique guid (p ∷ table) r (inr (n, h)) = ground (arith, Chosen-unique guid table r h)

module _ {W : Type 0} (T : Tools W) (w : W) (guid : Str) where
  -- The nodes are the first partitions of the type on the devices that have one, in their order,
  -- and every device has a table.
  abbrev pub Colocated : List Str → List Str → Type 0
  Colocated [] nodes = nodes ≡ []
  Colocated (device ∷ devices) nodes =
      (table : List Partition) × (r : Option Str) × (rest : List Str) × (T.partitions_of device w
        ≡ ok table)
      × Chosen guid table r
      × Colocated devices rest
      × (nodes ≡ push T r rest)

  abbrev partition : Str → Result (Option Str)
  partition device =
      and_then (T.partitions_of device w) (λ table. ok (node_of (find_type guid table)))

  collect-Colocated :
      (devices nodes : List Str) → collect T partition devices ≡ ok nodes → Colocated devices nodes
  unfolding collect
  collect-Colocated [] nodes h = cc
  collect-Colocated (device ∷ devices) nodes h =
      let (node, e, h1) = and_then-ok (partition device) _ h in
      let (table, t, e1) = and_then-ok (T.partitions_of device w) _ e in
      let (rest, g, h2) = and_then-ok (collect T partition devices) _ h1 in
      (
        table,
        node_of (find_type guid table),
        rest,
        t,
        find_type-Chosen guid table,
        collect-Colocated devices rest g,
        sym (ok_inj h2) ∙ ap (λ x. push T x rest) (sym (ok_inj e1)),
      )

  Colocated-collect :
      (devices nodes : List Str) → Colocated devices nodes → collect T partition devices ≡ ok nodes
  unfolding collect
  Colocated-collect [] nodes h = ap ok (sym h)
  Colocated-collect (device ∷ devices) nodes (table, r, rest, t, c, l, e) =
      rw (t, Colocated-collect devices rest l)
        (ap ok (ap (λ x. push T x rest) (sym (Chosen-unique guid table r c)) ∙ sym e))

module _ {W : Type 0} (T : Tools W) (root : Str) (w : W) (nodes : List Str) where
  abbrev pub Found : Str → Type 0
  Found guid =
      (devices : List Str) × (get_devices T root w ≡ ok devices) × Colocated T w guid devices nodes

  collect_iff :
      (guid : Str)
      → (and_then (get_devices T root w) (collect T (partition T w guid)) ≡ ok nodes) ↔ Found guid
  collect_iff guid = (
    λ h.
        let (devices, e, g) = and_then-ok (get_devices T root w) _ h in
        (devices, e, collect-Colocated T w guid devices nodes g),
    λ (devices, e, c). rw e (Colocated-collect T w guid devices nodes c),
  )

  -- The two searches over the devices of a root succeed exactly if the devices are found and each
  -- has a partition table, and then give, in the order of the devices, the first ESP (the first BIOS
  -- boot partition) of each device that has one.
  pub find_colocated_iff :
      ((find_colocated_esps T root w ≡ ok nodes) ↔ Found esp_type_guid)
      × ((find_colocated_bios_boot T root w ≡ ok nodes) ↔ Found bios_boot_type_guid)
  unfolding find_colocated_esps find_colocated_bios_boot get_esp_partition get_bios_boot_partition
  find_colocated_iff = (collect_iff esp_type_guid, collect_iff bios_boot_type_guid)
