-- ===== src/Efi/Mount.antt =====
-- src/efi.rs: the mount of the EFI system partition, which the component keeps for its lifetime.
pub mod Mounted
pub mod Dropped
use mathlib.Core.Option.{get_or}
use bootupd.Base.{
  Str, ℕ, codes, eqb, Bool, true, false, not, ◌&&◌, Option, none, some, List, [], ◌∷◌, Result, ok,
  err, failed, panicked, Exec, pure, bail, lift, ask, ◌>>=◌, ◌>>◌, ok_or, if◌then◌else◌, is_some,
}
use bootupd.Base.Path.{join}
use bootupd.Component.Tools.{Tools}
use bootupd.Packagesystem.Query.{run}
use bootupd.Statefile.{Platform, ensure_writable_mount}
use bootupd.Bios.{is_efi_booted}
use bootupd.Efi.Host.{Host}

abbrev pub esp_mounts : List Str
esp_mounts = codes "boot/efi" ∷ codes "efi" ∷ codes "boot" ∷ []

abbrev coreos_esp_part_label : Str
coreos_esp_part_label = codes "EFI-SYSTEM"

abbrev anaconda_esp_part_label : Str
anaconda_esp_part_label = codes "EFI\\x20System\\x20Partition"

-- `libc::MSDOS_SUPER_MAGIC`
abbrev pub msdos_super_magic : ℕ
msdos_super_magic = 19780

abbrev root_dir : Str
root_dir = codes "/"

abbrev pub mount_args : Str → Str → List Str
mount_args device mnt = codes "mount" ∷ device ∷ mnt ∷ []

abbrev pub umount_args : Str → List Str
umount_args mnt = codes "umount" ∷ mnt ∷ []

module _ (P : Platform) (T : Tools P.Machine) (H : Host P.Machine) where
  -- The first path that exists.
  unfoldable pub first_existing : List Str → P.Machine → Option Str
  first_existing [] w = none
  first_existing (path ∷ rest) w = if T.exists path w then some path else first_existing rest w

  unfoldable pub get_esp_device : P.Machine → Option Str
  unfolding first_existing join
  get_esp_device = first_existing (
      join (codes "/dev/disk/by-partlabel/") coreos_esp_part_label
      ∷ join (codes "/dev/disk/by-partlabel/") anaconda_esp_part_label
      ∷ [])

  -- The first loop: an EFI system partition that is mounted already.
  unfoldable pub find_mounted : Str → List Str → Exec P.Machine (Option Str)
  find_mounted root [] = pure none
  find_mounted root (mnt ∷ rest) = do
    here ← ask (λ w. ok (T.exists (join root mnt) w))
    let others = find_mounted root rest
    if not here then others else do
      f_type ← ask (H.statfs (join root mnt))
      if not (eqb f_type msdos_super_magic)
          then others
          else do ensure_writable_mount P (join root mnt); pure (some (join root mnt))

  -- The cell is set.
  unfoldable pub set_cell : Option Str → Exec P.Machine (Unit {0})
  set_cell m w = (ok tt, H.set_mountpoint m w)

  -- The second loop: the device is mounted at the first place that exists.
  unfoldable pub mount_first : Str → Str → List Str → Exec P.Machine (Unit {0})
  mount_first device root [] = pure tt
  mount_first device root (mnt ∷ rest) = do
    here ← ask (λ w. ok (T.exists (join root mnt) w))
    if not here
        then mount_first device root rest
        else do run T (mount_args device (join root mnt)); set_cell (some (join root mnt))

  -- What follows the first loop, by what it found.
  unfoldable pub mount_esp : Str → Option Str → Exec P.Machine Str
  mount_esp root (some mnt) = pure mnt
  mount_esp root none = do
    device ← ask (λ w. ok_or (get_esp_device w) (failed "Failed to find ESP device"))
    mount_first device root esp_mounts
    ask (λ w. ok_or (H.mountpoint w) (panicked "called `Option::unwrap()` on a `None` value"))

  -- By what the cell has.
  unfoldable pub ensure_mounted : Str → Option Str → Exec P.Machine Str
  ensure_mounted root (some mountpoint) = pure mountpoint
  ensure_mounted root none = do found ← find_mounted root esp_mounts; mount_esp root found

  unfoldable pub ensure_mounted_esp : Str → Exec P.Machine Str
  unfolding ensure_mounted
  ensure_mounted_esp root w = ensure_mounted root (H.mountpoint w) w

  unfoldable pub unmount_at : Option Str → Exec P.Machine (Unit {0})
  unmount_at none = pure tt
  unmount_at (some mount) = set_cell none >> run T (umount_args mount)

  unfoldable pub unmount : Exec P.Machine (Unit {0})
  unfolding unmount_at
  unmount w = unmount_at (H.mountpoint w) w

  -- The value is dropped, and an error ignored.
  unfoldable pub drop : P.Machine → P.Machine
  drop w = (unmount w).1

  unfoldable pub esp_path : Exec P.Machine Str
  esp_path = do v ← ensure_mounted_esp root_dir; pure (join v (codes "EFI"))

  -- A directory that is opened, by its path.
  unfoldable pub open_esp : Exec P.Machine Str
  open_esp = do
    ensure_mounted_esp root_dir
    ask (T.open_dir root_dir)
    path ← esp_path
    ask (T.sub_dir root_dir path)
    pure path

  unfoldable pub open_esp_optional : Exec P.Machine (Option Str)
  open_esp_optional = do
    booted ← ask (is_efi_booted T)
    device ← ask (λ w. ok (get_esp_device w))
    if not booted && not (is_some device) then pure none else do
      ask (T.open_dir root_dir)
      path ← esp_path
      there ← ask (H.sub_dir_optional root_dir path)
      pure (if there then some path else none)

  unfoldable pub validate_esp : Str → P.Machine → Result (Unit {0})
  validate_esp dir w = elim (H.fstatfs dir w) [
    | err e ↦ err e
    | ok f_type ↦
        if not (eqb f_type msdos_super_magic)
        then err (failed "EFI mount is not a msdos filesystem")
        else ok tt
  ]
