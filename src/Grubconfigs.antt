-- ===== src/Grubconfigs.antt =====
-- src/grubconfigs.rs: the static files of grub are installed below /boot.
pub mod Written
use bootupd.Base.{
  Str, ℕ, codes, eqb, ◌==◌, ◌++◌, Bool, true, false, not, Option, none, some, List, [], ◌∷◌, Result,
  ok, err, failed, Exec, pure, bail, lift, ask, ◌>>=◌, ◌>>◌, and_then, ok_or, if◌then◌else◌, str_lt,
}
use bootupd.Base.Path.{join}
use bootupd.Component.Tools.{Tools}
use bootupd.Blockdev.{inspect_filesystem}

-- The name of an entry: its bytes, and the text that they are, if they are UTF-8.
pub record FileName : Type 0 where
  pub bytes : List ℕ
  pub to_str : Option Str

-- What the code does in directories that it holds open, which are given by their paths.
pub record ConfigHost (W : Type 0) : Type 0 where
  -- the device that the directory lies on
  pub st_dev : Str → W → Result ℕ
  pub exists_at : Str → Str → W → Result Bool
  pub create_dir : Str → Str → Exec W (Unit {0})
  pub read_to_string : Str → W → Result Str
  pub list_dir : Str → W → Result (List FileName)
  -- a file of the first directory is copied to a path of the second
  pub copy_file_at : Str → Str → Str → Str → Exec W (Unit {0})
  pub write_file_contents : Str → Str → Str → Exec W (Unit {0})
  pub sub_dir_optional : Str → Str → W → Result Bool

abbrev pub grub2dir : Str
grub2dir = codes "grub2"

abbrev pub configdir : Str
configdir = codes "/usr/lib/bootupd/grub2-static"

abbrev pub dropindir : Str
dropindir = codes "configs.d"

-- `sort_by` of the names by their bytes.
insert_name : FileName → List FileName → List FileName
insert_name a [] = a ∷ []
insert_name a (b ∷ rest) = if str_lt b.bytes a.bytes then b ∷ insert_name a rest else a ∷ (b ∷ rest)

unfoldable pub sort_by_name : List FileName → List FileName
unfolding insert_name
sort_by_name [] = []
sort_by_name (a ∷ rest) = insert_name a (sort_by_name rest)

unfoldable pub ends_with : Str → Str → Bool
ends_with [] t = [] == t
ends_with (c ∷ rest) t = let later = ends_with rest t in if (c ∷ rest) == t then true else later

-- The line that reads a file.
abbrev pub source_line : Str → Str
source_line name = codes "source $prefix/" ++ (name ++ codes "\n")

module _ {W : Type 0} (T : Tools W) (H : ConfigHost W) where
  -- The loop over the files of the drop-in directory, with the text so far.
  unfoldable pub install_dropins : Str → Str → List FileName → Str → Exec W Str
  install_dropins dir bootdir [] config = pure config
  install_dropins dir bootdir (ent ∷ rest) config = do
    name ← lift (ok_or ent.to_str (failed "Invalid UTF-8"))
    let others = install_dropins dir bootdir rest config
    if not (ends_with name (codes ".cfg")) then others else do
      H.copy_file_at dir name bootdir (grub2dir ++ (codes "/" ++ name))
      install_dropins dir bootdir rest (config ++ source_line name)

  -- The file with the UUID of the boot file system, and its path.
  unfoldable pub write_uuid_file : Str → Str → Exec W Str
  write_uuid_file target_fs bootdir = do
    bootfs_meta ← ask (inspect_filesystem T target_fs)
    bootfs_uuid ← lift (ok_or bootfs_meta.uuid (failed "Failed to find UUID for boot"))
    H.write_file_contents bootdir (codes "grub2/bootuuid.cfg")
        (codes "set BOOT_UUID=\"" ++ (bootfs_uuid ++ codes "\"\n"))
    pure (codes "grub2/bootuuid.cfg")

  unfoldable pub copy_uuid : Str → Str → Str → Option Str → Exec W (Unit {0})
  copy_uuid bootdir efidir vendor none = pure tt
  copy_uuid bootdir efidir vendor (some uuid_path) =
      H.copy_file_at bootdir uuid_path efidir (join vendor (codes "bootuuid.cfg"))

  -- The files of the vendor on the ESP, where that is mounted.
  unfoldable pub install_vendor : Str → Str → Option Str → Option Str → Exec W (Unit {0})
  unfolding copy_uuid
  install_vendor target_root bootdir none uuid_path = pure tt
  install_vendor target_root bootdir (some vendor) uuid_path = do
    there ← ask (H.sub_dir_optional target_root (codes "boot/efi/EFI"))
    let efidir = join target_root (codes "boot/efi/EFI")
    if not there then pure tt else do
      H.copy_file_at configdir (codes "grub-static-efi.cfg") efidir (join vendor (codes "grub.cfg"))
      copy_uuid bootdir efidir vendor uuid_path

  unfoldable pub uuid_if : Bool → Str → Str → Exec W (Option Str)
  unfolding write_uuid_file
  uuid_if false target_fs bootdir = pure none
  uuid_if true target_fs bootdir = do path ← write_uuid_file target_fs bootdir; pure (some path)

  unfoldable pub install : Str → Option Str → Bool → Exec W (Unit {0})
  unfolding install_dropins uuid_if install_vendor sort_by_name
  install target_root installed_efi_vendor write_uuid = do
    ask (T.sub_dir target_root (codes "boot"))
    let bootdir = join target_root (codes "boot")
    root_dev ← ask (H.st_dev target_root)
    boot_dev ← ask (H.st_dev bootdir)
    there ← ask (H.exists_at bootdir grub2dir)
    if there then pure tt else H.create_dir bootdir grub2dir
    pre ← ask (H.read_to_string (join configdir (codes "grub-static-pre.cfg")))
    ask (T.open_dir (join configdir dropindir))
    entries ← ask (H.list_dir (join configdir dropindir))
    config ← install_dropins (join configdir dropindir) bootdir (sort_by_name entries) pre
    post ← ask (H.read_to_string (join configdir (codes "grub-static-post.cfg")))
    H.write_file_contents bootdir (codes "grub2/grub.cfg") (config ++ post)
    uuid_path ← uuid_if write_uuid (if eqb root_dev boot_dev then target_root else bootdir) bootdir
    install_vendor target_root bootdir installed_efi_vendor uuid_path
