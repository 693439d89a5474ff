-- ===== src/Efi/Firmware.antt =====
-- src/efi.rs: the boot entry of an installation, and what firmware variables tell of systemd-boot.
use bootupd.Base.{
  Str, ℕ, codes, ◌+◌, Bool, true, false, not, Option, none, some, List, [], ◌∷◌, Result, ok, err,
  panicked, Exec, pure, bail, ask, ◌>>=◌, ◌>>◌, and_then, if◌then◌else◌, is_some, starts_with,
  is_empty,
}
use Prim.Native.Nat.{◌*◌}
use bootupd.Base.Path.{join}
use bootupd.Component.Tools.{Tools}
use bootupd.Bios.{is_efi_booted}
use bootupd.Efi.{clear_efi_target, create_efi_boot_entry}
use bootupd.Efi.Host.{Host}

abbrev pub loader_info_var_str : Str
loader_info_var_str = codes "LoaderInfo-4a67b082-0a4c-41cf-b6c7-440b29bb8c4f"

abbrev pub stub_info_var_str : Str
stub_info_var_str = codes "StubInfo-4a67b082-0a4c-41cf-b6c7-440b29bb8c4f"

abbrev pub efivars : Str
efivars = codes "/sys/firmware/efi/efivars"

-- The bytes in pairs, the lower first; an odd one at the end is dropped.
unfoldable pub utf16_units : List ℕ → List ℕ
utf16_units [] = []
utf16_units (_ ∷ []) = []
utf16_units (low ∷ (high ∷ rest)) = (low + high * 256) ∷ utf16_units rest

module _ {W : Type 0} (T : Tools W) (H : Host W) where
  unfoldable pub get_product_name : W → Result Str
  get_product_name w =
      if T.exists (codes "/etc/system-release") w
      then and_then (H.read_to_string (codes "/etc/system-release") w)
          (λ content. ok (H.without_release content))
      else H.os_release_name w

  unfoldable pub update_firmware : Str → Str → Str → Exec W (Unit {0})
  unfolding get_product_name
  update_firmware device espdir vendordir = do
    booted ← ask (is_efi_booted T)
    if not booted then pure tt else do
      ask (T.open_dir (codes "/"))
      product_name ← ask get_product_name
      if is_empty product_name
          then bail (panicked "assertion failed: product_name.len() > 0")
          else do
            clear_efi_target T H.to_lowercase H.read_to_string H.exists_at product_name
            create_efi_boot_entry T H.to_lowercase H.read_to_string H.exists_at device espdir
                vendordir product_name

  -- `unwrap` of a text with a nul inside panics.
  unfoldable pub string_from_utf16_bytes : List ℕ → Result Str
  string_from_utf16_bytes slice = elim (H.from_vec (utf16_units slice)) [
    | ok text ↦ ok text
    | err _ ↦ err (panicked "called `Result::unwrap()` on an `Err` value")
  ]

  -- The first 4 bytes are the attributes.
  unfoldable pub var_text : Result (List ℕ) → Result (Option Str)
  unfolding string_from_utf16_bytes
  var_text (err _) = ok none
  var_text (ok (_ ∷ (_ ∷ (_ ∷ (_ ∷ rest))))) =
      and_then (string_from_utf16_bytes rest) (λ text. ok (some text))
  var_text (ok _) = ok none

  -- An error stands for a panic.
  unfoldable pub read_efi_var_utf16_string : Str → W → Result (Option Str)
  read_efi_var_utf16_string name w =
      if not (T.exists efivars w)
      then ok none
      else if not (T.exists (join efivars name) w)
      then ok none
      else var_text (H.read (join efivars name) w)

  unfoldable pub get_loader_info : W → Result (Option Str)
  get_loader_info = read_efi_var_utf16_string loader_info_var_str

  unfoldable pub get_stub_info : W → Result (Option Str)
  get_stub_info = read_efi_var_utf16_string stub_info_var_str

  abbrev pub is_systemd : Option Str → Bool
  is_systemd none = false
  is_systemd (some loader_info) = starts_with loader_info (codes "systemd")

  unfoldable pub skip_systemd_bootloaders : W → Result Bool
  skip_systemd_bootloaders w = and_then (get_loader_info w) λ loader_info.
      if is_systemd loader_info
      then ok true
      else and_then (get_stub_info w) (λ stub_info. ok (is_some stub_info))
