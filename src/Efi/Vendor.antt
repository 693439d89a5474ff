-- ===== src/Efi/Vendor.antt =====
-- src/efi.rs: the directory of the vendor, by the one shim of the image.
use bootupd.Base.{
  Str, codes, ◌==◌, Bool, true, Option, none, some, List, [], ◌∷◌, Result, ok, err, failed,
  panicked, and_then, ok_or, if◌then◌else◌,
}
use bootupd.Component.Tools.{Tools}
use bootupd.Component.Available.{component_updatedirname}
use bootupd.Base.Path.{join}
use bootupd.Efi.{after_last_slash, shim}
use bootupd.Efi.Host.{Host, DirEntry}
use bootupd.Filetree.Apply.{dir_name}

abbrev pub efi_name : Str
efi_name = codes "EFI"

-- Whether the entry is a file of that name, and its path then.
abbrev pub matching : Str → Bool → Option Str → Option Str → Option Str
matching target true (some name) path = if name == target then path else none
matching target _ _ path = none

abbrev push_path : Option Str → List Str → List Str
push_path none result = result
push_path (some path) result = path ∷ result

-- The loop over what walkdir finds.
unfoldable pub matching_files : Str → List DirEntry → List Str
matching_files target [] = []
matching_files target (e ∷ rest) =
    push_path (matching target e.is_file e.file_name e.path) (matching_files target rest)

abbrev root_or : Option Str → Str
root_or none = []
root_or (some []) = codes "/"
root_or (some (c ∷ dir)) = c ∷ dir

-- `Path::parent` and `Path::file_name` of a path whose names are joined by single slashes.
unfoldable pub parent : Str → Option Str
parent [] = none
parent (c ∷ path) = if (c ∷ path) == codes "/" then none else some (root_or (dir_name (c ∷ path)))

unfoldable pub file_name : Str → Option Str
file_name [] = none
file_name (d ∷ path) = elim (after_last_slash (d ∷ path)) [
  | none ↦ some (d ∷ path)
  | some [] ↦ none
  | some (c ∷ name) ↦ some (c ∷ name)
]

-- The name of the directory that a shim lies in.
unfoldable pub vendor_of : Str → Result (Option Str)
unfolding parent file_name
vendor_of path = elim (parent path) [
  | none ↦ err (panicked "called `Option::unwrap()` on a `None` value")
  | some dir ↦ and_then (ok_or (file_name dir) (failed "No file name found")) (λ p. ok (some p))
]

abbrev pub vendor_of_files : List Str → Result (Option Str)
vendor_of_files [] = err (failed "Failed to find shimx64.efi in the image")
vendor_of_files (p ∷ []) = vendor_of p
vendor_of_files (_ ∷ (_ ∷ _)) = err (failed "Found multiple shimx64.efi in the image")

module _ {W : Type 0} (T : Tools W) (H : Host W) where
  unfoldable pub find_file_recursive : Str → Str → W → Result (List Str)
  unfolding matching_files
  find_file_recursive dir target w = ok (matching_files target (H.walk dir w))

  unfoldable pub get_efi_vendor : Str → W → Result (Option Str)
  unfolding find_file_recursive vendor_of
  get_efi_vendor sysroot w = and_then (T.sub_dir sysroot (component_updatedirname efi_name) w) λ _.
      and_then (T.fd_path (join sysroot (component_updatedirname efi_name)) w)
        λ updated. and_then (find_file_recursive updated shim w) vendor_of_files
