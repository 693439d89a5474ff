-- ===== src/Bootupd/Print.antt =====
-- `print_status` of src/bootupd.rs and `run_status_in_container` of src/cli/bootupctl.rs, as actions
-- on the lines that are printed so far.
use bootupd.Base.{
  Str, codes, Bool, true, false, Option, none, some, List, [], ◌∷◌, ◌++◌, Result, ok, panicked,
  Exec, pure, lift, ◌>>=◌, ◌>>◌, and_then, ok_or, if◌then◌else◌, is_empty,
}
use bootupd.Base.Map.{BTreeMap}
use bootupd.Model.{
  ContentMetadata, ComponentUpdatable, no_update_available, at_latest_version, upgradable,
  would_downgrade, ComponentStatus, Adoptable, Status,
}
use bootupd.Bootupd.Status.{status}
use bootupd.Bootupd.Generate.{spaced}

abbrev pub Print : Type 0
Print = Exec (List Str) (Unit {0})

unfoldable pub println : Str → Print
println line out = (ok tt, out ++ (line ∷ []))

-- The warning about an interrupted update.
unfoldable pub print_interrupted : Option ContentMetadata → Print
unfolding println
print_interrupted none = pure tt
print_interrupted (some i) =
    println (codes "  WARNING: Previous update to " ++ (i.version ++ codes " was interrupted"))

unfoldable pub update_message : ComponentUpdatable → Option ContentMetadata → Result Str
update_message no_update_available update = ok (codes "No update found")
update_message at_latest_version update = ok (codes "At latest version")
update_message would_downgrade update = ok (codes "Ignoring downgrade")
update_message upgradable update =
    and_then (ok_or update (panicked "update")) (λ u. ok (codes "Available: " ++ u.version))

unfoldable pub print_component : Str → ComponentStatus → Print
unfolding println print_interrupted update_message
print_component name component = do
  println (codes "Component " ++ name)
  println (codes "  Installed: " ++ component.installed.version)
  print_interrupted component.interrupted
  msg ← lift (update_message component.updatable component.update)
  println (codes "  Update: " ++ msg)

unfoldable pub print_components : List (Str × ComponentStatus) → Print
unfolding print_component
print_components [] = pure tt
print_components ((name, component) ∷ rest) = do
  print_component name component
  print_components rest

unfoldable pub print_adoptable : Str → Adoptable → Print
unfolding println
print_adoptable name adopt = println (
    (if adopt.confident then codes "Detected: " else codes "Adoptable: ")
    ++ (name ++ (codes ": " ++ adopt.version.version)))

unfoldable pub print_adoptables : List (Str × Adoptable) → Print
unfolding print_adoptable
print_adoptables [] = pure tt
print_adoptables ((name, adopt) ∷ rest) = do print_adoptable name adopt; print_adoptables rest

unfoldable pub print_aleph : Option ContentMetadata → Print
unfolding println
print_aleph none = pure tt
print_aleph (some coreos_aleph) = println (codes "CoreOS aleph version: " ++ coreos_aleph.version)

-- The components of both kinds.
unfoldable pub print_listed : Status → Print
unfolding println print_components print_adoptables
print_listed status = do
  if is_empty status.components then println (codes "No components installed.") else pure tt
  print_components status.components
  if is_empty status.adoptable then println (codes "No components are adoptable.") else pure tt
  print_adoptables status.adoptable

unfoldable pub print_machine : Result (Option ContentMetadata) → Result Bool → Print
unfolding println print_aleph
print_machine aleph booted = do
  coreos_aleph ← lift aleph
  print_aleph coreos_aleph
  boot_method ← lift booted
  println (codes "Boot method: " ++ (if boot_method then codes "EFI" else codes "BIOS"))

-- The last two arguments are `get_aleph_version(Path::new("/"))` and `is_efi_booted()`.
unfoldable pub print_status : Status → Result (Option ContentMetadata) → Result Bool → Print
unfolding print_listed print_machine
print_status status aleph booted = do print_listed status; print_machine aleph booted

keys : {V : Type 0} → BTreeMap V → List Str
keys [] = []
keys ((name, _) ∷ rest) = name ∷ keys rest

-- With the components that there are; serde_json writes the names.
unfoldable pub run_status_in_container :
    {V : Type 0} → (List Str → Result (Unit {0})) → BTreeMap V → Bool → Print
unfolding println keys
run_status_in_container to_writer [] json = pure tt
run_status_in_container to_writer (c ∷ rest) true = lift (to_writer (keys (c ∷ rest)))
run_status_in_container to_writer (c ∷ rest) false =
    println (codes "Available components: " ++ spaced (keys (c ∷ rest)))
