-- ===== src/Tests/Migrating.antt =====
-- An update of the ESP of that machine, path by path.
use mathlib.Core.Path.{subst}
use bootupd.Base.{
  Str, ℕ, codes, ◌==◌, ◌≡◌, refl, sym, ap, ◌∙◌, true, false, Option, none, some, List, [], ◌∷◌,
  Result, ok, is_some, contains, Bool-cases, inl, inr, str_eq, if◌then◌else◌,
}
use bootupd.Base.Map.{get}
use bootupd.Base.Split.{split_once}
use bootupd.Filetree.{FileMetadata, FileTree, diff}
use bootupd.Filetree.Scan.{new_from_dir, end}
use bootupd.Filetree.Disk.{IsDisk, Top}
use bootupd.Filetree.Apply.{place_of, tmp_name, cleanup_dir}
use bootupd.Filetree.Apply.Removal.{removed_from}
use bootupd.Filetree.Apply.View.{IsLive}
use bootupd.Filetree.Apply.Applied.{IsTidy, AreListed, cleaned, files_at}
use bootupd.Efi.Mount.{
  ensure_mounted_esp, open_esp, esp_path, ensure_mounted, find_mounted, mount_esp, mount_first,
  get_esp_device, first_existing, set_cell,
}
use bootupd.Efi.Operations.{run_update, read_update_dir}
use bootupd.Efi.Updates.{mounted}
use bootupd.Efi.Updated.{on_esp, run_update-on_esp}
use bootupd.Packagesystem.Query.{run}
use bootupd.Tests.Folder.{top, folder, folder-IsDisk}
use bootupd.Tests.Esp.{
  Station, station, tools, host, idle, esp_disk, source, installed, updated, updates, old_tree,
  new_tree, old_tree-IsTree,
}

abbrev esp_top : Station → Str → Top
esp_top w = top w.esp

abbrev K : IsDisk top source (folder end source)
K = folder-IsDisk end source

esp_disk-IsDisk : IsDisk esp_top source esp_disk
esp_disk-IsDisk = record {
  exists_tells = λ x w. K.exists_tells x w.esp;
  cp_spares = λ x y z w. K.cp_spares x y z w.esp;
  cp_copies = λ x y w. K.cp_copies x y w.esp;
  remove_file_spares = λ p z w. K.remove_file_spares p z w.esp;
  remove_file_removes = λ y w. K.remove_file_removes y w.esp;
  remove_all_spares = λ p z w. K.remove_all_spares p z w.esp;
  remove_all_removes = λ y w. K.remove_all_removes y w.esp;
  optional_spares = λ p z w. K.optional_spares p z w.esp;
  optional_removes = λ y w. K.optional_removes y w.esp;
  optional_removes_below = λ y r w. K.optional_removes_below y r w.esp;
  ensure_spares = λ p z w. K.ensure_spares p z w.esp;
  ensure_makes = λ p w. K.ensure_makes p w.esp;
  copy_spares = λ s p z w. K.copy_spares s p z w.esp;
  copy_copies = λ s p w. K.copy_copies s p w.esp;
  exchange_swaps = λ a b w. K.exchange_swaps a b w.esp;
  exchange_failed = λ a b w. K.exchange_failed a b w.esp;
  rename_moves = λ a b w. K.rename_moves a b w.esp;
  rename_failed = λ a b w. K.rename_failed a b w.esp;
  sync_keeps = λ w. refl;
}

-- With the ESP mounted, before anything is applied to it.
abbrev ready : Station
ready = record idle { cell = some (codes "/boot/efi") }

is_ready : mounted station tools host idle ≡ ready
unfolding open_esp esp_path ensure_mounted_esp ensure_mounted find_mounted mount_esp mount_first
    get_esp_device first_existing run set_cell bootupd.Base.Path.join bootupd.Base.str_dec
is_ready = refl

opens :
    (open_esp station tools host (ensure_mounted_esp station tools host (codes "/") idle).1).0
    ≡ ok (codes "/boot/efi/EFI")
unfolding open_esp esp_path ensure_mounted_esp ensure_mounted find_mounted mount_esp mount_first
    get_esp_device first_existing run set_cell bootupd.Base.Path.join bootupd.Base.str_dec
opens = refl

reads : read_update_dir station tools host idle ≡ ok new_tree
unfolding read_update_dir new_from_dir bootupd.Filetree.Scan.scan_entries
    bootupd.Filetree.Scan.add_child bootupd.Base.Map.insert bootupd.Base.str_dec bootupd.Base.str_lt
reads = refl

lists : AreListed esp_top source esp_disk esp_disk-IsDisk (mounted station tools host idle)
unfolding bootupd.Base.str_dec
lists x = inl (ap (λ (w : Station). is_some (top w.esp (tmp_name x))) is_ready ∙ free)
  where
    free : is_some (top idle.esp (tmp_name x)) ≡ false
    free = refl

-- What the ESP holds on a machine once the cleanup has run.
abbrev held_on : Station → Str → Option Str → Option FileMetadata
held_on w =
    files_at esp_top source esp_disk esp_disk-IsDisk
      (cleaned esp_top source esp_disk esp_disk-IsDisk w)

nothing_below :
    (x q : Str)
    → contains (codes "fedora/b.cfg" ∷ []) x ≡ true
    → removed_from (held_on ready) (codes "fedora/a.cfg" ∷ []) x (some q) ≡ none
unfolding cleanup_dir removed_from place_of split_once bootupd.Base.str_dec
nothing_below x q h = elim (Bool-cases (x == codes "fedora")) [
  | inl e ↦ absurd (other_name (codes "fedora") (str_eq x (codes "fedora") e) refl)
  | inr m ↦ rw m refl
]
  where
    other_name : (y : Str) → x ≡ y → contains (codes "fedora/b.cfg" ∷ []) y ≡ false → ⊥
    other_name y e k = let c = sym h ∙ ap (contains (codes "fedora/b.cfg" ∷ [])) e ∙ k in cc

ready-IsTidy : IsTidy (diff old_tree new_tree) none (held_on ready)
unfolding diff get place_of split_once bootupd.Base.set_insert bootupd.Base.str_dec
ready-IsTidy = ((refl, refl, tt), (refl, refl, tt), nothing_below)

tidy : IsTidy (diff old_tree new_tree) none (held_on (mounted station tools host idle))
tidy = subst (λ w. IsTidy (diff old_tree new_tree) none (held_on w)) (sym is_ready) ready-IsTidy

abbrev path : Str
path = codes "fedora/a.cfg"

ready-held : held_on ready (place_of path).0 (place_of path).1 ≡ get old_tree.children path
unfolding cleanup_dir place_of split_once get bootupd.Base.str_dec
ready-held = refl

held :
    held_on (mounted station tools host idle) (place_of path).0 (place_of path).1
    ≡ get old_tree.children path
held = ap (λ w. held_on w (place_of path).0 (place_of path).1) is_ready ∙ ready-held

first-IsLive : IsLive (place_of path).0
unfolding place_of split_once
first-IsLive = refl

-- The old file is gone, as the update has it no more.
run_update-on_esp_example :
    (on_esp station tools host idle installed updated old_tree new_tree old_tree-IsTree refl reads
        (codes "/boot/efi/EFI")
        opens
        esp_top
        source
        esp_disk-IsDisk
        lists
        tidy
        path
        first-IsLive
        (run_update station tools host installed idle).1
      ≡ get new_tree.children path)
    × (updated.filetree ≡ some new_tree)
run_update-on_esp_example =
    run_update-on_esp station tools host idle installed updated old_tree new_tree old_tree-IsTree
      refl reads (codes "/boot/efi/EFI") opens esp_top source esp_disk-IsDisk lists tidy path
      first-IsLive held refl updates
