-- ===== src/Efi/Updated.antt =====
-- An update of the component for EFI, from the recorded files to those of the update, on the disk.
use mathlib.Core.Path.{subst}
use bootupd.Base.{Str, codes, ◌≡◌, refl, sym, ap, ◌∙◌, Option, none, some, ok, ok_inj}
use bootupd.Base.Map.{get}
use bootupd.Model.{InstalledContent}
use bootupd.Component.Tools.{Tools}
use bootupd.Statefile.{Platform}
use bootupd.Filetree.{FileMetadata, FileTree, diff}
use bootupd.Filetree.Diff.{IsTree}
use bootupd.Filetree.Disk.{IsDisk, Top}
use bootupd.Filetree.Apply.{place_of, apply_diff}
use bootupd.Filetree.Apply.View.{IsLive}
use bootupd.Filetree.Apply.Applied.{IsTidy, AreListed, cleaned, files_at}
use bootupd.Filetree.Apply.Migrated.{apply_diff-diff}
use bootupd.Efi.Host.{Host}
use bootupd.Efi.Mount.{ensure_mounted_esp, open_esp}
use bootupd.Efi.Operations.{run_update, read_update_dir, updated_dir}
use bootupd.Efi.Updates.{mounted, run_update-IsUpdated}

module _ (P : Platform) (T : Tools P.Machine) (H : Host P.Machine) (w : P.Machine)
    (i n : InstalledContent) (old new : FileTree) (sorted : IsTree old)
    (recorded : i.filetree ≡ some old) (found : read_update_dir P T H w ≡ ok new) (esp : Str)
    (opened : (open_esp P T H (ensure_mounted_esp P T H (codes "/") w).1).0 ≡ ok esp)
    (top : P.Machine → Str → Top) (source : Str → Option FileMetadata)
    (L : IsDisk top source (H.disk updated_dir esp))
    (listed : AreListed top source (H.disk updated_dir esp) L (mounted P T H w))
    (tidy : IsTidy (diff old new) none (
      files_at top source
        (H.disk updated_dir esp)
        L
        (cleaned top source (H.disk updated_dir esp) L (mounted P T H w))))
    (p : Str) (live : IsLive (place_of p).0) where
  -- What the ESP holds at the path.
  abbrev pub on_esp : P.Machine → Option FileMetadata
  on_esp v = files_at top source (H.disk updated_dir esp) L v (place_of p).0 (place_of p).1

  -- The diff was applied, and that was the end.
  abbrev Ran : FileTree → FileTree → Str → Type 0
  Ran a b x =
      ((apply_diff (H.disk updated_dir x) (diff a b) none (mounted P T H w)).0 ≡ ok tt)
      × ((run_update P T H i w).1
          ≡ (apply_diff (H.disk updated_dir x) (diff a b) none (mounted P T H w)).1)

  -- If an update of the component for EFI succeeds, where the files `old` were recorded and the update
  -- has the files `new`, then a path that the EFI system partition held as recorded, once the cleanup
  -- had run, is as in the update in the end, and these files are what is recorded. The temporary names
  -- on the partition are listed, the diff is tidy there, and the source has the path as in `new`.
  pub run_update-on_esp :
      on_esp (cleaned top source (H.disk updated_dir esp) L (mounted P T H w)) ≡ get old.children p
      → source p ≡ get new.children p
      → (run_update P T H i w).0 ≡ ok n
      → (on_esp (run_update P T H i w).1 ≡ get new.children p) × (n.filetree ≡ some new)
  run_update-on_esp held offered done =
      let (old', new', esp', (o, r, e, _, applied, last, _, files, _)) =
        run_update-IsUpdated P T H w i n done in
      let same_old : old' ≡ old = some_inj (sym o ∙ recorded) in
      let same_new : new' ≡ new = ok_inj (sym r ∙ found) in
      let same_esp : esp' ≡ esp = ok_inj (sym e ∙ opened) in
      let ran : Ran old new esp =
        subst (λ x. Ran x new esp) same_old
          (subst (λ x. Ran old' x esp) same_new
            (subst (λ x. Ran old' new' x) same_esp (applied, last))) in
      (
        ap on_esp ran.1
            ∙ apply_diff-diff top source (H.disk updated_dir esp) L old new sorted none refl
                (mounted P T H w) listed tidy p live held offered ran.0,
        files ∙ ap some same_new,
      )
    where
      some_inj : {A : Type 0} {x y : A} → some x ≡ some y → x ≡ y
      some_inj h = cc
