-- ===== src/Tests/Lasting.antt =====
-- A run of the client on two components, the first of which fails to update.
use bootupd.Base.{Str, codes, ◌≡◌, refl, some, ok}
use bootupd.Model.{SavedState}
use bootupd.Statefile.{load_from_disk}
use bootupd.Bootupd.{slash}
use bootupd.Bootupd.Client.{client_run_update}
use bootupd.Bootupd.Lasting.{Lasts, client_run_update_keeps}
use bootupd.Tests.Machine.{
  Disk, machine, machine-IsLawful, efi, bios, components, both, holding, old_build, content,
}

abbrev before : Disk
before = holding both

loads : load_from_disk machine slash before ≡ ok (some both)
unfolding load_from_disk
loads = refl

client_run_update_keeps_example :
    (t : SavedState) × (load_from_disk machine slash (client_run_update machine efi bios before).1
      ≡ ok (some t))
    × Lasts machine machine-IsLawful efi bios components (codes "EFI") both (content old_build) t
unfolding bootupd.Base.Map.get bootupd.Base.str_dec
client_run_update_keeps_example =
    client_run_update_keeps machine machine-IsLawful efi bios components (codes "EFI") both
      (content old_build) before loads refl
