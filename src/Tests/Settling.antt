-- ===== src/Tests/Settling.antt =====
-- An update that is due, and the status that is printed.
use bootupd.Base.{
  Str, codes, ◌≡◌, ◌↔◌, refl, sym, ap, ◌∙◌, Bool, true, Option, none, some, List, [], Result, ok,
  ok_inj,
}
use bootupd.Base.Map.{get, insert}
use bootupd.Model.{ContentMetadata, can_upgrade_to, Status}
use bootupd.Component.{new_from_name}
use bootupd.Statefile.{Platform, load_from_disk}
use bootupd.Bootupd.{slash, updated, update, at_latest_version}
use bootupd.Bootupd.Status.{status}
use bootupd.Bootupd.Print.{print_status}
use bootupd.Bootupd.Due.{Works, update_due}
use bootupd.Bootupd.Printed.{print_status-status}
use bootupd.Tests.Machine.{Disk, machine, efi, bios, both, holding, old_build, new_build, content}

abbrev first : Disk
first = holding both

-- A machine whose disk never runs full.
abbrev roomy : Platform
roomy = record machine { write_statefile = λ _ t w. (ok tt, record w { file = some t }) }

roomy-Works : Works roomy
roomy-Works = record {
  tells_read_only = λ at w. (true, refl);
  remounts = λ at w. refl;
  locks = λ at w. refl;
  registers = λ w. refl;
  writes = λ at t w. refl;
}

loads : load_from_disk roomy slash first ≡ ok (some both)
unfolding load_from_disk
loads = refl

update_due_example :
    (update roomy efi bios (codes "EFI") first).0 ≡ ok (updated old_build none new_build)
unfolding load_from_disk get new_from_name bootupd.Base.str_dec can_upgrade_to
update_due_example =
    update_due roomy roomy-Works efi bios (codes "EFI") first both (content old_build) efi new_build
      loads refl refl refl refl (λ u. (content new_build, refl))

abbrev aleph : Result (Option ContentMetadata)
aleph = ok (some old_build)

abbrev result_of : Result Status → Status
result_of (ok st) = st
result_of _ = record { components = []; adoptable = [] }

abbrev listed : Status
listed = result_of (status machine efi bios first).0

lists : (status machine efi bios first).0 ≡ ok listed
unfolding status load_from_disk bootupd.Bootupd.Status.installed_part
    bootupd.Bootupd.Status.adoptable_loop get insert bootupd.Base.Map.remove
    bootupd.Bootupd.Status.get_components bootupd.Base.str_dec bootupd.Base.str_lt
lists = refl

print_status-status_example : ((print_status listed aleph (ok true) []).0 ≡ ok tt) ↔ (
    ((a : Option ContentMetadata) × (aleph ≡ ok a))
    × ((b : Bool) × (◌≡◌ {A = Result Bool} (ok true) (ok b))))
print_status-status_example =
    print_status-status machine efi bios first listed aleph (ok true) [] lists
