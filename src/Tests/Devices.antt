-- ===== src/Tests/Devices.antt =====
-- Runs of the code for devices, BIOS and boot entries on a machine with one disk.
use bootupd.Base.{false, Str, codes, ◌≡◌, refl, ◌↔◌, true, none, some, List, [], ◌∷◌, Result, ok}
use bootupd.Base.Split.{Free, is_free, is_free-Free}
use bootupd.Model.{no_state}
use bootupd.Component.Available.{get_component_update}
use bootupd.Blockdev.{
  get_devices, get_single_device, find_colocated_esps, find_colocated_bios_boot, esp_type_guid,
  bios_boot_type_guid,
}
use bootupd.Blockdev.Colocated.{Found, find_colocated_iff}
use bootupd.Bios.{bios_name, run_update, grub_install_args}
use bootupd.Bios.Runs.{run_update_records}
use bootupd.Efi.{parse_boot_entries}
use bootupd.Efi.Entries.{
  Line, an_entry, another, ArePrinted, output_of, entries_of, parse_boot_entries-output_of,
}
use bootupd.Tests.Machine.{tools, new_build, old_build, content, holding}

abbrev vda : Str
vda = codes "/dev/vda"

abbrev vda1 : List Str
vda1 = codes "/dev/vda1" ∷ []

find_colocated_iff_example :
    ((find_colocated_esps tools (codes "/") (holding no_state) ≡ ok vda1)
      ↔ Found tools (codes "/") (holding no_state) vda1 esp_type_guid)
    × ((find_colocated_bios_boot tools (codes "/") (holding no_state) ≡ ok vda1)
        ↔ Found tools (codes "/") (holding no_state) vda1 bios_boot_type_guid)
find_colocated_iff_example = find_colocated_iff tools (codes "/") (holding no_state) vda1

bios_run : (run_update tools (content old_build) (holding no_state)).0 ≡ ok (content new_build)
unfolding run_update get_component_update get_single_device get_devices
bios_run = refl

run_update_records_example :
    (root device : Str) × (get_component_update tools (codes "/") bios_name (holding no_state)
      ≡ ok (some new_build))
    × (tools.fd_path (codes "/") (holding no_state) ≡ ok root)
    × (get_single_device tools root (holding no_state) ≡ ok device)
    × (tools.try_exists (codes "/usr/lib/grub/i386-pc") (holding no_state) ≡ ok true)
    × ((out : Result Str) × ((tools.output
            (grub_install_args tools root device)
            (holding no_state)).0
          ≡ ok (true, out)))
    × ((content new_build).filetree ≡ none)
    × ((content new_build).adopted_from ≡ none)
run_update_records_example =
    run_update_records tools (holding no_state) (content old_build) (content new_build) bios_run

abbrev order_line : Str
order_line = codes "BootOrder: 0003,0000"

-- The last one is not active, has no device path and ends in a space.
abbrev printed : List Line
printed =
    another order_line
    ∷ an_entry (codes "0003") true (codes "Fedora Linux") (some (codes "HD(1)"))
    ∷ an_entry (codes "0000") false (codes "UiApp ") none
    ∷ []

abbrev one_line : (s : Str) → is_free 10 s ≡ true → is_free 13 s ≡ true → Free 10 s × Free 13 s
one_line s a b = (is_free-Free 10 s a, is_free-Free 13 s b)

abbrev id_chars :
    (s : Str)
    → is_free b' ' s ≡ true
    → is_free b'\t' s ≡ true
    → is_free b'*' s ≡ true
    → Free b' ' s × Free b'\t' s × Free b'*' s
id_chars s a b c = (is_free-Free b' ' s a, is_free-Free b'\t' s b, is_free-Free b'*' s c)

printed-ArePrinted : ArePrinted printed
unfolding is_free
printed-ArePrinted = (
  (refl, one_line order_line refl refl),
  (
    (
      (codes "003", refl),
      id_chars (codes "0003") refl refl refl,
      is_free-Free b'\t' (codes "Fedora Linux") refl,
      one_line (codes "Boot0003* Fedora Linux\tHD(1)") refl refl,
    ),
    (
      (
        (codes "000", refl),
        id_chars (codes "0000") refl refl refl,
        is_free-Free b'\t' (codes "UiApp ") refl,
        one_line (codes "Boot0000  UiApp ") refl refl,
      ),
      tt,
    ),
  ),
)

parse_boot_entries-output_of_example : parse_boot_entries (output_of printed) ≡ entries_of printed
parse_boot_entries-output_of_example = parse_boot_entries-output_of printed printed-ArePrinted
