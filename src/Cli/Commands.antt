-- ===== src/Cli/Commands.antt =====
-- The daemon's operations of src/bootupd.rs, as the commands call them.
use bootupd.Base.{Str, codes, Bool, Option, List, [], Result, ok, Exec}
use bootupd.Model.{ContentMetadata, Status}
use bootupd.Component.{Component}
use bootupd.Component.Tools.{Tools}
use bootupd.Statefile.{Platform}
use bootupd.Bootupd.Install.{install}
use bootupd.Bootupd.Generate.{generate_update_metadata}
use bootupd.Component.Available.{get_aleph_version}
use bootupd.Bootupd.Status.{status, get_components}
use bootupd.Bootupd.Print.{print_status, run_status_in_container}
use bootupd.Bootupd.Client.{client_run_update, client_run_adopt_and_update, client_run_validate}
use bootupd.Bootupd.Migration.{GrubDir, client_run_migrate_static_grub_config}
use bootupd.Cli.{Daemon}

module _ (P : Platform) (T : Tools P.Machine) (G : GrubDir P.Machine)
    (efi bios : Component P.Machine) (is_efi_booted : P.Machine → Result Bool)
    (self_metadata : P.Machine → Result ContentMetadata)
    (install_grub_configs : Str → Option Str → Bool → Exec P.Machine (Unit {0}))
    (create_dir_all : Str → Exec P.Machine (Unit {0})) (print_json : Status → Result (Unit {0}))
    (print_names : List Str → Result (Unit {0})) where
  abbrev pub daemon : Daemon P.Machine
  daemon = record {
    run_install = install P efi bios is_efi_booted self_metadata install_grub_configs;
    run_generate = generate_update_metadata efi bios create_dir_all;
    run_status = status P efi bios;
    client_run_update = client_run_update P efi bios;
    client_run_adopt_and_update = client_run_adopt_and_update P efi bios;
    client_run_validate = client_run_validate P efi bios;
    client_run_migrate_static_grub_config = client_run_migrate_static_grub_config P T G;
    print_json = print_json;
    print_status_avail = λ _. ok tt;
    print_status =
        λ st w. (print_status st (get_aleph_version T (codes "/") w) (is_efi_booted w) []).0;
    print_status_in_container =
        λ json. (run_status_in_container print_names (get_components efi bios) json []).0;
  }
