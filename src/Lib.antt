-- ===== src/Lib.antt =====
-- bootupd updates the bootloaders of a system: the EFI system partition with its shim and grub, and
-- the grub of BIOS machines. It records what it installed in one state file, compares that with the
-- update that the system image offers, and updates, adopts, validates and reports components.
--
-- The parts, by the files of the repository:
-- - src/model.rs and src/model_legacy.rs: Model (the metadata of builds, the saved state, the
--   status) with Model.Legacy (the first format of the state file, `upconvert`) and Model.Upgrade
--   (the order of `can_upgrade_to` and `from_metadata`).
-- - src/backend/statefile.rs and `ensure_writable_mount` of src/util.rs: Statefile. The record
--   `Platform` stands for the machine, serde_json and chrono, and `IsLawful` for what is documented
--   of them: serde reads back what it writes, the state file is replaced atomically, and locking,
--   the signal handler and remounting leave it alone. Statefile.Roundtrip has the theorems.
-- - src/filetree.rs and src/sha512string.rs: Filetree.Digest (`new_from_path`, `from_hasher`),
--   Filetree (`diff_impl`, `diff`, `changes`, `updates`, `relative_diff_to`), Filetree.Scan
--   (`unsorted_from_dir` as `scan_entries` and `scan_node`, `new_from_dir`, `cleanup_tmp`), and the
--   proofs in Filetree.Diff, Patch, Adoption, Scannable and Cleanup.
--   Filetree.Disk is a directory on a disk, by what openat, cp and the kernel document of each action
--   on it, and Filetree.Apply is `apply_diff` on it: the loops over the removals and the writes, the
--   exchange and the cleanup, with a module of proofs for each. The `HashMap` of
--   updates is walked in the order of a list here, the latest update first.
-- - src/component.rs and src/coreos.rs: Component (the trait as a record over the state of the
--   machine, `new_from_name`), Component.Tools (the file system, the commands and the libraries that
--   the components call) and Component.Available (the update metadata and `query_adopt_state`).
-- - src/bios.rs: Bios, an instance of the record, with Bios.Runs.
-- - src/efi.rs: Efi (`parse_boot_entries`, `clear_efi_target`, `create_efi_boot_entry`) and
--   Efi.Entries; Efi.Mount (`ensure_mounted_esp`, `open_esp`, `unmount`, with the cell of `Efi` as a
--   part of the machine) with Mounted and Dropped; Efi.Firmware (`update_firmware`,
--   `skip_systemd_bootloaders`); Efi.Vendor (`get_efi_vendor`); Efi.Operations, an instance of the
--   record, with Efi.Updates and Updated. Efi.Host has what this code calls; `is_efi_booted` stands
--   in Bios.
-- - src/util.rs: Util, but for the functions that stand in Statefile and Packagesystem.Query.
-- - src/blockdev.rs and src/filesystem.rs: Blockdev and Blockdev.Colocated.
-- - src/packagesystem.rs and src/ostreeutil.rs: Packagesystem (`rpm_parse_metadata`),
--   Packagesystem.Query (`rpm_cmd`, `query_files`), Packagesystem.Parse and Payload.
-- - src/bootupd.rs and src/failpoints.rs: Bootupd (`update`, `adopt_and_update`, `validate`),
--   Bootupd.Status, Bootupd.Client (the runs of the client), Bootupd.Install, Bootupd.Migrate
--   (the stripping of grub.cfg), Bootupd.Migration (the whole migration to a static grub.cfg) and
--   Bootupd.Generate (`generate_update_metadata`, `print_status_avail`) and Bootupd.Print
--   (`print_status`, and `run_status_in_container` of src/cli). Bootupd.Steps carries what a
--   load of the state file sees through an operation; Bootupd.Update,
--   Recorded, Due, Adopt, Report, Printed, Installed, Saved, Lasting and ClientRuns have the
--   theorems. Bootupd.Concurrent has `update` and `adopt_and_update` as processes that interleave, with
--   the lock and its guard: Solo compares one process with the functions, Alone is on the turns that one
--   process has alone, Turns, Locked, Acted and Sound are on all schedules, and Overwritten is on a
--   process that had to wait.
-- - src/grubconfigs.rs: Grubconfigs and Grubconfigs.Written.
-- - src/cli and src/main.rs: Cli (the choice of the program, the commands, the start under systemd),
--   Cli.Commands (the daemon's operations that they call), Cli.Guarded, and Cli.Main (`MultiCall` and
--   the exit status; what clap parses is a parameter).
-- - xtask/src/main.rs: Xtask (the tasks over the record `Shell`, for git, cargo, rpmbuild, chrono and
--   the files), Xtask.Integer (`parse::<i64>`), Version, Packaged and Spec.
-- Base has the shared names: texts as lists of code points, sorted maps for `BTreeMap`, results and
-- actions on a machine that may fail (a panic is an error of its own, and so is the end of a process that another program replaced), and rules on their outcomes.
-- Tests runs the model on small machines and applies each theorem to one of them.
--
-- Loops are structural recursion, so there is no fuel. A `DateTime` is a natural number, counted from
-- the earliest instant. The build is the one for x86_64, where both components exist. Error texts
-- are shortened, and what is printed or logged is left out, but for the lines of the status.
--
-- Not modelled: how SHA-512 is computed and how clap parses, which are parameters; logging; the signal
-- handler's removal with the guard; and the tests of the repository.
pub mod Base
pub mod Filetree
pub mod Model
pub mod Component
pub mod Statefile
pub mod Bootupd
pub mod Packagesystem
pub mod Blockdev
pub mod Bios
pub mod Efi
pub mod Tests
pub mod Util
pub mod Cli
pub mod Grubconfigs
pub mod Xtask
