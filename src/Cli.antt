-- ===== src/Cli.antt =====
-- src/cli: the choice of the program by its name, and the runs of the subcommands. Options are given
-- as clap parses them.
pub mod Guarded
pub mod Commands
pub mod Main
use mathlib.Core.Option.{get_or}
use Prim.Native.String.{String}
use bootupd.Base.{
  Str, ℕ, zero, suc, codes, ◌==◌, ◌++◌, Bool, true, false, not, Option, none, some, List, [], ◌∷◌,
  Result, ok, err, failed, replaced, Error, ◌⊎◌, inl, inr, Exec, pure, bail, ask, ◌>>=◌, ◌>>◌,
  if◌then◌else◌,
}
use bootupd.Model.{Status}
use bootupd.Efi.Vendor.{file_name}
use bootupd.Util.{running_in_container}
use bootupd.Component.Tools.{Tools}
use bootupd.Bootupd.Install.{ConfigMode, no_configs, static, with_uuid}

pub data LevelFilter : Type 0 where
  warn info debug trace : LevelFilter

unfoldable pub loglevel : ℕ → LevelFilter
loglevel zero = warn
loglevel (suc zero) = info
loglevel (suc (suc zero)) = debug
loglevel (suc (suc (suc _))) = trace

pub record InstallOpts : Type 0 where
  pub src_root : Str
  pub dest_root : Str
  pub device : Option Str
  pub with_static_configs : Bool
  pub write_uuid : Bool
  pub update_firmware : Bool
  pub components : Option (List Str)
  pub auto : Bool

pub record GenerateOpts : Type 0 where
  pub sysroot : Option Str

pub record StatusOpts : Type 0 where
  pub print_if_available : Bool
  pub json : Bool

pub data DVerb : Type 0 where
  generate_update_metadata : GenerateOpts → DVerb
  install : InstallOpts → DVerb

pub data CtlBackend : Type 0 where
  generate : GenerateOpts → CtlBackend
  install_backend : InstallOpts → CtlBackend

pub data CtlVerb : Type 0 where
  backend : CtlBackend → CtlVerb
  show_status : StatusOpts → CtlVerb
  update adopt_and_update validate migrate_static_grub_config : CtlVerb

pub data Program : Type 0 where
  ctl d : Program

-- The program by the file name of the first argument.
unfoldable pub program_of : List Str → Program
program_of [] = d
program_of (arg0 ∷ _) = if get_or (file_name arg0) [] == codes "bootupctl" then ctl else d

-- The daemon's operations, and the outcome of printing the status: as JSON, the updates alone, or all
-- of it. In a container the names of the components are printed.
pub record Daemon (W : Type 0) : Type 0 where
  pub run_install :
      Str → Str → Option Str → ConfigMode → Bool → Option (List Str) → Bool → Exec W (Unit {0})
  pub run_generate : Str → Exec W (Unit {0})
  pub run_status : Exec W Status
  pub client_run_update : Exec W Bool
  pub client_run_adopt_and_update : Exec W (Unit {0})
  pub client_run_validate : Exec W (Unit {0})
  pub client_run_migrate_static_grub_config : Exec W (Unit {0})
  pub print_json : Status → Result (Unit {0})
  pub print_status_avail : Status → Result (Unit {0})
  pub print_status : Status → W → Result (Unit {0})
  pub print_status_in_container : Bool → Result (Unit {0})

-- The process: its user, environment and arguments, and what it runs. `spawn_wait` gives the message
-- of its error, if it has one. `exec` gives the message of its error, where it returns; where a
-- program replaced this one, it gives the status with which that program ended, and the machine that
-- it left.
pub record Process (W : Type 0) : Type 0 where
  pub is_root : W → Bool
  pub is_set : Str → W → Bool
  pub args : List Str
  pub spawn_wait : List Str → W → Option String × W
  pub exec : List Str → W → (ℕ ⊎ String) × W

abbrev waited : Option String → Result (Unit {0})
waited none = ok tt
waited (some e) = err (failed e)

-- Nothing of this program runs after an `exec` that succeeds.
abbrev ended_by : ℕ ⊎ String → Error
ended_by (inl status) = replaced status
ended_by (inr e) = failed e

abbrev pub systemd_args_bootupd : List Str
systemd_args_bootupd = codes "--unit" ∷ codes "bootupd" ∷ codes "--pipe" ∷ []

abbrev pub systemd_properties : List Str
systemd_properties =
    codes "PrivateNetwork=yes"
    ∷ codes "ProtectHome=yes"
    ∷ codes "KillMode=mixed"
    ∷ codes "MountFlags=slave"
    ∷ []

abbrev property_args : List Str → List Str
property_args [] = []
property_args (v ∷ rest) = codes "--property" ∷ v ∷ property_args rest

unfoldable pub config_mode : InstallOpts → ConfigMode
config_mode opts =
    if opts.write_uuid then with_uuid else if opts.with_static_configs then static else no_configs

module _ {W : Type 0} (D : Daemon W) where
  unfoldable pub run_generate_meta : GenerateOpts → Exec W (Unit {0})
  run_generate_meta opts =
      if not (get_or opts.sysroot (codes "/") == codes "/")
      then bail (failed "Using a non-default sysroot is not supported")
      else D.run_generate (get_or opts.sysroot (codes "/"))

  unfoldable pub run_install : InstallOpts → Exec W (Unit {0})
  unfolding config_mode
  run_install opts =
      D.run_install opts.src_root opts.dest_root opts.device (config_mode opts) opts.update_firmware
        opts.components opts.auto

  unfoldable pub d_run : DVerb → Exec W (Unit {0})
  unfolding run_generate_meta run_install
  d_run (install opts) = run_install opts
  d_run (generate_update_metadata opts) = run_generate_meta opts

module _ {W : Type 0} (T : Tools W) (Proc : Process W) (D : Daemon W) where
  unfoldable pub running_in_systemd : W → Bool
  running_in_systemd = Proc.is_set (codes "INVOCATION_ID")

  unfoldable pub require_root_permission : W → Result (Unit {0})
  require_root_permission w =
      if not (Proc.is_root w) then err (failed "This command requires root privileges") else ok tt

  abbrev pub reset_args : List Str
  reset_args = codes "systemctl" ∷ codes "reset-failed" ∷ codes "bootupd.service" ∷ []

  abbrev pub run_args : List Str
  run_args =
      codes "systemd-run"
      ∷ (systemd_args_bootupd ++ (property_args systemd_properties ++ Proc.args))

  -- The program again, under systemd-run.
  unfoldable pub run_again : Exec W (Unit {0})
  run_again w = let r = Proc.exec run_args w in (err (ended_by r.0), r.1)

  unfoldable pub reset_failed : Exec W (Unit {0})
  reset_failed w = let r = Proc.spawn_wait reset_args w in (waited r.0, r.1)

  unfoldable pub ensure_running_in_systemd : Exec W (Unit {0})
  unfolding require_root_permission run_again reset_failed running_in_systemd
  ensure_running_in_systemd = do
    ask require_root_permission
    running ← ask (λ w. ok (running_in_systemd w))
    if running then pure tt else do reset_failed; run_again

  unfoldable pub run_status : StatusOpts → Exec W (Unit {0})
  unfolding running_in_container
  run_status opts w =
      if running_in_container T (λ n. Proc.is_set n w) w
      then (D.print_status_in_container opts.json, w)
      else (do
        ensure_running_in_systemd
        r ← D.run_status
        if opts.json
            then ask (λ _. D.print_json r)
            else if opts.print_if_available
            then ask (λ _. D.print_status_avail r)
            else ask (D.print_status r))
          w

  unfoldable pub ctl_run : CtlVerb → Exec W (Unit {0})
  unfolding run_status
  ctl_run (show_status opts) = run_status opts
  ctl_run update = do ensure_running_in_systemd; D.client_run_update; pure tt
  ctl_run adopt_and_update = do ensure_running_in_systemd; D.client_run_adopt_and_update
  ctl_run validate = do ensure_running_in_systemd; D.client_run_validate
  ctl_run (backend (generate opts)) = run_generate_meta D opts
  ctl_run (backend (install_backend opts)) = run_install D opts
  ctl_run migrate_static_grub_config = do
    ensure_running_in_systemd
    D.client_run_migrate_static_grub_config
