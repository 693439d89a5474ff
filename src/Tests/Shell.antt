-- ===== src/Tests/Shell.antt =====
-- A shell of root, outside of systemd, in which systemd-run ends with status 3.
use bootupd.Base.{codes, ◌≡◌, inl, inr, refl, true, false, none, [], ◌∷◌, ok}
use bootupd.Component.Tools.{Tools}
use bootupd.Model.{no_state}
use bootupd.Util.{running_in_container}
use bootupd.Cli.{Daemon, Process, update, ctl, program_of, running_in_systemd}
use bootupd.Cli.Guarded.{IsRefused}
use bootupd.Cli.Main.{CtlCommand, Clap, run_cli, run_cli-IsRefused}
use bootupd.Tests.Machine.{Disk, tools, both, holding}

abbrev host_tools : Tools Disk
host_tools = record tools { exists = λ _ _. false }

abbrev shell : Process Disk
shell = record {
  is_root = λ _. true;
  is_set = λ _ _. false;
  args = codes "bootupctl" ∷ codes "update" ∷ [];
  spawn_wait = λ _ w. (none, w);
  exec = λ _ w. (inl 3, w);
}

-- A daemon that loses the state, where it runs.
abbrev careless : Daemon Disk
careless = record {
  run_install = λ _ _ _ _ _ _ _ w. (ok tt, holding no_state);
  run_generate = λ _ w. (ok tt, holding no_state);
  run_status = λ w. (ok (record { components = []; adoptable = [] }), holding no_state);
  client_run_update = λ w. (ok true, holding no_state);
  client_run_adopt_and_update = λ w. (ok tt, holding no_state);
  client_run_validate = λ w. (ok tt, holding no_state);
  client_run_migrate_static_grub_config = λ w. (ok tt, holding no_state);
  print_json = λ _. ok tt;
  print_status_avail = λ _. ok tt;
  print_status = λ _ _. ok tt;
  print_status_in_container = λ _. ok tt;
}

outside :
    running_in_container host_tools (λ n. shell.is_set n (holding both)) (holding both) ≡ false
unfolding running_in_container
outside = refl

not_in_systemd : running_in_systemd host_tools shell careless (holding both) ≡ false
unfolding running_in_systemd
not_in_systemd = refl

abbrev call : CtlCommand
call = record { verbosity = 0; cmd = update }

abbrev clap : Clap
clap = record { parse_ctl = λ _. inr call; parse_d = λ _. inl 2 }

named : program_of shell.args ≡ ctl
unfolding program_of bootupd.Base.str_dec bootupd.Efi.Vendor.file_name bootupd.Efi.after_last_slash
named = refl

run_cli-IsRefused_example :
    IsRefused host_tools shell careless
      (holding both)
      (λ _. 1)
      (λ n. n)
      (run_cli host_tools shell careless clap (holding both))
run_cli-IsRefused_example =
    run_cli-IsRefused host_tools shell careless clap (holding both) call named refl refl outside
      (inr not_in_systemd)
