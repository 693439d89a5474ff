-- ===== src/Cli/Main.antt =====
-- src/main.rs and `MultiCall` of src/cli/mod.rs: the program by its name, its command line, and the
-- exit status. Logging is left out; clap is a parameter.
use bootupd.Base.{
  Str, ℕ, ◌≡◌, ◌⊎◌, inl, inr, true, false, List, Result, ok, err, failed, panicked, replaced, Exec,
  refl,
}
use bootupd.Component.Tools.{Tools}
use bootupd.Util.{running_in_container}
use bootupd.Cli.{
  Daemon, Process, Program, ctl, d, program_of, CtlVerb, DVerb, d_run, ctl_run, LevelFilter,
  loglevel, running_in_systemd,
}
use bootupd.Cli.Guarded.{is_guarded, ctl_run-IsRefused, IsRefused, IsRefused-map}

pub record CtlCommand : Type 0 where
  pub verbosity : ℕ
  pub cmd : CtlVerb

pub record DCommand : Type 0 where
  pub verbosity : ℕ
  pub cmd : DVerb

pub data MultiCall : Type 0 where
  ctl_call : CtlCommand → MultiCall
  d_call : DCommand → MultiCall

-- `parse_from` of clap: a command, or the exit status with which clap ends the process.
pub record Clap : Type 0 where
  pub parse_ctl : List Str → ℕ ⊎ CtlCommand
  pub parse_d : List Str → ℕ ⊎ DCommand

abbrev pub parsed : {C : Type 0} → (C → MultiCall) → ℕ ⊎ C → ℕ ⊎ MultiCall
parsed f (inl code) = inl code
parsed f (inr c) = inr (f c)

abbrev parse_by : Clap → Program → List Str → ℕ ⊎ MultiCall
parse_by clap ctl args = parsed ctl_call (clap.parse_ctl args)
parse_by clap d args = parsed d_call (clap.parse_d args)

unfoldable pub from_args : Clap → List Str → ℕ ⊎ MultiCall
unfolding program_of
from_args clap args = parse_by clap (program_of args) args

unfoldable pub call_loglevel : MultiCall → LevelFilter
unfolding loglevel
call_loglevel (ctl_call c) = loglevel c.verbosity
call_loglevel (d_call c) = loglevel c.verbosity

-- `EXIT_SUCCESS` and `EXIT_FAILURE` of libc, the status of a process that panics, and that of the
-- program which replaced this one.
abbrev pub exit_status : Result (Unit {0}) → ℕ
exit_status (ok _) = 0
exit_status (err (failed _)) = 1
exit_status (err (panicked _)) = 101
exit_status (err (replaced n)) = n

module _ {W : Type 0} (T : Tools W) (Proc : Process W) (D : Daemon W) (clap : Clap) where
  unfoldable pub run : MultiCall → Exec W (Unit {0})
  unfolding ctl_run d_run
  run (ctl_call c) = ctl_run T Proc D c.cmd
  run (d_call c) = d_run D c.cmd

  abbrev run_parsed : ℕ ⊎ MultiCall → W → ℕ × W
  run_parsed (inl code) w = (code, w)
  run_parsed (inr opts) w = (exit_status (run opts w).0, (run opts w).1)

  unfoldable pub run_cli : W → ℕ × W
  unfolding run from_args
  run_cli w = run_parsed (from_args clap Proc.args) w

module _ {W : Type 0} (T : Tools W) (Proc : Process W) (D : Daemon W) (clap : Clap) (w : W) where
  -- Run as `bootupctl`, not in a container and with a command other than those of the backend, where
  -- the user is not root or it does not run under systemd, the program does none of the daemon's
  -- work. If the user is not root, it ends with status 1 on the machine that it found. For root, it
  -- runs `systemctl reset-failed`, and then systemd-run with its own arguments: if one of the two
  -- cannot be run, it ends with status 1 there, and otherwise systemd-run replaces it, and the status
  -- and the machine are those of systemd-run.
  pub run_cli-IsRefused :
      (c : CtlCommand)
      → program_of Proc.args ≡ ctl
      → clap.parse_ctl Proc.args ≡ inr c
      → is_guarded c.cmd ≡ true
      → running_in_container T (λ n. Proc.is_set n w) w ≡ false
      → (Proc.is_root w ≡ false) ⊎ (running_in_systemd T Proc D w ≡ false)
      → IsRefused T Proc D w (λ _. 1) (λ n. n) (run_cli T Proc D clap w)
  unfolding run_cli run from_args
  run_cli-IsRefused c named reads guarded outside h =
      rw (named, reads)
        (IsRefused-map T Proc D w (λ e. err (failed e)) (λ n. err (replaced n)) (λ _. 1) (λ n. n)
          (λ r. (exit_status r.0, r.1)) (λ e v. refl) (λ n v. refl) (ctl_run T Proc D c.cmd w)
          (ctl_run-IsRefused T Proc D w c.cmd guarded outside h))
