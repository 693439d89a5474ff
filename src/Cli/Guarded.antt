-- ===== src/Cli/Guarded.antt =====
-- What the client runs outside of systemd or without the rights of root.
use Prim.Native.String.{String}
use mathlib.Core.Path.{subst}
use bootupd.Base.{
  ℕ, ◌≡◌, ◌⊎◌, inl, inr, refl, ap, sym, ◌∙◌, Bool, true, false, none, some, Result, err, failed,
  replaced, Exec, continue, ◌>>=◌, ◌>>◌, Option-cases,
}
use bootupd.Component.Tools.{Tools}
use bootupd.Util.{running_in_container}
use bootupd.Cli.{
  Daemon, Process, CtlVerb, backend, show_status, update, adopt_and_update, validate,
  migrate_static_grub_config, running_in_systemd, require_root_permission, run_again, reset_failed,
  reset_args, run_args, ensure_running_in_systemd, run_status, ctl_run,
}

Sum-cases : {A B : Type 0} (x : A ⊎ B) → ((a : A) × (x ≡ inl a)) ⊎ ((b : B) × (x ≡ inr b))
Sum-cases (inl a) = inl (a, refl)
Sum-cases (inr b) = inr (b, refl)

-- The commands but for those of the backend.
abbrev pub is_guarded : CtlVerb → Bool
is_guarded (backend _) = false
is_guarded _ = true

module _ {W : Type 0} (T : Tools W) (Proc : Process W) (D : Daemon W) (w : W) where
  -- What an outcome is where the client stops before it does anything of its own, by the outcome of
  -- an error and by that of a process which was replaced: the user is not root; systemctl cannot be
  -- run; systemd-run cannot be run after it; or systemd-run replaced the program, with its own
  -- arguments again.
  abbrev pub IsRefused : {A : Type 0} → (String → A) → (ℕ → A) → A × W → Type 0
  IsRefused fails gone out =
      let s = Proc.spawn_wait (reset_args T Proc D) w in
      let x = Proc.exec (run_args T Proc D) s.1 in
      ((Proc.is_root w ≡ false) × (out ≡ (fails "This command requires root privileges", w)))
      ⊎ ((Proc.is_root w ≡ true)
          × (((e : String) × (s.0 ≡ some e) × (out ≡ (fails e, s.1)))
              ⊎ ((s.0 ≡ none)
                  × (((e : String) × (x.0 ≡ inr e) × (out ≡ (fails e, x.1)))
                      ⊎ ((n : ℕ) × (x.0 ≡ inl n) × (out ≡ (gone n, x.1)))))))

  -- An outcome that an error and a replaced process pass through.
  pub IsRefused-map :
      {A B : Type 0} (fails : String → A) (gone : ℕ → A) (fails' : String → B) (gone' : ℕ → B)
      (g : A × W → B × W)
      → ((e : String) (v : W) → g (fails e, v) ≡ (fails' e, v))
      → ((n : ℕ) (v : W) → g (gone n, v) ≡ (gone' n, v))
      → (out : A × W) → IsRefused fails gone out
      → IsRefused fails' gone' (g out)
  IsRefused-map fails gone fails' gone' g f r out (inl (root, h)) = inl (root, ap g h ∙ f _ _)
  IsRefused-map fails gone fails' gone' g f r out (inr (root, inl (e, s, h))) =
      inr (root, inl (e, s, ap g h ∙ f _ _))
  IsRefused-map fails gone fails' gone' g f r out (inr (root, inr (s, inl (e, x, h)))) =
      inr (root, inr (s, inl (e, x, ap g h ∙ f _ _)))
  IsRefused-map fails gone fails' gone' g f r out (inr (root, inr (s, inr (n, x, h)))) =
      inr (root, inr (s, inr (n, x, ap g h ∙ r _ _)))

  abbrev fails : String → Result (Unit {0})
  fails e = err (failed e)

  abbrev gone : ℕ → Result (Unit {0})
  gone n = err (replaced n)

  reset-IsRefused :
      Proc.is_root w ≡ true → IsRefused fails gone ((reset_failed T Proc D >> run_again T Proc D) w)
  unfolding reset_failed run_again
  reset-IsRefused root = elim (Option-cases (Proc.spawn_wait (reset_args T Proc D) w).0) [
    | inr (e, s) ↦ inr (root, inl (e, s, rw s refl))
    | inl s ↦
        let v = (Proc.spawn_wait (reset_args T Proc D) w).1 in
        elim (Sum-cases (Proc.exec (run_args T Proc D) v).0) [
          | inl (n, x) ↦ inr (root, inr (s, inr (n, x, rw (s, x) refl)))
          | inr (e, x) ↦ inr (root, inr (s, inl (e, x, rw (s, x) refl)))
        ]
  ]

  systemd-IsRefused :
      (root running : Bool)
      → Proc.is_root w ≡ root
      → running_in_systemd T Proc D w ≡ running
      → (root ≡ false) ⊎ (running ≡ false)
      → IsRefused fails gone (ensure_running_in_systemd T Proc D w)
  unfolding ensure_running_in_systemd require_root_permission
  systemd-IsRefused false running r s h = inl (r, rw r refl)
  systemd-IsRefused true false r s h =
      let starts : ensure_running_in_systemd T Proc D w
          ≡ (reset_failed T Proc D >> run_again T Proc D) w =
        rw (r, s) refl in
      subst (IsRefused fails gone) (sym starts) (reset-IsRefused r)
  systemd-IsRefused true true r s (inl h) = cc
  systemd-IsRefused true true r s (inr h) = cc

  then-IsRefused :
      (m : Exec W (Unit {0})) (k : Unit {0} → Exec W (Unit {0}))
      → IsRefused fails gone (m w)
      → IsRefused fails gone ((m >>= k) w)
  then-IsRefused m k h =
      IsRefused-map fails gone fails gone (λ r. continue r.0 k r.1) (λ e v. refl) (λ n v. refl)
        (m w) h

  -- Where the user is not root or the program does not run under systemd, and not in a container, every
  -- command of the client but for those of the backend stops before it does anything of its own.
  pub ctl_run-IsRefused :
      (v : CtlVerb)
      → is_guarded v ≡ true
      → running_in_container T (λ n. Proc.is_set n w) w ≡ false
      → (Proc.is_root w ≡ false) ⊎ (running_in_systemd T Proc D w ≡ false)
      → IsRefused fails gone (ctl_run T Proc D v w)
  unfolding ctl_run run_status
  ctl_run-IsRefused v g outside h = go v g
    where
      refused : IsRefused fails gone (ensure_running_in_systemd T Proc D w)
      refused = systemd-IsRefused _ _ refl refl h

      go : (v : CtlVerb) → is_guarded v ≡ true → IsRefused fails gone (ctl_run T Proc D v w)
      go (backend b) k = cc
      go (show_status opts) k =
          rw outside (then-IsRefused (ensure_running_in_systemd T Proc D) _ refused)
      go update k = then-IsRefused (ensure_running_in_systemd T Proc D) _ refused
      go adopt_and_update k = then-IsRefused (ensure_running_in_systemd T Proc D) _ refused
      go validate k = then-IsRefused (ensure_running_in_systemd T Proc D) _ refused
      go migrate_static_grub_config k =
          then-IsRefused (ensure_running_in_systemd T Proc D) _ refused
