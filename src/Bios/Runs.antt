-- ===== src/Bios/Runs.antt =====
-- The component for BIOS and the state file, and what its operations record.
use bootupd.Base.{
  Str, codes, ◌≡◌, refl, ap, sym, ◌∙◌, Bool, true, none, some, List, Result, ok, continue-ok,
  ok_or-ok, ok_inj, Bool-cases, inl, inr, err-ne-ok, ok_or, arith,
}
use bootupd.Model.{ContentMetadata, InstalledContent}
use bootupd.Component.Tools.{Tools}
use bootupd.Component.Available.{get_component_update}
use bootupd.Blockdev.{get_single_device}
use bootupd.Statefile.{Platform, IsQuiet}
use bootupd.Bootupd.Steps.{KeepsState}
use bootupd.Bios.{
  bios, run_grub_install, run_update, adopt_update, bios_name, check_grub_modules,
  grub_install_args,
}

module _ (P : Platform) (T : Tools P.Machine)
    (quiet : (args : List Str) → IsQuiet P (λ w. (T.output args w).1)) where
  run_grub_install-IsQuiet :
      (dest device : Str) → IsQuiet P (λ w. (run_grub_install T dest device w).1)
  unfolding run_grub_install
  run_grub_install-IsQuiet dest device root w =
      ground (arith, quiet (grub_install_args T dest device) root w)

  run_update-IsQuiet : (i : InstalledContent) → IsQuiet P (λ w. (run_update T i w).1)
  unfolding run_update
  run_update-IsQuiet i root w = grind (arith, run_grub_install-IsQuiet)

  adopt_update-IsQuiet : (m : ContentMetadata) → IsQuiet P (λ w. (adopt_update T m w).1)
  unfolding adopt_update
  adopt_update-IsQuiet m root w = grind (arith, run_grub_install-IsQuiet)

  -- Where commands do not touch the state file, no operation of the component for BIOS that the
  -- daemon runs on an installed system does.
  bios-KeepsState : KeepsState P (bios T)
  bios-KeepsState = record {
    run_update_quiet = run_update-IsQuiet;
    adopt_update_quiet = adopt_update-IsQuiet;
    query_adopt_quiet = λ root w. refl;
    validate_quiet = λ i root w. refl;
    unmount_quiet = λ root w. refl;
  }

module _ {W : Type 0} (T : Tools W) (w : W) where
  run_grub_install_ok :
      (dest device : Str) (v : W) {u : Unit {0}}
      → (run_grub_install T dest device v).0 ≡ ok u
      → (T.try_exists (codes "/usr/lib/grub/i386-pc") v ≡ ok true)
        × (out : Result Str) × ((T.output (grub_install_args T dest device) v).0 ≡ ok (true, out))
  unfolding run_grub_install check_grub_modules
  run_grub_install_ok dest device v h =
      let (modules, e, h1) = continue-ok (T.try_exists (codes "/usr/lib/grub/i386-pc") v) _ v h in
      elim (Bool-cases modules) [
        | inr none_there ↦ absurd (err-ne-ok (rw none_there at h1))
        | inl there ↦ elim (Bool-cases (T.exists (codes "/usr/sbin/grub2-install") v)) [
          | inr missing ↦ absurd (err-ne-ok (rw (there, missing) at h1))
          | inl present ↦
              let h2 = rw (there, present) at h1 in
              let (cmdout, ran, h3) =
                continue-ok (T.output (grub_install_args T dest device) v).0 _ _ h2 in
              elim (Bool-cases cmdout.0) [
                | inr bad ↦ absurd (err-ne-ok (rw bad at h3))
                | inl good ↦
                    (e ∙ ap ok there, cmdout.1, ran ∙ ap (λ (b : Bool). ok (b, cmdout.1)) good)
              ]
        ]
      ]

  -- If an update of the component for BIOS succeeds, there was an update for it, the root has a
  -- single device on which the grub2-install that the system has succeeded, and what is recorded is the
  -- version of the update, with no files and no adopted version.
  pub run_update_records :
      (i n : InstalledContent)
      → (run_update T i w).0 ≡ ok n
      → (root device : Str) × (get_component_update T (codes "/") bios_name w ≡ ok (some n.meta))
        × (T.fd_path (codes "/") w ≡ ok root)
        × (get_single_device T root w ≡ ok device)
        × (T.try_exists (codes "/usr/lib/grub/i386-pc") w ≡ ok true)
        × ((out : Result Str) × ((T.output (grub_install_args T root device) w).0 ≡ ok (true, out)))
        × (n.filetree ≡ none)
        × (n.adopted_from ≡ none)
  unfolding run_update run_grub_install check_grub_modules
  run_update_records i n h =
      let (found, q, h1) = continue-ok (get_component_update T (codes "/") bios_name w) _ w h in
      let (meta, e, h2) = continue-ok (ok_or found _) _ w h1 in
      let (root, r, h3) = continue-ok (T.fd_path (codes "/") w) _ w h2 in
      let (device, d, h4) = continue-ok (get_single_device T root w) _ w h3 in
      let (_, g, h5) = continue-ok (run_grub_install T root device w).0 _ _ h4 in
      let (modules, out, ran) = run_grub_install_ok root device w g in
      let same = ok_inj h5 in
      (
        root,
        device,
        q ∙ ap ok (ok_or-ok found _ e) ∙ ap (λ (c : InstalledContent). ok (some c.meta)) same,
        r,
        d,
        modules,
        (out, ran),
        sym (ap (λ (c : InstalledContent). c.filetree) same),
        sym (ap (λ (c : InstalledContent). c.adopted_from) same),
      )
