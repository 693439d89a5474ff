-- ===== src/Bootupd/Migration/Ended.antt =====
-- What the migration to a static grub.cfg leaves as grub.cfg, whatever its outcome.
use bootupd.Base.{
  Str, codes, ◌≡◌, ◌⊎◌, refl, ap, ◌∙◌, inl, inr, Bool, true, false, List, [], map, Result, ok, err,
  Exec, arith, if◌then◌else◌, pure, bail, failed, ◌>>=◌,
}
use bootupd.Base.Ends.{Runs, Ends-cases, Ends-continue, Ends-mono, result_step, Ends_either}
use bootupd.Base.Path.{join}
use bootupd.Component.Tools.{Tools}
use bootupd.Statefile.{Platform, ensure_writable_mount}
use bootupd.Bootupd.{ensure_writable_boot}
use bootupd.Bootupd.Migrate.{strip_loop, strip_ostree}
use bootupd.Bootupd.Migration.{
  GrubDir, grub_config_dir, stripped_config, backup_config, get_args, set_args, is_migrated,
  replace_link, migrate_link, client_run_migrate_static_grub_config,
}
use bootupd.Bootupd.Migration.Stripped
use bootupd.Bootupd.Migration.Stripped.{IsGrubDir, unlines, write_stripped-Runs, by_test}

module _ {W : Type 0} (cfg tmp buf : W → Str) (G : GrubDir W) (L : IsGrubDir cfg tmp buf G)
    (old : Str) where
  abbrev Same : W → Type 0
  Same = Stripped.Same cfg tmp buf G L old

  abbrev Both : Str → W → Type 0
  Both = Stripped.Both cfg tmp buf G L old

  abbrev IsFlushed : Str → W → Type 0
  IsFlushed = Stripped.IsFlushed cfg tmp buf G L old

  abbrev IsWritten : Bool → List (Result Str) → Str → W → Type 0
  IsWritten = Stripped.IsWritten cfg tmp buf G L old

  -- The symlink leads to a file whose stripped text grub.cfg reads.
  abbrev pub IsStatic : W → Type 0
  IsStatic v =
      (before during : W) × (path : Str) × (lines : List Str) × (G.read_link (codes "grub.cfg")
          before
        ≡ ok path)
      × (G.open_lines (join grub_config_dir path) during ≡ ok (map ok lines))
      × (cfg v ≡ unlines (strip_ostree lines))

  abbrev pub OldOrStatic : W → Type 0
  OldOrStatic v = Same v ⊎ IsStatic v

  keeps-Runs :
      (m : Exec W (Unit {0})) (w : W)
      → cfg (m w).1 ≡ cfg w
      → Same w
      → Runs (λ _. Same) OldOrStatic m w
  keeps-Runs m w k c = Ends-cases (λ _. Same) OldOrStatic _ _ (λ _ _. k ∙ c) (λ _ _. inl (k ∙ c))

  file-Runs : (w : W) → Same w → Runs (λ _. Both []) OldOrStatic (G.write_file stripped_config) w
  file-Runs w c =
      let kept = L.file_keeps w (λ path e. (L.leads_elsewhere path w e).1) ∙ c in
      Ends-cases (λ _. Both []) OldOrStatic _ _
        (λ _ done. let empty = L.file_empty w done in (kept, rw (empty.0, empty.1) refl))
        (λ _ _. inl kept)

  flush-Runs : (t : Str) (w : W) → Both t w → Runs (λ _. IsFlushed t) OldOrStatic G.flush w
  flush-Runs t w (c, e) =
      Ends-cases (λ _. IsFlushed t) OldOrStatic _ _
        (λ _ done. (L.flush_keeps w ∙ c, L.flush_writes w done ∙ e))
        (λ _ _. inl (L.flush_keeps w ∙ c))

  exchange-Runs :
      (t : Str) (w : W)
      → IsFlushed t w
      → Runs (λ _ v. cfg v ≡ t) OldOrStatic (G.local_exchange stripped_config (codes "grub.cfg")) w
  exchange-Runs t w (c, e) =
      Ends-cases (λ _ v. cfg v ≡ t) OldOrStatic _ _ (λ _ done. L.exchanges w done ∙ e)
        (λ _ bad. inl (L.exchange_failed w bad ∙ c))

  replace_link-Runs :
      (path : Str) (before w : W)
      → G.read_link (codes "grub.cfg") before ≡ ok path
      → Same w
      → Runs (λ _. OldOrStatic) OldOrStatic (replace_link G path) w
  unfolding replace_link strip_ostree
  replace_link-Runs path before w leads c =
      let E = OldOrStatic in
      let Q : Unit {0} → W → Type 0 = λ _. OldOrStatic in
      let from = join grub_config_dir path in
      Ends-continue (λ _. Same) Q E _ _ _
        (keeps-Runs (G.copy from backup_config) w
          (L.copy_keeps from w (L.leads_elsewhere path before leads).0) c)
        λ _ c1. result_step Q E (G.open_lines from _) _ _ (inl c1) λ rs read.
          Ends-continue (λ _. Both []) Q E _ _ _ (file-Runs _ c1)
            λ _ b.
              Ends-continue (λ _. IsWritten false rs []) Q E _ _ _
                (Ends-mono (λ _. IsWritten false rs []) Same (λ _. IsWritten false rs []) E _
                  (λ _ x. x) inl (write_stripped-Runs cfg tmp buf G L old false rs [] _ b))
                λ _ (c2, lines, all, e).
                  let t = unlines (strip_loop false lines) in
                  Ends-continue (λ _. IsFlushed t) Q E _ _ _ (flush-Runs t _ (c2, e))
                    λ _ (c3, e3).
                      let synced = L.sync_keeps _ in
                      Ends-continue (λ _ v. cfg v ≡ t) Q E _ _ _
                        (exchange-Runs t _ (synced.0 ∙ c3, synced.1 ∙ e3))
                        λ _ now. inr (
                          before,
                          _,
                          path,
                          lines,
                          leads,
                          read ∙ ap ok all,
                          L.remove_keeps _ ∙ (L.sync_keeps _).0 ∙ now,
                        )

  migrate_link-Runs :
      (link : Result Str) (before w : W)
      → G.read_link (codes "grub.cfg") before ≡ link
      → Same w
      → Runs (λ _. OldOrStatic) OldOrStatic (migrate_link G link) w
  unfolding migrate_link
  migrate_link-Runs (err e) before w leads c = inl c
  migrate_link-Runs (ok path) before w leads c = replace_link-Runs path before w leads c

  moved-OldOrStatic : (v z : W) → cfg z ≡ cfg v → OldOrStatic v → OldOrStatic z
  moved-OldOrStatic v z k (inl c) = inl (k ∙ c)
  moved-OldOrStatic v z k (inr (before, during, path, lines, leads, read, e)) =
      inr (before, during, path, lines, leads, read, k ∙ e)

-- The two commands of ostree and the remount of /boot leave grub.cfg.
pub record KeepsGrub (P : Platform) (T : Tools P.Machine) (cfg : P.Machine → Str) : Type 0 where
  pub output_keeps : (w : P.Machine) → cfg (T.output get_args w).1 ≡ cfg w
  pub status_keeps : (w : P.Machine) → cfg (T.status set_args w).1 ≡ cfg w
  pub remount_keeps : (w : P.Machine) → cfg (P.remount_rw (codes "/boot") w).1 ≡ cfg w

module _ (P : Platform) (T : Tools P.Machine) (G : GrubDir P.Machine)
    (cfg tmp buf : P.Machine → Str) (L : IsGrubDir cfg tmp buf G) (K : KeepsGrub P T cfg)
    (w : P.Machine) where
  abbrev Outcome : P.Machine → Type 0
  Outcome = OldOrStatic cfg tmp buf G L (cfg w)

  abbrev Kept : P.Machine → Type 0
  Kept v = cfg v ≡ cfg w

  writable_keeps : (v : P.Machine) → cfg (ensure_writable_boot P v).1 ≡ cfg v
  unfolding ensure_writable_boot ensure_writable_mount
  writable_keeps v = ground (arith, K.remount_keeps v)

  set_bootloader-Runs :
      (v : P.Machine)
      → Outcome v
      → Runs
          (λ _. Outcome)
          Outcome
          (do
            status ← T.status set_args
            if status then pure tt else bail (failed "Failed to set 'sysroot.bootloader'"))
          v
  set_bootloader-Runs v o =
      let z = T.status set_args v in
      let moved = moved-OldOrStatic cfg tmp buf G L (cfg w) v z.1 (K.status_keeps v) o in
      Ends-continue (λ _. Outcome) (λ _. Outcome) Outcome _ _ _
        (Ends-cases (λ _. Outcome) Outcome z.0 z.1 (λ _ _. moved) (λ _ _. moved))
        λ status o'. if_Runs status _ o'
    where
      if_Runs :
          (b : Bool) (u : P.Machine)
          → Outcome u
          → Runs
              (λ _. Outcome)
              Outcome
              (if b then pure tt else bail (failed "Failed to set 'sysroot.bootloader'"))
              u
      if_Runs true u x = x
      if_Runs false u x = x

  goes-Runs : Runs (λ _. Outcome) Outcome (client_run_migrate_static_grub_config P T G) w
  unfolding client_run_migrate_static_grub_config
  goes-Runs =
      let Q : Unit {0} → P.Machine → Type 0 = λ _. Outcome in
      let out = T.output get_args w in
      let kept = K.output_keeps w in
      Ends-continue (λ _. Kept) Q Outcome _ _ _
        (Ends-cases (λ _. Kept) Outcome out.0 out.1 (λ _ _. kept) (λ _ _. inl kept))
        λ result c. result_step Q Outcome (is_migrated result) _ _ (inl c) λ migrated _.
          by_test cfg tmp buf G L (cfg w) Q Outcome migrated (pure tt) _ _ (λ _. inl c)
            λ _.
              Ends-continue (λ _. Kept) Q Outcome _ _ _
                (Ends-cases (λ _. Kept) Outcome (ensure_writable_boot P _).0 _
                  (λ _ _. writable_keeps _ ∙ c) (λ _ _. inl (writable_keeps _ ∙ c)))
                λ _ c1. result_step Q Outcome (T.open_dir grub_config_dir _) _ _ (inl c1) λ _ _.
                  Ends-continue Q Q Outcome _ _ _
                    (migrate_link-Runs cfg tmp buf G L (cfg w) _ _ _ refl (L.mark_keeps _ ∙ c1))
                    λ _ o. set_bootloader-Runs _ o

  -- However the migration ends, an error at any point included, grub.cfg reads as before, or it reads
  -- the text of the file that the symlink grub.cfg led to, all of whose lines were read, without what
  -- ostree had generated. Nothing in between is ever in place.
  pub migration_atomic :
      (cfg (client_run_migrate_static_grub_config P T G w).1 ≡ cfg w)
      ⊎ IsStatic cfg tmp buf G L (cfg w) (client_run_migrate_static_grub_config P T G w).1
  migration_atomic = Ends_either (λ _. Outcome) Outcome _ (λ _ o. o) (λ o. o) goes-Runs
