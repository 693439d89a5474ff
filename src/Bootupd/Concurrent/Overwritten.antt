-- ===== src/Bootupd/Concurrent/Overwritten.antt =====
-- What an update saves that had to wait for the lock.
use bootupd.Base.{Str, ℕ, ◌==◌, ◌≡◌, refl, sym, ap, ◌∙◌, false, Option, none, some, Result, ok}
use bootupd.Base.Ends.{Runs, Ends-ok}
use bootupd.Base.Map.{get, insert, get-insert}
use bootupd.Model.{ContentMetadata, InstalledContent, SavedState}
use bootupd.Component.{Component}
use bootupd.Statefile.{Platform, IsLawful, look, load_from_disk, acquire_write_lock}
use bootupd.Bootupd.{ComponentUpdateResult, slash}
use bootupd.Bootupd.Steps.{
  KeepsState, Saw, Sees, Holds, quiet_step, write_step, lock-IsQuiet, load_of_Holds,
}
use bootupd.Bootupd.Concurrent.{did_update, Phase, update_waits, ended, World, turns}
use bootupd.Bootupd.Concurrent.Solo.{solo, update_locking, update_waits-EndsAs}
use bootupd.Bootupd.Concurrent.Alone.{repeat, turns-solo}

module _ (P : Platform) (L : IsLawful P) (efi bios c : Component P.Machine) (K : KeepsState P c)
    (old : SavedState) (i : InstalledContent) (new : ContentMetadata) where
  abbrev Saved : Saw P → ComponentUpdateResult → P.Machine → Type 0
  Saved x r w =
      (n : InstalledContent) × Holds P L x
        (record old { installed = insert old.installed c.name n; pending = none }) w

  locking-Runs :
      (x : Saw P) (w : P.Machine)
      → Sees P L x w
      → Runs (Saved x) (λ _. Unit) (update_locking P efi bios c old i new) w
  locking-Runs x w h =
      quiet_step P L (Saved x) (λ _. Unit) x (acquire_write_lock P slash) _ w (lock-IsQuiet P L)
        (λ _ _. tt) h
        λ _ _ h1.
          write_step P L (Saved x) (λ _. Unit) x (record old { pending = none }) _ _ (λ _ _. tt) h1
            λ v h2.
              quiet_step P L (Saved x) (λ _. Unit) _ (c.run_update i) _ v (K.run_update_quiet i)
                (λ _ _. tt) h2
                λ n _ h3.
                  write_step P L (Saved x) (λ _. Unit) _
                    (record old { installed = insert old.installed c.name n; pending = none }) _ _
                    (λ _ _. tt) h3 (λ _ h4. (n, h4))

  module _ (p : ℕ) (s : World P.Machine) (free : s.holder ≡ none)
      (waiting : s.phase p ≡ update_waits c old i new) where
    -- If a process for `update` that has loaded the state `old` waits for the lock, which is free, and
    -- goes from there to its end with success, then the state file holds every other component as in
    -- `old`, whatever it held when the lock was taken, as long as it could be read then and the
    -- component does not touch it.
    pub turns-overwritten :
        (o : Option SavedState) (r : ComponentUpdateResult) (name : Str)
        → load_from_disk P slash s.machine ≡ ok o
        → (turns P efi bios (repeat 5 p) s).phase p ≡ ended (did_update (ok r))
        → (name == c.name) ≡ false
        → (t : SavedState) × (load_from_disk P slash (turns P efi bios (repeat 5 p) s).machine
            ≡ ok (some t))
          × (get t.installed name ≡ get old.installed name)
    turns-overwritten o r name loaded done other =
        let same =
          turns-solo P efi bios 5 p s (rw (waiting, free) refl)
          ∙ ap (λ ph. solo P efi bios 5 ph s.machine) waiting
          ∙ update_waits-EndsAs P efi bios c old i new s.machine in
        let locking = update_locking P efi bios c old i new s.machine in
        let went : locking.0 ≡ ok r =
          reply_inj (sym (ap (λ (x : Phase P.Machine × P.Machine). x.0) same) ∙ done) in
        let (n, there) =
          Ends-ok (Saved (look P slash s.machine)) (λ _. Unit) locking.0 locking.1
            (locking-Runs (look P slash s.machine) s.machine refl) went in
        (
          _,
          ap (λ (x : Phase P.Machine × P.Machine). load_from_disk P slash x.1) same
              ∙ load_of_Holds P L s.machine (c.unmount locking.1) _ loaded
                  (K.unmount_quiet slash locking.1 ∙ there),
          get-insert old.installed c.name name n ∙ rw other refl,
        )
      where
        reply_inj :
            {a b : Result ComponentUpdateResult}
            → ◌≡◌ {A = Phase P.Machine} (ended (did_update a)) (ended (did_update b))
            → a ≡ b
        reply_inj h = cc
