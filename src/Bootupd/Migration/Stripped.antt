-- ===== src/Bootupd/Migration/Stripped.antt =====
-- The temporary file that the migration to a static grub.cfg writes, and what the code relies on.
use mathlib.Core.List.{append-nil, append_assoc}
use bootupd.Base.{
  Error, Str, codes, ◌++◌, ◌≡◌, ◌≢◌, refl, ap, sym, ◌∙◌, Bool, true, false, List, [], ◌∷◌, map,
  Result, ok, err, Exec, if◌then◌else◌,
}
use bootupd.Base.Ends.{Runs, Ends-cases, Ends-continue, Ends-mono}
use bootupd.Bootupd.Migrate.{still_skips, starts_skip, strip_loop}
use bootupd.Bootupd.Migration.{
  GrubDir, grub_config_dir, stripped_config, backup_config, newline, write_stripped,
}
use bootupd.Base.Path.{join}

-- The lines as the text of a file.
abbrev pub unlines : List Str → Str
unlines [] = []
unlines (line ∷ lines) = line ++ (newline ++ unlines lines)

-- The documented behaviour, by what grub.cfg and the temporary file read and what is in the buffer
-- before that file: an action changes what it is for, writing may leave text in the buffer, a flush
-- puts it in the file, and the exchange is atomic. The symlink leads to none of the files that the
-- migration itself writes.
module _ {W : Type 0} (cfg tmp buf : W → Str) where
  pub record IsGrubDir (G : GrubDir W) : Type 0 where
    pub leads_elsewhere :
        (path : Str) (w : W)
        → G.read_link (codes "grub.cfg") w ≡ ok path
        → (join grub_config_dir path ≢ backup_config)
          × (join grub_config_dir path ≢ join grub_config_dir stripped_config)
    pub mark_keeps :
        (w : W) → cfg (G.create_mark (codes "/boot/grub2/.grub2-blscfg-supported") w) ≡ cfg w
    pub copy_keeps :
        (from : Str) (w : W) → from ≢ backup_config → cfg (G.copy from backup_config w).1 ≡ cfg w
    pub file_keeps :
        (w : W)
        → ((path : Str)
            → G.read_link (codes "grub.cfg") w ≡ ok path
            → join grub_config_dir path ≢ join grub_config_dir stripped_config)
        → cfg (G.write_file stripped_config w).1 ≡ cfg w
    pub file_empty :
        (w : W)
        → (G.write_file stripped_config w).0 ≡ ok tt
        → (tmp (G.write_file stripped_config w).1 ≡ [])
          × (buf (G.write_file stripped_config w).1 ≡ [])
    pub write_keeps : (s : Str) (w : W) → cfg (G.write_all s w).1 ≡ cfg w
    pub write_appends :
        (s : Str) (w : W)
        → (G.write_all s w).0 ≡ ok tt
        → tmp (G.write_all s w).1 ++ buf (G.write_all s w).1 ≡ (tmp w ++ buf w) ++ s
    pub flush_keeps : (w : W) → cfg (G.flush w).1 ≡ cfg w
    pub flush_writes : (w : W) → (G.flush w).0 ≡ ok tt → tmp (G.flush w).1 ≡ tmp w ++ buf w
    pub sync_keeps : (w : W) → (cfg (G.syncfs w) ≡ cfg w) × (tmp (G.syncfs w) ≡ tmp w)
    pub exchanges :
        (w : W)
        → (G.local_exchange stripped_config (codes "grub.cfg") w).0 ≡ ok tt
        → cfg (G.local_exchange stripped_config (codes "grub.cfg") w).1 ≡ tmp w
    pub exchange_failed :
        (w : W) {e : Error}
        → (G.local_exchange stripped_config (codes "grub.cfg") w).0 ≡ err e
        → cfg (G.local_exchange stripped_config (codes "grub.cfg") w).1 ≡ cfg w
    pub remove_keeps : (w : W) → cfg (G.remove_file stripped_config w) ≡ cfg w

module _ {W : Type 0} (cfg tmp buf : W → Str) (G : GrubDir W) (L : IsGrubDir cfg tmp buf G)
    (old : Str) where
  abbrev pub Same : W → Type 0
  Same w = cfg w ≡ old

  -- The text is in the file and in the buffer after it.
  abbrev pub Both : Str → W → Type 0
  Both t w = Same w × (tmp w ++ buf w ≡ t)

  abbrev pub IsFlushed : Str → W → Type 0
  IsFlushed t w = Same w × (tmp w ≡ t)

  write_all-Runs : (t s : Str) (w : W) → Both t w → Runs (λ _. Both (t ++ s)) Same (G.write_all s) w
  write_all-Runs t s w (c, e) =
      Ends-cases (λ _. Both (t ++ s)) Same _ _
        (λ _ done. (L.write_keeps s w ∙ c, L.write_appends s w done ∙ ap (λ x. x ++ s) e))
        (λ _ _. L.write_keeps s w ∙ c)

  pub by_test :
      (Q : Unit {0} → W → Type 0) (E : W → Type 0) (b : Bool) (m n : Exec W (Unit {0})) (w : W)
      → (b ≡ true → Runs Q E m w)
      → (b ≡ false → Runs Q E n w)
      → Runs Q E (if b then m else n) w
  by_test Q E true m n w yes_case no_case = yes_case refl
  by_test Q E false m n w yes_case no_case = no_case refl

  -- The lines were read, and what they are stripped to follows the text.
  abbrev pub IsWritten : Bool → List (Result Str) → Str → W → Type 0
  IsWritten skip rs t v =
      Same v
      × (ls : List Str) × (rs ≡ map ok ls)
      × (tmp v ++ buf v ≡ t ++ unlines (strip_loop skip ls))

  IsWritten-dropped :
      (skip : Bool) (line : Str) (rs : List (Result Str)) (t : Str) (v : W)
      → still_skips skip line ≡ true
      → IsWritten (still_skips skip line) rs t v
      → IsWritten skip (ok line ∷ rs) t v
  unfolding strip_loop
  IsWritten-dropped skip line rs t v drops (c, ls, read, e) =
      let goes : strip_loop skip (line ∷ ls) ≡ strip_loop (still_skips skip line) ls =
        rw drops refl in
      (c, line ∷ ls, ap (λ r. ok line ∷ r) read, e ∙ ap (λ l. t ++ unlines l) (sym goes))

  IsWritten-kept :
      (skip : Bool) (line : Str) (rs : List (Result Str)) (t : Str) (v : W)
      → still_skips skip line ≡ false
      → IsWritten (starts_skip line) rs (t ++ line ++ newline) v
      → IsWritten skip (ok line ∷ rs) t v
  unfolding strip_loop
  IsWritten-kept skip line rs t v keeps (c, ls, read, e) =
      let rest = strip_loop (starts_skip line) ls in
      let stays : strip_loop skip (line ∷ ls) ≡ line ∷ rest = rw keeps refl in
      let joined =
        append_assoc (t ++ line) newline (unlines rest)
        ∙ append_assoc t line (newline ++ unlines rest) in
      (c, line ∷ ls, ap (λ r. ok line ∷ r) read, e ∙ joined ∙ ap (λ l. t ++ unlines l) (sym stays))

  pub write_stripped-Runs :
      (skip : Bool) (rs : List (Result Str)) (t : Str) (w : W)
      → Both t w
      → Runs (λ _. IsWritten skip rs t) Same (write_stripped G skip rs) w
  unfolding write_stripped strip_loop
  write_stripped-Runs skip [] t w (c, e) = (c, [], refl, e ∙ sym (append-nil t))
  write_stripped-Runs skip (err e ∷ rs) t w (c, _) = c
  write_stripped-Runs skip (ok line ∷ rs) t w (c, e) =
      let skipping = still_skips skip line in
      let t' = t ++ line ++ newline in
      let Q : Unit {0} → W → Type 0 = λ _. IsWritten skip (ok line ∷ rs) t in
      by_test Q Same skipping (write_stripped G skipping rs) _ w
        (λ drops.
          Ends-mono (λ _. IsWritten skipping rs t) Same Q Same _
            (λ _. IsWritten-dropped skip line rs t _ drops) (λ k. k)
            (write_stripped-Runs skipping rs t w (c, e)))
        (λ keeps.
          Ends-continue (λ _. Both (t ++ line)) Q Same _ _ _ (write_all-Runs t line w (c, e))
            λ _ b.
              Ends-continue (λ _. Both t') Q Same _ _ _ (write_all-Runs (t ++ line) newline _ b)
                λ _ b'.
                  Ends-mono (λ _. IsWritten (starts_skip line) rs t') Same Q Same _
                    (λ _. IsWritten-kept skip line rs t _ keeps) (λ k. k)
                    (write_stripped-Runs (starts_skip line) rs t' _ b'))
