-- ===== src/Xtask/Packaged.antt =====
-- What `impl_package` has made when it succeeds.
use mathlib.Core.Path.{subst}
use bootupd.Base.{
  Str, codes, ◌++◌, ◌≡◌, refl, sym, ap, ◌∙◌, ◌⊎◌, inl, inr, Bool, true, false, some, [], ◌∷◌,
  Result, ok, failed, Exec, continue-ok, continue-rest, ◌>>=◌, and_then-ok, ok_or-ok, ok_or,
  Result-cases, pure, bail, if◌then◌else◌, ok_inj,
}
use bootupd.Base.Path.{join}
use bootupd.Base.Lines.{trim}
use bootupd.Xtask.{
  Shell, Package, package_version, impl_package, gitrev, git_timestamp, timestamp_of, describe,
  show, date_format, archive, gitrev_to_version, get_target_dir,
}
use bootupd.Xtask.Integer.{ℤ, parse_i64, parse_i64_sound, Spells, Fits}
use bootupd.Xtask.Version.{IsVersion, gitrev_to_version-IsVersion}

module _ {W : Type 0} (S : Shell W) where
  -- The text that git printed spells a number of seconds in the range of `i64`, with this date.
  abbrev pub IsTimestamp : Str → Type 0
  IsTimestamp t =
      (u : W) × (out : Str) × ((S.read (show S) u).0 ≡ ok out)
      × (n : ℤ) × (d : S.NaiveDateTime) × Spells (trim out) n
      × Fits n
      × (S.from_timestamp_opt n ≡ some d)
      × (t ≡ S.format (date_format S) d)

  -- The version of a tag, or what the other command printed behind `0.`.
  abbrev pub IsRevision : Str → Type 0
  IsRevision v =
      ((u : W) × (rev : Str) × ((S.read (describe S) u).0 ≡ ok rev)
        × (v ≡ gitrev_to_version rev)
        × IsVersion v)
      ⊎ ((u : W) × (desc : Str) × ((S.read (describe S ++ (codes "--always" ∷ [])) u).0 ≡ ok desc)
          × (v ≡ codes "0." ++ desc))

  gitrev-IsRevision : (w : W) (v : Str) → (gitrev S w).0 ≡ ok v → IsRevision v
  unfolding gitrev
  gitrev-IsRevision w v h = elim (Result-cases (S.read (describe S) w).0) [
    | inl (rev, e) ↦
        let h' = rw e at h in
        let tagged : gitrev_to_version rev ≡ v = ok_inj h' in
        inl (w, rev, e, sym tagged, subst IsVersion tagged (gitrev_to_version-IsVersion rev))
    | inr (e, failed_first) ↦
        let h' = rw failed_first at h in
        let u = (S.read (describe S) w).1 in
        let (desc, found, done) =
          continue-ok (S.read (describe S ++ (codes "--always" ∷ [])) u).0 _ _ h' in
        inr (u, desc, found, sym (ok_inj done))
  ]

  git_timestamp-IsTimestamp : (w : W) (t : Str) → (git_timestamp S w).0 ≡ ok t → IsTimestamp t
  unfolding git_timestamp timestamp_of
  git_timestamp-IsTimestamp w t h =
      let (out, printed, h1) = continue-ok (S.read (show S) w).0 _ _ h in
      let (n, parsed, h2) = and_then-ok (ok_or (parse_i64 (trim out)) _) _ h1 in
      let (d, dated, h3) = and_then-ok (ok_or (S.from_timestamp_opt n) _) _ h2 in
      let (spells, fits) = parse_i64_sound (trim out) n (ok_or-ok _ _ parsed) in
      (w, out, printed, n, d, spells, fits, ok_or-ok _ _ dated, sym (ok_inj h3))

  abbrev pub tarball : Str → Str
  tarball v = join (codes "target") (codes "bootupd-" ++ (v ++ codes ".tar.zstd"))

  -- `git archive` of this version has ended well, with its output in the file.
  abbrev pub Archived : Package → W → Type 0
  Archived pkg v =
      (u : W) × (S.status (archive S (codes "bootupd-" ++ pkg.version)) pkg.srcpath u
        ≡ (ok true, v))

  get_target_dir_lem : (w : W) (t : Str) → (get_target_dir S w).0 ≡ ok t → codes "target" ≡ t
  unfolding get_target_dir
  get_target_dir_lem w t h =
      let (_, _, h1) = continue-ok (S.create_dir_all (codes "target") w).0 _ _ h in ok_inj h1

  abbrev made : Str → Package
  made v = record { version = v; srcpath = tarball v }

  abbrev conclude : Str → Bool → Exec W Package
  conclude v b = if b then pure (made v) else bail (failed "Failed to run git archive")

  conclude_lem :
      (v : Str) (b : Bool) (u : W) (pkg : Package)
      → (conclude v b u).0 ≡ ok pkg
      → (pkg ≡ made v) × (b ≡ true) × ((conclude v b u).1 ≡ u)
  conclude_lem v true u pkg h = (sym (ok_inj h), refl, refl)
  conclude_lem v false u pkg h = cc

  -- The end of the packaging, once the archive is opened.
  abbrev archiving : Str → Exec W Package
  archiving v = do st ← S.status (archive S (codes "bootupd-" ++ v)) (tarball v); conclude v st

  archiving_lem :
      (v : Str) (w : W) (pkg : Package)
      → (archiving v w).0 ≡ ok pkg
      → (pkg ≡ made v) × Archived (made v) (archiving v w).1
  archiving_lem v w pkg h =
      let r = S.status (archive S (codes "bootupd-" ++ v)) (tarball v) w in
      let (b, ran, h1, r1) = continue-rest r.0 (conclude v) r.1 h in
      let (e, t, stays) = conclude_lem v b r.1 pkg h1 in
      (e, (w, λ i. ((ran ∙ ap ok t) i, sym (ap (λ (x : Result Package × W). x.1) r1 ∙ stays) i)))

  abbrev creating : Str → Exec W Package
  creating v = S.create (tarball v) >>= λ _. archiving v

  creating_lem :
      (v : Str) (w : W) (pkg : Package)
      → (creating v w).0 ≡ ok pkg
      → (pkg ≡ made v) × Archived (made v) (creating v w).1
  creating_lem v w pkg h =
      let (_, _, h1, r1) = continue-rest (S.create (tarball v) w).0 (λ _. archiving v) _ h in
      rw r1 (archiving_lem v _ pkg h1)

  package_version_lem :
      (v : Str) (w : W) (pkg : Package)
      → (package_version S v w).0 ≡ ok pkg
      → (pkg ≡ made v) × Archived (made v) (package_version S v w).1
  unfolding package_version
  package_version_lem v w pkg h =
      let (t, found, _) = continue-ok (get_target_dir S w).0 _ _ h in
      let at_target = found ∙ ap ok (sym (get_target_dir_lem w t found)) in
      rw at_target (creating_lem v _ pkg (rw at_target at h))

  abbrev pub Packaged : Package → W → Type 0
  Packaged pkg u =
      ((t v : Str) × (pkg.version ≡ t ++ (codes "." ++ v)) × IsTimestamp t × IsRevision v)
      × (pkg.srcpath ≡ tarball pkg.version)
      × Archived pkg u

  -- A successful `impl_package` has the date of the commit and the revision as its version, with a
  -- full stop between them: the date is that of a number of seconds in the range of `i64` that git
  -- printed, and the revision is a text without a dash that does not begin with a `v`, or `0.` with
  -- what git printed. The archive of that version under its prefix, which `git archive` made with
  -- success as the last step, is in the file that the package names.
  pub impl_package_lem :
      (w : W) (pkg : Package) → (impl_package S w).0 ≡ ok pkg → Packaged pkg (impl_package S w).1
  unfolding impl_package
  impl_package_lem w pkg h =
      let (v, revised, h1, r1) = continue-rest (gitrev S w).0 _ _ h in
      let (t, dated, h2, r2) = continue-rest (git_timestamp S _).0 _ _ h1 in
      let (e, run) = package_version_lem (t ++ (codes "." ++ v)) _ pkg h2 in
      let last : (impl_package S w).1 ≡ _ = ap (λ (x : Result Package × W). x.1) (r1 ∙ r2) in
      subst (λ p. Packaged p (impl_package S w).1) (sym e)
        (
          (t, v, refl, git_timestamp-IsTimestamp _ t dated, gitrev-IsRevision w v revised),
          refl,
          subst (Archived (made (t ++ (codes "." ++ v)))) (sym last) run,
        )
