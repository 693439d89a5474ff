-- ===== src/Filetree/Cleanup.antt =====
-- What `cleanup_tmp` leaves of a directory.
use mathlib.Core.Path.{subst}
use bootupd.Base.{
  sym, ◌∙◌, Bool, Str, ◌≡◌, refl, ◌⊎◌, inl, inr, true, false, none, some, Result, ok, and_then-ok,
  starts_with, Bool-cases,
}
use bootupd.Filetree.{FileMetadata}
use bootupd.Filetree.Scan.{
  Node, file, dir, symlink, other, bad, Entries, end, entry, broken, tmp_prefix, cleanup_tmp,
}
use bootupd.Filetree.Scannable.{IsPlain}

-- Every entry, at any depth, is a directory or a file with a name that is UTF-8, and those whose
-- names do not begin with the prefix of temporary files can be read.
unfoldable mutual
  pub IsCleanable : Entries → Type 0
  IsCleanable end = Unit
  IsCleanable (broken e rest) = ⊥
  IsCleanable (entry none node rest) = ⊥
  IsCleanable (entry (some name) node rest) =
      (((starts_with name tmp_prefix ≡ true) × IsRemovable node) ⊎ IsReadable node)
      × IsCleanable rest

  pub IsRemovable : Node → Type 0
  IsRemovable (file r) = Unit
  IsRemovable (dir es) = Unit
  IsRemovable symlink = ⊥
  IsRemovable other = ⊥
  IsRemovable (bad e) = ⊥

  pub IsReadable : Node → Type 0
  IsReadable (file r) = (m : FileMetadata) × (r ≡ ok m)
  IsReadable (dir es) = IsCleanable es
  IsReadable symlink = ⊥
  IsReadable other = ⊥
  IsReadable (bad e) = ⊥

IsPlain-ok : (a b : Entries) → IsPlain a → ◌≡◌ {A = Result Entries} (ok a) (ok b) → IsPlain b
IsPlain-ok a b p h = let e : a ≡ b = cc in subst IsPlain e p

-- An entry that is not temporary is there to be read.
stays : {A : Type 0} (b : Bool) (B : Type 0) → b ≡ false → ((b ≡ true) × A) ⊎ B → B
stays b B e (inl t) = absurd (true-ne-false (sym t.0 ∙ e))
  where
    true-ne-false : ◌≡◌ {A = Bool} true false → ⊥
    true-ne-false h = cc
stays b B e (inr t) = t

module _ (remove : Str → Result (Unit {0})) where
  -- If `cleanup_tmp` succeeds on a directory in which only temporary files and directories stand in
  -- the way, then `new_from_dir` accepts what is left.
  cleanup_tmp-IsPlain :
      (es es' : Entries) → IsCleanable es → cleanup_tmp remove es ≡ ok es' → IsPlain es'
  unfolding cleanup_tmp IsPlain IsCleanable
  cleanup_tmp-IsPlain end es' c h = IsPlain-ok end es' tt h
  cleanup_tmp-IsPlain (broken e rest) es' c h = absurd c
  cleanup_tmp-IsPlain (entry none node rest) es' c h = absurd c
  cleanup_tmp-IsPlain (entry (some name) (file r) rest) es' (c, cs) h =
      elim (Bool-cases (starts_with name tmp_prefix)) [
        | inl e ↦
            let (_, _, h') = and_then-ok (remove name) _ (rw e at h) in
            cleanup_tmp-IsPlain rest es' cs h'
        | inr e ↦
            let (rest', g, h') = and_then-ok (cleanup_tmp remove rest) _ (rw e at h) in
            IsPlain-ok (entry (some name) (file r) rest') es'
              (e, stays _ _ e c, cleanup_tmp-IsPlain rest rest' cs g) h'
      ]
  cleanup_tmp-IsPlain (entry (some name) (dir es) rest) es' (c, cs) h =
      elim (Bool-cases (starts_with name tmp_prefix)) [
        | inl e ↦
            let (_, _, h') = and_then-ok (remove name) _ (rw e at h) in
            cleanup_tmp-IsPlain rest es' cs h'
        | inr e ↦
            let (child', k, h1) = and_then-ok (cleanup_tmp remove es) _ (rw e at h) in
            let (rest', g, h') = and_then-ok (cleanup_tmp remove rest) _ h1 in
            IsPlain-ok (entry (some name) (dir child') rest') es'
              (
                e,
                cleanup_tmp-IsPlain es child' (stays _ _ e c) k,
                cleanup_tmp-IsPlain rest rest' cs g,
              )
              h'
      ]
  cleanup_tmp-IsPlain (entry (some name) symlink rest) es' (inl c, cs) h = absurd c.1
  cleanup_tmp-IsPlain (entry (some name) symlink rest) es' (inr c, cs) h = absurd c
  cleanup_tmp-IsPlain (entry (some name) other rest) es' (inl c, cs) h = absurd c.1
  cleanup_tmp-IsPlain (entry (some name) other rest) es' (inr c, cs) h = absurd c
  cleanup_tmp-IsPlain (entry (some name) (bad x) rest) es' (inl c, cs) h = absurd c.1
  cleanup_tmp-IsPlain (entry (some name) (bad x) rest) es' (inr c, cs) h = absurd c

  -- On a directory that `new_from_dir` accepts, `cleanup_tmp` succeeds and removes nothing.
  pub cleanup_tmp_plain : (es : Entries) → IsPlain es → cleanup_tmp remove es ≡ ok es
  unfolding cleanup_tmp IsPlain
  cleanup_tmp_plain end p = refl
  cleanup_tmp_plain (broken e rest) p = absurd p
  cleanup_tmp_plain (entry none node rest) p = absurd p
  cleanup_tmp_plain (entry (some name) (file r) rest) (n, p, ps) = rw (n, cleanup_tmp_plain rest ps)
  cleanup_tmp_plain (entry (some name) (dir es) rest) (n, p, ps) =
      rw (n, cleanup_tmp_plain es p, cleanup_tmp_plain rest ps)
  cleanup_tmp_plain (entry (some name) symlink rest) (n, p, ps) = absurd p
  cleanup_tmp_plain (entry (some name) other rest) (n, p, ps) = absurd p
  cleanup_tmp_plain (entry (some name) (bad e) rest) (n, p, ps) = absurd p
