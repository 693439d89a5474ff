-- ===== src/Tests/Folder.antt =====
-- A directory in memory, on which `apply_diff` runs.
use mathlib.Core.Path.{fun_ext}
use mathlib.Core.Option.{get_or}
use bootupd.Base.{
  Str, ◌==◌, ◌≡◌, refl, ap, Bool, true, false, not, ◌&&◌, Option, none, some, Result, ok, err,
  failed, if◌then◌else◌, is_some, arith, sym, ◌∙◌, Bool-cases, inl, inr,
}
use bootupd.Filetree.{FileMetadata}
use bootupd.Filetree.Scan.{Entries}
use bootupd.Filetree.Disk.{Disk, IsDisk, Top, files, same, without, with_file, only}

-- What a name holds.
pub data Held : Type 0 where
  nothing : Held
  a_file : FileMetadata → Held
  a_dir : (Str → Option FileMetadata) → Held

abbrev pub Folder : Type 0
Folder = Str → Held

abbrev tree : (Str → Option FileMetadata) → Option Str → Option FileMetadata
tree g none = none
tree g (some r) = g r

abbrev shown : Held → Top
shown nothing = none
shown (a_file m) = some (only (some m))
shown (a_dir g) = some (tree g)

abbrev pub top : Folder → Str → Top
top w x = shown (w x)

abbrev set : Str → Held → Folder → Folder
set y h w x = if x == y then h else w x

-- An action on one name: what it becomes, if that is possible.
abbrev act : Str → Option Held → Folder → Result (Unit {0}) × Folder
act y none w = (err (failed "not possible"), w)
act y (some h) w = (ok tt, set y h w)

abbrev taken : Str → Held → Option Held
taken r nothing = some nothing
taken r (a_file m) = none
taken r (a_dir g) = some (a_dir (λ q. if q == r then none else g q))

abbrev unlinked : Held → Option Held
unlinked nothing = some nothing
unlinked (a_file m) = some nothing
unlinked (a_dir g) = none

abbrev removal : Option Str → Held → Option Held
removal none h = unlinked h
removal (some r) h = taken r h

abbrev made : Held → Option Held
made nothing = some (a_dir (λ _. none))
made (a_file m) = none
made (a_dir g) = some (a_dir g)

abbrev copied : Option Str → Option FileMetadata → Held → Option Held
copied r none h = none
copied none (some m) nothing = some (a_file m)
copied none (some m) (a_file _) = some (a_file m)
copied none (some m) (a_dir g) = none
copied (some r) (some m) nothing = none
copied (some r) (some m) (a_file _) = none
copied (some r) (some m) (a_dir g) = some (a_dir (λ q. if q == r then some m else g q))

abbrev emptied : Option Str → Held → Option Held
emptied none h = some nothing
emptied (some r) h = taken r h

module _ (listing : Entries) (source : Str → Option FileMetadata) where
  abbrev pub folder : Disk Folder
  folder = record {
    list_dir = λ w. listing;
    exists = λ x w. ok (is_some (top w x));
    cp_a = λ x y w.
        if is_some (top w x) && not (is_some (top w y))
        then (ok true, set y (w x) w)
        else (ok false, w);
    remove_file = λ p w. act p.0 (removal p.1 (w p.0)) w;
    remove_file_optional = λ p w. act p.0 (removal p.1 (w p.0)) w;
    remove_all = λ p w. act p.0 (emptied p.1 (w p.0)) w;
    ensure_dir_all = λ p w. act p.0 (made (w p.0)) w;
    copy_file_at = λ s p w. act p.0 (copied p.1 (source s) (w p.0)) w;
    local_exchange = λ a b w. (ok tt, set a (w b) (set b (w a) w));
    local_rename = λ a b w. (ok tt, set a nothing (set b (w a) w));
    reopen = λ w. ok tt;
    sync = λ w. (ok tt, w);
    fail_eval = λ n w. none;
  }

  shown_made : (h k : Held) → some h ≡ some k → shown k ≡ shown h
  shown_made h k e = ap (λ x. shown (get_or x nothing)) (sym e)

  act_spares :
      (y x : Str) (h : Option Held) (w : Folder) → (x == y) ≡ false → top (act y h w).1 x ≡ top w x
  act_spares y x none w n = refl
  act_spares y x (some h) w n = rw n refl

  act_holds :
      (y : Str) (w : Folder) (t : Top) (h : Option Held)
      → ((k : Held) → h ≡ some k → shown k ≡ t)
      → (act y h w).0 ≡ ok tt
      → top (act y h w).1 y ≡ t
  act_holds y w t none f e = cc
  act_holds y w t (some k) f e = let here : (y == y) ≡ true = ground arith in rw here (f k refl)

  taken-without : (r : Str) (h k : Held) → taken r h ≡ some k → shown k ≡ without r (shown h)
  taken-without r nothing k e = grind arith
  taken-without r (a_file m) k e = cc
  taken-without r (a_dir g) k e = shown_made _ k e ∙ ap some (fun_ext cases)
    where
      cases :
          (q : Option Str)
          → tree (λ q. if q == r then none else g q) q
            ≡ (if same q (some r) then none else tree g q)
      cases none = refl
      cases (some q) = refl

  unlinked-none : (h k : Held) → unlinked h ≡ some k → shown k ≡ none
  unlinked-none nothing k e = grind arith
  unlinked-none (a_file m) k e = grind arith
  unlinked-none (a_dir g) k e = cc

  unlinked_empty :
      (h : Held) (r : Str) → is_some (unlinked h) ≡ true → files (shown h) (some r) ≡ none
  unlinked_empty nothing r e = refl
  unlinked_empty (a_file m) r e = refl
  unlinked_empty (a_dir g) r e = cc

  act_done : (y : Str) (h : Option Held) (w : Folder) → (act y h w).0 ≡ ok tt → is_some h ≡ true
  act_done y none w e = cc
  act_done y (some h) w e = refl

  made-files : (h k : Held) → made h ≡ some k → shown k ≡ some (files (shown h))
  made-files nothing k e = shown_made _ k e ∙ ap some (fun_ext cases)
    where
      cases : (q : Option Str) → tree (λ _. none) q ≡ files none q
      cases none = refl
      cases (some q) = refl
  made-files (a_file m) k e = cc
  made-files (a_dir g) k e = shown_made _ k e

  copied-with_file :
      (r : Option Str) (m : Option FileMetadata) (h k : Held)
      → copied r m h ≡ some k
      → shown k ≡ with_file r m (shown h)
  copied-with_file r none h k e = cc
  copied-with_file none (some m) nothing k e = grind arith
  copied-with_file none (some m) (a_file n) k e = grind arith
  copied-with_file none (some m) (a_dir g) k e = cc
  copied-with_file (some r) (some m) nothing k e = cc
  copied-with_file (some r) (some m) (a_file n) k e = cc
  copied-with_file (some r) (some m) (a_dir g) k e = shown_made _ k e ∙ ap some (fun_ext cases)
    where
      cases :
          (q : Option Str)
          → tree (λ q. if q == r then some m else g q) q
            ≡ (if same q (some r) then some m else tree g q)
      cases none = refl
      cases (some q) = refl

  abbrev get_ok : Result Bool → Bool
  get_ok (ok b) = b
  get_ok (err e) = false

  cp_at :
      (x y : Str) (w : Folder) (z : Str) → (z == y) ≡ false → top (folder.cp_a x y w).1 z ≡ top w z
  cp_at x y w z n = elim (Bool-cases (is_some (top w x) && not (is_some (top w y)))) [
    | inl e ↦ rw (e, n) refl
    | inr e ↦ rw e refl
  ]

  cp_to :
      (x y : Str) (w : Folder)
      → (folder.cp_a x y w).0 ≡ ok true
      → is_some (top w y) ≡ false
      → (top (folder.cp_a x y w).1 y ≡ top w x) × (is_some (top w x) ≡ true)
  cp_to x y w e n = elim (Bool-cases (is_some (top w x))) [
    | inl h ↦ let here : (y == y) ≡ true = ground arith in rw (h, n, here) (refl, refl)
    | inr h ↦ absurd (not_done h)
  ]
    where
      not_done : is_some (top w x) ≡ false → ⊥
      not_done h = let e' = rw h at e in cc

  exchanged :
      (a b : Str) (w : Folder)
      → (a == b) ≡ false
      → (top (set a (w b) (set b (w a) w)) a ≡ top w b)
        × (top (set a (w b) (set b (w a) w)) b ≡ top w a)
        × ((x : Str)
            → (x == a) ≡ false
            → (x == b) ≡ false
            → top (set a (w b) (set b (w a) w)) x ≡ top w x)
  exchanged a b w n = (at_a, at_b, λ x m k. rw (m, k) refl)
    where
      at_a : top (set a (w b) (set b (w a) w)) a ≡ top w b
      at_a = let here : (a == a) ≡ true = ground arith in rw here refl

      at_b : top (set a (w b) (set b (w a) w)) b ≡ top w a
      at_b =
          let here : (b == b) ≡ true = ground arith in
          let apart : (b == a) ≡ false = ground arith in rw (apart, here) refl

  renamed :
      (a b : Str) (w : Folder)
      → (a == b) ≡ false
      → (top (set a nothing (set b (w a) w)) b ≡ top w a)
        × ((x : Str)
            → (x == a) ≡ false
            → (x == b) ≡ false
            → top (set a nothing (set b (w a) w)) x ≡ top w x)
  renamed a b w n = (at_b, λ x m k. rw (m, k) refl)
    where
      at_b : top (set a nothing (set b (w a) w)) b ≡ top w a
      at_b =
          let here : (b == b) ≡ true = ground arith in
          let apart : (b == a) ≡ false = ground arith in rw (apart, here) refl

  pub folder-IsDisk : IsDisk top source folder
  folder-IsDisk = record {
    exists_tells = λ x w b e. ap (λ r. get_ok r) e;
    cp_spares = λ x y z w n. cp_at x y w z n;
    cp_copies = λ x y w e n. cp_to x y w e n;
    remove_file_spares = λ p x w. act_spares p.0 x (removal p.1 (w p.0)) w;
    remove_file_removes = λ y w e. act_holds y w none (unlinked (w y)) (unlinked-none (w y)) e;
    remove_all_spares = λ p x w. act_spares p.0 x (emptied p.1 (w p.0)) w;
    remove_all_removes = λ y w e. act_holds y w none (some nothing) (shown_made nothing) e;
    optional_spares = λ p x w. act_spares p.0 x (removal p.1 (w p.0)) w;
    optional_removes = λ y w e. (
      act_holds y w none (unlinked (w y)) (unlinked-none (w y)) e,
      λ r. unlinked_empty (w y) r (act_done y (unlinked (w y)) w e),
    );
    optional_removes_below = λ y r w e. act_holds y w _ (taken r (w y)) (taken-without r (w y)) e;
    ensure_spares = λ p x w. act_spares p.0 x (made (w p.0)) w;
    ensure_makes = λ p w e. act_holds p.0 w _ (made (w p.0)) (made-files (w p.0)) e;
    copy_spares = λ s p x w. act_spares p.0 x (copied p.1 (source s) (w p.0)) w;
    copy_copies = λ s p w e.
        act_holds p.0 w _ (copied p.1 (source s) (w p.0)) (copied-with_file p.1 (source s) (w p.0))
          e;
    exchange_swaps = λ a b w n e. exchanged a b w n;
    exchange_failed = λ a b w e f. cc;
    rename_moves = λ a b w n e. renamed a b w n;
    rename_failed = λ a b w e f. cc;
    sync_keeps = λ w. refl;
  }
