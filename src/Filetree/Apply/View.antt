-- ===== src/Filetree/Apply/View.antt =====
-- What a directory is going to hold while an update is prepared in its temporary names.
use mathlib.Core.Path.{subst}
use bootupd.Base.{
  Str, ◌==◌, str_eq, ◌≡◌, sym, ap, ◌∙◌, true, false, ◌&&◌, ◌||◌, Option, List, if◌then◌else◌,
  is_some, contains, starts_with, Bool-cases, inl, inr, arith,
}
use bootupd.Filetree.{FileMetadata}
use bootupd.Filetree.Scan.{tmp_prefix}
use bootupd.Filetree.Disk.{Top, Place, files, same}
use bootupd.Filetree.Apply.{tmp_name}

-- A name that is not temporary.
abbrev pub IsLive : Str → Type 0
IsLive x = starts_with x tmp_prefix ≡ false

pub tmp_name-eq : (x y : Str) → (tmp_name x == tmp_name y) ≡ (x == y)
tmp_name-eq x y = ground arith

pub live-ne-tmp : (x y : Str) → IsLive x → (x == tmp_name y) ≡ false
live-ne-tmp x y h = elim (Bool-cases (x == tmp_name y)) [
  | inl e ↦ absurd (true-ne-false (subst IsLive (str_eq x (tmp_name y) e) h))
  | inr n ↦ n
]
  where
    true-ne-false : IsLive (tmp_name y) → ⊥
    true-ne-false k = cc

pub tmp-ne-live : (x y : Str) → IsLive y → (tmp_name x == y) ≡ false
tmp-ne-live x y h = elim (Bool-cases (tmp_name x == y)) [
  | inl e ↦ absurd (no_live (subst IsLive (sym (str_eq (tmp_name x) y e)) h))
  | inr n ↦ n
]
  where
    no_live : IsLive (tmp_name x) → ⊥
    no_live k = cc

-- The files of a directory by place, and one of them replaced.
abbrev pub View : Type 0
View = Str → Option Str → Option FileMetadata

abbrev pub put : View → Place → Option FileMetadata → View
put A p m x r = if x == p.0 && same r p.1 then m else A x r

-- What a name is going to hold: its temporary name if it is updated.
abbrev pub now : List Str → (Str → Top) → Str → Top
now u s x = if contains u x then s (tmp_name x) else s x

-- A temporary name is there exactly for the updates.
abbrev pub Tracks : List Str → (Str → Top) → Type 0
Tracks u s = (x : Str) → is_some (s (tmp_name x)) ≡ contains u x

abbrev pub Shows : List Str → (Str → Top) → View → Type 0
Shows u s A = (x : Str) (r : Option Str) → IsLive x → files (now u s x) r ≡ A x r

-- The same but for one name.
abbrev pub TracksOff : Str → List Str → (Str → Top) → Type 0
TracksOff f u s = (x : Str) → (x == f) ≡ false → is_some (s (tmp_name x)) ≡ contains u x

abbrev pub ShowsOff : Str → List Str → (Str → Top) → View → Type 0
ShowsOff f u s A =
    (x : Str) (r : Option Str) → (x == f) ≡ false → IsLive x → files (now u s x) r ≡ A x r

-- `s'` has `t` at `y`, and is `s` elsewhere.
abbrev pub Sets : Str → Top → (Str → Top) → (Str → Top) → Type 0
Sets y t s s' = ((x : Str) → (x == y) ≡ false → s' x ≡ s x) × (s' y ≡ t)

abbrev pub Adds : Str → List Str → List Str → Type 0
Adds f u u' = (x : Str) → contains u' x ≡ (x == f || contains u x)

module _ (f : Str) (u u' : List Str) (add : Adds f u u') (t : Top) (s s' : Str → Top)
    (set : Sets (tmp_name f) t s s') where
  pub Tracks-tmp : is_some t ≡ true → TracksOff f u s → Tracks u' s'
  Tracks-tmp there h x = elim (Bool-cases (x == f)) [
    | inl e ↦
        ap (λ y. is_some (s' (tmp_name y))) (str_eq x f e)
        ∙ ap is_some set.1
        ∙ there
        ∙ sym (add x ∙ rw e)
    | inr n ↦ ap is_some (set.0 (tmp_name x) (tmp_name-eq x f ∙ n)) ∙ h x n ∙ sym (add x ∙ rw n)
  ]

  pub Shows-tmp :
      (A A' : View)
      → ((r : Option Str) → files t r ≡ A' f r)
      → ((x : Str) (r : Option Str) → (x == f) ≡ false → A' x r ≡ A x r)
      → ShowsOff f u s A
      → Shows u' s' A'
  Shows-tmp A A' at_f apart h x r live = elim (Bool-cases (x == f)) [
    | inl e ↦
        let same_name = str_eq x f e in
        let updated : contains u' x ≡ true = add x ∙ rw e in
        rw updated (
          ap (λ y. files (s' (tmp_name y)) r) same_name
          ∙ ap (λ (y : Top). files y r) set.1
          ∙ at_f r
          ∙ ap (λ y. A' y r) (sym same_name))
    | inr n ↦
        let kept : contains u' x ≡ contains u x = add x ∙ rw n in
        rw (kept, set.0 (tmp_name x) (tmp_name-eq x f ∙ n), set.0 x (live-ne-tmp x f live))
          (h x r n live ∙ sym (apart x r n))
  ]

-- A change of a live name that is not updated.
module _ (f : Str) (u : List Str) (t : Top) (s s' : Str → Top) (set : Sets f t s s')
    (live_f : IsLive f) where
  pub Tracks-live : Tracks u s → Tracks u s'
  Tracks-live h x = ap is_some (set.0 (tmp_name x) (tmp-ne-live x f live_f)) ∙ h x

  pub Shows-live :
      (A A' : View)
      → contains u f ≡ false
      → ((r : Option Str) → files t r ≡ A' f r)
      → ((x : Str) (r : Option Str) → (x == f) ≡ false → A' x r ≡ A x r)
      → Shows u s A
      → Shows u s' A'
  Shows-live A A' fresh at_f apart h x r live = elim (Bool-cases (x == f)) [
    | inl e ↦
        let same_name = str_eq x f e in
        rw (ap (contains u) same_name ∙ fresh) (
          ap (λ y. files (s' y) r) same_name
          ∙ ap (λ (y : Top). files y r) set.1
          ∙ at_f r
          ∙ ap (λ y. A' y r) (sym same_name))
    | inr n ↦
        rw (set.0 (tmp_name x) (tmp-ne-live x f live_f), set.0 x n) (h x r live ∙ sym (apart x r n))
  ]
