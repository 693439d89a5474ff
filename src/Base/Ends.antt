-- ===== src/Base/Ends.antt =====
-- Postconditions of actions: one for success, one for the machine that an error leaves.
use mathlib.Core.Path.{subst}
use bootupd.Base.{Result, ok, err, Error, Exec, continue, ◌≡◌, refl}

abbrev pub Ends : {W A : Type 0} → (A → W → Type 0) → (W → Type 0) → Result A → W → Type 0
Ends Q E (ok a) w = Q a w
Ends Q E (err e) w = E w

module _ {W A : Type 0} (Q : A → W → Type 0) (E : W → Type 0) where
  -- The action run at `w`.
  abbrev pub Runs : Exec W A → W → Type 0
  Runs m w = Ends Q E (m w).0 (m w).1

  pub Ends-ok : (r : Result A) (w : W) {a : A} → Ends Q E r w → r ≡ ok a → Q a w
  Ends-ok (ok b) w h e = subst (λ x. Q x w) (cc) h
  Ends-ok (err d) w h e = cc

  pub Ends-err : (r : Result A) (w : W) {e : Error} → Ends Q E r w → r ≡ err e → E w
  Ends-err (ok b) w h e = cc
  Ends-err (err d) w h e = h

  -- Any postcondition from the two cases.
  pub Ends-cases :
      (r : Result A) (w : W)
      → ((a : A) → r ≡ ok a → Q a w)
      → ((e : Error) → r ≡ err e → E w)
      → Ends Q E r w
  Ends-cases (ok a) w hq he = hq a refl
  Ends-cases (err e) w hq he = he e refl

module _ {W A B : Type 0} (R : A → W → Type 0) (Q : B → W → Type 0) (E : W → Type 0) where
  pub Ends-continue :
      (r : Result A) (f : A → Exec W B) (w : W)
      → Ends R E r w
      → ((a : A) → R a w → Runs Q E (f a) w)
      → Runs Q E (continue r f) w
  Ends-continue (ok a) f w h k = k a h
  Ends-continue (err e) f w h k = h

module _ {W A B : Type 0} (Q : B → W → Type 0) (E : W → Type 0) where
  -- A query or a computed result: the machine stays.
  pub result_step :
      (r : Result A) (f : A → Exec W B) (w : W)
      → E w
      → ((a : A) → r ≡ ok a → Runs Q E (f a) w)
      → Runs Q E (continue r f) w
  result_step (ok a) f w h next = next a refl
  result_step (err e) f w h next = h

-- Weaker postconditions, at another machine.
module _ {W A : Type 0} (Q : A → W → Type 0) (E : W → Type 0) (R : A → W → Type 0) (F : W → Type 0)
    {w v : W} where
  pub Ends-mono :
      (r : Result A) → ((a : A) → Q a w → R a v) → (E w → F v) → Ends Q E r w → Ends R F r v
  Ends-mono (ok a) hq he h = hq a h
  Ends-mono (err e) hq he h = he h

-- What holds after success and after an error holds after all.
module _ {W A : Type 0} (Q : A → W → Type 0) (E : W → Type 0) {X : Type 0} {w : W} where
  pub Ends_either : (r : Result A) → ((a : A) → Q a w → X) → (E w → X) → Ends Q E r w → X
  Ends_either (ok a) hq he h = hq a h
  Ends_either (err e) hq he h = he h

-- A run goes on where its first part succeeds.
pub after :
    {W A B : Type 0} (r : Result A) (f : A → Exec W B) (w : W) {a : A} {x : Result B}
    → r ≡ ok a
    → (f a w).0 ≡ x
    → (continue r f w).0 ≡ x
after r f w e h = rw e h
