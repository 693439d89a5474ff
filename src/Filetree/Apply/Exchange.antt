-- ===== src/Filetree/Apply/Exchange.antt =====
-- The end of `apply_diff`: each update takes its place at once, and the temporary names go.
use bootupd.Base.{
  Str, ◌==◌, ◌≡◌, refl, sym, ap, ◌∙◌, ◌⊎◌, Bool, true, false, Option, none, List, [], ◌∷◌, Result,
  ok, err, Exec, continue, pure, ◌>>◌, if◌then◌else◌, contains, Bool-cases, inl, inr, str_eq,
}
use bootupd.Base.Ends.{Runs, Ends-cases, Ends-continue, result_step, Ends-mono}
use bootupd.Filetree.{FileMetadata}
use bootupd.Filetree.Disk.{Disk, IsDisk, Top}
use bootupd.Filetree.Apply.{
  tmp_name, put_in_place, exchange_fail_point, exchange_loop, clean_loop, syncfs, finish,
  ApplyUpdateOptions,
}
use bootupd.Filetree.Apply.View.{IsLive, now, live-ne-tmp, tmp_name-eq, tmp-ne-live}
use bootupd.Filetree.Apply.Prepare.{AreUpdates}

module _ {W : Type 0} (top : W → Str → Top) (source : Str → Option FileMetadata) (D : Disk W)
    (L : IsDisk top source D) where
  -- Every live name holds what its temporary name held, if it is an update, or what it held.
  abbrev pub AreNew : List Str → W → W → Type 0
  AreNew u w v = (x : Str) → IsLive x → top v x ≡ now u (top w) x

  -- Every live name holds what it held, or, if it is an update, what its temporary name held.
  abbrev pub AreEither : List Str → W → W → Type 0
  AreEither u w v =
      (x : Str)
      → IsLive x
      → (top v x ≡ top w x) ⊎ ((contains u x ≡ true) × (top v x ≡ top w (tmp_name x)))

  AreNew-AreEither : (u : List Str) (w v : W) → AreNew u w v → AreEither u w v
  AreNew-AreEither u w v h x live = elim (Bool-cases (contains u x)) [
    | inl e ↦ inr (e, rw e at (h x live))
    | inr n ↦ inl (rw n at (h x live))
  ]

  -- One update is in its place, and nothing else has changed.
  abbrev Placed : Str → W → W → Type 0
  Placed d w v =
      (top v d ≡ top w (tmp_name d))
      × ((x : Str) → (x == tmp_name d) ≡ false → (x == d) ≡ false → top v x ≡ top w x)

  put_in_place-Runs :
      (d : Str) (here : Bool) (w : W)
      → IsLive d
      → Runs (λ _. Placed d w) (λ v. top v ≡ top w) (put_in_place D d here) w
  unfolding put_in_place
  put_in_place-Runs d true w live =
      let apart : (tmp_name d == d) ≡ false = tmp-ne-live d d live in
      Ends-cases (λ _. Placed d w) (λ v. top v ≡ top w) _ _
        (λ _ e. let h = L.exchange_swaps (tmp_name d) d w apart e in (h.1, h.2))
        (λ e f. L.exchange_failed (tmp_name d) d w e f)
  put_in_place-Runs d false w live =
      let apart : (tmp_name d == d) ≡ false = tmp-ne-live d d live in
      Ends-cases (λ _. Placed d w) (λ v. top v ≡ top w) _ _
        (λ _ e. L.rename_moves (tmp_name d) d w apart e)
        (λ e f. L.rename_failed (tmp_name d) d w e f)

  same-AreEither : (u : List Str) (w v : W) → top v ≡ top w → AreEither u w v
  same-AreEither u w v h x live = inl (ap (λ t. t x) h)

  Placed-AreEither : (d : Str) (rest : List Str) (w v : W) → Placed d w v → AreEither (d ∷ rest) w v
  Placed-AreEither d rest w v h x live = elim (Bool-cases (x == d)) [
    | inl e ↦
        let at_d = str_eq x d e in
        inr (rw e refl, ap (top v) at_d ∙ h.0 ∙ ap (λ y. top w (tmp_name y)) (sym at_d))
    | inr n ↦ inl (h.1 x (live-ne-tmp x d live) n)
  ]

  -- A name that is not in place yet is still prepared.
  waiting :
      (d x : Str) (w v : W)
      → IsLive d
      → Placed d w v
      → (x == d) ≡ false
      → top v (tmp_name x) ≡ top w (tmp_name x)
  waiting d x w v live h n = h.1 (tmp_name x) (tmp_name-eq x d ∙ n) (tmp-ne-live x d live)

  Placed-AreNew :
      (d : Str) (rest : List Str) (w v z : W)
      → AreUpdates (d ∷ rest)
      → Placed d w v
      → AreNew rest v z
      → AreNew (d ∷ rest) w z
  Placed-AreNew d rest w v z (live_d, once, _) h new x live = elim (Bool-cases (x == d)) [
    | inl e ↦
        let at_d = str_eq x d e in
        let stays = rw (ap (contains rest) at_d ∙ once) at (new x live) in
        rw e (stays ∙ ap (top v) at_d ∙ h.0 ∙ ap (λ y. top w (tmp_name y)) (sym at_d))
    | inr n ↦
        let shown : now rest (top v) x ≡ now rest (top w) x =
          rw (waiting d x w v live_d h n, h.1 x (live-ne-tmp x d live) n) refl in
        rw n (new x live ∙ shown)
  ]

  true-ne-false : ◌≡◌ {A = Bool} true false → ⊥
  true-ne-false k = cc

  Placed-then-AreEither :
      (d : Str) (rest : List Str) (w v z : W)
      → AreUpdates (d ∷ rest)
      → Placed d w v
      → AreEither rest v z
      → AreEither (d ∷ rest) w z
  Placed-then-AreEither d rest w v z (live_d, once, _) h either x live =
      elim (Bool-cases (x == d)) [
        | inl e ↦
            let at_d = str_eq x d e in
            elim (either x live) [
              | inl p ↦
                  inr
                    (rw e refl, p ∙ ap (top v) at_d ∙ h.0 ∙ ap (λ y. top w (tmp_name y)) (sym at_d))
              | inr (c, p) ↦ absurd (true-ne-false (sym c ∙ ap (contains rest) at_d ∙ once))
            ]
        | inr n ↦ elim (either x live) [
          | inl p ↦ inl (p ∙ h.1 x (live-ne-tmp x d live) n)
          | inr (c, p) ↦ inr (rw n c, p ∙ waiting d x w v live_d h n)
        ]
      ]

  fail_point-Runs : (P : W → Type 0) (w : W) → P w → Runs (λ _. P) P (exchange_fail_point D) w
  unfolding exchange_fail_point
  fail_point-Runs P w h = Ends-cases (λ _. P) P _ w (λ _ _. h) (λ _ _. h)

  exchange_loop-Runs :
      (u : List Str) (w : W)
      → AreUpdates u
      → Runs (λ _. AreNew u w) (AreEither u w) (exchange_loop D u) w
  unfolding exchange_loop
  exchange_loop-Runs [] w h = λ x live. refl
  exchange_loop-Runs (d ∷ rest) w h =
      let E = AreEither (d ∷ rest) w in
      let Q : Unit {0} → W → Type 0 = λ _. AreNew (d ∷ rest) w in
      let R : Unit {0} → W → Type 0 = λ _. Placed d w in
      result_step Q E (D.exists d w) _ w (same-AreEither (d ∷ rest) w w refl) λ here _.
        Ends-continue R Q E _ _ _
          (Ends-mono R (λ v. top v ≡ top w) R E (put_in_place D d here w).0 (λ _ p. p)
            (same-AreEither (d ∷ rest) w _) (put_in_place-Runs d here w h.0))
          λ _ placed.
            Ends-continue R Q E _ _ _
              (Ends-mono R (Placed d w) R E (exchange_fail_point D _).0 (λ _ p. p)
                (Placed-AreEither d rest w _) (fail_point-Runs (Placed d w) _ placed))
              λ _ placed'.
                Ends-mono (λ _. AreNew rest _) (AreEither rest _) Q E (exchange_loop D rest _).0
                  (λ _ new. Placed-AreNew d rest w _ _ h placed' new)
                  (λ either. Placed-then-AreEither d rest w _ _ h placed' either)
                  (exchange_loop-Runs rest _ h.2)

  abbrev LiveSame : W → W → Type 0
  LiveSame w v = (x : Str) → IsLive x → top v x ≡ top w x

  then-LiveSame :
      {A B : Type 0} (r : Result A) (k : A → Exec W B) (w v : W)
      → LiveSame w v
      → ((a : A) (v : W) → LiveSame v (k a v).1)
      → LiveSame w (continue r k v).1
  then-LiveSame (ok a) k w v h g x live = g a v x live ∙ h x live
  then-LiveSame (err e) k w v h g x live = h x live

  clean_loop-LiveSame : (u : List Str) (w : W) → LiveSame w (clean_loop D u w).1
  unfolding clean_loop
  clean_loop-LiveSame [] w = λ x live. refl
  clean_loop-LiveSame (d ∷ rest) w =
      let m = D.remove_all (tmp_name d, none) w in
      then-LiveSame m.0 (λ _. clean_loop D rest) w m.1
        (λ x live. L.remove_all_spares (tmp_name d, none) x w (live-ne-tmp x d live))
        (λ _ v. clean_loop-LiveSame rest v)

  maybe_sync-LiveSame : (b : Bool) (w : W) → LiveSame w ((if b then pure tt else syncfs D) w).1
  unfolding syncfs
  maybe_sync-LiveSame true w = λ x live. refl
  maybe_sync-LiveSame false w =
      then-LiveSame (D.reopen w) (λ _. D.sync) w w (λ _ _. refl)
        (λ _ v x live. ap (λ t. t x) (L.sync_keeps v))

  after-LiveSame :
      (opts : ApplyUpdateOptions) (u : List Str) (w : W)
      → LiveSame w
          (((if opts.skip_sync then pure tt else syncfs D)
              >> (clean_loop D u >> (if opts.skip_sync then pure tt else syncfs D)))
            w).1
  after-LiveSame opts u w =
      let m = (if opts.skip_sync then pure tt else syncfs D) w in
      then-LiveSame m.0 (λ _. clean_loop D u >> (if opts.skip_sync then pure tt else syncfs D)) w
        m.1 (maybe_sync-LiveSame opts.skip_sync w)
        (λ _ v.
          then-LiveSame (clean_loop D u v).0 (λ _. if opts.skip_sync then pure tt else syncfs D) v _
            (clean_loop-LiveSame u v) (λ _. maybe_sync-LiveSame opts.skip_sync))

  -- After the exchange every live name is new, or the exchange was interrupted and each is old or new.
  pub finish-Runs :
      (opts : ApplyUpdateOptions) (u : List Str) (w : W)
      → AreUpdates u
      → Runs (λ _. AreNew u w) (AreEither u w) (finish D opts u) w
  unfolding finish
  finish-Runs opts u w h =
      let Q : Unit {0} → W → Type 0 = λ _. AreNew u w in
      Ends-continue Q Q (AreEither u w) _ _ _ (exchange_loop-Runs u w h) λ _ new.
        let same = after-LiveSame opts u (exchange_loop D u w).1 in
        let kept : AreNew u w _ = λ x live. same x live ∙ new x live in
        Ends-cases Q (AreEither u w) _ _ (λ _ _. kept) (λ _ _. AreNew-AreEither u w _ kept)
