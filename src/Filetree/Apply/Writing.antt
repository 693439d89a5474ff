-- ===== src/Filetree/Apply/Writing.antt =====
-- The loop of `apply_diff` over the changes and the additions.
use bootupd.Base.{
  Str, ◌≡◌, refl, sym, ap, ◌∙◌, Bool, true, false, Option, none, some, List, is_some, contains,
}
use bootupd.Base.Ends.{Runs, result_step, Ends-mono}
use bootupd.Filetree.{FileMetadata}
use bootupd.Filetree.Disk.{Disk, IsDisk, Top, files}
use bootupd.Filetree.Apply.{tmp_name, copy_if, prepare_write}
use bootupd.Filetree.Apply.View.{IsLive, View, TracksOff, ShowsOff, live-ne-tmp, tmp_name-eq}
use bootupd.Filetree.Apply.Prepare.{AreUpdates, Kept, Prepared, Copied, copy_dir-Runs}

module _ {W : Type 0} (top : W → Str → Top) (source : Str → Option FileMetadata) (D : Disk W)
    (L : IsDisk top source D) (base : Str → Top) (alone : Str → Bool) where
  abbrev pub K : W → Type 0
  K = Kept top source D L base alone

  abbrev pub Prep : View → List Str → W → Type 0
  Prep = Prepared top source D L base alone

  -- The temporary name of `f` shows `f`, though it may not be listed or there yet.
  abbrev pub Ready : View → Str → List Str → W → Type 0
  Ready A f u v =
      AreUpdates u
      × K v
      × TracksOff f u (top v)
      × ShowsOff f u (top v) A
      × ((q : Option Str) → files (top v (tmp_name f)) q ≡ A f q)

  files_absent : (t : Top) (q : Option Str) → is_some t ≡ false → files t q ≡ none
  files_absent none q h = refl
  files_absent (some g) q h = cc

  Copied-Ready :
      (A : View) (f : Str) (u : List Str) (w v : W)
      → IsLive f
      → contains u f ≡ false
      → Prep A u w
      → Copied top source D L base alone f w v
      → Ready A f u v
  Copied-Ready A f u w v live fresh (tracks, shows, unique, _) (kept, (spares, copied), _) = (
    unique,
    kept,
    λ x n. ap is_some (spares (tmp_name x) (tmp_name-eq x f ∙ n)) ∙ tracks x,
    λ x r n l.
        rw (spares (tmp_name x) (tmp_name-eq x f ∙ n), spares x (live-ne-tmp x f l)) (shows x r l),
    λ q. ap (λ (t : Top). files t q) copied ∙ rw fresh at (shows f q live),
  )

  absent-Ready :
      (A : View) (f : Str) (u : List Str) (w : W)
      → IsLive f
      → is_some (top w (tmp_name f)) ≡ false
      → is_some (top w f) ≡ false
      → Prep A u w
      → Ready A f u w
  absent-Ready A f u w live no_tmp gone (tracks, shows, unique, kept) =
      let fresh = sym (tracks f) ∙ no_tmp in
      (
        unique,
        kept,
        λ x _. tracks x,
        λ x r _. shows x r,
        λ q.
            files_absent (top w (tmp_name f)) q no_tmp
            ∙ sym (files_absent (top w f) q gone)
            ∙ rw fresh at (shows f q live),
      )

  copy_if-Runs :
      (A : View) (f : Str) (u : List Str) (w : W) (here : Bool)
      → IsLive f
      → is_some (top w (tmp_name f)) ≡ false
      → is_some (top w f) ≡ here
      → Prep A u w
      → Runs (λ _. Ready A f u) K (copy_if D f here) w
  unfolding copy_if
  copy_if-Runs A f u w false live no_tmp gone p = absent-Ready A f u w live no_tmp gone p
  copy_if-Runs A f u w true live no_tmp there p =
      let R : Unit {0} → W → Type 0 = λ _. Ready A f u in
      Ends-mono (λ _. Copied top source D L base alone f w) K R K _
        (λ _ c. Copied-Ready A f u w _ live (sym (p.0 f) ∙ no_tmp) p c) (λ k. k)
        (copy_dir-Runs top source D L base alone f w no_tmp p.3)

  pub prepare_write-Runs :
      (A : View) (f : Str) (u : List Str) (w : W) (there : Bool)
      → IsLive f
      → is_some (top w (tmp_name f)) ≡ there
      → Prep A u w
      → Runs (λ _. Ready A f u) K (prepare_write D f there) w
  unfolding prepare_write
  prepare_write-Runs A f u w true live e (tracks, shows, unique, kept) =
      let old = sym (tracks f) ∙ e in
      (unique, kept, λ x _. tracks x, λ x r _. shows x r, λ q. rw old at (shows f q live))
  prepare_write-Runs A f u w false live e p =
      result_step (λ _. Ready A f u) K (D.exists f w) _ w p.3
        λ here t. copy_if-Runs A f u w here live e (L.exists_tells f w here t) p
