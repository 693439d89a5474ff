-- ===== src/Grubconfigs/Written.antt =====
-- The text of the grub.cfg that is installed.
use mathlib.Core.List.{append-nil, append_assoc}
use bootupd.Base.{
  Str, codes, ◌++◌, ◌≡◌, refl, ap, sym, ◌∙◌, Bool, Option, none, some, List, [], ◌∷◌, ok,
  continue-ok, ok_or, ok_or-ok, ok_inj, Bool-cases, inl, inr, if◌then◌else◌, pure,
}
use bootupd.Base.Path.{join}
use bootupd.Component.Tools.{Tools}
use bootupd.Grubconfigs.{
  ConfigHost, FileName, grub2dir, configdir, dropindir, sort_by_name, ends_with, source_line,
  install_dropins, install,
}

-- The lines for the names that end in `.cfg`, in their order.
abbrev pub line_of : Option Str → Str
line_of none = []
line_of (some name) = if ends_with name (codes ".cfg") then source_line name else []

abbrev pub sources : List FileName → Str
sources [] = []
sources (ent ∷ rest) = line_of ent.to_str ++ sources rest

module _ {W : Type 0} (T : Tools W) (H : ConfigHost W) where
  install_dropins_lem :
      (dir bootdir : Str) (ents : List FileName) (config : Str) (w : W) {text : Str}
      → (install_dropins T H dir bootdir ents config w).0 ≡ ok text
      → text ≡ config ++ sources ents
  unfolding install_dropins
  install_dropins_lem dir bootdir [] config w h = sym (ok_inj h) ∙ sym (append-nil config)
  install_dropins_lem dir bootdir (ent ∷ rest) config w h =
      let (name, e, h1) = continue-ok (ok_or ent.to_str _) _ w h in
      let named = ok_or-ok ent.to_str _ e in
      elim (Bool-cases (ends_with name (codes ".cfg"))) [
        | inr other ↦
            let line : line_of ent.to_str ≡ [] = ap line_of named ∙ rw other refl in
            install_dropins_lem dir bootdir rest config w (rw other at h1)
            ∙ ap (λ x. config ++ (x ++ sources rest)) (sym line)
        | inl cfg ↦
            let (_, _, h2) =
              continue-ok (H.copy_file_at dir name bootdir _ w).0 _ _ (rw cfg at h1) in
            let line : line_of ent.to_str ≡ source_line name = ap line_of named ∙ rw cfg refl in
            install_dropins_lem dir bootdir rest (config ++ source_line name) _ h2
            ∙ append_assoc config (source_line name) (sources rest)
            ∙ ap (λ x. config ++ (x ++ sources rest)) (sym line)
      ]

  same_text :
      (dir path : Str) (v : W) {a b : Str}
      → a ≡ b
      → (H.write_file_contents dir path a v).0 ≡ ok tt
      → (H.write_file_contents dir path b v).0 ≡ ok tt
  same_text dir path v e h = ap (λ x. (H.write_file_contents dir path x v).0) (sym e) ∙ h

  -- If the installation of the static configs succeeds, then grub.cfg was written below /boot, with
  -- the text of grub-static-pre.cfg, a line for each drop-in file that ends in `.cfg`, in the order
  -- of the sorted names, and the text of grub-static-post.cfg. Each file was read at the machine that
  -- the steps before left: grub2 was made where it was not there, and the drop-in files were copied
  -- between the two texts.
  pub install_writes :
      (root : Str) (vendor : Option Str) (write_uuid : Bool) (w : W)
      → (install T H root vendor write_uuid w).0 ≡ ok tt
      → (there : Bool) × (pre post : Str) × (ents : List FileName) × (H.exists_at
            (join root (codes "boot"))
            grub2dir
            w
          ≡ ok there)
        × (let bootdir = join root (codes "boot") in
            let u = ((if there then pure tt else H.create_dir bootdir grub2dir) w).1 in
            let d = join configdir dropindir in
            let v = (install_dropins T H d bootdir (sort_by_name ents) pre u).1 in
            (H.read_to_string (join configdir (codes "grub-static-pre.cfg")) u ≡ ok pre)
            × (H.list_dir d u ≡ ok ents)
            × (H.read_to_string (join configdir (codes "grub-static-post.cfg")) v ≡ ok post)
            × ((H.write_file_contents bootdir
                  (codes "grub2/grub.cfg")
                  (pre ++ sources (sort_by_name ents) ++ post)
                  v).0
                ≡ ok tt))
  unfolding install
  install_writes root vendor write_uuid w h =
      let bootdir = join root (codes "boot") in
      let (_, _, h1) = continue-ok (T.sub_dir root (codes "boot") w) _ w h in
      let (_, _, h2) = continue-ok (H.st_dev root w) _ w h1 in
      let (_, _, h3) = continue-ok (H.st_dev bootdir w) _ w h2 in
      let (there, there_e, h4) = continue-ok (H.exists_at bootdir grub2dir w) _ w h3 in
      let (_, _, h5) =
        continue-ok ((if there then pure tt else H.create_dir bootdir grub2dir) w).0 _ _ h4 in
      let (pre, p, h6) =
        continue-ok (H.read_to_string (join configdir (codes "grub-static-pre.cfg")) _) _ _ h5 in
      let (_, _, h7) = continue-ok (T.open_dir (join configdir dropindir) _) _ _ h6 in
      let (ents, l, h8) = continue-ok (H.list_dir (join configdir dropindir) _) _ _ h7 in
      let (text, d, h9) =
        continue-ok (install_dropins T H _ _ (sort_by_name ents) pre _).0 _ _ h8 in
      let (post, q, h10) =
        continue-ok (H.read_to_string (join configdir (codes "grub-static-post.cfg")) _) _ _ h9 in
      let (_, done, _) =
        continue-ok (H.write_file_contents bootdir (codes "grub2/grub.cfg") (text ++ post) _).0 _ _
          h10 in
      let same = install_dropins_lem _ _ (sort_by_name ents) pre _ d in
      (
        there,
        pre,
        post,
        ents,
        there_e,
        (p, l, q, same_text bootdir (codes "grub2/grub.cfg") _ (ap (λ x. x ++ post) same) done),
      )
