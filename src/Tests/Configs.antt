-- ===== src/Tests/Configs.antt =====
-- A system image with two files for grub in its drop-in directory, one of them not for it.
use bootupd.Base.{
  Str, codes, ◌++◌, ◌≡◌, refl, Bool, true, false, some, none, [], ◌∷◌, List, Result, ok, err,
  failed, pure, ◌==◌, if◌then◌else◌,
}
use bootupd.Base.Path.{join}
use bootupd.Base.{str_lt}
use bootupd.Model.{no_state}
use bootupd.Grubconfigs.{
  ConfigHost, FileName, configdir, dropindir, grub2dir, sort_by_name, install, install_dropins,
  ends_with, uuid_if, install_vendor,
}
use bootupd.Grubconfigs.Written.{sources, install_writes}
use bootupd.Tests.Machine.{Disk, tools, holding}

abbrev named : Str → FileName
named s = record { bytes = s; to_str = some s }

-- The text of the file before and of the one after.
abbrev read_config : Str → Result Str
read_config path =
    if path == join configdir (codes "grub-static-pre.cfg")
    then ok (codes "set default=0\n")
    else if path == join configdir (codes "grub-static-post.cfg")
    then ok (codes "blscfg\n")
    else err (failed "No such file or directory")

abbrev host : ConfigHost Disk
host = record {
  st_dev = λ _ _. ok 1;
  exists_at = λ _ _ _. ok false;
  create_dir = λ _ _ w. (ok tt, w);
  read_to_string = λ path _. read_config path;
  list_dir = λ _ _. ok (named (codes "README") ∷ named (codes "10_blscfg.cfg") ∷ []);
  copy_file_at = λ _ _ _ _ w. (ok tt, w);
  write_file_contents = λ _ _ _ w. (ok tt, w);
  sub_dir_optional = λ _ _ _. ok true;
}

abbrev boot : Str
boot = join (codes "/") (codes "boot")

abbrev configs_d : Str
configs_d = join configdir dropindir

installs :
    (install tools host (codes "/") (some (codes "fedora")) false (holding no_state)).0 ≡ ok tt
unfolding install install_dropins ends_with uuid_if install_vendor sort_by_name join
    bootupd.Base.str_dec str_lt
installs = refl

install_writes_example :
    (there : Bool) × (pre post : Str) × (ents : List FileName) × (host.exists_at boot grub2dir
        (holding no_state)
      ≡ ok there)
    × (let u = ((if there then pure tt else host.create_dir boot grub2dir) (holding no_state)).1 in
        let v = (install_dropins tools host configs_d boot (sort_by_name ents) pre u).1 in
        (host.read_to_string (join configdir (codes "grub-static-pre.cfg")) u ≡ ok pre)
        × (host.list_dir configs_d u ≡ ok ents)
        × (host.read_to_string (join configdir (codes "grub-static-post.cfg")) v ≡ ok post)
        × ((host.write_file_contents boot
              (codes "grub2/grub.cfg")
              (pre ++ sources (sort_by_name ents) ++ post)
              v).0
            ≡ ok tt))
install_writes_example =
    install_writes tools host (codes "/") (some (codes "fedora")) false (holding no_state) installs
