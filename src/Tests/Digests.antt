-- ===== src/Tests/Digests.antt =====
-- Digests by a sum of the bytes, in place of SHA-512.
use Prim.Native.Nat.{◌%◌}
use bootupd.Base.{ℕ, codes, ◌+◌, ◌≡◌, refl, Option, some, List, [], ◌∷◌, ok}
use bootupd.Filetree.{FileMetadata}
use bootupd.Filetree.Digest.{OpenFile, new_from_path}

abbrev total : List ℕ → ℕ
total [] = 0
total (b ∷ l) = b + total l

abbrev checksum : List ℕ → Option (List ℕ)
checksum l = some (total l % 256 ∷ [])

abbrev shim : OpenFile
shim = record { len = ok 2; contents = ok (77 ∷ 90 ∷ []) }

abbrev moved : OpenFile
moved = record { len = ok 2; contents = ok (90 ∷ 77 ∷ []) }

abbrev found : FileMetadata
found = record { size = 2; sha512 = codes "sha512:a7" }

shim-found : new_from_path checksum (ok shim) ≡ ok found
unfolding new_from_path
shim-found = refl

moved-found : new_from_path checksum (ok moved) ≡ ok found
unfolding new_from_path
moved-found = refl
