-- ===== src/Filetree/Digest.antt =====
-- src/sha512string.rs, and `FileMetadata::new_from_path` of src/filetree.rs: the size of a file and
-- the text of its digest. openssl is a parameter.
use Prim.Native.Nat.{◌/◌, ◌%◌}
use bootupd.Base.{
  Str, ℕ, codes, ◌+◌, ◌<◌, ◌≡◌, refl, ap, sym, ◌∙◌, ◌↔◌, true, Option, some, List, [], ◌∷◌, ◌++◌,
  Result, ok, panicked, and_then, and_then-ok, ok_or, ok_or-ok, ok_inj, ltb, arith, if◌then◌else◌,
}
use bootupd.Filetree.{FileMetadata, same_metadata}
use bootupd.Filetree.Patch.{same_metadata_iff}

-- `hex::encode`: two lower case digits for each byte.
abbrev pub digit : ℕ → ℕ
digit n = if ltb n 10 then b'0' + n else 87 + n

unfoldable pub encode : List ℕ → Str
encode [] = []
encode (b ∷ bytes) = digit (b / 16) ∷ digit (b % 16) ∷ encode bytes

unfoldable pub from_hasher : Option (List ℕ) → Result Str
unfolding encode
from_hasher finish =
    and_then (ok_or finish (panicked "completing hash")) (λ d. ok (codes "sha512:" ++ encode d))

-- A file that is opened: its length, and what is read up to its end.
pub record OpenFile : Type 0 where
  pub len : Result ℕ
  pub contents : Result (List ℕ)

module _ (sha512 : List ℕ → Option (List ℕ)) where
  unfoldable pub new_from_path : Result OpenFile → Result FileMetadata
  unfolding from_hasher
  new_from_path opened = and_then opened λ r. and_then r.len λ size. and_then r.contents λ bytes.
      and_then (from_hasher (sha512 bytes)) λ digest. ok (record { size = size; sha512 = digest })

abbrev pub AreBytes : List ℕ → Type 0
AreBytes [] = Unit
AreBytes (b ∷ bytes) = (b < 256) × AreBytes bytes

digit_inj : (a b : ℕ) → a < 16 → b < 16 → digit a ≡ digit b → a ≡ b
digit_inj a b p q h = ground arith

byte_inj :
    (a b : ℕ)
    → a < 256
    → b < 256
    → digit (a / 16) ≡ digit (b / 16)
    → digit (a % 16) ≡ digit (b % 16)
    → a ≡ b
byte_inj a b p q h k =
    let high = digit_inj (a / 16) (b / 16) (omega arith) (omega arith) h in
    let low = digit_inj (a % 16) (b % 16) (omega arith) (omega arith) k in omega arith

encode_inj : (a b : List ℕ) → AreBytes a → AreBytes b → encode a ≡ encode b → a ≡ b
unfolding encode
encode_inj [] [] p q h = refl
encode_inj [] (y ∷ b) p q h = cc
encode_inj (x ∷ a) [] p q h = cc
encode_inj (x ∷ a) (y ∷ b) (px, p) (qy, q) h =
    let first : digit (x / 16) ≡ digit (y / 16) = cc in
    let second : digit (x % 16) ≡ digit (y % 16) = cc in
    let rest : encode a ≡ encode b = cc in
    let same_byte = byte_inj x y px qy first second in let same_rest = encode_inj a b p q rest in cc

-- The digest of what the file contains.
abbrev pub digest_of : (List ℕ → Option (List ℕ)) → OpenFile → Result (Option (List ℕ))
digest_of sha512 f = and_then f.contents (λ bytes. ok (sha512 bytes))

module _ (sha512 : List ℕ → Option (List ℕ))
    (is_bytes : (l d : List ℕ) → sha512 l ≡ some d → AreBytes d) where
  abbrev described : ℕ → List ℕ → FileMetadata
  described size d = record { size = size; sha512 = codes "sha512:" ++ encode d }

  some_inj : {A : Type 0} {x y : A} → some x ≡ some y → x ≡ y
  some_inj h = cc

  -- The parts of what `new_from_path` returns.
  abbrev Describes : FileMetadata → OpenFile → Type 0
  Describes m f =
      (size : ℕ) × (d : List ℕ) × (f.len ≡ ok size)
      × (digest_of sha512 f ≡ ok (some d))
      × AreBytes d
      × (m ≡ described size d)

  new_from_path-Describes :
      (f : OpenFile) (m : FileMetadata) → new_from_path sha512 (ok f) ≡ ok m → Describes m f
  unfolding new_from_path from_hasher
  new_from_path-Describes f m h =
      let (size, l, h1) = and_then-ok f.len _ h in
      let (bytes, c, h2) = and_then-ok f.contents _ h1 in
      let (text, t, h3) = and_then-ok (from_hasher (sha512 bytes)) _ h2 in
      let (d, e, h4) = and_then-ok (ok_or (sha512 bytes) _) _ t in
      let found : sha512 bytes ≡ some d = ok_or-ok (sha512 bytes) _ e in
      (
        size,
        d,
        l,
        ap (λ r. and_then r (λ l. ok (sha512 l))) c ∙ ap ok found,
        is_bytes bytes d found,
        sym (ok_inj h3) ∙ ap (λ s. record { size = size; sha512 = s }) (sym (ok_inj h4)),
      )

  -- Two files that `new_from_path` could read have the same metadata exactly if they are equally long
  -- and have the same digest, where digests are bytes: the text of a digest loses nothing.
  new_from_path-same :
      (f g : OpenFile) (a b : FileMetadata)
      → new_from_path sha512 (ok f) ≡ ok a
      → new_from_path sha512 (ok g) ≡ ok b
      → (same_metadata a b ≡ true) ↔ ((f.len ≡ g.len) × (digest_of sha512 f ≡ digest_of sha512 g))
  new_from_path-same f g a b h k =
      let (m, d, l, e, p, x) = new_from_path-Describes f a h in
      let (n, c, l', e', q, y) = new_from_path-Describes g b k in
      (
        λ s.
            let both = sym x ∙ (same_metadata_iff a b).0 s ∙ y in
            let sizes : m ≡ n = ap (λ (r : FileMetadata). r.size) both in
            let texts = ap (λ (r : FileMetadata). r.sha512) both in
            let digests : d ≡ c = encode_inj d c p q (cc) in
            (l ∙ ap ok sizes ∙ sym l', e ∙ ap (λ o. ok (some o)) digests ∙ sym e'),
        λ (sizes, digests).
            let m_n : m ≡ n = ok_inj (sym l ∙ sizes ∙ l') in
            let d_c : d ≡ c = some_inj (ok_inj (sym e ∙ digests ∙ e')) in
            let middle : described m d ≡ described n c = cc in
            (same_metadata_iff a b).1 (x ∙ middle ∙ sym y),
      )
