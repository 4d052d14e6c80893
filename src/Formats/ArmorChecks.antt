-- ===== src/Formats/ArmorChecks.antt =====
-- The checks of consignment/armor.go on the headers that consignment/encode.go writes.
use rgb.Prelude.{
  ◌^◌, ℕ, ◌≤◌, ◌<◌, ◌≡◌, refl, sym, ap, ◌∙◌, subst, true, ◌&&◌, ◌||◌, [], ◌∷◌, ◌==◌, length, All,
  Result, ok, armor_header, armor_checksum, armor_identifier, guard, guard-pass, recast, arith,
  ◌>>=◌, ◌>>◌, ◌⊎◌, inl, inr,
}
use rgb.Prelude.Bytes.{ByteString, IsByte, codes, bytes_eq, bytes_eq_refl}
use rgb.Prelude.Keyed.{lookup, bytes_eq_instance}
use rgb.Consensus.TaggedHash.{Hash, IsDigest}
use rgb.Formats.Text.{encode_hex, decimal, parse_below}
use rgb.Formats.Words.{IsGraphic, IsWord}
use rgb.Formats.Numerals.{
  IsGraphic-literal, decode_hex-encode_hex, encode_hex-IsGraphic, length-encode_hex,
  decimal-IsGraphic, decimal-filled, length-decimal, parse_below-decimal,
}
use rgb.Formats.Armor.{Armor, max_data, check_headers, header}

-- What is read of an armor that was written: the same values, under the headers that were written.
abbrev pub armor_of :
    Hash → ByteString → ℕ → ByteString → ByteString → ByteString → ByteString → Armor
armor_of sha256 id version type contract schema content = record {
  id = id;
  version = version;
  type = type;
  contract = contract;
  schema = schema;
  headers =
      (codes "Check-SHA256", encode_hex (sha256 content))
      ∷ (codes "Schema", schema)
      ∷ (codes "Contract", contract)
      ∷ (codes "Type", type)
      ∷ (codes "Version", decimal version)
      ∷ (codes "Id", id)
      ∷ [];
  content = content;
  sha256 = sha256 content;
}

-- What the writer is given: words for the identifiers, of which the consignment's own is one that is
-- read back, the tag of the version, a type, and content that is not empty and not too large.
pub record IsWritable (decode_id : ByteString → Result ByteString) (id : ByteString) (version : ℕ)
    (type contract schema content : ByteString) : Type 0 where
  pub id_word : IsWord id
  pub id_read : (found : ByteString) × (decode_id id ≡ ok found)
  pub version_tag : version < 256
  pub known_type : (type ≡ codes "transfer") ⊎ (type ≡ codes "contract")
  pub contract_word : IsWord contract
  pub schema_word : IsWord schema
  pub content_bytes : All IsByte content
  pub content_filled : 0 < length content
  pub content_small : length content ≤ max_data

abbrev pub IsByteHash : Hash → Type 0
IsByteHash sha256 = (message : ByteString) → All IsByte (sha256 message)

pub type-IsWord :
    (type : ByteString) → (type ≡ codes "transfer") ⊎ (type ≡ codes "contract") → IsWord type
type-IsWord type (inl h) = subst IsWord (sym h) (record {
  filled = omega arith;
  short = omega arith;
  graphic = IsGraphic-literal (codes "transfer") refl;
})
type-IsWord type (inr h) = subst IsWord (sym h) (record {
  filled = omega arith;
  short = omega arith;
  graphic = IsGraphic-literal (codes "contract") refl;
})

pub literal-IsWord : (w : ByteString) → 0 < length w → length w < 100 → All IsGraphic w → IsWord w
literal-IsWord w h k g = record { filled = h; short = omega arith; graphic = g }

pub hash-IsWord :
    (sha256 : Hash) (content : ByteString)
    → IsDigest sha256
    → IsByteHash sha256
    → IsWord (encode_hex (sha256 content))
hash-IsWord sha256 content sized bytes =
    let size = length-encode_hex (sha256 content) in
    record {
      filled = omega (arith, size, sized content);
      short = omega (arith, size, sized content);
      graphic = encode_hex-IsGraphic (sha256 content) (bytes content);
    }

pub version-IsWord : (version : ℕ) → version < 256 → IsWord (decimal version)
version-IsWord version h = record {
  filled = decimal-filled version;
  short = omega (arith, length-decimal version h);
  graphic = decimal-IsGraphic version;
}

type_known :
    (type : ByteString)
    → (type ≡ codes "transfer") ⊎ (type ≡ codes "contract")
    → (bytes_eq type (codes "transfer") || bytes_eq type (codes "contract")) ≡ true
unfolding bytes_eq
type_known type (inl h) =
    subst (λ t. (bytes_eq t (codes "transfer") || bytes_eq t (codes "contract")) ≡ true) (sym h)
      refl
type_known type (inr h) =
    subst (λ t. (bytes_eq t (codes "transfer") || bytes_eq t (codes "contract")) ≡ true) (sym h)
      refl

same_digest :
    (digest : ByteString)
    → length digest ≡ 32
    → (length digest == 32 && bytes_eq digest digest) ≡ true
same_digest digest h = ground (arith, h, bytes_eq_refl digest)

-- The checks of the headers pass.
pub headers_checked :
    (sha256 : Hash) (decode_id : ByteString → Result ByteString) (id : ByteString) (version : ℕ)
    (type contract schema content : ByteString)
    → IsDigest sha256
    → IsByteHash sha256
    → IsWritable decode_id id version type contract schema content
    → check_headers sha256 decode_id
        (armor_of sha256 id version type contract schema content).headers
        content
      ≡ ok (armor_of sha256 id version type contract schema content)
unfolding check_headers lookup header bytes_eq
headers_checked sha256 decode_id id version type contract schema content sized bytes w =
    let found = armor_of sha256 id version type contract schema content in
    let digest = sha256 content in
    let known = bytes_eq type (codes "transfer") || bytes_eq type (codes "contract") in
    let typed : ℕ → Result Armor =
      λ read. guard known armor_header >> ok (record found { version = read }) in
    let numbered : Result ByteString → Result Armor = λ r. recast armor_identifier r >>= λ _.
    recast armor_header (parse_below (2 ^ 32) (decimal version)) >>= typed in
    let summed : Result ByteString → Result Armor = λ r. recast armor_checksum r >>= λ want.
    guard (length want == 32 && bytes_eq want digest) armor_checksum >> numbered (decode_id id) in
    ap summed (decode_hex-encode_hex digest (bytes content))
    ∙ guard-pass (length digest == 32 && bytes_eq digest digest) armor_checksum
        (numbered (decode_id id)) (same_digest digest (sized content))
    ∙ ap numbered w.id_read.1
    ∙ ap (λ r. recast armor_header r >>= typed)
        (parse_below-decimal (2 ^ 32) version (omega (arith, w.version_tag)))
    ∙ guard-pass known armor_header (ok found) (type_known type w.known_type)
