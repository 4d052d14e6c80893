-- ===== src/Formats/ContainerRoundTrip.antt =====
-- A container that consignment/container.go has read, written as a file and read again.
use rgb.Prelude.{
  ℕ, leb, ◌==◌, ◌&&◌, not, Bool, true, false, ◌≡◌, refl, sym, ap, ◌∙◌, if◌then◌else◌, [], ◌∷◌,
  length, ok, err, armor_too_large, guard, subst, then_ok, then_pass, ◌>>=◌, ◌>>◌, after_ok, arith,
}
use rgb.Prelude.Bytes.{ByteString, bytes_eq}
use rgb.Consensus.TaggedHash.{Hash, IsDigest}
use rgb.StrictTypes.Value.{Value}
use rgb.StrictTypes.ParsedType.{Registry}
use rgb.Schemas.Types.{Services}
use rgb.Schemas.Commit.{schema_commitment, schema_identifier}
use rgb.Operations.Genesis.{commit_genesis}
use rgb.Formats.Armor.{armor_begin, max_data}
use rgb.Formats.Words.{IsWord}
use rgb.Formats.ArmorChecks.{IsWritable, IsByteHash}
use rgb.Formats.ArmorRoundTrip.{parse_armor-armor_text}
use rgb.Formats.Container.{
  FullContainer, Identifiers, contract_label, transfer_label, label_of, contains_text, payload_of,
  genesis_contract_id, decode_armor, encode_armor, decode_first, decode_container, decode_file,
  encode_file,
}
use rgb.Formats.ContainerChecks.{Checked}
use rgb.Formats.ContainerRead.{decode_container-Checked}
use rgb.Formats.ContainerFile.{
  own_label, known_kind, encode_file-file_of, within, not_empty, has_magic, payload_of-file_of,
  rewritten_under, file_of,
}
use rgb.Formats.ContainerRewritten.{check_armor-rewritten, encode_armor-rewritten}

-- What baid64 promises: its texts are words, and what it reads it writes, perhaps in another form that
-- it reads as the same.
pub record AreIdentifiers (ids : Identifiers) : Type 0 where
  pub contract_word :
      (digest text : ByteString) → ids.encode_contract digest ≡ ok text → IsWord text
  pub schema_word : (digest text : ByteString) → ids.encode_schema digest ≡ ok text → IsWord text
  pub consignment_text :
      (text digest : ByteString)
      → ids.decode_consignment text ≡ ok digest
      → (written : ByteString) × (ids.encode_consignment digest ≡ ok written)
        × IsWord written
        × (ids.decode_consignment written ≡ ok digest)

module _ (sha256 : Hash) (registry : Registry) (fuel : ℕ) (ids : Identifiers) (services : Services)
    (c : FullContainer) (found : Checked sha256 registry fuel ids services c) where
  module _ (sized : IsDigest sha256) (bytes : IsByteHash sha256) (words : AreIdentifiers ids) where
    contract-IsWord_of :
        (genesis : Value) {text : ByteString}
        → genesis_contract_id sha256 ids genesis ≡ ok text
        → IsWord text
    unfolding genesis_contract_id
    contract-IsWord_of genesis h =
        after_ok (commit_genesis sha256 genesis) _ h
          λ commitment _ h1. words.contract_word commitment.operation_id _ h1

    schema-IsWord_of :
        (schema : Value) {text : ByteString}
        → schema_identifier sha256 ids.encode_schema schema ≡ ok text
        → IsWord text
    unfolding schema_identifier
    schema-IsWord_of schema h =
        after_ok (schema_commitment sha256 schema) _ h
          λ commitment _ h1. words.schema_word commitment _ h1

    writable :
        (id : ByteString)
        → IsWord id
        → ids.decode_consignment id ≡ ok found.typed.digest
        → IsWritable ids.decode_consignment id 0 c.armor.type c.armor.contract c.armor.schema
            c.armor.content
    writable id word named = record {
      id_word = word;
      id_read = (found.typed.digest, named);
      version_tag = omega arith;
      known_type = known_kind c.armor.type found.parsed.known;
      contract_word = contract-IsWord_of found.genesis found.contract_named;
      schema_word = schema-IsWord_of found.schema found.schema_named;
      content_bytes = found.parsed.content_bytes.bytes;
      content_filled = found.parsed.content_bytes.filled;
      content_small = ground (arith, found.parsed.confined);
    }

    written_again :
        (id : ByteString)
        → IsWord id
        → ids.encode_consignment found.typed.digest ≡ ok id
        → ids.decode_consignment id ≡ ok found.typed.digest
        → (encode_armor sha256 registry fuel ids services c.value >>= λ text.
            decode_armor sha256 registry fuel ids services text)
          ≡ ok (rewritten_under sha256 c id)
    unfolding decode_armor
    written_again id word written named =
        then_ok _ _ (encode_armor-rewritten sha256 registry fuel ids services c found id written) (
          then_ok _ _
            (parse_armor-armor_text sha256 ids.decode_consignment id 0 c.armor.type c.armor.contract
              c.armor.schema c.armor.content sized bytes (writable id word named))
            (check_armor-rewritten sha256 registry fuel ids services c found id named))

    decode_first-content :
        (id : ByteString)
        → IsWord id
        → ids.encode_consignment found.typed.digest ≡ ok id
        → ids.decode_consignment id ≡ ok found.typed.digest
        → decode_first sha256 registry fuel ids services
            ((bytes_eq c.armor.type transfer_label) ∷ [])
            c.armor.content
          ≡ ok (rewritten_under sha256 c id)
    unfolding decode_first
    decode_first-content id word written named =
        ap
          (λ r. elim r [
            | ok value ↦ encode_armor sha256 registry fuel ids services value >>= λ text.
                decode_armor sha256 registry fuel ids services text
            | err failure ↦ err failure
          ])
          found.typed.decoded
        ∙ written_again id word written named

    decode_container-file_of :
        (id : ByteString)
        → IsWord id
        → ids.encode_consignment found.typed.digest ≡ ok id
        → ids.decode_consignment id ≡ ok found.typed.digest
        → contains_text armor_begin (file_of (bytes_eq c.armor.type transfer_label) c.armor.content)
          ≡ false
        → decode_container sha256 registry fuel ids services
            (file_of (bytes_eq c.armor.type transfer_label) c.armor.content)
          ≡ ok (rewritten_under sha256 c id)
    unfolding decode_container
    decode_container-file_of id word written named plain =
        let raw = file_of (bytes_eq c.armor.type transfer_label) c.armor.content in
        ap
          (λ b.
            if b
            then decode_armor sha256 registry fuel ids services raw
            else (payload_of raw >>= λ read.
                guard (not (length read.1 == 0) && leb (length read.1) max_data) armor_too_large
                >> decode_first sha256 registry fuel ids services read.0 read.1))
          plain
        ∙ then_ok _ _ (payload_of-file_of (bytes_eq c.armor.type transfer_label) c.armor.content) (
            then_pass _ _ _
              (within (length c.armor.content) found.parsed.content_bytes.filled
                found.parsed.confined)
              (decode_first-content id word written named))

    decode_file-file_of :
        (k : Bool) (r : FullContainer)
        → decode_container sha256 registry fuel ids services (file_of k c.armor.content) ≡ ok r
        → r.armor.type ≡ label_of k
        → decode_file sha256 registry fuel ids services (file_of k c.armor.content) ≡ ok r
    unfolding decode_file bytes_eq
    decode_file-file_of true r h e = then_pass _ _ _ (has_magic true c.armor.content) (
        then_ok _ _ h
          (then_pass _ _ _ (subst (λ t. bytes_eq t transfer_label ≡ true) (sym e) refl) refl))
    decode_file-file_of false r h e = then_pass _ _ _ (has_magic false c.armor.content) (
        then_ok _ _ h
          (then_pass _ _ _ (subst (λ t. bytes_eq t contract_label ≡ true) (sym e) refl) refl))

-- A container that Decode has returned, from an armor or from a binary file, is written by EncodeFile
-- and read back by DecodeFile: with the same value, content, type, contract, schema and genesis
-- report, and under an identifier that stands for the same digest. The version of the header is that
-- of the value, which is 0. The hash has digests of 32 bytes; baid64 writes words and writes again
-- what it reads; the file does not hold the first line of an armor.
pub decode_file-encode_file :
    (sha256 : Hash) (registry : Registry) (fuel : ℕ) (ids : Identifiers) (services : Services)
    (raw : ByteString) (c : FullContainer)
    → IsDigest sha256
    → IsByteHash sha256
    → AreIdentifiers ids
    → contains_text armor_begin (file_of (bytes_eq c.armor.type transfer_label) c.armor.content)
      ≡ false
    → decode_container sha256 registry fuel ids services raw ≡ ok c
    → (id : ByteString) × (ids.decode_consignment id ≡ ids.decode_consignment c.armor.id)
      × ((encode_file c >>= λ file. decode_file sha256 registry fuel ids services file)
          ≡ ok (rewritten_under sha256 c id))
decode_file-encode_file sha256 registry fuel ids services raw c sized bytes words plain read =
    let found = decode_container-Checked sha256 registry fuel ids services raw c read in
    let (id, written, word, named) =
      words.consignment_text c.armor.id found.typed.digest found.typed.named in
    let known = known_kind c.armor.type found.parsed.known in
    (
      id,
      named ∙ sym found.typed.named,
      then_ok _ _
          (encode_file-file_of c
            (not_empty (length c.armor.content) found.parsed.content_bytes.filled) known)
          (decode_file-file_of sha256 registry fuel ids services c found sized bytes words
            (bytes_eq c.armor.type transfer_label) (rewritten_under sha256 c id)
            (decode_container-file_of sha256 registry fuel ids services c found sized bytes words id
              word written named plain)
            (sym (own_label c.armor.type found.parsed.known))),
    )
