-- ===== src/Runs/Files/Applied.antt =====
-- The theorems on containers at the sample file, and files that are refused.
use rgb.Prelude.{
  ◌<◌, ◌≡◌, refl, subst, true, false, [], ◌∷◌, ◌++◌, length, replicate, ok, err, foreign,
  file_magic, then_ok, then_pass, ◌>>=◌, after_ok, after_guard, ok_inj, inl, ◌⊎◌, All, arith, take,
}
use rgb.Prelude.Bytes.{ByteString, IsByte, bytes_eq, codes, get_le}
use rgb.Prelude.Keyed.{lookup, insert, remove}
use rgb.Formats.Text.{encode_hex, decode_hex}
use rgb.Formats.Numerals.{all_graphic, IsGraphic-literal, decode_hex-encode_hex}
use rgb.Formats.Words.{IsWord}
use rgb.Formats.Armor.{armor_begin, armor_text, parse_armor}
use rgb.Formats.ArmorChecks.{IsWritable, armor_of, literal-IsWord}
use rgb.Formats.ArmorRoundTrip.{parse_armor-armor_text}
use rgb.Formats.Container.{
  contract_magic, contract_label, transfer_magic, transfer_label, decode_container, decode_file,
  encode_file, contains_text,
}
use rgb.Formats.ContainerChecks.{Checked}
use rgb.Formats.ContainerRead.{decode_file-Checked}
use rgb.Formats.ContainerFile.{file_of, rewritten_under}
use rgb.Formats.ContainerRoundTrip.{AreIdentifiers, decode_file-encode_file}
use rgb.Runs.Anchored.{sample_hash, sample_hash-IsDigest}
use rgb.Runs.Files.{
  consignment_bytes, digest, hex-IsWord, is_digest, raw_file, read_id, read_sample,
  read_sample_file, sample_container, sample_hash-IsByteHash, sample_run, schema_digest,
  small_bytes, small_ids, small_registry, small_services, write_id, write_id-IsWord,
}

sized_bytes : (d : ByteString) → is_digest d ≡ true → (length d ≡ 32) × All IsByte d
sized_bytes d h = (ground (arith, h), small_bytes d (ground (arith, h)))

rewritten_id :
    (digest : ByteString)
    → is_digest digest ≡ true
    → (written : ByteString) × (write_id digest ≡ ok written)
      × IsWord written
      × (read_id written ≡ ok digest)
unfolding write_id read_id
rewritten_id digest h =
    let (sized, small) = sized_bytes digest h in
    (
      encode_hex digest,
      then_pass _ _ _ h refl,
      hex-IsWord digest sized small,
      then_ok _ _ (decode_hex-encode_hex digest small) (then_pass _ _ _ h refl),
    )

reread_id :
    (text digest : ByteString)
    → read_id text ≡ ok digest
    → (written : ByteString) × (write_id digest ≡ ok written)
      × IsWord written
      × (read_id written ≡ ok digest)
unfolding read_id
reread_id text digest h = after_ok (decode_hex text) _ h λ d _ h1.
    after_guard (is_digest d) foreign _ h1
      λ valid same. rewritten_id digest (subst (λ e. is_digest e ≡ true) (ok_inj same) valid)

small_ids-AreIdentifiers : AreIdentifiers small_ids
small_ids-AreIdentifiers = record {
  contract_word = write_id-IsWord;
  schema_word = write_id-IsWord;
  consignment_text = reread_id;
}

decode_file-Checked_example :
    Checked sample_hash small_registry 16 small_ids small_services sample_container
    × (((take 7 raw_file ≡ contract_magic) × (sample_container.armor.type ≡ contract_label))
        ⊎ ((take 7 raw_file ≡ transfer_magic) × (sample_container.armor.type ≡ transfer_label)))
decode_file-Checked_example =
    decode_file-Checked sample_hash small_registry 16 small_ids small_services raw_file
      sample_container read_sample_file

sample_plain :
    contains_text armor_begin
      (file_of (bytes_eq sample_container.armor.type transfer_label) sample_container.armor.content)
    ≡ false
unfolding decode_container sample_hash sample_container sample_run consignment_bytes schema_digest
    insert lookup remove get_le bytes_eq encode_hex decode_hex write_id read_id contains_text
sample_plain = refl

decode_file-encode_file_example :
    (id : ByteString) × (small_ids.decode_consignment id
      ≡ small_ids.decode_consignment sample_container.armor.id)
    × ((encode_file sample_container >>= λ file.
          decode_file sample_hash small_registry 16 small_ids small_services file)
        ≡ ok (rewritten_under sample_hash sample_container id))
decode_file-encode_file_example =
    decode_file-encode_file sample_hash small_registry 16 small_ids small_services raw_file
      sample_container sample_hash-IsDigest sample_hash-IsByteHash small_ids-AreIdentifiers
      sample_plain read_sample

literal : (w : ByteString) → all_graphic w ≡ true → 0 < length w → length w < 100 → IsWord w
literal w g h k = literal-IsWord w h k (IsGraphic-literal w g)

sample-IsWritable :
    IsWritable small_ids.decode_consignment
      (encode_hex (replicate 32 5))
      3
      (codes "transfer")
      (codes "rgb:contract")
      (codes "rgb:sch:schema")
      (1 ∷ 2 ∷ 3 ∷ 4 ∷ 5 ∷ [])
unfolding read_id decode_hex encode_hex
sample-IsWritable = record {
  id_word = hex-IsWord (replicate 32 5) refl (small_bytes (replicate 32 5) refl);
  id_read = (replicate 32 5, refl);
  version_tag = omega arith;
  known_type = inl refl;
  contract_word = literal (codes "rgb:contract") refl (omega arith) (omega arith);
  schema_word = literal (codes "rgb:sch:schema") refl (omega arith) (omega arith);
  content_bytes = small_bytes (1 ∷ 2 ∷ 3 ∷ 4 ∷ 5 ∷ []) refl;
  content_filled = omega arith;
  content_small = omega arith;
}

parse_armor-armor_text_example :
    parse_armor sample_hash small_ids.decode_consignment (
      armor_text sample_hash
        (encode_hex (replicate 32 5))
        3
        (codes "transfer")
        (codes "rgb:contract")
        (codes "rgb:sch:schema")
        (1 ∷ 2 ∷ 3 ∷ 4 ∷ 5 ∷ []))
    ≡ ok (
        armor_of sample_hash
          (encode_hex (replicate 32 5))
          3
          (codes "transfer")
          (codes "rgb:contract")
          (codes "rgb:sch:schema")
          (1 ∷ 2 ∷ 3 ∷ 4 ∷ 5 ∷ []))
parse_armor-armor_text_example =
    parse_armor-armor_text sample_hash small_ids.decode_consignment (encode_hex (replicate 32 5)) 3
      (codes "transfer") (codes "rgb:contract") (codes "rgb:sch:schema") (1 ∷ 2 ∷ 3 ∷ 4 ∷ 5 ∷ [])
      sample_hash-IsDigest sample_hash-IsByteHash sample-IsWritable

-- A file of another kind, and a file that is too short.
test_other_magic :
    decode_file sample_hash small_registry 16 small_ids small_services
      (codes "RGB" ++ (0 ∷ codes "XYZ"))
    ≡ err file_magic
unfolding decode_file bytes_eq
test_other_magic = refl

test_short_file :
    decode_file sample_hash small_registry 16 small_ids small_services (codes "RGB")
    ≡ err file_magic
unfolding decode_file
test_short_file = refl

-- A file of the magic, and then a line for each of an armor.
abbrev armored_file : ByteString
unfolding armor_text sample_hash sample_container
armored_file =
    contract_magic
    ++ (10
        ∷ armor_text sample_hash sample_container.armor.id 0 contract_label
            sample_container.contract_id sample_container.schema_id sample_container.armor.content)

test_armored_file :
    decode_file sample_hash small_registry 16 small_ids small_services armored_file
    ≡ ok sample_container
unfolding decode_file sample_hash sample_container consignment_bytes schema_digest insert lookup
    remove get_le bytes_eq encode_hex decode_hex write_id read_id armor_text
test_armored_file = refl
