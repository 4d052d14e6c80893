-- ===== src/Runs/Files.antt =====
-- A small consignment in its containers: a registry of types for it, its bytes, its armor and its file.
mod Applied
mod Received
use rgb.Prelude.{
  ℕ, ◌≡◌, refl, subst, if◌then◌else◌, Bool, true, false, ◌&&◌, ◌==◌, ltb, [], ◌∷◌, ◌++◌, length,
  replicate, Result, ok, err, foreign, guard, ◌>>=◌, ◌>>◌, after_guard, ok_inj, All, str_eq, arith,
}
use rgb.Prelude.Bytes.{ByteString, IsByte, bytes_eq, get_le, put_le}
use rgb.Prelude.Keyed.{lookup, insert, remove}
use rgb.StrictTypes.Value.{Value, zero_value}
use rgb.StrictTypes.ParsedType.{
  TypeRef, ParsedType, Registry, inline, primitive, enum, struct, array, list, set, map,
  member_cons, no_members, union, variant_cons, no_variants,
}
use rgb.StrictTypes.Decode.{decode}
use rgb.Schemas.Types.{Services, nia}
use rgb.Schemas.Commit.{schema_commitment}
use rgb.Formats.Text.{encode_hex, decode_hex}
use rgb.Formats.Numerals.{encode_hex-IsGraphic, length-encode_hex}
use rgb.Formats.Words.{IsWord}
use rgb.Formats.ArmorChecks.{IsByteHash, armor_of}
use rgb.Formats.Container.{
  FullContainer, Identifiers, contract_magic, decode_container, decode_file,
}
use rgb.Runs.Anchored.{sample_hash, sample_hash-bytes}
use rgb.Samples.{num}

abbrev u8 : TypeRef
u8 = inline (primitive 1)

abbrev u16 : TypeRef
u16 = inline (primitive 2)

abbrev byte : TypeRef
byte = inline (primitive 0x40)

abbrev flag : TypeRef
flag = inline (enum (("false", 0) ∷ ("true", 1) ∷ []))

abbrev digest : TypeRef
digest = inline (array byte 32)

abbrev small_map : TypeRef
small_map = inline (map u8 u8 0 255)

abbrev occurs_type : TypeRef
occurs_type = inline (struct (member_cons "min" u16 (member_cons "max" u16 no_members)))

abbrev global_type : TypeRef
global_type = inline (
    struct (
      member_cons "globalStateSchema" (inline (struct (member_cons "semId" digest no_members)))
        no_members))

abbrev owned_type : TypeRef
owned_type = inline (
    struct (
      member_cons "ownedStateSchema"
        (inline (
          union
            (variant_cons "fungible" 1 (inline (enum (("unsigned64Bit", 8) ∷ []))) no_variants)))
        no_members))

abbrev seal_type : TypeRef
seal_type = inline (
    struct
      (member_cons "txid" digest (member_cons "vout" u8 (member_cons "blinding" u8 no_members))))

abbrev state_type : TypeRef
state_type = inline (union (variant_cons "bits64" 8 (inline (primitive 8)) no_variants))

abbrev assigned_type : TypeRef
assigned_type = inline (
    union (
      variant_cons "fungible" 1
        (inline (
          list
            (inline (
              union (
                variant_cons "revealed" 0
                  (inline (
                    struct
                      (member_cons "seal" seal_type (member_cons "state" state_type no_members))))
                  no_variants)))
            0 255))
        no_variants))

abbrev schema_type : ParsedType
schema_type = struct (
    member_cons "ffv" u8 (
      member_cons "name" (inline (list byte 0 255)) (
        member_cons "metaTypes" small_map (
          member_cons "globalTypes" (inline (map u16 global_type 0 255)) (
            member_cons "ownedTypes" (inline (map u16 owned_type 0 255)) (
              member_cons "genesis"
                (inline (
                  struct (
                    member_cons "metadata" (inline (list flag 0 255)) (
                      member_cons "globals" (inline (map u16 occurs_type 0 255)) (
                        member_cons "assignments" (inline (map u16 occurs_type 0 255))
                          no_members)))))
                (member_cons "transitions" small_map
                  (member_cons "defaultAssignment" u8 no_members))))))))

abbrev genesis_type : TypeRef
genesis_type = inline (
    struct (
      member_cons "ffv" u8 (
        member_cons "schemaId" digest (
          member_cons "timestamp" u8 (
            member_cons "issuer" u8 (
              member_cons "chainNet" u8 (
                member_cons "sealClosingStrategy" u8 (
                  member_cons "metadata" small_map (
                    member_cons "globals"
                      (inline (map u16 (inline (list (inline (list byte 0 255)) 0 255)) 0 255))
                      (member_cons "assignments" (inline (map u16 assigned_type 0 255))
                        no_members))))))))))

abbrev consignment_type : ParsedType
consignment_type = struct (
    member_cons "version" (inline (enum (("v0", 0) ∷ []))) (
      member_cons "transfer" flag (
        member_cons "terminals" small_map (
          member_cons "genesis" genesis_type (
            member_cons "bundles" (inline (list flag 0 255)) (
              member_cons "types" small_map (
                member_cons "scripts" (inline (set u8 0 255))
                  (member_cons "schema" (inline schema_type) no_members))))))))

abbrev small_registry : Registry
small_registry = record {
  Lib = Unit {0};
  library = λ name. ok tt;
  semantic = λ lib id. err foreign;
  named_type = λ lib name.
      if str_eq name "Consignmentfalse"
      then ok consignment_type
      else if str_eq name "Schema"
      then ok schema_type
      else err foreign;
}

-- A global of type 2010 once, and amounts of type 4000.
abbrev schema_bytes : ByteString
schema_bytes =
    0
    ∷ 1
    ∷ 65
    ∷ 0
    ∷ 1
    ∷ 218
    ∷ 7
    ∷ (replicate 32 7
        ++ (1 ∷ 160 ∷ 15 ∷ 1 ∷ 8 ∷ 0 ∷ 1 ∷ 218 ∷ 7 ∷ 1 ∷ 0 ∷ 1 ∷ 0 ∷ 1 ∷ 160 ∷ 15 ∷ 1 ∷ 0 ∷ 9 ∷ 0
            ∷ 0 ∷ 0 ∷ []))

-- An amount under an output of a transaction.
abbrev assigned : ℕ → ℕ → ByteString
unfolding put_le
assigned vout amount = 0 ∷ (replicate 32 1 ++ (vout ∷ 5 ∷ 8 ∷ put_le 8 amount))

abbrev value_or : Result Value → Value
value_or (ok v) = v
value_or (err e) = zero_value

abbrev bytes_or : Result ByteString → ByteString
bytes_or (ok b) = b
bytes_or (err e) = []

schema_digest : ByteString
unfolding decode schema_commitment sample_hash bytes_eq
schema_digest = bytes_or (
    schema_commitment sample_hash
      (value_or (decode sample_hash small_registry 16 "RGBStd" "Schema" schema_bytes)))

abbrev consignment_bytes : ByteString
unfolding schema_digest
consignment_bytes =
    0
    ∷ 0
    ∷ 0
    ∷ 0
    ∷ (schema_digest
        ++ (1
            ∷ 2
            ∷ 3
            ∷ 4
            ∷ 0
            ∷ 1
            ∷ 218
            ∷ 7
            ∷ 1
            ∷ 1
            ∷ 9
            ∷ 1
            ∷ 160
            ∷ 15
            ∷ 1
            ∷ 2
            ∷ (assigned 0 60 ++ (assigned 1 40 ++ (0 ∷ 0 ∷ 0 ∷ schema_bytes)))))

-- The global state decodes to 100, which is what is assigned.
abbrev small_services : Services
small_services = record {
  add_type_system = λ _. ok (λ _ _. ok (num 100));
  schema_kind = λ _. ok nia;
  commit_transition = λ _. err foreign;
  pub_key_parses = λ _. true;
  scalar_valid = λ _. true;
  verify = λ _ _ _ _. true;
}

abbrev all_small : ByteString → Bool
all_small [] = true
all_small (b ∷ bs) = ltb b 256 && all_small bs

small_bytes : (bs : ByteString) → all_small bs ≡ true → All IsByte bs
small_bytes [] h = tt
small_bytes (b ∷ bs) h = (ground arith, small_bytes bs (ground arith))

hex-IsWord : (d : ByteString) → length d ≡ 32 → All IsByte d → IsWord (encode_hex d)
hex-IsWord d h k = record {
  filled = omega (arith, length-encode_hex d, h);
  short = omega (arith, length-encode_hex d, h);
  graphic = encode_hex-IsGraphic d k;
}

abbrev is_digest : ByteString → Bool
is_digest d = length d == 32 && all_small d

-- Identifiers in hexadecimal.
abbrev write_id : ByteString → Result ByteString
unfolding encode_hex
write_id d = do guard (is_digest d) foreign; ok (encode_hex d)

abbrev read_id : ByteString → Result ByteString
unfolding decode_hex
read_id text = do d ← decode_hex text; guard (is_digest d) foreign; ok d

abbrev small_ids : Identifiers
small_ids = record {
  encode_contract = write_id;
  encode_schema = write_id;
  encode_consignment = write_id;
  decode_consignment = read_id;
}

abbrev raw_file : ByteString
raw_file = contract_magic ++ consignment_bytes

abbrev sample_run : Result FullContainer
unfolding decode_container
sample_run = decode_container sample_hash small_registry 16 small_ids small_services raw_file

abbrev container_or : FullContainer → Result FullContainer → FullContainer
container_or default (ok c) = c
container_or default (err e) = default

abbrev nothing_read : FullContainer
nothing_read = record {
  armor = armor_of sample_hash [] 0 [] [] [] [];
  value = zero_value;
  contract_id = [];
  schema_id = [];
  genesis_report = record { kind = nia; global_states = 0; assignments = 0; owned = [] };
}

sample_container : FullContainer
unfolding decode_container sample_hash
sample_container = container_or nothing_read sample_run

read_sample :
    decode_container sample_hash small_registry 16 small_ids small_services raw_file
    ≡ ok sample_container
unfolding decode_container sample_hash sample_container sample_run consignment_bytes schema_digest
    insert lookup remove get_le bytes_eq encode_hex decode_hex write_id read_id
read_sample = refl

read_sample_file :
    decode_file sample_hash small_registry 16 small_ids small_services raw_file
    ≡ ok sample_container
unfolding decode_file sample_hash sample_container sample_run consignment_bytes schema_digest insert
    lookup remove get_le bytes_eq encode_hex decode_hex write_id read_id
read_sample_file = refl

sample_hash-IsByteHash : IsByteHash sample_hash
sample_hash-IsByteHash m = sample_hash-bytes m

write_id-IsWord : (d text : ByteString) → write_id d ≡ ok text → IsWord text
unfolding write_id
write_id-IsWord d text h = after_guard (is_digest d) foreign _ h λ sized written.
    subst IsWord (ok_inj written)
      (hex-IsWord d (ground (arith, sized)) (small_bytes d (ground (arith, sized))))
