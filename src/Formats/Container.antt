-- ===== src/Formats/Container.antt =====
-- consignment/container.go, with `EncodeArmor` of consignment/encode.go. Text forms of identifiers
-- (baid64/baid64.go) and the services of the schema validation are arguments, as is the registry.
use rgb.Prelude.{
  ℕ, leb, ◌==◌, ◌&&◌, ◌||◌, not, Bool, true, false, if◌then◌else◌, List, [], ◌∷◌, ◌++◌, length,
  take, drop, Result, ok, err, container_type, container_version, contract_mismatch,
  schema_mismatch, genesis_schema, file_magic, armor_too_large, state_type, guard, of_option, ◌>>=◌,
  ◌>>◌, String,
}
use rgb.Prelude.Bytes.{ByteString, bytes_eq, codes}
use rgb.Consensus.TaggedHash.{Hash}
use rgb.StrictTypes.Value.{Value, Kind, kind_eq, kind, field, unwrap, attributes, bytes_of, bool_of}
use rgb.StrictTypes.ParsedType.{Registry}
use rgb.StrictTypes.Decode.{decode}
use rgb.StrictTypes.Encode.{encode}
use rgb.Schemas.Types.{Services}
use rgb.Schemas.Transition.{GenesisValidation, validate_genesis}
use rgb.Schemas.Commit.{schema_commitment, schema_identifier}
use rgb.Operations.Genesis.{commit_genesis}
use rgb.Formats.Armor.{Armor, armor_begin, max_data, parse_armor, armor_text}
use rgb.Formats.ConsignmentId.{consignment_id, verify_id}

abbrev pub contract_magic : ByteString
contract_magic = codes "RGB" ++ (0 ∷ codes "CON")

abbrev pub transfer_magic : ByteString
transfer_magic = codes "RGB" ++ (0 ∷ codes "TFR")

abbrev pub transfer_label : ByteString
transfer_label = codes "transfer"

abbrev pub contract_label : ByteString
contract_label = codes "contract"

pub record FullContainer : Type 0 where
  pub armor : Armor
  pub value : Value
  pub contract_id : ByteString
  pub schema_id : ByteString
  pub genesis_report : GenesisValidation

-- The identifiers of baid64, with the options of each kind.
pub record Identifiers : Type 0 where
  pub encode_contract : ByteString → Result ByteString
  pub encode_schema : ByteString → Result ByteString
  pub encode_consignment : ByteString → Result ByteString
  pub decode_consignment : ByteString → Result ByteString

-- `bytes.Contains`
unfoldable pub starts_with : ByteString → ByteString → Bool
starts_with [] text = true
starts_with (p ∷ ps) [] = false
starts_with (p ∷ ps) (c ∷ cs) = p == c && starts_with ps cs

unfoldable pub contains_text : ByteString → ByteString → Bool
unfolding starts_with
contains_text pattern [] = starts_with pattern []
contains_text pattern (c ∷ cs) = starts_with pattern (c ∷ cs) || contains_text pattern cs

abbrev pub type_name_of : Bool → String
type_name_of true = "Consignmenttrue"
type_name_of false = "Consignmentfalse"

abbrev pub label_of : Bool → ByteString
label_of true = transfer_label
label_of false = contract_label

-- `EncodeFile`, of a container that is there.
unfoldable pub encode_file : FullContainer → Result ByteString
unfolding bytes_eq
encode_file container = do
  let content = container.armor.content
  guard (not (length content == 0)) container_type
  elim (bytes_eq container.armor.type contract_label) [
    | true ↦ ok (contract_magic ++ content)
    | false ↦ elim (bytes_eq container.armor.type transfer_label) [
      | true ↦ ok (transfer_magic ++ content)
      | false ↦ err container_type
    ]
  ]

-- `GenesisContractID` of operations/genesis.go.
unfoldable pub genesis_contract_id : Hash → Identifiers → Value → Result ByteString
unfolding commit_genesis
genesis_contract_id sha256 ids value = do
  commitment ← commit_genesis sha256 value
  ids.encode_contract commitment.operation_id

-- The payload of a binary file and the kinds of consignment that it may be, in the order they are
-- tried.
unfoldable pub payload_of : ByteString → Result (List Bool × ByteString)
unfolding bytes_eq
payload_of raw =
    if leb 7 (length raw) && bytes_eq (take 4 raw) (codes "RGB" ++ (0 ∷ []))
    then (if bytes_eq (take 3 (drop 4 raw)) (codes "TFR")
        then ok (true ∷ [], drop 7 raw)
        else if bytes_eq (take 3 (drop 4 raw)) (codes "CON")
        then ok (false ∷ [], drop 7 raw)
        else err file_magic)
    else ok (true ∷ false ∷ [], raw)

module _ (sha256 : Hash) (registry : Registry) (fuel : ℕ) (ids : Identifiers)
    (services : Services) where
  abbrev pub decode_kind : Bool → ByteString → Result Value
  unfolding decode
  decode_kind transfer content =
      decode sha256 registry fuel "RGBStd" (type_name_of transfer) content

  abbrev pub encode_kind : Bool → Value → Result ByteString
  unfolding encode
  encode_kind transfer value = encode sha256 registry fuel "RGBStd" (type_name_of transfer) value

  -- `EncodeArmor`
  unfoldable pub encode_armor : Value → Result ByteString
  unfolding decode encode field unwrap bool_of genesis_contract_id schema_identifier consignment_id
      armor_text
  encode_armor value = do
    transfer_value ← of_option container_type (field "transfer" value)
    is_transfer ← of_option container_type (bool_of transfer_value)
    content ← encode_kind is_transfer value
    guard (leb (length content) max_data) armor_too_large
    rebuilt ← decode_kind is_transfer content
    version ← of_option container_version (field "version" rebuilt)
    guard (kind_eq (kind (unwrap version)) Kind.enum) container_version
    genesis ← of_option contract_mismatch (field "genesis" rebuilt)
    contract ← genesis_contract_id sha256 ids genesis
    schema_value ← of_option schema_mismatch (field "schema" rebuilt)
    schema ← schema_identifier sha256 ids.encode_schema schema_value
    commitment ← consignment_id sha256 rebuilt
    id ← ids.encode_consignment commitment
    ok (
        armor_text sha256 id (attributes (unwrap version)).tag (label_of is_transfer) contract
          schema content)

  -- `DecodeArmor` after `ParseArmor`: the value and its kind.
  unfoldable pub check_value : Armor → Result Value
  unfolding decode verify_id field unwrap bool_of bytes_eq
  check_value armor = do
    let want_transfer = bytes_eq armor.type transfer_label
    value ← decode_kind want_transfer armor.content
    verify_id sha256 ids.decode_consignment armor.id value
    version ← of_option container_version (field "version" value)
    guard (kind_eq (kind (unwrap version)) Kind.enum && (attributes (unwrap version)).tag == 0)
        container_version
    transfer ← of_option container_type (field "transfer" value)
    is_transfer ← of_option container_type (bool_of transfer)
    guard (if is_transfer then want_transfer else not want_transfer) container_type
    ok value

  -- Then its schema and its genesis.
  unfoldable pub check_contract : Armor → Value → Result FullContainer
  unfolding field bytes_of bytes_eq schema_commitment schema_identifier genesis_contract_id
      validate_genesis
  check_contract armor value = do
    schema ← of_option schema_mismatch (field "schema" value)
    commitment ← schema_commitment sha256 schema
    schema_text ← schema_identifier sha256 ids.encode_schema schema
    guard (bytes_eq armor.schema schema_text) schema_mismatch
    genesis ← of_option contract_mismatch (field "genesis" value)
    schema_field ← of_option genesis_schema (field "schemaId" genesis)
    schema_bytes ← of_option genesis_schema (bytes_of schema_field)
    guard (bytes_eq schema_bytes commitment) genesis_schema
    contract ← genesis_contract_id sha256 ids genesis
    guard (bytes_eq armor.contract contract) contract_mismatch
    types ← of_option state_type (field "types" value)
    report ← validate_genesis services schema types genesis
    ok (record {
      armor = armor;
      value = value;
      contract_id = contract;
      schema_id = schema_text;
      genesis_report = report;
    })

  unfoldable pub check_armor : Armor → Result FullContainer
  unfolding check_value check_contract
  check_armor armor = do value ← check_value armor; check_contract armor value

  -- `DecodeArmor`
  unfoldable pub decode_armor : ByteString → Result FullContainer
  unfolding parse_armor check_armor
  decode_armor text = do armor ← parse_armor sha256 ids.decode_consignment text; check_armor armor

  -- The loop over the type names: the first that the payload decodes to is written as an armor and read.
  unfoldable pub decode_first : List Bool → ByteString → Result FullContainer
  unfolding decode encode_armor decode_armor
  decode_first [] payload = err file_magic
  decode_first (transfer ∷ rest) payload =
      let later = decode_first rest payload in
      elim (decode_kind transfer payload) [
        | ok value ↦ do text ← encode_armor value; decode_armor text
        | err failure ↦ elim rest [ [] ↦ err failure | _ ∷ _ ↦ later ]
      ]

  -- `Decode`
  unfoldable pub decode_container : ByteString → Result FullContainer
  unfolding contains_text decode_armor payload_of decode_first
  decode_container raw = if contains_text armor_begin raw then decode_armor raw else (do
    (kinds, payload) ← payload_of raw
    guard (not (length payload == 0) && leb (length payload) max_data) armor_too_large
    decode_first kinds payload)

  -- `DecodeFile`
  unfoldable pub decode_file : ByteString → Result FullContainer
  unfolding decode_container bytes_eq
  decode_file raw = do
    guard (leb 7 (length raw)) file_magic
    guard (bytes_eq (take 7 raw) contract_magic || bytes_eq (take 7 raw) transfer_magic) file_magic
    let want = if bytes_eq (take 7 raw) contract_magic then contract_label else transfer_label
    container ← decode_container raw
    guard (bytes_eq container.armor.type want) container_type
    ok container
