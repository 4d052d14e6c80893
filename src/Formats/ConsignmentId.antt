-- ===== src/Formats/ConsignmentId.antt =====
-- consignment/id.go: the identifier of a consignment. The reading of its text form
-- (baid64/baid64.go) is an argument.
use rgb.Prelude.{
  leb, ◌==◌, ◌&&◌, ◌%◌, List, [], ◌∷◌, ◌++◌, length, Result, ok, id_mismatch, guard, of_option,
  ◌>>=◌, ◌>>◌, String,
}
use rgb.Prelude.Bytes.{ByteString, put_le, bytes_eq}
use rgb.Consensus.TaggedHash.{Hash, tagged_hash, join}
use rgb.StrictTypes.Value.{
  Value, Entry, Kind, kind_eq, kind, field, unwrap, attributes, items, entries_of, bytes_of,
}
use rgb.StrictTypes.Compare.{text_value, spaced}
use rgb.Operations.Genesis.{commit_genesis}
use rgb.Operations.Disclose.{disclose_hash, disclose_tag}

abbrev pub consignment_tag : String
consignment_tag = "urn:lnp-bp:rgb:consignment#2024-03-11"

abbrev pub type_system_tag : String
type_system_tag = "urn:ubideco:strict-types:sys:v01"

abbrev pub library_tag : String
library_tag = "urn:ubideco:aluvm:lib:v01#230304"

abbrev part : String → Value → Result Value
part name value = of_option id_mismatch (field name value)

-- The identifiers of 32 bytes that a loop of the source appends.
unfoldable pub digests_of : List Value → Result ByteString
unfolding bytes_of
digests_of [] = ok []
digests_of (v ∷ vs) = do
  raw ← of_option id_mismatch (bytes_of v)
  guard (length raw == 32) id_mismatch
  rest ← digests_of vs
  ok (raw ++ rest)

abbrev pub keys_of : List Entry → List Value
keys_of [] = []
keys_of (e ∷ es) = e.key ∷ keys_of es

unfoldable pub type_system_id : Hash → Value → Result ByteString
unfolding unwrap digests_of put_le tagged_hash
type_system_id sha256 value = do
  let w = unwrap value
  guard (kind_eq (kind w) Kind.map) id_mismatch
  guard (leb (length (entries_of w)) 0xffffff) id_mismatch
  keys ← digests_of (keys_of (entries_of w))
  ok (tagged_hash sha256 type_system_tag ((put_le 3 (length (entries_of w)) ++ keys) ∷ []))

unfoldable pub names_of : List Value → Result (List ByteString)
unfolding text_value
names_of [] = ok []
names_of (v ∷ vs) = do
  name ← of_option id_mismatch (text_value v)
  names ← names_of vs
  ok (name ∷ names)

-- The message of one library: its extensions under a length of one byte, its code, its data and the
-- identifiers that it calls.
unfoldable pub library_message : Value → Result ByteString
unfolding unwrap field bytes_of names_of digests_of put_le
library_message library = do
  isae_value ← part "isae" (unwrap library)
  code_value ← part "code" (unwrap library)
  data_value ← part "data" (unwrap library)
  libs_value ← part "libs" (unwrap library)
  code ← of_option id_mismatch (bytes_of code_value)
  segment ← of_option id_mismatch (bytes_of data_value)
  let isae = unwrap isae_value
  let libs = unwrap libs_value
  guard (kind_eq (kind isae) Kind.set && kind_eq (kind libs) Kind.set) id_mismatch
  guard (leb (length (items libs)) 0xff) id_mismatch
  names ← names_of (items isae)
  guard (leb (length code) 0xffff && leb (length segment) 0xffff) id_mismatch
  called ← digests_of (items libs)
  ok (
      (length (spaced names) % 256) ∷ spaced names
      ++ (put_le 2 (length code)
          ++ (code
              ++ (put_le 2 (length segment)
                  ++ (segment ++ ((length (items libs) % 256) ∷ called))))))

unfoldable pub library_ids_of : Hash → List Value → Result (List ByteString)
unfolding library_message tagged_hash
library_ids_of sha256 [] = ok []
library_ids_of sha256 (library ∷ libraries) = do
  message ← library_message library
  ids ← library_ids_of sha256 libraries
  ok (tagged_hash sha256 library_tag (message ∷ []) ∷ ids)

-- `aluVMLibraryIDs`
unfoldable pub library_ids : Hash → Value → Result (List ByteString)
unfolding unwrap library_ids_of
library_ids sha256 value = do
  let w = unwrap value
  guard (kind_eq (kind w) Kind.set) id_mismatch
  guard (leb (length (items w)) 0xffff) id_mismatch
  library_ids_of sha256 (items w)

unfoldable pub bundle_disclosures : Hash → List Value → List ByteString
unfolding tagged_hash
bundle_disclosures sha256 [] = []
bundle_disclosures sha256 (item ∷ rest) =
    tagged_hash sha256 disclose_tag ((attributes item).encoded ∷ [])
    ∷ bundle_disclosures sha256 rest

-- `ID`
unfoldable pub consignment_id : Hash → Value → Result ByteString
unfolding field unwrap commit_genesis disclose_hash bundle_disclosures type_system_id library_ids
    put_le tagged_hash
consignment_id sha256 value = do
  version ← part "version" value
  transfer ← part "transfer" value
  terminals ← part "terminals" value
  genesis ← part "genesis" value
  bundles_value ← part "bundles" value
  types ← part "types" value
  scripts ← part "scripts" value
  commitment ← commit_genesis sha256 genesis
  disclosure ← disclose_hash sha256 genesis
  let bundles = unwrap bundles_value
  guard (kind_eq (kind bundles) Kind.list) id_mismatch
  let disclosures = bundle_disclosures sha256 (items bundles)
  types_id ← type_system_id sha256 types
  script_ids ← library_ids sha256 scripts
  ok (
      tagged_hash sha256 consignment_tag (
        (attributes version).encoded
        ∷ (attributes transfer).encoded
        ∷ commitment.operation_id
        ∷ disclosure
        ∷ put_le 4 (length disclosures)
        ∷ join disclosures
        ∷ (attributes terminals).encoded
        ∷ types_id
        ∷ put_le 2 (length script_ids)
        ∷ join script_ids
        ∷ []))

-- `verifyID`
unfoldable pub verify_id :
    Hash → (ByteString → Result ByteString) → ByteString → Value → Result (Unit {0})
unfolding consignment_id bytes_eq
verify_id sha256 decode_id header value = do
  want ← decode_id header
  actual ← consignment_id sha256 value
  guard (bytes_eq want actual) id_mismatch
