-- ===== src/Schemas/Commit.antt =====
-- schemas/commit.go. The text form of an identifier (baid64/baid64.go) is an argument.
use rgb.Prelude.{
  not, ◌==◌, List, [], ◌∷◌, length, Result, ok, invalid_schema_value, guard, of_option, ◌>>=◌, ◌>>◌,
  String,
}
use rgb.Prelude.Bytes.{ByteString}
use rgb.Consensus.TaggedHash.{Hash, tagged_hash}
use rgb.StrictTypes.Value.{Value, Kind, kind_eq, kind, field, attributes}

abbrev pub schema_tag : String
schema_tag = "urn:lnp-bp:rgb:schema#2024-02-03"

abbrev pub committed_fields : List String
committed_fields =
    "ffv" ∷ "name" ∷ "metaTypes" ∷ "globalTypes" ∷ "ownedTypes" ∷ "genesis" ∷ "transitions"
    ∷ "defaultAssignment" ∷ []

-- An encoding that is nil is one of no bytes.
unfoldable pub chunks_of : Value → List String → Result (List ByteString)
unfolding field
chunks_of value [] = ok []
chunks_of value (name ∷ names) = do
  found ← of_option invalid_schema_value (field name value)
  guard (not (length (attributes found).encoded == 0)) invalid_schema_value
  chunks ← chunks_of value names
  ok ((attributes found).encoded ∷ chunks)

-- `Commitment`
unfoldable pub schema_commitment : Hash → Value → Result ByteString
unfolding chunks_of tagged_hash
schema_commitment sha256 value = do
  guard (kind_eq (kind value) Kind.struct) invalid_schema_value
  chunks ← chunks_of value committed_fields
  ok (tagged_hash sha256 schema_tag chunks)

-- `ID`
unfoldable pub schema_identifier :
    Hash → (ByteString → Result ByteString) → Value → Result ByteString
unfolding schema_commitment
schema_identifier sha256 encode_id value = do
  commitment ← schema_commitment sha256 value
  encode_id commitment
