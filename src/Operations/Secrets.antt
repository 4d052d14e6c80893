-- ===== src/Operations/Secrets.antt =====
-- `assignmentSecret` of operations/genesis.go: the concealed form of an assignment's seal.
use rgb.Prelude.{
  ℕ, none, some, ◌==◌, ◌^◌, ◌%◌, ◌-◌, if◌then◌else◌, length, Result, ok, err, invalid_genesis,
  guard, of_option, ◌>>=◌, ◌>>◌, String, str_eq,
}
use rgb.Prelude.Bytes.{ByteString}
use rgb.Consensus.TaggedHash.{Hash}
use rgb.StrictTypes.Value.{Value, Kind, kind_eq, kind, attributes, unwrap, inner, pointee}
use rgb.Seals.{new_graph_blind_seal, new_witness_blind_seal}
use rgb.Seals.Conceal.{new_blind_seal, conceal_blind, conceal_graph}
use rgb.Operations.Fields.{required_field, as_bytes, as_uint}

abbrev pub name_of : Value → String
name_of v = (attributes v).name

abbrev pub max_uint32 : ℕ
max_uint32 = 2 ^ 32 - 1

unfoldable pub confidential_secret : Value → Result ByteString
unfolding as_bytes
confidential_secret value = do
  raw ← of_option invalid_genesis (as_bytes value)
  guard (length raw == 32) invalid_genesis
  ok raw

unfoldable pub pointer_secret : Hash → Value → ℕ → ℕ → Result ByteString
unfolding as_bytes conceal_graph new_graph_blind_seal new_witness_blind_seal
pointer_secret sha256 pointer vout blinding =
    if str_eq (name_of pointer) "witnessTx"
    then conceal_graph sha256 (new_witness_blind_seal vout blinding)
    else if str_eq (name_of pointer) "txid"
    then (do
      target ← of_option invalid_genesis (pointee (inner pointer))
      txid ← of_option invalid_genesis (as_bytes target)
      guard (length txid == 32) invalid_genesis
      graph ← new_graph_blind_seal txid vout blinding
      conceal_graph sha256 graph)
    else err invalid_genesis

-- A transaction id stands for itself, or in a pointer.
unfoldable pub seal_secret : Hash → Value → ℕ → ℕ → Result ByteString
unfolding as_bytes new_blind_seal conceal_blind pointer_secret unwrap
seal_secret sha256 txid_value vout blinding = elim (as_bytes txid_value) [
  | some txid ↦ do
    guard (length txid == 32) invalid_genesis
    seal ← new_blind_seal txid vout blinding
    conceal_blind sha256 seal
  | none ↦ do
    guard (kind_eq (kind (unwrap txid_value)) Kind.union) invalid_genesis
    pointer_secret sha256 (unwrap txid_value) vout blinding
]

-- The test `vout > ^uint64(uint32(0))` compares with the largest 64-bit number and never holds, so
-- an output index is cut to 32 bits.
unfoldable pub revealed_secret : Hash → Value → Result ByteString
unfolding required_field as_uint seal_secret
revealed_secret sha256 value = do
  txid_value ← required_field value "txid"
  vout_value ← required_field value "vout"
  vout ← of_option invalid_genesis (as_uint vout_value)
  blinding_value ← required_field value "blinding"
  blinding ← of_option invalid_genesis (as_uint blinding_value)
  seal_secret sha256 txid_value (vout % 2 ^ 32) blinding

unfoldable pub assignment_secret : Hash → String → Value → Result ByteString
unfolding confidential_secret revealed_secret
assignment_secret sha256 form value =
    if str_eq form "confidentialSeal"
    then confidential_secret value
    else if str_eq form "revealed"
    then revealed_secret sha256 value
    else err invalid_genesis
