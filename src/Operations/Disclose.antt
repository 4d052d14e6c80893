-- ===== src/Operations/Disclose.antt =====
-- operations/disclose.go: what a consignment reveals of an operation, as one encoding.
use rgb.Prelude.{
  ℕ, ◌^◌, ◌%◌, suc, Bool, true, false, Option, none, some, List, [], ◌∷◌, ◌++◌, not, ltb, ◌==◌,
  if◌then◌else◌, length, Result, ok, err, invalid_disclosure, guard, of_option, ◌>>=◌, ◌>>◌, String,
  str_eq,
}
use rgb.Prelude.Bytes.{ByteString, put_le}
use rgb.Consensus.TaggedHash.{Hash, tagged_hash}
use rgb.StrictTypes.Value.{
  Value, Entry, Kind, kind_eq, kind, field, unwrap, items, entries_of, uint64,
}
use rgb.Seals.{new_graph_blind_seal}
use rgb.Seals.Conceal.{conceal_graph}
use rgb.Operations.Fields.{encoded, required_field, as_bytes, as_uint, union_inner}
use rgb.Operations.Secrets.{name_of, max_uint32, assignment_secret}
use rgb.Operations.Commitments.{commit_transition}
use rgb.Operations.Genesis.{commit_genesis}

abbrev pub disclose_tag : String
disclose_tag = "urn:lnp-bp:rgb:disclose#2024-02-16"

pub record DiscloseEntry : Type 0 where
  pub assignment_type : ℕ
  pub index : ℕ
  pub value : ByteString

-- The three lists that the loop fills.
pub record Disclosed : Type 0 where
  pub seals : List DiscloseEntry
  pub fungible : List DiscloseEntry
  pub structured : List DiscloseEntry

-- A revealed genesis seal is normalised to a graph seal first.
unfoldable pub genesis_secret : Hash → Value → Result ByteString
unfolding required_field as_bytes as_uint new_graph_blind_seal conceal_graph
genesis_secret sha256 value = do
  txid_value ← required_field value "txid"
  txid ← of_option invalid_disclosure (as_bytes txid_value)
  guard (length txid == 32) invalid_disclosure
  vout_value ← required_field value "vout"
  vout ← of_option invalid_disclosure (as_uint vout_value)
  guard (not (ltb max_uint32 vout)) invalid_disclosure
  blinding_value ← required_field value "blinding"
  blinding ← of_option invalid_disclosure (as_uint blinding_value)
  graph ← new_graph_blind_seal txid vout blinding
  conceal_graph sha256 graph

unfoldable pub disclosure_secret : Hash → Value → Bool → Result ByteString
unfolding genesis_secret assignment_secret
disclosure_secret sha256 value false = assignment_secret sha256 "revealed" value
disclosure_secret sha256 value true = genesis_secret sha256 value

-- A confidential seal discloses nothing.
unfoldable pub add_seal :
    Hash → Bool → String → Value → DiscloseEntry → Disclosed → Result Disclosed
unfolding disclosure_secret
add_seal sha256 is_genesis form seal entry found =
    if str_eq form "revealed"
    then (do
      secret ← disclosure_secret sha256 seal is_genesis
      ok (record found { seals = found.seals ++ (record entry { value = secret } ∷ []) }))
    else ok found

unfoldable pub add_state : String → DiscloseEntry → Disclosed → Result Disclosed
add_state state_class entry found =
    if str_eq state_class "declarative"
    then ok found
    else if str_eq state_class "fungible"
    then ok (record found { fungible = found.fungible ++ (entry ∷ []) })
    else if str_eq state_class "structured"
    then ok (record found { structured = found.structured ++ (entry ∷ []) })
    else err invalid_disclosure

abbrev pub disclose_entry : ℕ → ℕ → Value → DiscloseEntry
disclose_entry type_number index state = record {
  assignment_type = type_number;
  index = index % 2 ^ 16;
  value = encoded state;
}

unfoldable pub disclose_item : Hash → Bool → ℕ → String → ℕ → Value → Disclosed → Result Disclosed
unfolding unwrap union_inner field add_seal add_state
disclose_item sha256 is_genesis type_number state_class index assignment found = do
  body ← of_option invalid_disclosure (union_inner (unwrap assignment))
  state ← of_option invalid_disclosure (field "state" (unwrap body))
  seal ← of_option invalid_disclosure (field "seal" (unwrap body))
  let entry = disclose_entry type_number index state
  found' ← add_seal sha256 is_genesis (name_of (unwrap assignment)) seal entry found
  add_state state_class entry found'

unfoldable pub disclose_items :
    Hash → Bool → ℕ → String → ℕ → List Value → Disclosed → Result Disclosed
unfolding disclose_item
disclose_items sha256 is_genesis type_number state_class index [] found = ok found
disclose_items sha256 is_genesis type_number state_class index (assignment ∷ rest) found = do
  found' ← disclose_item sha256 is_genesis type_number state_class index assignment found
  disclose_items sha256 is_genesis type_number state_class (suc index) rest found'

unfoldable pub disclose_entries : Hash → Bool → List Entry → Disclosed → Result Disclosed
unfolding unwrap uint64 union_inner disclose_items
disclose_entries sha256 is_genesis [] found = ok found
disclose_entries sha256 is_genesis (e ∷ es) found = do
  type_number ← of_option invalid_disclosure (uint64 (unwrap e.key))
  guard (not (ltb 0xffff type_number)) invalid_disclosure
  list ← of_option invalid_disclosure (union_inner (unwrap e.value))
  guard (kind_eq (kind (unwrap list)) Kind.list) invalid_disclosure
  guard (not (ltb 0xffff (length (items (unwrap list))))) invalid_disclosure
  found' ←
      disclose_items sha256 is_genesis type_number (name_of (unwrap e.value)) 0
        (items (unwrap list)) found
  disclose_entries sha256 is_genesis es found'

unfoldable pub disclosure_entries : List DiscloseEntry → ByteString
unfolding put_le
disclosure_entries [] = []
disclosure_entries (entry ∷ rest) =
    (put_le 2 entry.assignment_type ++ (put_le 2 entry.index ++ entry.value))
    ++ disclosure_entries rest

-- The length in three bytes, then each entry under its key.
unfoldable pub append_disclosure_map : ByteString → List DiscloseEntry → ByteString
unfolding put_le disclosure_entries
append_disclosure_map buf entries = (buf ++ put_le 3 (length entries)) ++ disclosure_entries entries

abbrev pub has : Option Value → Bool
has none = false
has (some _) = true

unfoldable pub disclosed_operation_id : Hash → Bool → Value → Result ByteString
unfolding commit_genesis commit_transition
disclosed_operation_id sha256 true operation = do
  commitment ← commit_genesis sha256 operation
  ok commitment.operation_id
disclosed_operation_id sha256 false operation = do
  commitment ← commit_transition sha256 operation
  ok commitment.operation_id

abbrev pub none_disclosed : Disclosed
none_disclosed = record { seals = []; fungible = []; structured = [] }

unfoldable pub encode_disclose : Hash → Value → Result ByteString
unfolding field unwrap disclosed_operation_id disclose_entries append_disclosure_map
encode_disclose sha256 operation = do
  let is_genesis = has (field "schemaId" operation)
  operation_id ← disclosed_operation_id sha256 is_genesis operation
  assignments ← of_option invalid_disclosure (field "assignments" operation)
  guard (kind_eq (kind (unwrap assignments)) Kind.map) invalid_disclosure
  found ← disclose_entries sha256 is_genesis (entries_of (unwrap assignments)) none_disclosed
  ok (
      append_disclosure_map
        (append_disclosure_map (append_disclosure_map operation_id found.seals) found.fungible)
        found.structured)

unfoldable pub disclose_hash : Hash → Value → Result ByteString
unfolding encode_disclose tagged_hash
disclose_hash sha256 operation = do
  encoding ← encode_disclose sha256 operation
  ok (tagged_hash sha256 disclose_tag (encoding ∷ []))
