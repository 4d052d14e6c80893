-- ===== src/Consignment/Operation.antt =====
-- What the validation reads of one operation: `transitionInputs`, `inputMapCommits`,
-- `assignmentOutpoint`, `canonicalSealDisclosure`, `registerOutputs`, `contractGlobals` and
-- `appendOperationGlobals` of consignment/validator.go.
use rgb.Prelude.{
  ℕ, ◌^◌, ◌-◌, Bool, true, false, ◌&&◌, Option, none, some, List, [], ◌∷◌, ◌++◌, ◌==◌, leb,
  if◌then◌else◌, length, replicate, Result, ok, err, str_eq, invalid_transition, invalid_genesis,
  seal_not_closed, ◌>>=◌, ◌>>◌, guard, of_option,
}
use rgb.Prelude.Bytes.{ByteString, bytes_eq}
use rgb.Prelude.Keyed.{Map, insert, nat_eq}
use rgb.StrictTypes.Value.{
  Value, Entry, Kind, kind_eq, kind, attributes, inner, pointee, field, unwrap, bytes_of, items,
  entries_of,
}
use rgb.StrictTypes.Numbers.{number, sequence, entries}
use rgb.Schemas.Types.{InputRef}
use rgb.Schemas.State.{values_of}
use rgb.Schemas.Outputs.{RevealedOutput, revealed_outputs}
use rgb.Schemas.Transition.{input_opout}
use rgb.Seals.{new_witness_blind_seal, new_graph_blind_seal, strict_bytes}
use rgb.Consignment.Types.{Outpoint, CarrierBinding, ValidatedOutput, States, input_ref_eq}

unfoldable pub input_refs : List Value → Result (List InputRef)
unfolding input_opout
input_refs [] = ok []
input_refs (v ∷ vs) = do
  ref ← of_option invalid_transition (input_opout v)
  refs ← input_refs vs
  ok (ref ∷ refs)

unfoldable pub transition_inputs : Value → Result (List InputRef)
unfolding input_refs field sequence
transition_inputs transition = do
  value ← of_option invalid_transition (field "inputs" transition)
  listed ← of_option invalid_transition (sequence value)
  input_refs listed

-- One entry of the input map commits the input to the operation. The source reads the number of
-- the output without a bound here; the comparison with the input's number is one.
unfoldable pub entry_commits : InputRef → ByteString → Entry → Bool
unfolding input_opout unwrap bytes_of field number bytes_eq
entry_commits input operation_id e = elim (input_opout e.key) [
  | none ↦ false
  | some ref ↦ elim (bytes_of e.value) [
    | none ↦ false
    | some mapped ↦
        (length mapped == 32
          && (bytes_eq ref.operation_id input.operation_id
              && ((ref.assignment_type == input.assignment_type && ref.index == input.index)
                  && bytes_eq mapped operation_id)))
  ]
]

unfoldable pub any_commits : InputRef → ByteString → List Entry → Bool
unfolding entry_commits
any_commits input operation_id [] = false
any_commits input operation_id (e ∷ es) =
    let rest = any_commits input operation_id es in
    if entry_commits input operation_id e then true else rest

unfoldable pub input_map_commits : Value → InputRef → ByteString → Bool
unfolding any_commits unwrap
input_map_commits value input operation_id =
    any_commits input operation_id (entries_of (unwrap value))

abbrev pub max_uint32 : ℕ
max_uint32 = 2 ^ 32 - 1

abbrev pub zero_id : ByteString
zero_id = replicate 32 0

-- The transaction id of a seal, and whether it points to the witness. A union names either the
-- witness or a transaction id of its own.
unfoldable pub pointer_tx_id : Value → ByteString → Result (ByteString × Bool)
unfolding bytes_of bytes_eq
pointer_tx_id pointer witness_tx_id =
    if kind_eq (kind pointer) Kind.union
    then (if str_eq (attributes pointer).name "witnessTx"
        then (if bytes_eq witness_tx_id zero_id
            then err seal_not_closed
            else ok (witness_tx_id, true))
        else if str_eq (attributes pointer).name "txid"
        then (do
          body ← of_option seal_not_closed (pointee (inner pointer))
          raw ← of_option seal_not_closed (bytes_of body)
          guard (length raw == 32) seal_not_closed
          ok (raw, false))
        else err seal_not_closed)
    else err seal_not_closed

seal_tx_id_from : Option ByteString → Value → ByteString → Result (ByteString × Bool)
unfolding pointer_tx_id unwrap
seal_tx_id_from none value witness_tx_id = pointer_tx_id (unwrap value) witness_tx_id
seal_tx_id_from (some raw) value witness_tx_id =
    if length raw == 32 then ok (raw, false) else err seal_not_closed

unfoldable pub seal_tx_id : Value → ByteString → Result (ByteString × Bool)
unfolding seal_tx_id_from bytes_of
seal_tx_id value witness_tx_id = seal_tx_id_from (bytes_of value) value witness_tx_id

unfoldable pub assignment_outpoint : Value → ByteString → Result (Outpoint × ℕ × Bool)
unfolding seal_tx_id unwrap field number
assignment_outpoint seal witness_tx_id = do
  let value = unwrap seal
  txid_value ← of_option seal_not_closed (field "txid" value)
  vout_value ← of_option seal_not_closed (field "vout" value)
  blinding_value ← of_option seal_not_closed (field "blinding" value)
  vout ← of_option seal_not_closed (number vout_value)
  blinding ← of_option seal_not_closed (number blinding_value)
  guard (leb vout max_uint32) seal_not_closed
  (txid, witness_tx_ptr) ← seal_tx_id txid_value witness_tx_id
  ok (record { tx_id = txid; vout = vout }, blinding, witness_tx_ptr)

unfoldable pub canonical_seal_disclosure : Outpoint → ℕ → Bool → Result ByteString
unfolding new_witness_blind_seal new_graph_blind_seal strict_bytes
canonical_seal_disclosure outpoint blinding witness_tx_ptr =
    if witness_tx_ptr
    then strict_bytes (new_witness_blind_seal outpoint.vout blinding)
    else (new_graph_blind_seal outpoint.tx_id outpoint.vout blinding >>= λ seal. strict_bytes seal)

unfoldable pub register_output :
    States → ByteString → ByteString → CarrierBinding → RevealedOutput → Result States
unfolding assignment_outpoint canonical_seal_disclosure
register_output states operation_id witness_tx_id carrier_binding output = do
  (outpoint, blinding, witness_tx_ptr) ← assignment_outpoint output.seal witness_tx_id
  disclosure ← canonical_seal_disclosure outpoint blinding witness_tx_ptr
  let ref : InputRef = record {
    operation_id = operation_id;
    assignment_type = output.assignment_type;
    index = output.index;
  }
  let validated : ValidatedOutput = record {
    state = output.state;
    outpoint = outpoint;
    seal_disclosure = disclosure;
    seal_blinding = blinding;
    witness_tx_ptr = witness_tx_ptr;
    witness_tx_id = witness_tx_id;
    carrier_binding = carrier_binding;
  }
  ok (insert ref validated states)

unfoldable pub register_all :
    States → ByteString → ByteString → CarrierBinding → List RevealedOutput → Result States
unfolding register_output
register_all states operation_id witness_tx_id carrier_binding [] = ok states
register_all states operation_id witness_tx_id carrier_binding (output ∷ rest) = do
  states' ← register_output states operation_id witness_tx_id carrier_binding output
  register_all states' operation_id witness_tx_id carrier_binding rest

unfoldable pub register_outputs :
    States → ByteString → Value → ByteString → CarrierBinding → Result States
unfolding register_all revealed_outputs
register_outputs states operation_id operation witness_tx_id carrier_binding = do
  outputs ← revealed_outputs operation
  register_all states operation_id witness_tx_id carrier_binding outputs

abbrev pub ContractGlobals : Type 0
ContractGlobals = Map ℕ (List ByteString)

-- Each payload is appended to what its type has so far.
unfoldable pub append_states : ℕ → List Value → ContractGlobals → Result ContractGlobals
unfolding bytes_of
append_states id [] result = ok result
append_states id (state ∷ rest) result = do
  raw ← of_option invalid_genesis (bytes_of state)
  append_states id rest (insert id (values_of id result ++ (raw ∷ [])) result)

unfoldable pub collect_globals : List Entry → ContractGlobals → Result ContractGlobals
unfolding append_states number unwrap
collect_globals [] result = ok result
collect_globals (e ∷ es) result = do
  id ← of_option invalid_genesis (number e.key)
  guard (kind_eq (kind (unwrap e.value)) Kind.list) invalid_genesis
  result' ← append_states id (items (unwrap e.value)) result
  collect_globals es result'

unfoldable pub contract_globals : Value → Result ContractGlobals
unfolding collect_globals field entries
contract_globals operation = do
  value ← of_option invalid_genesis (field "globals" operation)
  listed ← of_option invalid_genesis (entries value)
  collect_globals listed []

unfoldable pub append_updates : ContractGlobals → ContractGlobals → ContractGlobals
append_updates target [] = target
append_updates target ((type_id, values) ∷ rest) =
    append_updates (insert type_id (values_of type_id target ++ values) target) rest

unfoldable pub append_operation_globals : ContractGlobals → Value → Result ContractGlobals
unfolding append_updates contract_globals
append_operation_globals target operation = do
  updates ← contract_globals operation
  ok (append_updates target updates)
