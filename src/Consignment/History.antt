-- ===== src/Consignment/History.antt =====
-- The loop of `validateWithHistoryReport` of consignment/validator.go over bundles and
-- transitions, without a report collector.
use rgb.Prelude.{
  ℕ, ◌+◌, Bool, true, false, not, ◌&&◌, Option, none, some, List, [], ◌∷◌, ◌++◌, ◌==◌, map,
  if◌then◌else◌, length, replicate, Result, ok, err, invalid_bundle, input_map_mismatch,
  duplicate_state_spend, input_unresolved, seal_not_closed, ◌>>=◌, ◌>>◌, guard, of_option,
}
use rgb.Prelude.Bytes.{ByteString}
use rgb.Prelude.Keyed.{Map, lookup, insert, remove, contains, nat_eq, bytes_eq_instance}
use rgb.Operations.Bundle.{BundleCommitment}
use rgb.StrictTypes.Value.{Value, Kind, kind_eq, kind, field, unwrap, items, zero_value}
use rgb.Schemas.Types.{InputRef, Services, TransitionContext}
use rgb.Schemas.Transition.{Resolver, validate_transition}
use rgb.Consignment.Types.{
  Outpoint, Tx, WitnessState, mined, prepared, CarrierBinding, States, ValidatedOp, input_ref_eq,
}
use rgb.Consignment.Operation.{
  ContractGlobals, transition_inputs, input_map_commits, register_outputs, append_operation_globals,
  contract_globals,
}
use rgb.Consignment.Outpoints.{OutpointResolver, tx_spends, verify_prepared_input_outpoint}

pub record Witness : Type 0 where
  pub tx : Tx
  pub tx_id : ByteString
  pub state : WitnessState

-- What the loop takes from the other parts and from the chain: the commitments of operations, the
-- anchor proof (`decodeAnchor`, then `ConvolveMPC`), `verifyDBC`, `decodeCarrierBinding`, and the
-- witness that `resolveWitness` or, for a prepared transfer, `resolvePreparedWitness` finds.
pub record Evidence : Type 0 where
  pub commit_genesis : Value → Result ByteString
  pub commit_bundle : Value → Result BundleCommitment
  pub anchor_commitment : Value → ByteString → ByteString → Result (Value × ByteString)
  pub verify_dbc : Tx → Value → ByteString → Result (Unit {0})
  pub carrier_binding : Value → ByteString → Result CarrierBinding
  pub resolve_witness : Value → Result Witness
  pub outpoints : Option OutpointResolver

-- The variables of the loop, and the counts of the report.
pub record Progress : Type 0 where
  pub states : States
  pub consumed : List InputRef
  pub globals : ContractGlobals
  pub graph : Map ByteString ValidatedOp
  pub bundle_ops : Map ByteString (List ByteString)
  pub prepared_witnesses : Map ByteString Tx
  pub complete_graph : Bool
  pub bundles : ℕ
  pub transitions : ℕ
  pub mined_witnesses : ℕ
  pub pending_witnesses : ℕ
  pub prepared_count : ℕ

abbrev pub is_prepared : WitnessState → Bool
is_prepared prepared = true
is_prepared _ = false

abbrev pub no_binding : CarrierBinding
no_binding = record {
  commitment_method = "";
  internal_key = replicate 32 0;
  tapret_root = replicate 32 0;
  tapret_proof = [];
}

-- The resolver over the states of the loop.
unfoldable pub state_resolver : States → Resolver
unfolding lookup
state_resolver states ref = elim (lookup ref states) [
  | none ↦ err input_unresolved
  | some output ↦ ok output.state
]

-- An input of a prepared transfer must be unspent, or spent by its own witness.
unfoldable pub check_unspent : Evidence → Witness → Outpoint → Result (Unit {0})
unfolding verify_prepared_input_outpoint
check_unspent evidence witness outpoint =
    if is_prepared witness.state
    then verify_prepared_input_outpoint evidence.outpoints outpoint witness.tx_id
    else ok tt

-- The checks on one input, before the operation itself is validated.
unfoldable pub check_input :
    Evidence → Value → Witness → ByteString → States → List InputRef → InputRef → Result (Unit {0})
unfolding input_map_commits lookup contains tx_spends check_unspent
check_input evidence input_map witness operation_id states consumed input = do
  guard (input_map_commits input_map input operation_id) input_map_mismatch
  guard (not (contains consumed input)) duplicate_state_spend
  previous ← of_option input_unresolved (lookup input states)
  guard (tx_spends witness.tx previous.outpoint) seal_not_closed
  check_unspent evidence witness previous.outpoint

unfoldable pub check_inputs :
    Evidence
    → Value
    → Witness
    → ByteString
    → States
    → List InputRef
    → List InputRef
    → Result (Unit {0})
unfolding check_input
check_inputs evidence input_map witness operation_id states consumed [] = ok tt
check_inputs evidence input_map witness operation_id states consumed (input ∷ rest) = do
  check_input evidence input_map witness operation_id states consumed input
  check_inputs evidence input_map witness operation_id states consumed rest

-- `consumed[input] = struct{}{}` and `delete(states, input)`.
unfoldable pub consume : List InputRef → List InputRef → List InputRef
consume [] consumed = consumed
consume (input ∷ rest) consumed = consume rest (input ∷ consumed)

unfoldable pub delete_all : List InputRef → States → States
unfolding remove
delete_all [] states = states
delete_all (input ∷ rest) states = delete_all rest (remove input states)

abbrev pub operation_of : InputRef → ByteString
operation_of ref = ref.operation_id

abbrev pub ops_of : ByteString → Map ByteString (List ByteString) → List ByteString
ops_of id m = elim (lookup id m) [ none ↦ [] | some ops ↦ ops ]

-- One disclosed transition of a bundle under its witness.
unfoldable pub validate_operation :
    Services
    → Evidence
    → Value
    → Value
    → ByteString
    → ByteString
    → Value
    → Witness
    → CarrierBinding
    → Progress
    → Value
    → Result (Progress × ByteString)
unfolding transition_inputs check_inputs validate_transition state_resolver consume delete_all
    register_outputs append_operation_globals
validate_operation services evidence schema type_system contract_id bundle_id input_map witness
      carrier p transition =
    do
      operation_id ← services.commit_transition transition
      inputs ← transition_inputs transition
      check_inputs evidence input_map witness operation_id p.states p.consumed inputs
      let context : TransitionContext = record {
        contract_id = contract_id;
        contract_globals = p.globals;
      }
      validation ←
          validate_transition services schema type_system transition context
            (some (state_resolver p.states))
      states ←
          register_outputs (delete_all inputs p.states) validation.operation_id transition
            witness.tx_id carrier
      globals ← append_operation_globals p.globals transition
      let node : ValidatedOp = record { bundle = bundle_id; parents = map operation_of inputs }
      let p' : Progress = record p {
        states = states;
        consumed = consume inputs p.consumed;
        globals = globals;
        graph = insert validation.operation_id node p.graph;
        bundle_ops =
            insert bundle_id (ops_of bundle_id p.bundle_ops ++ (validation.operation_id ∷ []))
              p.bundle_ops;
        transitions = p.transitions + 1;
      }
      ok (p', validation.operation_id)

unfoldable pub add_id : ByteString → List ByteString → List ByteString
unfolding contains
add_id id ids = if contains ids id then ids else id ∷ ids

unfoldable pub validate_operations :
    Services
    → Evidence
    → Value
    → Value
    → ByteString
    → ByteString
    → Value
    → Witness
    → CarrierBinding
    → Progress
    → List ByteString
    → List Value
    → Result (Progress × List ByteString)
unfolding validate_operation add_id
validate_operations services evidence schema type_system contract_id bundle_id input_map witness
      carrier p verified [] =
    ok (p, verified)
validate_operations services evidence schema type_system contract_id bundle_id input_map witness
      carrier p verified (transition ∷ rest) =
    do
      (p', operation_id) ←
          validate_operation services evidence schema type_system contract_id bundle_id input_map
            witness carrier p transition
      validate_operations services evidence schema type_system contract_id bundle_id input_map
          witness carrier p' (add_id operation_id verified) rest

-- The counters and the table of prepared witnesses.
unfoldable pub count_witness : Witness → Progress → Progress
count_witness witness p = elim witness.state [
  | mined ↦ record p { bundles = p.bundles + 1; mined_witnesses = p.mined_witnesses + 1 }
  | prepared ↦ record p {
    bundles = p.bundles + 1;
    prepared_count = p.prepared_count + 1;
    prepared_witnesses = insert witness.tx_id witness.tx p.prepared_witnesses;
  }
  | _ ↦ record p { bundles = p.bundles + 1; pending_witnesses = p.pending_witnesses + 1 }
]

-- A missing field is Go's zero value.
unfoldable pub input_map_of : Value → Value
unfolding field
input_map_of bundle_value = elim (field "inputMap" bundle_value) [ none ↦ zero_value | some v ↦ v ]

unfoldable pub validate_bundle :
    Services → Evidence → Value → Value → ByteString → Progress → Value → Result Progress
unfolding validate_operations count_witness field unwrap input_map_of
validate_bundle services evidence schema type_system contract_id p witness_bundle = do
  let w = unwrap witness_bundle
  public_witness ← of_option invalid_bundle (field "pubWitness" w)
  anchor_value ← of_option invalid_bundle (field "anchor" w)
  bundle_value ← of_option invalid_bundle (field "bundle" w)
  bundle ← evidence.commit_bundle bundle_value
  (dbc_proof, commitment) ← evidence.anchor_commitment anchor_value contract_id bundle.bundle_id
  witness ← evidence.resolve_witness public_witness
  evidence.verify_dbc witness.tx dbc_proof commitment
  carrier ← evidence.carrier_binding dbc_proof commitment
  (p', verified) ←
      validate_operations services evidence schema type_system contract_id bundle.bundle_id
        (input_map_of bundle_value) witness carrier (count_witness witness p) [] bundle.transitions
  ok (record p' {
    complete_graph = p'.complete_graph && length verified == length bundle.input_operations;
  })

unfoldable pub validate_bundles :
    Services → Evidence → Value → Value → ByteString → Progress → List Value → Result Progress
unfolding validate_bundle
validate_bundles services evidence schema type_system contract_id p [] = ok p
validate_bundles services evidence schema type_system contract_id p (b ∷ bs) = do
  p' ← validate_bundle services evidence schema type_system contract_id p b
  validate_bundles services evidence schema type_system contract_id p' bs

abbrev pub initial_progress : ByteString → States → ContractGlobals → Progress
initial_progress genesis_id states globals = record {
  states = states;
  consumed = [];
  globals = globals;
  graph = (genesis_id, record { bundle = replicate 32 0; parents = [] }) ∷ [];
  bundle_ops = [];
  prepared_witnesses = [];
  complete_graph = true;
  bundles = 0;
  transitions = 0;
  mined_witnesses = 0;
  pending_witnesses = 0;
  prepared_count = 0;
}

-- From the genesis through every bundle. The container is structurally valid here.
unfoldable pub validate_history :
    Services → Evidence → Value → Value → Value → Value → Result Progress
unfolding validate_bundles register_outputs contract_globals unwrap
validate_history services evidence schema type_system genesis bundles_value = do
  genesis_id ← evidence.commit_genesis genesis
  states ← register_outputs [] genesis_id genesis (replicate 32 0) no_binding
  globals ← contract_globals genesis
  guard (kind_eq (kind (unwrap bundles_value)) Kind.list) invalid_bundle
  validate_bundles services evidence schema type_system genesis_id
      (initial_progress genesis_id states globals) (items (unwrap bundles_value))
