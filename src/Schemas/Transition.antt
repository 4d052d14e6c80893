-- ===== src/Schemas/Transition.antt =====
-- `ValidateTransition`, `decodeTransitionMetadata` of schemas/transition.go and `ValidateGenesis`
-- of schemas/validate.go.
use rgb.Prelude.{
  ℕ, ◌+◌, ◌-◌, ◌%◌, ◌^◌, ◌&&◌, Option, none, some, List, [], ◌∷◌, ◌++◌, length, leb, ltb, ◌==◌,
  if◌then◌else◌, Result, ok, err, str_eq, schema_conformance, state_type, input_unresolved, ◌>>=◌,
  ◌>>◌, guard, of_option,
}
use rgb.Prelude.Bytes.{ByteString, bytes_eq}
use rgb.Prelude.Keyed.{Map, lookup, insert, nat_eq}
use rgb.StrictTypes.Value.{Value, Entry, Kind, kind_eq, kind, attributes, field, unwrap, bytes_of}
use rgb.StrictTypes.Numbers.{number, scalar_uint, entries, sequence, semantic_id}
use rgb.Schemas.Types.{
  AssetKind, InputRef, ResolvedInput, Occurrence, TransitionContext, Services, max_uint64,
  max_uint16,
}
use rgb.Schemas.Access.{
  as_state_error, count_of, map_by_number_field, occurrence_map, enforce_occurrences,
}
use rgb.Schemas.State.{is_declared, values_of, validate_metadata, validate_globals}
use rgb.Schemas.Owned.{validate_assignments}
use rgb.Schemas.Script.{Owned, validate_genesis_script, validate_transition_script}

module _ (decode_semantic : ByteString → ByteString → Result Value) where
  unfoldable pub decode_metadata_entry : Map ℕ Value → Entry → Result (ℕ × ℕ)
  unfolding number field semantic_id bytes_of scalar_uint
  decode_metadata_entry type_details e = do
    type_id ← of_option state_type (number e.key)
    details ← of_option state_type (lookup type_id type_details)
    sem_value ← of_option state_type (field "semId" details)
    sem_id ← of_option state_type (semantic_id sem_value)
    raw ← of_option state_type (bytes_of e.value)
    decoded ← as_state_error (decode_semantic sem_id raw)
    amount ← of_option state_type (scalar_uint decoded)
    ok (type_id, amount)

  unfoldable pub decode_metadata_entries : Map ℕ Value → List Entry → Map ℕ ℕ → Result (Map ℕ ℕ)
  unfolding decode_metadata_entry
  decode_metadata_entries type_details [] result = ok result
  decode_metadata_entries type_details (e ∷ es) result = do
    (type_id, amount) ← decode_metadata_entry type_details e
    decode_metadata_entries type_details es (insert type_id amount result)

  unfoldable pub decode_transition_metadata : Value → Value → Result (Map ℕ ℕ)
  unfolding decode_metadata_entries map_by_number_field field entries
  decode_transition_metadata schema transition = do
    type_details ← map_by_number_field schema "metaTypes"
    metadata_value ← of_option schema_conformance (field "metadata" transition)
    actual ← of_option schema_conformance (entries metadata_value)
    decode_metadata_entries type_details actual []

-- The opout that an input names.
unfoldable pub input_opout : Value → Option InputRef
unfolding unwrap field bytes_of number
input_opout value =
    let v = unwrap value in
    elim (field "op" v) [
      | none ↦ none
      | some op_value ↦ elim (field "ty" v) [
        | none ↦ none
        | some type_value ↦ elim (field "no" v) [
          | none ↦ none
          | some index_value ↦ elim (bytes_of op_value) [
            | none ↦ none
            | some op ↦ elim (number type_value) [
              | none ↦ none
              | some assignment_type ↦ elim (number index_value) [
                | none ↦ none
                | some index ↦
                    (if length op == 32 && leb index max_uint16
                      then some (record {
                        operation_id = op;
                        assignment_type = assignment_type;
                        index = index;
                      })
                      else none)
              ]
            ]
          ]
        ]
      ]
    ]

pub record InputsState : Type 0 where
  pub counts : Map ℕ ℕ
  pub amounts : Map ℕ ℕ
  pub content : Map ℕ (List ByteString)
  pub inputs : ℕ

-- The amounts are summed with the overflow check of the source.
unfoldable pub add_input : ℕ → ResolvedInput → InputsState → Result InputsState
add_input id state acc =
    let counted : InputsState = record acc {
      counts = insert id ((count_of id acc.counts + 1) % 2 ^ 64) acc.counts;
      inputs = acc.inputs + 1;
    } in
    if str_eq state.class "fungible"
    then (if ltb (max_uint64 - count_of id acc.amounts) state.amount
        then err state_type
        else ok (record counted {
          amounts = insert id ((count_of id acc.amounts + state.amount) % 2 ^ 64) acc.amounts;
        }))
    else if str_eq state.class "structured"
    then ok (record counted {
      content = insert id (values_of id acc.content ++ (state.content ∷ [])) acc.content;
    })
    else ok counted

abbrev pub Resolver : Type 0
Resolver = InputRef → Result ResolvedInput

abbrev pub as_unresolved {ℓ} : {A : Type ℓ} → Result A → Result A
as_unresolved (ok a) = ok a
as_unresolved (err e) = err input_unresolved

unfoldable pub resolve_input :
    Map ℕ Occurrence → Map ℕ Value → Resolver → Value → Result (ℕ × ResolvedInput)
unfolding input_opout field unwrap
resolve_input constraints owned_details resolver input = do
  ref ← of_option schema_conformance (input_opout input)
  guard (is_declared (lookup ref.assignment_type constraints)) schema_conformance
  details ← of_option schema_conformance (lookup ref.assignment_type owned_details)
  schema_value ← of_option schema_conformance (field "ownedStateSchema" details)
  guard (kind_eq (kind (unwrap schema_value)) Kind.union) schema_conformance
  state ← as_unresolved (resolver ref)
  guard (str_eq state.class (attributes (unwrap schema_value)).name) state_type
  ok (ref.assignment_type, state)

unfoldable pub validate_inputs :
    Map ℕ Occurrence → Map ℕ Value → Resolver → List Value → InputsState → Result InputsState
unfolding resolve_input add_input
validate_inputs constraints owned_details resolver [] acc = ok acc
validate_inputs constraints owned_details resolver (input ∷ rest) acc = do
  (id, state) ← resolve_input constraints owned_details resolver input
  acc' ← add_input id state acc
  validate_inputs constraints owned_details resolver rest acc'

abbrev pub no_inputs : InputsState
no_inputs = record { counts = []; amounts = []; content = []; inputs = 0 }

pub record TransitionValidation : Type 0 where
  pub operation_id : ByteString
  pub kind : AssetKind
  pub transition_type : ℕ
  pub inputs : InputsState
  pub outputs : Owned
  pub assignments : ℕ

-- The transition type, and what the schema declares for it; the contract is that of the context.
unfoldable pub declared_transition : Value → Value → ByteString → Result (ℕ × Value)
unfolding map_by_number_field field bytes_of number
declared_transition schema transition expected_id = do
  contract_value ← of_option schema_conformance (field "contractId" transition)
  contract_id ← of_option schema_conformance (bytes_of contract_value)
  guard (length contract_id == 32 && bytes_eq contract_id expected_id) schema_conformance
  type_value ← of_option schema_conformance (field "transitionType" transition)
  type_id ← of_option schema_conformance (number type_value)
  transition_details ← map_by_number_field schema "transitions"
  details ← of_option schema_conformance (lookup type_id transition_details)
  transition_schema ← of_option schema_conformance (field "transitionSchema" details)
  ok (type_id, transition_schema)

-- All inputs, resolved and counted.
unfoldable pub resolve_inputs : Value → Value → Value → Resolver → Result InputsState
unfolding map_by_number_field occurrence_map validate_inputs enforce_occurrences field sequence
resolve_inputs schema transition_schema transition resolver = do
  constraints ← occurrence_map transition_schema "inputs"
  owned_details ← map_by_number_field schema "ownedTypes"
  inputs_value ← of_option schema_conformance (field "inputs" transition)
  inputs ← of_option schema_conformance (sequence inputs_value)
  resolved ← validate_inputs constraints owned_details resolver inputs no_inputs
  enforce_occurrences constraints resolved.counts
  ok resolved

-- The checks of a declared transition, from its metadata to its script.
unfoldable pub check_transition :
    Services
    → AssetKind
    → ByteString
    → (ByteString → ByteString → Result Value)
    → Value
    → ℕ
    → Value
    → Value
    → TransitionContext
    → Resolver
    → Result TransitionValidation
unfolding validate_metadata decode_transition_metadata validate_globals validate_assignments
    resolve_inputs validate_transition_script
check_transition services kind operation_id decode_semantic schema type_id transition_schema
      transition context resolver =
    do
      validate_metadata decode_semantic schema transition_schema transition
      metadata ← decode_transition_metadata decode_semantic schema transition
      (globals, _) ← validate_globals decode_semantic schema transition_schema transition
      (outputs, assignments) ←
          validate_assignments decode_semantic schema transition_schema transition
      resolved ← resolve_inputs schema transition_schema transition resolver
      validate_transition_script services kind (record {
        transition_type = type_id;
        transition = transition;
        operation_id = operation_id;
        context = context;
        metadata = metadata;
        globals = globals;
        input_counts = resolved.counts;
        input_amounts = resolved.amounts;
        input_data = resolved.content;
        outputs = outputs;
      })
      ok (record {
        operation_id = operation_id;
        kind = kind;
        transition_type = type_id;
        inputs = resolved;
        outputs = outputs;
        assignments = assignments;
      })

-- The report of an accepted transition. On an error the source returns a partial report beside
-- it, which no caller reads.
unfoldable pub validate_transition :
    Services
    → Value
    → Value
    → Value
    → TransitionContext
    → Option Resolver
    → Result TransitionValidation
unfolding declared_transition check_transition
validate_transition services schema type_system transition context optional_resolver = do
  resolver ← of_option input_unresolved optional_resolver
  kind ← services.schema_kind schema
  operation_id ← services.commit_transition transition
  (type_id, transition_schema) ← declared_transition schema transition context.contract_id
  decode_semantic ← as_state_error (services.add_type_system type_system)
  check_transition services kind operation_id decode_semantic schema type_id transition_schema
      transition context resolver

pub record GenesisValidation : Type 0 where
  pub kind : AssetKind
  pub global_states : ℕ
  pub assignments : ℕ
  pub owned : Owned

unfoldable pub validate_genesis : Services → Value → Value → Value → Result GenesisValidation
unfolding validate_metadata validate_globals validate_assignments validate_genesis_script field
validate_genesis services schema type_system genesis = do
  kind ← services.schema_kind schema
  decode_semantic ← as_state_error (services.add_type_system type_system)
  genesis_schema ← of_option schema_conformance (field "genesis" schema)
  validate_metadata decode_semantic schema genesis_schema genesis
  (globals, count) ← validate_globals decode_semantic schema genesis_schema genesis
  (owned, assignments) ← validate_assignments decode_semantic schema genesis_schema genesis
  validate_genesis_script kind globals owned
  ok (record { kind = kind; global_states = count; assignments = assignments; owned = owned })
