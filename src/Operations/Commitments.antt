-- ===== src/Operations/Commitments.antt =====
-- `CommitGenesis` of operations/genesis.go and `CommitTransition` of operations/transition.go: the
-- identifier of an operation is a tagged hash over its fields and the roots of its parts.
use rgb.Prelude.{
  List, [], ◌∷◌, ◌++◌, map, not, ◌==◌, length, Result, ok, invalid_genesis, invalid_transition,
  recast, guard, of_option, ◌>>=◌, ◌>>◌, String,
}
use rgb.Prelude.Bytes.{ByteString}
use rgb.Consensus.TaggedHash.{Hash, tagged_hash}
use rgb.Consensus.Merkle.{strict_value_hash, merkle_leaf_hash, merkle_root}
use rgb.StrictTypes.Value.{Value, Entry, Kind, kind_eq, kind, unwrap}
use rgb.Operations.Fields.{encoded, required_field, transition_field, as_map, as_list, union_inner}
use rgb.Operations.Secrets.{name_of, assignment_secret}

abbrev pub operation_tag : String
operation_tag = "urn:lnp-bp:rgb:operation#2024-02-03"

unfoldable pub state_leaves : Hash → Value → List Value → List ByteString
unfolding merkle_leaf_hash
state_leaves sha256 key states =
    map (λ state. merkle_leaf_hash sha256 (encoded key ++ encoded state)) states

unfoldable pub global_leaves : Hash → List Entry → Result (List ByteString)
unfolding as_list state_leaves
global_leaves sha256 [] = ok []
global_leaves sha256 (e ∷ es) = do
  states ← of_option invalid_genesis (as_list e.value)
  rest ← global_leaves sha256 es
  ok (state_leaves sha256 e.key states ++ rest)

unfoldable pub commit_globals : Hash → Value → Result ByteString
unfolding as_map global_leaves merkle_root
commit_globals sha256 value = do
  entries ← of_option invalid_genesis (as_map value)
  leaves ← global_leaves sha256 entries
  ok (merkle_root sha256 leaves)

unfoldable pub assignment_leaf : Hash → Value → Value → Result ByteString
unfolding unwrap union_inner required_field assignment_secret merkle_leaf_hash
assignment_leaf sha256 key assignment = do
  body ← of_option invalid_genesis (union_inner (unwrap assignment))
  seal_value ← required_field (unwrap body) "seal"
  state ← required_field (unwrap body) "state"
  secret ← assignment_secret sha256 (name_of (unwrap assignment)) seal_value
  ok (merkle_leaf_hash sha256 ((encoded key ++ encoded state) ++ secret))

unfoldable pub item_leaves : Hash → Value → List Value → Result (List ByteString)
unfolding assignment_leaf
item_leaves sha256 key [] = ok []
item_leaves sha256 key (assignment ∷ rest) = do
  leaf ← assignment_leaf sha256 key assignment
  leaves ← item_leaves sha256 key rest
  ok (leaf ∷ leaves)

unfoldable pub assignment_leaves : Hash → List Entry → Result (List ByteString)
unfolding unwrap union_inner as_list item_leaves
assignment_leaves sha256 [] = ok []
assignment_leaves sha256 (e ∷ es) = do
  list ← of_option invalid_genesis (union_inner (unwrap e.value))
  assigns ← of_option invalid_genesis (as_list list)
  leaves ← item_leaves sha256 e.key assigns
  rest ← assignment_leaves sha256 es
  ok (leaves ++ rest)

unfoldable pub commit_assignments : Hash → Value → Result ByteString
unfolding as_map assignment_leaves merkle_root
commit_assignments sha256 value = do
  entries ← of_option invalid_genesis (as_map value)
  leaves ← assignment_leaves sha256 entries
  ok (merkle_root sha256 leaves)

unfoldable pub input_leaves : Hash → List Value → Result (List ByteString)
unfolding merkle_leaf_hash
input_leaves sha256 [] = ok []
input_leaves sha256 (input ∷ rest) = do
  guard (not (length (encoded input) == 0)) invalid_transition
  leaves ← input_leaves sha256 rest
  ok (merkle_leaf_hash sha256 (encoded input) ∷ leaves)

unfoldable pub commit_inputs : Hash → Value → Result ByteString
unfolding as_list input_leaves merkle_root
commit_inputs sha256 value = do
  inputs ← of_option invalid_transition (as_list value)
  guard (not (length inputs == 0)) invalid_transition
  leaves ← input_leaves sha256 inputs
  ok (merkle_root sha256 leaves)

pub record TransitionCommitment : Type 0 where
  pub metadata_hash : ByteString
  pub globals_root : ByteString
  pub inputs_root : ByteString
  pub assignments_root : ByteString
  pub operation_id : ByteString

pub record TransitionFields : Type 0 where
  pub ffv : Value
  pub contract_id : Value
  pub nonce : Value
  pub transition_type : Value
  pub metadata : Value
  pub globals : Value
  pub inputs : Value
  pub assignments : Value

unfoldable pub transition_fields : Value → Result TransitionFields
unfolding transition_field
transition_fields value = do
  ffv ← transition_field value "ffv"
  contract_id ← transition_field value "contractId"
  nonce ← transition_field value "nonce"
  transition_type ← transition_field value "transitionType"
  metadata ← transition_field value "metadata"
  globals ← transition_field value "globals"
  inputs ← transition_field value "inputs"
  assignments ← transition_field value "assignments"
  ok (record {
    ffv = ffv;
    contract_id = contract_id;
    nonce = nonce;
    transition_type = transition_type;
    metadata = metadata;
    globals = globals;
    inputs = inputs;
    assignments = assignments;
  })

-- The fields in front of the four digests; 1 is TypeCommitment::Transition.
abbrev pub transition_prefix : TransitionFields → ByteString
transition_prefix f =
    encoded f.ffv ++ (encoded f.nonce ++ (1 ∷ encoded f.contract_id ++ encoded f.transition_type))

abbrev pub committed_message :
    ByteString → ByteString → ByteString → ByteString → ByteString → ByteString
committed_message prefix metadata globals inputs assignments =
    prefix ++ (metadata ++ (globals ++ (inputs ++ assignments)))

unfoldable pub commit_transition : Hash → Value → Result TransitionCommitment
unfolding transition_fields strict_value_hash commit_globals commit_inputs commit_assignments
    tagged_hash
commit_transition sha256 value = do
  guard (kind_eq (kind value) Kind.struct) invalid_transition
  f ← transition_fields value
  let metadata = strict_value_hash sha256 (encoded f.metadata)
  globals ← recast invalid_transition (commit_globals sha256 f.globals)
  inputs ← commit_inputs sha256 f.inputs
  assignments ← recast invalid_transition (commit_assignments sha256 f.assignments)
  ok (record {
    metadata_hash = metadata;
    globals_root = globals;
    inputs_root = inputs;
    assignments_root = assignments;
    operation_id =
        tagged_hash sha256 operation_tag
          (committed_message (transition_prefix f) metadata globals inputs assignments ∷ []);
  })
