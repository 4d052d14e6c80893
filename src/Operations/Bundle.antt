-- ===== src/Operations/Bundle.antt =====
-- `CommitBundle` of operations/bundle.go. The commitment of transitions and the tagged hash are
-- parameters.
use rgb.Prelude.{
  not, ◌&&◌, List, [], ◌∷◌, ◌==◌, length, if◌then◌else◌, Result, ok, invalid_bundle,
  transition_id_mismatch, unrelated_transition, ◌>>=◌, ◌>>◌, guard, of_option,
}
use rgb.Prelude.Bytes.{ByteString, bytes_eq}
use rgb.Prelude.Keyed.{contains, bytes_eq_instance}
use rgb.StrictTypes.Value.{
  Value, Entry, Kind, kind_eq, kind, attributes, field, unwrap, bytes_of, items, entries_of,
}

pub record BundleCommitment : Type 0 where
  pub bundle_id : ByteString
  -- a set: no identifier twice
  pub input_operations : List ByteString
  pub transitions : List Value

unfoldable pub add_operation : ByteString → List ByteString → List ByteString
unfolding contains
add_operation id ids = if contains ids id then ids else id ∷ ids

unfoldable pub input_operations_of : List Entry → List ByteString → Result (List ByteString)
unfolding bytes_of add_operation
input_operations_of [] found = ok found
input_operations_of (e ∷ es) found = do
  opid ← of_option invalid_bundle (bytes_of e.value)
  guard (length opid == 32) invalid_bundle
  input_operations_of es (add_operation opid found)

module _ (commit_transition : Value → Result ByteString) where
  -- A disclosure names the identifier that its transition commits to, and the input map has it.
  unfoldable pub known_transition : List ByteString → Value → Result Value
  unfolding field unwrap bytes_of bytes_eq contains
  known_transition operations item = do
    declared ← of_option invalid_bundle (field "opid" (unwrap item))
    transition ← of_option invalid_bundle (field "transition" (unwrap item))
    declared_bytes ← of_option invalid_bundle (bytes_of declared)
    guard (length declared_bytes == 32) invalid_bundle
    operation_id ← commit_transition transition
    guard (bytes_eq declared_bytes operation_id) transition_id_mismatch
    guard (contains operations operation_id) unrelated_transition
    ok transition

  unfoldable pub known_transitions : List ByteString → List Value → Result (List Value)
  unfolding known_transition
  known_transitions operations [] = ok []
  known_transitions operations (item ∷ rest) = do
    transition ← known_transition operations item
    later ← known_transitions operations rest
    ok (transition ∷ later)

  -- The entries are those of the field itself, which is not unwrapped there.
  unfoldable pub commit_bundle : (ByteString → ByteString) → Value → Result BundleCommitment
  unfolding input_operations_of known_transitions field unwrap
  commit_bundle bundle_hash value = do
    let w = unwrap value
    guard (kind_eq (kind w) Kind.struct) invalid_bundle
    input_map ← of_option invalid_bundle (field "inputMap" w)
    guard
        (kind_eq (kind (unwrap input_map)) Kind.map
          && not (length (entries_of (unwrap input_map)) == 0))
        invalid_bundle
    known ← of_option invalid_bundle (field "knownTransitions" w)
    guard (kind_eq (kind (unwrap known)) Kind.list && not (length (items (unwrap known)) == 0))
        invalid_bundle
    operations ← input_operations_of (entries_of input_map) []
    transitions ← known_transitions operations (items (unwrap known))
    ok (record {
      bundle_id = bundle_hash (attributes input_map).encoded;
      input_operations = operations;
      transitions = transitions;
    })
