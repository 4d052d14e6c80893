-- ===== src/Schemas/Owned.antt =====
-- `validateAssignments` of schemas/validate.go.
use rgb.Prelude.{
  ℕ, ◌+◌, ◌-◌, ◌%◌, ◌^◌, Bool, true, ◌&&◌, Option, none, some, List, [], ◌∷◌, ◌++◌, length, ltb,
  ◌==◌, if◌then◌else◌, Result, ok, err, String, str_eq, schema_conformance, state_type, ◌>>=◌, ◌>>◌,
  guard, of_option,
}
use rgb.Prelude.Bytes.{ByteString}
use rgb.Prelude.Keyed.{Map, lookup, insert, nat_eq}
use rgb.StrictTypes.Value.{
  Value, Entry, Kind, kind_eq, kind, attributes, inner, pointee, field, unwrap, bytes_of,
}
use rgb.StrictTypes.Numbers.{number, fungible_amount, entries, sequence, semantic_id}
use rgb.Schemas.Types.{Occurrence, DecodedOwned, max_uint64}
use rgb.Schemas.Access.{as_state_error, map_by_number_field, occurrence_map, enforce_occurrences}
use rgb.Schemas.State.{is_declared}

-- The state value of one assignment, revealed or confidential.
unfoldable pub state_value : Value → Result Value
unfolding unwrap field
state_value assignment = do
  let a = unwrap assignment
  guard (kind_eq (kind a) Kind.union) schema_conformance
  body ← of_option schema_conformance (pointee (inner a))
  of_option schema_conformance (field "state" (unwrap body))

-- `math.MaxUint64-state.sum < amount` is refused, so the uint64 sum does not wrap round.
unfoldable pub add_amount : DecodedOwned → Option ℕ → Result DecodedOwned
add_amount state none = err state_type
add_amount state (some amount) =
    if ltb (max_uint64 - state.sum) amount
    then err state_type
    else ok (record state { sum = (state.sum + amount) % 2 ^ 64 })

module _ (decode_semantic : ByteString → ByteString → Result Value) where
  unfoldable pub add_structured :
      ByteString → DecodedOwned → Option ByteString → Result DecodedOwned
  add_structured sem_id state none = err state_type
  add_structured sem_id state (some raw) = do
    decoded ← as_state_error (decode_semantic sem_id raw)
    ok (record state { raw = state.raw ++ (raw ∷ []) })

  -- The switch on the state class.
  unfoldable pub validate_state : String → ByteString → DecodedOwned → Value → Result DecodedOwned
  unfolding add_amount add_structured fungible_amount bytes_of unwrap
  validate_state class sem_id state value =
      if str_eq class "declarative"
      then (if kind_eq (kind (unwrap value)) Kind.unit then ok state else err state_type)
      else if str_eq class "fungible"
      then add_amount state (fungible_amount value)
      else if str_eq class "structured"
      then add_structured sem_id state (bytes_of value)
      else err schema_conformance

  unfoldable pub validate_assignment_list :
      String → ByteString → List Value → DecodedOwned → ℕ → Result (DecodedOwned × ℕ)
  unfolding state_value validate_state
  validate_assignment_list class sem_id [] state total = ok (state, total)
  validate_assignment_list class sem_id (assignment ∷ rest) state total = do
    value ← state_value assignment
    state' ← validate_state class sem_id state value
    validate_assignment_list class sem_id rest state' (total + 1)

  -- The semantic id of structured state; the other classes have none, Go's empty string.
  unfoldable pub structured_sem_id : String → Value → Result ByteString
  unfolding semantic_id
  structured_sem_id class schema_inner =
      if str_eq class "structured"
      then of_option schema_conformance (semantic_id schema_inner)
      else ok []

  unfoldable pub fungible_supported : String → Value → Bool
  unfolding unwrap
  fungible_supported class schema_inner =
      if str_eq class "fungible"
      then kind_eq (kind (unwrap schema_inner)) Kind.enum
        && (attributes (unwrap schema_inner)).tag == 8
      else true

  unfoldable pub validate_assignments_entry :
      Map ℕ Occurrence → Map ℕ Value → Entry → ℕ → Result (ℕ × ℕ × DecodedOwned × ℕ)
  unfolding validate_assignment_list structured_sem_id fungible_supported number field unwrap
      sequence
  validate_assignments_entry constraints type_details e total = do
    id ← of_option schema_conformance (number e.key)
    guard (is_declared (lookup id constraints)) schema_conformance
    details ← of_option schema_conformance (lookup id type_details)
    schema_value ← of_option schema_conformance (field "ownedStateSchema" details)
    let owned_schema = unwrap schema_value
    let typed = unwrap e.value
    let class = (attributes typed).name
    guard
        ((kind_eq (kind owned_schema) Kind.union && kind_eq (kind typed) Kind.union)
          && str_eq (attributes owned_schema).name class)
        schema_conformance
    schema_inner ← of_option schema_conformance (pointee (inner owned_schema))
    typed_inner ← of_option schema_conformance (pointee (inner typed))
    assignments ← of_option schema_conformance (sequence typed_inner)
    sem_id ← structured_sem_id class schema_inner
    guard (fungible_supported class schema_inner) schema_conformance
    let start : DecodedOwned = record {
      kind = class;
      fungible = str_eq class "fungible";
      count = length assignments;
      sum = 0;
      raw = [];
    }
    (state, total') ← validate_assignment_list class sem_id assignments start total
    ok (id, length assignments, state, total')

  unfoldable pub validate_assignments_entries :
      Map ℕ Occurrence
      → Map ℕ Value
      → List Entry
      → Map ℕ DecodedOwned
      → Map ℕ ℕ
      → ℕ
      → Result (Map ℕ DecodedOwned × Map ℕ ℕ × ℕ)
  unfolding validate_assignments_entry
  validate_assignments_entries constraints type_details [] result counts total =
      ok (result, counts, total)
  validate_assignments_entries constraints type_details (e ∷ es) result counts total = do
    (id, count, state, total') ← validate_assignments_entry constraints type_details e total
    validate_assignments_entries constraints type_details es (insert id state result)
        (insert id count counts) total'

  unfoldable pub validate_assignments : Value → Value → Value → Result (Map ℕ DecodedOwned × ℕ)
  unfolding map_by_number_field occurrence_map validate_assignments_entries enforce_occurrences
      field entries
  validate_assignments schema operation_schema operation = do
    type_details ← map_by_number_field schema "ownedTypes"
    constraints ← occurrence_map operation_schema "assignments"
    actual_value ← of_option schema_conformance (field "assignments" operation)
    actual ← of_option schema_conformance (entries actual_value)
    (result, counts, total) ← validate_assignments_entries constraints type_details actual [] [] 0
    enforce_occurrences constraints counts
    ok (result, total)
