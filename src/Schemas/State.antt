-- ===== src/Schemas/State.antt =====
-- `validateMetadata`, `validateGlobals` and `oneGlobalAmount` of schemas/validate.go.
use rgb.Prelude.{
  ℕ, ◌+◌, Bool, true, false, Option, none, some, List, [], ◌∷◌, ◌++◌, length, Result, ok, err,
  schema_conformance, state_type, schema_script, ◌>>=◌, ◌>>◌, guard, of_option,
}
use rgb.Prelude.Bytes.{ByteString}
use rgb.Prelude.Keyed.{Map, lookup, insert, contains, nat_eq}
use rgb.StrictTypes.Value.{Value, Entry, field, unwrap, bytes_of}
use rgb.StrictTypes.Numbers.{number, scalar_uint, entries, sequence, semantic_id}
use rgb.Schemas.Types.{Occurrence, DecodedGlobal}
use rgb.Schemas.Access.{as_state_error, map_by_number_field, occurrence_map, enforce_occurrences}

abbrev pub is_declared {ℓ} : {V : Type ℓ} → Option V → Bool
is_declared none = false
is_declared (some v) = true

unfoldable pub allowed_types : List Value → Result (List ℕ)
unfolding number
allowed_types [] = ok []
allowed_types (item ∷ rest) = do
  id ← of_option schema_conformance (number item)
  ids ← allowed_types rest
  ok (id ∷ ids)

abbrev pub Globals : Type 0
Globals = Map ℕ (List DecodedGlobal)

-- `globals[id]`, with Go's nil slice for an absent id.
abbrev pub values_of {ℓ} : {V : Type ℓ} → ℕ → Map ℕ (List V) → List V
values_of id m = elim (lookup id m) [ none ↦ [] | some vs ↦ vs ]

abbrev pub append_global : ℕ → DecodedGlobal → Globals → Globals
append_global id g result = insert id (values_of id result ++ (g ∷ [])) result

-- The registry of one consignment: a semantic id and a payload give a value.
module _ (decode_semantic : ByteString → ByteString → Result Value) where
  unfoldable pub validate_metadata_entry : List ℕ → Map ℕ Value → Entry → Result (Unit {0})
  unfolding number field semantic_id bytes_of
  validate_metadata_entry allowed type_details e = do
    id ← of_option schema_conformance (number e.key)
    guard (contains allowed id) schema_conformance
    details ← of_option schema_conformance (lookup id type_details)
    sem_value ← of_option schema_conformance (field "semId" details)
    sem_id ← of_option state_type (semantic_id sem_value)
    raw ← of_option state_type (bytes_of e.value)
    decoded ← as_state_error (decode_semantic sem_id raw)
    ok tt

  unfoldable pub validate_metadata_entries : List ℕ → Map ℕ Value → List Entry → Result (Unit {0})
  unfolding validate_metadata_entry
  validate_metadata_entries allowed type_details [] = ok tt
  validate_metadata_entries allowed type_details (e ∷ es) = do
    validate_metadata_entry allowed type_details e
    validate_metadata_entries allowed type_details es

  unfoldable pub validate_metadata : Value → Value → Value → Result (Unit {0})
  unfolding allowed_types map_by_number_field validate_metadata_entries field entries sequence
  validate_metadata schema operation_schema operation = do
    allowed_value ← of_option schema_conformance (field "metadata" operation_schema)
    allowed_items ← of_option schema_conformance (sequence allowed_value)
    allowed ← allowed_types allowed_items
    type_details ← map_by_number_field schema "metaTypes"
    actual_value ← of_option schema_conformance (field "metadata" operation)
    actual ← of_option schema_conformance (entries actual_value)
    validate_metadata_entries allowed type_details actual

  -- The states of one global type, decoded and appended one by one.
  unfoldable pub decode_states : ℕ → ByteString → List Value → Globals → ℕ → Result (Globals × ℕ)
  unfolding bytes_of
  decode_states id sem_id [] result total = ok (result, total)
  decode_states id sem_id (state ∷ rest) result total = do
    raw ← of_option state_type (bytes_of state)
    decoded ← as_state_error (decode_semantic sem_id raw)
    decode_states id sem_id rest (append_global id (record { raw = raw; decoded = decoded }) result)
        (total + 1)

  unfoldable pub validate_globals_entry :
      Map ℕ Occurrence → Map ℕ Value → Entry → Globals → ℕ → Result (Globals × ℕ × ℕ × ℕ)
  unfolding decode_states number field unwrap semantic_id sequence
  validate_globals_entry constraints type_details e result total = do
    id ← of_option schema_conformance (number e.key)
    guard (is_declared (lookup id constraints)) schema_conformance
    details ← of_option schema_conformance (lookup id type_details)
    state_schema ← of_option schema_conformance (field "globalStateSchema" details)
    sem_value ← of_option schema_conformance (field "semId" (unwrap state_schema))
    sem_id ← of_option schema_conformance (semantic_id sem_value)
    states ← of_option schema_conformance (sequence e.value)
    (result', total') ← decode_states id sem_id states result total
    ok (result', total', id, length states)

  unfoldable pub validate_globals_entries :
      Map ℕ Occurrence
      → Map ℕ Value
      → List Entry
      → Globals
      → Map ℕ ℕ
      → ℕ
      → Result (Globals × Map ℕ ℕ × ℕ)
  unfolding validate_globals_entry
  validate_globals_entries constraints type_details [] result counts total =
      ok (result, counts, total)
  validate_globals_entries constraints type_details (e ∷ es) result counts total = do
    (result', total', id, count) ← validate_globals_entry constraints type_details e result total
    validate_globals_entries constraints type_details es result' (insert id count counts) total'

  unfoldable pub validate_globals : Value → Value → Value → Result (Globals × ℕ)
  unfolding map_by_number_field occurrence_map validate_globals_entries enforce_occurrences field
      entries
  validate_globals schema operation_schema operation = do
    type_details ← map_by_number_field schema "globalTypes"
    constraints ← occurrence_map operation_schema "globals"
    actual_value ← of_option schema_conformance (field "globals" operation)
    actual ← of_option schema_conformance (entries actual_value)
    (result, counts, total) ← validate_globals_entries constraints type_details actual [] [] 0
    enforce_occurrences constraints counts
    ok (result, total)

unfoldable pub one_amount : List DecodedGlobal → Result ℕ
unfolding scalar_uint
one_amount [] = err schema_script
one_amount (g ∷ []) = of_option schema_script (scalar_uint g.decoded)
one_amount (g ∷ h ∷ rest) = err schema_script

unfoldable pub one_global_amount : Globals → ℕ → Result ℕ
unfolding one_amount
one_global_amount globals type_id = one_amount (values_of type_id globals)
