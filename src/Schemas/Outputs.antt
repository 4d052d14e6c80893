-- ===== src/Schemas/Outputs.antt =====
-- schemas/outputs.go: the disclosed outputs of an operation.
use rgb.Prelude.{
  ℕ, ◌+◌, ◌%◌, ◌^◌, ◌&&◌, Option, none, some, List, [], ◌∷◌, ◌++◌, length, leb, if◌then◌else◌,
  Result, ok, err, String, str_eq, schema_conformance, state_type, ◌>>=◌, ◌>>◌, guard, of_option,
}
use rgb.StrictTypes.Value.{
  Value, Entry, Kind, kind_eq, kind, attributes, inner, pointee, field, unwrap, bytes_of,
}
use rgb.StrictTypes.Numbers.{number, fungible_amount, entries, sequence}
use rgb.Schemas.Types.{ResolvedInput, max_uint16}

pub record RevealedOutput : Type 0 where
  pub assignment_type : ℕ
  pub index : ℕ
  pub state : ResolvedInput
  pub seal : Value

unfoldable pub resolved_state : String → Value → Result ResolvedInput
unfolding unwrap fungible_amount bytes_of
resolved_state class value =
    if str_eq class "declarative"
    then (if kind_eq (kind (unwrap value)) Kind.unit
        then ok (record { class = class; amount = 0; content = [] })
        else err state_type)
    else if str_eq class "fungible"
    then (of_option state_type (fungible_amount value) >>= λ amount.
        ok (record { class = class; amount = amount; content = [] }))
    else if str_eq class "structured"
    then (of_option state_type (bytes_of value) >>= λ raw.
        ok (record { class = class; amount = 0; content = raw }))
    else err schema_conformance

-- The body of a revealed assignment; any other assignment is passed over.
unfoldable pub revealed_body : Value → Option Value
unfolding unwrap
revealed_body value =
    let v = unwrap value in
    if kind_eq (kind v) Kind.union && str_eq (attributes v).name "revealed"
    then pointee (inner v)
    else none

unfoldable pub revealed_output : ℕ → String → ℕ → Value → Result RevealedOutput
unfolding resolved_state unwrap field
revealed_output assignment_type class index body = do
  seal ← of_option schema_conformance (field "seal" (unwrap body))
  state_value ← of_option schema_conformance (field "state" (unwrap body))
  state ← resolved_state class state_value
  ok (record {
    assignment_type = assignment_type;
    index = index % 2 ^ 16;
    state = state;
    seal = seal;
  })

unfoldable pub prepend_revealed :
    ℕ → String → ℕ → Option Value → Result (List RevealedOutput) → Result (List RevealedOutput)
unfolding revealed_output
prepend_revealed assignment_type class index none later = later
prepend_revealed assignment_type class index (some body) later = do
  output ← revealed_output assignment_type class index body
  outputs ← later
  ok (output ∷ outputs)

-- The outputs of one entry, from the assignment at `index` on.
unfoldable pub revealed_items : ℕ → String → ℕ → List Value → Result (List RevealedOutput)
unfolding prepend_revealed revealed_body
revealed_items assignment_type class index [] = ok []
revealed_items assignment_type class index (item ∷ rest) =
    prepend_revealed assignment_type class index (revealed_body item)
      (revealed_items assignment_type class (index + 1) rest)

unfoldable pub revealed_entry : Entry → Result (List RevealedOutput)
unfolding revealed_items number unwrap sequence
revealed_entry e = do
  assignment_type ← of_option schema_conformance (number e.key)
  let typed = unwrap e.value
  guard (kind_eq (kind typed) Kind.union) schema_conformance
  typed_inner ← of_option schema_conformance (pointee (inner typed))
  items ← of_option schema_conformance (sequence typed_inner)
  guard (leb (length items) (max_uint16 + 1)) schema_conformance
  revealed_items assignment_type (attributes typed).name 0 items

unfoldable pub revealed_entries : List Entry → Result (List RevealedOutput)
unfolding revealed_entry
revealed_entries [] = ok []
revealed_entries (e ∷ es) = do
  here ← revealed_entry e
  later ← revealed_entries es
  ok (here ++ later)

unfoldable pub revealed_outputs : Value → Result (List RevealedOutput)
unfolding revealed_entries field entries
revealed_outputs operation = do
  assignments_value ← of_option schema_conformance (field "assignments" operation)
  listed ← of_option schema_conformance (entries assignments_value)
  revealed_entries listed
