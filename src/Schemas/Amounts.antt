-- ===== src/Schemas/Amounts.antt =====
-- The amounts that an operation assigns, as plain sums of natural numbers, against the checked
-- uint64 sums of schemas/validate.go and the disclosed outputs of schemas/outputs.go.
use rgb.Prelude.{
  ℕ, ◌+◌, ◌≤◌, ◌≡◌, refl, Bool, true, false, Option, none, some, List, [], ◌∷◌, ◌==◌, if◌then◌else◌,
  Result, ok, err, String, str_eq, eq_iff, ◌>>=◌, >>=-eq_ok, of_option-eq_ok, guard-eq_ok, arith,
}
use rgb.Prelude.Bytes.{ByteString}
use rgb.Prelude.Keyed.{Map, lookup, insert, nat_eq, lookup-insert}
use rgb.StrictTypes.Value.{
  Value, Entry, Kind, kind_eq, attributes, inner, pointee, kind, unwrap, field,
}
use rgb.StrictTypes.Numbers.{number, fungible_amount, sequence}
use rgb.Schemas.Types.{Occurrence, DecodedOwned, max_uint64}
use rgb.Schemas.Owned.{
  state_value, validate_state, validate_assignment_list, fungible_supported, structured_sem_id,
  validate_assignments_entry, validate_assignments_entries,
}
use rgb.Schemas.State.{is_declared}
use mathlib.Core.Bool.{◌&&◌}
use rgb.Schemas.Script.{Owned, sum_of}

abbrev pub amount_or_zero : Option ℕ → ℕ
amount_or_zero none = 0
amount_or_zero (some n) = n

abbrev pub ok_or {ℓ} : {A : Type ℓ} → A → Result A → A
ok_or d (ok a) = a
ok_or d (err e) = d

-- The amount of one assignment, revealed or confidential; 0 if there is none.
abbrev pub assignment_amount : Value → ℕ
assignment_amount a = ok_or 0 (state_value a >>= λ v. ok (amount_or_zero (fungible_amount v)))

abbrev pub list_amount : List Value → ℕ
list_amount [] = 0
list_amount (a ∷ rest) = assignment_amount a + list_amount rest

abbrev pub class_amount : String → List Value → ℕ
class_amount class assignments = if str_eq class "fungible" then list_amount assignments else 0

validate_state_sum :
    (decode : ByteString → ByteString → Result Value) (class : String) (sem_id : ByteString)
    (state state' : DecodedOwned) (value : Value)
    → state.sum ≤ max_uint64
    → validate_state decode class sem_id state value ≡ ok state'
    → (state'.sum
        ≡ state.sum
          + (if str_eq class "fungible" then amount_or_zero (fungible_amount value) else 0))
      × (state'.sum ≤ max_uint64)
unfolding validate_state
validate_state_sum decode class sem_id state state' value h e =
    ground (arith, eq_iff class "fungible", eq_iff class "declarative", eq_iff class "structured")

read_amount :
    (a value : Value)
    → state_value a ≡ ok value
    → assignment_amount a ≡ amount_or_zero (fungible_amount value)
read_amount a value read = ground arith

validate_assignment_list_sum :
    (decode : ByteString → ByteString → Result Value) (class : String) (sem_id : ByteString)
    (assignments : List Value) (state state' : DecodedOwned) (total total' : ℕ)
    → state.sum ≤ max_uint64
    → validate_assignment_list decode class sem_id assignments state total ≡ ok (state', total')
    → (state'.sum ≡ state.sum + class_amount class assignments) × (state'.sum ≤ max_uint64)
unfolding validate_assignment_list
validate_assignment_list_sum decode class sem_id [] state state' total total' h e = ground arith
validate_assignment_list_sum decode class sem_id (a ∷ rest) state state' total total' h e =
    let (value, read, e1) = >>=-eq_ok (state_value a) _ e in
    let (next, checked, e2) = >>=-eq_ok (validate_state decode class sem_id state value) _ e1 in
    let (here, bound) = validate_state_sum decode class sem_id state next value h checked in
    let (later, bound') =
      validate_assignment_list_sum decode class sem_id rest next state' (total + 1) total' bound
        e2 in
    let amount : assignment_amount a ≡ amount_or_zero (fungible_amount value) =
      read_amount a value read in
    ground (arith, here, later, amount, bound')

-- The assignments of an entry, and the amount that they hold.
abbrev pub entry_assignments : Entry → List Value
entry_assignments e = elim (pointee (inner (unwrap e.value))) [
  | none ↦ []
  | some body ↦ elim (sequence body) [ none ↦ [] | some listed ↦ listed ]
]

abbrev pub entry_amount : Entry → ℕ
entry_amount e = class_amount (attributes (unwrap e.value)).name (entry_assignments e)

abbrev pub keyed : ℕ → Entry → Bool
keyed t e = elim (number e.key) [ none ↦ false | some id ↦ id == t ]

abbrev pub has_key : ℕ → List Entry → Bool
has_key t [] = false
has_key t (e ∷ es) = if keyed t e then true else has_key t es

-- No two entries have one type, as the decoder of strict maps makes sure.
abbrev pub DistinctKeys : List Entry → Type 0
DistinctKeys [] = Unit
DistinctKeys (e ∷ es) = ((t : ℕ) → keyed t e ≡ true → has_key t es ≡ false) × DistinctKeys es

-- The amount that entries of the type `t` hold.
abbrev pub typed_amount : ℕ → List Entry → ℕ
typed_amount t [] = 0
typed_amount t (e ∷ es) = (if keyed t e then entry_amount e else 0) + typed_amount t es

from_zero :
    (decode : ByteString → ByteString → Result Value) (class : String) (sem_id : ByteString)
    (assignments : List Value) (state state' : DecodedOwned) (total total' : ℕ)
    → validate_assignment_list decode class sem_id assignments state total ≡ ok (state', total')
    → state.sum ≡ 0
    → (state'.sum ≡ class_amount class assignments) × (state'.sum ≤ max_uint64)
from_zero decode class sem_id assignments state state' total total' e h =
    let (sum, bound) =
      validate_assignment_list_sum decode class sem_id assignments state state' total total'
        (omega arith) e in
    omega (arith, sum, bound)

pub read_assignments :
    (e : Entry) (body : Value) (listed : List Value)
    → pointee (inner (unwrap e.value)) ≡ some body
    → sequence body ≡ some listed
    → entry_assignments e ≡ listed
read_assignments e body listed p q = ground arith

entry_sum :
    (decode : ByteString → ByteString → Result Value) (constraints : Map ℕ Occurrence)
    (details : Map ℕ Value) (e : Entry) (total id count total' : ℕ) (state : DecodedOwned)
    → validate_assignments_entry decode constraints details e total ≡ ok (id, count, state, total')
    → (number e.key ≡ some id) × (state.sum ≡ entry_amount e) × (state.sum ≤ max_uint64)
unfolding validate_assignments_entry
entry_sum decode constraints details e total id count total' state h =
    let (id0, key, h1) = of_option-eq_ok _ (number e.key) _ h in
    let (declared, h2) = guard-eq_ok (is_declared (lookup id0 constraints)) _ _ h1 in
    let (detail, found, h3) = of_option-eq_ok _ (lookup id0 details) _ h2 in
    let (schema_value, has_schema, h4) = of_option-eq_ok _ (field "ownedStateSchema" detail) _ h3 in
    let class = (attributes (unwrap e.value)).name in
    let (same_class, h5) =
      guard-eq_ok
        ((kind_eq (kind (unwrap schema_value)) Kind.union
            && kind_eq (kind (unwrap e.value)) Kind.union)
          && str_eq (attributes (unwrap schema_value)).name class)
        _ _ h4 in
    let (schema_inner, has_inner, h6) =
      of_option-eq_ok _ (pointee (inner (unwrap schema_value))) _ h5 in
    let (typed_inner, has_typed, h7) = of_option-eq_ok _ (pointee (inner (unwrap e.value))) _ h6 in
    let (assignments, listed, h8) = of_option-eq_ok _ (sequence typed_inner) _ h7 in
    let (sem_id, sem, h9) =
      >>=-eq_ok (structured_sem_id decode (attributes (unwrap e.value)).name schema_inner) _ h8 in
    let (supported, h10) = guard-eq_ok (fungible_supported decode class schema_inner) _ _ h9 in
    let ((state1, total1), checked, done) =
      >>=-eq_ok
        (validate_assignment_list decode (attributes (unwrap e.value)).name sem_id assignments _
          total)
        _ h10 in
    let (sum, bound) = from_zero decode _ sem_id assignments _ state1 total total1 checked refl in
    finish id id0 _ count state1 state total1 total' assignments key sum bound
      (read_assignments e typed_inner assignments has_typed listed) done
  where
    finish :
        (id id0 n count : ℕ) (state1 state : DecodedOwned) (total1 total' : ℕ)
        (assignments : List Value)
        → number e.key ≡ some id0
        → state1.sum ≡ class_amount (attributes (unwrap e.value)).name assignments
        → state1.sum ≤ max_uint64
        → entry_assignments e ≡ assignments
        → ◌≡◌ {A = Result (ℕ × ℕ × DecodedOwned × ℕ)}
            (ok (id0, n, state1, total1))
            (ok (id, count, state, total'))
        → (number e.key ≡ some id) × (state.sum ≡ entry_amount e) × (state.sum ≤ max_uint64)
    finish id id0 n count state1 state total1 total' assignments key sum bound same done =
        ground arith

pub absent_amount : (t : ℕ) (es : List Entry) → has_key t es ≡ false → typed_amount t es ≡ 0
absent_amount t [] h = refl
absent_amount t (e ∷ es) h = ground (arith, absent_amount t es)

pub entries_sum :
    (decode : ByteString → ByteString → Result Value) (constraints : Map ℕ Occurrence)
    (details : Map ℕ Value) (t : ℕ) (es : List Entry) (result result' : Owned)
    (counts counts' : Map ℕ ℕ) (total total' : ℕ)
    → DistinctKeys es
    → validate_assignments_entries decode constraints details es result counts total
      ≡ ok (result', counts', total')
    → sum_of t result' ≡ (if has_key t es then typed_amount t es else sum_of t result)
unfolding validate_assignments_entries
entries_sum decode constraints details t [] result result' counts counts' total total' d h =
    ground arith
entries_sum decode constraints details t (e ∷ es) result result' counts counts' total total' d h =
    let ((id, count, state, total1), checked, h1) =
      >>=-eq_ok (validate_assignments_entry decode constraints details e total) _ h in
    let (key, sum, _) =
      entry_sum decode constraints details e total id count total1 state checked in
    let later =
      entries_sum decode constraints details t es (insert id state result) result'
        (insert id count counts) counts' total1 total' d.1 h1 in
    ground (arith, later, key, sum, lookup-insert id t state result, d.0 t, absent_amount t es)

pub entries_bound :
    (decode : ByteString → ByteString → Result Value) (constraints : Map ℕ Occurrence)
    (details : Map ℕ Value) (t : ℕ) (es : List Entry) (result result' : Owned)
    (counts counts' : Map ℕ ℕ) (total total' : ℕ)
    → sum_of t result ≤ max_uint64
    → validate_assignments_entries decode constraints details es result counts total
      ≡ ok (result', counts', total')
    → sum_of t result' ≤ max_uint64
unfolding validate_assignments_entries
entries_bound decode constraints details t [] result result' counts counts' total total' b h =
    ground arith
entries_bound decode constraints details t (e ∷ es) result result' counts counts' total total' b h =
    let ((id, count, state, total1), checked, h1) =
      >>=-eq_ok (validate_assignments_entry decode constraints details e total) _ h in
    let (_, _, bound) =
      entry_sum decode constraints details e total id count total1 state checked in
    entries_bound decode constraints details t es (insert id state result) result'
      (insert id count counts) counts' total1 total'
      (ground (arith, lookup-insert id t state result, bound)) h1
