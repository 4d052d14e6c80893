-- ===== src/Schemas/Resolved.antt =====
-- The amounts that a transition's inputs resolve to, as plain sums, against the checked uint64
-- sums of `ValidateTransition`.
use rgb.Prelude.{
  ℕ, ◌+◌, ◌%◌, ◌^◌, ◌≤◌, ◌≡◌, Option, none, some, List, [], ◌∷◌, ◌==◌, if◌then◌else◌, Result, ok,
  err, str_eq, eq_iff, >>=-eq_ok, of_option-eq_ok, guard-eq_ok, arith,
}
use rgb.Prelude.Keyed.{Map, lookup, nat_eq, lookup-insert}
use rgb.StrictTypes.Value.{Value, Kind, kind_eq, kind, attributes, unwrap, field}
use rgb.Schemas.Types.{InputRef, ResolvedInput, Occurrence, max_uint64}
use rgb.Schemas.Access.{count_of}
use rgb.Schemas.State.{is_declared}
use rgb.Schemas.Transition.{
  Resolver, as_unresolved, input_opout, InputsState, add_input, resolve_input, validate_inputs,
}

abbrev pub fungible_part : ResolvedInput → ℕ
fungible_part s = if str_eq s.class "fungible" then s.amount else 0

abbrev pub resolved_part : Result ResolvedInput → ℕ
resolved_part (ok s) = fungible_part s
resolved_part (err e) = 0

-- What the inputs of the type `t` resolve to; a value that is no opout holds nothing.
abbrev pub input_amount : ℕ → Resolver → Option InputRef → ℕ
input_amount t resolver none = 0
input_amount t resolver (some ref) =
    if ref.assignment_type == t then resolved_part (resolver ref) else 0

abbrev pub inputs_amount : ℕ → Resolver → List Value → ℕ
inputs_amount t resolver [] = 0
inputs_amount t resolver (v ∷ vs) =
    input_amount t resolver (input_opout v) + inputs_amount t resolver vs

as_unresolved-eq_ok :
    (r : Result ResolvedInput) (s : ResolvedInput) → as_unresolved r ≡ ok s → r ≡ ok s
as_unresolved-eq_ok (ok a) s e = e
as_unresolved-eq_ok (err x) s e = cc

resolve_amount :
    (constraints : Map ℕ Occurrence) (details : Map ℕ Value) (resolver : Resolver) (input : Value)
    (id t : ℕ) (state : ResolvedInput)
    → resolve_input constraints details resolver input ≡ ok (id, state)
    → input_amount t resolver (input_opout input) ≡ (if id == t then fungible_part state else 0)
unfolding resolve_input
resolve_amount constraints details resolver input id t state h =
    let (ref, named, h1) = of_option-eq_ok _ (input_opout input) _ h in
    let (declared, h2) =
      guard-eq_ok (is_declared (lookup ref.assignment_type constraints)) _ _ h1 in
    let (detail, found, h3) = of_option-eq_ok _ (lookup ref.assignment_type details) _ h2 in
    let (schema_value, has, h4) = of_option-eq_ok _ (field "ownedStateSchema" detail) _ h3 in
    let (union, h5) = guard-eq_ok (kind_eq (kind (unwrap schema_value)) Kind.union) _ _ h4 in
    let (state', resolved, h6) = >>=-eq_ok (as_unresolved (resolver ref)) _ h5 in
    let (same, done) =
      guard-eq_ok (str_eq state'.class (attributes (unwrap schema_value)).name) _ _ h6 in
    finish ref state' named (as_unresolved-eq_ok (resolver ref) state' resolved) done
  where
    finish :
        (ref : InputRef) (state' : ResolvedInput)
        → input_opout input ≡ some ref
        → resolver ref ≡ ok state'
        → ◌≡◌ {A = Result (ℕ × ResolvedInput)} (ok (ref.assignment_type, state')) (ok (id, state))
        → input_amount t resolver (input_opout input) ≡ (if id == t then fungible_part state else 0)
    finish ref state' named resolved done = ground arith

add_input_amount :
    (id t : ℕ) (state : ResolvedInput) (acc acc' : InputsState)
    → count_of t acc.amounts ≤ max_uint64
    → add_input id state acc ≡ ok acc'
    → (count_of t acc'.amounts
        ≡ count_of t acc.amounts + (if id == t then fungible_part state else 0))
      × (count_of t acc'.amounts ≤ max_uint64)
unfolding add_input
add_input_amount id t state acc acc' h e = ground (
  arith,
  eq_iff state.class "fungible",
  eq_iff state.class "structured",
  lookup-insert id t ((count_of id acc.amounts + state.amount) % 2 ^ 64) acc.amounts,
)

-- The checked sums are the plain ones: no amount is lost to a wrap-round.
pub validate_inputs_amount :
    (constraints : Map ℕ Occurrence) (details : Map ℕ Value) (resolver : Resolver) (t : ℕ)
    (inputs : List Value) (acc acc' : InputsState)
    → count_of t acc.amounts ≤ max_uint64
    → validate_inputs constraints details resolver inputs acc ≡ ok acc'
    → count_of t acc'.amounts ≡ count_of t acc.amounts + inputs_amount t resolver inputs
unfolding validate_inputs
validate_inputs_amount constraints details resolver t [] acc acc' h e = ground arith
validate_inputs_amount constraints details resolver t (input ∷ rest) acc acc' h e =
    let ((id, state), resolved, e1) =
      >>=-eq_ok (resolve_input constraints details resolver input) _ e in
    let (next, added, e2) = >>=-eq_ok (add_input id state acc) _ e1 in
    let (here, bound) = add_input_amount id t state acc next h added in
    let later = validate_inputs_amount constraints details resolver t rest next acc' bound e2 in
    omega
      (arith, here, later, resolve_amount constraints details resolver input id t state resolved)
