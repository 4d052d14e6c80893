-- ===== src/Schemas/ScriptRun.antt =====
-- What `validateTransitionScript` of schemas/transition.go was given when it passed.
use rgb.Prelude.{ℕ, ◌+◌, ◌≤◌, ◌≡◌, some, List, [], ok, after_ok, after_some, arith, subst, Result}
use rgb.Prelude.Bytes.{ByteString}
use rgb.Prelude.Keyed.{Map, nat_eq}
use rgb.StrictTypes.Value.{Value, field}
use rgb.StrictTypes.Numbers.{sequence}
use rgb.Schemas.Types.{AssetKind, TransitionContext, Services, max_uint64}
use rgb.Schemas.Access.{
  as_state_error, count_of, map_by_number_field, occurrence_map, enforce_occurrences,
}
use rgb.Schemas.State.{Globals, validate_metadata, validate_globals}
use rgb.Schemas.Owned.{validate_assignments}
use rgb.Schemas.Script.{Owned, ScriptInput, input_sum, output_sum, validate_transition_script}
use rgb.Schemas.Transition.{
  Resolver, InputsState, no_inputs, validate_inputs, decode_transition_metadata,
  TransitionValidation, validate_transition, declared_transition, resolve_inputs, check_transition,
}
use rgb.Schemas.Amounts.{DistinctKeys}
use rgb.Schemas.Resolved.{inputs_amount, validate_inputs_amount}
use rgb.Schemas.Supplies.{
  assigned_entries, input_values, assigned_amount, resolved_amount, read_inputs, none_counted,
  validate_assignments_sum,
}

-- What the script of an accepted transition was given, and that it passed.
pub record ScriptRun (services : Services) (resolver : Resolver) (transition : Value)
    (r : TransitionValidation) : Type 0 where
  pub script : ScriptInput
  pub passed : validate_transition_script services r.kind script ≡ ok tt
  pub given : (t : ℕ) → input_sum t script ≡ resolved_amount resolver transition t
  pub assigned : (t : ℕ) → output_sum t script ≡ assigned_amount transition t
  pub bounded : (t : ℕ) → output_sum t script ≤ max_uint64
  pub same_type : script.transition_type ≡ r.transition_type
  pub same_inputs : script.input_amounts ≡ r.inputs.amounts
  pub same_outputs : script.outputs ≡ r.outputs

none_counted_bound : (t : ℕ) → count_of t [] ≤ max_uint64
none_counted_bound t = omega (arith, none_counted t)

given_amount :
    (t : ℕ) (resolver : Resolver) (transition : Value) (resolved : InputsState)
    (inputs : List Value)
    → input_values transition ≡ inputs
    → count_of t resolved.amounts ≡ count_of t [] + inputs_amount t resolver inputs
    → count_of t resolved.amounts ≡ resolved_amount resolver transition t
given_amount t resolver transition resolved inputs same sums =
    ground (arith, sums, same, none_counted t)

-- The amounts of the resolved inputs are those that the resolver gives.
resolved_given :
    (schema transition_schema transition : Value) (resolver : Resolver) (resolved : InputsState)
    → resolve_inputs schema transition_schema transition resolver ≡ ok resolved
    → (t : ℕ) → count_of t resolved.amounts ≡ resolved_amount resolver transition t
unfolding resolve_inputs
resolved_given schema transition_schema transition resolver resolved h t =
    after_ok (occurrence_map transition_schema "inputs") _ h λ constraints _ h1.
      after_ok (map_by_number_field schema "ownedTypes") _ h1 λ owned_details _ h2.
        after_some _ (field "inputs" transition) _ h2 λ value has_inputs h3.
          after_some _ (sequence value) _ h3 λ inputs listed h4.
            after_ok (validate_inputs constraints owned_details resolver inputs no_inputs) _ h4
              λ found valid h5.
                after_ok (enforce_occurrences constraints found.counts) _ h5 λ _ _ done.
                  let same : resolved ≡ found = cc in
                  let sums =
                    validate_inputs_amount constraints owned_details resolver t inputs no_inputs
                      found (none_counted_bound t) valid in
                  let read = read_inputs transition value inputs has_inputs listed in
                  rw same (given_amount t resolver transition found inputs read sums)

-- The first steps of an accepted transition, and the checks that follow them.
pub record Declared (services : Services) (schema type_system transition : Value)
    (context : TransitionContext) (resolver : Resolver) (r : TransitionValidation) : Type 0 where
  pub kind : AssetKind
  pub operation_id : ByteString
  pub type_id : ℕ
  pub transition_schema : Value
  pub decode : ByteString → ByteString → Result Value
  pub is_kind : services.schema_kind schema ≡ ok kind
  pub committed : services.commit_transition transition ≡ ok operation_id
  pub checked :
      check_transition services kind operation_id decode schema type_id transition_schema transition
        context resolver
      ≡ ok r

pub validate_transition-Declared :
    (services : Services) (schema type_system transition : Value) (context : TransitionContext)
    (resolver : Resolver) (r : TransitionValidation)
    → validate_transition services schema type_system transition context (some resolver) ≡ ok r
    → Declared services schema type_system transition context resolver r
unfolding validate_transition
validate_transition-Declared services schema type_system transition context resolver r h =
    after_ok (services.schema_kind schema) _ h λ kind is_kind h1.
      after_ok (services.commit_transition transition) _ h1 λ operation_id committed h2.
        after_ok (declared_transition schema transition context.contract_id) _ h2 λ declared _ h3.
          after_ok (as_state_error (services.add_type_system type_system)) _ h3 λ decode _ checked.
            record {
              kind = kind;
              operation_id = operation_id;
              type_id = declared.0;
              transition_schema = declared.1;
              decode = decode;
              is_kind = is_kind;
              committed = committed;
              checked = checked;
            }

-- What the script is given.
abbrev pub script_of :
    ℕ
    → Value
    → ByteString
    → TransitionContext
    → Map ℕ ℕ
    → Globals
    → InputsState
    → Owned
    → ScriptInput
script_of type_id transition operation_id context metadata globals resolved outputs = record {
  transition_type = type_id;
  transition = transition;
  operation_id = operation_id;
  context = context;
  metadata = metadata;
  globals = globals;
  input_counts = resolved.counts;
  input_amounts = resolved.amounts;
  input_data = resolved.content;
  outputs = outputs;
}

-- The steps of the checks of a declared transition, and its report.
pub record Checked (services : Services) (kind : AssetKind) (operation_id : ByteString)
    (decode : ByteString → ByteString → Result Value) (schema : Value) (type_id : ℕ)
    (transition_schema transition : Value) (context : TransitionContext) (resolver : Resolver)
    (r : TransitionValidation) : Type 0 where
  pub metadata : Map ℕ ℕ
  pub globals : Globals
  pub outputs : Owned
  pub assignments : ℕ
  pub resolved : InputsState
  pub assigned :
      validate_assignments decode schema transition_schema transition ≡ ok (outputs, assignments)
  pub given : resolve_inputs schema transition_schema transition resolver ≡ ok resolved
  pub passed :
      validate_transition_script services kind
        (script_of type_id transition operation_id context metadata globals resolved outputs)
      ≡ ok tt
  pub reports : r ≡ record {
    operation_id = operation_id;
    kind = kind;
    transition_type = type_id;
    inputs = resolved;
    outputs = outputs;
    assignments = assignments;
  }

pub check_transition-Checked :
    (services : Services) (kind : AssetKind) (operation_id : ByteString)
    (decode : ByteString → ByteString → Result Value) (schema : Value) (type_id : ℕ)
    (transition_schema transition : Value) (context : TransitionContext) (resolver : Resolver)
    (r : TransitionValidation)
    → check_transition services kind operation_id decode schema type_id transition_schema transition
        context resolver
      ≡ ok r
    → Checked services kind operation_id decode schema type_id transition_schema transition context
        resolver r
unfolding check_transition
check_transition-Checked services kind op decode schema type_id ts transition context resolver r h =
    after_ok (validate_metadata decode schema ts transition) _ h λ _ _ h1.
      after_ok (decode_transition_metadata decode schema transition) _ h1 λ metadata _ h2.
        after_ok (validate_globals decode schema ts transition) _ h2 λ globals _ h3.
          after_ok (validate_assignments decode schema ts transition) _ h3 λ outs assigned h4.
            after_ok (resolve_inputs schema ts transition resolver) _ h4 λ resolved given h5.
              after_ok (validate_transition_script services kind _) _ h5 λ _ passed done. record {
                metadata = metadata;
                globals = globals.0;
                outputs = outs.0;
                assignments = outs.1;
                resolved = resolved;
                assigned = assigned;
                given = given;
                passed = passed;
                reports = cc;
              }

-- What the script of an accepted transition was given adds up to what the operation assigns and to
-- what its inputs resolve to.
pub script_run :
    (services : Services) (schema type_system transition : Value) (context : TransitionContext)
    (resolver : Resolver) (r : TransitionValidation)
    → DistinctKeys (assigned_entries transition)
    → validate_transition services schema type_system transition context (some resolver) ≡ ok r
    → ScriptRun services resolver transition r
script_run services schema type_system transition context resolver r d h =
    let a =
      validate_transition-Declared services schema type_system transition context resolver r h in
    let c =
      check_transition-Checked services a.kind a.operation_id a.decode schema a.type_id
        a.transition_schema transition context resolver r a.checked in
    let sums = λ (t : ℕ).
      validate_assignments_sum a.decode schema a.transition_schema transition c.outputs
        c.assignments t d c.assigned in
    let script =
      script_of a.type_id transition a.operation_id context c.metadata c.globals c.resolved
        c.outputs in
    let same_kind : a.kind ≡ r.kind = cc (c.reports) in
    record {
      script = script;
      passed = subst (λ k. validate_transition_script services k script ≡ ok tt) same_kind c.passed;
      given = resolved_given schema a.transition_schema transition resolver c.resolved c.given;
      assigned = λ t. (sums t).0;
      bounded = λ t. (sums t).1;
      same_type = cc (c.reports);
      same_inputs = cc (c.reports);
      same_outputs = cc (c.reports);
    }
