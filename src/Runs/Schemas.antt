-- ===== src/Runs/Schemas.antt =====
-- The schema validation at the sample transfer and genesis.
use rgb.Prelude.{
  ◌==◌, if◌then◌else◌, ◌≤◌, ◌≡◌, ◌↔◌, ◌^◌, ◌-◌, refl, none, some, [], ◌∷◌, Result, ok, err, All,
  schema_script, schema_conformance, state_type, input_unresolved,
}
use rgb.Prelude.Keyed.{insert, lookup, remove}
use rgb.StrictTypes.Value.{Value, field, node, nil, no_fields, no_entries, Kind}
use rgb.StrictTypes.Numbers.{number, entries}
use rgb.Schemas.Types.{nia, Occurrence}
use rgb.Schemas.Access.{enforce_occurrences, InBounds, enforce_occurrences_iff}
use rgb.Schemas.Transition.{
  Resolver, TransitionValidation, validate_transition, GenesisValidation, validate_genesis,
  no_inputs,
}
use rgb.Schemas.Amounts.{DistinctKeys}
use rgb.Schemas.Supplies.{supply, assigned_entries, assigned_amount, resolved_amount}
use rgb.Schemas.Conservation.{validate_transition-conserves, transfer-exact}
use rgb.Schemas.Issue.{Issued, validate_genesis-issues}
use rgb.Samples
use rgb.Samples.{
  schema, genesis, transition, transition_with, services, context, variant, num, list_of,
}

abbrev type_system : Value
type_system = num 0

-- 60 under the first output of the genesis, 40 under the second.
abbrev resolver : Resolver
resolver ref =
    ok (record { class = "fungible"; amount = if ref.index == 0 then 60 else 40; content = [] })

abbrev run : Value → Result TransitionValidation
run t = validate_transition services schema type_system t context (some resolver)

transfer_inflates : run (transition_with 70 31) ≡ err schema_script
unfolding validate_transition insert lookup remove
transfer_inflates = refl

transfer_wraps : run (transition_with (2 ^ 64 - 1) 101) ≡ err state_type
unfolding validate_transition insert lookup remove
transfer_wraps = refl

transfer_unresolved :
    validate_transition services schema type_system transition context none ≡ err input_unresolved
unfolding validate_transition insert lookup remove
transfer_unresolved = refl

or_none : Result TransitionValidation → TransitionValidation
or_none (ok r) = r
or_none (err e) = record {
  operation_id = [];
  kind = nia;
  transition_type = 0;
  inputs = no_inputs;
  outputs = [];
  assignments = 0;
}

report : TransitionValidation
unfolding or_none validate_transition
report = or_none (run transition)

report_ok : run transition ≡ ok report
unfolding report insert lookup remove
report_ok = refl

keys_distinct : DistinctKeys (assigned_entries transition)
unfolding entries field
keys_distinct = (λ t _. refl, tt)

report-type : report.transition_type ≡ 10000
unfolding report insert lookup remove
report-type = refl

validate_transition-conserves_example :
    supply report.kind (assigned_amount transition)
    ≤ supply report.kind (resolved_amount resolver transition)
validate_transition-conserves_example =
    validate_transition-conserves services schema type_system transition context resolver report
      keys_distinct report_ok

transfer-exact_example :
    supply report.kind (assigned_amount transition)
    ≡ supply report.kind (resolved_amount resolver transition)
transfer-exact_example =
    transfer-exact services schema type_system transition context resolver report keys_distinct
      report_ok report-type

or_empty : Result GenesisValidation → GenesisValidation
or_empty (ok r) = r
or_empty (err e) = record { kind = nia; global_states = 0; assignments = 0; owned = [] }

genesis_report : GenesisValidation
unfolding or_empty validate_genesis
genesis_report = or_empty (validate_genesis services schema type_system genesis)

genesis_ok : validate_genesis services schema type_system genesis ≡ ok genesis_report
unfolding genesis_report insert lookup remove
genesis_ok = refl

genesis_keys : DistinctKeys (assigned_entries genesis)
unfolding entries field
genesis_keys = (λ t _. refl, tt)

validate_genesis-issues_example : Issued services schema type_system genesis genesis_report.kind
validate_genesis-issues_example =
    validate_genesis-issues services schema type_system genesis genesis_report genesis_keys
      genesis_ok

abbrev one_to_three : Occurrence
one_to_three = record { min = 1; max = 3 }

enforce_missing : enforce_occurrences ((4000, one_to_three) ∷ []) [] ≡ err schema_conformance
unfolding enforce_occurrences lookup
enforce_missing = refl

enforce_occurrences_iff_example :
    ((enforce_occurrences ((4000, one_to_three) ∷ []) ((4000, 2) ∷ []) ≡ ok tt)
      ↔ All (InBounds ((4000, 2) ∷ [])) ((4000, one_to_three) ∷ []))
    × ((enforce_occurrences ((4000, one_to_three) ∷ []) ((4000, 2) ∷ []) ≡ err schema_conformance)
        ↔ ¬ All (InBounds ((4000, 2) ∷ [])) ((4000, one_to_three) ∷ []))
enforce_occurrences_iff_example =
    enforce_occurrences_iff ((4000, one_to_three) ∷ []) ((4000, 2) ∷ [])

-- A wrapped number: a union in a tuple of one.
abbrev wrapped : Value
wrapped =
    node (Samples.plain Kind.tuple) nil no_fields
      (Samples.to_items (variant "bits64" 8 (num 9) ∷ [])) no_entries

number-wrapped : number wrapped ≡ some 9
unfolding number
number-wrapped = refl
