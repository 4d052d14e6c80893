-- ===== src/Runs/History.antt =====
-- A genesis of 100, one bundle, and a transfer of 60 and 40 into 70 and 30.
use rgb.Prelude.{
  Option, none, some, ℕ, replicate, ◌≤◌, ◌≡◌, refl, List, [], ◌∷◌, Result, ok, err, All,
  schema_script, state_type, ◌-◌, ◌^◌, duplicate_state_spend, subst,
}
use rgb.Prelude.Keyed.{total, insert, contains}
use rgb.Schemas.Types.{nia, InputRef}
use rgb.Schemas.Supplies.{supply, assigned_amount}
use rgb.Operations.Bundle.{commit_bundle, BundleCommitment}
use rgb.Consignment.History.{
  Evidence, Progress, validate_history, initial_progress, Witness, no_binding, validate_operation,
}
use rgb.Consignment.Held.{live_amount, DistinctRefs}
use rgb.Samples
use rgb.Consignment.Types.{States, prepared, input_ref_eq}
use rgb.Prelude.Bytes.{ByteString, bytes_eq}
use rgb.StrictTypes.Numbers.{entries}
use rgb.StrictTypes.Value.{field, unwrap, items, Value}
use rgb.Consignment.Operation.{transition_inputs, register_outputs}
use rgb.Consignment.Supply.{IsCanonical, BundlesCanonical, history-conserves}
use rgb.Consignment.Spending.{history-spends_once}
use rgb.Consignment.Inputs.{bundles_inputs}
use rgb.Consignment.Spendable.{Spendable}
use rgb.Samples.{
  list_of, witness_bundle, witness_tx, witness_id, genesis_id, contract_id, transition_id, schema,
  genesis, transition, transition_with, services, evidence, witness_bundle_of, bundles,
}

abbrev type_system : Value
type_system = Samples.num 0

abbrev live_sum : Result Progress → ℕ
unfolding total
live_sum (ok p) = live_amount p.states 4000
live_sum (err e) = 0

-- What a run of one bundle with the given transfers ends in.
abbrev run : Evidence → List Value → Result Progress
run evidence bundles =
    validate_history services evidence schema type_system genesis (list_of bundles)

history_holds_100 : live_sum (run evidence (witness_bundle ∷ [])) ≡ 100
unfolding validate_history live_sum insert commit_bundle
history_holds_100 = refl

-- A transfer of 100 into 70 and 31.
history_inflating :
    run evidence (witness_bundle_of (transition_with 70 31 ∷ []) ∷ []) ≡ err schema_script
unfolding validate_history insert commit_bundle
history_inflating = refl

-- The sum of the outputs is 2 ^ 64 + 100.
history_wrapping :
    run evidence (witness_bundle_of (transition_with (2 ^ 64 - 1) 101 ∷ []) ∷ []) ≡ err state_type
unfolding validate_history insert commit_bundle
history_wrapping = refl

history_twice : run evidence (witness_bundle ∷ witness_bundle ∷ []) ≡ err duplicate_state_spend
unfolding validate_history insert commit_bundle
history_twice = refl

or_empty : Result Progress → Progress
or_empty (ok p) = p
or_empty (err e) = initial_progress [] [] []

final : Progress
unfolding or_empty validate_history
final = or_empty (run evidence (witness_bundle ∷ []))

final_ok : run evidence (witness_bundle ∷ []) ≡ ok final
unfolding final insert commit_bundle
final_ok = refl

abbrev WhenRead : Result (List InputRef) → Type 0
WhenRead (ok refs) = DistinctRefs refs
WhenRead (err e) = Unit

transition-IsCanonical : IsCanonical transition
unfolding transition_inputs entries contains bytes_eq
transition-IsCanonical = record {
  keys = (λ t _. refl, tt);
  inputs = λ refs h. subst WhenRead h (refl, (refl, tt));
}

abbrev WhenCommitted : Result BundleCommitment → Type 0
WhenCommitted (ok bundle) = All IsCanonical bundle.transitions
WhenCommitted (err e) = Unit

abbrev WhenFound : Option Value → Type 0
WhenFound none = Unit
WhenFound (some value) =
    (bundle : BundleCommitment)
    → evidence.commit_bundle value ≡ ok bundle
    → All IsCanonical bundle.transitions

found : WhenFound (field "bundle" (unwrap witness_bundle))
unfolding field unwrap commit_bundle
found = λ bundle h. subst WhenCommitted h (transition-IsCanonical, tt)

pub canonical : BundlesCanonical evidence bundles
unfolding unwrap
canonical = (λ value bundle has h. subst WhenFound has found bundle h, tt)

history-conserves_example :
    supply nia (live_amount final.states) ≤ supply nia (assigned_amount genesis)
history-conserves_example =
    history-conserves services evidence schema type_system genesis bundles nia final refl canonical
      final_ok

history-spends_once_example :
    (refs : List InputRef) × (bundles_inputs evidence (items (unwrap bundles)) ≡ ok refs)
    × DistinctRefs refs
history-spends_once_example =
    history-spends_once services evidence schema type_system genesis bundles final canonical
      final_ok

states_of : Result States → States
states_of (ok states) = states
states_of (err e) = []

-- The loop before its first transition.
start : Progress
unfolding states_of register_outputs
start =
    initial_progress genesis_id
      (states_of (register_outputs [] genesis_id genesis (replicate 32 0) no_binding))
      ((2010, (100 ∷ []) ∷ []) ∷ [])

abbrev witness : Witness
witness = record { tx = witness_tx; tx_id = witness_id; state = prepared }

abbrev input_map : Value
input_map = Samples.map_of (
    (Samples.opout 0, Samples.blob transition_id)
    ∷ (Samples.opout 1, Samples.blob transition_id)
    ∷ [])

or_start : Result (Progress × ByteString) → Progress × ByteString
or_start (ok p) = p
or_start (err e) = (start, [])

abbrev operation_run : Result (Progress × ByteString)
operation_run =
    validate_operation services evidence schema type_system contract_id Samples.bundle_id input_map
      witness no_binding start transition

next : Progress × ByteString
unfolding or_start start validate_operation
next = or_start operation_run
