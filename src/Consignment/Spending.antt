-- ===== src/Consignment/Spending.antt =====
-- Single use of state: the input checks of consignment/validator.go over a whole history.
use rgb.Prelude.{
  ◌≡◌, refl, ap, ◌∙◌, then_ok, then_some, some, List, [], ◌∷◌, ok, All, after_ok, arith, sym, subst,
}
use rgb.Prelude.Bytes.{ByteString}
use rgb.StrictTypes.Value.{Value, field, unwrap, items}
use rgb.Schemas.Types.{InputRef, Services, TransitionContext}
use rgb.Schemas.Transition.{validate_transition}
use rgb.Consignment.Types.{CarrierBinding, input_ref_eq}
use rgb.Consignment.Operation.{transition_inputs, register_outputs, append_operation_globals}
use rgb.Consignment.History.{
  Witness, Evidence, Progress, state_resolver, check_inputs, consume, delete_all,
  validate_operation, validate_operations, count_witness, validate_bundle, validate_bundles,
  validate_history, initial_progress, input_map_of, add_id,
}
use rgb.Consignment.Steps.{validate_bundle-BundleRun, validate_history-HistoryRun}
use rgb.Consignment.Held.{DistinctRefs}
use rgb.Consignment.Supply.{IsCanonical, BundleCanonical, BundlesCanonical}
use rgb.Consignment.Inputs.{
  transitions_inputs, bundle_inputs, bundles_inputs, Spends, no-Spends, both-Spends,
  Spends-DistinctRefs,
}
use rgb.Consignment.Spendable.{Spendable, check_inputs-Spendable, Spendable-Fresh, consume-Distinct}

module _ (services : Services) (evidence : Evidence) (schema type_system : Value) where
  pub operation-spends :
      (contract_id bundle_id : ByteString) (input_map : Value) (witness : Witness)
      (carrier : CarrierBinding) (p p' : Progress) (transition : Value) (id : ByteString)
      → validate_operation services evidence schema type_system contract_id bundle_id input_map
          witness carrier p transition
        ≡ ok (p', id)
      → (inputs : List InputRef) × (transition_inputs transition ≡ ok inputs)
        × (operation_id : ByteString) × (services.commit_transition transition ≡ ok operation_id)
        × All (Spendable evidence input_map witness operation_id p.states p.consumed) inputs
        × (p'.consumed ≡ consume inputs p.consumed)
  unfolding validate_operation
  operation-spends contract_id bundle_id input_map witness carrier p p' transition id h =
      after_ok (services.commit_transition transition) _ h λ operation_id committed h1.
        after_ok (transition_inputs transition) _ h1 λ inputs read h2.
          after_ok (check_inputs evidence input_map witness operation_id p.states p.consumed inputs)
            _ h2
            λ _ checked h3.
              let context : TransitionContext = record {
                contract_id = contract_id;
                contract_globals = p.globals;
              } in
              after_ok
                (validate_transition services schema type_system transition context
                  (some (state_resolver p.states)))
                _ h3
                λ validation _ h4.
                  after_ok
                    (register_outputs (delete_all inputs p.states) validation.operation_id
                      transition witness.tx_id carrier)
                    _ h4
                    λ states _ h5.
                      after_ok (append_operation_globals p.globals transition) _ h5
                        λ globals _ done. (
                          inputs,
                          read,
                          operation_id,
                          committed,
                          check_inputs-Spendable evidence input_map witness operation_id p.states
                              p.consumed inputs checked,
                          cc,
                        )

  operation-Spends :
      (contract_id bundle_id : ByteString) (input_map : Value) (witness : Witness)
      (carrier : CarrierBinding) (p p' : Progress) (transition : Value) (id : ByteString)
      → IsCanonical transition
      → validate_operation services evidence schema type_system contract_id bundle_id input_map
          witness carrier p transition
        ≡ ok (p', id)
      → Spends p p' (transition_inputs transition)
  operation-Spends contract_id bundle_id input_map witness carrier p p' transition id c h =
      let (inputs, read, op, committed, spendable, same) =
        operation-spends contract_id bundle_id input_map witness carrier p p' transition id h in
      record {
        refs = inputs;
        reads = read;
        marked = same;
        distinct = λ d. subst DistinctRefs (sym same) (
            consume-Distinct inputs p.consumed (c.inputs inputs read)
              (Spendable-Fresh evidence input_map witness op p.states p.consumed inputs spendable)
              d);
      }

  operations-Spends :
      (contract_id bundle_id : ByteString) (input_map : Value) (witness : Witness)
      (carrier : CarrierBinding) (p p' : Progress) (verified verified' : List ByteString)
      (transitions : List Value)
      → All IsCanonical transitions
      → validate_operations services evidence schema type_system contract_id bundle_id input_map
          witness carrier p verified transitions
        ≡ ok (p', verified')
      → Spends p p' (transitions_inputs transitions)
  unfolding validate_operations transitions_inputs
  operations-Spends contract_id bundle_id input_map witness carrier p p' verified verified' [] c h =
      let same : p ≡ p' = cc in no-Spends p p' same
  operations-Spends contract_id bundle_id input_map witness carrier p p' verified verified' (v ∷ vs)
        c h =
      after_ok
        (validate_operation services evidence schema type_system contract_id bundle_id input_map
          witness carrier p v)
        _ h
        λ next first h1.
          both-Spends p next.0 p' (transition_inputs v) (transitions_inputs vs)
            (operation-Spends contract_id bundle_id input_map witness carrier p next.0 v next.1 c.0
              first)
            (operations-Spends contract_id bundle_id input_map witness carrier next.0 p'
              (add_id next.1 verified) verified' vs c.1 h1)

  consumed-count_witness :
      (witness : Witness) (p : Progress) → p.consumed ≡ (count_witness witness p).consumed
  unfolding count_witness
  consumed-count_witness witness p = ground arith

  bundle-Spends :
      (contract_id : ByteString) (p p' : Progress) (witness_bundle : Value)
      → BundleCanonical evidence witness_bundle
      → validate_bundle services evidence schema type_system contract_id p witness_bundle ≡ ok p'
      → Spends p p' (bundle_inputs evidence witness_bundle)
  unfolding bundle_inputs
  bundle-Spends contract_id p p' witness_bundle canonical h =
      let b =
        validate_bundle-BundleRun services evidence schema type_system contract_id p p'
          witness_bundle h in
      let counted = consumed-count_witness b.witness p in
      let s =
        operations-Spends contract_id b.bundle.bundle_id (input_map_of b.bundle_value) b.witness
          b.carrier (count_witness b.witness p) b.result.0 [] b.result.1 b.bundle.transitions
          (canonical b.bundle_value b.bundle b.disclosed b.committed) b.ran in
      record {
        refs = s.refs;
        reads =
            then_some _ (field "bundle" (unwrap witness_bundle)) _ b.disclosed
              (then_ok (evidence.commit_bundle b.bundle_value) _ b.committed s.reads);
        marked = b.same_consumed ∙ s.marked ∙ ap (consume s.refs) (sym counted);
        distinct = λ d.
            subst DistinctRefs (sym b.same_consumed) (s.distinct (subst DistinctRefs counted d));
      }

  bundles-Spends :
      (contract_id : ByteString) (p p' : Progress) (bundles : List Value)
      → All (BundleCanonical evidence) bundles
      → validate_bundles services evidence schema type_system contract_id p bundles ≡ ok p'
      → Spends p p' (bundles_inputs evidence bundles)
  unfolding validate_bundles bundles_inputs
  bundles-Spends contract_id p p' [] canonical h = let same : p ≡ p' = cc in no-Spends p p' same
  bundles-Spends contract_id p p' (b ∷ bs) canonical h =
      after_ok (validate_bundle services evidence schema type_system contract_id p b) _ h
        λ next first h1.
          both-Spends p next p' (bundle_inputs evidence b) (bundles_inputs evidence bs)
            (bundle-Spends contract_id p next b canonical.0 first)
            (bundles-Spends contract_id next p' bs canonical.1 h1)

-- In an accepted history no state is spent twice: the inputs that the transitions of all its bundles
-- name, read off the bundles in order, are pairwise different references. The transitions are
-- canonical, as decoded strict values are.
pub history-spends_once :
    (services : Services) (evidence : Evidence) (schema type_system genesis bundles : Value)
    (p : Progress)
    → BundlesCanonical evidence bundles
    → validate_history services evidence schema type_system genesis bundles ≡ ok p
    → (refs : List InputRef) × (bundles_inputs evidence (items (unwrap bundles)) ≡ ok refs)
      × DistinctRefs refs
history-spends_once services evidence schema type_system genesis bundles p canonical h =
    let r = validate_history-HistoryRun services evidence schema type_system genesis bundles p h in
    let start = initial_progress r.genesis_id r.states r.globals in
    Spends-DistinctRefs start p (bundles_inputs evidence (items (unwrap bundles))) refl (
      bundles-Spends services evidence schema type_system r.genesis_id start p
        (items (unwrap bundles)) canonical r.ran)
