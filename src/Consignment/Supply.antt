-- ===== src/Consignment/Supply.antt =====
-- No accepted history inflates the supply: the loop of consignment/validator.go with the schema
-- validation of schemas.
use rgb.Prelude.{
  ℕ, ◌≤◌, ◌≡◌, refl, some, List, [], ◌∷◌, ok, All, replicate, after_ok, arith, sym, subst,
}
use rgb.Prelude.Bytes.{ByteString}
use rgb.Prelude.Keyed.{total}
use rgb.StrictTypes.Value.{field, Value, unwrap, items}
use rgb.Schemas.Types.{AssetKind, nia, cfa, pfa, ifa, uda, InputRef, Services, TransitionContext}
use rgb.Schemas.Transition.{validate_transition}
use rgb.Schemas.Amounts.{DistinctKeys}
use rgb.Schemas.Supplies.{supply, assigned_entries, assigned_amount, resolved_amount}
use rgb.Schemas.Conservation.{validate_transition-conserves, validate_transition_names}
use rgb.Consignment.Types.{CarrierBinding}
use rgb.Consignment.Operation.{transition_inputs, register_outputs, append_operation_globals}
use rgb.Operations.Bundle.{BundleCommitment}
use rgb.Consignment.History.{
  Witness, Evidence, Progress, state_resolver, check_inputs, delete_all, validate_operation,
  validate_operations, count_witness, validate_bundle, validate_bundles, validate_history,
  initial_progress, no_binding, input_map_of, add_id,
}
use rgb.Consignment.Held.{live_amount, DistinctRefs}
use rgb.Consignment.Steps.{validate_bundle-BundleRun, validate_history-HistoryRun}
use rgb.Consignment.Live.{register_outputs-supply, supply-delete_all}

-- What the decoder of strict maps and sets makes sure of a transition: its assignment types and
-- its inputs are pairwise different.
pub record IsCanonical (transition : Value) : Type 0 where
  pub keys : DistinctKeys (assigned_entries transition)
  pub inputs : (refs : List InputRef) → transition_inputs transition ≡ ok refs → DistinctRefs refs

-- Every transition that the bundle discloses is canonical.
abbrev pub BundleCanonical : Evidence → Value → Type 0
BundleCanonical evidence witness_bundle =
    (value : Value) (bundle : BundleCommitment)
    → field "bundle" (unwrap witness_bundle) ≡ some value
    → evidence.commit_bundle value ≡ ok bundle
    → All IsCanonical bundle.transitions

-- Every transition that one of the bundles discloses is canonical.
abbrev pub BundlesCanonical : Evidence → Value → Type 0
BundlesCanonical evidence bundles = All (BundleCanonical evidence) (items (unwrap bundles))

module _ (services : Services) (evidence : Evidence) (schema type_system : Value)
    (kind' : AssetKind) (is_kind : services.schema_kind schema ≡ ok kind') where
  abbrev held : Progress → ℕ
  held p = supply kind' (live_amount p.states)

  operation_supply :
      (contract_id bundle_id : ByteString) (input_map : Value) (witness : Witness)
      (carrier : CarrierBinding) (p p' : Progress) (transition : Value) (id : ByteString)
      → IsCanonical transition
      → validate_operation services evidence schema type_system contract_id bundle_id input_map
          witness carrier p transition
        ≡ ok (p', id)
      → held p' ≤ held p
  unfolding validate_operation
  operation_supply contract_id bundle_id input_map witness carrier p p' transition id c h =
      after_ok (services.commit_transition transition) _ h λ operation_id _ h1.
        after_ok (transition_inputs transition) _ h1 λ inputs read h2.
          after_ok (check_inputs evidence input_map witness operation_id p.states p.consumed inputs)
            _ h2
            λ _ _ h3.
              let context : TransitionContext = record {
                contract_id = contract_id;
                contract_globals = p.globals;
              } in
              after_ok
                (validate_transition services schema type_system transition context
                  (some (state_resolver p.states)))
                _ h3
                λ validation valid h4.
                  after_ok
                    (register_outputs (delete_all inputs p.states) validation.operation_id
                      transition witness.tx_id carrier)
                    _ h4
                    λ states registered h5.
                      after_ok (append_operation_globals p.globals transition) _ h5
                        λ globals _ done.
                          let same_kind : kind' ≡ validation.kind = cc (
                            is_kind,
                            (validate_transition_names services schema type_system transition
                                context (state_resolver p.states) validation valid).0,
                          ) in
                          let kept =
                            subst
                              (λ k.
                                supply k (assigned_amount transition)
                                ≤ supply k (resolved_amount (state_resolver p.states) transition))
                              (sym same_kind)
                              (validate_transition-conserves services schema type_system transition
                                context (state_resolver p.states) validation c.keys valid) in
                          let added =
                            register_outputs-supply kind' (delete_all inputs p.states) states
                              validation.operation_id witness.tx_id carrier transition registered in
                          let taken =
                            supply-delete_all kind' inputs p.states transition read
                              (c.inputs inputs read) in
                          let same : p'.states ≡ states = cc in
                          rw same (omega (arith, kept, added, taken))

  operations_supply :
      (contract_id bundle_id : ByteString) (input_map : Value) (witness : Witness)
      (carrier : CarrierBinding) (p p' : Progress) (verified verified' : List ByteString)
      (transitions : List Value)
      → All IsCanonical transitions
      → validate_operations services evidence schema type_system contract_id bundle_id input_map
          witness carrier p verified transitions
        ≡ ok (p', verified')
      → held p' ≤ held p
  unfolding validate_operations
  operations_supply contract_id bundle_id input_map witness carrier p p' verified verified' [] c h =
      let same : p' ≡ p = cc in rw same (omega arith)
  operations_supply contract_id bundle_id input_map witness carrier p p' verified verified' (v ∷ vs)
        c h =
      after_ok
        (validate_operation services evidence schema type_system contract_id bundle_id input_map
          witness carrier p v)
        _ h
        λ next first h1. omega (
          arith,
          operation_supply contract_id bundle_id input_map witness carrier p next.0 v next.1 c.0
              first,
          operations_supply contract_id bundle_id input_map witness carrier next.0 p'
              (add_id next.1 verified) verified' vs c.1 h1,
        )

  states-count_witness :
      (witness : Witness) (p : Progress) → (count_witness witness p).states ≡ p.states
  unfolding count_witness
  states-count_witness witness p = ground arith

  bundle_supply :
      (contract_id : ByteString) (p p' : Progress) (witness_bundle : Value)
      → BundleCanonical evidence witness_bundle
      → validate_bundle services evidence schema type_system contract_id p witness_bundle ≡ ok p'
      → held p' ≤ held p
  bundle_supply contract_id p p' witness_bundle canonical h =
      let b =
        validate_bundle-BundleRun services evidence schema type_system contract_id p p'
          witness_bundle h in
      let kept =
        operations_supply contract_id b.bundle.bundle_id (input_map_of b.bundle_value) b.witness
          b.carrier (count_witness b.witness p) b.result.0 [] b.result.1 b.bundle.transitions
          (canonical b.bundle_value b.bundle b.disclosed b.committed) b.ran in
      rw (b.same_states) (rw (states-count_witness b.witness p) at kept)

  bundles_supply :
      (contract_id : ByteString) (p p' : Progress) (bundles : List Value)
      → All (BundleCanonical evidence) bundles
      → validate_bundles services evidence schema type_system contract_id p bundles ≡ ok p'
      → held p' ≤ held p
  unfolding validate_bundles
  bundles_supply contract_id p p' [] canonical h = let same : p' ≡ p = cc in rw same (omega arith)
  bundles_supply contract_id p p' (b ∷ bs) canonical h =
      after_ok (validate_bundle services evidence schema type_system contract_id p b) _ h
        λ next first h1. omega (
          arith,
          bundle_supply contract_id p next b canonical.0 first,
          bundles_supply contract_id next p' bs canonical.1 h1,
        )

none_live : (kind : AssetKind) → supply kind (live_amount []) ≡ 0
unfolding total
none_live nia = refl
none_live cfa = refl
none_live pfa = refl
none_live ifa = omega arith
none_live uda = refl

-- When the loop of the validator has accepted a history, the live allocations of a fungible
-- contract hold no more supply than its genesis assigns, whatever bundles and transitions the
-- history has. The transitions are canonical, as decoded strict values are.
pub history-conserves :
    (services : Services) (evidence : Evidence) (schema type_system genesis bundles : Value)
    (kind' : AssetKind) (p : Progress)
    → services.schema_kind schema ≡ ok kind'
    → BundlesCanonical evidence bundles
    → validate_history services evidence schema type_system genesis bundles ≡ ok p
    → supply kind' (live_amount p.states) ≤ supply kind' (assigned_amount genesis)
history-conserves services evidence schema type_system genesis bundles kind' p is_kind canonical h =
    let r = validate_history-HistoryRun services evidence schema type_system genesis bundles p h in
    omega (
      arith,
      none_live kind',
      register_outputs-supply kind' [] r.states r.genesis_id (replicate 32 0) no_binding genesis
          r.registered,
      bundles_supply services evidence schema type_system kind' is_kind r.genesis_id
          (initial_progress r.genesis_id r.states r.globals) p (items (unwrap bundles)) canonical
          r.ran,
    )
