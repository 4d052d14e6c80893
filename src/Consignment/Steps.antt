-- ===== src/Consignment/Steps.antt =====
-- What ran in an accepted bundle and in an accepted history of consignment/validator.go.
use rgb.Prelude.{some, ◌≡◌, List, [], ok, replicate, after_ok, after_some, after_guard}
use rgb.Prelude.Bytes.{ByteString}
use rgb.StrictTypes.Value.{Value, Kind, kind_eq, kind, field, unwrap, items}
use rgb.Schemas.Types.{Services}
use rgb.Operations.Bundle.{BundleCommitment}
use rgb.Consignment.Types.{CarrierBinding, States}
use rgb.Consignment.Operation.{ContractGlobals, register_outputs, contract_globals}
use rgb.Consignment.History.{
  Witness, Evidence, Progress, validate_operations, count_witness, validate_bundle,
  validate_bundles, validate_history, initial_progress, no_binding, input_map_of,
}

module _ (services : Services) (evidence : Evidence) (schema type_system : Value) where
  -- The transitions of the bundle ran under its witness, which closes the anchored commitment.
  pub record BundleRun (contract_id : ByteString) (p p' : Progress) (witness_bundle : Value)
      : Type 0 where
    pub bundle_value : Value
    pub bundle : BundleCommitment
    pub witness : Witness
    pub carrier : CarrierBinding
    pub result : Progress × List ByteString
    pub anchor_value : Value
    pub anchor : Value × ByteString
    pub public_witness : Value
    pub has_anchor : field "anchor" (unwrap witness_bundle) ≡ some anchor_value
    pub has_witness : field "pubWitness" (unwrap witness_bundle) ≡ some public_witness
    pub anchored : evidence.anchor_commitment anchor_value contract_id bundle.bundle_id ≡ ok anchor
    pub resolved : evidence.resolve_witness public_witness ≡ ok witness
    pub closed : evidence.verify_dbc witness.tx anchor.0 anchor.1 ≡ ok tt
    pub disclosed : field "bundle" (unwrap witness_bundle) ≡ some bundle_value
    pub committed : evidence.commit_bundle bundle_value ≡ ok bundle
    pub ran :
        validate_operations services evidence schema type_system contract_id bundle.bundle_id
          (input_map_of bundle_value)
          witness
          carrier
          (count_witness witness p)
          []
          bundle.transitions
        ≡ ok result
    pub same_states : p'.states ≡ result.0.states
    pub same_consumed : p'.consumed ≡ result.0.consumed

  pub validate_bundle-BundleRun :
      (contract_id : ByteString) (p p' : Progress) (witness_bundle : Value)
      → validate_bundle services evidence schema type_system contract_id p witness_bundle ≡ ok p'
      → BundleRun contract_id p p' witness_bundle
  unfolding validate_bundle
  validate_bundle-BundleRun contract_id p p' witness_bundle h =
      after_some _ (field "pubWitness" (unwrap witness_bundle)) _ h λ public_witness has_witness h1.
        after_some _ (field "anchor" (unwrap witness_bundle)) _ h1 λ anchor_value has_anchor h2.
          after_some _ (field "bundle" (unwrap witness_bundle)) _ h2 λ bundle_value disclosed h3.
            after_ok (evidence.commit_bundle bundle_value) _ h3 λ bundle committed h4.
              after_ok (evidence.anchor_commitment anchor_value contract_id bundle.bundle_id) _ h4
                λ anchor anchored h5.
                  after_ok (evidence.resolve_witness public_witness) _ h5 λ witness resolved h6.
                    after_ok (evidence.verify_dbc witness.tx anchor.0 anchor.1) _ h6 λ _ closed h7.
                      after_ok (evidence.carrier_binding anchor.0 anchor.1) _ h7 λ carrier _ h8.
                        after_ok
                          (validate_operations services evidence schema type_system contract_id
                            bundle.bundle_id (input_map_of bundle_value) witness carrier
                            (count_witness witness p) [] bundle.transitions)
                          _ h8
                          λ result ran done. record {
                            bundle_value = bundle_value;
                            bundle = bundle;
                            witness = witness;
                            carrier = carrier;
                            result = result;
                            anchor_value = anchor_value;
                            anchor = anchor;
                            public_witness = public_witness;
                            has_anchor = has_anchor;
                            has_witness = has_witness;
                            anchored = anchored;
                            resolved = resolved;
                            closed = closed;
                            disclosed = disclosed;
                            committed = committed;
                            ran = ran;
                            same_states = cc;
                            same_consumed = cc;
                          }

  -- The genesis was registered, and the bundles ran from there.
  pub record HistoryRun (genesis bundles : Value) (p : Progress) : Type 0 where
    pub genesis_id : ByteString
    pub states : States
    pub globals : ContractGlobals
    pub registered : register_outputs [] genesis_id genesis (replicate 32 0) no_binding ≡ ok states
    pub ran :
        validate_bundles services evidence schema type_system genesis_id
          (initial_progress genesis_id states globals)
          (items (unwrap bundles))
        ≡ ok p

  pub validate_history-HistoryRun :
      (genesis bundles : Value) (p : Progress)
      → validate_history services evidence schema type_system genesis bundles ≡ ok p
      → HistoryRun genesis bundles p
  unfolding validate_history
  validate_history-HistoryRun genesis bundles p h =
      after_ok (evidence.commit_genesis genesis) _ h λ genesis_id _ h1.
        after_ok (register_outputs [] genesis_id genesis (replicate 32 0) no_binding) _ h1
          λ states registered h2. after_ok (contract_globals genesis) _ h2 λ globals _ h3.
            after_guard (kind_eq (kind (unwrap bundles)) Kind.list) _ _ h3 λ _ ran. record {
              genesis_id = genesis_id;
              states = states;
              globals = globals;
              registered = registered;
              ran = ran;
            }
