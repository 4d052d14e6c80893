-- ===== src/Consignment/Projected.antt =====
-- What a whole validation of consignment/validator.go shows of the validated states.
use rgb.Prelude.{◌≤◌, ◌≡◌, false, List, ok, ◌&&◌, All, after_ok, after_guard, arith, ◌∙◌, subst, ap}
use rgb.Prelude.Bytes.{ByteString}
use rgb.Prelude.Keyed.{bytes_eq_instance}
use rgb.Schemas.Types.{AssetKind, Services}
use rgb.Schemas.Supplies.{supply, assigned_amount}
use rgb.Schemas.Rules.{supply_mono}
use rgb.Consignment.Types.{input_ref_eq}
use rgb.Consignment.History.{Evidence, validate_history}
use rgb.Consignment.Held.{live_amount}
use rgb.Consignment.Ancestors.{field_or_zero, historical_side_ops}
use rgb.Consignment.Supply.{BundlesCanonical, history-conserves}
use rgb.Consignment.Projection.{
  project, may_omit, is_genesis_only, Container, Validation, finish_validation, validate,
}
use rgb.Consignment.Backing.{Backed}
use rgb.Consignment.Shown.{
  Accounted, project-Backed, project-Accounted, shown_amount, project-amount,
}

-- A whole validation: what ran, and what it shows.
pub record Validated (services : Services) (evidence : Evidence) (c : Container) (v : Validation)
    : Type 0 where
  pub genesis_id : ByteString
  pub committed : evidence.commit_genesis (field_or_zero "genesis" c.value) ≡ ok genesis_id
  pub historical : List ByteString
  pub history :
      validate_history services evidence
        (field_or_zero "schema" c.value)
        (field_or_zero "types" c.value)
        (field_or_zero "genesis" c.value)
        (field_or_zero "bundles" c.value)
      ≡ ok v.progress
  pub ancestors :
      historical_side_ops c.value v.progress.graph v.progress.bundle_ops v.progress.complete_graph
      ≡ ok historical
  pub projected :
      project evidence.outpoints v.progress.prepared_witnesses
        (may_omit historical (is_genesis_only c.value) genesis_id)
        v.progress.states
      ≡ ok v.current_states

validate-Validated :
    (services : Services) (evidence : Evidence) (c : Container) (v : Validation)
    → validate services evidence false c ≡ ok v
    → Validated services evidence c v
unfolding validate finish_validation
validate-Validated services evidence c v h =
    after_guard (c.structural_valid && c.genesis_valid) _ _ h λ _ h1.
      after_ok (evidence.commit_genesis (field_or_zero "genesis" c.value)) _ h1
        λ genesis_id committed h2.
          after_ok
            (validate_history services evidence (field_or_zero "schema" c.value)
              (field_or_zero "types" c.value) (field_or_zero "genesis" c.value)
              (field_or_zero "bundles" c.value))
            _ h2
            λ p history h3.
              after_ok (historical_side_ops c.value p.graph p.bundle_ops p.complete_graph) _ h3
                λ historical ancestors h4.
                  after_ok
                    (project evidence.outpoints p.prepared_witnesses
                      (may_omit historical (is_genesis_only c.value) genesis_id) p.states)
                    _ h4
                    λ states shown done.
                      let same : p ≡ v.progress = cc in
                      let same_states : states ≡ v.current_states = cc in
                      record {
                        genesis_id = genesis_id;
                        committed = committed;
                        historical = historical;
                        history = cc (history, same);
                        ancestors =
                            subst
                              (λ q.
                                historical_side_ops c.value q.graph q.bundle_ops q.complete_graph
                                ≡ ok historical)
                              same ancestors;
                        projected =
                            subst
                              (λ q.
                                project evidence.outpoints q.prepared_witnesses
                                  (may_omit historical (is_genesis_only c.value) genesis_id)
                                  q.states
                                ≡ ok v.current_states)
                              same (shown ∙ ap ok same_states);
                      }

-- The states that `Validate` and `ValidatePrepared` show of a fungible contract hold no more supply
-- than its genesis assigns. The transitions are canonical, as decoded strict values are.
pub validate-conserves :
    (services : Services) (evidence : Evidence) (c : Container) (v : Validation) (kind : AssetKind)
    → services.schema_kind (field_or_zero "schema" c.value) ≡ ok kind
    → BundlesCanonical evidence (field_or_zero "bundles" c.value)
    → validate services evidence false c ≡ ok v
    → supply kind (shown_amount v.current_states)
      ≤ supply kind (assigned_amount (field_or_zero "genesis" c.value))
validate-conserves services evidence c v kind is_kind canonical h =
    let r = validate-Validated services evidence c v h in
    let live =
      history-conserves services evidence (field_or_zero "schema" c.value)
        (field_or_zero "types" c.value) (field_or_zero "genesis" c.value)
        (field_or_zero "bundles" c.value) kind v.progress is_kind canonical r.history in
    let less =
      supply_mono kind (shown_amount v.current_states) (live_amount v.progress.states) (λ t.
        project-amount evidence.outpoints v.progress.prepared_witnesses
          (may_omit r.historical (is_genesis_only c.value) r.genesis_id) v.progress.states
          v.current_states t r.projected) in
    omega (arith, live, less)

-- Every state that `Validate` and `ValidatePrepared` show lies at an outpoint that the chain knows
-- and that nothing spends, or at an output of a prepared witness of the history itself.
pub validate-Backed :
    (services : Services) (evidence : Evidence) (c : Container) (v : Validation)
    → validate services evidence false c ≡ ok v
    → All (Backed evidence.outpoints v.progress.prepared_witnesses) v.current_states
validate-Backed services evidence c v h =
    let r = validate-Validated services evidence c v h in
    project-Backed evidence.outpoints v.progress.prepared_witnesses
      (may_omit r.historical (is_genesis_only c.value) r.genesis_id) v.progress.states
      v.current_states r.projected

-- `Validate` loses no state: each live state of the accepted history is among those that it shows,
-- or the chain knows it to be spent and it belongs to a historical operation or, in a static
-- contract, to the operation that the container's genesis commits to.
pub validate-Accounted :
    (services : Services) (evidence : Evidence) (c : Container) (v : Validation)
    → validate services evidence false c ≡ ok v
    → (historical : List ByteString) × (genesis_id : ByteString) × (historical_side_ops c.value
          v.progress.graph v.progress.bundle_ops v.progress.complete_graph
        ≡ ok historical)
      × (evidence.commit_genesis (field_or_zero "genesis" c.value) ≡ ok genesis_id)
      × All
          (Accounted evidence.outpoints
            (may_omit historical (is_genesis_only c.value) genesis_id)
            v.current_states)
          v.progress.states
validate-Accounted services evidence c v h =
    let r = validate-Validated services evidence c v h in
    (
      r.historical,
      r.genesis_id,
      r.ancestors,
      r.committed,
      project-Accounted evidence.outpoints v.progress.prepared_witnesses
          (may_omit r.historical (is_genesis_only c.value) r.genesis_id) v.progress.states
          v.current_states r.projected,
    )
