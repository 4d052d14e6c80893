-- ===== src/Runs/Container.antt =====
-- A whole transfer: 60 and 40 of the genesis into 70 and 30, which the chain knows as unspent.
use rgb.Prelude.{
  ◌≤◌, ◌≡◌, ◌↔◌, refl, true, false, none, some, List, [], ◌∷◌, Result, ok, err, All, outpoint_spend,
  input_unresolved,
}
use rgb.Prelude.Bytes.{ByteString, bytes_eq}
use rgb.Prelude.Keyed.{insert}
use rgb.Schemas.Types.{nia}
use rgb.Schemas.Supplies.{supply, assigned_amount}
use rgb.Consignment.History.{Evidence, initial_progress, validate_history}
use rgb.Consignment.Ancestors.{Graph, field_or_zero, walk, fuel_for, walk_all, historical_side_ops}
use rgb.Consignment.Worklist.{In, walk-ends}
use rgb.Consignment.Reachable.{Reaches, Outside}
use rgb.Consignment.Ancestry.{walk_all-ancestors}
use rgb.Consignment.Projection.{Validation, validate, may_omit, is_genesis_only}
use rgb.Consignment.Backing.{Backed}
use rgb.Consignment.Shown.{Accounted, shown_amount}
use rgb.Consignment.Projected.{validate-conserves, validate-Backed, validate-Accounted}
use rgb.Operations.Bundle.{commit_bundle}
use rgb.Samples.{container, services, evidence}
use rgb.Consignment.Supply.{BundlesCanonical}
use rgb.Runs.History.{canonical}

or_empty : Result Validation → Validation
or_empty (ok v) = v
or_empty (err e) = record {
  progress = initial_progress [] [] [];
  current_states = [];
  prepared_valid = false;
  consensus_valid = false;
}

final : Validation
unfolding or_empty validate
final = or_empty (validate services evidence false container)

final_ok : validate services evidence false container ≡ ok final
unfolding final insert validate_history commit_bundle
final_ok = refl

final_shows_100 : shown_amount final.current_states 4000 ≡ 100
unfolding final insert validate_history commit_bundle
final_shows_100 = refl

-- The chain knows every outpoint as spent: the new outputs are no historical ones.
abbrev spent : Evidence
spent = record evidence {
  outpoints =
      some (λ _. ok (record { known = true; exists = true; spent = true; spending_tx_id = none }));
}

validate_spent : validate services spent false container ≡ err outpoint_spend
unfolding validate insert validate_history commit_bundle
validate_spent = refl

container_canonical : BundlesCanonical evidence (field_or_zero "bundles" container.value)
unfolding field_or_zero
container_canonical = canonical

validate-conserves_example :
    supply nia (shown_amount final.current_states)
    ≤ supply nia (assigned_amount (field_or_zero "genesis" container.value))
validate-conserves_example =
    validate-conserves services evidence container final nia refl container_canonical final_ok

validate-Backed_example :
    All (Backed evidence.outpoints final.progress.prepared_witnesses) final.current_states
validate-Backed_example = validate-Backed services evidence container final final_ok

validate-Accounted_example :
    (historical : List ByteString) × (genesis_id : ByteString) × (historical_side_ops
        container.value final.progress.graph final.progress.bundle_ops final.progress.complete_graph
      ≡ ok historical)
    × (evidence.commit_genesis (field_or_zero "genesis" container.value) ≡ ok genesis_id)
    × All
        (Accounted evidence.outpoints
          (may_omit historical (is_genesis_only container.value) genesis_id)
          final.current_states)
        final.progress.states
validate-Accounted_example = validate-Accounted services evidence container final final_ok

-- A diamond: 4 has the parents 2 and 3, and both have the parent 1.
abbrev diamond : Graph
diamond =
    (4 ∷ [], record { bundle = 40 ∷ []; parents = (2 ∷ []) ∷ (3 ∷ []) ∷ [] })
    ∷ (3 ∷ [], record { bundle = 40 ∷ []; parents = (1 ∷ []) ∷ [] })
    ∷ (2 ∷ [], record { bundle = 20 ∷ []; parents = (1 ∷ []) ∷ [] })
    ∷ (1 ∷ [], record { bundle = 10 ∷ []; parents = [] })
    ∷ []

abbrev above : List ByteString
above = (3 ∷ []) ∷ (2 ∷ []) ∷ []

-- 3 lies in the receiving bundle itself.
diamond_walk : walk_all ((40 ∷ []) ∷ []) diamond above ≡ ok ((2 ∷ []) ∷ (1 ∷ []) ∷ [])
unfolding walk_all bytes_eq
diamond_walk = refl

cut_walk : walk_all [] [] above ≡ err input_unresolved
unfolding walk_all
cut_walk = refl

walk-ends_example :
    (r : Result (List ByteString)) × (walk
        (fuel_for diamond above)
        ((40 ∷ []) ∷ [])
        diamond
        above
        []
        []
      ≡ some r)
    × (walk_all ((40 ∷ []) ∷ []) diamond above ≡ r)
walk-ends_example = walk-ends ((40 ∷ []) ∷ []) diamond above

walk_all-ancestors_example :
    In ((2 ∷ []) ∷ (1 ∷ []) ∷ []) (1 ∷ [])
    ↔ (Reaches diamond above (1 ∷ []) × Outside ((40 ∷ []) ∷ []) diamond (1 ∷ []))
walk_all-ancestors_example =
    walk_all-ancestors ((40 ∷ []) ∷ []) diamond above ((2 ∷ []) ∷ (1 ∷ []) ∷ []) diamond_walk
      (1 ∷ [])
