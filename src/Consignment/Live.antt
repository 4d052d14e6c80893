-- ===== src/Consignment/Live.antt =====
-- How `registerOutputs` and the deletion of inputs of consignment/validator.go change the supply.
use rgb.Prelude.{
  ℕ, ◌+◌, ◌≤◌, ◌≡◌, refl, List, [], ◌∷◌, ◌==◌, if◌then◌else◌, Result, ok, after_ok, arith,
}
use rgb.Prelude.Bytes.{ByteString}
use rgb.Prelude.Keyed.{insert, total, total-insert, nat_eq}
use rgb.StrictTypes.Value.{Value, kind}
use rgb.Schemas.Types.{AssetKind, nia, ifa, pfa, cfa, uda, InputRef, owned_asset, owned_inflation}
use rgb.Schemas.Outputs.{RevealedOutput, revealed_outputs}
use rgb.Schemas.Disclosed.{output_amount}
use rgb.Schemas.Supplies.{supply, assigned_amount, resolved_amount}
use rgb.Schemas.Conservation.{disclosed-le-assigned}
use rgb.Consignment.Types.{CarrierBinding, ValidatedOutput, States, input_ref_eq}
use rgb.Consignment.Operation.{
  transition_inputs, register_output, register_all, register_outputs, assignment_outpoint,
  canonical_seal_disclosure,
}
use rgb.Consignment.History.{state_resolver, delete_all}
use rgb.Consignment.Held.{
  allocation, live_amount, DistinctRefs, transition_inputs_amount, delete_amount,
}

register_output_amount :
    (t : ℕ) (states states' : States) (operation_id witness_tx_id : ByteString)
    (carrier : CarrierBinding) (output : RevealedOutput)
    → register_output states operation_id witness_tx_id carrier output ≡ ok states'
    → live_amount states' t
      ≤ live_amount states t + (if output.assignment_type == t then output.state.amount else 0)
unfolding register_output
register_output_amount t states states' operation_id witness_tx_id carrier output h =
    after_ok (assignment_outpoint output.seal witness_tx_id) _ h λ seal _ h1.
      after_ok (canonical_seal_disclosure seal.0 seal.1 seal.2) _ h1 λ disclosure _ done.
        let ref : InputRef = record {
          operation_id = operation_id;
          assignment_type = output.assignment_type;
          index = output.index;
        } in
        let validated : ValidatedOutput = record {
          state = output.state;
          outpoint = seal.0;
          seal_disclosure = disclosure;
          seal_blinding = seal.1;
          witness_tx_ptr = seal.2;
          witness_tx_id = witness_tx_id;
          carrier_binding = carrier;
        } in
        finish ref validated refl refl (total-insert (allocation t) ref validated states) done
  where
    finish :
        (ref : InputRef) (validated : ValidatedOutput)
        → ref.assignment_type ≡ output.assignment_type
        → validated.state ≡ output.state
        → total (allocation t) (insert ref validated states)
          ≤ allocation t ref validated + total (allocation t) states
        → ◌≡◌ {A = Result States} (ok (insert ref validated states)) (ok states')
        → live_amount states' t
          ≤ live_amount states t + (if output.assignment_type == t then output.state.amount else 0)
    finish ref validated type state bound done = ground arith

register_all_amount :
    (t : ℕ) (states states' : States) (operation_id witness_tx_id : ByteString)
    (carrier : CarrierBinding) (outs : List RevealedOutput)
    → register_all states operation_id witness_tx_id carrier outs ≡ ok states'
    → live_amount states' t ≤ live_amount states t + output_amount t outs
unfolding register_all
register_all_amount t states states' operation_id witness_tx_id carrier [] h = ground arith
register_all_amount t states states' operation_id witness_tx_id carrier (o ∷ os) h =
    after_ok (register_output states operation_id witness_tx_id carrier o) _ h λ next first h1.
      omega (
        arith,
        register_output_amount t states next operation_id witness_tx_id carrier o first,
        register_all_amount t next states' operation_id witness_tx_id carrier os h1,
      )

supply-add :
    (kind : AssetKind) (f g h : ℕ → ℕ)
    → ((t : ℕ) → f t ≤ g t + h t)
    → supply kind f ≤ supply kind g + supply kind h
supply-add nia f g h e = e owned_asset
supply-add cfa f g h e = e owned_asset
supply-add pfa f g h e = e owned_asset
supply-add ifa f g h e = omega (arith, e owned_asset, e owned_inflation)
supply-add uda f g h e = omega arith

-- Registering the disclosed outputs adds no more supply than the operation assigns.
pub register_outputs-supply :
    (kind : AssetKind) (states states' : States) (operation_id witness_tx_id : ByteString)
    (carrier : CarrierBinding) (operation : Value)
    → register_outputs states operation_id operation witness_tx_id carrier ≡ ok states'
    → supply kind (live_amount states')
      ≤ supply kind (live_amount states) + supply kind (assigned_amount operation)
unfolding register_outputs
register_outputs-supply kind states states' operation_id witness_tx_id carrier operation h =
    after_ok (revealed_outputs operation) _ h λ outs revealed h1. omega (
      arith,
      supply-add kind (live_amount states') (live_amount states) (λ t. output_amount t outs)
          (λ t. register_all_amount t states states' operation_id witness_tx_id carrier outs h1),
      disclosed-le-assigned kind operation outs revealed,
    )

supply-take :
    (kind : AssetKind) (f g h : ℕ → ℕ)
    → ((t : ℕ) → f t + g t ≤ h t)
    → supply kind f + supply kind g ≤ supply kind h
supply-take nia f g h e = e owned_asset
supply-take cfa f g h e = e owned_asset
supply-take pfa f g h e = e owned_asset
supply-take ifa f g h e = omega (arith, e owned_asset, e owned_inflation)
supply-take uda f g h e = omega arith

-- Deleting the inputs of a transition takes away what they resolve to.
pub supply-delete_all :
    (kind : AssetKind) (inputs : List InputRef) (states : States) (transition : Value)
    → transition_inputs transition ≡ ok inputs
    → DistinctRefs inputs
    → supply kind (live_amount (delete_all inputs states))
        + supply kind (resolved_amount (state_resolver states) transition)
      ≤ supply kind (live_amount states)
supply-delete_all kind inputs states transition read d =
    supply-take kind (live_amount (delete_all inputs states))
      (resolved_amount (state_resolver states) transition) (live_amount states)
      λ t. omega (
        arith,
        transition_inputs_amount t (state_resolver states) transition inputs read,
        delete_amount t inputs states d,
      )
