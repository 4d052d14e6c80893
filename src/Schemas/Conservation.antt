-- ===== src/Schemas/Conservation.antt =====
-- An accepted operation creates no supply: `ValidateTransition` of schemas/transition.go.
use rgb.Prelude.{ℕ, ◌≤◌, ◌≡◌, some, List, ok, after_some, arith, sym, ◌∙◌, subst}
use rgb.Prelude.Keyed.{nat_eq}
use rgb.StrictTypes.Value.{Value, Entry, kind, field}
use rgb.StrictTypes.Numbers.{entries}
use rgb.Schemas.Types.{AssetKind, TransitionContext, Services}
use rgb.Schemas.Outputs.{RevealedOutput, revealed_outputs}
use rgb.Schemas.Transition.{Resolver, TransitionValidation, validate_transition}
use rgb.Schemas.Amounts.{DistinctKeys, typed_amount}
use rgb.Schemas.Disclosed.{output_amount, entries_disclosed}
use rgb.Schemas.Supplies.{assigned_entries, assigned_amount, resolved_amount, supply, read_entries}
use rgb.Schemas.ScriptRun.{script_run, validate_transition-Declared, check_transition-Checked}
use rgb.Schemas.Rules.{script_conserves, script_transfer_exact, supply_cong, supply_mono}

module _ (services : Services) (schema type_system transition : Value) (context : TransitionContext)
    (resolver : Resolver) (r : TransitionValidation)
    (distinct : DistinctKeys (assigned_entries transition))
    (accepted : validate_transition services schema type_system transition context (some resolver)
      ≡ ok r) where
  -- A transition that `ValidateTransition` accepts assigns no more supply than its inputs resolve
  -- to: all assigned amounts, confidential ones included, are added up as natural numbers, so no
  -- uint64 wrap-round hides an excess. The supply is the asset's amount and, for IFA, the right
  -- to inflate; the entries of the assignment map have distinct types.
  pub validate_transition-conserves :
      supply r.kind (assigned_amount transition)
      ≤ supply r.kind (resolved_amount resolver transition)
  validate_transition-conserves =
      let run =
        script_run services schema type_system transition context resolver r distinct accepted in
      let kept = script_conserves services r.kind run.script run.bounded run.passed in
      omega (
        arith,
        kept,
        supply_cong r.kind _ (resolved_amount resolver transition) run.given,
        supply_cong r.kind _ (assigned_amount transition) run.assigned,
      )

  -- An accepted transfer, transition type 10000, assigns exactly the supply that its inputs
  -- resolve to, under every fungible schema; the entries of the assignment map have distinct types.
  pub transfer-exact :
      r.transition_type ≡ 10000
      → supply r.kind (assigned_amount transition)
        ≡ supply r.kind (resolved_amount resolver transition)
  transfer-exact h =
      let run =
        script_run services schema type_system transition context resolver r distinct accepted in
      let kept = script_transfer_exact services r.kind run.script (run.same_type ∙ h) run.passed in
      omega (
        arith,
        kept,
        supply_cong r.kind _ (resolved_amount resolver transition) run.given,
        supply_cong r.kind _ (assigned_amount transition) run.assigned,
      )

revealed-le-assigned :
    (operation : Value) (outs : List RevealedOutput) (t : ℕ)
    → revealed_outputs operation ≡ ok outs
    → output_amount t outs ≤ assigned_amount operation t
unfolding revealed_outputs
revealed-le-assigned operation outs t h =
    after_some _ (field "assignments" operation) _ h λ v has h1.
      after_some _ (entries v) _ h1 λ es listed h2.
        finish es (read_entries operation v es has listed) (entries_disclosed t es outs h2)
  where
    finish :
        (es : List Entry)
        → assigned_entries operation ≡ es
        → output_amount t outs ≤ typed_amount t es
        → output_amount t outs ≤ assigned_amount operation t
    finish es same bound = subst (λ x. output_amount t outs ≤ typed_amount t x) (sym same) bound

-- The disclosed outputs of an operation hold no more supply than it assigns.
pub disclosed-le-assigned :
    (kind : AssetKind) (operation : Value) (outs : List RevealedOutput)
    → revealed_outputs operation ≡ ok outs
    → supply kind (λ t. output_amount t outs) ≤ supply kind (assigned_amount operation)
disclosed-le-assigned kind operation outs h =
    supply_mono kind (λ t. output_amount t outs) (assigned_amount operation)
      (λ t. revealed-le-assigned operation outs t h)

-- The kind and the operation of a report are those of the catalog and of the commitment.
pub validate_transition_names :
    (services : Services) (schema type_system transition : Value) (context : TransitionContext)
    (resolver : Resolver) (r : TransitionValidation)
    → validate_transition services schema type_system transition context (some resolver) ≡ ok r
    → (services.schema_kind schema ≡ ok r.kind)
      × (services.commit_transition transition ≡ ok r.operation_id)
validate_transition_names services schema type_system transition context resolver r h =
    let a =
      validate_transition-Declared services schema type_system transition context resolver r h in
    let c =
      check_transition-Checked services a.kind a.operation_id a.decode schema a.type_id
        a.transition_schema transition context resolver r a.checked in
    (cc (a.is_kind, c.reports), cc (a.committed, c.reports))
