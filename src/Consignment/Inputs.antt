-- ===== src/Consignment/Inputs.antt =====
-- What the transitions of a history read, in the order in which consignment/validator.go runs them, and
-- how that relates to the references that it marks as consumed.
use rgb.Prelude.{
  ◌≡◌, refl, true, false, List, [], ◌∷◌, ◌++◌, ◌∙◌, ap, Result, ok, invalid_bundle, of_option,
  ◌>>=◌, All, then_ok, arith, sym, subst, Bool, if◌then◌else◌,
}
use rgb.Prelude.Keyed.{contains}
use rgb.StrictTypes.Value.{Value, unwrap, field}
use rgb.Schemas.Types.{InputRef, input_ref_beq}
use rgb.Consignment.Types.{input_ref_eq}
use rgb.Consignment.Operation.{transition_inputs}
use rgb.Consignment.History.{Evidence, Progress, consume}
use rgb.Consignment.Held.{DistinctRefs}
use rgb.Consignment.Spendable.{Fresh, beq_swap}

abbrev pub both : Result (List InputRef) → Result (List InputRef) → Result (List InputRef)
both first second = do refs ← first; more ← second; ok (refs ++ more)

-- The references that the transitions name as their inputs.
unfoldable pub transitions_inputs : List Value → Result (List InputRef)
transitions_inputs [] = ok []
transitions_inputs (t ∷ ts) = both (transition_inputs t) (transitions_inputs ts)

-- Those of a bundle, whose transitions are the ones that its commitment names.
unfoldable pub bundle_inputs : Evidence → Value → Result (List InputRef)
unfolding transitions_inputs
bundle_inputs evidence witness_bundle = do
  value ← of_option invalid_bundle (field "bundle" (unwrap witness_bundle))
  bundle ← evidence.commit_bundle value
  transitions_inputs bundle.transitions

unfoldable pub bundles_inputs : Evidence → List Value → Result (List InputRef)
unfolding bundle_inputs
bundles_inputs evidence [] = ok []
bundles_inputs evidence (b ∷ bs) = both (bundle_inputs evidence b) (bundles_inputs evidence bs)

consume-append :
    (refs more consumed : List InputRef)
    → consume (refs ++ more) consumed ≡ consume more (consume refs consumed)
unfolding consume
consume-append [] more consumed = refl
consume-append (r ∷ refs) more consumed = consume-append refs more (r ∷ consumed)

-- What was marked in order without a repetition has none in the order in which it was read.
consume-DistinctRefs :
    (refs consumed : List InputRef)
    → DistinctRefs (consume refs consumed)
    → DistinctRefs refs × All (Fresh consumed) refs × DistinctRefs consumed
unfolding consume contains
consume-DistinctRefs [] consumed d = (tt, tt, d)
consume-DistinctRefs (r ∷ refs) consumed d =
    let (distinct, fresh, (unmarked, before)) = consume-DistinctRefs refs (r ∷ consumed) d in
    ((not_among refs fresh, distinct), (unmarked, others refs fresh), before)
  where
    right : (a b : Bool) → (if a then true else b) ≡ false → b ≡ false
    right a b e = ground arith

    others : (list : List InputRef) → All (Fresh (r ∷ consumed)) list → All (Fresh consumed) list
    others [] f = tt
    others (j ∷ list) f = (right (input_ref_beq r j) (contains consumed j) f.0, others list f.1)

    left : (a b : Bool) → (if a then true else b) ≡ false → a ≡ false
    left a b e = ground arith

    neither : (a b : Bool) → a ≡ false → b ≡ false → (if a then true else b) ≡ false
    neither a b p q = ground arith

    not_among : (list : List InputRef) → All (Fresh (r ∷ consumed)) list → contains list r ≡ false
    not_among [] f = refl
    not_among (j ∷ list) f =
        neither (input_ref_beq j r) (contains list r)
          (beq_swap j r (left (input_ref_beq r j) (contains consumed j) f.0)) (not_among list f.1)

-- From one progress to another: the references that were read are the ones that were marked.
pub record Spends (p q : Progress) (read : Result (List InputRef)) : Type 0 where
  pub refs : List InputRef
  pub reads : read ≡ ok refs
  pub marked : q.consumed ≡ consume refs p.consumed
  pub distinct : DistinctRefs p.consumed → DistinctRefs q.consumed

pub no-Spends : (p q : Progress) → p ≡ q → Spends p q (ok [])
unfolding consume
no-Spends p q same = record {
  refs = [];
  reads = refl;
  marked = sym (ap (λ r. r.consumed) same);
  distinct = subst (λ r. DistinctRefs r.consumed) same;
}

pub both-Spends :
    (p q r : Progress) (first second : Result (List InputRef))
    → Spends p q first
    → Spends q r second
    → Spends p r (both first second)
both-Spends p q r first second a b = record {
  refs = a.refs ++ b.refs;
  reads = then_ok first _ a.reads (then_ok second _ b.reads refl);
  marked = b.marked ∙ ap (consume b.refs) a.marked ∙ sym (consume-append a.refs b.refs p.consumed);
  distinct = λ d. b.distinct (a.distinct d);
}

-- What starts with nothing marked has read no reference twice.
pub Spends-DistinctRefs :
    (p q : Progress) (read : Result (List InputRef))
    → p.consumed ≡ []
    → Spends p q read
    → (refs : List InputRef) × (read ≡ ok refs) × DistinctRefs refs
Spends-DistinctRefs p q read empty s =
    let none_marked = subst DistinctRefs (sym empty) tt in
    (
      s.refs,
      s.reads,
      (consume-DistinctRefs s.refs p.consumed
          (subst DistinctRefs s.marked (s.distinct none_marked))).0,
    )
