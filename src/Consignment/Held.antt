-- ===== src/Consignment/Held.antt =====
-- What the live states of consignment/validator.go hold, and how the deletion of inputs changes it.
use rgb.Prelude.{
  ℕ, Bool-cases, Option-cases, inl, inr, input_unresolved, ◌+◌, ◌≤◌, ◌≡◌, refl, Bool, true, false,
  none, some, List, [], ◌∷◌, ◌==◌, if◌then◌else◌, Result, ok, err, after_ok, after_some, arith, sym,
}
use rgb.Prelude.Keyed.{
  lookup, remove, contains, total, total-remove, total-remove_found, lookup-remove, nat_eq,
}
use rgb.StrictTypes.Value.{Value, field}
use rgb.StrictTypes.Numbers.{sequence}
use rgb.Schemas.Types.{input_ref_beq, InputRef}
use rgb.Schemas.Transition.{Resolver, input_opout}
use rgb.Schemas.Resolved.{fungible_part, input_amount, inputs_amount}
use rgb.Schemas.Supplies.{resolved_amount}
use rgb.Consignment.Types.{input_ref_iff, ValidatedOutput, States, input_ref_eq}
use rgb.Consignment.Operation.{input_refs, transition_inputs}
use rgb.Consignment.History.{state_resolver, delete_all}

-- What the live allocation of a reference counts toward the type `t`.
abbrev pub allocation : ℕ → InputRef → ValidatedOutput → ℕ
allocation t ref output = if ref.assignment_type == t then fungible_part output.state else 0

abbrev pub live_amount : States → ℕ → ℕ
live_amount states t = total (allocation t) states

-- The references are pairwise different, as the decoder of strict sets makes sure.
abbrev pub DistinctRefs : List InputRef → Type 0
DistinctRefs [] = Unit
DistinctRefs (ref ∷ refs) = (contains refs ref ≡ false) × DistinctRefs refs

abbrev pub refs_amount : ℕ → Resolver → List InputRef → ℕ
refs_amount t resolver [] = 0
refs_amount t resolver (ref ∷ refs) =
    input_amount t resolver (some ref) + refs_amount t resolver refs

input_refs_amount :
    (t : ℕ) (resolver : Resolver) (values : List Value) (refs : List InputRef)
    → input_refs values ≡ ok refs
    → inputs_amount t resolver values ≡ refs_amount t resolver refs
unfolding input_refs
input_refs_amount t resolver [] refs h = ground arith
input_refs_amount t resolver (v ∷ vs) refs h = after_some _ (input_opout v) _ h λ ref named h1.
    after_ok (input_refs vs) _ h1
      λ rest read done. finish ref rest named (input_refs_amount t resolver vs rest read) done
  where
    finish :
        (ref : InputRef) (rest : List InputRef)
        → input_opout v ≡ some ref
        → inputs_amount t resolver vs ≡ refs_amount t resolver rest
        → ◌≡◌ {A = Result (List InputRef)} (ok (ref ∷ rest)) (ok refs)
        → inputs_amount t resolver (v ∷ vs) ≡ refs_amount t resolver refs
    finish ref rest named same done = ground arith

pub transition_inputs_amount :
    (t : ℕ) (resolver : Resolver) (transition : Value) (refs : List InputRef)
    → transition_inputs transition ≡ ok refs
    → resolved_amount resolver transition t ≡ refs_amount t resolver refs
unfolding transition_inputs
transition_inputs_amount t resolver transition refs h =
    after_some _ (field "inputs" transition) _ h λ v has h1.
      after_some _ (sequence v) _ h1
        λ values listed h2. finish v values has listed (input_refs_amount t resolver values refs h2)
  where
    finish :
        (v : Value) (values : List Value)
        → field "inputs" transition ≡ some v
        → sequence v ≡ some values
        → inputs_amount t resolver values ≡ refs_amount t resolver refs
        → resolved_amount resolver transition t ≡ refs_amount t resolver refs
    finish v values has listed same = ground arith

-- A resolver finds at a reference what it found before another one was removed.
resolver-remove :
    (states : States) (removed ref : InputRef)
    → input_ref_beq ref removed ≡ false
    → state_resolver (remove removed states) ref ≡ state_resolver states ref
unfolding state_resolver
resolver-remove states removed ref h = elim (Bool-cases (input_ref_beq removed ref)) [
  | inl same ↦ absurd (differ same)
  | inr other ↦ ground (arith, lookup-remove removed ref states, other)
]
  where
    differ : input_ref_beq removed ref ≡ true → ⊥
    differ same =
        let e : ref ≡ removed = sym ((input_ref_iff removed ref).0 same) in
        cc (h, (input_ref_iff ref removed).1 e)

refs_amount-remove :
    (t : ℕ) (states : States) (removed : InputRef) (refs : List InputRef)
    → contains refs removed ≡ false
    → refs_amount t (state_resolver (remove removed states)) refs
      ≡ refs_amount t (state_resolver states) refs
unfolding contains
refs_amount-remove t states removed [] h = refl
refs_amount-remove t states removed (ref ∷ refs) h =
    let (here, there) = split (input_ref_beq ref removed) (contains refs removed) h in
    ground (
      arith,
      resolver-remove states removed ref here,
      refs_amount-remove t states removed refs there,
    )
  where
    split : (a b : Bool) → (if a then true else b) ≡ false → (a ≡ false) × (b ≡ false)
    split a b e = ground arith

remove_amount :
    (t : ℕ) (ref : InputRef) (states : States)
    → live_amount (remove ref states) t + input_amount t (state_resolver states) (some ref)
      ≤ live_amount states t
remove_amount t ref states = elim (Option-cases (lookup ref states)) [
  | inl absent ↦ ground (arith, unfold_none absent, total-remove (allocation t) ref states)
  | inr (output, found) ↦
      ground
        (arith, unfold_some output found, total-remove_found (allocation t) ref output states found)
]
  where
    unfold_none : lookup ref states ≡ none → state_resolver states ref ≡ err input_unresolved
    unfold_none e = unfold state_resolver in ground (arith, e)

    unfold_some :
        (output : ValidatedOutput)
        → lookup ref states ≡ some output
        → state_resolver states ref ≡ ok output.state
    unfold_some output e = unfold state_resolver in ground (arith, e)

-- Deleting the inputs takes away at least what they resolve to.
pub delete_amount :
    (t : ℕ) (refs : List InputRef) (states : States)
    → DistinctRefs refs
    → live_amount (delete_all refs states) t + refs_amount t (state_resolver states) refs
      ≤ live_amount states t
unfolding delete_all
delete_amount t [] states d = omega arith
delete_amount t (ref ∷ refs) states d = omega (
  arith,
  remove_amount t ref states,
  delete_amount t refs (remove ref states) d.1,
  refs_amount-remove t states ref refs d.0,
)
