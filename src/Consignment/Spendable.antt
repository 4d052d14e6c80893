-- ===== src/Consignment/Spendable.antt =====
-- The input checks of consignment/validator.go, and the references that they mark as consumed.
use rgb.Prelude.{
  ◌≡◌, refl, Bool, true, false, not, some, List, [], ◌∷◌, ok, All, after_ok, after_some,
  after_guard, arith, sym, if◌then◌else◌, Bool-cases, inl, inr,
}
use rgb.Prelude.Bytes.{ByteString}
use rgb.Prelude.Keyed.{lookup, contains}
use rgb.StrictTypes.Value.{Value}
use rgb.Schemas.Types.{InputRef, input_ref_beq}
use rgb.Consignment.Types.{ValidatedOutput, States, input_ref_eq, input_ref_iff}
use rgb.Consignment.Operation.{input_map_commits}
use rgb.Consignment.Outpoints.{tx_spends}
use rgb.Consignment.History.{Witness, Evidence, check_unspent, check_input, check_inputs, consume}
use rgb.Consignment.Held.{DistinctRefs}

-- What the validator has seen of an input that it lets pass.
pub record Spendable (evidence : Evidence) (input_map : Value) (witness : Witness)
    (operation_id : ByteString) (states : States) (consumed : List InputRef) (input : InputRef)
    : Type 0 where
  pub committed : input_map_commits input_map input operation_id ≡ true
  pub fresh : contains consumed input ≡ false
  pub previous : ValidatedOutput
  pub live : lookup input states ≡ some previous
  pub closed : tx_spends witness.tx previous.outpoint ≡ true
  pub unspent : check_unspent evidence witness previous.outpoint ≡ ok tt

not-true : (b : Bool) → not b ≡ true → b ≡ false
not-true true h = cc
not-true false h = refl

check_input-Spendable :
    (evidence : Evidence) (input_map : Value) (witness : Witness) (operation_id : ByteString)
    (states : States) (consumed : List InputRef) (input : InputRef)
    → check_input evidence input_map witness operation_id states consumed input ≡ ok tt
    → Spendable evidence input_map witness operation_id states consumed input
unfolding check_input
check_input-Spendable evidence input_map witness operation_id states consumed input h =
    after_guard (input_map_commits input_map input operation_id) _ _ h λ committed h1.
      after_guard (not (contains consumed input)) _ _ h1 λ fresh h2.
        after_some _ (lookup input states) _ h2 λ previous live h3.
          after_guard (tx_spends witness.tx previous.outpoint) _ _ h3 λ closed unspent. record {
            committed = committed;
            fresh = not-true (contains consumed input) fresh;
            previous = previous;
            live = live;
            closed = closed;
            unspent = unspent;
          }

-- The inputs of an operation pass only when each of them is committed by the bundle, has not
-- been consumed, is live, and its seal is closed by the witness transaction.
pub check_inputs-Spendable :
    (evidence : Evidence) (input_map : Value) (witness : Witness) (operation_id : ByteString)
    (states : States) (consumed : List InputRef) (inputs : List InputRef)
    → check_inputs evidence input_map witness operation_id states consumed inputs ≡ ok tt
    → All (Spendable evidence input_map witness operation_id states consumed) inputs
unfolding check_inputs
check_inputs-Spendable evidence input_map witness operation_id states consumed [] h = tt
check_inputs-Spendable evidence input_map witness operation_id states consumed (i ∷ rest) h =
    after_ok (check_input evidence input_map witness operation_id states consumed i) _ h
      λ _ first h1. (
        check_input-Spendable evidence input_map witness operation_id states consumed i first,
        check_inputs-Spendable evidence input_map witness operation_id states consumed rest h1,
      )

abbrev pub Fresh : List InputRef → InputRef → Type 0
Fresh consumed input = contains consumed input ≡ false

pub Spendable-Fresh :
    (evidence : Evidence) (input_map : Value) (witness : Witness) (operation_id : ByteString)
    (states : States) (consumed : List InputRef) (inputs : List InputRef)
    → All (Spendable evidence input_map witness operation_id states consumed) inputs
    → All (Fresh consumed) inputs
Spendable-Fresh evidence input_map witness operation_id states consumed [] h = tt
Spendable-Fresh evidence input_map witness operation_id states consumed (i ∷ rest) h =
    (h.0.fresh, Spendable-Fresh evidence input_map witness operation_id states consumed rest h.1)

pub beq_swap : (a b : InputRef) → input_ref_beq b a ≡ false → input_ref_beq a b ≡ false
beq_swap a b h = elim (Bool-cases (input_ref_beq a b)) [
  | inl same ↦ absurd (cc (h, (input_ref_iff b a).1 (sym ((input_ref_iff a b).0 same))))
  | inr other ↦ other
]

Fresh-step :
    (input : InputRef) (consumed rest : List InputRef)
    → contains rest input ≡ false
    → All (Fresh consumed) rest
    → All (Fresh (input ∷ consumed)) rest
unfolding contains
Fresh-step input consumed [] h f = tt
Fresh-step input consumed (j ∷ rest) h f =
    let (ne, later) = split (input_ref_beq j input) (contains rest input) h in
    (
      join (input_ref_beq input j) (contains consumed j) (beq_swap input j ne) f.0,
      Fresh-step input consumed rest later f.1,
    )
  where
    split : (a b : Bool) → (if a then true else b) ≡ false → (a ≡ false) × (b ≡ false)
    split a b e = ground arith

    join : (a b : Bool) → a ≡ false → b ≡ false → (if a then true else b) ≡ false
    join a b p q = ground arith

pub consume-Distinct :
    (inputs consumed : List InputRef)
    → DistinctRefs inputs
    → All (Fresh consumed) inputs
    → DistinctRefs consumed
    → DistinctRefs (consume inputs consumed)
unfolding consume
consume-Distinct [] consumed d f c = c
consume-Distinct (i ∷ rest) consumed d f c =
    consume-Distinct rest (i ∷ consumed) d.1 (Fresh-step i consumed rest d.0 f.1) (f.0, c)
