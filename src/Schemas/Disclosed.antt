-- ===== src/Schemas/Disclosed.antt =====
-- The disclosed outputs of schemas/outputs.go against the amounts that an operation assigns.
use rgb.Prelude.{
  ℕ, ◌+◌, ◌%◌, ◌^◌, ◌≤◌, ◌≡◌, refl, Option, none, some, List, [], ◌∷◌, ◌++◌, leb, ◌==◌,
  if◌then◌else◌, Result, ok, String, str_eq, eq_iff, >>=-eq_ok, of_option-eq_ok, guard-eq_ok, arith,
  length,
}
use rgb.StrictTypes.Value.{
  Value, Entry, Kind, kind_eq, attributes, inner, pointee, kind, unwrap, field,
}
use rgb.StrictTypes.Numbers.{number, fungible_amount, sequence}
use rgb.Schemas.Types.{ResolvedInput, max_uint16}
use rgb.Schemas.Owned.{state_value}
use rgb.Schemas.Outputs.{
  RevealedOutput, resolved_state, revealed_body, revealed_output, prepend_revealed, revealed_items,
  revealed_entry, revealed_entries,
}
use rgb.Schemas.Amounts.{
  amount_or_zero, assignment_amount, class_amount, entry_amount, entry_assignments, keyed,
  typed_amount, read_assignments,
}

-- What outputs of the type `t` hold.
abbrev pub output_amount : ℕ → List RevealedOutput → ℕ
output_amount t [] = 0
output_amount t (o ∷ os) =
    (if o.assignment_type == t then o.state.amount else 0) + output_amount t os

output_amount-append :
    (t : ℕ) (xs ys : List RevealedOutput)
    → output_amount t (xs ++ ys) ≡ output_amount t xs + output_amount t ys
output_amount-append t [] ys = omega arith
output_amount-append t (x ∷ xs) ys = omega (arith, output_amount-append t xs ys)

resolved_state_amount :
    (class : String) (value : Value) (state : ResolvedInput)
    → resolved_state class value ≡ ok state
    → (state.class ≡ class)
      × (state.amount
          ≡ (if str_eq class "fungible" then amount_or_zero (fungible_amount value) else 0))
unfolding resolved_state
resolved_state_amount class value state e =
    ground (arith, eq_iff class "fungible", eq_iff class "declarative", eq_iff class "structured")

-- A revealed assignment holds its state where the validation looks for it.
revealed_state :
    (item body value : Value)
    → revealed_body item ≡ some body
    → field "state" (unwrap body) ≡ some value
    → state_value item ≡ ok value
unfolding revealed_body state_value
revealed_state item body value r s = ground arith

revealed_output_amount :
    (t : ℕ) (class : String) (index : ℕ) (item body : Value) (o : RevealedOutput)
    → revealed_body item ≡ some body
    → revealed_output t class index body ≡ ok o
    → (o.assignment_type ≡ t)
      × (o.state.class ≡ class)
      × (o.state.amount ≡ (if str_eq class "fungible" then assignment_amount item else 0))
unfolding revealed_output
revealed_output_amount t class index item body o r e =
    let (seal, has_seal, e1) = of_option-eq_ok _ (field "seal" (unwrap body)) _ e in
    let (value, has_value, e2) = of_option-eq_ok _ (field "state" (unwrap body)) _ e1 in
    let (state, resolved, done) = >>=-eq_ok (resolved_state class value) _ e2 in
    let (same, amount) = resolved_state_amount class value state resolved in
    finish seal value state same amount (revealed_state item body value r has_value) done
  where
    finish :
        (seal value : Value) (state : ResolvedInput)
        → state.class ≡ class
        → state.amount
          ≡ (if str_eq class "fungible" then amount_or_zero (fungible_amount value) else 0)
        → state_value item ≡ ok value
        → ◌≡◌ {A = Result RevealedOutput}
            (ok
              (record { assignment_type = t; index = index % 2 ^ 16; state = state; seal = seal }))
            (ok o)
        → (o.assignment_type ≡ t)
          × (o.state.class ≡ class)
          × (o.state.amount ≡ (if str_eq class "fungible" then assignment_amount item else 0))
    finish seal value state same amount found done = ground arith

class_amount-cons :
    (class : String) (a : Value) (rest : List Value)
    → class_amount class (a ∷ rest)
      ≡ (if str_eq class "fungible" then assignment_amount a else 0) + class_amount class rest
class_amount-cons class a rest = ground arith

prepend_amount :
    (t s : ℕ) (class : String) (index bound : ℕ) (item : Value) (shown : Option Value)
    (later : Result (List RevealedOutput)) (outs : List RevealedOutput)
    → revealed_body item ≡ shown
    → ((os : List RevealedOutput)
        → later ≡ ok os
        → output_amount s os ≤ (if t == s then bound else 0))
    → prepend_revealed t class index shown later ≡ ok outs
    → output_amount s outs ≤ (
        if t == s
        then (if str_eq class "fungible" then assignment_amount item else 0) + bound
        else 0)
unfolding prepend_revealed
prepend_amount t s class index bound item none later outs r ih e = ground (arith, ih outs e)
prepend_amount t s class index bound item (some body) later outs r ih e =
    let (o, here, e1) = >>=-eq_ok (revealed_output t class index body) _ e in
    let (os, there, done) = >>=-eq_ok later _ e1 in
    let (type, class', amount) = revealed_output_amount t class index item body o r here in
    finish o os type amount (ih os there) done
  where
    finish :
        (o : RevealedOutput) (os : List RevealedOutput)
        → o.assignment_type ≡ t
        → o.state.amount ≡ (if str_eq class "fungible" then assignment_amount item else 0)
        → output_amount s os ≤ (if t == s then bound else 0)
        → ◌≡◌ {A = Result (List RevealedOutput)} (ok (o ∷ os)) (ok outs)
        → output_amount s outs ≤ (
            if t == s
            then (if str_eq class "fungible" then assignment_amount item else 0) + bound
            else 0)
    finish o os type amount later' done = ground arith

items_amount :
    (t s : ℕ) (class : String) (index : ℕ) (items : List Value) (outs : List RevealedOutput)
    → revealed_items t class index items ≡ ok outs
    → output_amount s outs ≤ (if t == s then class_amount class items else 0)
unfolding revealed_items
items_amount t s class index [] outs e = ground arith
items_amount t s class index (item ∷ rest) outs e = ground (
  arith,
  class_amount-cons class item rest,
  prepend_amount t s class index (class_amount class rest) item (revealed_body item)
      (revealed_items t class (index + 1) rest) outs refl
      (λ os h. items_amount t s class (index + 1) rest os h) e,
)

entry_disclosed :
    (s : ℕ) (e : Entry) (outs : List RevealedOutput)
    → revealed_entry e ≡ ok outs
    → output_amount s outs ≤ (if keyed s e then entry_amount e else 0)
unfolding revealed_entry
entry_disclosed s e outs h =
    let (t, key, h1) = of_option-eq_ok _ (number e.key) _ h in
    let (union, h2) = guard-eq_ok (kind_eq (kind (unwrap e.value)) Kind.union) _ _ h1 in
    let (body, has_body, h3) = of_option-eq_ok _ (pointee (inner (unwrap e.value))) _ h2 in
    let (items, listed, h4) = of_option-eq_ok _ (sequence body) _ h3 in
    let (fits, h5) = guard-eq_ok (leb (length items) (max_uint16 + 1)) _ _ h4 in
    finish t items key (read_assignments e body items has_body listed)
      (items_amount t s _ 0 items outs h5)
  where
    finish :
        (t : ℕ) (items : List Value)
        → number e.key ≡ some t
        → entry_assignments e ≡ items
        → output_amount s outs
          ≤ (if t == s then class_amount (attributes (unwrap e.value)).name items else 0)
        → output_amount s outs ≤ (if keyed s e then entry_amount e else 0)
    finish t items key same bound = ground arith

-- The disclosed outputs of a type hold no more than the entries of that type.
pub entries_disclosed :
    (s : ℕ) (es : List Entry) (outs : List RevealedOutput)
    → revealed_entries es ≡ ok outs
    → output_amount s outs ≤ typed_amount s es
unfolding revealed_entries
entries_disclosed s [] outs h = ground arith
entries_disclosed s (e ∷ es) outs h =
    let (here, e1, h1) = >>=-eq_ok (revealed_entry e) _ h in
    let (later, e2, done) = >>=-eq_ok (revealed_entries es) _ h1 in
    finish here later (entry_disclosed s e here e1) (entries_disclosed s es later e2) done
  where
    finish :
        (here later : List RevealedOutput)
        → output_amount s here ≤ (if keyed s e then entry_amount e else 0)
        → output_amount s later ≤ typed_amount s es
        → ◌≡◌ {A = Result (List RevealedOutput)} (ok (here ++ later)) (ok outs)
        → output_amount s outs ≤ typed_amount s (e ∷ es)
    finish here later a b done = ground (arith, output_amount-append s here later)
