-- ===== src/Operations/InputValues.antt =====
-- The operations that an input map names, as `CommitBundle` of operations/bundle.go collects them.
use rgb.Prelude.{
  ◌≡◌, ◌↔◌, ◌⊎◌, ◌∙◌, ap, sym, true, some, List, [], ◌∷◌, ◌==◌, length, ok, after_some, after_guard,
  arith, subst, Bool-cases, inl, inr,
}
use rgb.Prelude.Bytes.{ByteString, bytes_eq, bytes_eq→eq, bytes_eq_refl}
use rgb.Prelude.Keyed.{contains, bytes_eq_instance}
use rgb.StrictTypes.Value.{Entry, bytes_of}
use rgb.Operations.Bundle.{add_operation, input_operations_of}

-- Among the values of the entries.
abbrev pub IsValue : List Entry → ByteString → Type 0
IsValue [] id = ⊥
IsValue (e ∷ es) id = (bytes_of e.value ≡ some id) ⊎ IsValue es id

-- A list holds exactly the values of the entries.
abbrev pub IsValues : List Entry → List ByteString → Type 0
IsValues es ids = (id : ByteString) → (contains ids id ≡ true) ↔ IsValue es id

contains-add_operation :
    (new id : ByteString) (ids : List ByteString)
    → (contains (add_operation new ids) id ≡ true) ↔ ((new ≡ id) ⊎ (contains ids id ≡ true))
unfolding add_operation contains
contains-add_operation new id ids = (to, from)
  where
    is_same : bytes_eq new id ≡ true → new ≡ id
    is_same = bytes_eq→eq new id

    to : contains (add_operation new ids) id ≡ true → (new ≡ id) ⊎ (contains ids id ≡ true)
    to h = elim (Bool-cases (contains ids id)) [
      | inl old ↦ inr old
      | inr absent ↦ elim (Bool-cases (bytes_eq new id)) [
        | inl same ↦ inl (is_same same)
        | inr other ↦ absurd (ground (arith, absent, other, h))
      ]
    ]

    added : contains (add_operation new ids) new ≡ true
    added = elim (Bool-cases (contains ids new)) [
      | inl old ↦ ground (arith, old)
      | inr fresh ↦ ground (arith, fresh, bytes_eq_refl new)
    ]

    from : (new ≡ id) ⊎ (contains ids id ≡ true) → contains (add_operation new ids) id ≡ true
    from (inl same) = subst (λ i. contains (add_operation new ids) i ≡ true) same added
    from (inr old) = ground (arith, old)

input_operations-values :
    (es : List Entry) (found r : List ByteString)
    → input_operations_of es found ≡ ok r
    → (id : ByteString) → (contains r id ≡ true) ↔ (IsValue es id ⊎ (contains found id ≡ true))
unfolding input_operations_of
input_operations-values [] found r h id =
    let same : found ≡ r = cc in
    (
      λ c. inr (subst (λ l. contains l id ≡ true) (sym same) c),
      λ c. elim c [
        | inl none' ↦ absurd none'
        | inr held ↦ subst (λ l. contains l id ≡ true) same held
      ],
    )
input_operations-values (e ∷ es) found r h id = after_some _ (bytes_of e.value) _ h λ opid read h1.
    after_guard (length opid == 32) _ _ h1 λ _ h2.
      let (to, from) = input_operations-values es (add_operation opid found) r h2 id in
      let (added, adds) = contains-add_operation opid id found in
      (λ c. there opid read added (to c), λ c. from (back opid read adds c))
  where
    there :
        (opid : ByteString)
        → bytes_of e.value ≡ some opid
        → (contains (add_operation opid found) id ≡ true → (opid ≡ id) ⊎ (contains found id ≡ true))
        → IsValue es id ⊎ (contains (add_operation opid found) id ≡ true)
        → IsValue (e ∷ es) id ⊎ (contains found id ≡ true)
    there opid read added (inl later) = inl (inr later)
    there opid read added (inr c) = elim (added c) [
      | inl same ↦ inl (inl (read ∙ ap (λ i. some i) same))
      | inr held ↦ inr held
    ]

    back :
        (opid : ByteString)
        → bytes_of e.value ≡ some opid
        → ((opid ≡ id) ⊎ (contains found id ≡ true) → contains (add_operation opid found) id ≡ true)
        → IsValue (e ∷ es) id ⊎ (contains found id ≡ true)
        → IsValue es id ⊎ (contains (add_operation opid found) id ≡ true)
    back opid read adds (inl (inl here)) = (let same : opid ≡ id = cc in inr (adds (inl same)))
    back opid read adds (inl (inr later)) = inl later
    back opid read adds (inr held) = inr (adds (inr held))

no_member : (id : ByteString) → ¬ (contains [] id ≡ true)
unfolding contains
no_member id h = absurd (cc)

pub input_operations-IsValues :
    (es : List Entry) (ids : List ByteString) → input_operations_of es [] ≡ ok ids → IsValues es ids
input_operations-IsValues es ids listed id =
    let (to, from) = input_operations-values es [] ids listed id in
    (λ c. elim (to c) [ inl v ↦ v | inr held ↦ absurd (no_member id held) ], λ v. from (inl v))
