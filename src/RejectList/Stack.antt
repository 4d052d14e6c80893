-- ===== src/RejectList/Stack.antt =====
-- The stack of the search of rejectlist/rejectlist.go, and what is left to push on it.
use rgb.Prelude.{
  ◌+◌, ◌≤◌, ◌≡◌, true, false, List, [], ◌∷◌, length, arith, ◌⊎◌, inl, inr, subst, Bool-cases,
}
use rgb.Prelude.Keyed.{lookup, contains, total, =?-refl}
use rgb.Schemas.Types.{input_ref_beq}
use rgb.Consignment.Types.{input_ref_eq, input_ref_iff}
use rgb.RejectList.{Opout, Dag, parents_in, push_each, pushes}

abbrev pub In : List Opout → Opout → Type 0
In ids id = contains ids id ≡ true

pub In-tail : (x id : Opout) (ids : List Opout) → In ids id → In (x ∷ ids) id
unfolding contains
In-tail x id ids h = ground (arith, h)

pub In-head : (id : Opout) (ids : List Opout) → In (id ∷ ids) id
unfolding contains
In-head id ids = ground (arith, =?-refl id)

pub In-cons : (x id : Opout) (ids : List Opout) → In (x ∷ ids) id → (x ≡ id) ⊎ In ids id
unfolding contains
In-cons x id ids h = elim (Bool-cases (input_ref_beq x id)) [
  | inl same ↦ inl ((input_ref_iff x id).0 same)
  | inr other ↦ inr (ground (arith, other, h))
]

pub length-push_each :
    (ids stack : List Opout) → length (push_each ids stack) ≡ length ids + length stack
unfolding push_each
length-push_each [] stack = omega arith
length-push_each (id ∷ ids) stack = omega (arith, length-push_each ids (id ∷ stack))

pub In-push_each :
    (ids stack : List Opout) (id : Opout) → In (push_each ids stack) id → In ids id ⊎ In stack id
unfolding push_each
In-push_each [] stack id h = inr h
In-push_each (x ∷ ids) stack id h = elim (In-push_each ids (x ∷ stack) id h) [
  | inl there ↦ inl (In-tail x id ids there)
  | inr later ↦ elim (In-cons x id stack later) [
    | inl same ↦ inl (subst (λ y. In (x ∷ ids) y) same (In-head x ids))
    | inr there ↦ inr there
  ]
]

pub push_each-keeps :
    (ids stack : List Opout) (id : Opout) → In ids id ⊎ In stack id → In (push_each ids stack) id
unfolding push_each
push_each-keeps [] stack id (inl h) = absurd (unfold contains in cc)
push_each-keeps [] stack id (inr h) = h
push_each-keeps (x ∷ ids) stack id (inl h) = elim (In-cons x id ids h) [
  | inl same ↦
      push_each-keeps ids (x ∷ stack) id
        (inr (subst (λ y. In (x ∷ stack) y) same (In-head x stack)))
  | inr there ↦ push_each-keeps ids (x ∷ stack) id (inl there)
]
push_each-keeps (x ∷ ids) stack id (inr h) =
    push_each-keeps ids (x ∷ stack) id (inr (In-tail x id stack h))

pub total-seen :
    (id : Opout) (seen : List Opout) (dag : Dag)
    → total (pushes (id ∷ seen)) dag ≤ total (pushes seen) dag
unfolding total contains
total-seen id seen [] = omega arith
total-seen id seen ((key, parents) ∷ rest) = ground (arith, total-seen id seen rest)

pub total-drops :
    (id : Opout) (seen : List Opout) (dag : Dag)
    → contains seen id ≡ false
    → total (pushes (id ∷ seen)) dag + length (parents_in dag id) ≤ total (pushes seen) dag
unfolding total contains parents_in lookup
total-drops id seen [] fresh = omega arith
total-drops id seen ((key, parents) ∷ rest) fresh = elim (Bool-cases (input_ref_beq key id)) [
  | inl same ↦
      ground (arith, same, (input_ref_iff key id).0 same, =?-refl id, total-seen id seen rest)
  | inr other ↦ ground (arith, other, total-drops id seen rest fresh)
]
