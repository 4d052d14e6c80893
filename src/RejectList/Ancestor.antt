-- ===== src/RejectList/Ancestor.antt =====
-- What the search of rejectlist/rejectlist.go finds.
use rgb.Prelude.{
  ℕ, zero, suc, ◌+◌, ◌<◌, ◌≡◌, refl, true, false, Option, none, some, List, [], ◌∷◌, length, arith,
  ◌⊎◌, inl, inr, subst, Bool-cases,
}
use rgb.Prelude.Keyed.{contains, total}
use rgb.Consignment.Types.{input_ref_eq}
use rgb.RejectList.{
  Opout, RejectList, Dag, parents_in, push_each, search_stack, pushes, search_fuel,
  rejected_ancestor,
}
use rgb.RejectList.Stack.{
  In, In-tail, In-head, In-cons, length-push_each, In-push_each, push_each-keeps, total-seen,
  total-drops,
}

-- The outputs on a path of parents from the checked one on which every output before the last is
-- neither allowed nor rejected.
pub data Exposed (l : RejectList) (dag : Dag) (checked : Opout) : Opout → Type 0 where
  itself : Exposed l dag checked checked
  parent :
      (child id : Opout)
      → Exposed l dag checked child
      → contains l.allow child ≡ false
      → contains l.reject child ≡ false
      → In (parents_in dag child) id
      → Exposed l dag checked id

pub record IsRejected (l : RejectList) (dag : Dag) (checked id : Opout) : Type 0 where
  pub exposed : Exposed l dag checked id
  pub not_allowed : contains l.allow id ≡ false
  pub rejected : contains l.reject id ≡ true

-- What an answer says.
abbrev pub Verdict : RejectList → Dag → Opout → Option Opout → Type 0
Verdict l dag checked (some id) = IsRejected l dag checked id
Verdict l dag checked none =
    (id : Opout)
    → Exposed l dag checked id
    → contains l.allow id ≡ false
    → contains l.reject id ≡ false

abbrev Done : RejectList → Dag → List Opout → List Opout → Opout → Type 0
Done l dag stack seen id =
    (contains l.allow id ≡ true)
    ⊎ ((contains l.reject id ≡ false)
        × ((p : Opout) → In (parents_in dag id) p → In seen p ⊎ In stack p))

record Inv (l : RejectList) (dag : Dag) (checked : Opout) (stack seen : List Opout) : Type 0 where
  covers : In seen checked ⊎ In stack checked
  exposed : (id : Opout) → In stack id → Exposed l dag checked id
  closed : (id : Opout) → In seen id → Done l dag stack seen id

module _ (l : RejectList) (dag : Dag) (checked : Opout) where
  start-Inv : Inv l dag checked (checked ∷ []) []
  unfolding contains
  start-Inv = record {
    covers = inr (In-head checked []);
    exposed = λ id h. elim (In-cons checked id [] h) [
      | inl same ↦ subst (Exposed l dag checked) same itself
      | inr never ↦ absurd cc
    ];
    closed = λ id h. absurd cc;
  }

  -- Everything exposed is seen when the stack is empty.
  Exposed-seen :
      (seen : List Opout)
      → Inv l dag checked [] seen
      → (id : Opout) → Exposed l dag checked id
      → In seen id
  unfolding contains
  Exposed-seen seen i id itself = elim i.covers [ inl h ↦ h | inr h ↦ absurd cc ]
  Exposed-seen seen i id (parent child id' e a r h) =
      elim (i.closed child (Exposed-seen seen i child e)) [
        | inl allowed ↦ absurd (cc (a, allowed))
        | inr open' ↦ elim (open'.1 id' h) [ inl m ↦ m | inr m ↦ absurd cc ]
      ]

  empty-Verdict : (seen : List Opout) → Inv l dag checked [] seen → Verdict l dag checked none
  empty-Verdict seen i id e a = elim (i.closed id (Exposed-seen seen i id e)) [
    | inl allowed ↦ absurd (cc (a, allowed))
    | inr open' ↦ open'.0
  ]

  -- The top of the stack moves to the seen ones, and `next` is what the stack becomes.
  moved :
      (current : Opout) (stack next seen : List Opout)
      → ((id : Opout) → In stack id → In next id)
      → (x : Opout) → In seen x ⊎ In (current ∷ stack) x
      → In (current ∷ seen) x ⊎ In next x
  moved current stack next seen k x (inl h) = inl (In-tail current x seen h)
  moved current stack next seen k x (inr h) = elim (In-cons current x stack h) [
    | inl same ↦ inl (subst (λ y. In (current ∷ seen) y) same (In-head current seen))
    | inr later ↦ inr (k x later)
  ]

  step-Inv :
      (current : Opout) (stack next seen : List Opout)
      → ((id : Opout) → In stack id → In next id)
      → ((id : Opout) → In next id → Exposed l dag checked id)
      → Done l dag next (current ∷ seen) current
      → Inv l dag checked (current ∷ stack) seen
      → Inv l dag checked next (current ∷ seen)
  step-Inv current stack next seen keeps exposed own i = record {
    covers = moved current stack next seen keeps checked i.covers;
    exposed = exposed;
    closed = λ id h. elim (In-cons current id seen h) [
      | inl same ↦ subst (Done l dag next (current ∷ seen)) same own
      | inr old ↦ elim (i.closed id old) [
        | inl allowed ↦ inl allowed
        | inr open' ↦ inr (open'.0, λ p q. moved current stack next seen keeps p (open'.1 p q))
      ]
    ];
  }

  seen-Inv :
      (current : Opout) (stack seen : List Opout)
      → contains seen current ≡ true
      → Inv l dag checked (current ∷ stack) seen
      → Inv l dag checked stack seen
  seen-Inv current stack seen old i = record {
    covers = drop_top checked i.covers;
    exposed = λ id h. i.exposed id (In-tail current id stack h);
    closed = λ id h. elim (i.closed id h) [
      | inl allowed ↦ inl allowed
      | inr open' ↦ inr (open'.0, λ p q. drop_top p (open'.1 p q))
    ];
  }
    where
      drop_top : (x : Opout) → In seen x ⊎ In (current ∷ stack) x → In seen x ⊎ In stack x
      drop_top x (inl h) = inl h
      drop_top x (inr h) = elim (In-cons current x stack h) [
        | inl same ↦ inl (subst (λ y. In seen y) same old)
        | inr later ↦ inr later
      ]

  abbrev Answer : ℕ → List Opout → List Opout → Type 0
  Answer fuel stack seen =
      (r : Option Opout) × (search_stack fuel l dag stack seen ≡ some r) × Verdict l dag checked r

  search-Answer :
      (fuel : ℕ) (stack seen : List Opout)
      → total (pushes seen) dag + length stack < fuel
      → Inv l dag checked stack seen
      → Answer fuel stack seen
  unfolding search_stack
  search-Answer zero stack seen h i = absurd (omega arith)
  search-Answer (suc fuel) [] seen h i = (none, refl, empty-Verdict seen i)
  search-Answer (suc fuel) (current ∷ stack) seen h i = elim (Bool-cases (contains seen current)) [
    | inl old ↦
        (let (r, e, v) =
            search-Answer fuel stack seen (omega arith) (seen-Inv current stack seen old i) in
          (r, ground (arith, old, e), v))
    | inr fresh ↦ elim (Bool-cases (contains l.allow current)) [
      | inl allowed ↦
          (let (r, e, v) =
              search-Answer fuel stack (current ∷ seen)
                (omega (arith, h, total-seen current seen dag))
                (step-Inv current stack stack seen (λ id m. m)
                  (λ id m. i.exposed id (In-tail current id stack m)) (inl allowed) i) in
            (r, ground (arith, fresh, allowed, e), v))
      | inr bare ↦ elim (Bool-cases (contains l.reject current)) [
        | inl rejected ↦ (
          some current,
          ground (arith, fresh, bare, rejected),
          record {
            exposed = i.exposed current (In-head current stack);
            not_allowed = bare;
            rejected = rejected;
          },
        )
        | inr clean ↦
            (let (r, e, v) =
                search-Answer fuel (push_each (parents_in dag current) stack) (current ∷ seen)
                  (omega (
                    arith,
                    h,
                    total-drops current seen dag fresh,
                    length-push_each (parents_in dag current) stack,
                  ))
                  (step-Inv current stack (push_each (parents_in dag current) stack) seen
                    (λ id m. push_each-keeps (parents_in dag current) stack id (inr m))
                    (exposed_next bare clean)
                    (inr (
                      clean,
                      λ p q. inr (push_each-keeps (parents_in dag current) stack p (inl q)),
                    ))
                    i) in
              (r, ground (arith, fresh, bare, clean, e), v))
      ]
    ]
  ]
    where
      exposed_next :
          contains l.allow current ≡ false
          → contains l.reject current ≡ false
          → (id : Opout) → In (push_each (parents_in dag current) stack) id
          → Exposed l dag checked id
      exposed_next bare clean id m = elim (In-push_each (parents_in dag current) stack id m) [
        | inl up ↦ parent current id (i.exposed current (In-head current stack)) bare clean up
        | inr later ↦ i.exposed id (In-tail current id stack later)
      ]

-- The search ends on every graph, with cycles too, and its answer is right: an output that it gives
-- is rejected, not allowed, and on a path from the checked output that nothing allowed shields; when
-- it gives none, no such output is rejected.
pub rejected_ancestor-Verdict :
    (l : RejectList) (checked : Opout) (dag : Dag)
    → (r : Option Opout) × (search_stack (search_fuel dag) l dag (checked ∷ []) [] ≡ some r)
      × (rejected_ancestor l checked dag ≡ r)
      × Verdict l dag checked r
unfolding rejected_ancestor search_fuel
rejected_ancestor-Verdict l checked dag =
    let (r, e, v) =
      search-Answer l dag checked (search_fuel dag) (checked ∷ []) [] (omega arith)
        (start-Inv l dag checked) in
    (r, e, ground (arith, e), v)
