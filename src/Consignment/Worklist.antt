-- ===== src/Consignment/Worklist.antt =====
-- The loop of consignment/validator.go over the operation graph: its steps, and that it ends.
use rgb.Prelude.{
  ℕ, zero, suc, ◌+◌, ◌≤◌, ◌<◌, ◌≡◌, refl, true, false, none, some, List, [], ◌∷◌, length,
  if◌then◌else◌, Result, ok, err, arith, ◌⊎◌, inl, inr, subst, Bool-cases, Option-cases,
  input_unresolved, ◌∙◌,
}
use rgb.Prelude.Bytes.{ByteString, bytes_eq→eq, bytes_eq_refl}
use rgb.Prelude.Keyed.{lookup, contains, total, bytes_eq_instance, bytes_iff}
use rgb.Consignment.Types.{ValidatedOp}
use rgb.Consignment.Ancestors.{Graph, push_all, walk, cost, fuel_for, walk_all}

abbrev pub In : List ByteString → ByteString → Type 0
In ids id = contains ids id ≡ true

pub In-tail : (x id : ByteString) (ids : List ByteString) → In ids id → In (x ∷ ids) id
unfolding contains
In-tail x id ids h = ground arith

pub In-head : (id : ByteString) (ids : List ByteString) → In (id ∷ ids) id
unfolding contains
In-head id ids = ground (arith, bytes_eq_refl id)

pub In-cons : (x id : ByteString) (ids : List ByteString) → In (x ∷ ids) id → (x ≡ id) ⊎ In ids id
unfolding contains
In-cons x id ids h = ground (arith, bytes_eq→eq x id)

length-push_all :
    (ids pending : List ByteString) → length (push_all ids pending) ≡ length ids + length pending
unfolding push_all
length-push_all [] pending = omega arith
length-push_all (id ∷ ids) pending = omega (arith, length-push_all ids (id ∷ pending))

pub In-push_all :
    (ids pending : List ByteString) (id : ByteString)
    → In (push_all ids pending) id
    → In ids id ⊎ In pending id
unfolding push_all
In-push_all [] pending id h = inr h
In-push_all (x ∷ ids) pending id h = elim (In-push_all ids (x ∷ pending) id h) [
  | inl there ↦ inl (In-tail x id ids there)
  | inr later ↦ elim (In-cons x id pending later) [
    | inl same ↦ inl (subst (λ y. In (x ∷ ids) y) same (In-head x ids))
    | inr there ↦ inr there
  ]
]

pub push_all-keeps :
    (ids pending : List ByteString) (id : ByteString)
    → In ids id ⊎ In pending id
    → In (push_all ids pending) id
unfolding push_all
push_all-keeps [] pending id (inl h) = absurd (unfold contains in cc)
push_all-keeps [] pending id (inr h) = h
push_all-keeps (x ∷ ids) pending id (inl h) = elim (In-cons x id ids h) [
  | inl same ↦
      push_all-keeps ids (x ∷ pending) id
        (inr (subst (λ y. In (x ∷ pending) y) same (In-head x pending)))
  | inr there ↦ push_all-keeps ids (x ∷ pending) id (inl there)
]
push_all-keeps (x ∷ ids) pending id (inr h) =
    push_all-keeps ids (x ∷ pending) id (inr (In-tail x id pending h))

-- Seeing an operation lowers no cost below what is left, and takes its own away.
total-seen :
    (id : ByteString) (seen : List ByteString) (graph : Graph)
    → total (cost (id ∷ seen)) graph ≤ total (cost seen) graph
unfolding total contains
total-seen id seen [] = omega arith
total-seen id seen ((key, node) ∷ rest) = ground (arith, total-seen id seen rest)

total-drops :
    (id : ByteString) (seen : List ByteString) (graph : Graph) (node : ValidatedOp)
    → contains seen id ≡ false
    → lookup id graph ≡ some node
    → total (cost (id ∷ seen)) graph + suc (length node.parents) ≤ total (cost seen) graph
unfolding total contains lookup
total-drops id seen [] node fresh found = cc
total-drops id seen ((key, here) ∷ rest) node fresh found = ground (
  arith,
  bytes_iff key id,
  bytes_eq_refl id,
  total-seen id seen rest,
  total-drops id seen rest node fresh,
)

abbrev pub mark : List ByteString → ValidatedOp → ByteString → List ByteString → List ByteString
mark protected node id historical =
    if contains protected node.bundle then historical else id ∷ historical

module _ (fuel : ℕ) (protected : List ByteString) (graph : Graph) (id : ByteString)
    (pending seen historical : List ByteString) where
  pub walk_seen :
      contains seen id ≡ true
      → walk (suc fuel) protected graph (id ∷ pending) seen historical
        ≡ walk fuel protected graph pending seen historical
  unfolding walk
  walk_seen h = ground (arith, h)

  pub walk_absent :
      contains seen id ≡ false
      → lookup id graph ≡ none
      → walk (suc fuel) protected graph (id ∷ pending) seen historical ≡ some (err input_unresolved)
  unfolding walk
  walk_absent h e = ground (arith, h, e)

  pub walk_fresh :
      (node : ValidatedOp)
      → contains seen id ≡ false
      → lookup id graph ≡ some node
      → walk (suc fuel) protected graph (id ∷ pending) seen historical
        ≡ walk fuel protected graph
            (push_all node.parents pending)
            (id ∷ seen)
            (mark protected node id historical)
  unfolding walk
  walk_fresh node h e = ground (arith, h, e)

-- The loop ends within the fuel.
walk_ends :
    (fuel : ℕ) (protected : List ByteString) (graph : Graph)
    (pending seen historical : List ByteString)
    → total (cost seen) graph + length pending < fuel
    → (r : Result (List ByteString)) × (walk fuel protected graph pending seen historical ≡ some r)
walk_ends zero protected graph pending seen historical h = absurd (omega arith)
walk_ends (suc fuel) protected graph [] seen historical h = (ok historical, unfold walk in refl)
walk_ends (suc fuel) protected graph (id ∷ pending) seen historical h =
    elim (Bool-cases (contains seen id)) [
      | inl old ↦
          (let (r, e) = walk_ends fuel protected graph pending seen historical (omega arith) in
            (r, walk_seen fuel protected graph id pending seen historical old ∙ e))
      | inr fresh ↦ elim (Option-cases (lookup id graph)) [
        | inl absent ↦ (_, walk_absent fuel protected graph id pending seen historical fresh absent)
        | inr (node, found) ↦
            (let (r, e) =
                walk_ends fuel protected graph (push_all node.parents pending) (id ∷ seen)
                  (mark protected node id historical)
                  (omega (
                    arith,
                    h,
                    total-drops id seen graph node fresh found,
                    length-push_all node.parents pending,
                  )) in
              (r, walk_fresh fuel protected graph id pending seen historical node fresh found ∙ e))
      ]
    ]

-- The loop over the operation graph ends: some fuel, the one that `fuel_for` counts, gives a
-- result, whatever the graph is, with cycles and unknown parents too.
pub walk-ends :
    (protected : List ByteString) (graph : Graph) (pending : List ByteString)
    → (r : Result (List ByteString)) × (walk (fuel_for graph pending) protected graph pending [] []
        ≡ some r)
      × (walk_all protected graph pending ≡ r)
unfolding fuel_for walk_all
walk-ends protected graph pending =
    let (r, e) = walk_ends (fuel_for graph pending) protected graph pending [] [] (omega arith) in
    (r, e, ground (arith, e))
