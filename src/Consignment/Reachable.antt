-- ===== src/Consignment/Reachable.antt =====
-- The invariant of the loop of consignment/validator.go over the operation graph.
use rgb.Prelude.{
  ◌≡◌, true, false, some, List, [], ◌∷◌, arith, ◌⊎◌, inl, inr, sym, subst, Bool-cases,
}
use rgb.Prelude.Bytes.{ByteString}
use rgb.Prelude.Keyed.{lookup, contains, bytes_eq_instance}
use rgb.Consignment.Types.{ValidatedOp}
use rgb.Consignment.Ancestors.{Graph, push_all}
use rgb.Consignment.Worklist.{In, In-tail, In-head, In-cons, In-push_all, push_all-keeps, mark}

-- The operations that a path of parents reaches from the start of the loop.
pub data Reaches (graph : Graph) (start : List ByteString) : ByteString → Type 0 where
  from_start : (id : ByteString) → In start id → Reaches graph start id
  from_child :
      (child : ByteString) (node : ValidatedOp) (id : ByteString)
      → Reaches graph start child
      → lookup child graph ≡ some node
      → In node.parents id
      → Reaches graph start id

-- The operation is disclosed, and its bundle is not a receiving one.
pub record Outside (protected : List ByteString) (graph : Graph) (id : ByteString) : Type 0 where
  pub node : ValidatedOp
  pub found : lookup id graph ≡ some node
  pub outside : contains protected node.bundle ≡ false

pub record Inv (protected : List ByteString) (graph : Graph)
    (start pending seen historical : List ByteString) : Type 0 where
  pub covers : (id : ByteString) → In start id → In seen id ⊎ In pending id
  pub closed :
      (id p : ByteString) (node : ValidatedOp)
      → In seen id
      → lookup id graph ≡ some node
      → In node.parents p
      → In seen p ⊎ In pending p
  pub known : (id : ByteString) → In seen id → (node : ValidatedOp) × (lookup id graph ≡ some node)
  pub reach_pending : (id : ByteString) → In pending id → Reaches graph start id
  pub reach_seen : (id : ByteString) → In seen id → Reaches graph start id
  pub marked : (id : ByteString) → In historical id → In seen id × Outside protected graph id
  pub marks : (id : ByteString) → In seen id → Outside protected graph id → In historical id

pub start-Inv :
    (protected : List ByteString) (graph : Graph) (start : List ByteString)
    → Inv protected graph start start [] []
unfolding contains
start-Inv protected graph start = record {
  covers = λ id h. inr h;
  closed = λ id p node h _ _. absurd cc;
  known = λ id h. absurd cc;
  reach_pending = λ id h. from_start id h;
  reach_seen = λ id h. absurd cc;
  marked = λ id h. absurd cc;
  marks = λ id h _. absurd cc;
}

pub seen-Inv :
    (protected : List ByteString) (graph : Graph) (start pending seen historical : List ByteString)
    (id : ByteString)
    → contains seen id ≡ true
    → Inv protected graph start (id ∷ pending) seen historical
    → Inv protected graph start pending seen historical
seen-Inv protected graph start pending seen historical id old i = record {
  covers = λ x h. drop_top x (i.covers x h);
  closed = λ x p node h f q. drop_top p (i.closed x p node h f q);
  known = i.known;
  reach_pending = λ x h. i.reach_pending x (In-tail id x pending h);
  reach_seen = i.reach_seen;
  marked = i.marked;
  marks = i.marks;
}
  where
    drop_top : (x : ByteString) → In seen x ⊎ In (id ∷ pending) x → In seen x ⊎ In pending x
    drop_top x (inl h) = inl h
    drop_top x (inr h) = elim (In-cons id x pending h) [
      | inl same ↦ inl (subst (λ y. In seen y) same old)
      | inr later ↦ inr later
    ]

module _ (protected : List ByteString) (graph : Graph)
    (start pending seen historical : List ByteString) (id : ByteString) (node : ValidatedOp)
    (fresh : contains seen id ≡ false) (found : lookup id graph ≡ some node)
    (i : Inv protected graph start (id ∷ pending) seen historical) where
  moved :
      (x : ByteString)
      → In seen x ⊎ In (id ∷ pending) x
      → In (id ∷ seen) x ⊎ In (push_all node.parents pending) x
  moved x (inl h) = inl (In-tail id x seen h)
  moved x (inr h) = elim (In-cons id x pending h) [
    | inl same ↦ inl (subst (λ y. In (id ∷ seen) y) same (In-head id seen))
    | inr later ↦ inr (push_all-keeps node.parents pending x (inr later))
  ]

  reached : Reaches graph start id
  reached = i.reach_pending id (In-head id pending)

  same_node :
      (x : ByteString) (other : ValidatedOp) → id ≡ x → lookup x graph ≡ some other → node ≡ other
  same_node x other same f = let e : lookup id graph ≡ some other = rw same f in cc (found, e)

  closed_next :
      (x p : ByteString) (other : ValidatedOp)
      → In (id ∷ seen) x
      → lookup x graph ≡ some other
      → In other.parents p
      → In (id ∷ seen) p ⊎ In (push_all node.parents pending) p
  closed_next x p other h f q = elim (In-cons id x seen h) [
    | inl same ↦ inr (
        push_all-keeps node.parents pending p
          (inl (subst (λ n. In n.parents p) (sym (same_node x other same f)) q)))
    | inr old ↦ moved p (i.closed x p other old f q)
  ]

  marked_next :
      (x : ByteString)
      → In (mark protected node id historical) x
      → In (id ∷ seen) x × Outside protected graph x
  marked_next x h = elim (Bool-cases (contains protected node.bundle)) [
    | inl inside ↦ keep (i.marked x (subst (λ l. In l x) (stays inside) h))
    | inr outside ↦ elim (In-cons id x historical (subst (λ l. In l x) (grows outside) h)) [
      | inl same ↦
          subst (λ y. In (id ∷ seen) y × Outside protected graph y) same
            (In-head id seen, record { node = node; found = found; outside = outside })
      | inr old ↦ keep (i.marked x old)
    ]
  ]
    where
      keep : In seen x × Outside protected graph x → In (id ∷ seen) x × Outside protected graph x
      keep (a, b) = (In-tail id x seen a, b)

      stays : contains protected node.bundle ≡ true → mark protected node id historical ≡ historical
      stays e = ground (arith, e)

      grows :
          contains protected node.bundle ≡ false
          → mark protected node id historical ≡ id ∷ historical
      grows e = ground (arith, e)

  marks_next :
      (x : ByteString)
      → In (id ∷ seen) x
      → Outside protected graph x
      → In (mark protected node id historical) x
  marks_next x h o = elim (Bool-cases (contains protected node.bundle)) [
    | inl inside ↦
        subst (λ l. In l x) (sym (stays inside))
          (elim (In-cons id x seen h) [
            | inl same ↦ absurd (cc (inside, o.outside, same_node x o.node same o.found))
            | inr old ↦ i.marks x old o
          ])
    | inr outside ↦
        subst (λ l. In l x) (sym (grows outside))
          (elim (In-cons id x seen h) [
            | inl same ↦ subst (λ y. In (id ∷ historical) y) same (In-head id historical)
            | inr old ↦ In-tail id x historical (i.marks x old o)
          ])
  ]
    where
      stays : contains protected node.bundle ≡ true → mark protected node id historical ≡ historical
      stays e = ground (arith, e)

      grows :
          contains protected node.bundle ≡ false
          → mark protected node id historical ≡ id ∷ historical
      grows e = ground (arith, e)

  pub fresh-Inv :
      Inv protected graph start
        (push_all node.parents pending)
        (id ∷ seen)
        (mark protected node id historical)
  fresh-Inv = record {
    covers = λ x h. moved x (i.covers x h);
    closed = closed_next;
    known = λ x h. elim (In-cons id x seen h) [
      | inl same ↦ (node, subst (λ y. lookup y graph ≡ some node) same found)
      | inr old ↦ i.known x old
    ];
    reach_pending = λ x h. elim (In-push_all node.parents pending x h) [
      | inl parent ↦ from_child id node x reached found parent
      | inr later ↦ i.reach_pending x (In-tail id x pending later)
    ];
    reach_seen = λ x h. elim (In-cons id x seen h) [
      | inl same ↦ subst (λ y. Reaches graph start y) same reached
      | inr old ↦ i.reach_seen x old
    ];
    marked = marked_next;
    marks = marks_next;
  }
