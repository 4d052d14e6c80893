-- ===== src/Consignment/Ancestry.antt =====
-- The loop of consignment/validator.go over the operation graph finds the ancestors.
use rgb.Prelude.{
  ℕ, zero, suc, ◌≡◌, ◌↔◌, some, List, [], ◌∷◌, ok, ◌⊎◌, inl, inr, sym, subst, Bool-cases,
  Option-cases, ◌∙◌,
}
use rgb.Prelude.Bytes.{ByteString}
use rgb.Prelude.Keyed.{lookup, contains, bytes_eq_instance}
use rgb.Consignment.Ancestors.{Graph, push_all, walk, fuel_for, walk_all}
use rgb.Consignment.Worklist.{In, mark, walk_seen, walk_absent, walk_fresh, walk-ends}
use rgb.Consignment.Reachable.{
  Reaches, from_start, from_child, Outside, Inv, start-Inv, seen-Inv, fresh-Inv,
}

-- What the loop gives is seen in full: nothing is left on the stack.
walk-Inv :
    (fuel : ℕ) (protected : List ByteString) (graph : Graph)
    (start pending seen historical result : List ByteString)
    → Inv protected graph start pending seen historical
    → walk fuel protected graph pending seen historical ≡ some (ok result)
    → (all : List ByteString) × Inv protected graph start [] all result
walk-Inv zero protected graph start pending seen historical result i h = absurd (unfold walk in cc)
walk-Inv (suc fuel) protected graph start [] seen historical result i h =
    let same : historical ≡ result = unfold walk in cc in
    (seen, subst (λ l. Inv protected graph start [] seen l) same i)
walk-Inv (suc fuel) protected graph start (id ∷ pending) seen historical result i h =
    elim (Bool-cases (contains seen id)) [
      | inl old ↦
          walk-Inv fuel protected graph start pending seen historical result
            (seen-Inv protected graph start pending seen historical id old i)
            (sym (walk_seen fuel protected graph id pending seen historical old) ∙ h)
      | inr fresh ↦ elim (Option-cases (lookup id graph)) [
        | inl absent ↦
            absurd
              (cc (h, walk_absent fuel protected graph id pending seen historical fresh absent))
        | inr (node, found) ↦
            walk-Inv fuel protected graph start (push_all node.parents pending) (id ∷ seen)
              (mark protected node id historical) result
              (fresh-Inv protected graph start pending seen historical id node fresh found i)
              (sym (walk_fresh fuel protected graph id pending seen historical node fresh found)
                ∙ h)
      ]
    ]

-- Every operation on a path from the start is seen in the end.
Reaches-seen :
    (protected : List ByteString) (graph : Graph) (start all result : List ByteString)
    → Inv protected graph start [] all result
    → (id : ByteString) → Reaches graph start id
    → In all id
Reaches-seen protected graph start all result i id (from_start id' h) = only (i.covers id' h)
  where
    only : In all id' ⊎ In [] id' → In all id'
    only (inl h) = h
    only (inr h) = absurd (unfold contains in cc)
Reaches-seen protected graph start all result i id (from_child child node id' r f h) =
    only (i.closed child id' node (Reaches-seen protected graph start all result i child r) f h)
  where
    only : In all id' ⊎ In [] id' → In all id'
    only (inl h) = h
    only (inr h) = absurd (unfold contains in cc)

-- When the loop gives a list of historical operations, an operation is on it exactly when a path
-- of parents leads to it from the parents of the receiving bundles' operations, and its own
-- bundle is not a receiving one.
pub walk_all-ancestors :
    (protected : List ByteString) (graph : Graph) (start historical : List ByteString)
    → walk_all protected graph start ≡ ok historical
    → (id : ByteString) → In historical id ↔ (Reaches graph start id × Outside protected graph id)
walk_all-ancestors protected graph start historical h id =
    let (r, e, same) = walk-ends protected graph start in
    let run : walk (fuel_for graph start) protected graph start [] [] ≡ some (ok historical) =
      cc (e, same, h) in
    let (all, i) =
      walk-Inv (fuel_for graph start) protected graph start start [] [] historical
        (start-Inv protected graph start) run in
    (
      λ m. let (s, o) = i.marked id m in (i.reach_seen id s, o),
      λ (r, o). i.marks id (Reaches-seen protected graph start all historical i id r) o,
    )
