-- ===== src/Consensus/Fuel.antt =====
-- The recursion of `merklize` in consensus/merkle.go ends: the width is fuel enough.
use rgb.Prelude.{
  ℕ, zero, suc, ◌+◌, ◌-◌, ◌%◌, ◌^◌, ◌<◌, ◌≡◌, true, false, List, leb, take, drop, arith, Bool-cases,
  inl, inr,
}
use rgb.Prelude.Bytes.{ByteString}
use rgb.Consensus.TaggedHash.{Hash}
use rgb.Consensus.Merkle.{merkle_base, merkle_node, merklize, left_width}

-- The recursion over branches ends: whatever the leaves are, every fuel above the width of the
-- branch gives the same root, which the recursion of the source gives from the roots of its halves.
pub merklize-fuel :
    (sha256 : Hash) (fuel more : ℕ) (leaves : List ByteString) (depth width base : ℕ)
    → width < fuel
    → width < more
    → (merklize sha256 fuel leaves depth width base ≡ merklize sha256 more leaves depth width base)
      × (merklize sha256 fuel leaves depth width base ≡ (elim (leb width 2) [
        | true ↦ merkle_base sha256 leaves depth base
        | false ↦
            merkle_node sha256 2 depth base
              (merklize sha256 fuel
                (take (left_width width) leaves)
                ((depth + 1) % 2 ^ 8)
                (left_width width)
                base)
              (merklize sha256 fuel
                (drop (left_width width) leaves)
                ((depth + 1) % 2 ^ 8)
                (width - left_width width)
                base)
      ]))
unfolding merklize
merklize-fuel sha256 zero more leaves depth width base f m = absurd (omega arith)
merklize-fuel sha256 (suc fuel) zero leaves depth width base f m = absurd (omega arith)
merklize-fuel sha256 (suc fuel) (suc more) leaves depth width base f m =
    elim (Bool-cases (leb width 2)) [
      | inl small ↦ ground (arith, small)
      | inr large ↦
          let wide : 2 < width = ground (arith, large) in
          let left : (other : ℕ)
              → left_width width < other
              → merklize sha256 fuel (take (left_width width) leaves) ((depth + 1) % 2 ^ 8)
                  (left_width width) base
                ≡ merklize sha256 other (take (left_width width) leaves) ((depth + 1) % 2 ^ 8)
                    (left_width width) base =
            λ other enough.
              (merklize-fuel sha256 fuel other (take (left_width width) leaves)
                ((depth + 1) % 2 ^ 8) (left_width width) base (omega arith) enough).0 in
          let right : (other : ℕ)
              → width - left_width width < other
              → merklize sha256 fuel (drop (left_width width) leaves) ((depth + 1) % 2 ^ 8)
                  (width - left_width width) base
                ≡ merklize sha256 other (drop (left_width width) leaves) ((depth + 1) % 2 ^ 8)
                    (width - left_width width) base =
            λ other enough.
              (merklize-fuel sha256 fuel other (drop (left_width width) leaves)
                ((depth + 1) % 2 ^ 8) (width - left_width width) base (omega arith) enough).0 in
          ground (
            arith,
            large,
            left more (omega arith),
            right more (omega arith),
            left (suc fuel) (omega arith),
            right (suc fuel) (omega arith),
          )
    ]
