-- ===== src/Consensus/Merkle.antt =====
-- consensus/merkle.go. An array of 32 bytes is a list of that length.
use rgb.Prelude.{
  ℕ, true, false, zero, suc, ◌+◌, ◌-◌, ◌/◌, ◌%◌, ◌^◌, List, [], ◌∷◌, ◌++◌, leb, if◌then◌else◌,
  length, take, drop, replicate, ◌==◌, String,
}
use rgb.Prelude.Bytes.{ByteString, put_le}
use rgb.Consensus.TaggedHash.{Hash, tagged_hash}

abbrev pub value_tag : String
value_tag = "urn:ubideco:strict-types:value-hash#2024-02-10"

abbrev pub node_tag : String
node_tag = "urn:ubideco:merkle:node#2024-01-31"

abbrev pub virtual_leaf : ByteString
virtual_leaf = replicate 32 255

unfoldable pub strict_value_hash : Hash → ByteString → ByteString
unfolding tagged_hash
strict_value_hash sha256 encoded = tagged_hash sha256 value_tag (encoded ∷ [])

unfoldable pub merkle_leaf_hash : Hash → ByteString → ByteString
unfolding tagged_hash
merkle_leaf_hash sha256 encoded = tagged_hash sha256 node_tag (encoded ∷ [])

-- The 98 bytes that a node hashes: the width is a little-endian u256.
unfoldable pub node_message : ℕ → ℕ → ℕ → ByteString → ByteString → ByteString
unfolding put_le
node_message branching depth width node1 node2 =
    (branching ∷ depth ∷ put_le 4 width) ++ (replicate 28 0 ++ (node1 ++ node2))

unfoldable pub merkle_node : Hash → ℕ → ℕ → ℕ → ByteString → ByteString → ByteString
unfolding tagged_hash node_message
merkle_node sha256 branching depth width node1 node2 =
    tagged_hash sha256 node_tag (node_message branching depth width node1 node2 ∷ [])

unfoldable pub merkle_branch_hash : Hash → ℕ → ℕ → ByteString → ByteString → ByteString
unfolding merkle_node
merkle_branch_hash sha256 depth width left right = merkle_node sha256 2 depth width left right

-- A branch of at most two leaves.
unfoldable pub merkle_base : Hash → List ByteString → ℕ → ℕ → ByteString
unfolding merkle_node
merkle_base sha256 [] depth base = merkle_node sha256 0 depth base virtual_leaf virtual_leaf
merkle_base sha256 (x ∷ []) depth base = merkle_node sha256 1 depth base x virtual_leaf
merkle_base sha256 (x ∷ y ∷ rest) depth base = merkle_node sha256 2 depth base x y

abbrev pub left_width : ℕ → ℕ
left_width width = width / 2 + width % 2

-- The recursion halves the width; the fuel bounds it, and one more than the width is enough
-- (`merklize-fuel`).
unfoldable pub merklize : Hash → ℕ → List ByteString → ℕ → ℕ → ℕ → ByteString
unfolding merkle_base merkle_node
merklize sha256 zero leaves depth width base = []
merklize sha256 (suc fuel) leaves depth width base = elim (leb width 2) [
  | true ↦ merkle_base sha256 leaves depth base
  | false ↦
      merkle_node sha256 2 depth base
        (merklize sha256 fuel (take (left_width width) leaves) ((depth + 1) % 2 ^ 8)
          (left_width width) base)
        (merklize sha256 fuel (drop (left_width width) leaves) ((depth + 1) % 2 ^ 8)
          (width - left_width width) base)
]

abbrev pub first_leaf : List ByteString → ByteString
first_leaf [] = []
first_leaf (x ∷ rest) = x

unfoldable pub merkle_root : Hash → List ByteString → ByteString
unfolding merklize
merkle_root sha256 leaves =
    let width = length leaves % 2 ^ 32 in
    if width == 1 then first_leaf leaves else merklize sha256 (suc width) leaves 0 width width
