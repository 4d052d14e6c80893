-- ===== src/Consensus/Binding.antt =====
-- A Merkle root binds its leaves: consensus/merkle.go.
use rgb.Prelude.{
  ℕ, zero, suc, ◌+◌, ◌-◌, ◌%◌, ◌^◌, ◌<◌, ◌≤◌, ◌≡◌, refl, sym, ap, ◌∙◌, subst, true, false, List, [],
  ◌∷◌, ◌++◌, leb, if◌then◌else◌, length, take, drop, replicate, ◌==◌, All, arith,
  append-cancel_front, length-take, length-drop, take-append-drop, Bool-cases, inl, inr, All-take,
  All-drop,
}
use rgb.Prelude.Bytes.{ByteString, put_le, codes}
use rgb.Consensus.TaggedHash.{
  Hash, tagged_hash, IsSized, IsDigest, all_apart, apart, apart-eq, all_apart-node,
}
use rgb.Consensus.Merkle.{
  node_tag, virtual_leaf, node_message, merkle_node, merkle_base, merklize, merkle_root, left_width,
  first_leaf,
}

-- The hash of one message under the tag of nodes.
unfoldable pub node_hash : Hash → Hash
unfolding tagged_hash
node_hash sha256 message = tagged_hash sha256 node_tag (message ∷ [])

pub node_message-inj :
    (branching depth width : ℕ) (a b a' b' : ByteString)
    → IsSized a
    → IsSized a'
    → node_message branching depth width a b ≡ node_message branching depth width a' b'
    → (a ≡ a') × (b ≡ b')
unfolding node_message
node_message-inj branching depth width a b a' b' ha ha' e =
    let head : ByteString = branching ∷ depth ∷ put_le 4 width in
    let body = (append-cancel_front head head _ _ refl e).1 in
    let nodes = (append-cancel_front (replicate 28 0) (replicate 28 0) _ _ refl body).1 in
    append-cancel_front a a' b b' (omega (arith, ha, ha')) nodes

-- The messages that a branch of at most two leaves hashes.
unfoldable pub base_message : List ByteString → ℕ → ℕ → ByteString
unfolding node_message
base_message [] depth base = node_message 0 depth base virtual_leaf virtual_leaf
base_message (x ∷ []) depth base = node_message 1 depth base x virtual_leaf
base_message (x ∷ y ∷ rest) depth base = node_message 2 depth base x y

-- The messages that `merklize` hashes, the root's first.
unfoldable pub tree_messages : Hash → ℕ → List ByteString → ℕ → ℕ → ℕ → List ByteString
unfolding base_message node_message merklize
tree_messages sha256 zero leaves depth width base = []
tree_messages sha256 (suc fuel) leaves depth width base = elim (leb width 2) [
  | true ↦ base_message leaves depth base ∷ [] ++ []
  | false ↦
      node_message 2 depth base
          (merklize sha256 fuel (take (left_width width) leaves) ((depth + 1) % 2 ^ 8)
            (left_width width) base)
          (merklize sha256 fuel (drop (left_width width) leaves) ((depth + 1) % 2 ^ 8)
            (width - left_width width) base)
        ∷ tree_messages sha256 fuel (take (left_width width) leaves) ((depth + 1) % 2 ^ 8)
            (left_width width) base
      ++ tree_messages sha256 fuel (drop (left_width width) leaves) ((depth + 1) % 2 ^ 8)
          (width - left_width width) base
]

base-node_hash :
    (sha256 : Hash) (leaves : List ByteString) (depth base : ℕ)
    → merkle_base sha256 leaves depth base ≡ node_hash sha256 (base_message leaves depth base)
unfolding merkle_base base_message node_hash merkle_node
base-node_hash sha256 [] depth base = refl
base-node_hash sha256 (x ∷ []) depth base = refl
base-node_hash sha256 (x ∷ y ∷ rest) depth base = refl

-- At most two leaves are read off the message.
base_message-inj :
    (xs ys : List ByteString) (depth base : ℕ)
    → length xs ≡ length ys
    → length xs ≤ 2
    → All IsSized xs
    → All IsSized ys
    → base_message xs depth base ≡ base_message ys depth base
    → xs ≡ ys
unfolding base_message
base_message-inj [] [] depth base l small hx hy e = refl
base_message-inj [] (y ∷ ys) depth base l small hx hy e = absurd (omega arith)
base_message-inj (x ∷ xs) [] depth base l small hx hy e = absurd (omega arith)
base_message-inj (x ∷ []) (y ∷ []) depth base l small hx hy e =
    ap (λ t. t ∷ []) (node_message-inj 1 depth base x _ y _ hx.0 hy.0 e).0
base_message-inj (x ∷ []) (y ∷ y' ∷ ys) depth base l small hx hy e = absurd (omega arith)
base_message-inj (x ∷ x' ∷ xs) (y ∷ []) depth base l small hx hy e = absurd (omega arith)
base_message-inj (x ∷ x' ∷ []) (y ∷ y' ∷ []) depth base l small hx hy e =
    let (first, second) = node_message-inj 2 depth base x x' y y' hx.0 hy.0 e in cc (first, second)
base_message-inj (x ∷ x' ∷ []) (y ∷ y' ∷ z ∷ ys) depth base l small hx hy e = absurd (omega arith)
base_message-inj (x ∷ x' ∷ z ∷ xs) (y ∷ y' ∷ ys) depth base l small hx hy e = absurd (omega arith)

merklize-small :
    (sha256 : Hash) (fuel : ℕ) (leaves : List ByteString) (depth width base : ℕ)
    → leb width 2 ≡ true
    → (merklize sha256 (suc fuel) leaves depth width base
        ≡ node_hash sha256 (base_message leaves depth base))
      × (tree_messages sha256 (suc fuel) leaves depth width base
          ≡ base_message leaves depth base ∷ [])
unfolding merklize tree_messages
merklize-small sha256 fuel leaves depth width base h =
    ground (arith, h, base-node_hash sha256 leaves depth base)

module _ (sha256 : Hash) (fuel : ℕ) (leaves : List ByteString) (depth width base : ℕ) where
  abbrev left_tree : ByteString
  left_tree =
      merklize sha256 fuel (take (left_width width) leaves) ((depth + 1) % 2 ^ 8) (left_width width)
        base

  abbrev right_tree : ByteString
  right_tree =
      merklize sha256 fuel (drop (left_width width) leaves) ((depth + 1) % 2 ^ 8)
        (width - left_width width) base

  abbrev left_messages : List ByteString
  left_messages =
      tree_messages sha256 fuel (take (left_width width) leaves) ((depth + 1) % 2 ^ 8)
        (left_width width) base

  abbrev right_messages : List ByteString
  right_messages =
      tree_messages sha256 fuel (drop (left_width width) leaves) ((depth + 1) % 2 ^ 8)
        (width - left_width width) base

  abbrev large_message : ByteString
  large_message = node_message 2 depth base left_tree right_tree

  merklize-large :
      leb width 2 ≡ false
      → (merklize sha256 (suc fuel) leaves depth width base ≡ node_hash sha256 large_message)
        × (tree_messages sha256 (suc fuel) leaves depth width base
            ≡ large_message ∷ left_messages ++ right_messages)
  unfolding merklize tree_messages node_hash merkle_node
  merklize-large h = ground (arith, h)

pub node_hash-IsSized :
    (sha256 : Hash) → IsDigest sha256 → (m : ByteString) → IsSized (node_hash sha256 m)
unfolding node_hash tagged_hash
node_hash-IsSized sha256 sized m =
    let tag_hash = sha256 (codes node_tag) in sized (tag_hash ++ (tag_hash ++ (m ++ [])))

merklize-IsSized :
    (sha256 : Hash)
    → IsDigest sha256
    → (fuel : ℕ) (leaves : List ByteString) (depth width base : ℕ) → 0 < fuel
    → IsSized (merklize sha256 fuel leaves depth width base)
merklize-IsSized sha256 sized zero leaves depth width base h = absurd (omega arith)
merklize-IsSized sha256 sized (suc fuel) leaves depth width base h =
    elim (Bool-cases (leb width 2)) [
      | inl small ↦
          subst IsSized (sym (merklize-small sha256 fuel leaves depth width base small).0)
            (node_hash-IsSized sha256 sized (base_message leaves depth base))
      | inr large ↦
          subst IsSized (sym (merklize-large sha256 fuel leaves depth width base large).0)
            (node_hash-IsSized sha256 sized (large_message sha256 fuel leaves depth width base))
    ]

abbrev Separated : Hash → List ByteString → List ByteString → Type 0
Separated sha256 xs ys = all_apart (node_hash sha256) xs ys ≡ true

-- Two branches of one place and width with one root have one list of leaves.
pub merklize-inj :
    (sha256 : Hash)
    → IsDigest sha256
    → (fuel : ℕ) (xs ys : List ByteString) (depth width base : ℕ) → width < fuel
    → length xs ≡ width
    → length ys ≡ width
    → All IsSized xs
    → All IsSized ys
    → Separated sha256
        (tree_messages sha256 fuel xs depth width base)
        (tree_messages sha256 fuel ys depth width base)
    → merklize sha256 fuel xs depth width base ≡ merklize sha256 fuel ys depth width base
    → xs ≡ ys
merklize-inj sha256 sized zero xs ys depth width base f lx ly hx hy apart_all e =
    absurd (omega arith)
merklize-inj sha256 sized (suc fuel) xs ys depth width base f lx ly hx hy apart_all e =
    elim (Bool-cases (leb width 2)) [
      | inl small ↦
          let (root_x, sent_x) = merklize-small sha256 fuel xs depth width base small in
          let (root_y, sent_y) = merklize-small sha256 fuel ys depth width base small in
          let both : Separated sha256 (base_message xs depth base ∷ [])
              (base_message ys depth base ∷ []) =
            cc (sent_x, sent_y, apart_all) in
          let pair : apart (node_hash sha256) (base_message xs depth base)
                (base_message ys depth base)
              ≡ true =
            ground (arith, both) in
          base_message-inj xs ys depth base (lx ∙ sym ly) (ground (arith, small, lx)) hx hy
            (apart-eq (node_hash sha256) _ _ pair (sym root_x ∙ e ∙ root_y))
      | inr large ↦
          let (root_x, sent_x) = merklize-large sha256 fuel xs depth width base large in
          let (root_y, sent_y) = merklize-large sha256 fuel ys depth width base large in
          let (pair, left_apart, right_apart) =
            all_apart-node (node_hash sha256) (large_message sha256 fuel xs depth width base)
              (large_message sha256 fuel ys depth width base)
              (left_messages sha256 fuel xs depth width base)
              (right_messages sha256 fuel xs depth width base)
              (left_messages sha256 fuel ys depth width base)
              (right_messages sha256 fuel ys depth width base) (cc (sent_x, sent_y, apart_all)) in
          let one_message =
            apart-eq (node_hash sha256) (large_message sha256 fuel xs depth width base)
              (large_message sha256 fuel ys depth width base) pair (sym root_x ∙ e ∙ root_y) in
          let wide : 2 < width = ground (arith, large) in
          let (left_root, right_root) =
            node_message-inj 2 depth base _ _ _ _
              (merklize-IsSized sha256 sized fuel _ _ _ _ (omega arith))
              (merklize-IsSized sha256 sized fuel _ _ _ _ (omega arith)) one_message in
          let deeper = (depth + 1) % 2 ^ 8 in
          let split = left_width width in
          let left =
            merklize-inj sha256 sized fuel (take split xs) (take split ys) deeper split base
              (omega arith) (length-take split xs (omega arith))
              (length-take split ys (omega arith)) (All-take IsSized split xs hx)
              (All-take IsSized split ys hy) left_apart left_root in
          let right =
            merklize-inj sha256 sized fuel (drop split xs) (drop split ys) deeper (width - split)
              base (omega arith) (omega (arith, length-drop split xs))
              (omega (arith, length-drop split ys)) (All-drop IsSized split xs hx)
              (All-drop IsSized split ys hy) right_apart right_root in
          cc (left, right, take-append-drop split xs, take-append-drop split ys)
    ]

-- The messages that `MerkleRoot` hashes.
unfoldable pub root_messages : Hash → List ByteString → List ByteString
unfolding tree_messages
root_messages sha256 leaves =
    let width = length leaves % 2 ^ 32 in
    if width == 1 then [] else tree_messages sha256 (suc width) leaves 0 width width

same_first :
    (xs ys : List ByteString)
    → length xs ≡ 1
    → length ys ≡ 1
    → first_leaf xs ≡ first_leaf ys
    → xs ≡ ys
same_first [] ys lx ly e = absurd (omega arith)
same_first (x ∷ x' ∷ xs) ys lx ly e = absurd (omega arith)
same_first (x ∷ []) [] lx ly e = absurd (omega arith)
same_first (x ∷ []) (y ∷ y' ∷ ys) lx ly e = absurd (omega arith)
same_first (x ∷ []) (y ∷ []) lx ly e = ap (λ t. t ∷ []) e

-- A Merkle root commits to its leaves and to their order: two lists of as many 32-byte leaves,
-- fewer than 2^32, with one root are one list, where no two different messages among those hashed
-- for the two trees have one digest.
pub merkle_root-binding :
    (sha256 : Hash) (xs ys : List ByteString)
    → IsDigest sha256
    → length xs ≡ length ys
    → length xs < 2 ^ 32
    → All IsSized xs
    → All IsSized ys
    → all_apart (node_hash sha256) (root_messages sha256 xs) (root_messages sha256 ys) ≡ true
    → merkle_root sha256 xs ≡ merkle_root sha256 ys
    → xs ≡ ys
unfolding merkle_root root_messages
merkle_root-binding sha256 xs ys sized l short hx hy separated e =
    let wx : length xs % 2 ^ 32 ≡ length xs = omega arith in
    let wy : length ys % 2 ^ 32 ≡ length xs = omega arith in
    elim (Bool-cases (length xs == 1)) [
      | inl one ↦ same_first xs ys (ground arith) (ground arith) (ground (arith, wx, wy))
      | inr many ↦
          merklize-inj sha256 sized (suc (length xs)) xs ys 0 (length xs) (length xs) (omega arith)
            refl (sym l) hx hy (ground (arith, wx, wy)) (ground (arith, wx, wy))
    ]

pub merkle_root-IsSized :
    (sha256 : Hash)
    → IsDigest sha256
    → (leaves : List ByteString) → All IsSized leaves
    → IsSized (merkle_root sha256 leaves)
unfolding merkle_root
merkle_root-IsSized sha256 sized leaves h =
    let width = length leaves % 2 ^ 32 in
    let tree = merklize-IsSized sha256 sized (suc width) leaves 0 width width (omega arith) in
    elim (Bool-cases (width == 1)) [
      | inl one ↦ ground (arith, one, first_sized leaves h (ground (arith, one)))
      | inr many ↦ ground (arith, many, tree)
    ]
  where
    first_sized : (xs : List ByteString) → All IsSized xs → 0 < length xs → IsSized (first_leaf xs)
    first_sized [] hx l = absurd (omega arith)
    first_sized (x ∷ xs) hx l = hx.0
