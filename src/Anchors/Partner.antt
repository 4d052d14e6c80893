-- ===== src/Anchors/Partner.antt =====
-- What anchors/tapret.go makes sure of for the partner of a tapret commitment.
use rgb.Prelude.{
  ℕ, ◌≡◌, refl, ap, true, false, ◌||◌, not, some, [], ◌∷◌, take, ok, after_guard, after_ok, arith,
  inl, inr, Bool-cases, ◌≢◌,
}
use rgb.Prelude.Bytes.{ByteString, bytes_eq, bytes_eq_refl}
use rgb.Consensus.TaggedHash.{Hash}
use rgb.Anchors.Tapret.{
  TapretPartner, left_node, right_leaf, right_branch, tapret_prefix, greater, has_prefix,
  tapret_script, tap_leaf_hash, tap_branch_hash, validated_hash, tapret_merkle_root,
}

greater-antisym : (xs ys : ByteString) → greater xs ys ≡ true → greater ys xs ≡ false
unfolding greater
greater-antisym [] ys h = absurd (cc)
greater-antisym (x ∷ xs) [] h = refl
greater-antisym (x ∷ xs) (y ∷ ys) h = ground (arith, greater-antisym xs ys)

greater-total : (xs ys : ByteString) → greater xs ys ≡ false → greater ys xs ≡ false → xs ≡ ys
unfolding greater
greater-total [] [] h k = refl
greater-total [] (y ∷ ys) h k = absurd (cc)
greater-total (x ∷ xs) [] h k = absurd (cc)
greater-total (x ∷ xs) (y ∷ ys) h k = ground (arith, greater-total xs ys)

-- The hash of a branch does not depend on the order in which its two nodes are given.
pub tap_branch_hash_comm :
    (sha256 : Hash) (a b : ByteString) → tap_branch_hash sha256 a b ≡ tap_branch_hash sha256 b a
unfolding tap_branch_hash
tap_branch_hash_comm sha256 a b = elim (Bool-cases (greater a b)) [
  | inl above ↦ let below = greater-antisym a b above in ground (arith, above, below)
  | inr not_above ↦ elim (Bool-cases (greater b a)) [
    | inl below ↦ ground (arith, not_above, below)
    | inr not_below ↦ let same = greater-total a b not_above not_below in cc same
  ]
]

tapret_script-has_prefix :
    (commitment : ByteString) (nonce : ℕ) → has_prefix (tapret_script commitment nonce) ≡ true
unfolding tapret_script
tapret_script-has_prefix commitment nonce = ground (arith, bytes_eq_refl tapret_prefix)

-- What a partner must be for a commitment in the leaf with this hash.
abbrev pub Admits : Hash → ByteString → TapretPartner → Type 0
Admits sha256 leaf (left_node hash) = greater hash leaf ≡ false
Admits sha256 leaf (right_leaf version script) =
    (greater leaf (tap_leaf_hash sha256 version script) ≡ false)
    × ((commitment : ByteString) (nonce : ℕ) → script ≢ tapret_script commitment nonce)
Admits sha256 leaf (right_branch left right) =
    (greater leaf (tap_branch_hash sha256 left right) ≡ false)
    × (greater left right ≡ false)
    × (take 31 left ≢ tapret_prefix)

validated_hash-Admits :
    (sha256 : Hash) (partner : TapretPartner) (leaf hash : ByteString)
    → validated_hash sha256 partner leaf ≡ ok hash
    → Admits sha256 leaf partner
unfolding validated_hash
validated_hash-Admits sha256 (left_node node) leaf hash h =
    after_guard (not (greater node leaf)) _ _ h λ above _. ground (arith, above)
validated_hash-Admits sha256 (right_leaf version script) leaf hash h =
    after_guard (not (has_prefix script)) _ _ h λ plain h1.
      after_guard (not (greater leaf (tap_leaf_hash sha256 version script))) _ _ h1 λ above _. (
        ground (arith, above),
        λ commitment nonce e.
            other script (tapret_script commitment nonce) plain e
              (tapret_script-has_prefix commitment nonce),
      )
  where
    other : (s t : ByteString) → not (has_prefix s) ≡ true → s ≡ t → has_prefix t ≡ true → ⊥
    other s t p e q = cc
validated_hash-Admits sha256 (right_branch left right) leaf hash h =
    after_guard (not (greater left right || bytes_eq (take 31 left) tapret_prefix)) _ _ h
      λ sorted h1.
        after_guard (not (greater leaf (tap_branch_hash sha256 left right))) _ _ h1 λ above _. (
          ground (arith, above),
          ground (arith, sorted),
          λ e.
              ground
                (arith, sorted, ap (λ t. bytes_eq t tapret_prefix) e, bytes_eq_refl tapret_prefix),
        )

-- A tapret root with a partner is accepted only for a partner that the commitment's leaf admits: a
-- node to the left sorts no higher than the leaf, one to the right no lower; a leaf to the right
-- is the tapret script of no commitment, so the tree holds a single one; and a branch to the right
-- has its nodes in order, the first no tapret script's.
pub tapret_merkle_root-Admits :
    (sha256 : Hash) (commitment : ByteString) (nonce : ℕ) (partner : TapretPartner)
    (root : ByteString)
    → tapret_merkle_root sha256 commitment nonce (some partner) ≡ ok root
    → Admits sha256 (tap_leaf_hash sha256 0xc0 (tapret_script commitment nonce)) partner
unfolding tapret_merkle_root
tapret_merkle_root-Admits sha256 commitment nonce partner root h =
    let leaf = tap_leaf_hash sha256 0xc0 (tapret_script commitment nonce) in
    after_ok (validated_hash sha256 partner leaf) _ h
      λ hash valid _. validated_hash-Admits sha256 partner leaf hash valid
