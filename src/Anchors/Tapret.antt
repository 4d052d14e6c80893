-- ===== src/Anchors/Tapret.antt =====
-- anchors/tapret.go. The curve of btcec is a parameter.
use rgb.Prelude.{
  ℕ, ◌-◌, Bool, true, false, ◌&&◌, ◌||◌, not, Option, none, some, [], ◌∷◌, ◌++◌, ltb, leb, ◌==◌,
  if◌then◌else◌, length, take, replicate, Result, ok, guard, of_option, ◌>>=◌, ◌>>◌, invalid_tapret,
}
use rgb.Prelude.Bytes.{ByteString, bytes_eq, put_le}
use rgb.Consensus.TaggedHash.{Hash, tagged_hash}

abbrev pub tapret_prefix : ByteString
tapret_prefix = replicate 29 0x50 ++ (0x6a ∷ 0x21 ∷ [])

-- `Kind` and the fields that it uses; no code makes another kind than these three.
pub data TapretPartner : Type 0 where
  left_node : ByteString → TapretPartner
  right_leaf : ℕ → ByteString → TapretPartner
  right_branch : ByteString → ByteString → TapretPartner

-- What the code asks of btcec: a key parsed from its compressed form, a scalar of 32 bytes that
-- does not overflow, the sum of the key and the scalar's point unless that is infinity, and the
-- bytes of its x coordinate without leading zeros.
pub record Curve : Type 1 where
  pub Point : Type 0
  pub Scalar : Type 0
  pub parse_pub_key : ByteString → Option Point
  pub set_byte_slice : ByteString → Option Scalar
  pub add_base_mult : Point → Scalar → Option Point
  pub x_bytes : Point → ByteString

-- bytes.Compare(a, b) > 0
unfoldable pub greater : ByteString → ByteString → Bool
greater [] ys = false
greater (x ∷ xs) [] = true
greater (x ∷ xs) (y ∷ ys) = if x == y then greater xs ys else ltb y x

unfoldable pub compact_size : ℕ → ByteString
unfolding put_le
compact_size value =
    if ltb value 0xfd
    then value ∷ []
    else if leb value 0xffff
    then 0xfd ∷ put_le 2 value
    else if leb value 0xffffffff
    then 0xfe ∷ put_le 4 value
    else 0xff ∷ put_le 8 value

unfoldable pub append_compact_size : ByteString → ℕ → ByteString
unfolding compact_size
append_compact_size dst value = dst ++ compact_size value

unfoldable pub tapret_script : ByteString → ℕ → ByteString
tapret_script commitment nonce = tapret_prefix ++ (commitment ++ (nonce ∷ []))

unfoldable pub tap_leaf_hash : Hash → ℕ → ByteString → ByteString
unfolding append_compact_size tagged_hash
tap_leaf_hash sha256 version script =
    tagged_hash sha256 "TapLeaf"
      ((append_compact_size (version ∷ []) (length script) ++ script) ∷ [])

unfoldable pub tap_branch_hash : Hash → ByteString → ByteString → ByteString
unfolding greater tagged_hash
tap_branch_hash sha256 first second =
    if greater first second
    then tagged_hash sha256 "TapBranch" ((second ++ first) ∷ [])
    else tagged_hash sha256 "TapBranch" ((first ++ second) ∷ [])

abbrev pub has_prefix : ByteString → Bool
has_prefix script = leb 31 (length script) && bytes_eq (take 31 script) tapret_prefix

unfoldable pub validated_hash : Hash → TapretPartner → ByteString → Result ByteString
unfolding greater bytes_eq tap_leaf_hash tap_branch_hash
validated_hash sha256 (left_node hash) leaf = do
  guard (not (greater hash leaf)) invalid_tapret
  ok hash
validated_hash sha256 (right_leaf version script) leaf = do
  guard (not (has_prefix script)) invalid_tapret
  let hash = tap_leaf_hash sha256 version script
  guard (not (greater leaf hash)) invalid_tapret
  ok hash
validated_hash sha256 (right_branch left right) leaf = do
  guard (not (greater left right || bytes_eq (take 31 left) tapret_prefix)) invalid_tapret
  let hash = tap_branch_hash sha256 left right
  guard (not (greater leaf hash)) invalid_tapret
  ok hash

-- The leaf version of the commitment is 0xc0.
unfoldable pub tapret_merkle_root : Hash → ByteString → ℕ → Option TapretPartner → Result ByteString
unfolding tapret_script tap_leaf_hash validated_hash tap_branch_hash
tapret_merkle_root sha256 commitment nonce none =
    ok (tap_leaf_hash sha256 0xc0 (tapret_script commitment nonce))
tapret_merkle_root sha256 commitment nonce (some partner) = do
  let leaf = tap_leaf_hash sha256 0xc0 (tapret_script commitment nonce)
  hash ← validated_hash sha256 partner leaf
  ok (tap_branch_hash sha256 leaf hash)

unfoldable pub tapret_output_key_with_partner :
    Hash → Curve → ByteString → ByteString → ℕ → Option TapretPartner → Result ByteString
unfolding tapret_merkle_root tagged_hash
tapret_output_key_with_partner sha256 curve internal commitment nonce partner = do
  key ← of_option invalid_tapret (curve.parse_pub_key (2 ∷ internal))
  root ← tapret_merkle_root sha256 commitment nonce partner
  tweak ←
      of_option invalid_tapret
        (curve.set_byte_slice (tagged_hash sha256 "TapTweak" ((internal ++ root) ∷ [])))
  output ← of_option invalid_tapret (curve.add_base_mult key tweak)
  let x = curve.x_bytes output
  ok (replicate (32 - length x) 0 ++ x)

unfoldable pub tapret_output_key : Hash → Curve → ByteString → ByteString → ℕ → Result ByteString
unfolding tapret_output_key_with_partner
tapret_output_key sha256 curve internal commitment nonce =
    tapret_output_key_with_partner sha256 curve internal commitment nonce none

unfoldable pub tapret_pk_script : ByteString → ByteString
tapret_pk_script output = 0x51 ∷ 0x20 ∷ output
