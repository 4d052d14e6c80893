-- ===== src/Anchors/Mpc.antt =====
-- anchors/mpc.go: multi-protocol commitments. A 32-byte array is a list of that length, a nil
-- reader is `none`, and a reader is the bytes that it will give.
use rgb.Prelude.{
  ℕ, zero, suc, ◌+◌, ◌-◌, ◌*◌, ◌/◌, ◌%◌, ◌^◌, Option, none, some, List, [], ◌∷◌, ◌++◌, not, ltb,
  ◌==◌, if◌then◌else◌, length, take, drop, reverse, Result, ok, err, guard, ◌>>=◌, ◌>>◌,
  invalid_mpc_proof, foreign, String,
}
use rgb.Prelude.Bytes.{ByteString, put_le}
use rgb.Consensus.TaggedHash.{Hash, tagged_hash}
use rgb.Consensus.Merkle.{merkle_leaf_hash, merkle_branch_hash}

abbrev pub mpc_tag : String
mpc_tag = "urn:ubideco:mpc:commitment#2024-01-31"

pub record MpcProof : Type 0 where
  pub position : ℕ
  pub cofactor : ℕ
  pub path : List ByteString

-- big.Int.SetBytes: the bytes as a number, the first most significant.
unfoldable pub set_bytes : ByteString → ℕ → ℕ
set_bytes [] value = value
set_bytes (b ∷ bs) value = set_bytes bs (value * 256 + b)

unfoldable pub protocol_position : ByteString → ℕ → ℕ
unfolding set_bytes
protocol_position protocol_id width = set_bytes (reverse protocol_id) 0 % width % 2 ^ 32

-- `io.ReadFull` into each hash of the path.
unfoldable pub read_path : ℕ → ByteString → Result (List ByteString)
read_path zero entropy = ok []
read_path (suc n) entropy = do
  guard (not (ltb (length entropy) 32)) foreign
  rest ← read_path n (drop 32 entropy)
  ok (take 32 entropy ∷ rest)

abbrev pub width_of : ℕ → ℕ
width_of depth = 2 ^ depth % 2 ^ 32

unfoldable pub new_mpc_proof_from : ByteString → ℕ → Option ByteString → Result MpcProof
unfolding read_path protocol_position
new_mpc_proof_from protocol_id depth none = err invalid_mpc_proof
new_mpc_proof_from protocol_id depth (some entropy) = do
  guard (not (ltb 31 depth)) invalid_mpc_proof
  path ← read_path depth entropy
  ok (record {
    position = protocol_position protocol_id (width_of depth);
    cofactor = 0;
    path = path;
  })

-- `width - uint32(proof.Cofactor)` in 32 bits.
abbrev pub factored_width : ℕ → ℕ → ℕ
factored_width depth cofactor = (width_of depth + 2 ^ 32 - cofactor) % 2 ^ 32

-- The hash of the branch over `current`, on the side that the bit of the position says.
unfoldable pub climb_step : Hash → ℕ → ℕ → ℕ → ℕ → ByteString → ByteString → ByteString
unfolding merkle_branch_hash
climb_step sha256 position width index shift current partner =
    if (position / 2 ^ shift) % 2 == 0
    then merkle_branch_hash sha256 index width current partner
    else merkle_branch_hash sha256 index width partner current

-- The loop from the last hash of the path to the first: `path` comes reversed, so the index of its
-- head is the number of hashes behind it.
unfoldable pub climb : Hash → ℕ → ℕ → ℕ → List ByteString → ByteString → ByteString
unfolding climb_step
climb sha256 position width shift [] current = current
climb sha256 position width shift (partner ∷ rest) current =
    climb sha256 position width (suc shift) rest
      (climb_step sha256 position width (length rest) shift current partner)

abbrev pub leaf_message : ByteString → ByteString → ByteString
leaf_message protocol_id message = 16 ∷ protocol_id ++ message

unfoldable pub mpc_root : Hash → MpcProof → ByteString → ByteString → ByteString
unfolding climb merkle_leaf_hash
mpc_root sha256 proof protocol_id message =
    climb sha256 proof.position (width_of (length proof.path)) 0 (reverse proof.path)
      (merkle_leaf_hash sha256 (leaf_message protocol_id message))

abbrev pub root_message : MpcProof → ByteString → ByteString
root_message proof root = (length proof.path % 2 ^ 8) ∷ put_le 2 proof.cofactor ++ root

unfoldable pub convolve_mpc : Hash → MpcProof → ByteString → ByteString → Result ByteString
unfolding protocol_position mpc_root tagged_hash put_le
convolve_mpc sha256 proof protocol_id message =
    let depth = length proof.path in
    let factored = factored_width depth proof.cofactor in
    do
      guard (not (ltb 31 depth)) invalid_mpc_proof
      guard (not (factored == 0)) invalid_mpc_proof
      guard (ltb proof.position (width_of depth)) invalid_mpc_proof
      guard (protocol_position protocol_id factored == proof.position) invalid_mpc_proof
      ok (
          tagged_hash sha256 mpc_tag
            (root_message proof (mpc_root sha256 proof protocol_id message) ∷ []))
