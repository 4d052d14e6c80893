-- ===== src/Anchors/Checked.antt =====
-- The checks of `ConvolveMPC` in anchors/mpc.go, and the proofs that `NewMPCProofFrom` makes.
use rgb.Prelude.{
  ℕ, zero, suc, ◌+◌, ◌*◌, ◌%◌, ◌^◌, ◌<◌, ◌≤◌, ◌≡◌, refl, sym, ap, ◌∙◌, some, List, [], ◌∷◌, ◌++◌,
  not, ltb, ◌==◌, length, take, drop, reverse, ok, arith, after_guard, after_ok, guard-pass, subst,
}
use native.Mathlib.Nat.{mod-lt}
use rgb.Prelude.Bytes.{ByteString, get_le}
use rgb.Consensus.TaggedHash.{Hash, tagged_hash}
use rgb.Anchors.Mpc.{
  MpcProof, mpc_tag, width_of, factored_width, set_bytes, protocol_position, read_path,
  new_mpc_proof_from, root_message, mpc_root, convolve_mpc,
}

-- What the code checks of a proof before it hashes anything.
pub record Accepted (proof : MpcProof) (protocol_id : ByteString) : Type 0 where
  pub shallow : length proof.path ≤ 31
  pub factored : 0 < factored_width (length proof.path) proof.cofactor
  pub within : proof.position < width_of (length proof.path)
  pub placed :
      protocol_position protocol_id (factored_width (length proof.path) proof.cofactor)
      ≡ proof.position

unfoldable pub mpc_hash : Hash → Hash
unfolding tagged_hash
mpc_hash sha256 message = tagged_hash sha256 mpc_tag (message ∷ [])

pub convolve_mpc-Accepted :
    (sha256 : Hash) (proof : MpcProof) (protocol_id message commitment : ByteString)
    → convolve_mpc sha256 proof protocol_id message ≡ ok commitment
    → Accepted proof protocol_id
      × (commitment
          ≡ mpc_hash sha256 (root_message proof (mpc_root sha256 proof protocol_id message)))
unfolding convolve_mpc mpc_hash
convolve_mpc-Accepted sha256 proof protocol_id message commitment h =
    let depth = length proof.path in
    let factored = factored_width depth proof.cofactor in
    after_guard (not (ltb 31 depth)) _ _ h λ c1 h1.
      after_guard (not (factored == 0)) _ _ h1 λ c2 h2.
        after_guard (ltb proof.position (width_of depth)) _ _ h2 λ c3 h3.
          after_guard (protocol_position protocol_id factored == proof.position) _ _ h3 λ c4 done. (
            record {
              shallow = ground (arith, c1);
              factored = ground (arith, c2);
              within = ground (arith, c3);
              placed = ground (arith, c4);
            },
            cc,
          )

set_bytes-append :
    (xs ys : ByteString) (value : ℕ)
    → set_bytes (xs ++ ys) value ≡ set_bytes ys (set_bytes xs value)
unfolding set_bytes
set_bytes-append [] ys value = refl
set_bytes-append (x ∷ xs) ys value = set_bytes-append xs ys (value * 256 + x)

set_bytes-reverse : (xs : ByteString) → set_bytes (reverse xs) 0 ≡ get_le xs
unfolding set_bytes get_le
set_bytes-reverse [] = refl
set_bytes-reverse (x ∷ xs) =
    omega (arith, set_bytes-append (reverse xs) (x ∷ []) 0, set_bytes-reverse xs)

-- The position of a protocol is its identifier, read as a little-endian number, modulo the width.
pub protocol_position-get_le :
    (protocol_id : ByteString) (width : ℕ)
    → 0 < width
    → width < 2 ^ 32
    → (protocol_position protocol_id width ≡ get_le protocol_id % width)
      × (protocol_position protocol_id width < width)
unfolding protocol_position
protocol_position-get_le protocol_id width positive short =
    let value = set_bytes (reverse protocol_id) 0 in
    small (value % width) (get_le protocol_id % width)
      (ap (λ v. v % width) (set_bytes-reverse protocol_id)) (mod-lt value positive)
  where
    small : (v w : ℕ) → v ≡ w → v < width → (v % 2 ^ 32 ≡ w) × (v % 2 ^ 32 < width)
    small v w e b = omega arith

read_path-length :
    (n : ℕ) (entropy : ByteString) (path : List ByteString)
    → read_path n entropy ≡ ok path
    → length path ≡ n
unfolding read_path
read_path-length zero entropy path h = ground (arith, h)
read_path-length (suc n) entropy path h = after_guard (not (ltb (length entropy) 32)) _ _ h λ _ h1.
    after_ok (read_path n (drop 32 entropy)) _ h1 λ rest more done.
      let same : take 32 entropy ∷ rest ≡ path = cc in
      let long = read_path-length n (drop 32 entropy) rest more in
      omega (arith, ap length same, long)

power_le : (n k : ℕ) → n ≤ k → 2 ^ n ≤ 2 ^ k
power_le zero zero h = omega arith
power_le zero (suc k) h = omega (arith, power_le zero k)
power_le (suc n) zero h = absurd (omega arith)
power_le (suc n) (suc k) h = omega (arith, power_le n k)

-- An accepted proof lies within bounds: the path has at most 31 hashes, and the position is below
-- 2^31, inside the tree, and is the protocol's identifier modulo the factored width, which is not
-- 0.
pub convolve_mpc-bounds :
    (sha256 : Hash) (proof : MpcProof) (protocol_id message commitment : ByteString)
    → convolve_mpc sha256 proof protocol_id message ≡ ok commitment
    → (length proof.path ≤ 31)
      × (proof.position < 2 ^ length proof.path)
      × (proof.position < 2 ^ 31)
      × (0 < factored_width (length proof.path) proof.cofactor)
      × (proof.position ≡ get_le protocol_id % factored_width (length proof.path) proof.cofactor)
convolve_mpc-bounds sha256 proof protocol_id message commitment h =
    let depth = length proof.path in
    let factored = factored_width depth proof.cofactor in
    let accepted = (convolve_mpc-Accepted sha256 proof protocol_id message commitment h).0 in
    let small : factored < 2 ^ 32 = omega arith in
    let (place, inside) = protocol_position-get_le protocol_id factored accepted.factored small in
    let shallow = accepted.shallow in
    let within = accepted.within in
    let narrow = power_le depth 31 shallow in
    (
      shallow,
      omega (arith, within, narrow),
      omega (arith, within, narrow),
      accepted.factored,
      sym accepted.placed ∙ place,
    )

convolve_mpc-of_Accepted :
    (sha256 : Hash) (proof : MpcProof) (protocol_id message : ByteString)
    → Accepted proof protocol_id
    → convolve_mpc sha256 proof protocol_id message
      ≡ ok (mpc_hash sha256 (root_message proof (mpc_root sha256 proof protocol_id message)))
unfolding convolve_mpc mpc_hash
convolve_mpc-of_Accepted sha256 proof protocol_id message a =
    let depth = length proof.path in
    let factored = factored_width depth proof.cofactor in
    let c1 = a.shallow in
    let c2 = a.factored in
    let c3 = a.within in
    let c4 = a.placed in
    guard-pass (not (ltb 31 depth)) _ _ (ground (arith, c1))
    ∙ guard-pass (not (factored == 0)) _ _ (ground (arith, c2))
    ∙ guard-pass (ltb proof.position (width_of depth)) _ _ (ground (arith, c3))
    ∙ guard-pass (protocol_position protocol_id factored == proof.position) _ _ (ground (arith, c4))

-- A proof that `NewMPCProofFrom` makes from any entropy is one that `ConvolveMPC` accepts, for
-- every message of the protocol.
pub convolve_mpc-new_mpc_proof_from :
    (sha256 : Hash) (protocol_id message entropy : ByteString) (depth : ℕ) (proof : MpcProof)
    → new_mpc_proof_from protocol_id depth (some entropy) ≡ ok proof
    → convolve_mpc sha256 proof protocol_id message
      ≡ ok (mpc_hash sha256 (root_message proof (mpc_root sha256 proof protocol_id message)))
unfolding new_mpc_proof_from
convolve_mpc-new_mpc_proof_from sha256 protocol_id message entropy depth proof h =
    after_guard (not (ltb 31 depth)) _ _ h λ shallow h1.
      after_ok (read_path depth entropy) _ h1 λ path read done.
        let long = read_path-length depth entropy path read in
        let low : depth ≤ 31 = ground (arith, shallow) in
        let same : made path ≡ proof = cc in
        subst
          (λ p.
            convolve_mpc sha256 p protocol_id message
            ≡ ok (mpc_hash sha256 (root_message p (mpc_root sha256 p protocol_id message))))
          same
          (convolve_mpc-of_Accepted sha256 (made path) protocol_id message
            (fits path (omega (arith, long, low)) long))
  where
    made : List ByteString → MpcProof
    made path = record {
      position = protocol_position protocol_id (width_of depth);
      cofactor = 0;
      path = path;
    }

    fits :
        (path : List ByteString)
        → length path ≤ 31
        → length path ≡ depth
        → Accepted (made path) protocol_id
    fits path low long =
        let some_width = power_le 0 (length path) (omega arith) in
        let narrow = power_le (length path) 31 low in
        let whole : factored_width (length path) 0 ≡ width_of (length path) = omega arith in
        let positive : 0 < width_of (length path) = omega arith in
        let inside =
          (protocol_position-get_le protocol_id (width_of (length path)) positive
            (omega arith)).1 in
        record {
          shallow = low;
          factored = omega arith;
          within =
              subst (λ d. protocol_position protocol_id (width_of d) < width_of (length path)) long
                inside;
          placed = ap (protocol_position protocol_id) (whole ∙ ap width_of long);
        }
