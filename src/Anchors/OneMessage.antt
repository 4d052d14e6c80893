-- ===== src/Anchors/OneMessage.antt =====
-- A multi-protocol commitment binds one message of a protocol: `ConvolveMPC` of anchors/mpc.go.
use rgb.Prelude.{
  ℕ, suc, ◌/◌, ◌%◌, ◌^◌, ◌<◌, ◌≤◌, ◌≡◌, refl, sym, ap, ◌∙◌, subst, true, List, [], ◌∷◌, ◌++◌, ◌==◌,
  if◌then◌else◌, length, reverse, length-reverse, reverse-inj, ok, All, All-reverse, arith,
  append-cancel_front, Bool-cases, inl, inr,
}
use rgb.Prelude.Bytes.{ByteString, put_le}
use rgb.Consensus.TaggedHash.{Hash, IsSized, IsDigest, all_apart, apart, apart-eq, all_apart-node}
use rgb.Consensus.Merkle.{node_message, merkle_node, merkle_branch_hash, merkle_leaf_hash}
use rgb.Consensus.Binding.{node_hash, node_hash-IsSized, node_message-inj}
use rgb.Anchors.Checked.{mpc_hash, convolve_mpc-Accepted}
use rgb.Anchors.Mpc.{
  MpcProof, width_of, climb, climb_step, protocol_position, leaf_message, root_message, mpc_root,
  convolve_mpc,
}

-- What a step of the climb hashes.
unfoldable pub step_message : ℕ → ℕ → ℕ → ℕ → ByteString → ByteString → ByteString
unfolding node_message
step_message position width index shift current partner =
    if (position / 2 ^ shift) % 2 == 0
    then node_message 2 index width current partner
    else node_message 2 index width partner current

unfoldable pub climb_messages : Hash → ℕ → ℕ → ℕ → List ByteString → ByteString → List ByteString
unfolding step_message climb_step
climb_messages sha256 position width shift [] current = []
climb_messages sha256 position width shift (partner ∷ rest) current =
    step_message position width (length rest) shift current partner ∷ []
    ++ climb_messages sha256 position width (suc shift) rest
        (climb_step sha256 position width (length rest) shift current partner)

step-node_hash :
    (sha256 : Hash) (position width index shift : ℕ) (current partner : ByteString)
    → climb_step sha256 position width index shift current partner
      ≡ node_hash sha256 (step_message position width index shift current partner)
unfolding climb_step step_message node_hash merkle_branch_hash merkle_node
step-node_hash sha256 position width index shift current partner =
    elim (Bool-cases ((position / 2 ^ shift) % 2 == 0)) [
      | inl left ↦ ground (arith, left)
      | inr right ↦ ground (arith, right)
    ]

step_message-inj :
    (position width index shift : ℕ) (a p a' p' : ByteString)
    → IsSized a
    → IsSized p
    → IsSized a'
    → IsSized p'
    → step_message position width index shift a p ≡ step_message position width index shift a' p'
    → (a ≡ a') × (p ≡ p')
unfolding step_message
step_message-inj position width index shift a p a' p' ha hp ha' hp' e =
    elim (Bool-cases ((position / 2 ^ shift) % 2 == 0)) [
      | inl left ↦ node_message-inj 2 index width a p a' p' ha ha' (ground (arith, left, e))
      | inr right ↦
          let (partner, current) =
            node_message-inj 2 index width p a p' a' hp hp' (ground (arith, right, e)) in
          (current, partner)
    ]

-- Two climbs of one height and place to one root start in one hash and pass the same partners.
climb-inj :
    (sha256 : Hash)
    → IsDigest sha256
    → (position width shift : ℕ) (ps ps' : List ByteString) (a a' : ByteString)
    → length ps ≡ length ps'
    → All IsSized ps
    → All IsSized ps'
    → IsSized a
    → IsSized a'
    → all_apart
        (node_hash sha256)
        (climb_messages sha256 position width shift ps a)
        (climb_messages sha256 position width shift ps' a')
      ≡ true
    → climb sha256 position width shift ps a ≡ climb sha256 position width shift ps' a'
    → (a ≡ a') × (ps ≡ ps')
unfolding climb climb_messages
climb-inj sha256 sized position width shift [] [] a a' l hp hp' ha ha' sep e = (e, refl)
climb-inj sha256 sized position width shift [] (p' ∷ ps') a a' l hp hp' ha ha' sep e =
    absurd (omega arith)
climb-inj sha256 sized position width shift (p ∷ ps) [] a a' l hp hp' ha ha' sep e =
    absurd (omega arith)
climb-inj sha256 sized position width shift (p ∷ ps) (p' ∷ ps') a a' l hp hp' ha ha' sep e =
    let long : length ps ≡ length ps' = omega arith in
    let step = climb_step sha256 position width (length ps) shift a p in
    let step' = climb_step sha256 position width (length ps') shift a' p' in
    let sent = step_message position width (length ps) shift a p in
    let sent' = step_message position width (length ps') shift a' p' in
    let (pair, tt', rest) =
      all_apart-node (node_hash sha256) sent sent' []
        (climb_messages sha256 position width (suc shift) ps step) []
        (climb_messages sha256 position width (suc shift) ps' step') sep in
    let hash = step-node_hash sha256 position width (length ps) shift a p in
    let hash' = step-node_hash sha256 position width (length ps') shift a' p' in
    let (same_step, same_rest) =
      climb-inj sha256 sized position width (suc shift) ps ps' step step' long hp.1 hp'.1
        (hashed step sent hash) (hashed step' sent' hash') rest e in
    let one = apart-eq (node_hash sha256) sent sent' pair (sym hash ∙ same_step ∙ hash') in
    let (current, partner) =
      step_message-inj position width (length ps) shift a p a' p' ha hp.0 ha' hp'.0
        (cc (one, long)) in
    (current, cc (partner, same_rest))
  where
    hashed : (x m : ByteString) → x ≡ node_hash sha256 m → IsSized x
    hashed x m e = subst IsSized (sym e) (node_hash-IsSized sha256 sized m)

-- The messages that `ConvolveMPC` hashes up to the root.
unfoldable pub proof_messages : Hash → MpcProof → ByteString → ByteString → List ByteString
unfolding climb_messages merkle_leaf_hash
proof_messages sha256 proof protocol_id message =
    leaf_message protocol_id message ∷ []
    ++ climb_messages sha256 proof.position (width_of (length proof.path)) 0 (reverse proof.path)
        (merkle_leaf_hash sha256 (leaf_message protocol_id message))

leaf-node_hash :
    (sha256 : Hash) (encoded : ByteString)
    → merkle_leaf_hash sha256 encoded ≡ node_hash sha256 encoded
unfolding merkle_leaf_hash node_hash
leaf-node_hash sha256 encoded = refl

root_message-inj :
    (proof proof' : MpcProof) (root root' : ByteString)
    → length proof.path ≤ 31
    → length proof'.path ≤ 31
    → proof.cofactor < 2 ^ 16
    → proof'.cofactor < 2 ^ 16
    → root_message proof root ≡ root_message proof' root'
    → (length proof.path ≡ length proof'.path) × (proof.cofactor ≡ proof'.cofactor) × (root ≡ root')
unfolding put_le
root_message-inj proof proof' root root' l l' c c' e = ground (arith, e)

module _ (sha256 : Hash) (protocol_id : ByteString) where
  -- What the code hashes for the two proofs is hashed apart.
  abbrev pub Separates : MpcProof → ByteString → MpcProof → ByteString → Type 0
  Separates proof message proof' message' =
      (apart (mpc_hash sha256) (root_message proof (mpc_root sha256 proof protocol_id message))
          (root_message proof' (mpc_root sha256 proof' protocol_id message'))
        ≡ true)
      × (all_apart (node_hash sha256) (proof_messages sha256 proof protocol_id message)
            (proof_messages sha256 proof' protocol_id message')
          ≡ true)

  -- Under one commitment a protocol has one message and one proof, where the hash separates what
  -- the code hashes for the two: two proofs of one protocol that convolve to the same commitment
  -- are equal and prove the same message.
  pub convolve_mpc-binding :
      (proof proof' : MpcProof) (message message' commitment : ByteString)
      → IsDigest sha256
      → All IsSized proof.path
      → All IsSized proof'.path
      → proof.cofactor < 2 ^ 16
      → proof'.cofactor < 2 ^ 16
      → Separates proof message proof' message'
      → convolve_mpc sha256 proof protocol_id message ≡ ok commitment
      → convolve_mpc sha256 proof' protocol_id message' ≡ ok commitment
      → (message ≡ message') × (proof ≡ proof')
  unfolding mpc_root proof_messages
  convolve_mpc-binding proof proof' message message' commitment sized hp hp' c c' sep h h' =
      let (a, sent) = convolve_mpc-Accepted sha256 proof protocol_id message commitment h in
      let (a', sent') = convolve_mpc-Accepted sha256 proof' protocol_id message' commitment h' in
      let root = mpc_root sha256 proof protocol_id message in
      let root' = mpc_root sha256 proof' protocol_id message' in
      let one =
        apart-eq (mpc_hash sha256) (root_message proof root) (root_message proof' root') sep.0
          (sym sent ∙ sent') in
      let (depth, cofactor, same_root) =
        root_message-inj proof proof' root root' a.shallow a'.shallow c c' one in
      let position : proof.position ≡ proof'.position =
        sym a.placed ∙ ap (protocol_position protocol_id) (cc (depth, cofactor)) ∙ a'.placed in
      let leaf = leaf_message protocol_id message in
      let leaf' = leaf_message protocol_id message' in
      let width = width_of (length proof.path) in
      let start = merkle_leaf_hash sha256 leaf in
      let start' = merkle_leaf_hash sha256 leaf' in
      let hash = leaf-node_hash sha256 leaf in
      let hash' = leaf-node_hash sha256 leaf' in
      let (pair, _, above) =
        all_apart-node (node_hash sha256) leaf leaf' []
          (climb_messages sha256 proof.position width 0 (reverse proof.path) start) []
          (climb_messages sha256 proof'.position (width_of (length proof'.path)) 0
            (reverse proof'.path) start')
          sep.1 in
      let (same_start, same_path) =
        climb-inj sha256 sized proof.position width 0 (reverse proof.path) (reverse proof'.path)
          start start' (omega (arith, length-reverse proof.path, length-reverse proof'.path, depth))
          (All-reverse IsSized proof.path hp) (All-reverse IsSized proof'.path hp')
          (subst IsSized (sym hash) (node_hash-IsSized sha256 sized leaf))
          (subst IsSized (sym hash') (node_hash-IsSized sha256 sized leaf'))
          (cc (position, depth, above)) (cc (position, depth, same_root)) in
      let same_leaf = apart-eq (node_hash sha256) leaf leaf' pair (sym hash ∙ same_start ∙ hash') in
      let path = reverse-inj proof.path proof'.path depth same_path in
      (
        (append-cancel_front (16 ∷ protocol_id) (16 ∷ protocol_id) message message' refl
            same_leaf).1,
        cc (position, cofactor, path),
      )
