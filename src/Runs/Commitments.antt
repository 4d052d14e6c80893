-- ===== src/Runs/Commitments.antt =====
-- The commitments at concrete values.
use rgb.Prelude.{
  ℕ, ◌≡◌, ◌≢◌, ◌+◌, ◌-◌, ◌%◌, ◌^◌, take, drop, leb, refl, true, false, some, List, [], ◌∷◌,
  replicate, Result, ok, err, arith, ◌⊎◌,
}
use rgb.Prelude.Bytes.{bytes_eq, ByteString}
use rgb.Consensus.Merkle.{merklize, merkle_base, merkle_node, left_width}
use rgb.Consensus.Fuel.{merklize-fuel}
use rgb.Consensus.Binding.{node_hash, root_messages, merkle_root-binding}
use rgb.Anchors.Mpc.{MpcProof, root_message, mpc_root, new_mpc_proof_from, convolve_mpc}
use rgb.Anchors.Checked.{mpc_hash, convolve_mpc-new_mpc_proof_from}
use rgb.Anchors.OneMessage.{Separates, proof_messages, convolve_mpc-binding}
use rgb.Anchors.Tapret.{right_leaf, tap_leaf_hash, tapret_script, tapret_merkle_root}
use rgb.Anchors.Partner.{Admits, tapret_merkle_root-Admits}
use rgb.StrictTypes.Value.{Value, unwrap}
use rgb.Operations.Commitments.{TransitionCommitment, commit_transition}
use rgb.Consignment.Anchor.{decode_anchor, verify_dbc}
use rgb.Consignment.Carried.{verify_dbc-one_bundle}
use rgb.Consignment.Transaction.{seen}
use rgb.Consignment.Types.{mined, prepared}
use rgb.Consignment.Witnessed.{Claim, Resolved, claim_of, resolve_witness_with_mode}
use rgb.Consignment.Trusted.{Seen, resolve_witness-Trusted}
use rgb.Formats.Base85.{encode_base85, decode_base85}
use rgb.Formats.Base85RoundTrip.{decode-encode_base85}
use rgb.Operations.Fields.{required_field, as_uint}
use rgb.Operations.Secrets.{assignment_secret}
use rgb.Operations.Truncation.{assignment_secret-truncates}
use rgb.Samples.{genesis_id, variant, blob, num, struct_of}
use rgb.Runs.Anchored.{
  sample_hash, sample_hash-IsDigest, transfer, transfer_with, or_none, proof, bundle_id, commitment,
  commitment_ok, opret_proof, position, anchor, witness, bitcoin, curve,
}

abbrev leaves : List ByteString
leaves = replicate 32 1 ∷ replicate 32 2 ∷ replicate 32 3 ∷ replicate 32 4 ∷ replicate 32 5 ∷ []

merkle_root-binding_example : leaves ≡ leaves
unfolding root_messages node_hash sample_hash bytes_eq
merkle_root-binding_example =
    merkle_root-binding sample_hash leaves leaves sample_hash-IsDigest refl (omega arith)
      (refl, (refl, (refl, (refl, (refl, tt))))) (refl, (refl, (refl, (refl, (refl, tt))))) refl
      refl

abbrev half : List ByteString → ℕ → ByteString
half list width = merklize sample_hash 6 list 1 width 5

made_ok :
    new_mpc_proof_from genesis_id 2 (some (replicate 70 9))
    ≡ ok (record { position = 2; cofactor = 0; path = replicate 32 9 ∷ replicate 32 9 ∷ [] })
unfolding new_mpc_proof_from
made_ok = refl

abbrev made : MpcProof
made = record { position = 2; cofactor = 0; path = replicate 32 9 ∷ replicate 32 9 ∷ [] }

convolve_mpc-new_mpc_proof_from_example :
    convolve_mpc sample_hash made genesis_id bundle_id
    ≡ ok (mpc_hash sample_hash (root_message made (mpc_root sample_hash made genesis_id bundle_id)))
convolve_mpc-new_mpc_proof_from_example =
    convolve_mpc-new_mpc_proof_from sample_hash genesis_id bundle_id (replicate 70 9) 2 made made_ok

separated : Separates sample_hash genesis_id proof bundle_id proof bundle_id
unfolding proof_messages mpc_root mpc_hash node_hash sample_hash bytes_eq position bundle_id
separated = (refl, refl)

convolve_mpc-binding_example : (bundle_id ≡ bundle_id) × (proof ≡ proof)
convolve_mpc-binding_example =
    convolve_mpc-binding sample_hash genesis_id proof proof bundle_id bundle_id commitment
      sample_hash-IsDigest (refl, (refl, (refl, tt))) (refl, (refl, (refl, tt))) (omega arith)
      (omega arith) separated commitment_ok commitment_ok

anchor_decodes : decode_anchor anchor ≡ ok (proof, opret_proof)
unfolding decode_anchor position
anchor_decodes = refl

witness_carries : verify_dbc sample_hash curve (seen witness) opret_proof commitment ≡ ok tt
unfolding verify_dbc sample_hash commitment
witness_carries = refl

verify_dbc-one_bundle_example : (bundle_id ≡ bundle_id) × (proof ≡ proof)
verify_dbc-one_bundle_example =
    verify_dbc-one_bundle sample_hash curve (seen witness) anchor anchor opret_proof opret_proof
      proof proof genesis_id bundle_id bundle_id commitment commitment sample_hash-IsDigest
      separated anchor_decodes anchor_decodes commitment_ok commitment_ok refl witness_carries
      witness_carries

abbrev public_witness : Value
public_witness = variant "txid" 1 (blob (replicate 32 4))

abbrev resolved : Resolved
resolved = record { tx = witness; tx_id = replicate 32 4; state = mined }

resolved_ok : resolve_witness_with_mode bitcoin false public_witness ≡ ok resolved
unfolding resolve_witness_with_mode
resolved_ok = refl

resolve_witness-Trusted_example :
    (resolved.tx_id ≡ resolved.tx_id)
    × (Seen bitcoin resolved
        ⊎ ((false ≡ true)
            × (mined ≡ prepared)
            × (claim : Claim) × (claim_of bitcoin (unwrap public_witness) ≡ ok claim)
            × (claim.embedded ≡ some witness)))
resolve_witness-Trusted_example =
    resolve_witness-Trusted bitcoin false public_witness resolved resolved_ok

decode-encode_base85_example :
    decode_base85 (encode_base85 (72 ∷ 105 ∷ 33 ∷ 1 ∷ 255 ∷ [])) ≡ ok (72 ∷ 105 ∷ 33 ∷ 1 ∷ 255 ∷ [])
decode-encode_base85_example =
    decode-encode_base85 (72 ∷ 105 ∷ 33 ∷ 1 ∷ 255 ∷ [])
      (omega arith, (omega arith, (omega arith, (omega arith, (omega arith, tt)))))

abbrev or_blank : Result TransitionCommitment → TransitionCommitment
or_blank (ok c) = c
or_blank (err e) = record {
  metadata_hash = [];
  globals_root = [];
  inputs_root = [];
  assignments_root = [];
  operation_id = [];
}

transfer_commitment : TransitionCommitment
unfolding commit_transition sample_hash
transfer_commitment = or_blank (commit_transition sample_hash transfer)

-- A nonce of another value gives another identifier.
other_nonce : commit_transition sample_hash (transfer_with (replicate 8 2)) ≢ ok transfer_commitment
unfolding commit_transition sample_hash transfer_commitment
other_nonce e = ground (arith, e)

abbrev leaf_hash : ByteString
leaf_hash = tap_leaf_hash sample_hash 0xc0 (tapret_script (replicate 32 8) 5)

tapret_root : ByteString
unfolding tapret_merkle_root sample_hash
tapret_root =
    or_none (tapret_merkle_root sample_hash (replicate 32 8) 5 (some (right_leaf 0xc0 (60 ∷ []))))

tapret_ok :
    tapret_merkle_root sample_hash (replicate 32 8) 5 (some (right_leaf 0xc0 (60 ∷ [])))
    ≡ ok tapret_root
unfolding tapret_root
tapret_ok = refl

tapret_merkle_root-Admits_example : Admits sample_hash leaf_hash (right_leaf 0xc0 (60 ∷ []))
tapret_merkle_root-Admits_example =
    tapret_merkle_root-Admits sample_hash (replicate 32 8) 5 (right_leaf 0xc0 (60 ∷ [])) tapret_root
      tapret_ok

abbrev seal_at : ℕ → Value
seal_at vout =
    struct_of (("txid", blob (replicate 32 7)) ∷ ("vout", num vout) ∷ ("blinding", num 3) ∷ [])

-- An index above 32 bits is committed to like the index that is left of it.
assignment_secret-truncates_example :
    assignment_secret sample_hash "revealed" (seal_at (2 ^ 32 + 1))
    ≡ assignment_secret sample_hash "revealed" (seal_at 1)
unfolding required_field as_uint
assignment_secret-truncates_example =
    assignment_secret-truncates sample_hash (seal_at (2 ^ 32 + 1)) (seal_at 1) (num (2 ^ 32 + 1))
      (num 1) (2 ^ 32 + 1) 1 refl refl refl refl refl refl refl

merklize-fuel_example :
    (merklize sample_hash 6 leaves 0 5 5 ≡ merklize sample_hash 9 leaves 0 5 5)
    × (merklize sample_hash 6 leaves 0 5 5 ≡ (elim (leb 5 2) [
      | true ↦ merkle_base sample_hash leaves 0 5
      | false ↦
          merkle_node sample_hash 2 0 5
            (merklize sample_hash 6 (take (left_width 5) leaves) ((0 + 1) % 2 ^ 8) (left_width 5) 5)
            (merklize sample_hash 6
              (drop (left_width 5) leaves)
              ((0 + 1) % 2 ^ 8)
              (5 - left_width 5)
              5)
    ]))
merklize-fuel_example = merklize-fuel sample_hash 6 9 leaves 0 5 5 (omega arith) (omega arith)
