-- ===== src/Consignment/Assembled.antt =====
-- The validator of consignment/validator.go on top of the other parts as the code calls them, and
-- what an accepted bundle rests on then.
use rgb.Prelude.{
  ◌≡◌, sym, ap, ◌∙◌, subst, Bool, true, Option, some, [], ◌∷◌, Result, ok, ◌>>=◌, ◌⊎◌, inl, inr,
  after_ok, recast, recast-eq_ok, bundle_anchor, String,
}
use rgb.Prelude.Bytes.{ByteString}
use rgb.Consensus.TaggedHash.{Hash, IsDigest, tagged_hash}
use rgb.StrictTypes.Value.{Value, unwrap, field}
use rgb.Schemas.Types.{Services}
use rgb.Anchors.Mpc.{MpcProof, convolve_mpc}
use rgb.Anchors.Tapret.{Curve}
use rgb.Operations.Commitments.{commit_transition}
use rgb.Operations.Genesis.{commit_genesis}
use rgb.Operations.Bundle.{BundleCommitment, commit_bundle}
use rgb.Consignment.Types.{TxOut, prepared}
use rgb.Consignment.Outpoints.{OutpointResolver}
use rgb.Consignment.History.{Witness, Evidence, Progress, validate_bundle}
use rgb.Consignment.Anchor.{
  anchor_commitment, decode_anchor, first_carrier, verify_dbc, decode_carrier_binding,
}
use rgb.Consignment.Carried.{OpretCarried, TapretCarried, verify_dbc-Carried, commitment-IsSized}
use rgb.Consignment.Transaction.{seen}
use rgb.Consignment.Witnessed.{Bitcoin, Resolved, resolve_witness, resolve_witness_with_mode}
use rgb.Consignment.Trusted.{Seen, resolve_witness-Trusted}
use rgb.Consignment.Steps.{validate_bundle-BundleRun}

abbrev pub bundle_tag : String
bundle_tag = "urn:lnp-bp:rgb:bundle#2024-02-03"

unfoldable pub transition_id : Hash → Value → Result ByteString
unfolding commit_transition
transition_id sha256 value = do
  commitment ← commit_transition sha256 value
  ok commitment.operation_id

unfoldable pub genesis_id : Hash → Value → Result ByteString
unfolding commit_genesis
genesis_id sha256 value = do commitment ← commit_genesis sha256 value; ok commitment.operation_id

unfoldable pub bundle_hash : Hash → ByteString → ByteString
unfolding tagged_hash
bundle_hash sha256 encoded = tagged_hash sha256 bundle_tag (encoded ∷ [])

-- The calls of the loop, with the hash, the curve and the chain left open.
unfoldable pub assembled : Hash → Curve → Bitcoin → Option OutpointResolver → Bool → Evidence
unfolding genesis_id transition_id bundle_hash commit_bundle anchor_commitment verify_dbc
    decode_carrier_binding resolve_witness
assembled sha256 curve bitcoin outpoints allow_prepared = record {
  commit_genesis = genesis_id sha256;
  commit_bundle = commit_bundle (transition_id sha256) (bundle_hash sha256);
  anchor_commitment = anchor_commitment sha256;
  verify_dbc = verify_dbc sha256 curve;
  carrier_binding = decode_carrier_binding sha256;
  resolve_witness = resolve_witness bitcoin allow_prepared;
  outpoints = outpoints;
}

-- What an accepted bundle has.
pub record Anchored (sha256 : Hash) (curve : Curve) (bitcoin : Bitcoin) (allow_prepared : Bool)
    (contract_id : ByteString) (witness_bundle : Value) : Type 0 where
  pub bundle_value : Value
  pub anchor_value : Value
  pub public_witness : Value
  pub bundle : BundleCommitment
  pub proof : MpcProof
  pub dbc : Value
  pub commitment : ByteString
  pub witness : Resolved
  pub carrier : TxOut
  pub disclosed : field "bundle" (unwrap witness_bundle) ≡ some bundle_value
  pub has_anchor : field "anchor" (unwrap witness_bundle) ≡ some anchor_value
  pub has_witness : field "pubWitness" (unwrap witness_bundle) ≡ some public_witness
  pub decoded : decode_anchor anchor_value ≡ ok (proof, dbc)
  pub resolved : resolve_witness_with_mode bitcoin allow_prepared public_witness ≡ ok witness
  pub committed : commit_bundle (transition_id sha256) (bundle_hash sha256) bundle_value ≡ ok bundle
  pub convolved : convolve_mpc sha256 proof contract_id bundle.bundle_id ≡ ok commitment
  pub hashed : bitcoin.tx_hash witness.tx ≡ witness.tx_id
  pub known : Seen bitcoin witness ⊎ ((allow_prepared ≡ true) × (witness.state ≡ prepared))
  pub first : first_carrier witness.tx.tx_out ≡ some carrier
  pub carried :
      OpretCarried carrier.pk_script commitment dbc
      ⊎ TapretCarried sha256 curve carrier.pk_script commitment dbc

anchor_commitment-parts :
    (sha256 : Hash) (value : Value) (contract bundle : ByteString) (anchor : Value × ByteString)
    → anchor_commitment sha256 value contract bundle ≡ ok anchor
    → (proof : MpcProof) × (decode_anchor value ≡ ok (proof, anchor.0))
      × (convolve_mpc sha256 proof contract bundle ≡ ok anchor.1)
unfolding anchor_commitment
anchor_commitment-parts sha256 value contract bundle anchor h =
    after_ok (decode_anchor value) _ h λ decoded is_decoded h1.
      after_ok (recast bundle_anchor (convolve_mpc sha256 decoded.0 contract bundle)) _ h1
        λ commitment convolved done.
          let made : Value × ByteString = (decoded.1, commitment) in
          let same : made ≡ anchor = cc in
          (
            decoded.0,
            is_decoded ∙ ap (λ (a : Value × ByteString). ok (decoded.0, a.0)) same,
            recast-eq_ok bundle_anchor _ convolved ∙ ap (λ (a : Value × ByteString). ok a.1) same,
          )

resolve_witness-parts :
    (bitcoin : Bitcoin) (allow_prepared : Bool) (value : Value) (w : Witness)
    → resolve_witness bitcoin allow_prepared value ≡ ok w
    → (r : Resolved) × (resolve_witness_with_mode bitcoin allow_prepared value ≡ ok r)
      × (w.tx ≡ seen r.tx)
unfolding resolve_witness
resolve_witness-parts bitcoin allow_prepared value w h =
    after_ok (resolve_witness_with_mode bitcoin allow_prepared value) _ h λ r resolved done.
      let made : Witness = record { tx = seen r.tx; tx_id = r.tx_id; state = r.state } in
      let same : made ≡ w = cc in (r, resolved, sym (ap (λ (x : Witness). x.tx) same))

-- A bundle that the validator accepts, with the other parts as the code calls them, is anchored: the
-- multi-protocol proof that its anchor field decodes to convolves the contract and the bundle's
-- identifier to a commitment; the first carrier of the transaction that its pubWitness field
-- resolves to has that commitment, by the proof of the same anchor; and that transaction is the one
-- with the witness's identifier, tentative or mined on the chain, or embedded where prepared ones are
-- allowed.
pub validate_bundle-Anchored :
    (sha256 : Hash) (curve : Curve) (bitcoin : Bitcoin) (outpoints : Option OutpointResolver)
    (allow_prepared : Bool) (services : Services) (schema type_system : Value)
    (contract_id : ByteString) (p p' : Progress) (witness_bundle : Value)
    → IsDigest sha256
    → validate_bundle services
        (assembled sha256 curve bitcoin outpoints allow_prepared)
        schema
        type_system
        contract_id
        p
        witness_bundle
      ≡ ok p'
    → Anchored sha256 curve bitcoin allow_prepared contract_id witness_bundle
unfolding assembled
validate_bundle-Anchored sha256 curve bitcoin outpoints allow_prepared services schema type_system
      contract_id p p' witness_bundle sized h =
    let evidence = assembled sha256 curve bitcoin outpoints allow_prepared in
    let run =
      validate_bundle-BundleRun services evidence schema type_system contract_id p p' witness_bundle
        h in
    let (proof, decoded, convolved) =
      anchor_commitment-parts sha256 run.anchor_value contract_id run.bundle.bundle_id run.anchor
        run.anchored in
    let (r, resolved, same_tx) =
      resolve_witness-parts bitcoin allow_prepared run.public_witness run.witness run.resolved in
    let (hashed, known) =
      resolve_witness-Trusted bitcoin allow_prepared run.public_witness r resolved in
    let (carrier, first, carried) =
      verify_dbc-Carried sha256 curve (seen r.tx) run.anchor.0 run.anchor.1
        (commitment-IsSized sha256 sized proof contract_id run.bundle.bundle_id run.anchor.1
          convolved)
        (subst (λ t. verify_dbc sha256 curve t run.anchor.0 run.anchor.1 ≡ ok tt) same_tx
          run.closed) in
    record {
      bundle_value = run.bundle_value;
      anchor_value = run.anchor_value;
      public_witness = run.public_witness;
      bundle = run.bundle;
      proof = proof;
      dbc = run.anchor.0;
      commitment = run.anchor.1;
      witness = r;
      carrier = carrier;
      disclosed = run.disclosed;
      has_anchor = run.has_anchor;
      has_witness = run.has_witness;
      decoded = decoded;
      resolved = resolved;
      committed = run.committed;
      convolved = convolved;
      hashed = hashed;
      known = elim known [ inl chain ↦ inl chain | inr embedded ↦ inr (embedded.0, embedded.1) ];
      first = first;
      carried = carried;
    }
