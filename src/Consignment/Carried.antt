-- ===== src/Consignment/Carried.antt =====
-- A witness transaction carries one commitment, and under it one bundle of a contract: `verifyDBC`
-- and `decodeAnchor` of consignment/validator.go with `ConvolveMPC`.
use rgb.Prelude.{
  ℕ, ◌^◌, ◌+◌, ◌<◌, ◌≡◌, refl, sym, ap, ◌∙◌, subst, Bool, true, false, ◌&&◌, not, some, List, [],
  ◌∷◌, ltb, ◌==◌, length, drop, All, ok, after_guard, after_some, after_ok, guard, recast,
  recast-eq_ok, bundle_anchor, String, str_eq, eq_iff, arith, ◌⊎◌, inl, inr, Bool-cases,
}
use rgb.Prelude.Bytes.{ByteString, bytes_eq, bytes_eq→eq}
use rgb.Consensus.TaggedHash.{Hash, IsDigest, IsSized, tagged_hash}
use rgb.StrictTypes.Value.{
  Value, Kind, kind_eq, kind, inner, pointee, field, unwrap, items, bytes_of,
}
use rgb.StrictTypes.Numbers.{number}
use rgb.Operations.Secrets.{name_of, max_uint32}
use rgb.Anchors.Mpc.{MpcProof, convolve_mpc}
use rgb.Anchors.Checked.{mpc_hash, convolve_mpc-Accepted}
use rgb.Anchors.OneMessage.{Separates, convolve_mpc-binding}
use rgb.Anchors.Scripts.{starts, opret_script, verify_opret_script_iff}
use rgb.Anchors.Tapret.{Curve, tapret_output_key_with_partner}
use rgb.Consignment.Types.{Tx, TxOut}
use rgb.Consignment.Anchor.{
  hash_of, path_of, bounded_field, decode_anchor, first_carrier, decode_tapret_proof, verify_tapret,
  verify_dbc, TapretProof,
}

-- The carrier, and how it carries the commitment.
pub record OpretCarried (pk_script commitment : ByteString) (proof : Value) : Type 0 where
  pub named : name_of proof ≡ "opret"
  pub script : pk_script ≡ opret_script commitment

pub record TapretCarried (sha256 : Hash) (curve : Curve) (pk_script commitment : ByteString)
    (proof : Value) : Type 0 where
  pub named : name_of proof ≡ "tapret"
  pub taproot : starts 0x51 0x20 pk_script ≡ true
  pub body : Value
  pub decoded : TapretProof
  pub key : ByteString
  pub has_body : pointee (inner proof) ≡ some body
  pub decodes : decode_tapret_proof (unwrap body) ≡ ok decoded
  pub tweaks :
      tapret_output_key_with_partner sha256 curve decoded.internal commitment decoded.nonce
        decoded.partner
      ≡ ok key
  pub script : drop 2 pk_script ≡ key

verify_tapret-Carried :
    (sha256 : Hash) (curve : Curve) (pk_script commitment : ByteString) (proof : Value)
    → name_of proof ≡ "tapret"
    → verify_tapret sha256 curve pk_script proof commitment ≡ ok tt
    → TapretCarried sha256 curve pk_script commitment proof
unfolding verify_tapret
verify_tapret-Carried sha256 curve pk_script commitment proof named h =
    after_some _ (pointee (inner proof)) _ h λ body has_body h1.
      after_guard (length pk_script == 34 && starts 0x51 0x20 pk_script) _ _ h1 λ taproot h2.
        after_ok (decode_tapret_proof (unwrap body)) _ h2 λ t decodes h3.
          after_ok
            (recast bundle_anchor
              (tapret_output_key_with_partner sha256 curve t.internal commitment t.nonce t.partner))
            _ h3
            λ key tweaks h4. (record {
              named = named;
              taproot = ground (arith, taproot);
              body = body;
              decoded = t;
              key = key;
              has_body = has_body;
              decodes = decodes;
              tweaks = recast-eq_ok bundle_anchor _ tweaks;
              script = bytes_eq→eq _ _ (passed (bytes_eq (drop 2 pk_script) key) h4);
            })
  where
    passed : (b : Bool) → guard b bundle_anchor ≡ ok tt → b ≡ true
    passed true h = refl
    passed false h = absurd (cc)

-- A commitment that `verifyDBC` accepts is in the first carrier of the transaction: an opret proof
-- has the output script of this commitment, and a tapret proof has the output key that the
-- commitment tweaks.
pub verify_dbc-Carried :
    (sha256 : Hash) (curve : Curve) (tx : Tx) (proof : Value) (commitment : ByteString)
    → IsSized commitment
    → verify_dbc sha256 curve tx proof commitment ≡ ok tt
    → (carrier : TxOut) × (first_carrier tx.tx_out ≡ some carrier)
      × (OpretCarried carrier.pk_script commitment proof
          ⊎ TapretCarried sha256 curve carrier.pk_script commitment proof)
unfolding verify_dbc
verify_dbc-Carried sha256 curve tx proof commitment sized h =
    after_guard (kind_eq (kind proof) Kind.union) _ _ h λ _ h1.
      after_some _ (first_carrier tx.tx_out) _ h1 λ carrier first h2. (
        carrier,
        first,
        elim (Bool-cases (str_eq (name_of proof) "opret")) [
          | inl opret ↦ inl (record {
            named = ground (arith, opret, eq_iff (name_of proof) "opret");
            script =
                (verify_opret_script_iff carrier.pk_script commitment sized).0
                  (recast-eq_ok bundle_anchor _ (ground (arith, opret, h2)));
          })
          | inr other ↦ elim (Bool-cases (str_eq (name_of proof) "tapret")) [
            | inl tapret ↦ inr (
                verify_tapret-Carried sha256 curve carrier.pk_script commitment proof
                  (ground (arith, tapret, eq_iff (name_of proof) "tapret"))
                  (ground (arith, other, tapret, h2)))
            | inr neither ↦ absurd (ground (arith, other, neither, h2))
          ]
        ],
      )

no_taproot : (commitment : ByteString) → starts 0x51 0x20 (opret_script commitment) ≡ false
unfolding starts opret_script
no_taproot [] = refl
no_taproot (x ∷ xs) = refl

opret_script-inj : (a b : ByteString) → opret_script a ≡ opret_script b → a ≡ b
unfolding opret_script
opret_script-inj a b e = ap (drop 2) e

-- One transaction carries one opret commitment: when it verifies a commitment by an opret proof,
-- any proof of another kind fails, and the commitment that any proof verifies is the same.
pub verify_dbc-one_commitment :
    (sha256 : Hash) (curve : Curve) (tx : Tx) (proof proof' : Value)
    (commitment commitment' : ByteString)
    → IsSized commitment
    → IsSized commitment'
    → name_of proof ≡ "opret"
    → verify_dbc sha256 curve tx proof commitment ≡ ok tt
    → verify_dbc sha256 curve tx proof' commitment' ≡ ok tt
    → (name_of proof' ≡ "opret") × (commitment ≡ commitment')
verify_dbc-one_commitment sha256 curve tx proof proof' commitment commitment' s s' named h h' =
    let (carrier, first, how) = verify_dbc-Carried sha256 curve tx proof commitment s h in
    let (carrier', first', how') = verify_dbc-Carried sha256 curve tx proof' commitment' s' h' in
    let same : carrier ≡ carrier' = cc (first, first') in
    elim how [
      | inl opret ↦ elim how' [
        | inl opret' ↦ (
          opret'.named,
          opret_script-inj commitment commitment'
              (sym opret.script ∙ ap (λ (c : TxOut). c.pk_script) same ∙ opret'.script),
        )
        | inr tapret' ↦ absurd (
            clash (starts 0x51 0x20 carrier'.pk_script)
              (ap (starts 0x51 0x20) (sym (ap (λ (c : TxOut). c.pk_script) same) ∙ opret.script)
                ∙ no_taproot commitment)
              tapret'.taproot)
      ]
      | inr tapret ↦ absurd (other_name (name_of proof) named tapret.named)
    ]
  where
    clash : (b : Bool) → b ≡ false → b ≡ true → ⊥
    clash b e k = cc

    other_name : (s : String) → s ≡ "opret" → s ≡ "tapret" → ⊥
    other_name s e k = ground (arith, e, k, eq_iff "opret" "tapret")

hash_of-IsSized : (v : Value) (h : ByteString) → hash_of v ≡ ok h → IsSized h
unfolding hash_of
hash_of-IsSized v h e = after_some _ (bytes_of v) _ e λ raw _ e1.
    after_guard (length raw == 32) _ _ e1
      λ long done. let same : raw ≡ h = cc in subst IsSized same (ground (arith, long))

path_of-IsSized :
    (list : List Value) (path : List ByteString) → path_of list ≡ ok path → All IsSized path
unfolding path_of
path_of-IsSized [] path e = let same : [] ≡ path = cc in subst (All IsSized) same tt
path_of-IsSized (item ∷ rest) path e = after_ok (hash_of item) _ e λ hash here e1.
    after_ok (path_of rest) _ e1 λ later listed done.
      let same : hash ∷ later ≡ path = cc in
      subst (All IsSized) same (hash_of-IsSized item hash here, path_of-IsSized rest later listed)

bounded_field-bound :
    (name : String) (max : ℕ) (v : Value) (n : ℕ) → bounded_field name max v ≡ ok n → n < max + 1
unfolding bounded_field
bounded_field-bound name max v n e = after_some _ (field name v) _ e λ found _ e1.
    after_some _ (number found) _ e1 λ m _ e2.
      after_guard (not (ltb max m)) _ _ e2
        λ low done. let same : m ≡ n = cc in subst (λ t. t < max + 1) same (ground (arith, low))

-- A decoded anchor has a proof in the ranges of Go's types: a position of 32 bits, a cofactor of 16
-- bits and a path of 32-byte hashes.
pub decode_anchor-ranges :
    (value dbc : Value) (proof : MpcProof)
    → decode_anchor value ≡ ok (proof, dbc)
    → (proof.position < 2 ^ 32) × (proof.cofactor < 2 ^ 16) × All IsSized proof.path
unfolding decode_anchor
decode_anchor-ranges value dbc proof h =
    after_some _ (field "mpcProof" (unwrap value)) _ h λ mpc _ h1.
      after_some _ (field "dbcProof" (unwrap value)) _ h1 λ found _ h2.
        after_ok (bounded_field "pos" max_uint32 (unwrap mpc)) _ h2 λ pos in_pos h3.
          after_ok (bounded_field "cofactor" 0xffff (unwrap mpc)) _ h3 λ cofactor in_cofactor h4.
            after_some _ (field "path" (unwrap mpc)) _ h4 λ path_value _ h5.
              after_guard (kind_eq (kind (unwrap path_value)) Kind.list) _ _ h5 λ _ h6.
                after_ok (path_of (items (unwrap path_value))) _ h6 λ path listed done.
                  let made : MpcProof = record {
                    position = pos;
                    cofactor = cofactor;
                    path = path;
                  } in
                  let same : made ≡ proof = cc in
                  subst (λ p. (p.position < 2 ^ 32) × (p.cofactor < 2 ^ 16) × All IsSized p.path)
                    same
                    (
                      bounded_field-bound "pos" max_uint32 (unwrap mpc) pos in_pos,
                      bounded_field-bound "cofactor" 0xffff (unwrap mpc) cofactor in_cofactor,
                      path_of-IsSized (items (unwrap path_value)) path listed,
                    )

pub commitment-IsSized :
    (sha256 : Hash)
    → IsDigest sha256
    → (proof : MpcProof) (contract bundle commitment : ByteString)
    → convolve_mpc sha256 proof contract bundle ≡ ok commitment
    → IsSized commitment
unfolding mpc_hash tagged_hash
commitment-IsSized sha256 sized proof contract bundle commitment c =
    subst IsSized (sym (convolve_mpc-Accepted sha256 proof contract bundle commitment c).1)
      (sized _)

-- A witness transaction carries at most one bundle of a contract: two anchors that decode, whose
-- proofs convolve under the same contract and verify in the same transaction, the first by an
-- opret proof, anchor the same bundle by the same multi-protocol proof. The digests of the hash
-- have 32 bytes, and it separates what the code hashes for the two proofs.
pub verify_dbc-one_bundle :
    (sha256 : Hash) (curve : Curve) (tx : Tx) (anchor anchor' dbc dbc' : Value)
    (proof proof' : MpcProof) (contract bundle bundle' commitment commitment' : ByteString)
    → IsDigest sha256
    → Separates sha256 contract proof bundle proof' bundle'
    → decode_anchor anchor ≡ ok (proof, dbc)
    → decode_anchor anchor' ≡ ok (proof', dbc')
    → convolve_mpc sha256 proof contract bundle ≡ ok commitment
    → convolve_mpc sha256 proof' contract bundle' ≡ ok commitment'
    → name_of dbc ≡ "opret"
    → verify_dbc sha256 curve tx dbc commitment ≡ ok tt
    → verify_dbc sha256 curve tx dbc' commitment' ≡ ok tt
    → (bundle ≡ bundle') × (proof ≡ proof')
verify_dbc-one_bundle sha256 curve tx anchor anchor' dbc dbc' proof proof' contract bundle bundle'
      commitment commitment' sized separated d d' c c' named v v' =
    let (_, cofactor, path) = decode_anchor-ranges anchor dbc proof d in
    let (_, cofactor', path') = decode_anchor-ranges anchor' dbc' proof' d' in
    let same =
      verify_dbc-one_commitment sha256 curve tx dbc dbc' commitment commitment'
        (commitment-IsSized sha256 sized proof contract bundle commitment c)
        (commitment-IsSized sha256 sized proof' contract bundle' commitment' c') named v v' in
    convolve_mpc-binding sha256 contract proof proof' bundle bundle' commitment sized path path'
      cofactor cofactor' separated c (c' ∙ ap ok (sym same.1))
