-- ===== src/Consignment/Trusted.antt =====
-- What a resolved witness rests on: `resolveWitnessWithMode` of consignment/bitcoin.go.
use rgb.Prelude.{
  ◌≡◌, refl, sym, ap, ◌∙◌, subst, Bool, true, not, Option, none, some, [], ◌∷◌, ◌==◌, length,
  Result, ok, err, str_eq, after_guard, after_some, after_ok, Bool-cases, Option-cases, inl, inr,
  ◌⊎◌, arith,
}
use rgb.Prelude.Bytes.{ByteString, bytes_eq, bytes_eq→eq}
use rgb.StrictTypes.Value.{Value, unwrap, bytes_of}
use rgb.Operations.Fields.{union_inner}
use rgb.Operations.Secrets.{name_of}
use rgb.Consignment.Types.{WitnessState, unknown, tentative, mined, archived, prepared}
use rgb.Consignment.Transaction.{MsgTx, tx_from_strict_value}
use rgb.Consignment.Witnessed.{
  WitnessEvidence, Bitcoin, Claim, Resolved, embedded_claim, named_claim, claim_of,
  prepared_or_unresolved, chain_tx, same_tx, by_state, is_archived, by_evidence, by_answer, ask,
  resolve_witness_with_mode,
}

-- The chain answers for the transaction: it is tentative or mined, and its bytes came with the
-- answer.
pub record Seen (bitcoin : Bitcoin) (r : Resolved) : Type 0 where
  pub resolve : ByteString → Result WitnessEvidence
  pub evidence : WitnessEvidence
  pub asked : bitcoin.resolver ≡ some resolve
  pub answered : resolve r.tx_id ≡ ok evidence
  pub state : evidence.state ≡ r.state
  pub settled : (r.state ≡ tentative) ⊎ (r.state ≡ mined)
  pub bytes : bitcoin.deserialize evidence.raw_tx ≡ some r.tx

-- Or it is the embedded transaction of a prepared transfer.
pub record Embedded (allow_prepared : Bool) (claim : Claim) (r : Resolved) : Type 0 where
  pub allowed : allow_prepared ≡ true
  pub state : r.state ≡ prepared
  pub tx : claim.embedded ≡ some r.tx

module _ (bitcoin : Bitcoin) (allow_prepared : Bool) (claim : Claim) where
  prepared-Embedded :
      (r : Resolved)
      → prepared_or_unresolved bitcoin allow_prepared claim ≡ ok r
      → Embedded allow_prepared claim r × (r.tx_id ≡ claim.expected)
  unfolding prepared_or_unresolved
  prepared-Embedded r h = elim (Option-cases claim.embedded) [
    | inl nothing ↦ absurd (ground (arith, nothing, h))
    | inr (tx, has) ↦ elim (Bool-cases allow_prepared) [
      | inr strict ↦ absurd (ground (arith, has, strict, h))
      | inl allowed ↦
          let made : Resolved = record { tx = tx; tx_id = claim.expected; state = prepared } in
          let same : made ≡ r = ground (arith, has, allowed, h) in
          subst (λ (x : Resolved). Embedded allow_prepared claim x × (x.tx_id ≡ claim.expected))
            same (record { allowed = allowed; state = refl; tx = has }, refl)
    ]
  ]

  chain_tx-some :
      (expected raw : ByteString) (tx : MsgTx)
      → chain_tx bitcoin expected raw ≡ ok (some tx)
      → (bitcoin.deserialize raw ≡ some tx) × (bitcoin.tx_hash tx ≡ expected)
  unfolding chain_tx
  chain_tx-some expected [] tx h = absurd (cc)
  chain_tx-some expected (b ∷ bs) tx h =
      after_some _ (bitcoin.deserialize (b ∷ bs)) _ h λ found parsed h1.
        after_guard (bytes_eq (bitcoin.tx_hash found) expected) _ _ h1 λ matched done.
          let same : found ≡ tx = cc in
          let hash = bytes_eq→eq (bitcoin.tx_hash found) expected matched in
          (cc (parsed, same), cc (hash, same))

  -- What `by_state` gives: the chain's transaction, or the embedded one.
  abbrev FromState : WitnessState → Option MsgTx → Resolved → Type 0
  FromState state found r =
      ((found ≡ some r.tx) × (state ≡ r.state) × ((r.state ≡ tentative) ⊎ (r.state ≡ mined)))
      ⊎ Embedded allow_prepared claim r

  by_state-From :
      (state : WitnessState) (found : Option MsgTx) (r : Resolved)
      → by_state bitcoin allow_prepared claim state found ≡ ok r
      → FromState state found r × (r.tx_id ≡ claim.expected)
  unfolding by_state
  by_state-From tentative none r h = absurd (cc)
  by_state-From mined none r h = absurd (cc)
  by_state-From tentative (some tx) r h =
      let same : record { tx = tx; tx_id = claim.expected; state = tentative } ≡ r = cc in
      subst (λ (x : Resolved). FromState tentative (some tx) x × (x.tx_id ≡ claim.expected)) same
        (inl (refl, refl, inl refl), refl)
  by_state-From mined (some tx) r h =
      let same : record { tx = tx; tx_id = claim.expected; state = mined } ≡ r = cc in
      subst (λ (x : Resolved). FromState mined (some tx) x × (x.tx_id ≡ claim.expected)) same
        (inl (refl, refl, inr refl), refl)
  by_state-From unknown found r h = let (e, id) = prepared-Embedded r h in (inr e, id)
  by_state-From archived found r h = let (e, id) = prepared-Embedded r h in (inr e, id)
  by_state-From prepared found r h = let (e, id) = prepared-Embedded r h in (inr e, id)

  -- The identifier is the one asked for, and the transaction is the chain's or the embedded one.
  abbrev Rests : Resolved → Type 0
  Rests r =
      (r.tx_id ≡ claim.expected)
      × ((Seen bitcoin r × (bitcoin.tx_hash r.tx ≡ claim.expected))
          ⊎ Embedded allow_prepared claim r)

  by_evidence-Rests :
      (resolve : ByteString → Result WitnessEvidence) (evidence : WitnessEvidence) (r : Resolved)
      → bitcoin.resolver ≡ some resolve
      → resolve claim.expected ≡ ok evidence
      → by_evidence bitcoin allow_prepared claim evidence ≡ ok r
      → Rests r
  unfolding by_evidence
  by_evidence-Rests resolve evidence r asked answered h =
      after_guard (not (is_archived bitcoin evidence.state)) _ _ h λ _ h1.
        after_ok (chain_tx bitcoin claim.expected evidence.raw_tx) _ h1 λ found sent h2.
          after_guard (same_tx bitcoin claim.embedded found) _ _ h2 λ _ h3.
            let (from, id) = by_state-From evidence.state found r h3 in
            (
              id,
              elim from [
                | inr embedded ↦ inr embedded
                | inl (is, state, settled) ↦
                    let (bytes, hash) =
                      chain_tx-some claim.expected evidence.raw_tx r.tx (sent ∙ ap ok is) in
                    inl (
                      record {
                        resolve = resolve;
                        evidence = evidence;
                        asked = asked;
                        answered = ap resolve id ∙ answered;
                        state = state;
                        settled = settled;
                        bytes = bytes;
                      },
                      hash,
                    )
              ],
            )

  by_answer-Rests :
      (resolve : ByteString → Result WitnessEvidence) (answer : Result WitnessEvidence)
      (r : Resolved)
      → bitcoin.resolver ≡ some resolve
      → resolve claim.expected ≡ answer
      → by_answer bitcoin allow_prepared claim answer ≡ ok r
      → Rests r
  unfolding by_answer
  by_answer-Rests resolve (err e) r asked answered h =
      let (embedded, id) = prepared-Embedded r h in (id, inr embedded)
  by_answer-Rests resolve (ok evidence) r asked answered h =
      by_evidence-Rests resolve evidence r asked answered h

  pub ask-Rests :
      (resolver : Option (ByteString → Result WitnessEvidence)) (r : Resolved)
      → bitcoin.resolver ≡ resolver
      → ask bitcoin allow_prepared claim resolver ≡ ok r
      → Rests r
  unfolding ask
  ask-Rests none r asked h = let (embedded, id) = prepared-Embedded r h in (id, inr embedded)
  ask-Rests (some resolve) r asked h =
      by_answer-Rests resolve (resolve claim.expected) r asked refl h

-- An embedded transaction is named by its hash.
embedded_claim-named :
    (bitcoin : Bitcoin) (body : Value) (claim : Claim) (tx : MsgTx)
    → embedded_claim bitcoin body ≡ ok claim
    → claim.embedded ≡ some tx
    → bitcoin.tx_hash tx ≡ claim.expected
unfolding embedded_claim
embedded_claim-named bitcoin body claim tx h has =
    after_ok (tx_from_strict_value body) _ h λ t _ done.
      let made : Claim = record { embedded = some t; expected = bitcoin.tx_hash t } in
      let is : made ≡ claim = cc in
      let same : some t ≡ some tx = ap (λ (c : Claim). c.embedded) is ∙ has in
      let hash : bitcoin.tx_hash t ≡ claim.expected = ap (λ (c : Claim). c.expected) is in
      cc (same, hash)

named_claim-embedded :
    (bitcoin : Bitcoin) (body : Value) (claim : Claim)
    → named_claim bitcoin body ≡ ok claim
    → claim.embedded ≡ none
unfolding named_claim
named_claim-embedded bitcoin body claim h = after_some _ (bytes_of body) _ h λ raw _ h1.
    after_guard (length raw == 32) _ _ h1 λ _ done.
      let made : Claim = record { embedded = none; expected = raw } in
      let is : made ≡ claim = cc in sym (ap (λ (c : Claim). c.embedded) is)

claim_of-named :
    (bitcoin : Bitcoin) (value : Value) (claim : Claim) (tx : MsgTx)
    → claim_of bitcoin value ≡ ok claim
    → claim.embedded ≡ some tx
    → bitcoin.tx_hash tx ≡ claim.expected
unfolding claim_of
claim_of-named bitcoin value claim tx h has = after_some _ (union_inner value) _ h λ body _ h1.
    elim (Bool-cases (str_eq (name_of value) "tx")) [
      | inl whole ↦
          embedded_claim-named bitcoin (unwrap body) claim tx (ground (arith, whole, h1)) has
      | inr other ↦ elim (Bool-cases (str_eq (name_of value) "txid")) [
        | inl id ↦ absurd (
            clash
              (sym (named_claim-embedded bitcoin body claim (ground (arith, other, id, h1))) ∙ has))
        | inr neither ↦ absurd (ground (arith, other, neither, h1))
      ]
    ]
  where
    clash : {t : MsgTx} → none ≡ some t → ⊥
    clash e = cc

-- A witness that is resolved is one to trust: its identifier is the hash of its transaction, and
-- either the chain answered for it as tentative or mined and sent this transaction, or the mode
-- allows prepared witnesses and it is the embedded transaction, marked as prepared. An archived
-- or unknown witness is never taken from the chain.
pub resolve_witness-Trusted :
    (bitcoin : Bitcoin) (allow_prepared : Bool) (value : Value) (r : Resolved)
    → resolve_witness_with_mode bitcoin allow_prepared value ≡ ok r
    → (bitcoin.tx_hash r.tx ≡ r.tx_id)
      × (Seen bitcoin r
          ⊎ ((allow_prepared ≡ true)
              × (r.state ≡ prepared)
              × (claim : Claim) × (claim_of bitcoin (unwrap value) ≡ ok claim)
              × (claim.embedded ≡ some r.tx)))
unfolding resolve_witness_with_mode
resolve_witness-Trusted bitcoin allow_prepared value r h =
    after_ok (claim_of bitcoin (unwrap value)) _ h λ claim claimed h1.
      let (id, rests) = ask-Rests bitcoin allow_prepared claim bitcoin.resolver r refl h1 in
      elim rests [
        | inl (sent, hash) ↦ (hash ∙ sym id, inl sent)
        | inr embedded ↦ (
          claim_of-named bitcoin (unwrap value) claim r.tx claimed embedded.tx ∙ sym id,
          inr (embedded.allowed, embedded.state, claim, claimed, embedded.tx),
        )
      ]
