-- ===== src/Consignment/Witnessed.antt =====
-- `resolveWitness` and `resolvePreparedWitness` of consignment/bitcoin.go. The hash of a
-- transaction and its wire format are btcd's, and the chain answers through a resolver: all three
-- are parameters. A nil resolver is `none`.
use rgb.Prelude.{
  Bool, true, false, not, Option, none, some, [], ◌∷◌, ◌==◌, if◌then◌else◌, length, Result, ok, err,
  guard, of_option, ◌>>=◌, ◌>>◌, witness_unresolved, witness_archived, witness_mismatch, str_eq,
}
use rgb.Prelude.Bytes.{ByteString, bytes_eq}
use rgb.StrictTypes.Value.{Value, unwrap, bytes_of}
use rgb.Operations.Fields.{union_inner}
use rgb.Operations.Secrets.{name_of}
use rgb.Consignment.Types.{WitnessState, unknown, tentative, mined, archived, prepared}
use rgb.Consignment.Transaction.{MsgTx, seen, tx_from_strict_value}
use rgb.Consignment.History.{Witness}

pub record WitnessEvidence : Type 0 where
  pub raw_tx : ByteString
  pub state : WitnessState

pub record Bitcoin : Type 0 where
  pub tx_hash : MsgTx → ByteString
  pub deserialize : ByteString → Option MsgTx
  pub resolver : Option (ByteString → Result WitnessEvidence)

-- The transaction in the value, if it has one, and the identifier that the chain is asked for.
pub record Claim : Type 0 where
  pub embedded : Option MsgTx
  pub expected : ByteString

pub record Resolved : Type 0 where
  pub tx : MsgTx
  pub tx_id : ByteString
  pub state : WitnessState

module _ (bitcoin : Bitcoin) where
  unfoldable pub embedded_claim : Value → Result Claim
  unfolding tx_from_strict_value
  embedded_claim body = do
    tx ← tx_from_strict_value body
    ok (record { embedded = some tx; expected = bitcoin.tx_hash tx })

  unfoldable pub named_claim : Value → Result Claim
  unfolding bytes_of
  named_claim body = do
    raw ← of_option witness_unresolved (bytes_of body)
    guard (length raw == 32) witness_unresolved
    ok (record { embedded = none; expected = raw })

  unfoldable pub claim_of : Value → Result Claim
  unfolding union_inner unwrap embedded_claim named_claim
  claim_of value = do
    body ← of_option witness_unresolved (union_inner value)
    if str_eq (name_of value) "tx"
        then embedded_claim (unwrap body)
        else if str_eq (name_of value) "txid"
        then named_claim body
        else err witness_unresolved

  -- Without an answer of the chain, an embedded transaction stands if the mode allows it.
  unfoldable pub prepared_or_unresolved : Bool → Claim → Result Resolved
  prepared_or_unresolved allow_prepared claim = elim claim.embedded [
    | none ↦ err witness_unresolved
    | some tx ↦
        if allow_prepared
        then ok (record { tx = tx; tx_id = claim.expected; state = prepared })
        else err witness_unresolved
  ]

  -- The chain's transaction, when it sent one: it has the identifier that was asked for.
  unfoldable pub chain_tx : ByteString → ByteString → Result (Option MsgTx)
  unfolding bytes_eq
  chain_tx expected [] = ok none
  chain_tx expected (b ∷ bs) = do
    tx ← of_option witness_unresolved (bitcoin.deserialize (b ∷ bs))
    guard (bytes_eq (bitcoin.tx_hash tx) expected) witness_mismatch
    ok (some tx)

  unfoldable pub same_tx : Option MsgTx → Option MsgTx → Bool
  unfolding bytes_eq
  same_tx (some a) (some b) = bytes_eq (bitcoin.tx_hash a) (bitcoin.tx_hash b)
  same_tx _ _ = true

  -- The end, by the state that the chain gives the transaction.
  unfoldable pub by_state : Bool → Claim → WitnessState → Option MsgTx → Result Resolved
  unfolding prepared_or_unresolved
  by_state allow_prepared claim tentative (some tx) =
      ok (record { tx = tx; tx_id = claim.expected; state = tentative })
  by_state allow_prepared claim mined (some tx) =
      ok (record { tx = tx; tx_id = claim.expected; state = mined })
  by_state allow_prepared claim tentative none = err witness_unresolved
  by_state allow_prepared claim mined none = err witness_unresolved
  by_state allow_prepared claim unknown tx = prepared_or_unresolved allow_prepared claim
  by_state allow_prepared claim archived tx = prepared_or_unresolved allow_prepared claim
  by_state allow_prepared claim prepared tx = prepared_or_unresolved allow_prepared claim

  abbrev pub is_archived : WitnessState → Bool
  is_archived archived = true
  is_archived _ = false

  unfoldable pub by_evidence : Bool → Claim → WitnessEvidence → Result Resolved
  unfolding chain_tx same_tx by_state
  by_evidence allow_prepared claim evidence = do
    guard (not (is_archived evidence.state)) witness_archived
    resolved ← chain_tx claim.expected evidence.raw_tx
    guard (same_tx claim.embedded resolved) witness_mismatch
    by_state allow_prepared claim evidence.state resolved

  unfoldable pub by_answer : Bool → Claim → Result WitnessEvidence → Result Resolved
  unfolding prepared_or_unresolved by_evidence
  by_answer allow_prepared claim (err e) = prepared_or_unresolved allow_prepared claim
  by_answer allow_prepared claim (ok evidence) = by_evidence allow_prepared claim evidence

  unfoldable pub ask : Bool → Claim → Option (ByteString → Result WitnessEvidence) → Result Resolved
  unfolding prepared_or_unresolved by_answer
  ask allow_prepared claim none = prepared_or_unresolved allow_prepared claim
  ask allow_prepared claim (some resolve) = by_answer allow_prepared claim (resolve claim.expected)

  unfoldable pub resolve_witness_with_mode : Bool → Value → Result Resolved
  unfolding unwrap claim_of ask
  resolve_witness_with_mode allow_prepared value = do
    claim ← claim_of (unwrap value)
    ask allow_prepared claim bitcoin.resolver

-- As the loop of the validator takes it.
unfoldable pub resolve_witness : Bitcoin → Bool → Value → Result Witness
unfolding resolve_witness_with_mode
resolve_witness bitcoin allow_prepared value = do
  r ← resolve_witness_with_mode bitcoin allow_prepared value
  ok (record { tx = seen r.tx; tx_id = r.tx_id; state = r.state })
