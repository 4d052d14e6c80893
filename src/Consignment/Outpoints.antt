-- ===== src/Consignment/Outpoints.antt =====
-- `txSpends`, `verifyPreparedInputOutpoint` and `verifyProjectedOutpoint` of
-- consignment/validator.go.
use rgb.Prelude.{
  Bool, true, false, not, ◌&&◌, ◌||◌, Option, none, some, List, [], ◌∷◌, ◌==◌, if◌then◌else◌,
  Result, ok, err, outpoint_unknown, outpoint_spend, ◌>>=◌, guard,
}
use rgb.Prelude.Bytes.{ByteString, bytes_eq}
use rgb.Consignment.Types.{Outpoint, Tx, OutpointEvidence}

abbrev pub OutpointResolver : Type 0
OutpointResolver = Outpoint → Result OutpointEvidence

unfoldable pub spends_any : List Outpoint → Outpoint → Bool
unfolding bytes_eq
spends_any [] outpoint = false
spends_any (i ∷ rest) outpoint =
    let later = spends_any rest outpoint in
    if bytes_eq i.tx_id outpoint.tx_id && i.vout == outpoint.vout then true else later

unfoldable pub tx_spends : Tx → Outpoint → Bool
unfolding spends_any
tx_spends tx outpoint = spends_any tx.spends outpoint

-- The chain evidence of an outpoint; a missing resolver, a resolver's error and an outpoint that
-- is unknown or does not exist are one error.
unfoldable pub known_outpoint : Option OutpointResolver → Outpoint → Result OutpointEvidence
known_outpoint none outpoint = err outpoint_unknown
known_outpoint (some resolver) outpoint = elim (resolver outpoint) [
  | ok evidence ↦ (if evidence.known && evidence.exists then ok evidence else err outpoint_unknown)
  | err e ↦ err outpoint_unknown
]

unfoldable pub spent_by : Option ByteString → ByteString → Bool
unfolding bytes_eq
spent_by none witness_tx_id = false
spent_by (some txid) witness_tx_id = bytes_eq txid witness_tx_id

unfoldable pub verify_prepared_input_outpoint :
    Option OutpointResolver → Outpoint → ByteString → Result (Unit {0})
unfolding known_outpoint spent_by
verify_prepared_input_outpoint resolver outpoint witness_tx_id = do
  evidence ← known_outpoint resolver outpoint
  guard (not evidence.spent || spent_by evidence.spending_tx_id witness_tx_id) outpoint_spend

-- Whether the state is kept; a spent historical allocation is left out.
unfoldable pub verify_projected_outpoint : Option OutpointResolver → Outpoint → Bool → Result Bool
unfolding known_outpoint
verify_projected_outpoint resolver outpoint historical = do
  evidence ← known_outpoint resolver outpoint
  if evidence.spent then (if historical then ok false else err outpoint_spend) else ok true
