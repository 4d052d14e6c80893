-- ===== src/Operations/Truncation.antt =====
-- The output index of a seal in `assignmentSecret` of operations/genesis.go, which is cut to 32 bits.
use rgb.Prelude.{
  ℕ, ◌≡◌, ap, sym, ◌∙◌, Option, some, ◌%◌, ◌^◌, Result, ok, invalid_genesis, of_option, ◌>>=◌,
}
use rgb.Prelude.Bytes.{ByteString}
use rgb.Consensus.TaggedHash.{Hash}
use rgb.StrictTypes.Value.{Value}
use rgb.Operations.Fields.{required_field, as_uint}
use rgb.Operations.Secrets.{seal_secret, revealed_secret, assignment_secret}

-- The seal from what its fields read as.
abbrev from_fields : Hash → Result Value → Result ℕ → Result Value → Result ByteString
from_fields sha256 txid index blinding = do
  txid_value ← txid
  vout ← index
  blinding_value ← blinding
  blinding_number ← of_option invalid_genesis (as_uint blinding_value)
  seal_secret sha256 txid_value vout blinding_number

from_fields_lem :
    (sha256 : Hash) (seal vout_value : Value) (vout : ℕ)
    → required_field seal "vout" ≡ ok vout_value
    → as_uint vout_value ≡ some vout
    → revealed_secret sha256 seal
      ≡ from_fields sha256
          (required_field seal "txid")
          (ok (vout % 2 ^ 32))
          (required_field seal "blinding")
unfolding revealed_secret
from_fields_lem sha256 seal vout_value vout has reads =
    ap (λ r. with_index r) has ∙ ap (λ o. with_number o) reads
  where
    with_number : Option ℕ → Result ByteString
    with_number number = do
      txid_value ← required_field seal "txid"
      vout' ← of_option invalid_genesis number
      blinding_value ← required_field seal "blinding"
      blinding ← of_option invalid_genesis (as_uint blinding_value)
      seal_secret sha256 txid_value (vout' % 2 ^ 32) blinding

    with_index : Result Value → Result ByteString
    with_index index = do
      txid_value ← required_field seal "txid"
      value ← index
      vout' ← of_option invalid_genesis (as_uint value)
      blinding_value ← required_field seal "blinding"
      blinding ← of_option invalid_genesis (as_uint blinding_value)
      seal_secret sha256 txid_value (vout' % 2 ^ 32) blinding

-- The commitment to a revealed seal does not see the high bits of its output index: seals with the
-- same transaction and blinding whose indexes agree modulo 2^32 have one secret, also where an index
-- does not fit 32 bits and the check on it means to refuse it.
pub assignment_secret-truncates :
    (sha256 : Hash) (seal other vout_value other_value : Value) (vout other_vout : ℕ)
    → required_field seal "txid" ≡ required_field other "txid"
    → required_field seal "blinding" ≡ required_field other "blinding"
    → required_field seal "vout" ≡ ok vout_value
    → required_field other "vout" ≡ ok other_value
    → as_uint vout_value ≡ some vout
    → as_uint other_value ≡ some other_vout
    → vout % 2 ^ 32 ≡ other_vout % 2 ^ 32
    → assignment_secret sha256 "revealed" seal ≡ assignment_secret sha256 "revealed" other
unfolding assignment_secret
assignment_secret-truncates sha256 seal other vout_value other_value vout other_vout same_txid
      same_blinding has has_other reads reads_other agree =
    let blinding = required_field other "blinding" in
    from_fields_lem sha256 seal vout_value vout has reads
    ∙ ap (λ t. from_fields sha256 t (ok (vout % 2 ^ 32)) (required_field seal "blinding")) same_txid
    ∙ ap (λ b. from_fields sha256 (required_field other "txid") (ok (vout % 2 ^ 32)) b)
        same_blinding
    ∙ ap (λ n. from_fields sha256 (required_field other "txid") (ok n) blinding) agree
    ∙ sym (from_fields_lem sha256 other other_value other_vout has_other reads_other)
