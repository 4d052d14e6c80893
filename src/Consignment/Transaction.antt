-- ===== src/Consignment/Transaction.antt =====
-- `txFromStrictValue` and `signedNumber` of consignment/bitcoin.go: the transaction that a strict
-- value describes, with every part of btcd's `wire.MsgTx`.
use rgb.Prelude.{
  ℕ, ◌-◌, ◌^◌, Bool, true, false, not, Option, none, some, List, [], ◌∷◌, map, ltb, leb, ◌==◌,
  if◌then◌else◌, length, Result, ok, guard, of_option, ◌>>=◌, ◌>>◌, witness_unresolved, String,
}
use rgb.Prelude.Bytes.{ByteString}
use rgb.StrictTypes.Value.{Value, Kind, kind_eq, kind, attributes, field, unwrap, items, bytes_of}
use rgb.StrictTypes.Numbers.{number}
use rgb.Operations.Secrets.{max_uint32}
use rgb.Consignment.Types.{Outpoint, TxOut, Tx}

pub record TxIn : Type 0 where
  pub previous : Outpoint
  pub sig_script : ByteString
  pub sequence : ℕ
  pub witness : List ByteString

-- A signed number keeps its sign apart, as in a decoded value.
pub record MsgTx : Type 0 where
  pub version : Bool × ℕ
  pub lock_time : ℕ
  pub tx_in : List TxIn
  pub tx_out : List TxOut

-- What the validation reads of it.
abbrev pub seen : MsgTx → Tx
seen tx = record { spends = map (λ (i : TxIn). i.previous) tx.tx_in; tx_out = tx.tx_out }

unfoldable pub signed_number : Value → Option (Bool × ℕ)
unfolding unwrap
signed_number value = elim (attributes (unwrap value)).signed [
  | some n ↦ some n
  | none ↦ elim (attributes (unwrap value)).unsigned [
    | some n ↦ if leb n (2 ^ 63 - 1) then some (false, n) else none
    | none ↦ none
  ]
]

-- math.MinInt32 <= n <= math.MaxInt32
abbrev pub is_int32 : Bool × ℕ → Bool
is_int32 (true, n) = leb n (2 ^ 31)
is_int32 (false, n) = leb n (2 ^ 31 - 1)

unfoldable pub read_number : String → ℕ → Value → Result ℕ
unfolding field number
read_number name max value = do
  found ← of_option witness_unresolved (field name value)
  n ← of_option witness_unresolved (number found)
  guard (not (ltb max n)) witness_unresolved
  ok n

unfoldable pub read_bytes : String → Value → Result ByteString
unfolding field bytes_of
read_bytes name value = do
  found ← of_option witness_unresolved (field name value)
  of_option witness_unresolved (bytes_of found)

unfoldable pub read_list : String → Value → Result (List Value)
unfolding field unwrap
read_list name value = do
  found ← of_option witness_unresolved (field name value)
  guard (kind_eq (kind (unwrap found)) Kind.list) witness_unresolved
  ok (items (unwrap found))

unfoldable pub read_witness : List Value → Result (List ByteString)
unfolding bytes_of
read_witness [] = ok []
read_witness (item ∷ rest) = do
  raw ← of_option witness_unresolved (bytes_of item)
  later ← read_witness rest
  ok (raw ∷ later)

unfoldable pub read_input : Value → Result TxIn
unfolding field unwrap read_number read_bytes read_list read_witness
read_input input = do
  previous ← of_option witness_unresolved (field "prevOutput" input)
  script ← read_bytes "sigScript" input
  sequence ← read_number "sequence" max_uint32 input
  stack ← read_list "witness" input
  txid ← read_bytes "txid" (unwrap previous)
  vout ← read_number "vout" max_uint32 (unwrap previous)
  guard (length txid == 32) witness_unresolved
  witness ← read_witness stack
  ok (record {
    previous = record { tx_id = txid; vout = vout };
    sig_script = script;
    sequence = sequence;
    witness = witness;
  })

unfoldable pub read_inputs : List Value → Result (List TxIn)
unfolding unwrap read_input
read_inputs [] = ok []
read_inputs (input ∷ rest) = do
  here ← read_input (unwrap input)
  later ← read_inputs rest
  ok (here ∷ later)

unfoldable pub read_output : Value → Result TxOut
unfolding read_number read_bytes
read_output output = do
  amount ← read_number "value" (2 ^ 63 - 1) output
  script ← read_bytes "scriptPubkey" output
  ok (record { value = amount; pk_script = script })

unfoldable pub read_outputs : List Value → Result (List TxOut)
unfolding unwrap read_output
read_outputs [] = ok []
read_outputs (output ∷ rest) = do
  here ← read_output (unwrap output)
  later ← read_outputs rest
  ok (here ∷ later)

unfoldable pub tx_from_strict_value : Value → Result MsgTx
unfolding field signed_number read_number read_list read_inputs read_outputs
tx_from_strict_value value = do
  version_value ← of_option witness_unresolved (field "version" value)
  version ← of_option witness_unresolved (signed_number version_value)
  guard (is_int32 version) witness_unresolved
  inputs ← read_list "inputs" value
  outputs ← read_list "outputs" value
  lock_time ← read_number "lockTime" max_uint32 value
  tx_in ← read_inputs inputs
  tx_out ← read_outputs outputs
  ok (record { version = version; lock_time = lock_time; tx_in = tx_in; tx_out = tx_out })
