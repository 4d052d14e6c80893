-- ===== src/Seals.antt =====
-- seals/graph.go: the revealed seal of a transition's assignment, and its strict encoding.
pub mod RoundTrip
pub mod Conceal
use rgb.Prelude.{
  ℕ, ◌^◌, ◌<◌, ◌≡◌, Bool, true, false, ◌&&◌, Option, none, some, List, [], ◌∷◌, ◌==◌, ltb,
  if◌then◌else◌, length, take, drop, Result, ok, err, invalid_graph_seal, ◌>>=◌, guard, ◌>>◌,
  String, All,
}
use rgb.Prelude.Bytes.{ByteString, IsByte, get_le}
use rgb.StrictEncoding.Encoder

-- A nil TxID stands for TxPtr::WitnessTx.
pub record GraphBlindSeal : Type 0 where
  pub tx_id : Option ByteString
  pub vout : ℕ
  pub blinding : ℕ

unfoldable pub new_witness_blind_seal : ℕ → ℕ → GraphBlindSeal
new_witness_blind_seal vout blinding = record { tx_id = none; vout = vout; blinding = blinding }

unfoldable pub new_graph_blind_seal : ByteString → ℕ → ℕ → Result GraphBlindSeal
new_graph_blind_seal txid vout blinding =
    if length txid == 32
    then ok (record { tx_id = some txid; vout = vout; blinding = blinding })
    else err invalid_graph_seal

encode_pointer : Option ByteString → ByteString → Result ByteString
unfolding Encoder.u8 Encoder.raw
encode_pointer none buf = Encoder.u8 0 buf
encode_pointer (some txid) buf = do buf' ← Encoder.u8 1 buf; Encoder.raw txid buf'

unfoldable pub strict_encode : GraphBlindSeal → ByteString → Result ByteString
unfolding encode_pointer Encoder.u32 Encoder.u64
strict_encode s buf = do
  buf1 ← encode_pointer s.tx_id buf
  buf2 ← Encoder.u32 s.vout buf1
  Encoder.u64 s.blinding buf2

unfoldable pub strict_bytes : GraphBlindSeal → Result ByteString
unfolding strict_encode
strict_bytes s = strict_encode s []

-- Vout and blinding, 4 and 8 bytes, are all that is left of the input.
decode_tail : Option ByteString → ByteString → Result GraphBlindSeal
unfolding get_le
decode_tail tx_id rest =
    if length rest == 12
    then ok (record { tx_id = tx_id; vout = get_le (take 4 rest); blinding = get_le (drop 4 rest) })
    else err invalid_graph_seal

decode_tagged : ByteString → Result GraphBlindSeal
unfolding decode_tail
decode_tagged [] = err invalid_graph_seal
decode_tagged (tag ∷ rest) =
    if length rest == 12 && tag == 0
    then decode_tail none rest
    else if length rest == 44 && tag == 1
    then decode_tail (some (take 32 rest)) (drop 32 rest)
    else err invalid_graph_seal

-- `DecodeGraphBlindSeal`: 13 bytes under the tag 0, or 45 under the tag 1.
unfoldable pub decode_graph_blind_seal : ByteString → Result GraphBlindSeal
unfolding decode_tagged
decode_graph_blind_seal content = decode_tagged content
