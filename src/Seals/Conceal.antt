-- ===== src/Seals/Conceal.antt =====
-- seals/blind.go, and `Conceal` of seals/graph.go. SHA-256 is the argument `sha256`.
use rgb.Prelude.{
  ℕ, [], ◌∷◌, ◌==◌, if◌then◌else◌, length, Result, ok, err, invalid_tx_id, ◌>>=◌, String,
}
use rgb.Prelude.Bytes.{ByteString}
use rgb.StrictEncoding.Encoder
use rgb.Consensus.TaggedHash.{Hash, tagged_hash}
use rgb.Seals.{GraphBlindSeal, strict_bytes}

abbrev pub secret_seal_tag : String
secret_seal_tag = "urn:lnp-bp:seals:secret#2024-02-03"

pub record BlindSeal : Type 0 where
  pub tx_id : ByteString
  pub vout : ℕ
  pub blinding : ℕ

unfoldable pub new_blind_seal : ByteString → ℕ → ℕ → Result BlindSeal
new_blind_seal txid vout blinding =
    if length txid == 32
    then ok (record { tx_id = txid; vout = vout; blinding = blinding })
    else err invalid_tx_id

unfoldable pub blind_strict_bytes : BlindSeal → Result ByteString
unfolding Encoder.raw Encoder.u32 Encoder.u64
blind_strict_bytes s = do
  buf1 ← Encoder.raw s.tx_id []
  buf2 ← Encoder.u32 s.vout buf1
  Encoder.u64 s.blinding buf2

unfoldable pub conceal_blind : Hash → BlindSeal → Result ByteString
unfolding blind_strict_bytes tagged_hash
conceal_blind sha256 s = do
  encoded ← blind_strict_bytes s
  ok (tagged_hash sha256 secret_seal_tag (encoded ∷ []))

unfoldable pub conceal_graph : Hash → GraphBlindSeal → Result ByteString
unfolding strict_bytes tagged_hash
conceal_graph sha256 s = do
  encoded ← strict_bytes s
  ok (tagged_hash sha256 secret_seal_tag (encoded ∷ []))
