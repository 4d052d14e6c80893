-- ===== src/Seals/RoundTrip.antt =====
-- The strict encoding of a graph seal and its decoder.
use rgb.Prelude.{
  ℕ, ◌^◌, ◌<◌, ◌≡◌, refl, ap, none, some, [], ◌∷◌, ◌++◌, length, length-append, take_all, drop_all,
  ok, Option, arith,
}
use rgb.Prelude.Bytes.{ByteString, put_le, length-put_le, get_le-put_le}
use mathlib.Core.List.{append_assoc}
use rgb.Seals.{GraphBlindSeal, strict_bytes, decode_tagged, decode_tail, decode_graph_blind_seal}

abbrev pub HasTxid : Option ByteString → Type 0
HasTxid none = Unit
HasTxid (some txid) = length txid ≡ 32

-- The ranges of Go's types.
pub record IsSeal (s : GraphBlindSeal) : Type 0 where
  pub txid : HasTxid s.tx_id
  pub vout : s.vout < 2 ^ 32
  pub blinding : s.blinding < 2 ^ 64

tail_back :
    (p : Option ByteString) (v b : ℕ)
    → v < 2 ^ 32
    → b < 2 ^ 64
    → decode_tail p (put_le 4 v ++ put_le 8 b) ≡ ok (record { tx_id = p; vout = v; blinding = b })
unfolding decode_tail
tail_back p v b hv hb = ground (
  arith,
  length-append (put_le 4 v) (put_le 8 b),
  length-put_le 4 v,
  length-put_le 8 b,
  take_all (put_le 4 v) (put_le 8 b) 4,
  drop_all (put_le 4 v) (put_le 8 b) 4,
  get_le-put_le 4 v,
  get_le-put_le 8 b,
)

-- What the encoder writes.
strict_bytes_writes :
    (s : GraphBlindSeal)
    → strict_bytes s
      ≡ ok (
          (elim s.tx_id [ none ↦ 0 ∷ [] | some txid ↦ 1 ∷ txid ])
          ++ (put_le 4 s.vout ++ put_le 8 s.blinding))
unfolding strict_bytes
strict_bytes_writes s = writes s.tx_id s.vout s.blinding
  where
    writes :
        (p : Option ByteString) (v b : ℕ)
        → strict_bytes (record { tx_id = p; vout = v; blinding = b })
          ≡ ok ((elim p [ none ↦ 0 ∷ [] | some txid ↦ 1 ∷ txid ]) ++ (put_le 4 v ++ put_le 8 b))
    writes none v b = refl
    writes (some txid) v b = ap (λ t. ok (1 ∷ t)) (append_assoc txid (put_le 4 v) (put_le 8 b))

tagged_back :
    (p : Option ByteString) (v b : ℕ)
    → HasTxid p
    → v < 2 ^ 32
    → b < 2 ^ 64
    → decode_tagged
        ((elim p [ none ↦ 0 ∷ [] | some txid ↦ 1 ∷ txid ]) ++ (put_le 4 v ++ put_le 8 b))
      ≡ ok (record { tx_id = p; vout = v; blinding = b })
unfolding decode_tagged
tagged_back none v b h hv hb = ground (
  arith,
  length-append (put_le 4 v) (put_le 8 b),
  length-put_le 4 v,
  length-put_le 8 b,
  tail_back none v b hv hb,
)
tagged_back (some txid) v b h hv hb = ground (
  arith,
  length-append txid (put_le 4 v ++ put_le 8 b),
  length-append (put_le 4 v) (put_le 8 b),
  length-put_le 4 v,
  length-put_le 8 b,
  take_all txid (put_le 4 v ++ put_le 8 b) 32,
  drop_all txid (put_le 4 v ++ put_le 8 b) 32,
  tail_back (some txid) v b hv hb,
)

-- A seal in the ranges of Go's types, with or without a transaction id, is encoded without an
-- error, and `DecodeGraphBlindSeal` reads that encoding back as the same seal.
pub decode-strict_bytes :
    (s : GraphBlindSeal)
    → IsSeal s
    → (w : ByteString) × (strict_bytes s ≡ ok w) × (decode_graph_blind_seal w ≡ ok s)
unfolding decode_graph_blind_seal
decode-strict_bytes s h =
    (_, strict_bytes_writes s, tagged_back s.tx_id s.vout s.blinding h.txid h.vout h.blinding)
