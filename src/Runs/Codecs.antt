-- ===== src/Runs/Codecs.antt =====
-- The encoder, the decoder and the seals at concrete bytes.
use rgb.Prelude.{◌≤◌, ◌++◌, ◌≡◌, refl, some, [], ◌∷◌, ok, err, replicate, arith, out_of_bounds}
use rgb.Prelude.Bytes.{ByteString, put_le}
use rgb.StrictEncoding.Encoder
use rgb.StrictEncoding.Decoder
use rgb.StrictEncoding.RoundTrip.{bytes-decode-encode}
use rgb.StrictEncoding.Canonical.{bytes-encode-decode}
use rgb.Seals.{GraphBlindSeal, strict_bytes, decode_graph_blind_seal}
use rgb.Seals.RoundTrip.{decode-strict_bytes}

encode_short : Encoder.bytes (7 ∷ []) 2 255 [] ≡ err out_of_bounds
unfolding Encoder.bytes
encode_short = refl

encode_wide : Encoder.bytes (7 ∷ 8 ∷ []) 0 65535 [] ≡ ok (2 ∷ 0 ∷ 7 ∷ 8 ∷ [])
unfolding Encoder.bytes put_le
encode_wide = refl

decode_wide : Decoder.bytes 0 65535 (2 ∷ 0 ∷ 7 ∷ 8 ∷ 9 ∷ []) ≡ ok (7 ∷ 8 ∷ [], 9 ∷ [])
unfolding Decoder.bytes
decode_wide = refl

bytes-decode-encode_example :
    Decoder.bytes 0 65535 ((2 ∷ 0 ∷ 7 ∷ 8 ∷ []) ++ (9 ∷ [])) ≡ ok (7 ∷ 8 ∷ [], 9 ∷ [])
bytes-decode-encode_example =
    bytes-decode-encode (7 ∷ 8 ∷ []) 0 65535 (2 ∷ 0 ∷ 7 ∷ 8 ∷ []) (9 ∷ []) (omega arith)
      (omega arith) encode_wide

bytes-encode-decode_example :
    (0 ≤ 2)
    × (2 ≤ 65535)
    × (w : ByteString) × (Encoder.bytes (7 ∷ 8 ∷ []) 0 65535 [] ≡ ok w)
    × (2 ∷ 0 ∷ 7 ∷ 8 ∷ 9 ∷ [] ≡ w ++ (9 ∷ []))
bytes-encode-decode_example =
    bytes-encode-decode 0 65535 (2 ∷ 0 ∷ 7 ∷ 8 ∷ 9 ∷ []) (7 ∷ 8 ∷ []) (9 ∷ [])
      (omega arith, (omega arith, (omega arith, (omega arith, (omega arith, tt))))) decode_wide

abbrev seal : GraphBlindSeal
seal = record { tx_id = some (replicate 32 1); vout = 3; blinding = 77 }

decode-strict_bytes_example :
    (w : ByteString) × (strict_bytes seal ≡ ok w) × (decode_graph_blind_seal w ≡ ok seal)
decode-strict_bytes_example =
    decode-strict_bytes seal (record { txid = refl; vout = omega arith; blinding = omega arith })
