-- ===== src/StrictEncoding/Canonical.antt =====
-- The decoder accepts nothing that the encoder would not write.
use rgb.Prelude.{
  ℕ, zero, suc, ◌∷◌, ltb, if◌then◌else◌, ◌≤◌, ◌≡◌, [], ◌++◌, length as size, take, length-take,
  take-append-drop, All, ok, err, out_of_bounds, >>=-eq_ok, arith,
}
use mathlib.Core.List.{append_assoc}
use rgb.Prelude.Bytes.{ByteString, IsByte, put_le, get_le, put_le-get_le}
use rgb.StrictEncoding.Encoder
use rgb.StrictEncoding.Decoder
use rgb.StrictEncoding.Decoder.{width}
use rgb.StrictEncoding.RoundTrip.{bytes_writes}

All-take : (n : ℕ) (xs : ByteString) → All IsByte xs → All IsByte (take n xs)
All-take zero xs h = tt
All-take (suc n) [] h = tt
All-take (suc n) (x ∷ xs) h = (h.0, All-take n xs h.1)

-- A successful raw read splits the input.
pub raw_splits :
    (n : ℕ) (input buf rest : ByteString)
    → Decoder.raw n input ≡ ok (buf, rest)
    → (input ≡ buf ++ rest) × (size buf ≡ n) × (buf ≡ take n input)
unfolding Decoder.raw
raw_splits n input buf rest e = ground (arith, length-take n input, take-append-drop n input)

unsigned_splits :
    (n v : ℕ) (input rest : ByteString)
    → Decoder.unsigned n input ≡ ok (v, rest)
    → All IsByte input
    → input ≡ put_le n v ++ rest
unfolding Decoder.unsigned
unsigned_splits n v input rest e h =
    let ((buf, rest'), read, done) = >>=-eq_ok (Decoder.raw n input) _ e in
    let (split, exact, prefix) = raw_splits n input buf rest' read in
    let bytes : All IsByte buf = rw prefix (All-take n input h) in
    let same : put_le n (get_le buf) ≡ buf = cc (exact, put_le-get_le buf bytes) in
    cc (done, split, same)

pub length_splits :
    (max n : ℕ) (input rest : ByteString)
    → Decoder.length max input ≡ ok (n, rest)
    → All IsByte input
    → (n ≤ max) × (input ≡ put_le (width max) n ++ rest)
unfolding Decoder.length
length_splits max n input rest e h =
    let ((v, rest'), read, done) = >>=-eq_ok (Decoder.unsigned (width max) input) _ e in
    ground (arith, unsigned_splits (width max) v input rest' read h)

-- A byte string that the decoder accepts lies in its confinement, and the bytes that it took are
-- the ones that the encoder writes for it: there is one encoding of each value.
pub bytes-encode-decode :
    (min max : ℕ) (input content rest : ByteString)
    → All IsByte input
    → Decoder.bytes min max input ≡ ok (content, rest)
    → (min ≤ size content)
      × (size content ≤ max)
      × (w : ByteString) × (Encoder.bytes content min max [] ≡ ok w)
      × (input ≡ w ++ rest)
unfolding Decoder.bytes
bytes-encode-decode min max input content rest h e =
    let ((n, rest'), read, done) = >>=-eq_ok (Decoder.length max input) _ e in
    let (hi, split) = length_splits max n input rest' read h in
    let (lo, taken) = in_range n rest' done in
    let (split', exact, prefix) = raw_splits n rest' content rest taken in
    let written = bytes_writes content min max [] (omega arith) (omega arith) in
    (
      omega arith,
      omega arith,
      put_le (width max) (size content) ++ content,
      written,
      cc (split, split', exact, append_assoc (put_le (width max) (size content)) content rest),
    )
  where
    in_range :
        (k : ℕ) (left : ByteString)
        → (if ltb k min then err out_of_bounds else Decoder.raw k left) ≡ ok (content, rest)
        → (min ≤ k) × (Decoder.raw k left ≡ ok (content, rest))
    in_range k left d = ground arith
