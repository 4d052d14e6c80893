-- ===== src/StrictEncoding/RoundTrip.antt =====
-- What the encoder writes, the decoder reads back.
use rgb.Prelude.{
  ℕ, ◌^◌, ◌≤◌, ◌<◌, ◌≡◌, refl, [], ◌++◌, length as size, length-append, take_all, drop_all, ok,
  arith,
}
use mathlib.Core.List.{append_assoc}
use rgb.Prelude.Bytes.{ByteString, put_le, get_le-put_le, length-put_le}
use rgb.StrictEncoding.Encoder
use rgb.StrictEncoding.Encoder.{Encoder, u64_mod}
use rgb.StrictEncoding.Decoder
use rgb.StrictEncoding.Decoder.{Decoder, max_int, width}

pub raw_exact :
    (content rest : ByteString)
    → size content ≤ max_int
    → Decoder.raw (size content) (content ++ rest) ≡ ok (content, rest)
unfolding Decoder.raw
raw_exact content rest h = ground (
  arith,
  length-append content rest,
  take_all content rest (size content) refl,
  drop_all content rest (size content) refl,
)

pub unsigned-put_le :
    (n v : ℕ) (rest : ByteString)
    → n ≤ max_int
    → v < 256 ^ n
    → Decoder.unsigned n (put_le n v ++ rest) ≡ ok (v, rest)
unfolding Decoder.unsigned
unsigned-put_le n v rest hn hv =
    ground (arith, raw_exact (put_le n v) rest, length-put_le n v, get_le-put_le n v)

-- What the length operation appends: the number in the width of its maximum.
pub length_writes :
    (n max : ℕ) (buf : ByteString)
    → n ≤ max
    → Encoder.length n max buf ≡ ok (buf ++ put_le (width max) n)
unfolding Encoder.length width put_le
length_writes n max buf h = ground arith

width_fits : (n max : ℕ) → n ≤ max → max < u64_mod → n < 256 ^ width max
unfolding width
width_fits n max h m = ground arith

width_small : (max : ℕ) → width max ≤ max_int
unfolding width
width_small max = ground arith

pub length-read_back :
    (n max : ℕ) (rest : ByteString)
    → n ≤ max
    → max < u64_mod
    → Decoder.length max (put_le (width max) n ++ rest) ≡ ok (n, rest)
unfolding Decoder.length
length-read_back n max rest h m =
    ground (arith, unsigned-put_le (width max) n rest (width_small max) (width_fits n max h m))

-- What the bytes operation appends: the length, then the content.
pub bytes_writes :
    (content : ByteString) (min max : ℕ) (buf : ByteString)
    → min ≤ size content
    → size content ≤ max
    → Encoder.bytes content min max buf ≡ ok ((buf ++ put_le (width max) (size content)) ++ content)
unfolding Encoder.bytes
bytes_writes content min max buf lo hi = ground (arith, length_writes (size content) max buf hi)

-- A byte string that the encoder accepts is read back by the decoder of the same confinement,
-- whatever follows it, and nothing after it is consumed. The length fits an int, as it does for
-- every Go slice.
pub bytes-decode-encode :
    (content : ByteString) (min max : ℕ) (w rest : ByteString)
    → max < u64_mod
    → size content ≤ max_int
    → Encoder.bytes content min max [] ≡ ok w
    → Decoder.bytes min max (w ++ rest) ≡ ok (content, rest)
unfolding Decoder.bytes
bytes-decode-encode content min max w rest m fits e =
    let (lo, hi) = in_bounds content min max w e in
    let written : w ≡ put_le (width max) (size content) ++ content =
      cc (e, bytes_writes content min max [] lo hi) in
    rw (written, append_assoc, length-read_back (size content) max (content ++ rest) hi m)
      (ground (arith, raw_exact content rest fits))
  where
    in_bounds :
        (c : ByteString) (l u : ℕ) (out : ByteString)
        → Encoder.bytes c l u [] ≡ ok out
        → (l ≤ size c) × (size c ≤ u)
    in_bounds c l u out e' = unfold Encoder.bytes in ground arith
