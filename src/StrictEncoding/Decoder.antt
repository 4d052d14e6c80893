-- ===== src/StrictEncoding/Decoder.antt =====
-- strict_encoding/decoder.go. The reader is a bytes.Reader: its state is the bytes that are left.
use rgb.Prelude.{
  ℕ, ◌-◌, ◌^◌, Bool, true, false, Option, none, some, leb, ltb, ◌==◌, if◌then◌else◌, length as size,
  take, drop, Result, ok, err, out_of_bounds, unexpected_eof, invalid_bool, invalid_option_tag,
  ◌>>=◌,
}
use rgb.Prelude.Bytes.{ByteString, get_le}

abbrev pub Decoder {ℓ} : Type ℓ → Type ℓ
Decoder A = ByteString → Result (A × ByteString)

-- `uint64(^uint(0) >> 1)`: the largest int.
abbrev pub max_int : ℕ
max_int = 2 ^ 63 - 1

unfoldable pub raw : ℕ → Decoder ByteString
raw n input =
    if ltb max_int n
    then err out_of_bounds
    else if ltb (size input) n
    then err unexpected_eof
    else ok (take n input, drop n input)

-- The fixed widths: `n` bytes, least significant first.
unfoldable pub unsigned : ℕ → Decoder ℕ
unfolding raw get_le
unsigned n input = do (buf, rest) ← raw n input; ok (get_le buf, rest)

unfoldable pub u8 : Decoder ℕ
unfolding unsigned
u8 = unsigned 1

unfoldable pub u16 : Decoder ℕ
unfolding unsigned
u16 = unsigned 2

unfoldable pub u24 : Decoder ℕ
unfolding unsigned
u24 = unsigned 3

unfoldable pub u32 : Decoder ℕ
unfolding unsigned
u32 = unsigned 4

unfoldable pub u64 : Decoder ℕ
unfolding unsigned
u64 = unsigned 8

unfoldable pub bool : Decoder Bool
unfolding u8
bool input = do
  (v, rest) ← u8 input
  if v == 0 then ok (false, rest) else if v == 1 then ok (true, rest) else err invalid_bool

-- The width that the declared maximum selects.
unfoldable pub width : ℕ → ℕ
width max =
    if leb max 0xff
    then 1
    else if leb max 0xffff
    then 2
    else if leb max 0xffffff
    then 3
    else if leb max 0xffffffff
    then 4
    else 8

unfoldable pub length : ℕ → Decoder ℕ
unfolding width unsigned
length max input = do
  (value, rest) ← unsigned (width max) input
  if ltb max value then err out_of_bounds else ok (value, rest)

unfoldable pub bytes : ℕ → ℕ → Decoder ByteString
unfolding length raw
bytes min max input = do
  (n, rest) ← length max input
  if ltb n min then err out_of_bounds else raw n rest

read_present : Option (ByteString → Result ByteString) → Decoder Bool
read_present none input = err invalid_option_tag
read_present (some decode) input = do rest ← decode input; ok (true, rest)

by_tag : ℕ → Option (ByteString → Result ByteString) → Decoder Bool
by_tag tag decode input =
    if tag == 0
    then ok (false, input)
    else if tag == 1
    then read_present decode input
    else err invalid_option_tag

-- A nil callback is `none`; the decoded flag comes with what the callback leaves.
unfoldable pub option : Option (ByteString → Result ByteString) → Decoder Bool
unfolding u8 by_tag read_present
option decode input = do (tag, rest) ← u8 input; by_tag tag decode rest
