-- ===== src/StrictEncoding/Encoder.antt =====
-- strict_encoding/encoder.go. The writer is a bytes.Buffer, which never fails: an operation takes
-- what the buffer holds and returns what it holds then.
use rgb.Prelude.{
  ℕ, ◌^◌, ◌%◌, Bool, true, false, ◌||◌, Option, none, some, [], ◌∷◌, ◌++◌, leb, ltb, if◌then◌else◌,
  length as size, Result, ok, err, out_of_bounds, foreign, ◌>>=◌,
}
use rgb.Prelude.Bytes.{ByteString, put_le}

abbrev pub Encoder : Type 0
Encoder = ByteString → Result ByteString

abbrev pub u64_mod : ℕ
u64_mod = 2 ^ 64

unfoldable pub raw : ByteString → Encoder
raw content buf = ok (buf ++ content)

unfoldable pub u8 : ℕ → Encoder
unfolding raw
u8 v = raw (v ∷ [])

unfoldable pub u16 : ℕ → Encoder
unfolding raw put_le
u16 v = raw (put_le 2 v)

unfoldable pub u24 : ℕ → Encoder
unfolding raw put_le
u24 v buf = if ltb 0xffffff v then err out_of_bounds else raw (put_le 3 v) buf

unfoldable pub u32 : ℕ → Encoder
unfolding raw put_le
u32 v = raw (put_le 4 v)

unfoldable pub u64 : ℕ → Encoder
unfolding raw put_le
u64 v = raw (put_le 8 v)

unfoldable pub bool : Bool → Encoder
unfolding u8
bool v = if v then u8 1 else u8 0

-- The conversions `uint8(length)` and so on are written out.
unfoldable pub length : ℕ → ℕ → Encoder
unfolding u8 u16 u24 u32 u64
length n max buf =
    if ltb max n
    then err out_of_bounds
    else if leb max 0xff
    then u8 (n % 2 ^ 8) buf
    else if leb max 0xffff
    then u16 (n % 2 ^ 16) buf
    else if leb max 0xffffff
    then u24 (n % 2 ^ 32) buf
    else if leb max 0xffffffff
    then u32 (n % 2 ^ 32) buf
    else u64 n buf

unfoldable pub bytes : ByteString → ℕ → ℕ → Encoder
unfolding length raw
bytes content min max buf =
    if ltb (size content) min || ltb max (size content)
    then err out_of_bounds
    else do buf' ← length (size content) max buf; raw content buf'

-- A nil callback is `none`. Its error is made by `fmt.Errorf` without a sentinel.
unfoldable pub option : Bool → Option Encoder → Encoder
unfolding u8
option false encode buf = u8 0 buf
option true none buf = err foreign
option true (some encode) buf = do buf' ← u8 1 buf; encode buf'
