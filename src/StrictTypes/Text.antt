-- ===== src/StrictTypes/Text.antt =====
-- Go's conversions between strings and bytes: a string is the text whose characters are its bytes.
use Prim.Native.Nat.{ℕ, compare, Ordering, ◌%◌, ◌<◌}
use Prim.Native.Char.{char, IsScalar}
use Prim.Native.String.{String}
use mathlib.Core.List.{[], ◌∷◌}
use mathlib.Core.Path.{◌≡◌}
use native.Mathlib.Omega.{arith}
use rgb.Prelude.Bytes.{ByteString}

pub byte-IsScalar : (b : ℕ) → b < 256 → IsScalar b
byte-IsScalar b h = rw (below b h) tt
  where
    below : (n : ℕ) → n < 256 → compare n 55296 ≡ Ordering.lt
    below n k = ground arith

-- `string(raw)`
unfoldable pub string_of : ByteString → String
string_of [] = String.[]
string_of (b ∷ bs) =
    String.◌∷◌ (char (b % 256) (byte-IsScalar (b % 256) (omega arith))) (string_of bs)
