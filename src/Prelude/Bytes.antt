-- ===== src/Prelude/Bytes.antt =====
-- Byte slices and arrays as lists of numbers, and what the program asks of them: equality and
-- the little-endian codecs of encoding/binary.
use Prim.Native.Nat.{ℕ, zero, suc, ◌+◌, ◌*◌, ◌/◌, ◌%◌, ◌^◌, ◌<◌}
use mathlib.Core.Path.{◌≡◌, refl, ap}
use mathlib.Core.Bool.{Bool, true, false, ◌&&◌}
use mathlib.Core.List.{List, [], ◌∷◌}
use native.Mathlib.Omega.{arith}
use Prim.Native.Char.{code}
use Prim.Native.String.{String}
use rgb.Prelude.Tests.{◌==◌}
use rgb.Prelude.Lists.{length, All}

abbrev pub ByteString : Type 0
ByteString = List ℕ

abbrev pub IsByte : ℕ → Type 0
IsByte b = b < 256

-- `[]byte(text)` of an ASCII text.
abbrev pub codes : String → ByteString
codes String.[] = []
codes (String.◌∷◌ c s) = code c ∷ codes s

-- bytes.Equal
unfoldable pub bytes_eq : ByteString → ByteString → Bool
bytes_eq [] [] = true
bytes_eq [] (y ∷ ys) = false
bytes_eq (x ∷ xs) [] = false
bytes_eq (x ∷ xs) (y ∷ ys) = x == y && bytes_eq xs ys

pub bytes_eq→eq : (xs ys : ByteString) → bytes_eq xs ys ≡ true → xs ≡ ys
unfolding bytes_eq
bytes_eq→eq [] [] h = refl
bytes_eq→eq [] (y ∷ ys) h = cc
bytes_eq→eq (x ∷ xs) [] h = cc
bytes_eq→eq (x ∷ xs) (y ∷ ys) h = ground (arith, bytes_eq→eq xs ys)

pub bytes_eq_refl : (xs : ByteString) → bytes_eq xs xs ≡ true
unfolding bytes_eq
bytes_eq_refl [] = refl
bytes_eq_refl (x ∷ xs) = ground (arith, bytes_eq_refl xs)

-- The low `n` bytes of `v`, least significant first.
unfoldable pub put_le : ℕ → ℕ → ByteString
put_le zero v = []
put_le (suc n) v = (v % 256) ∷ put_le n (v / 256)

unfoldable pub get_le : ByteString → ℕ
get_le [] = 0
get_le (b ∷ bs) = b + 256 * get_le bs

pub length-put_le : (n v : ℕ) → length (put_le n v) ≡ n
unfolding put_le
length-put_le zero v = refl
length-put_le (suc n) v = ap suc (length-put_le n (v / 256))

pub put_le-IsByte : (n v : ℕ) → All IsByte (put_le n v)
unfolding put_le
put_le-IsByte zero v = tt
put_le-IsByte (suc n) v = (omega arith, put_le-IsByte n (v / 256))

pub get_le-put_le : (n v : ℕ) → v < 256 ^ n → get_le (put_le n v) ≡ v
unfolding put_le get_le
get_le-put_le zero v h = omega arith
get_le-put_le (suc n) v h = omega (arith, get_le-put_le n (v / 256) (shrink n v h))
  where
    shrink : (k w : ℕ) → w < 256 ^ suc k → w / 256 < 256 ^ k
    shrink k w h = omega arith

pub get_le_bound : (bs : ByteString) → All IsByte bs → get_le bs < 256 ^ length bs
unfolding get_le
get_le_bound [] h = omega arith
get_le_bound (b ∷ bs) h = step b (get_le bs) (length bs) h.0 (get_le_bound bs h.1)
  where
    step : (x w k : ℕ) → x < 256 → w < 256 ^ k → x + 256 * w < 256 ^ suc k
    step x w k hx hw = omega arith

pub put_le-get_le : (bs : ByteString) → All IsByte bs → put_le (length bs) (get_le bs) ≡ bs
unfolding put_le get_le
put_le-get_le [] h = refl
put_le-get_le (b ∷ bs) h = ground (arith, put_le-get_le bs h.1, split b (get_le bs) h.0)
  where
    split : (x w : ℕ) → x < 256 → ((x + 256 * w) % 256 ≡ x) × ((x + 256 * w) / 256 ≡ w)
    split x w hx = omega arith
