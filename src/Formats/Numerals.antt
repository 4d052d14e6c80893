-- ===== src/Formats/Numerals.antt =====
-- Hexadecimal, decimal and base85 texts: how the numbers read back, and that the texts are
-- printable.
use rgb.Prelude.{
  ℕ, zero, suc, ◌+◌, ◌-◌, ◌*◌, ◌/◌, ◌%◌, ◌≤◌, ◌<◌, ◌≡◌, refl, ap, ◌∙◌, Bool, true, false, not, ◌&&◌,
  some, [], ◌∷◌, ltb, leb, ◌==◌, if◌then◌else◌, length, All, All-take, All-append, Result, ok, err,
  foreign, arith,
}
use rgb.Prelude.Bytes.{ByteString, IsByte, codes}
use rgb.Formats.Base85.{alphabet, char_at, digits, block, encode_base85}
use rgb.Formats.Text.{
  hex_digit, encode_hex, hex_value, decode_hex, decimal_from, decimal, all_digits, digits_value,
  parse_below,
}
use rgb.Formats.Words.{IsGraphic}

hex_value-hex_digit : (n : ℕ) → n < 16 → hex_value (hex_digit n) ≡ some n
unfolding hex_value
hex_value-hex_digit n h = ground arith

pub decode_hex-encode_hex : (bs : ByteString) → All IsByte bs → decode_hex (encode_hex bs) ≡ ok bs
unfolding decode_hex encode_hex
decode_hex-encode_hex [] h = refl
decode_hex-encode_hex (b ∷ bs) h =
    let high = hex_value-hex_digit (b / 16) (omega (arith, h.0)) in
    let low = hex_value-hex_digit (b % 16) (omega arith) in
    let rest = decode_hex-encode_hex bs h.1 in
    rw (high, low, rest) (ap (λ t. ok (t ∷ bs)) (omega arith))

pub encode_hex-IsGraphic : (bs : ByteString) → All IsByte bs → All IsGraphic (encode_hex bs)
unfolding encode_hex
encode_hex-IsGraphic [] h = tt
encode_hex-IsGraphic (b ∷ bs) h = (
  digit_graphic (b / 16) (omega (arith, h.0)),
  (digit_graphic (b % 16) (omega arith), encode_hex-IsGraphic bs h.1),
)
  where
    digit_graphic : (n : ℕ) → n < 16 → IsGraphic (hex_digit n)
    digit_graphic n h = ground arith

pub length-encode_hex : (bs : ByteString) → length (encode_hex bs) ≡ 2 * length bs
unfolding encode_hex
length-encode_hex [] = refl
length-encode_hex (b ∷ bs) = omega (arith, length-encode_hex bs)

abbrev pub AreDigits : ByteString → Type 0
AreDigits = All (λ c. (48 ≤ c) × (c ≤ 57))

pub decimal_from-AreDigits :
    (fuel n : ℕ) (found : ByteString) → AreDigits found → AreDigits (decimal_from fuel n found)
unfolding decimal_from
decimal_from-AreDigits zero n found h = h
decimal_from-AreDigits (suc fuel) n found h =
    chosen (ltb n 10) ((48 + n % 10) ∷ found) _ ((omega arith, omega arith), h)
      (decimal_from-AreDigits fuel (n / 10) ((48 + n % 10) ∷ found) ((omega arith, omega arith), h))
  where
    chosen :
        (c : Bool) (xs ys : ByteString)
        → AreDigits xs
        → AreDigits ys
        → AreDigits (if c then xs else ys)
    chosen true xs ys a b = a
    chosen false xs ys a b = b

digits_value-decimal_from :
    (fuel n : ℕ) (found : ByteString)
    → n < fuel
    → digits_value 0 (decimal_from fuel n found) ≡ digits_value n found
unfolding decimal_from digits_value
digits_value-decimal_from zero n found h = absurd (omega arith)
digits_value-decimal_from (suc fuel) n found h =
    by_size (ltb n 10) refl (λ more.
      digits_value-decimal_from fuel (n / 10) ((48 + n % 10) ∷ found) (ground (arith, more)))
  where
    by_size :
        (c : Bool)
        → ltb n 10 ≡ c
        → (c ≡ false
            → digits_value 0 (decimal_from fuel (n / 10) ((48 + n % 10) ∷ found))
              ≡ digits_value (n / 10) ((48 + n % 10) ∷ found))
        → digits_value 0 (
            if c then (48 + n % 10) ∷ found else decimal_from fuel (n / 10) ((48 + n % 10) ∷ found))
          ≡ digits_value n found
    by_size true e later =
        unfold digits_value in
        let value : 0 * 10 + ((48 + n % 10) - 48) ≡ n = ground arith in
        ap (λ v. digits_value v found) value
    by_size false e later =
        let value : n / 10 * 10 + ((48 + n % 10) - 48) ≡ n = omega arith in
        later refl ∙ (unfold digits_value in ap (λ v. digits_value v found) value)

length-decimal_from :
    (fuel n : ℕ) (found : ByteString) → length found ≤ length (decimal_from fuel n found)
unfolding decimal_from
length-decimal_from zero n found = omega arith
length-decimal_from (suc fuel) n found =
    ground (arith, length-decimal_from fuel (n / 10) ((48 + n % 10) ∷ found))

char_at-IsGraphic :
    (xs : ByteString) (i : ℕ) → All IsGraphic xs → i < length xs → IsGraphic (char_at xs i)
char_at-IsGraphic [] i h k = absurd (omega arith)
char_at-IsGraphic (c ∷ cs) zero h k = h.0
char_at-IsGraphic (c ∷ cs) (suc i) h k = char_at-IsGraphic cs i h.1 (omega arith)

abbrev pub all_graphic : ByteString → Bool
all_graphic [] = true
all_graphic (c ∷ cs) = (leb 33 c && leb c 126) && all_graphic cs

pub IsGraphic-literal : (w : ByteString) → all_graphic w ≡ true → All IsGraphic w
IsGraphic-literal [] h = tt
IsGraphic-literal (c ∷ cs) h = (ground arith, IsGraphic-literal cs (ground arith))

digits-IsGraphic :
    (n value : ℕ) (found : ByteString) → All IsGraphic found → All IsGraphic (digits n value found)
unfolding digits
digits-IsGraphic zero value found h = h
digits-IsGraphic (suc n) value found h =
    digits-IsGraphic n (value / 85) (char_at (codes alphabet) (value % 85) ∷ found) (
      char_at-IsGraphic (codes alphabet) (value % 85) (IsGraphic-literal (codes alphabet) refl)
          (omega arith),
      h,
    )

block-IsGraphic : (a b c d : ℕ) → All IsGraphic (block a b c d)
unfolding block
block-IsGraphic a b c d = digits-IsGraphic 5 (((a * 256 + b) * 256 + c) * 256 + d) [] tt

pub encode_base85-IsGraphic : (bs : ByteString) → All IsGraphic (encode_base85 bs)
unfolding encode_base85
encode_base85-IsGraphic [] = tt
encode_base85-IsGraphic (a ∷ []) = All-take IsGraphic 2 (block a 0 0 0) (block-IsGraphic a 0 0 0)
encode_base85-IsGraphic (a ∷ b ∷ []) =
    All-take IsGraphic 3 (block a b 0 0) (block-IsGraphic a b 0 0)
encode_base85-IsGraphic (a ∷ b ∷ c ∷ []) =
    All-take IsGraphic 4 (block a b c 0) (block-IsGraphic a b c 0)
encode_base85-IsGraphic (a ∷ b ∷ c ∷ d ∷ rest) =
    All-append IsGraphic (block a b c d) (encode_base85 rest) (block-IsGraphic a b c d)
      (encode_base85-IsGraphic rest)

digits-IsGraphic_all : (w : ByteString) → AreDigits w → All IsGraphic w
digits-IsGraphic_all [] h = tt
digits-IsGraphic_all (c ∷ cs) h =
    ((omega (arith, h.0), omega (arith, h.0)), digits-IsGraphic_all cs h.1)

pub decimal-IsGraphic : (n : ℕ) → All IsGraphic (decimal n)
unfolding decimal
decimal-IsGraphic n =
    digits-IsGraphic_all (decimal_from (n + 1) n []) (decimal_from-AreDigits (n + 1) n [] tt)

all_digits-true : (w : ByteString) → AreDigits w → all_digits w ≡ true
all_digits-true [] h = refl
all_digits-true (c ∷ cs) h = ground (arith, h.0, all_digits-true cs h.1)

decimal_from-filled : (fuel n : ℕ) → 0 < fuel → 0 < length (decimal_from fuel n [])
unfolding decimal_from
decimal_from-filled zero n h = absurd (omega arith)
decimal_from-filled (suc fuel) n h =
    ground (arith, length-decimal_from fuel (n / 10) ((48 + n % 10) ∷ []))

pub decimal-filled : (n : ℕ) → 0 < length (decimal n)
unfolding decimal
decimal-filled n = decimal_from-filled (n + 1) n (omega arith)

pub parse_below-decimal : (limit n : ℕ) → n < limit → parse_below limit (decimal n) ≡ ok n
unfolding parse_below
parse_below-decimal limit n h =
    accepted (length (decimal n)) (all_digits (decimal n)) (digits_value 0 (decimal n))
      (decimal-filled n) are_digits value
  where
    are_digits : all_digits (decimal n) ≡ true
    are_digits =
        unfold decimal in
        all_digits-true (decimal_from (n + 1) n []) (decimal_from-AreDigits (n + 1) n [] tt)

    value : digits_value 0 (decimal n) ≡ n
    value = unfold decimal digits_value in digits_value-decimal_from (n + 1) n [] (omega arith)

    accepted :
        (k : ℕ) (all : Bool) (v : ℕ)
        → 0 < k
        → all ≡ true
        → v ≡ n
        → ◌≡◌ {A = Result ℕ}
            (if not (k == 0) && (all && ltb v limit) then ok v else err foreign)
            (ok n)
    accepted k all v filled e same = ground arith

one_digit :
    (fuel n : ℕ) (found : ByteString)
    → n < 10
    → length (decimal_from fuel n found) ≤ suc (length found)
unfolding decimal_from
one_digit zero n found h = omega arith
one_digit (suc fuel) n found h = ground arith

two_digits :
    (fuel n : ℕ) (found : ByteString)
    → n < 100
    → length (decimal_from fuel n found) ≤ suc (suc (length found))
unfolding decimal_from
two_digits zero n found h = omega arith
two_digits (suc fuel) n found h = ground (arith, one_digit fuel (n / 10) ((48 + n % 10) ∷ found))

three_digits :
    (fuel n : ℕ) (found : ByteString)
    → n < 1000
    → length (decimal_from fuel n found) ≤ suc (suc (suc (length found)))
unfolding decimal_from
three_digits zero n found h = omega arith
three_digits (suc fuel) n found h = ground (arith, two_digits fuel (n / 10) ((48 + n % 10) ∷ found))

pub length-decimal : (n : ℕ) → n < 256 → length (decimal n) ≤ 3
unfolding decimal
length-decimal n h = three_digits (n + 1) n [] (omega arith)
