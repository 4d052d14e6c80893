-- ===== src/Formats/Base85.antt =====
-- consignment/base85.go. A text is the list of its bytes.
use rgb.Prelude.{
  ℕ, zero, suc, ◌+◌, ◌*◌, ◌/◌, ◌%◌, ◌^◌, Option, none, some, [], ◌∷◌, ◌++◌, ◌==◌, if◌then◌else◌,
  length, take, Result, ok, err, base85_character, base85_remainder, guard, of_option, ◌>>=◌, ◌>>◌,
  not, String,
}
use rgb.Prelude.Bytes.{ByteString, codes}

abbrev pub alphabet : String
alphabet = "0123456789ABCDEFGHIJKLMNOPQRSTUVWXYZabcdefghijklmnopqrstuvwxyz!#$%&()*+-;<=>?@^_`{|}~"

-- `base85Alphabet[index]`
abbrev pub char_at : ByteString → ℕ → ℕ
char_at [] index = 0
char_at (c ∷ cs) zero = c
char_at (c ∷ cs) (suc index) = char_at cs index

unfoldable pub digits : ℕ → ℕ → ByteString → ByteString
digits zero value found = found
digits (suc n) value found = digits n (value / 85) (char_at (codes alphabet) (value % 85) ∷ found)

-- Four bytes, the first most significant, as five characters.
unfoldable pub block : ℕ → ℕ → ℕ → ℕ → ByteString
unfolding digits
block a b c d = digits 5 (((a * 256 + b) * 256 + c) * 256 + d) []

-- A last block is padded with zeros, and one more character than it has bytes is kept.
unfoldable pub encode_base85 : ByteString → ByteString
unfolding block
encode_base85 [] = []
encode_base85 (a ∷ []) = take 2 (block a 0 0 0)
encode_base85 (a ∷ b ∷ []) = take 3 (block a b 0 0)
encode_base85 (a ∷ b ∷ c ∷ []) = take 4 (block a b c 0)
encode_base85 (a ∷ b ∷ c ∷ d ∷ rest) = block a b c d ++ encode_base85 rest

unfoldable pub index_from : ℕ → ByteString → ℕ → Option ℕ
index_from index [] char = none
index_from index (c ∷ cs) char =
    let later = index_from (suc index) cs char in if c == char then some index else later

unfoldable pub decode_char : ℕ → Result ℕ
unfolding index_from
decode_char char = of_option base85_character (index_from 0 (codes alphabet) char)

-- The four bytes of five digits, in 32 bits.
unfoldable pub unblock : ℕ → ℕ → ℕ → ℕ → ℕ → ByteString
unblock p q r s t =
    let v = (p * 85 ^ 4 + q * 85 ^ 3 + r * 85 ^ 2 + s * 85 + t) % 2 ^ 32 in
    v / 2 ^ 24 ∷ v / 2 ^ 16 % 256 ∷ v / 2 ^ 8 % 256 ∷ v % 256 ∷ []

-- A partial group is padded with the digit 84.
unfoldable pub decode_groups : ByteString → Result ByteString
unfolding decode_char unblock
decode_groups [] = ok []
decode_groups (p ∷ []) = err base85_remainder
decode_groups (p ∷ q ∷ []) = do
  d0 ← decode_char p
  d1 ← decode_char q
  ok (take 1 (unblock d0 d1 84 84 84))
decode_groups (p ∷ q ∷ r ∷ []) = do
  d0 ← decode_char p
  d1 ← decode_char q
  d2 ← decode_char r
  ok (take 2 (unblock d0 d1 d2 84 84))
decode_groups (p ∷ q ∷ r ∷ s ∷ []) = do
  d0 ← decode_char p
  d1 ← decode_char q
  d2 ← decode_char r
  d3 ← decode_char s
  ok (take 3 (unblock d0 d1 d2 d3 84))
decode_groups (p ∷ q ∷ r ∷ s ∷ t ∷ rest) = do
  d0 ← decode_char p
  d1 ← decode_char q
  d2 ← decode_char r
  d3 ← decode_char s
  d4 ← decode_char t
  later ← decode_groups rest
  ok (unblock d0 d1 d2 d3 d4 ++ later)

unfoldable pub decode_base85 : ByteString → Result ByteString
unfolding decode_groups
decode_base85 value = do guard (not (length value % 5 == 1)) base85_remainder; decode_groups value
