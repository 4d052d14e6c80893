-- ===== src/Formats/Text.antt =====
-- What consignment/armor.go and consignment/encode.go use of Go's packages bufio, strings, strconv and
-- encoding/hex. A text is the list of its bytes.
use rgb.Prelude.{
  ℕ, zero, suc, ◌+◌, ◌-◌, ◌*◌, ◌/◌, ◌%◌, Bool, true, false, not, ◌&&◌, Option, none, some, List, [],
  ◌∷◌, ltb, leb, ◌==◌, if◌then◌else◌, length, reverse, Result, ok, err, foreign, of_option, ◌>>=◌,
}
use rgb.Prelude.Bytes.{ByteString}

-- bufio.ScanLines: what a newline ends, and what is left at the end unless it is nothing.
abbrev pub onto_first : ℕ → List ByteString → List ByteString
onto_first c [] = (c ∷ []) ∷ []
onto_first c (line ∷ lines) = (c ∷ line) ∷ lines

unfoldable pub scan_lines : ByteString → List ByteString
scan_lines [] = []
scan_lines (c ∷ cs) = let rest = scan_lines cs in if c == 10 then [] ∷ rest else onto_first c rest

-- One carriage return at the end is dropped.
unfoldable pub drop_cr : ByteString → ByteString
drop_cr [] = []
drop_cr (c ∷ []) = if c == 13 then [] else c ∷ []
drop_cr (c ∷ d ∷ cs) = c ∷ drop_cr (d ∷ cs)

-- The characters of unicode.IsSpace, in UTF-8.
abbrev pub spaces : List ByteString
spaces =
    (9 ∷ [])
    ∷ (10 ∷ [])
    ∷ (11 ∷ [])
    ∷ (12 ∷ [])
    ∷ (13 ∷ [])
    ∷ (32 ∷ [])
    ∷ (0xc2 ∷ 0x85 ∷ [])
    ∷ (0xc2 ∷ 0xa0 ∷ [])
    ∷ (0xe1 ∷ 0x9a ∷ 0x80 ∷ [])
    ∷ (0xe2 ∷ 0x80 ∷ 0x80 ∷ [])
    ∷ (0xe2 ∷ 0x80 ∷ 0x81 ∷ [])
    ∷ (0xe2 ∷ 0x80 ∷ 0x82 ∷ [])
    ∷ (0xe2 ∷ 0x80 ∷ 0x83 ∷ [])
    ∷ (0xe2 ∷ 0x80 ∷ 0x84 ∷ [])
    ∷ (0xe2 ∷ 0x80 ∷ 0x85 ∷ [])
    ∷ (0xe2 ∷ 0x80 ∷ 0x86 ∷ [])
    ∷ (0xe2 ∷ 0x80 ∷ 0x87 ∷ [])
    ∷ (0xe2 ∷ 0x80 ∷ 0x88 ∷ [])
    ∷ (0xe2 ∷ 0x80 ∷ 0x89 ∷ [])
    ∷ (0xe2 ∷ 0x80 ∷ 0x8a ∷ [])
    ∷ (0xe2 ∷ 0x80 ∷ 0xa8 ∷ [])
    ∷ (0xe2 ∷ 0x80 ∷ 0xa9 ∷ [])
    ∷ (0xe2 ∷ 0x80 ∷ 0xaf ∷ [])
    ∷ (0xe2 ∷ 0x81 ∷ 0x9f ∷ [])
    ∷ (0xe3 ∷ 0x80 ∷ 0x80 ∷ [])
    ∷ []

abbrev pub reversed : List ByteString → List ByteString
reversed [] = []
reversed (text ∷ texts) = reverse text ∷ reversed texts

-- What follows a prefix.
unfoldable pub strip : ByteString → ByteString → Option ByteString
strip [] text = some text
strip (p ∷ ps) [] = none
strip (p ∷ ps) (c ∷ cs) = let later = strip ps cs in if p == c then later else none

unfoldable pub strip_any : List ByteString → ByteString → Option ByteString
unfolding strip
strip_any [] text = none
strip_any (p ∷ ps) text = elim (strip p text) [ some rest ↦ some rest | none ↦ strip_any ps text ]

-- The fuel is the length: every step shortens the text.
unfoldable pub strip_all : List ByteString → ℕ → ByteString → ByteString
unfolding strip_any
strip_all ps zero text = text
strip_all ps (suc n) text = elim (strip_any ps text) [
  | none ↦ text
  | some rest ↦ strip_all ps n rest
]

-- strings.TrimSpace
unfoldable pub trim_space : ByteString → ByteString
unfolding strip_all
trim_space text =
    let left = strip_all spaces (length text) text in
    reverse (strip_all (reversed spaces) (length left) (reverse left))

-- strings.Cut at a byte.
unfoldable pub cut : ℕ → ByteString → Option (ByteString × ByteString)
cut separator [] = none
cut separator (c ∷ cs) = elim (c == separator) [
  | true ↦ some ([], cs)
  | false ↦ elim (cut separator cs) [
    | none ↦ none
    | some (before, after) ↦ some (c ∷ before, after)
  ]
]

-- encoding/hex
abbrev pub hex_digit : ℕ → ℕ
hex_digit n = if ltb n 10 then 48 + n else 87 + n

unfoldable pub encode_hex : ByteString → ByteString
encode_hex [] = []
encode_hex (b ∷ bs) = hex_digit (b / 16) ∷ hex_digit (b % 16) ∷ encode_hex bs

unfoldable pub hex_value : ℕ → Option ℕ
hex_value c =
    if leb 48 c && leb c 57
    then some (c - 48)
    else if leb 97 c && leb c 102
    then some (c - 87)
    else if leb 65 c && leb c 70
    then some (c - 55)
    else none

unfoldable pub decode_hex : ByteString → Result ByteString
unfolding hex_value
decode_hex [] = ok []
decode_hex (c ∷ []) = err foreign
decode_hex (c ∷ d ∷ rest) = do
  high ← of_option foreign (hex_value c)
  low ← of_option foreign (hex_value d)
  later ← decode_hex rest
  ok ((high * 16 + low) ∷ later)

-- strconv in base 10: a number in digits, on fuel above it, and back, of 32 bits.
unfoldable pub decimal_from : ℕ → ℕ → ByteString → ByteString
decimal_from zero n found = found
decimal_from (suc fuel) n found =
    let more = decimal_from fuel (n / 10) ((48 + n % 10) ∷ found) in
    if ltb n 10 then (48 + n % 10) ∷ found else more

unfoldable pub decimal : ℕ → ByteString
unfolding decimal_from
decimal n = decimal_from (n + 1) n []

abbrev pub is_digit : ℕ → Bool
is_digit c = leb 48 c && leb c 57

abbrev pub all_digits : ByteString → Bool
all_digits [] = true
all_digits (c ∷ cs) = is_digit c && all_digits cs

unfoldable pub digits_value : ℕ → ByteString → ℕ
digits_value value [] = value
digits_value value (c ∷ cs) = digits_value (value * 10 + (c - 48)) cs

unfoldable pub parse_below : ℕ → ByteString → Result ℕ
unfolding digits_value
parse_below limit text =
    if not (length text == 0) && (all_digits text && ltb (digits_value 0 text) limit)
    then ok (digits_value 0 text)
    else err foreign
