-- ===== src/Formats/Base85RoundTrip.antt =====
-- What base85 of consignment/base85.go reads back, and how long its text is.
use rgb.Prelude.{
  ℕ, zero, suc, ◌+◌, ◌*◌, ◌/◌, ◌%◌, ◌^◌, ◌<◌, ◌≡◌, refl, ap, ◌∙◌, Bool, true, false, ◌&&◌, Option,
  none, some, [], ◌∷◌, ◌++◌, ◌==◌, if◌then◌else◌, length, All, Bool-cases, inl, inr, subst, take,
  ok, arith, guard-pass, not, of_option, base85_character, ◌>>=◌,
}
use rgb.Prelude.Bytes.{ByteString, IsByte, codes}
use rgb.Formats.Base85.{
  alphabet, char_at, block, encode_base85, index_from, decode_char, unblock, decode_groups,
  decode_base85,
}

-- Every digit is found at its own index.
abbrev is_at : ℕ → Option ℕ → Bool
is_at index none = false
is_at index (some found) = found == index

found_at : ℕ → Bool
unfolding index_from
found_at index = is_at index (index_from 0 (codes alphabet) (char_at (codes alphabet) index))

all_below : (ℕ → Bool) → ℕ → Bool
all_below test zero = true
all_below test (suc n) = test n && all_below test n

all_below-at :
    (test : ℕ → Bool) (n index : ℕ) → index < n → all_below test n ≡ true → test index ≡ true
unfolding all_below
all_below-at test zero index h a = absurd (omega arith)
all_below-at test (suc n) index h a = elim (Bool-cases (n == index)) [
  | inl here ↦
      let same : n ≡ index = ground (arith, here) in
      subst (λ i. test i ≡ true) same (ground (arith, a))
  | inr there ↦ all_below-at test n index (ground (arith, there, h)) (ground (arith, a))
]

all_85_found : all_below found_at 85 ≡ true
unfolding all_below found_at
all_85_found = refl

is_at-ok :
    (index : ℕ) (o : Option ℕ) → is_at index o ≡ true → of_option base85_character o ≡ ok index
is_at-ok index none h = absurd (cc)
is_at-ok index (some found) h = ground (arith, h)

decode-char_at : (index : ℕ) → index < 85 → decode_char (char_at (codes alphabet) index) ≡ ok index
unfolding decode_char found_at
decode-char_at index h =
    is_at-ok index (index_from 0 (codes alphabet) (char_at (codes alphabet) index))
      (all_below-at found_at 85 index h all_85_found)

abbrev char_of : ℕ → ℕ
char_of v = char_at (codes alphabet) (v % 85)

decode-char_of : (v : ℕ) → decode_char (char_of v) ≡ ok (v % 85)
decode-char_of v = decode-char_at (v % 85) (omega arith)

-- The five digits of a number.
abbrev shifted : ℕ → ℕ → ℕ
shifted zero v = v
shifted (suc k) v = shifted k v / 85

abbrev value_of : ℕ → ℕ → ℕ → ℕ → ℕ
value_of a b c d = ((a * 256 + b) * 256 + c) * 256 + d

abbrev chars : ℕ → ByteString
chars v =
    char_of (shifted 4 v)
    ∷ char_of (shifted 3 v)
    ∷ char_of (shifted 2 v)
    ∷ char_of (shifted 1 v)
    ∷ char_of v
    ∷ []

block-chars : (a b c d : ℕ) → block a b c d ≡ chars (value_of a b c d)
unfolding block
block-chars a b c d = refl

-- The bytes of a number, the first most significant.
abbrev word_bytes : ℕ → ByteString
word_bytes v = v / 2 ^ 24 ∷ v / 2 ^ 16 % 256 ∷ v / 2 ^ 8 % 256 ∷ v % 256 ∷ []

four_bytes :
    (a b c d : ℕ)
    → a < 256
    → b < 256
    → c < 256
    → d < 256
    → word_bytes (value_of a b c d) ≡ a ∷ b ∷ c ∷ d ∷ []
four_bytes a b c d ha hb hc hd = let (w, x, y, z) = parts in cc (w, x, y, z)
  where
    parts :
        (value_of a b c d / 2 ^ 24 ≡ a)
        × (value_of a b c d / 2 ^ 16 % 256 ≡ b)
        × (value_of a b c d / 2 ^ 8 % 256 ≡ c)
        × (value_of a b c d % 256 ≡ d)
    parts = omega arith

all_digits :
    (v : ℕ)
    → v < 2 ^ 32
    → (shifted 4 v % 85 * 85 ^ 4
          + shifted 3 v % 85 * 85 ^ 3
          + shifted 2 v % 85 * 85 ^ 2
          + shifted 1 v % 85 * 85
          + v % 85)
        % 2 ^ 32
      ≡ v
all_digits v h = omega arith

-- With the last digits at 84 the number grows, but by less than a byte that was kept.
one_byte :
    (a : ℕ)
    → a < 256
    → (shifted 4 (a * 2 ^ 24) % 85 * 85 ^ 4
          + shifted 3 (a * 2 ^ 24) % 85 * 85 ^ 3
          + 84 * 85 ^ 2
          + 84 * 85
          + 84)
        % 2 ^ 32
        / 2 ^ 24
      ≡ a
one_byte a h = omega arith

two_bytes :
    (v : ℕ)
    → v < 2 ^ 32
    → v % 2 ^ 16 ≡ 0
    → (w : ℕ)
    → w
      ≡ (shifted 4 v % 85 * 85 ^ 4
          + shifted 3 v % 85 * 85 ^ 3
          + shifted 2 v % 85 * 85 ^ 2
          + 84 * 85
          + 84)
        % 2 ^ 32
    → (w / 2 ^ 24 ≡ v / 2 ^ 24) × (w / 2 ^ 16 % 256 ≡ v / 2 ^ 16 % 256)
two_bytes v h k w e = omega arith

three_bytes :
    (v : ℕ)
    → v < 2 ^ 32
    → v % 2 ^ 8 ≡ 0
    → (w : ℕ)
    → w
      ≡ (shifted 4 v % 85 * 85 ^ 4
          + shifted 3 v % 85 * 85 ^ 3
          + shifted 2 v % 85 * 85 ^ 2
          + shifted 1 v % 85 * 85
          + 84)
        % 2 ^ 32
    → (w / 2 ^ 24 ≡ v / 2 ^ 24)
      × (w / 2 ^ 16 % 256 ≡ v / 2 ^ 16 % 256)
      × (w / 2 ^ 8 % 256 ≡ v / 2 ^ 8 % 256)
three_bytes v h k w e = omega arith

length-encode_mod : (bytes : ByteString) → length (encode_base85 bytes) % 5 ≡ 1 → ⊥
unfolding encode_base85
length-encode_mod [] h = omega arith
length-encode_mod (a ∷ []) h = omega arith
length-encode_mod (a ∷ b ∷ []) h = omega arith
length-encode_mod (a ∷ b ∷ c ∷ []) h = omega arith
length-encode_mod (a ∷ b ∷ c ∷ d ∷ rest) h = length-encode_mod rest (omega arith)

module _ (v : ℕ) where
  abbrev d4 : ℕ
  d4 = shifted 4 v % 85

  abbrev d3 : ℕ
  d3 = shifted 3 v % 85

  abbrev d2 : ℕ
  d2 = shifted 2 v % 85

  abbrev d1 : ℕ
  d1 = shifted 1 v % 85

  -- A group of characters is read as its digits.
  groups-chars :
      (rest : ByteString)
      → decode_groups (chars v ++ rest)
        ≡ (decode_groups rest >>= λ later. ok (unblock d4 d3 d2 d1 (v % 85) ++ later))
  unfolding decode_groups
  groups-chars rest = simp (
    decode-char_of (shifted 4 v),
    decode-char_of (shifted 3 v),
    decode-char_of (shifted 2 v),
    decode-char_of (shifted 1 v),
    decode-char_of v,
  )

  group-two : decode_groups (take 2 (chars v)) ≡ ok (take 1 (unblock d4 d3 84 84 84))
  unfolding decode_groups
  group-two = simp (decode-char_of (shifted 4 v), decode-char_of (shifted 3 v))

  group-three : decode_groups (take 3 (chars v)) ≡ ok (take 2 (unblock d4 d3 d2 84 84))
  unfolding decode_groups
  group-three =
      simp
        (decode-char_of (shifted 4 v), decode-char_of (shifted 3 v), decode-char_of (shifted 2 v))

  group-four : decode_groups (take 4 (chars v)) ≡ ok (take 3 (unblock d4 d3 d2 d1 84))
  unfolding decode_groups
  group-four = simp (
    decode-char_of (shifted 4 v),
    decode-char_of (shifted 3 v),
    decode-char_of (shifted 2 v),
    decode-char_of (shifted 1 v),
  )

full_block :
    (a b c d : ℕ)
    → a < 256
    → b < 256
    → c < 256
    → d < 256
    → unblock
        (d4 (value_of a b c d))
        (d3 (value_of a b c d))
        (d2 (value_of a b c d))
        (d1 (value_of a b c d))
        (value_of a b c d % 85)
      ≡ a ∷ b ∷ c ∷ d ∷ []
unfolding unblock
full_block a b c d ha hb hc hd =
    ap word_bytes (all_digits (value_of a b c d) (omega arith)) ∙ four_bytes a b c d ha hb hc hd

groups-empty : decode_groups [] ≡ ok []
unfolding decode_groups
groups-empty = refl

groups-encode :
    (bytes : ByteString) → All IsByte bytes → decode_groups (encode_base85 bytes) ≡ ok bytes
unfolding encode_base85 unblock
groups-encode [] h = groups-empty
groups-encode (a ∷ []) h =
    group-two (value_of a 0 0 0)
    ∙ ap (λ x. ok (x ∷ [])) (one_byte_of a (value_of a 0 0 0) (omega arith) h.0)
  where
    one_byte_of :
        (x v : ℕ)
        → v ≡ x * 2 ^ 24
        → x < 256
        → (d4 v * 85 ^ 4 + d3 v * 85 ^ 3 + 84 * 85 ^ 2 + 84 * 85 + 84) % 2 ^ 32 / 2 ^ 24 ≡ x
    one_byte_of x v e hx = omega arith
groups-encode (a ∷ b ∷ []) h =
    let ha = h.0 in
    let hb = h.1.0 in
    let v = value_of a b 0 0 in
    let bound : v < 2 ^ 32 = omega arith in
    let even : v % 2 ^ 16 ≡ 0 = omega arith in
    let (first, second) = two_bytes v bound even _ refl in
    let one : v / 2 ^ 24 ≡ a = omega arith in
    let two : v / 2 ^ 16 % 256 ≡ b = omega arith in group-three v ∙ cc (first, second, one, two)
groups-encode (a ∷ b ∷ c ∷ []) h =
    let ha = h.0 in
    let hb = h.1.0 in
    let hc = h.1.1.0 in
    let v = value_of a b c 0 in
    let bound : v < 2 ^ 32 = omega arith in
    let even : v % 2 ^ 8 ≡ 0 = omega arith in
    let (first, second, third) = three_bytes v bound even _ refl in
    let one : v / 2 ^ 24 ≡ a = omega arith in
    let two : v / 2 ^ 16 % 256 ≡ b = omega arith in
    let three : v / 2 ^ 8 % 256 ≡ c = omega arith in
    group-four v ∙ cc (first, second, third, one, two, three)
groups-encode (a ∷ b ∷ c ∷ d ∷ rest) h =
    let later = groups-encode rest h.1.1.1.1 in
    let block_bytes = full_block a b c d h.0 h.1.0 h.1.1.0 h.1.1.1.0 in
    groups-chars (value_of a b c d) (encode_base85 rest)
    ∙ ap
        (λ r. r >>= λ t. ok (
          unblock (d4 (value_of a b c d)) (d3 (value_of a b c d)) (d2 (value_of a b c d))
            (d1 (value_of a b c d)) (value_of a b c d % 85)
          ++ t))
        later
    ∙ ap (λ x. ok (x ++ rest)) block_bytes

-- What base85 encodes it decodes: a text that `encodeBase85` makes of bytes is read back by
-- `decodeBase85` as the same bytes, whatever the length of the last block.
pub decode-encode_base85 :
    (bytes : ByteString) → All IsByte bytes → decode_base85 (encode_base85 bytes) ≡ ok bytes
unfolding decode_base85
decode-encode_base85 bytes h =
    guard-pass (not (length (encode_base85 bytes) % 5 == 1)) _ _
      (whole (encode_base85 bytes) (length-encode_mod bytes))
    ∙ groups-encode bytes h
  where
    whole : (t : ByteString) → (length t % 5 ≡ 1 → ⊥) → not (length t % 5 == 1) ≡ true
    whole t n = elim (Bool-cases (length t % 5 == 1)) [
      | inl one ↦ absurd (n (ground (arith, one)))
      | inr other ↦ ground (arith, other)
    ]

-- The length of the text is known before it is made: five characters for four bytes, and for a
-- last block of one to three bytes one character more than it has bytes.
pub length-encode_base85 :
    (bytes : ByteString)
    → length (encode_base85 bytes)
      ≡ length bytes / 4 * 5 + (if length bytes % 4 == 0 then 0 else length bytes % 4 + 1)
unfolding encode_base85
length-encode_base85 [] = refl
length-encode_base85 (a ∷ []) = refl
length-encode_base85 (a ∷ b ∷ []) = refl
length-encode_base85 (a ∷ b ∷ c ∷ []) = refl
length-encode_base85 (a ∷ b ∷ c ∷ d ∷ rest) = ground (arith, length-encode_base85 rest)
