-- ===== src/StrictTypes/Unicode.antt =====
-- `utf8.Valid` and `utf8.RuneCount` of a valid text.
use rgb.Prelude.{
  ℕ, zero, suc, ◌+◌, Bool, true, false, ◌&&◌, Option, none, some, [], ◌∷◌, ltb, leb, if◌then◌else◌,
}
use rgb.Prelude.Bytes.{ByteString}

-- After a first byte: how many bytes follow, and the range of the next one.
pub record Pending : Type 0 where
  pub count : ℕ
  pub low : ℕ
  pub high : ℕ

abbrev pub pending : ℕ → ℕ → ℕ → Option Pending
pending count low high = some (record { count = count; low = low; high = high })

unfoldable pub first_byte : ℕ → Option Pending
first_byte b =
    if ltb b 0x80
    then pending 0 0x80 0xbf
    else if ltb b 0xc2
    then none
    else if ltb b 0xe0
    then pending 1 0x80 0xbf
    else if ltb b 0xe1
    then pending 2 0xa0 0xbf
    else if ltb b 0xed
    then pending 2 0x80 0xbf
    else if ltb b 0xee
    then pending 2 0x80 0x9f
    else if ltb b 0xf0
    then pending 2 0x80 0xbf
    else if ltb b 0xf1
    then pending 3 0x90 0xbf
    else if ltb b 0xf4
    then pending 3 0x80 0xbf
    else if ltb b 0xf5
    then pending 3 0x80 0x8f
    else none

unfoldable pub valid_from : ℕ → ℕ → ℕ → ByteString → Bool
unfolding first_byte
valid_from zero low high [] = true
valid_from (suc n) low high [] = false
valid_from zero low high (b ∷ bs) = elim (first_byte b) [
  | none ↦ false
  | some p ↦ valid_from p.count p.low p.high bs
]
valid_from (suc n) low high (b ∷ bs) = (leb low b && leb b high) && valid_from n 0x80 0xbf bs

unfoldable pub utf8_valid : ByteString → Bool
unfolding valid_from
utf8_valid raw = valid_from 0 0 0 raw

-- The bytes that start a character.
unfoldable pub rune_count : ByteString → ℕ
rune_count [] = 0
rune_count (b ∷ bs) = (if leb 0x80 b && ltb b 0xc0 then 0 else 1) + rune_count bs
