-- ===== src/Operations/Opout.antt =====
-- operations/opout.go: the text and the bytes of an operation's output. Its struct has the fields of an
-- input reference.
use rgb.Prelude.{
  ℕ, ◌^◌, ◌==◌, ◌<◌, ◌≤◌, ◌≡◌, refl, ap, ◌∙◌, true, false, List, [], ◌∷◌, ◌++◌, All, length,
  if◌then◌else◌, Result, ok, err, invalid_opout, guard, recast, then_ok, then_pass, ◌>>=◌, ◌>>◌,
  arith,
}
use rgb.Prelude.Bytes.{ByteString, IsByte}
use rgb.Schemas.Types.{InputRef}
use rgb.StrictEncoding.Encoder.{raw, u16}
use rgb.Formats.Text.{onto_first, encode_hex, hex_digit, decode_hex, decimal, parse_below}
use rgb.Formats.Numerals.{
  AreDigits, decimal_from-AreDigits, decode_hex-encode_hex, parse_below-decimal,
}

-- `strings.Split` at a single character.
unfoldable pub split_at : ℕ → ByteString → List ByteString
split_at separator [] = [] ∷ []
split_at separator (c ∷ cs) =
    let rest = split_at separator cs in if c == separator then [] ∷ rest else onto_first c rest

unfoldable pub opout_of : List ByteString → Result InputRef
unfolding decode_hex parse_below
opout_of (operation ∷ type ∷ number ∷ []) = do
  id ← recast invalid_opout (decode_hex operation)
  guard (length id == 32) invalid_opout
  type_id ← recast invalid_opout (parse_below (2 ^ 16) type)
  index ← recast invalid_opout (parse_below (2 ^ 16) number)
  ok (record { operation_id = id; assignment_type = type_id; index = index })
opout_of _ = err invalid_opout

-- `ParseOpout`
unfoldable pub parse_opout : ByteString → Result InputRef
unfolding split_at opout_of
parse_opout value = opout_of (split_at 47 value)

-- `String`
unfoldable pub opout_text : InputRef → ByteString
unfolding encode_hex decimal
opout_text o =
    encode_hex o.operation_id ++ (47 ∷ (decimal o.assignment_type ++ (47 ∷ decimal o.index)))

-- `StrictBytes`
unfoldable pub opout_bytes : InputRef → Result ByteString
unfolding raw u16
opout_bytes o = do
  first ← raw o.operation_id []
  second ← u16 o.assignment_type first
  u16 o.index second

abbrev IsAbove : ByteString → Type 0
IsAbove = All (λ c. 48 ≤ c)

not_slash : (c : ℕ) → 48 ≤ c → (c == 47) ≡ false
not_slash c h = ground arith

sized_id : (n : ℕ) → n ≡ 32 → (n == 32) ≡ true
sized_id n h = ground arith

digit-above : (n : ℕ) → 48 ≤ hex_digit n
digit-above n = ground arith

split_at-first :
    (name rest : ByteString)
    → IsAbove name
    → split_at 47 (name ++ (47 ∷ rest)) ≡ name ∷ split_at 47 rest
unfolding split_at
split_at-first [] rest h = refl
split_at-first (c ∷ cs) rest h =
    ap
      (λ b.
        if b
        then [] ∷ split_at 47 (cs ++ (47 ∷ rest))
        else onto_first c (split_at 47 (cs ++ (47 ∷ rest))))
      (not_slash c h.0)
    ∙ ap (λ l. onto_first c l) (split_at-first cs rest h.1)

split_at-last : (name : ByteString) → IsAbove name → split_at 47 name ≡ name ∷ []
unfolding split_at
split_at-last [] h = refl
split_at-last (c ∷ cs) h =
    ap (λ b. if b then [] ∷ split_at 47 cs else onto_first c (split_at 47 cs)) (not_slash c h.0)
    ∙ ap (λ l. onto_first c l) (split_at-last cs h.1)

hex-IsAbove : (bs : ByteString) → IsAbove (encode_hex bs)
unfolding encode_hex
hex-IsAbove [] = tt
hex-IsAbove (b ∷ bs) = (digit-above _, (digit-above _, hex-IsAbove bs))

digits-IsAbove : (w : ByteString) → AreDigits w → IsAbove w
digits-IsAbove [] h = tt
digits-IsAbove (c ∷ cs) h = (omega (arith, h.0), digits-IsAbove cs h.1)

decimal-IsAbove : (n : ℕ) → IsAbove (decimal n)
unfolding decimal
decimal-IsAbove n = digits-IsAbove _ (decimal_from-AreDigits _ n [] tt)

-- The pointers whose fields fit: an identifier of 32 bytes and two numbers of 16 bits.
pub record IsOpout (o : InputRef) : Type 0 where
  pub bytes : All IsByte o.operation_id
  pub sized : length o.operation_id ≡ 32
  pub type_fits : o.assignment_type < 2 ^ 16
  pub index_fits : o.index < 2 ^ 16

-- The text of a pointer parses to the pointer, whose identifier has 32 bytes and whose numbers have
-- 16 bits.
pub parse_opout-opout_text : (o : InputRef) → IsOpout o → parse_opout (opout_text o) ≡ ok o
unfolding parse_opout opout_text opout_of
parse_opout-opout_text o fits =
    let type = decimal o.assignment_type in
    let number = decimal o.index in
    ap opout_of (
      split_at-first (encode_hex o.operation_id) (type ++ (47 ∷ number))
        (hex-IsAbove o.operation_id)
      ∙ ap (λ l. encode_hex o.operation_id ∷ l)
          (split_at-first type number (decimal-IsAbove o.assignment_type))
      ∙ ap (λ l. encode_hex o.operation_id ∷ type ∷ l)
          (split_at-last number (decimal-IsAbove o.index)))
    ∙ parsed
  where
    parsed :
        opout_of (encode_hex o.operation_id ∷ decimal o.assignment_type ∷ decimal o.index ∷ [])
        ≡ ok o
    parsed =
        then_ok _ _
          (ap (λ r. recast invalid_opout r) (decode_hex-encode_hex o.operation_id fits.bytes))
          (then_pass _ _ _ (sized_id (length o.operation_id) fits.sized) (
            then_ok _ _
              (ap (λ r. recast invalid_opout r)
                (parse_below-decimal (2 ^ 16) o.assignment_type fits.type_fits))
              (then_ok _ _
                (ap (λ r. recast invalid_opout r)
                  (parse_below-decimal (2 ^ 16) o.index fits.index_fits))
                refl)))
