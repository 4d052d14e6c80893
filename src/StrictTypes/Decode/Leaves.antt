-- ===== src/StrictTypes/Decode/Leaves.antt =====
-- strict_types/decode.go: types without parts, lengths, and the order of keys.
use Prim.Native.Nat.{Ordering}
use rgb.Prelude.{
  ℕ, ◌*◌, ◌/◌, ◌^◌, ◌-◌, Bool, true, false, not, ◌||◌, Option, none, some, List, [], ◌∷◌, ltb, leb,
  ◌==◌, if◌then◌else◌, length as size, take, Result, ok, err, guard, of_option, unknown_variant,
  out_of_bounds, foreign, ◌>>=◌, ◌>>◌, String,
}
use rgb.Prelude.Bytes.{ByteString, get_le}
use rgb.Prelude.Keyed.{bytes_eq_instance}
use rgb.Consensus.TaggedHash.{Hash}
use rgb.StrictEncoding.Decoder
use rgb.StrictEncoding.Decoder.{Decoder}
use rgb.StrictTypes.Text.{string_of}
use rgb.StrictTypes.Value.{Value, node, nil, no_fields, no_items, no_entries, Attributes, Kind}
use rgb.StrictTypes.Compare.{compare_value}
use rgb.StrictTypes.Unicode.{utf8_valid}
use rgb.StrictTypes.ParsedType.{TypeRef, Variants, primitive_size, no_variants, variant_cons}

abbrev pub blank : Kind → Attributes
blank k = record {
  kind = k;
  encoded = [];
  primitive = 0;
  raw = [];
  unsigned = none;
  signed = none;
  text = "";
  name = "";
  tag = 0;
}

abbrev pub leaf : Attributes → Value
leaf a = node a nil no_fields no_items no_entries

abbrev pub set_encoded : ByteString → Value → Value
set_encoded bytes (node a i f l m) = node (record a { encoded = bytes }) i f l m

-- The bytes that were read between two states of the reader.
abbrev pub bytes_read : ByteString → ByteString → ByteString
bytes_read input rest = take (size input - size rest) input

unfoldable pub little_endian_int : ByteString → Bool × ℕ
unfolding get_le
little_endian_int raw =
    let bits = 8 * size raw in
    if leb (2 ^ (bits - 1)) (get_le raw) then (true, 2 ^ bits - get_le raw) else (false, get_le raw)

-- The numbers of a primitive: unsigned under the classes 0 and 2, signed under 1.
unfoldable pub number_of : ℕ → ByteString → Result Attributes
unfolding primitive_size little_endian_int get_le
number_of p raw =
    let base = record (blank Kind.number) { primitive = p; raw = raw } in
    if ltb 8 (primitive_size p)
    then ok base
    else if p == 0x40 || p / 64 == 0
    then ok (record base { unsigned = some (get_le raw) })
    else if p / 64 == 2
    then (if get_le raw == 0
        then err foreign
        else ok (record base { unsigned = some (get_le raw) }))
    else if p / 64 == 1
    then ok (record base { signed = some (little_endian_int raw) })
    else ok base

unfoldable pub decode_primitive : ℕ → Decoder Value
unfolding primitive_size Decoder.raw number_of
decode_primitive p input = if p == 0 then ok (leaf (blank Kind.unit), input) else (do
  guard (not (primitive_size p == 0)) foreign
  (raw, rest) ← Decoder.raw (primitive_size p) input
  a ← number_of p raw
  ok (leaf a, rest))

-- The width that the first byte of a character announces.
unfoldable pub unicode_width : ℕ → Option ℕ
unicode_width first =
    if ltb first 0x80
    then some 1
    else if first / 32 == 6
    then some 2
    else if first / 16 == 14
    then some 3
    else if first / 8 == 30
    then some 4
    else none

unfoldable pub text_value_of : ByteString → Value
unfolding string_of
text_value_of raw = leaf (record (blank Kind.string) { text = string_of raw; raw = raw })

unfoldable pub decode_unicode : Decoder Value
unfolding Decoder.u8 Decoder.raw unicode_width utf8_valid text_value_of
decode_unicode input = do
  (first, rest) ← Decoder.u8 input
  width ← of_option foreign (unicode_width first)
  (more, rest') ← Decoder.raw (width - 1) rest
  guard (utf8_valid (first ∷ more)) foreign
  ok (text_value_of (first ∷ more), rest')

abbrev pub name_of_tag : ℕ → List (String × ℕ) → Option String
name_of_tag wanted [] = none
name_of_tag wanted ((name, tag) ∷ rest) =
    let later = name_of_tag wanted rest in if tag == wanted then some name else later

unfoldable pub decode_enum : List (String × ℕ) → Decoder Value
unfolding Decoder.u8
decode_enum variants input = do
  (tag, rest) ← Decoder.u8 input
  name ← of_option unknown_variant (name_of_tag tag variants)
  ok (leaf (record (blank Kind.enum) { name = name; text = name; tag = tag }), rest)

abbrev pub variant_of_tag : ℕ → Variants → Option (String × TypeRef)
variant_of_tag wanted no_variants = none
variant_of_tag wanted (variant_cons name tag ref rest) =
    let later = variant_of_tag wanted rest in if tag == wanted then some (name, ref) else later

-- A length within its limits.
unfoldable pub decode_length : ℕ → ℕ → Decoder ℕ
unfolding Decoder.length
decode_length min max input = do
  (n, rest) ← Decoder.length max input
  if ltb n min then err out_of_bounds else ok (n, rest)

unfoldable pub decode_raw : ℕ → ℕ → Decoder ByteString
unfolding decode_length Decoder.raw
decode_raw min max input = do (n, rest) ← decode_length min max input; Decoder.raw n rest

-- Keys and set items follow one another.
abbrev pub follows : Hash → Option Value → Value → Bool
unfolding compare_value
follows sha256 none value = true
follows sha256 (some previous) value = elim (compare_value sha256 previous value) [
  | none ↦ false
  | some order ↦ elim order [ Ordering.lt ↦ true | Ordering.eq ↦ false | Ordering.gt ↦ false ]
]
