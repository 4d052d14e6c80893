-- ===== src/StrictTypes/Encode/Leaves.antt =====
-- strict_types/encode.go: types without parts.
use rgb.Prelude.{
  ℕ, suc, ◌%◌, ◌^◌, ◌-◌, Bool, true, false, not, ◌&&◌, ◌||◌, Option, none, some, List, [], ◌∷◌, ltb,
  leb, ◌==◌, if◌then◌else◌, length as size, take, replicate, ok, guard, malformed_type,
  unknown_variant, out_of_bounds, foreign, ◌>>=◌, ◌>>◌, String, str_eq,
}
use rgb.Prelude.Bytes.{ByteString, put_le, codes}
use rgb.StrictEncoding.Encoder
use rgb.StrictEncoding.Encoder.{Encoder}
use rgb.StrictTypes.Value.{
  Value, node, Fields, no_fields, field_cons, Items, no_items, item_cons, Entries, Attributes, Kind,
  kind_eq, attributes, unwrap,
}
use rgb.StrictTypes.Unicode.{utf8_valid, rune_count}
use rgb.StrictTypes.ParsedType.{
  TypeRef, Refs, Members, Variants, primitive_size, no_refs, ref_cons, no_members, member_cons,
  no_variants, variant_cons,
}

abbrev pub raw_items : Value → Items
raw_items (node a i f l m) = l

abbrev pub raw_entries : Value → Entries
raw_entries (node a i f l m) = m

abbrev pub item_count : Items → ℕ
item_count no_items = 0
item_count (item_cons v l) = suc (item_count l)

abbrev pub field_count : Fields → ℕ
field_count no_fields = 0
field_count (field_cons name v f) = suc (field_count f)

abbrev pub ref_count : Refs → ℕ
ref_count no_refs = 0
ref_count (ref_cons r refs) = suc (ref_count refs)

abbrev pub member_count : Members → ℕ
member_count no_members = 0
member_count (member_cons name r members) = suc (member_count members)

-- `uint64(signed)`
abbrev pub to_uint64 : Bool × ℕ → ℕ
to_uint64 (true, n) = (2 ^ 64 - n) % 2 ^ 64
to_uint64 (false, n) = n

-- The bytes of a number that has none.
unfoldable pub number_bytes : ℕ → Attributes → ByteString
unfolding put_le
number_bytes width a = elim a.unsigned [
  | some n ↦ take width (put_le 8 n)
  | none ↦ elim a.signed [ some n ↦ take width (put_le 8 (to_uint64 n)) | none ↦ replicate width 0 ]
]

unfoldable pub raw_number : ℕ → Attributes → ByteString
unfolding number_bytes
raw_number width a = if size a.raw == 0 && leb width 8 then number_bytes width a else a.raw

unfoldable pub encode_primitive : ℕ → Value → Encoder
unfolding unwrap primitive_size raw_number Encoder.raw
encode_primitive p value buf =
    let a = attributes (unwrap value) in
    if p == 0 then (do guard (kind_eq a.kind Kind.unit) malformed_type; ok buf) else (do
      guard (not (primitive_size p == 0) && kind_eq a.kind Kind.number) malformed_type
      guard (size (raw_number (primitive_size p) a) == primitive_size p) malformed_type
      Encoder.raw (raw_number (primitive_size p) a) buf)

-- The bytes of a text, or of its string when there are none.
abbrev pub raw_text : Attributes → ByteString
raw_text a = if size a.raw == 0 then codes a.text else a.raw

unfoldable pub encode_unicode : Value → Encoder
unfolding unwrap utf8_valid rune_count Encoder.raw
encode_unicode value buf =
    let a = attributes (unwrap value) in
    do
      guard
          (kind_eq a.kind Kind.string && (utf8_valid (raw_text a) && rune_count (raw_text a) == 1))
          foreign
      Encoder.raw (raw_text a) buf

-- The bytes of a list of bytes or characters.
abbrev pub list_bytes : Attributes → ByteString
list_bytes a = if size a.raw == 0 && kind_eq a.kind Kind.string then codes a.text else a.raw

abbrev pub named_tag : ℕ → String → List (String × ℕ) → Bool
named_tag wanted name [] = false
named_tag wanted name ((variant, tag) ∷ rest) =
    (tag == wanted && (str_eq name "" || str_eq name variant)) || named_tag wanted name rest

unfoldable pub encode_enum : List (String × ℕ) → Value → Encoder
unfolding unwrap Encoder.u8
encode_enum variants value buf =
    let a = attributes (unwrap value) in
    do
      guard (kind_eq a.kind Kind.enum) malformed_type
      guard (named_tag a.tag a.name variants) unknown_variant
      Encoder.u8 a.tag buf

abbrev pub variant_named : ℕ → String → Variants → Option TypeRef
variant_named wanted name no_variants = none
variant_named wanted name (variant_cons variant tag ref rest) =
    let later = variant_named wanted name rest in
    if tag == wanted && str_eq variant name then some ref else later

unfoldable pub encode_raw : ℕ → ℕ → ByteString → Encoder
unfolding Encoder.length Encoder.raw
encode_raw min max raw buf = do
  guard (not (ltb (size raw) min || ltb max (size raw))) out_of_bounds
  buf' ← Encoder.length (size raw) max buf
  Encoder.raw raw buf'
