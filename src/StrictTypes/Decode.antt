-- ===== src/StrictTypes/Decode.antt =====
-- strict_types/decode.go. A type's definition may be deep: `fuel` bounds the nesting, and running
-- out of it is the error `too_deep`, which the code does not have.
mod Leaves
use Prim.Native.Nat.{Ordering}
use rgb.Prelude.{
  ℕ, zero, suc, ◌*◌, ◌/◌, ◌^◌, ◌-◌, Bool, true, false, not, ◌||◌, Option, none, some, List, [], ◌∷◌,
  ltb, leb, ◌==◌, if◌then◌else◌, length as size, take, Result, ok, err, guard, of_option,
  unknown_variant, non_canonical, too_deep, out_of_bounds, trailing_data, foreign, ◌>>=◌, ◌>>◌,
  String,
}
use rgb.Prelude.Bytes.{ByteString, get_le}
use rgb.Prelude.Keyed.{contains, bytes_eq_instance}
use rgb.Consensus.TaggedHash.{Hash}
use rgb.StrictEncoding.Decoder
use rgb.StrictEncoding.Decoder.{Decoder}
use rgb.StrictTypes.Text.{string_of}
use rgb.StrictTypes.Value.{
  Value, node, nil, pointer, Fields, no_fields, field_cons, Items, no_items, item_cons, Entries,
  no_entries, entry_cons, Attributes, Kind,
}
use rgb.StrictTypes.Compare.{compare_value}
use rgb.StrictTypes.Unicode.{utf8_valid}
use rgb.StrictTypes.ParsedType.{
  TypeRef, ParsedType, Refs, Members, Variants, Registry, Restricted, resolve, primitive_size,
  ref_is_primitive, ref_is_unicode, ref_is_char_enum, ref_enum_has_tag, restricted_string, inline,
  primitive, unicode, enum, union, tuple, struct, array, list, set, map, no_refs, ref_cons,
  no_members, member_cons, no_variants, variant_cons,
}
pub use rgb.StrictTypes.Decode.Leaves.{
  blank, leaf, set_encoded, bytes_read, name_of_tag, variant_of_tag, follows,
}
unfoldable pub use rgb.StrictTypes.Decode.Leaves.{
  little_endian_int, number_of, decode_primitive, unicode_width, text_value_of, decode_unicode,
  decode_enum, decode_length, decode_raw,
}

module _ (sha256 : Hash) (registry : Registry) where
  unfoldable pub all_have_tag : ℕ → registry.Lib → TypeRef → ByteString → Result (Unit {0})
  unfolding ref_enum_has_tag
  all_have_tag n lib ref [] = ok tt
  all_have_tag n lib ref (char ∷ chars) = do
    known ← ref_enum_has_tag registry n lib ref char
    guard known unknown_variant
    all_have_tag n lib ref chars

  -- The first character, then the others.
  unfoldable pub check_restricted :
      ℕ → registry.Lib → Refs → Restricted registry.Lib → ByteString → Result (Unit {0})
  unfolding ref_enum_has_tag all_have_tag
  check_restricted n lib (ref_cons first rest) r (char ∷ chars) = do
    known ← ref_enum_has_tag registry n lib first char
    guard known unknown_variant
    all_have_tag n r.rest_lib r.rest_ref chars
  check_restricted n lib refs r raw = err unknown_variant

  -- `decode` decodes the parts, one level further down.
  module _ (n : ℕ) (decode : registry.Lib → TypeRef → Decoder Value) where
    unfoldable pub decode_union : registry.Lib → Variants → Decoder Value
    unfolding Decoder.u8
    decode_union lib variants input = do
      (tag, rest) ← Decoder.u8 input
      variant ← of_option unknown_variant (variant_of_tag tag variants)
      (v, rest') ← decode lib variant.1 rest
      ok (
        node (record (blank Kind.union) { name = variant.0; tag = tag }) (pointer v) no_fields
            no_items no_entries,
        rest',
      )

    unfoldable pub decode_refs : registry.Lib → Refs → Decoder Items
    decode_refs lib no_refs input = ok (no_items, input)
    decode_refs lib (ref_cons ref refs) input = do
      (v, rest) ← decode lib ref input
      (l, rest') ← decode_refs lib refs rest
      ok (item_cons v l, rest')

    unfoldable pub decode_tuple_as :
        Option (Restricted registry.Lib) → registry.Lib → Refs → Decoder Value
    unfolding decode_raw check_restricted decode_refs text_value_of
    decode_tuple_as (some r) lib refs input = do
      (raw, rest) ← decode_raw r.min r.max input
      check_restricted n lib refs r raw
      ok (text_value_of raw, rest)
    decode_tuple_as none lib refs input = do
      (l, rest) ← decode_refs lib refs input
      ok (node (blank Kind.tuple) nil no_fields l no_entries, rest)

    unfoldable pub decode_tuple : registry.Lib → Refs → Decoder Value
    unfolding restricted_string decode_tuple_as
    decode_tuple lib refs input = do
      restricted ← restricted_string registry n lib refs
      decode_tuple_as restricted lib refs input

    unfoldable pub decode_members : registry.Lib → Members → Decoder Fields
    decode_members lib no_members input = ok (no_fields, input)
    decode_members lib (member_cons name ref members) input = do
      (v, rest) ← decode lib ref input
      (f, rest') ← decode_members lib members rest
      ok (field_cons name v f, rest')

    unfoldable pub decode_struct : registry.Lib → Members → Decoder Value
    unfolding decode_members
    decode_struct lib members input = do
      (f, rest) ← decode_members lib members input
      ok (node (blank Kind.struct) nil f no_items no_entries, rest)

    unfoldable pub decode_count : ℕ → registry.Lib → TypeRef → Decoder Items
    decode_count zero lib ref input = ok (no_items, input)
    decode_count (suc k) lib ref input = do
      (v, rest) ← decode lib ref input
      (l, rest') ← decode_count k lib ref rest
      ok (item_cons v l, rest')

    -- An array of bytes, or of other values.
    unfoldable pub decode_array_of : Bool → registry.Lib → TypeRef → ℕ → Decoder Value
    unfolding Decoder.raw decode_count
    decode_array_of true lib ref count input = do
      (raw, rest) ← Decoder.raw count input
      ok (leaf (record (blank Kind.bytes) { raw = raw }), rest)
    decode_array_of false lib ref count input = do
      (l, rest) ← decode_count count lib ref input
      ok (node (blank Kind.list) nil no_fields l no_entries, rest)

    unfoldable pub decode_array : registry.Lib → TypeRef → ℕ → Decoder Value
    unfolding ref_is_primitive decode_array_of
    decode_array lib ref = decode_array_of (ref_is_primitive registry lib ref 0x40) lib ref

    -- A list of bytes, characters or numbers of characters is one string of bytes: whether the parts
    -- are numbers of characters, characters, bytes.
    unfoldable pub decode_enum_list : Bool → registry.Lib → TypeRef → ℕ → ℕ → Decoder Value
    unfolding decode_raw decode_length decode_count all_have_tag text_value_of
    decode_enum_list true lib ref min max input = do
      (raw, rest) ← decode_raw min max input
      all_have_tag n lib ref raw
      ok (text_value_of raw, rest)
    decode_enum_list false lib ref min max input = do
      (count, rest) ← decode_length min max input
      (l, rest') ← decode_count count lib ref rest
      ok (node (blank Kind.list) nil no_fields l no_entries, rest')

    unfoldable pub decode_text_list : Bool → registry.Lib → TypeRef → ℕ → ℕ → Decoder Value
    unfolding ref_is_char_enum decode_raw decode_enum_list utf8_valid text_value_of
    decode_text_list true lib ref min max input = do
      (raw, rest) ← decode_raw min max input
      guard (utf8_valid raw) foreign
      ok (text_value_of raw, rest)
    decode_text_list false lib ref min max input = do
      is_enum ← ref_is_char_enum registry n lib ref
      decode_enum_list is_enum lib ref min max input

    unfoldable pub decode_list_of : Bool → registry.Lib → TypeRef → ℕ → ℕ → Decoder Value
    unfolding ref_is_unicode decode_raw decode_text_list
    decode_list_of true lib ref min max input = do
      (raw, rest) ← decode_raw min max input
      ok (leaf (record (blank Kind.bytes) { raw = raw }), rest)
    decode_list_of false lib ref min max input =
        decode_text_list (ref_is_unicode registry lib ref) lib ref min max input

    unfoldable pub decode_list : registry.Lib → TypeRef → ℕ → ℕ → Decoder Value
    unfolding ref_is_primitive decode_list_of
    decode_list lib ref = decode_list_of (ref_is_primitive registry lib ref 0x40) lib ref

    -- The items of a set: none twice in its encoding, and each above the one before.
    unfoldable pub decode_sorted :
        ℕ → registry.Lib → TypeRef → List ByteString → Option Value → Decoder Items
    unfolding contains compare_value
    decode_sorted zero lib ref found previous input = ok (no_items, input)
    decode_sorted (suc k) lib ref found previous input = do
      (v, rest) ← decode lib ref input
      guard (not (contains found (bytes_read input rest))) non_canonical
      guard (follows sha256 previous v) non_canonical
      (l, rest') ← decode_sorted k lib ref (bytes_read input rest ∷ found) (some v) rest
      ok (item_cons v l, rest')

    unfoldable pub decode_set : registry.Lib → TypeRef → ℕ → ℕ → Decoder Value
    unfolding decode_length decode_sorted
    decode_set lib ref min max input = do
      (count, rest) ← decode_length min max input
      (l, rest') ← decode_sorted count lib ref [] none rest
      ok (node (blank Kind.set) nil no_fields l no_entries, rest')

    unfoldable pub decode_pairs :
        ℕ → registry.Lib → TypeRef → TypeRef → List ByteString → Option Value → Decoder Entries
    unfolding contains compare_value
    decode_pairs zero lib key_ref value_ref found previous input = ok (no_entries, input)
    decode_pairs (suc k) lib key_ref value_ref found previous input = do
      (key, rest) ← decode lib key_ref input
      guard (not (contains found (bytes_read input rest))) non_canonical
      guard (follows sha256 previous key) non_canonical
      (v, rest') ← decode lib value_ref rest
      (m, rest'') ←
          decode_pairs k lib key_ref value_ref (bytes_read input rest ∷ found) (some key) rest'
      ok (entry_cons key v m, rest'')

    unfoldable pub decode_map : registry.Lib → TypeRef → TypeRef → ℕ → ℕ → Decoder Value
    unfolding decode_length decode_pairs
    decode_map lib key_ref value_ref min max input = do
      (count, rest) ← decode_length min max input
      (m, rest') ← decode_pairs count lib key_ref value_ref [] none rest
      ok (node (blank Kind.map) nil no_fields no_items m, rest')

    unfoldable pub decode_body : registry.Lib → ParsedType → Decoder Value
    unfolding decode_primitive decode_unicode decode_enum decode_union decode_tuple decode_struct
        decode_array decode_list decode_set decode_map
    decode_body lib (primitive p) = decode_primitive p
    decode_body lib unicode = decode_unicode
    decode_body lib (enum variants) = decode_enum variants
    decode_body lib (union variants) = decode_union lib variants
    decode_body lib (tuple refs) = decode_tuple lib refs
    decode_body lib (struct members) = decode_struct lib members
    decode_body lib (array ref count) = decode_array lib ref count
    decode_body lib (list ref min max) = decode_list lib ref min max
    decode_body lib (set ref min max) = decode_set lib ref min max
    decode_body lib (map key_ref value_ref min max) = decode_map lib key_ref value_ref min max

  -- Every value keeps the bytes that it was read from.
  unfoldable pub decode_ref : ℕ → registry.Lib → TypeRef → Decoder Value
  unfolding decode_body resolve
  decode_ref zero lib ref input = err too_deep
  decode_ref (suc n) lib ref input = do
    found ← resolve registry lib ref
    (v, rest) ← decode_body n (decode_ref n) found.0 found.1 input
    ok (set_encoded (bytes_read input rest) v, rest)

  -- Registry.Decode: a type of a library, and nothing after it.
  unfoldable pub decode : ℕ → String → String → ByteString → Result Value
  unfolding decode_ref
  decode fuel library_name type_name content = do
    lib ← registry.library library_name
    t ← registry.named_type lib type_name
    (v, rest) ← decode_ref fuel lib (inline t) content
    guard (size rest == 0) trailing_data
    ok v
