-- ===== src/StrictTypes/Encode.antt =====
-- strict_types/encode.go, on the fuel of the decoder. An encoder takes what the buffer holds.
mod Leaves
use rgb.Prelude.{
  ℕ, zero, suc, ◌%◌, ◌^◌, ◌-◌, Bool, true, false, not, ◌&&◌, ◌||◌, Option, none, some, List, [],
  ◌∷◌, ltb, leb, ◌==◌, if◌then◌else◌, length as size, take, replicate, Result, ok, err, guard,
  of_option, malformed_type, unknown_variant, non_canonical, too_deep, out_of_bounds, foreign,
  ◌>>=◌, ◌>>◌, String, str_eq,
}
use rgb.Prelude.Bytes.{ByteString, put_le, codes}
use rgb.Consensus.TaggedHash.{Hash}
use rgb.StrictEncoding.Encoder
use rgb.StrictEncoding.Encoder.{Encoder}
use rgb.StrictTypes.Value.{
  Value, node, pointee, Fields, no_fields, field_cons, Items, no_items, item_cons, Entries,
  no_entries, entry_cons, Attributes, Kind, kind_eq, kind, attributes, inner, unwrap,
}
use rgb.StrictTypes.Compare.{compare_value, fields, entry_count}
use rgb.StrictTypes.Unicode.{utf8_valid, rune_count}
use rgb.StrictTypes.ParsedType.{
  TypeRef, ParsedType, Refs, Members, Variants, Registry, Restricted, resolve, primitive_size,
  ref_is_primitive, ref_is_unicode, ref_is_char_enum, restricted_string, inline, primitive, unicode,
  enum, union, tuple, struct, array, list, set, map, no_refs, ref_cons, no_members, member_cons,
  no_variants, variant_cons,
}
use rgb.StrictTypes.Decode.{follows}
pub use rgb.StrictTypes.Encode.Leaves.{
  raw_items, raw_entries, item_count, field_count, ref_count, member_count, to_uint64, raw_text,
  list_bytes, named_tag, variant_named,
}
unfoldable pub use rgb.StrictTypes.Encode.Leaves.{
  number_bytes, raw_number, encode_primitive, encode_unicode, encode_enum, encode_raw,
}

module _ (sha256 : Hash) (registry : Registry) where
  -- Each item above the one before.
  unfoldable pub items_sorted : Option Value → Items → Bool
  unfolding compare_value
  items_sorted previous no_items = true
  items_sorted previous (item_cons v l) = follows sha256 previous v && items_sorted (some v) l

  unfoldable pub keys_sorted : Option Value → Entries → Bool
  unfolding compare_value
  keys_sorted previous no_entries = true
  keys_sorted previous (entry_cons k v m) = follows sha256 previous k && keys_sorted (some k) m

  module _ (n : ℕ) (encode : registry.Lib → TypeRef → Value → Encoder) where
    unfoldable pub encode_union : registry.Lib → Variants → Value → Encoder
    unfolding unwrap Encoder.u8
    encode_union lib variants value buf =
        let w = unwrap value in
        do
          guard (kind_eq (kind w) Kind.union) malformed_type
          v ← of_option malformed_type (pointee (inner w))
          ref ←
              of_option unknown_variant
                (variant_named (attributes w).tag (attributes w).name variants)
          buf' ← Encoder.u8 (attributes w).tag buf
          encode lib ref v buf'

    unfoldable pub encode_refs : registry.Lib → Refs → Items → Encoder
    encode_refs lib (ref_cons ref refs) (item_cons v l) buf = do
      buf' ← encode lib ref v buf
      encode_refs lib refs l buf'
    encode_refs lib _ l buf = ok buf

    unfoldable pub encode_plain_tuple : registry.Lib → Refs → Value → Encoder
    unfolding encode_refs unwrap
    encode_plain_tuple lib refs value buf =
        if kind_eq (kind value) Kind.tuple && item_count (raw_items value) == ref_count refs
        then encode_refs lib refs (raw_items value) buf
        else elim refs [
          | no_refs ↦ err malformed_type
          | ref_cons ref more ↦ elim more [
            | no_refs ↦ encode lib ref (unwrap value) buf
            | ref_cons _ _ ↦ err malformed_type
          ]
        ]

    unfoldable pub encode_tuple_as :
        Option (Restricted registry.Lib) → registry.Lib → Refs → Value → Encoder
    unfolding encode_raw encode_plain_tuple
    encode_tuple_as (some r) lib refs value buf = do
      guard (kind_eq (kind value) Kind.string) malformed_type
      encode_raw r.min r.max (raw_text (attributes value)) buf
    encode_tuple_as none lib refs value buf = encode_plain_tuple lib refs value buf

    unfoldable pub encode_tuple : registry.Lib → Refs → Value → Encoder
    unfolding restricted_string encode_tuple_as
    encode_tuple lib refs value buf = do
      restricted ← restricted_string registry n lib refs
      encode_tuple_as restricted lib refs value buf

    unfoldable pub encode_members : registry.Lib → Members → Fields → Encoder
    encode_members lib (member_cons name ref members) (field_cons label v f) buf = do
      guard (str_eq label name) malformed_type
      buf' ← encode lib ref v buf
      encode_members lib members f buf'
    encode_members lib _ f buf = ok buf

    unfoldable pub encode_struct : registry.Lib → Members → Value → Encoder
    unfolding unwrap encode_members
    encode_struct lib members value buf =
        let w = unwrap value in
        do
          guard (kind_eq (kind w) Kind.struct && field_count (fields w) == member_count members)
              malformed_type
          encode_members lib members (fields w) buf

    unfoldable pub encode_items : registry.Lib → TypeRef → Items → Encoder
    encode_items lib ref no_items buf = ok buf
    encode_items lib ref (item_cons v l) buf = do
      buf' ← encode lib ref v buf
      encode_items lib ref l buf'

    unfoldable pub encode_array_of : Bool → registry.Lib → TypeRef → ℕ → Value → Encoder
    unfolding unwrap encode_items Encoder.raw
    encode_array_of true lib ref count value buf = do
      guard (kind_eq (kind value) Kind.bytes && size (attributes value).raw == count) malformed_type
      Encoder.raw (attributes value).raw buf
    encode_array_of false lib ref count value buf =
        let w = unwrap value in
        do
          guard (kind_eq (kind w) Kind.list && item_count (raw_items w) == count) malformed_type
          encode_items lib ref (raw_items w) buf

    unfoldable pub encode_array : registry.Lib → TypeRef → ℕ → Value → Encoder
    unfolding ref_is_primitive encode_array_of
    encode_array lib ref = encode_array_of (ref_is_primitive registry lib ref 0x40) lib ref

    -- Bytes, characters, or numbers of characters.
    unfoldable pub is_text : registry.Lib → TypeRef → Result Bool
    unfolding ref_is_primitive ref_is_unicode ref_is_char_enum
    is_text lib ref =
        if ref_is_primitive registry lib ref 0x40 || ref_is_unicode registry lib ref
        then ok true
        else ref_is_char_enum registry n lib ref

    unfoldable pub encode_confined : Kind → Bool → registry.Lib → TypeRef → ℕ → ℕ → Value → Encoder
    unfolding encode_items Encoder.length
    encode_confined wanted sorted lib ref min max w buf =
        let count = item_count (raw_items w) in
        do
          guard (kind_eq (kind w) wanted && not (ltb count min || ltb max count)) out_of_bounds
          guard sorted non_canonical
          buf' ← Encoder.length count max buf
          encode_items lib ref (raw_items w) buf'

    unfoldable pub encode_list_as : Bool → registry.Lib → TypeRef → ℕ → ℕ → Value → Encoder
    unfolding encode_raw unwrap encode_confined
    encode_list_as true lib ref min max value buf = do
      guard (kind_eq (kind value) Kind.bytes || kind_eq (kind value) Kind.string) out_of_bounds
      encode_raw min max (list_bytes (attributes value)) buf
    encode_list_as false lib ref min max value buf =
        encode_confined Kind.list true lib ref min max (unwrap value) buf

    unfoldable pub encode_list : registry.Lib → TypeRef → ℕ → ℕ → Value → Encoder
    unfolding is_text encode_list_as
    encode_list lib ref min max value buf = do
      text ← is_text lib ref
      encode_list_as text lib ref min max value buf

    unfoldable pub encode_set : registry.Lib → TypeRef → ℕ → ℕ → Value → Encoder
    unfolding unwrap items_sorted encode_confined
    encode_set lib ref min max value buf =
        let w = unwrap value in
        encode_confined Kind.set (items_sorted none (raw_items w)) lib ref min max w buf

    unfoldable pub encode_pairs : registry.Lib → TypeRef → TypeRef → Entries → Encoder
    encode_pairs lib key_ref value_ref no_entries buf = ok buf
    encode_pairs lib key_ref value_ref (entry_cons k v m) buf = do
      buf' ← encode lib key_ref k buf
      buf'' ← encode lib value_ref v buf'
      encode_pairs lib key_ref value_ref m buf''

    unfoldable pub encode_map : registry.Lib → TypeRef → TypeRef → ℕ → ℕ → Value → Encoder
    unfolding unwrap keys_sorted encode_pairs Encoder.length
    encode_map lib key_ref value_ref min max value buf =
        let w = unwrap value in
        let count = entry_count (raw_entries w) in
        do
          guard (kind_eq (kind w) Kind.map && not (ltb count min || ltb max count)) out_of_bounds
          guard (keys_sorted none (raw_entries w)) non_canonical
          buf' ← Encoder.length count max buf
          encode_pairs lib key_ref value_ref (raw_entries w) buf'

    unfoldable pub encode_body : registry.Lib → ParsedType → Value → Encoder
    unfolding encode_primitive encode_unicode encode_enum encode_union encode_tuple encode_struct
        encode_array encode_list encode_set encode_map
    encode_body lib (primitive p) = encode_primitive p
    encode_body lib unicode = encode_unicode
    encode_body lib (enum variants) = encode_enum variants
    encode_body lib (union variants) = encode_union lib variants
    encode_body lib (tuple refs) = encode_tuple lib refs
    encode_body lib (struct members) = encode_struct lib members
    encode_body lib (array ref count) = encode_array lib ref count
    encode_body lib (list ref min max) = encode_list lib ref min max
    encode_body lib (set ref min max) = encode_set lib ref min max
    encode_body lib (map key_ref value_ref min max) = encode_map lib key_ref value_ref min max

  unfoldable pub encode_ref : ℕ → registry.Lib → TypeRef → Value → Encoder
  unfolding encode_body resolve
  encode_ref zero lib ref value buf = err too_deep
  encode_ref (suc n) lib ref value buf = do
    found ← resolve registry lib ref
    encode_body n (encode_ref n) found.0 found.1 value buf

  -- Registry.Encode
  unfoldable pub encode : ℕ → String → String → Value → Result ByteString
  unfolding encode_ref
  encode fuel library_name type_name value = do
    lib ← registry.library library_name
    t ← registry.named_type lib type_name
    encode_ref fuel lib (inline t) value []
