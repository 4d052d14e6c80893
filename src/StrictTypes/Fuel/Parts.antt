-- ===== src/StrictTypes/Fuel/Parts.antt =====
-- The parts of a value in strict_types/decode.go, with fuel above the height of their types.
use rgb.Prelude.{
  ℕ, zero, suc, ◌<◌, ◌≡◌, arith, Bool, true, false, not, Option, none, some, List, [], ◌∷◌, Result,
  ok, guard, unknown_variant, non_canonical, foreign, String, ◌>>◌,
}
use rgb.Prelude.Bytes.{ByteString}
use rgb.Prelude.Keyed.{contains, bytes_eq_instance}
use rgb.Consensus.TaggedHash.{Hash}
use rgb.StrictEncoding.Decoder
use rgb.StrictEncoding.Decoder.{Decoder, width}
use rgb.StrictTypes.Value.{Value}
use rgb.StrictTypes.Unicode.{utf8_valid}
use rgb.StrictTypes.ParsedType.{
  TypeRef, Refs, Members, Registry, Restricted, ref_is_char_enum, ref_enum_has_tag,
  restricted_string, ref_is_unicode, no_refs, ref_cons, no_members, member_cons,
}
use rgb.StrictTypes.Decode.{
  follows, bytes_read, decode_length, decode_raw, decode_refs, decode_tuple_as, decode_members,
  decode_count, decode_array_of, decode_enum_list, decode_text_list, decode_list_of, decode_sorted,
  decode_pairs, all_have_tag, check_restricted,
}
use rgb.StrictTypes.Fuel.Depth.{
  Shallow, ok-Shallow, chain-Shallow, guard-Shallow, ref_height, refs_height, members_height,
  IsStratified,
}
use rgb.StrictTypes.Fuel.Leaves.{
  raw-Shallow, length-Shallow, bytes-Shallow, foreign≢too_deep, unknown≢too_deep,
  canonical≢too_deep,
}
use rgb.StrictTypes.Fuel.Texts.{char_enum-Shallow, has_tag-Shallow, string_below}

module _ (sha256 : Hash) (registry : Registry) (heights : registry.Lib → String → ℕ)
    (strata : IsStratified registry heights) (n : ℕ)
    (decode : registry.Lib → TypeRef → Decoder Value)
    (low : (lib : registry.Lib) (ref : TypeRef) (input : ByteString)
      → ref_height registry heights lib ref < n
      → Shallow (decode lib ref input)) where
  pub tags-Shallow :
      (lib : registry.Lib) (ref : TypeRef) (chars : ByteString)
      → ref_height registry heights lib ref < n
      → Shallow (all_have_tag sha256 registry n lib ref chars)
  unfolding all_have_tag
  tags-Shallow lib ref [] h = ok-Shallow tt
  tags-Shallow lib ref (char ∷ chars) h =
      chain-Shallow (ref_enum_has_tag registry n lib ref char)
        (has_tag-Shallow registry heights strata n lib ref char h)
        (λ known _.
          chain-Shallow (guard known unknown_variant)
            (guard-Shallow known unknown_variant unknown≢too_deep)
            (λ _ _. tags-Shallow lib ref chars h))

  pub restricted-Shallow :
      (lib : registry.Lib) (refs : Refs) (r : Restricted registry.Lib) (raw : ByteString)
      → refs_height registry heights lib refs < n
      → ref_height registry heights r.rest_lib r.rest_ref < n
      → Shallow (check_restricted sha256 registry n lib refs r raw)
  unfolding check_restricted refs_height
  restricted-Shallow lib no_refs r raw h k = λ e. unknown≢too_deep (cc)
  restricted-Shallow lib (ref_cons first rest) r [] h k = λ e. unknown≢too_deep (cc)
  restricted-Shallow lib (ref_cons first rest) r (char ∷ chars) h k =
      chain-Shallow (ref_enum_has_tag registry n lib first char)
        (has_tag-Shallow registry heights strata n lib first char (omega arith))
        (λ known _.
          chain-Shallow (guard known unknown_variant)
            (guard-Shallow known unknown_variant unknown≢too_deep)
            (λ _ _. tags-Shallow r.rest_lib r.rest_ref chars k))

  pub refs-Shallow :
      (lib : registry.Lib) (refs : Refs) (input : ByteString)
      → refs_height registry heights lib refs < n
      → Shallow (decode_refs sha256 registry n decode lib refs input)
  unfolding decode_refs refs_height
  refs-Shallow lib no_refs input h = ok-Shallow _
  refs-Shallow lib (ref_cons ref refs) input h =
      chain-Shallow (decode lib ref input) (low lib ref input (omega arith)) (λ a _.
        chain-Shallow (decode_refs sha256 registry n decode lib refs a.1)
          (refs-Shallow lib refs a.1 (omega arith)) (λ b _. ok-Shallow _))

  pub members-Shallow :
      (lib : registry.Lib) (ms : Members) (input : ByteString)
      → members_height registry heights lib ms < n
      → Shallow (decode_members sha256 registry n decode lib ms input)
  unfolding decode_members members_height
  members-Shallow lib no_members input h = ok-Shallow _
  members-Shallow lib (member_cons name ref ms) input h =
      chain-Shallow (decode lib ref input) (low lib ref input (omega arith)) (λ a _.
        chain-Shallow (decode_members sha256 registry n decode lib ms a.1)
          (members-Shallow lib ms a.1 (omega arith)) (λ b _. ok-Shallow _))

  pub count-Shallow :
      (k : ℕ) (lib : registry.Lib) (ref : TypeRef) (input : ByteString)
      → ref_height registry heights lib ref < n
      → Shallow (decode_count sha256 registry n decode k lib ref input)
  unfolding decode_count
  count-Shallow zero lib ref input h = ok-Shallow _
  count-Shallow (suc k) lib ref input h =
      chain-Shallow (decode lib ref input) (low lib ref input h) (λ a _.
        chain-Shallow (decode_count sha256 registry n decode k lib ref a.1)
          (count-Shallow k lib ref a.1 h) (λ b _. ok-Shallow _))

  pub canonical-Shallow :
      (found : List ByteString) (previous : Option Value) (v : Value) (read : ByteString)
      {A : Type 0} (m : Result A)
      → Shallow m
      → Shallow (
          guard (not (contains found read)) non_canonical
          >> (guard (follows sha256 previous v) non_canonical >> m))
  canonical-Shallow found previous v read m h =
      chain-Shallow (guard (not (contains found read)) non_canonical)
        (guard-Shallow _ non_canonical canonical≢too_deep)
        (λ _ _.
          chain-Shallow (guard (follows sha256 previous v) non_canonical)
            (guard-Shallow _ non_canonical canonical≢too_deep) (λ _ _. h))

  pub sorted-Shallow :
      (k : ℕ) (lib : registry.Lib) (ref : TypeRef) (found : List ByteString)
      (previous : Option Value) (input : ByteString)
      → ref_height registry heights lib ref < n
      → Shallow (decode_sorted sha256 registry n decode k lib ref found previous input)
  unfolding decode_sorted
  sorted-Shallow zero lib ref found previous input h = ok-Shallow _
  sorted-Shallow (suc k) lib ref found previous input h =
      chain-Shallow (decode lib ref input) (low lib ref input h) (λ a _.
        let found' = bytes_read input a.1 ∷ found in
        canonical-Shallow found previous a.0 (bytes_read input a.1) _ (
          chain-Shallow (decode_sorted sha256 registry n decode k lib ref found' (some a.0) a.1)
            (sorted-Shallow k lib ref found' (some a.0) a.1 h) (λ b _. ok-Shallow _)))

  pub pairs-Shallow :
      (k : ℕ) (lib : registry.Lib) (key_ref value_ref : TypeRef) (found : List ByteString)
      (previous : Option Value) (input : ByteString)
      → ref_height registry heights lib key_ref < n
      → ref_height registry heights lib value_ref < n
      → Shallow (decode_pairs sha256 registry n decode k lib key_ref value_ref found previous input)
  unfolding decode_pairs
  pairs-Shallow zero lib key_ref value_ref found previous input h h' = ok-Shallow _
  pairs-Shallow (suc k) lib key_ref value_ref found previous input h h' =
      chain-Shallow (decode lib key_ref input) (low lib key_ref input h) (λ a _.
        let found' = bytes_read input a.1 ∷ found in
        canonical-Shallow found previous a.0 (bytes_read input a.1) _ (
          chain-Shallow (decode lib value_ref a.1) (low lib value_ref a.1 h') (λ v _.
            chain-Shallow
              (decode_pairs sha256 registry n decode k lib key_ref value_ref found' (some a.0) v.1)
              (pairs-Shallow k lib key_ref value_ref found' (some a.0) v.1 h h')
              (λ b _. ok-Shallow _))))

  pub tuple_as-Shallow :
      (r : Option (Restricted registry.Lib)) (lib : registry.Lib) (refs : Refs) (input : ByteString)
      → restricted_string registry n lib refs ≡ ok r
      → refs_height registry heights lib refs < n
      → Shallow (decode_tuple_as sha256 registry n decode r lib refs input)
  unfolding decode_tuple_as
  tuple_as-Shallow (some r) lib refs input known h =
      chain-Shallow (decode_raw r.min r.max input) (bytes-Shallow r.min r.max input) (λ a _.
        chain-Shallow (check_restricted sha256 registry n lib refs r a.0)
          (restricted-Shallow lib refs r a.0 h
            (string_below registry heights strata n lib refs r h known))
          (λ _ _. ok-Shallow _))
  tuple_as-Shallow none lib refs input known h =
      chain-Shallow (decode_refs sha256 registry n decode lib refs input)
        (refs-Shallow lib refs input h) (λ a _. ok-Shallow _)

  pub array_of-Shallow :
      (bytes : Bool) (lib : registry.Lib) (ref : TypeRef) (count : ℕ) (input : ByteString)
      → ref_height registry heights lib ref < n
      → Shallow (decode_array_of sha256 registry n decode bytes lib ref count input)
  unfolding decode_array_of
  array_of-Shallow true lib ref count input h =
      chain-Shallow (Decoder.raw count input) (raw-Shallow count input) (λ a _. ok-Shallow _)
  array_of-Shallow false lib ref count input h =
      chain-Shallow (decode_count sha256 registry n decode count lib ref input)
        (count-Shallow count lib ref input h) (λ a _. ok-Shallow _)

  pub enum_list-Shallow :
      (is_enum : Bool) (lib : registry.Lib) (ref : TypeRef) (least most : ℕ) (input : ByteString)
      → ref_height registry heights lib ref < n
      → Shallow (decode_enum_list sha256 registry n decode is_enum lib ref least most input)
  unfolding decode_enum_list
  enum_list-Shallow true lib ref least most input h =
      chain-Shallow (decode_raw least most input) (bytes-Shallow least most input) (λ a _.
        chain-Shallow (all_have_tag sha256 registry n lib ref a.0) (tags-Shallow lib ref a.0 h)
          (λ _ _. ok-Shallow _))
  enum_list-Shallow false lib ref least most input h =
      chain-Shallow (decode_length least most input) (length-Shallow least most input) (λ a _.
        chain-Shallow (decode_count sha256 registry n decode a.0 lib ref a.1)
          (count-Shallow a.0 lib ref a.1 h) (λ b _. ok-Shallow _))

  pub text_list-Shallow :
      (is_unicode : Bool) (lib : registry.Lib) (ref : TypeRef) (least most : ℕ) (input : ByteString)
      → ref_height registry heights lib ref < n
      → Shallow (decode_text_list sha256 registry n decode is_unicode lib ref least most input)
  unfolding decode_text_list
  text_list-Shallow true lib ref least most input h =
      chain-Shallow (decode_raw least most input) (bytes-Shallow least most input) (λ a _.
        chain-Shallow (guard (utf8_valid a.0) foreign) (guard-Shallow _ foreign foreign≢too_deep)
          (λ _ _. ok-Shallow _))
  text_list-Shallow false lib ref least most input h =
      chain-Shallow (ref_is_char_enum registry n lib ref)
        (char_enum-Shallow registry heights strata n lib ref h)
        (λ is_enum _. enum_list-Shallow is_enum lib ref least most input h)

  pub list_of-Shallow :
      (is_byte : Bool) (lib : registry.Lib) (ref : TypeRef) (least most : ℕ) (input : ByteString)
      → ref_height registry heights lib ref < n
      → Shallow (decode_list_of sha256 registry n decode is_byte lib ref least most input)
  unfolding decode_list_of
  list_of-Shallow true lib ref least most input h =
      chain-Shallow (decode_raw least most input) (bytes-Shallow least most input)
        (λ a _. ok-Shallow _)
  list_of-Shallow false lib ref least most input h =
      text_list-Shallow (ref_is_unicode registry lib ref) lib ref least most input h
