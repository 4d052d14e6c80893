-- ===== src/StrictTypes/Fuel/Deeper.antt =====
-- strict_types/decode.go with more fuel gives the same.
use rgb.Prelude.{
  ℕ, zero, suc, ◌+◌, ◌≡◌, refl, sym, ap, ◌∙◌, arith, Bool, true, false, not, Option, none, some,
  List, [], ◌∷◌, ok, guard, of_option, unknown_variant, non_canonical, String,
}
use rgb.Prelude.Bytes.{ByteString}
use rgb.Prelude.Keyed.{contains, bytes_eq_instance}
use rgb.Consensus.TaggedHash.{Hash}
use rgb.StrictEncoding.Decoder
use rgb.StrictEncoding.Decoder.{Decoder}
use rgb.StrictTypes.Value.{Value}
use rgb.StrictTypes.ParsedType.{
  TypeRef, ParsedType, Refs, Registry, Restricted, resolve, ref_is_char_enum, restricted_string,
  ref_is_primitive, ref_is_unicode, inline, primitive, unicode, enum, union, tuple, struct, array,
  list, set, map,
}
use rgb.StrictTypes.Decode.{
  follows, bytes_read, decode_length, decode_raw, variant_of_tag, decode_union, decode_refs,
  decode_tuple_as, decode_tuple, decode_members, decode_struct, decode_count, decode_array_of,
  decode_array, decode_enum_list, decode_text_list, decode_list_of, decode_list, decode_sorted,
  decode_set, decode_pairs, decode_map, decode_body, decode_ref, decode, all_have_tag,
  check_restricted,
}
use rgb.StrictTypes.Fuel.More.{
  Extends, same, chain, char_enum-Extends, string-Extends, tags-Extends, restricted-Extends,
  refs-Extends, members-Extends, count-Extends,
}

module _ (sha256 : Hash) (registry : Registry) (n : ℕ)
    (decode decode' : registry.Lib → TypeRef → Decoder Value)
    (more : (lib : registry.Lib) (ref : TypeRef) (input : ByteString)
      → Extends (decode lib ref input) (decode' lib ref input)) where
  sorted-Extends :
      (k : ℕ) (lib : registry.Lib) (ref : TypeRef) (found : List ByteString)
      (previous : Option Value) (input : ByteString)
      → Extends
          (decode_sorted sha256 registry n decode k lib ref found previous input)
          (decode_sorted sha256 registry (suc n) decode' k lib ref found previous input)
  unfolding decode_sorted
  sorted-Extends zero lib ref found previous input = same _
  sorted-Extends (suc k) lib ref found previous input =
      chain (decode lib ref input) (decode' lib ref input) (more lib ref input) (λ a.
        let found' = bytes_read input a.1 ∷ found in
        let fresh = guard (not (contains found (bytes_read input a.1))) non_canonical in
        let above = guard (follows sha256 previous a.0) non_canonical in
        chain fresh fresh (same _) (λ _. chain above above (same _) (λ _.
          chain (decode_sorted sha256 registry n decode k lib ref found' (some a.0) a.1)
            (decode_sorted sha256 registry (suc n) decode' k lib ref found' (some a.0) a.1)
            (sorted-Extends k lib ref found' (some a.0) a.1) (λ b. same _))))

  pairs-Extends :
      (k : ℕ) (lib : registry.Lib) (key_ref value_ref : TypeRef) (found : List ByteString)
      (previous : Option Value) (input : ByteString)
      → Extends
          (decode_pairs sha256 registry n decode k lib key_ref value_ref found previous input)
          (decode_pairs sha256 registry
            (suc n)
            decode'
            k
            lib
            key_ref
            value_ref
            found
            previous
            input)
  unfolding decode_pairs
  pairs-Extends zero lib key_ref value_ref found previous input = same _
  pairs-Extends (suc k) lib key_ref value_ref found previous input =
      chain (decode lib key_ref input) (decode' lib key_ref input) (more lib key_ref input) (λ a.
        let found' = bytes_read input a.1 ∷ found in
        let fresh = guard (not (contains found (bytes_read input a.1))) non_canonical in
        let above = guard (follows sha256 previous a.0) non_canonical in
        chain fresh fresh (same _) (λ _. chain above above (same _) (λ _.
          chain (decode lib value_ref a.1) (decode' lib value_ref a.1) (more lib value_ref a.1)
            (λ v.
              chain
                (decode_pairs sha256 registry n decode k lib key_ref value_ref found' (some a.0)
                  v.1)
                (decode_pairs sha256 registry (suc n) decode' k lib key_ref value_ref found'
                  (some a.0) v.1)
                (pairs-Extends k lib key_ref value_ref found' (some a.0) v.1) (λ b. same _)))))

  tuple_as-Extends :
      (r : Option (Restricted registry.Lib)) (lib : registry.Lib) (refs : Refs) (input : ByteString)
      → Extends
          (decode_tuple_as sha256 registry n decode r lib refs input)
          (decode_tuple_as sha256 registry (suc n) decode' r lib refs input)
  unfolding decode_tuple_as
  tuple_as-Extends (some r) lib refs input =
      chain (decode_raw r.min r.max input) (decode_raw r.min r.max input) (same _) (λ a.
        chain (check_restricted sha256 registry n lib refs r a.0)
          (check_restricted sha256 registry (suc n) lib refs r a.0)
          (restricted-Extends sha256 registry n decode decode' more lib refs r a.0) (λ _. same _))
  tuple_as-Extends none lib refs input =
      chain (decode_refs sha256 registry n decode lib refs input)
        (decode_refs sha256 registry (suc n) decode' lib refs input)
        (refs-Extends sha256 registry n decode decode' more lib refs input) (λ a. same _)

  array_of-Extends :
      (bytes : Bool) (lib : registry.Lib) (ref : TypeRef) (count : ℕ) (input : ByteString)
      → Extends
          (decode_array_of sha256 registry n decode bytes lib ref count input)
          (decode_array_of sha256 registry (suc n) decode' bytes lib ref count input)
  unfolding decode_array_of
  array_of-Extends true lib ref count input = same _
  array_of-Extends false lib ref count input =
      chain (decode_count sha256 registry n decode count lib ref input)
        (decode_count sha256 registry (suc n) decode' count lib ref input)
        (count-Extends sha256 registry n decode decode' more count lib ref input) (λ a. same _)

  enum_list-Extends :
      (is_enum : Bool) (lib : registry.Lib) (ref : TypeRef) (min max : ℕ) (input : ByteString)
      → Extends
          (decode_enum_list sha256 registry n decode is_enum lib ref min max input)
          (decode_enum_list sha256 registry (suc n) decode' is_enum lib ref min max input)
  unfolding decode_enum_list
  enum_list-Extends true lib ref min max input =
      chain (decode_raw min max input) (decode_raw min max input) (same _) (λ a.
        chain (all_have_tag sha256 registry n lib ref a.0)
          (all_have_tag sha256 registry (suc n) lib ref a.0)
          (tags-Extends sha256 registry n decode decode' more lib ref a.0) (λ _. same _))
  enum_list-Extends false lib ref min max input =
      chain (decode_length min max input) (decode_length min max input) (same _) (λ a.
        chain (decode_count sha256 registry n decode a.0 lib ref a.1)
          (decode_count sha256 registry (suc n) decode' a.0 lib ref a.1)
          (count-Extends sha256 registry n decode decode' more a.0 lib ref a.1) (λ b. same _))

  text_list-Extends :
      (is_unicode : Bool) (lib : registry.Lib) (ref : TypeRef) (min max : ℕ) (input : ByteString)
      → Extends
          (decode_text_list sha256 registry n decode is_unicode lib ref min max input)
          (decode_text_list sha256 registry (suc n) decode' is_unicode lib ref min max input)
  unfolding decode_text_list
  text_list-Extends true lib ref min max input = same _
  text_list-Extends false lib ref min max input =
      chain (ref_is_char_enum registry n lib ref) (ref_is_char_enum registry (suc n) lib ref)
        (char_enum-Extends registry n lib ref)
        (λ is_enum. enum_list-Extends is_enum lib ref min max input)

  list_of-Extends :
      (is_byte : Bool) (lib : registry.Lib) (ref : TypeRef) (min max : ℕ) (input : ByteString)
      → Extends
          (decode_list_of sha256 registry n decode is_byte lib ref min max input)
          (decode_list_of sha256 registry (suc n) decode' is_byte lib ref min max input)
  unfolding decode_list_of
  list_of-Extends true lib ref min max input = same _
  list_of-Extends false lib ref min max input =
      text_list-Extends (ref_is_unicode registry lib ref) lib ref min max input

  body-Extends :
      (lib : registry.Lib) (t : ParsedType) (input : ByteString)
      → Extends
          (decode_body sha256 registry n decode lib t input)
          (decode_body sha256 registry (suc n) decode' lib t input)
  unfolding decode_body decode_union decode_tuple decode_struct decode_array decode_list decode_set
      decode_map
  body-Extends lib (primitive p) input = same _
  body-Extends lib unicode input = same _
  body-Extends lib (enum variants) input = same _
  body-Extends lib (union vs) input = chain (Decoder.u8 input) (Decoder.u8 input) (same _) (λ a.
      let known = of_option unknown_variant (variant_of_tag a.0 vs) in
      chain known known (same _) (λ variant.
        chain (decode lib variant.1 a.1) (decode' lib variant.1 a.1) (more lib variant.1 a.1)
          (λ v. same _)))
  body-Extends lib (tuple refs) input =
      chain (restricted_string registry n lib refs) (restricted_string registry (suc n) lib refs)
        (string-Extends registry n lib refs) (λ r. tuple_as-Extends r lib refs input)
  body-Extends lib (struct ms) input =
      chain (decode_members sha256 registry n decode lib ms input)
        (decode_members sha256 registry (suc n) decode' lib ms input)
        (members-Extends sha256 registry n decode decode' more lib ms input) (λ a. same _)
  body-Extends lib (array ref count) input =
      array_of-Extends (ref_is_primitive registry lib ref 0x40) lib ref count input
  body-Extends lib (list ref min max) input =
      list_of-Extends (ref_is_primitive registry lib ref 0x40) lib ref min max input
  body-Extends lib (set ref min max) input =
      chain (decode_length min max input) (decode_length min max input) (same _) (λ a.
        chain (decode_sorted sha256 registry n decode a.0 lib ref [] none a.1)
          (decode_sorted sha256 registry (suc n) decode' a.0 lib ref [] none a.1)
          (sorted-Extends a.0 lib ref [] none a.1) (λ b. same _))
  body-Extends lib (map key_ref value_ref min max) input =
      chain (decode_length min max input) (decode_length min max input) (same _) (λ a.
        chain (decode_pairs sha256 registry n decode a.0 lib key_ref value_ref [] none a.1)
          (decode_pairs sha256 registry (suc n) decode' a.0 lib key_ref value_ref [] none a.1)
          (pairs-Extends a.0 lib key_ref value_ref [] none a.1) (λ b. same _))

ref-Extends :
    (sha256 : Hash) (registry : Registry) (n : ℕ) (lib : registry.Lib) (ref : TypeRef)
    (input : ByteString)
    → Extends
        (decode_ref sha256 registry n lib ref input)
        (decode_ref sha256 registry (suc n) lib ref input)
unfolding decode_ref
ref-Extends sha256 registry zero lib ref input = λ h. absurd (h refl)
ref-Extends sha256 registry (suc n) lib ref input =
    let decode = decode_ref sha256 registry n in
    let decode' = decode_ref sha256 registry (suc n) in
    chain (resolve registry lib ref) (resolve registry lib ref) (same _) (λ found.
      chain (decode_body sha256 registry n decode found.0 found.1 input)
        (decode_body sha256 registry (suc n) decode' found.0 found.1 input)
        (body-Extends sha256 registry n decode decode' (ref-Extends sha256 registry n) found.0
          found.1 input)
        (λ a. same _))

-- More fuel changes nothing but the lack of fuel.
pub decode-Extends :
    (sha256 : Hash) (registry : Registry) (fuel more : ℕ) (library_name type_name : String)
    (content : ByteString)
    → Extends
        (decode sha256 registry fuel library_name type_name content)
        (decode sha256 registry (more + fuel) library_name type_name content)
decode-Extends sha256 registry fuel zero library_name type_name content h =
    let none_more : zero + fuel ≡ fuel = omega arith in
    ap (λ k. decode sha256 registry k library_name type_name content) none_more
decode-Extends sha256 registry fuel (suc more) library_name type_name content h =
    let one_more : suc more + fuel ≡ suc (more + fuel) = omega arith in
    let rest = decode-Extends sha256 registry fuel more library_name type_name content h in
    ap (λ k. decode sha256 registry k library_name type_name content) one_more
    ∙ one (more + fuel) (λ e. h (sym rest ∙ e))
    ∙ rest
  where
    one :
        (k : ℕ)
        → Extends
            (decode sha256 registry k library_name type_name content)
            (decode sha256 registry (suc k) library_name type_name content)
    one k =
        unfold decode in
        chain (registry.library library_name) (registry.library library_name) (same _) (λ lib.
          chain (registry.named_type lib type_name) (registry.named_type lib type_name) (same _)
            (λ t.
              chain (decode_ref sha256 registry k lib (inline t) content)
                (decode_ref sha256 registry (suc k) lib (inline t) content)
                (ref-Extends sha256 registry k lib (inline t) content) (λ a. same _)))

-- What the decoder makes of bytes does not depend on the depth that it is given: when it accepts them
-- within some depth, it gives the same value within every greater one.
pub decode-fuel :
    (sha256 : Hash) (registry : Registry) (fuel more : ℕ) (library_name type_name : String)
    (content : ByteString) (v : Value)
    → decode sha256 registry fuel library_name type_name content ≡ ok v
    → decode sha256 registry (more + fuel) library_name type_name content ≡ ok v
decode-fuel sha256 registry fuel more library_name type_name content v h =
    decode-Extends sha256 registry fuel more library_name type_name content
      (λ e. absurd (cc (h, e)))
    ∙ h
