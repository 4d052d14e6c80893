-- ===== src/StrictTypes/Canonical/Bodies.antt =====
-- Unions, tuples, structs, arrays and lists.
use rgb.Prelude.{
  ℕ, ◌≡◌, refl, ap, Bool, true, false, Option, none, some, ◌==◌, if◌then◌else◌, length as size, ok,
  malformed_type, unknown_variant, guard-pass, of_option, after_ok, after_some, ◌>>=◌, All, arith,
  String,
}
use text.Mathlib.TextPositions.{eq_refl as str_eq-refl}
use rgb.Prelude.Bytes.{ByteString, IsByte}
use rgb.Consensus.TaggedHash.{Hash}
use rgb.StrictEncoding.Encoder
use rgb.StrictEncoding.Encoder.{Encoder}
use rgb.StrictEncoding.Decoder
use rgb.StrictEncoding.Decoder.{Decoder}
use rgb.StrictTypes.Text.{string_of}
use rgb.StrictTypes.Value.{Value, attributes, Kind}
use rgb.StrictTypes.ParsedType.{
  TypeRef, Refs, Members, Variants, Registry, Restricted, restricted_string, ref_is_primitive,
  no_variants, variant_cons,
}
use rgb.StrictTypes.Decode.{
  blank, text_value_of, variant_of_tag, decode_raw, decode_refs, decode_members, decode_count,
  decode_union, decode_tuple, decode_tuple_as, decode_array_of, decode_struct, decode_array,
  check_restricted, set_encoded,
}
use rgb.StrictTypes.Encode.{
  item_count, field_count, member_count, variant_named, raw_text, encode_raw, encode_refs,
  encode_members, encode_items, encode_plain_tuple, encode_union, encode_tuple, encode_tuple_as,
  encode_array_of, ref_count, encode_struct, encode_array,
}
use rgb.StrictTypes.Canonical.Wrote.{
  Rewrites, returned, Wrote-seq, Wrote-same, Wrote-bytes, Wrote-u8, Wrote-raw,
}
use rgb.StrictTypes.Canonical.Leaves.{Wrote-encode_raw}
use rgb.StrictTypes.Canonical.Character.{raw_text_exact}
use rgb.StrictTypes.Canonical.Parts.{PartWrites, Wrote-refs, Wrote-members, Wrote-count}

variant_named-variant_of_tag :
    (tag : ℕ) (variants : Variants) (name : String) (ref : TypeRef)
    → variant_of_tag tag variants ≡ some (name, ref)
    → variant_named tag name variants ≡ some ref
variant_named-variant_of_tag tag no_variants name ref h = absurd (cc)
variant_named-variant_of_tag tag (variant_cons label t r rest) name ref h =
    ground (arith, h, variant_named-variant_of_tag tag rest name ref, str_eq-refl name)

pub if-true {ℓ} : {A : Type ℓ} (c : Bool) (x y : A) → c ≡ true → (if c then x else y) ≡ x
if-true true x y h = refl
if-true false x y h = absurd (cc)

text_raw : (b raw : ByteString) → raw_text (attributes (set_encoded b (text_value_of raw))) ≡ raw
unfolding text_value_of
text_raw b raw =
    raw_text_exact (record (blank Kind.string) { encoded = b; text = string_of raw; raw = raw }) raw
      refl refl

equal_count : (m k : ℕ) → m ≡ k → (m == k) ≡ true
equal_count m k h = ground arith

module _ (sha256 : Hash) (registry : Registry) (n : ℕ)
    (decode : registry.Lib → TypeRef → Decoder Value)
    (encode : registry.Lib → TypeRef → Value → Encoder)
    (writes : PartWrites registry decode encode) where
  pub Wrote-union :
      (lib : registry.Lib) (variants : Variants) (v : Value) (input rest : ByteString)
      → All IsByte input
      → decode_union sha256 registry n decode lib variants input ≡ ok (v, rest)
      → Rewrites (encode_union sha256 registry n encode lib variants) v input rest
  unfolding decode_union encode_union
  Wrote-union lib variants v input rest hb h = after_ok (Decoder.u8 input) _ h (λ a read done.
      after_some unknown_variant (variant_of_tag a.0 variants) _ done (λ variant found done'.
        after_ok (decode lib variant.1 a.1) _ done' (λ w read' last.
          let tag = Wrote-u8 input a.1 a.0 read in
          let inner =
            writes lib variant.1 w.0 a.1 w.1 (Wrote-bytes (Encoder.u8 a.0) input a.1 tag hb)
              read' in
          returned (encode_union sha256 registry n encode lib variants) input last (λ b.
            Wrote-same (λ buf. Encoder.u8 a.0 buf >>= encode lib variant.1 w.0) _ input w.1
              (λ buf.
                ap
                  (λ o. of_option unknown_variant o >>= λ ref.
                    Encoder.u8 a.0 buf >>= λ buf'. encode lib ref w.0 buf')
                  (variant_named-variant_of_tag a.0 variants variant.0 variant.1 found))
              (Wrote-seq (Encoder.u8 a.0) (encode lib variant.1 w.0) input a.1 w.1 tag inner)))))

  pub Wrote-struct :
      (lib : registry.Lib) (members : Members) (v : Value) (input rest : ByteString)
      → All IsByte input
      → decode_struct sha256 registry n decode lib members input ≡ ok (v, rest)
      → Rewrites (encode_struct sha256 registry n encode lib members) v input rest
  unfolding decode_struct encode_struct
  Wrote-struct lib members v input rest hb h =
      after_ok (decode_members sha256 registry n decode lib members input) _ h (λ m read last.
        let (wrote, count) =
          Wrote-members sha256 registry n decode encode writes lib members m.0 input m.1 hb read in
        returned (encode_struct sha256 registry n encode lib members) input last (λ b.
          Wrote-same (encode_members sha256 registry n encode lib members m.0) _ input m.1
            (λ buf.
              guard-pass (field_count m.0 == member_count members) malformed_type _
                (equal_count _ _ count))
            wrote))

  tuple_as :
      (r : Option (Restricted registry.Lib)) (lib : registry.Lib) (refs : Refs) (v : Value)
      (input rest : ByteString)
      → All IsByte input
      → decode_tuple_as sha256 registry n decode r lib refs input ≡ ok (v, rest)
      → Rewrites (encode_tuple_as sha256 registry n encode r lib refs) v input rest
  unfolding decode_tuple_as encode_tuple_as encode_plain_tuple text_value_of
  tuple_as (some r) lib refs v input rest hb h =
      after_ok (decode_raw r.min r.max input) _ h (λ a read done.
        after_ok (check_restricted sha256 registry n lib refs r a.0) _ done (λ _ checked last.
          returned (encode_tuple_as sha256 registry n encode (some r) lib refs) input last (λ b.
            Wrote-same (encode_raw r.min r.max a.0) _ input a.1
              (λ buf. ap (λ t. encode_raw r.min r.max t buf) (text_raw b a.0))
              (Wrote-encode_raw r.min r.max input a.0 a.1 hb read))))
  tuple_as none lib refs v input rest hb h =
      after_ok (decode_refs sha256 registry n decode lib refs input) _ h (λ l read last.
        let (wrote, count) =
          Wrote-refs sha256 registry n decode encode writes lib refs l.0 input l.1 hb read in
        returned (encode_tuple_as sha256 registry n encode none lib refs) input last (λ b.
          Wrote-same (encode_refs sha256 registry n encode lib refs l.0) _ input l.1
            (λ buf. if-true (item_count l.0 == ref_count refs) _ _ (equal_count _ _ count)) wrote))

  pub Wrote-tuple :
      (lib : registry.Lib) (refs : Refs) (v : Value) (input rest : ByteString)
      → All IsByte input
      → decode_tuple sha256 registry n decode lib refs input ≡ ok (v, rest)
      → Rewrites (encode_tuple sha256 registry n encode lib refs) v input rest
  unfolding decode_tuple encode_tuple
  Wrote-tuple lib refs v input rest hb h =
      after_ok (restricted_string registry n lib refs) _ h (λ r known done b.
        Wrote-same (encode_tuple_as sha256 registry n encode r lib refs (set_encoded b v)) _ input
          rest
          (λ buf.
            ap
              (λ t. t >>= λ r.
                encode_tuple_as sha256 registry n encode r lib refs (set_encoded b v) buf)
              known)
          (tuple_as r lib refs v input rest hb done b))

  array_of :
      (bytes : Bool) (lib : registry.Lib) (ref : TypeRef) (count : ℕ) (v : Value)
      (input rest : ByteString)
      → All IsByte input
      → decode_array_of sha256 registry n decode bytes lib ref count input ≡ ok (v, rest)
      → Rewrites (encode_array_of sha256 registry n encode bytes lib ref count) v input rest
  unfolding decode_array_of encode_array_of
  array_of true lib ref count v input rest hb h =
      after_ok (Decoder.raw count input) _ h (λ a read last.
        let (wrote, exact) = Wrote-raw count input a.0 a.1 read in
        returned (encode_array_of sha256 registry n encode true lib ref count) input last (λ b.
          Wrote-same (Encoder.raw a.0) _ input a.1
            (λ buf. guard-pass (size a.0 == count) malformed_type _ (equal_count _ _ exact)) wrote))
  array_of false lib ref count v input rest hb h =
      after_ok (decode_count sha256 registry n decode count lib ref input) _ h (λ l read last.
        let (wrote, exact) =
          Wrote-count sha256 registry n decode encode writes count lib ref l.0 input l.1 hb read in
        returned (encode_array_of sha256 registry n encode false lib ref count) input last (λ b.
          Wrote-same (encode_items sha256 registry n encode lib ref l.0) _ input l.1
            (λ buf. guard-pass (item_count l.0 == count) malformed_type _ (equal_count _ _ exact))
            wrote))

  pub Wrote-array :
      (lib : registry.Lib) (ref : TypeRef) (count : ℕ) (v : Value) (input rest : ByteString)
      → All IsByte input
      → decode_array sha256 registry n decode lib ref count input ≡ ok (v, rest)
      → Rewrites (encode_array sha256 registry n encode lib ref count) v input rest
  unfolding decode_array encode_array
  Wrote-array lib ref = array_of (ref_is_primitive registry lib ref 0x40) lib ref
