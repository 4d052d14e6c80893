-- ===== src/StrictTypes/Canonical/Lists.antt =====
-- A list is written as text just when it was read as text.
use rgb.Prelude.{
  ℕ, ◌≡◌, refl, sym, ap, ◌∙◌, subst, Bool, true, false, ◌||◌, [], ◌∷◌, if◌then◌else◌, ok,
  out_of_bounds, foreign, guard-pass, after_ok, after_guard, ◌>>=◌, All, arith,
}
use rgb.Prelude.Bytes.{ByteString, IsByte}
use rgb.Consensus.TaggedHash.{Hash}
use rgb.StrictEncoding.Encoder
use rgb.StrictEncoding.Encoder.{Encoder}
use rgb.StrictEncoding.Decoder.{Decoder}
use rgb.StrictTypes.Text.{string_of}
use rgb.StrictTypes.Value.{Value, node, nil, no_fields, no_entries, Attributes, Kind, kind_eq}
use rgb.StrictTypes.ParsedType.{
  TypeRef, Registry, ref_is_primitive, ref_is_unicode, ref_is_char_enum,
}
use rgb.StrictTypes.Unicode.{utf8_valid}
use rgb.StrictTypes.Decode.{
  blank, leaf, text_value_of, decode_length, decode_raw, decode_count, decode_enum_list,
  decode_text_list, decode_list_of, decode_list, all_have_tag,
}
use rgb.StrictTypes.Encode.{
  item_count, list_bytes, encode_raw, encode_items, encode_list_as, encode_list, is_text,
}
use rgb.StrictTypes.Canonical.Wrote.{
  Wrote, Rewrites, returned, Wrote-seq, Wrote-same, Wrote-bytes, Wrote-length,
}
use rgb.StrictTypes.Canonical.Leaves.{Wrote-encode_raw}
use rgb.StrictTypes.Canonical.Parts.{PartWrites, Wrote-count}
use rgb.StrictTypes.Canonical.Confined.{confined_writes}
use rgb.StrictTypes.Canonical.Bodies.{if-true}

or_true : (p u : Bool) → p ≡ true → (p || u) ≡ true
or_true true u h = refl
or_true false u h = absurd (cc)

or_right : (p u : Bool) → p ≡ false → u ≡ true → (p || u) ≡ true
or_right true u h k = absurd (cc)
or_right false u h k = k

neither {ℓ} :
    {A : Type ℓ} (p u : Bool) (x y : A) → p ≡ false → u ≡ false → (if p || u then x else y) ≡ y
neither false false x y h k = refl
neither true u x y h k = absurd (cc)
neither false true x y h k = absurd (cc)

bytes_raw :
    (b raw : ByteString) → list_bytes (record (blank Kind.bytes) { encoded = b; raw = raw }) ≡ raw
bytes_raw b raw = ground arith

string_raw :
    (b raw : ByteString)
    → list_bytes (record (blank Kind.string) { encoded = b; text = string_of raw; raw = raw }) ≡ raw
unfolding string_of
string_raw b [] = refl
string_raw b (x ∷ xs) = ground arith

module _ (sha256 : Hash) (registry : Registry) (n : ℕ)
    (decode : registry.Lib → TypeRef → Decoder Value)
    (encode : registry.Lib → TypeRef → Value → Encoder)
    (writes : PartWrites registry decode encode) where
  text_list :
      (lib : registry.Lib) (ref : TypeRef) (min max : ℕ) (a : Attributes)
      (raw input rest : ByteString)
      → All IsByte input
      → is_text sha256 registry n encode lib ref ≡ ok true
      → (kind_eq a.kind Kind.bytes || kind_eq a.kind Kind.string) ≡ true
      → list_bytes a ≡ raw
      → decode_raw min max input ≡ ok (raw, rest)
      → Wrote (encode_list sha256 registry n encode lib ref min max (leaf a)) input rest
  unfolding encode_list encode_list_as
  text_list lib ref min max a raw input rest hb text kinds same h =
      Wrote-same (encode_raw min max raw) _ input rest
        (λ buf.
          ap
            (λ t. t >>= λ text.
              encode_list_as sha256 registry n encode text lib ref min max (leaf a) buf)
            text
          ∙ guard-pass (kind_eq a.kind Kind.bytes || kind_eq a.kind Kind.string) out_of_bounds _
              kinds
          ∙ ap (λ t. encode_raw min max t buf) same)
        (Wrote-encode_raw min max input raw rest hb h)

  item_list_writes :
      (lib : registry.Lib) (ref : TypeRef) (min max : ℕ) (v : Value) (input rest : ByteString)
      → All IsByte input
      → is_text sha256 registry n encode lib ref ≡ ok false
      → decode_enum_list sha256 registry n decode false lib ref min max input ≡ ok (v, rest)
      → Rewrites (encode_list sha256 registry n encode lib ref min max) v input rest
  unfolding decode_enum_list encode_list encode_list_as
  item_list_writes lib ref min max v input rest hb text h =
      after_ok (decode_length min max input) _ h (λ a read done.
        after_ok (decode_count sha256 registry n decode a.0 lib ref a.1) _ done (λ m read' last.
          let (lo, hi, count) = Wrote-length min max a.0 input a.1 hb read in
          let hb' = Wrote-bytes (Encoder.length a.0 max) input a.1 count hb in
          let (items, exact) =
            Wrote-count sha256 registry n decode encode writes a.0 lib ref m.0 a.1 m.1 hb' read' in
          let next = encode_items sha256 registry n encode lib ref m.0 in
          returned (encode_list sha256 registry n encode lib ref min max) input last (λ b.
            let w = node (record (blank Kind.list) { encoded = b }) nil no_fields m.0 no_entries in
            Wrote-same (λ buf. Encoder.length (item_count m.0) max buf >>= next) _ input m.1
              (λ buf.
                ap
                  (λ t. t >>= λ text.
                    encode_list_as sha256 registry n encode text lib ref min max w buf)
                  text
                ∙ confined_writes sha256 registry n decode encode writes Kind.list true lib ref min
                    max m.0 b buf refl refl (omega arith) (omega arith))
              (Wrote-seq (Encoder.length (item_count m.0) max) next input a.1 m.1
                (subst (λ k. Wrote (Encoder.length k max) input a.1) (sym exact) count) items))))

  enum_list :
      (is_enum : Bool) (lib : registry.Lib) (ref : TypeRef) (min max : ℕ) (v : Value)
      (input rest : ByteString)
      → All IsByte input
      → is_text sha256 registry n encode lib ref ≡ ok is_enum
      → decode_enum_list sha256 registry n decode is_enum lib ref min max input ≡ ok (v, rest)
      → Rewrites (encode_list sha256 registry n encode lib ref min max) v input rest
  unfolding decode_enum_list text_value_of
  enum_list false lib ref min max v input rest hb text h =
      item_list_writes lib ref min max v input rest hb text h
  enum_list true lib ref min max v input rest hb text h =
      after_ok (decode_raw min max input) _ h (λ a read done.
        after_ok (all_have_tag sha256 registry n lib ref a.0) _ done (λ _ checked last.
          returned (encode_list sha256 registry n encode lib ref min max) input last (λ b.
            text_list lib ref min max
              (record (blank Kind.string) { encoded = b; text = string_of a.0; raw = a.0 }) a.0
              input a.1 hb text refl (string_raw b a.0) read)))

  char_list :
      (is_unicode : Bool) (lib : registry.Lib) (ref : TypeRef) (min max : ℕ) (v : Value)
      (input rest : ByteString)
      → All IsByte input
      → ref_is_primitive registry lib ref 0x40 ≡ false
      → ref_is_unicode registry lib ref ≡ is_unicode
      → decode_text_list sha256 registry n decode is_unicode lib ref min max input ≡ ok (v, rest)
      → Rewrites (encode_list sha256 registry n encode lib ref min max) v input rest
  unfolding decode_text_list text_value_of is_text
  char_list true lib ref min max v input rest hb number unicode h =
      after_ok (decode_raw min max input) _ h (λ a read done.
        after_guard (utf8_valid a.0) foreign _ done (λ valid last.
          returned (encode_list sha256 registry n encode lib ref min max) input last (λ b.
            text_list lib ref min max
              (record (blank Kind.string) { encoded = b; text = string_of a.0; raw = a.0 }) a.0
              input a.1 hb
              (if-true (ref_is_primitive registry lib ref 0x40 || ref_is_unicode registry lib ref)
                (ok true) _ (or_right _ _ number unicode))
              refl (string_raw b a.0) read)))
  char_list false lib ref min max v input rest hb number unicode h =
      after_ok (ref_is_char_enum registry n lib ref) _ h (λ is_enum known last.
        enum_list is_enum lib ref min max v input rest hb
          (neither (ref_is_primitive registry lib ref 0x40) (ref_is_unicode registry lib ref)
              (ok true) (ref_is_char_enum registry n lib ref) number unicode
            ∙ known)
          last)

  list_of :
      (is_byte : Bool) (lib : registry.Lib) (ref : TypeRef) (min max : ℕ) (v : Value)
      (input rest : ByteString)
      → All IsByte input
      → ref_is_primitive registry lib ref 0x40 ≡ is_byte
      → decode_list_of sha256 registry n decode is_byte lib ref min max input ≡ ok (v, rest)
      → Rewrites (encode_list sha256 registry n encode lib ref min max) v input rest
  unfolding decode_list_of is_text
  list_of true lib ref min max v input rest hb number h =
      after_ok (decode_raw min max input) _ h (λ a read last.
        returned (encode_list sha256 registry n encode lib ref min max) input last (λ b.
          text_list lib ref min max (record (blank Kind.bytes) { encoded = b; raw = a.0 }) a.0 input
            a.1 hb
            (if-true (ref_is_primitive registry lib ref 0x40 || ref_is_unicode registry lib ref)
              (ok true) _ (or_true _ _ number))
            refl (bytes_raw b a.0) read))
  list_of false lib ref min max v input rest hb number h =
      char_list (ref_is_unicode registry lib ref) lib ref min max v input rest hb number refl h

  pub Wrote-list :
      (lib : registry.Lib) (ref : TypeRef) (min max : ℕ) (v : Value) (input rest : ByteString)
      → All IsByte input
      → decode_list sha256 registry n decode lib ref min max input ≡ ok (v, rest)
      → Rewrites (encode_list sha256 registry n encode lib ref min max) v input rest
  unfolding decode_list
  Wrote-list lib ref min max v input rest hb h =
      list_of (ref_is_primitive registry lib ref 0x40) lib ref min max v input rest hb refl h
