-- ===== src/StrictTypes/Canonical/Leaves.antt =====
-- Types without parts: what is read from the input is what is written.
use text.Mathlib.TextPositions.{eq_refl as str_eq-refl}
use rgb.Prelude.{
  ℕ, ◌≡◌, refl, sym, ap, ◌∙◌, subst, Bool, true, false, not, ◌&&◌, ◌||◌, some, List, [], ◌∷◌, ltb,
  ◌==◌, if◌then◌else◌, length as size, Result, ok, out_of_bounds, foreign, malformed_type,
  unknown_variant, guard, guard-pass, after_ok, after_some, after_guard, ◌>>◌, All, String, arith,
}
use rgb.Prelude.Bytes.{ByteString, IsByte}
use rgb.StrictEncoding.Encoder
use rgb.StrictEncoding.Encoder.{Encoder}
use rgb.StrictEncoding.Decoder
use rgb.StrictEncoding.Decoder.{width}
use rgb.StrictTypes.Value.{
  Value, node, Attributes, Kind, kind_eq, unwrap, unwrap_single, attributes,
}
use rgb.StrictTypes.ParsedType.{primitive_size}
use rgb.StrictTypes.Decode.{
  blank, decode_length, decode_raw, decode_primitive, decode_enum, number_of, name_of_tag, leaf,
}
use rgb.StrictTypes.Encode.{encode_raw, encode_primitive, encode_enum, raw_number, named_tag}
use rgb.StrictTypes.Canonical.Wrote.{
  Wrote, within, Wrote-length, Rewrites, returned, after_if, Wrote-seq, Wrote-same, Wrote-nothing,
  Wrote-raw, Wrote-u8,
}

pub Wrote-encode_raw :
    (min max : ℕ) (input raw rest : ByteString)
    → All IsByte input
    → decode_raw min max input ≡ ok (raw, rest)
    → Wrote (encode_raw min max raw) input rest
unfolding decode_raw encode_raw
Wrote-encode_raw min max input raw rest hb h =
    after_ok (decode_length min max input) _ h (λ a read done.
      let (lo, hi, wrote) = Wrote-length min max a.0 input a.1 hb read in
      let (wrote', exact) = Wrote-raw a.0 a.1 raw rest done in
      Wrote-same _ _ input rest
        (λ buf.
          guard-pass (not (ltb (size raw) min || ltb max (size raw))) out_of_bounds _
            (within (size raw) min max (omega arith) (omega arith)))
        (Wrote-seq (Encoder.length (size raw) max) (Encoder.raw raw) input a.1 rest
          (subst (λ k. Wrote (Encoder.length k max) input a.1) (sym exact) wrote) wrote'))

-- Outside of tuples a value is not unwrapped.
pub unwrap-plain : (v : Value) → kind_eq (attributes v).kind Kind.tuple ≡ false → unwrap v ≡ v
unfolding unwrap
unwrap-plain (node a i f l m) h =
    ap (λ t. elim t [ true ↦ unwrap_single (node a i f l m) l | false ↦ node a i f l m ]) h

number_parts :
    (p : ℕ) (raw : ByteString) (a : Attributes)
    → number_of p raw ≡ ok a
    → (a.raw ≡ raw) × (a.kind ≡ Kind.number)
unfolding number_of
number_parts p raw a h = ground arith

nonzero_eq : (p : ℕ) → not (p == 0) ≡ true → (p == 0) ≡ false
nonzero_eq p h = ground arith

-- A number of the right size is written as it is.
raw_number_exact :
    (width : ℕ) (a : Attributes) → (size a.raw == 0) ≡ false → raw_number width a ≡ a.raw
unfolding raw_number
raw_number_exact width a h = ground arith

size_of_raw : (w k : ℕ) → not (w == 0) ≡ true → k ≡ w → ((k == 0) ≡ false) × ((k == w) ≡ true)
size_of_raw w k h e = ground arith

number_chain :
    (nothing wide numeric fits : Bool) (x z : Result ByteString)
    → nothing ≡ false
    → wide ≡ true
    → numeric ≡ true
    → fits ≡ true
    → (if nothing
        then x
        else (do guard (wide && numeric) malformed_type; guard fits malformed_type; z))
      ≡ z
number_chain false true true true x z h k l m = refl
number_chain true wide numeric fits x z h k l m = absurd (cc)
number_chain false false numeric fits x z h k l m = absurd (cc)
number_chain false true false fits x z h k l m = absurd (cc)
number_chain false true true false x z h k l m = absurd (cc)

number_writes :
    (p : ℕ) (a : Attributes) (raw buf : ByteString)
    → (p == 0) ≡ false
    → not (primitive_size p == 0) ≡ true
    → a.raw ≡ raw
    → a.kind ≡ Kind.number
    → size raw ≡ primitive_size p
    → encode_primitive p (leaf a) buf ≡ Encoder.raw raw buf
unfolding encode_primitive
number_writes p a raw buf nonzero wide same number exact =
    let w = attributes (unwrap (leaf a)) in
    let plain : w ≡ a =
      ap attributes (unwrap-plain (leaf a) (ap (λ k. kind_eq k Kind.tuple) number)) in
    let kept : w.raw ≡ raw = ap (λ t. t.raw) plain ∙ same in
    let kind_ : w.kind ≡ Kind.number = ap (λ t. t.kind) plain ∙ number in
    let (filled, fits) = size_of_raw (primitive_size p) (size w.raw) wide (ap size kept ∙ exact) in
    let written : raw_number (primitive_size p) w ≡ w.raw =
      raw_number_exact (primitive_size p) w filled in
    number_chain (p == 0) (not (primitive_size p == 0)) (kind_eq w.kind Kind.number)
      (size (raw_number (primitive_size p) w) == primitive_size p) _ _ nonzero wide
      (ap (λ k. kind_eq k Kind.number) kind_)
      (subst (λ t. (size t == primitive_size p) ≡ true) (sym written) fits)
    ∙ ap (λ t. Encoder.raw t buf) (written ∙ kept)

pub Wrote-primitive :
    (p : ℕ) (v : Value) (input rest : ByteString)
    → decode_primitive p input ≡ ok (v, rest)
    → Rewrites (encode_primitive p) v input rest
unfolding decode_primitive
Wrote-primitive p v input rest h =
    after_if (p == 0) _ _ h
      (λ zero_ done.
        returned (encode_primitive p) input done (λ b.
          Wrote-same ok _ input input (λ buf. unit_writes p b buf zero_) (Wrote-nothing input)))
      (λ nonzero done. after_guard (not (primitive_size p == 0)) foreign _ done (λ wide done'.
        after_ok (Decoder.raw (primitive_size p) input) _ done' (λ r read done''.
          after_ok (number_of p r.0) _ done'' (λ a made last.
            let (same, number) = number_parts p r.0 a made in
            let (wrote, exact) = Wrote-raw (primitive_size p) input r.0 r.1 read in
            returned (encode_primitive p) input last (λ b.
              Wrote-same (Encoder.raw r.0) _ input r.1
                (λ buf.
                  number_writes p (record a { encoded = b }) r.0 buf nonzero wide same number exact)
                wrote)))))
  where
    unit_writes :
        (p : ℕ) (b buf : ByteString)
        → (p == 0) ≡ true
        → encode_primitive p (leaf (record (blank Kind.unit) { encoded = b })) buf ≡ ok buf
    unit_writes p b buf zero_ = unfold encode_primitive in rw (encode_primitive, zero_) refl

named_tag-name_of_tag :
    (tag : ℕ) (variants : List (String × ℕ)) (name : String)
    → name_of_tag tag variants ≡ some name
    → named_tag tag name variants ≡ true
named_tag-name_of_tag tag [] name h = absurd (cc)
named_tag-name_of_tag tag ((label, t) ∷ rest) name h =
    ground (arith, h, named_tag-name_of_tag tag rest name, str_eq-refl name)

pub Wrote-enum :
    (variants : List (String × ℕ)) (v : Value) (input rest : ByteString)
    → decode_enum variants input ≡ ok (v, rest)
    → Rewrites (encode_enum variants) v input rest
unfolding decode_enum encode_enum
Wrote-enum variants v input rest h = after_ok (Decoder.u8 input) _ h (λ a read done.
    after_some unknown_variant (name_of_tag a.0 variants) _ done (λ name found done'.
      returned (encode_enum variants) input done' (λ b.
        Wrote-same (Encoder.u8 a.0) _ input a.1
          (λ buf.
            guard-pass (named_tag a.0 name variants) unknown_variant (Encoder.u8 a.0 buf)
              (named_tag-name_of_tag a.0 variants name found))
          (Wrote-u8 input a.1 a.0 read))))
