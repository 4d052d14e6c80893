-- ===== src/StrictTypes/Canonical/Whole.antt =====
-- Registry.Decode and Registry.Encode.
use rgb.Prelude.{
  ℕ, zero, suc, ◌≡◌, refl, sym, ap, ◌∙◌, true, [], ◌∷◌, ◌++◌, ◌==◌, length as size, ok,
  trailing_data, after_ok, after_guard, ◌>>=◌, All, arith, String,
}
use rgb.Prelude.Bytes.{ByteString, IsByte}
use rgb.Consensus.TaggedHash.{Hash}
use rgb.StrictEncoding.Encoder.{Encoder}
use rgb.StrictEncoding.Decoder.{Decoder}
use rgb.StrictTypes.Value.{Value}
use rgb.StrictTypes.ParsedType.{
  TypeRef, ParsedType, Registry, resolve, inline, primitive, unicode, enum, union, tuple, struct,
  array, list, set, map,
}
use rgb.StrictTypes.Decode.{bytes_read, set_encoded, decode_body, decode_ref, decode}
use rgb.StrictTypes.Encode.{encode_body, encode_ref, encode}
use rgb.StrictTypes.Canonical.Wrote.{Wrote, Rewrites, returned_by, Wrote-same}
use rgb.StrictTypes.Canonical.Leaves.{Wrote-primitive, Wrote-enum}
use rgb.StrictTypes.Canonical.Character.{Wrote-unicode}
use rgb.StrictTypes.Canonical.Parts.{PartWrites}
use rgb.StrictTypes.Canonical.Confined.{Wrote-set, Wrote-map}
use rgb.StrictTypes.Canonical.Bodies.{Wrote-union, Wrote-tuple, Wrote-struct, Wrote-array}
use rgb.StrictTypes.Canonical.Lists.{Wrote-list}

module _ (sha256 : Hash) (registry : Registry) (n : ℕ)
    (decode : registry.Lib → TypeRef → Decoder Value)
    (encode : registry.Lib → TypeRef → Value → Encoder)
    (writes : PartWrites registry decode encode) where
  Wrote-body :
      (lib : registry.Lib) (t : ParsedType) (v : Value) (input rest : ByteString)
      → All IsByte input
      → decode_body sha256 registry n decode lib t input ≡ ok (v, rest)
      → Rewrites (encode_body sha256 registry n encode lib t) v input rest
  unfolding decode_body encode_body
  Wrote-body lib (primitive p) v input rest hb h = Wrote-primitive p v input rest h
  Wrote-body lib unicode v input rest hb h = Wrote-unicode v input rest h
  Wrote-body lib (enum variants) v input rest hb h = Wrote-enum variants v input rest h
  Wrote-body lib (union variants) v input rest hb h =
      Wrote-union sha256 registry n decode encode writes lib variants v input rest hb h
  Wrote-body lib (tuple refs) v input rest hb h =
      Wrote-tuple sha256 registry n decode encode writes lib refs v input rest hb h
  Wrote-body lib (struct members) v input rest hb h =
      Wrote-struct sha256 registry n decode encode writes lib members v input rest hb h
  Wrote-body lib (array ref count) v input rest hb h =
      Wrote-array sha256 registry n decode encode writes lib ref count v input rest hb h
  Wrote-body lib (list ref min max) v input rest hb h =
      Wrote-list sha256 registry n decode encode writes lib ref min max v input rest hb h
  Wrote-body lib (set ref min max) v input rest hb h =
      Wrote-set sha256 registry n decode encode writes lib ref min max v input rest hb h
  Wrote-body lib (map key_ref value_ref min max) v input rest hb h =
      Wrote-map sha256 registry n decode encode writes lib key_ref value_ref min max v input rest hb
        h

-- What a reference decodes to is written in the bytes that were read, at every depth.
pub Wrote-ref :
    (sha256 : Hash) (registry : Registry) (fuel : ℕ)
    → PartWrites registry (decode_ref sha256 registry fuel) (encode_ref sha256 registry fuel)
unfolding decode_ref encode_ref
Wrote-ref sha256 registry zero lib ref v input rest hb h = absurd (cc)
Wrote-ref sha256 registry (suc n) lib ref v input rest hb h =
    let deeper = Wrote-ref sha256 registry n in
    let inner = decode_ref sha256 registry n in
    let inner' = encode_ref sha256 registry n in
    after_ok (resolve registry lib ref) _ h (λ found known done.
      after_ok (decode_body sha256 registry n inner found.0 found.1 input) _ done (λ a read last.
        let kept = set_encoded (bytes_read input a.1) a.0 in
        returned_by (λ t s. Wrote (encode_ref sha256 registry (suc n) lib ref t) input s) last
          (Wrote-same (encode_body sha256 registry n inner' found.0 found.1 kept) _ input a.1
            (λ buf.
              ap (λ r. r >>= λ f. encode_body sha256 registry n inner' f.0 f.1 kept buf) known)
            (Wrote-body sha256 registry n inner inner' deeper found.0 found.1 a.0 input a.1 hb read
              (bytes_read input a.1)))))

nothing_left : (w rest : ByteString) → (size rest == 0) ≡ true → w ++ rest ≡ w
nothing_left [] [] h = refl
nothing_left [] (x ∷ xs) h = absurd (ground arith)
nothing_left (y ∷ w) rest h = ap (λ t. y ∷ t) (nothing_left w rest h)

-- Registry.Decode accepts only what Registry.Encode writes: when bytes decode to a value of a type, the
-- value encodes, under the same type and within the same depth, to exactly these bytes.
pub encode-decode :
    (sha256 : Hash) (registry : Registry) (fuel : ℕ) (library_name type_name : String)
    (content : ByteString) (v : Value)
    → All IsByte content
    → decode sha256 registry fuel library_name type_name content ≡ ok v
    → encode sha256 registry fuel library_name type_name v ≡ ok content
unfolding decode encode
encode-decode sha256 registry fuel library_name type_name content v hb h =
    after_ok (registry.library library_name) _ h (λ lib found done.
      after_ok (registry.named_type lib type_name) _ done (λ t known done'.
        after_ok (decode_ref sha256 registry fuel lib (inline t) content) _ done' (λ a read done''.
          after_guard (size a.1 == 0) trailing_data _ done'' (λ empty last.
            let (w, split, wrote) =
              Wrote-ref sha256 registry fuel lib (inline t) a.0 content a.1 hb read in
            let same : a.0 ≡ v = cc in
            ap
              (λ r. r >>= λ l. registry.named_type l type_name >>= λ t.
                encode_ref sha256 registry fuel l (inline t) v [])
              found
            ∙ ap (λ r. r >>= λ t. encode_ref sha256 registry fuel lib (inline t) v []) known
            ∙ ap (λ u. encode_ref sha256 registry fuel lib (inline t) u []) (sym same)
            ∙ wrote []
            ∙ ap (λ u. ok u) (sym (nothing_left w a.1 empty) ∙ sym split)))))
