-- ===== src/StrictTypes/Fuel/Ends.antt =====
-- Registry.Decode ends: fuel above the height of the type is enough for every input.
use Prim.Native.Nat.{max}
use rgb.Prelude.{
  ℕ, zero, suc, ◌+◌, ◌<◌, ◌≤◌, ◌≡◌, ◌≢◌, ap, arith, Bool, true, false, none, some, [], ok, err,
  too_deep, guard, of_option, unknown_variant, trailing_data, String, if◌then◌else◌, ◌==◌,
  length as size,
}
use rgb.Prelude.Bytes.{ByteString}
use rgb.Prelude.Keyed.{bytes_eq_instance}
use rgb.Consensus.TaggedHash.{Hash}
use rgb.StrictEncoding.Decoder
use rgb.StrictEncoding.Decoder.{Decoder, width}
use rgb.StrictTypes.Value.{Value}
use rgb.StrictTypes.ParsedType.{
  TypeRef, ParsedType, Variants, Registry, resolve, restricted_string, ref_is_primitive, inline,
  primitive, unicode, enum, union, tuple, struct, array, list, set, map, no_variants, variant_cons,
}
use rgb.StrictTypes.Decode.{
  decode_length, variant_of_tag, decode_union, decode_tuple, decode_members, decode_struct,
  decode_array, decode_list, decode_sorted, decode_set, decode_pairs, decode_map, decode_body,
  decode_ref, decode,
}
use rgb.StrictTypes.Fuel.Depth.{
  Shallow, ok-Shallow, chain-Shallow, guard-Shallow, of_option-Shallow, of_option-ok, ref_height,
  type_height, variants_height, IsStratified, resolve-below, resolve-Shallow,
}
use rgb.StrictTypes.Fuel.Leaves.{
  u8-Shallow, length-Shallow, unknown≢too_deep, primitive-Shallow, unicode-Shallow, enum-Shallow,
}
use rgb.StrictTypes.Fuel.Deeper.{decode-Extends}
use rgb.StrictTypes.Fuel.Texts.{string-Shallow}
use rgb.StrictTypes.Fuel.Parts.{
  members-Shallow, sorted-Shallow, pairs-Shallow, tuple_as-Shallow, array_of-Shallow,
  list_of-Shallow,
}

module _ (sha256 : Hash) (registry : Registry) (heights : registry.Lib → String → ℕ)
    (strata : IsStratified registry heights) (n : ℕ)
    (decode : registry.Lib → TypeRef → Decoder Value)
    (low : (lib : registry.Lib) (ref : TypeRef) (input : ByteString)
      → ref_height registry heights lib ref < n
      → Shallow (decode lib ref input)) where
  variant_below :
      (tag : ℕ) (lib : registry.Lib) (vs : Variants) (variant : String × TypeRef)
      → variant_of_tag tag vs ≡ some variant
      → ref_height registry heights lib variant.1 ≤ variants_height registry heights lib vs
  unfolding variants_height
  variant_below tag lib no_variants variant h = absurd (cc)
  variant_below tag lib (variant_cons name t ref vs) variant h =
      chosen (t == tag) (variant_below tag lib vs variant) h
    where
      chosen :
          (c : Bool)
          → (variant_of_tag tag vs ≡ some variant
              → ref_height registry heights lib variant.1 ≤ variants_height registry heights lib vs)
          → (if c then some (name, ref) else variant_of_tag tag vs) ≡ some variant
          → ref_height registry heights lib variant.1
            ≤ max (ref_height registry heights lib ref) (variants_height registry heights lib vs)
      chosen true later e =
          let same : (name, ref) ≡ variant = cc in
          let height : ref_height registry heights lib ref
              ≡ ref_height registry heights lib variant.1 =
            ap (λ v. ref_height registry heights lib v.1) same in
          omega arith
      chosen false later e = omega (arith, later e)

  body-Shallow :
      (lib : registry.Lib) (t : ParsedType) (input : ByteString)
      → type_height registry heights lib t < n
      → Shallow (decode_body sha256 registry n decode lib t input)
  unfolding decode_body decode_union decode_tuple decode_struct decode_array decode_list decode_set
      decode_map type_height
  body-Shallow lib (primitive p) input h = primitive-Shallow p input
  body-Shallow lib unicode input h = unicode-Shallow input
  body-Shallow lib (enum variants) input h = enum-Shallow variants input
  body-Shallow lib (union vs) input h = chain-Shallow (Decoder.u8 input) (u8-Shallow input) (λ a _.
      chain-Shallow (of_option unknown_variant (variant_of_tag a.0 vs))
        (of_option-Shallow unknown_variant _ unknown≢too_deep)
        (λ variant known.
          chain-Shallow (decode lib variant.1 a.1)
            (low lib variant.1 a.1 (
              omega (
                arith,
                variant_below a.0 lib vs variant (of_option-ok unknown_variant _ variant known),
              )))
            (λ v _. ok-Shallow _)))
  body-Shallow lib (tuple refs) input h =
      chain-Shallow (restricted_string registry n lib refs)
        (string-Shallow registry heights strata n lib refs h)
        (λ r known.
          tuple_as-Shallow sha256 registry heights strata n decode low r lib refs input known h)
  body-Shallow lib (struct ms) input h =
      chain-Shallow (decode_members sha256 registry n decode lib ms input)
        (members-Shallow sha256 registry heights strata n decode low lib ms input h)
        (λ a _. ok-Shallow _)
  body-Shallow lib (array ref count) input h =
      array_of-Shallow sha256 registry heights strata n decode low
        (ref_is_primitive registry lib ref 0x40) lib ref count input h
  body-Shallow lib (list ref least most) input h =
      list_of-Shallow sha256 registry heights strata n decode low
        (ref_is_primitive registry lib ref 0x40) lib ref least most input h
  body-Shallow lib (set ref least most) input h =
      chain-Shallow (decode_length least most input) (length-Shallow least most input) (λ a _.
        chain-Shallow (decode_sorted sha256 registry n decode a.0 lib ref [] none a.1)
          (sorted-Shallow sha256 registry heights strata n decode low a.0 lib ref [] none a.1 h)
          (λ b _. ok-Shallow _))
  body-Shallow lib (map key_ref value_ref least most) input h =
      chain-Shallow (decode_length least most input) (length-Shallow least most input) (λ a _.
        chain-Shallow (decode_pairs sha256 registry n decode a.0 lib key_ref value_ref [] none a.1)
          (pairs-Shallow sha256 registry heights strata n decode low a.0 lib key_ref value_ref []
            none a.1 (omega arith) (omega arith))
          (λ b _. ok-Shallow _))

ref-Shallow :
    (sha256 : Hash) (registry : Registry) (heights : registry.Lib → String → ℕ)
    (strata : IsStratified registry heights) (n : ℕ) (lib : registry.Lib) (ref : TypeRef)
    (input : ByteString)
    → ref_height registry heights lib ref < n
    → Shallow (decode_ref sha256 registry n lib ref input)
unfolding decode_ref
ref-Shallow sha256 registry heights strata zero lib ref input h = absurd (omega arith)
ref-Shallow sha256 registry heights strata (suc n) lib ref input h =
    let decode = decode_ref sha256 registry n in
    chain-Shallow (resolve registry lib ref) (resolve-Shallow registry heights strata lib ref)
      (λ found known.
        chain-Shallow (decode_body sha256 registry n decode found.0 found.1 input)
          (body-Shallow sha256 registry heights strata n decode
            (ref-Shallow sha256 registry heights strata n) found.0 found.1 input
            (omega (arith, resolve-below registry heights strata lib ref found known)))
          (λ a _. ok-Shallow _))

-- The decoder ends with its own answer on every input. In a registry whose types lie below their names,
-- a fuel above the height of the type is enough: decoding does not fail for lack of fuel, and with any
-- more fuel it gives the same value or the same error.
pub decode-ends :
    (sha256 : Hash) (registry : Registry) (heights : registry.Lib → String → ℕ) (fuel more : ℕ)
    (library_name type_name : String) (content : ByteString)
    → IsStratified registry heights
    → ((lib : registry.Lib) (t : ParsedType)
        → registry.library library_name ≡ ok lib
        → registry.named_type lib type_name ≡ ok t
        → suc (type_height registry heights lib t) < fuel)
    → (decode sha256 registry fuel library_name type_name content ≢ err too_deep)
      × (decode sha256 registry (more + fuel) library_name type_name content
          ≡ decode sha256 registry fuel library_name type_name content)
unfolding decode ref_height
decode-ends sha256 registry heights fuel more library_name type_name content strata enough =
    let answers : Shallow (decode sha256 registry fuel library_name type_name content) =
      chain-Shallow (registry.library library_name) (strata.library_shallow library_name)
        (λ lib found.
          chain-Shallow (registry.named_type lib type_name) (strata.named_shallow lib type_name)
            (λ t known.
              chain-Shallow (decode_ref sha256 registry fuel lib (inline t) content)
                (ref-Shallow sha256 registry heights strata fuel lib (inline t) content
                  (enough lib t found known))
                (λ a _.
                  chain-Shallow (guard (size a.1 == 0) trailing_data)
                    (guard-Shallow _ trailing_data (λ e. cc)) (λ _ _. ok-Shallow _)))) in
    (answers, decode-Extends sha256 registry fuel more library_name type_name content answers)
