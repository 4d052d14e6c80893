-- ===== src/StrictTypes/Fuel/Leaves.antt =====
-- strict_types/decode.go with fuel above the height of a type.
use Prim.Native.Nat.{max}
use rgb.Prelude.{
  ℕ, ◌≢◌, arith, Bool, true, false, not, List, ◌∷◌, Result, err, too_deep, guard, of_option,
  unknown_variant, non_canonical, foreign, out_of_bounds, String, if◌then◌else◌, ◌==◌, ltb, ◌-◌,
}
use rgb.Prelude.Bytes.{ByteString}
use rgb.Prelude.Keyed.{bytes_eq_instance}
use rgb.StrictEncoding.Decoder
use rgb.StrictEncoding.Decoder.{Decoder, width}
use rgb.StrictTypes.Unicode.{utf8_valid}
use rgb.StrictTypes.ParsedType.{primitive_size}
use rgb.StrictTypes.Decode.{
  number_of, decode_primitive, unicode_width, decode_unicode, name_of_tag, decode_enum,
  decode_length, decode_raw,
}
use rgb.StrictTypes.Fuel.Depth.{
  Shallow, ok-Shallow, chain-Shallow, guard-Shallow, of_option-Shallow,
}

pub raw-Shallow : (n : ℕ) (input : ByteString) → Shallow (Decoder.raw n input)
unfolding Decoder.raw
raw-Shallow n input h = ground (arith, h)

unsigned-Shallow : (n : ℕ) (input : ByteString) → Shallow (Decoder.unsigned n input)
unfolding Decoder.unsigned
unsigned-Shallow n input =
    chain-Shallow (Decoder.raw n input) (raw-Shallow n input) (λ a _. ok-Shallow _)

pub u8-Shallow : (input : ByteString) → Shallow (Decoder.u8 input)
unfolding Decoder.u8
u8-Shallow input = unsigned-Shallow 1 input

pub if-Shallow {ℓ} :
    {A : Type ℓ} (c : Bool) (m m' : Result A)
    → Shallow m
    → Shallow m'
    → Shallow (if c then m else m')
if-Shallow true m m' f g = f
if-Shallow false m m' f g = g

bounds-Shallow {ℓ} : {A : Type ℓ} → Shallow {A = A} (err out_of_bounds)
bounds-Shallow h = cc

foreign-Shallow {ℓ} : {A : Type ℓ} → Shallow {A = A} (err foreign)
foreign-Shallow h = cc

pub length-Shallow : (min max : ℕ) (input : ByteString) → Shallow (decode_length min max input)
unfolding decode_length Decoder.length
length-Shallow min max input =
    chain-Shallow (Decoder.length max input)
      (chain-Shallow (Decoder.unsigned (width max) input) (unsigned-Shallow (width max) input)
        (λ a _. if-Shallow (ltb max a.0) _ _ bounds-Shallow (ok-Shallow _)))
      (λ a _. if-Shallow (ltb a.0 min) _ _ bounds-Shallow (ok-Shallow _))

pub bytes-Shallow : (min max : ℕ) (input : ByteString) → Shallow (decode_raw min max input)
unfolding decode_raw
bytes-Shallow min max input =
    chain-Shallow (decode_length min max input) (length-Shallow min max input)
      (λ a _. raw-Shallow a.0 a.1)

pub foreign≢too_deep : foreign ≢ too_deep
foreign≢too_deep h = cc

pub unknown≢too_deep : unknown_variant ≢ too_deep
unknown≢too_deep h = cc

pub canonical≢too_deep : non_canonical ≢ too_deep
canonical≢too_deep h = cc

number-Shallow : (p : ℕ) (raw : ByteString) → Shallow (number_of p raw)
unfolding number_of
number-Shallow p raw h = ground (arith, h)

pub primitive-Shallow : (p : ℕ) (input : ByteString) → Shallow (decode_primitive p input)
unfolding decode_primitive
primitive-Shallow p input = if-Shallow (p == 0) _ _ (ok-Shallow _) (
    chain-Shallow (guard (not (primitive_size p == 0)) foreign)
      (guard-Shallow _ foreign foreign≢too_deep)
      (λ _ _.
        chain-Shallow (Decoder.raw (primitive_size p) input) (raw-Shallow (primitive_size p) input)
          (λ a _. chain-Shallow (number_of p a.0) (number-Shallow p a.0) (λ b _. ok-Shallow _))))

pub unicode-Shallow : (input : ByteString) → Shallow (decode_unicode input)
unfolding decode_unicode
unicode-Shallow input = chain-Shallow (Decoder.u8 input) (u8-Shallow input) (λ a _.
    chain-Shallow (of_option foreign (unicode_width a.0))
      (of_option-Shallow foreign _ foreign≢too_deep)
      (λ w _. chain-Shallow (Decoder.raw (w - 1) a.1) (raw-Shallow (w - 1) a.1) (λ b _.
        chain-Shallow (guard (utf8_valid (a.0 ∷ b.0)) foreign)
          (guard-Shallow _ foreign foreign≢too_deep) (λ _ _. ok-Shallow _))))

pub enum-Shallow :
    (variants : List (String × ℕ)) (input : ByteString) → Shallow (decode_enum variants input)
unfolding decode_enum
enum-Shallow variants input = chain-Shallow (Decoder.u8 input) (u8-Shallow input) (λ a _.
    chain-Shallow (of_option unknown_variant (name_of_tag a.0 variants))
      (of_option-Shallow unknown_variant _ unknown≢too_deep) (λ b _. ok-Shallow _))
