-- ===== src/Runs/StrictTypes.antt =====
-- The codec of strict types at a concrete type: the witnesses.
use rgb.Prelude.{
  suc, ◌<◌, ◌≢◌, too_deep, subst, String, ℕ, ◌+◌, non_canonical, none, ◌≤◌, ◌≡◌, refl, [], ◌∷◌, ok,
  err, Result, foreign, if◌then◌else◌, str_eq, true, false, Bool, ltb, ◌&&◌, All, arith,
}
use rgb.Prelude.Bytes.{ByteString, IsByte, bytes_eq, get_le}
use rgb.StrictTypes.Value.{Value, zero_value}
use rgb.StrictTypes.ParsedType.{
  TypeRef, ParsedType, Registry, named, inline, primitive, unicode, enum, union, tuple, struct,
  list, set, map, ref_cons, no_refs, member_cons, no_members, variant_cons, no_variants,
}
use rgb.StrictTypes.Decode.{decode}
use rgb.StrictTypes.Encode.{encode}
use rgb.Operations.Disclosure.{DistinctIds}
use rgb.StrictTypes.Compare.{entry_count}
use rgb.StrictTypes.Decode.{decode_map, decode_ref}
use rgb.StrictTypes.Encode.{raw_entries, keys_sorted}
use rgb.StrictTypes.Fuel.Depth.{IsStratified, Shallow, ok-Shallow, type_height}
use rgb.StrictTypes.Fuel.Ends.{decode-ends}
use rgb.StrictTypes.Canonical.Whole.{encode-decode}
use rgb.StrictTypes.Canonical.Keys.{key_encodings, decode_map-DistinctIds}
use rgb.Runs.Anchored.{sample_hash}

abbrev letters : ParsedType
letters = enum (("a", 97) ∷ ("b", 98) ∷ ("c", 99) ∷ [])

abbrev amount : TypeRef
amount = inline (
    union (
      variant_cons "none" 0 (inline (primitive 0))
        (variant_cons "some" 1 (inline (primitive 8)) no_variants)))

-- A name of one letter and up to three more, balances by small numbers, a set of characters.
abbrev contract : ParsedType
contract = struct (
    member_cons "name"
      (inline (
        tuple
          (ref_cons (named "letters") (ref_cons (inline (list (named "letters") 0 3)) no_refs))))
      (member_cons "balances" (inline (map (inline (primitive 1)) amount 0 255)) (
        member_cons "marks" (inline (set (inline unicode) 0 255))
          (member_cons "salt" (inline (list (inline (primitive 0x40)) 0 255)) no_members))))

abbrev sample_registry : Registry
sample_registry = record {
  Lib = Unit {0};
  library = λ name. ok tt;
  semantic = λ lib id. if str_eq id "letters" then ok letters else err foreign;
  named_type = λ lib name. if str_eq name "Contract" then ok contract else err foreign;
}

-- "cab", two balances, one character of two bytes after one of one byte, three bytes of salt.
abbrev content : ByteString
content =
    3 ∷ 99 ∷ 97 ∷ 98 ∷ 2 ∷ 1 ∷ 0 ∷ 7 ∷ 1 ∷ 232 ∷ 3 ∷ 0 ∷ 0 ∷ 0 ∷ 0 ∷ 0 ∷ 0 ∷ 2 ∷ 65 ∷ 195 ∷ 169 ∷ 3
    ∷ 1 ∷ 2 ∷ 3 ∷ []

abbrev result_or {ℓ} : {A : Type ℓ} → A → Result A → A
result_or default (ok a) = a
result_or default (err e) = default

abbrev decoded : Value
unfolding decode sample_hash bytes_eq
decoded =
    result_or zero_value (decode sample_hash sample_registry 4 "RGBContract" "Contract" content)

abbrev small : ByteString → Bool
small [] = true
small (b ∷ bs) = ltb b 256 && small bs

all_bytes : (bs : ByteString) → small bs ≡ true → All IsByte bs
all_bytes [] h = tt
all_bytes (b ∷ bs) h = (ground arith, all_bytes bs (ground arith))

test_type_missing : decode sample_hash sample_registry 4 "RGBContract" "Other" content ≡ err foreign
unfolding decode sample_hash
test_type_missing = refl

encode-decode_example :
    encode sample_hash sample_registry 4 "RGBContract" "Contract" decoded ≡ ok content
unfolding decode sample_hash bytes_eq get_le
encode-decode_example =
    encode-decode sample_hash sample_registry 4 "RGBContract" "Contract" content decoded
      (all_bytes content refl) refl

abbrev balances : ByteString
balances = 2 ∷ 1 ∷ 0 ∷ 7 ∷ 1 ∷ 232 ∷ 3 ∷ 0 ∷ 0 ∷ 0 ∷ 0 ∷ 0 ∷ 0 ∷ 42 ∷ []

abbrev two_balances : Value
unfolding decode_map decode_ref sample_hash bytes_eq
two_balances =
    (result_or (zero_value, [])
      (decode_map sample_hash sample_registry 2 (decode_ref sample_hash sample_registry 2) tt
        (inline (primitive 1)) amount 0 255 balances)).0

decode_map-DistinctIds_example :
    (0 ≤ entry_count (raw_entries two_balances))
    × (entry_count (raw_entries two_balances) ≤ 255)
    × DistinctIds (key_encodings [] (raw_entries two_balances))
    × (keys_sorted sample_hash sample_registry none (raw_entries two_balances) ≡ true)
unfolding decode_map decode_ref sample_hash bytes_eq
decode_map-DistinctIds_example =
    decode_map-DistinctIds sample_hash sample_registry 2 tt (inline (primitive 1)) amount 0 255
      two_balances balances (42 ∷ []) refl

-- The same keys in the other order.
test_unordered :
    decode_map sample_hash sample_registry 2
      (decode_ref sample_hash sample_registry 2)
      tt
      (inline (primitive 1))
      (inline (primitive 1))
      0
      255
      (2 ∷ 7 ∷ 0 ∷ 1 ∷ 0 ∷ [])
    ≡ err non_canonical
unfolding decode_map decode_ref sample_hash bytes_eq
test_unordered = refl

abbrev sample_heights : Unit {0} → String → ℕ
sample_heights lib id = 1

sample-IsStratified : IsStratified sample_registry sample_heights
unfolding type_height
sample-IsStratified = record {
  below = λ lib id t h. letters_below (str_eq id "letters") t h;
  library_shallow = λ name. ok-Shallow tt;
  semantic_shallow = λ lib id. answered (str_eq id "letters") letters;
  named_shallow = λ lib name. answered (str_eq name "Contract") contract;
}
  where
    letters_below :
        (c : Bool) (t : ParsedType)
        → (if c then ok letters else err foreign) ≡ ok t
        → type_height sample_registry sample_heights tt t < 1
    letters_below true t h =
        let same : letters ≡ t = cc in
        subst (λ u. type_height sample_registry sample_heights tt u < 1) same
          (unfold type_height in omega arith)
    letters_below false t h = absurd (cc)

    answered : (c : Bool) (t : ParsedType) → Shallow (if c then ok t else err foreign)
    answered true t = ok-Shallow t
    answered false t = λ e. cc

contract_enough :
    (lib : Unit {0}) (t : ParsedType)
    → sample_registry.library "RGBContract" ≡ ok lib
    → sample_registry.named_type lib "Contract" ≡ ok t
    → suc (type_height sample_registry sample_heights lib t) < 5
unfolding type_height
contract_enough lib t h k =
    let same : contract ≡ t = cc in
    subst (λ u. suc (type_height sample_registry sample_heights lib u) < 5) same (omega arith)

decode-ends_example :
    (decode sample_hash sample_registry 5 "RGBContract" "Contract" content ≢ err too_deep)
    × (decode sample_hash sample_registry (9 + 5) "RGBContract" "Contract" content
        ≡ decode sample_hash sample_registry 5 "RGBContract" "Contract" content)
decode-ends_example =
    decode-ends sample_hash sample_registry sample_heights 5 9 "RGBContract" "Contract" content
      sample-IsStratified contract_enough
