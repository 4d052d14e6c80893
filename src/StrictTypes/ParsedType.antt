-- ===== src/StrictTypes/ParsedType.antt =====
-- The definitions of types in strict_types/parsed_type.go and how references to them are resolved in
-- strict_types/decode.go. The registry's libraries, read from JSON, are a parameter.
use rgb.Prelude.{
  ℕ, zero, suc, ◌+◌, ◌*◌, ◌%◌, ◌^◌, ◌-◌, Bool, true, false, not, ◌&&◌, ◌||◌, Option, none, some,
  List, [], ◌∷◌, ltb, leb, ◌==◌, if◌then◌else◌, Result, ok, err, malformed_type, too_deep, ◌>>=◌,
  String,
}

mutual
  pub data TypeRef : Type 0 where
    named : String → TypeRef
    extern : String → String → TypeRef
    inline : ParsedType → TypeRef
    no_ref : TypeRef

  pub data ParsedType : Type 0 where
    primitive : ℕ → ParsedType
    unicode : ParsedType
    enum : List (String × ℕ) → ParsedType
    union : Variants → ParsedType
    tuple : Refs → ParsedType
    struct : Members → ParsedType
    array : TypeRef → ℕ → ParsedType
    list : TypeRef → ℕ → ℕ → ParsedType
    set : TypeRef → ℕ → ℕ → ParsedType
    map : TypeRef → TypeRef → ℕ → ℕ → ParsedType

  pub data Refs : Type 0 where
    no_refs : Refs
    ref_cons : TypeRef → Refs → Refs

  pub data Members : Type 0 where
    no_members : Members
    member_cons : String → TypeRef → Members → Members

  pub data Variants : Type 0 where
    no_variants : Variants
    variant_cons : String → ℕ → TypeRef → Variants → Variants

pub record Registry : Type 1 where
  pub Lib : Type 0
  pub library : String → Result Lib
  pub semantic : Lib → String → Result ParsedType
  pub named_type : Lib → String → Result ParsedType

-- A reference to nothing is malformed.
unfoldable pub resolve :
    (registry : Registry) → registry.Lib → TypeRef → Result (registry.Lib × ParsedType)
resolve registry lib (named id) = do t ← registry.semantic lib id; ok (lib, t)
resolve registry lib (extern lib_id id) = do
  other ← registry.library lib_id
  t ← registry.semantic other id
  ok (other, t)
resolve registry lib (inline t) = ok (lib, t)
resolve registry lib no_ref = err malformed_type

unfoldable pub primitive_size : ℕ → ℕ
primitive_size p =
    if p == 0
    then 0
    else if p == 0x40
    then 1
    else if p == 0xc0
    then 2
    else if ltb (p % 64) 32
    then p % 32
    else 16 * (2 + p % 32)

abbrev pub primitive_is : ℕ → Result ParsedType → Bool
primitive_is p (ok (primitive q)) = q == p
primitive_is p _ = false

abbrev pub unicode_is : Result ParsedType → Bool
unicode_is (ok unicode) = true
unicode_is _ = false

abbrev pub second {ℓ κ} : {A : Type ℓ} {B : Type κ} → Result (A × B) → Result B
second (err e) = err e
second (ok (a, b)) = ok b

unfoldable pub ref_is_primitive : (registry : Registry) → registry.Lib → TypeRef → ℕ → Bool
unfolding resolve
ref_is_primitive registry lib ref p = primitive_is p (second (resolve registry lib ref))

unfoldable pub ref_is_unicode : (registry : Registry) → registry.Lib → TypeRef → Bool
unfolding resolve
ref_is_unicode registry lib ref = unicode_is (second (resolve registry lib ref))

abbrev pub char_tags : List (String × ℕ) → Bool
char_tags [] = true
char_tags ((name, tag) ∷ rest) = (leb 32 tag && leb tag 127) && char_tags rest

abbrev pub is_nonempty {ℓ} : {A : Type ℓ} → List A → Bool
is_nonempty [] = false
is_nonempty (x ∷ xs) = true

abbrev pub has_variant : ℕ → List (String × ℕ) → Bool
has_variant wanted [] = false
has_variant wanted ((name, tag) ∷ rest) = tag == wanted || has_variant wanted rest

-- Both go down the first components of tuples, with `next`, and a failed reference is a `false`.
module _ (registry : Registry) (test : List (String × ℕ) → Bool)
    (next : registry.Lib → TypeRef → Result Bool) where
  unfoldable pub test_type : registry.Lib → ParsedType → Result Bool
  test_type lib (enum variants) = ok (test variants)
  test_type lib (tuple (ref_cons first rest)) = next lib first
  test_type lib _ = ok false

  unfoldable pub test_found : Result (registry.Lib × ParsedType) → Result Bool
  unfolding test_type
  test_found (err e) = ok false
  test_found (ok (lib, t)) = test_type lib t

unfoldable pub enum_test :
    (registry : Registry) → (List (String × ℕ) → Bool) → ℕ → registry.Lib → TypeRef → Result Bool
unfolding resolve test_found
enum_test registry test zero lib ref = err too_deep
enum_test registry test (suc n) lib ref =
    test_found registry test (enum_test registry test n) (resolve registry lib ref)

unfoldable pub ref_is_char_enum : (registry : Registry) → ℕ → registry.Lib → TypeRef → Result Bool
unfolding enum_test
ref_is_char_enum registry =
    enum_test registry (λ variants. is_nonempty variants && char_tags variants)

unfoldable pub ref_enum_has_tag :
    (registry : Registry) → ℕ → registry.Lib → TypeRef → ℕ → Result Bool
unfolding enum_test
ref_enum_has_tag registry n lib ref wanted = enum_test registry (has_variant wanted) n lib ref

pub record Restricted (Lib : Type 0) : Type 0 where
  pub rest_lib : Lib
  pub rest_ref : TypeRef
  pub min : ℕ
  pub max : ℕ

abbrev pub max_uint64 : ℕ
max_uint64 = 2 ^ 64 - 1

abbrev pub list_parts : ParsedType → Option (TypeRef × ℕ × ℕ)
list_parts (list ref min max) = some (ref, min, max)
list_parts _ = none

unfoldable pub restricted_of :
    (registry : Registry)
    → ℕ
    → registry.Lib
    → Option (TypeRef × ℕ × ℕ)
    → Result (Option (Restricted registry.Lib))
unfolding ref_is_char_enum
restricted_of registry n lib none = ok none
restricted_of registry n lib (some (ref, min, max)) = do
  is_enum ← ref_is_char_enum registry n lib ref
  if not is_enum || max == max_uint64
      then ok none
      else ok (
          some (record { rest_lib = lib; rest_ref = ref; min = (min + 1) % 2 ^ 64; max = max + 1 }))

-- A first character and a list of further ones: a string of at least one character.
unfoldable pub restricted_rest :
    (registry : Registry)
    → ℕ
    → Result (registry.Lib × ParsedType)
    → Result (Option (Restricted registry.Lib))
unfolding restricted_of
restricted_rest registry n (err e) = ok none
restricted_rest registry n (ok (lib, t)) = restricted_of registry n lib (list_parts t)

unfoldable pub restricted_string :
    (registry : Registry) → ℕ → registry.Lib → Refs → Result (Option (Restricted registry.Lib))
unfolding resolve ref_is_char_enum restricted_rest
restricted_string registry n lib (ref_cons first (ref_cons rest no_refs)) = do
  is_enum ← ref_is_char_enum registry n lib first
  if is_enum then restricted_rest registry n (resolve registry lib rest) else ok none
restricted_string registry n lib _ = ok none
