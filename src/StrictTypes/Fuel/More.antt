-- ===== src/StrictTypes/Fuel/More.antt =====
-- The fuel of the decoder only bounds the nesting: with more of it, nothing that was decoded changes.
use rgb.Prelude.{
  ℕ, zero, suc, ◌≡◌, ◌≢◌, refl, Bool, true, false, Option, none, some, List, [], ◌∷◌, Result, ok,
  err, too_deep, guard, unknown_variant, ◌>>=◌, if◌then◌else◌, String,
}
use rgb.Prelude.Bytes.{ByteString}
use rgb.Prelude.Keyed.{bytes_eq_instance}
use rgb.Consensus.TaggedHash.{Hash}
use rgb.StrictEncoding.Decoder.{Decoder}
use rgb.StrictTypes.Value.{Value}
use rgb.StrictTypes.ParsedType.{
  TypeRef, ParsedType, Refs, Members, Registry, Restricted, resolve, enum_test, test_type,
  test_found, ref_is_char_enum, ref_enum_has_tag, restricted_string, restricted_rest, restricted_of,
  list_parts, primitive, unicode, enum, union, tuple, struct, array, list, set, map, no_refs,
  ref_cons, no_members, member_cons,
}
use rgb.StrictTypes.Decode.{
  decode_refs, decode_members, decode_count, all_have_tag, check_restricted,
}

-- The second gives what the first gives, unless that is for lack of fuel.
abbrev pub Extends {ℓ} : {A : Type ℓ} → Result A → Result A → Type ℓ
Extends m m' = m ≢ err too_deep → m' ≡ m

pub same {ℓ} : {A : Type ℓ} (m : Result A) → Extends m m
same m h = refl

pub chain {ℓ κ} :
    {A : Type ℓ} {B : Type κ} (m m' : Result A) {k k' : A → Result B}
    → Extends m m'
    → ((a : A) → Extends (k a) (k' a))
    → Extends (m >>= k) (m' >>= k')
chain (err e) m' f g h = rw (f (λ d. h (cc))) refl
chain (ok a) m' {k} {k'} f g h = rw (f (λ d. absurd (cc))) (g a h)

module _ (registry : Registry) where
  test_type-Extends :
      (test : List (String × ℕ) → Bool) (next next' : registry.Lib → TypeRef → Result Bool)
      → ((lib : registry.Lib) (ref : TypeRef) → Extends (next lib ref) (next' lib ref))
      → (lib : registry.Lib) (t : ParsedType)
      → Extends (test_type registry test next lib t) (test_type registry test next' lib t)
  unfolding test_type
  test_type-Extends test next next' more lib (primitive p) = same (ok false)
  test_type-Extends test next next' more lib unicode = same (ok false)
  test_type-Extends test next next' more lib (enum variants) = same (ok (test variants))
  test_type-Extends test next next' more lib (union vs) = same (ok false)
  test_type-Extends test next next' more lib (tuple no_refs) = same (ok false)
  test_type-Extends test next next' more lib (tuple (ref_cons first rest)) = more lib first
  test_type-Extends test next next' more lib (struct ms) = same (ok false)
  test_type-Extends test next next' more lib (array ref count) = same (ok false)
  test_type-Extends test next next' more lib (list ref min max) = same (ok false)
  test_type-Extends test next next' more lib (set ref min max) = same (ok false)
  test_type-Extends test next next' more lib (map key_ref value_ref min max) = same (ok false)

  test_found-Extends :
      (test : List (String × ℕ) → Bool) (next next' : registry.Lib → TypeRef → Result Bool)
      → ((lib : registry.Lib) (ref : TypeRef) → Extends (next lib ref) (next' lib ref))
      → (r : Result (registry.Lib × ParsedType))
      → Extends (test_found registry test next r) (test_found registry test next' r)
  unfolding test_found
  test_found-Extends test next next' more (err e) = same (ok false)
  test_found-Extends test next next' more (ok (lib, t)) =
      test_type-Extends test next next' more lib t

  enum_test-Extends :
      (test : List (String × ℕ) → Bool) (n : ℕ) (lib : registry.Lib) (ref : TypeRef)
      → Extends (enum_test registry test n lib ref) (enum_test registry test (suc n) lib ref)
  unfolding enum_test
  enum_test-Extends test zero lib ref = λ h. absurd (h refl)
  enum_test-Extends test (suc n) lib ref =
      test_found-Extends test (enum_test registry test n) (enum_test registry test (suc n))
        (enum_test-Extends test n) (resolve registry lib ref)

  pub char_enum-Extends :
      (n : ℕ) (lib : registry.Lib) (ref : TypeRef)
      → Extends (ref_is_char_enum registry n lib ref) (ref_is_char_enum registry (suc n) lib ref)
  unfolding ref_is_char_enum
  char_enum-Extends n lib ref = enum_test-Extends _ n lib ref

  has_tag-Extends :
      (n : ℕ) (lib : registry.Lib) (ref : TypeRef) (tag : ℕ)
      → Extends
          (ref_enum_has_tag registry n lib ref tag)
          (ref_enum_has_tag registry (suc n) lib ref tag)
  unfolding ref_enum_has_tag
  has_tag-Extends n lib ref tag = enum_test-Extends _ n lib ref

  of-Extends :
      (n : ℕ) (lib : registry.Lib) (o : Option (TypeRef × ℕ × ℕ))
      → Extends (restricted_of registry n lib o) (restricted_of registry (suc n) lib o)
  unfolding restricted_of
  of-Extends n lib none = same (ok none)
  of-Extends n lib (some (ref, min, max)) =
      chain (ref_is_char_enum registry n lib ref) (ref_is_char_enum registry (suc n) lib ref)
        (char_enum-Extends n lib ref) (λ is_enum. same _)

  rest-Extends :
      (n : ℕ) (r : Result (registry.Lib × ParsedType))
      → Extends (restricted_rest registry n r) (restricted_rest registry (suc n) r)
  unfolding restricted_rest
  rest-Extends n (err e) = same (ok none)
  rest-Extends n (ok (lib, t)) = of-Extends n lib (list_parts t)

  pub string-Extends :
      (n : ℕ) (lib : registry.Lib) (refs : Refs)
      → Extends
          (restricted_string registry n lib refs)
          (restricted_string registry (suc n) lib refs)
  unfolding restricted_string
  string-Extends n lib no_refs = same (ok none)
  string-Extends n lib (ref_cons first no_refs) = same (ok none)
  string-Extends n lib (ref_cons first (ref_cons rest (ref_cons more refs))) = same (ok none)
  string-Extends n lib (ref_cons first (ref_cons rest no_refs)) =
      chain (ref_is_char_enum registry n lib first) (ref_is_char_enum registry (suc n) lib first)
        (char_enum-Extends n lib first) (λ is_enum. by_first is_enum)
    where
      by_first :
          (is_enum : Bool)
          → Extends
              (if is_enum then restricted_rest registry n (resolve registry lib rest) else ok none)
              (if is_enum
                then restricted_rest registry (suc n) (resolve registry lib rest)
                else ok none)
      by_first true = rest-Extends n (resolve registry lib rest)
      by_first false = same (ok none)

module _ (sha256 : Hash) (registry : Registry) (n : ℕ)
    (decode decode' : registry.Lib → TypeRef → Decoder Value)
    (more : (lib : registry.Lib) (ref : TypeRef) (input : ByteString)
      → Extends (decode lib ref input) (decode' lib ref input)) where
  pub tags-Extends :
      (lib : registry.Lib) (ref : TypeRef) (chars : ByteString)
      → Extends
          (all_have_tag sha256 registry n lib ref chars)
          (all_have_tag sha256 registry (suc n) lib ref chars)
  unfolding all_have_tag
  tags-Extends lib ref [] = same (ok tt)
  tags-Extends lib ref (char ∷ chars) =
      chain (ref_enum_has_tag registry n lib ref char)
        (ref_enum_has_tag registry (suc n) lib ref char) (has_tag-Extends registry n lib ref char)
        (λ known.
          chain (guard known unknown_variant) (guard known unknown_variant) (same _)
            (λ _. tags-Extends lib ref chars))

  pub restricted-Extends :
      (lib : registry.Lib) (refs : Refs) (r : Restricted registry.Lib) (raw : ByteString)
      → Extends
          (check_restricted sha256 registry n lib refs r raw)
          (check_restricted sha256 registry (suc n) lib refs r raw)
  unfolding check_restricted
  restricted-Extends lib no_refs r raw = same (err unknown_variant)
  restricted-Extends lib (ref_cons first rest) r [] = same (err unknown_variant)
  restricted-Extends lib (ref_cons first rest) r (char ∷ chars) =
      chain (ref_enum_has_tag registry n lib first char)
        (ref_enum_has_tag registry (suc n) lib first char)
        (has_tag-Extends registry n lib first char)
        (λ known.
          chain (guard known unknown_variant) (guard known unknown_variant) (same _)
            (λ _. tags-Extends r.rest_lib r.rest_ref chars))

  pub refs-Extends :
      (lib : registry.Lib) (refs : Refs) (input : ByteString)
      → Extends
          (decode_refs sha256 registry n decode lib refs input)
          (decode_refs sha256 registry (suc n) decode' lib refs input)
  unfolding decode_refs
  refs-Extends lib no_refs input = same _
  refs-Extends lib (ref_cons ref refs) input =
      chain (decode lib ref input) (decode' lib ref input) (more lib ref input) (λ a.
        chain (decode_refs sha256 registry n decode lib refs a.1)
          (decode_refs sha256 registry (suc n) decode' lib refs a.1) (refs-Extends lib refs a.1)
          (λ b. same _))

  pub members-Extends :
      (lib : registry.Lib) (ms : Members) (input : ByteString)
      → Extends
          (decode_members sha256 registry n decode lib ms input)
          (decode_members sha256 registry (suc n) decode' lib ms input)
  unfolding decode_members
  members-Extends lib no_members input = same _
  members-Extends lib (member_cons name ref ms) input =
      chain (decode lib ref input) (decode' lib ref input) (more lib ref input) (λ a.
        chain (decode_members sha256 registry n decode lib ms a.1)
          (decode_members sha256 registry (suc n) decode' lib ms a.1) (members-Extends lib ms a.1)
          (λ b. same _))

  pub count-Extends :
      (k : ℕ) (lib : registry.Lib) (ref : TypeRef) (input : ByteString)
      → Extends
          (decode_count sha256 registry n decode k lib ref input)
          (decode_count sha256 registry (suc n) decode' k lib ref input)
  unfolding decode_count
  count-Extends zero lib ref input = same _
  count-Extends (suc k) lib ref input =
      chain (decode lib ref input) (decode' lib ref input) (more lib ref input) (λ a.
        chain (decode_count sha256 registry n decode k lib ref a.1)
          (decode_count sha256 registry (suc n) decode' k lib ref a.1) (count-Extends k lib ref a.1)
          (λ b. same _))
