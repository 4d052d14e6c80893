-- ===== src/StrictTypes/Fuel/Texts.antt =====
-- The tests of strict_types/decode.go on parts of text, with fuel above the height of the types.
use rgb.Prelude.{
  ℕ, zero, suc, ◌+◌, ◌<◌, ◌≤◌, ◌≡◌, refl, ap, subst, arith, Bool, true, false, not, Option, none,
  some, List, Result, ok, err, after_ok, String, if◌then◌else◌, ◌==◌, ◌||◌, ◌^◌, ◌%◌,
}
use rgb.Prelude.Keyed.{bytes_eq_instance}
use rgb.StrictTypes.ParsedType.{
  TypeRef, ParsedType, Refs, Registry, Restricted, resolve, enum_test, test_type, test_found,
  ref_is_char_enum, ref_enum_has_tag, restricted_string, restricted_rest, restricted_of, max_uint64,
  list_parts, primitive, unicode, enum, union, tuple, struct, array, list, set, map, no_refs,
  ref_cons,
}
use rgb.StrictTypes.Fuel.Depth.{
  Shallow, ok-Shallow, chain-Shallow, ref_height, type_height, refs_height, IsStratified,
  resolve-below,
}
use rgb.StrictTypes.Fuel.Leaves.{if-Shallow}

module _ (registry : Registry) (heights : registry.Lib → String → ℕ)
    (strata : IsStratified registry heights) where
  test_type-Shallow :
      (test : List (String × ℕ) → Bool) (next : registry.Lib → TypeRef → Result Bool)
      (lib : registry.Lib) (t : ParsedType)
      → ((ref : TypeRef)
          → ref_height registry heights lib ref ≤ type_height registry heights lib t
          → Shallow (next lib ref))
      → Shallow (test_type registry test next lib t)
  unfolding test_type type_height
  test_type-Shallow test next lib (primitive p) low = ok-Shallow false
  test_type-Shallow test next lib unicode low = ok-Shallow false
  test_type-Shallow test next lib (enum variants) low = ok-Shallow (test variants)
  test_type-Shallow test next lib (union vs) low = ok-Shallow false
  test_type-Shallow test next lib (tuple no_refs) low = ok-Shallow false
  test_type-Shallow test next lib (tuple (ref_cons first rest)) low = low first (omega arith)
  test_type-Shallow test next lib (struct ms) low = ok-Shallow false
  test_type-Shallow test next lib (array ref count) low = ok-Shallow false
  test_type-Shallow test next lib (list ref least most) low = ok-Shallow false
  test_type-Shallow test next lib (set ref least most) low = ok-Shallow false
  test_type-Shallow test next lib (map key_ref value_ref least most) low = ok-Shallow false

  test_found-Shallow :
      (test : List (String × ℕ) → Bool) (next : registry.Lib → TypeRef → Result Bool)
      (r : Result (registry.Lib × ParsedType))
      → ((found : registry.Lib × ParsedType)
          → r ≡ ok found
          → (ref : TypeRef)
          → ref_height registry heights found.0 ref ≤ type_height registry heights found.0 found.1
          → Shallow (next found.0 ref))
      → Shallow (test_found registry test next r)
  unfolding test_found
  test_found-Shallow test next (err e) low = ok-Shallow false
  test_found-Shallow test next (ok (lib, t)) low =
      test_type-Shallow test next lib t (low (lib, t) refl)

  enum_test-Shallow :
      (test : List (String × ℕ) → Bool) (n : ℕ) (lib : registry.Lib) (ref : TypeRef)
      → ref_height registry heights lib ref < n
      → Shallow (enum_test registry test n lib ref)
  unfolding enum_test
  enum_test-Shallow test zero lib ref h = absurd (omega arith)
  enum_test-Shallow test (suc n) lib ref h =
      test_found-Shallow test (enum_test registry test n) (resolve registry lib ref)
        (λ found known part low.
          enum_test-Shallow test n found.0 part
            (omega (arith, resolve-below registry heights strata lib ref found known)))

  pub char_enum-Shallow :
      (n : ℕ) (lib : registry.Lib) (ref : TypeRef)
      → ref_height registry heights lib ref < n
      → Shallow (ref_is_char_enum registry n lib ref)
  unfolding ref_is_char_enum
  char_enum-Shallow n lib ref = enum_test-Shallow _ n lib ref

  pub has_tag-Shallow :
      (n : ℕ) (lib : registry.Lib) (ref : TypeRef) (tag : ℕ)
      → ref_height registry heights lib ref < n
      → Shallow (ref_enum_has_tag registry n lib ref tag)
  unfolding ref_enum_has_tag
  has_tag-Shallow n lib ref tag = enum_test-Shallow _ n lib ref

  part_below :
      (lib : registry.Lib) (t : ParsedType) (ref : TypeRef) (least most : ℕ)
      → list_parts t ≡ some (ref, least, most)
      → ref_height registry heights lib ref ≤ type_height registry heights lib t
  unfolding type_height
  part_below lib (list r l m) ref least most h =
      let same : r ≡ ref = cc in
      let height : ref_height registry heights lib r ≡ ref_height registry heights lib ref =
        ap (ref_height registry heights lib) same in
      omega arith
  part_below lib t ref least most h = absurd (cc)

  restricted_of-Shallow :
      (n : ℕ) (lib : registry.Lib) (o : Option (TypeRef × ℕ × ℕ))
      → ((ref : TypeRef) (least most : ℕ)
          → o ≡ some (ref, least, most)
          → ref_height registry heights lib ref < n)
      → Shallow (restricted_of registry n lib o)
  unfolding restricted_of
  restricted_of-Shallow n lib none low = ok-Shallow none
  restricted_of-Shallow n lib (some (ref, least, most)) low =
      chain-Shallow (ref_is_char_enum registry n lib ref)
        (char_enum-Shallow n lib ref (low ref least most refl))
        (λ is_enum _.
          if-Shallow (not is_enum || most == max_uint64) _ _ (ok-Shallow none) (ok-Shallow _))

  restricted_rest-Shallow :
      (n : ℕ) (lib : registry.Lib) (ref : TypeRef) (r : Result (registry.Lib × ParsedType))
      → resolve registry lib ref ≡ r
      → ref_height registry heights lib ref < n
      → Shallow (restricted_rest registry n r)
  unfolding restricted_rest
  restricted_rest-Shallow n lib ref (err e) h low = ok-Shallow none
  restricted_rest-Shallow n lib ref (ok (other, t)) h low =
      restricted_of-Shallow n other (list_parts t) (λ part least most known. omega (
        arith,
        resolve-below registry heights strata lib ref (other, t) h,
        part_below other t part least most known,
      ))

  pub string-Shallow :
      (n : ℕ) (lib : registry.Lib) (refs : Refs)
      → refs_height registry heights lib refs < n
      → Shallow (restricted_string registry n lib refs)
  unfolding restricted_string refs_height
  string-Shallow n lib no_refs low = ok-Shallow none
  string-Shallow n lib (ref_cons first no_refs) low = ok-Shallow none
  string-Shallow n lib (ref_cons first (ref_cons rest (ref_cons more refs))) low = ok-Shallow none
  string-Shallow n lib (ref_cons first (ref_cons rest no_refs)) low =
      chain-Shallow (ref_is_char_enum registry n lib first)
        (char_enum-Shallow n lib first (omega arith))
        (λ is_enum _.
          if-Shallow is_enum _ _
            (restricted_rest-Shallow n lib rest (resolve registry lib rest) refl (omega arith))
            (ok-Shallow none))

  -- The further characters of a restricted string lie lower, too.
  of_below :
      (n : ℕ) (lib : registry.Lib) (o : Option (TypeRef × ℕ × ℕ)) (r : Restricted registry.Lib)
      → ((ref : TypeRef) (least most : ℕ)
          → o ≡ some (ref, least, most)
          → ref_height registry heights lib ref < n)
      → restricted_of registry n lib o ≡ ok (some r)
      → ref_height registry heights r.rest_lib r.rest_ref < n
  unfolding restricted_of
  of_below n lib none r low h = absurd (cc)
  of_below n lib (some (ref, least, most)) r low h =
      after_ok (ref_is_char_enum registry n lib ref) _ h
        (λ is_enum _ done. kept (not is_enum || most == max_uint64) done)
    where
      kept :
          (c : Bool)
          → (if c
              then ok none
              else ok (
                  some (record {
                    rest_lib = lib;
                    rest_ref = ref;
                    min = (least + 1) % 2 ^ 64;
                    max = most + 1;
                  })))
            ≡ ok (some r)
          → ref_height registry heights r.rest_lib r.rest_ref < n
      kept true e = absurd (cc)
      kept false e =
          let same : ◌≡◌ {A = Restricted registry.Lib}
              (record {
                rest_lib = lib;
                rest_ref = ref;
                min = (least + 1) % 2 ^ 64;
                max = most + 1;
              })
              r =
            cc in
          subst (λ q. ref_height registry heights q.rest_lib q.rest_ref < n) same
            (low ref least most refl)

  rest_below :
      (n : ℕ) (lib : registry.Lib) (ref : TypeRef) (q : Result (registry.Lib × ParsedType))
      (r : Restricted registry.Lib)
      → resolve registry lib ref ≡ q
      → ref_height registry heights lib ref < n
      → restricted_rest registry n q ≡ ok (some r)
      → ref_height registry heights r.rest_lib r.rest_ref < n
  unfolding restricted_rest
  rest_below n lib ref (err e) r h low k = absurd (cc)
  rest_below n lib ref (ok (other, t)) r h low k =
      of_below n other (list_parts t) r
        (λ part least most known. omega (
          arith,
          resolve-below registry heights strata lib ref (other, t) h,
          part_below other t part least most known,
        ))
        k

  pub string_below :
      (n : ℕ) (lib : registry.Lib) (refs : Refs) (r : Restricted registry.Lib)
      → refs_height registry heights lib refs < n
      → restricted_string registry n lib refs ≡ ok (some r)
      → ref_height registry heights r.rest_lib r.rest_ref < n
  unfolding restricted_string refs_height
  string_below n lib no_refs r low h = absurd (cc)
  string_below n lib (ref_cons first no_refs) r low h = absurd (cc)
  string_below n lib (ref_cons first (ref_cons rest (ref_cons more refs))) r low h = absurd (cc)
  string_below n lib (ref_cons first (ref_cons rest no_refs)) r low h =
      after_ok (ref_is_char_enum registry n lib first) _ h (λ is_enum _ done. chosen is_enum done)
    where
      chosen :
          (c : Bool)
          → (if c then restricted_rest registry n (resolve registry lib rest) else ok none)
            ≡ ok (some r)
          → ref_height registry heights r.rest_lib r.rest_ref < n
      chosen true e = rest_below n lib rest (resolve registry lib rest) r refl (omega arith) e
      chosen false e = absurd (cc)
