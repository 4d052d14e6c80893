-- ===== src/StrictTypes/Canonical/Keys.antt =====
-- The keys of a map that the decoder accepts.
use rgb.Prelude.{
  ℕ, zero, suc, ◌≤◌, ◌≡◌, refl, sym, ap, subst, Bool, true, false, not, Option, none, some, List,
  [], ◌∷◌, ok, non_canonical, after_ok, after_guard, arith,
}
use rgb.Prelude.Bytes.{ByteString}
use rgb.Prelude.Keyed.{contains, bytes_eq_instance}
use rgb.Consensus.TaggedHash.{Hash}
use rgb.StrictEncoding.Decoder
use rgb.StrictEncoding.Decoder.{Decoder}
use rgb.Operations.Disclosure.{DistinctIds}
use rgb.StrictTypes.Value.{Value, node, Entries, no_entries, entry_cons, attributes}
use rgb.StrictTypes.Compare.{entry_count}
use rgb.StrictTypes.ParsedType.{TypeRef, Registry, resolve}
use rgb.StrictTypes.Decode.{
  follows, bytes_read, set_encoded, decode_length, decode_pairs, decode_map, decode_body,
  decode_ref,
}
use rgb.StrictTypes.Encode.{keys_sorted, raw_entries}
use rgb.StrictTypes.Canonical.Wrote.{and_true, returned_by}

-- The encodings of the keys, the last one first.
abbrev pub key_encodings : List ByteString → Entries → List ByteString
key_encodings found no_entries = found
key_encodings found (entry_cons k v m) = key_encodings ((attributes k).encoded ∷ found) m

kept : (c : ByteString) (v : Value) → (attributes (set_encoded c v)).encoded ≡ c
kept c (node a i f l m) = refl

-- A value keeps the bytes that it was read from.
encoded-decode_ref :
    (sha256 : Hash) (registry : Registry) (fuel : ℕ) (lib : registry.Lib) (ref : TypeRef)
    (v : Value) (input rest : ByteString)
    → decode_ref sha256 registry fuel lib ref input ≡ ok (v, rest)
    → (attributes v).encoded ≡ bytes_read input rest
unfolding decode_ref
encoded-decode_ref sha256 registry zero lib ref v input rest h = absurd (cc)
encoded-decode_ref sha256 registry (suc n) lib ref v input rest h =
    after_ok (resolve registry lib ref) _ h (λ found known done.
      after_ok (decode_body sha256 registry n (decode_ref sha256 registry n) found.0 found.1 input)
        _ done
        (λ a read last.
          returned_by (λ t s. (attributes t).encoded ≡ bytes_read input s) last
            (kept (bytes_read input a.1) a.0)))

not-true : (b : Bool) → not b ≡ true → b ≡ false
not-true false h = refl
not-true true h = absurd (cc)

length_bounds :
    (min max n : ℕ) (input rest : ByteString)
    → decode_length min max input ≡ ok (n, rest)
    → (min ≤ n) × (n ≤ max)
unfolding decode_length Decoder.length
length_bounds min max n input rest h = after_ok (Decoder.length max input) _ h (λ a read done.
    after_ok (Decoder.unsigned (Decoder.width max) input) _ read
      (λ b got last. ground (arith, done, last)))

abbrev AcceptedKeys : Hash → Registry → List ByteString → Option Value → ℕ → Entries → Type 0
AcceptedKeys sha256 registry found previous k m =
    (entry_count m ≡ k)
    × DistinctIds (key_encodings found m)
    × (keys_sorted sha256 registry previous m ≡ true)

module _ (sha256 : Hash) (registry : Registry) (n : ℕ) where
  pairs :
      (k : ℕ) (lib : registry.Lib) (key_ref value_ref : TypeRef) (found : List ByteString)
      (previous : Option Value) (m : Entries) (input rest : ByteString)
      → DistinctIds found
      → decode_pairs sha256 registry n
          (decode_ref sha256 registry n)
          k
          lib
          key_ref
          value_ref
          found
          previous
          input
        ≡ ok (m, rest)
      → AcceptedKeys sha256 registry found previous k m
  unfolding decode_pairs keys_sorted
  pairs zero lib key_ref value_ref found previous m input rest d h =
      returned_by (λ t s. AcceptedKeys sha256 registry found previous 0 t) h (refl, d, refl)
  pairs (suc k) lib key_ref value_ref found previous m input rest d h =
      let decode = decode_ref sha256 registry n in
      after_ok (decode lib key_ref input) _ h (λ a read done.
        let here = bytes_read input a.1 in
        after_guard (not (contains found here)) non_canonical _ done (λ fresh done'.
          after_guard (follows sha256 previous a.0) non_canonical _ done' (λ above done''.
            after_ok (decode lib value_ref a.1) _ done'' (λ v read' done_.
              after_ok
                (decode_pairs sha256 registry n decode k lib key_ref value_ref (here ∷ found)
                  (some a.0) v.1)
                _ done_
                (λ more read'' last.
                  let (count, distinct, order) =
                    pairs k lib key_ref value_ref (here ∷ found) (some a.0) more.0 v.1 more.1
                      (not-true _ fresh, d) read'' in
                  returned_by (λ t s. AcceptedKeys sha256 registry found previous (suc k) t) last
                    (
                      ap suc count,
                      subst (λ e. DistinctIds (key_encodings (e ∷ found) more.0))
                          (sym
                            (encoded-decode_ref sha256 registry n lib key_ref a.0 input a.1 read))
                          distinct,
                      and_true _ _ above order,
                    ))))))

-- A map that the decoder accepts has a number of entries within the limits of its type, no two keys
-- with the same encoding, and every key above the one before it in the canonical order of values.
pub decode_map-DistinctIds :
    (sha256 : Hash) (registry : Registry) (n : ℕ) (lib : registry.Lib) (key_ref value_ref : TypeRef)
    (min max : ℕ) (v : Value) (input rest : ByteString)
    → decode_map sha256 registry n
        (decode_ref sha256 registry n)
        lib
        key_ref
        value_ref
        min
        max
        input
      ≡ ok (v, rest)
    → (min ≤ entry_count (raw_entries v))
      × (entry_count (raw_entries v) ≤ max)
      × DistinctIds (key_encodings [] (raw_entries v))
      × (keys_sorted sha256 registry none (raw_entries v) ≡ true)
unfolding decode_map
decode_map-DistinctIds sha256 registry n lib key_ref value_ref min max v input rest h =
    let decode = decode_ref sha256 registry n in
    after_ok (decode_length min max input) _ h (λ a read done.
      after_ok (decode_pairs sha256 registry n decode a.0 lib key_ref value_ref [] none a.1) _ done
        (λ m read' last.
          let (lo, hi) = length_bounds min max a.0 input a.1 read in
          let (count, distinct, order) =
            pairs sha256 registry n a.0 lib key_ref value_ref [] none m.0 a.1 m.1 tt read' in
          returned_by
            (λ t s.
              (min ≤ entry_count (raw_entries t))
              × (entry_count (raw_entries t) ≤ max)
              × DistinctIds (key_encodings [] (raw_entries t))
              × (keys_sorted sha256 registry none (raw_entries t) ≡ true))
            last (omega arith, omega arith, distinct, order)))
