-- ===== src/StrictTypes/Canonical/Parts.antt =====
-- The parts of a value in their order: what is read from the input is what is written. What holds of
-- one part, `writes`, holds of every sequence of them.
use rgb.Prelude.{
  ℕ, zero, suc, ◌≡◌, refl, ap, true, not, Option, some, List, ◌∷◌, ok, non_canonical,
  malformed_type, guard-pass, after_ok, after_guard, ◌>>=◌, All, str_eq,
}
use text.Mathlib.TextPositions.{eq_refl as str_eq-refl}
use rgb.Prelude.Bytes.{ByteString, IsByte}
use rgb.Prelude.Keyed.{contains, bytes_eq_instance}
use rgb.Consensus.TaggedHash.{Hash}
use rgb.StrictEncoding.Encoder.{Encoder}
use rgb.StrictEncoding.Decoder.{Decoder}
use rgb.StrictTypes.Value.{Value, Fields, Items, Entries}
use rgb.StrictTypes.Compare.{entry_count}
use rgb.StrictTypes.ParsedType.{
  TypeRef, Refs, Members, Registry, no_refs, ref_cons, no_members, member_cons,
}
use rgb.StrictTypes.Decode.{
  follows, bytes_read, decode_refs, decode_members, decode_count, decode_sorted, decode_pairs,
}
use rgb.StrictTypes.Encode.{
  item_count, field_count, ref_count, member_count, encode_refs, encode_members, encode_items,
  encode_pairs, items_sorted, keys_sorted,
}
use rgb.StrictTypes.Canonical.Wrote.{
  Wrote, Wrote-nothing, Wrote-seq, Wrote-same, Wrote-bytes, returned_by, and_true,
}

-- The bytes that one reader takes are those that a writer puts, after the part before them.
abbrev pub PartWrites :
    (registry : Registry)
    → (registry.Lib → TypeRef → Decoder Value)
    → (registry.Lib → TypeRef → Value → Encoder)
    → Type 0
PartWrites registry decode encode =
    (lib : registry.Lib) (ref : TypeRef) (v : Value) (input rest : ByteString)
    → All IsByte input
    → decode lib ref input ≡ ok (v, rest)
    → Wrote (encode lib ref v) input rest

module _ (sha256 : Hash) (registry : Registry) (n : ℕ)
    (decode : registry.Lib → TypeRef → Decoder Value)
    (encode : registry.Lib → TypeRef → Value → Encoder)
    (writes : PartWrites registry decode encode) where
  pub Wrote-refs :
      (lib : registry.Lib) (refs : Refs) (l : Items) (input rest : ByteString)
      → All IsByte input
      → decode_refs sha256 registry n decode lib refs input ≡ ok (l, rest)
      → Wrote (encode_refs sha256 registry n encode lib refs l) input rest
        × (item_count l ≡ ref_count refs)
  unfolding decode_refs encode_refs
  Wrote-refs lib no_refs l input rest hb h =
      returned_by
        (λ t s.
          Wrote (encode_refs sha256 registry n encode lib no_refs t) input s × (item_count t ≡ 0))
        h (Wrote-nothing input, refl)
  Wrote-refs lib (ref_cons ref refs) l input rest hb h =
      after_ok (decode lib ref input) _ h (λ a read done.
        after_ok (decode_refs sha256 registry n decode lib refs a.1) _ done (λ m read' last.
          let one = writes lib ref a.0 input a.1 hb read in
          let hb' = Wrote-bytes (encode lib ref a.0) input a.1 one hb in
          let (more, count) = Wrote-refs lib refs m.0 a.1 m.1 hb' read' in
          returned_by
            (λ t s.
              Wrote (encode_refs sha256 registry n encode lib (ref_cons ref refs) t) input s
              × (item_count t ≡ suc (ref_count refs)))
            last
            (
              Wrote-seq (encode lib ref a.0) (encode_refs sha256 registry n encode lib refs m.0)
                  input a.1 m.1 one more,
              ap suc count,
            )))

  pub Wrote-count :
      (k : ℕ) (lib : registry.Lib) (ref : TypeRef) (l : Items) (input rest : ByteString)
      → All IsByte input
      → decode_count sha256 registry n decode k lib ref input ≡ ok (l, rest)
      → Wrote (encode_items sha256 registry n encode lib ref l) input rest × (item_count l ≡ k)
  unfolding decode_count encode_items
  Wrote-count zero lib ref l input rest hb h =
      returned_by
        (λ t s.
          Wrote (encode_items sha256 registry n encode lib ref t) input s × (item_count t ≡ 0))
        h (Wrote-nothing input, refl)
  Wrote-count (suc k) lib ref l input rest hb h =
      after_ok (decode lib ref input) _ h (λ a read done.
        after_ok (decode_count sha256 registry n decode k lib ref a.1) _ done (λ m read' last.
          let one = writes lib ref a.0 input a.1 hb read in
          let hb' = Wrote-bytes (encode lib ref a.0) input a.1 one hb in
          let (more, count) = Wrote-count k lib ref m.0 a.1 m.1 hb' read' in
          returned_by
            (λ t s.
              Wrote (encode_items sha256 registry n encode lib ref t) input s
              × (item_count t ≡ suc k))
            last
            (
              Wrote-seq (encode lib ref a.0) (encode_items sha256 registry n encode lib ref m.0)
                  input a.1 m.1 one more,
              ap suc count,
            )))

  -- The items of a set are in order, too.
  pub Wrote-sorted :
      (k : ℕ) (lib : registry.Lib) (ref : TypeRef) (found : List ByteString)
      (previous : Option Value) (l : Items) (input rest : ByteString)
      → All IsByte input
      → decode_sorted sha256 registry n decode k lib ref found previous input ≡ ok (l, rest)
      → Wrote (encode_items sha256 registry n encode lib ref l) input rest
        × (item_count l ≡ k)
        × (items_sorted sha256 registry previous l ≡ true)
  unfolding decode_sorted encode_items items_sorted
  Wrote-sorted zero lib ref found previous l input rest hb h =
      returned_by
        (λ t s.
          Wrote (encode_items sha256 registry n encode lib ref t) input s
          × (item_count t ≡ 0)
          × (items_sorted sha256 registry previous t ≡ true))
        h (Wrote-nothing input, refl, refl)
  Wrote-sorted (suc k) lib ref found previous l input rest hb h =
      after_ok (decode lib ref input) _ h (λ a read done.
        let found' = bytes_read input a.1 ∷ found in
        after_guard (not (contains found (bytes_read input a.1))) non_canonical _ done
          (λ fresh done'.
            after_guard (follows sha256 previous a.0) non_canonical _ done' (λ above done''.
              after_ok (decode_sorted sha256 registry n decode k lib ref found' (some a.0) a.1) _
                done''
                (λ m read' last.
                  let one = writes lib ref a.0 input a.1 hb read in
                  let hb' = Wrote-bytes (encode lib ref a.0) input a.1 one hb in
                  let (more, count, order) =
                    Wrote-sorted k lib ref found' (some a.0) m.0 a.1 m.1 hb' read' in
                  returned_by
                    (λ t s.
                      Wrote (encode_items sha256 registry n encode lib ref t) input s
                      × (item_count t ≡ suc k)
                      × (items_sorted sha256 registry previous t ≡ true))
                    last
                    (
                      Wrote-seq (encode lib ref a.0)
                          (encode_items sha256 registry n encode lib ref m.0) input a.1 m.1 one
                          more,
                      ap suc count,
                      and_true _ _ above order,
                    )))))

  pub Wrote-pairs :
      (k : ℕ) (lib : registry.Lib) (key_ref value_ref : TypeRef) (found : List ByteString)
      (previous : Option Value) (l : Entries) (input rest : ByteString)
      → All IsByte input
      → decode_pairs sha256 registry n decode k lib key_ref value_ref found previous input
        ≡ ok (l, rest)
      → Wrote (encode_pairs sha256 registry n encode lib key_ref value_ref l) input rest
        × (entry_count l ≡ k)
        × (keys_sorted sha256 registry previous l ≡ true)
  unfolding decode_pairs encode_pairs keys_sorted
  Wrote-pairs zero lib key_ref value_ref found previous l input rest hb h =
      returned_by
        (λ t s.
          Wrote (encode_pairs sha256 registry n encode lib key_ref value_ref t) input s
          × (entry_count t ≡ 0)
          × (keys_sorted sha256 registry previous t ≡ true))
        h (Wrote-nothing input, refl, refl)
  Wrote-pairs (suc k) lib key_ref value_ref found previous l input rest hb h =
      after_ok (decode lib key_ref input) _ h (λ a read done.
        let found' = bytes_read input a.1 ∷ found in
        after_guard (not (contains found (bytes_read input a.1))) non_canonical _ done
          (λ fresh done'.
            after_guard (follows sha256 previous a.0) non_canonical _ done' (λ above done''.
              after_ok (decode lib value_ref a.1) _ done'' (λ v read' done_.
                after_ok
                  (decode_pairs sha256 registry n decode k lib key_ref value_ref found' (some a.0)
                    v.1)
                  _ done_
                  (λ m read'' last.
                    let key = writes lib key_ref a.0 input a.1 hb read in
                    let hb' = Wrote-bytes (encode lib key_ref a.0) input a.1 key hb in
                    let value = writes lib value_ref v.0 a.1 v.1 hb' read' in
                    let hb'' = Wrote-bytes (encode lib value_ref v.0) a.1 v.1 value hb' in
                    let (more, count, order) =
                      Wrote-pairs k lib key_ref value_ref found' (some a.0) m.0 v.1 m.1 hb''
                        read'' in
                    let pairs = encode_pairs sha256 registry n encode lib key_ref value_ref m.0 in
                    returned_by
                      (λ t s.
                        Wrote (encode_pairs sha256 registry n encode lib key_ref value_ref t) input
                          s
                        × (entry_count t ≡ suc k)
                        × (keys_sorted sha256 registry previous t ≡ true))
                      last
                      (
                        Wrote-seq (encode lib key_ref a.0)
                            (λ buf. encode lib value_ref v.0 buf >>= pairs) input a.1 m.1 key
                            (Wrote-seq (encode lib value_ref v.0) pairs a.1 v.1 m.1 value more),
                        ap suc count,
                        and_true _ _ above order,
                      ))))))

  pub Wrote-members :
      (lib : registry.Lib) (members : Members) (f : Fields) (input rest : ByteString)
      → All IsByte input
      → decode_members sha256 registry n decode lib members input ≡ ok (f, rest)
      → Wrote (encode_members sha256 registry n encode lib members f) input rest
        × (field_count f ≡ member_count members)
  unfolding decode_members encode_members
  Wrote-members lib no_members f input rest hb h =
      returned_by
        (λ t s.
          Wrote (encode_members sha256 registry n encode lib no_members t) input s
          × (field_count t ≡ 0))
        h (Wrote-nothing input, refl)
  Wrote-members lib (member_cons name ref members) f input rest hb h =
      after_ok (decode lib ref input) _ h (λ a read done.
        after_ok (decode_members sha256 registry n decode lib members a.1) _ done (λ m read' last.
          let one = writes lib ref a.0 input a.1 hb read in
          let hb' = Wrote-bytes (encode lib ref a.0) input a.1 one hb in
          let (more, count) = Wrote-members lib members m.0 a.1 m.1 hb' read' in
          let next = encode_members sha256 registry n encode lib members m.0 in
          returned_by
            (λ t s.
              Wrote (encode_members sha256 registry n encode lib (member_cons name ref members) t)
                input s
              × (field_count t ≡ suc (member_count members)))
            last
            (
              Wrote-same (λ buf. encode lib ref a.0 buf >>= next) _ input m.1
                  (λ buf.
                    guard-pass (str_eq name name) malformed_type (encode lib ref a.0 buf >>= next)
                      (str_eq-refl name))
                  (Wrote-seq (encode lib ref a.0) next input a.1 m.1 one more),
              ap suc count,
            )))
