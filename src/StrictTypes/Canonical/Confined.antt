-- ===== src/StrictTypes/Canonical/Confined.antt =====
-- Lists, sets and maps: a length within its limits, then the parts.
use rgb.Prelude.{
  ℕ, ◌≤◌, ◌≡◌, refl, sym, ◌∙◌, subst, Bool, true, not, ◌&&◌, ◌||◌, none, [], ltb, ok, out_of_bounds,
  non_canonical, guard-pass, after_ok, ◌>>=◌, All, arith,
}
use rgb.Prelude.Bytes.{ByteString, IsByte}
use rgb.Consensus.TaggedHash.{Hash}
use rgb.StrictEncoding.Encoder
use rgb.StrictEncoding.Encoder.{Encoder}
use rgb.StrictEncoding.Decoder.{Decoder}
use rgb.StrictTypes.Value.{Value, node, nil, no_fields, Items, no_entries, Kind, kind_eq}
use rgb.StrictTypes.Compare.{entry_count}
use rgb.StrictTypes.ParsedType.{TypeRef, Registry}
use rgb.StrictTypes.Decode.{
  blank, decode_length, decode_sorted, decode_pairs, decode_set, decode_map,
}
use rgb.StrictTypes.Encode.{
  item_count, encode_items, encode_pairs, encode_confined, encode_set, encode_map, items_sorted,
  keys_sorted,
}
use rgb.StrictTypes.Canonical.Wrote.{
  Wrote, Rewrites, returned, and_true, within, Wrote-seq, Wrote-same, Wrote-bytes, Wrote-length,
}
use rgb.StrictTypes.Canonical.Parts.{PartWrites, Wrote-sorted, Wrote-pairs}

module _ (sha256 : Hash) (registry : Registry) (n : ℕ)
    (decode : registry.Lib → TypeRef → Decoder Value)
    (encode : registry.Lib → TypeRef → Value → Encoder)
    (writes : PartWrites registry decode encode) where
  pub confined_writes :
      (wanted : Kind) (sorted : Bool) (lib : registry.Lib) (ref : TypeRef) (min max : ℕ) (l : Items)
      (b buf : ByteString)
      → kind_eq wanted wanted ≡ true
      → sorted ≡ true
      → min ≤ item_count l
      → item_count l ≤ max
      → encode_confined sha256 registry n encode wanted sorted lib ref min max
          (node (record (blank wanted) { encoded = b }) nil no_fields l no_entries)
          buf
        ≡ (Encoder.length (item_count l) max buf
            >>= encode_items sha256 registry n encode lib ref l)
  unfolding encode_confined
  confined_writes wanted sorted lib ref min max l b buf same order lo hi =
      guard-pass (kind_eq wanted wanted && not (ltb (item_count l) min || ltb max (item_count l)))
        out_of_bounds _ (and_true _ _ same (within (item_count l) min max lo hi))
      ∙ guard-pass sorted non_canonical _ order

  pub Wrote-set :
      (lib : registry.Lib) (ref : TypeRef) (min max : ℕ) (v : Value) (input rest : ByteString)
      → All IsByte input
      → decode_set sha256 registry n decode lib ref min max input ≡ ok (v, rest)
      → Rewrites (encode_set sha256 registry n encode lib ref min max) v input rest
  unfolding decode_set encode_set
  Wrote-set lib ref min max v input rest hb h =
      after_ok (decode_length min max input) _ h (λ a read done.
        after_ok (decode_sorted sha256 registry n decode a.0 lib ref [] none a.1) _ done
          (λ m read' last.
            let (lo, hi, count) = Wrote-length min max a.0 input a.1 hb read in
            let hb' = Wrote-bytes (Encoder.length a.0 max) input a.1 count hb in
            let (items, exact, order) =
              Wrote-sorted sha256 registry n decode encode writes a.0 lib ref [] none m.0 a.1 m.1
                hb' read' in
            returned (encode_set sha256 registry n encode lib ref min max) input last (λ b.
              Wrote-same
                (λ buf.
                  Encoder.length (item_count m.0) max buf
                  >>= encode_items sha256 registry n encode lib ref m.0)
                _ input m.1
                (λ buf.
                  confined_writes Kind.set (items_sorted sha256 registry none m.0) lib ref min max
                    m.0 b buf refl order (omega arith) (omega arith))
                (Wrote-seq (Encoder.length (item_count m.0) max)
                  (encode_items sha256 registry n encode lib ref m.0) input a.1 m.1
                  (subst (λ k. Wrote (Encoder.length k max) input a.1) (sym exact) count) items))))

  pub Wrote-map :
      (lib : registry.Lib) (key_ref value_ref : TypeRef) (min max : ℕ) (v : Value)
      (input rest : ByteString)
      → All IsByte input
      → decode_map sha256 registry n decode lib key_ref value_ref min max input ≡ ok (v, rest)
      → Rewrites (encode_map sha256 registry n encode lib key_ref value_ref min max) v input rest
  unfolding decode_map encode_map
  Wrote-map lib key_ref value_ref min max v input rest hb h =
      after_ok (decode_length min max input) _ h (λ a read done.
        after_ok (decode_pairs sha256 registry n decode a.0 lib key_ref value_ref [] none a.1) _
          done
          (λ m read' last.
            let (lo, hi, count) = Wrote-length min max a.0 input a.1 hb read in
            let hb' = Wrote-bytes (Encoder.length a.0 max) input a.1 count hb in
            let (pairs, exact, order) =
              Wrote-pairs sha256 registry n decode encode writes a.0 lib key_ref value_ref [] none
                m.0 a.1 m.1 hb' read' in
            let next = encode_pairs sha256 registry n encode lib key_ref value_ref m.0 in
            let total = entry_count m.0 in
            returned (encode_map sha256 registry n encode lib key_ref value_ref min max) input last
              (λ b.
                Wrote-same (λ buf. Encoder.length total max buf >>= next) _ input m.1
                  (λ buf.
                    guard-pass (not (ltb total min || ltb max total)) out_of_bounds _
                      (within total min max (omega arith) (omega arith))
                    ∙ guard-pass (keys_sorted sha256 registry none m.0) non_canonical _ order)
                  (Wrote-seq (Encoder.length total max) next input a.1 m.1
                    (subst (λ k. Wrote (Encoder.length k max) input a.1) (sym exact) count)
                    pairs))))
