-- ===== src/Formats/LibraryId.antt =====
-- The identifier of a library of aluvm is computed twice: by aluvmLibID of strict_types/value.go, for
-- the canonical order, and by aluVMLibraryIDs of consignment/id.go.
use rgb.Prelude.{
  ℕ, leb, ◌%◌, ◌==◌, ◌&&◌, ◌≡◌, refl, sym, ap, ◌∙◌, Bool, true, false, if◌then◌else◌, List, [], ◌∷◌,
  ◌++◌, Option, some, none, length, ok, id_mismatch, guard, of_option, then_ok, then_some,
  then_pass, ◌>>=◌, ◌>>◌, arith, suc, subst,
}
use rgb.Prelude.Bytes.{ByteString, codes, put_le}
use rgb.Consensus.TaggedHash.{Hash, tagged_hash, join}
use rgb.StrictTypes.Value.{
  Value, node, Attributes, Inner, Items, Entries, Kind, kind_eq, kind, field, field_cons, no_fields,
  unwrap, items, bytes_of,
}
use rgb.StrictTypes.Compare.{
  both, text_value, all_some, spaced, library_hash, small_set, hash_library, aluvm_lib_id, fields,
  field_list,
}
use rgb.Formats.ConsignmentId.{digests_of, names_of, library_tag, library_message, library_ids_of}

-- A value with the four fields of a library.
abbrev pub library_of : Attributes → Inner → Value → Value → Value → Value → Items → Entries → Value
library_of a i isae code content libs l m =
    node (record a { kind = Kind.struct }) i
      (field_cons "isae" isae
        (field_cons "code" code (field_cons "data" content (field_cons "libs" libs no_fields))))
      l m

test-some :
    {A : Type 0} (b : Bool) (o : Option A) {x : A}
    → ◌≡◌ {A = Option A} (if b then o else none) (some x)
    → (b ≡ true) × (o ≡ some x)
test-some true o h = (refl, h)
test-some false o h = absurd (cc)

both-some :
    {A B C : Type 0} (o : Option A) (p : Option B) (f : A × B → Option C) {x : C}
    → elim (both o p) [ none ↦ none | some q ↦ f q ] ≡ some x
    → (a : A) × (b : B) × (o ≡ some a) × (p ≡ some b) × (f (a, b) ≡ some x)
both-some none p f h = absurd (cc)
both-some (some a) none f h = absurd (cc)
both-some (some a) (some b) f h = (a, b, refl, refl, h)

some_inj : {A : Type 0} {a b : A} → some a ≡ some b → a ≡ b
some_inj h = cc

and-split : (a b : Bool) → (a && b) ≡ true → (a ≡ true) × (b ≡ true)
and-split true b h = (refl, h)
and-split false b h = absurd (cc)

and-both : (a b : Bool) → a ≡ true → b ≡ true → (a && b) ≡ true
and-both a b h k = ground (arith, h, k)

names_of-all_some :
    (vs : List Value) (names : List ByteString)
    → all_some text_value vs ≡ some names
    → names_of vs ≡ ok names
unfolding names_of
names_of-all_some [] names h = cc
names_of-all_some (v ∷ vs) names h =
    by_head (text_value v) (all_some text_value vs) (λ ys e. names_of-all_some vs ys e) h
  where
    by_head :
        (o : Option ByteString) (rest : Option (List ByteString))
        → ((ys : List ByteString) → rest ≡ some ys → names_of vs ≡ ok ys)
        → ◌≡◌ {A = Option (List ByteString)}
            (elim o [ none ↦ none | some y ↦ elim rest [ none ↦ none | some ys ↦ some (y ∷ ys) ] ])
            (some names)
        → (of_option id_mismatch o >>= λ name. names_of vs >>= λ more. ok (name ∷ more)) ≡ ok names
    by_head none rest later e = absurd (cc)
    by_head (some y) none later e = absurd (cc)
    by_head (some y) (some ys) later e = then_ok _ _ (later ys refl) (cc)

-- What library_hash takes of the bytes that it reads.
abbrev of_size : Option ByteString → Option ByteString
of_size none = none
of_size (some raw) = if length raw == 32 then some raw else none

digests_of-all_some :
    (vs : List Value) (hashes : List ByteString)
    → all_some library_hash vs ≡ some hashes
    → (digests_of vs ≡ ok (join hashes)) × (length hashes ≡ length vs)
unfolding digests_of library_hash
digests_of-all_some [] hashes h =
    (subst (λ l. ok [] ≡ ok (join l)) (some_inj h) refl, ap length (sym (some_inj h)))
digests_of-all_some (v ∷ vs) hashes h =
    by_head (bytes_of v) (all_some library_hash vs) (λ ys e. digests_of-all_some vs ys e) h
  where
    by_head :
        (o : Option ByteString) (rest : Option (List ByteString))
        → ((ys : List ByteString)
            → rest ≡ some ys
            → (digests_of vs ≡ ok (join ys)) × (length ys ≡ length vs))
        → ◌≡◌ {A = Option (List ByteString)}
            (elim (of_size o) [
              | none ↦ none
              | some y ↦ elim rest [ none ↦ none | some ys ↦ some (y ∷ ys) ]
            ])
            (some hashes)
        → ((of_option id_mismatch o >>= λ raw.
              guard (length raw == 32) id_mismatch >> (digests_of vs >>= λ more. ok (raw ++ more)))
            ≡ ok (join hashes))
          × (length hashes ≡ suc (length vs))
    by_head none rest later e = absurd (cc)
    by_head (some raw) rest later e = by_size (length raw == 32) rest later e
      where
        by_size :
            (b : Bool) (rest : Option (List ByteString))
            → ((ys : List ByteString)
                → rest ≡ some ys
                → (digests_of vs ≡ ok (join ys)) × (length ys ≡ length vs))
            → ◌≡◌ {A = Option (List ByteString)}
                (elim (if b then some raw else none) [
                  | none ↦ none
                  | some y ↦ elim rest [ none ↦ none | some ys ↦ some (y ∷ ys) ]
                ])
                (some hashes)
            → ((guard b id_mismatch >> (digests_of vs >>= λ more. ok (raw ++ more)))
                ≡ ok (join hashes))
              × (length hashes ≡ suc (length vs))
        by_size false rest later e = absurd (cc)
        by_size true none later e = absurd (cc)
        by_size true (some ys) later e =
            let (read, same) = later ys refl in
            (
              then_ok _ _ read (ap (λ t. ok (join t)) (some_inj e)),
              ap length (sym (some_inj e)) ∙ ap suc same,
            )

append_nil : (xs : ByteString) → xs ++ [] ≡ xs
append_nil [] = refl
append_nil (x ∷ xs) = ap (λ t. x ∷ t) (append_nil xs)

-- The message of a library, which has `k` dependencies of the joined identifiers.
abbrev message_of : ByteString → ByteString → ByteString → ℕ → ByteString → ByteString
unfolding put_le
message_of isae code content k called =
    (length isae % 256) ∷ isae
    ++ (put_le 2 (length code)
        ++ (code ++ (put_le 2 (length content) ++ (content ++ ((k % 256) ∷ called)))))

last_sizes : (a b c : Bool) → (a && b && c) ≡ true → (b && c) ≡ true
last_sizes a b c h = ground arith

hash_library-message :
    (sha256 : Hash) (isae code content : ByteString) (libs : List ByteString) (k : ℕ)
    (id : ByteString)
    → length libs ≡ k
    → hash_library sha256 isae code content libs ≡ some id
    → ((leb (length code) 65535 && leb (length content) 65535) ≡ true)
      × (tagged_hash sha256 library_tag (message_of isae code content k (join libs) ∷ []) ≡ id)
unfolding hash_library tagged_hash put_le message_of
hash_library-message sha256 isae code content libs k id same h =
    let (sizes, found) =
      test-some (leb (length isae) 255 && leb (length code) 65535 && leb (length content) 65535) _
        h in
    (
      last_sizes (leb (length isae) 255) (leb (length code) 65535) (leb (length content) 65535)
          sizes,
      ap (hashed) (
            append_nil (message_of isae code content k (join libs))
            ∙ ap (λ n. message_of isae code content n (join libs)) (sym same))
          ∙ some_inj found,
    )
  where
    hashed : ByteString → ByteString
    hashed message = sha256 (sha256 (codes library_tag) ++ (sha256 (codes library_tag) ++ message))

-- A struct with the four fields of a library, in the order of its type, for which aluvmLibID of the
-- canonical order finds an identifier, has the same identifier in aluVMLibraryIDs of a consignment.
pub library_ids_of-aluvm_lib_id :
    (sha256 : Hash) (a : Attributes) (i : Inner) (isae code content libs : Value) (l : Items)
    (m : Entries) (id : ByteString)
    → aluvm_lib_id sha256 (field_list (fields (library_of a i isae code content libs l m)))
      ≡ some id
    → library_ids_of sha256 (library_of a i isae code content libs l m ∷ []) ≡ ok (id ∷ [])
unfolding aluvm_lib_id library_ids_of library_message small_set field unwrap message_of
library_ids_of-aluvm_lib_id sha256 a i isae code content libs l m id h =
    let (small, h1) = test-some (small_set isae && small_set libs) _ h in
    let (small_isae, small_libs) = and-split (small_set isae) (small_set libs) small in
    let (isae_set, _) = and-split (kind_eq (kind (unwrap isae)) Kind.set) _ small_isae in
    let (libs_set, libs_few) = and-split (kind_eq (kind (unwrap libs)) Kind.set) _ small_libs in
    let (names, code_bytes, is_names, is_code, h2) =
      both-some (all_some text_value (items (unwrap isae))) (bytes_of code)
        (λ q. elim (both (bytes_of content) (all_some library_hash (items (unwrap libs)))) [
          | none ↦ none
          | some r ↦ hash_library sha256 (spaced q.0) q.1 r.0 r.1
        ])
        h1 in
    let (data_bytes, hashes, is_data, is_hashes, h3) =
      both-some (bytes_of content) (all_some library_hash (items (unwrap libs)))
        (λ r. hash_library sha256 (spaced names) code_bytes r.0 r.1) h2 in
    let (read, counted) = digests_of-all_some (items (unwrap libs)) hashes is_hashes in
    let (sizes, same) =
      hash_library-message sha256 (spaced names) code_bytes data_bytes hashes
        (length (items (unwrap libs))) id counted h3 in
    then_ok _ _
      (then_some _ _ _ is_code (
        then_some _ _ _ is_data (
          then_pass _ _ _ (and-both _ _ isae_set libs_set) (
            then_pass _ _ _ libs_few (
              then_ok _ _ (names_of-all_some (items (unwrap isae)) names is_names)
                (then_pass _ _ _ sizes (then_ok _ _ read refl)))))))
      (ap (λ d. ok (d ∷ [])) same)
