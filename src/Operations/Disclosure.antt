-- ===== src/Operations/Disclosure.antt =====
-- What an accepted bundle discloses.
use rgb.Prelude.{
  ◌≤◌, ◌≡◌, refl, true, false, not, ◌&&◌, some, List, [], ◌∷◌, ◌==◌, length, if◌then◌else◌, Result,
  ok, after_ok, after_some, after_guard, arith, All, subst, Bool-cases, inl, inr,
}
use rgb.Prelude.Bytes.{ByteString, bytes_eq, bytes_eq→eq}
use rgb.Prelude.Keyed.{contains, bytes_eq_instance}
use rgb.StrictTypes.Value.{
  Value, Entry, Kind, kind_eq, kind, attributes, field, unwrap, bytes_of, items, entries_of,
}
use rgb.Operations.InputValues.{IsValues, input_operations-IsValues}
use rgb.Operations.Bundle.{
  BundleCommitment, add_operation, input_operations_of, known_transition, known_transitions,
  commit_bundle,
}

-- No identifier twice.
abbrev pub DistinctIds : List ByteString → Type 0
DistinctIds [] = Unit
DistinctIds (id ∷ ids) = (contains ids id ≡ false) × DistinctIds ids

add_operation-DistinctIds :
    (id : ByteString) (ids : List ByteString) → DistinctIds ids → DistinctIds (add_operation id ids)
unfolding add_operation
add_operation-DistinctIds id ids d = elim (Bool-cases (contains ids id)) [
  | inl old ↦ subst DistinctIds (ground (arith, old)) d
  | inr fresh ↦
      (let same : id ∷ ids ≡ (if contains ids id then ids else id ∷ ids) = ground (arith, fresh) in
        subst DistinctIds same (fresh, d))
]

input_operations-DistinctIds :
    (es : List Entry) (found r : List ByteString)
    → DistinctIds found
    → input_operations_of es found ≡ ok r
    → DistinctIds r
unfolding input_operations_of
input_operations-DistinctIds [] found r d h = let same : found ≡ r = cc in subst DistinctIds same d
input_operations-DistinctIds (e ∷ es) found r d h = after_some _ (bytes_of e.value) _ h λ opid _ h1.
    after_guard (length opid == 32) _ _ h1 λ _ h2.
      input_operations-DistinctIds es (add_operation opid found) r
        (add_operation-DistinctIds opid found d) h2

-- The item that discloses a transition, under the identifier that the transition commits to.
pub record Discloses (commit_transition : Value → Result ByteString) (operations : List ByteString)
    (transition : Value) : Type 0 where
  pub operation_id : ByteString
  pub commits : commit_transition transition ≡ ok operation_id
  pub related : contains operations operation_id ≡ true
  pub sized : length operation_id ≡ 32

known-Discloses :
    (commit_transition : Value → Result ByteString) (operations : List ByteString)
    (item transition : Value)
    → known_transition commit_transition operations item ≡ ok transition
    → Discloses commit_transition operations transition
unfolding known_transition
known-Discloses commit_transition operations item transition h =
    after_some _ (field "opid" (unwrap item)) _ h λ declared _ h1.
      after_some _ (field "transition" (unwrap item)) _ h1 λ disclosed _ h2.
        after_some _ (bytes_of declared) _ h2 λ declared_bytes _ h3.
          after_guard (length declared_bytes == 32) _ _ h3 λ sized h4.
            after_ok (commit_transition disclosed) _ h4 λ operation_id commits h5.
              after_guard (bytes_eq declared_bytes operation_id) _ _ h5 λ same h6.
                after_guard (contains operations operation_id) _ _ h6 λ related done.
                  let is : disclosed ≡ transition = cc in
                  let id : declared_bytes ≡ operation_id =
                    bytes_eq→eq declared_bytes operation_id same in
                  let long : length declared_bytes ≡ 32 = ground arith in
                  record {
                    operation_id = operation_id;
                    commits = cc (is, commits);
                    related = related;
                    sized = cc (id, long);
                  }

known-All-Discloses :
    (commit_transition : Value → Result ByteString) (operations : List ByteString)
    (list transitions : List Value)
    → known_transitions commit_transition operations list ≡ ok transitions
    → All (Discloses commit_transition operations) transitions × (length transitions ≡ length list)
unfolding known_transitions
known-All-Discloses commit_transition operations [] transitions h =
    let same : [] ≡ transitions = cc in
    subst (λ l. All (Discloses commit_transition operations) l × (length l ≡ 0)) same (tt, refl)
known-All-Discloses commit_transition operations (item ∷ rest) transitions h =
    after_ok (known_transition commit_transition operations item) _ h λ t here h1.
      after_ok (known_transitions commit_transition operations rest) _ h1 λ later listed done.
        let same : t ∷ later ≡ transitions = cc in
        let (all, count) = known-All-Discloses commit_transition operations rest later listed in
        subst
          (λ l. All (Discloses commit_transition operations) l × (length l ≡ length (item ∷ rest)))
          same
          ((known-Discloses commit_transition operations item t here, all), omega (arith, count))

-- A bundle that `CommitBundle` accepts discloses at least one transition; the identifier that each
-- disclosed transition commits to is among the input operations, which are exactly the values of the
-- input map's entries, none of them listed twice; and the bundle's identifier is the hash of the encoded input map alone.
pub commit_bundle-Discloses :
    (commit_transition : Value → Result ByteString) (bundle_hash : ByteString → ByteString)
    (value : Value) (b : BundleCommitment)
    → commit_bundle commit_transition bundle_hash value ≡ ok b
    → All (Discloses commit_transition b.input_operations) b.transitions
      × (1 ≤ length b.transitions)
      × DistinctIds b.input_operations
      × (input_map : Value) × (field "inputMap" (unwrap value) ≡ some input_map)
      × IsValues (entries_of input_map) b.input_operations
      × (b.bundle_id ≡ bundle_hash (attributes input_map).encoded)
unfolding commit_bundle
commit_bundle-Discloses commit_transition bundle_hash value b h =
    after_guard (kind_eq (kind (unwrap value)) Kind.struct) _ _ h λ _ h1.
      after_some _ (field "inputMap" (unwrap value)) _ h1 λ input_map has h2.
        after_guard
          (kind_eq (kind (unwrap input_map)) Kind.map
            && not (length (entries_of (unwrap input_map)) == 0))
          _ _ h2
          λ _ h3. after_some _ (field "knownTransitions" (unwrap value)) _ h3 λ known _ h4.
            after_guard
              (kind_eq (kind (unwrap known)) Kind.list && not (length (items (unwrap known)) == 0))
              _ _ h4
              λ nonempty h5.
                after_ok (input_operations_of (entries_of input_map) []) _ h5
                  λ operations listed h6.
                    after_ok (known_transitions commit_transition operations (items (unwrap known)))
                      _ h6
                      λ transitions disclosed done.
                        let (all, count) =
                          known-All-Discloses commit_transition operations (items (unwrap known))
                            transitions disclosed in
                        let distinct =
                          input_operations-DistinctIds (entries_of input_map) [] operations tt
                            listed in
                        let same_ops : operations ≡ b.input_operations = cc in
                        let same_ts : transitions ≡ b.transitions = cc in
                        (
                          subst (λ o. All (Discloses commit_transition o) b.transitions) same_ops
                              (subst (λ t. All (Discloses commit_transition operations) t) same_ts
                                all),
                          subst (λ t. 1 ≤ length t) same_ts
                              (at_least (kind (unwrap known)) (items (unwrap known)) transitions
                                nonempty count),
                          subst DistinctIds same_ops distinct,
                          input_map,
                          has,
                          subst (IsValues (entries_of input_map)) same_ops
                              (input_operations-IsValues (entries_of input_map) operations listed),
                          cc,
                        )
  where
    at_least :
        (k : Kind) (list ts : List Value)
        → (kind_eq k Kind.list && not (length list == 0)) ≡ true
        → length ts ≡ length list
        → 1 ≤ length ts
    at_least k list ts n c = ground arith
