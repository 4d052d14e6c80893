-- ===== src/Operations/Sizes.antt =====
-- The digests under the identifier of an operation have 32 bytes: operations/genesis.go and
-- operations/transition.go.
use rgb.Prelude.{
  ◌≡◌, subst, List, [], ◌∷◌, ◌++◌, not, ◌==◌, length, ok, All, All-append, after_guard, after_some,
  after_ok,
}
use rgb.Prelude.Bytes.{ByteString}
use rgb.Consensus.TaggedHash.{Hash, tagged_hash, IsSized, IsDigest}
use rgb.Consensus.Merkle.{merkle_leaf_hash, merkle_root}
use rgb.Consensus.Binding.{merkle_root-IsSized}
use rgb.StrictTypes.Value.{Value, Entry, unwrap}
use rgb.Operations.Fields.{encoded, as_map, as_list, union_inner, required_field}
use rgb.Operations.Secrets.{name_of, assignment_secret}
use rgb.Operations.Commitments.{
  commit_globals, commit_inputs, commit_assignments, input_leaves, state_leaves, global_leaves,
  assignment_leaf, item_leaves, assignment_leaves,
}

pub leaf-IsSized :
    (sha256 : Hash) → IsDigest sha256 → (m : ByteString) → IsSized (merkle_leaf_hash sha256 m)
unfolding merkle_leaf_hash tagged_hash
leaf-IsSized sha256 sized m = sized _

module _ (sha256 : Hash) (sized : IsDigest sha256) where
  pub input_leaves-IsSized :
      (list : List Value) (leaves : List ByteString)
      → input_leaves sha256 list ≡ ok leaves
      → All IsSized leaves
  unfolding input_leaves
  input_leaves-IsSized [] leaves h = let same : [] ≡ leaves = cc in subst (All IsSized) same tt
  input_leaves-IsSized (input ∷ rest) leaves h =
      after_guard (not (length (encoded input) == 0)) _ _ h λ _ h1.
        after_ok (input_leaves sha256 rest) _ h1 λ later listed done.
          let same : merkle_leaf_hash sha256 (encoded input) ∷ later ≡ leaves = cc in
          subst (All IsSized) same
            (leaf-IsSized sha256 sized (encoded input), input_leaves-IsSized rest later listed)

  state_leaves-IsSized :
      (key : Value) (states : List Value) → All IsSized (state_leaves sha256 key states)
  unfolding state_leaves
  state_leaves-IsSized key [] = tt
  state_leaves-IsSized key (state ∷ rest) =
      (leaf-IsSized sha256 sized (encoded key ++ encoded state), state_leaves-IsSized key rest)

  pub global_leaves-IsSized :
      (entries : List Entry) (leaves : List ByteString)
      → global_leaves sha256 entries ≡ ok leaves
      → All IsSized leaves
  unfolding global_leaves
  global_leaves-IsSized [] leaves h = let same : [] ≡ leaves = cc in subst (All IsSized) same tt
  global_leaves-IsSized (e ∷ es) leaves h = after_some _ (as_list e.value) _ h λ states _ h1.
      after_ok (global_leaves sha256 es) _ h1 λ later listed done.
        let same : state_leaves sha256 e.key states ++ later ≡ leaves = cc in
        subst (All IsSized) same (
          All-append IsSized (state_leaves sha256 e.key states) later
            (state_leaves-IsSized e.key states) (global_leaves-IsSized es later listed))

  assignment_leaf-IsSized :
      (key assignment : Value) (leaf : ByteString)
      → assignment_leaf sha256 key assignment ≡ ok leaf
      → IsSized leaf
  unfolding assignment_leaf
  assignment_leaf-IsSized key assignment leaf h =
      after_some _ (union_inner (unwrap assignment)) _ h λ body _ h1.
        after_ok (required_field (unwrap body) "seal") _ h1 λ seal_value _ h2.
          after_ok (required_field (unwrap body) "state") _ h2 λ state _ h3.
            after_ok (assignment_secret sha256 (name_of (unwrap assignment)) seal_value) _ h3
              λ secret _ done.
                let sent : ByteString = (encoded key ++ encoded state) ++ secret in
                let same : merkle_leaf_hash sha256 sent ≡ leaf = cc in
                subst IsSized same (leaf-IsSized sha256 sized sent)

  item_leaves-IsSized :
      (key : Value) (list : List Value) (leaves : List ByteString)
      → item_leaves sha256 key list ≡ ok leaves
      → All IsSized leaves
  unfolding item_leaves
  item_leaves-IsSized key [] leaves h = let same : [] ≡ leaves = cc in subst (All IsSized) same tt
  item_leaves-IsSized key (assignment ∷ rest) leaves h =
      after_ok (assignment_leaf sha256 key assignment) _ h λ leaf here h1.
        after_ok (item_leaves sha256 key rest) _ h1 λ later listed done.
          let same : leaf ∷ later ≡ leaves = cc in
          subst (All IsSized) same (
            assignment_leaf-IsSized key assignment leaf here,
            item_leaves-IsSized key rest later listed,
          )

  pub assignment_leaves-IsSized :
      (entries : List Entry) (leaves : List ByteString)
      → assignment_leaves sha256 entries ≡ ok leaves
      → All IsSized leaves
  unfolding assignment_leaves
  assignment_leaves-IsSized [] leaves h = let same : [] ≡ leaves = cc in subst (All IsSized) same tt
  assignment_leaves-IsSized (e ∷ es) leaves h =
      after_some _ (union_inner (unwrap e.value)) _ h λ list _ h1.
        after_some _ (as_list list) _ h1 λ assigns _ h2.
          after_ok (item_leaves sha256 e.key assigns) _ h2 λ here listed h3.
            after_ok (assignment_leaves sha256 es) _ h3 λ later more done.
              let same : here ++ later ≡ leaves = cc in
              subst (All IsSized) same (
                All-append IsSized here later (item_leaves-IsSized e.key assigns here listed)
                  (assignment_leaves-IsSized es later more))

  root_of :
      (leaves : List ByteString) (r : ByteString)
      → ok (merkle_root sha256 leaves) ≡ ok r
      → merkle_root sha256 leaves ≡ r
  root_of leaves r e = cc

  -- The roots that the three commitments give.
  pub commit_inputs-IsSized :
      (v : Value) (r : ByteString) → commit_inputs sha256 v ≡ ok r → IsSized r
  unfolding commit_inputs
  commit_inputs-IsSized v r h = after_some _ (as_list v) _ h λ list _ h1.
      after_guard (not (length list == 0)) _ _ h1 λ _ h2.
        after_ok (input_leaves sha256 list) _ h2 λ leaves listed done.
          subst IsSized (root_of leaves r done)
            (merkle_root-IsSized sha256 sized leaves (input_leaves-IsSized list leaves listed))

  pub commit_globals-IsSized :
      (v : Value) (r : ByteString) → commit_globals sha256 v ≡ ok r → IsSized r
  unfolding commit_globals
  commit_globals-IsSized v r h = after_some _ (as_map v) _ h λ list _ h1.
      after_ok (global_leaves sha256 list) _ h1 λ leaves listed done.
        subst IsSized (root_of leaves r done)
          (merkle_root-IsSized sha256 sized leaves (global_leaves-IsSized list leaves listed))

  pub commit_assignments-IsSized :
      (v : Value) (r : ByteString) → commit_assignments sha256 v ≡ ok r → IsSized r
  unfolding commit_assignments
  commit_assignments-IsSized v r h = after_some _ (as_map v) _ h λ list _ h1.
      after_ok (assignment_leaves sha256 list) _ h1 λ leaves listed done.
        subst IsSized (root_of leaves r done)
          (merkle_root-IsSized sha256 sized leaves (assignment_leaves-IsSized list leaves listed))
