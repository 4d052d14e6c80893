-- ===== src/Operations/Binding.antt =====
-- The identifier of a transition binds its parts: `CommitTransition` of operations/transition.go.
use rgb.Prelude.{
  suc, some, ◌^◌, ◌<◌, ◌≡◌, refl, sym, ap, ◌∙◌, subst, true, List, [], ◌∷◌, map, not, ◌==◌, length,
  ok, All, arith, append-cancel_front, err, after_guard, after_some, after_ok, recast, recast-eq_ok,
  invalid_transition,
}
use rgb.Prelude.Bytes.{ByteString}
use rgb.Consensus.TaggedHash.{
  Hash, tagged_hash, IsSized, IsDigest, all_apart, all_apart-cons, apart-eq,
}
use rgb.Consensus.Merkle.{strict_value_hash, merkle_leaf_hash, merkle_root}
use rgb.Consensus.Binding.{node_hash, root_messages, merkle_root-binding}
use rgb.Operations.Sizes.{input_leaves-IsSized}
use rgb.StrictTypes.Value.{Value, Kind, kind_eq, kind}
use rgb.Operations.Fields.{encoded, as_list}
use rgb.Operations.Commitments.{
  operation_tag, commit_globals, commit_inputs, commit_assignments, input_leaves, TransitionFields,
  transition_fields, transition_prefix, committed_message, TransitionCommitment, commit_transition,
}

unfoldable pub operation_hash : Hash → Hash
unfolding tagged_hash
operation_hash sha256 message = tagged_hash sha256 operation_tag (message ∷ [])

-- What `CommitTransition` computed on the way.
pub record Committed (sha256 : Hash) (value : Value) (c : TransitionCommitment) : Type 0 where
  pub fields : TransitionFields
  pub read : transition_fields value ≡ ok fields
  pub metadata : c.metadata_hash ≡ strict_value_hash sha256 (encoded fields.metadata)
  pub globals : commit_globals sha256 fields.globals ≡ ok c.globals_root
  pub inputs : commit_inputs sha256 fields.inputs ≡ ok c.inputs_root
  pub assignments : commit_assignments sha256 fields.assignments ≡ ok c.assignments_root
  pub id :
      c.operation_id
      ≡ operation_hash sha256 (
          committed_message
            (transition_prefix fields)
            c.metadata_hash
            c.globals_root
            c.inputs_root
            c.assignments_root)

pub commit_transition-Committed :
    (sha256 : Hash) (value : Value) (c : TransitionCommitment)
    → commit_transition sha256 value ≡ ok c
    → Committed sha256 value c
unfolding commit_transition operation_hash
commit_transition-Committed sha256 value c h =
    after_guard (kind_eq (kind value) Kind.struct) _ _ h λ _ h1.
      after_ok (transition_fields value) _ h1 λ f read h2.
        after_ok (recast invalid_transition (commit_globals sha256 f.globals)) _ h2 λ g globals h3.
          after_ok (commit_inputs sha256 f.inputs) _ h3 λ i inputs h4.
            after_ok (recast invalid_transition (commit_assignments sha256 f.assignments)) _ h4
              λ a assignments done.
                let metadata = strict_value_hash sha256 (encoded f.metadata) in
                let made : TransitionCommitment = record {
                  metadata_hash = metadata;
                  globals_root = g;
                  inputs_root = i;
                  assignments_root = a;
                  operation_id =
                      operation_hash sha256
                        (committed_message (transition_prefix f) metadata g i a);
                } in
                let same : made ≡ c = cc in
                subst (Committed sha256 value) same (record {
                  fields = f;
                  read = read;
                  metadata = refl;
                  globals = recast-eq_ok invalid_transition _ globals;
                  inputs = inputs;
                  assignments = recast-eq_ok invalid_transition _ assignments;
                  id = refl;
                })

-- The bytes whose hash is the identifier.
unfoldable pub id_message : Value → TransitionCommitment → ByteString
id_message value c = elim (transition_fields value) [
  | err e ↦ []
  | ok f ↦
      committed_message (transition_prefix f) c.metadata_hash c.globals_root c.inputs_root
        c.assignments_root
]

message :
    (sha256 : Hash) (v : Value) (d : TransitionCommitment) (k : Committed sha256 v d)
    → id_message v d
      ≡ committed_message
          (transition_prefix k.fields)
          d.metadata_hash
          d.globals_root
          d.inputs_root
          d.assignments_root
unfolding id_message
message sha256 v d k = rw (id_message, k.read) refl

leaves-inj :
    (sha256 : Hash) (xs ys : List ByteString)
    → length xs ≡ length ys
    → all_apart (node_hash sha256) xs ys ≡ true
    → map (merkle_leaf_hash sha256) xs ≡ map (merkle_leaf_hash sha256) ys
    → xs ≡ ys
unfolding merkle_leaf_hash node_hash
leaves-inj sha256 [] [] l separated e = refl
leaves-inj sha256 [] (y ∷ ys) l separated e = absurd (omega arith)
leaves-inj sha256 (x ∷ xs) [] l separated e = absurd (omega arith)
leaves-inj sha256 (x ∷ xs) (y ∷ ys) l separated e =
    let (pair, rest) = all_apart-cons (node_hash sha256) x y xs ys separated in
    let hash = merkle_leaf_hash sha256 in
    let (head, tail) =
      append-cancel_front (hash x ∷ []) (hash y ∷ []) (map hash xs) (map hash ys) refl e in
    let first = apart-eq (node_hash sha256) x y pair (head_of head) in
    let later = leaves-inj sha256 xs ys (omega arith) rest tail in cc (first, later)
  where
    head_of : {a b : ByteString} → ◌≡◌ {A = List ByteString} (a ∷ []) (b ∷ []) → a ≡ b
    head_of e = cc

input_leaves_of :
    (sha256 : Hash) (list : List Value) (leaves : List ByteString)
    → input_leaves sha256 list ≡ ok leaves
    → leaves ≡ map (merkle_leaf_hash sha256) (map encoded list)
unfolding input_leaves
input_leaves_of sha256 [] leaves h = cc
input_leaves_of sha256 (input ∷ rest) leaves h =
    after_guard (not (length (encoded input) == 0)) _ _ h λ _ h1.
      after_ok (input_leaves sha256 rest) _ h1
        λ later listed done. let same = input_leaves_of sha256 rest later listed in cc

length-map {ℓ κ} :
    {A : Type ℓ} {B : Type κ} (f : A → B) (xs : List A) → length (map f xs) ≡ length xs
length-map f [] = refl
length-map f (x ∷ xs) = ap suc (length-map f xs)

inputs_root :
    (sha256 : Hash)
    → IsDigest sha256
    → (value : Value) (list : List Value) (root : ByteString) → as_list value ≡ some list
    → commit_inputs sha256 value ≡ ok root
    → (merkle_root sha256 (map (merkle_leaf_hash sha256) (map encoded list)) ≡ root)
      × All IsSized (map (merkle_leaf_hash sha256) (map encoded list))
unfolding commit_inputs
inputs_root sha256 sized value list root read h = after_some _ (as_list value) _ h λ found is h1.
    after_guard (not (length found == 0)) _ _ h1 λ _ h2.
      after_ok (input_leaves sha256 found) _ h2 λ leaves listed done.
        let same : found ≡ list = cc in
        let are : leaves ≡ map (merkle_leaf_hash sha256) (map encoded list) =
          input_leaves_of sha256 found leaves listed
          ∙ ap (λ vs. map (merkle_leaf_hash sha256) (map encoded vs)) same in
        (
          cc (are, done),
          subst (All IsSized) are (input_leaves-IsSized sha256 sized found leaves listed),
        )

-- The root over a transition's inputs binds their encodings and their order: two transitions with
-- as many inputs, fewer than 2^32, and one inputs root have the same encoded inputs, where the
-- hash separates the encoded inputs of the two, and the nodes of their two trees.
pub commit_inputs-binding :
    (sha256 : Hash) (value value' : Value) (list list' : List Value) (root : ByteString)
    → IsDigest sha256
    → as_list value ≡ some list
    → as_list value' ≡ some list'
    → length list ≡ length list'
    → length list < 2 ^ 32
    → all_apart (node_hash sha256) (map encoded list) (map encoded list') ≡ true
    → all_apart
        (node_hash sha256)
        (root_messages sha256 (map (merkle_leaf_hash sha256) (map encoded list)))
        (root_messages sha256 (map (merkle_leaf_hash sha256) (map encoded list')))
      ≡ true
    → commit_inputs sha256 value ≡ ok root
    → commit_inputs sha256 value' ≡ ok root
    → map encoded list ≡ map encoded list'
commit_inputs-binding sha256 value value' list list' root sized read read' l short separated nodes h
      h' =
    let leaf = merkle_leaf_hash sha256 in
    let (e, all) = inputs_root sha256 sized value list root read h in
    let (e', all') = inputs_root sha256 sized value' list' root read' h' in
    let count = length-map encoded list in
    let count' = length-map encoded list' in
    let long = length-map leaf (map encoded list) in
    let long' = length-map leaf (map encoded list') in
    leaves-inj sha256 (map encoded list) (map encoded list') (omega arith) separated (
      merkle_root-binding sha256 (map leaf (map encoded list)) (map leaf (map encoded list')) sized
        (omega arith) (omega arith) all all' nodes (e ∙ sym e'))
