-- ===== src/Consignment/Ancestors.antt =====
-- `historicalSideOpsWithReport` of consignment/validator.go without a report collector: the
-- operations that lie strictly before the receiving bundles.
use rgb.Prelude.{
  ℕ, zero, suc, ◌+◌, Bool, true, false, not, ◌&&◌, Option, none, some, List, [], ◌∷◌, ◌==◌, length,
  if◌then◌else◌, Result, ok, err, String, str_eq, container_type, invalid_bundle, input_unresolved,
  ◌>>=◌, ◌>>◌, guard, of_option,
}
use rgb.Prelude.Bytes.{ByteString}
use rgb.Prelude.Keyed.{Map, lookup, contains, total, bytes_eq_instance}
use rgb.StrictTypes.Value.{
  Value, Entry, Kind, kind_eq, kind, attributes, field, unwrap, bytes_of, entries_of, zero_value,
}
use rgb.Consignment.Types.{ValidatedOp}
use rgb.Consignment.History.{ops_of}

abbrev pub Graph : Type 0
Graph = Map ByteString ValidatedOp

abbrev pub BundleOps : Type 0
BundleOps = Map ByteString (List ByteString)

-- A missing field is Go's zero value.
unfoldable pub field_or_zero : String → Value → Value
unfolding field
field_or_zero name value = elim (field name value) [ none ↦ zero_value | some v ↦ v ]

-- The bundles that the terminals name; each of them has a validated operation.
unfoldable pub terminal_bundles : BundleOps → List Entry → Result (List ByteString)
unfolding bytes_of
terminal_bundles bundle_ops [] = ok []
terminal_bundles bundle_ops (terminal ∷ rest) = do
  raw ← of_option invalid_bundle (bytes_of terminal.key)
  guard (length raw == 32 && not (length (ops_of raw bundle_ops) == 0)) invalid_bundle
  bundles ← terminal_bundles bundle_ops rest
  ok (raw ∷ bundles)

unfoldable pub is_parent : Graph → ByteString → Bool
unfolding contains
is_parent [] id = false
is_parent ((key, node) ∷ rest) id =
    let later = is_parent rest id in if contains node.parents id then true else later

-- The bundles of the operations that are no operation's parent.
unfoldable pub tips : Graph → Graph → List ByteString
unfolding is_parent
tips graph [] = []
tips graph ((id, node) ∷ rest) =
    let later = tips graph rest in if is_parent graph id then later else node.bundle ∷ later

-- The bundle of the only tip, when it has a validated operation.
unfoldable pub only_tip : BundleOps → List ByteString → Option ByteString
only_tip bundle_ops [] = none
only_tip bundle_ops (tip ∷ []) = if length (ops_of tip bundle_ops) == 0 then none else some tip
only_tip bundle_ops (tip ∷ other ∷ rest) = none

abbrev pub parents_of : Graph → ByteString → List ByteString
parents_of graph id = elim (lookup id graph) [ none ↦ [] | some node ↦ node.parents ]

-- The stack of the source with its top in front: appending pushes one by one.
unfoldable pub push_all : List ByteString → List ByteString → List ByteString
push_all [] pending = pending
push_all (id ∷ rest) pending = push_all rest (id ∷ pending)

unfoldable pub push_parents : Graph → List ByteString → List ByteString → List ByteString
unfolding push_all
push_parents graph [] pending = pending
push_parents graph (id ∷ rest) pending =
    push_parents graph rest (push_all (parents_of graph id) pending)

unfoldable pub first_pending :
    Graph → BundleOps → List ByteString → List ByteString → List ByteString
unfolding push_parents
first_pending graph bundle_ops [] pending = pending
first_pending graph bundle_ops (bundle ∷ rest) pending =
    first_pending graph bundle_ops rest (push_parents graph (ops_of bundle bundle_ops) pending)

-- The loop over the stack; `none` when the fuel is used up.
unfoldable pub walk :
    ℕ
    → List ByteString
    → Graph
    → List ByteString
    → List ByteString
    → List ByteString
    → Option (Result (List ByteString))
unfolding contains lookup push_all
walk zero protected graph pending seen historical = none
walk (suc fuel) protected graph [] seen historical = some (ok historical)
walk (suc fuel) protected graph (id ∷ pending) seen historical = elim (contains seen id) [
  | true ↦ walk fuel protected graph pending seen historical
  | false ↦ elim (lookup id graph) [
    | none ↦ some (err input_unresolved)
    | some node ↦
        walk fuel protected graph (push_all node.parents pending) (id ∷ seen)
          (if contains protected node.bundle then historical else id ∷ historical)
  ]
]

-- What an operation that was not seen costs the loop.
abbrev pub cost : List ByteString → ByteString → ValidatedOp → ℕ
cost seen id node = if contains seen id then 0 else suc (length node.parents)

unfoldable pub fuel_for : Graph → List ByteString → ℕ
unfolding total
fuel_for graph pending = suc (total (cost []) graph + length pending)

-- With the fuel that `fuel_for` counts the loop never gives `none`.
unfoldable pub walk_all : List ByteString → Graph → List ByteString → Result (List ByteString)
unfolding walk fuel_for
walk_all protected graph pending =
    elim (walk (fuel_for graph pending) protected graph pending [] []) [
      | none ↦ err input_unresolved
      | some result ↦ result
    ]

-- The protected bundles: those of the terminals, else that of the only tip of a complete graph.
unfoldable pub protected_bundles : Graph → BundleOps → Bool → List ByteString → List ByteString
unfolding tips only_tip
protected_bundles graph bundle_ops complete (bundle ∷ rest) = bundle ∷ rest
protected_bundles graph bundle_ops complete [] =
    if complete
    then (elim (only_tip bundle_ops (tips graph graph)) [ none ↦ [] | some tip ↦ tip ∷ [] ])
    else []

unfoldable pub historical_side_ops : Value → Graph → BundleOps → Bool → Result (List ByteString)
unfolding field_or_zero terminal_bundles protected_bundles first_pending walk_all field unwrap
historical_side_ops value graph bundle_ops complete =
    if str_eq (attributes (unwrap (field_or_zero "transfer" value))).name "true"
    then (do
      terminals ← of_option container_type (field "terminals" value)
      guard (kind_eq (kind (unwrap terminals)) Kind.map) container_type
      named ← terminal_bundles bundle_ops (entries_of (unwrap terminals))
      let protected = protected_bundles graph bundle_ops complete named
      walk_all protected graph (first_pending graph bundle_ops protected []))
    else ok []
