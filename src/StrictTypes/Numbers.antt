-- ===== src/StrictTypes/Numbers.antt =====
-- Numbers and collections read through wrappers: `number`, `scalarUint`, `fungibleAmount`,
-- `entries`, `sequence` and `semanticID` of schemas/validate.go, and `unsignedNumber` of
-- consignment/bitcoin.go, whose text is that of `number`.
use rgb.Prelude.{
  ℕ, true, false, ◌&&◌, ◌||◌, Option, none, some, List, ◌==◌, if◌then◌else◌, length, ◌≡◌, refl,
  arith,
}
use rgb.Prelude.Bytes.{ByteString}
use rgb.StrictTypes.Value.{
  Kind, kind_eq, Value, node, Inner, nil, pointer, Items, no_items, item_cons, Entry, attributes,
  kind, inner, items, entries_of, uint64, unwrap, bytes_of,
}

-- `value = value.Unwrap()`, then a union with a pointee is entered and any other value is read.
-- The unwrapping is written into the recursion: `number-eq-number_step` shows that it is the
-- source's.
unfoldable mutual
  unfolding uint64

  pub number : Value → Option ℕ
  number (node a i f l m) = elim (kind_eq a.kind Kind.tuple) [
    | true ↦ number_single l
    | false ↦ elim (kind_eq a.kind Kind.union) [
      | true ↦ number_inner i
      | false ↦ uint64 (node a i f l m)
    ]
  ]

  pub number_single : Items → Option ℕ
  number_single no_items = none
  number_single (item_cons w no_items) = number w
  number_single (item_cons w (item_cons x l)) = none

  pub number_inner : Inner → Option ℕ
  number_inner nil = none
  number_inner (pointer v) = number v

-- `number` as the source states it.
abbrev pub number_step : Value → Option ℕ
number_step v =
    let w = unwrap v in
    if kind_eq (kind w) Kind.union
    then (elim (inner w) [ nil ↦ uint64 w | pointer u ↦ number u ])
    else uint64 w

number-unwrap_node : (v : Value) → number v ≡ number_step v
unfolding number unwrap uint64
number-unwrap_node (node a i f no_items m) = ground arith
number-unwrap_node (node a i f (item_cons w no_items) m) = ground (arith, number-unwrap_node w)
number-unwrap_node (node a i f (item_cons w (item_cons x l)) m) = ground arith

-- `scalarUint` tries the number first and the pointee of a union second.
unfoldable mutual
  unfolding uint64

  pub scalar_uint : Value → Option ℕ
  scalar_uint (node a i f l m) = elim (kind_eq a.kind Kind.tuple) [
    | true ↦ scalar_uint_single l
    | false ↦ elim (uint64 (node a i f l m)) [
      | some amount ↦ some amount
      | none ↦ elim (kind_eq a.kind Kind.union) [ true ↦ scalar_uint_inner i | false ↦ none ]
    ]
  ]

  pub scalar_uint_single : Items → Option ℕ
  scalar_uint_single no_items = none
  scalar_uint_single (item_cons w no_items) = scalar_uint w
  scalar_uint_single (item_cons w (item_cons x l)) = none

  pub scalar_uint_inner : Inner → Option ℕ
  scalar_uint_inner nil = none
  scalar_uint_inner (pointer v) = scalar_uint v

unfoldable pub fungible_amount : Value → Option ℕ
unfolding unwrap scalar_uint
fungible_amount v =
    let w = unwrap v in
    if kind_eq (kind w) Kind.union && (attributes w).tag == 8
    then scalar_uint_inner (inner w)
    else none

unfoldable pub entries : Value → Option (List Entry)
unfolding unwrap
entries v = let w = unwrap v in if kind_eq (kind w) Kind.map then some (entries_of w) else none

unfoldable pub sequence : Value → Option (List Value)
unfolding unwrap
sequence v =
    let w = unwrap v in
    if kind_eq (kind w) Kind.list || kind_eq (kind w) Kind.set then some (items w) else none

-- The identifier stays 32 bytes; the source keys its registry by their hexadecimal form.
unfoldable pub semantic_id : Value → Option ByteString
unfolding bytes_of
semantic_id v = elim (bytes_of v) [
  | none ↦ none
  | some raw ↦ if length raw == 32 then some raw else none
]

mutual
  unfolding number scalar_uint uint64

  number-scalar_uint_node : (v : Value) → number v ≡ scalar_uint v
  number-scalar_uint_node (node a i f l m) =
      ground (arith, number-scalar_uint_single l, number-scalar_uint_inner i)

  number-scalar_uint_single : (l : Items) → number_single l ≡ scalar_uint_single l
  number-scalar_uint_single no_items = refl
  number-scalar_uint_single (item_cons w no_items) = number-scalar_uint_node w
  number-scalar_uint_single (item_cons w (item_cons x l)) = refl

  number-scalar_uint_inner : (i : Inner) → number_inner i ≡ scalar_uint_inner i
  number-scalar_uint_inner nil = refl
  number-scalar_uint_inner (pointer v) = number-scalar_uint_node v

-- The two readers of numbers agree on every value, though they test the kinds in another order.
pub number-eq-scalar_uint : (v : Value) → number v ≡ scalar_uint v
number-eq-scalar_uint v = number-scalar_uint_node v

-- `number` does what the source states: it unwraps the value, enters a union with a pointee, and
-- reads any other value as a uint64.
pub number-eq-number_step : (v : Value) → number v ≡ number_step v
number-eq-number_step v = number-unwrap_node v
