-- ===== src/StrictTypes/Compare.antt =====
-- The order of values in strict_types/value.go: `compareValue` and what it calls. `none` is for
-- values that have no order. SHA-256 is the argument `sha256`.
use Prim.Native.Nat.{Ordering, compare}
use rgb.Prelude.{
  ℕ, suc, ◌-◌, ◌*◌, ◌/◌, ◌%◌, ◌^◌, Bool, true, false, not, ◌&&◌, ◌||◌, Option, none, some, List, [],
  ◌∷◌, ◌++◌, leb, ◌==◌, if◌then◌else◌, length, String, str_eq,
}
use rgb.Prelude.Bytes.{ByteString, get_le, put_le, codes}
use rgb.Consensus.TaggedHash.{Hash, tagged_hash}
use rgb.StrictTypes.Value.{
  Value, node, Inner, nil, pointer, Fields, no_fields, field_cons, Items, no_items, item_cons,
  Entries, no_entries, entry_cons, Entry, Attributes, Kind, kind_eq, kind, attributes, inner, items,
  entries_of, unwrap, bytes_of, uint64,
}

abbrev pub Order : Type 0
Order = Option Ordering

-- `if !ok || order != 0 { return order, ok }`, then the rest.
abbrev pub and_then : Order → Order → Order
and_then none later = none
and_then (some Ordering.lt) later = some Ordering.lt
and_then (some Ordering.eq) later = later
and_then (some Ordering.gt) later = some Ordering.gt

-- bytes.Compare, and strings.Compare on the bytes of a text.
unfoldable pub compare_bytes : ByteString → ByteString → Ordering
compare_bytes [] [] = Ordering.eq
compare_bytes [] (y ∷ ys) = Ordering.lt
compare_bytes (x ∷ xs) [] = Ordering.gt
compare_bytes (x ∷ xs) (y ∷ ys) = elim (compare x y) [
  | Ordering.lt ↦ Ordering.lt
  | Ordering.eq ↦ compare_bytes xs ys
  | Ordering.gt ↦ Ordering.gt
]

-- Signed numbers, the sign apart.
unfoldable pub compare_signed : Bool × ℕ → Bool × ℕ → Ordering
compare_signed (true, a) (true, b) = compare b a
compare_signed (true, a) (false, b) = if a == 0 && b == 0 then Ordering.eq else Ordering.lt
compare_signed (false, a) (true, b) = if a == 0 && b == 0 then Ordering.eq else Ordering.gt
compare_signed (false, a) (false, b) = compare a b

abbrev pub last_byte : ByteString → ℕ
last_byte [] = 0
last_byte (b ∷ []) = b
last_byte (b ∷ c ∷ bs) = last_byte (c ∷ bs)

unfoldable pub little_endian_big_int : ByteString → Bool → Bool × ℕ
unfolding get_le
little_endian_big_int raw signed =
    if signed && leb 128 (last_byte raw)
    then (true, 2 ^ (8 * length raw) - get_le raw)
    else (false, get_le raw)

-- `Primitive & 0xc0 == 0x40`
abbrev pub is_signed : ℕ → Bool
is_signed primitive = primitive % 256 / 64 == 1

abbrev pub both {ℓ κ} : {A : Type ℓ} {B : Type κ} → Option A → Option B → Option (A × B)
both none y = none
both (some x) none = none
both (some x) (some y) = some (x, y)

unfoldable pub compare_raw : Attributes → Attributes → Order
unfolding compare_signed little_endian_big_int
compare_raw a b =
    if not (a.primitive == b.primitive) || not (length a.raw == length b.raw)
    then none
    else some (
        compare_signed (little_endian_big_int a.raw (is_signed a.primitive))
          (little_endian_big_int b.raw (is_signed b.primitive)))

unfoldable pub compare_numbers : Attributes → Attributes → Order
unfolding compare_signed compare_raw
compare_numbers a b = elim (both a.unsigned b.unsigned) [
  | some p ↦ some (compare p.0 p.1)
  | none ↦ elim (both a.signed b.signed) [
    | some p ↦ some (compare_signed p.0 p.1)
    | none ↦ compare_raw a b
  ]
]

-- Value.TextValue, as bytes.
unfoldable mutual
  pub text_value : Value → Option ByteString
  text_value (node a i f l m) =
      let parts = text_values l in
      if kind_eq a.kind Kind.string
      then some (codes a.text)
      else if kind_eq a.kind Kind.tuple || kind_eq a.kind Kind.list || kind_eq a.kind Kind.set
      then parts
      else none

  pub text_values : Items → Option ByteString
  text_values no_items = some []
  text_values (item_cons v l) = elim (text_value v) [
    | none ↦ none
    | some text ↦ elim (text_values l) [ none ↦ none | some rest ↦ some (text ++ rest) ]
  ]

abbrev pub fields : Value → Fields
fields (node a i f l m) = f

abbrev pub field_list : Fields → List (String × Value)
field_list no_fields = []
field_list (field_cons name v rest) = (name, v) ∷ field_list rest

abbrev pub all_some {ℓ κ} : {A : Type ℓ} {B : Type κ} → (A → Option B) → List A → Option (List B)
all_some f [] = some []
all_some f (x ∷ xs) = elim (f x) [
  | none ↦ none
  | some y ↦ elim (all_some f xs) [ none ↦ none | some ys ↦ some (y ∷ ys) ]
]

-- strings.Join(names, " ")
abbrev pub spaced : List ByteString → ByteString
spaced [] = []
spaced (name ∷ []) = name
spaced (name ∷ next ∷ rest) = name ++ (32 ∷ spaced (next ∷ rest))

unfoldable pub library_hash : Value → Option ByteString
unfolding bytes_of
library_hash item = elim (bytes_of item) [
  | none ↦ none
  | some raw ↦ if length raw == 32 then some raw else none
]

unfoldable pub small_set : Value → Bool
unfolding unwrap
small_set v = kind_eq (kind (unwrap v)) Kind.set && leb (length (items (unwrap v))) 255

unfoldable pub hash_library :
    Hash → ByteString → ByteString → ByteString → List ByteString → Option ByteString
unfolding put_le tagged_hash
hash_library sha256 isae code content libs =
    if leb (length isae) 255 && leb (length code) 65535 && leb (length content) 65535
    then some (
        tagged_hash sha256 "urn:ubideco:aluvm:lib:v01#230304" (
          put_le 1 (length isae)
          ∷ isae
          ∷ put_le 2 (length code)
          ∷ code
          ∷ put_le 2 (length content)
          ∷ content
          ∷ put_le 1 (length libs)
          ∷ libs))
    else none

-- The identifier of a library of aluvm, when the value is one.
unfoldable pub aluvm_lib_id : Hash → List (String × Value) → Option ByteString
unfolding text_value bytes_of unwrap hash_library library_hash small_set
aluvm_lib_id sha256 ((n0, isae) ∷ (n1, code) ∷ (n2, content) ∷ (n3, libs) ∷ []) =
    if (str_eq n0 "isae" && str_eq n1 "code")
      && (str_eq n2 "data" && str_eq n3 "libs")
      && (small_set isae && small_set libs)
    then (elim (both (all_some text_value (items (unwrap isae))) (bytes_of code)) [
      | none ↦ none
      | some (names, code_bytes) ↦
          elim (both (bytes_of content) (all_some library_hash (items (unwrap libs)))) [
            | none ↦ none
            | some (data_bytes, hashes) ↦
                hash_library sha256 (spaced names) code_bytes data_bytes hashes
          ]
    ])
    else none
aluvm_lib_id sha256 _ = none

-- Two structs with the fields "name" and "tag" go by the tag.
unfoldable pub variant_tags :
    List (String × Value) → List (String × Value) → Option (Option ℕ × Option ℕ)
unfolding uint64
variant_tags ((n0, _) ∷ (n1, t) ∷ []) ((m0, _) ∷ (m1, u) ∷ []) =
    if (str_eq n0 "name" && str_eq n1 "tag") && (str_eq m0 "name" && str_eq m1 "tag")
    then some (uint64 t, uint64 u)
    else none
variant_tags _ _ = none

abbrev pub compare_options : Option ℕ × Option ℕ → Order
compare_options (some x, some y) = some (compare x y)
compare_options _ = none

abbrev pub compare_digests : ByteString → Option ByteString → Order
unfolding compare_bytes
compare_digests left (some right) = some (compare_bytes left right)
compare_digests left none = none

abbrev pub is_single : Attributes → Items → Bool
is_single a (item_cons v no_items) = kind_eq a.kind Kind.tuple
is_single a _ = false

abbrev pub entry_count : Entries → ℕ
entry_count no_entries = 0
entry_count (entry_cons k v m) = suc (entry_count m)

-- The unwrapping of the left value is written into the recursion, as in `number`.
unfoldable mutual
  unfolding compare_bytes compare_numbers aluvm_lib_id variant_tags unwrap compare_digests

  pub compare_value : Hash → Value → Value → Order
  compare_value sha256 (node a i f l m) right = elim (is_single a l) [
    | true ↦ compare_first sha256 l right
    | false ↦ elim (kind_eq a.kind (kind (unwrap right))) [
      | false ↦ none
      | true ↦ elim a.kind [
        | Kind.unit ↦ some Ordering.eq
        | Kind.number ↦ compare_numbers a (attributes (unwrap right))
        | Kind.bytes ↦ some (compare_bytes a.raw (attributes (unwrap right)).raw)
        | Kind.string ↦ some (compare_bytes (codes a.text) (codes (attributes (unwrap right)).text))
        | Kind.enum ↦ some (compare a.tag (attributes (unwrap right)).tag)
        | Kind.union ↦
            and_then (some (compare a.tag (attributes (unwrap right)).tag))
              (compare_inner sha256 i (inner (unwrap right)))
        | Kind.struct ↦
            if not (length (field_list f) == length (field_list (fields (unwrap right))))
            then none
            else elim (aluvm_lib_id sha256 (field_list f)) [
              | some id ↦
                  compare_digests id (aluvm_lib_id sha256 (field_list (fields (unwrap right))))
              | none ↦ elim (variant_tags (field_list f) (field_list (fields (unwrap right)))) [
                | some tags ↦ compare_options tags
                | none ↦ compare_fields sha256 f (field_list (fields (unwrap right)))
              ]
            ]
        | Kind.map ↦
            and_then (some (compare (entry_count m) (length (entries_of (unwrap right)))))
              (compare_pairs sha256 m (entries_of (unwrap right)))
        | _ ↦ compare_items sha256 l (items (unwrap right))
      ]
    ]
  ]

  pub compare_first : Hash → Items → Value → Order
  compare_first sha256 no_items right = none
  compare_first sha256 (item_cons w l) right = compare_value sha256 w right

  pub compare_inner : Hash → Inner → Inner → Order
  compare_inner sha256 nil nil = some Ordering.eq
  compare_inner sha256 nil (pointer v) = none
  compare_inner sha256 (pointer v) nil = none
  compare_inner sha256 (pointer v) (pointer w) = compare_value sha256 v w

  pub compare_items : Hash → Items → List Value → Order
  compare_items sha256 no_items [] = some Ordering.eq
  compare_items sha256 no_items (y ∷ ys) = some Ordering.lt
  compare_items sha256 (item_cons v l) [] = some Ordering.gt
  compare_items sha256 (item_cons v l) (y ∷ ys) =
      and_then (compare_value sha256 v y) (compare_items sha256 l ys)

  pub compare_fields : Hash → Fields → List (String × Value) → Order
  compare_fields sha256 no_fields _ = some Ordering.eq
  compare_fields sha256 (field_cons name v rest) [] = none
  compare_fields sha256 (field_cons name v rest) ((name', w) ∷ more) =
      let first = compare_value sha256 v w in
      let later = compare_fields sha256 rest more in
      if str_eq name name' then and_then first later else none

  pub compare_pairs : Hash → Entries → List Entry → Order
  compare_pairs sha256 no_entries _ = some Ordering.eq
  compare_pairs sha256 (entry_cons k v m) [] = none
  compare_pairs sha256 (entry_cons k v m) (e ∷ es) =
      and_then (compare_value sha256 k e.key)
        (and_then (compare_value sha256 v e.value) (compare_pairs sha256 m es))
