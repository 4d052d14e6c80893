-- ===== src/StrictTypes/Value.antt =====
-- strict_types/value.go: the decoded value and how its parts are read. Go's struct has every field
-- at every kind, and so has the model; pointers and slices of values are members of the block.
use rgb.Prelude.{
  ℕ, Bool, true, false, Option, none, some, List, [], ◌∷◌, ◌==◌, if◌then◌else◌, String, str_eq,
}
use rgb.Prelude.Bytes.{ByteString}

pub data Kind : Type 0 where
  unit number bytes string enum union tuple struct list set map : Kind

-- The constants count from 0 (`iota`).
abbrev pub ordinal : Kind → ℕ
ordinal unit = 0
ordinal number = 1
ordinal bytes = 2
ordinal string = 3
ordinal enum = 4
ordinal union = 5
ordinal tuple = 6
ordinal struct = 7
ordinal list = 8
ordinal set = 9
ordinal map = 10

abbrev pub kind_eq : Kind → Kind → Bool
kind_eq a b = ordinal a == ordinal b

-- The fields that hold no value. A signed number keeps its sign apart: `some (true, n)` is -n.
pub record Attributes : Type 0 where
  pub kind : Kind
  pub encoded : ByteString
  pub primitive : ℕ
  pub raw : ByteString
  pub unsigned : Option ℕ
  pub signed : Option (Bool × ℕ)
  pub text : String
  pub name : String
  pub tag : ℕ

mutual
  pub data Value : Type 0 where
    node : Attributes → Inner → Fields → Items → Entries → Value

  pub data Inner : Type 0 where
    nil : Inner
    pointer : Value → Inner

  pub data Fields : Type 0 where
    no_fields : Fields
    field_cons : String → Value → Fields → Fields

  pub data Items : Type 0 where
    no_items : Items
    item_cons : Value → Items → Items

  pub data Entries : Type 0 where
    no_entries : Entries
    entry_cons : Value → Value → Entries → Entries

-- `Value{}`
abbrev pub zero_value : Value
zero_value =
    node
      (record {
        kind = unit;
        encoded = [];
        primitive = 0;
        raw = [];
        unsigned = none;
        signed = none;
        text = "";
        name = "";
        tag = 0;
      })
      nil no_fields no_items no_entries

pub record Entry : Type 0 where
  pub key : Value
  pub value : Value

abbrev pub attributes : Value → Attributes
attributes (node a i f l m) = a

abbrev pub kind : Value → Kind
kind v = (attributes v).kind

abbrev pub inner : Value → Inner
inner (node a i f l m) = i

abbrev pub pointee : Inner → Option Value
pointee nil = none
pointee (pointer v) = some v

abbrev pub item_list : Items → List Value
item_list no_items = []
item_list (item_cons v l) = v ∷ item_list l

abbrev pub items : Value → List Value
items (node a i f l m) = item_list l

abbrev pub entry_list : Entries → List Entry
entry_list no_entries = []
entry_list (entry_cons k v m) = record { key = k; value = v } ∷ entry_list m

abbrev pub entries_of : Value → List Entry
entries_of (node a i f l m) = entry_list m

find_field : String → Fields → Option Value
find_field wanted no_fields = none
find_field wanted (field_cons label v rest) =
    let later = find_field wanted rest in if str_eq label wanted then some v else later

-- Value.Field: the first field of that name, at a struct.
unfoldable pub field : String → Value → Option Value
unfolding find_field
field wanted (node a i f l m) = if kind_eq a.kind struct then find_field wanted f else none

-- Value.Uint64
unfoldable pub uint64 : Value → Option ℕ
uint64 v = if kind_eq (kind v) number then (attributes v).unsigned else none

-- Value.Unwrap: `for v.Kind == ValueTuple && len(v.Items) == 1 { v = v.Items[0] }`.
unfoldable mutual
  pub unwrap : Value → Value
  unwrap (node a i f l m) = elim (kind_eq a.kind tuple) [
    | true ↦ unwrap_single (node a i f l m) l
    | false ↦ node a i f l m
  ]

  pub unwrap_single : Value → Items → Value
  unwrap_single v no_items = v
  unwrap_single v (item_cons w no_items) = unwrap w
  unwrap_single v (item_cons w (item_cons x l)) = v

-- Value.Bytes
unfoldable pub bytes_of : Value → Option ByteString
unfolding unwrap
bytes_of v = let w = unwrap v in if kind_eq (kind w) bytes then some (attributes w).raw else none

-- Value.Bool
unfoldable pub bool_of : Value → Option Bool
bool_of v =
    if kind_eq (kind v) enum
    then (if (attributes v).tag == 0
        then some false
        else if (attributes v).tag == 1
        then some true
        else none)
    else none
