-- ===== src/Operations/Fields.antt =====
-- The readers of decoded values in operations/genesis.go and operations/transition.go.
use rgb.Prelude.{
  ℕ, ◌||◌, Option, none, some, List, if◌then◌else◌, Result, invalid_genesis, invalid_transition,
  of_option, String,
}
use rgb.Prelude.Bytes.{ByteString}
use rgb.StrictTypes.Value.{
  Value, Entry, pointee, Kind, kind_eq, kind, inner, attributes, field, unwrap, items, entries_of,
}
use rgb.StrictTypes.Numbers.{number}

abbrev pub encoded : Value → ByteString
encoded v = (attributes v).encoded

unfoldable pub required_field : Value → String → Result Value
unfolding field unwrap
required_field value name = of_option invalid_genesis (field name (unwrap value))

unfoldable pub transition_field : Value → String → Result Value
unfolding field
transition_field value name = of_option invalid_transition (field name value)

unfoldable pub as_map : Value → Option (List Entry)
unfolding unwrap
as_map value =
    let w = unwrap value in if kind_eq (kind w) Kind.map then some (entries_of w) else none

unfoldable pub as_list : Value → Option (List Value)
unfolding unwrap
as_list value =
    let w = unwrap value in
    if kind_eq (kind w) Kind.list || kind_eq (kind w) Kind.set then some (items w) else none

unfoldable pub as_bytes : Value → Option ByteString
unfolding unwrap
as_bytes value =
    let w = unwrap value in if kind_eq (kind w) Kind.bytes then some (attributes w).raw else none

-- `asUint` unwraps, enters a union and reads the number, as `number` does; its branch for a tuple
-- of one item comes after the unwrapping and is never taken.
unfoldable pub as_uint : Value → Option ℕ
unfolding number
as_uint value = number value

-- `value.Kind == ValueUnion && value.Inner != nil`
unfoldable pub union_inner : Value → Option Value
union_inner w = if kind_eq (kind w) Kind.union then pointee (inner w) else none
