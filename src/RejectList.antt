-- ===== src/RejectList.antt =====
-- rejectlist/rejectlist.go: the search for a rejected ancestor; Text reads a list. Fetching it is not
-- modelled.
pub mod Stack
pub mod Ancestor
pub mod Text
pub mod Says
pub mod Lines
use rgb.Prelude.{
  ℕ, zero, suc, ◌+◌, Bool, true, false, Option, none, some, List, [], ◌∷◌, length, if◌then◌else◌,
}
use rgb.Prelude.Keyed.{Map, lookup, contains, total}
use rgb.Schemas.Types.{InputRef}
use rgb.Consignment.Types.{input_ref_eq}

-- An `operations.Opout` has the fields of an input reference.
abbrev pub Opout : Type 0
Opout = InputRef

pub record RejectList : Type 0 where
  pub reject : List Opout
  pub allow : List Opout

abbrev pub Dag : Type 0
Dag = Map Opout (List Opout)

-- `dag[current]`, with Go's nil slice for an absent key.
unfoldable pub parents_in : Dag → Opout → List Opout
unfolding lookup
parents_in dag current = elim (lookup current dag) [ none ↦ [] | some parents ↦ parents ]

-- The stack of the source with its top in front: appending pushes one by one.
unfoldable pub push_each : List Opout → List Opout → List Opout
push_each [] stack = stack
push_each (x ∷ rest) stack = push_each rest (x ∷ stack)

-- The loop over the stack; the outer `none` is fuel that is used up.
unfoldable pub search_stack : ℕ → RejectList → Dag → List Opout → List Opout → Option (Option Opout)
unfolding contains parents_in push_each
search_stack zero l dag stack seen = none
search_stack (suc fuel) l dag [] seen = some none
search_stack (suc fuel) l dag (current ∷ stack) seen = elim (contains seen current) [
  | true ↦ search_stack fuel l dag stack seen
  | false ↦ elim (contains l.allow current) [
    | true ↦ search_stack fuel l dag stack (current ∷ seen)
    | false ↦ elim (contains l.reject current) [
      | true ↦ some (some current)
      | false ↦ search_stack fuel l dag (push_each (parents_in dag current) stack) (current ∷ seen)
    ]
  ]
]

-- What an output that was not seen can still push.
abbrev pub pushes : List Opout → Opout → List Opout → ℕ
pushes seen current parents = if contains seen current then 0 else length parents

unfoldable pub search_fuel : Dag → ℕ
unfolding total
search_fuel dag = suc (suc (total (pushes []) dag))

-- The fuel is enough for every graph, so that the outer `none` never comes.
unfoldable pub rejected_ancestor : RejectList → Opout → Dag → Option Opout
unfolding search_stack search_fuel
rejected_ancestor l checked dag = elim (search_stack (search_fuel dag) l dag (checked ∷ []) []) [
  | none ↦ none
  | some found ↦ found
]
