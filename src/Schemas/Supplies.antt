-- ===== src/Schemas/Supplies.antt =====
-- The supply that an operation of schemas/transition.go assigns, and that its inputs resolve to.
use rgb.Prelude.{
  ℕ, ◌+◌, ◌≤◌, ◌≡◌, refl, Option, none, some, List, [], if◌then◌else◌, Result, ok, >>=-eq_ok,
  of_option-eq_ok, arith, subst,
}
use rgb.Prelude.Bytes.{ByteString}
use rgb.Prelude.Keyed.{lookup, nat_eq}
use rgb.StrictTypes.Value.{Value, Entry, field}
use rgb.StrictTypes.Numbers.{entries, sequence}
use rgb.Schemas.Types.{AssetKind, nia, ifa, pfa, cfa, uda, max_uint64, owned_asset, owned_inflation}
use rgb.Schemas.Access.{count_of, map_by_number_field, occurrence_map, enforce_occurrences}
use rgb.Schemas.Owned.{validate_assignments, validate_assignments_entries}
use rgb.Schemas.Script.{Owned, sum_of}
use rgb.Schemas.Transition.{Resolver}
use rgb.Schemas.Amounts.{
  DistinctKeys, typed_amount, has_key, entries_sum, entries_bound, absent_amount,
}
use rgb.Schemas.Resolved.{inputs_amount}

abbrev pub some_or {ℓ} : {A : Type ℓ} → A → Option A → A
some_or d none = d
some_or d (some a) = a

-- The entries of the operation's assignments, and its inputs.
abbrev pub assigned_entries : Value → List Entry
assigned_entries operation = elim (field "assignments" operation) [
  | none ↦ []
  | some v ↦ some_or [] (entries v)
]

abbrev pub input_values : Value → List Value
input_values operation = elim (field "inputs" operation) [
  | none ↦ []
  | some v ↦ some_or [] (sequence v)
]

-- What the operation assigns in all to the type `t`, confidential assignments included.
abbrev pub assigned_amount : Value → ℕ → ℕ
assigned_amount operation t = typed_amount t (assigned_entries operation)

-- What its inputs of the type `t` resolve to.
abbrev pub resolved_amount : Resolver → Value → ℕ → ℕ
resolved_amount resolver operation t = inputs_amount t resolver (input_values operation)

-- The types that count toward the supply of a fungible asset: for IFA the right to inflate too.
abbrev pub supply : AssetKind → (ℕ → ℕ) → ℕ
supply nia f = f owned_asset
supply cfa f = f owned_asset
supply pfa f = f owned_asset
supply ifa f = f owned_asset + f owned_inflation
supply uda f = 0

pub read_entries :
    (operation v : Value) (es : List Entry)
    → field "assignments" operation ≡ some v
    → entries v ≡ some es
    → assigned_entries operation ≡ es
read_entries operation v es p q = ground arith

pub read_inputs :
    (operation v : Value) (vs : List Value)
    → field "inputs" operation ≡ some v
    → sequence v ≡ some vs
    → input_values operation ≡ vs
read_inputs operation v vs p q = ground arith

none_sum : (t : ℕ) → sum_of t [] ≡ 0
unfolding lookup
none_sum t = refl

none_bound : (t : ℕ) → sum_of t [] ≤ max_uint64
none_bound t = omega (arith, none_sum t)

pub none_counted : (t : ℕ) → count_of t [] ≡ 0
unfolding lookup
none_counted t = refl

-- The sums that the validation hands to the script are the plain sums of the assignments.
pub validate_assignments_sum :
    (decode : ByteString → ByteString → Result Value) (schema operation_schema operation : Value)
    (owned : Owned) (n t : ℕ)
    → DistinctKeys (assigned_entries operation)
    → validate_assignments decode schema operation_schema operation ≡ ok (owned, n)
    → (sum_of t owned ≡ assigned_amount operation t) × (sum_of t owned ≤ max_uint64)
unfolding validate_assignments
validate_assignments_sum decode schema operation_schema operation owned n t d h =
    let (details, has_types, h1) = >>=-eq_ok (map_by_number_field schema "ownedTypes") _ h in
    let (constraints, has_rules, h2) =
      >>=-eq_ok (occurrence_map operation_schema "assignments") _ h1 in
    let (v, has_field, h3) = of_option-eq_ok _ (field "assignments" operation) _ h2 in
    let (es, listed, h4) = of_option-eq_ok _ (entries v) _ h3 in
    let ((owned', counts, n'), checked, h5) =
      >>=-eq_ok (validate_assignments_entries decode constraints details es [] [] 0) _ h4 in
    let (_, enforced, done) = >>=-eq_ok (enforce_occurrences constraints counts) _ h5 in
    finish es owned' n' (read_entries operation v es has_field listed)
      (λ d'. entries_sum decode constraints details t es [] owned' [] counts 0 n' d' checked)
      (entries_bound decode constraints details t es [] owned' [] counts 0 n' (none_bound t)
        checked)
      done
  where
    finish :
        (es : List Entry) (owned' : Owned) (n' : ℕ)
        → assigned_entries operation ≡ es
        → (DistinctKeys es
            → sum_of t owned' ≡ (if has_key t es then typed_amount t es else sum_of t []))
        → sum_of t owned' ≤ max_uint64
        → ◌≡◌ {A = Result (Owned × ℕ)} (ok (owned', n')) (ok (owned, n))
        → (sum_of t owned ≡ assigned_amount operation t) × (sum_of t owned ≤ max_uint64)
    finish es owned' n' same sums bound done =
        ground (arith, sums (subst DistinctKeys same d), none_sum t, absent_amount t es)
