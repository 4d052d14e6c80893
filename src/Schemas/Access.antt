-- ===== src/Schemas/Access.antt =====
-- schemas/validate.go: the schema's tables, read from decoded values, and the occurrence rules.
use rgb.Prelude.{
  ℕ, ◌≤◌, ◌≡◌, ◌↔◌, ◌⊎◌, inl, inr, refl, Bool, true, false, not, ◌||◌, none, some, List, [], ◌∷◌,
  leb, ltb, All, Result, ok, err, schema_conformance, state_type, ◌>>=◌, ◌>>◌, guard, of_option,
  String, arith,
}
use rgb.Prelude.Keyed.{Map, lookup, insert, nat_eq}
use rgb.StrictTypes.Value.{Value, Entry, field, unwrap}
use rgb.StrictTypes.Numbers.{number, entries}
use rgb.Schemas.Types.{Occurrence}

-- A failure of the registry is reported as a state type error.
abbrev pub as_state_error {ℓ} : {A : Type ℓ} → Result A → Result A
as_state_error (ok a) = ok a
as_state_error (err e) = err state_type

-- `target[id]`, with Go's zero for an absent id.
abbrev pub count_of : ℕ → Map ℕ ℕ → ℕ
count_of id m = elim (lookup id m) [ none ↦ 0 | some n ↦ n ]

unfoldable pub collect_numbered : List Entry → Map ℕ Value → Result (Map ℕ Value)
unfolding number unwrap
collect_numbered [] table = ok table
collect_numbered (e ∷ es) table = do
  id ← of_option schema_conformance (number e.key)
  collect_numbered es (insert id (unwrap e.value) table)

unfoldable pub map_by_number_field : Value → String → Result (Map ℕ Value)
unfolding collect_numbered field entries
map_by_number_field value name = do
  map_value ← of_option schema_conformance (field name value)
  listed ← of_option schema_conformance (entries map_value)
  collect_numbered listed []

-- One occurrence: both bounds are there and are numbers, and the lower is not above the upper.
unfoldable pub read_occurrence : Entry → Result (ℕ × Occurrence)
unfolding number unwrap field
read_occurrence e = do
  id ← of_option schema_conformance (number e.key)
  min_value ← of_option schema_conformance (field "min" (unwrap e.value))
  max_value ← of_option schema_conformance (field "max" (unwrap e.value))
  min ← of_option schema_conformance (number min_value)
  max ← of_option schema_conformance (number max_value)
  guard (leb min max) schema_conformance
  ok (id, record { min = min; max = max })

unfoldable pub collect_occurrences : List Entry → Map ℕ Occurrence → Result (Map ℕ Occurrence)
unfolding read_occurrence
collect_occurrences [] table = ok table
collect_occurrences (e ∷ es) table = do
  (id, bound) ← read_occurrence e
  collect_occurrences es (insert id bound table)

unfoldable pub occurrence_map : Value → String → Result (Map ℕ Occurrence)
unfolding collect_occurrences field entries
occurrence_map schema name = do
  value ← of_option schema_conformance (field name schema)
  listed ← of_option schema_conformance (entries value)
  collect_occurrences listed []

unfoldable pub enforce_occurrences : Map ℕ Occurrence → Map ℕ ℕ → Result (Unit {0})
enforce_occurrences [] actual = ok tt
enforce_occurrences ((id, bound) ∷ rest) actual = do
  let count = count_of id actual
  guard (not (ltb count bound.min || ltb bound.max count)) schema_conformance
  enforce_occurrences rest actual

abbrev pub InBounds : Map ℕ ℕ → ℕ × Occurrence → Type 0
InBounds actual c = (c.1.min ≤ count_of c.0 actual) × (count_of c.0 actual ≤ c.1.max)

InBounds-iff :
    (constraints : Map ℕ Occurrence) (actual : Map ℕ ℕ)
    → (enforce_occurrences constraints actual ≡ ok tt) ↔ All (InBounds actual) constraints
unfolding enforce_occurrences
InBounds-iff [] actual = (λ h. tt, λ h. refl)
InBounds-iff ((id, bound) ∷ rest) actual =
    let (to, from) = InBounds-iff rest actual in
    (λ h. ground (arith, to (ground arith)), λ h. ground (arith, from h.1))

enforce_occurrences-outcomes :
    (constraints : Map ℕ Occurrence) (actual : Map ℕ ℕ)
    → (enforce_occurrences constraints actual ≡ ok tt)
      ⊎ (enforce_occurrences constraints actual ≡ err schema_conformance)
unfolding enforce_occurrences
enforce_occurrences-outcomes [] actual = inl refl
enforce_occurrences-outcomes ((id, bound) ∷ rest) actual =
    either (not (ltb (count_of id actual) bound.min || ltb bound.max (count_of id actual)))
      (enforce_occurrences rest actual) (enforce_occurrences-outcomes rest actual)
  where
    either :
        (b : Bool) (m : Result (Unit {0}))
        → (m ≡ ok tt) ⊎ (m ≡ err schema_conformance)
        → ((guard b schema_conformance >> m) ≡ ok tt)
          ⊎ ((guard b schema_conformance >> m) ≡ err schema_conformance)
    either true m h = h
    either false m h = inr refl

-- The occurrence check passes exactly when every declared type, also one that does not occur,
-- occurs as often as its bounds allow, and fails with a conformance error exactly when not.
pub enforce_occurrences_iff :
    (constraints : Map ℕ Occurrence) (actual : Map ℕ ℕ)
    → ((enforce_occurrences constraints actual ≡ ok tt) ↔ All (InBounds actual) constraints)
      × ((enforce_occurrences constraints actual ≡ err schema_conformance)
          ↔ ¬ All (InBounds actual) constraints)
enforce_occurrences_iff constraints actual =
    let (to, from) = InBounds-iff constraints actual in
    (
      (to, from),
      (
        λ failed all. (let passed = from all in absurd (cc (passed, failed))),
        λ none_holds. elim (enforce_occurrences-outcomes constraints actual) [
          | inl passed ↦ absurd (none_holds (to passed))
          | inr failed ↦ failed
        ],
      ),
    )
