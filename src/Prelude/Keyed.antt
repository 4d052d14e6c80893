-- ===== src/Prelude/Keyed.antt =====
-- Go's maps as association lists: a later write hides an earlier one, and a deletion removes all.
-- Keys are compared by an instance of `Eq`, as Go's `==` compares them.
use rgb.Prelude.Tests.{◌==◌, ==_iff, if◌then◌else◌, Bool-cases}
use rgb.Prelude.Bytes.{ByteString, bytes_eq, bytes_eq→eq, bytes_eq_refl}
use Prim.Native.Nat.{ℕ, ◌+◌, ◌≤◌}
use mathlib.Core.Path.{◌≡◌, refl, subst}
use mathlib.Core.Logic.{◌↔◌, ◌≢◌, inl, inr}
use mathlib.Core.Bool.{Bool, true, false}
use mathlib.Core.Option.{Option, none, some}
use mathlib.Core.List.{List, [], ◌∷◌}
use native.Mathlib.Omega.{arith}

-- A type whose values `==` compares: the comparison is true exactly at equal values.
pub record Eq {κ} (K : Type κ) : Type κ where
  pub matches : K → K → Bool
  pub matches_iff : (key other : K) → (matches key other ≡ true) ↔ (key ≡ other)

infix 50 ◌=?◌
abbrev pub ◌=?◌ {κ} : {K : Type κ} ⦃keys : Eq K⦄ → K → K → Bool
◌=?◌ ⦃keys⦄ = keys.matches

abbrev pub nat_beq : ℕ → ℕ → Bool
nat_beq a b = a == b

instance abbrev pub nat_eq : Eq ℕ
nat_eq = record { matches = nat_beq; matches_iff = ==_iff }

pub bytes_iff : (a b : ByteString) → (bytes_eq a b ≡ true) ↔ (a ≡ b)
bytes_iff a b = (bytes_eq→eq a b, λ e. subst (λ t. bytes_eq a t ≡ true) e (bytes_eq_refl a))

instance abbrev pub bytes_eq_instance : Eq ByteString
bytes_eq_instance = record { matches = bytes_eq; matches_iff = bytes_iff }

abbrev pub Map {ℓ κ} : Type ℓ → Type κ → Type (ℓ ⊔ κ)
Map K V = List (K × V)

module _ {ℓ} {K : Type ℓ} ⦃e : Eq K⦄ where
  pub =?-refl : (k : K) → (k =? k) ≡ true
  =?-refl k = (e.matches_iff k k).1 refl

  pub =?→eq : (k j : K) → (k =? j) ≡ true → k ≡ j
  =?→eq k j h = (e.matches_iff k j).0 h

  pub ne→=? : (k j : K) → k ≢ j → (k =? j) ≡ false
  ne→=? k j h = elim (Bool-cases (k =? j)) [
    | inl yes' ↦ absurd (h (=?→eq k j yes'))
    | inr no' ↦ no'
  ]

  unfoldable pub contains : List K → K → Bool
  contains [] k = false
  contains (j ∷ js) k = let rest = contains js k in if j =? k then true else rest

module _ {ℓ κ} {K : Type ℓ} {V : Type κ} ⦃e : Eq K⦄ where
  unfoldable pub lookup : K → Map K V → Option V
  lookup k [] = none
  lookup k ((j, v) ∷ m) = let rest = lookup k m in if j =? k then some v else rest

  unfoldable pub remove : K → Map K V → Map K V
  remove k [] = []
  remove k ((j, v) ∷ m) = let rest = remove k m in if j =? k then rest else (j, v) ∷ rest

  unfoldable pub insert : K → V → Map K V → Map K V
  insert k v m = (k, v) ∷ remove k m

  pub lookup-remove :
      (k j : K) (m : Map K V) → lookup j (remove k m) ≡ (if k =? j then none else lookup j m)
  unfolding lookup remove
  lookup-remove k j [] = ground arith
  lookup-remove k j ((i, v) ∷ m) =
      ground (arith, lookup-remove k j m, e.matches_iff i k, e.matches_iff i j, e.matches_iff k j)

  pub lookup-insert :
      (k j : K) (v : V) (m : Map K V)
      → lookup j (insert k v m) ≡ (if k =? j then some v else lookup j m)
  unfolding lookup insert
  lookup-insert k j v m = ground (arith, lookup-remove k j m)

  -- The total of a measure over the entries.
  unfoldable pub total : (K → V → ℕ) → Map K V → ℕ
  total f [] = 0
  total f ((j, v) ∷ m) = f j v + total f m

  pub total-remove : (f : K → V → ℕ) (k : K) (m : Map K V) → total f (remove k m) ≤ total f m
  unfolding total remove
  total-remove f k [] = omega arith
  total-remove f k ((j, v) ∷ m) = ground (arith, total-remove f k m)

  -- Removing a key takes the measure of what it held away.
  pub total-remove_found :
      (f : K → V → ℕ) (k : K) (v : V) (m : Map K V)
      → lookup k m ≡ some v
      → total f (remove k m) + f k v ≤ total f m
  unfolding total remove lookup
  total-remove_found f k v [] h = cc
  total-remove_found f k v ((j, w) ∷ m) h =
      ground (arith, e.matches_iff j k, total-remove f k m, total-remove_found f k v m)

  pub total-insert :
      (f : K → V → ℕ) (k : K) (v : V) (m : Map K V) → total f (insert k v m) ≤ f k v + total f m
  unfolding total insert
  total-insert f k v m = omega (arith, total-remove f k m)
