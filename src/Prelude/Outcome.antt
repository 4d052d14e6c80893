-- ===== src/Prelude/Outcome.antt =====
-- Go's (value, error) pairs. An error is the sentinel that `errors.Is` finds in it; the text that
-- `fmt.Errorf` wraps round it is dropped.
use mathlib.Core.Path.{◌≡◌, refl, ap, ◌∙◌}
use mathlib.Core.Bool.{Bool, true, false}
use mathlib.Core.Option.{Option, none, some}

pub data Error : Type 0 where
  out_of_bounds unexpected_eof trailing_data invalid_bool invalid_option_tag : Error
  schema_conformance state_type schema_script unknown_schema : Error
  input_unresolved unsupported_transition invalid_schema_value : Error
  invalid_genesis invalid_transition invalid_bundle : Error
  transition_id_mismatch unrelated_transition : Error
  container_type bundle_anchor seal_not_closed input_map_mismatch duplicate_state_spend : Error
  outpoint_unknown outpoint_spend witness_unknown : Error
  invalid_mpc_proof invalid_graph_seal merge_history : Error
  head_wallet head_sequence head_conflict head_field : Error
  not_found tx_invalid tx_closed : Error
  base85_character base85_remainder : Error
  invalid_tx_id invalid_disclosure invalid_opret invalid_tapret unknown_close_method : Error
  witness_unresolved witness_archived witness_mismatch : Error
  invalid_amount file_magic armor_too_large : Error
  armor_structure armor_header armor_checksum armor_identifier : Error
  invalid_opout : Error
  container_version contract_mismatch schema_mismatch genesis_schema id_mismatch : Error
  malformed_type unknown_variant non_canonical : Error
  -- the nesting of types is deeper than the fuel
  too_deep : Error
  -- an error that code outside the repository made
  foreign : Error

-- Go's second result is nil under `ok`.
pub data Result {ℓ} (A : Type ℓ) : Type ℓ where
  err : Error → Result A
  ok : A → Result A

-- `if !condition { return error }`
abbrev pub guard : Bool → Error → Result (Unit {0})
guard false failure = err failure
guard true failure = ok tt

-- `value, found := ...; if !found { return error }`
abbrev pub of_option {ℓ} : {A : Type ℓ} → Error → Option A → Result A
of_option failure none = err failure
of_option failure (some value) = ok value

-- `if err != nil { return err }` between two calls.
infixl 5 ◌>>=◌ ◌>>◌
abbrev pub ◌>>=◌ {ℓ κ} : {A : Type ℓ} {B : Type κ} → Result A → (A → Result B) → Result B
err failure >>= next = err failure
ok value >>= next = next value

abbrev pub ◌>>◌ {κ} : {B : Type κ} → Result (Unit {0}) → Result B → Result B
first >> second = first >>= λ done. second

-- `fmt.Errorf("%w: %v", failure, err)`: `errors.Is` finds the new sentinel only.
abbrev pub recast {ℓ} : {A : Type ℓ} → Error → Result A → Result A
recast failure (err e) = err failure
recast failure (ok value) = ok value

-- A chain that succeeds has a first step that succeeds.
pub >>=-eq_ok {κ μ} :
    {X : Type κ} {Y : Type μ} (step : Result X) (next : X → Result Y) {result : Y}
    → (step >>= next) ≡ ok result
    → (x : X) × (step ≡ ok x) × (next x ≡ ok result)
>>=-eq_ok (err failure) next h = cc
>>=-eq_ok (ok x) next h = (x, refl, h)

pub guard-eq_ok {κ} :
    {Y : Type κ} (condition : Bool) (failure : Error) (rest : Result Y) {result : Y}
    → (guard condition failure >> rest) ≡ ok result
    → (condition ≡ true) × (rest ≡ ok result)
guard-eq_ok false failure rest h = cc
guard-eq_ok true failure rest h = (refl, h)

pub of_option-eq_ok {κ μ} :
    {X : Type κ} {Y : Type μ} (failure : Error) (o : Option X) (next : X → Result Y) {result : Y}
    → (of_option failure o >>= next) ≡ ok result
    → (x : X) × (o ≡ some x) × (next x ≡ ok result)
of_option-eq_ok failure none next h = cc
of_option-eq_ok failure (some x) next h = (x, refl, h)

-- The same with a continuation, for long chains: what a step returned is a variable there.
pub after_ok {ℓ κ μ} :
    {A : Type ℓ} {B : Type κ} {C : Type μ} (m : Result A) (f : A → Result B) {b : B}
    → (m >>= f) ≡ ok b
    → ((a : A) → m ≡ ok a → f a ≡ ok b → C)
    → C
after_ok (ok a) f h k = k a refl h
after_ok (err e) f h k = absurd (cc)

pub after_some {ℓ κ μ} :
    {A : Type ℓ} {B : Type κ} {C : Type μ} (e : Error) (o : Option A) (f : A → Result B) {b : B}
    → (of_option e o >>= f) ≡ ok b
    → ((a : A) → o ≡ some a → f a ≡ ok b → C)
    → C
after_some e none f h k = absurd (cc)
after_some e (some a) f h k = k a refl h

pub after_guard {ℓ κ} :
    {B : Type ℓ} {C : Type κ} (c : Bool) (e : Error) (m : Result B) {b : B}
    → (guard c e >> m) ≡ ok b
    → (c ≡ true → m ≡ ok b → C)
    → C
after_guard true e m h k = k refl h
after_guard false e m h k = absurd (cc)

-- A condition that holds lets the chain go on.
pub guard-pass {ℓ} :
    {B : Type ℓ} (c : Bool) (e : Error) (m : Result B) → c ≡ true → (guard c e >> m) ≡ m
guard-pass true e m h = refl
guard-pass false e m h = absurd (cc)

pub recast-eq_ok {ℓ} :
    {A : Type ℓ} (failure : Error) (m : Result A) {a : A} → recast failure m ≡ ok a → m ≡ ok a
recast-eq_ok failure (err e) h = absurd (cc)
recast-eq_ok failure (ok a) h = h

pub ok_inj : {A : Type 0} {a b : A} → ok a ≡ ok b → a ≡ b
ok_inj h = cc

-- The steps of a chain that succeed, one by one.
pub then_ok :
    {A B : Type 0} (m : Result A) (f : A → Result B) {a : A} {r : Result B}
    → m ≡ ok a
    → f a ≡ r
    → (m >>= f) ≡ r
then_ok m f h k = ap (λ n. n >>= f) h ∙ k

pub then_some :
    {A B : Type 0} (e : Error) (o : Option A) (f : A → Result B) {a : A} {r : Result B}
    → o ≡ some a
    → f a ≡ r
    → (of_option e o >>= f) ≡ r
then_some e o f h k = ap (λ n. of_option e n >>= f) h ∙ k

pub then_pass :
    {B : Type 0} (b : Bool) (e : Error) (m : Result B) {r : Result B}
    → b ≡ true
    → m ≡ r
    → (guard b e >> m) ≡ r
then_pass b e m h k = ap (λ c. guard c e >> m) h ∙ k
