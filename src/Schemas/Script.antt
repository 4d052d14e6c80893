-- ===== src/Schemas/Script.antt =====
-- The rules of the standard schemas: `validateGenesisScript` of schemas/validate.go, and
-- `validateTransitionScript` and `verifyPfaSignature` of schemas/transition.go. Sums of uint64
-- keep their wrap-round.
use rgb.Prelude.{
  ℕ, ◌+◌, ◌-◌, ◌%◌, ◌^◌, Bool, false, not, ◌&&◌, Option, none, some, List, [], ◌∷◌, length, take,
  drop, leb, ltb, ◌==◌, if◌then◌else◌, Result, err, str_eq, schema_script, unsupported_transition,
  ◌>>=◌, ◌>>◌, guard, of_option,
}
use rgb.Prelude.Bytes.{ByteString, bytes_eq, get_le}
use rgb.Prelude.Keyed.{Map, lookup, nat_eq}
use rgb.StrictTypes.Value.{
  Value, Kind, kind_eq, kind, attributes, inner, pointee, field, unwrap, bytes_of,
}
use rgb.Schemas.Types.{
  AssetKind, nia, ifa, pfa, cfa, uda, DecodedGlobal, DecodedOwned, zero_owned, TransitionContext,
  Services, global_issued_supply, global_max_supply, global_tokens, owned_asset, owned_inflation,
}
use rgb.Schemas.Access.{count_of}
use rgb.Schemas.State.{Globals, values_of, one_global_amount}

abbrev pub Owned : Type 0
Owned = Map ℕ DecodedOwned

abbrev pub owned_of : ℕ → Owned → DecodedOwned
owned_of id owned = elim (lookup id owned) [ none ↦ zero_owned | some state ↦ state ]

abbrev pub sum_of : ℕ → Owned → ℕ
sum_of id owned = (owned_of id owned).sum

abbrev pub single {ℓ} : {A : Type ℓ} → List A → Option A
single [] = none
single (x ∷ []) = some x
single (x ∷ y ∷ rest) = none

-- The token index in front, and the fraction in bytes 4 to 12.
unfoldable pub token_matches : ByteString → ByteString → Bool
unfolding bytes_eq get_le
token_matches token allocation =
    (leb 4 (length token) && leb 12 (length allocation))
    && (bytes_eq (take 4 token) (take 4 allocation) && get_le (take 8 (drop 4 allocation)) == 1)

unfoldable pub unique_token : Option ByteString → Option ByteString → Bool
unfolding token_matches
unique_token (some token) (some allocation) = token_matches token allocation
unique_token (some token) none = false
unique_token none allocation = false

abbrev first_raw : Option DecodedGlobal → Option ByteString
first_raw none = none
first_raw (some g) = some g.raw

unfoldable pub validate_fungible_genesis : Globals → Owned → Result (Unit {0})
unfolding one_global_amount
validate_fungible_genesis globals owned = do
  issued ← one_global_amount globals global_issued_supply
  guard (sum_of owned_asset owned == issued) schema_script

unfoldable pub validate_inflatable_genesis : Globals → Owned → Result (Unit {0})
unfolding one_global_amount
validate_inflatable_genesis globals owned = do
  issued ← one_global_amount globals global_issued_supply
  maximum ← one_global_amount globals global_max_supply
  guard (sum_of owned_asset owned == issued) schema_script
  guard (not (ltb maximum issued) && sum_of owned_inflation owned == (maximum - issued))
      schema_script

unfoldable pub validate_genesis_script : AssetKind → Globals → Owned → Result (Unit {0})
unfolding validate_fungible_genesis validate_inflatable_genesis unique_token
validate_genesis_script nia globals owned = validate_fungible_genesis globals owned
validate_genesis_script cfa globals owned = validate_fungible_genesis globals owned
validate_genesis_script pfa globals owned = validate_fungible_genesis globals owned
validate_genesis_script ifa globals owned = validate_inflatable_genesis globals owned
validate_genesis_script uda globals owned =
    guard
      (unique_token (first_raw (single (values_of global_tokens globals)))
        (single (owned_of owned_asset owned).raw))
      schema_script

-- What a transition's script reads.
pub record ScriptInput : Type 0 where
  pub transition_type : ℕ
  pub transition : Value
  pub operation_id : ByteString
  pub context : TransitionContext
  pub metadata : Map ℕ ℕ
  pub globals : Globals
  pub input_counts : Map ℕ ℕ
  pub input_amounts : Map ℕ ℕ
  pub input_data : Map ℕ (List ByteString)
  pub outputs : Owned

unfoldable pub signature_valid : Services → ByteString → ByteString → ByteString → Bool
signature_valid services compact operation_id pubkey =
    length compact == 64
    && (services.scalar_valid (take 32 compact)
        && (services.scalar_valid (drop 32 compact)
            && services.verify (take 32 compact) (drop 32 compact) operation_id pubkey))

unfoldable pub verify_pfa_signature :
    Services → Value → ByteString → List ByteString → Result (Unit {0})
unfolding signature_valid field unwrap bytes_of
verify_pfa_signature services transition operation_id pubkeys = do
  pubkey ← of_option schema_script (single pubkeys)
  guard (services.pub_key_parses pubkey) schema_script
  signature_value ← of_option schema_script (field "signature" transition)
  let signature = unwrap signature_value
  guard (kind_eq (kind signature) Kind.union && str_eq (attributes signature).name "some")
      schema_script
  body ← of_option schema_script (pointee (inner signature))
  compact ← of_option schema_script (bytes_of body)
  guard (signature_valid services compact operation_id pubkey) schema_script

abbrev pub input_sum : ℕ → ScriptInput → ℕ
input_sum id s = count_of id s.input_amounts

abbrev pub output_sum : ℕ → ScriptInput → ℕ
output_sum id s = sum_of id s.outputs

-- IFA transfer, transition 10000.
unfoldable pub ifa_transfer : ScriptInput → Result (Unit {0})
ifa_transfer s =
    guard
      ((input_sum owned_asset s == output_sum owned_asset s)
        && (input_sum owned_inflation s == output_sum owned_inflation s
            && count_of 4013 s.input_counts == (owned_of 4013 s.outputs).count))
      schema_script

-- IFA inflation, transition 8000.
unfoldable pub ifa_inflation : ScriptInput → Result (Unit {0})
unfolding one_global_amount
ifa_inflation s = do
  issued ← one_global_amount s.globals global_issued_supply
  remaining ← of_option schema_script (lookup 1000 s.metadata)
  let allowance = (issued + remaining) % 2 ^ 64
  guard
      ((issued == output_sum owned_asset s && remaining == output_sum owned_inflation s)
        && (input_sum owned_inflation s == allowance && not (ltb allowance issued)))
      schema_script

-- What stays and what is burned make up the input, and their uint64 sum does not wrap round.
unfoldable pub burn_balances : ℕ → ℕ → ℕ → Bool
burn_balances kept burned input =
    let sum = (kept + burned) % 2 ^ 64 in not (ltb sum kept) && input == sum

-- State that comes in must be burned in part.
unfoldable pub burn_touches : ℕ → ℕ → Bool
burn_touches burned input = not (ltb 0 input && burned == 0)

-- IFA burn, transition 8010.
unfoldable pub ifa_burn : ScriptInput → Result (Unit {0})
unfolding burn_balances burn_touches
ifa_burn s = do
  burned_asset ← of_option schema_script (lookup 1001 s.metadata)
  burned_inflation ← of_option schema_script (lookup 1002 s.metadata)
  guard
      (burn_balances (output_sum owned_asset s) burned_asset (input_sum owned_asset s)
        && burn_balances (output_sum owned_inflation s) burned_inflation
            (input_sum owned_inflation s))
      schema_script
  guard
      ((burn_touches burned_asset (input_sum owned_asset s)
          && burn_touches burned_inflation (input_sum owned_inflation s))
        && not (burned_asset == 0 && burned_inflation == 0))
      schema_script

abbrev fungible_conserved : ScriptInput → Bool
fungible_conserved s =
    s.transition_type == 10000 && input_sum owned_asset s == output_sum owned_asset s

unfoldable pub validate_transition_script : Services → AssetKind → ScriptInput → Result (Unit {0})
unfolding verify_pfa_signature ifa_transfer ifa_inflation ifa_burn unique_token
validate_transition_script services nia s = guard (fungible_conserved s) schema_script
validate_transition_script services cfa s = guard (fungible_conserved s) schema_script
validate_transition_script services pfa s = do
  guard (fungible_conserved s) schema_script
  verify_pfa_signature services s.transition s.operation_id
      (values_of 3006 s.context.contract_globals)
validate_transition_script services ifa s =
    if s.transition_type == 10000
    then ifa_transfer s
    else if s.transition_type == 8000
    then ifa_inflation s
    else if s.transition_type == 8010
    then ifa_burn s
    else err unsupported_transition
validate_transition_script services uda s =
    guard
      (s.transition_type == 10000
        && unique_token (single (values_of owned_asset s.input_data))
            (single (owned_of owned_asset s.outputs).raw))
      schema_script
