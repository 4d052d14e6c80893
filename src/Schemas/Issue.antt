-- ===== src/Schemas/Issue.antt =====
-- What an accepted genesis issues: `ValidateGenesis` of schemas/validate.go.
use rgb.Prelude.{ℕ, ◌+◌, ◌≡◌, refl, some, Result, ok, after_ok, after_some, arith, subst}
use rgb.Prelude.Bytes.{ByteString}
use rgb.StrictTypes.Value.{Value, field}
use rgb.Schemas.Types.{
  AssetKind, nia, ifa, pfa, cfa, uda, Services, owned_asset, owned_inflation, global_issued_supply,
  global_max_supply,
}
use rgb.Schemas.Access.{as_state_error}
use rgb.Schemas.State.{Globals, validate_metadata, validate_globals, one_global_amount}
use rgb.Schemas.Owned.{validate_assignments}
use rgb.Schemas.Script.{
  Owned, sum_of, validate_fungible_genesis, validate_inflatable_genesis, validate_genesis_script,
}
use rgb.Schemas.Transition.{GenesisValidation, validate_genesis}
use rgb.Schemas.Amounts.{DistinctKeys}
use rgb.Schemas.Supplies.{supply, assigned_entries, assigned_amount, validate_assignments_sum}

-- The supply that the globals declare: the issued amount, or for IFA the maximum.
abbrev pub declared_supply : AssetKind → Globals → Result ℕ
declared_supply nia globals = one_global_amount globals global_issued_supply
declared_supply cfa globals = one_global_amount globals global_issued_supply
declared_supply pfa globals = one_global_amount globals global_issued_supply
declared_supply ifa globals = one_global_amount globals global_max_supply
declared_supply uda globals = ok 0

plain_issue :
    (globals : Globals) (owned : Owned)
    → validate_fungible_genesis globals owned ≡ ok tt
    → one_global_amount globals global_issued_supply ≡ ok (sum_of owned_asset owned)
unfolding validate_fungible_genesis
plain_issue globals owned h =
    after_ok (one_global_amount globals global_issued_supply) _ h λ issued e h1. ground (arith, e)

inflatable_issue :
    (globals : Globals) (owned : Owned)
    → validate_inflatable_genesis globals owned ≡ ok tt
    → one_global_amount globals global_max_supply
      ≡ ok (sum_of owned_asset owned + sum_of owned_inflation owned)
unfolding validate_inflatable_genesis
inflatable_issue globals owned h =
    after_ok (one_global_amount globals global_issued_supply) _ h λ issued e h1.
      after_ok (one_global_amount globals global_max_supply) _ h1 λ maximum e' h2.
        let total : maximum ≡ sum_of owned_asset owned + sum_of owned_inflation owned =
          ground arith in
        cc (e', total)

script_issue :
    (kind : AssetKind) (globals : Globals) (owned : Owned)
    → validate_genesis_script kind globals owned ≡ ok tt
    → declared_supply kind globals ≡ ok (supply kind (λ t. sum_of t owned))
script_issue nia globals owned h = plain_issue globals owned (unfold validate_genesis_script in h)
script_issue cfa globals owned h = plain_issue globals owned (unfold validate_genesis_script in h)
script_issue pfa globals owned h = plain_issue globals owned (unfold validate_genesis_script in h)
script_issue ifa globals owned h =
    inflatable_issue globals owned (unfold validate_genesis_script in h)
script_issue uda globals owned h = refl

-- The globals under which an accepted genesis was checked, and the supply that they declare.
pub record Issued (services : Services) (schema type_system genesis : Value) (kind : AssetKind)
    : Type 0 where
  pub decode : ByteString → ByteString → Result Value
  pub genesis_schema : Value
  pub globals : Globals
  pub count : ℕ
  pub registry : as_state_error (services.add_type_system type_system) ≡ ok decode
  pub declared : field "genesis" schema ≡ some genesis_schema
  pub validated : validate_globals decode schema genesis_schema genesis ≡ ok (globals, count)
  pub issued : declared_supply kind globals ≡ ok (supply kind (assigned_amount genesis))

supply_of :
    (kind : AssetKind) (genesis : Value) (owned : Owned)
    → ((t : ℕ) → sum_of t owned ≡ assigned_amount genesis t)
    → supply kind (λ t. sum_of t owned) ≡ supply kind (assigned_amount genesis)
supply_of nia genesis owned e = e owned_asset
supply_of cfa genesis owned e = e owned_asset
supply_of pfa genesis owned e = e owned_asset
supply_of ifa genesis owned e = omega (arith, e owned_asset, e owned_inflation)
supply_of uda genesis owned e = refl

-- A genesis that `ValidateGenesis` accepts assigns exactly the supply that its global state
-- declares: the issued supply for NIA, CFA and PFA, and for IFA the maximum supply, as asset and
-- right to inflate together. The amounts are plain sums; the entries of the assignment map have
-- distinct types.
pub validate_genesis-issues :
    (services : Services) (schema type_system genesis : Value) (r : GenesisValidation)
    → DistinctKeys (assigned_entries genesis)
    → validate_genesis services schema type_system genesis ≡ ok r
    → Issued services schema type_system genesis r.kind
unfolding validate_genesis
validate_genesis-issues services schema type_system genesis r d h =
    after_ok (services.schema_kind schema) _ h λ kind is_kind h1.
      after_ok (as_state_error (services.add_type_system type_system)) _ h1 λ decode registry h2.
        after_some _ (field "genesis" schema) _ h2 λ genesis_schema declared h3.
          after_ok (validate_metadata decode schema genesis_schema genesis) _ h3 λ _ _ h4.
            after_ok (validate_globals decode schema genesis_schema genesis) _ h4
              λ globals validated h5.
                after_ok (validate_assignments decode schema genesis_schema genesis) _ h5
                  λ owned checked h6.
                    after_ok (validate_genesis_script kind globals.0 owned.0) _ h6 λ _ passed done.
                      let same_kind : kind ≡ r.kind = cc in
                      let total = supply_of kind genesis owned.0 (λ t.
                        (validate_assignments_sum decode schema genesis_schema genesis owned.0
                          owned.1 t d checked).0) in
                      let declares = script_issue kind globals.0 owned.0 passed in
                      record {
                        decode = decode;
                        genesis_schema = genesis_schema;
                        globals = globals.0;
                        count = globals.1;
                        registry = registry;
                        declared = declared;
                        validated = validated;
                        issued =
                            subst
                              (λ k.
                                declared_supply k globals.0
                                ≡ ok (supply k (assigned_amount genesis)))
                              same_kind (cc (declares, total));
                      }
