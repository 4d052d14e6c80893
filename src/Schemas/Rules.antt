-- ===== src/Schemas/Rules.antt =====
-- What the rules of the standard schemas in schemas/transition.go say of the sums.
use rgb.Prelude.{
  ℕ, ◌+◌, ◌≤◌, ◌≡◌, refl, Bool, true, false, ◌==◌, ok, ◌&&◌, after_ok, after_some, after_guard,
  arith,
}
use rgb.Prelude.Keyed.{lookup, nat_eq}
use rgb.Schemas.Types.{
  AssetKind, nia, ifa, pfa, cfa, uda, Services, max_uint64, owned_asset, owned_inflation,
  global_issued_supply,
}
use rgb.Schemas.State.{one_global_amount}
use rgb.Schemas.Script.{
  ScriptInput, ifa_transfer, ifa_inflation, burn_balances, ifa_burn, input_sum, output_sum,
  validate_transition_script,
}
use rgb.Schemas.Supplies.{supply}

ifa_transfer_lem :
    (s : ScriptInput)
    → ifa_transfer s ≡ ok tt
    → (output_sum owned_asset s ≡ input_sum owned_asset s)
      × (output_sum owned_inflation s ≡ input_sum owned_inflation s)
unfolding ifa_transfer
ifa_transfer_lem s h = ground arith

-- An inflation splits the allowance, and the uint64 sum of the two parts did not wrap round.
ifa_inflation_lem :
    (s : ScriptInput)
    → output_sum owned_asset s ≤ max_uint64
    → output_sum owned_inflation s ≤ max_uint64
    → ifa_inflation s ≡ ok tt
    → output_sum owned_asset s + output_sum owned_inflation s ≡ input_sum owned_inflation s
unfolding ifa_inflation
ifa_inflation_lem s b c h =
    after_ok (one_global_amount s.globals global_issued_supply) _ h
      λ issued _ h1. after_some _ (lookup 1000 s.metadata) _ h1 λ remaining _ h2. ground arith

burn_balances_lem : (kept burned input : ℕ) → burn_balances kept burned input ≡ true → kept ≤ input
unfolding burn_balances
burn_balances_lem kept burned input h = ground arith

both_true : (a b : Bool) → a && b ≡ true → (a ≡ true) × (b ≡ true)
both_true true b h = (refl, h)
both_true false b h = cc

ifa_burn_lem :
    (s : ScriptInput)
    → ifa_burn s ≡ ok tt
    → (output_sum owned_asset s ≤ input_sum owned_asset s)
      × (output_sum owned_inflation s ≤ input_sum owned_inflation s)
unfolding ifa_burn
ifa_burn_lem s h = after_some _ (lookup 1001 s.metadata) _ h λ asset _ h1.
    after_some _ (lookup 1002 s.metadata) _ h1 λ inflation _ h2.
      after_guard
        (burn_balances (output_sum owned_asset s) asset (input_sum owned_asset s)
          && burn_balances (output_sum owned_inflation s) inflation (input_sum owned_inflation s))
        _ _ h2
        λ balanced _.
          let (a, b) = both_true _ _ balanced in
          (burn_balances_lem _ asset _ a, burn_balances_lem _ inflation _ b)

-- Each standard script keeps the supply, wrap-round included.
pub script_conserves :
    (services : Services) (kind : AssetKind) (s : ScriptInput)
    → ((t : ℕ) → output_sum t s ≤ max_uint64)
    → validate_transition_script services kind s ≡ ok tt
    → supply kind (λ t. output_sum t s) ≤ supply kind (λ t. input_sum t s)
unfolding validate_transition_script
script_conserves services nia s b h = ground arith
script_conserves services cfa s b h = ground arith
script_conserves services pfa s b h =
    after_guard (s.transition_type == 10000 && input_sum owned_asset s == output_sum owned_asset s)
      _ _ h λ kept _. ground arith
script_conserves services ifa s b h = ground (
  arith,
  ifa_transfer_lem s,
  ifa_inflation_lem s (b owned_asset) (b owned_inflation),
  ifa_burn_lem s,
)
script_conserves services uda s b h = omega arith

pub script_transfer_exact :
    (services : Services) (kind : AssetKind) (s : ScriptInput)
    → s.transition_type ≡ 10000
    → validate_transition_script services kind s ≡ ok tt
    → supply kind (λ t. output_sum t s) ≡ supply kind (λ t. input_sum t s)
unfolding validate_transition_script
script_transfer_exact services nia s b h = ground arith
script_transfer_exact services cfa s b h = ground arith
script_transfer_exact services pfa s b h =
    after_guard (s.transition_type == 10000 && input_sum owned_asset s == output_sum owned_asset s)
      _ _ h λ kept _. ground arith
script_transfer_exact services ifa s b h = ground (arith, ifa_transfer_lem s)
script_transfer_exact services uda s b h = omega arith

pub supply_cong :
    (kind : AssetKind) (f g : ℕ → ℕ) → ((t : ℕ) → f t ≡ g t) → supply kind f ≡ supply kind g
supply_cong nia f g e = e owned_asset
supply_cong cfa f g e = e owned_asset
supply_cong pfa f g e = e owned_asset
supply_cong ifa f g e = omega (arith, e owned_asset, e owned_inflation)
supply_cong uda f g e = refl

pub supply_mono :
    (kind : AssetKind) (f g : ℕ → ℕ) → ((t : ℕ) → f t ≤ g t) → supply kind f ≤ supply kind g
supply_mono nia f g e = e owned_asset
supply_mono cfa f g e = e owned_asset
supply_mono pfa f g e = e owned_asset
supply_mono ifa f g e = omega (arith, e owned_asset, e owned_inflation)
supply_mono uda f g e = omega arith
