-- ===== src/StrictTypes/Fuel/Depth.antt =====
-- How deep the definitions of strict_types/parsed_type.go go, in a registry whose types do not refer
-- to themselves: `heights` gives each named type a height.
use Prim.Native.Nat.{max}
use rgb.Prelude.{
  ℕ, suc, ◌<◌, ◌≡◌, ◌≢◌, refl, sym, subst, Option, none, some, Result, ok, err, Error, too_deep,
  guard, of_option, Bool, true, false, after_ok, arith, ◌>>=◌, String,
}
use rgb.StrictTypes.ParsedType.{
  TypeRef, ParsedType, Refs, Members, Variants, Registry, resolve, named, extern, inline, no_ref,
  primitive, unicode, enum, union, tuple, struct, array, list, set, map, no_refs, ref_cons,
  no_members, member_cons, no_variants, variant_cons,
}

-- Anything but the lack of fuel.
abbrev pub Shallow {ℓ} : {A : Type ℓ} → Result A → Type ℓ
Shallow m = m ≢ err too_deep

pub ok-Shallow {ℓ} : {A : Type ℓ} (a : A) → Shallow (ok a)
ok-Shallow a h = cc

pub chain-Shallow {ℓ κ} :
    {A : Type ℓ} {B : Type κ} (m : Result A) {k : A → Result B}
    → Shallow m
    → ((a : A) → m ≡ ok a → Shallow (k a))
    → Shallow (m >>= k)
chain-Shallow (err e) f g h = f (cc)
chain-Shallow (ok a) f g h = g a refl h

pub guard-Shallow : (c : Bool) (e : Error) → e ≢ too_deep → Shallow (guard c e)
guard-Shallow true e h d = cc
guard-Shallow false e h d = h (cc)

pub of_option-Shallow {ℓ} :
    {A : Type ℓ} (e : Error) (o : Option A) → e ≢ too_deep → Shallow (of_option e o)
of_option-Shallow e none h d = h (cc)
of_option-Shallow e (some a) h d = cc

pub of_option-ok {ℓ} :
    {A : Type ℓ} (e : Error) (o : Option A) (a : A) → of_option e o ≡ ok a → o ≡ some a
of_option-ok e none a h = absurd (cc)
of_option-ok e (some b) a h = cc

module _ (registry : Registry) (heights : registry.Lib → String → ℕ) where
  unfoldable mutual
    pub ref_height : registry.Lib → TypeRef → ℕ
    ref_height lib (named id) = heights lib id
    ref_height lib (extern lib_id id) = elim (registry.library lib_id) [
      | err e ↦ 0
      | ok other ↦ heights other id
    ]
    ref_height lib (inline t) = suc (type_height lib t)
    ref_height lib no_ref = 0

    pub type_height : registry.Lib → ParsedType → ℕ
    type_height lib (primitive p) = 0
    type_height lib unicode = 0
    type_height lib (enum variants) = 0
    type_height lib (union variants) = variants_height lib variants
    type_height lib (tuple refs) = refs_height lib refs
    type_height lib (struct members) = members_height lib members
    type_height lib (array ref count) = ref_height lib ref
    type_height lib (list ref least most) = ref_height lib ref
    type_height lib (set ref least most) = ref_height lib ref
    type_height lib (map key value least most) = max (ref_height lib key) (ref_height lib value)

    pub refs_height : registry.Lib → Refs → ℕ
    refs_height lib no_refs = 0
    refs_height lib (ref_cons ref refs) = max (ref_height lib ref) (refs_height lib refs)

    pub members_height : registry.Lib → Members → ℕ
    members_height lib no_members = 0
    members_height lib (member_cons name ref members) =
        max (ref_height lib ref) (members_height lib members)

    pub variants_height : registry.Lib → Variants → ℕ
    variants_height lib no_variants = 0
    variants_height lib (variant_cons name tag ref variants) =
        max (ref_height lib ref) (variants_height lib variants)

-- A type lies below its name, and the registry's own errors are not about fuel.
pub record IsStratified (registry : Registry) (heights : registry.Lib → String → ℕ) : Type 0 where
  pub below :
      (lib : registry.Lib) (id : String) (t : ParsedType)
      → registry.semantic lib id ≡ ok t
      → type_height registry heights lib t < heights lib id
  pub library_shallow : (name : String) → Shallow (registry.library name)
  pub semantic_shallow : (lib : registry.Lib) (id : String) → Shallow (registry.semantic lib id)
  pub named_shallow : (lib : registry.Lib) (name : String) → Shallow (registry.named_type lib name)

module _ (registry : Registry) (heights : registry.Lib → String → ℕ)
    (strata : IsStratified registry heights) where
  found_below :
      (lib : registry.Lib) (t : ParsedType) (found : registry.Lib × ParsedType) (bound : ℕ)
      → type_height registry heights lib t < bound
      → ◌≡◌ {A = Result (registry.Lib × ParsedType)} (ok (lib, t)) (ok found)
      → type_height registry heights found.0 found.1 < bound
  found_below lib t found bound h e =
      let same : (lib, t) ≡ found = cc in
      subst (λ f. type_height registry heights f.0 f.1 < bound) same h

  pub resolve-below :
      (lib : registry.Lib) (ref : TypeRef) (found : registry.Lib × ParsedType)
      → resolve registry lib ref ≡ ok found
      → type_height registry heights found.0 found.1 < ref_height registry heights lib ref
  unfolding resolve ref_height
  resolve-below lib (named id) found h =
      after_ok (registry.semantic lib id) _ h (λ t known done.
        found_below lib t found (heights lib id) (strata.below lib id t known) done)
  resolve-below lib (extern lib_id id) found h =
      after_ok (registry.library lib_id) _ h (λ other there done.
        after_ok (registry.semantic other id) _ done (λ t known last.
          let height : Result registry.Lib → ℕ =
            λ r. elim r [ err e ↦ 0 | ok other ↦ heights other id ] in
          subst (λ r. type_height registry heights found.0 found.1 < height r) (sym there)
            (found_below other t found (heights other id) (strata.below other id t known) last)))
  resolve-below lib (inline t) found h =
      found_below lib t found (suc (type_height registry heights lib t)) (omega arith) h
  resolve-below lib no_ref found h = absurd (cc)

  pub resolve-Shallow : (lib : registry.Lib) (ref : TypeRef) → Shallow (resolve registry lib ref)
  unfolding resolve
  resolve-Shallow lib (named id) =
      chain-Shallow (registry.semantic lib id) (strata.semantic_shallow lib id)
        (λ t _. ok-Shallow _)
  resolve-Shallow lib (extern lib_id id) =
      chain-Shallow (registry.library lib_id) (strata.library_shallow lib_id) (λ other _.
        chain-Shallow (registry.semantic other id) (strata.semantic_shallow other id)
          (λ t _. ok-Shallow _))
  resolve-Shallow lib (inline t) = ok-Shallow _
  resolve-Shallow lib no_ref = λ h. cc
