-- ===== src/Consignment/Received.antt =====
-- A file that is received: consignment/container.go decodes it and consignment/validator.go validates
-- what it holds.
use rgb.Prelude.{
  ◌≡◌, All, ap, ◌∙◌, subst, ◌≤◌, false, true, Bool, ℕ, Option, some, none, String, ok, after_ok,
  after_some, ok_inj, ◌>>=◌,
}
use rgb.Prelude.Bytes.{ByteString}
use rgb.Consensus.TaggedHash.{Hash}
use rgb.StrictTypes.Value.{Value, zero_value, field}
use rgb.StrictTypes.ParsedType.{Registry}
use rgb.Anchors.Tapret.{Curve}
use rgb.Schemas.Types.{Services, AssetKind}
use rgb.Schemas.Access.{as_state_error}
use rgb.Schemas.State.{validate_metadata, validate_globals}
use rgb.Schemas.Owned.{validate_assignments}
use rgb.Schemas.Script.{validate_genesis_script}
use rgb.Schemas.Transition.{GenesisValidation, validate_genesis}
use rgb.Schemas.Amounts.{DistinctKeys}
use rgb.Schemas.Supplies.{supply, assigned_entries, assigned_amount}
use rgb.Schemas.Issue.{Issued, validate_genesis-issues}
use rgb.Operations.Genesis.{commit_genesis}
use rgb.Consignment.Ancestors.{field_or_zero}
use rgb.Consignment.Outpoints.{OutpointResolver}
use rgb.Consignment.Projection.{Container, Validation, validate}
use rgb.Consignment.Supply.{BundlesCanonical}
use rgb.Consignment.Shown.{shown_amount}
use rgb.Consignment.Witnessed.{Bitcoin}
use rgb.Consignment.Assembled.{assembled, genesis_id}
use rgb.Consignment.Projected.{validate-conserves, validate-Backed}
use rgb.Consignment.Backing.{Backed}
use rgb.Formats.Container.{FullContainer, Identifiers, genesis_contract_id, decode_file}
use rgb.Formats.ContainerRead.{decode_file-Checked}

-- What the validator reads of a decoded container.
abbrev pub as_container : FullContainer → Container
as_container c = record { value = c.value; structural_valid = true; genesis_valid = true }

-- The contract of the header is that of the genesis, which issues what it declares under the
-- contract's own schema, and no more is shown, at outputs that are there.
pub record Received (sha256 : Hash) (ids : Identifiers) (services : Services) (c : FullContainer)
    (outpoints : Option OutpointResolver) (v : Validation) : Type 0 where
  pub schema : Value
  pub types : Value
  pub genesis : Value
  pub kind : AssetKind
  pub digest : ByteString
  pub has_genesis : field "genesis" c.value ≡ some genesis
  pub has_schema : field "schema" c.value ≡ some schema
  pub has_types : field "types" c.value ≡ some types
  pub kind_of : services.schema_kind schema ≡ ok kind
  pub committed : genesis_id sha256 genesis ≡ ok digest
  pub named : ids.encode_contract digest ≡ ok c.armor.contract
  pub issued : Issued services schema types genesis kind
  pub bounded : supply kind (shown_amount v.current_states) ≤ supply kind (assigned_amount genesis)
  pub backed : All (Backed outpoints v.progress.prepared_witnesses) v.current_states

found_field :
    (name : String) (value : Value) {v : Value}
    → field name value ≡ some v
    → field_or_zero name value ≡ v
unfolding field_or_zero
found_field name value h = ap (λ o. elim o [ none ↦ zero_value | some found ↦ found ]) h

genesis-kind :
    (services : Services) (schema types genesis : Value) (r : GenesisValidation)
    → validate_genesis services schema types genesis ≡ ok r
    → services.schema_kind schema ≡ ok r.kind
unfolding validate_genesis
genesis-kind services schema types genesis r h =
    after_ok (services.schema_kind schema) _ h λ kind is_kind h1.
      after_ok (as_state_error (services.add_type_system types)) _ h1 λ decode _ h2.
        after_some _ (field "genesis" schema) _ h2 λ genesis_schema _ h3.
          after_ok (validate_metadata decode schema genesis_schema genesis) _ h3 λ _ _ h4.
            after_ok (validate_globals decode schema genesis_schema genesis) _ h4 λ globals _ h5.
              after_ok (validate_assignments decode schema genesis_schema genesis) _ h5
                λ owned _ h6.
                  after_ok (validate_genesis_script kind globals.0 owned.0) _ h6
                    λ _ _ last. is_kind ∙ ap (λ k. ok k) (ap (λ s. s.kind) (ok_inj last))

committed_as :
    (sha256 : Hash) (ids : Identifiers) (genesis : Value) {text : ByteString}
    → genesis_contract_id sha256 ids genesis ≡ ok text
    → (digest : ByteString) × (genesis_id sha256 genesis ≡ ok digest)
      × (ids.encode_contract digest ≡ ok text)
unfolding genesis_contract_id genesis_id
committed_as sha256 ids genesis h =
    after_ok (commit_genesis sha256 genesis) _ h λ commitment is_commitment last.
      (commitment.operation_id, ap (λ r. r >>= λ k. ok k.operation_id) is_commitment, last)

-- A file that DecodeFile accepts, and whose container Validate accepts over the chain: the contract in
-- its header is the identifier of its genesis; by the kind of the container's own schema the genesis
-- assigns exactly the supply that its global state declares, and the states that are shown hold no
-- more; and each shown state lies at an outpoint that the chain knows and that nothing spends, or at
-- an output of a prepared witness of the history. The entries of the genesis's
-- assignment map have distinct types, and the transitions are canonical, as decoded strict values are.
pub decode_file-validate :
    (sha256 : Hash) (registry : Registry) (fuel : ℕ) (ids : Identifiers) (services : Services)
    (curve : Curve) (bitcoin : Bitcoin) (outpoints : Option OutpointResolver)
    (allow_prepared : Bool) (raw : ByteString) (c : FullContainer) (v : Validation)
    → decode_file sha256 registry fuel ids services raw ≡ ok c
    → DistinctKeys (assigned_entries (field_or_zero "genesis" c.value))
    → BundlesCanonical
        (assembled sha256 curve bitcoin outpoints allow_prepared)
        (field_or_zero "bundles" c.value)
    → validate services
        (assembled sha256 curve bitcoin outpoints allow_prepared)
        false
        (as_container c)
      ≡ ok v
    → Received sha256 ids services c outpoints v
unfolding assembled
decode_file-validate sha256 registry fuel ids services curve bitcoin outpoints allow_prepared raw c
      v read keys canonical h =
    let found = (decode_file-Checked sha256 registry fuel ids services raw c read).0 in
    let same_genesis = found_field "genesis" c.value found.has_genesis in
    let same_schema = found_field "schema" c.value found.has_schema in
    let kind = c.genesis_report.kind in
    let kind_of =
      genesis-kind services found.schema found.types found.genesis c.genesis_report
        found.validated in
    let is_kind = ap (λ s. services.schema_kind s) same_schema ∙ kind_of in
    let evidence = assembled sha256 curve bitcoin outpoints allow_prepared in
    let (digest, committed, named) = committed_as sha256 ids found.genesis found.contract_named in
    record {
      schema = found.schema;
      types = found.types;
      genesis = found.genesis;
      kind = kind;
      digest = digest;
      has_genesis = found.has_genesis;
      has_schema = found.has_schema;
      has_types = found.has_types;
      kind_of = kind_of;
      committed = committed;
      named = named;
      issued =
          validate_genesis-issues services found.schema found.types found.genesis c.genesis_report
            (subst (λ g. DistinctKeys (assigned_entries g)) same_genesis keys) found.validated;
      bounded =
          subst (λ g. supply kind (shown_amount v.current_states) ≤ supply kind (assigned_amount g))
            same_genesis
            (validate-conserves services evidence (as_container c) v kind is_kind canonical h);
      backed = validate-Backed services evidence (as_container c) v h;
    }
