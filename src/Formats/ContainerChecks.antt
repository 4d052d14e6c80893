-- ===== src/Formats/ContainerChecks.antt =====
-- What consignment/container.go has checked of a container that it returns.
use rgb.Prelude.{
  ℕ, ◌==◌, ◌&&◌, not, Bool, true, false, ◌≡◌, refl, sym, ap, ◌∙◌, if◌then◌else◌, some, Result, ok,
  Error, guard, id_mismatch, subst, ok_inj, after_ok, after_some, after_guard,
}
use rgb.Prelude.Bytes.{ByteString, bytes_eq, bytes_eq→eq}
use rgb.Consensus.TaggedHash.{Hash}
use rgb.StrictTypes.Value.{Value, Kind, kind_eq, kind, field, unwrap, attributes, bytes_of, bool_of}
use rgb.StrictTypes.ParsedType.{Registry}
use rgb.Schemas.Types.{Services}
use rgb.Schemas.Transition.{validate_genesis}
use rgb.Schemas.Commit.{schema_commitment, schema_identifier}
use rgb.Formats.Armor.{Armor, header, parse_armor}
use rgb.Prelude.Keyed.{bytes_eq_instance}
use rgb.Formats.ConsignmentId.{consignment_id, verify_id}
use rgb.Formats.Container.{
  FullContainer, Identifiers, transfer_label, genesis_contract_id, decode_kind, check_value,
  check_contract, check_armor, decode_armor,
}
use rgb.Formats.ArmorParsed.{Parsed, parse_armor-Parsed}

-- The value is what the bytes decode to, and the headers name its kind and its identifier.
pub record Typed (sha256 : Hash) (registry : Registry) (fuel : ℕ) (ids : Identifiers)
    (services : Services) (armor : Armor) (value : Value) : Type 0 where
  pub version : Value
  pub transfer : Value
  pub digest : ByteString
  pub decoded :
      decode_kind sha256 registry fuel ids services
        (bytes_eq armor.type transfer_label)
        armor.content
      ≡ ok value
  pub identified : consignment_id sha256 value ≡ ok digest
  pub named : ids.decode_consignment armor.id ≡ ok digest
  pub has_version : field "version" value ≡ some version
  pub version_zero :
      (kind_eq (kind (unwrap version)) Kind.enum && (attributes (unwrap version)).tag == 0) ≡ true
  pub has_transfer : field "transfer" value ≡ some transfer
  pub kind_named : bool_of transfer ≡ some (bytes_eq armor.type transfer_label)

-- The parts of a container agree with each other: its value is what its bytes decode to, and the
-- headers name the value's kind, identifier, schema and contract.
pub record Checked (sha256 : Hash) (registry : Registry) (fuel : ℕ) (ids : Identifiers)
    (services : Services) (c : FullContainer) : Type 0 where
  pub parsed : Parsed sha256 c.armor
  pub schema : Value
  pub genesis : Value
  pub types : Value
  pub schema_field : Value
  pub commitment : ByteString
  pub typed : Typed sha256 registry fuel ids services c.armor c.value
  pub has_schema : field "schema" c.value ≡ some schema
  pub schema_named : schema_identifier sha256 ids.encode_schema schema ≡ ok c.armor.schema
  pub schema_committed : schema_commitment sha256 schema ≡ ok commitment
  pub has_genesis : field "genesis" c.value ≡ some genesis
  pub has_schema_field : field "schemaId" genesis ≡ some schema_field
  pub schema_bound : bytes_of schema_field ≡ some commitment
  pub contract_named : genesis_contract_id sha256 ids genesis ≡ ok c.armor.contract
  pub has_types : field "types" c.value ≡ some types
  pub validated : validate_genesis services schema types genesis ≡ ok c.genesis_report

same_flag : (a b : Bool) → (if a then b else not b) ≡ true → a ≡ b
same_flag true b h = sym h
same_flag false true h = absurd (cc)
same_flag false false h = refl

guard-true : (b : Bool) (e : Error) {done : Unit {0}} → guard b e ≡ ok done → b ≡ true
guard-true true e h = refl
guard-true false e h = absurd (cc)

same_text :
    {r : Result ByteString} {header text : ByteString}
    → r ≡ ok text
    → bytes_eq header text ≡ true
    → r ≡ ok header
same_text is_text same = is_text ∙ ap (λ t. ok t) (sym (bytes_eq→eq _ _ same))

module _ (sha256 : Hash) (registry : Registry) (fuel : ℕ) (ids : Identifiers)
    (services : Services) where
  verified :
      (header : ByteString) (value : Value) {done : Unit {0}}
      → verify_id sha256 ids.decode_consignment header value ≡ ok done
      → (digest : ByteString) × (consignment_id sha256 value ≡ ok digest)
        × (ids.decode_consignment header ≡ ok digest)
  unfolding verify_id
  verified header value h = after_ok (ids.decode_consignment header) _ h λ want is_want h1.
      after_ok (consignment_id sha256 value) _ h1 λ actual is_actual h2. (
        actual,
        is_actual,
        is_want
            ∙ ap (λ d. ok d)
                (bytes_eq→eq want actual (guard-true (bytes_eq want actual) id_mismatch h2)),
      )

  check_value-Typed :
      (armor : Armor) (value : Value)
      → check_value sha256 registry fuel ids services armor ≡ ok value
      → Typed sha256 registry fuel ids services armor value
  unfolding check_value
  check_value-Typed armor found h =
      let want = bytes_eq armor.type transfer_label in
      after_ok (decode_kind sha256 registry fuel ids services want armor.content) _ h
        λ value decoded h1.
          after_ok (verify_id sha256 ids.decode_consignment armor.id value) _ h1 λ _ checked h2.
            after_some _ (field "version" value) _ h2 λ version has_version h3.
              after_guard
                (kind_eq (kind (unwrap version)) Kind.enum
                  && (attributes (unwrap version)).tag == 0)
                _ _ h3
                λ zero h4. after_some _ (field "transfer" value) _ h4 λ transfer has_transfer h5.
                  after_some _ (bool_of transfer) _ h5 λ flag is_flag h6.
                    after_guard (if flag then want else not want) _ _ h6 λ same last.
                      let (digest, identified, named) = verified armor.id value checked in
                      subst (Typed sha256 registry fuel ids services armor) (ok_inj last) (record {
                        version = version;
                        transfer = transfer;
                        digest = digest;
                        decoded = decoded;
                        identified = identified;
                        named = named;
                        has_version = has_version;
                        version_zero = zero;
                        has_transfer = has_transfer;
                        kind_named = is_flag ∙ ap (λ b. some b) (same_flag flag want same);
                      })

  check_contract-Checked :
      (armor : Armor) (value : Value) (c : FullContainer)
      → Parsed sha256 armor
      → Typed sha256 registry fuel ids services armor value
      → check_contract sha256 registry fuel ids services armor value ≡ ok c
      → Checked sha256 registry fuel ids services c
  unfolding check_contract
  check_contract-Checked armor value c parsed typed h =
      after_some _ (field "schema" value) _ h λ schema has_schema h1.
        after_ok (schema_commitment sha256 schema) _ h1 λ commitment committed h2.
          after_ok (schema_identifier sha256 ids.encode_schema schema) _ h2 λ text is_text h3.
            after_guard (bytes_eq armor.schema text) _ _ h3 λ same_schema h4.
              after_some _ (field "genesis" value) _ h4 λ genesis has_genesis h5.
                after_some _ (field "schemaId" genesis) _ h5 λ bound has_bound h6.
                  after_some _ (bytes_of bound) _ h6 λ bytes is_bytes h7.
                    after_guard (bytes_eq bytes commitment) _ _ h7 λ same_bytes h8.
                      after_ok (genesis_contract_id sha256 ids genesis) _ h8
                        λ contract is_contract h9.
                          after_guard (bytes_eq armor.contract contract) _ _ h9 λ same_contract h10.
                            after_some _ (field "types" value) _ h10 λ types has_types h11.
                              after_ok (validate_genesis services schema types genesis) _ h11
                                λ report valid last.
                                  subst (Checked sha256 registry fuel ids services) (ok_inj last)
                                    (record {
                                      parsed = parsed;
                                      typed = typed;
                                      schema = schema;
                                      genesis = genesis;
                                      types = types;
                                      schema_field = bound;
                                      commitment = commitment;
                                      has_schema = has_schema;
                                      schema_named = same_text is_text same_schema;
                                      schema_committed = committed;
                                      has_genesis = has_genesis;
                                      has_schema_field = has_bound;
                                      schema_bound =
                                          is_bytes
                                          ∙ ap (λ t. some t)
                                              (bytes_eq→eq bytes commitment same_bytes);
                                      contract_named = same_text is_contract same_contract;
                                      has_types = has_types;
                                      validated = valid;
                                    })

  check_armor-Checked :
      (armor : Armor) (c : FullContainer)
      → Parsed sha256 armor
      → check_armor sha256 registry fuel ids services armor ≡ ok c
      → Checked sha256 registry fuel ids services c
  unfolding check_armor
  check_armor-Checked armor c parsed h =
      after_ok (check_value sha256 registry fuel ids services armor) _ h λ value typed last.
        check_contract-Checked armor value c parsed (check_value-Typed armor value typed) last

  pub decode_armor-Checked :
      (text : ByteString) (c : FullContainer)
      → decode_armor sha256 registry fuel ids services text ≡ ok c
      → Checked sha256 registry fuel ids services c
  unfolding decode_armor
  decode_armor-Checked text c h =
      after_ok (parse_armor sha256 ids.decode_consignment text) _ h λ armor parsed h1.
        check_armor-Checked armor c
          (parse_armor-Parsed sha256 ids.decode_consignment text armor parsed) h1
