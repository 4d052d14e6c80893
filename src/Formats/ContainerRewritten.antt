-- ===== src/Formats/ContainerRewritten.antt =====
-- What consignment/encode.go writes of a container that was read, and what consignment/container.go
-- checks of it again.
use rgb.Prelude.{
  ℕ, Bool, true, ◌≡◌, refl, ap, ◌∙◌, ok, id_mismatch, guard, then_ok, then_some, then_pass,
}
use rgb.Prelude.Bytes.{ByteString, bytes_eq, bytes_eq_refl}
use rgb.Consensus.TaggedHash.{Hash}
use rgb.StrictTypes.Value.{Kind, kind_eq, kind, unwrap, attributes}
use rgb.StrictTypes.ParsedType.{Registry}
use rgb.StrictTypes.Canonical.Whole.{encode-decode}
use rgb.Schemas.Types.{Services}
use rgb.Formats.Armor.{armor_text}
use rgb.Formats.ConsignmentId.{verify_id}
use rgb.Formats.Container.{
  FullContainer, Identifiers, transfer_label, label_of, type_name_of, check_value, check_contract,
  check_armor, encode_armor,
}
use rgb.Formats.ContainerChecks.{Checked}
use rgb.Formats.ContainerFile.{own_flag, version_tag, own_label, rewritten_under}

module _ (sha256 : Hash) (registry : Registry) (fuel : ℕ) (ids : Identifiers) (services : Services)
    (c : FullContainer) (found : Checked sha256 registry fuel ids services c) where
  reread :
      (id : ByteString)
      → ids.decode_consignment id ≡ ok found.typed.digest
      → verify_id sha256 ids.decode_consignment id c.value ≡ ok tt
  unfolding verify_id
  reread id named = then_ok _ _ named (
      then_ok _ _ found.typed.identified
        (ap (λ b. guard b id_mismatch) (bytes_eq_refl found.typed.digest)))

  check_value-rewritten :
      (id : ByteString)
      → ids.decode_consignment id ≡ ok found.typed.digest
      → check_value sha256 registry fuel ids services (rewritten_under sha256 c id).armor
        ≡ ok c.value
  unfolding check_value
  check_value-rewritten id named = then_ok _ _ found.typed.decoded (
      then_ok (verify_id sha256 ids.decode_consignment id c.value) _ (reread id named) (
        then_some _ _ _ found.typed.has_version (
          then_pass _ _ _ found.typed.version_zero (
            then_some _ _ _ found.typed.has_transfer (
              then_some _ _ _ found.typed.kind_named
                (then_pass _ _ _ (own_flag (bytes_eq c.armor.type transfer_label)) refl))))))

  check_contract-rewritten :
      (id : ByteString)
      → check_contract sha256 registry fuel ids services (rewritten_under sha256 c id).armor c.value
        ≡ ok (rewritten_under sha256 c id)
  unfolding check_contract
  check_contract-rewritten id = then_some _ _ _ found.has_schema (
      then_ok _ _ found.schema_committed (
        then_ok _ _ found.schema_named (
          then_pass _ _ _ (bytes_eq_refl c.armor.schema) (
            then_some _ _ _ found.has_genesis (
              then_some _ _ _ found.has_schema_field (
                then_some _ _ _ found.schema_bound (
                  then_pass _ _ _ (bytes_eq_refl found.commitment) (
                    then_ok _ _ found.contract_named (
                      then_pass _ _ _ (bytes_eq_refl c.armor.contract) (
                        then_some _ _ _ found.has_types (then_ok _ _ found.validated refl)))))))))))

  pub check_armor-rewritten :
      (id : ByteString)
      → ids.decode_consignment id ≡ ok found.typed.digest
      → check_armor sha256 registry fuel ids services (rewritten_under sha256 c id).armor
        ≡ ok (rewritten_under sha256 c id)
  unfolding check_armor
  check_armor-rewritten id named =
      then_ok _ _ (check_value-rewritten id named) (check_contract-rewritten id)

  -- The kind is read from the header.
  abbrev pub own_kind : Bool
  own_kind = bytes_eq c.armor.type transfer_label

  pub encode_armor-rewritten :
      (id : ByteString)
      → ids.encode_consignment found.typed.digest ≡ ok id
      → encode_armor sha256 registry fuel ids services c.value
        ≡ ok (armor_text sha256 id 0 c.armor.type c.armor.contract c.armor.schema c.armor.content)
  unfolding encode_armor
  encode_armor-rewritten id written = then_some _ _ _ found.typed.has_transfer (
      then_some _ _ _ found.typed.kind_named (
        then_ok _ _
          (encode-decode sha256 registry fuel "RGBStd" (type_name_of own_kind) c.armor.content
            c.value found.parsed.content_bytes.bytes found.typed.decoded)
          (then_pass _ _ _ found.parsed.confined (
            then_ok _ _ found.typed.decoded (
              then_some _ _ _ found.typed.has_version (
                then_pass _ _ _ zero_tag.0 (
                  then_some _ _ _ found.has_genesis (
                    then_ok _ _ found.contract_named (
                      then_some _ _ _ found.has_schema (
                        then_ok _ _ found.schema_named (
                          then_ok _ _ found.typed.identified (
                            then_ok _ _ written (
                              ap
                                (λ n. ok (
                                  armor_text sha256 id n (label_of own_kind) c.armor.contract
                                    c.armor.schema c.armor.content))
                                zero_tag.1
                              ∙ ap
                                  (λ l. ok (
                                    armor_text sha256 id 0 l c.armor.contract c.armor.schema
                                      c.armor.content))
                                  (own_label c.armor.type found.parsed.known))))))))))))))
    where
      zero_tag :
          (kind_eq (kind (unwrap found.typed.version)) Kind.enum ≡ true)
          × ((attributes (unwrap found.typed.version)).tag ≡ 0)
      zero_tag =
          version_tag (kind_eq (kind (unwrap found.typed.version)) Kind.enum)
            (attributes (unwrap found.typed.version)).tag found.typed.version_zero
