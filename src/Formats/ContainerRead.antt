-- ===== src/Formats/ContainerRead.antt =====
-- What consignment/container.go has checked of a container that it reads, from an armor or a file.
use rgb.Prelude.{
  ℕ, leb, ◌==◌, ◌&&◌, ◌||◌, not, Bool, true, false, ◌≡◌, refl, if◌then◌else◌, List, [], ◌∷◌, length,
  take, Result, ok, err, armor_too_large, guard, ◌>>=◌, ◌>>◌, subst, ok_inj, after_ok, after_guard,
  ◌⊎◌, inl, inr,
}
use rgb.Prelude.Bytes.{ByteString, bytes_eq, bytes_eq→eq}
use rgb.Consensus.TaggedHash.{Hash}
use rgb.StrictTypes.Value.{Value}
use rgb.StrictTypes.ParsedType.{Registry}
use rgb.Schemas.Types.{Services}
use rgb.Formats.Armor.{armor_begin, max_data}
use rgb.Prelude.Keyed.{bytes_eq_instance}
use rgb.Formats.Container.{
  FullContainer, Identifiers, contract_magic, transfer_magic, contract_label, transfer_label,
  contains_text, payload_of, decode_kind, decode_armor, encode_armor, decode_first,
  decode_container, decode_file,
}
use rgb.Formats.ContainerChecks.{Checked, decode_armor-Checked}

by_magic :
    (raw type : ByteString)
    → (bytes_eq (take 7 raw) contract_magic || bytes_eq (take 7 raw) transfer_magic) ≡ true
    → bytes_eq type
        (if bytes_eq (take 7 raw) contract_magic then contract_label else transfer_label)
      ≡ true
    → ((take 7 raw ≡ contract_magic) × (type ≡ contract_label))
      ⊎ ((take 7 raw ≡ transfer_magic) × (type ≡ transfer_label))
by_magic raw type h k =
    split (bytes_eq (take 7 raw) contract_magic) (bytes_eq (take 7 raw) transfer_magic) h k
      (λ e. bytes_eq→eq (take 7 raw) contract_magic e)
      (λ e. bytes_eq→eq (take 7 raw) transfer_magic e)
  where
    split :
        (a b : Bool)
        → (a || b) ≡ true
        → bytes_eq type (if a then contract_label else transfer_label) ≡ true
        → (a ≡ true → take 7 raw ≡ contract_magic)
        → (b ≡ true → take 7 raw ≡ transfer_magic)
        → ((take 7 raw ≡ contract_magic) × (type ≡ contract_label))
          ⊎ ((take 7 raw ≡ transfer_magic) × (type ≡ transfer_label))
    split true b h' k' contract transfer = inl (contract refl, bytes_eq→eq type contract_label k')
    split false true h' k' contract transfer =
        inr (transfer refl, bytes_eq→eq type transfer_label k')
    split false false h' k' contract transfer = absurd (cc)

module _ (sha256 : Hash) (registry : Registry) (fuel : ℕ) (ids : Identifiers)
    (services : Services) where
  written_Checked :
      (value : Value) (c : FullContainer)
      → (encode_armor sha256 registry fuel ids services value >>= λ text.
          decode_armor sha256 registry fuel ids services text)
        ≡ ok c
      → Checked sha256 registry fuel ids services c
  written_Checked value c h =
      after_ok (encode_armor sha256 registry fuel ids services value) _ h
        λ text _ h1. decode_armor-Checked sha256 registry fuel ids services text c h1

  decode_first-Checked :
      (kinds : List Bool) (payload : ByteString) (c : FullContainer)
      → decode_first sha256 registry fuel ids services kinds payload ≡ ok c
      → Checked sha256 registry fuel ids services c
  unfolding decode_first
  decode_first-Checked [] payload c h = absurd (cc)
  decode_first-Checked (transfer ∷ rest) payload c h =
      by_decoding (decode_kind sha256 registry fuel ids services transfer payload) rest
        (decode_first sha256 registry fuel ids services rest payload)
        (λ again. decode_first-Checked rest payload c again) h
    where
      by_decoding :
          (r : Result Value) (kinds : List Bool) (later : Result FullContainer)
          → (later ≡ ok c → Checked sha256 registry fuel ids services c)
          → elim r [
            | ok value ↦ encode_armor sha256 registry fuel ids services value >>= λ text.
                decode_armor sha256 registry fuel ids services text
            | err failure ↦ elim kinds [ [] ↦ err failure | _ ∷ _ ↦ later ]
          ]
            ≡ ok c
          → Checked sha256 registry fuel ids services c
      by_decoding (ok value) kinds later read h' = written_Checked value c h'
      by_decoding (err failure) [] later read h' = absurd (cc)
      by_decoding (err failure) (k ∷ ks) later read h' = read h'

  pub decode_container-Checked :
      (raw : ByteString) (c : FullContainer)
      → decode_container sha256 registry fuel ids services raw ≡ ok c
      → Checked sha256 registry fuel ids services c
  unfolding decode_container
  decode_container-Checked raw c h = by_form (contains_text armor_begin raw) h
    where
      by_form :
          (b : Bool)
          → (if b
              then decode_armor sha256 registry fuel ids services raw
              else (payload_of raw >>= λ found.
                  guard (not (length found.1 == 0) && leb (length found.1) max_data) armor_too_large
                  >> decode_first sha256 registry fuel ids services found.0 found.1))
            ≡ ok c
          → Checked sha256 registry fuel ids services c
      by_form true h' = decode_armor-Checked sha256 registry fuel ids services raw c h'
      by_form false h' = after_ok (payload_of raw) _ h' λ found _ h1.
          after_guard (not (length found.1 == 0) && leb (length found.1) max_data) _ _ h1
            λ _ h2. decode_first-Checked found.0 found.1 c h2

  -- A file that DecodeFile accepts starts with the magic of a contract or with that of a transfer, and
  -- gives a container whose header names that kind. The container's value is what its bytes decode to;
  -- the headers name the identifiers that the value's consignment, schema and genesis have; its version is
  -- 0 and its flag the kind; its genesis is bound to its schema and passes the validation against it.
  pub decode_file-Checked :
      (raw : ByteString) (c : FullContainer)
      → decode_file sha256 registry fuel ids services raw ≡ ok c
      → Checked sha256 registry fuel ids services c
        × (((take 7 raw ≡ contract_magic) × (c.armor.type ≡ contract_label))
            ⊎ ((take 7 raw ≡ transfer_magic) × (c.armor.type ≡ transfer_label)))
  unfolding decode_file
  decode_file-Checked raw c h = after_guard (leb 7 (length raw)) _ _ h λ _ h1.
      after_guard (bytes_eq (take 7 raw) contract_magic || bytes_eq (take 7 raw) transfer_magic) _ _
        h1
        λ magic h2.
          after_ok (decode_container sha256 registry fuel ids services raw) _ h2 λ found read h3.
            after_guard
              (bytes_eq found.armor.type
                (if bytes_eq (take 7 raw) contract_magic then contract_label else transfer_label))
              _ _ h3
              λ same last.
                subst
                  (λ k.
                    Checked sha256 registry fuel ids services k
                    × (((take 7 raw ≡ contract_magic) × (k.armor.type ≡ contract_label))
                        ⊎ ((take 7 raw ≡ transfer_magic) × (k.armor.type ≡ transfer_label))))
                  (ok_inj last)
                  (
                    decode_container-Checked raw found read,
                    by_magic raw found.armor.type magic same,
                  )
