-- ===== src/Formats/ContainerFile.antt =====
-- The binary files of consignment/container.go: the magic, the payload and the kind.
use rgb.Prelude.{
  ℕ, leb, ◌<◌, ◌==◌, ◌&&◌, ◌||◌, not, Bool, true, false, ◌≡◌, refl, sym, ap, if◌then◌else◌, [], ◌∷◌,
  ◌++◌, length, Result, ok, err, container_type, subst, then_pass, Bool-cases, ◌⊎◌, inl, inr, arith,
}
use rgb.Prelude.Bytes.{ByteString, bytes_eq, bytes_eq→eq}
use rgb.Consensus.TaggedHash.{Hash}
use rgb.Formats.Armor.{max_data}
use rgb.Formats.ArmorChecks.{armor_of}
use rgb.Formats.Container.{
  FullContainer, contract_magic, transfer_magic, contract_label, transfer_label, label_of,
  payload_of, encode_file,
}

pub own_flag : (b : Bool) → (if b then b else not b) ≡ true
own_flag true = refl
own_flag false = refl

pub version_tag : (a : Bool) (n : ℕ) → (a && n == 0) ≡ true → (a ≡ true) × (n ≡ 0)
version_tag a n h = (ground arith, ground arith)

-- The label of the kind is the type that was read.
pub own_label :
    (type : ByteString)
    → (bytes_eq type transfer_label || bytes_eq type contract_label) ≡ true
    → label_of (bytes_eq type transfer_label) ≡ type
own_label type h = by_test (bytes_eq type transfer_label) h (λ e. bytes_eq→eq type transfer_label e)
  where
    by_test :
        (b : Bool)
        → (b || bytes_eq type contract_label) ≡ true
        → (b ≡ true → type ≡ transfer_label)
        → label_of b ≡ type
    by_test true h' e = sym (e refl)
    by_test false h' e = sym (bytes_eq→eq type contract_label h')

pub known_kind :
    (type : ByteString)
    → (bytes_eq type transfer_label || bytes_eq type contract_label) ≡ true
    → (type ≡ transfer_label) ⊎ (type ≡ contract_label)
known_kind type h = elim (Bool-cases (bytes_eq type transfer_label)) [
  | inl same ↦ inl (bytes_eq→eq type transfer_label same)
  | inr other ↦ inr (bytes_eq→eq type contract_label (ground (arith, h, other)))
]

-- The container under the identifier that is written for it.
abbrev pub rewritten_under : Hash → FullContainer → ByteString → FullContainer
rewritten_under sha256 c id = record c {
  armor = armor_of sha256 id 0 c.armor.type c.armor.contract c.armor.schema c.armor.content;
  contract_id = c.armor.contract;
  schema_id = c.armor.schema;
}

-- The file of a kind.
abbrev pub file_of : Bool → ByteString → ByteString
file_of true content = transfer_magic ++ content
file_of false content = contract_magic ++ content

-- The choice of EncodeFile.
abbrev enclosed : ByteString → ByteString → Result ByteString
unfolding bytes_eq
enclosed content type = elim (bytes_eq type contract_label) [
  | true ↦ ok (contract_magic ++ content)
  | false ↦ elim (bytes_eq type transfer_label) [
    | true ↦ ok (transfer_magic ++ content)
    | false ↦ err container_type
  ]
]

pub encode_file-file_of :
    (c : FullContainer)
    → (not (length c.armor.content == 0)) ≡ true
    → (c.armor.type ≡ transfer_label) ⊎ (c.armor.type ≡ contract_label)
    → encode_file c ≡ ok (file_of (bytes_eq c.armor.type transfer_label) c.armor.content)
unfolding encode_file bytes_eq
encode_file-file_of c h k = then_pass _ _ _ h (by_type k)
  where
    by_type :
        (c.armor.type ≡ transfer_label) ⊎ (c.armor.type ≡ contract_label)
        → enclosed c.armor.content c.armor.type
          ≡ ok (file_of (bytes_eq c.armor.type transfer_label) c.armor.content)
    by_type (inl e) =
        subst
          (λ t.
            enclosed c.armor.content t ≡ ok (file_of (bytes_eq t transfer_label) c.armor.content))
          (sym e) refl
    by_type (inr e) =
        subst
          (λ t.
            enclosed c.armor.content t ≡ ok (file_of (bytes_eq t transfer_label) c.armor.content))
          (sym e) refl

pub within : (n : ℕ) → 0 < n → leb n max_data ≡ true → (not (n == 0) && leb n max_data) ≡ true
within n h k = ground (arith, h, k)

pub not_empty : (n : ℕ) → 0 < n → (not (n == 0)) ≡ true
not_empty n h = ground arith

pub has_magic : (k : Bool) (content : ByteString) → leb 7 (length (file_of k content)) ≡ true
has_magic true content = ground arith
has_magic false content = ground arith

pub payload_of-file_of :
    (k : Bool) (content : ByteString) → payload_of (file_of k content) ≡ ok (k ∷ [], content)
unfolding payload_of bytes_eq
payload_of-file_of true content =
    ap
      (λ b.
        if b && true then ok (true ∷ [], content) else ok (true ∷ false ∷ [], file_of true content))
      (has_magic true content)
payload_of-file_of false content =
    ap
      (λ b.
        if b && true
        then ok (false ∷ [], content)
        else ok (true ∷ false ∷ [], file_of false content))
      (has_magic false content)
