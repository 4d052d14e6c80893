-- ===== src/Formats/ArmorRoundTrip.antt =====
-- What consignment/encode.go writes as an armor, consignment/armor.go reads back.
use rgb.Prelude.{
  ℕ, ◌+◌, ◌*◌, ◌/◌, ◌%◌, ◌≤◌, ◌<◌, ◌≡◌, refl, ap, ◌∙◌, Bool, true, not, ◌&&◌, List, [], ◌∷◌, ◌++◌,
  leb, ◌==◌, if◌then◌else◌, length, All, All-append, Result, ok, armor_structure, armor_too_large,
  guard, guard-pass, arith, ◌>>=◌, ◌>>◌,
}
use rgb.Prelude.Bytes.{ByteString, bytes_eq}
use rgb.Prelude.Keyed.{bytes_eq_instance}
use rgb.Consensus.TaggedHash.{Hash, IsDigest}
use rgb.Formats.Base85.{encode_base85, decode_base85}
use rgb.Formats.Base85RoundTrip.{decode-encode_base85, length-encode_base85}
use rgb.Formats.Text.{drop_cr, encode_hex, decimal}
use rgb.Formats.Words.{IsGraphic, IsPlain, graphic-IsPlain}
use rgb.Formats.Numerals.{encode_base85-IsGraphic}
use rgb.Formats.Columns.{joined-columns, columns-all}
use rgb.Formats.Armor.{
  Armor, Headers, armor_begin, armor_end, max_data, next_line, read_armor, read_headers, read_body,
  check_headers, parse_armor, columns, armor_text,
}
use rgb.Formats.ArmorLines.{IsShort, scan_lines-unlines, read_body-joined}
use rgb.Formats.ArmorChecks.{
  armor_of, IsWritable, IsByteHash, type-IsWord, hash-IsWord, version-IsWord, headers_checked,
}
use rgb.Formats.ArmorHeaders.{header_lines, headers_read, headers-IsShort}

abbrev IsBodyLine : ByteString → Type 0
IsBodyLine line = All IsGraphic line × (length line < 33554430)

body_lines :
    (lines : List ByteString)
    → All (λ line. All IsGraphic line × (length line ≤ 33554429)) lines
    → All IsBodyLine lines
body_lines [] h = tt
body_lines (line ∷ lines) h = ((h.0.0, omega (arith, h.0.1)), body_lines lines h.1)

body-IsShort : (lines : List ByteString) → All IsBodyLine lines → All IsShort lines
body-IsShort [] h = tt
body-IsShort (line ∷ lines) h = ((graphic-IsPlain line h.0.0, h.0.1), body-IsShort lines h.1)

written_lines :
    (content : ByteString)
    → length content ≤ max_data
    → All IsBodyLine (columns (length (encode_base85 content)) (encode_base85 content))
written_lines content small =
    let body = encode_base85 content in
    body_lines (columns (length body) body) (
      columns-all (length body) 33554429 body (encode_base85-IsGraphic content)
        (body_bound (length body) (length content) (length-encode_base85 content) small))
  where
    body_bound :
        (n m : ℕ)
        → n ≡ m / 4 * 5 + (if m % 4 == 0 then 0 else m % 4 + 1)
        → m ≤ max_data
        → n ≤ 33554429
    body_bound n m e h = ground arith

-- What is written is not empty.
body_filled :
    (content : ByteString) → 0 < length content → (not (length (encode_base85 content) == 0)) ≡ true
body_filled content h =
    filled (length (encode_base85 content)) (length content) (length-encode_base85 content) h
  where
    filled :
        (n m : ℕ)
        → n ≡ m / 4 * 5 + (if m % 4 == 0 then 0 else m % 4 + 1)
        → 0 < m
        → (not (n == 0)) ≡ true
    filled n m e h = ground arith

abbrev all_plain : ByteString → Bool
all_plain [] = true
all_plain (c ∷ cs) = leb 32 c && all_plain cs

IsPlain-literal : (w : ByteString) → all_plain w ≡ true → All IsPlain w
IsPlain-literal [] h = tt
IsPlain-literal (c ∷ cs) h = (ground arith, IsPlain-literal cs (ground arith))

line_plain : (w : ByteString) → all_plain w ≡ true → length w < 100 → IsShort w
line_plain w h k = (IsPlain-literal w h, omega arith)

begin_read : (rest : List ByteString) → read_armor (armor_begin ∷ rest) ≡ read_headers [] rest
unfolding read_armor next_line bytes_eq drop_cr
begin_read rest = refl

blank_read :
    (headers : Headers) (rest : List ByteString)
    → read_headers headers ([] ∷ rest) ≡ (read_body rest >>= λ body. ok (headers, body))
unfolding read_headers next_line drop_cr
blank_read headers rest = refl

module _ (sha256 : Hash) (decode_id : ByteString → Result ByteString) (id : ByteString)
    (version : ℕ) (type contract schema content : ByteString) (sized : IsDigest sha256)
    (bytes : IsByteHash sha256)
    (w : IsWritable decode_id id version type contract schema content) where
  abbrev lines_after : List ByteString
  lines_after =
      []
      ∷ (columns (length (encode_base85 content)) (encode_base85 content) ++ ([] ∷ armor_end ∷ []))

  abbrev written_headers : List ByteString
  written_headers =
      header_lines id (decimal version) type contract schema (encode_hex (sha256 content))

  armor-IsShort : All IsShort (armor_begin ∷ (written_headers ++ lines_after))
  armor-IsShort =
      let columned = columns (length (encode_base85 content)) (encode_base85 content) in
      (
        line_plain armor_begin refl (omega arith),
        All-append IsShort written_headers lines_after
            (headers-IsShort id (decimal version) type contract schema (encode_hex (sha256 content))
              w.id_word (version-IsWord version w.version_tag) (type-IsWord type w.known_type)
              w.contract_word w.schema_word (hash-IsWord sha256 content sized bytes))
            (
              (tt, omega arith),
              All-append IsShort columned ([] ∷ armor_end ∷ [])
                  (body-IsShort columned (written_lines content w.content_small))
                  ((tt, omega arith), (line_plain armor_end refl (omega arith), tt)),
            ),
      )

  body_read :
      read_armor (armor_begin ∷ (written_headers ++ lines_after))
      ≡ ok
          ((armor_of sha256 id version type contract schema content).headers, encode_base85 content)
  body_read =
      let body = encode_base85 content in
      let columned = columns (length body) body in
      let found = (armor_of sha256 id version type contract schema content).headers in
      begin_read (written_headers ++ lines_after)
      ∙ headers_read id (decimal version) type contract schema (encode_hex (sha256 content))
          w.id_word (version-IsWord version w.version_tag) (type-IsWord type w.known_type)
          w.contract_word w.schema_word (hash-IsWord sha256 content sized bytes) lines_after
      ∙ blank_read found (columned ++ ([] ∷ armor_end ∷ []))
      ∙ ap (λ r. r >>= λ read. ok (found, read))
          (read_body-joined columned (written_lines content w.content_small)
            ∙ ap (λ t. ok t) (joined-columns (length body) body))

  -- The armor that EncodeArmor writes of a consignment's identifiers and its bytes is one that
  -- ParseArmor takes, and gives back the identifiers, the version, the type, the headers, the bytes
  -- and their hash. The hash has 32 bytes; the identifiers are words of graphic characters, the
  -- consignment's own one that baid64 reads; the version is below 256; the type is one of the two; the
  -- content is not empty and has at most 2^24 - 1 bytes.
  pub parse_armor-armor_text :
      parse_armor sha256 decode_id (armor_text sha256 id version type contract schema content)
      ≡ ok (armor_of sha256 id version type contract schema content)
  unfolding parse_armor armor_text
  parse_armor-armor_text =
      let found = armor_of sha256 id version type contract schema content in
      let checked : ByteString → Result Armor = λ raw.
        guard (leb (length raw) max_data) armor_too_large
        >> check_headers sha256 decode_id found.headers raw in
      let decoded : Headers × ByteString → Result Armor = λ r.
        guard (not (length r.1 == 0)) armor_structure
        >> (decode_base85 r.1 >>= λ raw.
            guard (leb (length raw) max_data) armor_too_large
            >> check_headers sha256 decode_id r.0 raw) in
      ap (λ lines. read_armor lines >>= decoded)
        (scan_lines-unlines (armor_begin ∷ (written_headers ++ lines_after)) armor-IsShort)
      ∙ ap (λ r. r >>= decoded) body_read
      ∙ guard-pass (not (length (encode_base85 content) == 0)) armor_structure
          (decode_base85 (encode_base85 content) >>= checked) (body_filled content w.content_filled)
      ∙ ap (λ r. r >>= checked) (decode-encode_base85 content w.content_bytes)
      ∙ guard-pass (leb (length content) max_data) armor_too_large
          (check_headers sha256 decode_id found.headers content) (ground (arith, w.content_small))
      ∙ headers_checked sha256 decode_id id version type contract schema content sized bytes w
