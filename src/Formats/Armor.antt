-- ===== src/Formats/Armor.antt =====
-- consignment/armor.go, and the text that consignment/encode.go writes. SHA-256 and the reading of a
-- consignment's identifier (baid64/baid64.go) are arguments.
use rgb.Prelude.{
  ◌^◌, ℕ, zero, suc, true, false, not, ◌&&◌, ◌||◌, none, some, List, [], ◌∷◌, ◌++◌, ltb, leb, ◌==◌,
  length, take, drop, Result, ok, err, armor_structure, armor_header, armor_checksum,
  armor_identifier, armor_too_large, foreign, guard, of_option, recast, ◌>>=◌, ◌>>◌,
}
use rgb.Prelude.Bytes.{ByteString, bytes_eq, codes}
use rgb.Prelude.Keyed.{Map, lookup, bytes_eq_instance}
use rgb.Consensus.TaggedHash.{Hash}
use rgb.Formats.Base85.{encode_base85, decode_base85}
use rgb.Formats.Text.{
  scan_lines, drop_cr, trim_space, cut, encode_hex, decode_hex, decimal, parse_below,
}

abbrev pub armor_begin : ByteString
armor_begin = codes "-----BEGIN RGB CONSIGNMENT-----"

abbrev pub armor_end : ByteString
armor_end = codes "-----END RGB CONSIGNMENT-----"

-- `maxArmoredDataSize`
abbrev pub max_data : ℕ
max_data = 0xffffff

abbrev pub Headers : Type 0
Headers = Map ByteString ByteString

pub record Armor : Type 0 where
  pub id : ByteString
  pub version : ℕ
  pub type : ByteString
  pub contract : ByteString
  pub schema : ByteString
  pub headers : Headers
  pub content : ByteString
  pub sha256 : ByteString

-- A line of the scanner, whose buffer has `2 * maxArmoredDataSize` bytes; ScanLines and TrimSuffix
-- each drop a carriage return.
unfoldable pub next_line : ByteString → Result ByteString
unfolding drop_cr
next_line raw = do guard (ltb (length raw) 33554430) foreign; ok (drop_cr (drop_cr raw))

unfoldable pub read_body : List ByteString → Result ByteString
unfolding next_line trim_space bytes_eq
read_body [] = err armor_structure
read_body (raw ∷ rest) = do
  line ← next_line raw
  elim (bytes_eq line armor_end) [
    | true ↦ ok []
    | false ↦ do later ← read_body rest; ok (trim_space line ++ later)
  ]

unfoldable pub read_header : ByteString → Result (ByteString × ByteString)
unfolding cut trim_space
read_header line = do
  (name, value) ← of_option armor_header (cut 58 line)
  guard (not (length (trim_space name) == 0) && not (length (trim_space value) == 0)) armor_header
  ok (trim_space name, trim_space value)

-- The latest header comes first; no name is there twice.
unfoldable pub add_header : Headers → ByteString × ByteString → Result Headers
unfolding lookup
add_header headers (name, value) = elim (lookup name headers) [
  | none ↦ ok ((name, value) ∷ headers)
  | some _ ↦ err armor_header
]

unfoldable pub read_headers : Headers → List ByteString → Result (Headers × ByteString)
unfolding next_line read_header add_header read_body
read_headers headers [] = err armor_structure
read_headers headers (raw ∷ rest) = do
  line ← next_line raw
  elim (length line == 0) [
    | true ↦ do body ← read_body rest; ok (headers, body)
    | false ↦ do
      entry ← read_header line
      headers' ← add_header headers entry
      read_headers headers' rest
  ]

unfoldable pub read_armor : List ByteString → Result (Headers × ByteString)
unfolding next_line read_headers bytes_eq
read_armor [] = err armor_structure
read_armor (raw ∷ rest) = do
  line ← next_line raw
  elim (bytes_eq line armor_begin) [ true ↦ read_headers [] rest | false ↦ read_armor rest ]

-- `headers[name]`: a missing key reads as "".
unfoldable pub header : ByteString → Headers → ByteString
unfolding lookup
header name headers = elim (lookup name headers) [ none ↦ [] | some value ↦ value ]

module _ (sha256 : Hash) (decode_id : ByteString → Result ByteString) where
  unfoldable pub check_headers : Headers → ByteString → Result Armor
  unfolding lookup header decode_hex parse_below bytes_eq
  check_headers headers content = do
    checksum ← of_option armor_header (lookup (codes "Check-SHA256") headers)
    want ← recast armor_checksum (decode_hex checksum)
    guard (length want == 32 && bytes_eq want (sha256 content)) armor_checksum
    read ← recast armor_identifier (decode_id (header (codes "Id") headers))
    text ← of_option armor_header (lookup (codes "Version") headers)
    version ← recast armor_header (parse_below (2 ^ 32) text)
    guard
        (bytes_eq (header (codes "Type") headers) (codes "transfer")
          || bytes_eq (header (codes "Type") headers) (codes "contract"))
        armor_header
    ok (record {
      id = header (codes "Id") headers;
      version = version;
      type = header (codes "Type") headers;
      contract = header (codes "Contract") headers;
      schema = header (codes "Schema") headers;
      headers = headers;
      content = content;
      sha256 = sha256 content;
    })

  unfoldable pub parse_armor : ByteString → Result Armor
  unfolding scan_lines read_armor decode_base85 check_headers
  parse_armor text = do
    (headers, body) ← read_armor (scan_lines text)
    guard (not (length body == 0)) armor_structure
    content ← decode_base85 body
    guard (leb (length content) max_data) armor_too_large
    check_headers headers content

-- Lines of 80 columns. The fuel is the length: every line takes some of the text.
unfoldable pub columns : ℕ → ByteString → List ByteString
columns fuel [] = []
columns zero (c ∷ cs) = (c ∷ cs) ∷ []
columns (suc fuel) (c ∷ cs) = elim (ltb 80 (length (c ∷ cs))) [
  | true ↦ take 80 (c ∷ cs) ∷ columns fuel (drop 80 (c ∷ cs))
  | false ↦ (c ∷ cs) ∷ []
]

abbrev pub unlines : List ByteString → ByteString
unlines [] = []
unlines (line ∷ lines) = line ++ (10 ∷ unlines lines)

-- The text of a consignment: its headers, a blank line, the body in base85, a blank line, the end.
unfoldable pub armor_text :
    Hash → ByteString → ℕ → ByteString → ByteString → ByteString → ByteString → ByteString
unfolding decimal encode_hex encode_base85 columns
armor_text sha256 id version type contract schema content =
    let body = encode_base85 content in
    unlines (
      armor_begin
      ∷ (codes "Id: " ++ id)
      ∷ (codes "Version: " ++ decimal version)
      ∷ (codes "Type: " ++ type)
      ∷ (codes "Contract: " ++ contract)
      ∷ (codes "Schema: " ++ schema)
      ∷ (codes "Check-SHA256: " ++ encode_hex (sha256 content))
      ∷ []
      ∷ (columns (length body) body ++ ([] ∷ armor_end ∷ [])))
