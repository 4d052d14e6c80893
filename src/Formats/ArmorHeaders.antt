-- ===== src/Formats/ArmorHeaders.antt =====
-- The headers of an armor: the lines of consignment/encode.go, as consignment/armor.go reads them.
use rgb.Prelude.{
  ◌<◌, ◌≡◌, refl, ◌∙◌, Bool, true, false, not, ◌&&◌, none, List, [], ◌∷◌, ◌++◌, ltb, ◌==◌, length,
  All, arith,
}
use rgb.Prelude.Bytes.{ByteString, codes, bytes_eq}
use rgb.Prelude.Keyed.{lookup, bytes_eq_instance}
use rgb.Formats.Words.{IsWord}
use rgb.Formats.Numerals.{IsGraphic-literal, all_graphic}
use rgb.Formats.Armor.{Headers, read_headers}
use rgb.Formats.ArmorLines.{IsShort, line-IsShort, read_headers-header}
use rgb.Formats.ArmorChecks.{literal-IsWord}

abbrev colon_free : ByteString → Bool
colon_free [] = true
colon_free (c ∷ cs) = not (c == 58) && colon_free cs

colon_free-all : (w : ByteString) → colon_free w ≡ true → All (λ c. (c == 58) ≡ false) w
colon_free-all [] h = tt
colon_free-all (c ∷ cs) h = (ground arith, colon_free-all cs (ground arith))

-- The words that name a header.
abbrev names_header : ByteString → Bool
names_header w = colon_free w && (all_graphic w && (ltb 0 (length w) && ltb (length w) 100))

record IsName (name : ByteString) : Type 0 where
  colon : All (λ c. (c == 58) ≡ false) name
  word : IsWord name
  brief : length name < 100

IsName-literal : (name : ByteString) → names_header name ≡ true → IsName name
IsName-literal name h = record {
  colon = colon_free-all name (ground arith);
  word = literal-IsWord name (ground arith) (ground arith) (IsGraphic-literal name (ground arith));
  brief = ground arith;
}

header_read :
    (headers : Headers) (name value : ByteString) (rest : List ByteString)
    → names_header name ≡ true
    → IsWord value
    → lookup name headers ≡ none
    → read_headers headers ((name ++ (58 ∷ 32 ∷ value)) ∷ rest)
      ≡ read_headers ((name, value) ∷ headers) rest
header_read headers name value rest h v fresh =
    let n = IsName-literal name h in
    read_headers-header headers name value rest n.colon n.word v n.brief fresh

header-IsShort :
    (name value : ByteString)
    → names_header name ≡ true
    → IsWord value
    → IsShort (name ++ (58 ∷ 32 ∷ value))
header-IsShort name value h v =
    let n = IsName-literal name h in line-IsShort name value n.word v n.brief

-- The six headers of an armor, in the order they are written.
module _ (id version type contract schema checksum : ByteString) where
  abbrev pub header_lines : List ByteString
  header_lines =
      (codes "Id: " ++ id)
      ∷ (codes "Version: " ++ version)
      ∷ (codes "Type: " ++ type)
      ∷ (codes "Contract: " ++ contract)
      ∷ (codes "Schema: " ++ schema)
      ∷ (codes "Check-SHA256: " ++ checksum)
      ∷ []

  abbrev pub read_of_lines : Headers
  read_of_lines =
      (codes "Check-SHA256", checksum)
      ∷ (codes "Schema", schema)
      ∷ (codes "Contract", contract)
      ∷ (codes "Type", type)
      ∷ (codes "Version", version)
      ∷ (codes "Id", id)
      ∷ []

  module _ (i : IsWord id) (v : IsWord version) (t : IsWord type) (c : IsWord contract)
      (s : IsWord schema) (k : IsWord checksum) where
    pub headers_read :
        (rest : List ByteString)
        → read_headers [] (header_lines ++ rest) ≡ read_headers read_of_lines rest
    unfolding lookup bytes_eq
    headers_read rest =
        header_read _ (codes "Id") id _ refl i refl
        ∙ header_read _ (codes "Version") version _ refl v refl
        ∙ header_read _ (codes "Type") type _ refl t refl
        ∙ header_read _ (codes "Contract") contract _ refl c refl
        ∙ header_read _ (codes "Schema") schema _ refl s refl
        ∙ header_read _ (codes "Check-SHA256") checksum rest refl k refl

    pub headers-IsShort : All IsShort header_lines
    headers-IsShort = (
      header-IsShort (codes "Id") id refl i,
      (
        header-IsShort (codes "Version") version refl v,
        (
          header-IsShort (codes "Type") type refl t,
          (
            header-IsShort (codes "Contract") contract refl c,
            (
              header-IsShort (codes "Schema") schema refl s,
              (header-IsShort (codes "Check-SHA256") checksum refl k, tt),
            ),
          ),
        ),
      ),
    )
