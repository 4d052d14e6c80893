-- ===== src/Formats/ArmorLines.antt =====
-- The lines of an armor, as the parser of consignment/armor.go takes them.
use rgb.Prelude.{
  ℕ, ◌<◌, ◌≡◌, refl, ap, ◌∙◌, subst, true, false, not, ◌&&◌, none, some, List, [], ◌∷◌, ◌++◌, ltb,
  ◌==◌, length, length-append, All, All-append, Result, ok, err, foreign, armor_header, guard,
  guard-pass, of_option, arith, ◌>>=◌, ◌>>◌, Bool-cases, inl, inr,
}
use rgb.Prelude.Bytes.{ByteString, bytes_eq, bytes_eq→eq}
use rgb.Prelude.Keyed.{lookup, bytes_eq_instance}
use rgb.Formats.Text.{scan_lines, drop_cr, trim_space}
use rgb.Formats.Words.{
  IsGraphic, IsWord, IsPlain, graphic-IsPlain, trim_space-graphic, trim_space-value,
  scan_lines-line, drop_cr-plain, cut-first,
}
use rgb.Formats.Columns.{joined}
use rgb.Formats.Armor.{
  armor_end, Headers, next_line, read_body, read_header, add_header, read_headers, unlines,
}

-- A line that the scanner takes as it is.
abbrev pub IsShort : ByteString → Type 0
IsShort line = All IsPlain line × (length line < 33554430)

pub scan_lines-unlines :
    (lines : List ByteString) → All IsShort lines → scan_lines (unlines lines) ≡ lines
unfolding scan_lines
scan_lines-unlines [] h = refl
scan_lines-unlines (line ∷ lines) h =
    scan_lines-line line (unlines lines) h.0.0 ∙ ap (λ t. line ∷ t) (scan_lines-unlines lines h.1)

pub next_line-short : (line : ByteString) → IsShort line → next_line line ≡ ok line
unfolding next_line
next_line-short line h =
    guard-pass (ltb (length line) 33554430) foreign (ok (drop_cr (drop_cr line)))
      (ground (arith, h.1))
    ∙ ap (λ t. ok t) (ap drop_cr (drop_cr-plain line h.0) ∙ drop_cr-plain line h.0)

-- No line of the body is the end of the armor, which has spaces.
not_end : (line : ByteString) → All IsGraphic line → bytes_eq line armor_end ≡ false
not_end line h = elim (Bool-cases (bytes_eq line armor_end)) [
  | inr other ↦ other
  | inl same ↦
      (let end_graphic = subst (All IsGraphic) (bytes_eq→eq line armor_end same) h in
        absurd (omega (arith, end_graphic.1.1.1.1.1.1.1.1.0.0)))
]

pub read_body-joined :
    (lines : List ByteString)
    → All (λ line. All IsGraphic line × (length line < 33554430)) lines
    → read_body (lines ++ ([] ∷ armor_end ∷ [])) ≡ ok (joined lines)
unfolding read_body next_line trim_space bytes_eq
read_body-joined [] h = refl
read_body-joined (line ∷ lines) h =
    let rest = read_body (lines ++ ([] ∷ armor_end ∷ [])) in
    let plain = graphic-IsPlain line h.0.0 in
    ap
      (λ r. r >>= λ line'. elim (bytes_eq line' armor_end) [
        | true ↦ ok []
        | false ↦ rest >>= λ later. ok (trim_space line' ++ later)
      ])
      (next_line-short line (plain, h.0.1))
    ∙ ap (λ b. elim b [ true ↦ ok [] | false ↦ rest >>= λ later. ok (trim_space line ++ later) ])
        (not_end line h.0.0)
    ∙ ap (λ r. r >>= λ later. ok (trim_space line ++ later)) (read_body-joined lines h.1)
    ∙ ap (λ t. ok (t ++ joined lines)) (trim_space-graphic line h.0.0)

pub read_header-word :
    (name value : ByteString)
    → All (λ c. (c == 58) ≡ false) name
    → IsWord name
    → IsWord value
    → read_header (name ++ (58 ∷ 32 ∷ value)) ≡ ok (name, value)
unfolding read_header
read_header-word name value colon n v =
    let checked : ByteString → ByteString → Result (ByteString × ByteString) =
      λ a b. guard (not (length a == 0) && not (length b == 0)) armor_header >> ok (a, b) in
    ap
      (λ o. of_option armor_header o >>= λ entry. checked (trim_space entry.0) (trim_space entry.1))
      (cut-first name (32 ∷ value) colon)
    ∙ ap (λ a. checked a (trim_space (32 ∷ value))) (trim_space-graphic name n.graphic)
    ∙ ap (λ b. checked name b) (trim_space-value value v.graphic)
    ∙ guard-pass (not (length name == 0) && not (length value == 0)) armor_header (ok (name, value))
        (both_filled (length name) (length value) n.filled v.filled)
  where
    both_filled : (a b : ℕ) → 0 < a → 0 < b → (not (a == 0) && not (b == 0)) ≡ true
    both_filled a b h k = ground arith

pub line-IsShort :
    (name value : ByteString)
    → IsWord name
    → IsWord value
    → length name < 100
    → IsShort (name ++ (58 ∷ 32 ∷ value))
line-IsShort name value n v short = (
  All-append IsPlain name (58 ∷ 32 ∷ value) (graphic-IsPlain name n.graphic)
      (omega arith, (omega arith, graphic-IsPlain value v.graphic)),
  omega (arith, length-append name (58 ∷ 32 ∷ value), v.short),
)

not_blank : (name rest : ByteString) → (length (name ++ (58 ∷ rest)) == 0) ≡ false
not_blank name rest = ground (arith, length-append name (58 ∷ rest))

added :
    (headers : Headers) (name value : ByteString)
    → lookup name headers ≡ none
    → add_header headers (name, value) ≡ ok ((name, value) ∷ headers)
unfolding add_header
added headers name value h =
    ap (λ o. elim o [ none ↦ ok ((name, value) ∷ headers) | some _ ↦ err armor_header ]) h

-- A header that is not there yet is read from its line.
pub read_headers-header :
    (headers : Headers) (name value : ByteString) (rest : List ByteString)
    → All (λ c. (c == 58) ≡ false) name
    → IsWord name
    → IsWord value
    → length name < 100
    → lookup name headers ≡ none
    → read_headers headers ((name ++ (58 ∷ 32 ∷ value)) ∷ rest)
      ≡ read_headers ((name, value) ∷ headers) rest
unfolding read_headers
read_headers-header headers name value rest colon n v short fresh =
    let line = name ++ (58 ∷ 32 ∷ value) in
    let blank = read_body rest >>= λ body. ok (headers, body) in
    let entered : ByteString → Result (Headers × ByteString) =
      λ l. read_header l >>= λ entry. add_header headers entry >>= λ more. read_headers more rest in
    ap (λ r. r >>= λ l. elim (length l == 0) [ true ↦ blank | false ↦ entered l ])
      (next_line-short line (line-IsShort name value n v short))
    ∙ ap (λ b. elim b [ true ↦ blank | false ↦ entered line ]) (not_blank name (32 ∷ value))
    ∙ ap (λ r. r >>= λ entry. add_header headers entry >>= λ more. read_headers more rest)
        (read_header-word name value colon n v)
    ∙ ap (λ r. r >>= λ more. read_headers more rest) (added headers name value fresh)
