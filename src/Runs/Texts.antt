-- ===== src/Runs/Texts.antt =====
-- The text of outputs and a reject list of three lines.
use rgb.Prelude.{
  ◌≡◌, ◌↔◌, refl, Bool, ◌&&◌, ltb, true, false, [], ◌∷◌, ◌++◌, All, ok, err, invalid_opout, arith,
}
use rgb.Prelude.Bytes.{ByteString, IsByte, bytes_eq, codes}
use rgb.Prelude.Keyed.{contains, insert, remove}
use rgb.Schemas.Types.{InputRef}
use rgb.Consignment.Types.{input_ref_eq}
use rgb.Operations.Opout.{parse_opout, opout_text, IsOpout, parse_opout-opout_text}
use rgb.Formats.Text.{scan_lines}
use rgb.RejectList.Text.{fitting, parse_list}
use rgb.RejectList.Lines.{LastSays, parse_list-LastSays}

abbrev ones : ByteString
ones =
    1 ∷ 1 ∷ 1 ∷ 1 ∷ 1 ∷ 1 ∷ 1 ∷ 1 ∷ 1 ∷ 1 ∷ 1 ∷ 1 ∷ 1 ∷ 1 ∷ 1 ∷ 1 ∷ 1 ∷ 1 ∷ 1 ∷ 1 ∷ 1 ∷ 1 ∷ 1 ∷ 1
    ∷ 1 ∷ 1 ∷ 1 ∷ 1 ∷ 1 ∷ 1 ∷ 1 ∷ 171 ∷ []

abbrev output : InputRef
output = record { operation_id = ones; assignment_type = 4000; index = 65535 }

abbrev all_small : ByteString → Bool
all_small [] = true
all_small (b ∷ bs) = ltb b 256 && all_small bs

small_bytes : (bs : ByteString) → all_small bs ≡ true → All IsByte bs
small_bytes [] h = tt
small_bytes (b ∷ bs) h = (ground arith, small_bytes bs (ground arith))

output-IsOpout : IsOpout output
output-IsOpout = record {
  bytes = small_bytes ones refl;
  sized = refl;
  type_fits = omega arith;
  index_fits = omega arith;
}

parse_opout-opout_text_example : parse_opout (opout_text output) ≡ ok output
parse_opout-opout_text_example = parse_opout-opout_text output output-IsOpout

-- A number of 17 bits, and a part too few.
test_wide : parse_opout (codes "ab/65536/0") ≡ err invalid_opout
unfolding parse_opout
test_wide = refl

test_parts : parse_opout (codes "ab/1") ≡ err invalid_opout
unfolding parse_opout
test_parts = refl

-- The output is rejected, then allowed; a comment and a malformed line are passed over.
abbrev policy_text : ByteString
unfolding opout_text
policy_text =
    codes "# policy"
    ++ (10 ∷ (opout_text output ++ (10 ∷ 33 ∷ 32 ∷ (opout_text output ++ (10 ∷ codes "x/y")))))

test_allowed : (parse_list policy_text).allow ≡ output ∷ []
unfolding parse_list opout_text bytes_eq insert remove
test_allowed = refl

parse_list-LastSays_example :
    ((contains (parse_list policy_text).allow output ≡ true)
      ↔ LastSays output true (fitting (scan_lines policy_text)))
    × ((contains (parse_list policy_text).reject output ≡ true)
        ↔ LastSays output false (fitting (scan_lines policy_text)))
parse_list-LastSays_example = parse_list-LastSays policy_text output
