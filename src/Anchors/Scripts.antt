-- ===== src/Anchors/Scripts.antt =====
-- anchors/opret.go and anchors/close_method.go.
use rgb.Prelude.{
  ℕ, zero, suc, ◌+◌, leb, ltb, ◌||◌, ◌≡◌, ◌↔◌, refl, sym, ap, ◌∙◌, Bool, false, ◌&&◌, [], ◌∷◌, ◌==◌,
  if◌then◌else◌, length, drop, Result, ok, err, guard, invalid_opret, unknown_close_method, String,
  arith, map,
}
use rgb.Prelude.Bytes.{ByteString, bytes_eq, bytes_eq→eq, bytes_eq_refl, codes}
use rgb.Consensus.TaggedHash.{IsSized}

unfoldable pub opret_script : ByteString → ByteString
opret_script commitment = 0x6a ∷ 0x20 ∷ commitment

-- `script[0]` and `script[1]`, read when the length is known.
unfoldable pub starts : ℕ → ℕ → ByteString → Bool
starts a b [] = false
starts a b (x ∷ []) = false
starts a b (x ∷ y ∷ rest) = (x == a) && (y == b)

unfoldable pub verify_opret_script : ByteString → ByteString → Result (Unit {0})
unfolding starts bytes_eq
verify_opret_script script commitment =
    guard ((length script == 34) && starts 0x6a 0x20 script && bytes_eq (drop 2 script) commitment)
      invalid_opret

-- The verifier accepts exactly the script that the commitment has.
pub verify_opret_script_iff :
    (script commitment : ByteString)
    → IsSized commitment
    → (verify_opret_script script commitment ≡ ok tt) ↔ (script ≡ opret_script commitment)
unfolding verify_opret_script opret_script starts
verify_opret_script_iff script commitment sized = (there script, back script)
  where
    there :
        (s : ByteString) → verify_opret_script s commitment ≡ ok tt → s ≡ opret_script commitment
    there [] h = absurd (cc)
    there (x ∷ []) h = absurd (cc)
    there (x ∷ y ∷ rest) h = ground (arith, bytes_eq→eq rest commitment)

    back : (s : ByteString) → s ≡ opret_script commitment → verify_opret_script s commitment ≡ ok tt
    back s e = ground (arith, e, sized, bytes_eq_refl commitment)

-- `CloseMethod` counts from 0; a value that is neither method prints as "unknown".
abbrev pub opret_first : ℕ
opret_first = 0

abbrev pub tapret_first : ℕ
tapret_first = 1

unfoldable pub close_method_string : ℕ → String
close_method_string method =
    if method == opret_first
    then "opret1st"
    else if method == tapret_first
    then "tapret1st"
    else "unknown"

-- `strings.ToLower` on ASCII.
abbrev pub lower : ℕ → ℕ
lower b = if leb 65 b && leb b 90 then b + 32 else b

unfoldable pub parse_close_method : ByteString → Result ℕ
unfolding bytes_eq
parse_close_method value =
    let text = map lower value in
    if bytes_eq text (codes "opret1st") || bytes_eq text (codes "opret-first")
    then ok opret_first
    else if bytes_eq text (codes "tapret1st") || bytes_eq text (codes "tapret-first")
    then ok tapret_first
    else err unknown_close_method

prints_unknown : (n : ℕ) → close_method_string (suc (suc n)) ≡ "unknown"
unfolding close_method_string
prints_unknown n = ground arith

beyond : (n : ℕ) → ltb (suc (suc n)) 2 ≡ false
beyond n = ground arith

-- The two methods are read back from what they print, in lower or upper case; any other method
-- prints a text that is refused.
pub parse-close_method_string :
    (method : ℕ)
    → parse_close_method (codes (close_method_string method))
      ≡ (if ltb method 2 then ok method else err unknown_close_method)
unfolding parse_close_method close_method_string
parse-close_method_string zero = refl
parse-close_method_string (suc zero) = refl
parse-close_method_string (suc (suc n)) =
    ap (λ t. parse_close_method (codes t)) (prints_unknown n)
    ∙ sym (ap (λ b. if b then ok (suc (suc n)) else err unknown_close_method) (beyond n))
