-- ===== src/Formats/Words.antt =====
-- Texts of printable characters, under Go's functions on texts.
use rgb.Prelude.{
  ℕ, zero, suc, ◌≤◌, ◌<◌, ◌≡◌, refl, sym, ap, ◌∙◌, Bool, true, false, ◌&&◌, ◌||◌, none, some, List,
  [], ◌∷◌, ◌++◌, ltb, ◌==◌, length, reverse, All, All-reverse, arith,
}
use mathlib.Core.List.{append_assoc}
use rgb.Prelude.Bytes.{ByteString}
use rgb.Formats.Text.{
  scan_lines, drop_cr, spaces, reversed, strip, strip_any, strip_all, trim_space, cut,
}

-- The visible characters of ASCII.
abbrev pub IsGraphic : ℕ → Type 0
IsGraphic c = (33 ≤ c) × (c ≤ 126)

-- A value of a header.
pub record IsWord (w : ByteString) : Type 0 where
  pub filled : 0 < length w
  pub short : length w < 33000000
  pub graphic : All IsGraphic w

-- With the space, which no line break is.
abbrev pub IsPlain : ℕ → Type 0
IsPlain c = 32 ≤ c

pub graphic-IsPlain : (w : ByteString) → All IsGraphic w → All IsPlain w
graphic-IsPlain [] h = tt
graphic-IsPlain (c ∷ cs) h = (omega arith, graphic-IsPlain cs h.1)

abbrev outside : List ByteString → Bool
outside [] = true
outside ([] ∷ ps) = false
outside ((p ∷ _) ∷ ps) = (ltb p 33 || ltb 126 p) && outside ps

strip_any-none :
    (ps : List ByteString) (c : ℕ) (cs : ByteString)
    → outside ps ≡ true
    → IsGraphic c
    → strip_any ps (c ∷ cs) ≡ none
unfolding strip_any strip
strip_any-none [] c cs h g = refl
strip_any-none ([] ∷ ps) c cs h g = absurd (cc)
strip_any-none ((p ∷ more) ∷ ps) c cs h g = ground (arith, strip_any-none ps c cs)

strip_any-nothing : (ps : List ByteString) → outside ps ≡ true → strip_any ps [] ≡ none
unfolding strip_any strip
strip_any-nothing [] h = refl
strip_any-nothing ([] ∷ ps) h = absurd (cc)
strip_any-nothing ((p ∷ more) ∷ ps) h = ground (arith, strip_any-nothing ps)

strip_all-graphic :
    (ps : List ByteString) (n : ℕ) (w : ByteString)
    → outside ps ≡ true
    → All IsGraphic w
    → strip_all ps n w ≡ w
unfolding strip_all
strip_all-graphic ps zero w h g = refl
strip_all-graphic ps (suc n) [] h g =
    ap (λ o. elim o [ none ↦ [] | some rest ↦ strip_all ps n rest ]) (strip_any-nothing ps h)
strip_all-graphic ps (suc n) (c ∷ cs) h g =
    ap (λ o. elim o [ none ↦ c ∷ cs | some rest ↦ strip_all ps n rest ])
      (strip_any-none ps c cs h g.0)

append_nil : (xs : ByteString) → xs ++ [] ≡ xs
append_nil [] = refl
append_nil (x ∷ xs) = ap (λ t. x ∷ t) (append_nil xs)

reverse-append : (xs ys : ByteString) → reverse (xs ++ ys) ≡ reverse ys ++ reverse xs
reverse-append [] ys = sym (append_nil (reverse ys))
reverse-append (x ∷ xs) ys =
    ap (λ t. t ++ (x ∷ [])) (reverse-append xs ys) ∙ append_assoc (reverse ys) (reverse xs) (x ∷ [])

reverse_involutive : (xs : ByteString) → reverse (reverse xs) ≡ xs
reverse_involutive [] = refl
reverse_involutive (x ∷ xs) =
    reverse-append (reverse xs) (x ∷ []) ∙ ap (λ t. x ∷ t) (reverse_involutive xs)

trim_right :
    (w : ByteString)
    → All IsGraphic w
    → reverse (strip_all (reversed spaces) (length w) (reverse w)) ≡ w
trim_right w g =
    ap reverse (strip_all-graphic (reversed spaces) (length w) (reverse w) refl (All-reverse _ w g))
    ∙ reverse_involutive w

pub trim_space-graphic : (w : ByteString) → All IsGraphic w → trim_space w ≡ w
unfolding trim_space
trim_space-graphic w g =
    ap (λ left. reverse (strip_all (reversed spaces) (length left) (reverse left)))
      (strip_all-graphic spaces (length w) w refl g)
    ∙ trim_right w g

-- The space before a value is trimmed.
pub trim_space-value : (w : ByteString) → All IsGraphic w → trim_space (32 ∷ w) ≡ w
unfolding trim_space strip_all strip_any strip
trim_space-value w g =
    ap (λ left. reverse (strip_all (reversed spaces) (length left) (reverse left)))
      (strip_all-graphic spaces (length w) w refl g)
    ∙ trim_right w g

-- A line that is written before a newline is scanned.
pub scan_lines-line :
    (line rest : ByteString)
    → All IsPlain line
    → scan_lines (line ++ (10 ∷ rest)) ≡ line ∷ scan_lines rest
unfolding scan_lines
scan_lines-line [] rest h = refl
scan_lines-line (c ∷ cs) rest h = ground (arith, scan_lines-line cs rest h.1)

pub drop_cr-plain : (line : ByteString) → All IsPlain line → drop_cr line ≡ line
unfolding drop_cr
drop_cr-plain [] h = refl
drop_cr-plain (c ∷ []) h = ground arith
drop_cr-plain (c ∷ d ∷ cs) h = ap (λ t. c ∷ t) (drop_cr-plain (d ∷ cs) h.1)

pub cut-first :
    (name rest : ByteString)
    → All (λ c. (c == 58) ≡ false) name
    → cut 58 (name ++ (58 ∷ rest)) ≡ some (name, rest)
unfolding cut
cut-first [] rest h = refl
cut-first (c ∷ cs) rest h = ground (arith, h.0, cut-first cs rest h.1)
