-- ===== src/Formats/Columns.antt =====
-- The lines of 80 columns in which consignment/encode.go writes the body of an armor.
use rgb.Prelude.{
  ℕ, zero, suc, ◌≤◌, ◌≡◌, refl, ap, ◌∙◌, Bool, true, false, List, [], ◌∷◌, ◌++◌, ltb, length, take,
  drop, All, All-take, All-drop, take-append-drop, length-drop, arith,
}
use rgb.Prelude.Bytes.{ByteString}
use rgb.Formats.Words.{IsGraphic}
use rgb.Formats.Armor.{columns}

length-take_le : (n : ℕ) (w : ByteString) → length (take n w) ≤ length w
length-take_le zero w = omega arith
length-take_le (suc n) [] = omega arith
length-take_le (suc n) (c ∷ cs) = omega (arith, length-take_le n cs)

abbrev IsLine : ℕ → ByteString → Type 0
IsLine most line = All IsGraphic line × (length line ≤ most)

pub columns-all :
    (fuel most : ℕ) (text : ByteString)
    → All IsGraphic text
    → length text ≤ most
    → All (λ line. All IsGraphic line × (length line ≤ most)) (columns fuel text)
unfolding columns
columns-all fuel most [] h k = tt
columns-all zero most (c ∷ cs) h k = ((h, k), tt)
columns-all (suc fuel) most (c ∷ cs) h k = by_size (ltb 80 (length (c ∷ cs))) refl (λ wide.
    columns-all fuel most (drop 80 (c ∷ cs)) (All-drop IsGraphic 80 (c ∷ cs) h)
      (omega (arith, length-drop 80 (c ∷ cs))))
  where
    by_size :
        (b : Bool)
        → ltb 80 (length (c ∷ cs)) ≡ b
        → (b ≡ true → All (IsLine most) (columns fuel (drop 80 (c ∷ cs))))
        → All (IsLine most) (elim b [
          | true ↦ take 80 (c ∷ cs) ∷ columns fuel (drop 80 (c ∷ cs))
          | false ↦ (c ∷ cs) ∷ []
        ])
    by_size true e later =
        ((All-take IsGraphic 80 (c ∷ cs) h, omega (arith, length-take_le 80 (c ∷ cs))), later refl)
    by_size false e later = ((h, k), tt)

-- The lines together.
abbrev pub joined : List ByteString → ByteString
joined [] = []
joined (line ∷ lines) = line ++ joined lines

append_nil : (xs : ByteString) → xs ++ [] ≡ xs
append_nil [] = refl
append_nil (x ∷ xs) = ap (λ t. x ∷ t) (append_nil xs)

pub joined-columns : (fuel : ℕ) (text : ByteString) → joined (columns fuel text) ≡ text
unfolding columns
joined-columns fuel [] = refl
joined-columns zero (c ∷ cs) = append_nil (c ∷ cs)
joined-columns (suc fuel) (c ∷ cs) =
    by_size (ltb 80 (length (c ∷ cs))) (joined-columns fuel (drop 80 (c ∷ cs)))
  where
    by_size :
        (b : Bool)
        → joined (columns fuel (drop 80 (c ∷ cs))) ≡ drop 80 (c ∷ cs)
        → joined (elim b [
          | true ↦ take 80 (c ∷ cs) ∷ columns fuel (drop 80 (c ∷ cs))
          | false ↦ (c ∷ cs) ∷ []
        ])
          ≡ c ∷ cs
    by_size true later = ap (λ t. take 80 (c ∷ cs) ++ t) later ∙ take-append-drop 80 (c ∷ cs)
    by_size false later = append_nil (c ∷ cs)
