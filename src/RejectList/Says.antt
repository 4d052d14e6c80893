-- ===== src/RejectList/Says.antt =====
-- What one line of a list says, apart from how `Parse` of rejectlist/rejectlist.go reads it.
use rgb.Prelude.{
  ℕ, suc, ◌==◌, ◌≡◌, ◌≢◌, ◌↔◌, refl, sym, ap, ◌∙◌, Bool, true, false, Option, none, some, [], ◌∷◌,
  length, drop, if◌then◌else◌, Result, ok, err, arith,
}
use rgb.Prelude.Bytes.{ByteString}
use rgb.Schemas.Types.{InputRef}
use rgb.Consignment.Types.{input_ref_eq}
use rgb.Operations.Opout.{parse_opout}
use rgb.Formats.Text.{trim_space}
use rgb.RejectList.Text.{starts_with, named, decision}

-- A line that says something of an output: its text between blanks is that of the output and begins
-- neither as a comment nor with `!`, and then the output is not allowed; or it is `!` and, between
-- blanks, the text of the output, and then the output is allowed.
pub data Says (line : ByteString) (o : InputRef) (allowed : Bool) : Type 0 where
  rejects :
      (c : ℕ) (rest : ByteString)
      → trim_space line ≡ c ∷ rest
      → c ≢ 35
      → c ≢ 33
      → parse_opout (c ∷ rest) ≡ ok o
      → allowed ≡ false
      → Says line o allowed
  allows :
      (rest : ByteString)
      → trim_space line ≡ 33 ∷ rest
      → parse_opout (trim_space rest) ≡ ok o
      → allowed ≡ true
      → Says line o allowed

abbrev pub Reading : Type 0
Reading = Option (InputRef × Bool)

abbrev read_text : ByteString → Reading
read_text line =
    if length line == 0
    then none
    else if starts_with 35 line
    then none
    else if starts_with 33 line
    then named true (parse_opout (trim_space (drop 1 line)))
    else named false (parse_opout line)

-- A text that is not empty is read by its first character.
opened : (n : ℕ) (m : Reading) → ◌≡◌ {A = Reading} (if suc n == 0 then none else m) m
opened n m = ground arith

differs : (c d : ℕ) → (c == d) ≡ false → c ≢ d
differs c d h = ground arith

is_same : (c d : ℕ) → (c == d) ≡ true → c ≡ d
is_same c d h = ground arith

named_some :
    (a b : Bool) (r : Result InputRef) (o : InputRef)
    → named a r ≡ some (o, b)
    → (r ≡ ok o) × (b ≡ a)
named_some a b (err e) o h = absurd (cc)
named_some a b (ok k) o h = (cc, cc)

module _ (line : ByteString) (o : InputRef) (b : Bool) where
  Says-text :
      (text : ByteString) → trim_space line ≡ text → read_text text ≡ some (o, b) → Says line o b
  Says-text [] e h = absurd (cc)
  Says-text (c ∷ cs) e h =
      by_mark (c == 35) (c == 33) (named true (parse_opout (trim_space cs)))
        (named false (parse_opout (c ∷ cs))) (differs c 35) (differs c 33) (is_same c 33)
        (named_some true b (parse_opout (trim_space cs)) o)
        (named_some false b (parse_opout (c ∷ cs)) o) (sym (opened (length cs) _) ∙ h)
    where
      by_mark :
          (x y : Bool) (m n : Reading)
          → (x ≡ false → c ≢ 35)
          → (y ≡ false → c ≢ 33)
          → (y ≡ true → c ≡ 33)
          → (m ≡ some (o, b) → (parse_opout (trim_space cs) ≡ ok o) × (b ≡ true))
          → (n ≡ some (o, b) → (parse_opout (c ∷ cs) ≡ ok o) × (b ≡ false))
          → (if x then none else if y then m else n) ≡ some (o, b)
          → Says line o b
      by_mark true y m n p q s u v k = absurd (cc)
      by_mark false true m n p q s u v k =
          let (parsed, is) = u k in allows cs (e ∙ ap (λ d. d ∷ cs) (s refl)) parsed is
      by_mark false false m n p q s u v k =
          let (parsed, is) = v k in rejects c cs e (p refl) (q refl) parsed is

  pub decision-Says : (decision line ≡ some (o, b)) ↔ Says line o b
  unfolding decision
  decision-Says = (Says-text (trim_space line) refl, back)
    where
      plain :
          (c : ℕ) (m n : Reading)
          → c ≢ 35
          → c ≢ 33
          → ◌≡◌ {A = Reading} (if c == 35 then none else if c == 33 then m else n) n
      plain c m n p q = ground arith

      back : Says line o b → read_text (trim_space line) ≡ some (o, b)
      back (rejects c rest e p q parsed is) =
          ap read_text e
          ∙ opened (length rest) _
          ∙ plain c (named true (parse_opout (trim_space rest)))
              (named false (parse_opout (c ∷ rest))) p q
          ∙ ap (λ r. named false r) parsed
          ∙ ap (λ a. some (o, a)) (sym is)
      back (allows rest e parsed is) =
          ap read_text e
          ∙ opened (length rest) _
          ∙ ap (λ r. named true r) parsed
          ∙ ap (λ a. some (o, a)) (sym is)
