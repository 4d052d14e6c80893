-- ===== src/RejectList/Lines.antt =====
-- What the lines of a list say together, apart from how `Parse` of rejectlist/rejectlist.go decides.
use rgb.Prelude.{
  ◌≡◌, ◌↔◌, ◌⊎◌, inl, inr, refl, sym, ap, ◌∙◌, Bool, true, false, Option, none, some, List, [], ◌∷◌,
  if◌then◌else◌, All, arith, Bool-cases,
}
use rgb.Prelude.Bytes.{ByteString}
use rgb.Prelude.Keyed.{contains}
use rgb.Schemas.Types.{InputRef, input_ref_beq}
use rgb.Consignment.Types.{input_ref_eq, input_ref_iff}
use rgb.Formats.Text.{scan_lines}
use rgb.RejectList.Text.{
  decision, fitting, parse_list, last_decision, is_decided, parse_list-last_decision,
}
use rgb.RejectList.Says.{Says, Reading, decision-Says}

abbrev pub Silent : InputRef → List ByteString → Type 0
Silent o = All (λ line. (allowed : Bool) → ¬ Says line o allowed)

-- The last line that says something of the output says this.
abbrev pub LastSays : InputRef → Bool → List ByteString → Type 0
LastSays o allowed [] = ⊥
LastSays o allowed (line ∷ lines) =
    LastSays o allowed lines ⊎ (Says line o allowed × Silent o lines)

abbrev said : InputRef → Reading → Option Bool
said o none = none
said o (some (k, allowed)) = if input_ref_beq k o then some allowed else none

said-some : (o : InputRef) (b : Bool) (d : Reading) → (said o d ≡ some b) ↔ (d ≡ some (o, b))
said-some o b none = (λ h. absurd (cc), λ h. absurd (cc))
said-some o b (some (k, a)) = (to, from)
  where
    to : said o (some (k, a)) ≡ some b → ◌≡◌ {A = Reading} (some (k, a)) (some (o, b))
    to h = elim (Bool-cases (input_ref_beq k o)) [
      | inl same ↦
          (let is = (input_ref_iff k o).0 same in
            let allowed : a ≡ b = ground (arith, same) in cc (is, allowed))
      | inr other ↦ absurd (ground (arith, other))
    ]

    from : ◌≡◌ {A = Reading} (some (k, a)) (some (o, b)) → said o (some (k, a)) ≡ some b
    from h =
        let is : k ≡ o = cc in
        let allowed : a ≡ b = cc in
        let same = (input_ref_iff k o).1 is in ground (arith, same, allowed)

-- What the later lines say, and what this one says when they say nothing.
abbrev after : Option Bool → Option Bool → Option Bool
after (some b) here = some b
after none here = here

no_value : (d : Option Bool) → ((b : Bool) → ¬ (d ≡ some b)) → d ≡ none
no_value none h = refl
no_value (some b) h = absurd (h b refl)

module _ (o : InputRef) where
  last-step :
      (line : ByteString) (lines : List ByteString)
      → last_decision o (line ∷ lines) ≡ after (last_decision o lines) (said o (decision line))
  unfolding decision
  last-step line lines = by_parts (last_decision o lines) (decision line)
    where
      by_parts :
          (later : Option Bool) (d : Reading)
          → ◌≡◌ {A = Option Bool}
              (elim later [
                | some allowed ↦ some allowed
                | none ↦ elim d [
                  | none ↦ none
                  | some (k, allowed) ↦ if input_ref_beq k o then some allowed else none
                ]
              ])
              (after later (said o d))
      by_parts (some b) d = refl
      by_parts none none = refl
      by_parts none (some (k, a)) = refl

  said-Says : (line : ByteString) (b : Bool) → (said o (decision line) ≡ some b) ↔ Says line o b
  said-Says line b =
      let (to, from) = said-some o b (decision line) in
      let (says, reads) = decision-Says line o b in (λ h. says (to h), λ s. from (reads s))

  last-Silent : (lines : List ByteString) → last_decision o lines ≡ none → Silent o lines
  last-Silent [] h = tt
  last-Silent (line ∷ lines) h =
      by_later (last_decision o lines) (last-Silent lines) (sym (last-step line lines) ∙ h)
    where
      by_later :
          (later : Option Bool)
          → (later ≡ none → Silent o lines)
          → after later (said o (decision line)) ≡ none
          → Silent o (line ∷ lines)
      by_later (some b) e k = absurd (cc)
      by_later none e k =
          (λ b s. (let one = (said-Says line b).1 s in absurd (cc (one, k))), e refl)

  LastSays-not-Silent : (b : Bool) (lines : List ByteString) → LastSays o b lines → ¬ Silent o lines
  LastSays-not-Silent b [] s silent = s
  LastSays-not-Silent b (line ∷ lines) (inl s) silent = LastSays-not-Silent b lines s silent.1
  LastSays-not-Silent b (line ∷ lines) (inr s) silent = silent.0 b s.0

  last-LastSays :
      (b : Bool) (lines : List ByteString) → last_decision o lines ≡ some b → LastSays o b lines
  unfolding decision
  last-LastSays b [] h = absurd (cc)
  last-LastSays b (line ∷ lines) h =
      by_later (last_decision o lines) (last-LastSays b lines) (last-Silent lines)
        (sym (last-step line lines) ∙ h)
    where
      by_later :
          (later : Option Bool)
          → (later ≡ some b → LastSays o b lines)
          → (later ≡ none → Silent o lines)
          → after later (said o (decision line)) ≡ some b
          → LastSays o b (line ∷ lines)
      by_later (some c) deeper e k = inl (deeper k)
      by_later none deeper e k = inr ((said-Says line b).0 k, e refl)

  LastSays-last :
      (b : Bool) (lines : List ByteString) → LastSays o b lines → last_decision o lines ≡ some b
  LastSays-last b [] s = absurd s
  LastSays-last b (line ∷ lines) (inl s) =
      last-step line lines ∙ ap (λ d. after d (said o (decision line))) (LastSays-last b lines s)
  LastSays-last b (line ∷ lines) (inr (says, silent)) =
      let nothing =
        no_value (last_decision o lines)
          (λ c e. LastSays-not-Silent c lines (last-LastSays c lines e) silent) in
      last-step line lines
      ∙ ap (λ d. after d (said o (decision line))) nothing
      ∙ (said-Says line b).1 says

is_decided_iff :
    (wanted : Bool) (d : Option Bool) → (is_decided wanted d ≡ true) ↔ (d ≡ some wanted)
is_decided_iff true none = (λ h. absurd (cc), λ h. absurd (cc))
is_decided_iff false none = (λ h. absurd (cc), λ h. absurd (cc))
is_decided_iff true (some true) = (λ h. refl, λ h. refl)
is_decided_iff true (some false) = (λ h. absurd (cc), λ h. absurd (cc))
is_decided_iff false (some true) = (λ h. absurd (cc), λ h. absurd (cc))
is_decided_iff false (some false) = (λ h. refl, λ h. refl)

-- A list that Parse reads allows exactly the outputs of which the last line that says something of
-- them begins with `!`, and rejects exactly those of which that line does not. The lines are those
-- before the first that is too long for the scanner; comments and lines that are no output's text
-- say nothing.
pub parse_list-LastSays :
    (raw : ByteString) (o : InputRef)
    → ((contains (parse_list raw).allow o ≡ true) ↔ LastSays o true (fitting (scan_lines raw)))
      × ((contains (parse_list raw).reject o ≡ true) ↔ LastSays o false (fitting (scan_lines raw)))
parse_list-LastSays raw o =
    let (allowed, rejected) = parse_list-last_decision raw o in
    (answers true _ allowed, answers false _ rejected)
  where
    answers :
        (wanted held : Bool)
        → held ≡ is_decided wanted (last_decision o (fitting (scan_lines raw)))
        → (held ≡ true) ↔ LastSays o wanted (fitting (scan_lines raw))
    answers wanted held e =
        let lines = fitting (scan_lines raw) in
        let (to, from) = is_decided_iff wanted (last_decision o lines) in
        (
          λ h. last-LastSays o wanted lines (to (sym e ∙ h)),
          λ s. e ∙ from (LastSays-last o wanted lines s),
        )
