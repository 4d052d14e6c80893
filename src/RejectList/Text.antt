-- ===== src/RejectList/Text.antt =====
-- `Parse` of rejectlist/rejectlist.go: the lines of a list, and what they decide of an output.
use rgb.Prelude.{
  ℕ, ◌^◌, ◌==◌, ◌≡◌, refl, ap, ◌∙◌, Bool, true, false, not, Option, none, some, List, [], ◌∷◌, ltb,
  length, drop, if◌then◌else◌, Result, ok, err, arith,
}
use rgb.Prelude.Bytes.{ByteString}
use rgb.Prelude.Keyed.{
  Eq, Map, lookup, insert, remove, contains, lookup-insert, ◌=?◌, lookup-remove,
}
use rgb.Schemas.Types.{InputRef}
use rgb.Consignment.Types.{input_ref_eq}
use rgb.Operations.Opout.{parse_opout}
use rgb.Formats.Text.{scan_lines, drop_cr, trim_space}
use rgb.RejectList.{RejectList}

abbrev pub starts_with : ℕ → ByteString → Bool
starts_with first [] = false
starts_with first (c ∷ cs) = c == first

abbrev pub named : Bool → Result InputRef → Option (InputRef × Bool)
named allowed (err e) = none
named allowed (ok o) = some (o, allowed)

-- What a line decides, and of which output: with `!` in front it allows it. Blank lines, comments and
-- malformed lines decide nothing.
unfoldable pub decision : ByteString → Option (InputRef × Bool)
unfolding trim_space parse_opout
decision raw =
    let line = trim_space raw in
    if length line == 0
    then none
    else if starts_with 35 line
    then none
    else if starts_with 33 line
    then named true (parse_opout (trim_space (drop 1 line)))
    else named false (parse_opout line)

-- The lines up to one that does not fit the buffer of the scanner, `MaxResponseBytes`.
unfoldable pub fitting : List ByteString → List ByteString
unfolding drop_cr
fitting [] = []
fitting (raw ∷ rest) = if ltb (length raw) (2 ^ 20) then drop_cr raw ∷ fitting rest else []

unfoldable pub decide : Map InputRef Bool → List ByteString → Map InputRef Bool
unfolding decision insert
decide decisions [] = decisions
decide decisions (line ∷ lines) = elim (decision line) [
  | none ↦ decide decisions lines
  | some (o, allowed) ↦ decide (insert o allowed decisions) lines
]

unfoldable pub decided_as {ℓ} : {K : Type ℓ} → Bool → Map K Bool → List K
decided_as wanted [] = []
decided_as wanted ((o, allowed) ∷ rest) =
    let others = decided_as wanted rest in
    if (if allowed then wanted else not wanted) then o ∷ others else others

-- `Parse`
unfoldable pub parse_list : ByteString → RejectList
unfolding scan_lines fitting decide decided_as
parse_list raw =
    let decisions = decide [] (fitting (scan_lines raw)) in
    record { reject = decided_as false decisions; allow = decided_as true decisions }

-- What the last line that names the output says of it.
abbrev pub last_decision : InputRef → List ByteString → Option Bool
unfolding decision
last_decision o [] = none
last_decision o (line ∷ lines) = elim (last_decision o lines) [
  | some allowed ↦ some allowed
  | none ↦ elim (decision line) [
    | none ↦ none
    | some (named', allowed) ↦ if named' =? o then some allowed else none
  ]
]

abbrev pub is_decided : Bool → Option Bool → Bool
is_decided wanted none = false
is_decided wanted (some allowed) = if allowed then wanted else not wanted

abbrev or_before : Option Bool → Option Bool → Option Bool
or_before none before = before
or_before (some later) before = some later

-- The later lines count, then what was decided before.
lookup-decide :
    (decisions : Map InputRef Bool) (lines : List ByteString) (o : InputRef)
    → lookup o (decide decisions lines) ≡ or_before (last_decision o lines) (lookup o decisions)
unfolding decide
lookup-decide decisions [] o = refl
lookup-decide decisions (line ∷ lines) o =
    by_decision (decision line) (last_decision o lines) (λ m. lookup-decide m lines o)
  where
    inserted :
        (b a : Bool) (before : Option Bool)
        → ◌≡◌ {A = Option Bool}
            (if b then some a else before)
            (or_before (if b then some a else none) before)
    inserted true a before = refl
    inserted false a before = refl

    by_decision :
        (d : Option (InputRef × Bool)) (later : Option Bool)
        → ((m : Map InputRef Bool) → lookup o (decide m lines) ≡ or_before later (lookup o m))
        → lookup o (elim d [
          | none ↦ decide decisions lines
          | some (k, allowed) ↦ decide (insert k allowed decisions) lines
        ])
          ≡ or_before
              (elim later [
                | some allowed ↦ some allowed
                | none ↦ elim d [
                  | none ↦ none
                  | some (k, allowed) ↦ if k =? o then some allowed else none
                ]
              ])
              (lookup o decisions)
    by_decision none none deeper = deeper decisions
    by_decision none (some b) deeper = deeper decisions
    by_decision (some (k, a)) (some b) deeper = deeper (insert k a decisions)
    by_decision (some (k, a)) none deeper =
        deeper (insert k a decisions)
        ∙ lookup-insert k o a decisions
        ∙ inserted (k =? o) a (lookup o decisions)

module _ {ℓ} {K : Type ℓ} ⦃e : Eq K⦄ where
  contains-decided_as-remove :
      (wanted : Bool) (k o : K) (m : Map K Bool)
      → contains (decided_as wanted (remove k m)) o
        ≡ (if k =? o then false else contains (decided_as wanted m) o)
  unfolding decided_as remove contains
  contains-decided_as-remove wanted k o [] = ground arith
  contains-decided_as-remove wanted k o ((j, allowed) ∷ m) = ground (
    arith,
    contains-decided_as-remove wanted k o m,
    e.matches_iff j k,
    e.matches_iff j o,
    e.matches_iff k o,
  )

  -- The outputs that are decided so are those whose entry says so.
  IsFaithful : Map K Bool → Type ℓ
  IsFaithful m =
      (wanted : Bool) (o : K) → contains (decided_as wanted m) o ≡ is_decided wanted (lookup o m)

  IsFaithful-insert :
      (k : K) (allowed : Bool) (m : Map K Bool) → IsFaithful m → IsFaithful (insert k allowed m)
  unfolding IsFaithful insert lookup decided_as contains
  IsFaithful-insert k allowed m h wanted o =
      ground (arith, contains-decided_as-remove wanted k o m, lookup-remove k o m, h wanted o)

decide-IsFaithful :
    (m : Map InputRef Bool) (lines : List ByteString) → IsFaithful m → IsFaithful (decide m lines)
unfolding decide
decide-IsFaithful m [] h = h
decide-IsFaithful m (line ∷ lines) h =
    by_decision (decision line) (λ n faithful. decide-IsFaithful n lines faithful)
  where
    by_decision :
        (d : Option (InputRef × Bool))
        → ((n : Map InputRef Bool) → IsFaithful n → IsFaithful (decide n lines))
        → IsFaithful (elim d [
          | none ↦ decide m lines
          | some (k, allowed) ↦ decide (insert k allowed m) lines
        ])
    by_decision none later = later m h
    by_decision (some (k, a)) later = later (insert k a m) (IsFaithful-insert k a m h)

empty-IsFaithful : IsFaithful {K = InputRef} []
unfolding IsFaithful decided_as contains lookup
empty-IsFaithful wanted o = refl

nothing_before : (d : Option Bool) → or_before d none ≡ d
nothing_before none = refl
nothing_before (some b) = refl

-- Of an output, a list that Parse reads has what the last line says that names it: it is among the
-- allowed ones when that line begins with `!`, among the rejected ones when not, and in neither when
-- no line names it. The lines are those before the first that is too long for the scanner.
pub parse_list-last_decision :
    (raw : ByteString) (o : InputRef)
    → (contains (parse_list raw).allow o
        ≡ is_decided true (last_decision o (fitting (scan_lines raw))))
      × (contains (parse_list raw).reject o
          ≡ is_decided false (last_decision o (fitting (scan_lines raw))))
unfolding parse_list IsFaithful lookup
parse_list-last_decision raw o =
    let lines = fitting (scan_lines raw) in
    let faithful = decide-IsFaithful [] lines empty-IsFaithful in
    let found = lookup-decide [] lines o ∙ nothing_before (last_decision o lines) in
    (faithful true o ∙ ap (is_decided true) found, faithful false o ∙ ap (is_decided false) found)
