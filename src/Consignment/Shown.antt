-- ===== src/Consignment/Shown.antt =====
-- What the projection of consignment/validator.go shows of a table of states.
use rgb.Prelude.{
  ℕ, ◌+◌, ◌≤◌, ◌≡◌, Bool, true, Option, none, some, List, [], ◌∷◌, ok, All, after_ok, arith, subst,
  ◌⊎◌, inl, inr,
}
use Prim.{⊥}
use rgb.Prelude.Bytes.{ByteString}
use rgb.Prelude.Keyed.{Map, total, bytes_eq_instance}
use rgb.Schemas.Types.{InputRef}
use rgb.Consignment.Types.{Tx, ValidatedOutput, States, input_ref_eq}
use rgb.Consignment.Outpoints.{OutpointResolver}
use rgb.Consignment.Held.{allocation, live_amount}
use rgb.Consignment.Projection.{ValidatedState, project_state, project, prepend_kept}
use rgb.Consignment.Backing.{Backed, IsSpent, Projects, project_state-cases}

-- Whether the list shows a state under a reference.
abbrev pub Shows : List ValidatedState → InputRef → ValidatedOutput → Type 0
Shows [] reference output = ⊥
Shows (s ∷ rest) reference output =
    ((s.reference ≡ reference) × (s.output ≡ output)) ⊎ Shows rest reference output

-- A state is shown, or it is spent and may be left out.
abbrev pub Accounted :
    Option OutpointResolver
    → (InputRef → Bool)
    → List ValidatedState
    → InputRef × ValidatedOutput
    → Type 0
Accounted resolver omit shown (reference, output) =
    Shows shown reference output ⊎ ((omit reference ≡ true) × IsSpent resolver output.outpoint)

-- What the projection shows is backed: each state lies at an outpoint that the chain knows to be
-- unspent, or at an output of a prepared witness, whose value and script it carries.
pub project-Backed :
    (resolver : Option OutpointResolver) (prepared : Map ByteString Tx) (omit : InputRef → Bool)
    (states : States) (shown : List ValidatedState)
    → project resolver prepared omit states ≡ ok shown
    → All (Backed resolver prepared) shown
unfolding project
project-Backed resolver prepared omit [] shown h =
    let same : [] ≡ shown = cc in subst (All (Backed resolver prepared)) same tt
project-Backed resolver prepared omit ((reference, output) ∷ rest) shown h =
    after_ok (project_state resolver prepared omit reference output) _ h λ r here h1.
      after_ok (project resolver prepared omit rest) _ h1 λ later listed done.
        let same : prepend_kept r later ≡ shown = cc in
        subst (All (Backed resolver prepared)) same (
          both r later (project_state-cases resolver prepared omit reference output r here)
            (project-Backed resolver prepared omit rest later listed))
  where
    both :
        (r : Option ValidatedState) (later : List ValidatedState)
        → Projects resolver prepared omit reference output r
        → All (Backed resolver prepared) later
        → All (Backed resolver prepared) (prepend_kept r later)
    both none later p b = b
    both (some s) later p b = (p.2, b)

Accounted-grows :
    (resolver : Option OutpointResolver) (omit : InputRef → Bool) (r : Option ValidatedState)
    (later : List ValidatedState) (states : States)
    → All (Accounted resolver omit later) states
    → All (Accounted resolver omit (prepend_kept r later)) states
Accounted-grows resolver omit none later states h = h
Accounted-grows resolver omit (some s) later [] h = tt
Accounted-grows resolver omit (some s) later ((reference, output) ∷ rest) h =
    (grows h.0, Accounted-grows resolver omit (some s) later rest h.1)
  where
    grows :
        Accounted resolver omit later (reference, output)
        → Accounted resolver omit (s ∷ later) (reference, output)
    grows (inl shown) = inl (inr shown)
    grows (inr spent) = inr spent

-- The projection loses nothing: every state of the table is shown with its reference and output,
-- or it is one that may be omitted and the chain knows its outpoint to be spent.
pub project-Accounted :
    (resolver : Option OutpointResolver) (prepared : Map ByteString Tx) (omit : InputRef → Bool)
    (states : States) (shown : List ValidatedState)
    → project resolver prepared omit states ≡ ok shown
    → All (Accounted resolver omit shown) states
unfolding project
project-Accounted resolver prepared omit [] shown h = tt
project-Accounted resolver prepared omit ((reference, output) ∷ rest) shown h =
    after_ok (project_state resolver prepared omit reference output) _ h λ r here h1.
      after_ok (project resolver prepared omit rest) _ h1 λ later listed done.
        let same : prepend_kept r later ≡ shown = cc in
        subst (λ l. All (Accounted resolver omit l) ((reference, output) ∷ rest)) same
          (
            first r later (project_state-cases resolver prepared omit reference output r here),
            Accounted-grows resolver omit r later rest
                (project-Accounted resolver prepared omit rest later listed),
          )
  where
    first :
        (r : Option ValidatedState) (later : List ValidatedState)
        → Projects resolver prepared omit reference output r
        → Accounted resolver omit (prepend_kept r later) (reference, output)
    first none later p = inr p
    first (some s) later p = inl (inl (p.0, p.1))

-- The amount of a type that the shown states hold.
abbrev pub shown_amount : List ValidatedState → ℕ → ℕ
shown_amount [] t = 0
shown_amount (s ∷ rest) t = allocation t s.reference s.output + shown_amount rest t

pub project-amount :
    (resolver : Option OutpointResolver) (prepared : Map ByteString Tx) (omit : InputRef → Bool)
    (states : States) (shown : List ValidatedState) (t : ℕ)
    → project resolver prepared omit states ≡ ok shown
    → shown_amount shown t ≤ live_amount states t
unfolding project total
project-amount resolver prepared omit [] shown t h =
    let same : shown ≡ [] = cc in rw same (omega arith)
project-amount resolver prepared omit ((reference, output) ∷ rest) shown t h =
    after_ok (project_state resolver prepared omit reference output) _ h λ r here h1.
      after_ok (project resolver prepared omit rest) _ h1 λ later listed done.
        let same : shown ≡ prepend_kept r later = cc in
        rw same (
          adds r later (project_state-cases resolver prepared omit reference output r here)
            (project-amount resolver prepared omit rest later t listed))
  where
    adds :
        (r : Option ValidatedState) (later : List ValidatedState)
        → Projects resolver prepared omit reference output r
        → shown_amount later t ≤ total (allocation t) rest
        → shown_amount (prepend_kept r later) t
          ≤ allocation t reference output + total (allocation t) rest
    adds none later p b = omega arith
    adds (some s) later p b = rw (p.0, p.1) (omega arith)
