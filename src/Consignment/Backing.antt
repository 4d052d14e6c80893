-- ===== src/Consignment/Backing.antt =====
-- What one state becomes in the projection of consignment/validator.go.
use rgb.Prelude.{
  ◌≡◌, refl, Bool, true, false, Option, none, some, ok, err, if◌then◌else◌, after_ok, arith, subst,
  ◌⊎◌, inl, inr, outpoint_spend,
}
use rgb.Prelude.Bytes.{ByteString}
use rgb.Prelude.Keyed.{Map, lookup, bytes_eq_instance}
use rgb.Schemas.Types.{InputRef}
use rgb.Consignment.Types.{Outpoint, TxOut, Tx, OutpointEvidence, ValidatedOutput, input_ref_eq}
use rgb.Consignment.Outpoints.{OutpointResolver, known_outpoint, verify_projected_outpoint}
use rgb.Consignment.Projection.{
  ValidatedState, tx_out_at, shown_prepared, shown_kept, project_from, project_state,
}

-- The chain knows the outpoint, and nothing spends it.
pub record IsUnspent (resolver : Option OutpointResolver) (outpoint : Outpoint) : Type 0 where
  pub evidence : OutpointEvidence
  pub seen : known_outpoint resolver outpoint ≡ ok evidence
  pub unspent : evidence.spent ≡ false

-- The outpoint is an output of a prepared witness of the same history.
pub record IsPrepared (prepared : Map ByteString Tx) (s : ValidatedState) : Type 0 where
  pub witness : Tx
  pub tx_out : TxOut
  pub listed : lookup s.output.outpoint.tx_id prepared ≡ some witness
  pub has_output : tx_out_at s.output.outpoint.vout witness.tx_out ≡ some tx_out
  pub value : s.output_value ≡ tx_out.value
  pub script : s.output_script ≡ tx_out.pk_script

abbrev pub Backed : Option OutpointResolver → Map ByteString Tx → ValidatedState → Type 0
Backed resolver prepared s = IsUnspent resolver s.output.outpoint ⊎ IsPrepared prepared s

-- The chain knows the outpoint, and something spends it.
pub record IsSpent (resolver : Option OutpointResolver) (outpoint : Outpoint) : Type 0 where
  pub evidence : OutpointEvidence
  pub seen : known_outpoint resolver outpoint ≡ ok evidence
  pub spent : evidence.spent ≡ true

abbrev WhenKept : Option OutpointResolver → Outpoint → Bool → Bool → Type 0
WhenKept resolver outpoint historical true = IsUnspent resolver outpoint
WhenKept resolver outpoint historical false = (historical ≡ true) × IsSpent resolver outpoint

verify_projected-cases :
    (resolver : Option OutpointResolver) (outpoint : Outpoint) (historical keep : Bool)
    → verify_projected_outpoint resolver outpoint historical ≡ ok keep
    → WhenKept resolver outpoint historical keep
unfolding verify_projected_outpoint
verify_projected-cases resolver outpoint historical keep h =
    after_ok (known_outpoint resolver outpoint) _ h λ e seen h1. finish e historical keep seen h1
  where
    finish :
        (e : OutpointEvidence) (old kept : Bool)
        → known_outpoint resolver outpoint ≡ ok e
        → (if e.spent then (if old then ok false else err outpoint_spend) else ok true) ≡ ok kept
        → WhenKept resolver outpoint old kept
    finish e old true seen d = record { evidence = e; seen = seen; unspent = ground arith }
    finish e old false seen d =
        (ground arith, record { evidence = e; seen = seen; spent = ground arith })

-- What one state becomes: it is shown as it is, with its backing, or it is spent and may be left out.
abbrev pub Projects :
    Option OutpointResolver
    → Map ByteString Tx
    → (InputRef → Bool)
    → InputRef
    → ValidatedOutput
    → Option ValidatedState
    → Type 0
Projects resolver prepared omit reference output none =
    (omit reference ≡ true) × IsSpent resolver output.outpoint
Projects resolver prepared omit reference output (some s) =
    (s.reference ≡ reference) × (s.output ≡ output) × Backed resolver prepared s

shown_prepared-cases :
    (resolver : Option OutpointResolver) (prepared : Map ByteString Tx) (omit : InputRef → Bool)
    (reference : InputRef) (output : ValidatedOutput) (witness : Tx) (found : Option TxOut)
    (r : Option ValidatedState)
    → lookup output.outpoint.tx_id prepared ≡ some witness
    → tx_out_at output.outpoint.vout witness.tx_out ≡ found
    → shown_prepared reference output found ≡ ok r
    → Projects resolver prepared omit reference output r
unfolding shown_prepared
shown_prepared-cases resolver prepared omit reference output witness none r listed at h = absurd cc
shown_prepared-cases resolver prepared omit reference output witness (some t) none listed at h =
    absurd cc
shown_prepared-cases resolver prepared omit reference output witness (some t) (some s) listed at h =
    let same_output : s.output ≡ output = cc in
    (
      cc,
      same_output,
      inr (record {
        witness = witness;
        tx_out = t;
        listed = rw same_output listed;
        has_output = rw same_output at;
        value = cc;
        script = cc;
      }),
    )

shown_kept-cases :
    (resolver : Option OutpointResolver) (prepared : Map ByteString Tx) (omit : InputRef → Bool)
    (reference : InputRef) (output : ValidatedOutput) (keep : Bool)
    → WhenKept resolver output.outpoint (omit reference) keep
    → Projects resolver prepared omit reference output (shown_kept reference output keep)
unfolding shown_kept
shown_kept-cases resolver prepared omit reference output false w = w
shown_kept-cases resolver prepared omit reference output true w = (refl, refl, inl w)

pub project_state-cases :
    (resolver : Option OutpointResolver) (prepared : Map ByteString Tx) (omit : InputRef → Bool)
    (reference : InputRef) (output : ValidatedOutput) (r : Option ValidatedState)
    → project_state resolver prepared omit reference output ≡ ok r
    → Projects resolver prepared omit reference output r
unfolding project_state project_from
project_state-cases resolver prepared omit reference output r h =
    from (lookup output.outpoint.tx_id prepared) refl h
  where
    from :
        (found : Option Tx)
        → lookup output.outpoint.tx_id prepared ≡ found
        → project_from resolver found (omit reference) reference output ≡ ok r
        → Projects resolver prepared omit reference output r
    from none e h' =
        after_ok (verify_projected_outpoint resolver output.outpoint (omit reference)) _ h'
          λ keep kept done.
            let same : shown_kept reference output keep ≡ r = cc in
            subst (Projects resolver prepared omit reference output) same (
              shown_kept-cases resolver prepared omit reference output keep
                (verify_projected-cases resolver output.outpoint (omit reference) keep kept))
    from (some witness) e h' =
        shown_prepared-cases resolver prepared omit reference output witness
          (tx_out_at output.outpoint.vout witness.tx_out) r e refl h'
