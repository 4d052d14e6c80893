-- ===== src/Consignment/Projection.antt =====
-- The end of `validateWithHistoryReport` of consignment/validator.go: the states that the wallet
-- may spend. Without a report collector.
use rgb.Prelude.{
  ℕ, zero, suc, Bool, true, false, not, ◌&&◌, ◌||◌, Option, none, some, List, [], ◌∷◌, ◌==◌, length,
  if◌then◌else◌, Result, ok, err, str_eq, container_type, outpoint_unknown, ◌>>=◌, ◌>>◌, guard,
}
use rgb.Prelude.Bytes.{ByteString, bytes_eq}
use rgb.Prelude.Keyed.{Map, lookup, contains, bytes_eq_instance}
use rgb.StrictTypes.Value.{Value, Kind, kind_eq, kind, attributes, unwrap, items, entries_of}
use rgb.Schemas.Types.{InputRef, Services}
use rgb.Consignment.Types.{TxOut, Tx, ValidatedOutput, States}
use rgb.Consignment.Outpoints.{OutpointResolver, verify_projected_outpoint}
use rgb.Consignment.History.{Evidence, Progress, validate_history}
use rgb.Consignment.Ancestors.{field_or_zero, historical_side_ops}

-- `ValidatedState`: the output and what the chain or the prepared transaction says of it.
pub record ValidatedState : Type 0 where
  pub reference : InputRef
  pub output : ValidatedOutput
  pub witness_prepared : Bool
  pub output_value : ℕ
  pub output_script : ByteString

-- The output of a transaction at an index, and nothing past the end.
unfoldable pub tx_out_at : ℕ → List TxOut → Option TxOut
tx_out_at n [] = none
tx_out_at zero (o ∷ rest) = some o
tx_out_at (suc n) (o ∷ rest) = tx_out_at n rest

-- A state at an output of a prepared witness.
unfoldable pub shown_prepared :
    InputRef → ValidatedOutput → Option TxOut → Result (Option ValidatedState)
shown_prepared reference output none = err outpoint_unknown
shown_prepared reference output (some tx_out) = ok (
    some (record {
      reference = reference;
      output = output;
      witness_prepared = true;
      output_value = tx_out.value;
      output_script = tx_out.pk_script;
    }))

-- A state of the chain, when it is kept.
unfoldable pub shown_kept : InputRef → ValidatedOutput → Bool → Option ValidatedState
shown_kept reference output false = none
shown_kept reference output true = some (record {
  reference = reference;
  output = output;
  witness_prepared = false;
  output_value = 0;
  output_script = [];
})

unfoldable pub project_from :
    Option OutpointResolver
    → Option Tx
    → Bool
    → InputRef
    → ValidatedOutput
    → Result (Option ValidatedState)
unfolding shown_prepared shown_kept verify_projected_outpoint tx_out_at
project_from resolver none omit_spent reference output = do
  keep ← verify_projected_outpoint resolver output.outpoint omit_spent
  ok (shown_kept reference output keep)
project_from resolver (some witness) omit_spent reference output =
    shown_prepared reference output (tx_out_at output.outpoint.vout witness.tx_out)

-- What one state becomes; `none` when it is left out.
unfoldable pub project_state :
    Option OutpointResolver
    → Map ByteString Tx
    → (InputRef → Bool)
    → InputRef
    → ValidatedOutput
    → Result (Option ValidatedState)
unfolding project_from lookup
project_state resolver prepared omit_spent reference output =
    project_from resolver (lookup output.outpoint.tx_id prepared) (omit_spent reference) reference
      output

abbrev pub prepend_kept : Option ValidatedState → List ValidatedState → List ValidatedState
prepend_kept none rest = rest
prepend_kept (some state) rest = state ∷ rest

-- The loop over the states, in the order of the table; Go's order is not fixed.
unfoldable pub project :
    Option OutpointResolver
    → Map ByteString Tx
    → (InputRef → Bool)
    → States
    → Result (List ValidatedState)
unfolding project_state
project resolver prepared omit_spent [] = ok []
project resolver prepared omit_spent ((reference, output) ∷ rest) = do
  kept ← project_state resolver prepared omit_spent reference output
  later ← project resolver prepared omit_spent rest
  ok (prepend_kept kept later)

-- A static contract: no transfer, no bundles and an empty map of terminals.
unfoldable pub is_genesis_only : Value → Bool
unfolding field_or_zero unwrap
is_genesis_only value =
    let terminals = unwrap (field_or_zero "terminals" value) in
    (str_eq (attributes (unwrap (field_or_zero "transfer" value))).name "false"
      && length (items (unwrap (field_or_zero "bundles" value))) == 0)
    && (kind_eq (kind terminals) Kind.map && length (entries_of terminals) == 0)

unfoldable pub may_omit : List ByteString → Bool → ByteString → InputRef → Bool
unfolding contains bytes_eq
may_omit historical genesis_only genesis_id reference =
    contains historical reference.operation_id
    || (genesis_only && bytes_eq reference.operation_id genesis_id)

pub record Container : Type 0 where
  pub value : Value
  pub structural_valid : Bool
  pub genesis_valid : Bool

pub record Validation : Type 0 where
  pub progress : Progress
  pub current_states : List ValidatedState
  pub prepared_valid : Bool
  pub consensus_valid : Bool

abbrev only_history : Progress → Validation
only_history progress = record {
  progress = progress;
  current_states = [];
  prepared_valid = false;
  consensus_valid = false;
}

-- What is done after the loop, with the historical operations.
unfoldable pub finish_validation :
    Evidence → Value → Bool → ByteString → Progress → List ByteString → Result Validation
unfolding project may_omit is_genesis_only
finish_validation evidence value history_only genesis_id progress historical =
    if history_only
    then ok (only_history progress)
    else (project evidence.outpoints progress.prepared_witnesses
          (may_omit historical (is_genesis_only value) genesis_id) progress.states
        >>= λ states. ok (record {
          progress = progress;
          current_states = states;
          prepared_valid = not (progress.prepared_count == 0);
          consensus_valid = progress.prepared_count == 0;
        }))

-- Validate, ValidateHistory and ValidatePrepared: the witnesses of the evidence are those that
-- `resolveWitness` finds, or for a prepared transfer `resolvePreparedWitness`. A missing container
-- is one that is not valid.
unfoldable pub validate : Services → Evidence → Bool → Container → Result Validation
unfolding field_or_zero historical_side_ops finish_validation
validate services evidence history_only c = do
  guard (c.structural_valid && c.genesis_valid) container_type
  let genesis = field_or_zero "genesis" c.value
  genesis_id ← evidence.commit_genesis genesis
  progress ←
      validate_history services evidence (field_or_zero "schema" c.value)
        (field_or_zero "types" c.value) genesis (field_or_zero "bundles" c.value)
  historical ←
      historical_side_ops c.value progress.graph progress.bundle_ops progress.complete_graph
  finish_validation evidence c.value history_only genesis_id progress historical
