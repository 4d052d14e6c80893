-- ===== src/Runs/Files/Received.antt =====
-- The sample file, decoded and validated over a chain.
use rgb.Prelude.{◌≡◌, refl, false, true, some, [], Result, ok, err}
use rgb.Prelude.Keyed.{insert, remove}
use rgb.StrictTypes.Numbers.{entries}
use rgb.StrictTypes.Value.{field}
use rgb.Schemas.Amounts.{DistinctKeys}
use rgb.Schemas.Supplies.{assigned_entries}
use rgb.Consignment.Ancestors.{field_or_zero}
use rgb.Consignment.History.{initial_progress, validate_history}
use rgb.Consignment.Projection.{Validation, validate}
use rgb.Consignment.Shown.{shown_amount}
use rgb.Consignment.Supply.{BundlesCanonical}
use rgb.Consignment.Assembled.{assembled}
use rgb.Consignment.Received.{as_container, Received, decode_file-validate}
use rgb.Samples.{unspent}
use rgb.Runs.Anchored.{sample_hash, bitcoin, curve}
use rgb.Runs.Files.{
  small_registry, small_ids, small_services, raw_file, sample_container, read_sample_file,
}

abbrev or_empty : Result Validation → Validation
or_empty (ok v) = v
or_empty (err e) = record {
  progress = initial_progress [] [] [];
  current_states = [];
  prepared_valid = false;
  consensus_valid = false;
}

file_validation : Validation
unfolding validate assembled sample_hash sample_container
file_validation = or_empty (
    validate small_services (assembled sample_hash curve bitcoin (some unspent) true) false
      (as_container sample_container))

file_valid :
    validate small_services
      (assembled sample_hash curve bitcoin (some unspent) true)
      false
      (as_container sample_container)
    ≡ ok file_validation
unfolding validate assembled sample_hash sample_container file_validation
    rgb.Runs.Files.consignment_bytes insert remove validate_history
file_valid = refl

file_keys : DistinctKeys (assigned_entries (field_or_zero "genesis" sample_container.value))
unfolding entries field field_or_zero sample_container sample_hash rgb.Runs.Files.consignment_bytes
    insert remove
file_keys = (λ t _. refl, tt)

file_canonical :
    BundlesCanonical
      (assembled sample_hash curve bitcoin (some unspent) true)
      (field_or_zero "bundles" sample_container.value)
unfolding field_or_zero sample_container sample_hash rgb.Runs.Files.consignment_bytes insert remove
file_canonical = tt

decode_file-validate_example :
    Received sample_hash small_ids small_services sample_container (some unspent) file_validation
decode_file-validate_example =
    decode_file-validate sample_hash small_registry 16 small_ids small_services curve bitcoin
      (some unspent) true raw_file sample_container file_validation read_sample_file file_keys
      file_canonical file_valid

file_shows_100 : shown_amount file_validation.current_states 4000 ≡ 100
unfolding validate assembled sample_hash sample_container file_validation
    rgb.Runs.Files.consignment_bytes insert remove validate_history
file_shows_100 = refl
