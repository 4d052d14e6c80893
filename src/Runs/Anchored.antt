-- ===== src/Runs/Anchored.antt =====
-- A transfer with its identifiers, anchor and witness computed: a sample hash stands for SHA-256.
use rgb.Prelude.{
  ℕ, ◌+◌, ◌*◌, ◌%◌, ◌^◌, ◌≡◌, refl, true, false, Bool, Option, none, some, List, [], ◌∷◌, replicate,
  Result, ok, err, String, length, All, ◌>>=◌, ◌⊎◌,
}
use rgb.Prelude.Bytes.{ByteString, IsByte, put_le, length-put_le, put_le-IsByte}
use rgb.Consensus.TaggedHash.{Hash, IsDigest}
use rgb.StrictTypes.Value.{Value, node}
use rgb.Anchors.Mpc.{MpcProof, protocol_position, convolve_mpc}
use rgb.Anchors.Tapret.{Curve}
use rgb.Schemas.Types.{Services}
use rgb.Consignment.Types.{mined, States}
use rgb.Consignment.Operation.{register_outputs}
use rgb.Consignment.History.{Progress, initial_progress, no_binding, validate_bundle}
use rgb.Consignment.Transaction.{MsgTx}
use rgb.Consignment.Witnessed.{Bitcoin}
use rgb.Consignment.Assembled.{
  transition_id, bundle_hash, assembled, Anchored, validate_bundle-Anchored,
}
use rgb.Samples.{
  num, blob, variant, struct_of, list_of, map_of, seal_of, revealed, assignments_of, to_witness,
  schema, services, genesis, genesis_tx, genesis_id, unspent,
}

mix : ByteString → ℕ
mix [] = 7
mix (b ∷ bs) = (b + 1 + 257 * mix bs) % 2 ^ 256

unfoldable pub sample_hash : Hash
unfolding mix put_le
sample_hash m = put_le 32 (mix m)

pub sample_hash-IsDigest : IsDigest sample_hash
unfolding sample_hash
sample_hash-IsDigest m = length-put_le 32 (mix m)

pub sample_hash-bytes : (m : ByteString) → All IsByte (sample_hash m)
unfolding sample_hash
sample_hash-bytes m = put_le-IsByte 32 (mix m)

abbrev pub coded : ByteString → Value → Value
coded bytes (node a i f l m) = node (record a { encoded = bytes }) i f l m

abbrev opout : ℕ → Value
opout index =
    coded (index ∷ 9 ∷ [])
      (struct_of (("op", blob genesis_id) ∷ ("ty", num 4000) ∷ ("no", num index) ∷ []))

abbrev pub transfer_with : ByteString → Value
transfer_with nonce = struct_of (
    ("ffv", coded (0 ∷ 0 ∷ []) (num 0))
    ∷ ("contractId", coded genesis_id (blob genesis_id))
    ∷ ("nonce", coded nonce (num 1))
    ∷ ("transitionType", coded (16 ∷ 39 ∷ []) (num 10000))
    ∷ ("metadata", map_of [])
    ∷ ("globals", map_of [])
    ∷ ("inputs", list_of (opout 0 ∷ opout 1 ∷ []))
    ∷ (
      "assignments",
      assignments_of (revealed (seal_of to_witness 0) 70 ∷ revealed (seal_of to_witness 1) 30 ∷ []),
    )
    ∷ [])

abbrev pub transfer : Value
transfer = transfer_with (replicate 8 1)

abbrev pub or_none : Result ByteString → ByteString
or_none (ok b) = b
or_none (err e) = []

transfer_id : ByteString
unfolding transition_id sample_hash
transfer_id = or_none (transition_id sample_hash transfer)

transfer_id_sized : length transfer_id ≡ 32
unfolding transfer_id
transfer_id_sized = refl

abbrev input_map : Value
input_map =
    coded (1 ∷ 2 ∷ 3 ∷ []) (map_of ((opout 0, blob transfer_id) ∷ (opout 1, blob transfer_id) ∷ []))

abbrev bundle_value : Value
bundle_value = struct_of (
    ("inputMap", input_map)
    ∷ (
      "knownTransitions",
      list_of (struct_of (("opid", blob transfer_id) ∷ ("transition", transfer) ∷ []) ∷ []),
    )
    ∷ [])

unfoldable pub bundle_id : ByteString
unfolding bundle_hash sample_hash
bundle_id = bundle_hash sample_hash (1 ∷ 2 ∷ 3 ∷ [])

-- Three levels, so eight places.
unfoldable pub position : ℕ
unfolding protocol_position
position = protocol_position genesis_id 8

abbrev pub path : List ByteString
path = replicate 32 11 ∷ replicate 32 12 ∷ replicate 32 13 ∷ []

abbrev pub proof : MpcProof
proof = record { position = position; cofactor = 0; path = path }

unfoldable pub commitment : ByteString
unfolding convolve_mpc sample_hash position bundle_id
commitment = or_none (convolve_mpc sample_hash proof genesis_id bundle_id)

pub commitment_ok : convolve_mpc sample_hash proof genesis_id bundle_id ≡ ok commitment
unfolding commitment
commitment_ok = refl

abbrev pub opret_proof : Value
opret_proof = variant "opret" 0 (num 0)

abbrev pub anchor : Value
anchor = struct_of (
    (
      "mpcProof",
      struct_of (
          ("pos", num position)
          ∷ ("cofactor", num 0)
          ∷ (
            "path",
            list_of (blob (replicate 32 11) ∷ blob (replicate 32 12) ∷ blob (replicate 32 13) ∷ []),
          )
          ∷ []),
    )
    ∷ ("dbcProof", opret_proof)
    ∷ [])

abbrev witness_id : ByteString
witness_id = replicate 32 4

abbrev pub witness : MsgTx
witness = record {
  version = (false, 2);
  lock_time = 0;
  tx_in =
      record {
        previous = record { tx_id = genesis_tx; vout = 0 };
        sig_script = [];
        sequence = 0;
        witness = [];
      }
      ∷ record {
        previous = record { tx_id = genesis_tx; vout = 1 };
        sig_script = [];
        sequence = 0;
        witness = [];
      }
      ∷ [];
  tx_out = record { value = 0; pk_script = 0x6a ∷ 0x20 ∷ commitment } ∷ [];
}

abbrev pub bitcoin : Bitcoin
bitcoin = record {
  tx_hash = λ _. witness_id;
  deserialize = λ _. some witness;
  resolver = some (λ _. ok (record { raw_tx = 1 ∷ []; state = mined }));
}

abbrev pub curve : Curve
curve = record {
  Point = ℕ;
  Scalar = ℕ;
  parse_pub_key = λ _. some 1;
  set_byte_slice = λ _. some 2;
  add_base_mult = λ p s. some (p + s);
  x_bytes = λ p. p ∷ [];
}

abbrev witness_bundle : Value
witness_bundle = struct_of (
    ("pubWitness", variant "txid" 1 (blob witness_id))
    ∷ ("anchor", anchor)
    ∷ ("bundle", bundle_value)
    ∷ [])

abbrev states_or_none : Result States → States
states_or_none (ok s) = s
states_or_none (err e) = []

start : Progress
unfolding register_outputs
start =
    initial_progress genesis_id
      (states_or_none (register_outputs [] genesis_id genesis (replicate 32 0) no_binding)) []

real_services : Services
unfolding transition_id sample_hash
real_services = record services { commit_transition = transition_id sample_hash }

run : Result Progress
unfolding validate_bundle assembled
run =
    validate_bundle real_services (assembled sample_hash curve bitcoin (some unspent) false) schema
      (num 0) genesis_id start witness_bundle

or_start : Result Progress → Progress
or_start (ok p) = p
or_start (err e) = start

final : Progress
unfolding or_start
final = or_start run

final_ok :
    validate_bundle real_services
      (assembled sample_hash curve bitcoin (some unspent) false)
      schema
      (num 0)
      genesis_id
      start
      witness_bundle
    ≡ ok final
unfolding final validate_bundle assembled transfer_id position commitment real_services start
    rgb.Prelude.Keyed.insert run
final_ok = refl

validate_bundle-Anchored_example :
    Anchored sample_hash curve bitcoin false genesis_id witness_bundle
validate_bundle-Anchored_example =
    validate_bundle-Anchored sample_hash curve bitcoin (some unspent) false real_services schema
      (num 0) genesis_id start final witness_bundle sample_hash-IsDigest final_ok
