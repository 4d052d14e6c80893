-- ===== src/Operations/Genesis.antt =====
-- `CommitGenesis` of operations/genesis.go.
use rgb.Prelude.{◌^◌, ◌-◌, [], ◌∷◌, ◌++◌, Result, ok, invalid_genesis, guard, ◌>>=◌, ◌>>◌}
use rgb.Prelude.Bytes.{ByteString, put_le}
use rgb.Consensus.TaggedHash.{Hash, tagged_hash}
use rgb.Consensus.Merkle.{strict_value_hash, merkle_root}
use rgb.StrictTypes.Value.{Value, Kind, kind_eq, kind}
use rgb.Operations.Fields.{encoded, required_field}
use rgb.Operations.Commitments.{
  operation_tag, commit_globals, commit_assignments, committed_message,
}

pub record GenesisCommitment : Type 0 where
  pub issuer_hash : ByteString
  pub metadata_hash : ByteString
  pub globals_root : ByteString
  pub inputs_root : ByteString
  pub assignments_root : ByteString
  pub operation_id : ByteString

pub record GenesisFields : Type 0 where
  pub ffv : Value
  pub schema_id : Value
  pub timestamp : Value
  pub issuer : Value
  pub chain_net : Value
  pub strategy : Value
  pub metadata : Value
  pub globals : Value
  pub assignments : Value

unfoldable pub genesis_fields : Value → Result GenesisFields
unfolding required_field
genesis_fields value = do
  ffv ← required_field value "ffv"
  schema_id ← required_field value "schemaId"
  timestamp ← required_field value "timestamp"
  issuer ← required_field value "issuer"
  chain_net ← required_field value "chainNet"
  strategy ← required_field value "sealClosingStrategy"
  metadata ← required_field value "metadata"
  globals ← required_field value "globals"
  assignments ← required_field value "assignments"
  ok (record {
    ffv = ffv;
    schema_id = schema_id;
    timestamp = timestamp;
    issuer = issuer;
    chain_net = chain_net;
    strategy = strategy;
    metadata = metadata;
    globals = globals;
    assignments = assignments;
  })

-- The fields in front of the four digests. The nonce is 2^64 - 1, and 0 is
-- TypeCommitment::Genesis.
unfoldable pub genesis_prefix : GenesisFields → ByteString → ByteString
unfolding put_le
genesis_prefix f issuer_hash =
    encoded f.ffv
    ++ (put_le 8 (2 ^ 64 - 1)
        ++ (0 ∷ encoded f.schema_id
            ++ (encoded f.timestamp
                ++ (issuer_hash ++ (encoded f.chain_net ++ encoded f.strategy)))))

unfoldable pub commit_genesis : Hash → Value → Result GenesisCommitment
unfolding genesis_fields genesis_prefix strict_value_hash merkle_root commit_globals
    commit_assignments tagged_hash
commit_genesis sha256 value = do
  guard (kind_eq (kind value) Kind.struct) invalid_genesis
  f ← genesis_fields value
  let issuer = strict_value_hash sha256 (encoded f.issuer)
  let metadata = strict_value_hash sha256 (encoded f.metadata)
  let inputs = merkle_root sha256 []
  globals ← commit_globals sha256 f.globals
  assignments ← commit_assignments sha256 f.assignments
  ok (record {
    issuer_hash = issuer;
    metadata_hash = metadata;
    globals_root = globals;
    inputs_root = inputs;
    assignments_root = assignments;
    operation_id =
        tagged_hash sha256 operation_tag
          (committed_message (genesis_prefix f issuer) metadata globals inputs assignments ∷ []);
  })
