-- ===== src/Samples.antt =====
-- Sample values for the runs: an NIA schema, a genesis that issues 100, and a transfer of it.
use rgb.Prelude.{ℕ, true, false, none, some, List, [], ◌∷◌, replicate, Result, ok, String}
use rgb.Prelude.Bytes.{ByteString, get_le}
use rgb.StrictTypes.Value.{
  Value, node, nil, pointer, Fields, no_fields, field_cons, Items, no_items, item_cons, Entries,
  no_entries, entry_cons, Kind, Attributes,
}
use rgb.Schemas.Types.{nia, Services, TransitionContext}
use rgb.Consignment.Types.{Tx, mined}
use rgb.Consignment.Outpoints.{OutpointResolver}
use rgb.Consignment.Projection.{Container}
use rgb.Operations.Bundle.{commit_bundle}
use rgb.Consignment.History.{Evidence, no_binding}

abbrev pub plain : Kind → Attributes
plain k = record {
  kind = k;
  encoded = [];
  primitive = 0;
  raw = [];
  unsigned = none;
  signed = none;
  text = "";
  name = "";
  tag = 0;
}

abbrev pub num : ℕ → Value
num n = node (record (plain Kind.number) { unsigned = some n }) nil no_fields no_items no_entries

abbrev pub blob : ByteString → Value
blob b = node (record (plain Kind.bytes) { raw = b }) nil no_fields no_items no_entries

abbrev pub variant : String → ℕ → Value → Value
variant name tag v =
    node (record (plain Kind.union) { name = name; tag = tag }) (pointer v) no_fields no_items
      no_entries

abbrev pub enum_of : ℕ → Value
enum_of tag = node (record (plain Kind.enum) { tag = tag }) nil no_fields no_items no_entries

abbrev pub to_items : List Value → Items
to_items [] = no_items
to_items (v ∷ vs) = item_cons v (to_items vs)

abbrev pub to_entries : List (Value × Value) → Entries
to_entries [] = no_entries
to_entries ((k, v) ∷ m) = entry_cons k v (to_entries m)

abbrev pub to_fields : List (String × Value) → Fields
to_fields [] = no_fields
to_fields ((k, v) ∷ m) = field_cons k v (to_fields m)

abbrev pub list_of : List Value → Value
list_of vs = node (plain Kind.list) nil no_fields (to_items vs) no_entries

abbrev pub map_of : List (Value × Value) → Value
map_of m = node (plain Kind.map) nil no_fields no_items (to_entries m)

abbrev pub struct_of : List (String × Value) → Value
struct_of m = node (plain Kind.struct) nil (to_fields m) no_items no_entries

abbrev pub occurs : ℕ → ℕ → Value
occurs min max = struct_of (("min", num min) ∷ ("max", num max) ∷ [])

abbrev pub sem_id : ByteString
sem_id = replicate 32 7

abbrev pub schema : Value
schema = struct_of (
    ("metaTypes", map_of [])
    ∷ (
      "globalTypes",
      map_of (
          (
            num 2010,
            struct_of (("globalStateSchema", struct_of (("semId", blob sem_id) ∷ [])) ∷ []),
          )
          ∷ []),
    )
    ∷ (
      "ownedTypes",
      map_of (
          (num 4000, struct_of (("ownedStateSchema", variant "fungible" 1 (enum_of 8)) ∷ [])) ∷ []),
    )
    ∷ (
      "genesis",
      struct_of (
          ("metadata", list_of [])
          ∷ ("globals", map_of ((num 2010, occurs 1 1) ∷ []))
          ∷ ("assignments", map_of ((num 4000, occurs 1 9) ∷ []))
          ∷ []),
    )
    ∷ (
      "transitions",
      map_of (
          (
            num 10000,
            struct_of (
                (
                  "transitionSchema",
                  struct_of (
                      ("metadata", list_of [])
                      ∷ ("globals", map_of [])
                      ∷ ("inputs", map_of ((num 4000, occurs 1 9) ∷ []))
                      ∷ ("assignments", map_of ((num 4000, occurs 1 9) ∷ []))
                      ∷ []),
                )
                ∷ []),
          )
          ∷ []),
    )
    ∷ [])

abbrev pub seal_of : Value → ℕ → Value
seal_of txid vout = struct_of (("txid", txid) ∷ ("vout", num vout) ∷ ("blinding", num 5) ∷ [])

abbrev pub revealed : Value → ℕ → Value
revealed seal amount =
    variant "revealed" 0
      (struct_of (("seal", seal) ∷ ("state", variant "bits64" 8 (num amount)) ∷ []))

abbrev pub assignments_of : List Value → Value
assignments_of vs = map_of ((num 4000, variant "fungible" 1 (list_of vs)) ∷ [])

abbrev pub genesis_tx : ByteString
genesis_tx = replicate 32 1

abbrev pub genesis_id : ByteString
genesis_id = replicate 32 2

abbrev pub transition_id : ByteString
transition_id = replicate 32 3

abbrev pub witness_id : ByteString
witness_id = replicate 32 4

abbrev pub contract_id : ByteString
contract_id = genesis_id

abbrev pub genesis : Value
genesis = struct_of (
    ("metadata", map_of [])
    ∷ ("globals", map_of ((num 2010, list_of (blob (100 ∷ []) ∷ [])) ∷ []))
    ∷ (
      "assignments",
      assignments_of (
          revealed (seal_of (blob genesis_tx) 0) 60
          ∷ revealed (seal_of (blob genesis_tx) 1) 40
          ∷ []),
    )
    ∷ [])

abbrev pub opout : ℕ → Value
opout index = struct_of (("op", blob genesis_id) ∷ ("ty", num 4000) ∷ ("no", num index) ∷ [])

abbrev pub to_witness : Value
to_witness = variant "witnessTx" 0 (num 0)

abbrev pub transition_with : ℕ → ℕ → Value
transition_with paid change = struct_of (
    ("contractId", blob contract_id)
    ∷ ("transitionType", num 10000)
    ∷ ("metadata", map_of [])
    ∷ ("globals", map_of [])
    ∷ ("inputs", list_of (opout 0 ∷ opout 1 ∷ []))
    ∷ (
      "assignments",
      assignments_of
          (revealed (seal_of to_witness 0) paid ∷ revealed (seal_of to_witness 1) change ∷ []),
    )
    ∷ [])

abbrev pub transition : Value
transition = transition_with 70 30

-- A bundle that discloses the given transfers under the identifier that every transfer commits to.
abbrev pub known : List Value → List Value
known [] = []
known (v ∷ vs) = struct_of (("opid", blob transition_id) ∷ ("transition", v) ∷ []) ∷ known vs

abbrev pub disclosing : List Value → Value
disclosing vs = struct_of (
    ("inputMap", map_of ((opout 0, blob transition_id) ∷ (opout 1, blob transition_id) ∷ []))
    ∷ ("knownTransitions", list_of (known vs))
    ∷ [])

abbrev pub witness_bundle_of : List Value → Value
witness_bundle_of vs =
    struct_of (("pubWitness", num 0) ∷ ("anchor", num 0) ∷ ("bundle", disclosing vs) ∷ [])

abbrev pub witness_bundle : Value
witness_bundle = witness_bundle_of (transition ∷ [])

abbrev pub decode_number : ByteString → ByteString → Result Value
unfolding get_le
decode_number sem raw = ok (num (get_le raw))

abbrev pub services : Services
services = record {
  add_type_system = λ _. ok decode_number;
  schema_kind = λ _. ok nia;
  commit_transition = λ _. ok transition_id;
  pub_key_parses = λ _. true;
  scalar_valid = λ _. true;
  verify = λ _ _ _ _. true;
}

abbrev pub context : TransitionContext
context = record { contract_id = contract_id; contract_globals = (2010, (100 ∷ []) ∷ []) ∷ [] }

abbrev pub witness_tx : Tx
witness_tx = record {
  spends = record { tx_id = genesis_tx; vout = 0 } ∷ record { tx_id = genesis_tx; vout = 1 } ∷ [];
  tx_out = [];
}

abbrev pub unspent : OutpointResolver
unspent _ = ok (record { known = true; exists = true; spent = false; spending_tx_id = none })

abbrev pub bundle_id : ByteString
bundle_id = replicate 32 6

-- Every witness is the one mined transaction, and every outpoint is unspent.
abbrev pub evidence : Evidence
evidence = record {
  commit_genesis = λ _. ok genesis_id;
  commit_bundle = commit_bundle services.commit_transition (λ _. bundle_id);
  anchor_commitment = λ _ _ _. ok (num 0, replicate 32 8);
  verify_dbc = λ _ _ _. ok tt;
  carrier_binding = λ _ _. ok no_binding;
  resolve_witness = λ _. ok (record { tx = witness_tx; tx_id = witness_id; state = mined });
  outpoints = some unspent;
}

abbrev pub bundles : Value
bundles = list_of (witness_bundle ∷ [])

abbrev pub flag : String → Value
flag name = node (record (plain Kind.enum) { name = name }) nil no_fields no_items no_entries

-- A transfer whose terminal is the bundle.
abbrev pub container : Container
container = record {
  value = struct_of (
      ("transfer", flag "true")
      ∷ ("schema", schema)
      ∷ ("types", num 0)
      ∷ ("genesis", genesis)
      ∷ ("bundles", bundles)
      ∷ ("terminals", map_of ((blob bundle_id, num 0) ∷ []))
      ∷ []);
  structural_valid = true;
  genesis_valid = true;
}
