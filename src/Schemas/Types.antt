-- ===== src/Schemas/Types.antt =====
-- The types of schemas/validate.go, schemas/transition.go and schemas/catalog.go, and the services
-- that this part takes from others.
use rgb.Prelude.{ℕ, ◌-◌, ◌^◌, Bool, ◌&&◌, List, [], Result, String, ◌==◌}
use rgb.Prelude.Bytes.{ByteString, bytes_eq}
use rgb.Prelude.Keyed.{Map}
use rgb.StrictTypes.Value.{Value}

-- `Kind` of the catalog.
pub data AssetKind : Type 0 where
  nia ifa pfa cfa uda : AssetKind

abbrev pub max_uint64 : ℕ
max_uint64 = 2 ^ 64 - 1

abbrev pub max_uint16 : ℕ
max_uint16 = 2 ^ 16 - 1

abbrev pub global_issued_supply : ℕ
global_issued_supply = 2010

abbrev pub global_max_supply : ℕ
global_max_supply = 2011

abbrev pub global_tokens : ℕ
global_tokens = 2102

abbrev pub owned_asset : ℕ
owned_asset = 4000

abbrev pub owned_inflation : ℕ
owned_inflation = 4010

pub record InputRef : Type 0 where
  pub operation_id : ByteString
  pub assignment_type : ℕ
  pub index : ℕ

abbrev pub input_ref_beq : InputRef → InputRef → Bool
input_ref_beq a b =
    bytes_eq a.operation_id b.operation_id
    && (a.assignment_type == b.assignment_type && a.index == b.index)

pub record ResolvedInput : Type 0 where
  pub class : String
  pub amount : ℕ
  pub content : ByteString

pub record DecodedGlobal : Type 0 where
  pub raw : ByteString
  pub decoded : Value

pub record DecodedOwned : Type 0 where
  pub kind : String
  pub fungible : Bool
  pub count : ℕ
  pub sum : ℕ
  pub raw : List ByteString

-- `owned[id]` of an absent id is Go's zero value.
abbrev pub zero_owned : DecodedOwned
zero_owned = record { kind = ""; fungible = Bool.false; count = 0; sum = 0; raw = [] }

pub record Occurrence : Type 0 where
  pub min : ℕ
  pub max : ℕ

pub record TransitionContext : Type 0 where
  pub contract_id : ByteString
  pub contract_globals : Map ℕ (List ByteString)

-- What this part asks of the others: the registry of strict_types (`AddTypeSystem`, then
-- `DecodeSemantic` on a semantic id and a payload), the catalog lookup of a schema value
-- (`ID`, then `ByID`), the commitment of operations (`CommitTransition`), and btcec.
pub record Services : Type 0 where
  pub add_type_system : Value → Result (ByteString → ByteString → Result Value)
  pub schema_kind : Value → Result AssetKind
  pub commit_transition : Value → Result ByteString
  pub pub_key_parses : ByteString → Bool
  -- the scalar neither overflows the group order nor is zero
  pub scalar_valid : ByteString → Bool
  pub verify : ByteString → ByteString → ByteString → ByteString → Bool
