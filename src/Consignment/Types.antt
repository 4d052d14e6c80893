-- ===== src/Consignment/Types.antt =====
-- The types of consignment/bitcoin.go and consignment/validator.go.
use rgb.Prelude.{ℕ, ◌≡◌, ◌↔◌, Bool, true, Option, List, String, arith}
use rgb.Prelude.Bytes.{ByteString, bytes_eq→eq, bytes_eq_refl}
use rgb.Prelude.Keyed.{Eq, Map, nat_eq, bytes_eq_instance}
use rgb.Schemas.Types.{InputRef, input_ref_beq, ResolvedInput}

pub record Outpoint : Type 0 where
  pub tx_id : ByteString
  pub vout : ℕ

-- What the validation reads of btcd's `wire.MsgTx`.
pub record TxOut : Type 0 where
  pub value : ℕ
  pub pk_script : ByteString

pub record Tx : Type 0 where
  pub spends : List Outpoint
  pub tx_out : List TxOut

pub data WitnessState : Type 0 where
  unknown tentative mined archived prepared : WitnessState

pub record OutpointEvidence : Type 0 where
  pub known : Bool
  pub exists : Bool
  pub spent : Bool
  pub spending_tx_id : Option ByteString

pub record CarrierBinding : Type 0 where
  pub commitment_method : String
  pub internal_key : ByteString
  pub tapret_root : ByteString
  pub tapret_proof : ByteString

pub record ValidatedOutput : Type 0 where
  pub state : ResolvedInput
  pub outpoint : Outpoint
  pub seal_disclosure : ByteString
  pub seal_blinding : ℕ
  pub witness_tx_ptr : Bool
  pub witness_tx_id : ByteString
  pub carrier_binding : CarrierBinding

abbrev pub States : Type 0
States = Map InputRef ValidatedOutput

pub record ValidatedOp : Type 0 where
  pub bundle : ByteString
  pub parents : List ByteString

pub input_ref_iff : (a b : InputRef) → (input_ref_beq a b ≡ true) ↔ (a ≡ b)
input_ref_iff a b = (
  λ h. ground (arith, bytes_eq→eq a.operation_id b.operation_id),
  λ e. ground (arith, e, bytes_eq_refl a.operation_id),
)

instance abbrev pub input_ref_eq : Eq InputRef
input_ref_eq = record { matches = input_ref_beq; matches_iff = input_ref_iff }
