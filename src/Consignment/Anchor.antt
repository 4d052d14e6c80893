-- ===== src/Consignment/Anchor.antt =====
-- The anchor and the carrier of a bundle in consignment/validator.go: `decodeAnchor`, `verifyDBC`,
-- `decodeCarrierBinding`, `firstCarrier` and `decodeTapretProof`.
use rgb.Prelude.{
  ℕ, Bool, false, ◌&&◌, ◌||◌, not, Option, none, some, List, [], ◌∷◌, ltb, ◌==◌, if◌then◌else◌,
  length, drop, Result, ok, err, guard, of_option, recast, ◌>>=◌, ◌>>◌, bundle_anchor, String,
  str_eq, replicate,
}
use rgb.Prelude.Bytes.{ByteString, bytes_eq}
use rgb.Consensus.TaggedHash.{Hash}
use rgb.StrictTypes.Value.{
  Value, Kind, kind_eq, kind, attributes, inner, pointee, field, unwrap, items, bytes_of,
}
use rgb.StrictTypes.Numbers.{number}
use rgb.Operations.Fields.{union_inner}
use rgb.Operations.Secrets.{name_of, max_uint32}
use rgb.Anchors.Mpc.{MpcProof, convolve_mpc}
use rgb.Anchors.Scripts.{starts, verify_opret_script}
use rgb.Anchors.Tapret.{
  TapretPartner, left_node, right_leaf, right_branch, Curve, tapret_merkle_root,
  tapret_output_key_with_partner,
}
use rgb.Consignment.Types.{Tx, TxOut, CarrierBinding}

-- `raw, ok := value.Bytes()` with 32 of them.
unfoldable pub hash_of : Value → Result ByteString
unfolding bytes_of
hash_of value = do
  raw ← of_option bundle_anchor (bytes_of value)
  guard (length raw == 32) bundle_anchor
  ok raw

unfoldable pub path_of : List Value → Result (List ByteString)
unfolding hash_of
path_of [] = ok []
path_of (item ∷ rest) = do hash ← hash_of item; hashes ← path_of rest; ok (hash ∷ hashes)

-- The number in a field, up to the largest of its width.
unfoldable pub bounded_field : String → ℕ → Value → Result ℕ
unfolding field number
bounded_field name max value = do
  found ← of_option bundle_anchor (field name value)
  n ← of_option bundle_anchor (number found)
  guard (not (ltb max n)) bundle_anchor
  ok n

unfoldable pub decode_anchor : Value → Result (MpcProof × Value)
unfolding field unwrap bounded_field path_of
decode_anchor value = do
  mpc ← of_option bundle_anchor (field "mpcProof" (unwrap value))
  dbc ← of_option bundle_anchor (field "dbcProof" (unwrap value))
  pos ← bounded_field "pos" max_uint32 (unwrap mpc)
  cofactor ← bounded_field "cofactor" 0xffff (unwrap mpc)
  path_value ← of_option bundle_anchor (field "path" (unwrap mpc))
  guard (kind_eq (kind (unwrap path_value)) Kind.list) bundle_anchor
  path ← path_of (items (unwrap path_value))
  ok (record { position = pos; cofactor = cofactor; path = path }, unwrap dbc)

-- The anchor of a bundle, and what it commits to under the contract.
unfoldable pub anchor_commitment :
    Hash → Value → ByteString → ByteString → Result (Value × ByteString)
unfolding decode_anchor convolve_mpc
anchor_commitment sha256 value contract_id bundle_id = do
  (proof, dbc) ← decode_anchor value
  commitment ← recast bundle_anchor (convolve_mpc sha256 proof contract_id bundle_id)
  ok (dbc, commitment)

-- An OP_RETURN output, or a taproot one.
unfoldable pub is_carrier : TxOut → Bool
unfolding starts
is_carrier output =
    (elim output.pk_script [ [] ↦ false | op ∷ _ ↦ op == 0x6a ])
    || (length output.pk_script == 34 && starts 0x51 0x20 output.pk_script)

unfoldable pub first_carrier : List TxOut → Option TxOut
unfolding is_carrier
first_carrier [] = none
first_carrier (output ∷ rest) =
    let later = first_carrier rest in if is_carrier output then some output else later

unfoldable pub right_leaf_of : Value → Result TapretPartner
unfolding field number bytes_of bounded_field
right_leaf_of leaf = do
  version ← bounded_field "version" 0xff leaf
  script_value ← of_option bundle_anchor (field "script" leaf)
  script ← of_option bundle_anchor (bytes_of script_value)
  ok (right_leaf version script)

unfoldable pub right_branch_of : Value → Result TapretPartner
unfolding field hash_of
right_branch_of branch = do
  left_value ← of_option bundle_anchor (field "leftNodeHash" branch)
  right_value ← of_option bundle_anchor (field "rightNodeHash" branch)
  left ← hash_of left_value
  right ← hash_of right_value
  ok (right_branch left right)

unfoldable pub partner_of : Value → Result TapretPartner
unfolding union_inner unwrap hash_of right_leaf_of right_branch_of
partner_of partner_union = do
  body ← of_option bundle_anchor (union_inner partner_union)
  if str_eq (name_of partner_union) "leftNode"
      then (do hash ← hash_of body; ok (left_node hash))
      else if str_eq (name_of partner_union) "rightLeaf"
      then right_leaf_of (unwrap body)
      else if str_eq (name_of partner_union) "rightBranch"
      then right_branch_of (unwrap body)
      else err bundle_anchor

unfoldable pub optional_partner : Value → Result (Option TapretPartner)
unfolding unwrap union_inner partner_of
optional_partner partner_value = do
  guard (kind_eq (kind partner_value) Kind.union) bundle_anchor
  if str_eq (name_of partner_value) "none" then ok none else (do
    guard (str_eq (name_of partner_value) "some") bundle_anchor
    body ← of_option bundle_anchor (pointee (inner partner_value))
    partner ← partner_of (unwrap body)
    ok (some partner))

pub record TapretProof : Type 0 where
  pub internal : ByteString
  pub nonce : ℕ
  pub partner : Option TapretPartner

unfoldable pub decode_tapret_proof : Value → Result TapretProof
unfolding field unwrap hash_of bounded_field optional_partner
decode_tapret_proof value = do
  path ← of_option bundle_anchor (field "pathProof" value)
  internal_value ← of_option bundle_anchor (field "internalPk" value)
  internal ← hash_of internal_value
  partner_value ← of_option bundle_anchor (field "partnerNode" (unwrap path))
  nonce ← bounded_field "nonce" 0xff (unwrap path)
  partner ← optional_partner (unwrap partner_value)
  ok (record { internal = internal; nonce = nonce; partner = partner })

unfoldable pub verify_tapret : Hash → Curve → ByteString → Value → ByteString → Result (Unit {0})
unfolding starts unwrap decode_tapret_proof tapret_output_key_with_partner bytes_eq
verify_tapret sha256 curve pk_script proof commitment = do
  body ← of_option bundle_anchor (pointee (inner proof))
  guard (length pk_script == 34 && starts 0x51 0x20 pk_script) bundle_anchor
  t ← decode_tapret_proof (unwrap body)
  key ←
      recast bundle_anchor
        (tapret_output_key_with_partner sha256 curve t.internal commitment t.nonce t.partner)
  guard (bytes_eq (drop 2 pk_script) key) bundle_anchor

unfoldable pub verify_dbc : Hash → Curve → Tx → Value → ByteString → Result (Unit {0})
unfolding first_carrier verify_opret_script verify_tapret
verify_dbc sha256 curve tx proof commitment = do
  guard (kind_eq (kind proof) Kind.union) bundle_anchor
  carrier ← of_option bundle_anchor (first_carrier tx.tx_out)
  if str_eq (name_of proof) "opret"
      then recast bundle_anchor (verify_opret_script carrier.pk_script commitment)
      else if str_eq (name_of proof) "tapret"
      then verify_tapret sha256 curve carrier.pk_script proof commitment
      else err bundle_anchor

unfoldable pub tapret_binding : Hash → Value → ByteString → Result CarrierBinding
unfolding unwrap decode_tapret_proof tapret_merkle_root
tapret_binding sha256 proof commitment = do
  body ← of_option bundle_anchor (pointee (inner proof))
  t ← decode_tapret_proof (unwrap body)
  root ← tapret_merkle_root sha256 commitment t.nonce t.partner
  ok (record {
    commitment_method = "tapret1st";
    internal_key = t.internal;
    tapret_root = root;
    tapret_proof = (attributes proof).encoded;
  })

unfoldable pub decode_carrier_binding : Hash → Value → ByteString → Result CarrierBinding
unfolding tapret_binding
decode_carrier_binding sha256 proof commitment = do
  guard (kind_eq (kind proof) Kind.union) bundle_anchor
  if str_eq (name_of proof) "opret"
      then ok (record {
        commitment_method = "opret1st";
        internal_key = replicate 32 0;
        tapret_root = replicate 32 0;
        tapret_proof = [];
      })
      else if str_eq (name_of proof) "tapret"
      then tapret_binding sha256 proof commitment
      else err bundle_anchor
