-- ===== src/Sync.antt =====
-- sync/head.go: wallet heads, and the choice of the latest. A string is its bytes.
pub mod Latest
use rgb.Prelude.{
  ℕ, ◌+◌, ◌%◌, ◌^◌, Bool, true, false, not, ◌&&◌, ◌||◌, Option, none, some, List, [], ◌∷◌, ◌==◌,
  ltb, length, replicate, if◌then◌else◌, Result, ok, err, head_wallet, head_sequence, head_conflict,
  head_field, ◌>>=◌, ◌>>◌, guard,
}
use rgb.Prelude.Bytes.{ByteString, bytes_eq}
use rgb.StrictEncoding.Encoder

abbrev pub head_version : ℕ
head_version = 1

pub record WalletHead : Type 0 where
  pub version : ℕ
  pub wallet_id : ByteString
  pub seq : ℕ
  pub state_hash : ByteString
  pub operation_id : ByteString

abbrev zero_hash : ByteString
zero_hash = replicate 32 0

-- The fields are in order, and the head belongs to the wallet, if one is named.
unfoldable pub validate : ByteString → WalletHead → Result (Unit {0})
unfolding bytes_eq
validate wallet_id h = do
  guard
      ((h.version == head_version && not (length h.wallet_id == 0))
        && (not (ltb 128 (length h.wallet_id))
            && (not (h.seq == 0)
                && (not (bytes_eq h.state_hash zero_hash)
                    && not (bytes_eq h.operation_id zero_hash)))))
      head_field
  guard (length wallet_id == 0 || bytes_eq h.wallet_id wallet_id) head_wallet

unfoldable pub strict_encode : WalletHead → Result ByteString
unfolding validate Encoder.u32 Encoder.bytes Encoder.u64 Encoder.raw
strict_encode h = do
  validate [] h
  version ← Encoder.u32 h.version []
  wallet ← Encoder.bytes h.wallet_id 1 128 version
  seq ← Encoder.u64 h.seq wallet
  state ← Encoder.raw h.state_hash seq
  Encoder.raw h.operation_id state

unfoldable pub validate_successor : Option WalletHead → WalletHead → Result (Unit {0})
unfolding bytes_eq
validate_successor none h = guard (h.seq == 1) head_sequence
validate_successor (some previous) h = do
  guard (bytes_eq h.wallet_id previous.wallet_id) head_wallet
  guard (h.seq == ((previous.seq + 1) % 2 ^ 64)) head_sequence

-- The digest is crypto/sha256's.
module _ (sha256 : ByteString → ByteString) where
  unfoldable pub hash : WalletHead → Result ByteString
  unfolding strict_encode
  hash h = do encoded ← strict_encode h; ok (sha256 encoded)

  unfoldable pub check_conflict : WalletHead → WalletHead → Result (Unit {0})
  unfolding hash bytes_eq
  check_conflict candidate latest = do
    left ← hash candidate
    right ← hash latest
    guard (bytes_eq left right) head_conflict

  -- The latest after one more candidate, which has passed its validation.
  unfoldable pub later_of : WalletHead → Option WalletHead → Result WalletHead
  unfolding check_conflict
  later_of candidate none = ok candidate
  later_of candidate (some latest) =
      if ltb latest.seq candidate.seq
      then ok candidate
      else if candidate.seq == latest.seq
      then (check_conflict candidate latest >>= λ _. ok latest)
      else ok latest

  unfoldable pub select_from :
      ByteString → Option WalletHead → List WalletHead → Result (Option WalletHead)
  unfolding later_of validate
  select_from wallet_id latest [] = ok latest
  select_from wallet_id latest (candidate ∷ rest) = do
    validate wallet_id candidate
    next ← later_of candidate latest
    select_from wallet_id (some next) rest

  unfoldable pub select_latest : List WalletHead → ByteString → Result (Option WalletHead)
  unfolding select_from
  select_latest candidates wallet_id = select_from wallet_id none candidates
