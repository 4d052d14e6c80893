-- ===== src/Storage.antt =====
-- storage/memory.go: the store with transactions. The locks are left out: each call is one step.
pub mod Refinement
use rgb.Prelude.{
  Bool, true, false, not, ◌&&◌, Option, none, some, List, [], ◌∷◌, ◌==◌, length, if◌then◌else◌,
  Result, ok, err, not_found, tx_invalid, tx_closed, ◌>>=◌, ◌>>◌, guard, of_option,
}
use rgb.Prelude.Bytes.{ByteString}
use rgb.Prelude.Keyed.{Map, lookup, insert, remove, bytes_eq_instance}

abbrev pub Data : Type 0
Data = Map ByteString ByteString

-- What a transaction has written: a nil pointer is a deletion.
abbrev pub Writes : Type 0
Writes = Map ByteString (Option ByteString)

pub record MemoryTx : Type 0 where
  pub writes : Writes
  pub done : Bool

unfoldable pub get : ByteString → Data → Result ByteString
unfolding lookup
get key data' = of_option not_found (lookup key data')

unfoldable pub begin : MemoryTx
begin = record { writes = []; done = false }

unfoldable pub put : ByteString → ByteString → MemoryTx → Result MemoryTx
unfolding insert
put key value tx = do
  guard (not tx.done && not (length key == 0)) tx_invalid
  ok (record tx { writes = insert key (some value) tx.writes })

unfoldable pub delete : ByteString → MemoryTx → Result MemoryTx
unfolding insert
delete key tx = do
  guard (not tx.done && not (length key == 0)) tx_invalid
  ok (record tx { writes = insert key none tx.writes })

unfoldable pub apply_write : ByteString → Option ByteString → Data → Data
unfolding insert remove
apply_write key none data' = remove key data'
apply_write key (some value) data' = insert key value data'

-- Each key is written once, so the order does not matter; the last entry is applied first.
unfoldable pub apply_writes : Writes → Data → Data
unfolding apply_write
apply_writes [] data' = data'
apply_writes ((key, value) ∷ rest) data' = apply_write key value (apply_writes rest data')

unfoldable pub commit : MemoryTx → Data → Result (MemoryTx × Data)
unfolding apply_writes
commit tx data' = do
  guard (not tx.done) tx_closed
  ok (record tx { done = true }, apply_writes tx.writes data')

unfoldable pub rollback : MemoryTx → MemoryTx
rollback tx = if tx.done then tx else record { writes = []; done = true }
