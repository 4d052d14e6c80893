-- ===== src/Storage/Refinement.antt =====
-- A committed transaction is the same as its operations on the store itself.
use rgb.Prelude.{
  ◌≡◌, refl, true, not, ◌&&◌, Option, none, some, List, [], ◌∷◌, ◌==◌, length, Result, ok, ◌>>=◌,
  after_ok, after_guard, arith, ◌∙◌,
}
use rgb.Prelude.Bytes.{ByteString}
use rgb.Prelude.Keyed.{lookup, insert, remove, bytes_eq_instance, lookup-insert, lookup-remove}
use rgb.Storage.{Data, Writes, MemoryTx, begin, put, delete, apply_writes, commit}

pub data Operation : Type 0 where
  write : ByteString → ByteString → Operation
  erase : ByteString → Operation

-- The operations in order, in a transaction.
unfoldable pub run : List Operation → MemoryTx → Result MemoryTx
run [] tx = ok tx
run (write key value ∷ rest) tx = do tx' ← put key value tx; run rest tx'
run (erase key ∷ rest) tx = do tx' ← delete key tx; run rest tx'

-- The operations in order, on the store itself.
unfoldable pub directly : List Operation → Data → Data
directly [] data' = data'
directly (write key value ∷ rest) data' = directly rest (insert key value data')
directly (erase key ∷ rest) data' = directly rest (remove key data')

-- Two stores that answer every lookup alike.
abbrev Alike : Data → Data → Type 0
Alike a b = (key : ByteString) → lookup key a ≡ lookup key b

Alike-write :
    (key value : ByteString) (a b : Data)
    → Alike a b
    → Alike (insert key value a) (insert key value b)
Alike-write key value a b h k =
    ground (arith, h k, lookup-insert key k value a, lookup-insert key k value b)

Alike-erase : (key : ByteString) (a b : Data) → Alike a b → Alike (remove key a) (remove key b)
Alike-erase key a b h k = ground (arith, h k, lookup-remove key k a, lookup-remove key k b)

Alike-directly :
    (ops : List Operation) (a b : Data) → Alike a b → Alike (directly ops a) (directly ops b)
unfolding directly
Alike-directly [] a b h = h
Alike-directly (write key value ∷ rest) a b h =
    Alike-directly rest (insert key value a) (insert key value b) (Alike-write key value a b h)
Alike-directly (erase key ∷ rest) a b h =
    Alike-directly rest (remove key a) (remove key b) (Alike-erase key a b h)

abbrev effect : Option (Option ByteString) → Option ByteString → Option ByteString
effect none old = old
effect (some written) old = written

-- What a lookup finds after the writes are applied.
lookup-apply_writes :
    (key : ByteString) (writes : Writes) (data' : Data)
    → lookup key (apply_writes writes data') ≡ effect (lookup key writes) (lookup key data')
unfolding apply_writes lookup
lookup-apply_writes key [] data' = refl
lookup-apply_writes key ((k, none) ∷ rest) data' =
    ground
      (arith, lookup-remove k key (apply_writes rest data'), lookup-apply_writes key rest data')
lookup-apply_writes key ((k, some value) ∷ rest) data' =
    ground (
      arith,
      lookup-insert k key value (apply_writes rest data'),
      lookup-apply_writes key rest data',
    )

apply-write :
    (key : ByteString) (value : ByteString) (writes : Writes) (data' : Data)
    → Alike
        (apply_writes (insert key (some value) writes) data')
        (insert key value (apply_writes writes data'))
apply-write key value writes data' k = ground (
  arith,
  lookup-apply_writes k (insert key (some value) writes) data',
  lookup-apply_writes k writes data',
  lookup-insert key k (some value) writes,
  lookup-insert key k value (apply_writes writes data'),
)

apply-erase :
    (key : ByteString) (writes : Writes) (data' : Data)
    → Alike (apply_writes (insert key none writes) data') (remove key (apply_writes writes data'))
apply-erase key writes data' k = ground (
  arith,
  lookup-apply_writes k (insert key none writes) data',
  lookup-apply_writes k writes data',
  lookup-insert key k none writes,
  lookup-remove key k (apply_writes writes data'),
)

run-directly :
    (ops : List Operation) (tx tx' : MemoryTx) (data' : Data)
    → run ops tx ≡ ok tx'
    → (key : ByteString)
    → lookup key (apply_writes tx'.writes data')
      ≡ lookup key (directly ops (apply_writes tx.writes data'))
unfolding run directly put delete
run-directly [] tx tx' data' h key = let same : tx' ≡ tx = cc in rw same refl
run-directly (write k value ∷ rest) tx tx' data' h key =
    after_ok (put k value tx) _ h λ next first h1.
      after_guard (not tx.done && not (length k == 0)) _ _ first λ _ done.
        let writes : next.writes ≡ insert k (some value) tx.writes = cc in
        let later = run-directly rest next tx' data' h1 key in
        let start =
          Alike-directly rest (apply_writes (insert k (some value) tx.writes) data')
            (insert k value (apply_writes tx.writes data')) (apply-write k value tx.writes data')
            key in
        rw writes at later ∙ start
run-directly (erase k ∷ rest) tx tx' data' h key = after_ok (delete k tx) _ h λ next first h1.
    after_guard (not tx.done && not (length k == 0)) _ _ first λ _ done.
      let writes : next.writes ≡ insert k none tx.writes = cc in
      let later = run-directly rest next tx' data' h1 key in
      let start =
        Alike-directly rest (apply_writes (insert k none tx.writes) data')
          (remove k (apply_writes tx.writes data')) (apply-erase k tx.writes data') key in
      rw writes at later ∙ start

-- A transaction whose operations and whose commit succeed leaves the store as if each operation had
-- been done on the store itself, in order: every lookup gives the same. Afterwards the transaction
-- is closed.
pub commit-refines :
    (ops : List Operation) (tx closed : MemoryTx) (before after : Data)
    → run ops begin ≡ ok tx
    → commit tx before ≡ ok (closed, after)
    → (closed.done ≡ true)
      × ((key : ByteString) → lookup key after ≡ lookup key (directly ops before))
unfolding commit begin apply_writes
commit-refines ops tx closed before after ran h = after_guard (not tx.done) _ _ h λ _ done.
    let stored : after ≡ apply_writes tx.writes before = cc in
    (cc, λ key. rw stored (run-directly ops begin tx before ran key))
