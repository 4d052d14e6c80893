-- ===== src/Runs/Stores.antt =====
-- The store, the wallet heads, the bundle commitment and the reject list at concrete inputs.
use rgb.Prelude.{
  Option, ℕ, ◌≤◌, ◌≡◌, ◌⊎◌, refl, true, false, none, some, List, [], ◌∷◌, Result, ok, err, length,
  All, replicate, not_found, tx_invalid, tx_closed, head_conflict, head_wallet,
  transition_id_mismatch,
}
use rgb.Prelude.Bytes.{ByteString, bytes_eq}
use rgb.Prelude.Keyed.{lookup, insert, remove, bytes_eq_instance}
use rgb.StrictTypes.Value.{Value, field, unwrap, attributes, entries_of}
use rgb.Storage.{Data, MemoryTx, get, begin, put, delete, commit}
use rgb.Storage.Refinement.{Operation, write, erase, run, directly, commit-refines}
use rgb.Sync.{WalletHead, select_latest}
use rgb.Sync.Latest.{IsLatest, select_latest-IsLatest}
use rgb.Operations.Bundle.{BundleCommitment, commit_bundle}
use rgb.Operations.InputValues.{IsValues}
use rgb.Operations.Disclosure.{Discloses, DistinctIds, commit_bundle-Discloses}
use rgb.Consignment.Types.{input_ref_eq}
use rgb.RejectList.{Opout, RejectList, Dag, search_stack, search_fuel, rejected_ancestor}
use rgb.RejectList.Ancestor.{Verdict, rejected_ancestor-Verdict}
use rgb.Samples.{transition, transition_id, genesis_id, blob, list_of, map_of, struct_of, opout}

abbrev script : List Operation
script = write (1 ∷ []) (10 ∷ []) ∷ erase (2 ∷ []) ∷ write (1 ∷ []) (11 ∷ []) ∷ []

abbrev stored : Data
stored = (2 ∷ [], 20 ∷ []) ∷ (3 ∷ [], 30 ∷ []) ∷ []

abbrev filled : MemoryTx
filled = record { writes = (1 ∷ [], some (11 ∷ [])) ∷ (2 ∷ [], none) ∷ []; done = false }

abbrev closed : MemoryTx
closed = record filled { done = true }

abbrev changed : Data
changed = (1 ∷ [], 11 ∷ []) ∷ (3 ∷ [], 30 ∷ []) ∷ []

script_runs : run script begin ≡ ok filled
unfolding begin put delete insert bytes_eq run remove
script_runs = refl

filled_commits : commit filled stored ≡ ok (closed, changed)
unfolding commit bytes_eq
filled_commits = refl

put_closed : put (1 ∷ []) [] closed ≡ err tx_invalid
unfolding put
put_closed = refl

commit_closed : commit closed stored ≡ err tx_closed
unfolding commit
commit_closed = refl

get_erased : get (2 ∷ []) changed ≡ err not_found
unfolding get bytes_eq
get_erased = refl

commit-refines_example :
    (closed.done ≡ true)
    × ((key : ByteString) → lookup key changed ≡ lookup key (directly script stored))
commit-refines_example =
    commit-refines script filled closed stored changed script_runs filled_commits

abbrev head : ℕ → ℕ → WalletHead
head seq state = record {
  version = 1;
  wallet_id = 7 ∷ [];
  seq = seq;
  state_hash = replicate 32 state;
  operation_id = replicate 32 5;
}

-- A stand-in for the digest, under which different payloads stay different.
abbrev digest : ByteString → ByteString
digest payload = payload

abbrev heads : List WalletHead
heads = head 1 1 ∷ head 3 3 ∷ head 2 2 ∷ head 3 3 ∷ []

heads_latest : select_latest digest heads (7 ∷ []) ≡ ok (some (head 3 3))
unfolding select_latest
heads_latest = refl

heads_conflict : select_latest digest (head 3 3 ∷ head 3 4 ∷ []) (7 ∷ []) ≡ err head_conflict
unfolding select_latest
heads_conflict = refl

heads_foreign : select_latest digest heads (8 ∷ []) ≡ err head_wallet
unfolding select_latest
heads_foreign = refl

select_latest-IsLatest_example :
    ((some (head 3 3) ≡ none) × (heads ≡ []))
    ⊎ ((latest : WalletHead) × (some (head 3 3) ≡ some latest)
        × IsLatest digest (7 ∷ []) heads latest)
select_latest-IsLatest_example =
    select_latest-IsLatest digest heads (7 ∷ []) (some (head 3 3)) heads_latest

abbrev commits : Value → Result ByteString
commits _ = ok transition_id

abbrev bundle_of : ByteString → Value
bundle_of declared = struct_of (
    ("inputMap", map_of ((opout 0, blob transition_id) ∷ (opout 1, blob transition_id) ∷ []))
    ∷ (
      "knownTransitions",
      list_of (struct_of (("opid", blob declared) ∷ ("transition", transition) ∷ []) ∷ []),
    )
    ∷ [])

abbrev committed : BundleCommitment
committed = record {
  bundle_id = [];
  input_operations = transition_id ∷ [];
  transitions = transition ∷ [];
}

bundle_commits : commit_bundle commits digest (bundle_of transition_id) ≡ ok committed
unfolding commit_bundle
bundle_commits = refl

bundle_mismatch : commit_bundle commits digest (bundle_of genesis_id) ≡ err transition_id_mismatch
unfolding commit_bundle
bundle_mismatch = refl

commit_bundle-Discloses_example :
    All (Discloses commits committed.input_operations) committed.transitions
    × (1 ≤ length committed.transitions)
    × DistinctIds committed.input_operations
    × (input_map : Value) × (field "inputMap" (unwrap (bundle_of transition_id)) ≡ some input_map)
    × IsValues (entries_of input_map) committed.input_operations
    × (committed.bundle_id ≡ digest (attributes input_map).encoded)
commit_bundle-Discloses_example =
    commit_bundle-Discloses commits digest (bundle_of transition_id) committed bundle_commits

abbrev out : ℕ → Opout
out n = record { operation_id = n ∷ []; assignment_type = 4000; index = 0 }

-- 4 has the parents 2 and 3; both have the parent 1.
abbrev dag : Dag
dag = (out 4, out 2 ∷ out 3 ∷ []) ∷ (out 3, out 1 ∷ []) ∷ (out 2, out 1 ∷ []) ∷ (out 1, []) ∷ []

-- 1 is rejected, and 3 is allowed.
abbrev policy : RejectList
policy = record { reject = out 1 ∷ []; allow = out 3 ∷ [] }

ancestor_found : rejected_ancestor policy (out 4) dag ≡ some (out 1)
unfolding rejected_ancestor bytes_eq
ancestor_found = refl

ancestor_shielded : rejected_ancestor policy (out 3) dag ≡ none
unfolding rejected_ancestor bytes_eq
ancestor_shielded = refl

rejected_ancestor-Verdict_example :
    (r : Option Opout) × (search_stack (search_fuel dag) policy dag (out 4 ∷ []) [] ≡ some r)
    × (rejected_ancestor policy (out 4) dag ≡ r)
    × Verdict policy dag (out 4) r
rejected_ancestor-Verdict_example = rejected_ancestor-Verdict policy (out 4) dag
