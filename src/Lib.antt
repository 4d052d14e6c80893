-- ===== src/Lib.antt =====
-- A model of the RGB 0.11.1 engine: strict encoding, schema validation and the client-side
-- validation of a contract's history, with the theorems that make them correct.
--
-- The parts and how they interact. consignment/validator.go runs over a decoded container: it
-- commits the genesis, registers its outputs as live states, and goes through the bundles. For each
-- bundle it checks the anchor and the witness; for each transition of the bundle it checks the
-- inputs, has schemas/transition.go validate the operation against the schema, deletes the inputs
-- and registers the outputs. Then it finds the historical operations in the operation graph, and
-- projects the live states against the chain. schemas/validate.go and schemas/transition.go read
-- decoded strict values of strict_types/value.go and apply the rules of the standard schemas.
-- seals/graph.go encodes the seals with strict_encoding.
--
-- The files:
--   * Prelude: helpers; Prelude/Outcome has Go's (value, error) pairs, an error being the sentinel
--     that `errors.Is` finds; Prelude/Keyed has Go's maps, as association lists; Prelude/Bytes has
--     byte slices as lists of numbers and the little-endian codecs.
--   * StrictEncoding: strict_encoding/encoder.go and decoder.go. An encoder takes what was written
--     so far, a decoder gives what is left. RoundTrip and Canonical relate the two.
--   * StrictTypes: strict_types/value.go, a value with every field of Go's struct; in Numbers the
--     readers through wrappers of schemas/validate.go, in Compare the canonical order. ParsedType is
--     strict_types/parsed_type.go, Decode and Encode are strict_types/decode.go and encode.go, Text
--     and Unicode what they use of Go's strings. Canonical compares the decoder with the encoder
--     (Wrote, then a module for each group of types, Whole), and Keys is about the keys of maps;
--     Fuel gives the decoder more of it, and says how much is enough.
--   * Schemas: schemas/. Access, State and Owned are schemas/validate.go, Script has the rules of
--     the standard schemas, Outputs is schemas/outputs.go, Transition is schemas/transition.go,
--     Commit is schemas/commit.go.
--     Amounts, Disclosed and Resolved follow the sums, Supplies defines the supply of an operation,
--     ScriptRun and Rules say what the scripts make sure of, and Conservation and Issue have the
--     results on transitions and on the genesis.
--   * Seals: seals/graph.go, and seals/blind.go in Conceal.
--   * Consensus: consensus/. TaggedHash has the separation of messages that theorems on commitments
--     assume, Merkle the trees, Fuel their termination, Binding that a root binds its leaves.
--   * Anchors: anchors/. Mpc is anchors/mpc.go, with its checks in Checked and the uniqueness of a
--     message in OneMessage; Scripts is anchors/opret.go and close_method.go; Tapret and Partner are
--     anchors/tapret.go.
--   * Operations: operations/. Fields, Secrets, Commitments and Genesis commit to operations,
--     Truncation is about the output index of a seal, Sizes and Binding say what an identifier binds,
--     Disclose is operations/disclose.go, Bundle is `CommitBundle` of operations/bundle.go, and
--     InputValues and Disclosure say what it makes sure of. Opout is operations/opout.go.
--   * Formats: the transport of a consignment. Base85 is consignment/base85.go, Armor is
--     consignment/armor.go with the text of consignment/encode.go, over Text, which has what they
--     use of Go's strings, scanner and numbers; ConsignmentId is consignment/id.go, and LibraryId
--     compares it with strict_types/value.go; Container is consignment/container.go with the rest
--     of consignment/encode.go. Words, Numerals, Columns, ArmorLines, ArmorChecks, ArmorHeaders
--     and ArmorRoundTrip read an armor as it is written; ArmorParsed, ContainerChecks and
--     ContainerRead say what a container that is read has, ContainerFile, ContainerRewritten and
--     ContainerRoundTrip write it again.
--   * Storage: storage/memory.go, a step for each call; Refinement compares a transaction with
--     writing to the store itself.
--   * Sync: sync/head.go; Latest shows what the selection of a wallet head gives.
--   * Consignment: consignment/validator.go and consignment/bitcoin.go. Operation reads one
--     operation, Anchor the anchor of a bundle and its carrier, Transaction and Witnessed the
--     witness, Outpoints asks the chain, History is the loop, Ancestors the search in the operation
--     graph, Projection the end of the validation. Steps says what ran in a bundle and in a history.
--     Held, Live and Supply prove that no supply is created, Spendable, Inputs and Spending that no
--     state is spent twice, Worklist that the search ends, Reachable and Ancestry that it is right, Backing,
--     Shown and Projected what the projection shows. Carried and Trusted say what an anchor and a
--     witness rest on; Assembled puts the parts together as the code calls them, and
--     Received takes a file from its decoding to its validation.
--   * RejectList: rejectlist/rejectlist.go, the search, and in Text the format, of which Says and
--     Lines say what it means; Stack and Ancestor show that the search is right.
--   * Samples and Runs: a schema, a genesis, a transfer; tests, and the theorems applied.
--
-- How code becomes a definition. A function that may fail gives a Result; a loop over a slice is
-- structural recursion; a uint64 sum keeps its wrap-round (`% 2 ^ 64`). `Unwrap`, `number` and
-- `scalarUint` are structural recursion on the value. The search in the operation graph has fuel:
-- `fuel_for` counts one step for each operation, its parents and each pending entry, and
-- `walk-ends` shows that this is enough; `search_fuel` does the same for reject lists. Iteration
-- over a Go map takes the order of the association list; no theorem depends on the order. The
-- recursion over a Merkle tree has one more than the width as fuel, which `merklize-fuel` shows to
-- be enough. The decoder and the encoder of strict types follow references to types, which the
-- registry may chain; their fuel bounds the nesting, and when it is used up they give the error
-- `too_deep`, which the code does not have, and no result. `decode-ends` shows what fuel is enough, in
-- a registry whose types do not refer to themselves: their semantic ids are hashes.
--
-- Parameters. `Registry` has the libraries of strict_types/registry.go, which are read from JSON:
-- their types by name and by semantic id. `Services` has what schemas ask of the other packages and of btcec: the type
-- registry, the catalog lookup of a schema's id, the commitment of transitions, and the signature
-- check. `Identifiers` has the text forms of baid64/baid64.go: of contracts, schemas and
-- consignments. `Evidence` has what the loop asks: the commitments of genesis and bundles, the anchor
-- proof, `verifyDBC`, the carrier binding, the witness of a bundle (published, or embedded for a
-- prepared transfer) and the chain's outpoints; `assembled` fills it with the models of these parts.
-- Open in it are SHA-256, the curve of btcec, the transaction hash and the wire format of btcd, and
-- the chain. Theorems on commitments assume that digests have 32 bytes and that the hash separates
-- the messages that the code gave to it (`all_apart`): no collision among these, where a collision
-- somewhere else does no harm. The theorems on histories assume that the transitions which the
-- bundles disclose are canonical: the inputs and the assignment types of each are pairwise
-- different, as the decoder of strict sets and maps makes sure.
--
-- Not modelled: the registry and the type systems of strict_types, baid64, the
-- builder of transitions in operations, the report collector and the
-- reveal and merge of consignment, the display fields of schemas, invoicing, issuance, psbt, wallet, relay,
-- the client of reject lists, browser and the commands.
pub mod Prelude
pub mod StrictEncoding
pub mod StrictTypes
pub mod Schemas
pub mod Seals
pub mod Consensus
pub mod Anchors
pub mod Operations
pub mod Formats
pub mod Storage
pub mod Sync
pub mod Consignment
pub mod RejectList
pub mod Samples
pub mod Runs
