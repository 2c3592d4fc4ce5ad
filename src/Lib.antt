-- ===== src/Lib.antt =====
-- uomi-node: the pallets that assign AI requests to validators, keep files pinned and number the
-- validators for threshold signatures.
--
-- The parts of the program, and the files that model them:
--
-- * pallets/uomi-engine (Engine.antt, Engine/). Users leave requests in `Inputs`, validators leave
--   answers in `NodesOutputs`, and once in a block `opoc_run` in pallets/uomi-engine/src/opoc.rs
--   goes through the pending requests and collects operations, which `opoc_store_operations` then
--   writes to the storage. `Engine.Storage` has a field for each storage item that this code reads
--   or writes, `Engine.Operations` one for each of the six maps that the run fills, and
--   `Engine.Chain` holds what the run reads of other pallets: the lists of validators, the random
--   seeds and `get_cid_status` of pallet_ipfs.
--     - Engine/Selection: `opoc_assignment_get_random_validators`; Engine/Selection/Probe: the
--       search for an unused index; Engine/Selection/Loop: the loop over the bytes;
--       Engine/Selection/Choice: the choice as a whole.
--     - Engine/Works: the small functions `opoc_..._operations_add` and their like, and
--       `opoc_complete`.
--     - Engine/Assignment, Engine/Deassignment: `opoc_assignment`, `opoc_deassignment_per_...`;
--       Engine/Assignment/Overflow: when an expiration does not fit 256 bits; Engine/Assignment/Effect
--       and Given: what an assignment gives.
--     - Engine/Outputs: `opoc_get_outputs`.
--     - Engine/Run: `opoc_run`, with the branch for a request that has one assignment in
--       Engine/Run/Level0, for one that has as many as its required consensus in Engine/Run/Level1,
--       and for one that has more in Engine/Run/Level2.
--     - Engine/Run/Kept: what the changes of a run keep of its
--       operations, with its branches in Engine/Run/Kept/Levels; Engine/Run/Keys: their keys;
--       Engine/Run/Within: the requests they are about.
--     - Engine/Calls: the calls with which validators leave answers, versions and proofs.
--     - Engine/FinneyV1: the choice and the assignment as the first blocks of the finney chain made
--       them; Engine/FinneyV1/Termination: the loop of that choice.
--     - Engine/Models: pallets/uomi-engine/src/aimodelscalc.rs, with its table of names in
--       Engine/Models/Names; Engine/Models/Election: the version it elects; Engine/Models/Update: the
--       models after a run.
--     - Engine/Requests: `run_request`, over the states of the pallet behind `IpfsInterface`;
--       Engine/Requests/Pallet: pallet_ipfs as that interface (runtime/finney/src/lib.rs);
--       Engine/Requests/Old, Accepted, Whole and Effect: what an accepted request leaves.
--     - Engine/Inherent: `create_inherent`, `check_inherent` and `set_inherent_data` of the engine;
--       Engine/Inherent/Block: a whole block.
--     - Engine/Steps: the storage from step to step, where a step is a call, the inherent that its
--       author creates from the same storage, or the end of a block. The pallet accepts an inherent with
--       any other operations too, which is no step of this model: what holds in every storage that is
--       reached holds under honest authors. Engine/Steps/Frame: the calls that leave the requests alone;
--       Engine/Steps/Pending: the requests in every storage that is reached.
--     - Engine/Worker: pallets/uomi-engine/src/offchain.rs up to the execution of an agent;
--       Engine/Worker/Next: the request that is next; Engine/Worker/Answer: what a run sends.
--     - Engine/Store: `opoc_store_operations`; Engine/Store/Overlay, Frame and WorksOverlay: what
--       each of its loops writes and leaves; Engine/Store/Effect: the whole.
--     - Engine/Tests: the theorems at small storages.
-- * pallets/ipfs/src/lib.rs (Ipfs.antt, Ipfs/). `pin_agent` and `pin_file` ask for CIDs to be kept,
--   the off-chain worker of each validator pins them and reports (`submit_processed_pins`), and the
--   inherent of a block makes a CID usable when a majority has pinned it and forgets it when it has
--   expired. Ipfs.antt: the storage and the signed calls; Ipfs/Pins: what they do; Ipfs/Inherent:
--   `ipfs_operations`, `create_inherent`, `check_inherent`, `set_inherent_data`, `on_finalize`;
--   Ipfs/Node: `process_pins` and its helpers; Ipfs/Files: `get_file`.
-- * pallets/tss/src/lib.rs (Tss.antt, Tss/). Tss.antt: the storage and the calls that open sessions;
--   Tss/Sessions: the numbering of sessions; Tss/Numbers: `assign_validator_id`,
--   `update_validators`, `initialize_validator_ids`, `on_initialize`; Tss/Offchain:
--   `offchain_worker`.
-- * client/tss/src/lib.rs (Client.antt, Client/). The session manager of a node, which generates keys
--   with the other validators. Client.antt: its state, `Manager`, and the library of threshold
--   signatures, `Frost`; Client/Peers: `PeerMapper`; Client/Sessions: `add_session_data` and its like,
--   and `cleanup_expired_sessions`, with what that removes in Client/Sessions/Cleanup; Client/Dkg: round
--   2 and its buffer; Client/Dkg/Rounds: round 1 and the messages of the gossip; Client/Dkg/Handled,
--   Endless and Early: when a node goes round in its buffer. Client/Signing: the states and the storage
--   of a signing session; Client/Signing/Created: its start; Client/Signing/Commitments: round 1 at the
--   coordinator, as a whole in Client/Signing/Commitments/Round; Client/Signing/Package: the signing
--   package, with the nonces that it is signed with in Client/Signing/Package/Reuse;
--   Client/Signing/Shares: the shares, with what a signature is made of in Client/Signing/Shares/Sound;
--   Client/Runtime: what the events of pallet_tss become for the manager, by way of Tss/Api
--   (runtime/uomi/src/lib.rs), and in Client/Runtime/Started whether it starts them;
--   Client/Signing/Messages: the messages of the gossip. The library that signs is `FrostSigning`.
-- * Prelude.antt, Prelude/: lists over the native numbers, keys with a decidable equality and an
--   order, association lists for storage maps and `BTreeMap`s, and `Outcome`, the result of a call:
--   a value, a `DispatchError` or a panic.
--
-- How the code is translated. A storage map is an association list: `put` is `StorageMap::insert`,
-- `insert` is `BTreeMap::insert`, which keeps the keys in order, and `or_default` is the read of a
-- `ValueQuery`. An iteration over storage goes in the order of the list, whatever that order is. An
-- account is its 32 bytes read as a number. Counters of 32 and 64 bits wrap (`% 2 ^ 32`), as in a
-- release build; sums and products of `U256` panic on overflow, as that type does; `as u32` cuts. The value of a
-- call that fails is the error alone, since a failed call leaves the storage as it was. Log lines
-- are left out. All loops are structural recursion but those of the random choice and of the buffer of
-- client/tss: the search for an unused index tries each index once, so that its fuel is the number of
-- validators, the loop over the amount runs as often as asked for, and the fuel of
-- `dkg_verify_and_complete` bounds its calls of itself; 1 is enough where it
-- ends.
--
-- Not modelled: the HTTP client and the gateway of IPFS, which are parameters; the execution of
-- agents in pallets/uomi-engine/src/offchain.rs, a parameter, and the functions it lends to them; the
-- verification of threshold signatures in pallets/tss, which nothing calls; the ECDSA
-- protocol of client/tss, and the cryptography below it and below the two rounds, which is a parameter; the
-- pallets, precompiles, clients and tracing that are copies of other projects; runtimes, node and
-- chain extensions, which are bindings and configuration around the pallets.
pub mod Prelude
pub mod Engine
pub mod Tss
pub mod Ipfs
pub mod Client
