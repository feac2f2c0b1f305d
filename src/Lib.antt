-- ===== src/Lib.antt =====
-- Verification of the Kura metadata store: its executable specification of Raft's Figure 2, its
-- in-memory store of keys, watches and leases, and its durable storage.
--
-- The program's parts and the files that model them.
--   Figure2: src/figure2_spec.cpp and include/kura/metadata/raft/figure2_spec.hpp, the Raft core as
--     one pure function `step` from a state and an event to a new state, the rules that fired and
--     the effects to carry out. Its state is the record `State` of Figure2/Types. A child for each
--     part of the file: Catalog (the table of rules), Log (`term_at`, `last_index`, majorities),
--     Validate (`validate`), Outcome (effects, `persist_hard_state`, `gate_on_hard_state`,
--     `observe_higher_term`), Leader, Vote and Append (the handlers), Step (`dispatch`, `step`).
--     Each handler takes the `StepResult` that the source passes by reference and returns it.
--     Raft has the messages and log entries of include/kura/metadata/raft.
--   Store: src/in_memory_metadata_store.cpp. Its state is the record `InMemoryMetadataStore` of
--     Store/Types. Children: Watch (publication and the watch methods), Keys (single-key methods),
--     Lease, Transaction, Snapshot (`snapshot` and the constructors). A method is a function from the
--     store and the request to a `Result` of the new store and the answer.
--   Bytes: src/byte_sequence.cpp and src/key_range.cpp, byte strings and `prefix_range_end`.
--   Storage: src/durable_storage.cpp and src/raft_hard_state_store.cpp, on lists of bytes. Codec has
--     `append_le`, `read_le` and the checksum, Names the file names. HardState has the record of
--     term and vote, HardState/Persist `FileRaftHardStateStore` as it is built for POSIX, over the
--     system calls of HardState/Files. Wal has the write-ahead log: Format
--     (segment headers and records), Scan (the loop over a segment), Recover (`segment_paths`,
--     `recover_locked`), Append (`append` and the creation of segments). Snapshots has the snapshot
--     files, Snapshots/Latest `FileSnapshotStore`.
--   OrderedMap: `std::map` and `std::set`, as associations in the order of an iteration.
--   Prelude: tests, lists, `std::int64_t` as the integer ℤ, `std::uint64_t` as ℕ, status codes, and
--     exceptions as values.
-- Whoever runs the core gives it events and carries out its effects, among them the writes of the
-- hard state, which `FileRaftHardStateStore` makes durable. The core, the store and the storage do
-- not call each other; all stand on Prelude, the core and the store on OrderedMap too.
--
-- Proofs about the core stand in Figure2/Advances (what no step takes back), Figure2/Gate (writes
-- before messages), Figure2/Commit and Figure2/Votes, about the store in Store/Writes, Store/Revokes
-- and Store/Fencing, about byte strings in Bytes/Prefix, about the hard state in Storage/HardState,
-- about the write-ahead log in the other files of Storage/Wal, about snapshots in
-- Storage/Snapshots. Examples applies them at concrete inputs.
--
-- Conventions. An addition or subtraction on `std::uint64_t` that may wrap is `add_u64` or `sub_u64`,
-- modulo 2 ^ 64; one that the code guards or bounds is plain. The counters of type `std::int64_t`
-- are increased only below their maximum, which the code tests.
-- A loop is structural, but for the one over the records of a segment, whose fuel is the number of
-- its bytes: each round takes 40 of them at least. A sort is an insertion sort. In the core and the
-- store a throw leaves the caller's object as it was, since the source writes to it only after its
-- last throw; what C++ leaves undefined is the exception `undefined_behaviour`. Each method of a
-- store holds its mutex from end to end and is one step; failures of allocation are not modelled.
-- The system calls of the hard-state store are a parameter, a file system with its documented laws; it
-- tells what a program reads from what a restart may find after a power failure. Those of an append
-- are one too: which call throws, and how many bytes a write gets to the file; there a crash is a
-- call that throws, and what was written is taken to stay. In the recovery of a log and in the snapshot store, reading, writing
-- and cutting off a file are taken to work, and a directory is the list of its regular files.
-- A message of a storage error stands without the path that some end with.
--
-- Not modelled: the production Raft core (src/raft_election.cpp), the simulator
-- (src/raft_simulation.cpp), the linearizability checker (src/linearizability.cpp) and the client
-- (src/kura_client.cpp), parts of their own on which nothing modelled here depends; of the storage,
-- `truncate_through` and the members that a recovery sets besides its result, the code for Windows,
-- and of `DurableFile`, the renaming and the synchronisation of directories all but what the
-- hard-state store's write does with them.
pub mod Prelude
pub mod OrderedMap
pub mod Bytes
pub mod Raft
pub mod Store
pub mod Storage
pub mod Figure2
pub mod Examples
