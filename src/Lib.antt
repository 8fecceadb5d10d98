-- ===== src/Lib.antt =====
-- A model of the core of Linera: how validators agree on the next block of a chain, and how chains
-- exchange messages. Blocks are proposed by a chain's owners; validators vote to validate a proposal
-- and then to confirm it; votes of a quorum make a certificate; and a confirmed block's messages go
-- through the sender's outbox and the receiver's inbox.
--
-- The parts, and the files that model them:
--
-- Base (linera-base/src)
--   Base/Arithmetic: `ArithmeticError` and the operations of `impl_wrapped_number` (data_types.rs). A
--     wrapped number is a natural number with its largest value as an argument. Base/Arithmetic/Laws
--     has their laws.
--   Base/Amount, Base/Timestamp: the conversions of `Amount` and the arithmetic of `Timestamp`. The
--     laws of halves and sums are in Base/Amount/Laws.
--   Base/Identifiers: the types of identifiers.rs; hashes, keys and signatures are numbers.
--   Base/Maps: the maps and sets of the code, as entries in the order of their keys. Maps/Laws has what
--     a key reads after each operation, Maps/Unique the sums over a map, Maps/Ascending its order.
-- Execution (linera-execution/src)
--   Execution/Committee: committee.rs; Committee/Quorum has the thresholds and what sets of validators
--     weigh, Committee/Format the two serialized forms.
--   Execution/Messages: the operations and messages of system.rs, lib.rs and applications.rs as data.
--   Execution/Ownership: ownership.rs. Execution/Policy: the prices of policy.rs.
--   Execution/Errors: `SystemExecutionError`, and `Failure`, which adds a panic.
--   Execution/Registry: the applications of applications.rs. Registry/Search is about the end of
--     `find_dependencies`, Registry/Stack and Registry/Order about the order that it finds,
--     Registry/Complete about all requirements being found, Registry/Closed and
--     Registry/Registration about registries that know all requirements.
--   Execution/System: `SystemExecutionStateView` of system.rs with the contexts and results of lib.rs.
--     System/Operations is `execute_operation`, with a function for each operation, and
--     System/Incoming `execute_message`, `open_chain`, and of linera-chain/src/chain.rs what
--     `execute_immediate_message` does with it. Transfers and Delivery are about transfers on
--     one and between two chains, Tokens and History about all tokens and epochs of a run, Authority
--     about who can spend, Epochs about committees, Opening about new chains, and Subscriptions.
-- Chain (linera-chain/src)
--   Chain/DataTypes, Chain/Crypto, Chain/Errors: the data and accessors of data_types.rs and lib.rs. The
--     hash and the signatures of a value are computed by the argument `Crypto`, which stands for the
--     packages that linera-base/src/crypto.rs calls.
--   Chain/MessageIds: `ExecutedBlock::message_id_for_operation`.
--   Chain/Certificates: the operations of data_types.rs on votes and certificates. Check is about
--     `check_signatures`, Aggregation about `SignatureAggregator`, Order about the order of signatures,
--     Lite about `LiteVote` and `LiteCertificate`.
--   Chain/Inbox: inbox.rs. Steps inverts the two operations, Invariant has the invariant, Reconcile the
--     history of received and executed events, Commute the order of operations.
--   Chain/Outbox: outbox.rs, with the history of scheduled heights in Outbox/Delivery.
--   Chain/State: of chain.rs the tip, the outboxes with the counters of messages in flight, and the
--     channels. State/Results is `process_raw_execution_result`; Counters, Scheduling, Delivered and
--     Processing are about the counters, Recipients, Sending and Dispatch about whom it schedules for.
--   Chain/Manager: manager/mod.rs (Kinds), manager/single.rs (Single), manager/multi.rs (Multi
--     and its children) and what clients are told (Info). Multi is the state with
--     `check_proposed_block`, Multi/Votes the other operations, Multi/Leaders and Multi/Turns
--     the round leaders. Multi/Steps has the steps of a validator: each is a check that accepts
--     and then the vote, as linera-core/src/worker.rs calls them. Multi/Effects says what each
--     operation changes, Multi/Rounds is about rounds, Multi/History has
--     the votes for blocks that are shown, Multi/Casting and
--     Multi/Ballots all votes that are cast, Multi/Locking,
--     Multi/Proposing, Multi/Confirming and Multi/Safety about what is locked, and Multi/Repeats
--     about repeated proposals. The random choice of a round leader is the argument `Sampling`.
--   Chain/Consensus: several validators with one committee.
-- Views (linera-views/src)
--   Views/Queue: queue_view.rs but for `read_back` and `delete`, with the operations of batch.rs and
--     what `MemoryContext::write_batch` (memory.rs) does with them. A store is what stands under the
--     view's keys. Queue/Batches is about written batches, Queue/Refinement about the two lists that a
--     view stands for and about `flush`, Queue/Reads about reads, Queue/Steps about each call,
--     Queue/Runs about all calls, and Queue/Digests about the digest that a view keeps.
-- Examples: concrete data and runs.
--
-- How code becomes definitions: a struct is a record, an enum a data type, and a method that changes
-- its object is a function to the new object, with the result beside it where it can fail after a
-- change. `Result` and `?` are the type `Result` with do blocks, `ensure!` is `ensure`; a `panic!` is a
-- value. Machine integers are natural numbers; where the code adds without a check, the wrap-around is
-- written out (`% 2 ^ 64`), and checked operations compare with the largest value. A `BTreeMap` is the
-- list of its entries by increasing key. Loops are recursion on lists, but for `find_dependencies`, whose
-- loop over a stack has fuel: the length of the stack, and for each description in the registry one
-- more than its number of requirements, since each is put on the stack once. Registry/Search shows
-- that this is enough. The induction over rounds in Chain/Consensus is over a bound above the round.
--
-- Limits: a manager is that of one height, from `new` on. Two assumptions stand in Chain/Consensus, in
-- the record `Network`: the validators that do not run the code hold less than the validity threshold,
-- and a certificate that is seen carries an honest validator's signature only if that validator cast
-- the vote. What the system state takes from hashing and from BCS (the owner of a key, the id of a
-- child, the names of channels, the order of the keys of a view) is the argument `Encoding`; the order
-- in which a hash set is visited is an argument too. The state that a failed call leaves is dropped,
-- as its callers roll back, except for the inbox, the outbox and the managers, where it is modelled.
-- Storage failures (`ViewError`) are not modelled, but for the lock that is taken twice in
-- State/Results and the missing entries of Views/Queue; nor are printing, serialization other than that of committees and certificates, and
-- the timing of messages. Of chain.rs, the execution of a block with its fees and the receipt of
-- messages are not modelled; user applications run in other packages' engines. In
-- Views/Queue indices and counts are natural numbers without a largest one, as 2 ^ 64 values would
-- have to be pushed; values stand for their serialized bytes, a hash is a number that an argument
-- computes, and `change` maps the values that `iter_mut` gives. The other views, the workers, the
-- clients, the storage and the services are not modelled.
pub mod Prelude
pub mod Base
pub mod Execution
pub mod Chain
pub mod Views
pub mod Examples
