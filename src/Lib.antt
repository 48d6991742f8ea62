-- ===== src/Lib.antt =====
-- Verification library of the node: the chain of blocks, the fragment pool, the fragment logs, the
-- choice of a block's contents, and the transactions under construction of the command line.
--
-- A node receives fragments (transactions and certificates) from its peers and its clients. The
-- fragment task filters them, puts them into the pool and registers them in the logs; a leader
-- takes a block's contents from the pool, oldest first; when a block comes its fragments leave the
-- pool and their logs are updated; when the branch changes the logs are pruned; at a new date the
-- expired fragments go. A block that comes in is checked against its parent, applied to the ledger,
-- stored and cached, and it may become the tip; a stream of headers from a peer becomes a batch of
-- blocks to ask for. The command line builds the transactions that come in.
--
-- Parts and files:
--   Deque          IndexedDeqeue of jormungandr/src/fragment/pool.rs: nodes with raw pointers owned
--                  by a hash map. A pointer is the key of its node. Deque/Links has the chains of
--                  pointers, Deque/Refinement the list that a queue stands for.
--   Mempool        the module internal of the same file: the queue, the expiry queue (a BTreeSet, a
--                  sorted list here: Mempool/Timeouts), the byte count and the limit.
--                  Mempool/Invariant says which list a pool holds; Admission, Removal, Expiry
--                  and Expired are insert_all, the removals and remove_expired_txs over that list.
--   FragmentLog    jormungandr-lib/src/interfaces/fragment_log.rs.
--   Logs           jormungandr/src/fragment/logs.rs: an LRU cache of logs. Logs/Entries has lemmas
--                  on its iterator, Invariant its well-formedness, Updates what modify does, Lookup
--                  what logs_by_ids finds, and Pruning what remove_logs_after_date does.
--   Selection      jormungandr/src/fragment/selection.rs: try_apply_fragment and select.
--                  Selection/Contents is what a selection promises, Deadlines the race.
--   Summary        jormungandr-lib/src/interfaces/fragments_processing_summary.rs.
--   Intake         the outer Pool of jormungandr/src/fragment/pool.rs: the batch, a block, a branch
--                  switch, a new date, the choice of a block, over a pool and logs (Intake/Answers,
--                  Intake/Accounting, Intake/Upkeep, Intake/Choice).
--   Staging        jcli/src/jcli_lib/transaction/staging.rs: a state machine of four kinds, with
--                  its errors as values. Staging/Types are the types around it; Invariant, Frozen,
--                  Errors and Message are what its commands keep, what is fixed after the balance,
--                  what a refusal leaves, and when a fragment comes out.
--   Leadership     jormungandr/src/leadership/logs.rs and
--                  jormungandr-lib/src/interfaces/leadership_log.rs: the logs of the leader events.
--   Quarantine     jormungandr/src/topology/quarantine.rs: the reports against other nodes, which
--                  are lifted after a time.
--   Blockchain     jormungandr/src/blockchain. Blockchain/Types are the parameters: the consensus and
--                  the block store; Storage is storage.rs (Storage/Safety: its operations do not
--                  panic), Reference reference.rs with the cache. Chain, Apply and Startup are chain.rs:
--                  the checks of a header, the application of a block, and the start from block 0 or
--                  from the storage; their children Coherence, Extension and Branches are what these
--                  keep of the cache. Selection is chain_selection.rs with the choice of the best branch
--                  (Selection/Best), Checkpoints checkpoints.rs (Descent), Candidate candidate.rs
--                  (Polling, Batch), Tip tip.rs (Progress), Bootstrap bootstrap.rs (Length), and Process the
--                  handlers of process.rs (Replies).
--   Scheduler      jormungandr/src/utils/fire_forget_scheduler.rs, which limits the requests to other
--                  nodes: a step function over events. Scheduler/Timers has the lists, Limits and
--                  Completion what the scheduler keeps.
--   Outcome        results with errors and panics, and the monad of the blockchain's operations.
--                  Outcome/Keeps and Outcome/Triple have the rules to reason about a chain of steps.
--   Chain, Lru     what is used of chain-impl-mockchain and of the lru crate, as parameters: records
--                  of functions, with the documented behaviour of the cache as laws.
--   Prelude        shared tests, lists and maps. Tests has data and the theorems at that data.
--
-- State is passed explicitly: an operation takes the state and gives the new one. A panic is none,
-- or panic where there is an error value beside it; the subtractions of sizes panic below 0, as
-- with overflow checks. The unsafe code of the queue reads the node of a pointer in the map, and
-- panics where the pointer dangles. Ids and hashes are numbers; dates have a position in a linear
-- order; sizes are not bounded by a word, since the sum of the sizes in a pool is far below 2 ^ 64,
-- but the conversion of a fragment's size to 32 bits in the selection is written out. A chain
-- length is a number without a bound: the source has a u32, whose checked increment would panic at
-- 2 ^ 32 - 1. The clock is an argument, a function from readings to times where it is read more
-- than once. The loops of the selection, of lift_reports, of the checkpoints and of the scheduler
-- run on fuel, and as much fuel as the pool has fragments, the records have reports, a reference
-- has previous epochs, or the queue has tasks (with one more where the loop needs a last round) is
-- enough; every other loop is structural.
--
-- Not modelled: metrics, tracing, the writing and the closing of the log file (its contents are the
-- list of the fragments written), the asynchronous messages around the parts, the ledger itself,
-- the storage of a staging in a file, the text that a start logs of its progress and the contents
-- of the reward dump, and the parts of the node that have no file here (the tasks around the chain,
-- the network and its gossip, the explorer and the interfaces over HTTP).
pub mod Prelude
pub mod Deque
pub mod Chain
pub mod Lru
pub mod FragmentLog
pub mod Logs
pub mod Mempool
pub mod Selection
pub mod Summary
pub mod Intake
pub mod Staging
pub mod Leadership
pub mod Quarantine
pub mod Outcome
pub mod Blockchain
pub mod Scheduler
mod Tests
