-- ===== src/Lib.antt =====
-- Signed submissions of the UVP chain service, the adapter that guards their broadcast, the worker
-- that reconciles them with the chain, the indexer that follows the chain, and the order of chain facts
-- on which its projections build.
--
-- The parts and where they are modelled:
--
-- Submission: service/src/submissions/service.ts, types.ts and store.ts. A wallet prepares a
--   submission (`prepareSubmit`), signs the typed data it is given, and sends the signature (`submit`).
--   Types holds the data, Record the records built from broadcast results (Rows, Build, Defaults),
--   Store the in-memory store, World the collaborators and the state of a call, Task, Evidence and
--   Prepare the preparation, Submit the checks and the reservation of `submit`, Broadcast its `try`
--   block, Finish the whole of it, `getSubmission` and the binding of evidence. Keeps and Used carry
--   properties through the parts; Once, Nonce, Access, Prepare/Stored, Prepare/Roundtrip
--   and Record/Coherent have its theorems.
-- Relay: service/src/submissions/safe-broadcast-adapter.ts. Slots counts broadcasts in flight, Results
--   has the failed results, the retry schedule and the duplicate checks, Adapter the shared state and
--   the pieces into which awaits cut `broadcast`, System any number of calls interleaved at their
--   awaits, as a step relation. Counts, InFlight and Retry have the theorems.
--   Classify is the classification of thrown errors in service/src/submissions/broadcast-adapter.ts,
--   and Verdict has its theorem.
-- Chain: service/src/shared/types.ts (`compareChainPointers`), service/src/indexer/events.ts (the
--   active events of a replay) and service/src/indexer/projections/task.ts (which signals complete a
--   task, and its proof). Pointers, Replay, Tasks and Refresh have the definitions; Transitive, Active,
--   Signals, Sourced and Earliest the theorems.
-- Reconcile: service/src/reconcile/worker.ts, which asks the chain and the projection what became of
--   the transactions that were sent, with what it uses of the stores: service/src/governance/store.ts
--   and service/src/product/query/bff/store.ts. Outcome is `#resolveOutcome`; Submissions,
--   Registrations and Governance are the reconciliation of one record of each kind; Scan reads the
--   stores in pages; Pass has the lanes of one pass and its guard (`runOnce`). It shares the submission
--   store with Submission. Keeps and Visits carry properties of the books through a pass, Places and
--   LogPlaces the order of the rows; Grounds, Justified, Confirms, Accounted, AccountedLogs, Labels,
--   Ends and Terminates have the theorems.
-- Indexer: service/src/indexer/service.ts, the incremental refresh from a cursor, with the store behind
--   it (service/src/storage/projection-store.ts). Store has the stored events and the
--   compare-and-set of the cursor, Reorg the search for a common ancestor and the rollback, Refresh the whole refresh. Blocks describes forks of the chain; Ancestors, Rollback,
--   Mirrors, Appends, Saves and Synced are about stored events that follow the chain, Leaves and Quiet
--   about a reorganisation before any event is stored. Pending is the queue of steps that failed after
--   a commit, with its sweep; Finality and Accounts have its theorems.
-- Rows: what the stores of Submission and Reconcile share: rows sorted by an instant and an identifier,
--   and pages of them behind a cursor.
-- Prelude: tests, lists, maps in insertion order, text, and computations that may throw.
--
-- How the code is read. A call is a function from a world (store, audit events, requests sent, and a
-- count of the calls of collaborators so far) to a result or an error and a new world. The clock, the
-- identifiers, what is told of the chain and the projection, and which calls of the store, the audit
-- sink and the evidence service fail, are functions of that count: the theorems hold for every sequence
-- of them that their hypotheses allow. In Indexer the count is that of the calls of the store, so the
-- chain may answer differently after each of these; the finalized block is an argument of a refresh.
-- A transaction that fails leaves the store as it was; where the store has no transactions, the
-- writes before the failure stay. Instants are milliseconds, deadlines seconds. Optional fields are
-- options, and an empty text is not truthy. `toLowerCase`, `trim`, `localeCompare`, the text of
-- a number, address and bytes32 normal forms, hashing, signature recovery and the classification of
-- thrown errors are parameters. An error keeps its status and code, not its message or details.
-- A sort is the stable insertion sort by the comparison; where the comparison is no order, the
-- runtime may answer differently. Loops are structural, but for the scans of the worker, which read
-- page after page: they have one more step of fuel than the store has rows, and Reconcile/Terminates
-- is about that fuel. Writes of other callers while a pass runs are not modelled.
--
-- Not modelled: the persistent stores, the broadcast itself in the state machine's adapter, the rest of
-- the indexer (full rebuilds, notifications, the projections other than tasks), the
-- timers of the reconcile worker, stage patches, evidence, governance reviews, the store console,
-- product reads, the HTTP interface and configuration.
pub mod Prelude
pub mod Rows
pub mod Submission
pub mod Relay
pub mod Chain
pub mod Reconcile
pub mod Indexer
