-- ===== src/Indexer/Refresh.antt =====
-- service/src/indexer/service.ts: one incremental refresh from a cursor. Notifications, the queue of
-- steps to be repeated, projection automation and the sync state are left out; they change neither the
-- stored events nor the cursors.
use uvp_chain_services.Indexer.Store.{
  StoredEvent, EventCursor, IndexerError, config_error, reorg_cursor_moved, Stored, Source, Task,
  query, transact, delete_events_after_block, save_cursor, append_events, observe,
}
use uvp_chain_services.Prelude.{
  ℕ, String, Bool, Option, List, ◌+◌, if◌then◌else◌, some, truthy, or_else, not, ltb, leb, none,
  ◌&&◌, present, ◌||◌, ◌-◌, or_default, nat_eq, true, false,
}
use uvp_chain_services.Prelude.Exec.{Outcome, done, thrown, ◌>>=◌, pure, ◌>>◌, throw, attempt}
use uvp_chain_services.Indexer.Reorg.{
  max_block, cursor_cas_failure_limit, is_same_block_hash, rollback_to_common_ancestor,
}

unfoldable pub moved_error : IndexerError
moved_error = config_error "durable projection cursor keeps being moved by another writer"

-- what both paths do where the cursor was moved: count, and give up at the limit
unfoldable pub count_cas_failure : Task (Unit {0})
unfolding moved_error
count_cas_failure w =
    let n = w.consecutive_cursor_cas_failures + 1 in
    let v = record w { consecutive_cursor_cas_failures = n } in
    if leb cursor_cas_failure_limit n then (thrown moved_error, v) else (done tt, v)

unfoldable pub set_cursor : Option EventCursor → Task (Unit {0})
set_cursor c w = (done tt, record w { cursor = c })

abbrev deferred_to : Source → ℕ → Option EventCursor → Task ℕ
deferred_to env from none = pure from
deferred_to env from (some c) =
    let next = max_block c.next_block env.deployment_block in
    set_cursor (some (record c { next_block = next })) >> pure next

-- the handler of a rollback that found the cursor moved
unfoldable pub defer_rollback : Source → ℕ → IndexerError → Task ℕ
unfolding query count_cas_failure set_cursor max_block
defer_rollback env from reorg_cursor_moved =
    query env (λ s. s.cursor) >>= λ current. count_cas_failure >> deferred_to env from current
defer_rollback env from e = throw e

abbrev pub stored_hash : Option EventCursor → Option String
stored_hash none = none
stored_hash (some c) = c.block_hash

-- the stored hash against the chain's hash of the same block
abbrev pub compare_hashes : Source → ℕ → Option EventCursor → String → Task ℕ
compare_hashes env from stored canonical =
    if is_same_block_hash env.lower_case canonical (or_default (stored_hash stored) "")
    then pure from
    else attempt (rollback_to_common_ancestor env from) (defer_rollback env from)

abbrev pub has_no_hash : Source → ℕ → Option EventCursor → Bool
has_no_hash env from stored =
    not (truthy (stored_hash stored)) || not env.has_hashes || leb from env.deployment_block

abbrev pub check_continuity : Source → ℕ → Option EventCursor → Task ℕ
check_continuity env from stored =
    if has_no_hash env from stored
    then pure from
    else observe (λ t. env.block_hash t (from - 1)) >>= compare_hashes env from stored

unfoldable pub rollback_on_reorg : Source → ℕ → Task ℕ
unfolding query rollback_to_common_ancestor defer_rollback is_same_block_hash truthy
rollback_on_reorg env from = query env (λ s. s.cursor) >>= check_continuity env from

unfoldable pub advance : EventCursor → Task (Unit {0})
advance c w = (done tt, record w { cursor = some c; consecutive_cursor_cas_failures = 0 })

abbrev pub after_saving : Source → EventCursor → Bool → Task (Unit {0})
after_saving env c true = advance c
after_saving env c false = query env (λ s. s.cursor) >>= λ current.
    set_cursor (or_else current (some c)) >> count_cas_failure

abbrev pub returned : {A : Type 0} → A × Stored → Outcome IndexerError A × Stored
returned (a, s) = (done a, s)

unfoldable pub save_cursor_advancing_from : Source → EventCursor → ℕ → Task (Unit {0})
unfolding transact save_cursor query set_cursor count_cas_failure advance
save_cursor_advancing_from env c expected =
    transact env (λ s. returned (save_cursor c expected s)) >>= after_saving env c

unfoldable pub cursor_block_hash : Source → ℕ → Task (Option String)
cursor_block_hash env block =
    if env.has_hashes
    then (observe (λ t. env.block_hash t block) >>= λ h. pure (present (some h)))
    else pure none

unfoldable pub min_block : ℕ → Option ℕ → ℕ
min_block a none = a
min_block a (some b) = if leb a b then a else b

unfoldable pub max_block_of : Option ℕ → Option ℕ → Option ℕ
max_block_of none b = b
max_block_of (some a) none = some a
max_block_of (some a) (some b) = if leb b a then some a else some b

abbrev pub finalized_of : Option EventCursor → Option ℕ
finalized_of none = none
finalized_of (some c) = c.finalized_block

abbrev pub not_lowered : Option ℕ → ℕ → ℕ
not_lowered none finalized = finalized
not_lowered (some prior) finalized = if ltb finalized prior then prior else finalized

abbrev pub swept : ℕ → Option EventCursor → List StoredEvent → List StoredEvent
swept from none events = events
swept from (some c) events =
    if ltb 0 from && nat_eq c.next_block from
    then delete_events_after_block (from - 1) events
    else events

-- the transaction of an append: rows that a crash left behind are removed first
unfoldable pub append_stored :
    ℕ → List StoredEvent → Stored → Outcome IndexerError (Unit {0}) × Stored
unfolding append_events delete_events_after_block
append_stored from new s =
    let events = append_events new (swept from s.cursor s.events) in
    (done tt, record s { events = events; snapshot_of = events })

abbrev pub next_cursor : Source → ℕ → ℕ → Option String → EventCursor
next_cursor env next reported hash = record {
  deployment_block = env.deployment_block;
  next_block = next;
  finalized_block = some reported;
  block_hash = hash;
}

unfoldable pub read_on : Source → ℕ → ℕ → ℕ → Task (Unit {0})
unfolding transact append_stored cursor_block_hash save_cursor_advancing_from
read_on env from finalized reported = do
  events ← observe (λ t. env.read_events t from finalized)
  transact env (append_stored from events)
  hash ← cursor_block_hash env finalized
  save_cursor_advancing_from env (next_cursor env (finalized + 1) reported hash) from

unfoldable pub stay : Source → ℕ → ℕ → Task (Unit {0})
unfolding cursor_block_hash save_cursor_advancing_from
stay env from reported = do
  hash ← (if ltb 0 from then cursor_block_hash env (from - 1) else pure none)
  save_cursor_advancing_from env (next_cursor env from reported hash) from

-- a finalized block that lies behind is waited for
abbrev pub go_on : Source → ℕ → ℕ → ℕ → Task (Unit {0})
go_on env finalized from reported =
    if ltb finalized from then stay env from reported else read_on env from finalized reported

unfoldable pub after_rollback : Source → ℕ → ℕ → Task (Unit {0})
unfolding query max_block_of read_on stay
after_rollback env finalized from = query env (λ s. finalized_of s.cursor) >>= λ prior w.
    go_on env finalized from (not_lowered (max_block_of prior (finalized_of w.cursor)) finalized) w

-- the refresh, where there is a cursor
unfoldable pub refresh_from : Source → ℕ → EventCursor → Task (Unit {0})
unfolding rollback_on_reorg max_block after_rollback
refresh_from env finalized cursor =
    rollback_on_reorg env (max_block cursor.next_block env.deployment_block)
    >>= after_rollback env finalized
