-- ===== src/Indexer/Store.antt =====
-- service/src/storage/projection-store.ts, as the indexer uses it: the stored events, the cursor, and
-- the events from which the stored snapshots were built; with the indexer's own state of
-- service/src/indexer/service.ts, and the chain that it reads.
use uvp_chain_services.Prelude.Exec.{Outcome, Exec, thrown, done}
use uvp_chain_services.Prelude.{
  any, if◌then◌else◌, ℕ, Bool, suc, String, List, keep, true, Option, leb, ◌==◌, ◌∷◌, ◌++◌, some,
  [], nat_eq, false, none,
}

-- of a chain event, what the indexer itself reads; `key` stands for the columns that identify its row
pub record StoredEvent : Type 0 where
  pub key : String
  pub block_number : ℕ
  pub block_hash : Option String
  pub removed : Bool

pub record EventCursor : Type 0 where
  pub deployment_block : ℕ
  pub next_block : ℕ
  pub finalized_block : Option ℕ
  pub block_hash : Option String

pub data IndexerError : Type 0 where
  config_error : String → IndexerError
  external : String → IndexerError
  reorg_cursor_moved : IndexerError

pub record Stored : Type 0 where
  pub events : List StoredEvent
  pub cursor : Option EventCursor
  pub snapshot_of : List StoredEvent

pub record Indexer : Type 0 where
  pub tick : ℕ
  pub stored : Stored
  pub cursor : Option EventCursor  -- `this.#cursor`
  pub consecutive_cursor_cas_failures : ℕ

-- The event source, and which calls of the store fail; the first argument counts the calls of the store
-- so far, so the chain may answer differently after each of them. `has_hashes` is that the source can
-- give the hash of a block.
pub record Source : Type 0 where
  pub block_hash : ℕ → ℕ → Outcome IndexerError String
  pub has_hashes : Bool
  pub read_events : ℕ → ℕ → ℕ → Outcome IndexerError (List StoredEvent)
  pub lower_case : String → String
  pub store_fails : ℕ → Bool
  pub deployment_block : ℕ

abbrev pub Task : Type 0 → Type 0
Task A = Exec IndexerError Indexer A

abbrev pub ticked : Indexer → Indexer
ticked w = record w { tick = suc w.tick }

-- the chain is asked
unfoldable pub observe : {A : Type 0} → (ℕ → Outcome IndexerError A) → Task A
observe f w = (f w.tick, w)

unfoldable pub query : {A : Type 0} → Source → (Stored → A) → Task A
query env f w =
    if env.store_fails w.tick
    then (thrown (external "store"), ticked w)
    else (done (f w.stored), ticked w)

abbrev pub settled :
    {A : Type 0} → Outcome IndexerError A × Stored → Indexer → Outcome IndexerError A × Indexer
settled (done a, s) w = (done a, record w { stored = s })
settled (thrown e, s) w = (thrown e, w)

-- a transaction: all that it writes, or nothing
unfoldable pub transact :
    {A : Type 0} → Source → (Stored → Outcome IndexerError A × Stored) → Task A
transact env f w =
    if env.store_fails w.tick
    then (thrown (external "store"), ticked w)
    else settled (f w.stored) (ticked w)

-- `appendEvent`: a row that is there already stays
abbrev pub is_key_of : StoredEvent → StoredEvent → Bool
is_key_of e f = f.key == e.key

unfoldable pub append_event : StoredEvent → List StoredEvent → List StoredEvent
unfolding any
append_event e events = if any (is_key_of e) events then events else events ++ e ∷ []

unfoldable pub append_events : List StoredEvent → List StoredEvent → List StoredEvent
unfolding append_event
append_events [] events = events
append_events (e ∷ es) events = append_events es (append_event e events)

unfoldable pub delete_events_after_block : ℕ → List StoredEvent → List StoredEvent
unfolding keep
delete_events_after_block block events = keep (λ (e : StoredEvent). leb e.block_number block) events

abbrev pub is_at : ℕ → Option EventCursor → Bool
is_at expected none = true
is_at expected (some c) = nat_eq c.next_block expected

-- `saveCursor` with `expectNextBlock`: whether it was written, which it is where there is no cursor yet
unfoldable pub save_cursor : EventCursor → ℕ → Stored → Bool × Stored
save_cursor c expected s =
    if is_at expected s.cursor then (true, record s { cursor = some c }) else (false, s)
