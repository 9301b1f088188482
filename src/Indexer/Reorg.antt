-- ===== src/Indexer/Reorg.antt =====
-- service/src/indexer/service.ts: the detection of a reorganisation before events are appended, and
-- the rollback to a common ancestor.
use uvp_chain_services.Prelude.Exec.{Outcome, ◌>>=◌, ◌>>◌, pure, throw, done, thrown}
use uvp_chain_services.Prelude.{
  any, ℕ, Bool, String, List, keep, ◌==◌, Option, if◌then◌else◌, not, false, is_some, ◌∷◌, ◌+◌,
  some, true, ◌&&◌, ltb, nat_eq, [], ◌||◌, leb, none, ◌-◌,
}
use uvp_chain_services.Indexer.Store.{
  delete_events_after_block, StoredEvent, query, transact, Source, observe,
}
use uvp_chain_services.Indexer.Store.{
  StoredEvent, EventCursor, IndexerError, config_error, reorg_cursor_moved, Stored, Source, Task,
  query, transact, delete_events_after_block, save_cursor,
}

abbrev pub cursor_cas_failure_limit : ℕ
cursor_cas_failure_limit = 3

abbrev max_reorg_backtrack_blocks : ℕ
max_reorg_backtrack_blocks = 1000

unfoldable pub max_block : ℕ → ℕ → ℕ
max_block a b = if ltb b a then a else b

unfoldable pub is_same_block_hash : (String → String) → String → String → Bool
is_same_block_hash lower_case a b = lower_case a == lower_case b

unfoldable pub backtrack_floor : ℕ → ℕ → ℕ
unfolding max_block
backtrack_floor deployment from =
    if ltb max_reorg_backtrack_blocks from
    then max_block (from - max_reorg_backtrack_blocks) deployment
    else deployment

-- newest first, stable
unfoldable pub insert_newest_event : StoredEvent → List StoredEvent → List StoredEvent
insert_newest_event x [] = x ∷ []
insert_newest_event x (y ∷ ys) =
    let rest = insert_newest_event x ys in
    if ltb x.block_number y.block_number then y ∷ rest else x ∷ y ∷ ys

unfoldable pub newest_first : List StoredEvent → List StoredEvent
unfolding insert_newest_event
newest_first [] = []
newest_first (x ∷ xs) = insert_newest_event x (newest_first xs)

-- events that have a hash and may be an ancestor
abbrev pub is_anchor : ℕ → ℕ → StoredEvent → Bool
is_anchor floor from e =
    not e.removed && is_some e.block_hash && leb floor e.block_number && ltb e.block_number from

unfoldable pub anchors : ℕ → ℕ → List StoredEvent → List StoredEvent
unfolding newest_first keep
anchors floor from events = newest_first (keep (is_anchor floor from) events)

-- an event's block, with the hash that the chain has for it
abbrev pub Ancestor : Type 0
Ancestor = ℕ × String

abbrev pub hash_agrees : Source → String → Option String → Bool
hash_agrees env canonical none = false
hash_agrees env canonical (some h) = is_same_block_hash env.lower_case canonical h

abbrev pub saw : ℕ → List ℕ → Bool
saw b [] = false
saw b (c ∷ cs) = nat_eq c b || saw b cs

abbrev pub or_else_ask : Bool → Ancestor → Task (Option Ancestor) → Task (Option Ancestor)
or_else_ask true a rest = pure (some a)
or_else_ask false a rest = rest

-- the first of them whose block the chain still has; a block that was asked for is not asked for again
unfoldable pub common_ancestor : Source → List ℕ → List StoredEvent → Task (Option Ancestor)
unfolding is_same_block_hash
common_ancestor env seen [] = pure none
common_ancestor env seen (e ∷ es) =
    let next = common_ancestor env (e.block_number ∷ seen) es in
    let same = common_ancestor env seen es in
    if saw e.block_number seen
    then same
    else observe (λ t. env.block_hash t e.block_number) >>= λ canonical.
        or_else_ask (hash_agrees env canonical e.block_hash) (e.block_number, canonical) next

-- the second loop asks for every anchor
unfoldable pub older_ancestor : Source → List StoredEvent → Task (Option Ancestor)
unfolding is_same_block_hash
older_ancestor env [] = pure none
older_ancestor env (e ∷ es) = observe (λ t. env.block_hash t e.block_number) >>= λ canonical.
    or_else_ask (hash_agrees env canonical e.block_hash) (e.block_number, canonical)
      (older_ancestor env es)

abbrev pub rolled_back : Source → Ancestor → EventCursor
rolled_back env (block, hash) = record {
  deployment_block = env.deployment_block;
  next_block = max_block (block + 1) env.deployment_block;
  finalized_block = some block;
  block_hash = some hash;
}

abbrev pub moved_back : Bool × Stored → Outcome IndexerError (Unit {0}) × Stored
moved_back (true, s) = (done tt, s)
moved_back (false, s) = (thrown reorg_cursor_moved, s)

-- the transaction of the rollback
unfoldable pub roll_back_stored :
    Source → ℕ → Ancestor → Stored → Outcome IndexerError (Unit {0}) × Stored
unfolding delete_events_after_block save_cursor max_block
roll_back_stored env from a s =
    let remaining = delete_events_after_block a.0 s.events in
    moved_back (
      save_cursor (rolled_back env a) from
        (record s { events = remaining; snapshot_of = remaining }))

unfoldable pub apply_reorg_rollback : Source → ℕ → Ancestor → Task ℕ
unfolding transact roll_back_stored max_block
apply_reorg_rollback env from a = transact env (roll_back_stored env from a) >> λ w. (
  done (rolled_back env a).next_block,
  record w { cursor = some (rolled_back env a); consecutive_cursor_cas_failures = 0 },
)

abbrev pub is_present : StoredEvent → Bool
is_present e = not e.removed

abbrev pub not_empty {ℓ} : {A : Type ℓ} → List A → Bool
not_empty [] = false
not_empty (x ∷ xs) = true

unfoldable pub no_ancestor : Source → ℕ → List StoredEvent → Task ℕ
unfolding any anchors
no_ancestor env from events =
    if not_empty (anchors env.deployment_block from events)
    then throw (config_error "full projection rebuild is required")
    else if any is_present events
    then throw (config_error "stored events carry no block hashes")
    else pure from

abbrev pub to_older : Source → ℕ → List StoredEvent → Option Ancestor → Task ℕ
to_older env from events (some a) = apply_reorg_rollback env from a
to_older env from events none = no_ancestor env from events

abbrev pub to_ancestor : Source → ℕ → List StoredEvent → Option Ancestor → Task ℕ
to_ancestor env from events (some a) = apply_reorg_rollback env from a
to_ancestor env from events none =
    older_ancestor env (anchors env.deployment_block from events) >>= to_older env from events

unfoldable pub rollback_to_common_ancestor : Source → ℕ → Task ℕ
unfolding query common_ancestor older_ancestor anchors backtrack_floor apply_reorg_rollback
    no_ancestor
rollback_to_common_ancestor env from = query env (λ s. s.events) >>= λ events.
    common_ancestor env [] (anchors (backtrack_floor env.deployment_block from) from events)
    >>= to_ancestor env from events
