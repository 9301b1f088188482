-- ===== src/Chain/Replay.antt =====
-- The events of a replay that are active: those that no later tombstone removes.
use uvp_chain_services.Prelude.{
  ℕ, ◌+◌, String, Bool, true, false, List, [], ◌∷◌, Dict, put, delete, values, join, if◌then◌else◌,
  length,
}
use uvp_chain_services.Chain.Pointers.{Sign, Pointer, or_then, compare_chain_pointers}

-- the runtime's text functions
pub record Runtime : Type 0 where
  pub decimal : ℕ → String
  pub lower_case : String → String
  pub locale : String → String → Sign

-- `removed` is `event.removed === true`
pub record ChainEvent (A : Type 0) : Type 0 where
  pub pointer : Pointer
  pub event_name : String
  pub args : A
  pub removed : Bool

-- the state of the loop
pub record Active (A : Type 0) : Type 0 where
  pub active_by_event_id : Dict (ChainEvent A)
  pub removed_event_ids : Dict (Unit {0})
  pub removed_event_count : ℕ

pub record ReplaySummary (A : Type 0) : Type 0 where
  pub active_events : List (ChainEvent A)
  pub active_event_count : ℕ
  pub removed_event_count : ℕ
  pub removed_logs_filtered : Bool

abbrev pub is_before : Sign → Bool
is_before Sign.before = true
is_before _ = false

abbrev pub is_after : Sign → Bool
is_after Sign.after = true
is_after _ = false

abbrev pub not_empty {ℓ} : {V : Type ℓ} → List V → Bool
not_empty [] = false
not_empty (x ∷ xs) = true

module _ {A : Type 0} (rt : Runtime) where
  unfoldable pub chain_event_key : ChainEvent A → String
  unfolding join
  chain_event_key e = join ":" (
      rt.decimal e.pointer.chain_id
      ∷ rt.lower_case e.pointer.contract_address
      ∷ rt.decimal e.pointer.block_number
      ∷ rt.lower_case e.pointer.transaction_hash
      ∷ rt.decimal e.pointer.log_index
      ∷ [])

  unfoldable pub compare_chain_events : ChainEvent A → ChainEvent A → Sign
  compare_chain_events a b =
      or_then (compare_chain_pointers rt.locale a.pointer b.pointer)
        (rt.locale a.pointer.contract_address b.pointer.contract_address)

  -- in front of the first event that it is not behind
  unfoldable pub insert_event : ChainEvent A → List (ChainEvent A) → List (ChainEvent A)
  insert_event e [] = e ∷ []
  insert_event e (x ∷ xs) =
      let rest = insert_event e xs in
      if is_after (compare_chain_events e x) then x ∷ rest else e ∷ x ∷ xs

  -- the stable sort by `compareChainEvents`
  unfoldable pub sort_chain_events : List (ChainEvent A) → List (ChainEvent A)
  sort_chain_events [] = []
  sort_chain_events (e ∷ es) = insert_event e (sort_chain_events es)

  -- one turn of the loop: a tombstone removes its event, any other event comes back or is new
  unfoldable pub take_event : ChainEvent A → Active A → Active A
  take_event e s =
      let id = chain_event_key e in
      if e.removed
      then record {
        active_by_event_id = delete id s.active_by_event_id;
        removed_event_ids = put id tt s.removed_event_ids;
        removed_event_count = s.removed_event_count + 1;
      }
      else record s {
        active_by_event_id = put id e s.active_by_event_id;
        removed_event_ids = delete id s.removed_event_ids;
      }

  unfoldable pub take_events : List (ChainEvent A) → Active A → Active A
  take_events [] s = s
  take_events (e ∷ es) s = take_events es (take_event e s)

  unfoldable pub replayed : List (ChainEvent A) → Active A
  replayed events =
      take_events (sort_chain_events events)
        (record { active_by_event_id = []; removed_event_ids = []; removed_event_count = 0 })

  unfoldable pub build_active_chain_event_replay_summary : List (ChainEvent A) → ReplaySummary A
  build_active_chain_event_replay_summary events =
      let s = replayed events in
      let active = sort_chain_events (values s.active_by_event_id) in
      record {
        active_events = active;
        active_event_count = length active;
        removed_event_count = s.removed_event_count;
        removed_logs_filtered = not_empty s.removed_event_ids;
      }

  unfoldable pub filter_active_chain_events : List (ChainEvent A) → List (ChainEvent A)
  filter_active_chain_events events = (build_active_chain_event_replay_summary events).active_events
