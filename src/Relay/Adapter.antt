-- ===== src/Relay/Adapter.antt =====
-- The shared state of the adapter, and the steps into which awaits cut one call of `broadcast`.
use uvp_chain_services.Prelude.{
  ℕ, ◌+◌, String, Option, none, some, Dict, get, put, if◌then◌else◌, or_else, [], true, ltb,
  or_default,
}
use uvp_chain_services.Submission.Types.{Failure, Broadcast}
use uvp_chain_services.Relay.Slots.{acquire_slot, release_in_flight, count_of}
use uvp_chain_services.Relay.Results.{
  Limits, BroadcastState, Claim, failed_result, duplicate_result, duplicate_after, owner_name,
  tx_hash_of, retry_schedule,
}

pub record Adapter : Type 0 where
  pub states : Dict BroadcastState
  pub by_order : Dict ℕ
  pub by_submitter : Dict ℕ
  pub owners : Dict String

abbrev pub fresh : Adapter
fresh = record { states = []; by_order = []; by_submitter = []; owners = [] }

-- the parts of a request that the adapter reads
pub record Request : Type 0 where
  pub idempotency_key : String
  pub order_key : String
  pub submitter_key : String

-- Where a call stands: its state is loaded; a slot is held while a refusal is audited, while the inner
-- adapter works, while the persistent store is asked for the owner of the hash (the result and the owner
-- found in memory are known), when that check is over, and while the recorded state is saved and a
-- failure audited; the call is over (`none` if it threw).
pub data Phase : Type 0 where
  loaded : Option BroadcastState → Phase
  limited : Failure → Phase
  calling : ℕ → Phase
  claiming : ℕ → Broadcast → Option String → Phase
  decided : ℕ → Broadcast → Phase
  saving : Broadcast → Phase
  over : Option Broadcast → Phase

-- `currentStateFor`; `persisted` is the persistent store's answer, `none` where there is no such store
unfoldable pub current_state_for : Adapter → Option BroadcastState → String → Option BroadcastState
current_state_for a persisted key = or_else (get key a.states) persisted

abbrev pub attempts_of : Option BroadcastState → ℕ
attempts_of none = 0
attempts_of (some s) = s.attempts

abbrev pub rate_limited : Limits → ℕ → String → Option BroadcastState → Failure
rate_limited lim now message current =
    failed_result "broadcast_rate_limited" message true (attempts_of current) none
      (retry_schedule lim (attempts_of current) now)

abbrev pub after_acquire : Limits → ℕ → ℕ → ℕ → Option BroadcastState → Phase
after_acquire lim now in_order in_submitter current =
    if ltb lim.max_in_flight_per_order in_order
    then Phase.limited
        (rate_limited lim now "another broadcast is already in flight for this order" current)
    else if ltb lim.max_in_flight_per_submitter in_submitter
    then Phase.limited
        (rate_limited lim now "another broadcast is already in flight for this submitter" current)
    else Phase.calling (attempts_of current + 1)

abbrev pub enter_fresh :
    Limits → ℕ → Request → Option BroadcastState → Option Broadcast → Adapter → Adapter × Phase
enter_fresh lim now r current (some b) a = (a, Phase.over (some b))
enter_fresh lim now r current none a =
    let by_order = acquire_slot r.order_key a.by_order in
    let by_submitter = acquire_slot r.submitter_key a.by_submitter in
    (
      record a { by_order = by_order; by_submitter = by_submitter },
      after_acquire lim now (count_of r.order_key by_order) (count_of r.submitter_key by_submitter)
          current,
    )

-- From the loaded state to the next await: a decided key is answered, and otherwise a slot is taken
-- before any limit is looked at.
unfoldable pub enter : Limits → ℕ → Request → Option BroadcastState → Adapter → Adapter × Phase
enter lim now r current a = enter_fresh lim now r current (duplicate_result current lim.max_retry) a

-- `finally`
unfoldable pub leave : Request → Adapter → Adapter
leave r a = record a {
  by_order = release_in_flight r.order_key a.by_order;
  by_submitter = release_in_flight r.submitter_key a.by_submitter;
}

-- the owner of a result's hash in memory, looked up as soon as the inner adapter has returned
unfoldable pub found_owner : (String → String) → Broadcast → Adapter → Option String
unfolding tx_hash_of
found_owner lower_case seen a = get (owner_name lower_case seen) a.owners

-- once the persistent store has answered: the result is its own or a duplicate's
unfoldable pub check_duplicate :
    (String → String)
    → Claim
    → Request
    → ℕ
    → Broadcast
    → Option String
    → Adapter
    → Adapter × Broadcast
unfolding duplicate_after
check_duplicate lower_case claim r n seen found a =
    let (duplicate, owners) =
      duplicate_after lower_case claim r.idempotency_key seen found a.owners n in
    (record a { owners = owners }, or_default duplicate seen)

-- the result is recorded under the key
unfoldable pub record_result : Request → ℕ → Broadcast → Adapter → Adapter
record_result r n result a = record a {
  states = put r.idempotency_key (record { attempts = n; last_result = result }) a.states;
}
