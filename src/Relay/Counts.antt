-- ===== src/Relay/Counts.antt =====
-- How entering and leaving change the counts of broadcasts in flight.
use uvp_chain_services.Prelude.{
  ℕ, ◌+◌, ◌-◌, ◌≤◌, String, true, Option, ◌≡◌, arith, ◌==◌, ◌&&◌, eq_refl,
}
use uvp_chain_services.Relay.Slots.{count_of, count_of-acquire_slot, count_of-release_in_flight}
use uvp_chain_services.Relay.Results.{Limits, BroadcastState}
use uvp_chain_services.Relay.Adapter.{Adapter, Request, enter, leave}
use uvp_chain_services.Relay.System.{holds_slot, is_calling, bit}

pub leave_by_order :
    (r : Request) (a : Adapter) (k : String)
    → count_of k (leave r a).by_order ≡ count_of k a.by_order - bit (r.order_key == k)
unfolding leave
leave_by_order r a k = rw count_of-release_in_flight (ground arith)

pub leave_by_submitter :
    (r : Request) (a : Adapter) (k : String)
    → count_of k (leave r a).by_submitter ≡ count_of k a.by_submitter - bit (r.submitter_key == k)
unfolding leave
leave_by_submitter r a k = rw count_of-release_in_flight (ground arith)

module _ (lim : Limits) (now : ℕ) (r : Request) (current : Option BroadcastState)
    (a : Adapter) where
  pub enter_by_order :
      (k : String)
      → count_of k (enter lim now r current a).0.by_order
        ≡ count_of k a.by_order
          + bit ((r.order_key == k) && holds_slot (enter lim now r current a).1)
  unfolding enter
  enter_by_order k = ground (arith, count_of-acquire_slot r.order_key k a.by_order)

  pub enter_by_submitter :
      (k : String)
      → count_of k (enter lim now r current a).0.by_submitter
        ≡ count_of k a.by_submitter
          + bit ((r.submitter_key == k) && holds_slot (enter lim now r current a).1)
  unfolding enter
  enter_by_submitter k = ground (arith, count_of-acquire_slot r.submitter_key k a.by_submitter)

  -- a call that goes through has found room under both limits
  pub enter_room :
      is_calling (enter lim now r current a).1 ≡ true
      → (count_of r.order_key a.by_order + 1 ≤ lim.max_in_flight_per_order)
        × (count_of r.submitter_key a.by_submitter + 1 ≤ lim.max_in_flight_per_submitter)
  unfolding enter
  enter_room h = ground (
    arith,
    count_of-acquire_slot r.order_key r.order_key a.by_order,
    count_of-acquire_slot r.submitter_key r.submitter_key a.by_submitter,
    eq_refl r.order_key,
    eq_refl r.submitter_key,
  )
