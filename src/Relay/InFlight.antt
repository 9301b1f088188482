-- ===== src/Relay/InFlight.antt =====
-- The counts of broadcasts in flight, and the limits on them, over interleaved calls.
use uvp_chain_services.Relay.Counts.{
  leave_by_order, leave_by_submitter, enter_by_order, enter_by_submitter, enter_room,
}
use uvp_chain_services.Submission.Types.{Broadcast}
use uvp_chain_services.Prelude.{
  ℕ, ◌+◌, ◌-◌, ◌≤◌, String, true, Option, ◌≡◌, arith, ◌==◌, ◌&&◌, List, ◌++◌, ◌∷◌, eq_iff, false,
  refl, [], Bool, ◌∙◌, get, none, sym,
}
use uvp_chain_services.Relay.Slots.{count_of}
use uvp_chain_services.Relay.Results.{Limits, BroadcastState}
use uvp_chain_services.Relay.Adapter.{
  Adapter, Request, enter, leave, Phase, check_duplicate, record_result,
}
use uvp_chain_services.Relay.System.{
  holds_slot, is_calling, bit, Task, tally, task, tally-middle, calling-le-holding, System, Reach,
  Step, tally-append,
}

abbrev order_of : Request → String
order_of r = r.order_key

abbrev submitter_of : Request → String
submitter_of r = r.submitter_key

module _ (key_of : Request → String) (pre post : List Task) (r : Request)
    (current : Option BroadcastState) where
  -- entering under a limit that has room keeps the calls below the limit
  room_bounds :
      (p : Phase) (n limit : ℕ)
      → n ≡ tally key_of holds_slot (key_of r) (pre ++ (task r (Phase.loaded current) ∷ post))
      → (is_calling p ≡ true → n + 1 ≤ limit)
      → (k : String)
      → tally key_of is_calling k (pre ++ (task r (Phase.loaded current) ∷ post)) ≤ limit
      → tally key_of is_calling k (pre ++ (task r p ∷ post)) ≤ limit
  room_bounds p n limit counted room k below =
      let q = key_of r in
      let was = tally-middle key_of is_calling k pre post r (Phase.loaded current) in
      let held = tally-middle key_of holds_slot q pre post r (Phase.loaded current) in
      rw (tally-middle key_of is_calling k pre post r p) (
        ground (
          arith,
          was,
          held,
          counted,
          below,
          eq_iff q k,
          calling-le-holding key_of q pre,
          calling-le-holding key_of q post,
        ))

-- the counts are those of the calls that hold a slot, and the calls at work are within the limits
pub record IsLimited (lim : Limits) (s : System) : Type 0 where
  pub order_counted :
      (k : String) → count_of k s.adapter.by_order ≡ tally (λ r. r.order_key) holds_slot k s.tasks
  pub submitter_counted :
      (k : String)
      → count_of k s.adapter.by_submitter ≡ tally (λ r. r.submitter_key) holds_slot k s.tasks
  pub order_bounded :
      (k : String) → tally (λ r. r.order_key) is_calling k s.tasks ≤ lim.max_in_flight_per_order
  pub submitter_bounded :
      (k : String)
      → tally (λ r. r.submitter_key) is_calling k s.tasks ≤ lim.max_in_flight_per_submitter

-- one task gives its slot back and no call begins
module _ (key_of : Request → String) (pre post : List Task) (r : Request) (p q : Phase) where
  freed :
      (k : String) (n m : ℕ)
      → holds_slot p ≡ true
      → holds_slot q ≡ false
      → n ≡ tally key_of holds_slot k (pre ++ (task r p ∷ post))
      → m ≡ n - bit (key_of r == k)
      → m ≡ tally key_of holds_slot k (pre ++ (task r q ∷ post))
  freed k n m hp hq counted less =
      let was = tally-middle key_of holds_slot k pre post r p in
      rw (tally-middle key_of holds_slot k pre post r q) (ground (arith, was, counted, less))

  fewer_calling :
      (k : String) (limit : ℕ)
      → is_calling q ≡ false
      → tally key_of is_calling k (pre ++ (task r p ∷ post)) ≤ limit
      → tally key_of is_calling k (pre ++ (task r q ∷ post)) ≤ limit
  fewer_calling k limit hq below =
      let was = tally-middle key_of is_calling k pre post r p in
      rw (tally-middle key_of is_calling k pre post r q) (ground (arith, was, below))

  held :
      (k : String) (n : ℕ)
      → holds_slot p ≡ true
      → holds_slot q ≡ true
      → n ≡ tally key_of holds_slot k (pre ++ (task r p ∷ post))
      → n ≡ tally key_of holds_slot k (pre ++ (task r q ∷ post))
  held k n hp hq counted =
      let was = tally-middle key_of holds_slot k pre post r p in
      rw (tally-middle key_of holds_slot k pre post r q) (ground (arith, was, counted))

  taken :
      (k : String) (n m : ℕ)
      → holds_slot p ≡ false
      → n ≡ tally key_of holds_slot k (pre ++ (task r p ∷ post))
      → m ≡ n + bit ((key_of r == k) && holds_slot q)
      → m ≡ tally key_of holds_slot k (pre ++ (task r q ∷ post))
  taken k n m hp counted more =
      let was = tally-middle key_of holds_slot k pre post r p in
      rw (tally-middle key_of holds_slot k pre post r q) (ground (arith, was, counted, more))

module _ (lim : Limits) where
  -- a call that holds a slot ends: `a` is the adapter once its result is recorded
  ending-IsLimited :
      (s : System) (a : Adapter) (pre post : List Task) (r : Request) (p : Phase)
      (b : Option Broadcast)
      → IsLimited lim s
      → s.tasks ≡ pre ++ (task r p ∷ post)
      → holds_slot p ≡ true
      → a.by_order ≡ s.adapter.by_order
      → a.by_submitter ≡ s.adapter.by_submitter
      → IsLimited lim
          (record { adapter = leave r a; tasks = pre ++ (task r (Phase.over b) ∷ post) })
  ending-IsLimited s a pre post r p b i split holding same_order same_submitter = record {
    order_counted = λ k.
        freed order_of pre post r p (Phase.over b) k (count_of k a.by_order) _ holding refl
          (rw (same_order, ← split) (i.order_counted k)) (leave_by_order r a k);
    submitter_counted = λ k.
        freed submitter_of pre post r p (Phase.over b) k (count_of k a.by_submitter) _ holding refl
          (rw (same_submitter, ← split) (i.submitter_counted k)) (leave_by_submitter r a k);
    order_bounded = λ k.
        fewer_calling order_of pre post r p (Phase.over b) k _ refl
          (rw (← split) (i.order_bounded k));
    submitter_bounded = λ k.
        fewer_calling submitter_of pre post r p (Phase.over b) k _ refl
          (rw (← split) (i.submitter_bounded k));
  }

  -- a call goes on that keeps its slot and is not at work in the inner adapter: `a` has the same counts
  going_on-IsLimited :
      (s : System) (a : Adapter) (pre post : List Task) (r : Request) (p q : Phase)
      → IsLimited lim s
      → s.tasks ≡ pre ++ (task r p ∷ post)
      → holds_slot p ≡ true
      → holds_slot q ≡ true
      → is_calling q ≡ false
      → a.by_order ≡ s.adapter.by_order
      → a.by_submitter ≡ s.adapter.by_submitter
      → IsLimited lim (record { adapter = a; tasks = pre ++ (task r q ∷ post) })
  going_on-IsLimited s a pre post r p q i split holding still idle same_order same_submitter =
      record {
        order_counted = λ k.
            held order_of pre post r p q k (count_of k a.by_order) holding still
              (rw (same_order, ← split) (i.order_counted k));
        submitter_counted = λ k.
            held submitter_of pre post r p q k (count_of k a.by_submitter) holding still
              (rw (same_submitter, ← split) (i.submitter_counted k));
        order_bounded =
            λ k. fewer_calling order_of pre post r p q k _ idle (rw (← split) (i.order_bounded k));
        submitter_bounded = λ k.
            fewer_calling submitter_of pre post r p q k _ idle
              (rw (← split) (i.submitter_bounded k));
      }

  entering-IsLimited :
      (s : System) (pre post : List Task) (r : Request) (current : Option BroadcastState) (now : ℕ)
      → IsLimited lim s
      → s.tasks ≡ pre ++ (task r (Phase.loaded current) ∷ post)
      → IsLimited lim (record {
        adapter = (enter lim now r current s.adapter).0;
        tasks = pre ++ (task r (enter lim now r current s.adapter).1 ∷ post);
      })
  entering-IsLimited s pre post r current now i split =
      let p = (enter lim now r current s.adapter).1 in
      let before = Phase.loaded current in
      let room = enter_room lim now r current s.adapter in
      record {
        order_counted = λ k.
            taken order_of pre post r before p k _ _ refl (rw (← split) (i.order_counted k))
              (enter_by_order lim now r current s.adapter k);
        submitter_counted = λ k.
            taken submitter_of pre post r before p k _ _ refl (rw (← split) (i.submitter_counted k))
              (enter_by_submitter lim now r current s.adapter k);
        order_bounded = λ k.
            room_bounds order_of pre post r current p (count_of r.order_key s.adapter.by_order) _
              (rw (← split) (i.order_counted r.order_key)) (λ h. (room h).0) k
              (rw (← split) (i.order_bounded k));
        submitter_bounded = λ k.
            room_bounds submitter_of pre post r current p
              (count_of r.submitter_key s.adapter.by_submitter) _
              (rw (← split) (i.submitter_counted r.submitter_key)) (λ h. (room h).1) k
              (rw (← split) (i.submitter_bounded k));
      }

  tally_arrived :
      (key_of : Request → String) (test : Phase → Bool) (k : String) (ts : List Task) (t : Task)
      → test t.phase ≡ false
      → tally key_of test k (ts ++ t ∷ []) ≡ tally key_of test k ts
  tally_arrived key_of test k ts t h = rw tally-append (unfold tally in ground (arith, h))

  arriving-IsLimited :
      (s : System) (r : Request) (current : Option BroadcastState)
      → IsLimited lim s
      → IsLimited lim
          (record { adapter = s.adapter; tasks = s.tasks ++ task r (Phase.loaded current) ∷ [] })
  arriving-IsLimited s r current i =
      let t = task r (Phase.loaded current) in
      record {
        order_counted =
            λ k. i.order_counted k ∙ sym (tally_arrived order_of holds_slot k s.tasks t refl);
        submitter_counted = λ k.
            i.submitter_counted k ∙ sym (tally_arrived submitter_of holds_slot k s.tasks t refl);
        order_bounded =
            λ k. rw (tally_arrived order_of is_calling k s.tasks t refl) (i.order_bounded k);
        submitter_bounded = λ k.
            rw (tally_arrived submitter_of is_calling k s.tasks t refl) (i.submitter_bounded k);
      }

  module _ (lower_case : String → String) where
    Step-IsLimited : {s t : System} → Step lim lower_case s t → IsLimited lim s → IsLimited lim t
    Step-IsLimited {s} (Step.arrive r persisted) i = arriving-IsLimited s r _ i
    Step-IsLimited {s} (Step.enters pre post r current now split) i =
        entering-IsLimited s pre post r current now i split
    Step-IsLimited {s} (Step.refused pre post r f split) i =
        ending-IsLimited s s.adapter pre post r (Phase.limited f) _ i split refl refl refl
    Step-IsLimited {s} (Step.answered pre post r n now b split) i =
        going_on-IsLimited s s.adapter pre post r (Phase.calling n) _ i split refl refl refl refl
          refl
    Step-IsLimited {s} (Step.claimed pre post r n seen owner claim split) i =
        going_on-IsLimited s (check_duplicate lower_case claim r n seen owner s.adapter).0 pre post
          r (Phase.claiming n seen owner) _ i split refl refl refl (unfold check_duplicate in refl)
          (unfold check_duplicate in refl)
    Step-IsLimited {s} (Step.records pre post r n result split) i =
        going_on-IsLimited s (record_result r n result s.adapter) pre post r
          (Phase.decided n result) _ i split refl refl refl (unfold record_result in refl)
          (unfold record_result in refl)
    Step-IsLimited {s} (Step.returns pre post r result split) i =
        ending-IsLimited s s.adapter pre post r (Phase.saving result) _ i split refl refl refl
    Step-IsLimited {s} (Step.refusal_threw pre post r f split) i =
        ending-IsLimited s s.adapter pre post r (Phase.limited f) none i split refl refl refl
    Step-IsLimited {s} (Step.claim_threw pre post r n seen owner split) i =
        ending-IsLimited s s.adapter pre post r (Phase.claiming n seen owner) none i split refl refl
          refl
    Step-IsLimited {s} (Step.saving_threw pre post r result split) i =
        ending-IsLimited s s.adapter pre post r (Phase.saving result) none i split refl refl refl
    Step-IsLimited {s} (Step.threw pre post r n split) i =
        ending-IsLimited s s.adapter pre post r (Phase.calling n) none i split refl refl refl

    -- In every system that calls can reach from an adapter just created, whatever their requests,
    -- their order and the answers of the inner adapter and of the persistent store, the counts kept
    -- are exactly those of the calls that hold a slot, and no order and no submitter has more calls
    -- at work in the inner adapter than its limit.
    pub Reach-IsLimited : {s : System} → Reach lim lower_case s → IsLimited lim s
    Reach-IsLimited Reach.start = record {
      order_counted = λ k. unfold tally get in refl;
      submitter_counted = λ k. unfold tally get in refl;
      order_bounded = λ k. unfold tally in omega arith;
      submitter_bounded = λ k. unfold tally in omega arith;
    }
    Reach-IsLimited (Reach.step reached st) = Step-IsLimited st (Reach-IsLimited reached)
