-- ===== src/Relay/Tests.antt =====
-- The theorems about the guarding adapter, applied to two calls for the same order.
use uvp_chain_services.Relay.Verdict.{classify_state_machine_broadcast_error_lem}
use uvp_chain_services.Relay.Classify.{Texts, classify_state_machine_broadcast_error}
use uvp_chain_services.Submission.Types.{Broadcast}
use uvp_chain_services.Prelude.{
  String, none, [], ◌∷◌, ◌≡◌, refl, ◌≤◌, ◌+◌, truthy, get, some, false, true, codes, List, ℕ, any,
  not, Bool, ◌||◌, nat_eq, ◌&&◌,
}
use uvp_chain_services.Relay.Results.{
  retry_schedule, duplicate_tx_hash, failed_result, tx_hash_of, Limits, Claim,
}
use uvp_chain_services.Relay.Adapter.{Request, Phase, fresh, enter, current_state_for}
use uvp_chain_services.Relay.System.{System, Step, Reach, task}
use uvp_chain_services.Relay.InFlight.{IsLimited, Reach-IsLimited}
use uvp_chain_services.Relay.Retry.{retry_schedule_bounds, duplicate_tx_hash-refused, record_all}

abbrev limits : Limits
limits = record {
  max_in_flight_per_order = 1;
  max_in_flight_per_submitter = 1;
  max_retry = 3;
  retry_base_ms = 250;
  retry_max_ms = 5000;
}

abbrev first_request : Request
first_request = record { idempotency_key = "k1"; order_key = "order"; submitter_key = "wallet" }

abbrev second_request : Request
second_request = record { idempotency_key = "k2"; order_key = "order"; submitter_key = "wallet" }

abbrev same_text : String → String
same_text s = s

abbrev no_claims : Claim
no_claims tx key = none

abbrev empty_system : System
empty_system = record { adapter = fresh; tasks = [] }

abbrev one_arrived : System
one_arrived = record { adapter = fresh; tasks = task first_request (Phase.loaded none) ∷ [] }

abbrev two_arrived : System
two_arrived = record {
  adapter = fresh;
  tasks = task first_request (Phase.loaded none) ∷ task second_request (Phase.loaded none) ∷ [];
}

abbrev first_in : System
first_in = record {
  adapter = (enter limits 0 first_request none fresh).0;
  tasks =
      task first_request (enter limits 0 first_request none fresh).1
      ∷ task second_request (Phase.loaded none)
      ∷ [];
}

abbrev both_in : System
both_in = record {
  adapter = (enter limits 5 second_request none first_in.adapter).0;
  tasks =
      task first_request (enter limits 0 first_request none fresh).1
      ∷ task second_request (enter limits 5 second_request none first_in.adapter).1
      ∷ [];
}

both_reached : Reach limits same_text both_in
unfolding current_state_for get
both_reached =
    Reach.step
      (Reach.step
        (Reach.step (Reach.step Reach.start (Step.arrive first_request none))
          (Step.arrive second_request none))
        (Step.enters [] (task second_request (Phase.loaded none) ∷ []) first_request none 0 refl))
      (Step.enters (task first_request (enter limits 0 first_request none fresh).1 ∷ []) []
        second_request none 5 refl)

both_in-IsLimited : IsLimited limits both_in
both_in-IsLimited = Reach-IsLimited limits same_text both_reached

retry_in_time : (10 ≤ 510) × (510 ≤ 10 + limits.retry_max_ms)
unfolding retry_schedule
retry_in_time = retry_schedule_bounds limits 2 10 510 refl

abbrev in_block : Broadcast
in_block = Broadcast.submitted "0xaa" none none

second_owner_refused :
    (duplicate_tx_hash same_text no_claims "k2" in_block
      (record_all same_text no_claims
        (("k2", in_block, 1) ∷ ("k3", in_block, 1) ∷ [])
        (duplicate_tx_hash same_text no_claims "k1" in_block [] 1).1)
      2).0
    ≡ some (
        Broadcast.failed (
          failed_result "duplicate_tx_hash"
            "broadcast returned a txHash already recorded for another submission" false 2
            (some true)
            none))
unfolding duplicate_tx_hash tx_hash_of truthy get
second_owner_refused =
    duplicate_tx_hash-refused same_text no_claims "k1" "k2" in_block in_block [] 1 2 (λ t k. refl)
      refl refl refl refl refl refl (("k2", in_block, 1) ∷ ("k3", in_block, 1) ∷ [])

abbrev begins : List ℕ → List ℕ → Bool
begins [] text = true
begins (c ∷ word) [] = false
begins (c ∷ word) (d ∷ text) = nat_eq c d && begins word text

abbrev occurs : List ℕ → List ℕ → Bool
occurs word [] = begins word []
occurs word (d ∷ text) = begins word (d ∷ text) || occurs word text

abbrev plain_texts : Texts
plain_texts = record {
  includes = λ text word. occurs (codes word) (codes text);
  includes_any = λ text words. any (λ word. occurs (codes word) (codes text)) words;
}

reverted_settled :
    let c = classify_state_machine_broadcast_error plain_texts none "execution reverted" in
    c.dead_letter ≡ not c.retryable
reverted_settled = classify_state_machine_broadcast_error_lem plain_texts none "execution reverted"
