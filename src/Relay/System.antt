-- ===== src/Relay/System.antt =====
-- Any number of calls of the adapter, interleaved at their awaits.
use uvp_chain_services.Prelude.{
  ℕ, ◌+◌, ◌≤◌, String, Bool, true, false, Option, none, some, List, [], ◌∷◌, ◌++◌, ◌≡◌, arith, ◌==◌,
  ◌&&◌, ◌∙◌,
}
use uvp_chain_services.Submission.Types.{Failure, Broadcast}
use uvp_chain_services.Relay.Results.{Limits, BroadcastState, Claim, with_attempt_metadata}
use uvp_chain_services.Relay.Adapter.{
  Adapter, Request, Phase, current_state_for, enter, leave, found_owner, check_duplicate,
  record_result, fresh,
}

pub record Task : Type 0 where
  pub request : Request
  pub phase : Phase

pub record System : Type 0 where
  pub adapter : Adapter
  pub tasks : List Task

abbrev pub task : Request → Phase → Task
task r p = record { request = r; phase = p }

-- One step of one call, from one await to the next. The clock, the inner adapter's answer and the
-- persistent store's answers are free; every other call stays where it is. Awaits between which a call
-- touches no shared state are one: the audit before the inner adapter with its work, and the saving of
-- the state with the audit of a failure. Without a persistent store the code looks up the owner of a hash
-- and claims the hash with no await between, so the steps then allow more interleavings than the code.
module _ (lim : Limits) (lower_case : String → String) where
  pub data Step (s : System) : System → Type 0 where
    arrive :
        (r : Request) (persisted : Option BroadcastState)
        → Step s (record {
          adapter = s.adapter;
          tasks =
              s.tasks
              ++ task r (Phase.loaded (current_state_for s.adapter persisted r.idempotency_key))
                ∷ [];
        })
    enters :
        (pre post : List Task) (r : Request) (current : Option BroadcastState) (now : ℕ)
        → s.tasks ≡ pre ++ (task r (Phase.loaded current) ∷ post)
        → Step s (record {
          adapter = (enter lim now r current s.adapter).0;
          tasks = pre ++ (task r (enter lim now r current s.adapter).1 ∷ post);
        })
    refused :
        (pre post : List Task) (r : Request) (f : Failure)
        → s.tasks ≡ pre ++ (task r (Phase.limited f) ∷ post)
        → Step s (record {
          adapter = leave r s.adapter;
          tasks = pre ++ (task r (Phase.over (some (Broadcast.failed f))) ∷ post);
        })
    answered :
        (pre post : List Task) (r : Request) (n now : ℕ) (b : Broadcast)
        → s.tasks ≡ pre ++ (task r (Phase.calling n) ∷ post)
        → Step s (record {
          adapter = s.adapter;
          tasks =
              pre
              ++ (task r (
                    Phase.claiming n
                      (with_attempt_metadata lim n now b)
                      (found_owner lower_case (with_attempt_metadata lim n now b) s.adapter))
                  ∷ post);
        })
    claimed :
        (pre post : List Task) (r : Request) (n : ℕ) (seen : Broadcast) (owner : Option String)
        (claim : Claim)
        → s.tasks ≡ pre ++ (task r (Phase.claiming n seen owner) ∷ post)
        → Step s (record {
          adapter = (check_duplicate lower_case claim r n seen owner s.adapter).0;
          tasks =
              pre
              ++ (task r
                    (Phase.decided n (check_duplicate lower_case claim r n seen owner s.adapter).1)
                  ∷ post);
        })
    records :
        (pre post : List Task) (r : Request) (n : ℕ) (result : Broadcast)
        → s.tasks ≡ pre ++ (task r (Phase.decided n result) ∷ post)
        → Step s (record {
          adapter = record_result r n result s.adapter;
          tasks = pre ++ (task r (Phase.saving result) ∷ post);
        })
    returns :
        (pre post : List Task) (r : Request) (result : Broadcast)
        → s.tasks ≡ pre ++ (task r (Phase.saving result) ∷ post)
        → Step s (record {
          adapter = leave r s.adapter;
          tasks = pre ++ (task r (Phase.over (some result)) ∷ post);
        })
    refusal_threw :
        (pre post : List Task) (r : Request) (f : Failure)
        → s.tasks ≡ pre ++ (task r (Phase.limited f) ∷ post)
        → Step s (record {
          adapter = leave r s.adapter;
          tasks = pre ++ (task r (Phase.over none) ∷ post);
        })
    claim_threw :
        (pre post : List Task) (r : Request) (n : ℕ) (seen : Broadcast) (owner : Option String)
        → s.tasks ≡ pre ++ (task r (Phase.claiming n seen owner) ∷ post)
        → Step s (record {
          adapter = leave r s.adapter;
          tasks = pre ++ (task r (Phase.over none) ∷ post);
        })
    saving_threw :
        (pre post : List Task) (r : Request) (result : Broadcast)
        → s.tasks ≡ pre ++ (task r (Phase.saving result) ∷ post)
        → Step s (record {
          adapter = leave r s.adapter;
          tasks = pre ++ (task r (Phase.over none) ∷ post);
        })
    threw :
        (pre post : List Task) (r : Request) (n : ℕ)
        → s.tasks ≡ pre ++ (task r (Phase.calling n) ∷ post)
        → Step s (record {
          adapter = leave r s.adapter;
          tasks = pre ++ (task r (Phase.over none) ∷ post);
        })

  pub data Reach : System → Type 0 where
    start : Reach (record { adapter = fresh; tasks = [] })
    step : {s t : System} → Reach s → Step s t → Reach t

abbrev pub holds_slot : Phase → Bool
holds_slot (Phase.limited f) = true
holds_slot (Phase.calling n) = true
holds_slot (Phase.claiming n seen owner) = true
holds_slot (Phase.decided n result) = true
holds_slot (Phase.saving result) = true
holds_slot _ = false

abbrev pub is_calling : Phase → Bool
is_calling (Phase.calling n) = true
is_calling _ = false

abbrev pub bit : Bool → ℕ
bit true = 1
bit false = 0

-- how many of the tasks of a key are in such a phase; `key_of` picks the order or the submitter
unfoldable pub tally : (Request → String) → (Phase → Bool) → String → List Task → ℕ
tally key_of test k [] = 0
tally key_of test k (t ∷ ts) =
    bit ((key_of t.request == k) && test t.phase) + tally key_of test k ts

pub tally-append :
    (key_of : Request → String) (test : Phase → Bool) (k : String) (xs ys : List Task)
    → tally key_of test k (xs ++ ys) ≡ tally key_of test k xs + tally key_of test k ys
unfolding tally
tally-append key_of test k [] ys = omega arith
tally-append key_of test k (x ∷ xs) ys = omega (arith, tally-append key_of test k xs ys)

bit_calling : (same : Bool) (p : Phase) → bit (same && is_calling p) ≤ bit (same && holds_slot p)
bit_calling same (Phase.calling n) = omega arith
bit_calling true p = omega arith
bit_calling false p = omega arith

pub calling-le-holding :
    (key_of : Request → String) (k : String) (ts : List Task)
    → tally key_of is_calling k ts ≤ tally key_of holds_slot k ts
unfolding tally
calling-le-holding key_of k [] = omega arith
calling-le-holding key_of k (t ∷ ts) =
    omega (arith, bit_calling (key_of t.request == k) t.phase, calling-le-holding key_of k ts)

pub tally-middle :
    (key_of : Request → String) (test : Phase → Bool) (k : String) (pre post : List Task)
    (r : Request) (p : Phase)
    → tally key_of test k (pre ++ (task r p ∷ post))
      ≡ tally key_of test k pre + bit ((key_of r == k) && test p) + tally key_of test k post
tally-middle key_of test k pre post r p =
    tally-append key_of test k pre (task r p ∷ post) ∙ (unfold tally in omega arith)
