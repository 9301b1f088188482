-- ===== src/Chain/Tests.antt =====
-- The theorems about chain facts, applied to a few events of one block.
use uvp_chain_services.Chain.Refresh.{refresh_task_submit_signals}
use uvp_chain_services.Chain.Sourced.{is_sourced, refresh_task_submit_signals_lem}
use uvp_chain_services.Chain.Signals.{first_plan, last_named, put_signals_lem}
use uvp_chain_services.Prelude.{
  ℕ, String, true, none, some, [], ◌∷◌, ◌≡◌, refl, arith, codes, length, get, values, Option, List,
  false, is_some, or_else, All, or_default,
}
use uvp_chain_services.Chain.Pointers.{Sign, Pointer, difference, compare_chain_pointers}
use uvp_chain_services.Chain.Transitive.{
  IsOrder, IndexedPointer, by_key-IsOrder, difference-IsOrder, compare_chain_pointers-IsOrder,
  compare_chain_pointers_circle,
}
use uvp_chain_services.Chain.Replay.{
  Runtime, ChainEvent, replayed, sort_chain_events, chain_event_key,
}
use uvp_chain_services.Chain.Active.{last_with, live, buried, replayed-last_with}
use uvp_chain_services.Chain.Tasks.{
  Proof, TaskStatus, ChainTask, Order, SignalSource, matching_proofs, task_matches_submitted_signal,
  mark_task_submitted_from_existing_signals, SubmitSignal, put_signals, SignalCapability,
}
use uvp_chain_services.Chain.Earliest.{mark_all, mark_all-existing}

-- texts by their length
abbrev by_size : String → String → Sign
by_size a b = difference (length (codes a)) (length (codes b))

by_size-IsOrder : IsOrder by_size
by_size-IsOrder = by_key-IsOrder (λ s. length (codes s)) difference-IsOrder

abbrev at : Option ℕ → ℕ → Pointer
at index log = record {
  chain_id = 1;
  contract_address = "0xc";
  block_number = 10;
  transaction_index = index;
  transaction_hash = "0xh";
  log_index = log;
}

pointers_ordered : IsOrder (λ (a b : IndexedPointer). compare_chain_pointers by_size a.0 b.0)
pointers_ordered = compare_chain_pointers-IsOrder by_size-IsOrder

three_in_a_circle :
    (compare_chain_pointers by_size (at none 5) (at (some 1) 9) ≡ Sign.before)
    × (compare_chain_pointers by_size (at (some 1) 9) (at (some 2) 1) ≡ Sign.before)
    × (compare_chain_pointers by_size (at (some 2) 1) (at none 5) ≡ Sign.before)
three_in_a_circle =
    compare_chain_pointers_circle by_size 1 10 1 2 1 5 9 "0xc" "0xh" "0xh" "0xh" (omega arith)
      (omega arith) (omega arith)

abbrev runtime : Runtime
runtime = record { decimal = λ n. "1"; lower_case = λ s. s; locale = by_size }

abbrev seen : ChainEvent String
seen = record { pointer = at (some 1) 9; event_name = "e"; args = "a"; removed = false }

abbrev tombstone : ChainEvent String
tombstone = record { pointer = at (some 1) 9; event_name = "e"; args = "a"; removed = true }

abbrev events : List (ChainEvent String)
events = seen ∷ tombstone ∷ seen ∷ []

came_back :
    let last =
      last_with runtime (chain_event_key runtime seen) (sort_chain_events runtime events) in
    (get (chain_event_key runtime seen) (replayed runtime events).active_by_event_id
      ≡ live runtime last none)
    × (is_some (get (chain_event_key runtime seen) (replayed runtime events).removed_event_ids)
        ≡ buried runtime last false)
came_back = replayed-last_with runtime events (chain_event_key runtime seen)

abbrev proof_at : ℕ → Proof
proof_at log = record { pointer = at (some 1) log; event_id = "id"; event_name = "e" }

abbrev waiting : ChainTask
waiting = record {
  order_id = "o";
  hook_id = "h";
  stage_identifier = "s";
  status = TaskStatus.ready;
  submit_signals =
      some
        (record { source_id = "a"; signal_id = "b"; source = SignalSource.plan_capability } ∷ []);
  updated_at = proof_at 1;
  proof = proof_at 1;
}

abbrev order : Order
order = record {
  order_id = "o";
  contract_address = "0xc";
  tasks = [];
  signals =
      ("1", record { source_id = "a"; signal_id = "b"; proof = proof_at 7 })
      ∷ ("2", record { source_id = "a"; signal_id = "x"; proof = proof_at 2 })
      ∷ ("3", record { source_id = "h"; signal_id = "y"; proof = proof_at 5 })
      ∷ [];
  authorizations = [];
  signal_delegations = [];
}

same_task :
    mark_all by_size waiting (matching_proofs by_size waiting (values order.signals))
    ≡ (mark_task_submitted_from_existing_signals by_size order waiting).0
unfolding matching_proofs task_matches_submitted_signal values
same_task = mark_all-existing by_size by_size-IsOrder order waiting refl (refl, (refl, tt))

abbrev from_plan : SubmitSignal
from_plan = record { source_id = "a"; signal_id = "b"; source = SignalSource.plan_capability }

abbrev granted : SubmitSignal
granted = record { source_id = "a"; signal_id = "b"; source = SignalSource.authorization }

plan_kept :
    let signals = granted ∷ from_plan ∷ granted ∷ [] in
    get "a:b" (put_signals signals [])
    ≡ or_else (first_plan "a:b" signals) (last_named "a:b" signals)
plan_kept = put_signals_lem (granted ∷ from_plan ∷ granted ∷ []) "a:b"

abbrev capability : SignalCapability
capability = record { stage_id = "s"; to_current = true; target_source_id = "a"; signal_id = "b" }

abbrev open_order : Order
open_order = record order {
  authorizations = ("k", record { source_id = "h"; signal_id = "z" }) ∷ [];
  signal_delegations =
      ("k", record { source_id = "d"; signal_id = "e"; target_stage_id = some "s" }) ∷ [];
}

refreshed_sources :
    All
      (λ s. is_sourced open_order (some (capability ∷ [])) waiting s ≡ true)
      (or_default
        (refresh_task_submit_signals by_size open_order
          (some (capability ∷ []))
          waiting).submit_signals
        [])
refreshed_sources =
    refresh_task_submit_signals_lem by_size open_order (some (capability ∷ [])) waiting
