-- ===== src/Chain/Tasks.antt =====
-- Product tasks as the indexer projects them: which signals complete a task, and its first proof.
use uvp_chain_services.Prelude.{
  String, Bool, true, false, Option, none, some, List, [], ◌∷◌, ◌==◌, ◌&&◌, ◌||◌, ◌++◌, Dict, get,
  put, values, join, or_default, any, if◌then◌else◌, truthy,
}
use uvp_chain_services.Chain.Pointers.{Sign, Pointer, or_then, compare_chain_pointers}
use uvp_chain_services.Chain.Replay.{is_after}

pub record Proof : Type 0 where
  pub pointer : Pointer
  pub event_id : String
  pub event_name : String

unfoldable pub compare_proof_events : (String → String → Sign) → Proof → Proof → Sign
compare_proof_events locale a b =
    or_then (compare_chain_pointers locale a.pointer b.pointer) (locale a.event_id b.event_id)

pub data TaskStatus : Type 0 where
  ready submitted cancelled unknown : TaskStatus

pub data SignalSource : Type 0 where
  plan_capability authorization : SignalSource

pub record SubmitSignal : Type 0 where
  pub source_id : String
  pub signal_id : String
  pub source : SignalSource

-- the fields of a task that these operations read or write
pub record ChainTask : Type 0 where
  pub order_id : String
  pub hook_id : String
  pub stage_identifier : String
  pub status : TaskStatus
  pub submit_signals : Option (List SubmitSignal)
  pub updated_at : Proof
  pub proof : Proof

-- a signal that the chain has accepted
pub record Signal : Type 0 where
  pub source_id : String
  pub signal_id : String
  pub proof : Proof

pub record SignalAuthorization : Type 0 where
  pub source_id : String
  pub signal_id : String

pub record SignalDelegation : Type 0 where
  pub source_id : String
  pub signal_id : String
  pub target_stage_id : Option String

-- a signal that the plan lets a stage send; `to_current` is `targetOrderRelation === "current"`
pub record SignalCapability : Type 0 where
  pub stage_id : String
  pub to_current : Bool
  pub target_source_id : String
  pub signal_id : String

pub record Order : Type 0 where
  pub order_id : String
  pub contract_address : String
  pub tasks : Dict ChainTask
  pub signals : Dict Signal
  pub authorizations : Dict SignalAuthorization
  pub signal_delegations : Dict SignalDelegation

unfoldable pub task_projection_id : String → String → Option String → String
unfolding join truthy
task_projection_id order_id hook_id address =
    if truthy address
    then join ":" (or_default address "" ∷ order_id ∷ hook_id ∷ [])
    else join ":" (order_id ∷ hook_id ∷ [])

unfoldable pub signal_projection_key : String → String → String
unfolding join
signal_projection_key source_id signal_id = join ":" (source_id ∷ signal_id ∷ [])

abbrev pub names : String → String → SubmitSignal → Bool
names source_id signal_id s = (s.source_id == source_id) && (s.signal_id == signal_id)

unfoldable pub task_matches_submitted_signal : ChainTask → String → String → Bool
unfolding any
task_matches_submitted_signal t source_id signal_id =
    any (names source_id signal_id) (or_default t.submit_signals [])
    || (t.hook_id == source_id)
    || (t.hook_id == signal_id)

abbrev pub is_plan : SignalSource → Bool
is_plan SignalSource.plan_capability = true
is_plan SignalSource.authorization = false

abbrev pub keeps_plan : Option SubmitSignal → Bool
keeps_plan none = false
keeps_plan (some s) = is_plan s.source

-- one turn of the loop: a plan's signal is not replaced
unfoldable pub put_signal : SubmitSignal → Dict SubmitSignal → Dict SubmitSignal
unfolding signal_projection_key
put_signal s by_key =
    let key = signal_projection_key s.source_id s.signal_id in
    if keeps_plan (get key by_key) then by_key else put key s by_key

unfoldable pub put_signals : List SubmitSignal → Dict SubmitSignal → Dict SubmitSignal
put_signals [] by_key = by_key
put_signals (s ∷ ss) by_key = put_signals ss (put_signal s by_key)

abbrev pub source_order : SignalSource → SignalSource → Sign
source_order SignalSource.plan_capability SignalSource.authorization = Sign.before
source_order SignalSource.authorization SignalSource.plan_capability = Sign.after
source_order _ _ = Sign.same

abbrev pub marked : ChainTask → ChainTask → Sign → TaskStatus → ChainTask × Bool
marked old new position TaskStatus.cancelled = (old, false)
marked old new Sign.before TaskStatus.submitted = (new, true)
marked old new _ TaskStatus.submitted = (old, false)
marked old new position _ = (new, true)

module _ (locale : String → String → Sign) where
  unfoldable pub compare_task_submit_signals : SubmitSignal → SubmitSignal → Sign
  compare_task_submit_signals a b =
      or_then (source_order a.source b.source)
        (or_then (locale a.source_id b.source_id) (locale a.signal_id b.signal_id))

  unfoldable pub insert_signal : SubmitSignal → List SubmitSignal → List SubmitSignal
  insert_signal s [] = s ∷ []
  insert_signal s (x ∷ xs) =
      let rest = insert_signal s xs in
      if is_after (compare_task_submit_signals s x) then x ∷ rest else s ∷ x ∷ xs

  unfoldable pub sort_signals : List SubmitSignal → List SubmitSignal
  sort_signals [] = []
  sort_signals (s ∷ ss) = insert_signal s (sort_signals ss)

  unfoldable pub dedupe_task_submit_signals : List SubmitSignal → List SubmitSignal
  dedupe_task_submit_signals signals = sort_signals (values (put_signals signals []))

  unfoldable pub add_task_submit_signal : ChainTask → SubmitSignal → ChainTask
  add_task_submit_signal t s = record t {
    submit_signals = some (dedupe_task_submit_signals (or_default t.submit_signals [] ++ s ∷ []));
  }

  -- a submitted task takes only an earlier proof; a cancelled one takes none
  unfoldable pub mark_task_submitted : ChainTask → Proof → ChainTask × Bool
  unfolding compare_proof_events
  mark_task_submitted t p =
      let first = record t { status = TaskStatus.submitted; updated_at = p; proof = p } in
      marked t first (compare_proof_events locale p t.proof) t.status

  -- the proofs of the order's signals that complete the task, in the order of the entries
  unfoldable pub matching_proofs : ChainTask → List Signal → List Proof
  unfolding task_matches_submitted_signal
  matching_proofs t [] = []
  matching_proofs t (s ∷ ss) =
      let rest = matching_proofs t ss in
      if task_matches_submitted_signal t s.source_id s.signal_id then s.proof ∷ rest else rest

  -- the earlier of two proofs; of two at the same place, the first
  abbrev pub earlier : Proof → Option Proof → Proof
  earlier p none = p
  earlier p (some q) = if is_after (compare_proof_events locale p q) then q else p

  -- the first of the sorted proofs
  unfoldable pub first_proof : List Proof → Option Proof
  unfolding compare_proof_events
  first_proof [] = none
  first_proof (p ∷ ps) = some (earlier p (first_proof ps))

  abbrev pub marked_by : ChainTask → Option Proof → ChainTask × Bool
  marked_by t none = (t, false)
  marked_by t (some p) = mark_task_submitted t p

  unfoldable pub mark_task_submitted_from_existing_signals : Order → ChainTask → ChainTask × Bool
  unfolding values
  mark_task_submitted_from_existing_signals o t =
      marked_by t (first_proof (matching_proofs t (values o.signals)))

  unfoldable pub mark_each : String → String → Proof → Dict ChainTask → Dict ChainTask
  mark_each source_id signal_id p [] = []
  mark_each source_id signal_id p ((k, t) ∷ ts) =
      let rest = mark_each source_id signal_id p ts in
      if task_matches_submitted_signal t source_id signal_id
      then (k, (mark_task_submitted t p).0) ∷ rest
      else (k, t) ∷ rest

  unfoldable pub mark_matching_tasks_submitted : Order → String → String → Proof → Order
  mark_matching_tasks_submitted o source_id signal_id p = record o {
    tasks = mark_each source_id signal_id p o.tasks;
  }

abbrev pub cancelled_by : Proof → ChainTask → ChainTask
cancelled_by p t = record t { status = TaskStatus.cancelled; updated_at = p; proof = p }

abbrev cancel_found : String → Proof → Option ChainTask → Order → Order
cancel_found id p none o = o
cancel_found id p (some t) o = record o { tasks = put id (cancelled_by p t) o.tasks }

unfoldable pub cancel_task : Order → String → Proof → Order
unfolding task_projection_id
cancel_task o hook_id p =
    let id = task_projection_id o.order_id hook_id (some o.contract_address) in
    cancel_found id p (get id o.tasks) o
