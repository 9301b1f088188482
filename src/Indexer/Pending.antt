-- ===== src/Indexer/Pending.antt =====
-- service/src/indexer/service.ts: the queue of steps that failed after a commit, and the sweep that
-- tries them again. The queue is that of service/src/storage/projection-store.ts, by step identifier.
use uvp_chain_services.Indexer.Store.{StoredEvent}
use uvp_chain_services.Prelude.{
  ℕ, suc, ◌+◌, String, Bool, true, false, not, Option, none, some, List, [], ◌∷◌, ◌++◌, ◌||◌, ltb,
  leb, if◌then◌else◌, Dict, get, put, delete, values,
}
use uvp_chain_services.Prelude.Exec.{Outcome, done, thrown, Exec, pure, throw, attempt, ◌>>=◌, ◌>>◌}

pub data PendingKind : Type 0 where
  signal_notification projection_automation : PendingKind

pub record PendingStep : Type 0 where
  pub step_id : String
  pub kind : PendingKind
  pub events : List StoredEvent
  pub attempts : ℕ

-- a wait for finality, or any other error
pub data SweepError : Type 0 where
  finality_wait undelivered : SweepError

pub record SweepSummary : Type 0 where
  pub swept : ℕ
  pub delivered : ℕ
  pub failed : ℕ
  pub waiting_finality : ℕ

-- the processors, where there are any, the finalized block of the sync state, and which calls of the
-- queue fail
pub record Processors : Type 0 where
  pub has_notification : Bool
  pub has_automation : Bool
  pub process_events : ℕ → List StoredEvent → Outcome SweepError (Unit {0})
  pub process_projection : ℕ → Outcome SweepError (Unit {0})
  pub finalized_block : Option ℕ
  pub queue_fails : ℕ → Bool

-- `notified` has the batches that were handed to the notification processor
pub record Sweep : Type 0 where
  pub tick : ℕ
  pub pending : Dict PendingStep
  pub summary : SweepSummary
  pub notified : List (List StoredEvent)

abbrev pub Sweeping : Type 0 → Type 0
Sweeping A = Exec SweepError Sweep A

abbrev pub max_sweep_attempts : ℕ
max_sweep_attempts = 16

abbrev pub tick_on : Sweep → Sweep
tick_on w = record w { tick = suc w.tick }

unfoldable pub read_queue : {A : Type 0} → Processors → (Sweep → A) → Sweeping A
read_queue env f w =
    if env.queue_fails w.tick then (thrown undelivered, tick_on w) else (done (f w), tick_on w)

unfoldable pub write_queue :
    Processors → (Dict PendingStep → Dict PendingStep) → Sweeping (Unit {0})
write_queue env f w =
    if env.queue_fails w.tick
    then (thrown undelivered, tick_on w)
    else (done tt, record w { tick = suc w.tick; pending = f w.pending })

unfoldable pub notify : Processors → List StoredEvent → Sweeping (Unit {0})
notify env events w = (
  env.process_events w.tick events,
  record w { tick = suc w.tick; notified = w.notified ++ events ∷ [] },
)

unfoldable pub automate : Processors → Sweeping (Unit {0})
automate env w = (env.process_projection w.tick, tick_on w)

unfoldable pub tally_sweep : (SweepSummary → SweepSummary) → Sweeping (Unit {0})
tally_sweep f w = (done tt, record w { summary = f w.summary })

unfoldable pub max_event_block : ℕ → List StoredEvent → ℕ
max_event_block m [] = m
max_event_block m (e ∷ es) = max_event_block (if ltb m e.block_number then e.block_number else m) es

abbrev pub is_above : ℕ → Option ℕ → Bool
is_above block none = false
is_above block (some finalized) = ltb finalized block

abbrev pub has_none {ℓ} : {A : Type ℓ} → List A → Bool
has_none [] = true
has_none (x ∷ xs) = false

abbrev pub one_swept : SweepSummary → SweepSummary
one_swept s = record s { swept = s.swept + 1 }

abbrev pub one_delivered : SweepSummary → SweepSummary
one_delivered s = record s { delivered = s.delivered + 1 }

abbrev pub one_undelivered : SweepSummary → SweepSummary
one_undelivered s = record s { failed = s.failed + 1 }

abbrev pub one_waiting : SweepSummary → SweepSummary
one_waiting s = record s { waiting_finality = s.waiting_finality + 1 }

-- a batch is delivered when all of it is final
unfoldable pub deliver_batch : Processors → List StoredEvent → Sweeping (Unit {0})
unfolding read_queue notify max_event_block
deliver_batch env events =
    if not env.has_notification || has_none events
    then throw undelivered
    else read_queue env (λ _. env.finalized_block) >>= λ finalized.
        if is_above (max_event_block 0 events) finalized
        then throw finality_wait
        else notify env events

abbrev pub deliver_kind : Processors → PendingStep → PendingKind → Sweeping (Unit {0})
deliver_kind env step PendingKind.signal_notification = deliver_batch env step.events
deliver_kind env step PendingKind.projection_automation =
    if env.has_automation then automate env else throw undelivered

unfoldable pub deliver_pending_post_commit_step : Processors → PendingStep → Sweeping (Unit {0})
unfolding deliver_batch automate
deliver_pending_post_commit_step env step = deliver_kind env step step.kind

abbrev pub attempted : String → Option PendingStep → Dict PendingStep → Dict PendingStep
attempted id none queue = queue
attempted id (some s) queue = put id (record s { attempts = s.attempts + 1 }) queue

abbrev pub ignoring : Sweeping (Unit {0}) → Sweeping (Unit {0})
ignoring m = attempt m (λ _. pure tt)

-- a step is dropped when its budget is used up; a wait for finality uses none of it
abbrev pub not_delivered : Processors → PendingStep → SweepError → Sweeping (Unit {0})
not_delivered env step finality_wait = tally_sweep one_waiting
not_delivered env step undelivered =
    tally_sweep one_undelivered
    >> ignoring (
        write_queue env (
          if leb max_sweep_attempts (step.attempts + 1)
          then delete step.step_id
          else (λ queue. attempted step.step_id (get step.step_id queue) queue)))

unfoldable pub sweep_step : Processors → PendingStep → Sweeping (Unit {0})
unfolding deliver_pending_post_commit_step write_queue tally_sweep delete get put
sweep_step env step =
    tally_sweep one_swept
    >> attempt
        (deliver_pending_post_commit_step env step
          >> write_queue env (delete step.step_id)
          >> tally_sweep one_delivered)
        (not_delivered env step)

unfoldable pub sweep_steps : Processors → List PendingStep → Sweeping (Unit {0})
unfolding sweep_step
sweep_steps env [] = pure tt
sweep_steps env (s ∷ ss) = sweep_step env s >> sweep_steps env ss

abbrev pub no_sweep : SweepSummary
no_sweep = record { swept = 0; delivered = 0; failed = 0; waiting_finality = 0 }

unfoldable pub sweep_pending_post_commit_steps : Processors → Sweeping SweepSummary
unfolding read_queue sweep_steps values
sweep_pending_post_commit_steps env w =
    (read_queue env (λ v. values v.pending) >>= λ steps.
    sweep_steps env steps >> λ v. (done v.summary, v))
      (record w { summary = no_sweep })
