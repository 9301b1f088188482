-- ===== src/Indexer/SweepTests.antt =====
-- A queue of two batches, one of which is not final yet.
use uvp_chain_services.Indexer.Store.{StoredEvent}
use uvp_chain_services.Indexer.Pending.{
  PendingStep, PendingKind, SweepSummary, Processors, Sweep, read_queue, write_queue, notify,
  automate, tally_sweep, max_event_block, deliver_batch, deliver_pending_post_commit_step,
  sweep_step, sweep_steps, sweep_pending_post_commit_steps, no_sweep,
}
use uvp_chain_services.Indexer.Finality.{AllFinal, sweep-AllFinal}
use uvp_chain_services.Indexer.Accounts.{IsSummed, sweep-IsSummed}
use uvp_chain_services.Prelude.Exec.{done, pure, throw, attempt, ◌>>=◌}
use uvp_chain_services.Prelude.{
  get, put, delete, values, true, ℕ, ◌∷◌, ◌≡◌, String, refl, none, false, [], some,
}

abbrev event_at : ℕ → StoredEvent
event_at b = record { key = "log"; block_number = b; block_hash = none; removed = false }

abbrev batch_at : String → ℕ → PendingStep
batch_at id b = record {
  step_id = id;
  kind = PendingKind.signal_notification;
  events = event_at b ∷ [];
  attempts = 0;
}

abbrev processors : Processors
processors = record {
  has_notification = true;
  has_automation = false;
  process_events = λ n events. done tt;
  process_projection = λ n. done tt;
  finalized_block = some 10;
  queue_fails = λ n. false;
}

abbrev queued : Sweep
queued = record {
  tick = 0;
  pending = ("a", batch_at "a" 3) ∷ ("b", batch_at "b" 20) ∷ [];
  summary = no_sweep;
  notified = [];
}

abbrev one_waits : SweepSummary
one_waits = record { swept = 2; delivered = 1; failed = 0; waiting_finality = 1 }

swept_returns : (sweep_pending_post_commit_steps processors queued).0 ≡ done one_waits
unfolding sweep_pending_post_commit_steps sweep_steps sweep_step read_queue write_queue notify
    automate tally_sweep max_event_block deliver_batch deliver_pending_post_commit_step pure throw
    attempt ◌>>=◌ get put delete values
swept_returns = refl

swept-AllFinal : AllFinal 10 (sweep_pending_post_commit_steps processors queued).1
swept-AllFinal = sweep-AllFinal 10 processors refl queued tt

swept-IsSummed : IsSummed one_waits
swept-IsSummed = sweep-IsSummed processors queued one_waits swept_returns
