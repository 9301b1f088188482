-- ===== src/Indexer/Accounts.antt =====
-- The counters of a sweep and the steps of its queue.
use uvp_chain_services.Prelude.Runs.{bind-elim}
use uvp_chain_services.Indexer.Store.{StoredEvent}
use uvp_chain_services.Prelude.{
  List, Dict, ◌≡◌, Bool, arith, ◌+◌, if◌then◌else◌, true, false, refl, ◌∷◌, delete, values, subst,
  ◌∙◌, sym, leb, get, [],
}
use uvp_chain_services.Indexer.Pending.{
  PendingStep, PendingKind, SweepSummary, Processors, Sweep, read_queue, write_queue, notify,
  automate, deliver_batch, deliver_kind, finality_wait, tally_sweep, sweep_step, is_above,
  sweep_pending_post_commit_steps, sweep_steps, SweepError, deliver_pending_post_commit_step,
  max_event_block, tick_on, one_swept, not_delivered, one_delivered, no_sweep, one_waiting,
  max_sweep_attempts, attempted, one_undelivered,
}
use uvp_chain_services.Prelude.Exec.{
  throw, ◌>>=◌, Outcome, pure, done, attempt, and_then, recover_from, thrown,
}

abbrev pub IsSummed : SweepSummary → Type 0
IsSummed s = s.swept ≡ s.delivered + s.failed + s.waiting_finality

module _ (env : Processors) where
  handing_over :
      (b : Bool) (events : List StoredEvent) (w : Sweep)
      → ((if b then throw finality_wait else notify env events) w).1.summary ≡ w.summary
  unfolding notify throw
  handing_over true events w = refl
  handing_over false events w = refl

  deliver_batch_uncounted :
      (events : List StoredEvent) (w : Sweep) → (deliver_batch env events w).1.summary ≡ w.summary
  unfolding deliver_batch read_queue throw ◌>>=◌
  deliver_batch_uncounted events w = ground (
    arith,
    handing_over (is_above (max_event_block 0 events) env.finalized_block) events (tick_on w),
  )

  deliver_uncounted :
      (step : PendingStep) (k : PendingKind) (w : Sweep)
      → (deliver_kind env step k w).1.summary ≡ w.summary
  unfolding automate throw
  deliver_uncounted step PendingKind.signal_notification w = deliver_batch_uncounted step.events w
  deliver_uncounted step PendingKind.projection_automation w = ground arith

  write_uncounted :
      (f : Dict PendingStep → Dict PendingStep) (w : Sweep)
      → (write_queue env f w).1.summary ≡ w.summary
  unfolding write_queue
  write_uncounted f w = ground arith

  read_uncounted :
      {A : Type 0} (f : Sweep → A) (w : Sweep) → (read_queue env f w).1.summary ≡ w.summary
  unfolding read_queue
  read_uncounted f w = ground arith

  same_summary :
      {a b : Outcome SweepError SweepSummary} {s t : SweepSummary}
      → a ≡ b
      → a ≡ done s
      → b ≡ done t
      → s ≡ t
  same_summary h k l = cc (h, k, l)

  ignored :
      (r : Outcome SweepError (Unit {0})) (v : Sweep)
      → (recover_from r (λ _. pure tt) v).1.summary ≡ v.summary
  unfolding pure
  ignored (done u) v = refl
  ignored (thrown e) v = refl

  -- the step that the sweep has begun to count is counted once
  module _ (step : PendingStep) (s : SweepSummary) (h : IsSummed s) where
    counted :
        (e : SweepError) (v : Sweep)
        → v.summary ≡ one_swept s
        → IsSummed (not_delivered env step e v).1.summary
    unfolding tally_sweep attempt ◌>>=◌
    counted SweepError.finality_wait v q =
        subst (λ t. IsSummed (one_waiting t)) (sym q) (omega (arith, h))
    counted SweepError.undelivered v q =
        let f =
          if leb max_sweep_attempts (step.attempts + 1)
          then delete step.step_id
          else (λ (queue : Dict PendingStep).
              attempted step.step_id (get step.step_id queue) queue) in
        let v' : Sweep = record v { summary = one_undelivered v.summary } in
        subst IsSummed
          (sym (ignored (write_queue env f v').0 (write_queue env f v').1 ∙ write_uncounted f v'))
          (subst (λ t. IsSummed (one_undelivered t)) (sym q) (omega (arith, h)))

    after_write :
        (r : Outcome SweepError (Unit {0})) (v : Sweep)
        → v.summary ≡ one_swept s
        → let x = and_then r (λ _. tally_sweep one_delivered) v in
          IsSummed (recover_from x.0 (not_delivered env step) x.1).1.summary
    unfolding tally_sweep
    after_write (done u) v q = subst (λ t. IsSummed (one_delivered t)) (sym q) (omega (arith, h))
    after_write (thrown e) v q = counted e v q

    after_delivery :
        (r : Outcome SweepError (Unit {0})) (v : Sweep)
        → v.summary ≡ one_swept s
        → let y = and_then r (λ _. write_queue env (delete step.step_id)) v in
          let x = and_then y.0 (λ _. tally_sweep one_delivered) y.1 in
          IsSummed (recover_from x.0 (not_delivered env step) x.1).1.summary
    after_delivery (done u) v q =
        after_write (write_queue env (delete step.step_id) v).0
          (write_queue env (delete step.step_id) v).1 (write_uncounted (delete step.step_id) v ∙ q)
    after_delivery (thrown e) v q = counted e v q

  sweep_step-IsSummed :
      (step : PendingStep) (w : Sweep)
      → IsSummed w.summary
      → IsSummed (sweep_step env step w).1.summary
  unfolding sweep_step deliver_pending_post_commit_step tally_sweep attempt ◌>>=◌
  sweep_step-IsSummed step w h =
      let w₁ : Sweep = record w { summary = one_swept w.summary } in
      after_delivery step w.summary h (deliver_kind env step step.kind w₁).0
        (deliver_kind env step step.kind w₁).1 (deliver_uncounted step step.kind w₁)

  abbrev Summed : Outcome SweepError (Unit {0}) × Sweep → Type 0
  Summed x = IsSummed x.1.summary

  sweep_steps-IsSummed :
      (steps : List PendingStep) (w : Sweep) → IsSummed w.summary → Summed (sweep_steps env steps w)
  unfolding sweep_steps pure ◌>>=◌
  sweep_steps-IsSummed [] w h = h
  sweep_steps-IsSummed (s ∷ ss) w h =
      rest (λ v k. sweep_steps-IsSummed ss v k) (sweep_step env s w).0 (sweep_step env s w).1
        (sweep_step-IsSummed s w h)
    where
      rest :
          ((v : Sweep) → IsSummed v.summary → Summed (sweep_steps env ss v))
          → (r : Outcome SweepError (Unit {0})) (v : Sweep) → IsSummed v.summary
          → Summed (and_then r (λ _. sweep_steps env ss) v)
      rest go (done u) v k = go v k
      rest go (thrown e) v k = k

  -- In the summary that a sweep returns, each step that was taken up is counted once more: as
  -- delivered, as failed or as waiting for finality.
  pub sweep-IsSummed :
      (w : Sweep) (s : SweepSummary)
      → (sweep_pending_post_commit_steps env w).0 ≡ done s
      → IsSummed s
  unfolding sweep_pending_post_commit_steps
  sweep-IsSummed w s =
      bind-elim (λ x. x.0 ≡ done s → IsSummed s) (read_queue env (λ v. values v.pending)) _
        (record w { summary = no_sweep }) (λ e v h. absurd (cc h))
        λ steps v q.
          bind-elim (λ x. x.0 ≡ done s → IsSummed s) (sweep_steps env steps) _ v
            (λ e v₁ h. absurd (cc h))
            λ u v₁ q₁ h. subst IsSummed (same_summary h refl refl) (
              subst Summed q₁ (
                sweep_steps-IsSummed steps v (
                  subst
                    (λ (x : Outcome SweepError (List PendingStep) × Sweep). IsSummed x.1.summary) q
                    (subst IsSummed
                      (sym
                        (read_uncounted (λ v. values v.pending) (record w { summary = no_sweep })))
                      refl))))
