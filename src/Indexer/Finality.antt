-- ===== src/Indexer/Finality.antt =====
-- The finality of the events that a sweep hands over.
use uvp_chain_services.Prelude.{
  ℕ, Dict, List, Bool, All, arith, ◌≡◌, if◌then◌else◌, some, ◌++◌, ◌≤◌, ◌∷◌, ltb, true, ltb→le, [],
  false, Option, values, refl, Bool-cases, inl, inr, subst, sym,
}
use Prim.Native.Nat.{ℕ}
use uvp_chain_services.Indexer.Store.{StoredEvent}
use uvp_chain_services.Indexer.Pending.{
  one_swept, one_delivered, PendingStep, SweepError, SweepSummary, Processors, Sweep, Sweeping,
  read_queue, write_queue, notify, tally_sweep, max_event_block, deliver_batch,
  deliver_pending_post_commit_step, sweep_step, sweep_steps, sweep_pending_post_commit_steps,
  is_above, finality_wait, undelivered, automate, not_delivered, no_sweep, PendingKind,
  deliver_kind, tick_on,
}
use uvp_chain_services.Prelude.Exec.{
  Outcome, done, thrown, pure, throw, attempt, and_then, recover_from, ◌>>=◌,
}

abbrev pub IsFinal : ℕ → List StoredEvent → Type 0
IsFinal bound events = All (λ (e : StoredEvent). e.block_number ≤ bound) events

abbrev pub AllFinal : ℕ → Sweep → Type 0
AllFinal bound w = All (IsFinal bound) w.notified

module _ (bound : ℕ) where
  abbrev Keeps : {A : Type 0} → Sweeping A → Type 0
  Keeps m = (w : Sweep) → AllFinal bound w → AllFinal bound (m w).1

  module _ {A B : Type 0} where
    goes_on :
        (r : Outcome SweepError A) (f : A → Sweeping B)
        → ((a : A) → Keeps (f a))
        → (w : Sweep) → AllFinal bound w
        → AllFinal bound (and_then r f w).1
    goes_on (done a) f k w h = k a w h
    goes_on (thrown e) f k w h = h

    Keeps-bind :
        (m : Sweeping A) (f : A → Sweeping B) → Keeps m → ((a : A) → Keeps (f a)) → Keeps (m >>= f)
    unfolding ◌>>=◌
    Keeps-bind m f km kf w h = goes_on (m w).0 f kf (m w).1 (km w h)

  module _ {A : Type 0} where
    recovers :
        (r : Outcome SweepError A) (f : SweepError → Sweeping A)
        → ((e : SweepError) → Keeps (f e))
        → (w : Sweep) → AllFinal bound w
        → AllFinal bound (recover_from r f w).1
    recovers (done a) f k w h = h
    recovers (thrown e) f k w h = k e w h

    Keeps-attempt :
        (m : Sweeping A) (f : SweepError → Sweeping A)
        → Keeps m
        → ((e : SweepError) → Keeps (f e))
        → Keeps (attempt m f)
    unfolding attempt
    Keeps-attempt m f km kf w h = recovers (m w).0 f kf (m w).1 (km w h)

    Keeps-if : (b : Bool) (m n : Sweeping A) → Keeps m → Keeps n → Keeps (if b then m else n)
    Keeps-if true m n km kn = km
    Keeps-if false m n km kn = kn

    Keeps-pure : (a : A) → Keeps (pure a)
    unfolding pure
    Keeps-pure a w h = h

    Keeps-read : (env : Processors) (f : Sweep → A) → Keeps (read_queue env f)
    unfolding read_queue
    Keeps-read env f w h = ground (arith, h)

  Keeps-throw : (e : SweepError) → Keeps (throw {A = Unit {0}} e)
  unfolding throw
  Keeps-throw e w h = h

  Keeps-write :
      (env : Processors) (f : Dict PendingStep → Dict PendingStep) → Keeps (write_queue env f)
  unfolding write_queue
  Keeps-write env f w h = ground (arith, h)

  Keeps-tally : (f : SweepSummary → SweepSummary) → Keeps (tally_sweep f)
  unfolding tally_sweep
  Keeps-tally f w h = h

  -- the largest block bounds every block
  below_max :
      (m : ℕ) (es : List StoredEvent)
      → max_event_block m es ≤ bound
      → (m ≤ bound) × IsFinal bound es
  unfolding max_event_block
  below_max m [] h = (h, tt)
  below_max m (e ∷ es) h =
      let (here, rest) = below_max (if ltb m e.block_number then e.block_number else m) es h in
      (ground (arith, here), (ground (arith, here), rest))

  added :
      (events : List StoredEvent)
      → IsFinal bound events
      → (bs : List (List StoredEvent)) → All (IsFinal bound) bs
      → All (IsFinal bound) (bs ++ events ∷ [])
  added events h [] k = (h, tt)
  added events h (b ∷ bs) (k, ks) = (k, added events h bs ks)

  module _ (env : Processors) (e : env.finalized_block ≡ some bound) where
    handed-Keeps :
        (events : List StoredEvent)
        → Keeps (
            if is_above (max_event_block 0 events) (some bound)
            then throw finality_wait
            else notify env events)
    unfolding notify
    handed-Keeps events = split (ltb bound (max_event_block 0 events)) refl
      where
        split :
            (b : Bool)
            → ltb bound (max_event_block 0 events) ≡ b
            → Keeps (if b then throw finality_wait else notify env events)
        split true q w h = Keeps-throw finality_wait w h
        split false q w h =
            added events (below_max 0 events (ltb→le bound (max_event_block 0 events) q)).1
              w.notified h

    known :
        (g : Option ℕ → Sweeping (Unit {0}))
        → Keeps (g (some bound))
        → Keeps (read_queue env (λ _. env.finalized_block) >>= g)
    unfolding read_queue ◌>>=◌
    known g k w h = elim (Bool-cases (env.queue_fails w.tick)) [
      | inl q ↦ simp q h
      | inr q ↦ simp q (subst (λ f. AllFinal bound (g f (tick_on w)).1) (sym e) (k (tick_on w) h))
    ]

    not_delivered-Keeps : (step : PendingStep) (q : SweepError) → Keeps (not_delivered env step q)
    not_delivered-Keeps step finality_wait = Keeps-tally _
    not_delivered-Keeps step undelivered =
        Keeps-bind _ _ (Keeps-tally _) λ _. Keeps-attempt _ _ (Keeps-write env _) λ _. Keeps-pure tt

    deliver_batch-Keeps : (events : List StoredEvent) → Keeps (deliver_batch env events)
    unfolding deliver_batch
    deliver_batch-Keeps events =
        Keeps-if _ _ _ (Keeps-throw undelivered) (known _ (handed-Keeps events))

    deliver_kind-Keeps : (step : PendingStep) (k : PendingKind) → Keeps (deliver_kind env step k)
    unfolding automate
    deliver_kind-Keeps step PendingKind.signal_notification = deliver_batch-Keeps step.events
    deliver_kind-Keeps step PendingKind.projection_automation =
        Keeps-if env.has_automation _ _ (λ w h. h) (Keeps-throw undelivered)

    sweep_step-Keeps : (step : PendingStep) → Keeps (sweep_step env step)
    unfolding sweep_step deliver_pending_post_commit_step
    sweep_step-Keeps step = Keeps-bind (tally_sweep one_swept) _ (Keeps-tally one_swept) λ _.
        Keeps-attempt _ _
          (Keeps-bind _ _
            (Keeps-bind _ _ (deliver_kind-Keeps step step.kind) λ _. Keeps-write env _)
            λ _. Keeps-tally one_delivered)
          (not_delivered-Keeps step)

    sweep_steps-Keeps : (steps : List PendingStep) → Keeps (sweep_steps env steps)
    unfolding sweep_steps
    sweep_steps-Keeps [] = Keeps-pure tt
    sweep_steps-Keeps (s ∷ ss) =
        Keeps-bind (sweep_step env s) (λ _. sweep_steps env ss) (sweep_step-Keeps s)
          (λ _. sweep_steps-Keeps ss)

    -- Where the sync state has a finalized block, a sweep hands no event above it to the notification
    -- processor, whatever fails: if all batches handed over before were final, all are afterwards.
    pub sweep-AllFinal :
        (w : Sweep) → AllFinal bound w → AllFinal bound (sweep_pending_post_commit_steps env w).1
    unfolding sweep_pending_post_commit_steps
    sweep-AllFinal w h =
        Keeps-bind (read_queue env (λ v. values v.pending)) _ (Keeps-read env _)
          (λ steps. Keeps-bind (sweep_steps env steps) _ (sweep_steps-Keeps steps) λ _ v k. k)
          (record w { summary = no_sweep }) h
