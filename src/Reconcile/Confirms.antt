-- ===== src/Reconcile/Confirms.antt =====
-- The reconciliation of a submission whose signal stands in the projection.
use uvp_chain_services.Submission.World.{Error}
use uvp_chain_services.Submission.Store.{put_submission}
use uvp_chain_services.Prelude.Exec.{pure, done, Outcome}
use uvp_chain_services.Prelude.{
  truthy, ℕ, ◌≡◌, true, some, get, ap, ◌∙◌, suc, false, ◌==◌, Option, or_default, or_else, present,
  refl, get-put_self,
}
use uvp_chain_services.Reconcile.Submissions.{
  reconcile_submission, submission_projection_confirmation, reconciled, in_order,
  status_from_outcome, signal_key, matches, put_in_store,
}
use Prim.Native.Nat.{ℕ, suc}
use uvp_chain_services.Reconcile.Types.{ProjectedOrder, ProjectedSignal, Provenance}
use uvp_chain_services.Submission.Types.{Submission, Status}
use uvp_chain_services.Reconcile.World.{Sources, clock, consult, Books, change, later}
use uvp_chain_services.Prelude.Runs.{bind-step}
use uvp_chain_services.Reconcile.Outcome.{
  resolve_outcome, confirmed_outcome, confirmation_from_provenance,
}

module _ (env : Sources) (x : Submission) (o : ProjectedOrder) (s : ProjectedSignal) where
  -- every look at the projection shows the order with the signal that was signed, in the transaction
  -- that was sent
  pub record IsProjected : Type 0 where
    pub sent : truthy x.tx_hash ≡ true
    pub answers : (n : ℕ) → env.order n x.onchain_order_id x.plan_id ≡ done (some o)
    pub listed : get (signal_key x) o.signals ≡ some s
    pub same : matches x s ≡ true
    pub hash :
        (env.lower_case s.submitted_at.transaction_hash == env.lower_case (or_default x.tx_hash ""))
        ≡ true

  module _ (k : IsProjected) where
    there : in_order env.lower_case x (some o) ≡ some s.submitted_at
    unfolding confirmation_from_provenance
    there = simp (k.listed, k.same, k.sent, k.hash)

    projected :
        (w : Books)
        → submission_projection_confirmation env x w ≡ (done (some s.submitted_at), later w)
    unfolding submission_projection_confirmation consult pure
    projected w =
        bind-step (consult (λ n. env.order n x.onchain_order_id x.plan_id)) _ w (later w) (some o)
          (ap (λ (r : Outcome Error (Option ProjectedOrder)). (r, later w)) (k.answers w.tick))
        ∙ ap (λ (p : Option Provenance). (done p, later w)) there

    -- the record that is stored
    abbrev confirmed_row : ℕ → Submission
    confirmed_row at = reconciled (confirmed_outcome at (some s.submitted_at.block_number)) x

    resolved :
        (w : Books)
        → resolve_outcome env x.created_at (submission_projection_confirmation env x) x.tx_hash w
          ≡ (
            done (confirmed_outcome (env.now w.tick) (some s.submitted_at.block_number)),
            later (later w),
          )
    unfolding resolve_outcome clock pure
    resolved w =
        bind-step (clock env) _ w (later w) (env.now w.tick) refl
        ∙ simp k.sent (
            bind-step (submission_projection_confirmation env x) _ (later w) (later (later w))
              (some s.submitted_at) (projected (later w)))

    went_through :
        (f : Books → Books) (w : Books)
        → env.store_fails w.tick ≡ false
        → change env f w ≡ (done tt, later (f w))
    unfolding change
    went_through f w h = simp h refl

    run :
        (w : Books)
        → env.store_fails (suc (suc w.tick)) ≡ false
        → reconcile_submission env x w ≡ (
          done (confirmed_row (env.now w.tick)),
          later (put_in_store (confirmed_row (env.now w.tick)) (later (later w))),
        )
    unfolding reconcile_submission pure
    run w h =
        bind-step
          (resolve_outcome env x.created_at (submission_projection_confirmation env x) x.tx_hash) _
          w (later (later w)) _ (resolved w)
        ∙ bind-step (change env (put_in_store (confirmed_row (env.now w.tick)))) _ (later (later w))
            _ tt (went_through (put_in_store (confirmed_row (env.now w.tick))) (later (later w)) h)

    -- Let the submission carry a transaction hash, let every look at the projection show its order, and
    -- let that order list, under the submission's key, the signal that was signed, submitted in the
    -- transaction with that hash up to letter case. If the write of the store goes through, the
    -- reconciliation returns the submission as confirmed, in the signal's block where the projection
    -- names one, and stores what it returns.
    pub reconcile_submission-confirms :
        (w : Books)
        → env.store_fails (suc (suc w.tick)) ≡ false
        → (u : Submission) × ((reconcile_submission env x w).0 ≡ done u)
          × (get x.submission_id (reconcile_submission env x w).1.store.submissions ≡ some u)
          × (u.status ≡ Status.confirmed)
          × (u.block_number ≡ or_else (present (some s.submitted_at.block_number)) x.block_number)
    unfolding reconciled confirmed_outcome status_from_outcome put_submission
    reconcile_submission-confirms w h = (
      confirmed_row (env.now w.tick),
      ap (λ (y : Outcome Error Submission × Books). y.0) (run w h),
      ap (λ (y : Outcome Error Submission × Books). get x.submission_id y.1.store.submissions)
            (run w h)
          ∙ get-put_self x.submission_id (confirmed_row (env.now w.tick)) w.store.submissions,
      refl,
      refl,
    )
