-- ===== src/Reconcile/Accounted.antt =====
-- What the visit of a submission stores, and how it counts it.
use uvp_chain_services.Reconcile.Types.{Resolved}
use uvp_chain_services.Reconcile.Pass.{visit_submission, isolated, written, one_failed}
use uvp_chain_services.Submission.Types.{Submission}
use uvp_chain_services.Submission.Store.{put_submission}
use uvp_chain_services.Reconcile.Keeps.{
  Holds, Holds-pure, Holds-bind, Holds-consult, resolve_outcome-Holds,
}
use uvp_chain_services.Reconcile.Outcome.{resolve_outcome}
use uvp_chain_services.Reconcile.Submissions.{
  reconcile_submission, submission_projection_confirmation, reconciled, put_in_store, is_failed,
  is_reconcileable,
}
use uvp_chain_services.Submission.World.{Error}
use uvp_chain_services.Prelude.Exec.{
  Outcome, ◌>>=◌, done, thrown, pure, and_then, attempt, recover_from,
}
use uvp_chain_services.Prelude.{
  ◌≡◌, put, ◌+◌, Bool, if◌then◌else◌, Bool-cases, refl, inl, ◌⊎◌, true, inr, false, ap, ◌∙◌, ℕ,
  arith,
}
use uvp_chain_services.Reconcile.World.{Books, Sources, change, tally_up, Summary}

-- how a record that was written is counted
pub counted_failure :
    (b : Bool) (s : Summary)
    → written b s ≡ record s { updated = s.updated + 1; failed = s.failed + (if b then 1 else 0) }
counted_failure true s = refl
counted_failure false s =
    ap (λ (n : ℕ). record s { updated = s.updated + 1; failed = n }) (the_same s.failed)
  where
    the_same : (n : ℕ) → n ≡ n + 0
    the_same n = omega arith

module _ (env : Sources) (x : Submission) where
  -- the store has a record in the submission's place, or is as before and the reconciliation threw
  abbrev Written : Books → Outcome Error Submission × Books → Type 0
  Written w (done u, v) =
      (v.store.submissions ≡ put x.submission_id u w.store.submissions) × (v.summary ≡ w.summary)
  Written w (thrown e, v) = (v.store.submissions ≡ w.store.submissions) × (v.summary ≡ w.summary)

  looked-Holds :
      (w : Books)
      → Holds
          (λ d ls s. (d ≡ w.store.submissions) × (s ≡ w.summary))
          (resolve_outcome env x.created_at (submission_projection_confirmation env x) x.tx_hash)
  unfolding submission_projection_confirmation
  looked-Holds w =
      resolve_outcome-Holds env _ _ (Holds-bind _ _ (Holds-consult _) λ o. Holds-pure _) _

  after_write :
      (w v : Books) (o : Resolved)
      → (v.store.submissions ≡ w.store.submissions) × (v.summary ≡ w.summary)
      → Written w ((change env (put_in_store (reconciled o x)) >>= λ _. pure (reconciled o x)) v)
  unfolding ◌>>=◌ change pure put_submission reconciled
  after_write w v o (same, counts) = elim (Bool-cases (env.store_fails v.tick)) [
    | inl e ↦ simp e (same, counts)
    | inr e ↦ simp e (ap (put x.submission_id (reconciled o x)) same, counts)
  ]

  after_look :
      (w : Books) (r : Outcome Error Resolved) (v : Books)
      → (v.store.submissions ≡ w.store.submissions) × (v.summary ≡ w.summary)
      → Written w (
          and_then r
            (λ o. change env (put_in_store (reconciled o x)) >>= λ _. pure (reconciled o x))
            v)
  after_look w (done o) v h = after_write w v o h
  after_look w (thrown e) v h = h

  reconcile_submission-Written : (w : Books) → Written w (reconcile_submission env x w)
  unfolding reconcile_submission ◌>>=◌
  reconcile_submission-Written w =
      let r =
        resolve_outcome env x.created_at (submission_projection_confirmation env x) x.tx_hash w in
      after_look w r.0 r.1 ((looked-Holds w).at w (refl, refl))

  abbrev checked : Books → Books
  checked w = record w {
    summary = record (w.summary) { submissions_checked = w.summary.submissions_checked + 1 };
  }

  -- the submission was reconciled, stored, and counted once as updated, and once as failed if it is; or
  -- its reconciliation threw, the stored submissions are as before, and it is counted once as failed
  abbrev pub IsVisited : Books → Outcome Error (Unit {0}) × Books → Type 0
  IsVisited w (r, v) =
      (r ≡ done tt)
      × (((u : Submission) × ((reconcile_submission env x (checked w)).0 ≡ done u)
            × (v.store.submissions ≡ put x.submission_id u w.store.submissions)
            × (v.summary ≡ record (w.summary) {
              submissions_checked = w.summary.submissions_checked + 1;
              updated = w.summary.updated + 1;
              failed = w.summary.failed + (if is_failed u.status then 1 else 0);
            }))
          ⊎ ((e : Error) × ((reconcile_submission env x (checked w)).0 ≡ thrown e)
              × (v.store.submissions ≡ w.store.submissions)
              × (v.summary ≡ record (w.summary) {
                submissions_checked = w.summary.submissions_checked + 1;
                failed = w.summary.failed + 1;
              })))

  after_action :
      (w : Books) (y : Outcome Error Submission × Books)
      → (reconcile_submission env x (checked w)).0 ≡ y.0
      → Written (checked w) y
      → let z = and_then y.0 (λ u. tally_up (written (is_failed u.status))) y.1 in
        IsVisited w (recover_from z.0 (λ _. tally_up one_failed) z.1)
  unfolding tally_up
  after_action w (done u, v) e (stored, counts) = (
    refl,
    inl (
      u,
      e,
      stored,
      ap (written (is_failed u.status)) counts
          ∙ counted_failure (is_failed u.status) ((checked w).summary),
    ),
  )
  after_action w (thrown t, v) e (stored, counts) = (refl, inr (t, e, stored, ap one_failed counts))

  -- The visit of an open submission never throws. Either its reconciliation returned, and then what it
  -- returned is stored in the submission's place with every other submission as it was, and the
  -- summary counts one more checked, one more updated and, if the status is now failed, one more
  -- failed; or its reconciliation threw, and then the stored submissions are as before, and the
  -- summary counts one more checked and one more failed. No other count changes.
  pub visit_submission-IsVisited :
      (w : Books) → is_reconcileable x ≡ true → IsVisited w (visit_submission env x w)
  unfolding visit_submission isolated ◌>>=◌ attempt tally_up
  visit_submission-IsVisited w h = simp h (
      after_action w (reconcile_submission env x (checked w)) refl
        (reconcile_submission-Written (checked w)))
