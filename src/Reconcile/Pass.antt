-- ===== src/Reconcile/Pass.antt =====
-- service/src/reconcile/worker.ts: one pass over evidence, registrations, submissions and governance
-- transactions, and its guard.
use uvp_chain_services.Prelude.{
  ℕ, ◌+◌, String, Bool, true, false, not, Option, none, some, List, [], ◌∷◌, ◌&&◌, ◌==◌, keep,
  length, truthy, or_default, if◌then◌else◌, ◌++◌,
}
use uvp_chain_services.Prelude.Exec.{Outcome, done, pure, attempt, ◌>>=◌, ◌>>◌}
use uvp_chain_services.Submission.Types.{Status, Submission}
use uvp_chain_services.Submission.World.{Error, BindRequest}
use uvp_chain_services.Reconcile.Types.{Registration, RegistrationStatus, TxLog, LogStatus}
use uvp_chain_services.Reconcile.World.{
  Sources, Books, Work, Summary, WorkerAudit, no_summary, clock, consult, look, tally_up, audit,
  bind_evidence,
}
use uvp_chain_services.Reconcile.Submissions.{is_reconcileable, is_failed, reconcile_submission}
use uvp_chain_services.Reconcile.Registrations.{
  is_reconcileable_registration, list_registrations, reconcile_registration,
}
use uvp_chain_services.Reconcile.Governance.{
  is_reconcileable_governance_log, is_simulated_governance_log, reconcile_governance_log,
}
use uvp_chain_services.Reconcile.Scan.{visit_each, scan_submissions, scan_logs}

abbrev pub nothing : Work (Unit {0})
nothing = pure tt

abbrev pub one_failed : Summary → Summary
one_failed s = record s { failed = s.failed + 1 }

-- the record was written, and is counted again if it is now failed
abbrev pub written : Bool → Summary → Summary
written failed s =
    let t = record s { updated = s.updated + 1 } in if failed then one_failed t else t

-- the `try` around one record: a broken record is counted and skipped
unfoldable pub isolated : {A : Type 0} → (Summary → Summary) → (A → Bool) → Work A → Work (Unit {0})
unfolding tally_up
isolated checked is_bad m =
    tally_up checked
    >> attempt (m >>= λ u. tally_up (written (is_bad u))) (λ _. tally_up one_failed)

abbrev is_failed_registration : RegistrationStatus → Bool
is_failed_registration RegistrationStatus.failed = true
is_failed_registration _ = false

abbrev pub is_failed_log : LogStatus → Bool
is_failed_log LogStatus.failed = true
is_failed_log _ = false

abbrev is_under_way : Status → Bool
is_under_way Status.broadcasting = true
is_under_way Status.submitted = true
is_under_way Status.indexing = true
is_under_way _ = false

abbrev not_empty {ℓ} : {A : Type ℓ} → List A → Bool
not_empty [] = false
not_empty (x ∷ xs) = true

abbrev registration_failed : Registration → Bool
registration_failed r = is_failed_registration r.status

unfoldable pub visit_registration : Sources → Registration → Work (Unit {0})
unfolding isolated reconcile_registration
visit_registration env r =
    isolated (λ s. record s { registrations_checked = s.registrations_checked + 1 })
      registration_failed (reconcile_registration env r)

unfoldable pub visit_submission : Sources → Submission → Work (Unit {0})
unfolding isolated is_reconcileable
visit_submission env x =
    if is_reconcileable x
    then isolated (λ s. record s { submissions_checked = s.submissions_checked + 1 })
        (λ u. is_failed u.status) (reconcile_submission env x)
    else nothing

unfoldable pub visit_log : Sources → TxLog → Work (Unit {0})
unfolding isolated is_reconcileable_governance_log is_simulated_governance_log
visit_log env l =
    if is_reconcileable_governance_log l && not (is_simulated_governance_log l)
    then isolated (λ s. record s { governance_logs_checked = s.governance_logs_checked + 1 })
        (λ u. is_failed_log u.status) (reconcile_governance_log env l)
    else nothing

unfoldable pub is_evidence_bind_sweepable : Submission → Bool
unfolding truthy
is_evidence_bind_sweepable x = truthy x.tx_hash && not_empty x.evidence_ids && is_under_way x.status

module _ (env : Sources) (x : Submission) where
  abbrev rebind : String → ℕ → BindRequest
  rebind id at = record {
    evidence_id = id;
    submission_id = x.submission_id;
    tx_hash = or_default x.tx_hash "";
    order_id = x.order_id;
    onchain_order_id = x.onchain_order_id;
    source_id = x.source_id;
    signal_id = x.signal_id;
    bound_at = at;
    binder = env.lower_case x.submitter;
  }

  -- only what is verifiably unbound is bound; the result says whether it was
  abbrev pub repair_one : String → Option String → Work (List String)
  repair_one id none = pure []
  repair_one id (some status) =
      if status == "unbound"
      then (do at ← clock env; bind_evidence env (rebind id at); pure (id ∷ []))
      else pure []

  unfoldable pub repair_each : List String → Work (List String)
  repair_each [] = pure []
  repair_each (id ∷ ids) = do
    status ← consult (λ n. env.evidence_status n id (env.lower_case x.submitter))
    first ← repair_one id status
    rest ← repair_each ids
    pure (first ++ rest)

  abbrev repaired_audit : List String → WorkerAudit
  repaired_audit ids = record {
    kind = "reconcile.evidence_bind.succeeded";
    subject = x.submission_id;
    tx_hash = x.tx_hash;
    error_code = none;
    repaired = ids;
  }

  unfoldable pub repair_submission_evidence_binds : Work ℕ
  unfolding repair_each truthy
  repair_submission_evidence_binds =
      if truthy x.tx_hash
      then (do
        ids ← repair_each x.evidence_ids
        if not_empty ids then audit env (repaired_audit ids) else nothing
        pure (length ids))
      else pure 0

  unfoldable pub visit_evidence : Work (Unit {0})
  unfolding is_evidence_bind_sweepable repair_submission_evidence_binds tally_up
  visit_evidence =
      if is_evidence_bind_sweepable x
      then (tally_up (λ s. record s { evidence_binds_swept = s.evidence_binds_swept + 1 })
          >> attempt
              (repair_submission_evidence_binds >>= λ n.
                tally_up
                  (λ s. record s { evidence_binds_repaired = s.evidence_binds_repaired + n }))
              (λ _. tally_up one_failed))
      else nothing

unfoldable pub sweep_evidence_binds : Sources → Work Bool
unfolding scan_submissions
sweep_evidence_binds env =
    if env.has_submissions && env.has_binder
    then scan_submissions env (visit_evidence env)
    else pure true

unfoldable pub reconcile_registrations : Sources → Work (Unit {0})
unfolding list_registrations keep is_reconcileable_registration visit_each
reconcile_registrations env =
    if env.has_products
    then look env (λ w. keep is_reconcileable_registration (list_registrations env.before w))
      >>= visit_each (visit_registration env)
    else nothing

-- every lane, in order; `false` where a scan ran out of fuel
unfoldable pub lanes : Sources → Work Bool
unfolding scan_submissions scan_logs
lanes env = do
  swept ← sweep_evidence_binds env
  reconcile_registrations env
  submitted ←
      (if env.has_submissions then scan_submissions env (visit_submission env) else pure true)
  governed ← (if env.has_governance then scan_logs env (visit_log env) else pure true)
  pure (swept && submitted && governed)

abbrev finished : ℕ → Books → Books
finished at w = record w { last_run_at = some at; last_summary = some w.summary; last_error = none }

unfoldable pub run_reconcile_pass : Sources → Work Summary
run_reconcile_pass env w =
    (lanes env >> (clock env >>= λ at v. (done v.summary, finished at v)))
      (record w { summary = no_summary })

abbrev unlocked : Outcome Error Summary × Books → Outcome Error Summary × Books
unlocked (r, w) = (r, record w { checking = false })

-- the guard against a second pass while one is running
unfoldable pub run_once : Sources → Work Summary
run_once env w =
    if w.checking
    then (done no_summary, w)
    else unlocked (run_reconcile_pass env (record w { checking = true }))

abbrev run_failed : Error → ℕ → Books → Books
run_failed e at w = record w { last_run_at = some at; last_error = some e }

-- `#runOnceSafely`: a pass that throws is recorded
unfoldable pub run_once_safely : Sources → Work (Unit {0})
unfolding run_once
run_once_safely env =
    attempt (run_once env >> pure tt) (λ e. clock env >>= λ at w. (done tt, run_failed e at w))
