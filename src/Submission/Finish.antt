-- ===== src/Submission/Finish.antt =====
-- service/src/submissions/service.ts: what follows a stored broadcast, the whole of `submit`, and
-- `getSubmission`.
use uvp_chain_services.Prelude.{
  ◌/◌, suc, String, Bool, true, false, Option, none, some, List, [], ◌∷◌, ◌++◌, ◌==◌, ◌&&◌, ltb,
  or_default, present, truthy, get, if◌then◌else◌, ℕ,
}
use uvp_chain_services.Prelude.Exec.{done, thrown, pure, throw, attempt, ◌>>=◌, ◌>>◌}
use uvp_chain_services.Submission.Types.{Status, PreparedRecord, Evidence, Submission}
use uvp_chain_services.Submission.Record.Defaults.{with_defaults}
use uvp_chain_services.Submission.World.{
  product, external, BindRequest, Env, Config, Action, ask, read, record_audit,
}
use uvp_chain_services.Submission.Submit.{
  SubmitInput, load_prepared, verify_wallet, expire, receive_only, reserve, audit_of, Verified,
}
use uvp_chain_services.Submission.Broadcast.{broadcast_once}

unfoldable pub bind : Env → BindRequest → Action (Unit {0})
bind env request w =
    if env.bind_fails w.tick
    then (thrown (external "bindEvidence"), record w { tick = suc w.tick })
    else (done tt, record w { tick = suc w.tick; binds = w.binds ++ request ∷ [] })

unfoldable pub is_evidence_binding : Status → Bool
is_evidence_binding Status.submitted = true
is_evidence_binding Status.confirmed = true
is_evidence_binding _ = false

module _ (cfg : Config) (env : Env) where
  abbrev pub bind_request : PreparedRecord → Submission → Evidence → BindRequest
  bind_request p s e = record {
    evidence_id = e.evidence_id;
    submission_id = s.submission_id;
    tx_hash = or_default s.tx_hash "";
    order_id = p.order_id;
    onchain_order_id = p.onchain_order_id;
    source_id = p.source_id;
    signal_id = p.signal_id;
    bound_at = s.updated_at;
    binder = env.lower_case p.submitter;
  }

  unfoldable pub bind_each : PreparedRecord → Submission → List Evidence → Action (Unit {0})
  bind_each p s [] = pure tt
  bind_each p s (e ∷ rest) = bind env (bind_request p s e) >> bind_each p s rest

  unfoldable pub bind_submitted_evidence : PreparedRecord → Submission → Action (Unit {0})
  bind_submitted_evidence p s =
      if cfg.has_bind && truthy s.tx_hash then bind_each p s p.evidence_records else pure tt

  abbrev pub outcome_text : Status → String
  outcome_text Status.failed = "failed"
  outcome_text _ = "succeeded"

  -- Evidence that cannot be bound is left to the reconcile worker: the submission is returned.
  unfoldable pub bind_or_report : PreparedRecord → Submission → Action (Unit {0})
  bind_or_report p s = attempt (bind_submitted_evidence p s) (λ _.
      attempt
        (record_audit env
          (record (audit_of cfg env "relayer.submit.evidence_bind_failed" "failed" p) {
            submission_id = some s.submission_id;
            tx_hash = present s.tx_hash;
            error_code = some "evidence_bind_failed";
            retryable = some true;
          }))
        (λ _. pure tt))

  unfoldable pub finish : PreparedRecord → Submission → Action Submission
  finish p s = do
    record_audit env (record (audit_of cfg env "relayer.submit.result" (outcome_text s.status) p) {
      submission_id = some s.submission_id;
      tx_hash = present s.tx_hash;
      error_code = present s.error_code;
      retryable = s.retryable;
    })
    if is_evidence_binding s.status then bind_or_report p s else pure tt
    pure s

  -- what a verified signature leads to at the instant `at`
  abbrev pub proceed : PreparedRecord → Verified → ℕ → Action Submission
  proceed p v at =
      if ltb p.deadline (at / 1000)
      then expire cfg env p v
      else if cfg.attempts_broadcast
      then (reserve cfg env p >> broadcast_once cfg env p v) >>= finish p
      else receive_only cfg env p v

  unfoldable pub submit : String → SubmitInput → Action Submission
  submit task_id input = do
    p ← load_prepared cfg env task_id input.prepare_id
    v ← verify_wallet cfg env p input
    at ← ask env.now
    proceed p v at

  abbrev pub read_as : String → Option Submission → Action (Option Submission)
  read_as wallet none = pure none
  read_as wallet (some s) =
      if env.lower_case s.submitter == env.lower_case wallet
      then pure (some (with_defaults s))
      else throw (product 403 "submission_access_forbidden")

  unfoldable pub get_submission : String → String → Action (Option Submission)
  get_submission submission_id wallet = do
    found ← read env (λ s. get submission_id s.submissions)
    read_as wallet found
