-- ===== src/Submission/Broadcast.antt =====
-- service/src/submissions/service.ts: the `try` of `submit`, its handler, and what they write.
use uvp_chain_services.Prelude.{
  String, Bool, true, false, not, none, some, ◌&&◌, or_default, truthy, if◌then◌else◌,
}
use uvp_chain_services.Prelude.Exec.{Outcome, done, thrown, pure, throw, attempt, ◌>>=◌, ◌>>◌}
use uvp_chain_services.Submission.Types.{Broadcast, Failure, PreparedRecord, Submission}
use uvp_chain_services.Submission.Record.Build.{submission_from_broadcast}
use uvp_chain_services.Submission.Record.Defaults.{with_defaults}
use uvp_chain_services.Submission.Store.{mark_prepared_used, put_submission}
use uvp_chain_services.Submission.World.{Error, Env, Config, Action, ask, write, transaction, send}
use uvp_chain_services.Submission.Submit.{Verified, nonce_key, signed_by, request_of, releasing}

module _ (cfg : Config) (env : Env) where
  abbrev pub retries : Broadcast → Bool
  retries (Broadcast.failed f) = f.retryable
  retries _ = false

  -- the write of a broadcast's result: a failure that can be retried gives the nonce back
  unfoldable pub settle : PreparedRecord → Broadcast → Submission → Action (Unit {0})
  settle p result submission =
      write env (put_submission submission)
      >> (if retries result && not (truthy submission.tx_hash)
          then releasing cfg env (nonce_key cfg env p)
          else write env
              (mark_prepared_used p.prepare_id submission.submission_id submission.updated_at))

  abbrev pub plain_failure : String → String → Bool → Failure
  plain_failure code message retryable = record {
    tx_hash = none;
    block_number = none;
    error_code = code;
    error_label = none;
    message = message;
    retryable = retryable;
    retry_state = none;
    dead_letter = none;
    next_retry_at = none;
    attempt = none;
  }

  -- the broadcast got out and its record was not stored: the nonce stays taken
  unfoldable pub persist_failed :
      PreparedRecord → Verified → String → String → Error → Action (Unit {0})
  persist_failed p v submission_id tx_hash e =
      attempt
        (do
          at ← ask env.now
          let lost =
              record (plain_failure "persist_failed"
                "broadcast succeeded but persisting the submission failed; the receipt is unknown and the nonce stays consumed"
                false) { tx_hash = some tx_hash; dead_letter = some true }
          write env (
              put_submission (
                with_defaults (
                  submission_from_broadcast p (signed_by cfg env v submission_id at)
                    (Broadcast.failed lost)))))
        (λ _. pure tt)
      >> throw e

  -- no transaction is known: a failed record and the release of the nonce, in one transaction
  unfoldable pub give_back : PreparedRecord → Verified → Error → Action (Unit {0})
  give_back p v e = do
    let c = env.classify e
    transaction cfg env (do
      submission_id ← ask env.new_submission_id
      at ← ask env.now
      write env (
          put_submission (
            with_defaults (
              submission_from_broadcast p (signed_by cfg env v submission_id at)
                (Broadcast.failed (plain_failure c.error_code c.message c.retryable)))))
      releasing cfg env (nonce_key cfg env p))
    throw e

  abbrev pub tx_or_empty : Submission → String
  tx_or_empty s = or_default s.tx_hash ""

  -- the handler of what the write of the result threw
  unfoldable pub unsettled : PreparedRecord → Verified → Submission → Error → Action (Unit {0})
  unsettled p v s e =
      if truthy (some s.submission_id) && truthy s.tx_hash
      then persist_failed p v s.submission_id (tx_or_empty s) e
      else give_back p v e

  unfoldable pub broadcast_prepared : PreparedRecord → Verified → Action (Broadcast × Submission)
  broadcast_prepared p v = do
    submission_id ← ask env.new_submission_id
    at ← ask env.now
    result ← send env (request_of cfg env p v)
    pure (
      result,
      with_defaults (submission_from_broadcast p (signed_by cfg env v submission_id at) result),
    )

  abbrev pub settle_sent : PreparedRecord → Verified → Broadcast × Submission → Action Submission
  settle_sent p v (result, submission) =
      attempt (transaction cfg env (settle p result submission)) (unsettled p v submission)
      >> pure submission

  abbrev pub after_send :
      PreparedRecord → Verified → Outcome Error (Broadcast × Submission) → Action Submission
  after_send p v (done sent) = settle_sent p v sent
  after_send p v (thrown e) = give_back p v e >> throw e

  -- the `try` around the broadcast and the write of its result
  unfoldable pub broadcast_once : PreparedRecord → Verified → Action Submission
  broadcast_once p v w = let (sent, w') = broadcast_prepared p v w in after_send p v sent w'
