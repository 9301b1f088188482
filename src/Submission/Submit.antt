-- ===== src/Submission/Submit.antt =====
-- service/src/submissions/service.ts: `submit`, statement by statement.
use uvp_chain_services.Prelude.{
  ℕ, ◌-◌, ◌*◌, String, Bool, true, false, Option, none, some, [], ◌∷◌, ◌==◌, ◌||◌, is_some, present,
  truthy, join, is_hex, get, if◌then◌else◌,
}
use uvp_chain_services.Prelude.Exec.{pure, throw, ◌>>=◌, ◌>>◌}
use uvp_chain_services.Submission.Types.{PreparedRecord, Submission}
use uvp_chain_services.Submission.Record.Rows.{Signed}
use uvp_chain_services.Submission.Record.Build.{submission_from_broadcast, expired_submission}
use uvp_chain_services.Submission.Record.Defaults.{with_defaults}
use uvp_chain_services.Submission.Store.{
  mark_prepared_used, reserve_nonce, release_nonce, put_submission,
}
use uvp_chain_services.Submission.World.{
  Error, product, external, BroadcastRequest, AuditEvent, HashInput, Env, Config, Action, ask,
  call_store, write, read, record_audit, transaction, send,
}

pub record SubmitInput : Type 0 where
  pub prepare_id : String
  pub wallet_address : String
  pub signature : String

-- a wallet's signature that the recovery has confirmed
pub record Verified : Type 0 where
  pub submitter : String
  pub signature : String

abbrev pub or_throw : {A : Type 0} → Option A → Error → Action A
or_throw none e = throw e
or_throw (some a) e = pure a

module _ (cfg : Config) (env : Env) where
  unfoldable pub normalize_address : String → Action String
  normalize_address value =
      or_throw (env.normalize_address value) (external "walletAddress must be a valid EVM address")

  abbrev pub guard_used : PreparedRecord → Action PreparedRecord
  guard_used p =
      if is_some p.used_at || truthy p.used_by
      then throw (product 409 "prepare_already_used")
      else pure p

  -- the prepared submission, unless it is missing, of another task, or used
  abbrev pub usable : String → Option PreparedRecord → Action PreparedRecord
  usable task_id none = throw (product 404 "prepare_not_found")
  usable task_id (some p) =
      if p.task_id == task_id then guard_used p else throw (product 409 "prepare_task_mismatch")

  unfoldable pub load_prepared : String → String → Action PreparedRecord
  load_prepared task_id prepare_id = do
    found ← read env (λ s. get prepare_id s.prepared)
    usable task_id found

  unfoldable pub normalize_signature : String → Action String
  normalize_signature value =
      if is_hex value
      then pure (env.lower_case value)
      else throw (external "signature must be a 0x-prefixed hex string")

  unfoldable pub recover_signature : PreparedRecord → String → Action String
  recover_signature p signature =
      or_throw (env.recover p.typed_data signature) (product 400 "invalid_signature")

  abbrev pub require : Bool → Error → Action (Unit {0})
  require true e = pure tt
  require false e = throw e

  unfoldable pub verify_wallet : PreparedRecord → SubmitInput → Action Verified
  verify_wallet p input = do
    submitter ← normalize_address input.wallet_address
    require (submitter == p.submitter) (product 400 "wallet_mismatch")
    signature ← normalize_signature input.signature
    recovered ← recover_signature p signature
    require (recovered == p.submitter) (product 400 "invalid_signature")
    pure (record { submitter = recovered; signature = signature })

  abbrev pub signed_by : Verified → String → ℕ → Signed
  signed_by v submission_id at = record {
    submission_id = submission_id;
    recovered_submitter = some v.submitter;
    signature_hash = some (env.hash (HashInput.signature v.signature));
    created_at = at;
  }

  -- Past the deadline the prepared submission is consumed, after the signature was verified.
  unfoldable pub expire : PreparedRecord → Verified → Action Submission
  expire p v = do
    submission_id ← ask env.new_submission_id
    at ← ask env.now
    let expired = with_defaults (expired_submission p (signed_by v submission_id at))
    transaction cfg env (do
      write env (put_submission expired)
      write env (mark_prepared_used p.prepare_id expired.submission_id expired.updated_at))
    pure expired

  abbrev pub request_of : PreparedRecord → Verified → BroadcastRequest
  request_of p v = record {
    prepared = p.dto;
    signature = v.signature;
    recovered_submitter = v.submitter;
    evidence = p.evidence_records;
  }

  abbrev pub audit_of : String → String → PreparedRecord → AuditEvent
  audit_of kind outcome p = record {
    kind = kind;
    action = p.signal_name;
    outcome = outcome;
    prepare_id = p.prepare_id;
    submission_id = none;
    tx_hash = none;
    error_code = none;
    retryable = some false;
  }

  -- An adapter that cannot broadcast: the signature is received, and nothing is consumed.
  unfoldable pub receive_only : PreparedRecord → Verified → Action Submission
  receive_only p v = do
    submission_id ← ask env.new_submission_id
    at ← ask env.now
    result ← send env (request_of p v)
    let submission =
        with_defaults (submission_from_broadcast p (signed_by v submission_id at) result)
    write env (put_submission submission)
    record_audit env (record (audit_of "relayer.submit.result" "skipped" p) {
      submission_id = some submission_id;
      error_code = present submission.error_code;
    })
    pure submission

  unfoldable pub nonce_key : PreparedRecord → String
  unfolding join
  nonce_key p =
      env.lower_case
        (join ":" (p.submitter ∷ p.order_id ∷ p.stage_identifier ∷ p.signal_name ∷ p.nonce ∷ []))

  abbrev pub refuse_duplicate : PreparedRecord → Bool → Action (Unit {0})
  refuse_duplicate p true = pure tt
  refuse_duplicate p false =
      record_audit env (record (audit_of "relayer.submit.duplicate_nonce" "blocked" p) {
        error_code = some "duplicate_submit";
      })
      >> throw (product 409 "duplicate_submit")

  -- A reservation older than the time a prepared submission lives is taken over.
  unfoldable pub reserve : PreparedRecord → Action (Unit {0})
  reserve p = do
    at ← ask env.now
    reserved_at ← ask env.now
    reserved ←
        call_store env
          (reserve_nonce (nonce_key p) (some (at - cfg.ttl_seconds * 1000)) reserved_at)
    refuse_duplicate p reserved

  abbrev pub releasing : String → Action (Unit {0})
  releasing key = if cfg.has_release then write env (release_nonce key) else pure tt
