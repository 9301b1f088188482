-- ===== src/Submission/Record/Rows.antt =====
-- service/src/submissions/service.ts: labels, proof rows, attempts and the common fields.
use uvp_chain_services.Prelude.{
  ℕ, String, Bool, Option, none, some, List, [], ◌∷◌, ◌++◌, map, ◌==◌, present, truthy, or_default,
  or_else, if◌then◌else◌,
}
use uvp_chain_services.Submission.Types.{
  Status, RetryState, Attempt, PreparedRecord, PreparedEvidence, AttemptRow, Reconcile, Common,
  ProofRow,
}

unfoldable pub status_label_for : Status → String
status_label_for Status.prepared = "已准备"
status_label_for Status.signature_received = "签名已接收"
status_label_for Status.broadcasting = "广播中"
status_label_for Status.submitted = "已提交"
status_label_for Status.indexing = "同步中"
status_label_for Status.confirmed = "已确认"
status_label_for Status.failed = "提交失败"
status_label_for Status.expired = "已过期"
status_label_for Status.replaced = "已替换"

unfoldable pub status_text : Status → String
status_text Status.prepared = "prepared"
status_text Status.signature_received = "signature_received"
status_text Status.broadcasting = "broadcasting"
status_text Status.submitted = "submitted"
status_text Status.indexing = "indexing"
status_text Status.confirmed = "confirmed"
status_text Status.failed = "failed"
status_text Status.expired = "expired"
status_text Status.replaced = "replaced"

abbrev pub retry_state_of_status : Status → RetryState
retry_state_of_status Status.failed = RetryState.not_retryable
retry_state_of_status Status.expired = RetryState.not_retryable
retry_state_of_status _ = RetryState.not_applicable

unfoldable pub retry_state_for : Status → Bool → Bool → RetryState
retry_state_for status retryable dead_letter =
    if dead_letter
    then RetryState.dead_letter
    else if retryable
    then RetryState.retryable
    else retry_state_of_status status

unfoldable pub error_label_for : String → String
error_label_for code =
    if code == "unauthorized_signal_submitter"
    then "Submitter is not authorized"
    else if code == "signal_already_exists"
    then "Signal was already submitted"
    else if code == "unknown_order"
    then "Order is not registered yet"
    else if code == "expired_signal_signature"
    then "Wallet signature expired"
    else if code == "invalid_signal_signature"
    then "Wallet signature is invalid"
    else if code == "chain_id_mismatch"
    then "RPC chain does not match configuration"
    else if code == "relayer_insufficient_funds"
    then "Relayer gas payer needs funds"
    else if code == "rpc_timeout"
    then "RPC request timed out"
    else if code == "transaction_reverted"
    then "Transaction reverted"
    else if code == "state_machine_broadcast_failed"
    then "Broadcast failed"
    else if code == "broadcast_disabled"
    then "Broadcast disabled"
    else if code == "broadcast_rate_limited"
    then "Broadcast is rate limited"
    else if code == "broadcast_retry_exhausted"
    then "Retry limit reached"
    else if code == "duplicate_tx_hash"
    then "Duplicate transaction hash"
    else code

abbrev row_of : String → Option String → List ProofRow
row_of label none = []
row_of label (some v) = record { label = label; value = v } ∷ []

unfoldable pub proof_rows : Status → String → String → Option String → Option String → List ProofRow
unfolding status_text present
proof_rows status submitter payload_hash tx_hash error_code =
    record { label = "Submission status"; value = status_text status }
    ∷ record { label = "Signature submitter"; value = submitter }
    ∷ record { label = "Payload hash"; value = payload_hash }
    ∷ (row_of "Transaction" (present tx_hash) ++ row_of "Relayer" (present error_code))

-- who signed, as far as it is known when the submission is built
pub record Signed : Type 0 where
  pub submission_id : String
  pub recovered_submitter : Option String
  pub signature_hash : Option String
  pub created_at : ℕ

unfoldable pub submission_common : PreparedRecord → Signed → Common
unfolding truthy
submission_common prepared input = record {
  submission_id = input.submission_id;
  prepare_id = prepared.prepare_id;
  task_id = prepared.task_id;
  order_id = prepared.order_id;
  onchain_order_id = prepared.onchain_order_id;
  plan_id = prepared.plan_id;
  stage_identifier = prepared.stage_identifier;
  signal_name = prepared.signal_name;
  source_id = prepared.source_id;
  signal_id = prepared.signal_id;
  intent = prepared.intent;
  payload_hash = prepared.payload_hash;
  payload_ref = prepared.payload_ref;
  idempotency_key = prepared.idempotency_key;
  submitter = prepared.submitter;
  nonce = prepared.nonce;
  deadline = prepared.deadline;
  signature_verified = truthy input.recovered_submitter;
  signature_hash = present input.signature_hash;
  recovered_submitter = present input.recovered_submitter;
  evidence_ids = map (λ (e : PreparedEvidence). e.evidence_id) prepared.evidence;
  created_at = input.created_at;
  updated_at = input.created_at;
}

-- `{ ...(attempt.errorCode ? errorLabelFor(attempt.errorCode) : undefined) }`
unfoldable pub label_of_code : Option String → Option String
unfolding error_label_for present
label_of_code code = elim (present code) [ none ↦ none | some c ↦ some (error_label_for c) ]

unfoldable pub attempts_from :
    PreparedRecord → String → ℕ → Option Attempt → Bool → Bool → List AttemptRow
unfolding retry_state_for label_of_code present
attempts_from prepared submission_id timestamp none retryable dead_letter = []
attempts_from prepared submission_id timestamp (some attempt) fallback_retryable fallback_dead =
    let attempt_number : ℕ = or_default attempt.attempt_number 1 in
    let retryable : Bool = or_default attempt.retryable fallback_retryable in
    let dead_letter : Bool = or_default attempt.dead_letter fallback_dead in
    let retry_state : RetryState =
      or_default attempt.retry_state (retry_state_for attempt.status retryable dead_letter) in
    let error_label : Option String =
      or_else attempt.error_label (label_of_code attempt.error_code) in
    record {
      attempt_id = (submission_id, attempt_number);
      submission_id = submission_id;
      order_id = prepared.onchain_order_id;
      source_id = prepared.source_id;
      signal_id = prepared.signal_id;
      submitter = prepared.submitter;
      attempt = record {
        status = attempt.status;
        tx_hash = present attempt.tx_hash;
        block_number = present attempt.block_number;
        revert_reason = present attempt.revert_reason;
        gas_payer = present attempt.gas_payer;
        attempt_number = some attempt_number;
        error_code = present attempt.error_code;
        error_label = present error_label;
        error_message = present attempt.error_message;
        retryable = some retryable;
        retry_state = some retry_state;
        dead_letter = some dead_letter;
        next_retry_at = attempt.next_retry_at;
      };
      created_at = timestamp;
      updated_at = timestamp;
    }
    ∷ []

abbrev pub blank_attempt : Status → Attempt
blank_attempt status = record {
  status = status;
  tx_hash = none;
  block_number = none;
  revert_reason = none;
  gas_payer = none;
  attempt_number = none;
  error_code = none;
  error_label = none;
  error_message = none;
  retryable = none;
  retry_state = none;
  dead_letter = none;
  next_retry_at = none;
}

abbrev pub unchecked : Reconcile
unchecked = record {
  reconcile_status = none;
  last_checked_at = none;
  receipt_status = none;
  projection_status = none;
}
