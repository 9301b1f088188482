-- ===== src/Submission/Record/Build.antt =====
-- service/src/submissions/service.ts: the submission that a broadcast result becomes.
use uvp_chain_services.Prelude.{
  String, Bool, false, not, Option, none, some, List, [], length, present, or_default, or_else,
}
use uvp_chain_services.Submission.Types.{
  Status, BroadcastStatus, RetryState, Attempt, Failure, Broadcast, PreparedRecord, AttemptRow,
  Submission,
}
use uvp_chain_services.Submission.Record.Rows.{
  Signed, status_label_for, retry_state_for, error_label_for, proof_rows, submission_common,
  attempts_from, blank_attempt, unchecked,
}

-- the branch of a broadcast that the chain has accepted
unfoldable pub accepted_submission :
    PreparedRecord
    → Signed
    → Status
    → BroadcastStatus
    → String
    → Option String
    → Option Attempt
    → Submission
unfolding submission_common attempts_from proof_rows present status_label_for
accepted_submission prepared input status broadcast_status tx_hash block_number attempt =
    let fallback : Attempt = record (blank_attempt status) {
      tx_hash = present (some tx_hash);
      block_number = present block_number;
    } in
    let attempts =
      attempts_from prepared input.submission_id input.created_at
        (some (or_default attempt fallback)) false false in
    record {
      common = submission_common prepared input;
      status = status;
      status_label = some (status_label_for status);
      broadcast_status = broadcast_status;
      tx_hash = some tx_hash;
      block_number = present block_number;
      error_code = none;
      error_label = none;
      error_message = none;
      retryable = some false;
      retry_state = some RetryState.not_applicable;
      dead_letter = some false;
      next_retry_at = none;
      attempts = attempts;
      attempt_count = length attempts;
      proof_rows = proof_rows status prepared.submitter prepared.payload_hash (some tx_hash) none;
      reconcile = unchecked;
    }

abbrev pub tx_of_attempt : Option Attempt → Option String
tx_of_attempt none = none
tx_of_attempt (some a) = a.tx_hash

abbrev pub block_of_attempt : Option Attempt → Option String
block_of_attempt none = none
block_of_attempt (some a) = a.block_number

unfoldable pub failed_submission : PreparedRecord → Signed → Failure → Submission
unfolding submission_common attempts_from proof_rows present status_label_for retry_state_for
    error_label_for
failed_submission prepared input f =
    let dead_letter : Bool = or_default f.dead_letter (not f.retryable) in
    let retry_state : RetryState =
      or_default f.retry_state (retry_state_for Status.failed f.retryable dead_letter) in
    let tx_hash : Option String = or_else f.tx_hash (tx_of_attempt f.attempt) in
    let block_number : Option String = or_else f.block_number (block_of_attempt f.attempt) in
    let error_label : String = or_default f.error_label (error_label_for f.error_code) in
    let fallback : Attempt = record (blank_attempt Status.failed) {
      tx_hash = present tx_hash;
      block_number = present block_number;
      error_code = some f.error_code;
      error_label = some error_label;
      error_message = some f.message;
      retryable = some f.retryable;
      retry_state = some retry_state;
      dead_letter = some dead_letter;
      next_retry_at = f.next_retry_at;
    } in
    let attempts =
      attempts_from prepared input.submission_id input.created_at
        (some (or_default f.attempt fallback)) f.retryable dead_letter in
    record {
      common = submission_common prepared input;
      status = Status.failed;
      status_label = some (status_label_for Status.failed);
      broadcast_status = BroadcastStatus.failed;
      tx_hash = present tx_hash;
      block_number = present block_number;
      error_code = some f.error_code;
      error_label = some error_label;
      error_message = some f.message;
      retryable = some f.retryable;
      retry_state = some retry_state;
      dead_letter = some dead_letter;
      next_retry_at = f.next_retry_at;
      attempts = attempts;
      attempt_count = length attempts;
      proof_rows =
          proof_rows Status.failed prepared.submitter prepared.payload_hash (present tx_hash)
            (some f.error_code);
      reconcile = unchecked;
    }

-- the branches with no transaction on the way back: still broadcasting, or never attempted
unfoldable pub pending_submission :
    PreparedRecord
    → Signed
    → Status
    → BroadcastStatus
    → Option String
    → Option String
    → Option String
    → List AttemptRow
    → Submission
unfolding submission_common proof_rows present status_label_for
pending_submission prepared input status broadcast_status tx_hash code message attempts = record {
  common = submission_common prepared input;
  status = status;
  status_label = some (status_label_for status);
  broadcast_status = broadcast_status;
  tx_hash = present tx_hash;
  block_number = none;
  error_code = code;
  error_label = none;
  error_message = message;
  retryable = some false;
  retry_state = some RetryState.not_applicable;
  dead_letter = some false;
  next_retry_at = none;
  attempts = attempts;
  attempt_count = length attempts;
  proof_rows = proof_rows status prepared.submitter prepared.payload_hash (present tx_hash) code;
  reconcile = unchecked;
}

unfoldable pub submission_from_broadcast : PreparedRecord → Signed → Broadcast → Submission
unfolding accepted_submission failed_submission pending_submission attempts_from
submission_from_broadcast prepared input (Broadcast.broadcasting tx_hash attempt) =
    pending_submission prepared input Status.broadcasting BroadcastStatus.broadcasting tx_hash none
      none (attempts_from prepared input.submission_id input.created_at attempt false false)
submission_from_broadcast prepared input (Broadcast.submitted tx_hash block attempt) =
    accepted_submission prepared input Status.submitted BroadcastStatus.submitted tx_hash block
      attempt
submission_from_broadcast prepared input (Broadcast.confirmed tx_hash block attempt) =
    accepted_submission prepared input Status.confirmed BroadcastStatus.confirmed tx_hash block
      attempt
submission_from_broadcast prepared input (Broadcast.failed f) = failed_submission prepared input f
submission_from_broadcast prepared input (Broadcast.not_attempted code reason) =
    pending_submission prepared input Status.signature_received BroadcastStatus.not_attempted none
      (some code) (some reason) []

-- a submission whose deadline passed before the wallet's signature came back
unfoldable pub expired_submission : PreparedRecord → Signed → Submission
unfolding submission_common proof_rows status_label_for error_label_for
expired_submission prepared input = record {
  common = submission_common prepared input;
  status = Status.expired;
  status_label = some (status_label_for Status.expired);
  broadcast_status = BroadcastStatus.not_attempted;
  tx_hash = none;
  block_number = none;
  error_code = some "submission_expired";
  error_label = some (error_label_for "expired_signal_signature");
  error_message = some "prepared submission deadline has expired";
  retryable = some false;
  retry_state = some RetryState.not_retryable;
  dead_letter = some false;
  next_retry_at = none;
  attempts = [];
  attempt_count = 0;
  proof_rows =
      proof_rows Status.expired prepared.submitter prepared.payload_hash none
        (some "submission_expired");
  reconcile = unchecked;
}
