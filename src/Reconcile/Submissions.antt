-- ===== src/Reconcile/Submissions.antt =====
-- service/src/reconcile/worker.ts: the reconciliation of one submission.
use uvp_chain_services.Prelude.{
  String, Bool, true, false, not, Option, none, some, List, ◌==◌, ◌&&◌, [], ◌∷◌, get, join, map,
  or_else, truthy, if◌then◌else◌,
}
use uvp_chain_services.Prelude.Exec.{pure, ◌>>=◌, ◌>>◌}
use uvp_chain_services.Submission.Types.{
  Status, BroadcastStatus, RetryState, Submission, AttemptRow,
}
use uvp_chain_services.Submission.Store.{put_submission}
use uvp_chain_services.Reconcile.Types.{
  Provenance, ProjectedSignal, ProjectedOrder, OutcomeKind, Resolved,
}
use uvp_chain_services.Reconcile.World.{Sources, Books, Work, consult, change}
use uvp_chain_services.Reconcile.Outcome.{confirmation_from_provenance, resolve_outcome}

abbrev pub reconcileable_at : Status → Option String → Bool
reconcileable_at Status.failed tx = truthy tx
reconcileable_at Status.broadcasting tx = true
reconcileable_at Status.submitted tx = true
reconcileable_at Status.indexing tx = true
reconcileable_at _ tx = false

unfoldable pub is_reconcileable : Submission → Bool
unfolding truthy
is_reconcileable x = reconcileable_at x.status x.tx_hash

-- whether the projected signal is the one that was signed
unfoldable pub matches : Submission → ProjectedSignal → Bool
matches x s =
    (s.order_id == x.onchain_order_id)
    && (s.source_id == x.source_id)
    && (s.signal_id == x.signal_id)
    && (s.submitter == x.submitter)
    && (s.payload_hash == x.payload_hash)
    && (s.idempotency_key == x.idempotency_key)

abbrev pub confirmed_by :
    (String → String) → Submission → Option ProjectedSignal → Option Provenance
confirmed_by lower_case x none = none
confirmed_by lower_case x (some s) =
    if matches x s
    then confirmation_from_provenance lower_case (some s.submitted_at) x.tx_hash
    else none

abbrev pub signal_key : Submission → String
signal_key x = join ":" (x.source_id ∷ x.signal_id ∷ [])

abbrev pub in_order : (String → String) → Submission → Option ProjectedOrder → Option Provenance
in_order lower_case x none = none
in_order lower_case x (some o) = confirmed_by lower_case x (get (signal_key x) o.signals)

unfoldable pub submission_projection_confirmation : Sources → Submission → Work (Option Provenance)
unfolding confirmation_from_provenance matches
submission_projection_confirmation env x = do
  order ← consult (λ n. env.order n x.onchain_order_id x.plan_id)
  pure (in_order env.lower_case x order)

unfoldable pub status_from_outcome : OutcomeKind → Submission → Status
unfolding truthy
status_from_outcome OutcomeKind.confirmed x = Status.confirmed
status_from_outcome OutcomeKind.failed x = Status.failed
status_from_outcome OutcomeKind.stale_pending x = Status.failed
status_from_outcome OutcomeKind.indexing x = Status.indexing
status_from_outcome OutcomeKind.pending x = if truthy x.tx_hash then Status.submitted else x.status

abbrev pub broadcast_status_from : Status → BroadcastStatus → BroadcastStatus
broadcast_status_from Status.confirmed current = BroadcastStatus.confirmed
broadcast_status_from Status.failed current = BroadcastStatus.failed
broadcast_status_from _ current = current

abbrev pub is_failed : Status → Bool
is_failed Status.failed = true
is_failed _ = false

abbrev pub is_over : Status → Bool
is_over Status.failed = true
is_over Status.expired = true
is_over _ = false

unfoldable pub dead_letter_from_outcome : Resolved → Status → Bool
dead_letter_from_outcome o status = is_failed status && not o.retryable

unfoldable pub retry_state_from_outcome : Resolved → Status → Bool → RetryState
retry_state_from_outcome o status dead_letter =
    if dead_letter
    then RetryState.dead_letter
    else if o.retryable
    then RetryState.retryable
    else if is_over status
    then RetryState.not_retryable
    else RetryState.not_applicable

abbrev pub attempt_status : OutcomeKind → Status
attempt_status OutcomeKind.confirmed = Status.confirmed
attempt_status OutcomeKind.failed = Status.failed
attempt_status OutcomeKind.stale_pending = Status.failed
attempt_status _ = Status.submitted

unfoldable pub attempt_retry_state : Status → Bool → Bool → RetryState
attempt_retry_state status retryable dead_letter =
    if dead_letter
    then RetryState.dead_letter
    else if retryable
    then RetryState.retryable
    else if is_failed status
    then RetryState.not_retryable
    else RetryState.not_applicable

abbrev pub same_text : Option String → Option String → Bool
same_text none none = true
same_text (some a) (some b) = a == b
same_text _ _ = false

-- an attempt with the submission's own hash takes the outcome over
unfoldable pub update_attempt : Resolved → Option String → AttemptRow → AttemptRow
unfolding attempt_retry_state
update_attempt o tx row =
    let a = row.attempt in
    let status = attempt_status o.kind in
    let dead = is_failed status && not o.retryable in
    if same_text a.tx_hash tx
    then record row {
      attempt = record a {
        status = status;
        block_number = or_else o.block_number a.block_number;
        error_code = or_else o.error_code a.error_code;
        error_message = or_else o.error_message a.error_message;
        retryable = some o.retryable;
        retry_state = some (attempt_retry_state status o.retryable dead);
        dead_letter = some dead;
      };
      updated_at = o.checked_at;
    }
    else row

unfoldable pub update_submission_attempts : Resolved → Submission → List AttemptRow
unfolding update_attempt truthy
update_submission_attempts o x =
    if truthy x.tx_hash then map (update_attempt o x.tx_hash) x.attempts else x.attempts

-- the record with the outcome in it
unfoldable pub reconciled : Resolved → Submission → Submission
unfolding status_from_outcome dead_letter_from_outcome retry_state_from_outcome
    update_submission_attempts
reconciled o x =
    let status = status_from_outcome o.kind x in
    let dead_letter = dead_letter_from_outcome o status in
    record x {
      common = record (x.common) { updated_at = o.checked_at };
      status = status;
      broadcast_status = broadcast_status_from status x.broadcast_status;
      reconcile = o.fields;
      block_number = or_else o.block_number x.block_number;
      error_code = or_else o.error_code x.error_code;
      error_message = or_else o.error_message x.error_message;
      retryable = some o.retryable;
      retry_state = some (retry_state_from_outcome o status dead_letter);
      dead_letter = some dead_letter;
      attempts = update_submission_attempts o x;
    }

abbrev pub put_in_store : Submission → Books → Books
put_in_store x w = record w { store = put_submission x w.store }

unfoldable pub reconcile_submission : Sources → Submission → Work Submission
unfolding submission_projection_confirmation
reconcile_submission env x = do
  o ← resolve_outcome env x.created_at (submission_projection_confirmation env x) x.tx_hash
  let updated = reconciled o x
  change env (put_in_store updated)
  pure updated
