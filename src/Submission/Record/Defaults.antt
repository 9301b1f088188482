-- ===== src/Submission/Record/Defaults.antt =====
-- service/src/submissions/service.ts: the defaults that every read of a submission fills in.
use uvp_chain_services.Prelude.{
  String, Bool, false, Option, none, some, ◌==◌, ◌&&◌, truthy, is_some, or_default, or_else,
  if◌then◌else◌,
}
use uvp_chain_services.Submission.Types.{
  Status, Reconcile, ReconcileStatus, ReceiptStatus, ProjectionStatus, Submission,
}
use uvp_chain_services.Submission.Record.Rows.{status_label_for, retry_state_for}

abbrev pub code_is : String → Option String → Bool
code_is code none = false
code_is code (some c) = c == code

abbrev pub fields : ReconcileStatus → ReceiptStatus → ProjectionStatus → Reconcile
fields r c p = record {
  reconcile_status = some r;
  last_checked_at = none;
  receipt_status = some c;
  projection_status = some p;
}

-- The receipt of a failed submission: only a confirmed revert is reported as failed.
unfoldable pub failed_receipt : Submission → ReceiptStatus
unfolding truthy
failed_receipt s =
    if is_some s.tx_hash && code_is "transaction_reverted" s.error_code
    then ReceiptStatus.failed
    else if truthy s.tx_hash && code_is "transaction_receipt_unknown" s.error_code
    then ReceiptStatus.unknown
    else ReceiptStatus.not_checked

abbrev pub default_reconcile_at : Status → Submission → Reconcile
default_reconcile_at Status.confirmed s =
    fields ReconcileStatus.confirmed
      (if truthy s.tx_hash then ReceiptStatus.success else ReceiptStatus.not_checked)
      ProjectionStatus.present
default_reconcile_at Status.failed s =
    fields ReconcileStatus.failed (failed_receipt s) ProjectionStatus.not_checked
default_reconcile_at Status.expired s =
    fields ReconcileStatus.failed ReceiptStatus.timeout ProjectionStatus.not_checked
default_reconcile_at Status.indexing s =
    fields ReconcileStatus.indexing ReceiptStatus.success ProjectionStatus.missing
default_reconcile_at _ s =
    fields (if truthy s.tx_hash then ReconcileStatus.submitted else ReconcileStatus.broadcasting)
      ReceiptStatus.not_checked ProjectionStatus.not_checked

unfoldable pub default_reconcile : Submission → Reconcile
unfolding failed_receipt truthy
default_reconcile s = default_reconcile_at s.status s

-- `{ ...defaultSubmissionReconcileFields(submission), ...submission, … }`: what is stored wins.
unfoldable pub with_defaults : Submission → Submission
unfolding status_label_for retry_state_for
with_defaults s =
    let dead_letter : Bool = or_default s.dead_letter false in
    let retryable : Bool = or_default s.retryable false in
    let base = default_reconcile s in
    record s {
      reconcile = record {
        reconcile_status = or_else s.reconcile.reconcile_status base.reconcile_status;
        last_checked_at = or_else s.reconcile.last_checked_at base.last_checked_at;
        receipt_status = or_else s.reconcile.receipt_status base.receipt_status;
        projection_status = or_else s.reconcile.projection_status base.projection_status;
      };
      status_label = some (or_default s.status_label (status_label_for s.status));
      retry_state =
          some (or_default s.retry_state (retry_state_for s.status retryable dead_letter));
      dead_letter = some dead_letter;
    }
