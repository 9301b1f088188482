-- ===== src/Submission/Record/Coherent.antt =====
-- How the fields of the submission records that the service builds agree.
use uvp_chain_services.Prelude.{
  String, true, false, Option, none, some, ◌≡◌, refl, arith, or_else, truthy, ◌==◌, or_default,
  is_some, length, ◌≤◌,
}
use uvp_chain_services.Submission.Types.{
  Status, Attempt, Failure, Broadcast, PreparedRecord, Submission, ReceiptStatus,
}
use uvp_chain_services.Submission.Record.Rows.{Signed, status_label_for, retry_state_for}
use uvp_chain_services.Submission.Record.Build.{submission_from_broadcast}
use uvp_chain_services.Submission.Record.Defaults.{
  with_defaults, default_reconcile, default_reconcile_at,
}

-- a failure's own retry state, where it has one, is the one that its flags give
abbrev pub OwnRetryState : Broadcast → Type 0
OwnRetryState (Broadcast.failed f) = f.retry_state ≡ none
OwnRetryState _ = Unit

pub record IsCoherent (s : Submission) : Type 0 where
  pub label : s.status_label ≡ some (status_label_for s.status)
  pub retry :
      s.retry_state
      ≡ some
          (retry_state_for s.status (or_default s.retryable false) (or_default s.dead_letter false))
  pub count : s.attempt_count ≡ length s.attempts
  pub one_attempt : s.attempt_count ≤ 1
  pub no_retry_after_success : s.retryable ≡ some true → s.status ≡ Status.failed

-- For every broadcast result that leaves the retry state to the service, the record that `submit`
-- stores has the label of its status, the retry state that its status and flags give, at most one
-- attempt, correctly counted, and is retryable only if it failed.
pub recorded-IsCoherent :
    (p : PreparedRecord) (i : Signed) (b : Broadcast)
    → OwnRetryState b
    → IsCoherent (with_defaults (submission_from_broadcast p i b))
unfolding with_defaults default_reconcile submission_from_broadcast
recorded-IsCoherent p i (Broadcast.failed f) h = ground arith
recorded-IsCoherent p i (Broadcast.broadcasting tx (some a)) h = ground arith
recorded-IsCoherent p i b h = ground arith

-- Of a broadcast result, the record says that a receipt succeeded only for a confirmed result with a
-- hash, and that it failed only for a failure whose code is `transaction_reverted` and which has a
-- hash.
pub recorded_receipt :
    (p : PreparedRecord) (i : Signed) (b : Broadcast)
    → let s = with_defaults (submission_from_broadcast p i b) in
      (s.reconcile.receipt_status ≡ some ReceiptStatus.success
        → (tx : String) × (block : Option String) × (a : Option Attempt) × (b
            ≡ Broadcast.confirmed tx block a)
          × (truthy (some tx) ≡ true))
      × (s.reconcile.receipt_status ≡ some ReceiptStatus.failed
          → (f : Failure) × (b ≡ Broadcast.failed f)
            × ((f.error_code == "transaction_reverted") ≡ true)
            × (is_some s.tx_hash ≡ true))
unfolding with_defaults default_reconcile submission_from_broadcast
recorded_receipt p i (Broadcast.broadcasting tx a) = (λ h. cc, λ h. cc)
recorded_receipt p i (Broadcast.submitted tx block a) = (λ h. cc, λ h. cc)
recorded_receipt p i (Broadcast.confirmed tx block a) =
    (λ h. (tx, block, a, refl, ground arith), λ h. ground arith)
recorded_receipt p i (Broadcast.failed f) =
    (λ h. ground arith, λ h. (f, refl, ground arith, ground arith))
recorded_receipt p i (Broadcast.not_attempted code reason) = (λ h. cc, λ h. cc)

or_else_idem {ℓ} : {A : Type ℓ} (a b : Option A) → or_else (or_else a b) b ≡ or_else a b
or_else_idem none none = refl
or_else_idem none (some b) = refl
or_else_idem (some a) b = refl

default_reconcile_same :
    (st : Status) (s : Submission)
    → default_reconcile_at st (with_defaults s) ≡ default_reconcile_at st s
unfolding with_defaults default_reconcile
default_reconcile_same Status.confirmed s = refl
default_reconcile_same Status.failed s = refl
default_reconcile_same _ s = refl

default_reconcile-with_defaults :
    (s : Submission) → default_reconcile (with_defaults s) ≡ default_reconcile s
default_reconcile-with_defaults s =
    unfold default_reconcile with_defaults in default_reconcile_same s.status s

-- Filling the defaults in twice is filling them in once.
pub with_defaults_idem : (s : Submission) → with_defaults (with_defaults s) ≡ with_defaults s
unfolding with_defaults
with_defaults_idem s = simp (default_reconcile-with_defaults, or_else_idem)
