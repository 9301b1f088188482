-- ===== src/Reconcile/Labels.antt =====
-- How the record that the worker stores agrees with the one that the service builds.
use uvp_chain_services.Submission.Record.Coherent.{IsCoherent}
use uvp_chain_services.Reconcile.Types.{Resolved}
use uvp_chain_services.Reconcile.Submissions.{reconciled, retry_state_from_outcome}
use uvp_chain_services.Submission.Record.Rows.{status_label_for, retry_state_for}
use uvp_chain_services.Submission.Types.{Status, Submission}
use uvp_chain_services.Prelude.{
  String, if◌then◌else◌, ◌≡◌, ◌==◌, sym, refl, some, ◌∙◌, ap, ◌≢◌, or_default, false, arith,
}
use Prim.Native.String.{String}

-- a label back to its status
read_label : String → Status
read_label l =
    if l == "已准备"
    then Status.prepared
    else if l == "签名已接收"
    then Status.signature_received
    else if l == "广播中"
    then Status.broadcasting
    else if l == "已提交"
    then Status.submitted
    else if l == "同步中"
    then Status.indexing
    else if l == "已确认"
    then Status.confirmed
    else if l == "提交失败"
    then Status.failed
    else if l == "已过期"
    then Status.expired
    else Status.replaced

read_label_for : (s : Status) → read_label (status_label_for s) ≡ s
unfolding status_label_for read_label
read_label_for Status.prepared = refl
read_label_for Status.signature_received = refl
read_label_for Status.broadcasting = refl
read_label_for Status.submitted = refl
read_label_for Status.indexing = refl
read_label_for Status.confirmed = refl
read_label_for Status.failed = refl
read_label_for Status.expired = refl
read_label_for Status.replaced = refl

same_label : {a b : String} → some a ≡ some b → a ≡ b
same_label h = cc h

label_injective : (s t : Status) → status_label_for s ≡ status_label_for t → s ≡ t
label_injective s t h = sym (read_label_for s) ∙ ap read_label h ∙ read_label_for t

-- A coherent submission whose status the worker changes is given the label of its old status, which
-- is not the label of its new one.
pub reconciled-keeps_label :
    (o : Resolved) (x : Submission)
    → IsCoherent x
    → (reconciled o x).status ≢ x.status
    → ((reconciled o x).status_label ≡ some (status_label_for x.status))
      × ((reconciled o x).status_label ≢ some (status_label_for (reconciled o x).status))
unfolding reconciled
reconciled-keeps_label o x c differ =
    (c.label, λ h. differ (label_injective _ x.status (same_label (sym h ∙ c.label))))

-- The worker and the service have the same retry state for a status and its flags.
pub reconciled-retry_state_for :
    (o : Resolved) (x : Submission)
    → let u = reconciled o x in
      u.retry_state
      ≡ some
          (retry_state_for u.status (or_default u.retryable false) (or_default u.dead_letter false))
unfolding reconciled retry_state_from_outcome retry_state_for
reconciled-retry_state_for o x = ground arith
