-- ===== src/Reconcile/Outcome.antt =====
-- service/src/reconcile/worker.ts: `#resolveOutcome`, from a record's transaction hash to what is
-- known about the transaction.
use uvp_chain_services.Prelude.{
  ℕ, ◌-◌, String, Bool, true, false, Option, none, some, ◌==◌, ◌||◌, leb, truthy, present,
  or_default, join, [], ◌∷◌, if◌then◌else◌,
}
use uvp_chain_services.Prelude.Exec.{pure, ◌>>=◌}
use uvp_chain_services.Submission.Types.{
  Reconcile, ReconcileStatus, ReceiptStatus, ProjectionStatus,
}
use uvp_chain_services.Reconcile.Types.{Receipt, Provenance, OutcomeKind, Resolved}
use uvp_chain_services.Reconcile.World.{Sources, Work, clock, consult}

abbrev pub checked : ReconcileStatus → ReceiptStatus → ProjectionStatus → ℕ → Reconcile
checked r c p at = record {
  reconcile_status = some r;
  last_checked_at = some at;
  receipt_status = some c;
  projection_status = some p;
}

unfoldable pub timed_out : ℕ → ℕ → ℕ → Bool
timed_out created_at timeout_ms now =
    if leb timeout_ms 0 then false else leb timeout_ms (now - created_at)

unfoldable pub stale_outcome : ℕ → Resolved
stale_outcome at = record {
  kind = OutcomeKind.stale_pending;
  checked_at = at;
  fields =
      checked ReconcileStatus.stale_pending ReceiptStatus.timeout ProjectionStatus.not_checked at;
  block_number = none;
  error_code = some "tx_reconcile_timeout";
  error_message = some "transaction did not produce a receipt before the reconcile timeout";
  retryable = true;
}

unfoldable pub confirmed_outcome : ℕ → Option String → Resolved
unfolding present
confirmed_outcome at block = record {
  kind = OutcomeKind.confirmed;
  checked_at = at;
  fields = checked ReconcileStatus.confirmed ReceiptStatus.success ProjectionStatus.present at;
  block_number = present block;
  error_code = none;
  error_message = none;
  retryable = false;
}

-- no outcome yet; the transaction is looked at again
abbrev pub waiting : Reconcile → ℕ → Option String → Resolved
waiting fields at block = record {
  kind = OutcomeKind.pending;
  checked_at = at;
  fields = fields;
  block_number = block;
  error_code = none;
  error_message = none;
  retryable = true;
}

abbrev pub unsent : ℕ → Resolved
unsent at =
    waiting
      (checked ReconcileStatus.broadcasting ReceiptStatus.not_checked ProjectionStatus.not_checked
        at)
      at none

abbrev pub unmined : ℕ → Resolved
unmined at =
    waiting
      (checked ReconcileStatus.submitted ReceiptStatus.missing ProjectionStatus.not_checked at) at
      none

abbrev pub unclear : ℕ → Option String → Resolved
unclear at block =
    waiting
      (checked ReconcileStatus.submitted ReceiptStatus.unknown ProjectionStatus.not_checked at) at
      (present block)

unfoldable pub reverted_outcome : ℕ → String → Option String → Resolved
unfolding present join
reverted_outcome at status block = record {
  kind = OutcomeKind.failed;
  checked_at = at;
  fields = checked ReconcileStatus.failed ReceiptStatus.failed ProjectionStatus.not_checked at;
  block_number = present block;
  error_code = some "transaction_reverted";
  error_message = some (join " " ("transaction receipt status" ∷ status ∷ []));
  retryable = false;
}

unfoldable pub indexing_outcome : ℕ → Option String → Resolved
unfolding present
indexing_outcome at block = record {
  kind = OutcomeKind.indexing;
  checked_at = at;
  fields = checked ReconcileStatus.indexing ReceiptStatus.success ProjectionStatus.missing at;
  block_number = present block;
  error_code = none;
  error_message = none;
  retryable = false;
}

-- the projection of a record, unless it names another transaction
unfoldable pub confirmation_from_provenance :
    (String → String) → Option Provenance → Option String → Option Provenance
unfolding truthy
confirmation_from_provenance lower_case none expected = none
confirmation_from_provenance lower_case (some p) expected =
    if truthy expected
    then (if lower_case p.transaction_hash == lower_case (or_default expected "")
        then some p
        else none)
    else some p

abbrev pub is_reverted : String → Bool
is_reverted status = (status == "reverted") || (status == "failed")

module _ (env : Sources) (created_at : ℕ) (confirm : Work (Option Provenance)) where
  -- nothing is on the chain under this record yet
  abbrev pub overdue : ℕ → Resolved → Work Resolved
  overdue at early = do
    now ← clock env
    pure (if timed_out created_at env.timeout_ms now then stale_outcome at else early)

  abbrev pub after_success : ℕ → Option String → Option Provenance → Work Resolved
  after_success at block none = pure (indexing_outcome at block)
  after_success at block (some p) = pure (confirmed_outcome at (some p.block_number))

  abbrev pub by_status : ℕ → Option String → Option String → Work Resolved
  by_status at block none = pure (unclear at block)
  by_status at block (some status) =
      if is_reverted status
      then pure (reverted_outcome at status block)
      else if status == "success"
      then confirm >>= after_success at block
      else pure (unclear at block)

  abbrev pub by_receipt : ℕ → Option Receipt → Work Resolved
  by_receipt at none = overdue at (unmined at)
  by_receipt at (some r) = by_status at r.block_number r.status

  abbrev pub by_projection : String → ℕ → Option Provenance → Work Resolved
  by_projection tx at (some p) = pure (confirmed_outcome at (some p.block_number))
  by_projection tx at none = consult (λ n. env.receipt n tx) >>= by_receipt at

  unfoldable pub resolve_outcome : Option String → Work Resolved
  unfolding timed_out truthy
  resolve_outcome tx = do
    at ← clock env
    if truthy tx then confirm >>= by_projection (or_default tx "") at else overdue at (unsent at)
