-- ===== src/Reconcile/Governance.antt =====
-- service/src/reconcile/worker.ts: the reconciliation of one governance transaction, with the ledger of
-- service/src/governance/store.ts.
use uvp_chain_services.Prelude.{
  ℕ, String, Bool, true, false, not, Option, none, some, List, [], ◌∷◌, ◌==◌, ◌&&◌, ◌||◌,
  or_default, or_else, truthy, take, keep, find_first, if◌then◌else◌, present,
}
use uvp_chain_services.Prelude.Exec.{pure, ◌>>=◌, ◌>>◌}
use uvp_chain_services.Rows.{RowKey, ScanCursor, sort_rows, row_before, after_cursor}
use uvp_chain_services.Reconcile.Types.{
  Provenance, OutcomeKind, Resolved, TxLog, LogStatus, LogBroadcast, LogAction, Identity,
}
use uvp_chain_services.Reconcile.World.{Sources, Books, Work, WorkerAudit, consult, change, audit}
use uvp_chain_services.Reconcile.Outcome.{confirmation_from_provenance, resolve_outcome}

abbrev open_log : LogStatus → Option String → Bool
open_log LogStatus.failed tx = truthy tx
open_log LogStatus.pending tx = true
open_log LogStatus.broadcasting tx = true
open_log LogStatus.indexing tx = true
open_log LogStatus.confirmed tx = false

unfoldable pub is_reconcileable_governance_log : TxLog → Bool
unfolding truthy
is_reconcileable_governance_log l = open_log l.status l.tx_hash

abbrev is_simulated_tx : LogBroadcast → Bool
is_simulated_tx LogBroadcast.simulated_tx = true
is_simulated_tx _ = false

unfoldable pub is_simulated_governance_log : TxLog → Bool
is_simulated_governance_log l = l.simulated || is_simulated_tx l.broadcast_status

module _ (lower_case : String → String) where
  abbrev same_hash : Option String → Provenance → Bool
  same_hash expected p =
      not (truthy expected)
      || (lower_case p.transaction_hash == lower_case (or_default expected ""))

  unfoldable pub is_registration_of : TxLog → Identity → Bool
  unfolding truthy
  is_registration_of l i =
      (i.subject_id == l.subject_id)
      && (not (truthy l.account) || (lower_case i.account == lower_case (or_default l.account "")))
      && same_hash l.tx_hash i.registered_at

  abbrev revoked_with : Option String → Option Provenance → Bool
  revoked_with expected none = not (truthy expected)
  revoked_with expected (some p) = same_hash expected p

  abbrev is_binding : Option String → String → Bool
  is_binding none id = false
  is_binding (some b) id = id == b

  unfoldable pub is_revocation_of : TxLog → Identity → Bool
  unfolding truthy
  is_revocation_of l i =
      is_binding l.binding_id i.binding_id && i.is_revoked && revoked_with l.tx_hash i.revoked_at

  abbrev registered_provenance : Option Identity → Option Provenance
  registered_provenance none = none
  registered_provenance (some i) = some i.registered_at

  abbrev revoked_provenance : Option Identity → Option Provenance
  revoked_provenance none = none
  revoked_provenance (some i) = i.revoked_at

  abbrev confirmed_in : TxLog → List Identity → LogAction → Option Provenance
  confirmed_in l ids LogAction.register_identity =
      confirmation_from_provenance lower_case
        (registered_provenance (find_first (is_registration_of l) ids)) l.tx_hash
  confirmed_in l ids LogAction.revoke_identity =
      confirmation_from_provenance lower_case
        (revoked_provenance (find_first (is_revocation_of l) ids)) l.tx_hash

unfoldable pub governance_projection_confirmation : Sources → TxLog → Work (Option Provenance)
unfolding confirmation_from_provenance find_first is_registration_of is_revocation_of present
governance_projection_confirmation env l = do
  ids ← consult (λ n. env.identities n (present l.binding_id) l.subject_id)
  pure (confirmed_in env.lower_case l ids l.action)

unfoldable pub governance_status_from_outcome : OutcomeKind → LogStatus
governance_status_from_outcome OutcomeKind.confirmed = LogStatus.confirmed
governance_status_from_outcome OutcomeKind.failed = LogStatus.failed
governance_status_from_outcome OutcomeKind.stale_pending = LogStatus.failed
governance_status_from_outcome OutcomeKind.indexing = LogStatus.indexing
governance_status_from_outcome OutcomeKind.pending = LogStatus.pending

abbrev once_sent : LogBroadcast → LogBroadcast
once_sent LogBroadcast.broadcasting = LogBroadcast.submitted
once_sent current = current

unfoldable pub governance_broadcast_status_from_outcome : LogBroadcast → OutcomeKind → LogBroadcast
governance_broadcast_status_from_outcome current OutcomeKind.confirmed = LogBroadcast.confirmed
governance_broadcast_status_from_outcome current OutcomeKind.failed = LogBroadcast.failed
governance_broadcast_status_from_outcome current OutcomeKind.stale_pending = LogBroadcast.failed
governance_broadcast_status_from_outcome current OutcomeKind.pending = once_sent current
governance_broadcast_status_from_outcome current OutcomeKind.indexing = once_sent current

unfoldable pub reconciled_log : Resolved → TxLog → TxLog
unfolding governance_status_from_outcome governance_broadcast_status_from_outcome
reconciled_log o l = record l {
  status = governance_status_from_outcome o.kind;
  broadcast_status = governance_broadcast_status_from_outcome l.broadcast_status o.kind;
  reconcile = o.fields;
  block_number = or_else o.block_number l.block_number;
  error_code = or_else o.error_code l.error_code;
  error_message = or_else o.error_message l.error_message;
  retryable = o.retryable;
  updated_at = o.checked_at;
}

-- the first entry with one of the identifiers is replaced
unfoldable pub update_tx_log : TxLog → List TxLog → List TxLog
update_tx_log l [] = []
update_tx_log l (x ∷ xs) =
    let rest = update_tx_log l xs in
    if (x.tx_log_id == l.tx_log_id) || (x.log_id == l.log_id) then l ∷ xs else x ∷ rest

abbrev pub put_log : TxLog → Books → Books
put_log l w = record w { logs = update_tx_log l w.logs }

abbrev is_revoke : LogAction → Bool
is_revoke LogAction.revoke_identity = true
is_revoke LogAction.register_identity = false

abbrev is_failed_kind : OutcomeKind → Bool
is_failed_kind OutcomeKind.failed = true
is_failed_kind _ = false

abbrev is_failed_log : LogStatus → Bool
is_failed_log LogStatus.failed = true
is_failed_log _ = false

-- a revocation that was believed done and turns out to have failed, at the moment it turns
unfoldable pub turned_back : TxLog → OutcomeKind → Bool
turned_back l kind = is_revoke l.action && is_failed_kind kind && not (is_failed_log l.status)

abbrev pub reverted_audit : TxLog → Resolved → WorkerAudit
reverted_audit l o = record {
  kind = "reconcile.governance_revoke_reverted";
  subject = l.log_id;
  tx_hash = l.tx_hash;
  error_code = o.error_code;
  repaired = [];
}

unfoldable pub reconcile_governance_log : Sources → TxLog → Work TxLog
unfolding governance_projection_confirmation turned_back
reconcile_governance_log env l = do
  o ← resolve_outcome env l.created_at (governance_projection_confirmation env l) l.tx_hash
  let updated = reconciled_log o l
  change env (put_log updated)
  if turned_back l o.kind then audit env (reverted_audit l o) else pure tt
  pure updated

abbrev pub is_open_log : LogStatus → Bool
is_open_log LogStatus.confirmed = false
is_open_log _ = true

abbrev pub log_key : RowKey TxLog
log_key = record { created = λ l. l.created_at; name = λ l. l.log_id }

-- the ledger's pages, oldest first
unfoldable pub list_open_identity_tx_logs_page :
    (String → String → Bool) → (String → String → Bool) → Option ScanCursor → ℕ → Books → List TxLog
unfolding keep sort_rows after_cursor
list_open_identity_tx_logs_page before above after limit w = take limit (
    keep (after_cursor log_key above after)
      (sort_rows log_key before (keep (λ (l : TxLog). is_open_log l.status) w.logs)))

-- the whole ledger, newest first
module _ (before : String → String → Bool) where
  unfoldable pub insert_newest : TxLog → List TxLog → List TxLog
  unfolding row_before
  insert_newest x [] = x ∷ []
  insert_newest x (y ∷ ys) =
      let rest = insert_newest x ys in
      if row_before log_key before x y then y ∷ rest else x ∷ y ∷ ys

  unfoldable pub list_newest : List TxLog → List TxLog
  list_newest [] = []
  list_newest (x ∷ xs) = insert_newest x (list_newest xs)

  unfoldable pub list_identity_tx_logs : Books → List TxLog
  list_identity_tx_logs w = list_newest w.logs
