-- ===== src/Reconcile/Registrations.antt =====
-- service/src/reconcile/worker.ts: the reconciliation of one registration and of its draft, with the
-- in-memory store of service/src/product/query/bff/store.ts.
use uvp_chain_services.Prelude.{
  ℕ, String, Bool, true, false, not, Option, none, some, List, ◌==◌, ◌&&◌, get, put, values,
  or_default, or_else, truthy, present, if◌then◌else◌,
}
use uvp_chain_services.Prelude.Exec.{pure, ◌>>=◌, ◌>>◌}
use uvp_chain_services.Reconcile.Types.{
  Provenance, ProjectedOrder, OutcomeKind, Resolved, Registration, RegistrationStatus, Draft,
  DraftStatus,
}
use uvp_chain_services.Rows.{RowKey, sort_rows}
use uvp_chain_services.Reconcile.World.{Sources, Books, Work, consult, look, change}
use uvp_chain_services.Reconcile.Outcome.{confirmation_from_provenance, resolve_outcome}

abbrev open_registration : RegistrationStatus → Option String → Bool
open_registration RegistrationStatus.failed tx = truthy tx
open_registration RegistrationStatus.submitted tx = true
open_registration RegistrationStatus.indexing tx = true
open_registration _ tx = false

unfoldable pub is_reconcileable_registration : Registration → Bool
unfolding truthy
is_reconcileable_registration r = open_registration r.status r.tx_hash

abbrev other_contract : (String → String) → Option String → String → Bool
other_contract lower_case expected actual =
    truthy expected && not (lower_case actual == lower_case (or_default expected ""))

abbrev registered_in : (String → String) → Registration → Option ProjectedOrder → Option Provenance
registered_in lower_case r none = none
registered_in lower_case r (some o) =
    if other_contract lower_case r.state_machine_address o.contract_address
    then none
    else confirmation_from_provenance lower_case o.registered_at r.tx_hash

unfoldable pub registration_projection_confirmation :
    Sources → Registration → Work (Option Provenance)
unfolding confirmation_from_provenance truthy
registration_projection_confirmation env r = do
  order ← consult (λ n. env.order n r.order_id r.plan_id)
  pure (registered_in env.lower_case r order)

unfoldable pub registration_status_from : OutcomeKind → RegistrationStatus → RegistrationStatus
registration_status_from OutcomeKind.pending current = current
registration_status_from OutcomeKind.indexing current = RegistrationStatus.indexing
registration_status_from OutcomeKind.confirmed current = RegistrationStatus.confirmed
registration_status_from OutcomeKind.failed current = RegistrationStatus.failed
registration_status_from OutcomeKind.stale_pending current = RegistrationStatus.failed

unfoldable pub reconciled_registration : Resolved → Registration → Registration
unfolding registration_status_from
reconciled_registration o r = record r {
  status = registration_status_from o.kind r.status;
  reconcile = o.fields;
  block_number = or_else o.block_number r.block_number;
  error_code = or_else o.error_code r.error_code;
  error_message = or_else o.error_message r.error_message;
  retryable = o.retryable;
  updated_at = o.checked_at;
}

abbrev draft_at : Draft → Registration → ℕ → RegistrationStatus → Draft
draft_at d r at RegistrationStatus.confirmed = record d {
  status = DraftStatus.triggered;
  triggered_order_id = some r.order_id;
  trigger_tx_hash = or_else (present r.tx_hash) d.trigger_tx_hash;
  updated_at = at;
}
draft_at d r at RegistrationStatus.failed = record d {
  status = DraftStatus.failed;
  updated_at = at;
}
draft_at d r at _ = record d { status = DraftStatus.triggering; updated_at = at }

unfoldable pub draft_from_reconciled_registration : Draft → Registration → ℕ → Draft
unfolding present
draft_from_reconciled_registration d r at = draft_at d r at r.status

abbrev update_registration : Registration → Books → Books
update_registration r w = record w { registrations = put r.trigger_id r w.registrations }

abbrev update_draft : Draft → Books → Books
update_draft d w = record w { drafts = put d.draft_id d w.drafts }

abbrev pub carry_draft : Sources → Registration → ℕ → Option Draft → Work (Unit {0})
carry_draft env r at none = pure tt
carry_draft env r at (some d) =
    change env (update_draft (draft_from_reconciled_registration d r at))

unfoldable pub reconcile_registration : Sources → Registration → Work Registration
unfolding registration_projection_confirmation
reconcile_registration env r = do
  o ← resolve_outcome env r.created_at (registration_projection_confirmation env r) r.tx_hash
  let updated = reconciled_registration o r
  change env (update_registration updated)
  draft ← look env (λ w. get r.draft_id w.drafts)
  carry_draft env updated o.checked_at draft
  pure updated

abbrev pub registration_key : RowKey Registration
registration_key = record { created = λ r. r.created_at; name = λ r. r.trigger_id }

unfoldable pub list_registrations : (String → String → Bool) → Books → List Registration
unfolding values sort_rows
list_registrations before w = sort_rows registration_key before (values w.registrations)
