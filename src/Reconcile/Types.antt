-- ===== src/Reconcile/Types.antt =====
-- service/src/reconcile/worker.ts and status.ts: receipts, projections, and the records that are
-- reconciled. Of a registration, a draft and a governance log the fields that the worker reads or
-- writes; texts that stand for numbers come from the runtime as texts.
use uvp_chain_services.Prelude.{ℕ, String, Bool, Option, Dict}
use uvp_chain_services.Submission.Types.{Reconcile}

-- `status` is an open input: any text, or none
pub record Receipt : Type 0 where
  pub status : Option String
  pub block_number : Option String

pub record Provenance : Type 0 where
  pub transaction_hash : String
  pub block_number : String

-- a signal as the projection holds it
pub record ProjectedSignal : Type 0 where
  pub order_id : String
  pub source_id : String
  pub signal_id : String
  pub submitter : String
  pub payload_hash : String
  pub idempotency_key : String
  pub submitted_at : Provenance

-- an order as the projection holds it
pub record ProjectedOrder : Type 0 where
  pub contract_address : String
  pub registered_at : Option Provenance
  pub signals : Dict ProjectedSignal

pub data OutcomeKind : Type 0 where
  pending indexing confirmed failed stale_pending : OutcomeKind

pub record Resolved : Type 0 where
  pub kind : OutcomeKind
  pub checked_at : ℕ
  pub fields : Reconcile
  pub block_number : Option String
  pub error_code : Option String
  pub error_message : Option String
  pub retryable : Bool

pub data RegistrationStatus : Type 0 where
  pending prepared submitted indexing confirmed failed expired : RegistrationStatus

pub record Registration : Type 0 where
  pub trigger_id : String
  pub draft_id : String
  pub order_id : String
  pub plan_id : String
  pub state_machine_address : Option String
  pub status : RegistrationStatus
  pub tx_hash : Option String
  pub block_number : Option String
  pub error_code : Option String
  pub error_message : Option String
  pub retryable : Bool
  pub reconcile : Reconcile
  pub created_at : ℕ
  pub updated_at : ℕ

pub data DraftStatus : Type 0 where
  draft awaiting_participants ready_to_trigger triggering triggered failed cancelled : DraftStatus

pub record Draft : Type 0 where
  pub draft_id : String
  pub status : DraftStatus
  pub triggered_order_id : Option String
  pub trigger_tx_hash : Option String
  pub updated_at : ℕ

pub data LogStatus : Type 0 where
  pending broadcasting indexing confirmed failed : LogStatus

pub data LogBroadcast : Type 0 where
  simulated_tx broadcasting submitted confirmed failed : LogBroadcast

pub data LogAction : Type 0 where
  register_identity revoke_identity : LogAction

pub record TxLog : Type 0 where
  pub log_id : String
  pub tx_log_id : String
  pub action : LogAction
  pub subject_id : String
  pub account : Option String
  pub binding_id : Option String
  pub status : LogStatus
  pub broadcast_status : LogBroadcast
  pub simulated : Bool  -- `executionMode` is "simulated"
  pub tx_hash : Option String
  pub block_number : Option String
  pub error_code : Option String
  pub error_message : Option String
  pub retryable : Bool
  pub reconcile : Reconcile
  pub created_at : ℕ
  pub updated_at : ℕ

pub record Identity : Type 0 where
  pub subject_id : String
  pub account : String
  pub binding_id : String
  pub is_revoked : Bool
  pub registered_at : Provenance
  pub revoked_at : Option Provenance
