-- ===== src/Submission/Types.antt =====
-- service/src/submissions/types.ts: what a prepared submission, a broadcast result and a stored
-- submission hold. An instant in ISO form is its number of milliseconds, a deadline its number of
-- seconds; both orders agree with those of the texts. The types that the source takes from
-- @uvp-eth/product-dto have the fields that the code under service/src writes and reads.
use uvp_chain_services.Prelude.{ℕ, String, Bool, Option, List}

pub data Status : Type 0 where
  prepared signature_received broadcasting submitted indexing confirmed failed expired replaced :
      Status

pub data BroadcastStatus : Type 0 where
  not_attempted broadcasting submitted confirmed failed : BroadcastStatus

pub data RetryState : Type 0 where
  not_applicable retryable not_retryable dead_letter : RetryState

pub data Intent : Type 0 where
  confirm_stage reject_stage raise_dispute resolve_dispute : Intent

pub record Attempt : Type 0 where
  pub status : Status
  pub tx_hash : Option String
  pub block_number : Option String
  pub revert_reason : Option String
  pub gas_payer : Option String
  pub attempt_number : Option ℕ
  pub error_code : Option String
  pub error_label : Option String
  pub error_message : Option String
  pub retryable : Option Bool
  pub retry_state : Option RetryState
  pub dead_letter : Option Bool
  pub next_retry_at : Option ℕ

-- the fields of a broadcast result whose status is "failed"
pub record Failure : Type 0 where
  pub tx_hash : Option String
  pub block_number : Option String
  pub error_code : String
  pub error_label : Option String
  pub message : String
  pub retryable : Bool
  pub retry_state : Option RetryState
  pub dead_letter : Option Bool
  pub next_retry_at : Option ℕ
  pub attempt : Option Attempt

pub data Broadcast : Type 0 where
  broadcasting : Option String → Option Attempt → Broadcast
  submitted : String → Option String → Option Attempt → Broadcast
  confirmed : String → Option String → Option Attempt → Broadcast
  not_attempted : String → String → Broadcast
  failed : Failure → Broadcast

-- The message from which the wallet's typed data is built; its builder and the recovery of the
-- signer belong to @uvp-eth/protocol-bindings.
pub record TypedData : Type 0 where
  pub chain_id : ℕ
  pub verifying_contract : String
  pub plan_id : String
  pub order_id : String
  pub source_id : String
  pub signal_id : String
  pub payload_hash : String
  pub idempotency_key : String
  pub submitter : String
  pub deadline : ℕ

pub record HumanSummary : Type 0 where
  pub purpose : String
  pub order_id : String
  pub task_title : String
  pub stage : String
  pub action : String
  pub payload_hash : String
  pub payload_ref : String
  pub submitter : String
  pub valid_until : ℕ
  pub chain_id : ℕ
  pub verifying_contract : String

pub data EvidenceStatus : Type 0 where
  uploaded bound superseded withdrawn missing_file mismatched : EvidenceStatus

-- the part of an evidence record that a submission reads
pub record Evidence : Type 0 where
  pub evidence_id : String
  pub status : EvidenceStatus
  pub order_id : Option String
  pub task_id : Option String
  pub stage_identifier : String
  pub payload_hash : String
  pub payload_ref : String

pub record PreparedEvidence : Type 0 where
  pub evidence_id : String
  pub payload_hash : String
  pub payload_ref : String
  pub verification_status : String

pub record Prepared : Type 0 where
  pub prepare_id : String
  pub task_id : String
  pub order_id : String
  pub onchain_order_id : String
  pub plan_id : String
  pub stage_identifier : String
  pub signal_name : String
  pub source_id : String
  pub signal_id : String
  pub intent : Intent
  pub payload_hash : String
  pub payload_ref : String
  pub idempotency_key : String
  pub submitter : String
  pub nonce : String
  pub deadline : ℕ
  pub expires_at : ℕ
  pub human_summary : HumanSummary
  pub typed_data : TypedData
  pub evidence : List PreparedEvidence
  pub authorization_source : String

-- what the store keeps of a prepared submission
pub record PreparedRecord : Type 0 where
  pub dto : Prepared
  pub open dto use *
  pub evidence_records : List Evidence
  pub used_at : Option ℕ
  pub used_by : Option String

pub record AttemptRow : Type 0 where
  pub attempt_id : String × ℕ
  pub submission_id : String
  pub order_id : String
  pub source_id : String
  pub signal_id : String
  pub submitter : String
  pub attempt : Attempt
  pub created_at : ℕ
  pub updated_at : ℕ

pub data ReconcileStatus : Type 0 where
  broadcasting submitted indexing confirmed failed stale_pending : ReconcileStatus

pub data ReceiptStatus : Type 0 where
  not_checked missing unknown success failed timeout : ReceiptStatus

pub data ProjectionStatus : Type 0 where
  not_checked missing present : ProjectionStatus

pub record Reconcile : Type 0 where
  pub reconcile_status : Option ReconcileStatus
  pub last_checked_at : Option ℕ
  pub receipt_status : Option ReceiptStatus
  pub projection_status : Option ProjectionStatus

-- the fields that every submission takes over from its prepared submission
pub record Common : Type 0 where
  pub submission_id : String
  pub prepare_id : String
  pub task_id : String
  pub order_id : String
  pub onchain_order_id : String
  pub plan_id : String
  pub stage_identifier : String
  pub signal_name : String
  pub source_id : String
  pub signal_id : String
  pub intent : Intent
  pub payload_hash : String
  pub payload_ref : String
  pub idempotency_key : String
  pub submitter : String
  pub nonce : String
  pub deadline : ℕ
  pub signature_verified : Bool
  pub signature_hash : Option String
  pub recovered_submitter : Option String
  pub evidence_ids : List String
  pub created_at : ℕ
  pub updated_at : ℕ

pub record ProofRow : Type 0 where
  pub label : String
  pub value : String

pub record Submission : Type 0 where
  pub common : Common
  pub open common use *
  pub status : Status
  pub status_label : Option String
  pub broadcast_status : BroadcastStatus
  pub tx_hash : Option String
  pub block_number : Option String
  pub error_code : Option String
  pub error_label : Option String
  pub error_message : Option String
  pub retryable : Option Bool
  pub retry_state : Option RetryState
  pub dead_letter : Option Bool
  pub next_retry_at : Option ℕ
  pub attempts : List AttemptRow
  pub attempt_count : ℕ
  pub proof_rows : List ProofRow
  pub reconcile : Reconcile
