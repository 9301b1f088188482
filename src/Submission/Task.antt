-- ===== src/Submission/Task.antt =====
-- service/src/submissions/service.ts and types.ts: what a preparation is asked for and what it reads.
use uvp_chain_services.Prelude.{String, Bool, Option, List}
use uvp_chain_services.Submission.Types.{Intent, Evidence}
use uvp_chain_services.Submission.World.{Error}
use uvp_chain_services.Submission.Evidence.{EvidenceReader}

pub record Overlay : Type 0 where
  pub target_stage_id : Option String
  pub active_executor_wallet : Option String

pub record TaskProof : Type 0 where
  pub source_id : Option String
  pub signal_id : Option String
  pub stage_identifier : Option String
  pub target_stage_id : Option String

-- the fields of a product task that the preparation reads
pub record Task : Type 0 where
  pub order_id : String
  pub stage_id : String
  pub stage_name : String
  pub title : String
  pub is_open : Bool
  pub state_machine_address : Option String
  pub stage_executor_overlay : Option Overlay
  pub executor_overlay : Option Overlay
  pub proof : Option TaskProof

pub record AuthorizationRequest : Type 0 where
  pub task : Task
  pub task_id : String
  pub signal_name : String
  pub onchain_order_id : String
  pub source_id : String
  pub signal_id : String
  pub intent : Intent
  pub submitter : String

pub record Authorization : Type 0 where
  pub authorized : Bool
  pub source : String

-- how the projection answers for the plan of an order
pub data PlanLookup : Type 0 where
  resolved : Option String → PlanLookup
  ambiguous : PlanLookup
  broken : Error → PlanLookup

-- The services that a preparation asks, and the normal form of a bytes32 text.
pub record Readers : Type 0 where
  pub task : String → Option Task
  pub evidence : EvidenceReader
  pub authorize : AuthorizationRequest → Authorization
  pub plan_of : String → PlanLookup
  pub normalize_bytes32 : String → String

pub record PrepareInput : Type 0 where
  pub wallet_address : String
  pub intent : Intent
  pub evidence_ids : List String

pub record ChainSignal : Type 0 where
  pub order_id : String
  pub source_id : String
  pub signal_id : String

-- everything that the signature will commit to
pub record Facts : Type 0 where
  pub task_id : String
  pub task : Task
  pub input : PrepareInput
  pub submitter : String
  pub contract : String
  pub signal : ChainSignal
  pub evidence : List Evidence
  pub plan_id : String
  pub authorization_source : String
