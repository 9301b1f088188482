-- ===== src/Submission/Prepare.antt =====
-- service/src/submissions/service.ts: `prepareSubmit`, statement by statement.
pub mod Checks
pub mod Fit
pub mod Stored
pub mod Roundtrip
use uvp_chain_services.Submission.Store.{put_prepared}
use uvp_chain_services.Submission.Task.{
  Overlay, TaskProof, Task, AuthorizationRequest, PlanLookup, Readers, PrepareInput, ChainSignal,
  Facts,
}
use uvp_chain_services.Prelude.{
  String, Option, none, some, List, [], ◌∷◌, ◌==◌, or_else, if◌then◌else◌, truthy, or_default,
  is_decimal, is_bytes32, not, zero_bytes32, ℕ, ◌/◌, ◌*◌, ◌+◌, map,
}
use uvp_chain_services.Prelude.Exec.{pure, throw, ◌>>=◌, ◌>>◌}
use uvp_chain_services.Submission.Types.{Intent, Prepared, PreparedRecord, TypedData, HumanSummary}
use uvp_chain_services.Submission.World.{product, Env, Config, Action, HashInput, ask, write}
use uvp_chain_services.Submission.Submit.{normalize_address}
use uvp_chain_services.Submission.Evidence.{
  unless, found_or, resolve_evidence, payload_for, Payload, evidence_summary,
}

unfoldable pub signal_name_for : Intent → String
signal_name_for Intent.confirm_stage = "confirm_stage"
signal_name_for Intent.reject_stage = "reject_stage"
signal_name_for Intent.raise_dispute = "raise_dispute"
signal_name_for Intent.resolve_dispute = "resolve_dispute"

unfoldable pub action_label : Intent → String
action_label Intent.confirm_stage = "confirm stage"
action_label Intent.reject_stage = "reject stage"
action_label Intent.raise_dispute = "raise dispute"
action_label Intent.resolve_dispute = "resolve dispute"

abbrev pub at_overlay : (Overlay → Option String) → Option Overlay → Option String
at_overlay f none = none
at_overlay f (some o) = f o

abbrev pub at_proof : (TaskProof → Option String) → Option TaskProof → Option String
at_proof f none = none
at_proof f (some o) = f o

-- the planId of the projection, unless it is malformed or the zero placeholder
unfoldable pub normalize_plan_id : Env → Option String → Option String
normalize_plan_id env none = none
normalize_plan_id env (some v) =
    if is_bytes32 v
    then (if env.lower_case v == zero_bytes32 then none else some (env.lower_case v))
    else none

module _ (cfg : Config) (env : Env) (r : Readers) where
  -- the first of the values that is a bytes32 text
  unfoldable pub first_bytes32 : List (Option String) → Option String
  first_bytes32 [] = none
  first_bytes32 (none ∷ rest) = first_bytes32 rest
  first_bytes32 (some v ∷ rest) =
      if is_bytes32 v then some (r.normalize_bytes32 v) else first_bytes32 rest

  unfoldable pub active_executor : Task → Option String
  active_executor t =
      or_else (at_overlay (λ o. o.active_executor_wallet) t.stage_executor_overlay)
        (at_overlay (λ o. o.active_executor_wallet) t.executor_overlay)

  unfoldable pub executor_source : Task → Option String
  unfolding active_executor first_bytes32 truthy
  executor_source t =
      if truthy (active_executor t)
      then first_bytes32 (
          at_overlay (λ o. o.target_stage_id) t.stage_executor_overlay
          ∷ at_overlay (λ o. o.target_stage_id) t.executor_overlay
          ∷ at_proof (λ p. p.target_stage_id) t.proof
          ∷ at_proof (λ p. p.stage_identifier) t.proof
          ∷ [])
      else none

  unfoldable pub chain_signal_for : Task → Action ChainSignal
  chain_signal_for t = do
    source_id ←
        found_or
          (or_else (first_bytes32 (at_proof (λ p. p.source_id) t.proof ∷ [])) (executor_source t))
          (product 409 "order_plan_unresolved")
    signal_id ←
        found_or (first_bytes32 (at_proof (λ p. p.signal_id) t.proof ∷ []))
          (product 409 "order_plan_unresolved")
    unless (not (is_bytes32 t.order_id)) (product 409 "order_plan_unresolved")
    pure (record {
      order_id = r.normalize_bytes32 t.order_id;
      source_id = source_id;
      signal_id = signal_id;
    })

  abbrev pub plan_or_throw : PlanLookup → Action (Option String)
  plan_or_throw (PlanLookup.resolved o) = pure o
  plan_or_throw PlanLookup.ambiguous = throw (product 409 "ambiguous_order_id")
  plan_or_throw (PlanLookup.broken e) = throw e

  unfoldable pub resolve_plan : ChainSignal → Action String
  resolve_plan signal = do
    found ← plan_or_throw (r.plan_of signal.order_id)
    found_or (normalize_plan_id env found) (product 409 "order_plan_unresolved")

  unfoldable pub normalize_nonce : String → Action String
  normalize_nonce n = if is_decimal n then pure n else throw (product 500 "invalid_nonce_factory")

  unfoldable pub contract_for : Task → Action String
  contract_for t =
      if truthy t.state_machine_address
      then normalize_address cfg env (or_default t.state_machine_address "")
      else pure cfg.verifying_contract

  abbrev pub authorization_request :
      Task → String → PrepareInput → ChainSignal → String → AuthorizationRequest
  authorization_request t task_id input signal submitter = record {
    task = t;
    task_id = task_id;
    signal_name = signal_name_for input.intent;
    onchain_order_id = signal.order_id;
    source_id = signal.source_id;
    signal_id = signal.signal_id;
    intent = input.intent;
    submitter = submitter;
  }

  abbrev pub idempotency_input : Facts → String → HashInput
  idempotency_input f nonce =
      HashInput.idempotency f.task.order_id f.signal.order_id f.task_id f.task.stage_id
        (signal_name_for f.input.intent) f.submitter nonce

  abbrev pub typed_data_for : Facts → Payload → String → ℕ → TypedData
  typed_data_for f payload key deadline = record {
    chain_id = cfg.chain_id;
    verifying_contract = f.contract;
    plan_id = f.plan_id;
    order_id = f.signal.order_id;
    source_id = f.signal.source_id;
    signal_id = f.signal.signal_id;
    payload_hash = payload.payload_hash;
    idempotency_key = key;
    submitter = f.submitter;
    deadline = deadline;
  }

  abbrev pub human_summary_for : Facts → Payload → ℕ → HumanSummary
  human_summary_for f payload deadline = record {
    purpose = "UVP product task submission";
    order_id = f.task.order_id;
    task_title = f.task.title;
    stage = if f.task.stage_name == "" then f.task.stage_id else f.task.stage_name;
    action = action_label f.input.intent;
    payload_hash = payload.payload_hash;
    payload_ref = payload.payload_ref;
    submitter = f.submitter;
    valid_until = deadline * 1000;
    chain_id = cfg.chain_id;
    verifying_contract = f.contract;
  }

  unfoldable pub prepared_from : Facts → ℕ → String → String → PreparedRecord
  unfolding signal_name_for action_label payload_for evidence_summary
  prepared_from f created nonce prepare_id =
      let deadline : ℕ = created / 1000 + cfg.ttl_seconds in
      let payload = payload_for env r.evidence f.evidence in
      let key = env.hash (idempotency_input f nonce) in
      record {
        dto = record {
          prepare_id = prepare_id;
          task_id = f.task_id;
          order_id = f.task.order_id;
          onchain_order_id = f.signal.order_id;
          plan_id = f.plan_id;
          stage_identifier = f.task.stage_id;
          signal_name = signal_name_for f.input.intent;
          source_id = f.signal.source_id;
          signal_id = f.signal.signal_id;
          intent = f.input.intent;
          payload_hash = payload.payload_hash;
          payload_ref = payload.payload_ref;
          idempotency_key = key;
          submitter = f.submitter;
          nonce = nonce;
          deadline = deadline;
          expires_at = deadline * 1000;
          human_summary = human_summary_for f payload deadline;
          typed_data = typed_data_for f payload key deadline;
          evidence = map evidence_summary f.evidence;
          authorization_source = f.authorization_source;
        };
        evidence_records = f.evidence;
        used_at = none;
        used_by = none;
      }

  -- the checks, in their order
  unfoldable pub gather : String → PrepareInput → Action Facts
  gather task_id input = do
    t ← found_or (r.task task_id) (product 404 "product_task_not_found")
    unless (not t.is_open) (product 409 "task_not_submittable")
    submitter ← normalize_address cfg env input.wallet_address
    contract ← contract_for t
    signal ← chain_signal_for t
    evidence ←
        resolve_evidence r.evidence
          (record { order_id = t.order_id; task_id = task_id; stage_identifier = t.stage_id })
          input.evidence_ids
    let answer = r.authorize (authorization_request t task_id input signal submitter)
    unless (not answer.authorized) (product 403 "submitter_not_authorized")
    plan_id ← resolve_plan signal
    pure (record {
      task_id = task_id;
      task = t;
      input = input;
      submitter = submitter;
      contract = contract;
      signal = signal;
      evidence = evidence;
      plan_id = plan_id;
      authorization_source = answer.source;
    })

  unfoldable pub prepare_submit : String → PrepareInput → Action Prepared
  prepare_submit task_id input = do
    facts ← gather task_id input
    created ← ask env.now
    given ← ask env.new_nonce
    nonce ← normalize_nonce given
    prepare_id ← ask env.new_prepare_id
    let prepared = prepared_from facts created nonce prepare_id
    write env (put_prepared prepared)
    pure prepared.dto
