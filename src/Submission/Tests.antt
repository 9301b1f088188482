-- ===== src/Submission/Tests.antt =====
-- A small service on which the theorems about submissions are applied.
mod Calls
mod Claims
use uvp_chain_services.Prelude.{ℕ, String, Bool, true, false, none, some, [], ◌∷◌}
use uvp_chain_services.Prelude.Exec.{Outcome, done, thrown}
use uvp_chain_services.Submission.Types.{
  Broadcast, TypedData, HumanSummary, PreparedRecord, Intent, Evidence, EvidenceStatus,
}
use uvp_chain_services.Submission.World.{World, Env, Config}
use uvp_chain_services.Submission.Submit.{SubmitInput, Verified}

abbrev pub wallet : String
wallet = "0xw"

abbrev pub typed : TypedData
typed = record {
  chain_id = 1;
  verifying_contract = "0xc";
  plan_id = "0x1";
  order_id = "0x2";
  source_id = "0x3";
  signal_id = "0x4";
  payload_hash = "0x5";
  idempotency_key = "0x6";
  submitter = wallet;
  deadline = 900;
}

abbrev pub summary : HumanSummary
summary = record {
  purpose = "UVP product task submission";
  order_id = "0x2";
  task_title = "title";
  stage = "stage";
  action = "confirm stage";
  payload_hash = "0x5";
  payload_ref = "ref";
  submitter = wallet;
  valid_until = 900000;
  chain_id = 1;
  verifying_contract = "0xc";
}

abbrev pub photo : Evidence
photo = record {
  evidence_id = "e1";
  status = EvidenceStatus.uploaded;
  order_id = none;
  task_id = none;
  stage_identifier = "stage";
  payload_hash = "0x5";
  payload_ref = "ref";
}

abbrev pub sample : PreparedRecord
sample = record {
  dto = record {
    prepare_id = "prep";
    task_id = "task";
    order_id = "0x2";
    onchain_order_id = "0x2";
    plan_id = "0x1";
    stage_identifier = "stage";
    signal_name = "confirm_stage";
    source_id = "0x3";
    signal_id = "0x4";
    intent = Intent.confirm_stage;
    payload_hash = "0x5";
    payload_ref = "ref";
    idempotency_key = "0x6";
    submitter = wallet;
    nonce = "7";
    deadline = 900;
    expires_at = 900000;
    human_summary = summary;
    typed_data = typed;
    evidence = [];
    authorization_source = "allow_list";
  };
  evidence_records = photo ∷ [];
  used_at = none;
  used_by = none;
}

-- the chain answers as `chain` says, at the time `clock`; calls of the store fail as `faults` says
abbrev pub sample_env : (ℕ → Outcome String Broadcast) → ℕ → (ℕ → Bool) → Env
sample_env chain clock faults = record {
  now = λ _. clock;
  new_prepare_id = λ _. "prep";
  new_submission_id = λ _. "sub";
  new_nonce = λ _. "7";
  broadcast = λ n _. chain n;
  store_fails = faults;
  audit_fails = λ _. false;
  bind_fails = λ _. true;
  recover = λ _ _. some wallet;
  normalize_address = λ a. some a;
  lower_case = λ a. a;
  hash = λ _. "0xh";
  classify = λ _. record { error_code = "rpc_timeout"; message = "m"; retryable = true };
}

abbrev pub accepts : ℕ → Outcome String Broadcast
accepts _ = done (Broadcast.submitted "0xaa" none none)

abbrev pub times_out : ℕ → Outcome String Broadcast
times_out _ = thrown "timeout"

abbrev pub never : ℕ → Bool
never _ = false

abbrev pub service : Config
service = record {
  ttl_seconds = 600;
  chain_id = 1;
  verifying_contract = "0xc";
  attempts_broadcast = true;
  has_transaction = true;
  has_release = true;
  has_bind = true;
}

abbrev pub start : World
start = record {
  tick = 0;
  store = record { prepared = ("prep", sample) ∷ []; submissions = []; nonces = [] };
  audits = [];
  broadcasts = [];
  binds = [];
}

abbrev pub signed_input : SubmitInput
signed_input = record { prepare_id = "prep"; wallet_address = wallet; signature = "0xab" }

abbrev pub verified : Verified
verified = record { submitter = wallet; signature = "0xab" }
