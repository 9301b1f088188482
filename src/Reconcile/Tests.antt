-- ===== src/Reconcile/Tests.antt =====
-- A small worker on which the theorems about reconciliation are applied.
use uvp_chain_services.Prelude.Exec.{done}
use uvp_chain_services.Reconcile.World.{Books, no_summary, Sources}
use uvp_chain_services.Reconcile.Types.{
  Provenance, ProjectedOrder, ProjectedSignal, TxLog, LogAction, Receipt, LogStatus, LogBroadcast,
}
use uvp_chain_services.Submission.Types.{
  Submission, Intent, Status, BroadcastStatus, Reconcile, RetryState,
}
use uvp_chain_services.Prelude.{
  String, true, none, some, ◌∷◌, [], ℕ, Option, Bool, ltb, if◌then◌else◌, ◌==◌, false, ◌+◌,
}
use Prim.Native.String.{String, []}
mod Claims

abbrev pub hash : String
hash = "0xaa"

abbrev pub block : Provenance
block = record { transaction_hash = hash; block_number = "12" }

abbrev never_checked : Reconcile
never_checked = record {
  reconcile_status = none;
  last_checked_at = none;
  receipt_status = none;
  projection_status = none;
}

-- a submission that was sent
abbrev pub sent_row : Submission
sent_row = record {
  common = record {
    submission_id = "sub";
    prepare_id = "prep";
    task_id = "task";
    order_id = "order";
    onchain_order_id = "0x2";
    plan_id = "0x1";
    stage_identifier = "stage";
    signal_name = "confirm_stage";
    source_id = "0x3";
    signal_id = "0x4";
    intent = Intent.confirm_stage;
    payload_hash = "0x5";
    payload_ref = "ref";
    idempotency_key = "0x6";
    submitter = "0xw";
    nonce = "7";
    deadline = 900;
    signature_verified = true;
    signature_hash = none;
    recovered_submitter = some "0xw";
    evidence_ids = "photo" ∷ [];
    created_at = 5;
    updated_at = 5;
  };
  status = Status.submitted;
  broadcast_status = BroadcastStatus.submitted;
  reconcile = never_checked;
  status_label = some "已提交";
  tx_hash = some hash;
  block_number = none;
  error_code = none;
  error_label = none;
  error_message = none;
  retryable = some false;
  retry_state = some RetryState.not_applicable;
  dead_letter = some false;
  next_retry_at = none;
  attempts = [];
  attempt_count = 0;
  proof_rows = [];
}

abbrev pub signal : ProjectedSignal
signal = record {
  order_id = "0x2";
  source_id = "0x3";
  signal_id = "0x4";
  submitter = "0xw";
  payload_hash = "0x5";
  idempotency_key = "0x6";
  submitted_at = block;
}

abbrev pub order : ProjectedOrder
order = record {
  contract_address = "0xc";
  registered_at = some block;
  signals = ("0x3:0x4", signal) ∷ [];
}

abbrev pub log : TxLog
log = record {
  log_id = "log";
  tx_log_id = "txlog";
  action = LogAction.revoke_identity;
  subject_id = "subject";
  account = none;
  binding_id = some "binding";
  status = LogStatus.pending;
  broadcast_status = LogBroadcast.submitted;
  simulated = false;
  tx_hash = some hash;
  block_number = none;
  error_code = none;
  error_message = none;
  retryable = false;
  reconcile = never_checked;
  created_at = 5;
  updated_at = 5;
}

abbrev rank : String → ℕ
rank s = if s == "sub" then 1 else if s == "sub2" then 2 else 0

-- identifiers by their rank
abbrev pub by_rank : String → String → Bool
by_rank a b = ltb (rank a) (rank b)

-- every store answers; the projection and the chain answer as the arguments say
abbrev pub worker : Option ProjectedOrder → Option Receipt → Sources
worker projected receipt = record {
  now = λ n. 10 + n;
  receipt = λ n tx. done receipt;
  order = λ n id plan. done projected;
  identities = λ n binding subject. done [];
  evidence_status = λ n id submitter. done (some "unbound");
  store_fails = λ n. false;
  bind_fails = λ n. false;
  audit_fails = λ n. false;
  lower_case = λ a. a;
  before = by_rank;
  above = λ a b. by_rank b a;
  timeout_ms = 1000;
  page_size = 1;
  has_products = true;
  has_submissions = true;
  has_governance = true;
  has_binder = true;
  has_audit = true;
  has_pages = true;
}

abbrev pub second_row : Submission
second_row = record sent_row { common = record (sent_row.common) { submission_id = "sub2" } }

abbrev pub books : Books
books = record {
  tick = 0;
  store = record {
    prepared = [];
    submissions = ("sub", sent_row) ∷ ("sub2", second_row) ∷ [];
    nonces = [];
  };
  registrations = [];
  drafts = [];
  logs = log ∷ [];
  audits = [];
  binds = [];
  summary = no_summary;
  checking = false;
  last_run_at = none;
  last_summary = none;
  last_error = none;
}
