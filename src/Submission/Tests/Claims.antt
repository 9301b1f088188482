-- ===== src/Submission/Tests/Claims.antt =====
-- The theorems about preparing, about records and about one call, applied to the small service.
use uvp_chain_services.Submission.Prepare.Roundtrip.{load_prepared-prepare_submit}
use uvp_chain_services.Submission.Evidence.{
  resolve_evidence, unique_non_empty, resolve_each, resolve_one, validate_evidence, payload_for,
  evidence_summary,
}
use uvp_chain_services.Submission.Access.{get_submission-put_submission}
use uvp_chain_services.Submission.Prepare.Stored.{IsPrepared, prepare_submit-IsPrepared}
use uvp_chain_services.Submission.Store.{put_submission, put_prepared}
use uvp_chain_services.Submission.Prepare.{
  gather, contract_for, chain_signal_for, first_bytes32, resolve_plan, normalize_plan_id,
  normalize_nonce, active_executor, executor_source, signal_name_for, prepared_from,
}
use uvp_chain_services.Submission.Task.{Task}
use uvp_chain_services.Submission.Prepare.{prepare_submit}
use uvp_chain_services.Submission.Task.{Readers, PrepareInput, PlanLookup}
use uvp_chain_services.Prelude.Exec.{Outcome, done, thrown, ◌>>=◌, throw, pure, lift}
use uvp_chain_services.Prelude.{
  none, some, [], ◌∷◌, ◌≡◌, get, ◌⊎◌, String, true, Option, if◌then◌else◌, truthy, false, ◌==◌,
  refl, is_some, is_bytes32, keep, distinct_from, is_decimal, any, contains, every, codes,
  hex_digits, put, is_hex,
}
use uvp_chain_services.Submission.Types.{
  ReceiptStatus, Attempt, Failure, Broadcast, PreparedRecord, Submission, Prepared, Intent,
}
use uvp_chain_services.Submission.World.{Env, Error, product, ask, write, call_store, World}
use uvp_chain_services.Submission.Submit.{
  Verified, request_of, normalize_address, load_prepared, verify_wallet,
}
use uvp_chain_services.Submission.Finish.{submit, get_submission}
use uvp_chain_services.Submission.Record.Rows.{Signed}
use uvp_chain_services.Submission.Record.Build.{submission_from_broadcast}
use uvp_chain_services.Submission.Record.Defaults.{with_defaults}
use uvp_chain_services.Submission.Record.Coherent.{
  IsCoherent, recorded-IsCoherent, recorded_receipt,
}
use uvp_chain_services.Submission.Once.Sends.{IsEntitled, Sends, submit-Sends}
use uvp_chain_services.Submission.Tests.{
  service, sample_env, accepts, never, start, signed_input, sample, wallet, Outcome, Intent, photo,
  World,
}

abbrev env : Env
env = sample_env accepts 800000 never

first-Sends :
    let l' = (submit service env "task" signed_input start).1.broadcasts in
    (l' ≡ start.broadcasts)
    ⊎ ((p : PreparedRecord) × (v : Verified) × IsEntitled env "task" signed_input start p v
        × Sends (request_of service env p v) start.broadcasts l')
first-Sends = submit-Sends service env "task" signed_input start

abbrev signed : Signed
signed = record {
  submission_id = "sub";
  recovered_submitter = some wallet;
  signature_hash = some "0xh";
  created_at = 800000;
}

abbrev confirmed : Broadcast
confirmed = Broadcast.confirmed "0xaa" (some "12") none

confirmed-IsCoherent :
    IsCoherent (with_defaults (submission_from_broadcast sample signed confirmed))
confirmed-IsCoherent = recorded-IsCoherent sample signed confirmed tt

confirmed_receipt :
    let s = with_defaults (submission_from_broadcast sample signed confirmed) in
    (s.reconcile.receipt_status ≡ some ReceiptStatus.success
      → (tx : String) × (block : Option String) × (a : Option Attempt) × (confirmed
          ≡ Broadcast.confirmed tx block a)
        × (truthy (some tx) ≡ true))
    × (s.reconcile.receipt_status ≡ some ReceiptStatus.failed
        → (f : Failure) × (confirmed ≡ Broadcast.failed f)
          × ((f.error_code == "transaction_reverted") ≡ true)
          × (is_some s.tx_hash ≡ true))
confirmed_receipt = recorded_receipt sample signed confirmed

abbrev stored : Submission
stored = submission_from_broadcast sample signed confirmed

own_submission :
    (get_submission service env stored.submission_id wallet
      (record start { store = put_submission (with_defaults stored) start.store })).0
    ≡ (if env.lower_case stored.submitter == env.lower_case wallet
        then done (some (with_defaults stored))
        else thrown (product 403 "submission_access_forbidden"))
own_submission = get_submission-put_submission service env stored wallet start refl

abbrev bytes : String
bytes = "0x1111111111111111111111111111111111111111111111111111111111111111"

abbrev open_task : Task
open_task = record {
  order_id = bytes;
  stage_id = "stage";
  stage_name = "stage";
  title = "title";
  is_open = true;
  state_machine_address = some "0xc";
  stage_executor_overlay = none;
  executor_overlay = none;
  proof = some (record {
    source_id = some bytes;
    signal_id = some bytes;
    stage_identifier = none;
    target_stage_id = none;
  });
}

abbrev readers : Readers
readers = record {
  task = λ id. some open_task;
  evidence = record {
    get_evidence = λ id. done (some photo);
    get_proof = λ id. done (some "unbound");
    trim = λ s. s;
    before = λ a b. false;
  };
  authorize = λ r. record { authorized = true; source = "allow_list" };
  plan_of = λ o. PlanLookup.resolved (some bytes);
  normalize_bytes32 = λ s. s;
}

abbrev wish : PrepareInput
wish = record { wallet_address = wallet; intent = Intent.confirm_stage; evidence_ids = "e1" ∷ [] }

abbrev prepared_now : Outcome Error Prepared
prepared_now = (prepare_submit service env readers "task" wish start).0

abbrev result_of : Outcome Error Prepared → Prepared
result_of (done d) = d
result_of (thrown e) = sample.dto

-- opens the whole of `prepareSubmit`
all_of_prepare : Unit {0}
unfolding prepare_submit ◌>>=◌ gather normalize_address contract_for truthy chain_signal_for
    first_bytes32 is_bytes32 resolve_evidence unique_non_empty keep resolve_each distinct_from
    resolve_one validate_evidence resolve_plan normalize_plan_id normalize_nonce is_decimal ask
    write call_store any contains active_executor executor_source throw pure every codes lift
    signal_name_for prepared_from payload_for evidence_summary hex_digits put_prepared put get
all_of_prepare = tt

prepared_now-IsPrepared :
    IsPrepared service env readers "task" start
      (result_of prepared_now)
      (prepare_submit service env readers "task" wish start).1.store
unfolding all_of_prepare
prepared_now-IsPrepared =
    prepare_submit-IsPrepared service env readers "task" wish (result_of prepared_now) start refl

-- what the preparation returned, and the store it left
abbrev signable : Prepared
signable = result_of prepared_now

abbrev after : World
after = (prepare_submit service env readers "task" wish start).1

prepared_then_loaded :
    (p : PreparedRecord) × (p.dto ≡ signable)
    × ((load_prepared service env signable.task_id signable.prepare_id after).0 ≡ done p)
    × ((v : World)
        → (verify_wallet service env p signed_input v).0
          ≡ done (record {
            submitter = signable.submitter;
            signature = env.lower_case signed_input.signature;
          }))
unfolding all_of_prepare is_hex
prepared_then_loaded =
    load_prepared-prepare_submit service env readers "task" wish signable start refl refl
      signed_input refl refl refl
