-- ===== src/Submission/Tests/Calls.antt =====
-- The theorems about calls of `submit`, applied to the small service.
use uvp_chain_services.Submission.Record.Defaults.{with_defaults}
use uvp_chain_services.Submission.Record.Build.{submission_from_broadcast, expired_submission}
use uvp_chain_services.Submission.Store.{
  put_submission, mark_prepared_used, reserve_nonce, release_nonce,
}
use uvp_chain_services.Submission.Once.History.{recorded-Refused}
use uvp_chain_services.Submission.Finish.{
  submit, bind, bind_each, bind_submitted_evidence, bind_or_report, is_evidence_binding, finish,
}
use uvp_chain_services.Submission.Nonce.{recorded, sent-keeps_nonces, WrittenOff, thrown-WrittenOff}
use uvp_chain_services.Submission.Keeps.Whole.{submit_all}
use uvp_chain_services.Submission.Submit.{
  load_prepared, verify_wallet, normalize_address, normalize_signature, recover_signature, expire,
  receive_only, reserve, nonce_key,
}
use uvp_chain_services.Submission.Broadcast.{
  broadcast_once, settle, persist_failed, give_back, unsettled, broadcast_prepared,
}
use uvp_chain_services.Prelude.{
  true, none, [], ◌≡◌, refl, arith, truthy, get, ◌⊎◌, eq_iff, put, delete, is_hex, join,
}
use uvp_chain_services.Prelude.Exec.{done, thrown, ◌>>=◌}
use uvp_chain_services.Submission.Types.{Broadcast, Status, Submission}
use uvp_chain_services.Submission.World.{
  Error, Env, ask, call_store, write, read, record_audit, transaction, send,
}
use uvp_chain_services.Submission.Used.{IsKeyed}
use uvp_chain_services.Submission.Once.{Refused}
use uvp_chain_services.Submission.Tests.{
  service, sample_env, accepts, times_out, never, start, signed_input, verified, sample,
}

-- opens the whole of `submit`
opened : Unit {0}
unfolding submit load_prepared verify_wallet normalize_address normalize_signature recover_signature
    expire receive_only reserve nonce_key settle persist_failed give_back unsettled
    broadcast_prepared broadcast_once bind bind_each bind_submitted_evidence bind_or_report
    is_evidence_binding finish ask call_store write read record_audit transaction send ◌>>=◌ get put
    delete put_submission mark_prepared_used reserve_nonce release_nonce is_hex truthy join
    submission_from_broadcast with_defaults expired_submission
opened = tt

abbrev chain_up : Env
chain_up = sample_env accepts 800000 never

abbrev chain_down : Env
chain_down = sample_env times_out 800000 never

abbrev first : Submission
first = recorded service chain_up sample verified 5 (Broadcast.submitted "0xaa" none none)

first_returned : (submit service chain_up "task" signed_input start).0 ≡ done first
unfolding opened
first_returned = refl

first_has_tx : truthy first.tx_hash ≡ true
unfolding opened
first_has_tx = refl

start-IsKeyed : IsKeyed start.store
unfolding get
start-IsKeyed k p h = ground (arith, h, eq_iff "prep" k)

again-Refused :
    let w' = (submit service chain_up "task" signed_input start).1 in
    Refused (submit service chain_up "task" signed_input w') w'
unfolding submit_all
again-Refused =
    recorded-Refused service chain_up "task" signed_input first start refl start-IsKeyed
      first_returned first_has_tx [] "task" signed_input refl

timeout-WrittenOff :
    let (r, w') = broadcast_once service chain_down sample verified start in
    ((e : Error) × (r ≡ thrown e))
    × ((w'.store ≡ start.store)
        ⊎ ((x : Submission) × (x.status ≡ Status.failed)
            × (x.tx_hash ≡ none)
            × WrittenOff service chain_down sample x start.store w'.store))
timeout-WrittenOff =
    thrown-WrittenOff service chain_down sample verified start "timeout" refl refl refl

sent_keeps_nonces_example :
    (broadcast_once service chain_up sample verified start).1.store.nonces ≡ start.store.nonces
unfolding opened
sent_keeps_nonces_example =
    sent-keeps_nonces service chain_up sample verified start (Broadcast.submitted "0xaa" none none)
      refl refl refl
