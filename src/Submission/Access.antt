-- ===== src/Submission/Access.antt =====
-- service/src/submissions/service.ts: who may read a stored submission.
use uvp_chain_services.Submission.Record.Coherent.{with_defaults_idem}
use uvp_chain_services.Submission.Record.Defaults.{with_defaults}
use uvp_chain_services.Submission.Store.{put_submission}
use uvp_chain_services.Prelude.{
  String, false, some, ◌≡◌, if◌then◌else◌, ◌==◌, get-put_self, refl, arith,
}
use uvp_chain_services.Prelude.Exec.{done, thrown, pure, throw, ◌>>=◌}
use uvp_chain_services.Submission.Types.{Submission}
use uvp_chain_services.Submission.World.{product, World, Env, Config, read}
use uvp_chain_services.Submission.Finish.{get_submission}

kept_fields :
    (s : Submission)
    → ((with_defaults s).submission_id ≡ s.submission_id)
      × ((with_defaults s).submitter ≡ s.submitter)
unfolding with_defaults
kept_fields s = (refl, refl)

-- Where the store answers, a submission that was stored with its defaults filled in is returned
-- exactly as it was stored to a wallet that is its submitter up to letter case, and every other
-- wallet is refused with status 403.
pub get_submission-put_submission :
    (cfg : Config) (env : Env) (s : Submission) (wallet : String) (w : World)
    → env.store_fails w.tick ≡ false
    → let kept = with_defaults s in
      let w' = record w { store = put_submission kept w.store } in
      (get_submission cfg env s.submission_id wallet w').0 ≡ (
        if env.lower_case s.submitter == env.lower_case wallet
        then done (some kept)
        else thrown (product 403 "submission_access_forbidden"))
unfolding get_submission read put_submission pure throw ◌>>=◌
get_submission-put_submission cfg env s wallet w h =
    let (id, by) = kept_fields s in
    simp (h, id, by, get-put_self, with_defaults_idem) (ground arith)
