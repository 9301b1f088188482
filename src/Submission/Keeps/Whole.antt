-- ===== src/Submission/Keeps/Whole.antt =====
-- Properties kept by the whole of `submit`, and by any number of calls.
use uvp_chain_services.Submission.Store.{put_submission}
use uvp_chain_services.Prelude.{String, List, [], ◌∷◌}
use uvp_chain_services.Prelude.Exec.{Outcome, done, thrown}
use uvp_chain_services.Submission.Types.{Broadcast, PreparedRecord, Submission}
use uvp_chain_services.Submission.World.{Error, BroadcastRequest, Env, Config, World}
use uvp_chain_services.Submission.Submit.{SubmitInput, Verified, receive_only}
use uvp_chain_services.Submission.Broadcast.{broadcast_prepared, after_send, broadcast_once}
use uvp_chain_services.Submission.Finish.{submit}
use uvp_chain_services.Submission.Keeps.{
  Property, Keeps, keeps_rules, send, Keeps-bind, write, Keeps-send, Keeps-throw, Keeps-ask,
  Keeps-if, Keeps-write,
}
use uvp_chain_services.Submission.Keeps.Pieces.{
  Stable, settle_sent-Keeps, load_prepared-Keeps, give_back-Keeps, verify_wallet-Keeps,
  expire-Keeps, reserve-Keeps, finish-Keeps, Quiet,
}

module _ {P : Property} (q : Quiet P) (cfg : Config) (env : Env) where
  pub after_send-Keeps :
      (p : PreparedRecord) (v : Verified) (r : Outcome Error (Broadcast × Submission))
      → Keeps P (after_send cfg env p v r)
  after_send-Keeps p v (done sent) = settle_sent-Keeps q cfg env p v sent
  after_send-Keeps p v (thrown e) =
      Keeps-bind _ _ (give_back-Keeps q cfg env p v e) (λ _. Keeps-throw e)

module _ {P : Property} (st : Stable P) (cfg : Config) (env : Env) where
  sends : (request : BroadcastRequest) → Keeps P (send env request)
  sends request = Keeps-send env request (st.sending request)

  writes : (x : Submission) → Keeps P (write env (put_submission x))
  writes x = Keeps-write env (put_submission x) (st.quiet.put x)

  pub broadcast_prepared-Keeps :
      (p : PreparedRecord) (v : Verified) → Keeps P (broadcast_prepared cfg env p v)
  unfolding broadcast_prepared
  broadcast_prepared-Keeps p v = search (keeps_rules, sends) depth 14

  pub broadcast_once-Keeps :
      (p : PreparedRecord) (v : Verified) → Keeps P (broadcast_once cfg env p v)
  unfolding broadcast_once
  broadcast_once-Keeps p v = record {
    at = λ w h.
        let (r, w') = broadcast_prepared cfg env p v w in
        (after_send-Keeps st.quiet cfg env p v r).at w' ((broadcast_prepared-Keeps p v).at w h);
  }

  pub receive_only-Keeps : (p : PreparedRecord) (v : Verified) → Keeps P (receive_only cfg env p v)
  unfolding receive_only
  receive_only-Keeps p v = search (keeps_rules, sends, writes) depth 14

  pub submit-Keeps :
      (task_id : String) (input : SubmitInput) → Keeps P (submit cfg env task_id input)
  unfolding submit
  submit-Keeps task_id input =
      Keeps-bind _ _ (load_prepared-Keeps st.quiet cfg env task_id input.prepare_id) λ p.
        Keeps-bind _ _ (verify_wallet-Keeps st.quiet cfg env p input) λ v.
          Keeps-bind _ _ (Keeps-ask env.now) λ at.
            Keeps-if _ _ _ (expire-Keeps st.quiet cfg env p v) (
              Keeps-if _ _ _
                (Keeps-bind _ _
                  (Keeps-bind _ _ (reserve-Keeps st.quiet cfg env p)
                    (λ _. broadcast_once-Keeps p v))
                  (finish-Keeps st.quiet cfg env p))
                (receive_only-Keeps p v))

-- a history: each call is made whatever the ones before it returned or threw
unfoldable pub submit_all : Config → Env → List (String × SubmitInput) → World → World
submit_all cfg env [] w = w
submit_all cfg env ((task_id, input) ∷ rest) w =
    submit_all cfg env rest (submit cfg env task_id input w).1

pub submit_all-Keeps :
    {P : Property} (st : Stable P) (cfg : Config) (env : Env) (calls : List (String × SubmitInput))
    (w : World)
    → P w.store w.broadcasts
    → P (submit_all cfg env calls w).store (submit_all cfg env calls w).broadcasts
unfolding submit_all
submit_all-Keeps st cfg env [] w h = h
submit_all-Keeps st cfg env ((task_id, input) ∷ rest) w h =
    submit_all-Keeps st cfg env rest (submit cfg env task_id input w).1
      ((submit-Keeps st cfg env task_id input).at w h)
