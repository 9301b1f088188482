-- ===== src/Submission/Once/Recorded.antt =====
-- The mark on the prepared submission when `submit` returns with a transaction hash.
use uvp_chain_services.Submission.Keeps.Whole.{broadcast_prepared-Keeps}
use uvp_chain_services.Submission.Store.{mark_prepared_used, Store, put_submission}
use uvp_chain_services.Prelude.{
  String, true, some, ◌≡◌, arith, ◌≢◌, ℕ, truthy, Bool-cases, Option-cases, get, ◌&&◌, inl, inr,
  get-put, eq_refl, sym, ap, ◌∙◌, refl,
}
use uvp_chain_services.Prelude.Exec.{Outcome, done, thrown, ◌>>=◌, attempt, recover_from, pure}
use uvp_chain_services.Submission.Types.{Broadcast, PreparedRecord, Submission}
use uvp_chain_services.Submission.World.{
  Error, World, Env, Config, transaction, commit, write, Action,
}
use uvp_chain_services.Submission.Submit.{Verified}
use uvp_chain_services.Submission.Broadcast.{
  give_back, settle, unsettled, persist_failed, broadcast_once, after_send, broadcast_prepared,
  settle_sent,
}
use uvp_chain_services.Prelude.Runs.{bind-throw, bind-done}
use uvp_chain_services.Submission.Used.{is_used, is_known, known-Stable}

marked :
    (id by : String) (at : ℕ) (s : Store)
    → is_known id s ≡ true
    → is_used id (mark_prepared_used id by at s) ≡ true
unfolding mark_prepared_used
marked id by at s h = elim (Option-cases (get id s.prepared)) [
  | inl e ↦ absurd (cc (e, h))
  | inr (r, e) ↦ rw (e, get-put) (ground (arith, eq_refl id))
]

module _ (cfg : Config) (env : Env) where
  settle-marks :
      (p : PreparedRecord) (b : Broadcast) (x : Submission) (w : World)
      → (settle cfg env p b x w).0 ≡ done tt
      → truthy x.tx_hash ≡ true
      → is_known p.prepare_id w.store ≡ true
      → is_used p.prepare_id (settle cfg env p b x w).1.store ≡ true
  unfolding settle write ◌>>=◌ put_submission
  settle-marks p b x w h t k =
      ground (arith, marked p.prepare_id x.submission_id x.updated_at (put_submission x w.store))

  commit-done :
      (s : Store) (r : Outcome Error (Unit {0})) (w : World)
      → (commit env s r w).0 ≡ done tt
      → (r ≡ done tt) × ((commit env s r w).1.store ≡ w.store)
  commit-done s (done u) w h = ground arith
  commit-done s (thrown e) w h = cc

  transaction-settle :
      (p : PreparedRecord) (b : Broadcast) (x : Submission) (w : World)
      → (transaction cfg env (settle cfg env p b x) w).0 ≡ done tt
      → truthy x.tx_hash ≡ true
      → is_known p.prepare_id w.store ≡ true
      → is_used p.prepare_id (transaction cfg env (settle cfg env p b x) w).1.store ≡ true
  unfolding transaction
  transaction-settle p b x w h t k =
      let m = settle cfg env p b x w in
      ground (arith, commit-done w.store m.0 m.1, settle-marks p b x w)

  give_back-throws :
      (p : PreparedRecord) (v : Verified) (e : Error) (w : World)
      → (give_back cfg env p v e w).0 ≢ done tt
  unfolding give_back
  give_back-throws p v e w h = bind-throw _ e w h

  unsettled-throws :
      (p : PreparedRecord) (v : Verified) (x : Submission) (e : Error) (w : World)
      → (unsettled cfg env p v x e w).0 ≢ done tt
  unfolding unsettled persist_failed
  unsettled-throws p v x e w h =
      elim (Bool-cases (truthy (some x.submission_id) && truthy x.tx_hash)) [
        | inl c ↦ bind-throw _ e w (rw c at h)
        | inr c ↦ give_back-throws p v e w (rw c at h)
      ]

  attempt-throws :
      (r : Outcome Error (Unit {0})) (handler : Error → Action (Unit {0})) (w : World)
      → ((e : Error) → (handler e w).0 ≢ done tt)
      → (recover_from r handler w).0 ≡ done tt
      → (r ≡ done tt) × (recover_from r handler w ≡ (done tt, w))
  attempt-throws (done u) handler w k h = (refl, refl)
  attempt-throws (thrown e) handler w k h = absurd (k e h)

  settle_sent-marks :
      (p : PreparedRecord) (v : Verified) (b : Broadcast) (x s : Submission) (w : World)
      → (settle_sent cfg env p v (b, x) w).0 ≡ done s
      → truthy s.tx_hash ≡ true
      → is_known p.prepare_id w.store ≡ true
      → is_used p.prepare_id (settle_sent cfg env p v (b, x) w).1.store ≡ true
  unfolding attempt
  settle_sent-marks p v b x s w h t k =
      let m = transaction cfg env (settle cfg env p b x) w in
      let tried = attempt (transaction cfg env (settle cfg env p b x)) (unsettled cfg env p v x) in
      let (u, ok, rest) = bind-done tried (λ _. pure x) w h in
      let (first, same) =
        attempt-throws m.0 (unsettled cfg env p v x) m.1 (λ e. unsettled-throws p v x e m.1) ok in
      let returned : ◌≡◌ {A = Outcome Error Submission} (done x) (done s) =
        unfold pure in sym (ap (λ (y : Outcome Error Submission × World). y.0) rest) ∙ h in
      let used = transaction-settle p b x w first (cc (returned, t)) k in
      rw rest (unfold pure in rw same used)

  after_send-marks :
      (p : PreparedRecord) (v : Verified) (r : Outcome Error (Broadcast × Submission))
      (s : Submission) (w : World)
      → (after_send cfg env p v r w).0 ≡ done s
      → truthy s.tx_hash ≡ true
      → is_known p.prepare_id w.store ≡ true
      → is_used p.prepare_id (after_send cfg env p v r w).1.store ≡ true
  after_send-marks p v (done (b, x)) s w h t k = settle_sent-marks p v b x s w h t k
  after_send-marks p v (thrown e) s w h t k = absurd (bind-throw (give_back cfg env p v e) e w h)

  pub broadcast_once-marks :
      (p : PreparedRecord) (v : Verified) (s : Submission) (w : World)
      → (broadcast_once cfg env p v w).0 ≡ done s
      → truthy s.tx_hash ≡ true
      → is_known p.prepare_id w.store ≡ true
      → is_used p.prepare_id (broadcast_once cfg env p v w).1.store ≡ true
  unfolding broadcast_once
  broadcast_once-marks p v s w h t k =
      let (r, w') = broadcast_prepared cfg env p v w in
      after_send-marks p v r s w' h t
        ((broadcast_prepared-Keeps (known-Stable p.prepare_id) cfg env p v).at w k)
