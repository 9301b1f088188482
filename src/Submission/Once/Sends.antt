-- ===== src/Submission/Once/Sends.antt =====
-- What a call of `submit` may send to the chain.
use uvp_chain_services.Submission.Once.Whole.{load_prepared-done}
use uvp_chain_services.Prelude.Runs.{bind-cases}
use uvp_chain_services.Submission.Keeps.Pieces.{
  reserve-Keeps, expire-Keeps, finish-Keeps, load_prepared-Keeps, verify_wallet-Keeps,
}
use uvp_chain_services.Submission.Used.{is_used, sent-Quiet}
use uvp_chain_services.Submission.Keeps.Whole.{after_send-Keeps}
use uvp_chain_services.Prelude.{
  ℕ, String, true, false, some, List, ◌≡◌, arith, ◌++◌, get, ◌∷◌, ◌==◌, [], ◌⊎◌, ◌/◌, ◌≤◌,
  Bool-cases, inl, ltb, inr, ap, ltb→le, Option-cases, refl, eq_iff, suc, ◌∙◌,
}
use uvp_chain_services.Prelude.Exec.{◌>>=◌, ◌>>◌, done, Outcome}
use uvp_chain_services.Submission.Types.{PreparedRecord, Submission}
use uvp_chain_services.Submission.World.{
  World, Env, Config, BroadcastRequest, ask, send, write, record_audit, Error, Action,
}
use uvp_chain_services.Submission.Submit.{
  SubmitInput, Verified, reserve, receive_only, request_of, verify_wallet, normalize_address,
  normalize_signature, recover_signature, load_prepared,
}
use uvp_chain_services.Submission.Broadcast.{broadcast_prepared, broadcast_once}
use uvp_chain_services.Submission.Finish.{finish, proceed, submit}

-- `l'` is `l` with the one request `r` behind it
abbrev pub Sends : BroadcastRequest → List BroadcastRequest → List BroadcastRequest → Type 0
Sends r l l' = l' ≡ l ++ r ∷ []

-- what makes a request legitimate: the prepared submission is there under the identifier, belongs to
-- the task, is unused and in time, and the signature of its submitter was recovered
pub record IsEntitled (env : Env) (task_id : String) (input : SubmitInput) (w : World)
    (p : PreparedRecord) (v : Verified) : Type 0 where
  pub found : get input.prepare_id w.store.prepared ≡ some p
  pub of_task : (p.task_id == task_id) ≡ true
  pub unused : is_used input.prepare_id w.store ≡ false
  pub signer : v.submitter ≡ p.submitter
  pub recovered : env.recover p.typed_data v.signature ≡ some p.submitter
  pub call : ℕ
  pub in_time : env.now call / 1000 ≤ p.deadline

module _ (cfg : Config) (env : Env) where
  broadcast_prepared-Sends :
      (p : PreparedRecord) (v : Verified) (w : World)
      → Sends (request_of cfg env p v) w.broadcasts (broadcast_prepared cfg env p v w).1.broadcasts
  unfolding broadcast_prepared ask send ◌>>=◌
  broadcast_prepared-Sends p v w = ground arith

  broadcast_once-Sends :
      (p : PreparedRecord) (v : Verified) (w : World)
      → Sends (request_of cfg env p v) w.broadcasts (broadcast_once cfg env p v w).1.broadcasts
  unfolding broadcast_once
  broadcast_once-Sends p v w =
      let (r, w') = broadcast_prepared cfg env p v w in
      (after_send-Keeps (sent-Quiet (w.broadcasts ++ request_of cfg env p v ∷ [])) cfg env p v r).at
        w' (broadcast_prepared-Sends p v w)

  receive_only-Sends :
      (p : PreparedRecord) (v : Verified) (w : World)
      → Sends (request_of cfg env p v) w.broadcasts (receive_only cfg env p v w).1.broadcasts
  unfolding receive_only ask send write record_audit ◌>>=◌
  receive_only-Sends p v w = ground arith

  reserved-Sends :
      (p : PreparedRecord) (v : Verified) (w : World)
      → let l = w.broadcasts in
        let l' =
          (((reserve cfg env p >> broadcast_once cfg env p v) >>= finish cfg env p)
            w).1.broadcasts in
        (l' ≡ l) ⊎ Sends (request_of cfg env p v) l l'
  reserved-Sends p v w =
      let l = w.broadcasts in
      let first = reserve cfg env p >> broadcast_once cfg env p v in
      let quiet = (reserve-Keeps (sent-Quiet l) cfg env p).at w refl in
      elim (bind-cases first (finish cfg env p) w) [
        | inl (e, h, q) ↦
            elim (bind-cases (reserve cfg env p) (λ _. broadcast_once cfg env p v) w) [
              | inl (e', h', q') ↦ inl (rw (q, q') quiet)
              | inr (u, h', q') ↦
                  inr (rw (q, q') (rw quiet at (broadcast_once-Sends p v (reserve cfg env p w).1)))
            ]
        | inr (x, h, q) ↦
            elim (bind-cases (reserve cfg env p) (λ _. broadcast_once cfg env p v) w) [
              | inl (e', h', q') ↦
                  absurd (cc (h, ap (λ (y : Outcome Error Submission × World). y.0) q'))
              | inr (u, h', q') ↦ inr (
                  rw q (
                    (finish-Keeps (sent-Quiet (l ++ request_of cfg env p v ∷ [])) cfg env p x).at
                      (first w).1
                      (rw q' (rw quiet at (broadcast_once-Sends p v (reserve cfg env p w).1)))))
            ]
      ]

  proceed-Sends :
      (p : PreparedRecord) (v : Verified) (at : ℕ) (w : World)
      → ((proceed cfg env p v at w).1.broadcasts ≡ w.broadcasts)
        ⊎ ((at / 1000 ≤ p.deadline)
            × Sends (request_of cfg env p v) w.broadcasts (proceed cfg env p v at w).1.broadcasts)
  proceed-Sends p v at w = elim (Bool-cases (ltb p.deadline (at / 1000))) [
    | inl late ↦ inl (simp late ((expire-Keeps (sent-Quiet w.broadcasts) cfg env p v).at w refl))
    | inr in_time ↦ elim (Bool-cases cfg.attempts_broadcast) [
      | inl active ↦ elim (reserved-Sends p v w) [
        | inl same ↦ inl (simp (in_time, active) same)
        | inr one ↦ inr (ltb→le _ _ in_time, simp (in_time, active) one)
      ]
      | inr passive ↦ inr (ltb→le _ _ in_time, simp (in_time, passive) (receive_only-Sends p v w))
    ]
  ]

  verify_wallet-done :
      (p : PreparedRecord) (input : SubmitInput) (v : Verified) (w : World)
      → (verify_wallet cfg env p input w).0 ≡ done v
      → (v.submitter ≡ p.submitter) × (env.recover p.typed_data v.signature ≡ some p.submitter)
  unfolding verify_wallet normalize_address normalize_signature recover_signature ◌>>=◌
  verify_wallet-done p input v w h =
      elim (Option-cases (env.recover p.typed_data (env.lower_case input.signature))) [
        | inl e ↦ ground (arith, e)
        | inr (r, e) ↦ ground (arith, e, eq_iff r p.submitter)
      ]

  abbrev after_verify : PreparedRecord → Verified → Action Submission
  after_verify p v = ask env.now >>= proceed cfg env p v

  abbrev after_load : SubmitInput → PreparedRecord → Action Submission
  after_load input p = verify_wallet cfg env p input >>= after_verify p

  verified-Sends :
      (task_id : String) (input : SubmitInput) (p : PreparedRecord) (v : Verified) (w w₂ : World)
      → get input.prepare_id w.store.prepared ≡ some p
      → (p.task_id == task_id) ≡ true
      → is_used input.prepare_id w.store ≡ false
      → v.submitter ≡ p.submitter
      → env.recover p.typed_data v.signature ≡ some p.submitter
      → w₂.broadcasts ≡ w.broadcasts
      → let l' = (after_verify p v w₂).1.broadcasts in
        (l' ≡ w.broadcasts)
        ⊎ (IsEntitled env task_id input w p v × Sends (request_of cfg env p v) w.broadcasts l')
  unfolding ask ◌>>=◌
  verified-Sends task_id input p v w w₂ found task unused signer recovered quiet =
      elim (proceed-Sends p v (env.now w₂.tick) (record w₂ { tick = suc w₂.tick })) [
        | inl same ↦ inl (same ∙ quiet)
        | inr (in_time, one) ↦ inr (
          record {
            found = found;
            of_task = task;
            unused = unused;
            signer = signer;
            recovered = recovered;
            call = w₂.tick;
            in_time = in_time;
          },
          one ∙ ap (λ (l : List BroadcastRequest). l ++ request_of cfg env p v ∷ []) quiet,
        )
      ]

  -- One call of `submit` sends nothing to the broadcast adapter, or exactly one request. It sends
  -- one only for a prepared submission that is stored under the given identifier, belongs to the
  -- task, has not been used, is within its deadline by a clock reading of the call, and whose
  -- submitter is the address recovered from the signature that is sent.
  pub submit-Sends :
      (task_id : String) (input : SubmitInput) (w : World)
      → let l' = (submit cfg env task_id input w).1.broadcasts in
        (l' ≡ w.broadcasts)
        ⊎ ((p : PreparedRecord) × (v : Verified) × IsEntitled env task_id input w p v
            × Sends (request_of cfg env p v) w.broadcasts l')
  unfolding submit
  submit-Sends task_id input w =
      let load = load_prepared cfg env task_id input.prepare_id in
      let l = w.broadcasts in
      let quiet₁ =
        (load_prepared-Keeps (sent-Quiet l) cfg env task_id input.prepare_id).at w refl in
      elim (bind-cases load (after_load input) w) [
        | inl (e, h, q) ↦ inl (rw q quiet₁)
        | inr (p, h, q) ↦
            let (found, task, unused) = load_prepared-done cfg env task_id input.prepare_id p w h in
            let w₁ = (load w).1 in
            let quiet₂ = (verify_wallet-Keeps (sent-Quiet l) cfg env p input).at w₁ quiet₁ in
            elim (bind-cases (verify_wallet cfg env p input) (after_verify p) w₁) [
              | inl (e, h', q') ↦ inl (rw (q, q') quiet₂)
              | inr (v, h', q') ↦
                  let (signer, recovered) = verify_wallet-done p input v w₁ h' in
                  elim (verified-Sends task_id input p v w (verify_wallet cfg env p input w₁).1
                    found task unused signer recovered quiet₂) [
                      | inl same ↦ inl (rw (q, q') same)
                      | inr (entitled, one) ↦ inr (p, v, entitled, rw (q, q') one)
                    ]
            ]
      ]
