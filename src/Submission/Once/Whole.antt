-- ===== src/Submission/Once/Whole.antt =====
-- The whole of `submit`: what its success says, and what happens to a later call.
use uvp_chain_services.Submission.Keeps.{Keeps-ask}
use uvp_chain_services.Submission.Once.Recorded.{broadcast_once-marks}
use uvp_chain_services.Submission.Keeps.Pieces.{reserve-Keeps, verify_wallet-Keeps, finish-Keeps}
use uvp_chain_services.Submission.Record.Build.{expired_submission}
use uvp_chain_services.Submission.Record.Defaults.{with_defaults}
use uvp_chain_services.Prelude.{
  String, true, false, Option, none, some, ◌≡◌, arith, ap, get, ◌==◌, suc, sym, Option-cases, inl,
  inr, truthy, ℕ, Bool-cases, ltb, ◌/◌, subst,
}
use uvp_chain_services.Prelude.Exec.{done, ◌>>=◌, throw, pure, ◌>>◌}
use uvp_chain_services.Submission.Types.{PreparedRecord, Submission}
use uvp_chain_services.Submission.World.{World, Env, Config, read, ask}
use uvp_chain_services.Submission.Submit.{
  Verified, load_prepared, expire, usable, reserve, SubmitInput, verify_wallet,
}
use uvp_chain_services.Submission.Broadcast.{broadcast_once}
use uvp_chain_services.Submission.Finish.{finish, submit, proceed}
use uvp_chain_services.Prelude.Runs.{bind-done, returned}
use uvp_chain_services.Submission.Used.{
  is_used, is_used_entry, IsKeyed, is_known, known-Stable, used-Stable, Known,
}

module _ (cfg : Config) (env : Env) where
  usable-done :
      (task_id : String) (o : Option PreparedRecord) (p : PreparedRecord) (w : World)
      → (usable cfg env task_id o w).0 ≡ done p
      → (o ≡ some p) × ((p.task_id == task_id) ≡ true) × (is_used_entry o ≡ false)
  unfolding throw pure
  usable-done task_id none p w h = cc
  usable-done task_id (some r) p w h = ground arith

  pub load_prepared-done :
      (task_id id : String) (p : PreparedRecord) (w : World)
      → (load_prepared cfg env task_id id w).0 ≡ done p
      → (get id w.store.prepared ≡ some p)
        × ((p.task_id == task_id) ≡ true)
        × (is_used id w.store ≡ false)
  unfolding load_prepared read ◌>>=◌
  load_prepared-done task_id id p w h =
      ground
        (arith, usable-done task_id (get id w.store.prepared) p (record w { tick = suc w.tick }))

  expire-done :
      (p : PreparedRecord) (v : Verified) (s : Submission) (w : World)
      → (expire cfg env p v w).0 ≡ done s
      → s.tx_hash ≡ none
  unfolding expire with_defaults expired_submission
  expire-done p v s w h =
      let (id, h₁, e₁) = bind-done (ask env.new_submission_id) _ w h in
      let (at, h₂, e₂) = bind-done (ask env.now) _ _ (rw e₁ at h) in
      ap (λ (x : Submission). x.tx_hash) (sym (returned _ _ s _ (rw e₂ at (rw e₁ at h))))

  finish-done :
      (p : PreparedRecord) (x s : Submission) (w : World)
      → (finish cfg env p x w).0 ≡ done s
      → x ≡ s
  unfolding finish
  finish-done p x s w h = let (u, h₁, e₁) = bind-done _ _ w h in returned _ x s _ (rw e₁ at h)

  on_time-marks :
      (p : PreparedRecord) (v : Verified) (s : Submission) (w : World)
      → (((reserve cfg env p >> broadcast_once cfg env p v) >>= finish cfg env p) w).0 ≡ done s
      → truthy s.tx_hash ≡ true
      → is_known p.prepare_id w.store ≡ true
      → is_used p.prepare_id
          (((reserve cfg env p >> broadcast_once cfg env p v) >>= finish cfg env p) w).1.store
        ≡ true
  on_time-marks p v s w h t k =
      let (x, h₁, e₁) =
        bind-done (reserve cfg env p >> broadcast_once cfg env p v) (finish cfg env p) w h in
      let (u, h₂, e₂) = bind-done (reserve cfg env p) (λ _. broadcast_once cfg env p v) w h₁ in
      let w' = (reserve cfg env p w).1 in
      let same = finish-done p x s _ (rw e₁ at h) in
      let known = (reserve-Keeps (known-Stable p.prepare_id).quiet cfg env p).at w k in
      let used = broadcast_once-marks cfg env p v x w' (rw e₂ at h₁) (cc (same, t)) known in
      rw e₁ ((finish-Keeps (used-Stable p.prepare_id).quiet cfg env p x).at _ (rw e₂ used))

  -- the store is left by the loading of a prepared submission as it was
  load_prepared-store :
      (task_id id : String) (w : World) → (load_prepared cfg env task_id id w).1.store ≡ w.store
  unfolding load_prepared read ◌>>=◌ throw pure
  load_prepared-store task_id id w = elim (Option-cases (get id w.store.prepared)) [
    | inl e ↦ ground arith
    | inr (p, e) ↦ ground arith
  ]

  proceed-marks :
      (p : PreparedRecord) (v : Verified) (at : ℕ) (s : Submission) (w : World)
      → cfg.attempts_broadcast ≡ true
      → (proceed cfg env p v at w).0 ≡ done s
      → truthy s.tx_hash ≡ true
      → is_known p.prepare_id w.store ≡ true
      → is_used p.prepare_id (proceed cfg env p v at w).1.store ≡ true
  unfolding truthy
  proceed-marks p v at s w ab h t k = elim (Bool-cases (ltb p.deadline (at / 1000))) [
    | inl late ↦ absurd (cc (expire-done p v s w (rw late at h), t))
    | inr on_time ↦ simp (on_time, ab) (on_time-marks p v s w (simp (on_time, ab) at h) t k)
  ]

  pub submit-marks :
      (task_id : String) (input : SubmitInput) (s : Submission) (w : World)
      → cfg.attempts_broadcast ≡ true
      → IsKeyed w.store
      → (submit cfg env task_id input w).0 ≡ done s
      → truthy s.tx_hash ≡ true
      → is_used input.prepare_id (submit cfg env task_id input w).1.store ≡ true
  unfolding submit
  submit-marks task_id input s w ab keyed h t =
      let (p, h₁, e₁) = bind-done (load_prepared cfg env task_id input.prepare_id) _ w h in
      let (found, _, _) = load_prepared-done task_id input.prepare_id p w h₁ in
      let w₁ = (load_prepared cfg env task_id input.prepare_id w).1 in
      let same : p.prepare_id ≡ input.prepare_id = keyed input.prepare_id p found in
      let known₁ : is_known p.prepare_id w₁.store ≡ true =
        rw (load_prepared-store task_id input.prepare_id w, same, found) in
      let (v, h₂, e₂) = bind-done (verify_wallet cfg env p input) _ w₁ (rw e₁ at h) in
      let w₂ = (verify_wallet cfg env p input w₁).1 in
      let known₂ =
        (verify_wallet-Keeps (known-Stable p.prepare_id).quiet cfg env p input).at w₁ known₁ in
      let (at, h₃, e₃) = bind-done (ask env.now) _ w₂ (rw e₂ at (rw e₁ at h)) in
      let w₃ = (ask env.now w₂).1 in
      let known₃ = (Keeps-ask {P = Known p.prepare_id} env.now).at w₂ known₂ in
      let used = proceed-marks p v at s w₃ ab (rw e₃ at (rw e₂ at (rw e₁ at h))) t known₃ in
      let last : is_used p.prepare_id (submit cfg env task_id input w).1.store ≡ true =
        rw (e₁, e₂, e₃) used in
      subst (λ k. is_used k (submit cfg env task_id input w).1.store ≡ true) same last
