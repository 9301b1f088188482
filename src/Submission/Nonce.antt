-- ===== src/Submission/Nonce.antt =====
-- What becomes of the reservation of a nonce when a broadcast throws, and once a transaction hash is
-- known.
use uvp_chain_services.Prelude.Runs.{bind-throw-cases}
use uvp_chain_services.Submission.Record.Build.{submission_from_broadcast}
use uvp_chain_services.Submission.Record.Defaults.{with_defaults}
use uvp_chain_services.Prelude.{
  ℕ, String, Bool, true, false, some, ◌≡◌, refl, arith, Dict, ◌&&◌, truthy, suc, ◌∙◌, ap, ◌⊎◌,
  get-delete_self, get, get-put_self, none, present, inl, inr, subst, sym,
}
use uvp_chain_services.Prelude.Exec.{done, thrown, ◌>>=◌}
use uvp_chain_services.Submission.Types.{Broadcast, PreparedRecord, Submission, Status}
use uvp_chain_services.Submission.Store.{Store, mark_prepared_used, put_submission, release_nonce}
use uvp_chain_services.Submission.World.{
  Error, World, Env, Config, Action, ask, write, transaction, send, external,
}
use uvp_chain_services.Submission.Submit.{Verified, signed_by, request_of, nonce_key}
use uvp_chain_services.Submission.Broadcast.{
  broadcast_once, broadcast_prepared, settle, persist_failed, unsettled, tx_or_empty, settle_sent,
  plain_failure, give_back,
}
use uvp_chain_services.Submission.Keeps.{
  Property, Keeps, keeps_rules, Keeps-write, Keeps-transaction, Keeps-bind, Keeps-attempt,
  Keeps-pure,
}

abbrev NoncesAre : Dict ℕ → Property
NoncesAre n s l = s.nonces ≡ n

and_false : (b : Bool) → (b && false) ≡ false
and_false true = refl
and_false false = refl

nonces_mark :
    (id by : String) (at : ℕ) (s : Store) → (mark_prepared_used id by at s).nonces ≡ s.nonces
unfolding mark_prepared_used
nonces_mark id by at s = ground arith

module _ (n : Dict ℕ) (cfg : Config) (env : Env) where
  puts : (x : Submission) → Keeps (NoncesAre n) (write env (put_submission x))
  unfolding put_submission
  puts x = Keeps-write env (put_submission x) (λ s l h. h)

  marks : (id by : String) (at : ℕ) → Keeps (NoncesAre n) (write env (mark_prepared_used id by at))
  marks id by at =
      Keeps-write env (mark_prepared_used id by at) (λ s l h. nonces_mark id by at s ∙ h)

  within :
      (m : Action (Unit {0})) → Keeps (NoncesAre n) m → Keeps (NoncesAre n) (transaction cfg env m)
  within m km = Keeps-transaction cfg env m (λ s s' l l' h h'. h) km

  settles :
      (p : PreparedRecord) (b : Broadcast) (x : Submission)
      → truthy x.tx_hash ≡ true
      → Keeps (NoncesAre n) (settle cfg env p b x)
  unfolding settle
  settles p b x t = simp (t, and_false) (search (keeps_rules, puts, marks))

  persists :
      (p : PreparedRecord) (v : Verified) (id tx : String) (e : Error)
      → Keeps (NoncesAre n) (persist_failed cfg env p v id tx e)
  unfolding persist_failed
  persists p v id tx e = search (keeps_rules, puts) depth 14

  unsettles :
      (p : PreparedRecord) (v : Verified) (x : Submission) (e : Error)
      → truthy (some x.submission_id) ≡ true
      → truthy x.tx_hash ≡ true
      → Keeps (NoncesAre n) (unsettled cfg env p v x e)
  unfolding unsettled
  unsettles p v x e i t = simp (i, t) (persists p v x.submission_id (tx_or_empty cfg env x) e)

  settles_sent :
      (p : PreparedRecord) (v : Verified) (b : Broadcast) (x : Submission)
      → truthy (some x.submission_id) ≡ true
      → truthy x.tx_hash ≡ true
      → Keeps (NoncesAre n) (settle_sent cfg env p v (b, x))
  settles_sent p v b x i t =
      Keeps-bind _ _ (Keeps-attempt _ _ (within _ (settles p b x t)) (λ e. unsettles p v x e i t))
        (λ _. Keeps-pure x)

module _ (cfg : Config) (env : Env) where
  -- the submission that a result becomes, when the adapter is called at the second tick from `t`
  abbrev pub recorded : PreparedRecord → Verified → ℕ → Broadcast → Submission
  recorded p v t b = with_defaults (
      submission_from_broadcast p (signed_by cfg env v (env.new_submission_id t) (env.now (suc t)))
        b)

  broadcast_prepared-done :
      (p : PreparedRecord) (v : Verified) (w : World) (b : Broadcast)
      → env.broadcast (suc (suc w.tick)) (request_of cfg env p v) ≡ done b
      → let (r, w') = broadcast_prepared cfg env p v w in
        (r ≡ done (b, recorded p v w.tick b)) × (w'.store ≡ w.store)
  unfolding broadcast_prepared ask send ◌>>=◌
  broadcast_prepared-done p v w b h = rw h (refl, refl)

  broadcast_prepared-thrown :
      (p : PreparedRecord) (v : Verified) (w : World) (text : String)
      → env.broadcast (suc (suc w.tick)) (request_of cfg env p v) ≡ thrown text
      → let (r, w') = broadcast_prepared cfg env p v w in
        (r ≡ thrown (external text)) × (w'.store ≡ w.store)
  unfolding broadcast_prepared ask send ◌>>=◌
  broadcast_prepared-thrown p v w text h = rw h (refl, refl)

  -- When the adapter returns a result whose record carries a transaction hash and an identifier that
  -- is not empty, no outcome of the call, return or throw, and no failure of the store changes a
  -- reservation.
  pub sent-keeps_nonces :
      (p : PreparedRecord) (v : Verified) (w : World) (b : Broadcast)
      → env.broadcast (suc (suc w.tick)) (request_of cfg env p v) ≡ done b
      → truthy (recorded p v w.tick b).tx_hash ≡ true
      → truthy (some (recorded p v w.tick b).submission_id) ≡ true
      → (broadcast_once cfg env p v w).1.store.nonces ≡ w.store.nonces
  unfolding broadcast_once
  sent-keeps_nonces p v w b h t i =
      let (first, same) = broadcast_prepared-done p v w b h in
      let (r, w') = broadcast_prepared cfg env p v w in
      rw first (
        (settles_sent w.store.nonces cfg env p v b (recorded p v w.tick b) i t).at w'
          (ap (λ (s : Store). s.nonces) same))

  -- the failed record of a broadcast that threw
  abbrev pub lost : PreparedRecord → Verified → Error → World → Submission
  lost p v e w = with_defaults (
      submission_from_broadcast p
        (signed_by cfg env v (env.new_submission_id w.tick) (env.now (suc w.tick)))
        (Broadcast.failed (
          plain_failure cfg env (env.classify e).error_code (env.classify e).message
            (env.classify e).retryable)))

  give_back-store :
      (p : PreparedRecord) (v : Verified) (e : Error) (w : World)
      → cfg.has_transaction ≡ true
      → cfg.has_release ≡ true
      → let s' = (give_back cfg env p v e w).1.store in
        (s' ≡ w.store)
        ⊎ (s' ≡ release_nonce (nonce_key cfg env p) (put_submission (lost p v e w) w.store))
  unfolding give_back transaction ask write ◌>>=◌
  give_back-store p v e w t r = simp (t, r) (ground arith)

  -- what the store shows once a broadcast that threw was written off
  abbrev pub WrittenOff : PreparedRecord → Submission → Store → Store → Type 0
  WrittenOff p x s s' =
      (get (nonce_key cfg env p) s'.nonces ≡ none)
      × (s'.prepared ≡ s.prepared)
      × (get x.submission_id s'.submissions ≡ some x)

  written_off :
      (p : PreparedRecord) (x : Submission) (s : Store)
      → WrittenOff p x s (release_nonce (nonce_key cfg env p) (put_submission x s))
  unfolding release_nonce put_submission
  written_off p x s = (
    get-delete_self (nonce_key cfg env p) s.nonces,
    refl,
    get-put_self x.submission_id x s.submissions,
  )

  lost_fields :
      (p : PreparedRecord) (v : Verified) (e : Error) (w : World)
      → ((lost p v e w).status ≡ Status.failed) × ((lost p v e w).tx_hash ≡ none)
  unfolding with_defaults submission_from_broadcast present
  lost_fields p v e w = (refl, refl)

  given_back :
      (p : PreparedRecord) (v : Verified) (e : Error) (w : World)
      → cfg.has_transaction ≡ true
      → cfg.has_release ≡ true
      → let s' = (give_back cfg env p v e w).1.store in
        (s' ≡ w.store)
        ⊎ ((x : Submission) × (x.status ≡ Status.failed)
            × (x.tx_hash ≡ none)
            × WrittenOff p x w.store s')
  given_back p v e w t r = elim (give_back-store p v e w t r) [
    | inl same ↦ inl same
    | inr off ↦
        let x = lost p v e w in
        let (failed, no_tx) = lost_fields p v e w in
        inr (x, failed, no_tx, subst (WrittenOff p x w.store) (sym off) (written_off p x w.store))
  ]

  -- With a store that has transactions and releases: when the adapter throws, the call throws, and
  -- the store is either exactly as before the broadcast, or the nonce is free, every prepared
  -- submission is untouched and the failed attempt is on record. There is no state in between,
  -- whichever of the store's calls fail.
  pub thrown-WrittenOff :
      (p : PreparedRecord) (v : Verified) (w : World) (text : String)
      → cfg.has_transaction ≡ true
      → cfg.has_release ≡ true
      → env.broadcast (suc (suc w.tick)) (request_of cfg env p v) ≡ thrown text
      → let (r, w') = broadcast_once cfg env p v w in
        ((e : Error) × (r ≡ thrown e))
        × ((w'.store ≡ w.store)
            ⊎ ((x : Submission) × (x.status ≡ Status.failed)
                × (x.tx_hash ≡ none)
                × WrittenOff p x w.store w'.store))
  unfolding broadcast_once
  thrown-WrittenOff p v w text t r h =
      let (first, same) = broadcast_prepared-thrown p v w text h in
      let w' = (broadcast_prepared cfg env p v w).1 in
      let e = external text in
      let (e', ended) = bind-throw-cases {B = Submission} (give_back cfg env p v e) e w' in
      rw (first, ended) ((e', refl), rw same at (given_back p v e w' t r))
