-- ===== src/Submission/Prepare/Roundtrip.antt =====
-- From a preparation to the submission of what was signed.
use uvp_chain_services.Submission.Store.{Store}
use uvp_chain_services.Prelude.{
  String, true, false, none, some, ◌≡◌, is_hex, eq_refl, get, truthy, ap, subst, sym, refl,
}
use uvp_chain_services.Prelude.Exec.{done, ◌>>=◌, pure, throw}
use uvp_chain_services.Submission.Types.{Prepared, PreparedRecord}
use uvp_chain_services.Submission.World.{World, Env, Config, read}
use uvp_chain_services.Submission.Submit.{
  SubmitInput, load_prepared, verify_wallet, normalize_address, normalize_signature,
  recover_signature,
}
use uvp_chain_services.Submission.Prepare.{normalize_address, prepare_submit, prepared_from}
use uvp_chain_services.Submission.Task.{Readers, PrepareInput}
use uvp_chain_services.Submission.Prepare.Stored.{prepare_submit-IsPrepared, put_prepared-get}

module _ (cfg : Config) (env : Env) where
  load_unused :
      (task_id id : String) (p : PreparedRecord) (w : World)
      → env.store_fails w.tick ≡ false
      → get id w.store.prepared ≡ some p
      → p.task_id ≡ task_id
      → p.used_at ≡ none
      → p.used_by ≡ none
      → (load_prepared cfg env task_id id w).0 ≡ done p
  unfolding load_prepared read pure throw truthy ◌>>=◌
  load_unused task_id id p w answers found task at by = simp (answers, found, task, eq_refl, at, by)

  -- the wallet that signed is accepted
  pub verify_signed :
      (p : PreparedRecord) (input : SubmitInput) (w : World)
      → env.normalize_address input.wallet_address ≡ some p.submitter
      → is_hex input.signature ≡ true
      → env.recover p.typed_data (env.lower_case input.signature) ≡ some p.submitter
      → (verify_wallet cfg env p input w).0
        ≡ done (record { submitter = p.submitter; signature = env.lower_case input.signature })
  unfolding verify_wallet normalize_address normalize_signature recover_signature pure throw ◌>>=◌
  verify_signed p input w address hex recovered = simp (address, hex, recovered, eq_refl)

  -- Round trip: after `prepareSubmit` returned `d`, the record that `submit` loads for its task and
  -- identifier, where the store answers, is unused and holds exactly `d`; and when the wallet is
  -- the prepared submitter and its signature of the prepared typed data recovers to that address,
  -- `submit` accepts the signature.
  pub load_prepared-prepare_submit :
      (r : Readers) (task_id : String) (prepare : PrepareInput) (d : Prepared) (w : World)
      → (prepare_submit cfg env r task_id prepare w).0 ≡ done d
      → let w' = (prepare_submit cfg env r task_id prepare w).1 in
        env.store_fails w'.tick ≡ false
        → (input : SubmitInput) → env.normalize_address input.wallet_address ≡ some d.submitter
        → is_hex input.signature ≡ true
        → env.recover d.typed_data (env.lower_case input.signature) ≡ some d.submitter
        → (p : PreparedRecord) × (p.dto ≡ d)
          × ((load_prepared cfg env d.task_id d.prepare_id w').0 ≡ done p)
          × ((v : World)
              → (verify_wallet cfg env p input v).0
                ≡ done (record {
                  submitter = d.submitter;
                  signature = env.lower_case input.signature;
                }))
  load_prepared-prepare_submit r task_id prepare d w h answers input address hex recovered =
      let s = prepare_submit-IsPrepared cfg env r task_id prepare d w h in
      let w' = (prepare_submit cfg env r task_id prepare w).1 in
      let p = prepared_from cfg env r s.facts s.created s.nonce s.prepare_id in
      let same = s.returned in
      let kept = put_prepared-get cfg env r p w.store in
      let by_id = ap (λ (x : Prepared). x.prepare_id) same in
      let found : get d.prepare_id w'.store.prepared ≡ some p =
        subst (λ k. get k w'.store.prepared ≡ some p) by_id
          (subst (λ (t : Store). get p.prepare_id t.prepared ≡ some p) (sym s.stored) kept) in
      let by_task = ap (λ (x : Prepared). x.task_id) same in
      (
        p,
        same,
        load_unused d.task_id d.prepare_id p w' answers found by_task (unfold prepared_from in refl)
            (unfold prepared_from in refl),
        λ v.
            subst
              (λ (x : Prepared).
                env.normalize_address input.wallet_address ≡ some x.submitter
                → env.recover x.typed_data (env.lower_case input.signature) ≡ some x.submitter
                → (verify_wallet cfg env p input v).0
                  ≡ done (record {
                    submitter = x.submitter;
                    signature = env.lower_case input.signature;
                  }))
              same (λ a b. verify_signed p input v a hex b) address recovered,
      )
