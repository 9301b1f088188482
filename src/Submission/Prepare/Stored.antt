-- ===== src/Submission/Prepare/Stored.antt =====
-- A preparation that succeeds: what was checked, and what the store holds for the wallet to sign.
use uvp_chain_services.Submission.Prepare.Checks.{gather-Keeps}
use uvp_chain_services.Submission.Keeps.{Property, Keeps, keeps_rules, Keeps-ask}
use uvp_chain_services.Submission.Types.{PreparedRecord, Prepared}
use uvp_chain_services.Submission.Store.{put_prepared, Store}
use uvp_chain_services.Submission.Evidence.{unless, found_or}
use uvp_chain_services.Prelude.{
  String, Bool, true, false, Option, none, some, ◌≡◌, refl, All, not, subst, arith, get,
  get-put_self, ap, ℕ, sym, ◌∙◌,
}
use uvp_chain_services.Prelude.Exec.{done, throw, pure, thrown, Outcome}
use uvp_chain_services.Submission.World.{Error, World, Env, Config, write, Action, ask}
use uvp_chain_services.Submission.Prepare.{
  gather, authorization_request, unless, found_or, write, put_prepared, PreparedRecord, Prepared,
  Action, prepare_submit, normalize_nonce, ask, prepared_from,
}
use uvp_chain_services.Submission.Task.{Readers, PrepareInput, Facts}
use uvp_chain_services.Submission.Prepare.Fit.{
  IsFit, IsResolved, resolve_evidence-done, resolve_plan-done,
}
use uvp_chain_services.Prelude.Runs.{pure_value, bind-elim}

unless-done : (b : Bool) (e : Error) (w : World) → (unless b e w).0 ≡ done tt → b ≡ false
unfolding throw
unless-done true e w h = cc
unless-done false e w h = refl

found_or-done :
    {A : Type 0} (o : Option A) (e : Error) (a : A) (w : World)
    → (found_or o e w).0 ≡ done a
    → o ≡ some a
unfolding throw pure
found_or-done none e a w h = cc
found_or-done (some b) e a w h = cc h

-- what has been checked of the facts that a signature commits to
pub record IsChecked (cfg : Config) (env : Env) (r : Readers) (id : String) (f : Facts)
    : Type 0 where
  pub same_task : f.task_id ≡ id
  pub task : r.task id ≡ some f.task
  pub is_open : f.task.is_open ≡ true
  pub evidence :
      All
        (IsFit (record {
          order_id = f.task.order_id;
          task_id = f.task_id;
          stage_identifier = f.task.stage_id;
        }))
        f.evidence
  pub authorized :
      let answer =
        r.authorize
          (authorization_request cfg env r f.task f.task_id f.input f.signal f.submitter) in
      answer.authorized ≡ true
  pub plan : IsResolved env r f.signal.order_id f.plan_id

-- what a successful preparation leaves behind
pub record IsPrepared (cfg : Config) (env : Env) (r : Readers) (id : String) (w : World)
    (d : Prepared) (s : Store) : Type 0 where
  pub facts : Facts
  pub checked : IsChecked cfg env r id facts
  pub created : ℕ
  pub nonce : String
  pub prepare_id : String
  pub returned : (prepared_from cfg env r facts created nonce prepare_id).dto ≡ d
  pub stored : s ≡ put_prepared (prepared_from cfg env r facts created nonce prepare_id) w.store

negated : (b : Bool) → not b ≡ false → b ≡ true
negated true h = refl
negated false h = cc

value :
    {A : Type 0} {x : Outcome Error A × World} {a : A} {w : World} → x ≡ (done a, w) → x.0 ≡ done a
value e = ap (λ y. y.0) e

module _ (cfg : Config) (env : Env) (r : Readers) where
  -- a block that ends with these facts
  abbrev Gathers : String → Outcome Error Facts × World → Type 0
  Gathers id x = (f : Facts) → x.0 ≡ done f → IsChecked cfg env r id f

  stops : (id : String) (e : Error) (w : World) → Gathers id (thrown e, w)
  stops id e w f h = cc

  gather-IsChecked :
      (id : String) (input : PrepareInput) (w : World) → Gathers id (gather cfg env r id input w)
  unfolding gather
  gather-IsChecked id input w₀ = bind-elim (Gathers id) _ _ _ (stops id) λ t w₁ e₁.
      bind-elim (Gathers id) _ _ _ (stops id) λ u w₂ e₂.
        bind-elim (Gathers id) _ _ _ (stops id) λ a w₃ e₃.
          bind-elim (Gathers id) _ _ _ (stops id) λ c w₄ e₄.
            bind-elim (Gathers id) _ _ _ (stops id) λ s w₅ e₅.
              bind-elim (Gathers id) _ _ _ (stops id) λ es w₆ e₆.
                bind-elim (Gathers id) _ _ _ (stops id) λ u' w₇ e₇.
                  bind-elim (Gathers id) _ _ _ (stops id) λ plan_id w₈ e₈ f h.
                    subst (IsChecked cfg env r id) (pure_value _ _ f w₈ refl h) (record {
                      same_task = refl;
                      task = found_or-done _ _ t w₀ (value e₁);
                      is_open = negated _ (unless-done _ _ w₁ (value e₂));
                      evidence =
                          resolve_evidence-done r.evidence _ input.evidence_ids es w₅ (value e₆);
                      authorized = negated _ (unless-done _ _ w₆ (value e₇));
                      plan = resolve_plan-done cfg env r s plan_id w₇ (value e₈);
                    })

  pub put_prepared-get :
      (p : PreparedRecord) (s : Store) → get p.prepare_id (put_prepared p s).prepared ≡ some p
  unfolding put_prepared
  put_prepared-get p s = get-put_self p.prepare_id p s.prepared

  write-done :
      (f : Store → Store) (w : World)
      → (write env f w).0 ≡ done tt
      → (write env f w).1.store ≡ f w.store
  unfolding write
  write-done f w h = ground arith

  abbrev StoreIs : Store → Property
  StoreIs s₀ s l = s ≡ s₀

  kept :
      {A : Type 0} (s₀ : Store) (m : Action A) (w : World) {x : Outcome Error A × World}
      → Keeps (StoreIs s₀) m
      → m w ≡ x
      → w.store ≡ s₀
      → x.1.store ≡ s₀
  kept s₀ m w k e h = subst (λ y. y.1.store ≡ s₀) e (k.at w h)

  nonce-Keeps : (s₀ : Store) (n : String) → Keeps (StoreIs s₀) (normalize_nonce cfg env r n)
  unfolding normalize_nonce
  nonce-Keeps s₀ n = search keeps_rules

  abbrev Prepares : String → World → Outcome Error Prepared × World → Type 0
  Prepares id w x = (d : Prepared) → x.0 ≡ done d → IsPrepared cfg env r id w d x.1.store

  fails : (id : String) (w : World) (e : Error) (w' : World) → Prepares id w (thrown e, w')
  fails id w e w' d h = cc

  -- When `prepareSubmit` returns a prepared submission, the task was found and open, the submitter
  -- authorized, and every piece of evidence usable for this order, task and stage; the plan is the
  -- projection's, well formed and not zero. The store is the one of before with the record built
  -- from these facts put under its identifier, and that record is what the caller gets.
  pub prepare_submit-IsPrepared :
      (id : String) (input : PrepareInput) (d : Prepared) (w : World)
      → (prepare_submit cfg env r id input w).0 ≡ done d
      → IsPrepared cfg env r id w d (prepare_submit cfg env r id input w).1.store
  unfolding prepare_submit pure
  prepare_submit-IsPrepared id input d₀ w h₀ =
      bind-elim (Prepares id w) (gather cfg env r id input) _ w (fails id w)
        (λ f w₁ e₁. bind-elim (Prepares id w) (ask env.now) _ w₁ (fails id w) λ created w₂ e₂.
          bind-elim (Prepares id w) (ask env.new_nonce) _ w₂ (fails id w) λ given w₃ e₃.
            bind-elim (Prepares id w) (normalize_nonce cfg env r given) _ w₃ (fails id w)
              λ nonce w₄ e₄.
                bind-elim (Prepares id w) (ask env.new_prepare_id) _ w₄ (fails id w)
                  λ prepare_id w₅ e₅. bind-elim (Prepares id w) _ _ w₅ (fails id w) λ u w₆ e₆ d h.
                    let s₀ = w.store in
                    let p = prepared_from cfg env r f created nonce prepare_id in
                    let k₁ = kept s₀ _ w (gather-Keeps cfg env r id input) e₁ refl in
                    let k₂ = kept s₀ _ w₁ (Keeps-ask env.now) e₂ k₁ in
                    let k₃ = kept s₀ _ w₂ (Keeps-ask env.new_nonce) e₃ k₂ in
                    let k₄ = kept s₀ _ w₃ (nonce-Keeps s₀ given) e₄ k₃ in
                    let k₅ = kept s₀ _ w₄ (Keeps-ask env.new_prepare_id) e₅ k₄ in
                    let put₆ : w₆.store ≡ put_prepared p w₅.store =
                      sym (ap (λ y. y.1.store) e₆) ∙ write-done (put_prepared p) w₅ (value e₆) in
                    record {
                      facts = f;
                      checked = gather-IsChecked id input w f (value e₁);
                      created = created;
                      nonce = nonce;
                      prepare_id = prepare_id;
                      returned = pure_value _ p.dto d w₆ refl h;
                      stored = put₆ ∙ ap (put_prepared p) k₅;
                    })
        d₀ h₀
