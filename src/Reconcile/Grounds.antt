-- ===== src/Reconcile/Grounds.antt =====
-- On what an outcome rests: for each kind of outcome, the answer of a collaborator that gave it.
use uvp_chain_services.Prelude.Runs.{bind-elim}
use uvp_chain_services.Submission.World.{Error}
use uvp_chain_services.Prelude.Exec.{Outcome, pure, thrown, done, ◌>>=◌}
use uvp_chain_services.Reconcile.Types.{Provenance, Receipt, OutcomeKind, Resolved}
use uvp_chain_services.Prelude.{
  ℕ, Option, String, or_default, ◌≡◌, truthy, Bool, true, some, none, ap, false, present,
  Bool-cases, refl, inl, inr, ◌==◌, subst, if◌then◌else◌, sym,
}
use Prim.Native.Nat.{ℕ}
use uvp_chain_services.Reconcile.World.{Sources, Work, Books, clock, consult}
use uvp_chain_services.Reconcile.Outcome.{
  resolve_outcome, overdue, by_projection, by_receipt, by_status, after_success, timed_out,
  reverted_outcome, indexing_outcome, confirmed_outcome, stale_outcome, unmined, is_reverted,
  unsent,
}

module _ (env : Sources) (created_at : ℕ) (confirm : Work (Option Provenance))
    (tx : Option String) where
  -- the projection confirmed it, in that block
  abbrev pub Projected : Option String → Type 0
  Projected block =
      (p : Provenance) × (v : Books) × ((confirm v).0 ≡ done (some p))
      × (block ≡ present (some p.block_number))

  -- the chain gave a receipt with a status of this sort
  abbrev pub Mined : (String → Type 0) → Type 0
  Mined P =
      (n : ℕ) × (r : Receipt) × (s : String) × (env.receipt n (or_default tx "") ≡ done (some r))
      × (r.status ≡ some s)
      × P s

  -- the time is over, and no receipt was found for a transaction that has a hash
  abbrev pub Overdue : Type 0
  Overdue =
      ((n : ℕ) × (timed_out created_at env.timeout_ms (env.now n) ≡ true))
      × ((truthy tx ≡ true) → (n : ℕ) × (env.receipt n (or_default tx "") ≡ done none))

  abbrev pub Rests : OutcomeKind → Option String → Bool → Type 0
  Rests OutcomeKind.pending block retryable = retryable ≡ true
  Rests OutcomeKind.indexing block retryable =
      Mined (λ s. (s == "success") ≡ true)
      × ((v : Books) × ((confirm v).0 ≡ done none))
      × (retryable ≡ false)
  Rests OutcomeKind.confirmed block retryable =
      Projected block × (truthy tx ≡ true) × (retryable ≡ false)
  Rests OutcomeKind.failed block retryable = Mined (λ s. is_reverted s ≡ true) × (retryable ≡ false)
  Rests OutcomeKind.stale_pending block retryable = Overdue × (retryable ≡ true)

  -- the outcome of a run, where it returned one
  abbrev pub Justified : Outcome Error Resolved × Books → Type 0
  Justified (done o, w) = Rests o.kind o.block_number o.retryable
  Justified (thrown e, w) = Unit

  thrown-Justified : (e : Error) (w : Books) → Justified (thrown e, w)
  thrown-Justified e w = tt

  after_success-Justified :
      (at : ℕ) (block : Option String) (p : Option Provenance) (v w : Books)
      → truthy tx ≡ true
      → Mined (λ s. (s == "success") ≡ true)
      → (confirm v).0 ≡ done p
      → Justified (after_success env created_at confirm at block p w)
  unfolding pure indexing_outcome confirmed_outcome
  after_success-Justified at block none v w t m h = (m, (v, h), refl)
  after_success-Justified at block (some p) v w t m h = ((p, v, h, refl), t, refl)

  by_status-Justified :
      (n at : ℕ) (r : Receipt) (s : Option String) (w : Books)
      → truthy tx ≡ true
      → env.receipt n (or_default tx "") ≡ done (some r)
      → r.status ≡ s
      → Justified (by_status env created_at confirm at r.block_number s w)
  unfolding pure reverted_outcome
  by_status-Justified n at r none w t h k = refl
  by_status-Justified n at r (some s) w t h k = elim (Bool-cases (is_reverted s)) [
    | inl e ↦ simp e ((n, r, s, h, k, e), refl)
    | inr e ↦ simp e (elim (Bool-cases (s == "success")) [
      | inl f ↦ simp f (
          bind-elim Justified confirm _ w thrown-Justified λ p w₁ e₁.
            after_success-Justified at r.block_number p w w₁ t (n, r, s, h, k, f)
              (ap (λ (x : Outcome Error (Option Provenance) × Books). x.0) e₁))
      | inr f ↦ simp f refl
    ])
  ]

  overdue-Justified :
      (at : ℕ) (early : Resolved) (w : Books)
      → Rests early.kind early.block_number early.retryable
      → ((truthy tx ≡ true) → (n : ℕ) × (env.receipt n (or_default tx "") ≡ done none))
      → Justified (overdue env created_at confirm at early w)
  unfolding pure clock ◌>>=◌ stale_outcome
  overdue-Justified at early w h k =
      elim (Bool-cases (timed_out created_at env.timeout_ms (env.now w.tick))) [
        | inl e ↦ simp e (((w.tick, e), k), refl)
        | inr e ↦ simp e h
      ]

  by_receipt-Justified :
      (n at : ℕ) (r : Option Receipt) (w : Books)
      → truthy tx ≡ true
      → env.receipt n (or_default tx "") ≡ done r
      → Justified (by_receipt env created_at confirm at r w)
  by_receipt-Justified n at none w t h = overdue-Justified at (unmined at) w refl λ _. (n, h)
  by_receipt-Justified n at (some r) w t h = by_status-Justified n at r r.status w t h refl

  by_projection-Justified :
      (at : ℕ) (p : Option Provenance) (v w : Books)
      → truthy tx ≡ true
      → (confirm v).0 ≡ done p
      → Justified (by_projection env created_at confirm (or_default tx "") at p w)
  unfolding pure confirmed_outcome consult
  by_projection-Justified at (some p) v w t h = ((p, v, h, refl), t, refl)
  by_projection-Justified at none v w t h =
      bind-elim Justified (consult (λ n. env.receipt n (or_default tx ""))) _ w thrown-Justified
        λ r w₁ e₁.
          by_receipt-Justified w.tick at r w₁ t
            (ap (λ (x : Outcome Error (Option Receipt) × Books). x.0) e₁)

  -- Every outcome rests on an answer of a collaborator.
  pub resolve_outcome-Justified :
      (w : Books) → Justified (resolve_outcome env created_at confirm tx w)
  unfolding resolve_outcome
  resolve_outcome-Justified w = bind-elim Justified (clock env) _ w thrown-Justified λ at w₁ e₁.
      elim (Bool-cases (truthy tx)) [
        | inl t ↦
            subst Justified
              (ap
                (λ (b : Bool).
                  (if b
                      then confirm >>= by_projection env created_at confirm (or_default tx "") at
                      else overdue env created_at confirm at (unsent at))
                    w₁)
                (sym t))
              (bind-elim Justified confirm _ w₁ thrown-Justified λ p w₂ e₂.
                by_projection-Justified at p w₁ w₂ t
                  (ap (λ (x : Outcome Error (Option Provenance) × Books). x.0) e₂))
        | inr t ↦
            subst Justified
              (ap
                (λ (b : Bool).
                  (if b
                      then confirm >>= by_projection env created_at confirm (or_default tx "") at
                      else overdue env created_at confirm at (unsent at))
                    w₁)
                (sym t))
              (overdue-Justified at (unsent at) w₁ refl λ u. absurd (cc (t, u)))
      ]
