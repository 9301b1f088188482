-- ===== src/Reconcile/Justified.antt =====
-- On what the results of the reconciliation of a submission rest.
use uvp_chain_services.Submission.World.{Error}
use uvp_chain_services.Submission.Store.{put_submission}
use uvp_chain_services.Prelude.Runs.{bind-done, pure_value}
use uvp_chain_services.Prelude.Exec.{done, Outcome, thrown, pure}
use uvp_chain_services.Reconcile.Grounds.{
  Mined, Overdue, Rests, resolve_outcome-Justified, Justified,
}
use uvp_chain_services.Reconcile.World.{Sources, Work, Books, consult, change, later}
use uvp_chain_services.Reconcile.Submissions.{
  in_order, confirmed_by, matches, signal_key, submission_projection_confirmation,
  reconcile_submission, is_reconcileable, status_from_outcome, reconcileable_at, is_failed,
  reconciled, put_in_store,
}
use uvp_chain_services.Reconcile.Outcome.{
  confirmation_from_provenance, is_reverted, resolve_outcome,
}
use uvp_chain_services.Reconcile.Types.{
  ProjectedOrder, Provenance, ProjectedSignal, OutcomeKind, Resolved,
}
use uvp_chain_services.Submission.Types.{Submission, Status}
use uvp_chain_services.Prelude.{
  String, truthy, Option, ◌≡◌, true, some, get, ◌==◌, none, or_default, subst, Bool, refl,
  if◌then◌else◌, false, ℕ, ◌⊎◌, or_else, present, ◌≢◌, ◌&&◌, not, ap, inl, inr, Bool-cases, sym,
  ◌∙◌, get-put_self,
}
use Prim.Native.String.{String}

-- the projected signal that confirmed a submission
abbrev Confirmed : (String → String) → Submission → Option ProjectedOrder → Provenance → Type 0
Confirmed lower_case x order p =
    (o : ProjectedOrder) × (s : ProjectedSignal) × (order ≡ some o)
    × (get (signal_key x) o.signals ≡ some s)
    × (matches x s ≡ true)
    × (s.submitted_at ≡ p)
    × ((lower_case p.transaction_hash == lower_case (or_default x.tx_hash "")) ≡ true)

-- a guarded option that is there
when_some :
    {A : Type 0} (b : Bool) (m : Option A) (q : A)
    → (if b then m else none) ≡ some q
    → (b ≡ true) × (m ≡ some q)
when_some true m q h = (refl, h)
when_some false m q h = absurd (cc h)

not_both : (a b : Bool) → b ≡ true → (a && not b) ≡ true → ⊥
not_both false b h k = cc k
not_both true b h k = cc (h, k)

module _ (lower_case : String → String) (x : Submission) (t : truthy x.tx_hash ≡ true) where
  confirmation-same_hash :
      (p q : Provenance)
      → confirmation_from_provenance lower_case (some p) x.tx_hash ≡ some q
      → (p ≡ q) × ((lower_case q.transaction_hash == lower_case (or_default x.tx_hash "")) ≡ true)
  unfolding confirmation_from_provenance
  confirmation-same_hash p q h =
      let (same, e) = when_some _ (some p) q (simp t at h) in
      let is : p ≡ q = cc e in
      (
        is,
        subst
            (λ (r : Provenance).
              (lower_case r.transaction_hash == lower_case (or_default x.tx_hash "")) ≡ true)
            is same,
      )

  confirmed_by-same :
      (s : ProjectedSignal) (q : Provenance)
      → confirmed_by lower_case x (some s) ≡ some q
      → (matches x s ≡ true)
        × (confirmation_from_provenance lower_case (some s.submitted_at) x.tx_hash ≡ some q)
  confirmed_by-same s q h = when_some _ _ q h

  looked_up :
      (o : ProjectedOrder) (s : Option ProjectedSignal) (q : Provenance)
      → get (signal_key x) o.signals ≡ s
      → confirmed_by lower_case x s ≡ some q
      → (s' : ProjectedSignal) × (get (signal_key x) o.signals ≡ some s')
        × (confirmed_by lower_case x (some s') ≡ some q)
  looked_up o none q e h = absurd (cc h)
  looked_up o (some s) q e h = (s, e, h)

  in_order-Confirmed :
      (order : Option ProjectedOrder) (q : Provenance)
      → in_order lower_case x order ≡ some q
      → Confirmed lower_case x order q
  in_order-Confirmed none q h = absurd (cc h)
  in_order-Confirmed (some o) q h =
      let (s, found, there) = looked_up o (get (signal_key x) o.signals) q refl h in
      let (same, here) = confirmed_by-same s q there in
      let (place, hash) = confirmation-same_hash s.submitted_at q here in
      (o, s, refl, found, same, place, hash)

module _ (env : Sources) (x : Submission) where
  abbrev projection : Work (Option Provenance)
  projection = submission_projection_confirmation env x

  -- a projected order has the signal that was signed, in the transaction that was sent
  abbrev pub Shown : Option String → Type 0
  Shown block =
      (n : ℕ) × (order : Option ProjectedOrder) × (p : Provenance) × (env.order n x.onchain_order_id
          x.plan_id
        ≡ done order)
      × Confirmed env.lower_case x order p
      × (block ≡ or_else (present (some p.block_number)) x.block_number)

  abbrev pub Reverted : Type 0
  Reverted = Mined env x.created_at projection x.tx_hash (λ s. is_reverted s ≡ true)

  -- confirmed, a dead letter, or failed and to be retried: each with what it rests on
  abbrev SupportedBy : Status → Option String → Bool → Bool → Type 0
  SupportedBy status block dead_letter retryable =
      (status ≡ Status.confirmed → Shown block)
      × (dead_letter ≡ true → Reverted)
      × (status ≡ Status.failed
          → (dead_letter ≡ true)
            ⊎ (Overdue env x.created_at projection x.tx_hash × (retryable ≡ true)))

  abbrev pub Supported : Submission → Type 0
  Supported u =
      SupportedBy u.status u.block_number (or_default u.dead_letter false)
        (or_default u.retryable false)

  projection-Confirmed :
      (v : Books) (p : Provenance)
      → truthy x.tx_hash ≡ true
      → (projection v).0 ≡ done (some p)
      → (n : ℕ) × (order : Option ProjectedOrder) × (env.order n x.onchain_order_id x.plan_id
          ≡ done order)
        × Confirmed env.lower_case x order p
  unfolding submission_projection_confirmation consult
  projection-Confirmed v p t h =
      let (order, there, e) =
        bind-done (consult (λ n. env.order n x.onchain_order_id x.plan_id)) _ v h in
      (
        v.tick,
        order,
        there,
        in_order-Confirmed env.lower_case x t order p
            (pure_value _ (in_order env.lower_case x order) (some p) _ e h),
      )

  -- an open submission is neither confirmed nor, without a hash, failed
  still_open :
      (status : Status) (sent : Bool)
      → reconcileable_at status x.tx_hash ≡ true
      → truthy x.tx_hash ≡ sent
      → ((if sent then Status.submitted else status) ≢ Status.confirmed)
        × ((if sent then Status.submitted else status) ≢ Status.failed)
  still_open status true r t = (λ e. cc e, λ e. cc e)
  still_open Status.failed false r t = absurd (cc (r, t))
  still_open Status.broadcasting false r t = (λ e. cc e, λ e. cc e)
  still_open Status.submitted false r t = (λ e. cc e, λ e. cc e)
  still_open Status.indexing false r t = (λ e. cc e, λ e. cc e)
  still_open Status.prepared false r t = absurd (cc r)
  still_open Status.signature_received false r t = absurd (cc r)
  still_open Status.replaced false r t = absurd (cc r)
  still_open Status.confirmed false r t = absurd (cc r)
  still_open Status.expired false r t = absurd (cc r)

  supported_by :
      (k : OutcomeKind) (block : Option String) (retryable : Bool)
      → is_reconcileable x ≡ true
      → Rests env x.created_at projection x.tx_hash k block retryable
      → SupportedBy
          (status_from_outcome k x)
          (or_else block x.block_number)
          (is_failed (status_from_outcome k x) && not retryable)
          retryable
  unfolding status_from_outcome is_reconcileable
  supported_by OutcomeKind.pending block retryable r h =
      let (a, b) = still_open x.status (truthy x.tx_hash) r refl in
      (
        λ e. absurd (a e),
        λ e.
            absurd (not_both (is_failed (status_from_outcome OutcomeKind.pending x)) retryable h e),
        λ e. absurd (b e),
      )
  supported_by OutcomeKind.indexing block retryable r h =
      (λ e. absurd (cc e), λ e. absurd (cc e), λ e. absurd (cc e))
  supported_by OutcomeKind.confirmed block retryable r ((p, v, there, e), t, f) =
      let (n, order, answered, c) = projection-Confirmed v p t there in
      (
        λ _. (n, order, p, answered, c, ap (λ (b : Option String). or_else b x.block_number) e),
        λ e. absurd (cc e),
        λ e. absurd (cc e),
      )
  supported_by OutcomeKind.failed block retryable r (m, f) =
      (λ e. absurd (cc e), λ _. m, λ _. inl (simp f refl))
  supported_by OutcomeKind.stale_pending block retryable r (late, t) =
      (λ e. absurd (cc e), λ e. absurd (not_both true retryable t e), λ _. inr (late, t))

  outcome-Rests :
      (r : Outcome Error Resolved × Books) (o : Resolved)
      → r.0 ≡ done o
      → Justified env x.created_at projection x.tx_hash r
      → Rests env x.created_at projection x.tx_hash o.kind o.block_number o.retryable
  outcome-Rests (done o', w) o h j =
      let is : o' ≡ o = cc h in
      subst
        (λ (q : Resolved).
          Rests env x.created_at projection x.tx_hash q.kind q.block_number q.retryable)
        is j
  outcome-Rests (thrown e, w) o h j = absurd (cc h)

  -- a change of a store that went through
  changed :
      (f : Books → Books) (w : Books) (u : Unit {0})
      → (change env f w).0 ≡ done u
      → (change env f w).1 ≡ later (f w)
  unfolding change
  changed f w u h = elim (Bool-cases (env.store_fails w.tick)) [
    | inl e ↦ absurd (cc (h, e))
    | inr e ↦ simp e refl
  ]

  -- What reconcileSubmission returns for an open submission is stored, and is supported.
  pub reconcile_submission-Supported :
      (w : Books) (u : Submission)
      → is_reconcileable x ≡ true
      → (reconcile_submission env x w).0 ≡ done u
      → Supported u
        × (get x.submission_id (reconcile_submission env x w).1.store.submissions ≡ some u)
  unfolding reconcile_submission reconciled put_submission pure
  reconcile_submission-Supported w u r h =
      let (o, there, e) = bind-done (resolve_outcome env x.created_at projection x.tx_hash) _ w h in
      let w₁ = (resolve_outcome env x.created_at projection x.tx_hash w).1 in
      let (t, went, f) =
        bind-done (change env (put_in_store (reconciled o x))) _ w₁
          (ap (λ (y : Outcome Error Submission × Books). y.0) (sym e) ∙ h) in
      let is : reconciled o x ≡ u = pure_value _ (reconciled o x) u _ (e ∙ f) h in
      let stored : (reconcile_submission env x w).1 ≡ later (put_in_store (reconciled o x) w₁) =
        ap (λ (y : Outcome Error Submission × Books). y.1) (e ∙ f)
        ∙ changed (put_in_store (reconciled o x)) w₁ t went in
      (
        subst Supported is (
            supported_by o.kind o.block_number o.retryable r (
              outcome-Rests _ o there
                (resolve_outcome-Justified env x.created_at projection x.tx_hash w))),
        ap (λ (v : Books). get x.submission_id v.store.submissions) stored
            ∙ get-put_self x.submission_id (reconciled o x) w₁.store.submissions
            ∙ ap some is,
      )
