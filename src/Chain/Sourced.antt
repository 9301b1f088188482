-- ===== src/Chain/Sourced.antt =====
-- Where the signals that complete a task come from.
use uvp_chain_services.Chain.Replay.{is_after}
use uvp_chain_services.Chain.Pointers.{Sign}
use uvp_chain_services.Prelude.{
  Bool, true, Option, List, [], ◌∷◌, ◌≡◌, ◌&&◌, ◌||◌, any, keep, map, values, or_default, All,
  arith, String, Bool-cases, eq_refl, inl, put, ◌++◌, inr, Dict, ◌==◌, All-append, get, All-weaken,
  ap, refl, sym, eq_iff, ◌∙◌,
}
use uvp_chain_services.Chain.Tasks.{
  SubmitSignal, Order, ChainTask, SignalCapability, SignalAuthorization, names, sort_signals,
  dedupe_task_submit_signals, put_signals, insert_signal, put_signal, compare_task_submit_signals,
  keeps_plan, signal_projection_key, SignalSource,
}
use uvp_chain_services.Chain.Refresh.{
  is_for_stage, targets, candidate_signals, refresh_task_submit_signals, unless_empty,
  push_matching, of_authorization, plan_submit_signals_for_stage, signal_authorization_matches_hook,
  of_capability, of_delegation, is_of_hook,
}

-- whether the plan's capabilities of the task's stage, an authorization of the order for the task's own
-- hook, or a delegation to the task's stage names a signal
unfoldable pub is_sourced : Order → Option (List SignalCapability) → ChainTask → SubmitSignal → Bool
is_sourced o plan t s =
    any (λ c. is_for_stage t.stage_identifier c && names c.target_source_id c.signal_id s)
      (or_default plan [])
    || any (λ (a : SignalAuthorization). is_of_hook t.hook_id a && names a.source_id a.signal_id s)
        (values o.authorizations)
    || any (λ d. targets t.stage_identifier d && names d.source_id d.signal_id s)
        (values o.signal_delegations)

module _ {A B : Type 0} where
  -- what is made of the kept elements comes from one of the elements
  map_kept :
      (test : B → Bool) (f : B → A) (p : B → A → Bool) (xs : List B)
      → ((x : B) → test x ≡ true → p x (f x) ≡ true)
      → All (λ s. any (λ x. p x s) xs ≡ true) (map f (keep test xs))
  unfolding any keep
  map_kept test f p [] h = tt
  map_kept test f p (x ∷ xs) h =
      let tail =
        All-weaken (λ s. any (λ y. p y s) xs ≡ true) (λ s. any (λ y. p y s) (x ∷ xs) ≡ true)
          (map f (keep test xs)) (λ s k. ground (arith, k)) (map_kept test f p xs h) in
      elim (Bool-cases (test x)) [
        | inl e ↦ simp e (ground (arith, h x e), tail)
        | inr e ↦ simp e tail
      ]

module _ (locale : String → String → Sign) (P : SubmitSignal → Type 0) where
  All-insert_signal :
      (s : SubmitSignal) (ss : List SubmitSignal)
      → P s
      → All P ss
      → All P (insert_signal locale s ss)
  unfolding insert_signal
  All-insert_signal s [] h hs = (h, tt)
  All-insert_signal s (x ∷ xs) h (k, ks) =
      elim (Bool-cases (is_after (compare_task_submit_signals locale s x))) [
        | inl e ↦ simp e (k, All-insert_signal s xs h ks)
        | inr e ↦ simp e (h, (k, ks))
      ]

  All-sort_signals : (ss : List SubmitSignal) → All P ss → All P (sort_signals locale ss)
  unfolding sort_signals
  All-sort_signals [] hs = tt
  All-sort_signals (s ∷ ss) (h, hs) = All-insert_signal s _ h (All-sort_signals ss hs)

  All-put :
      (k : String) (s : SubmitSignal) (d : Dict SubmitSignal)
      → P s
      → All P (values d)
      → All P (values (put k s d))
  unfolding put values
  All-put k s [] h hs = (h, tt)
  All-put k s ((j, x) ∷ d) h (y, ys) = elim (Bool-cases (j == k)) [
    | inl e ↦ simp e (h, ys)
    | inr e ↦ simp e (y, All-put k s d h ys)
  ]

  All-put_signals :
      (ss : List SubmitSignal) (d : Dict SubmitSignal)
      → All P ss
      → All P (values d)
      → All P (values (put_signals ss d))
  unfolding put_signals put_signal
  All-put_signals [] d hs ds = ds
  All-put_signals (s ∷ ss) d (h, hs) ds =
      elim (Bool-cases (keeps_plan (get (signal_projection_key s.source_id s.signal_id) d))) [
        | inl e ↦ simp e (All-put_signals ss d hs ds)
        | inr e ↦ simp e (
            All-put_signals ss (put (signal_projection_key s.source_id s.signal_id) s d) hs
              (All-put _ s d h ds))
      ]

  All-dedupe : (ss : List SubmitSignal) → All P ss → All P (dedupe_task_submit_signals locale ss)
  unfolding dedupe_task_submit_signals values
  All-dedupe ss hs = All-sort_signals _ (All-put_signals ss [] hs tt)

module _ (P : SubmitSignal → Type 0) where
  -- an authorization that names one of the signals
  found :
      (x : SignalAuthorization) (ss : List SubmitSignal)
      → ((s : SubmitSignal) → P s → names x.source_id x.signal_id s ≡ true → P (of_authorization x))
      → All P ss
      → any (names x.source_id x.signal_id) ss ≡ true
      → P (of_authorization x)
  unfolding any
  found x [] h ks e = absurd (cc e)
  found x (s ∷ ss) h (k, ks) e = elim (Bool-cases (names x.source_id x.signal_id s)) [
    | inl q ↦ h s k q
    | inr q ↦ found x ss h ks (ground (arith, e, q))
  ]

  matching :
      (hook_id : String) (a : SignalAuthorization) (ss : List SubmitSignal)
      → (is_of_hook hook_id a ≡ true → P (of_authorization a))
        × ((s : SubmitSignal)
            → P s
            → names a.source_id a.signal_id s ≡ true
            → P (of_authorization a))
      → All P ss
      → signal_authorization_matches_hook a hook_id ss ≡ true
      → P (of_authorization a)
  unfolding signal_authorization_matches_hook
  matching hook_id a ss (h, hs) ks e = elim (Bool-cases (is_of_hook hook_id a)) [
    | inl q ↦ h q
    | inr q ↦ found a ss hs ks (ground (arith, e, q))
  ]

  -- each authorization is tested against signals that already have the property
  All-push_matching :
      (hook_id : String) (xs : List SignalAuthorization) (ss : List SubmitSignal)
      → All
          (λ a.
            (is_of_hook hook_id a ≡ true → P (of_authorization a))
            × ((s : SubmitSignal)
                → P s
                → names a.source_id a.signal_id s ≡ true
                → P (of_authorization a)))
          xs
      → All P ss
      → All P (push_matching hook_id xs ss)
  unfolding push_matching
  All-push_matching hook_id [] ss hs ks = ks
  All-push_matching hook_id (x ∷ xs) ss (h, hs) ks =
      elim (Bool-cases (signal_authorization_matches_hook x hook_id ss)) [
        | inl e ↦ simp e (
            All-push_matching hook_id xs (ss ++ of_authorization x ∷ []) hs
              (All-append P ss (of_authorization x ∷ []) ks (matching hook_id x ss h ks e, tt)))
        | inr e ↦ simp e (All-push_matching hook_id xs ss hs ks)
      ]

both_true : (a b : Bool) → (a && b) ≡ true → (a ≡ true) × (b ≡ true)
both_true a b h = (ground (arith, h), ground (arith, h))

unless_empty-All :
    (P : SubmitSignal → Type 0) (ss : List SubmitSignal)
    → All P ss
    → All P (or_default (unless_empty ss) [])
unless_empty-All P [] h = tt
unless_empty-All P (s ∷ ss) h = h

module _ (o : Order) (plan : Option (List SignalCapability)) (t : ChainTask) where
  abbrev IsSourced : SubmitSignal → Type 0
  IsSourced s = is_sourced o plan t s ≡ true

  plan-IsSourced : All IsSourced (plan_submit_signals_for_stage plan t.stage_identifier)
  unfolding plan_submit_signals_for_stage is_sourced
  plan-IsSourced =
      All-weaken _ IsSourced _ (λ s k. ground (arith, k))
        (map_kept (is_for_stage t.stage_identifier) of_capability
          (λ c s. is_for_stage t.stage_identifier c && names c.target_source_id c.signal_id s)
          (or_default plan [])
          (λ c k. ground (arith, k, eq_refl c.target_source_id, eq_refl c.signal_id)))

  hook-IsSourced :
      All IsSourced (map of_authorization (keep (is_of_hook t.hook_id) (values o.authorizations)))
  unfolding is_sourced
  hook-IsSourced =
      All-weaken _ IsSourced _ (λ s k. ground (arith, k))
        (map_kept (is_of_hook t.hook_id) of_authorization
          (λ a s. is_of_hook t.hook_id a && names a.source_id a.signal_id s)
          (values o.authorizations)
          (λ a k. ground (arith, k, eq_refl a.source_id, eq_refl a.signal_id)))

  abbrev with_ids : String → String → SubmitSignal
  with_ids source_id signal_id = record {
    source_id = source_id;
    signal_id = signal_id;
    source = SignalSource.authorization;
  }

  -- only the identifiers of a signal count
  by_ids :
      (s : SubmitSignal)
      → is_sourced o plan t s ≡ is_sourced o plan t (with_ids s.source_id s.signal_id)
  unfolding is_sourced
  by_ids s = refl

  named-IsSourced :
      (a : SignalAuthorization) (s : SubmitSignal)
      → IsSourced s
      → names a.source_id a.signal_id s ≡ true
      → IsSourced (of_authorization a)
  named-IsSourced a s k e =
      let (source, signal) =
        both_true (s.source_id == a.source_id) (s.signal_id == a.signal_id) e in
      ap (λ x. is_sourced o plan t (with_ids x a.signal_id))
        (sym ((eq_iff s.source_id a.source_id).0 source))
      ∙ ap (λ x. is_sourced o plan t (with_ids s.source_id x))
          (sym ((eq_iff s.signal_id a.signal_id).0 signal))
      ∙ sym (by_ids s)
      ∙ k

  authorized-IsSourced :
      (xs : List SignalAuthorization)
      → All
          (λ (a : SignalAuthorization).
            is_of_hook t.hook_id a ≡ true
            → any
                (λ (b : SignalAuthorization).
                  is_of_hook t.hook_id b && names b.source_id b.signal_id (of_authorization a))
                xs
              ≡ true)
          xs
  unfolding any
  authorized-IsSourced [] = tt
  authorized-IsSourced (x ∷ xs) = (
    λ k. ground (arith, k, eq_refl x.source_id, eq_refl x.signal_id),
    All-weaken _ _ xs (λ (a : SignalAuthorization) f k. ground (arith, f k))
        (authorized-IsSourced xs),
  )

  delegated-IsSourced :
      All IsSourced
        (map of_delegation (keep (targets t.stage_identifier) (values o.signal_delegations)))
  unfolding is_sourced
  delegated-IsSourced =
      All-weaken _ IsSourced _ (λ s k. ground (arith, k))
        (map_kept (targets t.stage_identifier) of_delegation
          (λ d s. targets t.stage_identifier d && names d.source_id d.signal_id s)
          (values o.signal_delegations)
          (λ d k. ground (arith, k, eq_refl d.source_id, eq_refl d.signal_id)))

  pushed-IsSourced : All IsSourced (
      push_matching t.hook_id
        (values o.authorizations)
        (plan_submit_signals_for_stage plan t.stage_identifier))
  unfolding is_sourced
  pushed-IsSourced =
      All-push_matching IsSourced t.hook_id (values o.authorizations) _
        (All-weaken _ _ (values o.authorizations)
          (λ (a : SignalAuthorization) f.
            (λ k. ground (arith, f k), λ s k e. named-IsSourced a s k e))
          (authorized-IsSourced (values o.authorizations)))
        plan-IsSourced

  candidates-IsSourced : All IsSourced (candidate_signals o plan t)
  unfolding candidate_signals
  candidates-IsSourced =
      All-append IsSourced _ _ (All-append IsSourced _ _ pushed-IsSourced hook-IsSourced)
        delegated-IsSourced

-- Refreshing a task gives it no signal but those that its plan allows its stage to send to the current
-- order, that an authorization of the order whose source or signal is the task's hook names, or that a
-- delegation to its stage names.
pub refresh_task_submit_signals_lem :
    (locale : String → String → Sign) (o : Order) (plan : Option (List SignalCapability))
    (t : ChainTask)
    → All
        (λ s. is_sourced o plan t s ≡ true)
        (or_default (refresh_task_submit_signals locale o plan t).submit_signals [])
unfolding refresh_task_submit_signals
refresh_task_submit_signals_lem locale o plan t =
    unless_empty-All (λ s. is_sourced o plan t s ≡ true)
      (dedupe_task_submit_signals locale (candidate_signals o plan t))
      (All-dedupe locale (λ s. is_sourced o plan t s ≡ true) (candidate_signals o plan t)
        (candidates-IsSourced o plan t))
