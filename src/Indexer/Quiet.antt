-- ===== src/Indexer/Quiet.antt =====
-- A reorganisation that reaches the indexer before it has stored any event.
use uvp_chain_services.Indexer.Leaves.{
  Leaves, Leaves-bind, goes_on, cursor_block_hash-Leaves, save-Leaves, stay-Leaves,
}
use uvp_chain_services.Indexer.Mirrors.{IsSynced}
use uvp_chain_services.Prelude.Runs.{bind-elim, bind-step, bind-stop}
use uvp_chain_services.Indexer.Ancestors.{Reads}
use uvp_chain_services.Indexer.Blocks.{
  Fork, IsFork, blocks, All-++, Within, blocks-Within, blocks-+,
}
use uvp_chain_services.Indexer.Reorg.{
  rollback_to_common_ancestor, common_ancestor, older_ancestor, anchors, newest_first, no_ancestor,
  backtrack_floor, to_ancestor, max_block, is_same_block_hash,
}
use uvp_chain_services.Submission.World.{external}
use uvp_chain_services.Prelude.{
  Bool, ℕ, ◌≡◌, arith, ◌∙◌, refl, [], if◌then◌else◌, ◌≢◌, ltb, true, false, ◌-◌, some, Option, inl,
  ◌⊎◌, subst, String, Bool-cases, sym, inr, keep, any, none, List, All, ◌≤◌, ◌∷◌, ◌++◌, All-weaken,
  ◌+◌, ap, or_default, ltb→le,
}
use Prim.Native.Nat.{ℕ}
use uvp_chain_services.Indexer.Store.{
  EventCursor, IndexerError, Stored, Indexer, Source, Task, query, transact, reorg_cursor_moved,
  external, ticked, config_error, StoredEvent, delete_events_after_block, append_events,
  append_event, is_key_of, observe,
}
use uvp_chain_services.Indexer.Refresh.{
  save_cursor_advancing_from, cursor_block_hash, stay, defer_rollback, rollback_on_reorg,
  compare_hashes, check_continuity, has_no_hash, swept, refresh_from, append_stored, read_on,
  after_rollback, go_on, next_cursor, finalized_of, stored_hash, not_lowered, max_block_of,
}
use uvp_chain_services.Prelude.Exec.{
  Outcome, done, thrown, pure, and_then, ◌>>=◌, attempt, throw, recover_from,
}

module _ (env : Source) where
  -- a result that is the block itself, with nothing stored
  abbrev Still : ℕ → Outcome IndexerError ℕ × Indexer → Type 0
  Still n (done k, v) = (k ≡ n) × (v.stored.events ≡ [])
  Still n (thrown e, v) = e ≢ reorg_cursor_moved

  abbrev Rests : ℕ → Outcome IndexerError ℕ × Indexer → Type 0
  Rests n (done k, v) = (k ≡ n) × (v.stored.events ≡ [])
  Rests n (thrown e, v) = Unit

  asks :
      {A : Type 0} (g : Stored → A) (w : Indexer)
      → (query env g w ≡ (thrown (external "store"), ticked w))
        ⊎ (query env g w ≡ (done (g w.stored), ticked w))
  unfolding query
  asks g w = elim (Bool-cases (env.store_fails w.tick)) [
    | inl q ↦ inl (simp q refl)
    | inr q ↦ inr (simp q refl)
  ]

  rollback-Still :
      (n : ℕ) (w : Indexer) → w.stored.events ≡ [] → Still n (rollback_to_common_ancestor env n w)
  unfolding rollback_to_common_ancestor common_ancestor older_ancestor anchors newest_first keep
      no_ancestor any pure ◌>>=◌
  rollback-Still n w e = elim (asks (λ s. s.events) w) [
    | inl q ↦ subst (Still n) (sym (bind-stop (query env (λ s. s.events)) _ w _ _ q)) (λ r. cc r)
    | inr q ↦ subst (Still n) (sym (bind-step (query env (λ s. s.events)) _ w _ _ q)) (
        subst
          (λ es. Still n (
            (common_ancestor env [] (anchors (backtrack_floor env.deployment_block n) n es)
                >>= to_ancestor env n es)
              (ticked w)))
          (sym e) (refl, e))
  ]

  recovered-Rests :
      (n : ℕ) (x : Outcome IndexerError ℕ × Indexer)
      → Still n x
      → Rests n (recover_from x.0 (defer_rollback env n) x.1)
  unfolding defer_rollback throw
  recovered-Rests n (done k, v) h = h
  recovered-Rests n (thrown reorg_cursor_moved, v) h = absurd (h refl)
  recovered-Rests n (thrown (config_error s), v) h = tt
  recovered-Rests n (thrown (external s), v) h = tt

  either-Rests :
      (n : ℕ) (b : Bool) (s t : Task ℕ) (w : Indexer)
      → Rests n (s w)
      → Rests n (t w)
      → Rests n ((if b then s else t) w)
  either-Rests n true s t w h k = h
  either-Rests n false s t w h k = k

  compare-Rests :
      (n : ℕ) (p : Option EventCursor) (r : Outcome IndexerError String) (w : Indexer)
      → w.stored.events ≡ []
      → Rests n (and_then r (compare_hashes env n p) w)
  unfolding pure attempt
  compare-Rests n p (done h) w e =
      either-Rests n (is_same_block_hash env.lower_case h (or_default (stored_hash p) "")) (pure n)
        (attempt (rollback_to_common_ancestor env n) (defer_rollback env n)) w (refl, e)
        (recovered-Rests n (rollback_to_common_ancestor env n w) (rollback-Still n w e))
  compare-Rests n p (thrown h) w e = tt

  rollback_on_reorg-Rests :
      (n : ℕ) (w : Indexer) → w.stored.events ≡ [] → Rests n (rollback_on_reorg env n w)
  unfolding rollback_on_reorg pure observe ◌>>=◌
  rollback_on_reorg-Rests n w e = elim (asks (λ s. s.cursor) w) [
    | inl q ↦
        subst (Rests n)
          (sym (bind-stop (query env (λ s. s.cursor)) (check_continuity env n) w _ _ q)) tt
    | inr q ↦
        subst (Rests n)
          (sym (bind-step (query env (λ s. s.cursor)) (check_continuity env n) w _ _ q))
          (either-Rests n (has_no_hash env n w.stored.cursor) _ _ (ticked w) (refl, e)
            (compare-Rests n w.stored.cursor (env.block_hash (ticked w).tick (n - 1)) (ticked w) e))
  ]

  swept-nothing : (n : ℕ) (p : Option EventCursor) → swept n p [] ≡ []
  unfolding delete_events_after_block keep
  swept-nothing n none = refl
  swept-nothing n (some p) = ground arith

module _ (P : StoredEvent → Type 0) where
  All-appended :
      (new old : List StoredEvent) → All P new → All P old → All P (append_events new old)
  unfolding append_events append_event
  All-appended [] old h k = k
  All-appended (e ∷ new) old (h, hs) k = elim (Bool-cases (any (is_key_of e) old)) [
    | inl q ↦ simp q (All-appended new old hs k)
    | inr q ↦ simp q (All-appended new (old ++ e ∷ []) hs (All-++ P old (e ∷ []) k (h, tt)))
  ]

module _ (env : Source) (c : Fork) (kc : IsFork c) (reads : Reads env c) (n : ℕ) where
  abbrev IsLate : StoredEvent → Type 0
  IsLate e = n ≤ e.block_number

  abbrev Late : Outcome IndexerError (Unit {0}) × Indexer → Type 0
  Late x = x.0 ≡ done tt → All IsLate x.1.stored.events

  appended-Late :
      (j : ℕ) (v : Indexer)
      → v.stored.events ≡ []
      → All IsLate (transact env (append_stored n (blocks c n j)) v).1.stored.events
  unfolding transact append_stored
  appended-Late j v e = elim (Bool-cases (env.store_fails v.tick)) [
    | inl q ↦ simp q (subst (All IsLate) (sym e) tt)
    | inr q ↦ simp q (
        All-appended IsLate (blocks c n j) (swept n v.stored.cursor v.stored.events)
          (All-weaken (Within c n j) IsLate (blocks c n j) (λ x (low, high, hash, there). low)
            (blocks-Within c kc n j))
          (subst (λ es. All IsLate (swept n v.stored.cursor es)) (sym e)
            (subst (All IsLate) (sym (swept-nothing env n v.stored.cursor)) tt)))
  ]

  abbrev rest : ℕ → ℕ → Task (Unit {0})
  rest fin reported = cursor_block_hash env fin >>= λ hash.
      save_cursor_advancing_from env (next_cursor env (fin + 1) reported hash) n

  rest-Leaves : (fin reported : ℕ) → Leaves (rest fin reported)
  rest-Leaves fin reported =
      Leaves-bind _ _ (cursor_block_hash-Leaves env fin)
        λ hash. save-Leaves env (next_cursor env (fin + 1) reported hash) n

  read_on-Late :
      (fin reported : ℕ) (v : Indexer)
      → v.stored.events ≡ []
      → n ≤ fin
      → Late (read_on env n fin reported v)
  unfolding read_on observe ◌>>=◌
  read_on-Late fin reported v e more h =
      let j : ℕ = fin + 1 - n in
      let run : read_on env n fin reported v
          ≡ (transact env (append_stored n (blocks c n j)) >>= λ _. rest fin reported) v =
        bind-step (observe (λ t. env.read_events t n fin)) _ v v (blocks c n j) (
          ap (λ (x : Outcome IndexerError (List StoredEvent)). (x, v))
            (reads.events v.tick n j fin (omega (arith, more)))) in
      subst (λ (x : Outcome IndexerError (Unit {0}) × Indexer). All IsLate x.1.stored.events)
        (sym run)
        (subst (All IsLate)
          (sym (
            goes_on (transact env (append_stored n (blocks c n j)) v).0 (λ _. rest fin reported)
              (transact env (append_stored n (blocks c n j)) v).1 (λ _. rest-Leaves fin reported)))
          (appended-Late j v e))

  go_on-Late :
      (fin reported : ℕ) (v : Indexer) → v.stored.events ≡ [] → Late (go_on env fin n reported v)
  go_on-Late fin reported v e = split (ltb fin n) refl
    where
      split :
          (b : Bool)
          → ltb fin n ≡ b
          → Late ((if b then stay env n reported else read_on env n fin reported) v)
      split true q h = subst (All IsLate) (sym (stay-Leaves env n reported v ∙ e)) tt
      split false q h = read_on-Late fin reported v e (ltb→le fin n q) h

  after_rollback-Late :
      (fin : ℕ) (v : Indexer) → v.stored.events ≡ [] → Late (after_rollback env fin n v)
  unfolding after_rollback
  after_rollback-Late fin v e = elim (asks env (λ s. finalized_of s.cursor) v) [
    | inl q ↦
        subst Late (sym (bind-stop (query env (λ s. finalized_of s.cursor)) _ v _ _ q))
          (λ h. absurd (cc h))
    | inr q ↦ subst Late (sym (bind-step (query env (λ s. finalized_of s.cursor)) _ v _ _ q)) (
        go_on-Late fin
          (not_lowered (max_block_of (finalized_of v.stored.cursor) (finalized_of v.cursor)) fin)
          (ticked v) e)
  ]

  pub refresh_from-Late :
      (fin : ℕ) (w : Indexer) (p : EventCursor)
      → w.stored.events ≡ []
      → max_block p.next_block env.deployment_block ≡ n
      → Late (refresh_from env fin p w)
  unfolding refresh_from
  refresh_from-Late fin w p e at =
      bind-elim Late (rollback_on_reorg env (max_block p.next_block env.deployment_block))
        (after_rollback env fin) w (λ x v h. absurd (cc h))
        λ k v q.
          let (same, nothing) =
            subst (Rests env n) (ap (λ b. rollback_on_reorg env b w) (sym at) ∙ q)
              (rollback_on_reorg-Rests env n w e) in
          subst (λ b. Late (after_rollback env fin b v)) (sym same)
            (after_rollback-Late fin v nothing)

module _ (env : Source) (c : Fork) (kc : IsFork c) (reads : Reads env c) where
  unsynced :
      (fin m : ℕ) (w : Indexer) (p : EventCursor) (e : StoredEvent) (es : List StoredEvent)
      → w.stored.events ≡ []
      → p.next_block ≡ env.deployment_block + m
      → blocks c env.deployment_block m ≡ e ∷ es
      → (refresh_from env fin p w).0 ≡ done tt
      → (k : ℕ) (q : EventCursor) → p.next_block ≤ q.next_block
      → ¬ IsSynced env c (refresh_from env fin p w).1 k q
  unfolding max_block
  unsynced fin m w p e es none_stored next there h k q more synced =
      let dep : ℕ = env.deployment_block in
      let at : max_block p.next_block dep ≡ dep + m = ground (arith, next) in
      let late : All (IsLate env c kc reads (dep + m)) (blocks c dep k) =
        subst (All (IsLate env c kc reads (dep + m))) synced.events
          (refresh_from-Late env c kc reads (dep + m) fin w p none_stored at h) in
      let split : k ≡ m + (k - m) = omega (arith, next, more, synced.next) in
      let whole : blocks c dep k ≡ (e ∷ es) ++ blocks c (dep + m) (k - m) =
        ap (blocks c dep) split
        ∙ blocks-+ c dep m (k - m)
        ∙ ap (λ xs. xs ++ blocks c (dep + m) (k - m)) there in
      let (first_late, others) = subst (All (IsLate env c kc reads (dep + m))) whole late in
      let ((low, high, hash, present), rest) =
        subst (All (Within c dep m)) there (blocks-Within c kc dep m) in
      absurd (omega (arith, first_late, high))

  -- Let no event be stored, and let the chain that the source shows for the length of the refresh have
  -- an event between the deployment block and the cursor. A refresh from the cursor that returns, whether or not the hash of the block before the
  -- cursor has changed, stores only events from the cursor's block on; so no cursor at or past the
  -- old one is one up to which the store is synced with the chain.
  pub refresh_from-misses :
      (fin m : ℕ) (w : Indexer) (p : EventCursor) (e : StoredEvent) (es : List StoredEvent)
      → w.stored.events ≡ []
      → p.next_block ≡ env.deployment_block + m
      → blocks c env.deployment_block m ≡ e ∷ es
      → (refresh_from env fin p w).0 ≡ done tt
      → (k : ℕ) (q : EventCursor) → p.next_block ≤ q.next_block
      → All
          (λ (x : StoredEvent). p.next_block ≤ x.block_number)
          (refresh_from env fin p w).1.stored.events
        × ¬ IsSynced env c (refresh_from env fin p w).1 k q
  unfolding max_block
  refresh_from-misses fin m w p e es none_stored next there h k q more =
      let dep : ℕ = env.deployment_block in
      let at : max_block p.next_block dep ≡ dep + m = ground (arith, next) in
      let late : All (IsLate env c kc reads (dep + m)) (refresh_from env fin p w).1.stored.events =
        refresh_from-Late env c kc reads (dep + m) fin w p none_stored at h in
      (
        All-weaken (IsLate env c kc reads (dep + m)) _ _ (λ x low. omega (arith, low, next)) late,
        unsynced fin m w p e es none_stored next there h k q more,
      )
