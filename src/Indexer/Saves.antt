-- ===== src/Indexer/Saves.antt =====
-- Saving the cursor at the end of a refresh, with the hash of the block before it.
use uvp_chain_services.Prelude.{
  present, truthy, ℕ, Option, some, ◌≡◌, ◌<◌, String, ap, true, subst, refl, ◌+◌, if◌then◌else◌,
  sym, ◌∙◌, ◌-◌, arith, inl, ltb, none, inr, Bool-cases,
}
use Prim.Native.Nat.{ℕ}
use uvp_chain_services.Indexer.Store.{
  EventCursor, IndexerError, Indexer, Source, transact, save_cursor, is_at, observe,
}
use uvp_chain_services.Indexer.Blocks.{Fork, IsFork, blocks}
use uvp_chain_services.Indexer.Refresh.{
  stay, save_cursor_advancing_from, advance, cursor_block_hash, returned, after_saving, next_cursor,
}
use uvp_chain_services.Indexer.Ancestors.{Reads, Linked}
use uvp_chain_services.Indexer.Rollback.{Mirrored, transacted}
use uvp_chain_services.Indexer.Mirrors.{IsSynced}
use uvp_chain_services.Prelude.Exec.{Outcome, done, thrown, pure}
use uvp_chain_services.Prelude.Runs.{bind-step, bind-stop}

module _ (env : Source) (f c : Fork) (kf : IsFork f) (kc : IsFork c) (reads : Reads env c)
    (linked : Linked env f c) where
  abbrev dep : ℕ
  dep = env.deployment_block

  -- what a refresh up to a block has done where it returns
  abbrev pub Refreshed : ℕ → Outcome IndexerError (Unit {0}) × Indexer → Type 0
  Refreshed fin (done u, w) =
      (k : ℕ) × (p : EventCursor) × IsSynced env c w k p
      × (fin < p.next_block)
      × (w.cursor ≡ some p)
  Refreshed fin (thrown e, w) = Unit

  not_blank : (b : ℕ) → truthy (some (c.hash b)) ≡ true
  unfolding truthy
  not_blank b = simp (reads.not_blank b) refl

  module _ (fin n : ℕ) (v : Indexer) (p : EventCursor) (at : v.stored.cursor ≡ some p)
      (here : p.next_block ≡ n) where
    writes :
        (q : EventCursor)
        → returned (save_cursor q n v.stored) ≡ (done true, record (v.stored) { cursor = some q })
    unfolding save_cursor
    writes q =
        let r : is_at n v.stored.cursor ≡ true = ap (is_at n) at ∙ ground (arith, here) in
        simp r refl

    pub saved :
        (q : EventCursor) (k : ℕ)
        → q.next_block ≡ dep + k
        → v.stored.events ≡ blocks c dep k
        → v.stored.snapshot_of ≡ v.stored.events
        → (0 < k → q.block_hash ≡ some (c.hash (q.next_block - 1)))
        → fin < q.next_block
        → Refreshed fin (save_cursor_advancing_from env q n v)
    unfolding save_cursor_advancing_from advance
    saved q k next events snapshot hash less =
        elim (transacted env f c kf reads linked 0 (λ s. returned (save_cursor q n s)) v true
          (record (v.stored) { cursor = some q }) (writes q)) [
            | inl t ↦
                subst (Refreshed fin)
                  (sym (
                    bind-stop (transact env (λ s. returned (save_cursor q n s)))
                      (after_saving env q) v _ _ t))
                  tt
            | inr t ↦
                subst (Refreshed fin)
                  (sym (
                    bind-step (transact env (λ s. returned (save_cursor q n s)))
                      (after_saving env q) v _ true t))
                  (
                    k,
                    q,
                    record {
                      cursor = refl;
                      next = next;
                      events = events;
                      snapshot = snapshot;
                      hash = hash;
                      has_hash = λ some_blocks.
                          subst (λ h. truthy h ≡ true) (sym (hash some_blocks))
                            (not_blank (q.next_block - 1));
                    },
                    less,
                    refl,
                  )
          ]

  kept_hash : (b : ℕ) → present (some (c.hash b)) ≡ some (c.hash b)
  unfolding present
  kept_hash b = simp (reads.not_blank b) refl

  pub hashed : (b : ℕ) (v : Indexer) → cursor_block_hash env b v ≡ (done (some (c.hash b)), v)
  unfolding cursor_block_hash present observe pure
  hashed b v = simp reads.has_hashes (
      bind-step (observe (λ t. env.block_hash t b)) (λ h. pure (present (some h))) v v (c.hash b)
        (ap (λ (x : Outcome IndexerError String). (x, v)) (reads.hashes v.tick b))
      ∙ ap (λ (h : Option String). (done h, v)) (kept_hash b))

  stay_hash :
      (n : ℕ) (v : Indexer)
      → (h : Option String) × ((if ltb 0 n then cursor_block_hash env (n - 1) else pure none) v
          ≡ (done h, v))
        × (0 < n → h ≡ some (c.hash (n - 1)))
  unfolding pure
  stay_hash n v = elim (Bool-cases (ltb 0 n)) [
    | inl e ↦ (some (c.hash (n - 1)), simp e (hashed (n - 1) v), λ _. refl)
    | inr e ↦ (none, simp e refl, λ more. absurd (ground (arith, e, more)))
  ]

  pub stay-Refreshed :
      (fin n reported : ℕ) (v : Indexer)
      → Mirrored env f c kf reads linked 0 n v
      → fin < n
      → Refreshed fin (stay env n reported v)
  unfolding stay
  stay-Refreshed fin n reported v (k, at, events, p, cursor, here, snapshot) less =
      let (h, run, is) = stay_hash n v in
      subst (Refreshed fin)
        (sym (
          bind-step (if ltb 0 n then cursor_block_hash env (n - 1) else pure none)
            (λ h. save_cursor_advancing_from env (next_cursor env n reported h) n) v v h run))
        (saved fin n v p cursor here (next_cursor env n reported h) k (sym at) events snapshot
          (λ some_blocks. is (omega (arith, at, some_blocks))) less)
