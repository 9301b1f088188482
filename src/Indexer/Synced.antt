-- ===== src/Indexer/Synced.antt =====
-- The whole of a refresh from a cursor, and the canonical chain.
use uvp_chain_services.Indexer.Saves.{Refreshed, saved, hashed, stay-Refreshed}
use uvp_chain_services.Indexer.Reorg.{max_block}
use uvp_chain_services.Indexer.Appends.{append-blocks}
use uvp_chain_services.Prelude.{
  ℕ, some, ◌≡◌, ◌<◌, ◌≤◌, ap, true, subst, refl, ◌+◌, if◌then◌else◌, sym, ◌∙◌, ◌-◌, arith, inl, ltb,
  List, inr, Bool-cases, ◌&&◌, nat_eq, suc, Bool, ltb→lt, ltb→le, false,
}
use Prim.Native.Nat.{ℕ, suc}
use uvp_chain_services.Indexer.Store.{
  EventCursor, IndexerError, Indexer, Source, transact, StoredEvent, append_events,
  delete_events_after_block, Stored, query, ticked, observe,
}
use uvp_chain_services.Indexer.Blocks.{Fork, IsFork, blocks, delete-blocks}
use uvp_chain_services.Indexer.Refresh.{
  read_on, stay, save_cursor_advancing_from, cursor_block_hash, next_cursor, swept, append_stored,
  refresh_from, go_on, after_rollback, finalized_of, rollback_on_reorg, not_lowered, max_block_of,
}
use uvp_chain_services.Indexer.Ancestors.{Reads, Linked}
use uvp_chain_services.Indexer.Rollback.{Mirrored, transacted, queried}
use uvp_chain_services.Indexer.Mirrors.{IsSynced, Calm, Good, rollback_on_reorg-Good}
use uvp_chain_services.Prelude.Exec.{Outcome, done, thrown}
use uvp_chain_services.Prelude.Runs.{bind-step, bind-stop, bind-elim}

module _ (env : Source) (f c : Fork) (kf : IsFork f) (kc : IsFork c) (reads : Reads env c)
    (linked : Linked env f c) where
  abbrev dep : ℕ
  dep = env.deployment_block

  -- what a crash left behind is gone, and nothing else
  swept-blocks :
      (k n : ℕ) (events : List StoredEvent) (p : EventCursor)
      → dep + k ≡ n
      → events ≡ blocks c dep k
      → swept n (some p) events ≡ blocks c dep k
  swept-blocks k n events p at e = elim (Bool-cases (ltb 0 n && nat_eq p.next_block n)) [
    | inl q ↦
        let same : k ≡ k + 0 = omega arith in
        let before : dep + k ≡ n - 1 + 1 = ground (arith, at, q) in
        simp q (
          ap (delete_events_after_block (n - 1)) (e ∙ ap (blocks c dep) same)
          ∙ delete-blocks c kc dep k 0 (n - 1) before)
    | inr q ↦ simp q e
  ]

  read_on-Refreshed :
      (fin n reported : ℕ) (v : Indexer)
      → Mirrored env f c kf reads linked 0 n v
      → n ≤ fin
      → (Refreshed env f c kf kc reads linked) fin (read_on env n fin reported v)
  unfolding read_on append_stored observe
  read_on-Refreshed fin n reported v (k, at, events, p, cursor, here, snapshot) more =
      let j : ℕ = fin + 1 - n in
      let to : n + j ≡ fin + 1 = omega (arith, more) in
      let all : List StoredEvent =
        append_events (blocks c n j) (swept n v.stored.cursor v.stored.events) in
      let clean : swept n v.stored.cursor v.stored.events ≡ blocks c dep k =
        subst (λ s. swept n s v.stored.events ≡ blocks c dep k) (sym cursor)
          (swept-blocks k n v.stored.events p at events) in
      let whole : all ≡ blocks c dep (k + j) =
        ap (append_events (blocks c n j)) clean ∙ append-blocks c kc dep k j n at in
      let s : Stored = record (v.stored) { events = all; snapshot_of = all } in
      subst ((Refreshed env f c kf kc reads linked) fin)
        (sym (
          bind-step (observe (λ t. env.read_events t n fin)) _ v v (blocks c n j) (
            ap (λ (x : Outcome IndexerError (List StoredEvent)). (x, v))
              (reads.events v.tick n j fin to))))
        (elim (transacted env f c kf reads linked 0 (append_stored n (blocks c n j)) v tt s refl) [
          | inl t ↦
              subst ((Refreshed env f c kf kc reads linked) fin)
                (sym (bind-stop (transact env (append_stored n (blocks c n j))) _ v _ _ t)) tt
          | inr t ↦
              let v' : Indexer = record v { tick = suc v.tick; stored = s } in
              subst ((Refreshed env f c kf kc reads linked) fin)
                (sym (
                  bind-step (transact env (append_stored n (blocks c n j))) _ v v' tt t
                  ∙ bind-step (cursor_block_hash env fin)
                      (λ h. save_cursor_advancing_from env (next_cursor env (fin + 1) reported h) n)
                      v' v' _ ((hashed env f c kf kc reads linked) fin v')))
                ((saved env f c kf kc reads linked) fin n v' p cursor here
                  (next_cursor env (fin + 1) reported (some (c.hash fin))) (k + j)
                  (omega (arith, at, to)) whole refl (λ _. ap (λ b. some (c.hash b)) (omega arith))
                  (omega arith))
        ])

  go_on-Refreshed :
      (fin n reported : ℕ) (v : Indexer)
      → Mirrored env f c kf reads linked 0 n v
      → (Refreshed env f c kf kc reads linked) fin (go_on env fin n reported v)
  go_on-Refreshed fin n reported v h = split (ltb fin n) refl
    where
      split :
          (b : Bool)
          → ltb fin n ≡ b
          → (Refreshed env f c kf kc reads linked) fin
              ((if b then stay env n reported else read_on env n fin reported) v)
      split true e = (stay-Refreshed env f c kf kc reads linked) fin n reported v h (ltb→lt fin n e)
      split false e = read_on-Refreshed fin n reported v h (ltb→le fin n e)

  after_rollback-Refreshed :
      (fin n : ℕ) (v : Indexer)
      → Mirrored env f c kf reads linked 0 n v
      → (Refreshed env f c kf kc reads linked) fin (after_rollback env fin n v)
  unfolding after_rollback
  after_rollback-Refreshed fin n v h =
      elim (queried env f c kf reads linked 0 (λ s. finalized_of s.cursor) v) [
        | inl q ↦
            subst ((Refreshed env f c kf kc reads linked) fin)
              (sym (bind-stop (query env (λ s. finalized_of s.cursor)) _ v _ _ q)) tt
        | inr q ↦
            subst ((Refreshed env f c kf kc reads linked) fin)
              (sym (bind-step (query env (λ s. finalized_of s.cursor)) _ v _ _ q))
              (go_on-Refreshed fin n
                (not_lowered (max_block_of (finalized_of v.stored.cursor) (finalized_of v.cursor))
                  fin)
                (ticked v) h)
      ]

  refresh_from-Refreshed :
      (fin m : ℕ) (w : Indexer) (p : EventCursor)
      → IsSynced env f w m p
      → Calm env f c w p
      → (Refreshed env f c kf kc reads linked) fin (refresh_from env fin p w)
  unfolding refresh_from max_block
  refresh_from-Refreshed fin m w p k calm =
      bind-elim ((Refreshed env f c kf kc reads linked) fin)
        (rollback_on_reorg env (max_block p.next_block dep)) (after_rollback env fin) w (λ e v. tt)
        λ n v e. after_rollback-Refreshed fin n v (
          subst (Good env f c kf reads linked m)
            (ap (λ from. rollback_on_reorg env from w) (sym at_cursor) ∙ e)
            (rollback_on_reorg-Good env f c kf reads linked m w p k calm))
    where
      at_cursor : max_block p.next_block dep ≡ p.next_block
      at_cursor = ground (arith, k.next)

  returned_all :
      (fin : ℕ) (x : Outcome IndexerError (Unit {0}) × Indexer)
      → x.0 ≡ done tt
      → (Refreshed env f c kf kc reads linked) fin x
      → (k : ℕ) × (q : EventCursor) × IsSynced env c x.1 k q
        × (fin < q.next_block)
        × (x.1.cursor ≡ some q)
  returned_all fin (done u, v) h r = r
  returned_all fin (thrown e, v) h r = absurd (cc h)

  -- From a store that is synced with the fork that was read, a refresh that returns has read past the
  -- finalized block and leaves a store that is synced with the chain that the source now shows, and
  -- shows for the length of the refresh, whatever blocks a reorganisation replaced. A block's hash
  -- must stand for the blocks before it, no two events of the chain have one key, and where nothing is
  -- stored, the reorganisation has not reached the block before the cursor.
  pub refresh_from-IsSynced :
      (fin m : ℕ) (w : Indexer) (p : EventCursor)
      → IsSynced env f w m p
      → Calm env f c w p
      → (refresh_from env fin p w).0 ≡ done tt
      → (k : ℕ) × (q : EventCursor) × IsSynced env c (refresh_from env fin p w).1 k q
        × (fin < q.next_block)
        × ((refresh_from env fin p w).1.cursor ≡ some q)
  refresh_from-IsSynced fin m w p k calm h =
      returned_all fin (refresh_from env fin p w) h (refresh_from-Refreshed fin m w p k calm)
