-- ===== src/Indexer/Rollback.antt =====
-- The stored events after a rollback.
use uvp_chain_services.Indexer.Ancestors.{
  Reads, Linked, Anchored, Shared, Found, older_ancestor-Finds, common_ancestor-Finds,
  anchors-Anchored,
}
use uvp_chain_services.Prelude.{
  ℕ, ◌≡◌, List, ◌≢◌, Bool, some, Option, true, ◌≤◌, ◌+◌, All, ◌<◌, false, none, ap, ◌∙◌, ◌∷◌,
  if◌then◌else◌, refl, [], Bool-cases, ◌-◌, inl, arith, inr, subst, sym, ◌⊎◌, suc, any,
}
use uvp_chain_services.Indexer.Store.{
  external, is_at, settled, StoredEvent, EventCursor, IndexerError, reorg_cursor_moved, Indexer,
  Source, transact, delete_events_after_block, Stored, save_cursor, external, ticked, settled,
  query, config_error,
}
use uvp_chain_services.Indexer.Blocks.{
  Fork, IsFork, blocks, delete-blocks, blocks_agree, blocks-Within,
}
use uvp_chain_services.Indexer.Reorg.{
  not_empty, Ancestor, is_same_block_hash, apply_reorg_rollback, common_ancestor, older_ancestor,
  max_block, roll_back_stored, rolled_back, to_ancestor, rollback_to_common_ancestor, no_ancestor,
  to_older, anchors, backtrack_floor, not_empty,
}
use uvp_chain_services.Prelude.Exec.{Outcome, done, thrown, pure, throw}
use uvp_chain_services.Prelude.Runs.{bind-stop, bind-step}

module _ (env : Source) (f c : Fork) (kf : IsFork f) (reads : Reads env c) (linked : Linked env f c)
    (m : ℕ) where
  abbrev dep : ℕ
  dep = env.deployment_block

  -- the stored events are those of the canonical chain up to a block, and the cursor is there
  abbrev pub Mirrored : ℕ → Indexer → Type 0
  Mirrored n w =
      (k : ℕ) × (dep + k ≡ n)
      × (w.stored.events ≡ blocks c dep k)
      × (p : EventCursor) × (w.stored.cursor ≡ some p)
      × (p.next_block ≡ n)
      × (w.stored.snapshot_of ≡ w.stored.events)

  abbrev pub Post : Outcome IndexerError ℕ × Indexer → Type 0
  Post (done n, w) = Mirrored n w
  Post (thrown e, w) = e ≢ reorg_cursor_moved

  abbrev rolled_stored : Ancestor → Stored → Stored
  rolled_stored a s =
      let remaining = delete_events_after_block a.0 s.events in
      record s { events = remaining; snapshot_of = remaining; cursor = some (rolled_back env a) }

  roll_back_stored-done :
      (from : ℕ) (a : Ancestor) (s : Stored) (p : EventCursor)
      → s.cursor ≡ some p
      → p.next_block ≡ from
      → roll_back_stored env from a s ≡ (done tt, rolled_stored a s)
  unfolding roll_back_stored save_cursor
  roll_back_stored-done from a s p at here =
      let q : is_at from s.cursor ≡ true = ap (is_at from) at ∙ ground (arith, here) in simp q refl

  -- the blocks that are left are those of the canonical chain
  left_over :
      (b : ℕ)
      → dep ≤ b
      → b < dep + m
      → is_same_block_hash env.lower_case (c.hash b) (f.hash b) ≡ true
      → delete_events_after_block b (blocks f dep m) ≡ blocks c dep (b + 1 - dep)
  left_over b low high same =
      let n : ℕ = b + 1 - dep in
      let at : dep + n ≡ b + 1 = omega (arith, low) in
      let split : m ≡ n + (m - n) = omega (arith, low, high) in
      ap (λ k. delete_events_after_block b (blocks f dep k)) split
      ∙ delete-blocks f kf dep n (m - n) b at
      ∙ blocks_agree f c dep n (λ k low less. linked b k same (omega (arith, less, at)))

  max_above : (b : ℕ) → dep ≤ b → max_block (b + 1) dep ≡ b + 1
  unfolding max_block
  max_above b h = ground (arith, h)

  pub queried :
      {A : Type 0} (g : Stored → A) (w : Indexer)
      → (query env g w ≡ (thrown (external "store"), ticked w))
        ⊎ (query env g w ≡ (done (g w.stored), ticked w))
  unfolding query
  queried g w = elim (Bool-cases (env.store_fails w.tick)) [
    | inl q ↦ inl (simp q refl)
    | inr q ↦ inr (simp q refl)
  ]

  pub transacted :
      {A : Type 0} (g : Stored → Outcome IndexerError A × Stored) (w : Indexer) (a : A) (s : Stored)
      → g w.stored ≡ (done a, s)
      → (transact env g w ≡ (thrown (external "store"), ticked w))
        ⊎ (transact env g w ≡ (done a, record w { tick = suc w.tick; stored = s }))
  unfolding transact
  transacted g w a s h = elim (Bool-cases (env.store_fails w.tick)) [
    | inl e ↦ inl (simp e refl)
    | inr e ↦ inr (simp e (ap (λ (x : Outcome IndexerError _ × Stored). settled x (ticked w)) h))
  ]

  -- rolled back to a block that the chain still has
  apply-Post :
      (from : ℕ) (a : Ancestor) (w : Indexer)
      → (Shared env f c kf reads linked m) a
      → w.stored.events ≡ blocks f dep m
      → (p : EventCursor) → w.stored.cursor ≡ some p
      → p.next_block ≡ from
      → Post (apply_reorg_rollback env from a w)
  unfolding apply_reorg_rollback transact max_block
  apply-Post from (b, h) w (low, high, same) e p at here =
      elim (transacted (roll_back_stored env from (b, h)) w tt _
        (roll_back_stored-done from (b, h) w.stored p at here)) [
          | inl t ↦
              subst Post
                (sym (bind-stop (transact env (roll_back_stored env from (b, h))) _ w _ _ t))
                (λ q. cc q)
          | inr t ↦
              subst Post
                (sym (bind-step (transact env (roll_back_stored env from (b, h))) _ w _ tt t))
                (
                  b + 1 - dep,
                  omega (arith, low, max_above b low),
                  ap (delete_events_after_block b) e ∙ left_over b low high same,
                  rolled_back env (b, h),
                  refl,
                  refl,
                  refl,
                )
        ]

  stops :
      (from : ℕ) (w : Indexer) (anchored stored : Bool)
      → stored ≡ true
      → Post (
          (if anchored
              then throw (config_error "full projection rebuild is required")
              else if stored
              then throw (config_error "stored events carry no block hashes")
              else pure from)
            w)
  unfolding throw
  stops from w true stored h = λ q. cc q
  stops from w false true h = λ q. cc q
  stops from w false false h = absurd (cc h)

  -- with events stored and no ancestor among them, the indexer stops
  no_ancestor-Post :
      (from : ℕ) (es : List StoredEvent) (w : Indexer)
      → es ≢ []
      → All (Anchored env f c kf reads linked m) es
      → Post (no_ancestor env from es w)
  unfolding no_ancestor any
  no_ancestor-Post from [] w n h = absurd (n refl)
  no_ancestor-Post from (e ∷ es) w n ((low, high, hash, there), hs) =
      stops from w (not_empty (anchors dep from (e ∷ es))) _ (simp there refl)

  module _ (from : ℕ) (w : Indexer) (e : w.stored.events ≡ blocks f dep m) (p : EventCursor)
      (at : w.stored.cursor ≡ some p) (here : p.next_block ≡ from)
      (some_stored : w.stored.events ≢ []) where
    stored-Anchored : All (Anchored env f c kf reads linked m) w.stored.events
    stored-Anchored =
        subst (All (Anchored env f c kf reads linked m)) (sym e) (blocks-Within f kf dep m)

    older-Post :
        (r : Option Ancestor)
        → (Found env f c kf reads linked m) r
        → (v : Indexer) → v.stored ≡ w.stored
        → Post (to_older env from w.stored.events r v)
    older-Post none h v s = no_ancestor-Post from w.stored.events v some_stored stored-Anchored
    older-Post (some a) h v s =
        apply-Post from a v h (ap (λ (t : Stored). t.events) s ∙ e) p
          (ap (λ (t : Stored). t.cursor) s ∙ at) here

    ancestor-Post :
        (r : Option Ancestor)
        → (Found env f c kf reads linked m) r
        → (v : Indexer) → v.stored ≡ w.stored
        → Post (to_ancestor env from w.stored.events r v)
    ancestor-Post (some a) h v s = older-Post (some a) h v s
    ancestor-Post none h v s =
        let (r, run, found) =
          (older_ancestor-Finds env f c kf reads linked m) (anchors dep from w.stored.events)
            ((anchors-Anchored env f c kf reads linked m) dep from w.stored.events stored-Anchored)
            v in
        subst Post
          (sym (bind-step (older_ancestor env (anchors dep from w.stored.events)) _ v v r run))
          (older-Post r found v s)

    pub rollback-Post : Post (rollback_to_common_ancestor env from w)
    unfolding rollback_to_common_ancestor
    rollback-Post = elim (queried (λ s. s.events) w) [
      | inl q ↦ subst Post (sym (bind-stop (query env (λ s. s.events)) _ w _ _ q)) (λ r. cc r)
      | inr q ↦
          let floor = backtrack_floor dep from in
          let (r, run, found) =
            (common_ancestor-Finds env f c kf reads linked m) []
              (anchors floor from w.stored.events)
              ((anchors-Anchored env f c kf reads linked m) floor from w.stored.events
                stored-Anchored)
              (ticked w) in
          subst Post
            (sym (
              bind-step (query env (λ s. s.events)) _ w _ _ q
              ∙ bind-step (common_ancestor env [] (anchors floor from w.stored.events)) _ (ticked w)
                  (ticked w) r run))
            (ancestor-Post r found (ticked w) refl)
    ]
