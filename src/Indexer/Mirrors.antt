-- ===== src/Indexer/Mirrors.antt =====
-- When the stored events are those of the canonical chain up to the cursor.
use uvp_chain_services.Prelude.{
  ◌≡◌, ℕ, some, [], ◌<◌, inl, refl, ◌-◌, ◌+◌, subst, true, sym, truthy, inr, ◌∙◌, or_default, ap,
  Option, String, Bool, if◌then◌else◌, arith, false, leb, Bool-cases, ◌≤◌,
}
use Prim.Native.Nat.{ℕ}
use uvp_chain_services.Indexer.Store.{
  EventCursor, IndexerError, config_error, external, reorg_cursor_moved, Indexer, Source, query,
  ticked, Task, observe,
}
use uvp_chain_services.Indexer.Blocks.{Fork, IsFork, blocks, blocks_agree}
use uvp_chain_services.Indexer.Reorg.{is_same_block_hash, rollback_to_common_ancestor}
use uvp_chain_services.Indexer.Refresh.{
  rollback_on_reorg, defer_rollback, check_continuity, compare_hashes, has_no_hash,
}
use uvp_chain_services.Indexer.Ancestors.{Reads, Linked}
use uvp_chain_services.Indexer.Rollback.{Mirrored, Post, queried, rollback-Post}
use uvp_chain_services.Prelude.Exec.{
  Outcome, done, thrown, recover_from, attempt, throw, pure, ◌>>=◌,
}
use uvp_chain_services.Prelude.Runs.{bind-step, bind-stop}

-- the stored events are those of a fork up to the cursor, the snapshots were built from them, and the
-- cursor has the hash of the block before it
pub record IsSynced (env : Source) (f : Fork) (w : Indexer) (m : ℕ) (p : EventCursor) : Type 0 where
  pub cursor : w.stored.cursor ≡ some p
  pub next : p.next_block ≡ env.deployment_block + m
  pub events : w.stored.events ≡ blocks f env.deployment_block m
  pub snapshot : w.stored.snapshot_of ≡ w.stored.events
  pub hash : 0 < m → p.block_hash ≡ some (f.hash (p.next_block - 1))
  pub has_hash : 0 < m → truthy p.block_hash ≡ true

-- Where nothing is stored, no reorganisation has reached the block before the cursor.
abbrev pub Calm : Source → Fork → Fork → Indexer → EventCursor → Type 0
Calm env f c w p =
    w.stored.events ≡ []
    → is_same_block_hash env.lower_case (c.hash (p.next_block - 1)) (f.hash (p.next_block - 1))
      ≡ true

module _ (env : Source) (f c : Fork) (kf : IsFork f) (reads : Reads env c)
    (linked : Linked env f c) where
  module _ (m : ℕ) where
    abbrev pub Good : Outcome IndexerError ℕ × Indexer → Type 0
    Good (done n, w) = Mirrored env f c kf reads linked m n w
    Good (thrown e, w) = Unit

    recovered-Good :
        (from : ℕ) (x : Outcome IndexerError ℕ × Indexer)
        → Post env f c kf reads linked m x
        → Good (recover_from x.0 (defer_rollback env from) x.1)
    unfolding defer_rollback throw
    recovered-Good from (done n, v) h = h
    recovered-Good from (thrown reorg_cursor_moved, v) h = absurd (h refl)
    recovered-Good from (thrown (config_error s), v) h = tt
    recovered-Good from (thrown (external s), v) h = tt

    module _ (w : Indexer) (p : EventCursor) (k : IsSynced env f w m p)
        (calm : Calm env f c w p) where
      unmoved :
          ((b : ℕ)
            → env.deployment_block ≤ b
            → b < env.deployment_block + m
            → f.block b ≡ c.block b)
          → Mirrored env f c kf reads linked m p.next_block (ticked w)
      unmoved h = (
        m,
        sym k.next,
        k.events ∙ blocks_agree f c env.deployment_block m h,
        p,
        k.cursor,
        refl,
        k.snapshot,
      )

      compared-Good :
          0 < m
          → Good (compare_hashes env p.next_block (some p) (c.hash (p.next_block - 1)) (ticked w))
      unfolding pure attempt
      compared-Good some_blocks = same-Good _ refl
        where
          stored_is : or_default p.block_hash "" ≡ f.hash (p.next_block - 1)
          stored_is = ap (λ (h : Option String). or_default h "") (k.hash some_blocks)

          same-Good :
              (same : Bool)
              → is_same_block_hash env.lower_case
                  (c.hash (p.next_block - 1))
                  (or_default p.block_hash "")
                ≡ same
              → Good (
                  (if same
                      then pure p.next_block
                      else attempt
                          (rollback_to_common_ancestor env p.next_block)
                          (defer_rollback env p.next_block))
                    (ticked w))
          same-Good true e = unmoved λ b low less.
              linked (p.next_block - 1) b
                (subst (λ h. is_same_block_hash env.lower_case (c.hash (p.next_block - 1)) h ≡ true)
                  stored_is e)
                (omega (arith, less, k.next))
          same-Good false e =
              recovered-Good p.next_block (rollback_to_common_ancestor env p.next_block (ticked w))
                (rollback-Post env f c kf reads linked m p.next_block (ticked w) k.events p k.cursor
                  refl λ none_stored. cc (e, calm none_stored, stored_is))

      abbrev rest : Task ℕ
      rest =
          observe (λ t. env.block_hash t (p.next_block - 1))
          >>= compare_hashes env p.next_block (some p)

      asked : (b : ℕ) → observe (λ t. env.block_hash t b) (ticked w) ≡ (done (c.hash b), ticked w)
      unfolding observe
      asked b =
          ap (λ (x : Outcome IndexerError String). (x, ticked w)) (reads.hashes (ticked w).tick b)

      none_yet :
          leb p.next_block env.deployment_block ≡ true
          → has_no_hash env p.next_block (some p) ≡ true
      none_yet e = ground (arith, e)

      some_yet :
          0 < m
          → leb p.next_block env.deployment_block ≡ false
          → has_no_hash env p.next_block (some p) ≡ false
      some_yet h e = simp (k.has_hash h, reads.has_hashes, e) refl

      checked-Good : Good (check_continuity env p.next_block (some p) (ticked w))
      unfolding pure
      checked-Good = elim (Bool-cases (leb p.next_block env.deployment_block)) [
        | inl e ↦
            subst (λ b. Good ((if b then pure p.next_block else rest) (ticked w)))
              (sym (none_yet e))
              (unmoved λ b low less. absurd (ground (arith, low, less, k.next, e)))
        | inr e ↦
            let some_blocks : 0 < m = ground (arith, e, k.next) in
            subst (λ b. Good ((if b then pure p.next_block else rest) (ticked w)))
              (sym (some_yet some_blocks e))
              (subst Good
                (sym (
                  bind-step (observe (λ t. env.block_hash t (p.next_block - 1)))
                    (compare_hashes env p.next_block (some p)) (ticked w) (ticked w)
                    (c.hash (p.next_block - 1)) (asked (p.next_block - 1))))
                (compared-Good some_blocks))
      ]

      pub rollback_on_reorg-Good : Good (rollback_on_reorg env p.next_block w)
      unfolding rollback_on_reorg
      rollback_on_reorg-Good = elim (queried env f c kf reads linked m (λ s. s.cursor) w) [
        | inl q ↦ subst Good (sym (bind-stop (query env (λ s. s.cursor)) _ w _ _ q)) tt
        | inr q ↦
            subst Good
              (sym
                (bind-step (query env (λ s. s.cursor)) (check_continuity env p.next_block) w _ _ q))
              (subst (λ s. Good (check_continuity env p.next_block s (ticked w))) (sym k.cursor)
                checked-Good)
      ]
