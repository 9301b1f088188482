-- ===== src/Indexer/Ancestors.antt =====
-- The search for a common ancestor, on two forks of the chain.
use uvp_chain_services.Prelude.{
  ℕ, ◌≡◌, List, Bool, some, String, Option, true, ◌≤◌, ◌+◌, ◌==◌, All, ◌<◌, false, none, ap, ◌∙◌,
  ◌∷◌, if◌then◌else◌, refl, [], Bool-cases, inl, inr, ltb, keep, All-kept,
}
use uvp_chain_services.Indexer.Store.{StoredEvent, IndexerError, Indexer, Source, Task, observe}
use uvp_chain_services.Indexer.Blocks.{Fork, IsFork, blocks, Within}
use uvp_chain_services.Indexer.Reorg.{
  Ancestor, is_same_block_hash, common_ancestor, older_ancestor, hash_agrees, or_else_ask, saw,
  newest_first, insert_newest_event, anchors, is_anchor,
}
use uvp_chain_services.Prelude.Exec.{Outcome, done, pure, ◌>>=◌}
use uvp_chain_services.Prelude.Runs.{bind-step}

-- What the source answers for a chain, whenever it is asked: its hashes, which are not empty, and its
-- events.
pub record Reads (env : Source) (c : Fork) : Type 0 where
  pub has_hashes : env.has_hashes ≡ true
  pub hashes : (t b : ℕ) → env.block_hash t b ≡ done (c.hash b)
  pub not_blank : (b : ℕ) → (c.hash b == "") ≡ false
  pub events :
      (t from n to : ℕ) → from + n ≡ to + 1 → env.read_events t from to ≡ done (blocks c from n)

-- A block's hash stands for the chain up to it: if two forks have the same hash for a block, they have
-- the same events up to it.
abbrev pub Linked : Source → Fork → Fork → Type 0
Linked env f c =
    (b k : ℕ)
    → is_same_block_hash env.lower_case (c.hash b) (f.hash b) ≡ true
    → k ≤ b
    → f.block k ≡ c.block k

module _ (env : Source) (f c : Fork) (kf : IsFork f) (reads : Reads env c) (linked : Linked env f c)
    (m : ℕ) where
  abbrev dep : ℕ
  dep = env.deployment_block

  -- an anchor is an event of the fork that was read
  abbrev pub Anchored : StoredEvent → Type 0
  Anchored e = Within f dep m e

  abbrev pub Shared : Ancestor → Type 0
  Shared (b, h) =
      (dep ≤ b) × (b < dep + m) × (is_same_block_hash env.lower_case (c.hash b) (f.hash b) ≡ true)

  abbrev pub Found : Option Ancestor → Type 0
  Found none = Unit
  Found (some a) = Shared a

  abbrev pub Finds : Task (Option Ancestor) → Type 0
  Finds t = (w : Indexer) → (r : Option Ancestor) × (t w ≡ (done r, w)) × Found r

  asked :
      (b : ℕ) (k : String → Task (Option Ancestor))
      → Finds (k (c.hash b))
      → Finds (observe (λ t. env.block_hash t b) >>= k)
  unfolding observe
  asked b k h w =
      let (r, e, found) = h w in
      (
        r,
        bind-step (observe (λ t. env.block_hash t b)) k w w (c.hash b)
              (ap (λ (x : Outcome IndexerError String). (x, w)) (reads.hashes w.tick b))
            ∙ e,
        found,
      )

  chosen :
      (same : Bool) (a : Ancestor) (rest : Task (Option Ancestor))
      → (same ≡ true → Shared a)
      → Finds rest
      → Finds (or_else_ask same a rest)
  unfolding pure
  chosen true a rest h k w = (some a, refl, h refl)
  chosen false a rest h k w = k w

  agreeing :
      (e : StoredEvent)
      → Anchored e
      → hash_agrees env (c.hash e.block_number) e.block_hash ≡ true
      → Shared (e.block_number, c.hash e.block_number)
  agreeing e (low, high, hash, there) h = (low, high, rw hash at h)

  either-Finds :
      (b : Bool) {s t : Task (Option Ancestor)} → Finds s → Finds t → Finds (if b then s else t)
  either-Finds true p q = p
  either-Finds false p q = q

  pub older_ancestor-Finds :
      (es : List StoredEvent) → All Anchored es → Finds (older_ancestor env es)
  unfolding older_ancestor pure
  older_ancestor-Finds [] h w = (none, refl, tt)
  older_ancestor-Finds (e ∷ es) (h, hs) w =
      asked e.block_number _ (chosen _ _ _ (agreeing e h) (older_ancestor-Finds es hs)) w

  pub common_ancestor-Finds :
      (seen : List ℕ) (es : List StoredEvent)
      → All Anchored es
      → Finds (common_ancestor env seen es)
  unfolding common_ancestor pure
  common_ancestor-Finds seen [] h w = (none, refl, tt)
  common_ancestor-Finds seen (e ∷ es) (h, hs) w =
      either-Finds (saw e.block_number seen) (common_ancestor-Finds seen es hs)
        (asked e.block_number _
          (chosen _ _ _ (agreeing e h) (common_ancestor-Finds (e.block_number ∷ seen) es hs)))
        w

  All-inserted :
      (P : StoredEvent → Type 0) (e : StoredEvent) (es : List StoredEvent)
      → P e
      → All P es
      → All P (insert_newest_event e es)
  unfolding insert_newest_event
  All-inserted P e [] h hs = (h, tt)
  All-inserted P e (d ∷ ds) h (k, ks) = elim (Bool-cases (ltb e.block_number d.block_number)) [
    | inl q ↦ simp q (k, All-inserted P e ds h ks)
    | inr q ↦ simp q (h, (k, ks))
  ]

  All-newest :
      (P : StoredEvent → Type 0) (es : List StoredEvent) → All P es → All P (newest_first es)
  unfolding newest_first
  All-newest P [] h = tt
  All-newest P (e ∷ es) (h, hs) = All-inserted P e (newest_first es) h (All-newest P es hs)

  pub anchors-Anchored :
      (floor from : ℕ) (es : List StoredEvent)
      → All Anchored es
      → All Anchored (anchors floor from es)
  unfolding anchors
  anchors-Anchored floor from es h =
      All-newest Anchored (keep (is_anchor floor from) es)
        (All-kept Anchored (is_anchor floor from) es h)
