-- ===== src/Indexer/Tests.antt =====
-- A chain whose blocks from the second on are replaced, on which the theorems about refreshes are applied.
use uvp_chain_services.Indexer.Quiet.{refresh_from-misses}
use uvp_chain_services.Indexer.Reorg.{
  rollback_to_common_ancestor, common_ancestor, older_ancestor, anchors, newest_first,
  insert_newest_event, apply_reorg_rollback, roll_back_stored, no_ancestor, backtrack_floor,
  max_block, is_same_block_hash,
}
use uvp_chain_services.Indexer.Synced.{refresh_from-IsSynced}
use uvp_chain_services.Indexer.Mirrors.{IsSynced}
use uvp_chain_services.Indexer.Ancestors.{Reads}
use uvp_chain_services.Indexer.Refresh.{
  refresh_from, rollback_on_reorg, after_rollback, max_block_of, read_on, stay, append_stored,
  save_cursor_advancing_from, advance, cursor_block_hash, defer_rollback,
}
use uvp_chain_services.Prelude.{
  keep, any, truthy, present, some, ℕ, String, false, any, List, if◌then◌else◌, ◌≡◌, ◌≤◌, leb, inl,
  nat_eq, [], subst, ◌⊎◌, ◌∷◌, suc, sym, arith, Bool-cases, inr, zero, ap, refl, truthy, All, true,
  Bool, ◌==◌, ◌+◌, ◌<◌, ◌-◌, keep,
}
use Prim.Native.Nat.{ℕ, suc}
use Prim.Native.String.{String, []}
use uvp_chain_services.Prelude.Exec.{◌>>=◌, pure, attempt, done}
use uvp_chain_services.Indexer.Store.{
  StoredEvent, Source, Indexer, EventCursor, query, transact, append_events, append_event,
  delete_events_after_block, save_cursor, observe,
}
use uvp_chain_services.Indexer.Blocks.{Fork, IsFork, blocks, HasDistinctKeys}

abbrev registered : StoredEvent
registered = record { key = "log"; block_number = 1; block_hash = some "0xa"; removed = false }

abbrev at_one : ℕ → List StoredEvent
at_one b = if nat_eq b 1 then registered ∷ [] else []

-- one event in the first block, and a hash for the blocks after it
abbrev fork : String → Fork
fork tail = record { block = at_one; hash = λ b. if leb b 1 then "0xa" else tail }

module _ (tail : String) where
  later_blocks : (n from : ℕ) → 2 ≤ from → blocks (fork tail) from n ≡ []
  unfolding blocks
  later_blocks zero from h = refl
  later_blocks (suc n) from h =
      let e : nat_eq from 1 ≡ false = ground (arith, h) in
      simp e (later_blocks n (suc from) (omega (arith, h)))

  few_events :
      (n from : ℕ)
      → (blocks (fork tail) from n ≡ []) ⊎ (blocks (fork tail) from n ≡ registered ∷ [])
  unfolding blocks
  few_events zero from = inl refl
  few_events (suc n) from = elim (Bool-cases (nat_eq from 1)) [
    | inl e ↦ inr (simp e (ap (◌∷◌ registered) (later_blocks n (suc from) (ground (arith, e)))))
    | inr e ↦ simp e (few_events n (suc from))
  ]

  labels :
      (b : ℕ)
      → All
          (λ (e : StoredEvent).
            (e.block_number ≡ b)
            × (e.block_hash ≡ some (if leb b 1 then "0xa" else tail))
            × (e.removed ≡ false))
          (at_one b)
  labels b = elim (Bool-cases (nat_eq b 1)) [
    | inl e ↦
        let at : leb b 1 ≡ true = ground (arith, e) in
        simp (e, at) ((ground (arith, e), refl, refl), tt)
    | inr e ↦ simp e tt
  ]

  fork-IsFork : IsFork (fork tail)
  unfolding any
  fork-IsFork = record {
    labelled = labels;
    distinct = λ from n. elim (few_events n from) [
      | inl e ↦ subst HasDistinctKeys (sym e) tt
      | inr e ↦ subst HasDistinctKeys (sym e) (refl, tt)
    ];
  }

abbrev source : Source
source = record {
  block_hash = λ t b. done (if leb b 1 then "0xa" else "0xc");
  has_hashes = true;
  read_events = λ t from to. done (blocks (fork "0xc") from (to + 1 - from));
  lower_case = λ a. a;
  store_fails = λ n. false;
  deployment_block = 1;
}

source-Reads : Reads source (fork "0xc")
source-Reads = record {
  has_hashes = refl;
  hashes = λ t b. refl;
  not_blank = λ b. not_blank (leb b 1);
  events = λ t from n to h.
      let e : to + 1 - from ≡ n = omega (arith, h) in ap (λ k. done (blocks (fork "0xc") from k)) e;
}
  where
    not_blank : (b : Bool) → ((if b then "0xa" else "0xc") == "") ≡ false
    not_blank true = refl
    not_blank false = refl

abbrev stale : EventCursor
stale = record {
  deployment_block = 1;
  next_block = 4;
  finalized_block = some 3;
  block_hash = some "0xb";
}

abbrev before_refresh : Indexer
before_refresh = record {
  tick = 0;
  stored = record { events = registered ∷ []; cursor = some stale; snapshot_of = registered ∷ [] };
  cursor = some stale;
  consecutive_cursor_cas_failures = 0;
}

before-IsSynced : IsSynced source (fork "0xb") before_refresh 3 stale
unfolding blocks truthy
before-IsSynced = record {
  cursor = refl;
  next = refl;
  events = refl;
  snapshot = refl;
  hash = λ h. refl;
  has_hash = λ h. refl;
}

-- opens a refresh
opened : Unit {0}
unfolding refresh_from rollback_on_reorg query transact rollback_to_common_ancestor common_ancestor
    older_ancestor anchors newest_first insert_newest_event apply_reorg_rollback roll_back_stored
    no_ancestor backtrack_floor max_block is_same_block_hash after_rollback max_block_of read_on
    stay append_stored append_events append_event delete_events_after_block save_cursor
    save_cursor_advancing_from advance cursor_block_hash defer_rollback blocks keep any truthy
    present pure observe attempt ◌>>=◌
opened = tt

refreshed_returns : (refresh_from source 5 stale before_refresh).0 ≡ done tt
unfolding opened
refreshed_returns = refl

refreshed-IsSynced :
    (k : ℕ) × (q : EventCursor) × IsSynced source
      (fork "0xc")
      (refresh_from source 5 stale before_refresh).1
      k
      q
    × (5 < q.next_block)
    × ((refresh_from source 5 stale before_refresh).1.cursor ≡ some q)
refreshed-IsSynced =
    refresh_from-IsSynced source (fork "0xb") (fork "0xc") (fork-IsFork "0xb") (fork-IsFork "0xc")
      source-Reads (λ b k h less. refl) 5 3 before_refresh stale before-IsSynced
      (λ h. absurd (cc h)) refreshed_returns

abbrev before_quiet : Indexer
before_quiet = record before_refresh {
  stored = record { events = []; cursor = some stale; snapshot_of = [] };
}

abbrev after_quiet : EventCursor
after_quiet = record {
  deployment_block = 1;
  next_block = 6;
  finalized_block = some 5;
  block_hash = some "0xc";
}

quiet_returns : (refresh_from source 5 stale before_quiet).0 ≡ done tt
unfolding opened
quiet_returns = refl

first_blocks : blocks (fork "0xc") 1 3 ≡ registered ∷ []
unfolding blocks
first_blocks = refl

quiet_misses :
    All
      (λ (x : StoredEvent). 4 ≤ x.block_number)
      (refresh_from source 5 stale before_quiet).1.stored.events
    × ¬ IsSynced source (fork "0xc") (refresh_from source 5 stale before_quiet).1 5 after_quiet
quiet_misses =
    refresh_from-misses source (fork "0xc") (fork-IsFork "0xc") source-Reads 5 3 before_quiet stale
      registered [] refl refl first_blocks quiet_returns 5 after_quiet (omega arith)
