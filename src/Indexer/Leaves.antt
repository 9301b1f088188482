-- ===== src/Indexer/Leaves.antt =====
-- The steps of a refresh that leave the stored events as they are.
use uvp_chain_services.Prelude.{
  Bool, ℕ, ◌≡◌, arith, ◌∙◌, refl, if◌then◌else◌, ltb, true, false, ◌-◌, or_else, some,
}
use Prim.Native.Nat.{ℕ}
use uvp_chain_services.Indexer.Store.{
  EventCursor, IndexerError, Stored, Indexer, Source, Task, query, transact, save_cursor, observe,
}
use uvp_chain_services.Indexer.Refresh.{
  save_cursor_advancing_from, after_saving, cursor_block_hash, stay, advance, set_cursor, returned,
  count_cas_failure,
}
use uvp_chain_services.Prelude.Exec.{Outcome, done, thrown, pure, and_then, ◌>>=◌}

-- a step that leaves the stored events as they are
abbrev pub Leaves : {A : Type 0} → Task A → Type 0
Leaves t = (w : Indexer) → (t w).1.stored.events ≡ w.stored.events

module _ {A B : Type 0} where
  pub goes_on :
      (r : Outcome IndexerError A) (g : A → Task B) (w : Indexer)
      → ((a : A) → Leaves (g a))
      → (and_then r g w).1.stored.events ≡ w.stored.events
  goes_on (done a) g w k = k a w
  goes_on (thrown e) g w k = refl

  pub Leaves-bind :
      (t : Task A) (g : A → Task B) → Leaves t → ((a : A) → Leaves (g a)) → Leaves (t >>= g)
  unfolding ◌>>=◌
  Leaves-bind t g h k w = goes_on (t w).0 g (t w).1 k ∙ h w

module _ (env : Source) where
  pub query-Leaves : {A : Type 0} (g : Stored → A) → Leaves (query env g)
  unfolding query
  query-Leaves g w = ground arith

  either-Leaves :
      {A : Type 0} (b : Bool) (s t : Task A) → Leaves s → Leaves t → Leaves (if b then s else t)
  either-Leaves true s t h k = h
  either-Leaves false s t h k = k

  pub cursor_block_hash-Leaves : (b : ℕ) → Leaves (cursor_block_hash env b)
  unfolding cursor_block_hash observe pure
  cursor_block_hash-Leaves b =
      either-Leaves env.has_hashes _ _ (Leaves-bind _ _ (λ w. refl) λ h w. refl) (λ w. refl)

  after_saving-Leaves : (q : EventCursor) (b : Bool) → Leaves (after_saving env q b)
  unfolding advance set_cursor count_cas_failure
  after_saving-Leaves q true w = refl
  after_saving-Leaves q false w =
      Leaves-bind (query env (λ s. s.cursor)) _ (query-Leaves (λ s. s.cursor))
        (λ current.
          Leaves-bind (set_cursor (or_else current (some q))) (λ _. count_cas_failure) (λ v. refl)
            (λ _ v. ground arith))
        w

  cas-Leaves : (q : EventCursor) (n : ℕ) → Leaves (transact env (λ s. returned (save_cursor q n s)))
  unfolding transact save_cursor
  cas-Leaves q n w = ground arith

  pub save-Leaves : (q : EventCursor) (n : ℕ) → Leaves (save_cursor_advancing_from env q n)
  unfolding save_cursor_advancing_from
  save-Leaves q n = Leaves-bind _ (after_saving env q) (cas-Leaves q n) (after_saving-Leaves q)

  pub stay-Leaves : (n reported : ℕ) → Leaves (stay env n reported)
  unfolding stay pure
  stay-Leaves n reported =
      Leaves-bind _ _ (either-Leaves (ltb 0 n) _ _ (cursor_block_hash-Leaves (n - 1)) (λ w. refl))
        λ h. save-Leaves _ n
