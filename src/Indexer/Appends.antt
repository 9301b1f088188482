-- ===== src/Indexer/Appends.antt =====
-- Appending events whose keys are new.
use uvp_chain_services.Prelude.{
  List, ℕ, any, ◌++◌, ◌+◌, ◌∷◌, ◌≡◌, ◌∙◌, false, sym, arith, ap, subst, eq_iff, [], refl,
}
use Prim.Native.Nat.{ℕ}
use uvp_chain_services.Indexer.Store.{StoredEvent, append_event, append_events, is_key_of}
use uvp_chain_services.Indexer.Blocks.{
  Fork, IsFork, blocks, blocks-+, HasDistinctKeys, ++-[], ++-assoc,
}

new_key :
    (e : StoredEvent) (old new : List StoredEvent)
    → HasDistinctKeys (old ++ e ∷ new)
    → any (is_key_of e) old ≡ false
unfolding any
new_key e [] new h = refl
new_key e (x ∷ old) new (h, hs) = simp (not_same x e (other x old h), new_key e old new hs) refl
  where
    not_same : (a b : StoredEvent) → is_key_of a b ≡ false → is_key_of b a ≡ false
    not_same a b h = ground (arith, h, eq_iff b.key a.key, eq_iff a.key b.key)

    other :
        (a : StoredEvent) (xs : List StoredEvent)
        → any (is_key_of a) (xs ++ e ∷ new) ≡ false
        → is_key_of a e ≡ false
    other a [] h = ground (arith, h)
    other a (y ∷ ys) h = other a ys (ground (arith, h))

pub append-distinct :
    (new old : List StoredEvent) → HasDistinctKeys (old ++ new) → append_events new old ≡ old ++ new
unfolding append_events append_event
append-distinct [] old h = sym (++-[] old)
append-distinct (e ∷ new) old h =
    let next : old ++ e ∷ new ≡ (old ++ e ∷ []) ++ new = sym (++-assoc old (e ∷ []) new) in
    simp (new_key e old new h)
      (append-distinct new (old ++ e ∷ []) (subst HasDistinctKeys next h) ∙ sym next)

-- the next blocks of a fork are put after its first ones
pub append-blocks :
    (f : Fork)
    → IsFork f
    → (a m n from : ℕ) → a + m ≡ from
    → append_events (blocks f from n) (blocks f a m) ≡ blocks f a (m + n)
append-blocks f k a m n from h =
    let at : blocks f a (m + n) ≡ blocks f a m ++ blocks f from n =
      blocks-+ f a m n ∙ ap (λ b. blocks f a m ++ blocks f b n) h in
    append-distinct (blocks f from n) (blocks f a m)
      (subst HasDistinctKeys at (k.distinct a (m + n)))
    ∙ sym at
