-- ===== src/Indexer/Blocks.antt =====
-- The events of a fork of the chain, block by block.
use uvp_chain_services.Indexer.Store.{StoredEvent, delete_events_after_block, is_key_of}
use uvp_chain_services.Prelude.{
  ℕ, String, List, zero, suc, [], ◌++◌, ◌+◌, All, ◌≤◌, ◌<◌, ◌≡◌, ◌∷◌, keep, some, any, ap, Bool,
  refl, Bool-cases, false, true, inl, inr, All-weaken, arith, leb, ◌∙◌, sym,
}

abbrev pub HasDistinctKeys : List StoredEvent → Type 0
HasDistinctKeys [] = Unit
HasDistinctKeys (e ∷ es) = (any (is_key_of e) es ≡ false) × HasDistinctKeys es

-- a fork: its events, block by block, and the hashes of its blocks
pub record Fork : Type 0 where
  pub block : ℕ → List StoredEvent
  pub hash : ℕ → String

-- the events of a number of blocks, from one on
unfoldable pub blocks : Fork → ℕ → ℕ → List StoredEvent
blocks f from zero = []
blocks f from (suc n) = f.block from ++ blocks f (suc from) n

-- the events of a block say so and carry its hash, and no two have one key
pub record IsFork (f : Fork) : Type 0 where
  pub labelled :
      (b : ℕ)
      → All
          (λ (e : StoredEvent).
            (e.block_number ≡ b) × (e.block_hash ≡ some (f.hash b)) × (e.removed ≡ false))
          (f.block b)
  pub distinct : (from n : ℕ) → HasDistinctKeys (blocks f from n)

keep-++ :
    {A : Type 0} (test : A → Bool) (xs ys : List A)
    → keep test (xs ++ ys) ≡ keep test xs ++ keep test ys
unfolding keep
keep-++ test [] ys = refl
keep-++ test (x ∷ xs) ys = elim (Bool-cases (test x)) [
  | inl e ↦ simp e (ap (◌∷◌ x) (keep-++ test xs ys))
  | inr e ↦ simp e (keep-++ test xs ys)
]

kept_whole :
    {A : Type 0} (test : A → Bool) (xs : List A) → All (λ x. test x ≡ true) xs → keep test xs ≡ xs
unfolding keep
kept_whole test [] h = refl
kept_whole test (x ∷ xs) (h, hs) = simp h (ap (◌∷◌ x) (kept_whole test xs hs))

keep_none :
    {A : Type 0} (test : A → Bool) (xs : List A) → All (λ x. test x ≡ false) xs → keep test xs ≡ []
unfolding keep
keep_none test [] h = refl
keep_none test (x ∷ xs) (h, hs) = simp h (keep_none test xs hs)

pub All-++ : {A : Type 0} (P : A → Type 0) (xs ys : List A) → All P xs → All P ys → All P (xs ++ ys)
All-++ P [] ys h k = k
All-++ P (x ∷ xs) ys (h, hs) k = (h, All-++ P xs ys hs k)

pub ++-assoc : {A : Type 0} (xs ys zs : List A) → (xs ++ ys) ++ zs ≡ xs ++ (ys ++ zs)
++-assoc [] ys zs = refl
++-assoc (x ∷ xs) ys zs = ap (◌∷◌ x) (++-assoc xs ys zs)

pub ++-[] : {A : Type 0} (xs : List A) → xs ++ [] ≡ xs
++-[] [] = refl
++-[] (x ∷ xs) = ap (◌∷◌ x) (++-[] xs)

module _ (f : Fork) where
  pub blocks-+ : (a m n : ℕ) → blocks f a (m + n) ≡ blocks f a m ++ blocks f (a + m) n
  unfolding blocks
  blocks-+ a zero n =
      let p : a ≡ a + zero = omega arith in
      let q : zero + n ≡ n = omega arith in λ i. blocks f (p i) (q i)
  blocks-+ a (suc m) n =
      let p : suc m + n ≡ suc (m + n) = omega arith in
      let q : suc a + m ≡ a + suc m = omega arith in
      ap (blocks f a) p
      ∙ ap (◌++◌ (f.block a))
          (blocks-+ (suc a) m n ∙ ap (λ b. blocks f (suc a) m ++ blocks f b n) q)
      ∙ sym (++-assoc (f.block a) (blocks f (suc a) m) (blocks f (a + suc m) n))

  -- an event of a run of blocks
  abbrev pub Within : ℕ → ℕ → StoredEvent → Type 0
  Within a n e =
      (a ≤ e.block_number)
      × (e.block_number < a + n)
      × (e.block_hash ≡ some (f.hash e.block_number))
      × (e.removed ≡ false)

  pub blocks-Within : IsFork f → (a n : ℕ) → All (Within a n) (blocks f a n)
  unfolding blocks
  blocks-Within k a zero = tt
  blocks-Within k a (suc n) =
      All-++ (Within a (suc n)) (f.block a) (blocks f (suc a) n)
        (All-weaken
          (λ (e : StoredEvent).
            (e.block_number ≡ a) × (e.block_hash ≡ some (f.hash a)) × (e.removed ≡ false))
          (Within a (suc n)) (f.block a)
          (λ e (at, hash, there). (
            omega (arith, at),
            omega (arith, at),
            hash ∙ ap (λ b. some (f.hash b)) (sym at),
            there,
          ))
          (k.labelled a))
        (All-weaken (Within (suc a) n) (Within a (suc n)) (blocks f (suc a) n)
          (λ e (low, high, hash, there). (omega (arith, low), omega (arith, high), hash, there))
          (blocks-Within k (suc a) n))

  -- removing the events after a block leaves the blocks up to it
  pub delete-blocks :
      IsFork f
      → (a m n b : ℕ) → a + m ≡ b + 1
      → delete_events_after_block b (blocks f a (m + n)) ≡ blocks f a m
  unfolding delete_events_after_block
  delete-blocks k a m n b h =
      ap (keep (λ (e : StoredEvent). leb e.block_number b)) (blocks-+ a m n)
      ∙ keep-++ (λ (e : StoredEvent). leb e.block_number b) (blocks f a m) (blocks f (a + m) n)
      ∙ (λ i. kept i ++ dropped i)
      ∙ ++-[] (blocks f a m)
    where
      kept : keep (λ (e : StoredEvent). leb e.block_number b) (blocks f a m) ≡ blocks f a m
      kept = kept_whole _ _ (
          All-weaken (Within a m) (λ (e : StoredEvent). leb e.block_number b ≡ true) (blocks f a m)
            (λ e (low, high, hash, there). ground (arith, high, h)) (blocks-Within k a m))

      dropped : keep (λ (e : StoredEvent). leb e.block_number b) (blocks f (a + m) n) ≡ []
      dropped = keep_none _ _ (
          All-weaken (Within (a + m) n) (λ (e : StoredEvent). leb e.block_number b ≡ false)
            (blocks f (a + m) n) (λ e (low, high, hash, there). ground (arith, low, h))
            (blocks-Within k (a + m) n))

-- two forks that have the same blocks up to one
pub blocks_agree :
    (f g : Fork) (a n : ℕ)
    → ((k : ℕ) → a ≤ k → k < a + n → f.block k ≡ g.block k)
    → blocks f a n ≡ blocks g a n
unfolding blocks
blocks_agree f g a zero h = refl
blocks_agree f g a (suc n) h =
    let here : f.block a ≡ g.block a = h a (omega arith) (omega arith) in
    let rest : blocks f (suc a) n ≡ blocks g (suc a) n =
      blocks_agree f g (suc a) n (λ k low less. h k (omega (arith, low)) (omega (arith, less))) in
    λ i. here i ++ rest i
