-- ===== src/Chain/Transitive.antt =====
-- Whether the comparison of chain facts is an order.
use uvp_chain_services.Prelude.{
  ◌≡◌, arith, String, Option, is_some, ℕ, ◌⊎◌, inl, or_default, refl, ◌<◌, true, inr, none, some,
  subst, sym,
}
use uvp_chain_services.Chain.Pointers.{
  Sign, difference, Pointer, or_then, compare_chain_pointers, index_difference,
}

-- a comparison that never goes round in a circle, and whose `same` is an equivalence it respects
pub record IsOrder {A : Type 0} (compare : A → A → Sign) : Type 0 where
  pub trans :
      (a b c : A)
      → compare a b ≡ Sign.before
      → compare b c ≡ Sign.before
      → compare a c ≡ Sign.before
  pub same_left :
      (a b c : A) → compare a b ≡ Sign.same → compare b c ≡ Sign.before → compare a c ≡ Sign.before
  pub same_right :
      (a b c : A) → compare a b ≡ Sign.before → compare b c ≡ Sign.same → compare a c ≡ Sign.before
  pub same_trans :
      (a b c : A) → compare a b ≡ Sign.same → compare b c ≡ Sign.same → compare a c ≡ Sign.same
  pub flip : (a b : A) → compare a b ≡ Sign.before → compare b a ≡ Sign.after
  pub flip_after : (a b : A) → compare a b ≡ Sign.after → compare b a ≡ Sign.before
  pub flip_same : (a b : A) → compare a b ≡ Sign.same → compare b a ≡ Sign.same

pub difference-IsOrder : IsOrder difference
difference-IsOrder = record {
  trans = λ a b c h h'. ground (arith, h, h');
  same_left = λ a b c h h'. ground (arith, h, h');
  same_right = λ a b c h h'. ground (arith, h, h');
  same_trans = λ a b c h h'. ground (arith, h, h');
  flip = λ a b h. ground (arith, h);
  flip_after = λ a b h. ground (arith, h);
  flip_same = λ a b h. ground (arith, h);
}

module _ {A B : Type 0} (key : A → B) where
  pub by_key-IsOrder : {f : B → B → Sign} → IsOrder f → IsOrder (λ a b. f (key a) (key b))
  by_key-IsOrder o = record {
    trans = λ a b c. o.trans (key a) (key b) (key c);
    same_left = λ a b c. o.same_left (key a) (key b) (key c);
    same_right = λ a b c. o.same_right (key a) (key b) (key c);
    same_trans = λ a b c. o.same_trans (key a) (key b) (key c);
    flip = λ a b. o.flip (key a) (key b);
    flip_after = λ a b. o.flip_after (key a) (key b);
    flip_same = λ a b. o.flip_same (key a) (key b);
  }

before_then :
    (s t : Sign)
    → or_then s t ≡ Sign.before
    → (s ≡ Sign.before) ⊎ ((s ≡ Sign.same) × (t ≡ Sign.before))
before_then Sign.before t h = inl refl
before_then Sign.same t h = inr (refl, h)
before_then Sign.after t h = cc

same_then : (s t : Sign) → or_then s t ≡ Sign.same → (s ≡ Sign.same) × (t ≡ Sign.same)
same_then Sign.before t h = cc
same_then Sign.same t h = (refl, h)
same_then Sign.after t h = cc

after_then :
    (s t : Sign)
    → or_then s t ≡ Sign.after
    → (s ≡ Sign.after) ⊎ ((s ≡ Sign.same) × (t ≡ Sign.after))
after_then Sign.before t h = cc
after_then Sign.same t h = inr (refl, h)
after_then Sign.after t h = inl refl

module _ {A : Type 0} {f g : A → A → Sign} (p : IsOrder f) (q : IsOrder g) where
  pub lexicographic-IsOrder : IsOrder (λ a b. or_then (f a b) (g a b))
  lexicographic-IsOrder = record {
    trans = λ a b c h h'. elim (before_then _ _ h) [
      | inl x ↦ elim (before_then _ _ h') [
        | inl y ↦ rw (p.trans a b c x y) refl
        | inr (y, y') ↦ rw (p.same_right a b c x y) refl
      ]
      | inr (x, x') ↦ elim (before_then _ _ h') [
        | inl y ↦ rw (p.same_left a b c x y) refl
        | inr (y, y') ↦ rw (p.same_trans a b c x y) (q.trans a b c x' y')
      ]
    ];
    same_left = λ a b c h h'.
        let (x, x') = same_then _ _ h in
        elim (before_then _ _ h') [
          | inl y ↦ rw (p.same_left a b c x y) refl
          | inr (y, y') ↦ rw (p.same_trans a b c x y) (q.same_left a b c x' y')
        ];
    same_right = λ a b c h h'.
        let (y, y') = same_then _ _ h' in
        elim (before_then _ _ h) [
          | inl x ↦ rw (p.same_right a b c x y) refl
          | inr (x, x') ↦ rw (p.same_trans a b c x y) (q.same_right a b c x' y')
        ];
    same_trans = λ a b c h h'.
        let (x, x') = same_then _ _ h in
        let (y, y') = same_then _ _ h' in rw (p.same_trans a b c x y) (q.same_trans a b c x' y');
    flip = λ a b h. elim (before_then _ _ h) [
      | inl x ↦ rw (p.flip a b x) refl
      | inr (x, x') ↦ rw (p.flip_same a b x) (q.flip a b x')
    ];
    flip_after = λ a b h. elim (after_then _ _ h) [
      | inl x ↦ rw (p.flip_after a b x) refl
      | inr (x, x') ↦ rw (p.flip_same a b x) (q.flip_after a b x')
    ];
    flip_same =
        λ a b h. let (x, x') = same_then _ _ h in rw (p.flip_same a b x) (q.flip_same a b x');
  }

-- the same comparison, with an unknown position read as 0
abbrev indexed : (String → String → Sign) → Pointer → Pointer → Sign
indexed locale a b = or_then (difference a.chain_id b.chain_id) (
    or_then (difference a.block_number b.block_number) (
      or_then (difference (or_default a.transaction_index 0) (or_default b.transaction_index 0)) (
        or_then (difference a.log_index b.log_index)
          (locale a.transaction_hash b.transaction_hash))))

indexed-IsOrder : {locale : String → String → Sign} → IsOrder locale → IsOrder (indexed locale)
indexed-IsOrder o =
    lexicographic-IsOrder (by_key-IsOrder (λ (a : Pointer). a.chain_id) difference-IsOrder) (
      lexicographic-IsOrder (by_key-IsOrder (λ (a : Pointer). a.block_number) difference-IsOrder) (
        lexicographic-IsOrder
          (by_key-IsOrder (λ (a : Pointer). or_default a.transaction_index 0) difference-IsOrder)
          (lexicographic-IsOrder (by_key-IsOrder (λ (a : Pointer). a.log_index) difference-IsOrder)
            (by_key-IsOrder (λ (a : Pointer). a.transaction_hash) o))))

-- the position of the transaction in its block is known
abbrev pub IsIndexed : Pointer → Type 0
IsIndexed a = is_some a.transaction_index ≡ true

index_known :
    (a b : Option ℕ)
    → is_some a ≡ true
    → is_some b ≡ true
    → index_difference a b ≡ difference (or_default a 0) (or_default b 0)
index_known (some a) (some b) h h' = refl
index_known none b h h' = cc
index_known (some a) none h h' = cc

compare_indexed :
    (locale : String → String → Sign) (a b : Pointer)
    → IsIndexed a
    → IsIndexed b
    → compare_chain_pointers locale a b ≡ indexed locale a b
unfolding compare_chain_pointers
compare_indexed locale a b h h' = rw (index_known _ _ h h') refl

IsOrder-same :
    {A : Type 0} {f g : A → A → Sign} → ((a b : A) → f a b ≡ g a b) → IsOrder f → IsOrder g
IsOrder-same {A} h o = subst IsOrder (λ i a b. h a b i) o

-- a pointer whose transaction's position is known
abbrev pub IndexedPointer : Type 0
IndexedPointer = (a : Pointer) × IsIndexed a

-- Among pointers that know their transaction's position, the comparison is an order, where the
-- locale's comparison of hashes is one.
pub compare_chain_pointers-IsOrder :
    {locale : String → String → Sign}
    → IsOrder locale
    → IsOrder (λ (a b : IndexedPointer). compare_chain_pointers locale a.0 b.0)
compare_chain_pointers-IsOrder {locale} o =
    IsOrder-same (λ a b. sym (compare_indexed locale a.0 b.0 a.1 b.1))
      (by_key-IsOrder (λ (a : IndexedPointer). a.0) (indexed-IsOrder o))

-- With one unknown position the comparison of pointers can go round in a circle: of three pointers in one block, let the
-- transaction of `b` precede that of `c`, let the logs of `c`, `a` and `b` come in this order, and let
-- the position of `a`'s transaction be unknown. Then `a` is before `b`, `b` before `c`, and `c` before
-- `a`.
pub compare_chain_pointers_circle :
    (locale : String → String → Sign) (chain block i j l m n : ℕ) (to x y z : String)
    → i < j
    → l < m
    → m < n
    → let at : Option ℕ → String → ℕ → Pointer = λ index hash log. record {
      chain_id = chain;
      contract_address = to;
      block_number = block;
      transaction_index = index;
      transaction_hash = hash;
      log_index = log;
    } in
      (compare_chain_pointers locale (at none x m) (at (some i) y n) ≡ Sign.before)
      × (compare_chain_pointers locale (at (some i) y n) (at (some j) z l) ≡ Sign.before)
      × (compare_chain_pointers locale (at (some j) z l) (at none x m) ≡ Sign.before)
unfolding compare_chain_pointers
compare_chain_pointers_circle locale chain block i j l m n to x y z h h' h'' =
    (ground (arith, h, h', h''), ground (arith, h, h', h''), ground (arith, h, h', h''))
