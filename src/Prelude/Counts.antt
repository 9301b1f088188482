-- ===== src/Prelude/Counts.antt =====
-- What is kept of a list, what is taken, and how much it is.
use Prim.Native.Nat.{ℕ, zero, suc, ◌≤◌}
use mathlib.Core.Path.{◌≡◌, refl}
use mathlib.Core.Logic.{inl, inr}
use mathlib.Core.Bool.{Bool, true}
use mathlib.Core.List.{List, [], ◌∷◌}
use native.Mathlib.Omega.{arith}
use uvp_chain_services.Prelude.Tests.{Bool-cases}
use uvp_chain_services.Prelude.Lists.{length, take, keep, All}

module _ {A : Type 0} where
  pub All-keep :
      (P : A → Type 0) (test : A → Bool) (xs : List A)
      → All P xs
      → All (λ x. (test x ≡ true) × P x) (keep test xs)
  unfolding keep
  All-keep P test [] h = tt
  All-keep P test (x ∷ xs) (h, hs) = elim (Bool-cases (test x)) [
    | inl e ↦ simp e ((refl, h), All-keep P test xs hs)
    | inr e ↦ simp e (All-keep P test xs hs)
  ]

  pub All-kept : (P : A → Type 0) (test : A → Bool) (xs : List A) → All P xs → All P (keep test xs)
  unfolding keep
  All-kept P test [] h = tt
  All-kept P test (x ∷ xs) (h, hs) = elim (Bool-cases (test x)) [
    | inl e ↦ simp e (h, All-kept P test xs hs)
    | inr e ↦ simp e (All-kept P test xs hs)
  ]

  pub All-take : (P : A → Type 0) (n : ℕ) (xs : List A) → All P xs → All P (take n xs)
  All-take P zero xs h = tt
  All-take P (suc n) [] h = tt
  All-take P (suc n) (x ∷ xs) (h, hs) = (h, All-take P n xs hs)

  module _ (p q : A → Bool) (less : (x : A) → q x ≡ true → p x ≡ true) where
    pub length-keep-le : (xs : List A) → length (keep q xs) ≤ length (keep p xs)
    unfolding keep
    length-keep-le [] = omega arith
    length-keep-le (x ∷ xs) = ground (arith, less x, length-keep-le xs)

    -- keeping as much with the narrower test means that the tests agree
    pub length-keep_agree :
        (xs : List A)
        → length (keep p xs) ≤ length (keep q xs)
        → All (λ x. p x ≡ true → q x ≡ true) xs
    unfolding keep
    length-keep_agree [] h = tt
    length-keep_agree (x ∷ xs) h = elim (Bool-cases (q x)) [
      | inl e ↦ (λ _. e, length-keep_agree xs (ground (arith, h, e, less x e)))
      | inr e ↦ elim (Bool-cases (p x)) [
        | inl e' ↦
            let small : suc (length (keep p xs)) ≤ length (keep q xs) = ground (arith, h, e, e') in
            absurd (omega (arith, small, length-keep-le xs))
        | inr e' ↦ (λ k. cc, length-keep_agree xs (ground (arith, h, e, e')))
      ]
    ]
