-- ===== src/Prelude/Runs.antt =====
-- What a run of a block of `Exec` says of its parts.
use mathlib.Core.Path.{◌≡◌, refl, ap}
use mathlib.Core.Logic.{◌≢◌, ◌⊎◌, inl, inr}
use uvp_chain_services.Prelude.Exec.{Outcome, done, thrown, Exec, and_then, ◌>>=◌, throw, pure}

module _ {E W : Type 0} where
  module _ {A B : Type 0} where
    continued-done :
        (r : Outcome E A) (f : A → Exec E W B) (w : W) (b : B)
        → (and_then r f w).0 ≡ done b
        → (a : A) × (r ≡ done a) × (and_then r f w ≡ f a w)
    continued-done (done a) f w b h = (a, refl, refl)
    continued-done (thrown e) f w b h = absurd (cc)

    -- the value that the first part returned, and the run of the rest from there
    pub bind-done :
        (m : Exec E W A) (f : A → Exec E W B) (w : W) {b : B}
        → ((m >>= f) w).0 ≡ done b
        → (a : A) × ((m w).0 ≡ done a) × ((m >>= f) w ≡ f a (m w).1)
    unfolding ◌>>=◌
    bind-done m f w {b} h = continued-done (m w).0 f (m w).1 b h

    -- a block whose first part returned
    pub bind-step :
        (m : Exec E W A) (f : A → Exec E W B) (w w' : W) (a : A)
        → m w ≡ (done a, w')
        → (m >>= f) w ≡ f a w'
    unfolding ◌>>=◌
    bind-step m f w w' a h = ap (λ (y : Outcome E A × W). and_then y.0 f y.1) h

    -- a block whose first part threw
    pub bind-stop :
        (m : Exec E W A) (f : A → Exec E W B) (w w' : W) (e : E)
        → m w ≡ (thrown e, w')
        → (m >>= f) w ≡ (thrown e, w')
    unfolding ◌>>=◌
    bind-stop m f w w' e h = ap (λ (y : Outcome E A × W). and_then y.0 f y.1) h

    continued-cases :
        (r : Outcome E A) (f : A → Exec E W B) (w : W)
        → ((e : E) × (r ≡ thrown e) × (and_then r f w ≡ (thrown e, w)))
          ⊎ ((a : A) × (r ≡ done a) × (and_then r f w ≡ f a w))
    continued-cases (done a) f w = inr (a, refl, refl)
    continued-cases (thrown e) f w = inl (e, refl, refl)

    -- either the first part threw, and the block with it, or the rest runs
    pub bind-cases :
        (m : Exec E W A) (f : A → Exec E W B) (w : W)
        → ((e : E) × ((m w).0 ≡ thrown e) × ((m >>= f) w ≡ (thrown e, (m w).1)))
          ⊎ ((a : A) × ((m w).0 ≡ done a) × ((m >>= f) w ≡ f a (m w).1))
    unfolding ◌>>=◌
    bind-cases m f w = continued-cases (m w).0 f (m w).1

    -- a block that ends in a throw returns nothing
    pub bind-throw : (m : Exec E W A) (e : E) (w : W) {b : B} → ((m >>= λ _. throw e) w).0 ≢ done b
    unfolding throw
    bind-throw m e w h =
        let (a, p, q) = bind-done m (λ _. throw e) w h in
        cc (h, ap (λ (x : Outcome E B × W). x.0) q)

  -- such a block throws, and ends where its first part ended or threw
  pub bind-throw-cases :
      {A B : Type 0} (m : Exec E W A) (e : E) (w : W)
      → ((e' : E) × ((m >>= λ (_ : A). throw {A = B} e) w ≡ (thrown e', (m w).1)))
  unfolding throw
  bind-throw-cases {A} {B} m e w = elim (bind-cases m (λ (_ : A). throw {A = B} e) w) [
    | inl (e', h, q) ↦ (e', q)
    | inr (a, h, q) ↦ (e, q)
  ]

  -- the value of a run that ended in `pure`
  pub pure_value :
      {B : Type 0} (x : Outcome E B × W) (b c : B) (w : W) → x ≡ pure b w → x.0 ≡ done c → b ≡ c
  unfolding pure
  pure_value x b c w e h = cc (h, ap (λ (y : Outcome E _ × W). y.0) e)

  module _ {A : Type 0} where
    -- the value at the end of a block
    pub returned :
        {B : Type 0} (m : Exec E W A) (b c : B) (w : W) → ((m >>= λ _. pure b) w).0 ≡ done c → b ≡ c
    unfolding pure
    returned m b c w h =
        let (a, p, q) = bind-done m (λ _. pure b) w h in cc (h, ap (λ (x : Outcome E _ × W). x.0) q)

  module _ {A B : Type 0} (C : Outcome E B × W → Type 0) where
    continued-elim :
        (f : A → Exec E W B) (r : Outcome E A × W)
        → ((e : E) (w' : W) → C (thrown e, w'))
        → ((a : A) (w' : W) → r ≡ (done a, w') → C (f a w'))
        → C (and_then r.0 f r.1)
    continued-elim f (done a, w') bad good = good a w' refl
    continued-elim f (thrown e, w') bad good = bad e w'

    -- to prove something of the run of a block, prove it of a throw and of the rest of the block
    pub bind-elim :
        (m : Exec E W A) (f : A → Exec E W B) (w : W)
        → ((e : E) (w' : W) → C (thrown e, w'))
        → ((a : A) (w' : W) → m w ≡ (done a, w') → C (f a w'))
        → C ((m >>= f) w)
    unfolding ◌>>=◌
    bind-elim m f w bad good = continued-elim f (m w) bad good
