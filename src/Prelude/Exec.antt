-- ===== src/Prelude/Exec.antt =====
-- Asynchronous methods that read and change a world and may throw. What was written before a throw
-- stays written, so the world comes back beside the error too.

pub data Outcome {ℓ} (E A : Type ℓ) : Type ℓ where
  done : A → Outcome E A
  thrown : E → Outcome E A

abbrev pub Exec {ℓ} : Type ℓ → Type ℓ → Type ℓ → Type ℓ
Exec E W A = W → Outcome E A × W

module _ {ℓ} {E W A : Type ℓ} where
  unfoldable pub pure : A → Exec E W A
  pure a w = (done a, w)

  unfoldable pub throw : E → Exec E W A
  throw e w = (thrown e, w)

  unfoldable pub lift : Outcome E A → Exec E W A
  lift r w = (r, w)

  abbrev pub recover_from : Outcome E A → (E → Exec E W A) → Exec E W A
  recover_from (done a) handler w = (done a, w)
  recover_from (thrown e) handler w = handler e w

  -- `try { m } catch (error) { handler }`
  unfoldable pub attempt : Exec E W A → (E → Exec E W A) → Exec E W A
  attempt m handler w = let (r, w') = m w in recover_from r handler w'

module _ {ℓ} {E W A B : Type ℓ} where
  abbrev pub and_then : Outcome E A → (A → Exec E W B) → Exec E W B
  and_then (done a) f w = f a w
  and_then (thrown e) f w = (thrown e, w)

  infixl 10 ◌>>=◌ ◌>>◌
  -- opening this opens the other ways to build an action too
  unfoldable pub ◌>>=◌ : Exec E W A → (A → Exec E W B) → Exec E W B
  unfolding pure throw attempt lift
  ◌>>=◌ m f w = let (r, w') = m w in and_then r f w'

  abbrev pub ◌>>◌ : Exec E W A → Exec E W B → Exec E W B
  m >> n = m >>= λ _. n
