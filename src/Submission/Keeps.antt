-- ===== src/Submission/Keeps.antt =====
-- Invariants of actions: a property of the store and of the requests sent so far that an action
-- keeps, whether it returns or throws. One rule for each way to build an action.
pub mod Pieces
pub mod Whole
use uvp_chain_services.Prelude.{
  ℕ, suc, Bool-cases, inl, inr, Bool, true, false, List, ◌≡◌, refl, arith, if◌then◌else◌, String,
  ◌++◌, ◌∷◌, [],
}
use uvp_chain_services.Prelude.Exec.{
  Outcome, done, thrown, pure, throw, lift, attempt, recover_from, and_then, ◌>>=◌,
}
use uvp_chain_services.Submission.Types.{Broadcast}
use uvp_chain_services.Submission.Store.{Store}
use uvp_chain_services.Submission.World.{
  Error, BroadcastRequest, AuditEvent, Env, World, Action, ask, call_store, write, read,
  record_audit, transaction, commit, send, Config, broadcast_outcome,
}

abbrev pub Property : Type 1
Property = Store → List BroadcastRequest → Type 0

pub record Keeps {A : Type 0} (P : Property) (m : Action A) : Type 0 where
  pub at : (w : World) → P w.store w.broadcasts → P (m w).1.store (m w).1.broadcasts

module _ {A : Type 0} {P : Property} where
  pub Keeps-pure : (a : A) → Keeps P (pure a)
  unfolding pure
  Keeps-pure a = record { at = λ w h. h }

  pub Keeps-throw : (e : Error) → Keeps {A = A} P (throw e)
  unfolding throw
  Keeps-throw e = record { at = λ w h. h }

  pub Keeps-lift : (r : Outcome Error A) → Keeps P (lift r)
  unfolding lift
  Keeps-lift r = record { at = λ w h. h }

  pub Keeps-ask : (f : ℕ → A) → Keeps P (ask f)
  unfolding ask
  Keeps-ask f = record { at = λ w h. h }

  pub Keeps-if : (b : Bool) (m n : Action A) → Keeps P m → Keeps P n → Keeps P (if b then m else n)
  Keeps-if true m n km kn = km
  Keeps-if false m n km kn = kn

  pub Keeps-read : (env : Env) (f : Store → A) → Keeps P (read env f)
  unfolding read
  Keeps-read env f = record { at = λ w h. ground (arith, h) }

  recovered :
      (r : Outcome Error A) (handler : Error → Action A)
      → ((e : Error) → Keeps P (handler e))
      → (w : World) → P w.store w.broadcasts
      → P (recover_from r handler w).1.store (recover_from r handler w).1.broadcasts
  recovered (done a) handler k w h = h
  recovered (thrown e) handler k w h = (k e).at w h

  pub Keeps-attempt :
      (m : Action A) (handler : Error → Action A)
      → Keeps P m
      → ((e : Error) → Keeps P (handler e))
      → Keeps P (attempt m handler)
  unfolding attempt
  Keeps-attempt m handler km kh = record {
    at = λ w h. recovered (m w).0 handler kh (m w).1 (km.at w h);
  }

module _ {A B : Type 0} {P : Property} where
  continued :
      (r : Outcome Error A) (f : A → Action B)
      → ((a : A) → r ≡ done a → Keeps P (f a))
      → (w : World) → P w.store w.broadcasts
      → P (and_then r f w).1.store (and_then r f w).1.broadcasts
  continued (done a) f k w h = (k a refl).at w h
  continued (thrown e) f k w h = h

  pub Keeps-bind :
      (m : Action A) (f : A → Action B) → Keeps P m → ((a : A) → Keeps P (f a)) → Keeps P (m >>= f)
  unfolding ◌>>=◌
  Keeps-bind m f km kf = record {
    at = λ w h. continued (m w).0 f (λ a _. kf a) (m w).1 (km.at w h);
  }

module _ (P : Property) where
  committed :
      (env : Env) (s : Store) (r : Outcome Error (Unit {0})) (w : World)
      → ((l : List BroadcastRequest) → P w.store l → P s l)
      → P w.store w.broadcasts
      → P (commit env s r w).1.store (commit env s r w).1.broadcasts
  committed env s (thrown e) w back h = back w.broadcasts h
  committed env s (done a) w back h = ground (arith, h, back w.broadcasts h)

  sent :
      (r : Outcome String Broadcast) (w : World)
      → P w.store w.broadcasts
      → P (broadcast_outcome r w).1.store (broadcast_outcome r w).1.broadcasts
  sent (done b) w h = h
  sent (thrown t) w h = h

module _ {P : Property} where
  pub Keeps-record_audit : (env : Env) (event : AuditEvent) → Keeps P (record_audit env event)
  unfolding record_audit
  Keeps-record_audit env event = record { at = λ w h. ground (arith, h) }

  pub Keeps-write :
      (env : Env) (f : Store → Store)
      → ((s : Store) (l : List BroadcastRequest) → P s l → P (f s) l)
      → Keeps P (write env f)
  unfolding write
  Keeps-write env f k = record { at = λ w h. ground (arith, h, k w.store w.broadcasts) }

  pub Keeps-call_store :
      {A : Type 0} (env : Env) (f : Store → A × Store)
      → ((s : Store) (l : List BroadcastRequest) → P s l → P (f s).1 l)
      → Keeps P (call_store env f)
  unfolding call_store
  Keeps-call_store env f k = record { at = λ w h. ground (arith, h, k w.store w.broadcasts) }

  -- a rollback puts back the store of before, beside the requests that were sent since
  pub Keeps-transaction :
      (cfg : Config) (env : Env) (m : Action (Unit {0}))
      → ((s s' : Store) (l l' : List BroadcastRequest) → P s l → P s' l' → P s l')
      → Keeps P m
      → Keeps P (transaction cfg env m)
  unfolding transaction
  Keeps-transaction cfg env m back km = record {
    at = λ w h. elim (Bool-cases cfg.has_transaction) [
      | inl e ↦ rw e (
          committed P env w.store (m w).0 (m w).1 (λ l k. back w.store (m w).1.store _ l h k)
            (km.at w h))
      | inr e ↦ rw e (km.at w h)
    ];
  }

  pub Keeps-send :
      (env : Env) (request : BroadcastRequest)
      → ((s : Store) (l : List BroadcastRequest) → P s l → P s (l ++ request ∷ []))
      → Keeps P (send env request)
  unfolding send
  Keeps-send env request k = record {
    at = λ w h.
        sent P (env.broadcast w.tick request)
          (record w { tick = suc w.tick; broadcasts = w.broadcasts ++ request ∷ [] })
          (k w.store w.broadcasts h);
  }

pub ruleset keeps_rules = (
  Keeps-pure, Keeps-throw, Keeps-lift, Keeps-ask, Keeps-if, Keeps-read, Keeps-attempt, Keeps-bind,
  Keeps-record_audit,
)
