-- ===== src/Reconcile/Keeps.antt =====
-- Properties of the stored submissions and logs that a part of the worker keeps, whether it returns or throws.
use uvp_chain_services.Prelude.{
  ℕ, String, Bool, true, false, Option, List, none, some, arith, Dict, if◌then◌else◌,
}
use uvp_chain_services.Prelude.Exec.{
  Outcome, done, thrown, pure, attempt, recover_from, and_then, ◌>>=◌,
}
use uvp_chain_services.Submission.Types.{Submission}
use uvp_chain_services.Submission.World.{Error, BindRequest}
use uvp_chain_services.Reconcile.Types.{TxLog, Resolved, Provenance, Receipt}
use uvp_chain_services.Reconcile.World.{
  Sources, Books, Work, WorkerAudit, Summary, consult, clock, look, change, tally_up, audit,
  bind_evidence,
}
use uvp_chain_services.Reconcile.Outcome.{
  resolve_outcome, overdue, by_projection, by_receipt, by_status, after_success,
}

abbrev pub OfRows : Type 1
OfRows = Dict Submission → List TxLog → Summary → Type 0

abbrev pub At : OfRows → Books → Type 0
At P w = P w.store.submissions w.logs w.summary

pub record Holds {A : Type 0} (P : OfRows) (m : Work A) : Type 0 where
  pub at : (w : Books) → At P w → At P (m w).1

module _ {A : Type 0} {P : OfRows} where
  pub Holds-pure : (a : A) → Holds P (pure a)
  unfolding pure
  Holds-pure a = record { at = λ w h. h }

  pub Holds-consult : (f : ℕ → Outcome Error A) → Holds P (consult f)
  unfolding consult
  Holds-consult f = record { at = λ w h. h }

  pub Holds-look : (env : Sources) (f : Books → A) → Holds P (look env f)
  unfolding look
  Holds-look env f = record { at = λ w h. ground (arith, h) }

  pub Holds-if : (b : Bool) (m n : Work A) → Holds P m → Holds P n → Holds P (if b then m else n)
  Holds-if true m n km kn = km
  Holds-if false m n km kn = kn

  recovered :
      (r : Outcome Error A) (handler : Error → Work A)
      → ((e : Error) → Holds P (handler e))
      → (w : Books) → At P w
      → At P (recover_from r handler w).1
  recovered (done a) handler k w h = h
  recovered (thrown e) handler k w h = (k e).at w h

  pub Holds-attempt :
      (m : Work A) (handler : Error → Work A)
      → Holds P m
      → ((e : Error) → Holds P (handler e))
      → Holds P (attempt m handler)
  unfolding attempt
  Holds-attempt m handler km kh = record {
    at = λ w h. recovered (m w).0 handler kh (m w).1 (km.at w h);
  }

module _ {A B : Type 0} {P : OfRows} where
  continued :
      (r : Outcome Error A) (f : A → Work B)
      → ((a : A) → Holds P (f a))
      → (w : Books) → At P w
      → At P (and_then r f w).1
  continued (done a) f k w h = (k a).at w h
  continued (thrown e) f k w h = h

  pub Holds-bind :
      (m : Work A) (f : A → Work B) → Holds P m → ((a : A) → Holds P (f a)) → Holds P (m >>= f)
  unfolding ◌>>=◌
  Holds-bind m f km kf = record { at = λ w h. continued (m w).0 f kf (m w).1 (km.at w h) }

module _ {P : OfRows} where
  pub Holds-clock : (env : Sources) → Holds P (clock env)
  unfolding clock
  Holds-clock env = record { at = λ w h. h }

  pub Holds-change :
      (env : Sources) (f : Books → Books)
      → ((w : Books) → At P w → At P (f w))
      → Holds P (change env f)
  unfolding change
  Holds-change env f k = record { at = λ w h. ground (arith, h, k w) }

  pub Holds-tally_up :
      (f : Summary → Summary)
      → ((w : Books) → At P w → At P (record w { summary = f w.summary }))
      → Holds P (tally_up f)
  unfolding tally_up
  Holds-tally_up f k = record { at = k }

  pub Holds-audit : (env : Sources) (event : WorkerAudit) → Holds P (audit env event)
  unfolding audit
  Holds-audit env event = record { at = λ w h. ground (arith, h) }

  pub Holds-bind_evidence : (env : Sources) (r : BindRequest) → Holds P (bind_evidence env r)
  unfolding bind_evidence
  Holds-bind_evidence env r = record { at = λ w h. ground (arith, h) }

pub ruleset holds_rules = (
  Holds-pure, Holds-consult, Holds-look, Holds-if, Holds-attempt, Holds-bind, Holds-clock,
  Holds-audit, Holds-bind_evidence,
)

module _ {P : OfRows} (env : Sources) (created_at : ℕ) (confirm : Work (Option Provenance))
    (k : Holds P confirm) where
  after_success-Holds :
      (at : ℕ) (block : Option String) (p : Option Provenance)
      → Holds P (after_success env created_at confirm at block p)
  after_success-Holds at block none = Holds-pure _
  after_success-Holds at block (some p) = Holds-pure _

  by_status-Holds :
      (at : ℕ) (block status : Option String)
      → Holds P (by_status env created_at confirm at block status)
  by_status-Holds at block none = Holds-pure _
  by_status-Holds at block (some status) =
      Holds-if _ _ _ (Holds-pure _)
        (Holds-if _ _ _ (Holds-bind _ _ k (after_success-Holds at block)) (Holds-pure _))

  overdue-Holds : (at : ℕ) (early : Resolved) → Holds P (overdue env created_at confirm at early)
  overdue-Holds at early = search holds_rules depth 8

  by_receipt-Holds :
      (at : ℕ) (r : Option Receipt) → Holds P (by_receipt env created_at confirm at r)
  by_receipt-Holds at none = overdue-Holds at _
  by_receipt-Holds at (some r) = by_status-Holds at r.block_number r.status

  by_projection-Holds :
      (tx : String) (at : ℕ) (p : Option Provenance)
      → Holds P (by_projection env created_at confirm tx at p)
  by_projection-Holds tx at (some p) = Holds-pure _
  by_projection-Holds tx at none = Holds-bind _ _ (Holds-consult _) (by_receipt-Holds at)

  pub resolve_outcome-Holds :
      (tx : Option String) → Holds P (resolve_outcome env created_at confirm tx)
  unfolding resolve_outcome
  resolve_outcome-Holds tx =
      Holds-bind _ _ (Holds-clock env)
        λ at. Holds-if _ _ _ (Holds-bind _ _ k (by_projection-Holds _ at)) (overdue-Holds at _)
