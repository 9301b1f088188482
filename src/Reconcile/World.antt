-- ===== src/Reconcile/World.antt =====
-- What the worker runs in: the stores that it was given, the chain, the projection, and its own state.
use uvp_chain_services.Prelude.{
  ℕ, suc, String, Bool, Option, List, [], ◌∷◌, ◌++◌, Dict, if◌then◌else◌,
}
use uvp_chain_services.Prelude.Exec.{Outcome, done, thrown, Exec}
use uvp_chain_services.Submission.World.{Error, external, BindRequest}
use uvp_chain_services.Submission.Store.{Store}
use uvp_chain_services.Reconcile.Types.{
  Receipt, ProjectedOrder, Registration, Draft, TxLog, Identity,
}

pub record Summary : Type 0 where
  pub registrations_checked : ℕ
  pub submissions_checked : ℕ
  pub governance_logs_checked : ℕ
  pub evidence_binds_swept : ℕ
  pub evidence_binds_repaired : ℕ
  pub updated : ℕ
  pub failed : ℕ

abbrev pub no_summary : Summary
no_summary = record {
  registrations_checked = 0;
  submissions_checked = 0;
  governance_logs_checked = 0;
  evidence_binds_swept = 0;
  evidence_binds_repaired = 0;
  updated = 0;
  failed = 0;
}

pub record WorkerAudit : Type 0 where
  pub kind : String
  pub subject : String
  pub tx_hash : Option String
  pub error_code : Option String
  pub repaired : List String

-- The collaborators. What may differ from call to call is a function of the number of calls so far:
-- the clock, receipts, projections, proofs, and which calls of the stores, of the audit sink and of the
-- evidence service fail. An absent store is one of the `has_…` flags.
pub record Sources : Type 0 where
  pub now : ℕ → ℕ
  pub receipt : ℕ → String → Outcome Error (Option Receipt)
  pub order : ℕ → String → String → Outcome Error (Option ProjectedOrder)
  pub identities : ℕ → Option String → String → Outcome Error (List Identity)
  pub evidence_status : ℕ → String → String → Outcome Error (Option String)
  pub store_fails : ℕ → Bool
  pub bind_fails : ℕ → Bool
  pub audit_fails : ℕ → Bool
  pub lower_case : String → String
  pub before : String → String → Bool
  pub above : String → String → Bool
  pub timeout_ms : ℕ
  pub page_size : ℕ
  pub has_products : Bool
  pub has_submissions : Bool
  pub has_governance : Bool
  pub has_binder : Bool
  pub has_audit : Bool
  pub has_pages : Bool

pub record Books : Type 0 where
  pub tick : ℕ
  pub store : Store
  pub registrations : Dict Registration
  pub drafts : Dict Draft
  pub logs : List TxLog
  pub audits : List WorkerAudit
  pub binds : List BindRequest
  pub summary : Summary
  pub checking : Bool
  pub last_run_at : Option ℕ
  pub last_summary : Option Summary
  pub last_error : Option Error

abbrev pub Work : Type 0 → Type 0
Work A = Exec Error Books A

abbrev pub later : Books → Books
later w = record w { tick = suc w.tick }

-- a collaborator is asked and changes nothing
unfoldable pub consult : {A : Type 0} → (ℕ → Outcome Error A) → Work A
consult f w = (f w.tick, later w)

unfoldable pub clock : Sources → Work ℕ
clock env w = (done (env.now w.tick), later w)

-- a call of one of the stores: it may fail, and then changes nothing
unfoldable pub look : {A : Type 0} → Sources → (Books → A) → Work A
look env f w =
    if env.store_fails w.tick then (thrown (external "store"), later w) else (done (f w), later w)

unfoldable pub change : Sources → (Books → Books) → Work (Unit {0})
change env f w =
    if env.store_fails w.tick then (thrown (external "store"), later w) else (done tt, later (f w))

-- a change of the worker's own state
unfoldable pub tally_up : (Summary → Summary) → Work (Unit {0})
tally_up f w = (done tt, record w { summary = f w.summary })

-- `this.#audit?.record`
unfoldable pub audit : Sources → WorkerAudit → Work (Unit {0})
audit env event w =
    if env.has_audit
    then (if env.audit_fails w.tick
        then (thrown (external "audit"), later w)
        else (done tt, later (record w { audits = w.audits ++ event ∷ [] })))
    else (done tt, w)

unfoldable pub bind_evidence : Sources → BindRequest → Work (Unit {0})
bind_evidence env request w =
    if env.bind_fails w.tick
    then (thrown (external "bind"), later w)
    else (done tt, later (record w { binds = w.binds ++ request ∷ [] }))
