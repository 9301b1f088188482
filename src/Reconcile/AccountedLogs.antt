-- ===== src/Reconcile/AccountedLogs.antt =====
-- What the visit of a governance log stores, and how it counts it.
use uvp_chain_services.Reconcile.Governance.{
  reconcile_governance_log, reconciled_log, update_tx_log, turned_back, reverted_audit,
}
use uvp_chain_services.Submission.World.{Error}
use uvp_chain_services.Prelude.Exec.{Outcome, ◌>>=◌, done, thrown, pure}
use uvp_chain_services.Reconcile.Pass.{is_failed_log}
use uvp_chain_services.Prelude.{ℕ, ◌+◌, ◌≡◌, ◌⊎◌, true, List, if◌then◌else◌}
use uvp_chain_services.Reconcile.Types.{Resolved, TxLog}
use uvp_chain_services.Reconcile.World.{Work, Books, Sources, audit}

module _ (env : Sources) (l : TxLog) where
  -- a reverted revocation was written to the ledger, and its audit failed after that
  abbrev pub Unaudited : List TxLog → List TxLog → Type 0
  Unaudited old new =
      (o : Resolved) × (t : ℕ) × (turned_back l o.kind ≡ true)
      × (env.has_audit ≡ true)
      × (env.audit_fails t ≡ true)
      × (new ≡ update_tx_log (reconciled_log o l) old)

  abbrev Written : Books → Outcome Error TxLog × Books → Type 0
  Written w (done u, v) = (v.logs ≡ update_tx_log u w.logs) × (v.summary ≡ w.summary)
  Written w (thrown e, v) = ((v.logs ≡ w.logs) ⊎ Unaudited w.logs v.logs) × (v.summary ≡ w.summary)

  abbrev rest : Resolved → Work TxLog
  rest o = (if turned_back l o.kind then audit env (reverted_audit l o) else pure tt) >>= λ _.
      pure (reconciled_log o l)

  abbrev checked : Books → Books
  checked w = record w {
    summary = record (w.summary) {
      governance_logs_checked = w.summary.governance_logs_checked + 1;
    };
  }

  -- the log was reconciled, written to the ledger, and counted once as updated, and once as failed if it
  -- is; or its reconciliation threw, and it is counted once as failed
  abbrev pub IsVisited : Books → Outcome Error (Unit {0}) × Books → Type 0
  IsVisited w (r, v) =
      (r ≡ done tt)
      × (((u : TxLog) × ((reconcile_governance_log env l (checked w)).0 ≡ done u)
            × (v.logs ≡ update_tx_log u w.logs)
            × (v.summary ≡ record (w.summary) {
              governance_logs_checked = w.summary.governance_logs_checked + 1;
              updated = w.summary.updated + 1;
              failed = w.summary.failed + (if is_failed_log u.status then 1 else 0);
            }))
          ⊎ ((e : Error) × ((reconcile_governance_log env l (checked w)).0 ≡ thrown e)
              × ((v.logs ≡ w.logs) ⊎ Unaudited w.logs v.logs)
              × (v.summary ≡ record (w.summary) {
                governance_logs_checked = w.summary.governance_logs_checked + 1;
                failed = w.summary.failed + 1;
              })))
