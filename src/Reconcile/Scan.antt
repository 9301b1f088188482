-- ===== src/Reconcile/Scan.antt =====
-- service/src/reconcile/worker.ts: `iterateOpenSubmissions` and `iterateOpenGovernanceLogs`, with the
-- loop that visits what they yield. A page is read when the rows of the page before were visited.
use uvp_chain_services.Prelude.{
  ℕ, zero, suc, Bool, true, false, Option, none, List, [], ◌∷◌, ◌||◌, length, ltb, nat_eq,
  if◌then◌else◌,
}
use uvp_chain_services.Prelude.Exec.{pure, ◌>>=◌, ◌>>◌}
use uvp_chain_services.Submission.Types.{Submission}
use uvp_chain_services.Submission.Store.{
  list_submissions, list_open_submissions_page, submission_key,
}
use uvp_chain_services.Rows.{RowKey, ScanCursor, last_cursor}
use uvp_chain_services.Reconcile.Types.{TxLog}
use uvp_chain_services.Reconcile.World.{Sources, Work, look}
use uvp_chain_services.Reconcile.Governance.{
  list_identity_tx_logs, list_open_identity_tx_logs_page, log_key,
}

-- no page follows an empty page, or one that is not full
abbrev pub is_last_page {ℓ} : {A : Type ℓ} → ℕ → List A → Bool
is_last_page size page = nat_eq (length page) 0 || ltb (length page) size

module _ {A : Type 0} (visit : A → Work (Unit {0})) where
  unfoldable pub visit_each : List A → Work (Unit {0})
  visit_each [] = pure tt
  visit_each (x ∷ xs) = visit x >> visit_each xs

module _ {A : Type 0} (read : Option ScanCursor → Work (List A)) (key : RowKey A) (size : ℕ)
    (visit : A → Work (Unit {0})) where
  -- `false` where the fuel runs out
  unfoldable pub iterate : ℕ → Option ScanCursor → Work Bool
  unfolding visit_each
  iterate zero after = pure false
  iterate (suc fuel) after =
      let rest = λ (page : List A). iterate fuel (last_cursor key page) in
      read after >>= λ page.
      visit_each visit page >> (if is_last_page size page then pure true else rest page)

abbrev pub read_page : Sources → Option ScanCursor → Work (List Submission)
read_page env after =
    look env (λ w. list_open_submissions_page env.before env.above after env.page_size w.store)

-- the fuel is one page more than there are submissions
unfoldable pub scan_submissions : Sources → (Submission → Work (Unit {0})) → Work Bool
unfolding iterate visit_each
scan_submissions env visit w =
    (if env.has_pages
        then iterate (read_page env) submission_key env.page_size visit
            (suc (length w.store.submissions)) none
        else (look env (λ v. list_submissions env.before v.store) >>= λ rows.
            visit_each visit rows >> pure true))
      w

abbrev pub read_log_page : Sources → Option ScanCursor → Work (List TxLog)
read_log_page env after =
    look env (λ w. list_open_identity_tx_logs_page env.before env.above after env.page_size w)

unfoldable pub scan_logs : Sources → (TxLog → Work (Unit {0})) → Work Bool
unfolding iterate visit_each
scan_logs env visit w =
    (if env.has_pages
        then iterate (read_log_page env) log_key env.page_size visit (suc (length w.logs)) none
        else (look env (λ v. list_identity_tx_logs env.before v) >>= λ rows.
            visit_each visit rows >> pure true))
      w
