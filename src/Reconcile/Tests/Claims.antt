-- ===== src/Reconcile/Tests/Claims.antt =====
-- The theorems about reconciliation, applied to the small worker.
use uvp_chain_services.Rows.Ahead.{IsStrict}
use uvp_chain_services.Reconcile.Labels.{reconciled-keeps_label, reconciled-retry_state_for}
use uvp_chain_services.Submission.Record.Coherent.{IsCoherent}
use uvp_chain_services.Submission.Record.Rows.{status_label_for, retry_state_for}
use uvp_chain_services.Reconcile.AccountedLogs
use uvp_chain_services.Reconcile.Accounted.{IsVisited, visit_submission-IsVisited}
use uvp_chain_services.Reconcile.Registrations.{list_registrations}
use uvp_chain_services.Submission.Store.{is_open}
use uvp_chain_services.Rows.{sort_rows, insert_row, row_before, after_cursor, last_cursor}
use uvp_chain_services.Submission.Store.{
  put_submission, list_submissions, list_open_submissions_page, is_open,
}
use uvp_chain_services.Reconcile.Governance.{
  reconcile_governance_log, governance_projection_confirmation, is_reconcileable_governance_log,
  is_simulated_governance_log, reconciled_log, list_open_identity_tx_logs_page, update_tx_log,
  turned_back, governance_status_from_outcome,
}
use uvp_chain_services.Reconcile.Scan.{scan_submissions, scan_logs, iterate, visit_each}
use uvp_chain_services.Reconcile.Justified.{Supported, reconcile_submission-Supported}
use uvp_chain_services.Reconcile.Outcome.{
  reverted_outcome, resolve_outcome, confirmed_outcome, timed_out, stale_outcome,
  confirmation_from_provenance,
}
use uvp_chain_services.Reconcile.Terminates.{lanes-Ends, HasKeyedStores}
use uvp_chain_services.Reconcile.Confirms.{IsProjected, reconcile_submission-confirms}
use uvp_chain_services.Prelude.Exec.{done, ◌>>=◌, attempt, pure}
use uvp_chain_services.Reconcile.Types.{Receipt}
use uvp_chain_services.Reconcile.Submissions.{
  reconcile_submission, matches, reconciled, is_reconcileable, submission_projection_confirmation,
  status_from_outcome, dead_letter_from_outcome,
}
use uvp_chain_services.Reconcile.Tests.{worker, books, sent_row, order, Status, signal}
use uvp_chain_services.Submission.Types.{Submission, Status}
use uvp_chain_services.Reconcile.Pass.{
  lanes, run_once, run_reconcile_pass, sweep_evidence_binds, reconcile_registrations,
  visit_submission, visit_log, visit_evidence, visit_registration, isolated,
  repair_submission_evidence_binds, repair_each, is_evidence_bind_sweepable,
}
use uvp_chain_services.Reconcile.World.{
  Sources, consult, clock, look, change, tally_up, audit, bind_evidence,
}
use uvp_chain_services.Prelude.{
  Option, get, truthy, ◌≢◌, join, arith, some, ◌≡◌, none, refl, false, or_else, present, put,
  values, keep, find_first, or_default, List, String, Bool, codes, ℕ, true, ◌∷◌, ltb, [], ◌||◌,
  nat_eq, ◌&&◌,
}
use uvp_chain_services.Prelude.Exec.{◌>>=◌}

abbrev reverted : Option Receipt
reverted = some (record { status = some "reverted"; block_number = some "12" })

abbrev projecting : Sources
projecting = worker (some order) none

-- `a > b` on lists of code points
is_above : List ℕ → List ℕ → Bool
is_above [] ds = false
is_above (c ∷ cs) [] = true
is_above (c ∷ cs) (d ∷ ds) = let rest = is_above cs ds in ltb d c || (nat_eq c d && rest)

is_above_irreflexive : (cs : List ℕ) → is_above cs cs ≡ false
unfolding is_above
is_above_irreflexive [] = refl
is_above_irreflexive (c ∷ cs) = ground (arith, is_above_irreflexive cs)

is_above_trans :
    (cs ds es : List ℕ) → is_above cs ds ≡ true → is_above ds es ≡ true → is_above cs es ≡ true
unfolding is_above
is_above_trans [] ds es h k = absurd (cc h)
is_above_trans (c ∷ cs) [] es h k = absurd (cc k)
is_above_trans (c ∷ cs) (d ∷ ds) [] h k = refl
is_above_trans (c ∷ cs) (d ∷ ds) (e ∷ es) h k = ground (arith, h, k, is_above_trans cs ds es)

text_above : String → String → Bool
text_above a b = is_above (codes a) (codes b)

text_above-IsStrict : IsStrict text_above
unfolding text_above
text_above-IsStrict = record {
  irreflexive = λ a. is_above_irreflexive (codes a);
  transitive = λ a b c. is_above_trans (codes a) (codes b) (codes c);
}

books-HasKeyedStores : HasKeyedStores books
unfolding get values find_first
books-HasKeyedStores = record { submissions = (refl, (refl, tt)); logs = (refl, tt) }

abbrev ordered : Sources
ordered = record projecting { above = text_above }

ended : (lanes ordered books).0 ≢ done false
ended = lanes-Ends ordered books text_above-IsStrict books-HasKeyedStores

order-IsProjected : IsProjected projecting sent_row order signal
unfolding get truthy join matches
order-IsProjected = record {
  sent = refl;
  answers = λ n. refl;
  listed = refl;
  same = refl;
  hash = refl;
}

sent_confirmed :
    (u : Submission) × ((reconcile_submission projecting sent_row books).0 ≡ done u)
    × (get "sub" (reconcile_submission projecting sent_row books).1.store.submissions ≡ some u)
    × (u.status ≡ Status.confirmed)
    × (u.block_number ≡ or_else (present (some "12")) none)
sent_confirmed =
    reconcile_submission-confirms projecting sent_row order signal order-IsProjected books refl

-- opens the whole of a pass
opened : Unit {0}
unfolding run_once run_reconcile_pass lanes sweep_evidence_binds reconcile_registrations
    scan_submissions scan_logs iterate visit_each visit_submission visit_log visit_evidence
    visit_registration isolated reconcile_submission reconcile_governance_log
    submission_projection_confirmation governance_projection_confirmation resolve_outcome
    repair_submission_evidence_binds repair_each is_evidence_bind_sweepable is_reconcileable
    is_reconcileable_governance_log is_simulated_governance_log consult clock look change tally_up
    audit bind_evidence ◌>>=◌ attempt pure get put values keep truthy join matches reconciled
    reconciled_log status_from_outcome reverted_outcome confirmed_outcome timed_out stale_outcome
    put_submission list_submissions list_open_submissions_page list_open_identity_tx_logs_page
    update_tx_log sort_rows insert_row row_before after_cursor last_cursor is_open present
    confirmation_from_provenance turned_back find_first dead_letter_from_outcome
    governance_status_from_outcome list_registrations
opened = tt

abbrev reverting : Sources
reverting = worker none reverted

abbrev dead_row : Submission
dead_row = reconciled (reverted_outcome 10 "reverted" (some "12")) sent_row

dead_returned : (reconcile_submission reverting sent_row books).0 ≡ done dead_row
unfolding opened
dead_returned = refl

dead-Supported :
    Supported reverting sent_row dead_row
    × (get "sub" (reconcile_submission reverting sent_row books).1.store.submissions
        ≡ some dead_row)
unfolding is_reconcileable truthy
dead-Supported = reconcile_submission-Supported reverting sent_row books dead_row refl dead_returned

dead-IsVisited : IsVisited reverting sent_row books (visit_submission reverting sent_row books)
unfolding is_reconcileable truthy
dead-IsVisited = visit_submission-IsVisited reverting sent_row books refl

sent_row-IsCoherent : IsCoherent sent_row
unfolding status_label_for retry_state_for
sent_row-IsCoherent = record {
  label = refl;
  retry = refl;
  count = refl;
  one_attempt = omega arith;
  no_retry_after_success = λ h. absurd (cc h);
}

dead_differs : dead_row.status ≢ sent_row.status
unfolding reconciled reverted_outcome status_from_outcome
dead_differs h = cc h

dead_mislabelled :
    (dead_row.status_label ≡ some (status_label_for sent_row.status))
    × (dead_row.status_label ≢ some (status_label_for dead_row.status))
dead_mislabelled =
    reconciled-keeps_label (reverted_outcome 10 "reverted" (some "12")) sent_row sent_row-IsCoherent
      dead_differs

dead_retry :
    dead_row.retry_state
    ≡ some (
        retry_state_for dead_row.status
          (or_default dead_row.retryable false)
          (or_default dead_row.dead_letter false))
dead_retry = reconciled-retry_state_for (reverted_outcome 10 "reverted" (some "12")) sent_row
