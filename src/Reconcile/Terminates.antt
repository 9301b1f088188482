-- ===== src/Reconcile/Terminates.antt =====
-- The scans of submissions and of governance logs, in a whole pass.
use uvp_chain_services.Prelude.Runs.{bind-elim}
use uvp_chain_services.Reconcile.Visits.{
  visit_log-Holds, visit_registration-Holds, visit_submission-Holds, visit_evidence-Holds,
}
use uvp_chain_services.Reconcile.Submissions.{reconciled}
use uvp_chain_services.Reconcile.Pass.{
  reconcile_registrations, lanes, sweep_evidence_binds, visit_registration, visit_log,
  visit_submission, visit_evidence,
}
use uvp_chain_services.Prelude.{
  true, List, ◌≡◌, sym, Dict, values, All, All-keep, All-kept, All-take, map, subst, ◌≢◌,
  if◌then◌else◌, false, ◌∷◌, ◌&&◌, suc, refl, length, [], none, arith, ap,
}
use uvp_chain_services.Prelude.Exec.{done, pure}
use uvp_chain_services.Rows.{ScanCursor, cursor_of, after_cursor}
use uvp_chain_services.Rows.Pages.{All-sort}
use uvp_chain_services.Rows.Ahead.{IsStrict, ahead-le-length}
use uvp_chain_services.Submission.Types.{Submission}
use uvp_chain_services.Submission.Store.{
  submission_key, list_open_submissions_page, list_submissions, is_open, put_submission,
}
use uvp_chain_services.Reconcile.Types.{TxLog, Registration}
use uvp_chain_services.Reconcile.World.{Sources, Books, Work}
use uvp_chain_services.Reconcile.Keeps.{
  OfRows, Holds, Holds-look, Holds-pure, At, Holds-bind, Holds-if,
}
use uvp_chain_services.Reconcile.Governance.{
  log_key, list_open_identity_tx_logs_page, is_open_log, reconciled_log, list_identity_tx_logs,
}
use uvp_chain_services.Reconcile.Scan.{
  read_page, read_log_page, visit_each, scan_submissions, scan_logs,
}
use uvp_chain_services.Reconcile.Places.{
  places_of, IsKeyed, IsKeyedAt, IsPlaced, All-IsPlaced, get-among, IsKeyed-places_of, put-places,
  length-places_of,
}
use uvp_chain_services.Reconcile.LogPlaces.{
  All-newest, LogPlace, place, log_cursor, HasKeys, HasKeysAt, IsLogPlaced, All-IsLogPlaced,
  placed-among, update-places, HasKeys-places, length-log_cursors,
}
use uvp_chain_services.Reconcile.Ends.{
  looked, each-Holds, whole-EndsWell, either-EndsWell, lane-EndsWell, returned, never_false,
  IsSteady, EndsWell, iterate-EndsWell, here,
}

-- the stores find every row under its own identifiers
pub record HasKeyedStores (w : Books) : Type 0 where
  pub submissions : IsKeyed w.store.submissions
  pub logs : HasKeys w.logs

module _ (env : Sources) (strict : IsStrict env.above) (ps : Dict ScanCursor) (qs : List LogPlace)
    (keyed : IsKeyedAt ps) (logs_keyed : HasKeysAt qs) where
  -- the rows of both stores are at these places
  abbrev Kept : OfRows
  Kept d ls s = (places_of d ≡ ps) × (map place ls ≡ qs)

  submissions-IsSteady :
      (visit : Submission → Work (Unit {0}))
      → ((x : Submission) → IsPlaced ps x → Holds Kept (visit x))
      → IsSteady submission_key env.above Kept (values ps) (IsPlaced ps) (read_page env) visit
  unfolding list_open_submissions_page list_submissions
  submissions-IsSteady visit stays = record {
    reads = λ after. Holds-look env _;
    pages = λ after w w' page k e.
        subst (All (λ x. (after_cursor submission_key env.above after x ≡ true) × IsPlaced ps x))
          (sym (looked env _ w w' page e))
          (All-take _ env.page_size _ (
            All-keep (IsPlaced ps) (after_cursor submission_key env.above after) _ (
              All-kept (IsPlaced ps) (λ (x : Submission). is_open x.status) _
                (All-sort submission_key (IsPlaced ps) env.before (values w.store.submissions)
                  (All-IsPlaced ps w.store.submissions k.0 keyed)))));
    visits = stays;
    among = λ x own Q h. get-among Q x.submission_id (cursor_of submission_key x) ps own h;
  }

  logs-IsSteady :
      (visit : TxLog → Work (Unit {0}))
      → ((l : TxLog) → IsLogPlaced qs l → Holds Kept (visit l))
      → IsSteady log_key env.above Kept
          (map log_cursor qs)
          (IsLogPlaced qs)
          (read_log_page env)
          visit
  unfolding list_open_identity_tx_logs_page
  logs-IsSteady visit stays = record {
    reads = λ after. Holds-look env _;
    pages = λ after w w' page k e.
        subst (All (λ l. (after_cursor log_key env.above after l ≡ true) × IsLogPlaced qs l))
          (sym (looked env _ w w' page e))
          (All-take _ env.page_size _ (
            All-keep (IsLogPlaced qs) (after_cursor log_key env.above after) _ (
              All-sort log_key (IsLogPlaced qs) env.before _ (
                All-kept (IsLogPlaced qs) (λ (l : TxLog). is_open_log l.status) w.logs
                  (All-IsLogPlaced qs w.logs k.1 logs_keyed)))));
    visits = stays;
    among = λ l own. placed-among qs l own;
  }

  scan_submissions-EndsWell :
      (visit : Submission → Work (Unit {0}))
      → ((x : Submission) → IsPlaced ps x → Holds Kept (visit x))
      → (w : Books) → At Kept w
      → EndsWell Kept (scan_submissions env visit w)
  unfolding scan_submissions list_submissions
  scan_submissions-EndsWell visit stays w k =
      either-EndsWell Kept env.has_pages _ _ w
        (iterate-EndsWell strict (submissions-IsSteady visit stays) env.page_size
          (suc (length w.store.submissions)) none w k
          (omega (
            arith,
            ahead-le-length env.above none (values ps),
            length-places_of w.store.submissions,
            ap (λ (d : Dict ScanCursor). length (values d)) k.0,
          )))
        (whole-EndsWell Kept env (IsPlaced ps) visit stays
          (λ v. list_submissions env.before v.store)
          (λ v kv.
            All-sort submission_key (IsPlaced ps) env.before (values v.store.submissions)
              (All-IsPlaced ps v.store.submissions kv.0 keyed))
          w k)

  scan_logs-EndsWell :
      (visit : TxLog → Work (Unit {0}))
      → ((l : TxLog) → IsLogPlaced qs l → Holds Kept (visit l))
      → (w : Books) → At Kept w
      → EndsWell Kept (scan_logs env visit w)
  unfolding scan_logs list_identity_tx_logs
  scan_logs-EndsWell visit stays w k =
      either-EndsWell Kept env.has_pages _ _ w
        (iterate-EndsWell strict (logs-IsSteady visit stays) env.page_size (suc (length w.logs))
          none w k
          (omega (
            arith,
            ahead-le-length env.above none (map log_cursor qs),
            length-log_cursors w.logs,
            ap (λ (ls : List LogPlace). length (map log_cursor ls)) k.1,
          )))
        (whole-EndsWell Kept env (IsLogPlaced qs) visit stays
          (λ v. list_identity_tx_logs env.before v)
          (λ v kv.
            All-newest (IsLogPlaced qs) env.before v.logs
              (All-IsLogPlaced qs v.logs kv.1 logs_keyed))
          w k)

  submission-stays : (x : Submission) → IsPlaced ps x → Holds Kept (visit_submission env x)
  unfolding reconciled put_submission
  submission-stays x own =
      visit_submission-Holds env (λ d ls s t k. k) x
        λ o w k. (put-places ps (reconciled o x) w.store.submissions own k.0, k.1)

  log-stays : (l : TxLog) → IsLogPlaced qs l → Holds Kept (visit_log env l)
  unfolding reconciled_log
  log-stays l own =
      visit_log-Holds env (λ d ls s t k. k) l
        λ o w k. (k.0, update-places qs (reconciled_log o l) w.logs own k.1)

  registrations-stay : Holds Kept (reconcile_registrations env)
  unfolding reconcile_registrations
  registrations-stay =
      Holds-if env.has_products _ _ (Holds-bind _ _ (Holds-look env _) λ rows. visited rows)
        (Holds-pure tt)
    where
      visited : (rows : List Registration) → Holds Kept (visit_each (visit_registration env) rows)
      visited rows =
          each-Holds Kept env (λ r. Unit {0}) (visit_registration env)
            (λ r own. visit_registration-Holds env (λ d ls s t k. k) r) rows (everything rows)
        where
          everything : (xs : List Registration) → All (λ r. Unit {0}) xs
          everything [] = tt
          everything (x ∷ xs) = (tt, everything xs)

  lanes-EndsWell : (w : Books) → At Kept w → EndsWell Kept (lanes env w)
  unfolding lanes sweep_evidence_binds pure
  lanes-EndsWell w k =
      bind-elim (EndsWell Kept) (sweep_evidence_binds env) _ w (λ e v. tt)
        λ swept w₁ e₁.
          let (is₁, k₁) =
            returned Kept _ swept w₁
              (lane-EndsWell Kept (env.has_submissions && env.has_binder) _ w k (
                scan_submissions-EndsWell (visit_evidence env)
                  (λ x own. visit_evidence-Holds env (λ d ls s t h. h) x) w k))
              e₁ in
          bind-elim (EndsWell Kept) (reconcile_registrations env) _ w₁ (λ e v. tt)
            λ u w₂ e₂.
              let k₂ =
                here {P = Kept} (reconcile_registrations env) w₁ w₂ u registrations-stay k₁ e₂ in
              bind-elim (EndsWell Kept)
                (if env.has_submissions
                  then scan_submissions env (visit_submission env)
                  else pure true)
                _ w₂ (λ e v. tt)
                λ sent w₃ e₃.
                  let (is₃, k₃) =
                    returned Kept _ sent w₃
                      (lane-EndsWell Kept env.has_submissions _ w₂ k₂
                        (scan_submissions-EndsWell (visit_submission env) submission-stays w₂ k₂))
                      e₃ in
                  bind-elim (EndsWell Kept)
                    (if env.has_governance then scan_logs env (visit_log env) else pure true) _ w₃
                    (λ e v. tt)
                    λ governed w₄ e₄.
                      let (is₄, k₄) =
                        returned Kept _ governed w₄
                          (lane-EndsWell Kept env.has_governance _ w₃ k₃
                            (scan_logs-EndsWell (visit_log env) log-stays w₃ k₃))
                          e₄ in
                      simp (is₁, is₃, is₄) k₄

-- A pass comes to an end, whatever the stores, the chain and the projection answer: from stores that
-- find every row under its own identifiers, and with `>` a strict order of texts, no scan runs out
-- of its fuel, one step more than its store has rows. How `localeCompare` orders the rows is of no
-- account.
pub lanes-Ends :
    (env : Sources) (w : Books)
    → IsStrict env.above
    → HasKeyedStores w
    → (lanes env w).0 ≢ done false
lanes-Ends env w strict keyed =
    let ps = places_of w.store.submissions in
    let qs = map place w.logs in
    never_false
      (Kept env strict ps qs (IsKeyed-places_of _ keyed.submissions) (HasKeys-places _ keyed.logs))
      (lanes env w)
      (lanes-EndsWell env strict ps qs (IsKeyed-places_of _ keyed.submissions)
        (HasKeys-places _ keyed.logs) w (refl, refl))
