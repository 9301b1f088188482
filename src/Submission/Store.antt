-- ===== src/Submission/Store.antt =====
-- service/src/submissions/store.ts: the in-memory store, three maps. The reservation of a nonce
-- carries the instant at which it was made.
use uvp_chain_services.Prelude.{
  ℕ, String, Bool, true, false, Option, none, some, List, [], leb, take, keep, Dict, get, put,
  delete, values, if◌then◌else◌,
}
use uvp_chain_services.Rows.{RowKey, ScanCursor, sort_rows, after_cursor}
use uvp_chain_services.Submission.Types.{Status, PreparedRecord, Submission}

pub record Store : Type 0 where
  pub prepared : Dict PreparedRecord
  pub submissions : Dict Submission
  pub nonces : Dict ℕ

abbrev pub empty_store : Store
empty_store = record { prepared = []; submissions = []; nonces = [] }

unfoldable pub put_prepared : PreparedRecord → Store → Store
put_prepared r s = record s { prepared = put r.prepare_id r s.prepared }

abbrev used : Option PreparedRecord → String → String → ℕ → Store → Store
used none id by at s = s
used (some r) id by at s = record s {
  prepared = put id (record r { used_at = some at; used_by = some by }) s.prepared;
}

unfoldable pub mark_prepared_used : String → String → ℕ → Store → Store
mark_prepared_used id by at s = used (get id s.prepared) id by at s

-- a reservation may be taken over when it was made before the threshold
abbrev pub is_fresh : Option ℕ → ℕ → Bool
is_fresh none existing = true
is_fresh (some threshold) existing = leb threshold existing

abbrev reserve_over : Option ℕ → String → Option ℕ → ℕ → Store → Bool × Store
reserve_over none key stale_before reserved_at s =
    (true, record s { nonces = put key reserved_at s.nonces })
reserve_over (some existing) key stale_before reserved_at s =
    if is_fresh stale_before existing
    then (false, s)
    else (true, record s { nonces = put key reserved_at s.nonces })

unfoldable pub reserve_nonce : String → Option ℕ → ℕ → Store → Bool × Store
reserve_nonce key stale_before reserved_at s =
    reserve_over (get key s.nonces) key stale_before reserved_at s

unfoldable pub release_nonce : String → Store → Store
release_nonce key s = record s { nonces = delete key s.nonces }

unfoldable pub put_submission : Submission → Store → Store
put_submission r s = record s { submissions = put r.submission_id r s.submissions }

unfoldable pub is_open : Status → Bool
is_open Status.broadcasting = true
is_open Status.submitted = true
is_open Status.indexing = true
is_open Status.failed = true
is_open _ = false

abbrev pub submission_key : RowKey Submission
submission_key = record { created = λ x. x.created_at; name = λ x. x.submission_id }

unfoldable pub list_submissions : (String → String → Bool) → Store → List Submission
unfolding sort_rows values
list_submissions before s = sort_rows submission_key before (values s.submissions)

unfoldable pub list_open_submissions_page :
    (String → String → Bool)
    → (String → String → Bool)
    → Option ScanCursor
    → ℕ
    → Store
    → List Submission
unfolding list_submissions is_open after_cursor keep
list_open_submissions_page before above after limit s = take limit (
    keep (after_cursor submission_key above after)
      (keep (λ (x : Submission). is_open x.status) (list_submissions before s)))
