-- ===== src/Submission/Used.antt =====
-- Prepared submissions that are used up, and the parts of `submit`.
use uvp_chain_services.Prelude.{
  ℕ, String, Bool, true, false, Option, none, some, List, ◌≡◌, ◌||◌, arith, get, get-put, eq_iff,
  is_some, truthy, Option-cases, inl, inr,
}
use uvp_chain_services.Submission.Types.{PreparedRecord}
use uvp_chain_services.Submission.Store.{
  Store, put_submission, reserve_nonce, mark_prepared_used, release_nonce,
}
use uvp_chain_services.Submission.World.{BroadcastRequest}
use uvp_chain_services.Submission.Keeps.{Property}
use uvp_chain_services.Submission.Keeps.Pieces.{Quiet, Stable}

abbrev pub is_used_entry : Option PreparedRecord → Bool
is_used_entry none = false
is_used_entry (some p) = is_some p.used_at || truthy p.used_by

-- the store holds the prepared submission `k`, used
abbrev pub is_used : String → Store → Bool
is_used k s = is_used_entry (get k s.prepared)

abbrev pub is_known : String → Store → Bool
is_known k s = is_some (get k s.prepared)

-- every prepared submission is stored under its own identifier
abbrev pub IsKeyed : Store → Type 0
IsKeyed s = (k : String) (p : PreparedRecord) → get k s.prepared ≡ some p → p.prepare_id ≡ k

abbrev pub Used : String → Property
Used k s l = is_used k s ≡ true

abbrev pub Known : String → Property
Known k s l = is_known k s ≡ true

abbrev pub Keyed : Property
Keyed s l = IsKeyed s

abbrev pub SentExactly : List BroadcastRequest → Property
SentExactly l₀ s l = l ≡ l₀

used_mark :
    (k id by : String) (at : ℕ) (s : Store)
    → is_used k s ≡ true
    → is_used k (mark_prepared_used id by at s) ≡ true
unfolding mark_prepared_used
used_mark k id by at s h = elim (Option-cases (get id s.prepared)) [
  | inl e ↦ rw e h
  | inr (r, e) ↦ rw (e, get-put) (ground (arith, h))
]

known_mark :
    (k id by : String) (at : ℕ) (s : Store)
    → is_known k s ≡ true
    → is_known k (mark_prepared_used id by at s) ≡ true
unfolding mark_prepared_used
known_mark k id by at s h = elim (Option-cases (get id s.prepared)) [
  | inl e ↦ rw e h
  | inr (r, e) ↦ rw (e, get-put) (ground (arith, h))
]

mark-IsKeyed :
    (id by : String) (at : ℕ) (s : Store) → IsKeyed s → IsKeyed (mark_prepared_used id by at s)
unfolding mark_prepared_used
mark-IsKeyed id by at s h k p = elim (Option-cases (get id s.prepared)) [
  | inl e ↦ rw e (h k p)
  | inr (r, e) ↦ rw (e, get-put) (ground (arith, eq_iff id k, h id r e, h k p))
]

-- a reservation touches no prepared submission
prepared_reserve :
    (key : String) (before : Option ℕ) (at : ℕ) (s : Store)
    → (reserve_nonce key before at s).1.prepared ≡ s.prepared
unfolding reserve_nonce
prepared_reserve key before at s = ground arith

used-Quiet : (k : String) → Quiet (Used k)
unfolding put_submission release_nonce
used-Quiet k = record {
  rollback = λ s s' l l' h h'. h;
  put = λ x s l h. h;
  mark = λ id by at s l h. used_mark k id by at s h;
  reserving = λ key before at s l h. rw prepared_reserve h;
  release = λ key s l h. h;
}

pub used-Stable : (k : String) → Stable (Used k)
used-Stable k = record { quiet = used-Quiet k; sending = λ request s l h. h }

known-Quiet : (k : String) → Quiet (Known k)
unfolding put_submission release_nonce
known-Quiet k = record {
  rollback = λ s s' l l' h h'. h;
  put = λ x s l h. h;
  mark = λ id by at s l h. known_mark k id by at s h;
  reserving = λ key before at s l h. rw prepared_reserve h;
  release = λ key s l h. h;
}

pub known-Stable : (k : String) → Stable (Known k)
known-Stable k = record { quiet = known-Quiet k; sending = λ request s l h. h }

keyed-Quiet : Quiet Keyed
unfolding put_submission release_nonce
keyed-Quiet = record {
  rollback = λ s s' l l' h h'. h;
  put = λ x s l h. h;
  mark = λ id by at s l h. mark-IsKeyed id by at s h;
  reserving = λ key before at s l h. rw prepared_reserve h;
  release = λ key s l h. h;
}

pub keyed-Stable : Stable Keyed
keyed-Stable = record { quiet = keyed-Quiet; sending = λ request s l h. h }

pub sent-Quiet : (l₀ : List BroadcastRequest) → Quiet (SentExactly l₀)
sent-Quiet l₀ = record {
  rollback = λ s s' l l' h h'. h';
  put = λ x s l h. h;
  mark = λ id by at s l h. h;
  reserving = λ key before at s l h. h;
  release = λ key s l h. h;
}
