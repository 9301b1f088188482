-- ===== src/Relay/Results.antt =====
-- Failed results, the retry schedule, the record of an attempt, and what was already decided.
use uvp_chain_services.Prelude.{
  ℕ, ◌+◌, ◌-◌, ◌*◌, ◌^◌, min, String, Bool, true, false, not, Option, none, some, ◌==◌, Dict, get,
  put, or_else, or_default, if◌then◌else◌, truthy, nat_eq, ltb, ◌||◌,
}
use uvp_chain_services.Submission.Types.{Status, RetryState, Attempt, Failure, Broadcast}
use uvp_chain_services.Submission.Record.Rows.{blank_attempt}

pub record Limits : Type 0 where
  pub max_in_flight_per_order : ℕ
  pub max_in_flight_per_submitter : ℕ
  pub max_retry : ℕ
  pub retry_base_ms : ℕ
  pub retry_max_ms : ℕ

-- the last result for an idempotency key, and how many broadcasts led to it
pub record BroadcastState : Type 0 where
  pub attempts : ℕ
  pub last_result : Broadcast

unfoldable pub retry_state_of : Bool → Bool → RetryState
retry_state_of retryable dead_letter =
    if dead_letter
    then RetryState.dead_letter
    else if retryable
    then RetryState.retryable
    else RetryState.not_retryable

unfoldable pub error_label_of : String → String
error_label_of code =
    if code == "broadcast_rate_limited"
    then "Broadcast is rate limited"
    else if code == "broadcast_retry_exhausted"
    then "Retry limit reached"
    else if code == "duplicate_tx_hash"
    then "Duplicate transaction hash"
    else if code == "invalid_signal_signature"
    then "Wallet signature is invalid"
    else if code == "rpc_timeout"
    then "RPC request timed out"
    else code

-- the delay doubles with every attempt after the first, up to the limit
unfoldable pub retry_schedule : Limits → ℕ → ℕ → Option ℕ
retry_schedule lim attempts now =
    if nat_eq lim.retry_base_ms 0 || nat_eq lim.retry_max_ms 0
    then none
    else some (now + min lim.retry_max_ms (lim.retry_base_ms * 2 ^ (attempts - 1)))

unfoldable pub failed_result : String → String → Bool → ℕ → Option Bool → Option ℕ → Failure
unfolding retry_state_of error_label_of
failed_result code message retryable attempts dead next_retry_at =
    let dead_letter : Bool = or_default dead (not retryable) in
    let retry_state = retry_state_of retryable dead_letter in
    record {
      tx_hash = none;
      block_number = none;
      error_code = code;
      error_label = some (error_label_of code);
      message = message;
      retryable = retryable;
      retry_state = some retry_state;
      dead_letter = some dead_letter;
      next_retry_at = next_retry_at;
      attempt = some (record (blank_attempt Status.failed) {
        error_code = some code;
        error_label = some (error_label_of code);
        error_message = some message;
        attempt_number = some (attempts + 1);
        retryable = some retryable;
        retry_state = some retry_state;
        dead_letter = some dead_letter;
        next_retry_at = next_retry_at;
      });
    }

abbrev pub decided_by : Broadcast → ℕ → ℕ → Option Broadcast
decided_by (Broadcast.failed f) attempts max_retry =
    if not f.retryable
    then some (Broadcast.failed f)
    else if ltb max_retry attempts
    then some (
        Broadcast.failed (
          failed_result "broadcast_retry_exhausted" "broadcast retry limit has been reached" false
            attempts (some true) none))
    else none
decided_by result attempts max_retry = some result

-- what an earlier broadcast under the same key has already decided
unfoldable pub duplicate_result : Option BroadcastState → ℕ → Option Broadcast
unfolding failed_result
duplicate_result none max_retry = none
duplicate_result (some s) max_retry = decided_by s.last_result s.attempts max_retry

abbrev pub or_attempt : Option Attempt → Attempt
or_attempt none = blank_attempt Status.failed
or_attempt (some a) = a

abbrev pub next_retry : Limits → ℕ → ℕ → Failure → Option ℕ
next_retry lim attempt_number now f =
    or_else f.next_retry_at (if f.retryable then retry_schedule lim attempt_number now else none)

unfoldable pub failure_with_metadata : Limits → ℕ → ℕ → Failure → Failure
unfolding retry_state_of retry_schedule
failure_with_metadata lim attempt_number now f =
    let dead_letter : Bool = or_default f.dead_letter (not f.retryable) in
    let retry_state : RetryState =
      or_default f.retry_state (retry_state_of f.retryable dead_letter) in
    let next = next_retry lim attempt_number now f in
    let a = or_attempt f.attempt in
    record f {
      retry_state = some retry_state;
      dead_letter = some dead_letter;
      next_retry_at = next;
      attempt = some (record a {
        attempt_number = some (or_default a.attempt_number attempt_number);
        retryable = some (or_default a.retryable f.retryable);
        retry_state = some (or_default a.retry_state retry_state);
        dead_letter = some (or_default a.dead_letter dead_letter);
        next_retry_at = or_else next a.next_retry_at;
      });
    }

abbrev pub numbered : ℕ → Option Attempt → Option Attempt
numbered n none = none
numbered n (some a) = some (record a {
  attempt_number = some (or_default a.attempt_number n);
  retryable = some (or_default a.retryable false);
  retry_state = some (or_default a.retry_state RetryState.not_applicable);
  dead_letter = some (or_default a.dead_letter false);
})

unfoldable pub with_attempt_metadata : Limits → ℕ → ℕ → Broadcast → Broadcast
unfolding failure_with_metadata
with_attempt_metadata lim n now (Broadcast.failed f) =
    Broadcast.failed (failure_with_metadata lim n now f)
with_attempt_metadata lim n now (Broadcast.broadcasting tx a) =
    Broadcast.broadcasting tx (numbered n a)
with_attempt_metadata lim n now (Broadcast.submitted tx block a) =
    Broadcast.submitted tx block (numbered n a)
with_attempt_metadata lim n now (Broadcast.confirmed tx block a) =
    Broadcast.confirmed tx block (numbered n a)
with_attempt_metadata lim n now (Broadcast.not_attempted code reason) =
    Broadcast.not_attempted code reason

abbrev attempt_tx : Option Attempt → Option String
attempt_tx none = none
attempt_tx (some a) = a.tx_hash

-- the hash under which a result is recorded
unfoldable pub tx_hash_of : Broadcast → Option String
tx_hash_of (Broadcast.broadcasting tx a) = tx
tx_hash_of (Broadcast.submitted tx block a) = some tx
tx_hash_of (Broadcast.confirmed tx block a) = some tx
tx_hash_of (Broadcast.failed f) = attempt_tx f.attempt
tx_hash_of (Broadcast.not_attempted code reason) = none

-- the answer of the persistent store to a claim of a hash; `none` where there is no such store or
-- the claim succeeded
abbrev pub Claim : Type 0
Claim = String → String → Option String

-- the owner of a hash: the one found in memory, and failing that by a claim in the persistent store
abbrev pub owner_of : Claim → String → String → Option String → Option String
owner_of claim tx key found = if truthy found then found else claim tx key

abbrev pub owned :
    String → String → ℕ → Option String → Dict String → Option Broadcast × Dict String
owned tx key attempts owner owners =
    if not (truthy owner)
    then (none, put tx key owners)
    else if or_default owner "" == key
    then (none, owners)
    else (
      some (
          Broadcast.failed (
            failed_result "duplicate_tx_hash"
              "broadcast returned a txHash already recorded for another submission" false attempts
              (some true) none)),
      owners,
    )

-- the name under which the owner of a result's hash is kept
abbrev pub owner_name : (String → String) → Broadcast → String
owner_name lower_case result = lower_case (or_default (tx_hash_of result) "")

-- the check, after the owner was looked up in memory
unfoldable pub duplicate_after :
    (String → String)
    → Claim
    → String
    → Broadcast
    → Option String
    → Dict String
    → ℕ
    → Option Broadcast × Dict String
unfolding tx_hash_of truthy failed_result
duplicate_after lower_case claim key result found owners attempts =
    let name = owner_name lower_case result in
    if truthy (tx_hash_of result)
    then owned name key attempts (owner_of claim name key found) owners
    else (none, owners)

unfoldable pub duplicate_tx_hash :
    (String → String)
    → Claim
    → String
    → Broadcast
    → Dict String
    → ℕ
    → Option Broadcast × Dict String
unfolding duplicate_after tx_hash_of
duplicate_tx_hash lower_case claim key result owners attempts =
    duplicate_after lower_case claim key result (get (owner_name lower_case result) owners) owners
      attempts
