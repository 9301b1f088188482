-- ===== src/Relay/Classify.antt =====
-- service/src/submissions/broadcast-adapter.ts: how a thrown broadcast error becomes a failure.
use uvp_chain_services.Prelude.{
  String, Bool, true, false, Option, none, some, List, [], ◌∷◌, ◌==◌, contains, join, or_default,
  if◌then◌else◌,
}

-- The text tests: `text.includes(word)`, and a regular expression that lists words and ignores case.
pub record Texts : Type 0 where
  pub includes : String → String → Bool
  pub includes_any : String → List String → Bool

pub record Classification : Type 0 where
  pub error_code : String
  pub error_label : String
  pub message : String
  pub operator_detail : String
  pub retryable : Bool
  pub dead_letter : Bool
  pub revert_reason : Option String

unfoldable pub label_of_broadcast_error : String → String
label_of_broadcast_error code =
    if code == "unauthorized_signal_submitter"
    then "Submitter is not authorized"
    else if code == "signal_already_exists"
    then "Signal was already submitted"
    else if code == "unknown_order"
    then "Order is not registered yet"
    else if code == "expired_signal_signature"
    then "Wallet signature expired"
    else if code == "invalid_signal_signature"
    then "Wallet signature is invalid"
    else if code == "chain_id_mismatch"
    then "RPC chain does not match configuration"
    else if code == "duplicate_transaction"
    then "Duplicate transaction"
    else if code == "relayer_insufficient_funds"
    then "Relayer gas payer needs funds"
    else if code == "relayer_business_signer_reuse"
    then "Relayer key reused as participant"
    else if code == "rpc_timeout"
    then "RPC request timed out"
    else if code == "transaction_reverted"
    then "Transaction reverted"
    else if code == "transaction_receipt_unknown"
    then "Transaction receipt is unknown"
    else if code == "state_machine_broadcast_failed"
    then "Broadcast failed"
    else code

abbrev pub dead_codes : List String
dead_codes =
    "chain_id_mismatch" ∷ "duplicate_transaction" ∷ "expired_signal_signature"
    ∷ "invalid_signal_signature" ∷ "order_plan_unresolved" ∷ "relayer_business_signer_reuse"
    ∷ "signal_already_exists" ∷ "transaction_reverted" ∷ "unauthorized_signal_submitter" ∷ []

unfoldable pub dead_letter_for_broadcast_error : String → Bool → Bool
unfolding contains
dead_letter_for_broadcast_error code retryable =
    if retryable then false else contains code dead_codes

abbrev or_text : String → String → String
or_text text other = if text == "" then other else text

unfoldable pub classified_broadcast_error :
    String → String → Bool → String → Option String → Classification
unfolding label_of_broadcast_error dead_letter_for_broadcast_error
classified_broadcast_error code message retryable detail reason = record {
  error_code = code;
  error_label = label_of_broadcast_error code;
  message = message;
  operator_detail = or_text detail message;
  retryable = retryable;
  dead_letter = dead_letter_for_broadcast_error code retryable;
  revert_reason = reason;
}

module _ (texts : Texts) where
  abbrev invalid_reason : Option String → String
  invalid_reason none = "InvalidSignalSignature"
  invalid_reason (some name) =
      if texts.includes name "InvalidSignalSignature" then name else "InvalidSignalSignature"

  -- an error of the network or of the chain's client, once no known revert is named
  unfoldable pub classify_unnamed : String → String → Classification
  unfolding classified_broadcast_error
  classify_unnamed haystack text =
      if texts.includes_any haystack
        ("nonce too low" ∷ "replacement transaction underpriced" ∷ "already known" ∷ [])
      then classified_broadcast_error "duplicate_transaction"
          "broadcaster reported a duplicate or already-used transaction nonce" false text none
      else if texts.includes_any haystack
          ("execution reverted" ∷ "transaction reverted" ∷ "reverted" ∷ [])
      then classified_broadcast_error "transaction_reverted"
          "state-machine transaction reverted before the signal was accepted" false text none
      else if texts.includes_any haystack ("insufficient funds" ∷ [])
      then classified_broadcast_error "relayer_insufficient_funds"
          "relayer gas payer has insufficient funds" true text none
      else if texts.includes_any haystack
          ("timeout" ∷ "timed out" ∷ "ETIMEDOUT" ∷ "AbortError" ∷ "ECONNRESET" ∷ [])
      then classified_broadcast_error "rpc_timeout"
          "RPC request timed out while broadcasting the signal" true text none
      else classified_broadcast_error "state_machine_broadcast_failed"
          "state-machine signal broadcast failed" true (or_text text "unknown broadcast failure")
          none

  -- `name` and `text` are what `findErrorName` and `errorText` find in the error
  unfoldable pub classify_state_machine_broadcast_error : Option String → String → Classification
  unfolding classify_unnamed join
  classify_state_machine_broadcast_error name text =
      let haystack = join " " (or_default name "" ∷ text ∷ []) in
      if texts.includes haystack "UnauthorizedSignalSubmitter"
      then classified_broadcast_error "unauthorized_signal_submitter"
          "current wallet is not authorized to submit this signal" false text
          (some "UnauthorizedSignalSubmitter")
      else if texts.includes haystack "SignalAlreadyExists"
      then classified_broadcast_error "signal_already_exists"
          "this task signal has already been submitted" false text (some "SignalAlreadyExists")
      else if texts.includes haystack "UnknownOrder"
      then classified_broadcast_error "unknown_order" "order is not registered on the state machine"
          true text (some "UnknownOrder")
      else if texts.includes haystack "ExpiredSignalSignature"
      then classified_broadcast_error "expired_signal_signature" "signature deadline has expired"
          false text (some "ExpiredSignalSignature")
      else if texts.includes haystack "InvalidSignalSignature"
      then classified_broadcast_error "invalid_signal_signature"
          "wallet signature does not match the submitter payload" false text
          (some (invalid_reason name))
      else classify_unnamed haystack text
