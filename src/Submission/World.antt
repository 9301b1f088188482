-- ===== src/Submission/World.antt =====
-- What the submission service runs in: the collaborators that it is given, the store behind it, and
-- the effects that outlive a call.
use uvp_chain_services.Prelude.{ℕ, suc, String, Bool, Option, List, [], ◌∷◌, ◌++◌, if◌then◌else◌}
use uvp_chain_services.Prelude.Exec.{Outcome, done, thrown, Exec}
use uvp_chain_services.Submission.Types.{Broadcast, Prepared, TypedData, Evidence}
use uvp_chain_services.Submission.Store.{Store}

-- `product` is a `ProductSubmissionError` by its status and code, without its message and details;
-- `external` is any other exception.
pub data Error : Type 0 where
  product : ℕ → String → Error
  external : String → Error

pub record BroadcastRequest : Type 0 where
  pub prepared : Prepared
  pub signature : String
  pub recovered_submitter : String
  pub evidence : List Evidence

pub record AuditEvent : Type 0 where
  pub kind : String
  pub action : String
  pub outcome : String
  pub prepare_id : String
  pub submission_id : Option String
  pub tx_hash : Option String
  pub error_code : Option String
  pub retryable : Option Bool

pub record BindRequest : Type 0 where
  pub evidence_id : String
  pub submission_id : String
  pub tx_hash : String
  pub order_id : String
  pub onchain_order_id : String
  pub source_id : String
  pub signal_id : String
  pub bound_at : ℕ
  pub binder : String

-- one entry of an evidence bundle
pub record Document : Type 0 where
  pub evidence_id : String
  pub payload_hash : String
  pub payload_ref : String

-- the documents that `hashCanonicalJson` is called on
pub data HashInput : Type 0 where
  bundle : List Document → HashInput
  idempotency :
      (order_id onchain_order_id task_id stage signal_name submitter nonce : String) → HashInput
  signature : String → HashInput

pub record Classified : Type 0 where
  pub error_code : String
  pub message : String
  pub retryable : Bool

-- The collaborators. What may differ from call to call is a function of the number of calls so far:
-- clock, identifiers, the chain, and which calls of the store, the audit sink and the evidence
-- service fail.
pub record Env : Type 0 where
  pub now : ℕ → ℕ
  pub new_prepare_id : ℕ → String
  pub new_submission_id : ℕ → String
  pub new_nonce : ℕ → String
  pub broadcast : ℕ → BroadcastRequest → Outcome String Broadcast
  pub store_fails : ℕ → Bool
  pub audit_fails : ℕ → Bool
  pub bind_fails : ℕ → Bool
  pub recover : TypedData → String → Option String
  pub normalize_address : String → Option String
  pub lower_case : String → String
  pub hash : HashInput → String
  pub classify : Error → Classified

pub record Config : Type 0 where
  pub ttl_seconds : ℕ
  pub chain_id : ℕ
  pub verifying_contract : String
  pub attempts_broadcast : Bool  -- false only where the adapter says `attemptsBroadcast: false`
  pub has_transaction : Bool  -- the store has `withTransaction`
  pub has_release : Bool  -- the store has `releaseNonce`
  pub has_bind : Bool  -- the evidence service has `bindEvidence`

pub record World : Type 0 where
  pub tick : ℕ
  pub store : Store
  pub audits : List AuditEvent
  pub broadcasts : List BroadcastRequest
  pub binds : List BindRequest

abbrev pub Action : Type 0 → Type 0
Action A = Exec Error World A

abbrev pub next : World → World
next w = record w { tick = suc w.tick }

unfoldable pub ask : {A : Type 0} → (ℕ → A) → Action A
ask f w = (done (f w.tick), next w)

-- a call of the store: it may fail, and then changes nothing
unfoldable pub call_store : {A : Type 0} → Env → (Store → A × Store) → Action A
call_store env f w =
    if env.store_fails w.tick
    then (thrown (external "store"), next w)
    else (let (a, s) = f w.store in (done a, record w { tick = suc w.tick; store = s }))

unfoldable pub write : Env → (Store → Store) → Action (Unit {0})
unfolding call_store
write env f = call_store env (λ s. (tt, f s))

unfoldable pub read : {A : Type 0} → Env → (Store → A) → Action A
unfolding call_store
read env f = call_store env (λ s. (f s, s))

unfoldable pub record_audit : Env → AuditEvent → Action (Unit {0})
record_audit env event w =
    if env.audit_fails w.tick
    then (thrown (external "audit"), next w)
    else (done tt, record w { tick = suc w.tick; audits = w.audits ++ event ∷ [] })

abbrev pub commit :
    Env → Store → Outcome Error (Unit {0}) → World → Outcome Error (Unit {0}) × World
commit env before (thrown e) w = (thrown e, record w { store = before })
commit env before (done a) w =
    if env.store_fails w.tick
    then (thrown (external "store"), record w { tick = suc w.tick; store = before })
    else (done a, next w)

-- `withSubmissionStoreTransaction`: with transactions a failure, that of the commit included, leaves
-- the store as it was; without them the operation simply runs.
unfoldable pub transaction : Config → Env → Action (Unit {0}) → Action (Unit {0})
transaction cfg env m w =
    if cfg.has_transaction then (let (r, w') = m w in commit env w.store r w') else m w

abbrev pub broadcast_outcome : Outcome String Broadcast → World → Outcome Error Broadcast × World
broadcast_outcome (done b) w = (done b, w)
broadcast_outcome (thrown text) w = (thrown (external text), w)

-- the adapter's `broadcast`: whatever comes back, the request has been made
unfoldable pub send : Env → BroadcastRequest → Action Broadcast
send env request w =
    broadcast_outcome (env.broadcast w.tick request)
      (record w { tick = suc w.tick; broadcasts = w.broadcasts ++ request ∷ [] })
