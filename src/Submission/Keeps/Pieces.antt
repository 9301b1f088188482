-- ===== src/Submission/Keeps/Pieces.antt =====
-- Which properties of the store and of the requests sent the parts of `submit` keep.
use uvp_chain_services.Prelude.{
  ℕ, String, Bool, true, false, Option, none, some, List, [], ◌∷◌, ◌++◌, arith,
}
use uvp_chain_services.Submission.Types.{Broadcast, PreparedRecord, Evidence, Submission}
use uvp_chain_services.Submission.Store.{
  Store, mark_prepared_used, reserve_nonce, release_nonce, put_submission,
}
use uvp_chain_services.Submission.World.{Error, BroadcastRequest, BindRequest, Env, Config, Action}
use uvp_chain_services.Submission.Submit.{
  SubmitInput, Verified, reserve, load_prepared, releasing, usable, or_throw, verify_wallet, expire,
  require, refuse_duplicate, normalize_address, normalize_signature, recover_signature,
}
use uvp_chain_services.Submission.Broadcast.{
  persist_failed, unsettled, settle, give_back, settle_sent,
}
use uvp_chain_services.Submission.Finish.{
  bind, bind_each, finish, bind_or_report, bind_submitted_evidence,
}
use uvp_chain_services.Submission.Keeps.{
  Property, Keeps, keeps_rules, call_store, transaction, write, Keeps-call_store, Keeps-write,
  Keeps-transaction, Keeps-throw, Keeps-pure, Keeps-if, Keeps-bind,
}

-- kept by a rollback and by the store's writes
pub record Quiet (P : Property) : Type 0 where
  pub rollback : (s s' : Store) (l l' : List BroadcastRequest) → P s l → P s' l' → P s l'
  pub put :
      (x : Submission) (s : Store) (l : List BroadcastRequest) → P s l → P (put_submission x s) l
  pub mark :
      (id by : String) (at : ℕ) (s : Store) (l : List BroadcastRequest)
      → P s l
      → P (mark_prepared_used id by at s) l
  pub reserving :
      (key : String) (before : Option ℕ) (at : ℕ) (s : Store) (l : List BroadcastRequest)
      → P s l
      → P (reserve_nonce key before at s).1 l
  pub release :
      (key : String) (s : Store) (l : List BroadcastRequest) → P s l → P (release_nonce key s) l

-- kept by a request too
pub record Stable (P : Property) : Type 0 where
  pub quiet : Quiet P
  pub sending :
      (request : BroadcastRequest) (s : Store) (l : List BroadcastRequest)
      → P s l
      → P s (l ++ request ∷ [])

module _ {P : Property} (q : Quiet P) (cfg : Config) (env : Env) where
  write_put : (x : Submission) → Keeps P (write env (put_submission x))
  write_put x = Keeps-write env (put_submission x) (q.put x)

  write_mark : (id by : String) (at : ℕ) → Keeps P (write env (mark_prepared_used id by at))
  write_mark id by at = Keeps-write env (mark_prepared_used id by at) (q.mark id by at)

  write_release : (key : String) → Keeps P (releasing cfg env key)
  write_release key =
      Keeps-if cfg.has_release _ _ (Keeps-write env (release_nonce key) (q.release key))
        (Keeps-pure tt)

  in_transaction : (m : Action (Unit {0})) → Keeps P m → Keeps P (transaction cfg env m)
  in_transaction m km = Keeps-transaction cfg env m q.rollback km

  ruleset quiet_rules = (keeps_rules, write_put, write_mark, write_release, in_transaction)

  pub or_throw-Keeps : {A : Type 0} (o : Option A) (e : Error) → Keeps P (or_throw o e)
  or_throw-Keeps none e = Keeps-throw e
  or_throw-Keeps (some a) e = Keeps-pure a

  pub require-Keeps : (b : Bool) (e : Error) → Keeps P (require cfg env b e)
  require-Keeps true e = Keeps-pure tt
  require-Keeps false e = Keeps-throw e

  usable-Keeps : (task_id : String) (o : Option PreparedRecord) → Keeps P (usable cfg env task_id o)
  usable-Keeps task_id none = Keeps-throw _
  usable-Keeps task_id (some p) = search keeps_rules

  pub load_prepared-Keeps : (task_id id : String) → Keeps P (load_prepared cfg env task_id id)
  unfolding load_prepared
  load_prepared-Keeps task_id id = search (keeps_rules, usable-Keeps)

  pub verify_wallet-Keeps :
      (p : PreparedRecord) (input : SubmitInput) → Keeps P (verify_wallet cfg env p input)
  unfolding verify_wallet normalize_address normalize_signature recover_signature
  verify_wallet-Keeps p input = search (keeps_rules, or_throw-Keeps, require-Keeps) depth 14

  pub expire-Keeps : (p : PreparedRecord) (v : Verified) → Keeps P (expire cfg env p v)
  unfolding expire
  expire-Keeps p v = search (keeps_rules, write_put, write_mark, in_transaction) depth 14

  refuse_duplicate-Keeps : (p : PreparedRecord) (b : Bool) → Keeps P (refuse_duplicate cfg env p b)
  refuse_duplicate-Keeps p true = Keeps-pure tt
  refuse_duplicate-Keeps p false = search keeps_rules

  reserving-Keeps :
      (key : String) (before : Option ℕ) (at : ℕ)
      → Keeps P (call_store env (reserve_nonce key before at))
  reserving-Keeps key before at =
      Keeps-call_store env (reserve_nonce key before at) (q.reserving key before at)

  pub reserve-Keeps : (p : PreparedRecord) → Keeps P (reserve cfg env p)
  unfolding reserve
  reserve-Keeps p = search (keeps_rules, reserving-Keeps, refuse_duplicate-Keeps) depth 14

  pub settle-Keeps :
      (p : PreparedRecord) (b : Broadcast) (x : Submission) → Keeps P (settle cfg env p b x)
  unfolding settle
  settle-Keeps p b x = search (keeps_rules, write_put, write_mark, write_release) depth 14

  pub give_back-Keeps :
      (p : PreparedRecord) (v : Verified) (e : Error) → Keeps P (give_back cfg env p v e)
  unfolding give_back
  give_back-Keeps p v e = search (keeps_rules, write_put, write_release, in_transaction) depth 14

  persist_failed-Keeps :
      (p : PreparedRecord) (v : Verified) (id tx : String) (e : Error)
      → Keeps P (persist_failed cfg env p v id tx e)
  unfolding persist_failed
  persist_failed-Keeps p v id tx e = search (keeps_rules, write_put) depth 14

  pub unsettled-Keeps :
      (p : PreparedRecord) (v : Verified) (x : Submission) (e : Error)
      → Keeps P (unsettled cfg env p v x e)
  unfolding unsettled
  unsettled-Keeps p v x e = search (Keeps-if, persist_failed-Keeps, give_back-Keeps)

  pub settle_sent-Keeps :
      (p : PreparedRecord) (v : Verified) (sent : Broadcast × Submission)
      → Keeps P (settle_sent cfg env p v sent)
  settle_sent-Keeps p v (b, x) =
      search (keeps_rules, in_transaction, settle-Keeps, unsettled-Keeps) depth 10

  bind-Keeps : (request : BindRequest) → Keeps P (bind env request)
  unfolding bind
  bind-Keeps request = record { at = λ w h. ground (arith, h) }

  bind_each-Keeps :
      (p : PreparedRecord) (x : Submission) (l : List Evidence) → Keeps P (bind_each cfg env p x l)
  unfolding bind_each
  bind_each-Keeps p x [] = Keeps-pure tt
  bind_each-Keeps p x (e ∷ l) = Keeps-bind _ _ (bind-Keeps _) (λ _. bind_each-Keeps p x l)

  pub finish-Keeps : (p : PreparedRecord) (x : Submission) → Keeps P (finish cfg env p x)
  unfolding finish bind_or_report bind_submitted_evidence
  finish-Keeps p x = search (keeps_rules, bind_each-Keeps) depth 14
