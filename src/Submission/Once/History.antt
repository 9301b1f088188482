-- ===== src/Submission/Once/History.antt =====
-- Histories of calls of `submit` after one that returned with a transaction hash.
use uvp_chain_services.Submission.Once.Whole.{submit-marks}
use uvp_chain_services.Submission.Keeps.Whole.{submit_all, submit_all-Keeps}
use uvp_chain_services.Prelude.{String, true, List, ◌≡◌, truthy, subst, sym}
use uvp_chain_services.Prelude.Exec.{done}
use uvp_chain_services.Submission.Types.{Submission}
use uvp_chain_services.Submission.World.{World, Env, Config}
use uvp_chain_services.Submission.Submit.{SubmitInput}
use uvp_chain_services.Submission.Finish.{submit}
use uvp_chain_services.Submission.Used.{is_used, IsKeyed, used-Stable}
use uvp_chain_services.Submission.Once.{Refused, submit-used-Refused}

module _ (cfg : Config) (env : Env) where
  -- Let `submit` return a submission that carries a transaction hash, with an adapter that attempts
  -- broadcasts and a store that keeps every prepared submission under its own identifier. Then,
  -- after any further calls with any inputs and whatever of the store, the audit sink, the chain or
  -- the evidence service fails, another call for the same prepared submission throws, sends nothing
  -- and leaves the store as it is.
  pub recorded-Refused :
      (task_id : String) (input : SubmitInput) (s : Submission) (w : World)
      → cfg.attempts_broadcast ≡ true
      → IsKeyed w.store
      → (submit cfg env task_id input w).0 ≡ done s
      → truthy s.tx_hash ≡ true
      → (calls : List (String × SubmitInput)) (again : String) (retry : SubmitInput)
      → retry.prepare_id ≡ input.prepare_id
      → let w' = submit_all cfg env calls (submit cfg env task_id input w).1 in
        Refused (submit cfg env again retry w') w'
  recorded-Refused task_id input s w ab keyed h t calls again retry same =
      let w₁ = (submit cfg env task_id input w).1 in
      let used₁ = submit-marks cfg env task_id input s w ab keyed h t in
      let used₂ = submit_all-Keeps (used-Stable input.prepare_id) cfg env calls w₁ used₁ in
      submit-used-Refused cfg env again retry (submit_all cfg env calls w₁)
        (subst (λ k. is_used k (submit_all cfg env calls w₁).store ≡ true) (sym same) used₂)
