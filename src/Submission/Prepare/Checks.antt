-- ===== src/Submission/Prepare/Checks.antt =====
-- What the checks of `prepareSubmit` do, and what they let through.
use uvp_chain_services.Submission.Submit.{normalize_address, or_throw}
use uvp_chain_services.Prelude.{String, Bool, true, false, Option, none, some, List, [], ◌∷◌}
use uvp_chain_services.Submission.Types.{Evidence}
use uvp_chain_services.Submission.World.{Error, Env, Config}
use uvp_chain_services.Submission.Evidence.{
  EvidenceReader, Expected, resolve_each, resolve_evidence, resolve_one, found_or, unless,
  validate_evidence, unique_non_empty,
}
use uvp_chain_services.Submission.Prepare.{
  normalize_address, contract_for, gather, chain_signal_for, resolve_plan, plan_or_throw,
}
use uvp_chain_services.Submission.Task.{Readers, PrepareInput, Task, ChainSignal, PlanLookup}
use uvp_chain_services.Submission.Keeps.{
  Property, Keeps, keeps_rules, Keeps-pure, Keeps-throw, Keeps-bind,
}

module _ {P : Property} where
  unless-Keeps : (b : Bool) (e : Error) → Keeps P (unless b e)
  unless-Keeps true e = Keeps-throw e
  unless-Keeps false e = Keeps-pure tt

  found_or-Keeps : {A : Type 0} (o : Option A) (e : Error) → Keeps P (found_or o e)
  found_or-Keeps none e = Keeps-throw e
  found_or-Keeps (some a) e = Keeps-pure a

  or_throw-Keeps : {A : Type 0} (o : Option A) (e : Error) → Keeps P (or_throw o e)
  or_throw-Keeps none e = Keeps-throw e
  or_throw-Keeps (some a) e = Keeps-pure a

  ruleset check_rules = (keeps_rules, unless-Keeps, found_or-Keeps, or_throw-Keeps)

  validate_evidence-Keeps : (e : Evidence) (x : Expected) → Keeps P (validate_evidence e x)
  unfolding validate_evidence
  validate_evidence-Keeps e x = search check_rules depth 14

  resolve_one-Keeps :
      (r : EvidenceReader) (x : Expected) (id : String) → Keeps P (resolve_one r x id)
  unfolding resolve_one
  resolve_one-Keeps r x id = search (check_rules, validate_evidence-Keeps) depth 14

  resolve_each-Keeps :
      (r : EvidenceReader) (x : Expected) (ids : List String) → Keeps P (resolve_each r x ids)
  unfolding resolve_each
  resolve_each-Keeps r x [] = Keeps-pure []
  resolve_each-Keeps r x (id ∷ ids) =
      Keeps-bind _ _ (resolve_one-Keeps r x id)
        (λ e. Keeps-bind _ _ (resolve_each-Keeps r x ids) (λ l. Keeps-pure (e ∷ l)))

  resolve_evidence-Keeps :
      (r : EvidenceReader) (x : Expected) (ids : List String) → Keeps P (resolve_evidence r x ids)
  unfolding resolve_evidence unique_non_empty
  resolve_evidence-Keeps r x ids = search (check_rules, resolve_each-Keeps) depth 14

  module _ (cfg : Config) (env : Env) (r : Readers) where
    chain_signal_for-Keeps : (t : Task) → Keeps P (chain_signal_for cfg env r t)
    unfolding chain_signal_for
    chain_signal_for-Keeps t = search check_rules depth 14

    plan_or_throw-Keeps : (l : PlanLookup) → Keeps P (plan_or_throw cfg env r l)
    plan_or_throw-Keeps (PlanLookup.resolved o) = Keeps-pure o
    plan_or_throw-Keeps PlanLookup.ambiguous = Keeps-throw _
    plan_or_throw-Keeps (PlanLookup.broken e) = Keeps-throw e

    resolve_plan-Keeps : (s : ChainSignal) → Keeps P (resolve_plan cfg env r s)
    unfolding resolve_plan
    resolve_plan-Keeps s = search (check_rules, plan_or_throw-Keeps)

    contract_for-Keeps : (t : Task) → Keeps P (contract_for cfg env r t)
    unfolding contract_for normalize_address
    contract_for-Keeps t = search check_rules

    address-Keeps : (a : String) → Keeps P (normalize_address cfg env a)
    unfolding normalize_address
    address-Keeps a = search check_rules

    pub gather-Keeps : (id : String) (input : PrepareInput) → Keeps P (gather cfg env r id input)
    unfolding gather
    gather-Keeps id input =
        search
          (
            check_rules, chain_signal_for-Keeps, resolve_plan-Keeps, contract_for-Keeps,
            address-Keeps, resolve_evidence-Keeps,
          )
          depth 24
