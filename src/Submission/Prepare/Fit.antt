-- ===== src/Submission/Prepare/Fit.antt =====
-- What a preparation that succeeds has checked.
use uvp_chain_services.Prelude.{
  String, true, false, some, List, [], ◌∷◌, ◌≡◌, arith, is_bytes32, All, ◌==◌, zero_bytes32, nat_eq,
  subst, length, Option, refl, ◌∙◌, ap, none,
}
use uvp_chain_services.Prelude.Exec.{done, ◌>>=◌, lift, pure, throw}
use uvp_chain_services.Submission.Types.{Evidence}
use uvp_chain_services.Submission.World.{World, Env, Config, product}
use uvp_chain_services.Submission.Evidence.{
  EvidenceReader, Expected, resolve_one, validate_evidence, resolve_evidence, is_usable,
  resolve_each, mismatch, found_or, unless, unique_non_empty,
}
use uvp_chain_services.Submission.Prepare.{resolve_plan, plan_or_throw, normalize_plan_id, product}
use uvp_chain_services.Submission.Task.{Readers, ChainSignal, PlanLookup}
use uvp_chain_services.Prelude.Runs.{bind-done, pure_value, returned}

-- evidence that may be submitted for the order, the task and the stage
abbrev pub IsFit : Expected → Evidence → Type 0
IsFit x e =
    (is_usable e.status ≡ true)
    × (mismatch e.order_id x.order_id ≡ false)
    × (mismatch e.task_id x.task_id ≡ false)
    × ((e.stage_identifier == x.stage_identifier) ≡ true)

validate_evidence-done :
    (e : Evidence) (x : Expected) (w : World) → (validate_evidence e x w).0 ≡ done tt → IsFit x e
unfolding validate_evidence ◌>>=◌
validate_evidence-done e x w h = ground arith

module _ (r : EvidenceReader) (x : Expected) where
  resolve_one-done :
      (id : String) (e : Evidence) (w : World) → (resolve_one r x id w).0 ≡ done e → IsFit x e
  unfolding resolve_one
  resolve_one-done id e w h =
      let (o, h₁, e₁) = bind-done (lift (r.get_evidence id)) _ w h in
      let (y, h₂, e₂) = bind-done (found_or o _) _ _ (rw e₁ at h) in
      let (u, h₃, e₃) = bind-done (validate_evidence y x) _ _ (rw e₂ at (rw e₁ at h)) in
      let fit = validate_evidence-done y x _ h₃ in
      let rest = rw e₃ at (rw e₂ at (rw e₁ at h)) in
      let (q, h₄, e₄) = bind-done (lift (r.get_proof id)) _ _ rest in
      let (s, h₅, e₅) = bind-done (found_or q _) _ _ (rw e₄ at rest) in
      let same = returned _ y e _ (rw e₅ at (rw e₄ at rest)) in subst (IsFit x) same fit

  resolve_each-done :
      (ids : List String) (es : List Evidence) (w : World)
      → (resolve_each r x ids w).0 ≡ done es
      → All (IsFit x) es
  unfolding resolve_each
  resolve_each-done [] es w h = subst (All (IsFit x)) (pure_value _ [] es w refl h) tt
  resolve_each-done (id ∷ ids) es w h =
      let (e, h₁, e₁) = bind-done (resolve_one r x id) _ w h in
      let w₁ = (resolve_one r x id w).1 in
      let rest = rw e₁ at h in
      let (l, h₂, e₂) = bind-done (resolve_each r x ids) _ w₁ rest in
      let same = pure_value _ (e ∷ l) es _ e₂ rest in
      let fits : All (IsFit x) (e ∷ l) =
        (resolve_one-done id e w h₁, resolve_each-done ids l w₁ h₂) in
      subst (All (IsFit x)) same fits

  pub resolve_evidence-done :
      (ids : List String) (es : List Evidence) (w : World)
      → (resolve_evidence r x ids w).0 ≡ done es
      → All (IsFit x) es
  unfolding resolve_evidence
  resolve_evidence-done ids es w h =
      let (u, h₁, e₁) = bind-done (unless (nat_eq (length ids) 0) _) _ w h in
      let (l, h₂, e₂) = bind-done (unique_non_empty r x ids) _ _ (rw e₁ at h) in
      resolve_each-done l es _ (rw e₂ at (rw e₁ at h))

-- the plan that a signature commits to: a bytes32 text of the projection, in lower case, not zero
pub record IsResolved (env : Env) (r : Readers) (order_id plan_id : String) : Type 0 where
  pub answer : String
  pub projected : r.plan_of order_id ≡ PlanLookup.resolved (some answer)
  pub well_formed : is_bytes32 answer ≡ true
  pub lowered : plan_id ≡ env.lower_case answer
  pub not_zero : (plan_id == zero_bytes32) ≡ false

module _ (cfg : Config) (env : Env) (r : Readers) where
  normal_plan :
      (order_id plan_id : String) (o : Option String) (w : World)
      → r.plan_of order_id ≡ PlanLookup.resolved o
      → (found_or (normalize_plan_id env o) (product 409 "order_plan_unresolved") w).0
        ≡ done plan_id
      → IsResolved env r order_id plan_id
  unfolding normalize_plan_id throw pure
  normal_plan order_id plan_id none w p h = cc
  normal_plan order_id plan_id (some v) w p h = record {
    answer = v;
    projected = p;
    well_formed = ground arith;
    lowered = ground arith;
    not_zero = ground arith;
  }

  resolve_plan-IsResolved :
      (order_id plan_id : String) (o : Option String) (l : PlanLookup)
      → r.plan_of order_id ≡ l
      → (w w' : World) → (plan_or_throw cfg env r l w).0 ≡ done o
      → (found_or (normalize_plan_id env o) (product 409 "order_plan_unresolved") w').0
        ≡ done plan_id
      → IsResolved env r order_id plan_id
  resolve_plan-IsResolved order_id plan_id o (PlanLookup.resolved a) p w w' h k =
      let same = pure_value _ a o w refl h in
      normal_plan order_id plan_id o w' (p ∙ ap PlanLookup.resolved same) k
  resolve_plan-IsResolved order_id plan_id o PlanLookup.ambiguous p w w' h k = unfold throw in cc
  resolve_plan-IsResolved order_id plan_id o (PlanLookup.broken e) p w w' h k = unfold throw in cc

  pub resolve_plan-done :
      (s : ChainSignal) (plan_id : String) (w : World)
      → (resolve_plan cfg env r s w).0 ≡ done plan_id
      → IsResolved env r s.order_id plan_id
  unfolding resolve_plan
  resolve_plan-done s plan_id w h =
      let (o, h₁, e₁) = bind-done (plan_or_throw cfg env r (r.plan_of s.order_id)) _ w h in
      resolve_plan-IsResolved s.order_id plan_id o (r.plan_of s.order_id) refl _ _ h₁ (rw e₁ at h)
