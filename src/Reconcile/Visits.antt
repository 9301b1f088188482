-- ===== src/Reconcile/Visits.antt =====
-- Which properties of the books the parts of a pass keep.
use uvp_chain_services.Reconcile.Registrations.{
  reconcile_registration, registration_projection_confirmation, carry_draft,
}
use uvp_chain_services.Reconcile.Governance.{
  reconcile_governance_log, governance_projection_confirmation, put_log, reconciled_log,
}
use uvp_chain_services.Prelude.{String, ℕ, Bool, List, Option, ◌∷◌, [], some, none, Dict}
use uvp_chain_services.Reconcile.Submissions.{
  reconcile_submission, submission_projection_confirmation, put_in_store, reconciled,
}
use Prim.Native.Nat.{ℕ}
use Prim.Native.String.{String, ◌∷◌}
use uvp_chain_services.Reconcile.Types.{Registration, Resolved, TxLog, Draft}
use uvp_chain_services.Submission.Types.{Submission}
use uvp_chain_services.Reconcile.World.{Sources, Summary, Work, Books, tally_up}
use uvp_chain_services.Reconcile.Pass.{
  isolated, visit_evidence, visit_log, visit_submission, visit_registration, repair_each,
  repair_submission_evidence_binds, repair_one,
}
use uvp_chain_services.Reconcile.Keeps.{
  OfRows, Holds, Holds-pure, Holds-bind, Holds-attempt, Holds-change, Holds-tally_up, Holds-look,
  Holds-consult, Holds-clock, Holds-if, Holds-audit, Holds-bind_evidence, resolve_outcome-Holds, At,
}

module _ {P : OfRows} (env : Sources) where
  pub reconcile_submission-Holds :
      (x : Submission)
      → ((o : Resolved) (w : Books) → At P w → At P (put_in_store (reconciled o x) w))
      → Holds P (reconcile_submission env x)
  unfolding reconcile_submission submission_projection_confirmation
  reconcile_submission-Holds x k =
      Holds-bind _ _
        (resolve_outcome-Holds env _ _ (Holds-bind _ _ (Holds-consult _) λ o. Holds-pure _) _)
        λ o. Holds-bind _ _ (Holds-change env _ (k o)) λ _. Holds-pure _

  pub reconcile_governance_log-Holds :
      (l : TxLog)
      → ((o : Resolved) (w : Books) → At P w → At P (put_log (reconciled_log o l) w))
      → Holds P (reconcile_governance_log env l)
  unfolding reconcile_governance_log governance_projection_confirmation
  reconcile_governance_log-Holds l k =
      Holds-bind _ _
        (resolve_outcome-Holds env _ _ (Holds-bind _ _ (Holds-consult _) λ o. Holds-pure _) _)
        λ o.
          Holds-bind _ _ (Holds-change env _ (k o)) λ _.
            Holds-bind _ _ (Holds-if _ _ _ (Holds-audit env _) (Holds-pure tt)) λ _. Holds-pure _

  carry_draft-Holds :
      (r : Registration) (at : ℕ) (d : Option Draft) → Holds P (carry_draft env r at d)
  carry_draft-Holds r at none = Holds-pure tt
  carry_draft-Holds r at (some d) = Holds-change env _ λ w h. h

  pub reconcile_registration-Holds : (r : Registration) → Holds P (reconcile_registration env r)
  unfolding reconcile_registration registration_projection_confirmation
  reconcile_registration-Holds r =
      Holds-bind _ _
        (resolve_outcome-Holds env _ _ (Holds-bind _ _ (Holds-consult _) λ o. Holds-pure _) _)
        λ o. Holds-bind _ _ (Holds-change env _ λ w h. h) λ _.
          Holds-bind _ _ (Holds-look env _)
            λ d. Holds-bind _ _ (carry_draft-Holds _ _ d) λ _. Holds-pure _

  repair_one-Holds :
      (x : Submission) (id : String) (s : Option String) → Holds P (repair_one env x id s)
  repair_one-Holds x id none = Holds-pure _
  repair_one-Holds x id (some s) =
      Holds-if _ _ _
        (Holds-bind _ _ (Holds-clock env)
          λ at. Holds-bind _ _ (Holds-bind_evidence env _) λ _. Holds-pure _)
        (Holds-pure _)

  repair_each-Holds : (x : Submission) (ids : List String) → Holds P (repair_each env x ids)
  unfolding repair_each
  repair_each-Holds x [] = Holds-pure _
  repair_each-Holds x (id ∷ ids) = Holds-bind _ _ (Holds-consult _) λ s.
      Holds-bind _ _ (repair_one-Holds x id s)
        λ first. Holds-bind _ _ (repair_each-Holds x ids) λ rest. Holds-pure _

  pub repair-Holds : (x : Submission) → Holds P (repair_submission_evidence_binds env x)
  unfolding repair_submission_evidence_binds
  repair-Holds x =
      Holds-if _ _ _
        (Holds-bind _ _ (repair_each-Holds x _) λ ids.
          Holds-bind _ _ (Holds-if _ _ _ (Holds-audit env _) (Holds-pure tt)) λ _. Holds-pure _)
        (Holds-pure 0)

-- for a property of the rows, which no count changes
module _ {P : OfRows} (env : Sources)
    (free : (d : Dict Submission) (ls : List TxLog) (s t : Summary) → P d ls s → P d ls t) where
  uncounted : (f : Summary → Summary) → Holds P (tally_up f)
  uncounted f = Holds-tally_up f λ w h. free _ _ _ _ h

  isolated-Holds :
      {A : Type 0} (checked : Summary → Summary) (is_bad : A → Bool) (m : Work A)
      → Holds P m
      → Holds P (isolated checked is_bad m)
  unfolding isolated
  isolated-Holds checked is_bad m k =
      Holds-bind _ _ (uncounted checked)
        λ _. Holds-attempt _ _ (Holds-bind _ _ k λ u. uncounted _) λ e. uncounted _

  pub visit_registration-Holds : (r : Registration) → Holds P (visit_registration env r)
  unfolding visit_registration
  visit_registration-Holds r = isolated-Holds _ _ _ (reconcile_registration-Holds env r)

  -- a submission's visit writes that submission, with an outcome in it
  pub visit_submission-Holds :
      (x : Submission)
      → ((o : Resolved) (w : Books) → At P w → At P (put_in_store (reconciled o x) w))
      → Holds P (visit_submission env x)
  unfolding visit_submission
  visit_submission-Holds x k =
      Holds-if _ _ _ (isolated-Holds _ _ _ (reconcile_submission-Holds env x k)) (Holds-pure tt)

  pub visit_log-Holds :
      (l : TxLog)
      → ((o : Resolved) (w : Books) → At P w → At P (put_log (reconciled_log o l) w))
      → Holds P (visit_log env l)
  unfolding visit_log
  visit_log-Holds l k =
      Holds-if _ _ _ (isolated-Holds _ _ _ (reconcile_governance_log-Holds env l k)) (Holds-pure tt)

  -- the sweep of evidence writes neither submissions nor logs
  pub visit_evidence-Holds : (x : Submission) → Holds P (visit_evidence env x)
  unfolding visit_evidence
  visit_evidence-Holds x =
      Holds-if _ _ _
        (Holds-bind _ _ (uncounted _) λ _.
          Holds-attempt _ _ (Holds-bind _ _ (repair-Holds env x) λ n. uncounted _) λ e. uncounted _)
        (Holds-pure tt)
