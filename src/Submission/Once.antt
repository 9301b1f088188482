-- ===== src/Submission/Once.antt =====
-- When a prepared submission counts as used up, and what a call for such a one does.
pub mod Recorded
pub mod Whole
pub mod Sends
pub mod History
use uvp_chain_services.Prelude.{
  String, true, Option, none, some, ◌≡◌, refl, suc, Bool-cases, ◌==◌, inl, inr, get,
}
use uvp_chain_services.Prelude.Exec.{Outcome, thrown, ◌>>=◌, throw, pure}
use uvp_chain_services.Submission.Types.{PreparedRecord, Submission}
use uvp_chain_services.Submission.World.{Error, World, Env, Config, read, product, external}
use uvp_chain_services.Submission.Submit.{SubmitInput, load_prepared, usable}
use uvp_chain_services.Submission.Finish.{submit}
use uvp_chain_services.Submission.Used.{is_used, is_used_entry}

abbrev pub Refused : Outcome Error Submission × World → World → Type 0
Refused (r, w') w =
    ((e : Error) × (r ≡ thrown e)) × (w'.store ≡ w.store) × (w'.broadcasts ≡ w.broadcasts)

module _ (cfg : Config) (env : Env) where
  usable-used :
      (task_id : String) (o : Option PreparedRecord) (w : World)
      → is_used_entry o ≡ true
      → ((e : Error) × (usable cfg env task_id o w ≡ (thrown e, w)))
  unfolding throw pure
  usable-used task_id none w h = absurd (cc)
  usable-used task_id (some p) w h = elim (Bool-cases (p.task_id == task_id)) [
    | inl e ↦ (product 409 "prepare_already_used", rw (e, h))
    | inr e ↦ (product 409 "prepare_task_mismatch", rw e)
  ]

  load_prepared-used :
      (task_id id : String) (w : World)
      → is_used id w.store ≡ true
      → ((e : Error) × (load_prepared cfg env task_id id w
            ≡ (thrown e, record w { tick = suc w.tick })))
  unfolding load_prepared read ◌>>=◌
  load_prepared-used task_id id w h = elim (Bool-cases (env.store_fails w.tick)) [
    | inl e ↦ (external "store", rw e)
    | inr e ↦
        let (x, q) =
          usable-used task_id (get id w.store.prepared) (record w { tick = suc w.tick }) h in
        (x, rw e q)
  ]

  pub submit-used-Refused :
      (task_id : String) (input : SubmitInput) (w : World)
      → is_used input.prepare_id w.store ≡ true
      → Refused (submit cfg env task_id input w) w
  unfolding submit ◌>>=◌
  submit-used-Refused task_id input w h =
      let (e, q) = load_prepared-used task_id input.prepare_id w h in rw q ((e, refl), refl, refl)
