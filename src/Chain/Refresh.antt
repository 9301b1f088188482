-- ===== src/Chain/Refresh.antt =====
-- Which signals complete a task: those of its plan, of authorizations and of delegations.
use uvp_chain_services.Prelude.{
  String, Bool, false, Option, none, some, List, [], ◌∷◌, ◌++◌, ◌==◌, ◌&&◌, ◌||◌, any, keep, map,
  values, or_default, if◌then◌else◌,
}
use uvp_chain_services.Chain.Pointers.{Sign}
use uvp_chain_services.Chain.Tasks.{
  SubmitSignal, SignalSource, SignalAuthorization, SignalDelegation, SignalCapability, Order,
  ChainTask, names, dedupe_task_submit_signals,
}

abbrev pub of_capability : SignalCapability → SubmitSignal
of_capability c = record {
  source_id = c.target_source_id;
  signal_id = c.signal_id;
  source = SignalSource.plan_capability;
}

abbrev pub of_authorization : SignalAuthorization → SubmitSignal
of_authorization a = record {
  source_id = a.source_id;
  signal_id = a.signal_id;
  source = SignalSource.authorization;
}

abbrev pub of_delegation : SignalDelegation → SubmitSignal
of_delegation d = record {
  source_id = d.source_id;
  signal_id = d.signal_id;
  source = SignalSource.authorization;
}

abbrev pub is_for_stage : String → SignalCapability → Bool
is_for_stage stage c = (c.stage_id == stage) && c.to_current

unfoldable pub plan_submit_signals_for_stage :
    Option (List SignalCapability) → String → List SubmitSignal
unfolding keep
plan_submit_signals_for_stage plan stage =
    map of_capability (keep (is_for_stage stage) (or_default plan []))

abbrev pub is_of_hook : String → SignalAuthorization → Bool
is_of_hook hook_id a = (hook_id == a.source_id) || (hook_id == a.signal_id)

unfoldable pub signal_authorization_matches_hook :
    SignalAuthorization → String → List SubmitSignal → Bool
unfolding any
signal_authorization_matches_hook a hook_id signals =
    is_of_hook hook_id a || any (names a.source_id a.signal_id) signals

-- the first loop: each authorization is tested against the signals found so far
unfoldable pub push_matching :
    String → List SignalAuthorization → List SubmitSignal → List SubmitSignal
push_matching hook_id [] signals = signals
push_matching hook_id (a ∷ rest) signals = push_matching hook_id rest (
    if signal_authorization_matches_hook a hook_id signals
    then signals ++ of_authorization a ∷ []
    else signals)

abbrev is_text : String → Option String → Bool
is_text text none = false
is_text text (some s) = s == text

abbrev pub targets : String → SignalDelegation → Bool
targets stage d = is_text stage d.target_stage_id

unfoldable pub candidate_signals :
    Order → Option (List SignalCapability) → ChainTask → List SubmitSignal
unfolding keep values
candidate_signals o plan t =
    push_matching t.hook_id (values o.authorizations)
      (plan_submit_signals_for_stage plan t.stage_identifier)
    ++ map of_authorization (keep (is_of_hook t.hook_id) (values o.authorizations))
    ++ map of_delegation (keep (targets t.stage_identifier) (values o.signal_delegations))

abbrev pub unless_empty : List SubmitSignal → Option (List SubmitSignal)
unless_empty [] = none
unless_empty (s ∷ ss) = some (s ∷ ss)

unfoldable pub refresh_task_submit_signals :
    (String → String → Sign) → Order → Option (List SignalCapability) → ChainTask → ChainTask
refresh_task_submit_signals locale o plan t = record t {
  submit_signals = unless_empty (dedupe_task_submit_signals locale (candidate_signals o plan t));
}
