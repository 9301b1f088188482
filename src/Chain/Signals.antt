-- ===== src/Chain/Signals.antt =====
-- Which of several signals with one key a task keeps.
use uvp_chain_services.Prelude.{
  String, Option, none, some, List, [], ◌∷◌, ◌≡◌, arith, get, or_else, Dict, if◌then◌else◌, ◌∙◌,
  ◌==◌, ◌&&◌, Bool-cases, inl, eq_iff, inr, get-put,
}
use uvp_chain_services.Chain.Tasks.{
  SubmitSignal, signal_projection_key, put_signal, put_signals, is_plan, keeps_plan,
}

abbrev pub key_of : SubmitSignal → String
key_of s = signal_projection_key s.source_id s.signal_id

unfoldable pub first_plan : String → List SubmitSignal → Option SubmitSignal
first_plan k [] = none
first_plan k (s ∷ ss) =
    let rest = first_plan k ss in if (key_of s == k) && is_plan s.source then some s else rest

unfoldable pub last_named : String → List SubmitSignal → Option SubmitSignal
last_named k [] = none
last_named k (s ∷ ss) = or_else (last_named k ss) (if key_of s == k then some s else none)

abbrev chosen :
    Option SubmitSignal → Option SubmitSignal → Option SubmitSignal → Option SubmitSignal
chosen was plan last = if keeps_plan was then was else or_else plan (or_else last was)

put_signal-get :
    (s : SubmitSignal) (d : Dict SubmitSignal) (k : String)
    → get k (put_signal s d)
      ≡ (if key_of s == k then (if keeps_plan (get k d) then get k d else some s) else get k d)
unfolding put_signal
put_signal-get s d k = elim (Bool-cases (keeps_plan (get (key_of s) d))) [
  | inl h ↦ simp h (ground (arith, h, eq_iff (key_of s) k))
  | inr h ↦ simp (h, get-put) (ground (arith, h, eq_iff (key_of s) k))
]

put_signals-get :
    (ss : List SubmitSignal) (d : Dict SubmitSignal) (k : String)
    → get k (put_signals ss d) ≡ chosen (get k d) (first_plan k ss) (last_named k ss)
unfolding put_signals first_plan last_named
put_signals-get [] d k = ground arith
put_signals-get (s ∷ ss) d k =
    put_signals-get ss (put_signal s d) k ∙ rw (put_signal-get s d k) (ground arith)

-- Of the signals with one key, the deduplication keeps the first that the plan itself allows, and where
-- the plan allows none of them, the last.
pub put_signals_lem :
    (signals : List SubmitSignal) (k : String)
    → get k (put_signals signals []) ≡ or_else (first_plan k signals) (last_named k signals)
unfolding get
put_signals_lem signals k = put_signals-get signals [] k ∙ ground arith
