-- ===== src/Relay/Verdict.antt =====
-- The flags of a classified error.
use uvp_chain_services.Prelude.{
  String, not, Option, ◌≡◌, contains, join, or_default, ◌∷◌, [], arith,
}
use uvp_chain_services.Relay.Classify.{
  Texts, classify_unnamed, classify_state_machine_broadcast_error, classified_broadcast_error,
  dead_letter_for_broadcast_error,
}

module _ (texts : Texts) where
  unnamed_settled :
      (haystack text : String)
      → (classify_unnamed texts haystack text).dead_letter
        ≡ not (classify_unnamed texts haystack text).retryable
  unfolding classify_unnamed classified_broadcast_error dead_letter_for_broadcast_error contains
  unnamed_settled haystack text = ground arith

  -- Every thrown broadcast error is classified as either retryable or a dead letter, and never as both:
  -- nothing that may not be retried is left without being reported as dead.
  pub classify_state_machine_broadcast_error_lem :
      (name : Option String) (text : String)
      → let c = classify_state_machine_broadcast_error texts name text in
        c.dead_letter ≡ not c.retryable
  unfolding classify_state_machine_broadcast_error classified_broadcast_error
      dead_letter_for_broadcast_error contains
  classify_state_machine_broadcast_error_lem name text =
      let haystack = join " " (or_default name "" ∷ text ∷ []) in
      ground (arith, unnamed_settled haystack text)
