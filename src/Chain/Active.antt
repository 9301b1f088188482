-- ===== src/Chain/Active.antt =====
-- What the replay keeps and what it removes, by event identifier.
use uvp_chain_services.Prelude.{
  String, Bool, false, Option, none, some, List, [], ◌∷◌, ◌≡◌, ◌==◌, arith, refl, get, get-put,
  get-delete, or_else, if◌then◌else◌, is_some, ◌∙◌, Bool-cases, inl, Option-cases, inr,
}
use uvp_chain_services.Chain.Replay.{
  Runtime, ChainEvent, Active, chain_event_key, take_event, take_events, replayed,
  sort_chain_events,
}

module _ {A : Type 0} (rt : Runtime) where
  -- the last event of the list with this identifier
  unfoldable pub last_with : String → List (ChainEvent A) → Option (ChainEvent A)
  last_with id [] = none
  last_with id (e ∷ es) =
      or_else (last_with id es) (if chain_event_key rt e == id then some e else none)

  -- what is active under an identifier, given the last event with it and what was active before
  abbrev pub live : Option (ChainEvent A) → Option (ChainEvent A) → Option (ChainEvent A)
  live none was = was
  live (some e) was = if e.removed then none else some e

  abbrev pub buried : Option (ChainEvent A) → Bool → Bool
  buried none was = was
  buried (some e) was = e.removed

  take_event-active :
      (e : ChainEvent A) (s : Active A) (id : String)
      → get id (take_event rt e s).active_by_event_id ≡ (
          if chain_event_key rt e == id
          then live (some e) (get id s.active_by_event_id)
          else get id s.active_by_event_id)
  unfolding take_event
  take_event-active e s id = elim (Bool-cases e.removed) [
    | inl h ↦ simp (h, get-delete) refl
    | inr h ↦ simp (h, get-put) refl
  ]

  take_event-removed :
      (e : ChainEvent A) (s : Active A) (id : String)
      → is_some (get id (take_event rt e s).removed_event_ids)
        ≡ (if chain_event_key rt e == id then e.removed else is_some (get id s.removed_event_ids))
  unfolding take_event
  take_event-removed e s id = elim (Bool-cases e.removed) [
    | inl h ↦ simp (h, get-put) (ground arith)
    | inr h ↦ simp (h, get-delete) (ground arith)
  ]

  take_events-active :
      (es : List (ChainEvent A)) (s : Active A) (id : String)
      → get id (take_events rt es s).active_by_event_id
        ≡ live (last_with id es) (get id s.active_by_event_id)
  unfolding take_events last_with
  take_events-active [] s id = refl
  take_events-active (e ∷ es) s id =
      take_events-active es (take_event rt e s) id ∙ elim (Option-cases (last_with id es)) [
        | inl h ↦ simp h (take_event-active e s id ∙ ground arith)
        | inr (x, h) ↦ simp h refl
      ]

  take_events-removed :
      (es : List (ChainEvent A)) (s : Active A) (id : String)
      → is_some (get id (take_events rt es s).removed_event_ids)
        ≡ buried (last_with id es) (is_some (get id s.removed_event_ids))
  unfolding take_events last_with
  take_events-removed [] s id = refl
  take_events-removed (e ∷ es) s id =
      take_events-removed es (take_event rt e s) id ∙ elim (Option-cases (last_with id es)) [
        | inl h ↦ simp h (take_event-removed e s id ∙ ground arith)
        | inr (x, h) ↦ simp h refl
      ]

  -- After a replay of events, taken in chain order, an event is active under an identifier exactly if
  -- it is the last event with this identifier and no tombstone; and the identifier is counted as
  -- removed exactly if its last event is a tombstone. An event that comes back after a tombstone is
  -- active again.
  pub replayed-last_with :
      (events : List (ChainEvent A)) (id : String)
      → let last = last_with id (sort_chain_events rt events) in
        (get id (replayed rt events).active_by_event_id ≡ live last none)
        × (is_some (get id (replayed rt events).removed_event_ids) ≡ buried last false)
  unfolding replayed get
  replayed-last_with events id = (
    take_events-active (sort_chain_events rt events) _ id,
    take_events-removed (sort_chain_events rt events) _ id,
  )
