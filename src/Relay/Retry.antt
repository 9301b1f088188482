-- ===== src/Relay/Retry.antt =====
-- The retry schedule, and the owner of a transaction hash.
use uvp_chain_services.Prelude.{
  ℕ, ◌+◌, ◌≤◌, String, true, false, Option, none, some, ◌≡◌, refl, arith, ◌==◌, Dict, truthy,
  or_default, Option-cases, inl, inr, get, List, [], ◌∷◌, get-put, eq_refl, eq_iff, subst, sym, ap,
  ◌∙◌, List, Bool-cases,
}
use uvp_chain_services.Submission.Types.{Broadcast}
use uvp_chain_services.Relay.Results.{
  Limits, Claim, retry_schedule, duplicate_tx_hash, tx_hash_of, failed_result, owned, owner_of,
  duplicate_after,
}

-- The next retry is scheduled no earlier than now, and no later than the longest delay from now.
pub retry_schedule_bounds :
    (lim : Limits) (attempts now t : ℕ)
    → retry_schedule lim attempts now ≡ some t
    → (now ≤ t) × (t ≤ now + lim.retry_max_ms)
unfolding retry_schedule
retry_schedule_bounds lim attempts now t h = ground arith

module _ (tx : String) (owners : Dict String) where
  -- a recorded hash belongs to the submission that recorded it
  owner_recorded :
      (key : String) (n : ℕ) (claim : Claim)
      → ((t k : String) → claim t k ≡ none)
      → (owned tx key n (owner_of claim tx key (get tx owners)) owners).0 ≡ none
      → get tx (owned tx key n (owner_of claim tx key (get tx owners)) owners).1 ≡ some key
  unfolding truthy
  owner_recorded key n claim silent free = elim (Option-cases (get tx owners)) [
    | inl e ↦ ground (arith, e, silent tx key, free, get-put tx tx key owners, eq_refl tx)
    | inr (o, e) ↦
        ground (arith, e, silent tx key, free, get-put tx tx key owners, eq_refl tx, eq_iff o key)
  ]

  other_refused :
      (key key' : String) (n : ℕ) (claim : Claim)
      → get tx owners ≡ some key
      → truthy (some key) ≡ true
      → (key == key') ≡ false
      → (owned tx key' n (owner_of claim tx key' (get tx owners)) owners).0
        ≡ some (
            Broadcast.failed (
              failed_result "duplicate_tx_hash"
                "broadcast returned a txHash already recorded for another submission" false n
                (some true)
                none))
  other_refused key key' n claim e full other = simp (e, full, other) refl

-- the check of another result leaves a hash that has an owner with it
owned-keeps :
    (tx name : String) (owners : Dict String) (key key' : String) (n' : ℕ) (claim : Claim)
    → truthy (some key) ≡ true
    → get tx owners ≡ some key
    → get tx (owned name key' n' (owner_of claim name key' (get name owners)) owners).1 ≡ some key
unfolding truthy
owned-keeps tx name owners key key' n' claim full e =
    ground (arith, e, full, get-put name tx key' owners, eq_iff name tx)

module _ (lower_case : String → String) (claim : Claim) where
  owned_at :
      (key : String) (b : Broadcast) (owners : Dict String) (n : ℕ)
      → truthy (tx_hash_of b) ≡ true
      → let tx = lower_case (or_default (tx_hash_of b) "") in
        duplicate_tx_hash lower_case claim key b owners n
        ≡ owned tx key n (owner_of claim tx key (get tx owners)) owners
  unfolding duplicate_tx_hash duplicate_after
  owned_at key b owners n h = simp h refl

  -- the owners of hashes after results of other calls, one after the other
  unfoldable pub record_all : List (String × Broadcast × ℕ) → Dict String → Dict String
  record_all [] owners = owners
  record_all ((key, b, n) ∷ rest) owners =
      record_all rest (duplicate_tx_hash lower_case claim key b owners n).1

  keeps_owner :
      (tx key : String) (owners : Dict String)
      → truthy (some key) ≡ true
      → get tx owners ≡ some key
      → (key' : String) (b' : Broadcast) (n' : ℕ)
      → get tx (duplicate_tx_hash lower_case claim key' b' owners n').1 ≡ some key
  unfolding duplicate_tx_hash duplicate_after
  keeps_owner tx key owners full e key' b' n' = elim (Bool-cases (truthy (tx_hash_of b'))) [
    | inl h ↦ simp h (
        owned-keeps tx (lower_case (or_default (tx_hash_of b') "")) owners key key' n' claim full e)
    | inr h ↦ simp h e
  ]

  keeps_owners :
      (tx key : String) (others : List (String × Broadcast × ℕ)) (owners : Dict String)
      → truthy (some key) ≡ true
      → get tx owners ≡ some key
      → get tx (record_all others owners) ≡ some key
  unfolding record_all
  keeps_owners tx key [] owners full e = e
  keeps_owners tx key ((key', b', n') ∷ rest) owners full e =
      keeps_owners tx key rest (duplicate_tx_hash lower_case claim key' b' owners n').1 full
        (keeps_owner tx key owners full e key' b' n')

  -- With no persistent store: once the result of one submission, whose idempotency key is not empty,
  -- was recorded under a hash, and whatever results of any submissions are checked after it, a result
  -- of another submission with the same hash, up to letter case, is turned into a failure that is not
  -- retried.
  pub duplicate_tx_hash-refused :
      (key key' : String) (b b' : Broadcast) (owners : Dict String) (n n' : ℕ)
      → ((t k : String) → claim t k ≡ none)
      → truthy (tx_hash_of b) ≡ true
      → truthy (tx_hash_of b') ≡ true
      → lower_case (or_default (tx_hash_of b) "") ≡ lower_case (or_default (tx_hash_of b') "")
      → truthy (some key) ≡ true
      → (key == key') ≡ false
      → (duplicate_tx_hash lower_case claim key b owners n).0 ≡ none
      → (others : List (String × Broadcast × ℕ))
      → (duplicate_tx_hash lower_case claim key' b'
          (record_all others (duplicate_tx_hash lower_case claim key b owners n).1)
          n').0
        ≡ some (
            Broadcast.failed (
              failed_result "duplicate_tx_hash"
                "broadcast returned a txHash already recorded for another submission" false n'
                (some true)
                none))
  duplicate_tx_hash-refused key key' b b' owners n n' silent h h' same full other free others =
      let tx = lower_case (or_default (tx_hash_of b) "") in
      let tx' = lower_case (or_default (tx_hash_of b') "") in
      let first = duplicate_tx_hash lower_case claim key b owners n in
      let at = owned_at key b owners n h in
      let owner : get tx first.1 ≡ some key =
        subst (λ (x : Option Broadcast × Dict String). get tx x.1 ≡ some key) (sym at)
          (owner_recorded tx owners key n claim silent (sym (ap (λ x. x.0) at) ∙ free)) in
      let later : Dict String = record_all others first.1 in
      ap (λ (x : Option Broadcast × Dict String). x.0) (owned_at key' b' later n' h')
      ∙ other_refused tx' later key key' n' claim
          (subst (λ t. get t later ≡ some key) same (keeps_owners tx key others first.1 full owner))
          full other
