-- ===== src/Relay/Slots.antt =====
-- The counts of broadcasts in flight, by order and by submitter.
use uvp_chain_services.Prelude.{
  ℕ, ◌+◌, ◌-◌, String, ◌≡◌, ◌==◌, arith, Dict, get, put, delete, or_default, if◌then◌else◌, nat_eq,
  Bool-cases, get-put, inl, eq_iff, get-delete, inr,
}

-- `counts.get(key) ?? 0`
abbrev pub count_of : String → Dict ℕ → ℕ
count_of k m = or_default (get k m) 0

unfoldable pub acquire_slot : String → Dict ℕ → Dict ℕ
acquire_slot k m = put k (count_of k m + 1) m

-- `releaseInFlight`: a count that falls to zero is deleted
unfoldable pub release_in_flight : String → Dict ℕ → Dict ℕ
release_in_flight k m =
    let next = or_default (get k m) 1 - 1 in if nat_eq next 0 then delete k m else put k next m

pub count_of-acquire_slot :
    (k j : String) (m : Dict ℕ)
    → count_of j (acquire_slot k m) ≡ (if k == j then count_of j m + 1 else count_of j m)
unfolding acquire_slot
count_of-acquire_slot k j m = rw get-put (ground (arith, eq_iff k j))

pub count_of-release_in_flight :
    (k j : String) (m : Dict ℕ)
    → count_of j (release_in_flight k m) ≡ (if k == j then count_of j m - 1 else count_of j m)
unfolding release_in_flight
count_of-release_in_flight k j m = elim (Bool-cases (nat_eq (or_default (get k m) 1 - 1) 0)) [
  | inl e ↦ simp (e, get-delete) (ground (arith, eq_iff k j, e))
  | inr e ↦ simp (e, get-put) (ground (arith, eq_iff k j, e))
]
