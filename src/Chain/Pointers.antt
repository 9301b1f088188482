-- ===== src/Chain/Pointers.antt =====
-- The order of chain facts.
use uvp_chain_services.Prelude.{ℕ, String, Option, some, ltb, if◌then◌else◌}

-- the sign of a comparison's result
pub data Sign : Type 0 where
  before same after : Sign

pub record Pointer : Type 0 where
  pub chain_id : ℕ
  pub contract_address : String
  pub block_number : ℕ
  pub transaction_index : Option ℕ
  pub transaction_hash : String
  pub log_index : ℕ

-- the sign of `a - b`
abbrev pub difference : ℕ → ℕ → Sign
difference a b = if ltb a b then Sign.before else if ltb b a then Sign.after else Sign.same

-- the next key decides where the first one does not
abbrev pub or_then : Sign → Sign → Sign
or_then Sign.before next = Sign.before
or_then Sign.same next = next
or_then Sign.after next = Sign.after

-- positions in a block are compared only where both are known
abbrev pub index_difference : Option ℕ → Option ℕ → Sign
index_difference (some a) (some b) = difference a b
index_difference _ _ = Sign.same

-- `locale` is the sign of the runtime's `localeCompare`
unfoldable pub compare_chain_pointers : (String → String → Sign) → Pointer → Pointer → Sign
compare_chain_pointers locale a b = or_then (difference a.chain_id b.chain_id) (
    or_then (difference a.block_number b.block_number) (
      or_then (index_difference a.transaction_index b.transaction_index) (
        or_then (difference a.log_index b.log_index)
          (locale a.transaction_hash b.transaction_hash))))
