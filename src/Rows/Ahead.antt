-- ===== src/Rows/Ahead.antt =====
-- How many of the rows of a store, given by their places in its order, lie ahead of a cursor.
use uvp_chain_services.Rows.{ScanCursor, RowKey, after_cursor, cursor_of}
use uvp_chain_services.Prelude.{
  ℕ, ◌≤◌, ◌<◌, String, Bool, true, false, Option, none, some, List, [], ◌∷◌, ◌≡◌, refl, arith, keep,
  length, All, ◌&&◌, ◌||◌, ltb, nat_eq, length-keep_agree, ◌⊎◌, inl, inr, Bool-cases, ltb→lt,
  ltb→le,
}

-- a strict order of texts, which is what `>` is
pub record IsStrict (above : String → String → Bool) : Type 0 where
  pub irreflexive : (a : String) → above a a ≡ false
  pub transitive : (a b c : String) → above a b ≡ true → above b c ≡ true → above a c ≡ true

lt_or_le : (a b : ℕ) → (a < b) ⊎ (b ≤ a)
lt_or_le a b = elim (Bool-cases (ltb a b)) [
  | inl e ↦ inl (ltb→lt a b e)
  | inr e ↦ inr (ltb→le a b e)
]

module _ (above : String → String → Bool) where
  -- whether a place is after a cursor
  unfoldable pub is_past : Option ScanCursor → ScanCursor → Bool
  is_past none y = true
  is_past (some c) y =
      ltb c.created_at y.created_at || (nat_eq y.created_at c.created_at && above y.row_id c.row_id)

  pub after_cursor-is_past :
      {A : Type 0} (key : RowKey A) (c : Option ScanCursor) (x : A)
      → after_cursor key above c x ≡ is_past c (cursor_of key x)
  unfolding after_cursor is_past
  after_cursor-is_past key none x = refl
  after_cursor-is_past key (some c) x = refl

  unfoldable pub ahead : Option ScanCursor → List ScanCursor → ℕ
  ahead c places = length (keep (is_past c) places)

  pub ahead-le-length :
      (c : Option ScanCursor) (places : List ScanCursor) → ahead c places ≤ length places
  unfolding ahead keep
  ahead-le-length c [] = omega arith
  ahead-le-length c (y ∷ ys) = ground (arith, ahead-le-length c ys)

  module _ (strict : IsStrict above) where
    not_past_itself : (y : ScanCursor) → is_past (some y) y ≡ false
    unfolding is_past
    not_past_itself y = ground (arith, strict.irreflexive y.row_id)

    is_past_trans :
        (c : Option ScanCursor) (y z : ScanCursor)
        → is_past c y ≡ true
        → is_past (some y) z ≡ true
        → is_past c z ≡ true
    unfolding is_past
    is_past_trans none y z h k = refl
    is_past_trans (some c) y z h k =
        ground (arith, h, k, strict.transitive z.row_id y.row_id c.row_id)

    -- moving the cursor to a place ahead of it leaves fewer places ahead
    pub ahead-less :
        (c : Option ScanCursor) (y : ScanCursor) (places : List ScanCursor)
        → ((P : ScanCursor → Type 0) → All P places → P y)
        → is_past c y ≡ true
        → ahead (some y) places < ahead c places
    unfolding ahead
    ahead-less c y places among h = elim (lt_or_le (ahead (some y) places) (ahead c places)) [
      | inl less ↦ less
      | inr more ↦
          let behind : is_past (some y) y ≡ true =
            among (λ z. is_past c z ≡ true → is_past (some y) z ≡ true)
              (length-keep_agree (is_past c) (is_past (some y)) (λ z k. is_past_trans c y z h k)
                places more)
              h in
          absurd (cc (behind, not_past_itself y))
    ]
