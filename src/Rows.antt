-- ===== src/Rows.antt =====
-- Rows with an instant of creation and an identifier, as the stores list them: sorted by the two, in
-- pages behind a cursor. service/src/submissions/store.ts and service/src/governance/store.ts.
pub mod Pages
pub mod Ahead
use uvp_chain_services.Prelude.{
  ℕ, String, Bool, true, Option, none, some, List, [], ◌∷◌, ◌&&◌, ◌||◌, ltb, nat_eq, if◌then◌else◌,
}

pub record RowKey (A : Type 0) : Type 0 where
  pub created : A → ℕ
  pub name : A → String

pub record ScanCursor : Type 0 where
  pub created_at : ℕ
  pub row_id : String

-- Sorting compares identifiers by `localeCompare`, which is the runtime locale's order: `before a b`
-- says that `a` comes first.
module _ {A : Type 0} (key : RowKey A) (before : String → String → Bool) where
  unfoldable pub row_before : A → A → Bool
  row_before x y =
      ltb (key.created x) (key.created y)
      || (nat_eq (key.created x) (key.created y) && before (key.name x) (key.name y))

  -- stable, as `sort` is
  unfoldable pub insert_row : A → List A → List A
  unfolding row_before
  insert_row x [] = x ∷ []
  insert_row x (y ∷ ys) =
      let rest = insert_row x ys in if row_before y x then y ∷ rest else x ∷ y ∷ ys

  unfoldable pub sort_rows : List A → List A
  unfolding insert_row
  sort_rows [] = []
  sort_rows (x ∷ xs) = insert_row x (sort_rows xs)

-- A page is cut after the cursor by `>` on texts, the order of their code units: `above a b` says
-- that `a > b`.
module _ {A : Type 0} (key : RowKey A) (above : String → String → Bool) where
  unfoldable pub after_cursor : Option ScanCursor → A → Bool
  after_cursor none x = true
  after_cursor (some c) x =
      ltb c.created_at (key.created x)
      || (nat_eq (key.created x) c.created_at && above (key.name x) c.row_id)

module _ {A : Type 0} (key : RowKey A) where
  abbrev pub cursor_of : A → ScanCursor
  cursor_of x = record { created_at = key.created x; row_id = key.name x }

  unfoldable pub last_cursor : List A → Option ScanCursor
  last_cursor [] = none
  last_cursor (x ∷ []) = some (cursor_of x)
  last_cursor (x ∷ y ∷ ys) = last_cursor (y ∷ ys)
