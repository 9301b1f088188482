-- ===== src/Rows/Pages.antt =====
-- Rows under sorting, and the last row of a page.
use uvp_chain_services.Prelude.{
  String, Bool, ◌≡◌, refl, List, All, ◌∷◌, [], Bool-cases, inl, inr, some,
}
use uvp_chain_services.Rows.{RowKey, cursor_of, row_before, insert_row, sort_rows, last_cursor}

module _ {A : Type 0} (key : RowKey A) (P : A → Type 0) where
  module _ (before : String → String → Bool) where
    pub All-insert : (x : A) (xs : List A) → P x → All P xs → All P (insert_row key before x xs)
    unfolding insert_row
    All-insert x [] h hs = (h, tt)
    All-insert x (y ∷ ys) h (k, ks) = elim (Bool-cases (row_before key before y x)) [
      | inl e ↦ simp e (k, All-insert x ys h ks)
      | inr e ↦ simp e (h, (k, ks))
    ]

    pub All-sort : (xs : List A) → All P xs → All P (sort_rows key before xs)
    unfolding sort_rows
    All-sort [] h = tt
    All-sort (x ∷ xs) (h, hs) = All-insert x _ h (All-sort xs hs)

  pub last_row :
      (x : A) (xs : List A)
      → All P (x ∷ xs)
      → (y : A) × (last_cursor key (x ∷ xs) ≡ some (cursor_of key y)) × P y
  unfolding last_cursor
  last_row x [] (h, hs) = (x, refl, h)
  last_row x (z ∷ zs) (h, hs) = last_row z zs hs
