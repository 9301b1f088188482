-- ===== src/Reconcile/Ends.antt =====
-- The loop that reads a store page after page, with visits that leave the places of the rows alone.
use uvp_chain_services.Prelude.Runs.{bind-elim}
use uvp_chain_services.Prelude.{
  ℕ, zero, suc, ◌<◌, Bool, true, false, Option, List, [], ◌∷◌, ◌≡◌, refl, arith, All, String, subst,
  sym, ◌∙◌, if◌then◌else◌, ◌≢◌, Bool-cases, inl, inr,
}
use uvp_chain_services.Prelude.Exec.{Outcome, done, thrown, pure, ◌>>=◌, ◌>>◌}
use uvp_chain_services.Rows.{RowKey, ScanCursor, after_cursor, last_cursor, cursor_of}
use uvp_chain_services.Rows.Pages.{last_row}
use uvp_chain_services.Rows.Ahead.{IsStrict, ahead, ahead-less, after_cursor-is_past}
use uvp_chain_services.Submission.World.{Error}
use uvp_chain_services.Reconcile.World.{Books, Work, look, Sources}
use uvp_chain_services.Reconcile.Keeps.{OfRows, At, Holds, Holds-pure, Holds-bind, Holds-look}
use uvp_chain_services.Reconcile.Scan.{iterate, visit_each, is_last_page}

-- a run that has not returned `false`, with a property of the books if it returned
abbrev pub EndsWell : OfRows → Outcome Error Bool × Books → Type 0
EndsWell P (thrown e, w) = Unit
EndsWell P (done true, w) = At P w
EndsWell P (done false, w) = ⊥

-- What a scan reads and what its visits do, in books whose rows have the given places: every row of a
-- page is after the cursor and is one of the store's own, and its visit leaves the places alone.
pub record IsSteady {A : Type 0} (key : RowKey A) (above : String → String → Bool) (P : OfRows)
    (places : List ScanCursor) (Own : A → Type 0) (read : Option ScanCursor → Work (List A))
    (visit : A → Work (Unit {0})) : Type 1 where
  pub reads : (after : Option ScanCursor) → Holds P (read after)
  pub pages :
      (after : Option ScanCursor) (w w' : Books) (page : List A)
      → At P w
      → read after w ≡ (done page, w')
      → All (λ x. (after_cursor key above after x ≡ true) × Own x) page
  pub visits : (x : A) → Own x → Holds P (visit x)
  pub among : (x : A) → Own x → (Q : ScanCursor → Type 0) → All Q places → Q (cursor_of key x)

pub here :
    {A : Type 0} {P : OfRows} (m : Work A) (w w' : Books) (a : A)
    → Holds P m
    → At P w
    → m w ≡ (done a, w')
    → At P w'
here {A} {P} m w w' a k h e = subst (λ (x : Outcome Error A × Books). At P x.1) e (k.at w h)

pub next-EndsWell :
    (P : OfRows) (b : Bool) (rest : Work Bool) (w : Books)
    → At P w
    → (b ≡ false → EndsWell P (rest w))
    → EndsWell P ((if b then pure true else rest) w)
unfolding pure
next-EndsWell P true rest w h k = h
next-EndsWell P false rest w h k = k refl

module _ {A : Type 0} {key : RowKey A} {above : String → String → Bool} (strict : IsStrict above)
    {P : OfRows} {places : List ScanCursor} {Own : A → Type 0}
    {read : Option ScanCursor → Work (List A)} {visit : A → Work (Unit {0})}
    (st : IsSteady key above P places Own read visit) where
  visit_page-Holds :
      (after : Option ScanCursor) (page : List A)
      → All (λ x. (after_cursor key above after x ≡ true) × Own x) page
      → Holds P (visit_each visit page)
  unfolding visit_each
  visit_page-Holds after [] h = Holds-pure tt
  visit_page-Holds after (x ∷ xs) ((there, own), hs) =
      Holds-bind _ _ (st.visits x own) λ u. visit_page-Holds after xs hs

  after_page :
      (size : ℕ) (after : Option ScanCursor) (page : List A)
      → All (λ x. (after_cursor key above after x ≡ true) × Own x) page
      → is_last_page size page ≡ false
      → ahead above (last_cursor key page) places < ahead above after places
  after_page size after [] h e = absurd (cc e)
  after_page size after (x ∷ xs) h e =
      let (y, at, (there, own)) =
        last_row key (λ x. (after_cursor key above after x ≡ true) × Own x) x xs h in
      subst (λ c. ahead above c places < ahead above after places) (sym at)
        (ahead-less above strict after (cursor_of key y) places (st.among y own)
          (sym (after_cursor-is_past above key after y) ∙ there))

  -- With more fuel than there are places ahead, the loop never runs out of it.
  pub iterate-EndsWell :
      (size fuel : ℕ) (after : Option ScanCursor) (w : Books)
      → At P w
      → ahead above after places < fuel
      → EndsWell P (iterate read key size visit fuel after w)
  unfolding iterate
  iterate-EndsWell size zero after w k h = absurd (omega (arith, h))
  iterate-EndsWell size (suc fuel) after w k h =
      bind-elim (EndsWell P) (read after) _ w (λ e v. tt)
        λ page w₁ e₁.
          let rows = st.pages after w w₁ page k e₁ in
          let k₁ = here (read after) w w₁ page (st.reads after) k e₁ in
          bind-elim (EndsWell P) (visit_each visit page) _ w₁ (λ e v. tt)
            λ u w₂ e₂.
              let k₂ =
                here (visit_each visit page) w₁ w₂ u (visit_page-Holds after page rows) k₁ e₂ in
              next-EndsWell P (is_last_page size page) _ w₂ k₂ λ e.
                let less = after_page size after page rows e in
                iterate-EndsWell size fuel (last_cursor key page) w₂ k₂ (omega (arith, less, h))

-- what a successful read of a store returned
pub looked :
    {A : Type 0} (env : Sources) (f : Books → A) (w w' : Books) (a : A)
    → look env f w ≡ (done a, w')
    → a ≡ f w
unfolding look
looked env f w w' a h = elim (Bool-cases (env.store_fails w.tick)) [
  | inl e ↦ absurd (cc (h, e))
  | inr e ↦ cc (h, e)
]

module _ (P : OfRows) where
  module _ (env : Sources) {A : Type 0} (Own : A → Type 0) (visit : A → Work (Unit {0}))
      (stays : (x : A) → Own x → Holds P (visit x)) where
    pub each-Holds : (xs : List A) → All Own xs → Holds P (visit_each visit xs)
    unfolding visit_each
    each-Holds [] h = Holds-pure tt
    each-Holds (x ∷ xs) (h, hs) = Holds-bind _ _ (stays x h) λ u. each-Holds xs hs

    -- a store without pages is read once
    pub whole-EndsWell :
        (f : Books → List A)
        → ((w : Books) → At P w → All Own (f w))
        → (w : Books) → At P w
        → EndsWell P ((look env f >>= λ rows. visit_each visit rows >> pure true) w)
    unfolding pure
    whole-EndsWell f own w k =
        bind-elim (EndsWell P) (look env f) _ w (λ e v. tt)
          λ rows w₁ e₁.
            let k₁ = here {P = P} (look env f) w w₁ rows (Holds-look env f) k e₁ in
            let owned = subst (All Own) (sym (looked env f w w₁ rows e₁)) (own w k) in
            bind-elim (EndsWell P) (visit_each visit rows) _ w₁ (λ e v. tt)
              λ u w₂ e₂. here {P = P} (visit_each visit rows) w₁ w₂ u (each-Holds rows owned) k₁ e₂

  pub either-EndsWell :
      (b : Bool) (m n : Work Bool) (w : Books)
      → EndsWell P (m w)
      → EndsWell P (n w)
      → EndsWell P ((if b then m else n) w)
  either-EndsWell true m n w h k = h
  either-EndsWell false m n w h k = k

  pub lane-EndsWell :
      (b : Bool) (m : Work Bool) (w : Books)
      → At P w
      → EndsWell P (m w)
      → EndsWell P ((if b then m else pure true) w)
  unfolding pure
  lane-EndsWell b m w k h = either-EndsWell b m (pure true) w h k

  pub returned :
      (r : Outcome Error Bool × Books) (b : Bool) (w : Books)
      → EndsWell P r
      → r ≡ (done b, w)
      → (b ≡ true) × At P w
  returned r b w h e = ended b (subst (EndsWell P) e h)
    where
      ended : (b : Bool) → EndsWell P (done b, w) → (b ≡ true) × At P w
      ended true k = (refl, k)
      ended false k = absurd k

pub never_false : (P : OfRows) (r : Outcome Error Bool × Books) → EndsWell P r → r.0 ≢ done false
never_false P (thrown e, w) h q = cc q
never_false P (done true, w) h q = cc q
never_false P (done false, w) h q = h
