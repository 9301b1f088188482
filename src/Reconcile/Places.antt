-- ===== src/Reconcile/Places.antt =====
-- The places of stored submissions in the order of their store, and writes to the store.
use uvp_chain_services.Prelude.{
  String, Option, none, some, [], ◌∷◌, ◌≡◌, refl, ap, arith, Dict, get, put, values, All, ◌==◌,
  Bool-cases, inl, inr, length, suc, All-weaken, subst, ◌∙◌, sym,
}
use uvp_chain_services.Rows.{ScanCursor, cursor_of}
use uvp_chain_services.Submission.Types.{Submission}
use uvp_chain_services.Submission.Store.{submission_key}

module _ {V : Type 0} where
  pub put-same : (k : String) (v : V) (d : Dict V) → get k d ≡ some v → put k v d ≡ d
  unfolding get put
  put-same k v [] h = absurd (cc h)
  put-same k v ((j, w) ∷ d) h = elim (Bool-cases (j == k)) [
    | inl e ↦ simp e (ap (λ u. (j, u) ∷ d) (cc (h, e)))
    | inr e ↦ simp e (ap (λ m. (j, w) ∷ m) (put-same k v d (ground (arith, e, h))))
  ]

  pub get-among :
      (Q : V → Type 0) (k : String) (v : V) (d : Dict V) → get k d ≡ some v → All Q (values d) → Q v
  unfolding get values
  get-among Q k v [] h q = absurd (cc h)
  get-among Q k v ((j, w) ∷ d) h (q, qs) = elim (Bool-cases (j == k)) [
    | inl e ↦ let is : w ≡ v = cc (h, e) in subst Q is q
    | inr e ↦ get-among Q k v d (ground (arith, e, h)) qs
  ]

-- the places of submissions, under their keys
unfoldable pub places_of : Dict Submission → Dict ScanCursor
places_of [] = []
places_of ((k, x) ∷ d) = (k, cursor_of submission_key x) ∷ places_of d

pub places_of-put :
    (k : String) (x : Submission) (d : Dict Submission)
    → places_of (put k x d) ≡ put k (cursor_of submission_key x) (places_of d)
unfolding places_of put
places_of-put k x [] = refl
places_of-put k x ((j, y) ∷ d) = elim (Bool-cases (j == k)) [
  | inl e ↦ simp e refl
  | inr e ↦ simp e (ap (λ m. (j, cursor_of submission_key y) ∷ m) (places_of-put k x d))
]

get-places_of :
    (k : String) (x : Submission) (d : Dict Submission)
    → get k d ≡ some x
    → get k (places_of d) ≡ some (cursor_of submission_key x)
unfolding places_of get
get-places_of k x [] h = absurd (cc h)
get-places_of k x ((j, y) ∷ d) h = elim (Bool-cases (j == k)) [
  | inl e ↦
      let is : some y ≡ some x = simp e at h in
      simp e (
        ap
          (λ (m : Option Submission). elim m [
            | none ↦ none
            | some z ↦ some (cursor_of submission_key z)
          ])
          is)
  | inr e ↦ simp e (get-places_of k x d (simp e at h))
]

module _ (Q : ScanCursor → Type 0) where
  pub All-places_of :
      (d : Dict Submission)
      → All (λ x. Q (cursor_of submission_key x)) (values d)
      → All Q (values (places_of d))
  unfolding places_of values
  All-places_of [] h = tt
  All-places_of ((k, x) ∷ d) (h, hs) = (h, All-places_of d hs)

  pub All-placed :
      (d : Dict Submission)
      → All Q (values (places_of d))
      → All (λ x. Q (cursor_of submission_key x)) (values d)
  unfolding places_of values
  All-placed [] h = tt
  All-placed ((k, x) ∷ d) (h, hs) = (h, All-placed d hs)

pub length-places_of : (d : Dict Submission) → length (values (places_of d)) ≡ length d
unfolding places_of values
length-places_of [] = refl
length-places_of ((k, x) ∷ d) = ap suc (length-places_of d)

-- every place is found under its own identifier
abbrev pub IsKeyedAt : Dict ScanCursor → Type 0
IsKeyedAt places = All (λ c. get c.row_id places ≡ some c) (values places)

-- every submission is stored under its own identifier
abbrev pub IsKeyed : Dict Submission → Type 0
IsKeyed d = All (λ x. get x.submission_id d ≡ some x) (values d)

pub IsKeyed-places_of : (d : Dict Submission) → IsKeyed d → IsKeyedAt (places_of d)
IsKeyed-places_of d h =
    All-places_of (λ c. get c.row_id (places_of d) ≡ some c) d
      (All-weaken (λ x. get x.submission_id d ≡ some x) _ (values d)
        (λ x k. get-places_of x.submission_id x d k) h)

-- a submission that stands at its place among those of the store
abbrev pub IsPlaced : Dict ScanCursor → Submission → Type 0
IsPlaced places x = get x.submission_id places ≡ some (cursor_of submission_key x)

pub All-IsPlaced :
    (places : Dict ScanCursor) (d : Dict Submission)
    → places_of d ≡ places
    → IsKeyedAt places
    → All (IsPlaced places) (values d)
All-IsPlaced places d e h =
    All-placed (λ c. get c.row_id places ≡ some c) d
      (subst (λ qs. All (λ c. get c.row_id places ≡ some c) (values qs)) (sym e) h)

-- writing a row with the same place leaves the places as they are
pub put-places :
    (places : Dict ScanCursor) (x : Submission) (d : Dict Submission)
    → IsPlaced places x
    → places_of d ≡ places
    → places_of (put x.submission_id x d) ≡ places
put-places places x d own e =
    places_of-put x.submission_id x d
    ∙ ap (put x.submission_id (cursor_of submission_key x)) e
    ∙ put-same x.submission_id (cursor_of submission_key x) places own
