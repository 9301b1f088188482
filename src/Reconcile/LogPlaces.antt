-- ===== src/Reconcile/LogPlaces.antt =====
-- The places of the rows of the governance ledger, which finds a row by either of two identifiers.
use uvp_chain_services.Prelude.{
  ℕ, String, Bool, Option, none, some, List, [], ◌∷◌, ◌≡◌, refl, ap, All, ◌==◌, ◌||◌, if◌then◌else◌,
  Bool-cases, inl, inr, map, length, suc, find_first, All-weaken, subst, ◌∙◌, sym,
}
use uvp_chain_services.Rows.{row_before, ScanCursor}
use uvp_chain_services.Reconcile.Types.{TxLog}
use uvp_chain_services.Reconcile.Governance.{insert_newest, list_newest, log_key, update_tx_log}

pub record LogPlace : Type 0 where
  pub tx_log_id : String
  pub log_id : String
  pub created_at : ℕ

abbrev pub place : TxLog → LogPlace
place l = record { tx_log_id = l.tx_log_id; log_id = l.log_id; created_at = l.created_at }

abbrev pub log_cursor : LogPlace → ScanCursor
log_cursor p = record { created_at = p.created_at; row_id = p.log_id }

abbrev is_same : LogPlace → LogPlace → Bool
is_same p q = (q.tx_log_id == p.tx_log_id) || (q.log_id == p.log_id)

pub found : LogPlace → List LogPlace → Option LogPlace
found p [] = none
found p (q ∷ qs) = if is_same p q then some q else found p qs

replace : LogPlace → List LogPlace → List LogPlace
replace p [] = []
replace p (q ∷ qs) = let rest = replace p qs in if is_same p q then p ∷ qs else q ∷ rest

replace-found : (p : LogPlace) (qs : List LogPlace) → found p qs ≡ some p → replace p qs ≡ qs
unfolding found replace
replace-found p [] h = refl
replace-found p (q ∷ qs) h = elim (Bool-cases (is_same p q)) [
  | inl e ↦ let is : some q ≡ some p = simp e at h in simp e (ap (λ (m : LogPlace). m ∷ qs) (cc is))
  | inr e ↦ simp e (ap (λ m. q ∷ m) (replace-found p qs (simp e at h)))
]

found-among :
    (Q : LogPlace → Type 0) (p q : LogPlace) (qs : List LogPlace)
    → found p qs ≡ some q
    → All Q qs
    → Q q
unfolding found
found-among Q p q [] h k = absurd (cc h)
found-among Q p q (x ∷ xs) h (k, ks) = elim (Bool-cases (is_same p x)) [
  | inl e ↦ let is : some x ≡ some q = simp e at h in let same : x ≡ q = cc is in subst Q same k
  | inr e ↦ found-among Q p q xs (simp e at h) ks
]

places-update :
    (l : TxLog) (ls : List TxLog)
    → map place (update_tx_log l ls) ≡ replace (place l) (map place ls)
unfolding update_tx_log replace
places-update l [] = refl
places-update l (x ∷ xs) =
    elim (Bool-cases ((x.tx_log_id == l.tx_log_id) || (x.log_id == l.log_id))) [
      | inl e ↦ simp e refl
      | inr e ↦ simp e (ap (λ m. place x ∷ m) (places-update l xs))
    ]

-- a log that is found by its identifiers in the ledger
abbrev is_log : TxLog → TxLog → Bool
is_log l x = (x.tx_log_id == l.tx_log_id) || (x.log_id == l.log_id)

-- every log is the first with either of its identifiers
abbrev pub HasKeys : List TxLog → Type 0
HasKeys ls = All (λ l. find_first (is_log l) ls ≡ some l) ls

abbrev pub HasKeysAt : List LogPlace → Type 0
HasKeysAt ps = All (λ p. found p ps ≡ some p) ps

found-places :
    (l : TxLog) (ls : List TxLog)
    → find_first (is_log l) ls ≡ some l
    → found (place l) (map place ls) ≡ some (place l)
unfolding find_first found
found-places l [] h = absurd (cc h)
found-places l (x ∷ xs) h = elim (Bool-cases (is_log l x)) [
  | inl e ↦
      let is : some x ≡ some l = simp e at h in
      let same : x ≡ l = cc is in simp e (ap (λ (y : TxLog). some (place y)) same)
  | inr e ↦ simp e (found-places l xs (simp e at h))
]

All-mapped :
    (Q : LogPlace → Type 0) (ls : List TxLog) → All (λ l. Q (place l)) ls → All Q (map place ls)
All-mapped Q [] h = tt
All-mapped Q (l ∷ ls) (h, hs) = (h, All-mapped Q ls hs)

All-unmapped :
    (Q : LogPlace → Type 0) (ls : List TxLog) → All Q (map place ls) → All (λ l. Q (place l)) ls
All-unmapped Q [] h = tt
All-unmapped Q (l ∷ ls) (h, hs) = (h, All-unmapped Q ls hs)

pub HasKeys-places : (ls : List TxLog) → HasKeys ls → HasKeysAt (map place ls)
HasKeys-places ls h =
    All-mapped (λ p. found p (map place ls) ≡ some p) ls
      (All-weaken (λ l. find_first (is_log l) ls ≡ some l) _ ls (λ l k. found-places l ls k) h)

-- a log that stands at its place among those of the ledger
abbrev pub IsLogPlaced : List LogPlace → TxLog → Type 0
IsLogPlaced ps l = found (place l) ps ≡ some (place l)

pub All-IsLogPlaced :
    (ps : List LogPlace) (ls : List TxLog)
    → map place ls ≡ ps
    → HasKeysAt ps
    → All (IsLogPlaced ps) ls
All-IsLogPlaced ps ls e h =
    All-unmapped (λ p. found p ps ≡ some p) ls
      (subst (λ qs. All (λ p. found p ps ≡ some p) qs) (sym e) h)

-- writing a row with the same place leaves the places as they are
pub update-places :
    (ps : List LogPlace) (l : TxLog) (ls : List TxLog)
    → IsLogPlaced ps l
    → map place ls ≡ ps
    → map place (update_tx_log l ls) ≡ ps
update-places ps l ls own e =
    places-update l ls ∙ ap (replace (place l)) e ∙ replace-found (place l) ps own

pub placed-among :
    (ps : List LogPlace) (l : TxLog)
    → IsLogPlaced ps l
    → (Q : ScanCursor → Type 0) → All Q (map log_cursor ps)
    → Q (log_cursor (place l))
placed-among ps l own Q h =
    found-among (λ p. Q (log_cursor p)) (place l) (place l) ps own (each ps h)
  where
    each : (qs : List LogPlace) → All Q (map log_cursor qs) → All (λ p. Q (log_cursor p)) qs
    each [] k = tt
    each (q ∷ qs) (k, ks) = (k, each qs ks)

pub length-log_cursors : (ls : List TxLog) → length (map log_cursor (map place ls)) ≡ length ls
length-log_cursors [] = refl
length-log_cursors (l ∷ ls) = ap suc (length-log_cursors ls)

module _ (P : TxLog → Type 0) (before : String → String → Bool) where
  All-insert_newest :
      (x : TxLog) (xs : List TxLog) → P x → All P xs → All P (insert_newest before x xs)
  unfolding insert_newest
  All-insert_newest x [] h hs = (h, tt)
  All-insert_newest x (y ∷ ys) h (k, ks) = elim (Bool-cases (row_before log_key before x y)) [
    | inl e ↦ simp e (k, All-insert_newest x ys h ks)
    | inr e ↦ simp e (h, (k, ks))
  ]

  pub All-newest : (xs : List TxLog) → All P xs → All P (list_newest before xs)
  unfolding list_newest
  All-newest [] h = tt
  All-newest (x ∷ xs) (h, hs) = All-insert_newest x _ h (All-newest xs hs)
