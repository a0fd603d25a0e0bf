-- ===== src/Db/History/Order.antt =====
-- The order of a history query.
use mathlib.Core.Path.{subst}
use native.Mathlib.Nat.{le_trans}
use fmon.Base.{
  ℕ, zero, suc, ◌≤◌, ◌≡◌, refl, sym, ap, ◌∙◌, ◌⊎◌, inl, inr, Bool, true, false, List, [], ◌∷◌, map,
  arith, Bool-cases, take, keep_if, All, All-map, Pairwise, Text,
}
use fmon.Base.Int.{ℤ, pos, negsuc, int_eq, int_eq_iff, int_lt}
use fmon.Base.Sorting.{insert_sorted, sort, IsSorted}
use fmon.Db.{HistoryRow, Db}
use fmon.Db.History.{read_history_row, newer, limited, query_history}
use fmon.Db.Subtree.{in_query}
use fmon.Models.{HistoryEntry}

module _ {ℓ} {A : Type ℓ} (lt : A → A → Bool) (asym : (x y : A) → lt x y ≡ true → lt y x ≡ false)
    (cotrans : (x y z : A) → lt y x ≡ false → lt z y ≡ false → lt z x ≡ false) where
  insert_sorted-All :
      (P : A → Type 0) (a : A) (xs : List A) → P a → All P xs → All P (insert_sorted lt a xs)
  unfolding insert_sorted
  insert_sorted-All P a [] p h = (p, tt)
  insert_sorted-All P a (x ∷ xs) p h = elim (Bool-cases (lt x a)) [
    | inl e ↦ rw e (h.0, insert_sorted-All P a xs p h.1)
    | inr e ↦ rw e (p, h)
  ]

  insert_sorted-IsSorted :
      (a : A) (xs : List A) → IsSorted lt xs → IsSorted lt (insert_sorted lt a xs)
  unfolding insert_sorted
  insert_sorted-IsSorted a [] h = (tt, tt)
  insert_sorted-IsSorted a (x ∷ xs) h = elim (Bool-cases (lt x a)) [
    | inl e ↦ rw e (
      insert_sorted-All (λ y. lt y x ≡ false) a xs (asym x a e) h.0,
      insert_sorted-IsSorted a xs h.1,
    )
    | inr e ↦ rw e (
      (e, All-map (λ y. lt y x ≡ false) (λ y. lt y a ≡ false) xs (λ y k. cotrans a x y e k) h.0),
      h,
    )
  ]

  sort-IsSorted : (xs : List A) → IsSorted lt (sort lt xs)
  unfolding sort
  sort-IsSorted [] = tt
  sort-IsSorted (x ∷ xs) = insert_sorted-IsSorted x (sort lt xs) (sort-IsSorted xs)

int_lt_asym : (a b : ℤ) → int_lt a b ≡ true → int_lt b a ≡ false
int_lt_asym (pos a) (pos b) h = ground arith
int_lt_asym (pos a) (negsuc b) h = ground arith
int_lt_asym (negsuc a) (pos b) h = ground arith
int_lt_asym (negsuc a) (negsuc b) h = ground arith

int_lt_total : (a b : ℤ) → int_lt a b ≡ false → int_lt b a ≡ false → a ≡ b
int_lt_total (pos a) (pos b) h k = ap pos (ground arith)
int_lt_total (pos a) (negsuc b) h k = ground arith
int_lt_total (negsuc a) (pos b) h k = ground arith
int_lt_total (negsuc a) (negsuc b) h k = ap negsuc (ground arith)

int_lt_cotrans : (a b c : ℤ) → int_lt a b ≡ false → int_lt b c ≡ false → int_lt a c ≡ false
int_lt_cotrans (pos a) (pos b) (pos c) h k = ground arith
int_lt_cotrans (pos a) (pos b) (negsuc c) h k = ground arith
int_lt_cotrans (pos a) (negsuc b) (pos c) h k = ground arith
int_lt_cotrans (pos a) (negsuc b) (negsuc c) h k = ground arith
int_lt_cotrans (negsuc a) (pos b) (pos c) h k = ground arith
int_lt_cotrans (negsuc a) (pos b) (negsuc c) h k = ground arith
int_lt_cotrans (negsuc a) (negsuc b) (pos c) h k = ground arith
int_lt_cotrans (negsuc a) (negsuc b) (negsuc c) h k = ground arith

-- The first entry is later than the second, or of the same time with an id that is not smaller.
abbrev pub IsNewer : HistoryEntry → HistoryEntry → Type 0
IsNewer e f =
    (int_lt f.timestamp e.timestamp ≡ true) ⊎ ((e.timestamp ≡ f.timestamp) × (f.id ≤ e.id))

abbrev IsNewerRow : HistoryRow → HistoryRow → Type 0
IsNewerRow r q =
    (int_lt r.timestamp q.timestamp ≡ false) × (r.timestamp ≡ q.timestamp → q.id ≤ r.id)

newer_row : (r q : HistoryRow) → newer q r ≡ false → IsNewerRow r q
newer_row r q h = (ground arith, λ e. ground (arith, int_eq_iff q.timestamp r.timestamp))

newer_asym : (r q : HistoryRow) → newer r q ≡ true → newer q r ≡ false
newer_asym r q h = ground (
  arith,
  int_lt_asym q.timestamp r.timestamp,
  int_lt_asym r.timestamp q.timestamp,
  int_eq_iff q.timestamp r.timestamp,
  int_eq_iff r.timestamp q.timestamp,
)

newer_cotrans : (r q s : HistoryRow) → newer q r ≡ false → newer s q ≡ false → newer s r ≡ false
newer_cotrans r q s h k =
    let late : IsNewerRow r q = newer_row r q h in
    let later : IsNewerRow q s = newer_row q s k in
    let last = int_lt_cotrans r.timestamp q.timestamp s.timestamp late.0 later.0 in
    elim (Bool-cases (int_eq s.timestamp r.timestamp)) [
      | inr e ↦ rw (last, e) refl
      | inl e ↦
          let same : s.timestamp ≡ r.timestamp = (int_eq_iff _ _).0 e in
          let mid : r.timestamp ≡ q.timestamp =
            int_lt_total r.timestamp q.timestamp late.0
              (subst (λ t. int_lt q.timestamp t ≡ false) same later.0) in
          let ids : s.id ≤ r.id = le_trans (later.1 (sym mid ∙ sym same)) (late.1 mid) in
          rw (last, e) (ground arith)
    ]

module _ {ℓ κ} {A : Type ℓ} (R : A → A → Type κ) where
  All-take : (P : A → Type κ) (n : ℕ) (xs : List A) → All P xs → All P (take n xs)
  All-take P zero xs h = tt
  All-take P (suc n) [] h = tt
  All-take P (suc n) (x ∷ xs) h = (h.0, All-take P n xs h.1)

  Pairwise-take : (n : ℕ) (xs : List A) → Pairwise R xs → Pairwise R (take n xs)
  Pairwise-take zero xs h = tt
  Pairwise-take (suc n) [] h = tt
  Pairwise-take (suc n) (x ∷ xs) h = (All-take (R x) n xs h.0, Pairwise-take n xs h.1)

IsNewer-read :
    (r q : HistoryRow) → newer q r ≡ false → IsNewer (read_history_row r) (read_history_row q)
unfolding read_history_row
IsNewer-read r q h =
    let row = newer_row r q h in
    elim (Bool-cases (int_lt q.timestamp r.timestamp)) [
      | inl e ↦ inl e
      | inr e ↦ let same = int_lt_total r.timestamp q.timestamp row.0 e in inr (same, row.1 same)
    ]

All-read :
    (e : HistoryRow) (rows : List HistoryRow)
    → All (λ r. newer r e ≡ false) rows
    → All (IsNewer (read_history_row e)) (map read_history_row rows)
All-read e [] h = tt
All-read e (r ∷ rows) h = (IsNewer-read e r h.0, All-read e rows h.1)

Pairwise-read :
    (rows : List HistoryRow) → IsSorted newer rows → Pairwise IsNewer (map read_history_row rows)
Pairwise-read [] h = tt
Pairwise-read (r ∷ rows) h = (All-read r rows h.0, Pairwise-read rows h.1)

limited-IsSorted :
    (limit : ℤ) (rows : List HistoryRow) → IsSorted newer rows → IsSorted newer (limited limit rows)
unfolding limited
limited-IsSorted (pos zero) rows h = h
limited-IsSorted (pos (suc n)) rows h = Pairwise-take _ (suc n) rows h
limited-IsSorted (negsuc n) rows h = h

map-take {ℓ κ} :
    {A : Type ℓ} {B : Type κ} (f : A → B) (n : ℕ) (xs : List A)
    → map f (take n xs) ≡ take n (map f xs)
map-take f zero xs = refl
map-take f (suc n) [] = refl
map-take f (suc n) (x ∷ xs) = ap (λ ys. f x ∷ ys) (map-take f n xs)

-- A query returns the newest entry first, whatever the clock did while they were written: by time,
-- and by falling id among entries of the same time. A limit keeps the newest of all that match.
pub query_history-IsNewer :
    (path : Text) (limit : ℤ) (n : ℕ) (d : Db)
    → Pairwise IsNewer (query_history path limit d)
      × (query_history path (pos (suc n)) d ≡ take (suc n) (query_history path (pos 0) d))
unfolding query_history limited
query_history-IsNewer path limit n d =
    let matches = keep_if (λ (r : HistoryRow). in_query path r.file_path) d.history_log in
    (
      Pairwise-read (limited limit (sort newer matches)) (
          limited-IsSorted limit (sort newer matches)
            (sort-IsSorted newer newer_asym newer_cotrans matches)),
      map-take read_history_row (suc n) (sort newer matches),
    )
