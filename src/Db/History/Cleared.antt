-- ===== src/Db/History/Cleared.antt =====
-- queries.go: QueryHistory after ClearHistory.
use mathlib.Core.List.{append_assoc, append-nil}
use fmon.Base.{
  zero, suc, ◌+◌, ◌≡◌, refl, sym, ap, ◌∙◌, ◌⊎◌, inl, inr, Bool, true, false, not, ◌||◌, List, [],
  ◌∷◌, ◌++◌, arith, Bool-cases, ◌==◌, length, keep_if, Text, text_eq, text_eq_iff, trim_right,
  nat_eq, text_equality,
}
use fmon.Base.Int.{ℤ, pos, negsuc, int_equality}
use fmon.Base.Sorting.{sort}
use fmon.Db.{HistoryRow, Db}
use fmon.Db.History.{limited, query_history, clear_history_rows}
use fmon.Db.Subtree.{subtree_clause, in_query, subtree_clause-within}
use fmon.Paths.{separator, prefix_of, within, overlaps}
use fmon.Paths.Disjoint.{overlaps_of_shared}
use fmon.Paths.Laws.{within_rest, within_of_rest}
use fmon.Paths.Trimmed.{IsTrimmed}

module _ {ℓ} {A : Type ℓ} (p : A → Bool) where
  keep_if-rest : (xs : List A) → keep_if p (keep_if (λ x. not (p x)) xs) ≡ []
  keep_if-rest [] = refl
  keep_if-rest (x ∷ xs) = elim (Bool-cases (p x)) [
    | inl e ↦ rw e (keep_if-rest xs)
    | inr e ↦ rw e (rw e (keep_if-rest xs))
  ]

  length-parts :
      (xs : List A) → length (keep_if p xs) + length (keep_if (λ x. not (p x)) xs) ≡ length xs
  length-parts [] = omega arith
  length-parts (x ∷ xs) = elim (Bool-cases (p x)) [
    | inl e ↦ rw e (omega (arith, length-parts xs))
    | inr e ↦ rw e (omega (arith, length-parts xs))
  ]

limited-nil : (limit : ℤ) → limited limit [] ≡ []
unfolding limited
limited-nil (pos zero) = refl
limited-nil (pos (suc n)) = refl
limited-nil (negsuc n) = refl

-- What the clause for two paths selects lies in both, so that the two overlap.
inside-longer :
    (p s : Text)
    → IsTrimmed p
    → in_query p s ≡ true
    → within (s ++ separator ∷ separator ∷ []) p ≡ true
inside-longer p s t h = by_case t (Bool-cases (s == p))
  where
    longer : Text
    longer = s ++ separator ∷ separator ∷ []

    of_path : IsTrimmed p → s ≡ p → within longer p ≡ true
    of_path (inl root) e =
        within_of_rest longer p separator (separator ∷ [])
          (rw (e, root) (unfold trim_right in refl))
    of_path (inr (trim, n)) e =
        within_of_rest longer p separator [] (rw (e, trim) (rw append_assoc refl))

    of_prefix : (r : Text) → s ≡ prefix_of p ++ r → within longer p ≡ true
    of_prefix [] e = within_of_rest longer p separator (separator ∷ []) (rw e (rw append-nil refl))
    of_prefix (c ∷ r) e =
        within_of_rest longer p c (r ++ separator ∷ separator ∷ []) (rw e (rw append_assoc refl))

    nonempty : IsTrimmed p → (p == []) ≡ false
    nonempty (inl root) = rw root (unfold text_eq in refl)
    nonempty (inr (trim, n)) = elim (Bool-cases (p == [])) [
      | inl e ↦ absurd (n ((text_eq_iff p []).0 e))
      | inr e ↦ e
    ]

    rest_case : (s == p) ≡ false → (u : Text) × (s ≡ prefix_of p ++ u)
    rest_case e =
        let empty : (p == []) ≡ false = nonempty t in
        let selected : subtree_clause p s ≡ true = ground arith in
        let where_it_is : (s == p || (s == prefix_of p || within s p)) ≡ true =
          sym (subtree_clause-within p s) ∙ selected in
        elim (Bool-cases (s == prefix_of p)) [
          | inl g ↦ ([], (text_eq_iff s (prefix_of p)).0 g ∙ sym (append-nil (prefix_of p)))
          | inr g ↦ let (c, r, k) = within_rest s p (ground arith) in (c ∷ r, k)
        ]

    by_case : IsTrimmed p → ((s == p) ≡ true) ⊎ ((s == p) ≡ false) → within longer p ≡ true
    by_case t (inl e) = of_path t ((text_eq_iff s p).0 e)
    by_case t (inr e) = let (u, g) = rest_case e in of_prefix u g

overlaps_of_rows :
    (p q s : Text)
    → IsTrimmed p
    → IsTrimmed q
    → in_query p s ≡ true
    → in_query q s ≡ true
    → overlaps p q ≡ true
overlaps_of_rows p q s tp tq hp hq =
    overlaps_of_shared (s ++ separator ∷ separator ∷ []) p q tp tq (inside-longer p s tp hp)
      (inside-longer q s tq hq)

module _ {ℓ} {A : Type ℓ} (p q : A → Bool) (apart : (x : A) → p x ≡ true → q x ≡ true → ⊥) where
  keep_if-apart : (xs : List A) → keep_if q (keep_if (λ x. not (p x)) xs) ≡ keep_if q xs
  keep_if-apart [] = refl
  keep_if-apart (x ∷ xs) = elim (Bool-cases (p x)) [
    | inl e ↦ elim (Bool-cases (q x)) [
      | inl g ↦ absurd (apart x e g)
      | inr g ↦ rw (e, g) (keep_if-apart xs)
    ]
    | inr e ↦ elim (Bool-cases (q x)) [
      | inl g ↦ rw (e, g) (ap (λ (r : List A). x ∷ r) (keep_if-apart xs))
      | inr g ↦ rw (e, g) (keep_if-apart xs)
    ]
  ]

-- For two paths that do not overlap and have no separator at the end, unless it is the root: after the
-- clearing of the first, a query for it finds nothing, whatever its limit, the number that the clearing
-- returns is the number of rows that it took away, and a query for the other finds what it found
-- before.
pub query_history-clear_history_rows :
    (path other : Text) (limit : ℤ) (d : Db)
    → IsTrimmed path
    → IsTrimmed other
    → overlaps path other ≡ false
    → let cleared = clear_history_rows path d in
      (query_history path limit cleared.1 ≡ [])
      × (cleared.0 + length cleared.1.history_log ≡ length d.history_log)
      × (query_history other limit cleared.1 ≡ query_history other limit d)
unfolding query_history clear_history_rows sort
query_history-clear_history_rows path other limit d tp to far =
    let matches : HistoryRow → Bool = λ r. in_query path r.file_path in
    let others : HistoryRow → Bool = λ r. in_query other r.file_path in
    let apart : (r : HistoryRow) → matches r ≡ true → others r ≡ true → ⊥ = λ r a b.
      let meet : overlaps path other ≡ true = overlaps_of_rows path other r.file_path tp to a b in
      cc in
    (
      rw (keep_if-rest matches d.history_log) (rw (limited-nil limit) refl),
      length-parts matches d.history_log,
      rw (keep_if-apart matches others apart d.history_log) refl,
    )
