-- ===== src/Notify/Size.antt =====
-- truncateMessage: a truncated message fits its limit.
use mathlib.Core.List.{reverse, reverse-append}
use fmon.Base.{
  ℕ, zero, suc, ◌+◌, ◌-◌, ◌^◌, ◌≤◌, ◌<◌, ◌≡◌, refl, ap, ◌∙◌, inl, inr, Bool, List, [], ◌∷◌, ◌++◌,
  arith, ltb, leb, eqb, leb→le, Bool-cases, length, take, keep_if, length-append, Text, bytes,
  trim_right,
}
use fmon.Base.Decimal.{decimal, length-decimal}
use fmon.Base.Int.{pos}
use fmon.Notify.{
  newline, is_change_line, ends_in_rune, drop_broken, cut_utf8, split_lines, keep_lines, trailer,
  count_changes, first_line, truncate_message,
}

length-keep_if {ℓ} : {A : Type ℓ} (p : A → Bool) (xs : List A) → length (keep_if p xs) ≤ length xs
length-keep_if p [] = omega arith
length-keep_if p (x ∷ xs) = elim (Bool-cases (p x)) [
  | inl e ↦ rw e (omega (arith, length-keep_if p xs))
  | inr e ↦ rw e (omega (arith, length-keep_if p xs))
]

length-take-le {ℓ} : {A : Type ℓ} (n : ℕ) (xs : List A) → length (take n xs) ≤ n
length-take-le zero xs = omega arith
length-take-le (suc n) [] = omega arith
length-take-le (suc n) (x ∷ xs) = omega (arith, length-take-le n xs)

length-reverse : (xs : Text) → length (reverse xs) ≡ length xs
length-reverse [] = refl
length-reverse (x ∷ xs) =
    ap (λ (t : Text). length t) (reverse-append (x ∷ []) xs)
    ∙ omega (arith, length-append (reverse xs) (x ∷ []), length-reverse xs)

length-drop_broken : (s : Text) → length (drop_broken s) ≤ length s
unfolding drop_broken
length-drop_broken [] = omega arith
length-drop_broken (x ∷ xs) = elim (Bool-cases (ends_in_rune (x ∷ xs))) [
  | inl e ↦ rw (e, drop_broken) (omega arith)
  | inr e ↦ rw (e, drop_broken) (omega (arith, length-drop_broken xs))
]

-- A cut text is no longer than the limit.
pub length-cut_utf8 : (s : Text) (n : ℕ) → length (cut_utf8 s n) ≤ n
unfolding cut_utf8
length-cut_utf8 s n = elim (Bool-cases (leb (length s) n)) [
  | inl e ↦ rw e (leb→le _ _ e)
  | inr e ↦ rw e (
      omega (
        arith,
        length-reverse (drop_broken (reverse (take n s))),
        length-drop_broken (reverse (take n s)),
        length-reverse (take n s),
        length-take-le n s,
      ))
]

length-split_lines : (s : Text) → length (split_lines s) ≤ suc (length s)
unfolding split_lines
length-split_lines [] = omega arith
length-split_lines (x ∷ xs) = elim (Bool-cases (eqb x newline)) [
  | inl e ↦ rw e (omega (arith, length-split_lines xs))
  | inr e ↦ rw e (extended (split_lines xs) (length-split_lines xs))
]
  where
    extended :
        (ls : List Text)
        → length ls ≤ suc (length xs)
        → length (elim ls as (λ _. List Text) [ [] ↦ (x ∷ []) ∷ [] | l ∷ r ↦ (x ∷ l) ∷ r ])
          ≤ suc (suc (length xs))
    extended [] h = omega arith
    extended (l ∷ r) h = omega arith

length-trim_right-le : (c : ℕ) (s : Text) → length (trim_right c s) ≤ length s
unfolding trim_right
length-trim_right-le c [] = omega arith
length-trim_right-le c (x ∷ xs) = ground (arith, length-trim_right-le c xs)

-- The kept text stays within the budget, and no line appears from nowhere.
keep_lines_bounds :
    (budget used : ℕ) (ls : List Text)
    → used ≤ budget
    → (used + length (keep_lines budget used ls).0 ≤ budget)
      × (length (keep_lines budget used ls).1 ≤ length ls)
unfolding keep_lines
keep_lines_bounds budget used [] h = (omega arith, omega arith)
keep_lines_bounds budget used (l ∷ ls) h = elim (Bool-cases (ltb budget (used + length l + 1))) [
  | inl e ↦ rw e (omega arith, omega arith)
  | inr e ↦
      let fit : used + length l + 1 ≤ budget = ground arith in
      let rest = keep_lines_bounds budget (used + length l + 1) ls fit in
      rw e (
        omega (
          arith,
          rest.0,
          length-append l (newline ∷ (keep_lines budget (used + length l + 1) ls).0),
        ),
        omega (arith, rest.1),
      )
]

first_line_bounds :
    (budget : ℕ) (kept : Text × List Text)
    → length kept.0 ≤ budget
    → (length (first_line budget kept).0 ≤ suc budget)
      × (length (first_line budget kept).1 ≤ length kept.1)
unfolding first_line
first_line_bounds budget ([], []) h = (omega arith, omega arith)
first_line_bounds budget ([], l ∷ ls) h = (
  omega (arith, length-append (cut_utf8 l budget) (newline ∷ []), length-cut_utf8 l budget),
  omega arith,
)
first_line_bounds budget (x ∷ xs, ls) h = (omega arith, omega arith)

-- With a count of at most nineteen digits the trailer leaves a byte of its eighty.
length-trailer : (n : ℕ) → n < 10 ^ 19 → length (trailer n) ≤ 60
unfolding trailer
length-trailer n h = elim (Bool-cases (ltb 0 n)) [
  | inr e ↦ rw e (omega arith)
  | inl e ↦ rw e (
      omega (
        arith,
        length-append (decimal n) (bytes " more changes (see fmon history)" ++ newline ∷ []),
        length-decimal 18 n h,
      ))
]

-- A message is never longer than the limit of its script, for every limit that the configuration
-- accepts (200 bytes and more) and every message that fits the memory.
pub length-truncate_message :
    (msg : Text) (max_bytes : ℕ)
    → 200 ≤ max_bytes
    → length msg < 2 ^ 63
    → length (truncate_message msg (pos max_bytes)) ≤ max_bytes
unfolding truncate_message
length-truncate_message msg max_bytes low short = elim (Bool-cases (leb (length msg) max_bytes)) [
  | inl e ↦ rw e (leb→le _ _ e)
  | inr e ↦ rw e (
      truncated (keep_lines (max_bytes - 80) 0 lines)
        (keep_lines_bounds (max_bytes - 80) 0 lines (omega arith)))
]
  where
    lines : List Text
    lines = split_lines (trim_right newline msg)

    few : length lines ≤ suc (length msg)
    few =
        omega (arith, length-split_lines (trim_right newline msg), length-trim_right-le newline msg)

    truncated :
        (kept : Text × List Text)
        → (0 + length kept.0 ≤ max_bytes - 80) × (length kept.1 ≤ length lines)
        → let f = first_line (max_bytes - 80) kept in
          length (f.0 ++ trailer (count_changes f.1)) ≤ max_bytes
    truncated kept b =
        let f = first_line (max_bytes - 80) kept in
        let fb = first_line_bounds (max_bytes - 80) kept (omega (arith, b.0)) in
        let n : count_changes f.1 < 10 ^ 19 =
          omega (arith, length-keep_if is_change_line f.1, fb.1, b.1, few) in
        omega (
          arith,
          length-append f.0 (trailer (count_changes f.1)),
          fb.0,
          length-trailer (count_changes f.1) n,
        )
