-- ===== src/Paths/Laws.antt =====
-- What `within` and `overlaps` decide.
use fmon.Base.{
  ℕ, zero, suc, ◌+◌, ◌<◌, ◌≡◌, refl, ap, ◌∙◌, true, [], ◌∷◌, ◌++◌, arith, length, take,
  length-append, Text, text_eq, text_eq_iff,
}
use fmon.Paths.{prefix_of, within}

-- A text no shorter than a prefix is cut at the prefix's length.
take-length-append : (s t : Text) → take (length s) (s ++ t) ≡ s
take-length-append [] t = refl
take-length-append (x ∷ xs) t = ap (λ (r : Text). x ∷ r) (take-length-append xs t)

take_rest : (n : ℕ) (s : Text) → n < length s → (c : ℕ) × (r : Text) × (s ≡ take n s ++ c ∷ r)
take_rest zero [] h = elim h [ ]
take_rest zero (x ∷ xs) h = (x, xs, refl)
take_rest (suc n) [] h = elim h [ ]
take_rest (suc n) (x ∷ xs) h =
    let (c, r, e) = take_rest n xs (omega arith) in (c, r, ap (λ (t : Text). x ∷ t) e)

-- Inside means: the parent's prefix, and at least one byte more.
pub within_rest :
    (child parent : Text)
    → within child parent ≡ true
    → (c : ℕ) × (r : Text) × (child ≡ prefix_of parent ++ c ∷ r)
unfolding within
within_rest child parent h =
    let p = prefix_of parent in
    let longer : length p < length child = ground arith in
    let same : take (length p) child ≡ p = (text_eq_iff _ _).0 (ground arith) in
    let (c, r, e) = take_rest (length p) child longer in
    (c, r, e ∙ ap (λ (t : Text). t ++ c ∷ r) same)

pub within_of_rest :
    (child parent : Text) (c : ℕ) (r : Text)
    → child ≡ prefix_of parent ++ c ∷ r
    → within child parent ≡ true
unfolding within
within_of_rest child parent c r e =
    let p = prefix_of parent in
    let cut : take (length p) child ≡ p = rw e (take-length-append p (c ∷ r)) in
    let same : text_eq (take (length p) child) p ≡ true = (text_eq_iff _ _).1 cut in
    let long : length child ≡ length p + suc (length r) = rw e (length-append p (c ∷ r)) in
    ground arith
