-- ===== src/Paths/Disjoint.antt =====
-- Two trimmed paths that do not overlap have no file in common: `files_state` can hold each file
-- once (its `file_path` is UNIQUE).
use mathlib.Core.List.{append_assoc}
use fmon.Base.{
  ℕ, ◌≡◌, refl, sym, ap, ◌∙◌, inl, inr, true, [], ◌∷◌, ◌++◌, arith, Text, text_eq, text_eq_iff,
  trim_right,
}
use fmon.Paths.{separator, within, overlaps}
use fmon.Paths.Laws.{within_rest, within_of_rest}
use fmon.Paths.Trimmed.{IsTrimmed, snoc_not_trimmed}

-- How two texts compare that continue, each behind a separator, to the same text.
data Fork (p q : Text) : Type 0 where
  same : p ≡ q → Fork p q
  left_longer : (u : Text) → p ≡ q ++ separator ∷ u → Fork p q
  right_longer : (u : Text) → q ≡ p ++ separator ∷ u → Fork p q

Fork-cons : (x y : ℕ) {p q : Text} → x ≡ y → Fork p q → Fork (x ∷ p) (y ∷ q)
Fork-cons x y e (same h) = same (cc)
Fork-cons x y e (left_longer u h) = left_longer u (cc)
Fork-cons x y e (right_longer u h) = right_longer u (cc)

fork : (p q s t : Text) → p ++ separator ∷ s ≡ q ++ separator ∷ t → Fork p q
fork [] [] s t e = same refl
fork [] (y ∷ q) s t e = right_longer q (cc)
fork (x ∷ p) [] s t e = left_longer p (cc)
fork (x ∷ p) (y ∷ q) s t e = Fork-cons x y (cc) (fork p q s t (cc))

trim_of_trimmed : (p : Text) → IsTrimmed p → (trim_right separator p ≡ []) → p ≡ separator ∷ []
trim_of_trimmed p (inl e) h = e
trim_of_trimmed p (inr (e, n)) h = absurd (n (sym e ∙ h))

trimmed_by_trim :
    (p q : Text)
    → IsTrimmed p
    → IsTrimmed q
    → trim_right separator p ≡ trim_right separator q
    → p ≡ q
unfolding trim_right
trimmed_by_trim p q (inl a) (inl b) h = a ∙ sym b
trimmed_by_trim p q (inl a) (inr (b, n)) h =
    absurd (n (sym b ∙ sym h ∙ ap (λ (t : Text). trim_right separator t) a))
trimmed_by_trim p q (inr (a, n)) (inl b) h =
    absurd (n (sym a ∙ h ∙ ap (λ (t : Text). trim_right separator t) b))
trimmed_by_trim p q (inr (a, n)) (inr (b, m)) h = sym a ∙ h ∙ b

-- A trimmed path that continues another one behind a separator lies inside it.
within_of_continues :
    (p q : Text)
    → IsTrimmed q
    → (u : Text) → trim_right separator q ≡ trim_right separator p ++ separator ∷ u
    → within q p ≡ true
unfolding trim_right
within_of_continues p q (inl a) u h =
    absurd
      (nonempty (trim_right separator p) (sym (ap (λ (t : Text). trim_right separator t) a) ∙ h))
  where
    nonempty : (t : Text) → [] ≡ t ++ separator ∷ u → ⊥
    nonempty [] e = cc
    nonempty (x ∷ t) e = cc
within_of_continues p q (inr (a, n)) [] h =
    let whole : q ≡ trim_right separator p ++ separator ∷ [] = sym a ∙ h in
    absurd (
      snoc_not_trimmed separator (trim_right separator p)
        (ap (λ (t : Text). trim_right separator t) (sym whole) ∙ a ∙ whole))
within_of_continues p q (inr (a, n)) (c ∷ r) h =
    within_of_rest q p c r (sym a ∙ h ∙ rw append_assoc)

-- If some path lies inside each of two trimmed paths, then those two overlap.
pub overlaps_of_shared :
    (f p q : Text)
    → IsTrimmed p
    → IsTrimmed q
    → within f p ≡ true
    → within f q ≡ true
    → overlaps p q ≡ true
unfolding overlaps
overlaps_of_shared f p q tp tq hp hq =
    let (c, r, e) = within_rest f p hp in
    let (d, s, g) = within_rest f q hq in
    let meet : trim_right separator p ++ separator ∷ (c ∷ r)
        ≡ trim_right separator q ++ separator ∷ (d ∷ s) =
      sym (rw append_assoc at e) ∙ (rw append_assoc at g) in
    split (fork _ _ _ _ meet)
  where
    split : Fork (trim_right separator p) (trim_right separator q) → overlaps p q ≡ true
    split (same h) =
        let eq : text_eq p q ≡ true = (text_eq_iff p q).1 (trimmed_by_trim p q tp tq h) in
        ground arith
    split (left_longer u h) = ground (arith, within_of_continues q p tp u h)
    split (right_longer u h) = ground (arith, within_of_continues p q tq u h)
