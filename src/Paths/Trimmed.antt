-- ===== src/Paths/Trimmed.antt =====
-- Paths without trailing separators: what `filepath.Clean` returns, and why two of them that do not
-- overlap share no file.
use mathlib.Core.List.{append_assoc}
use fmon.Base.{
  ℕ, ◌≤◌, ◌≡◌, refl, sym, ap, ◌∙◌, ◌≢◌, ◌⊎◌, inl, inr, Bool, true, false, List, [], ◌∷◌, ◌++◌,
  arith, eqb, if◌then◌else◌, eqb_iff, Bool-cases, ◌==◌, length, length-append, All, Text, bytes,
  text_eq, text_eq_iff, trim_right, nat_eq, text_equality,
}
use fmon.Base.Int.{int_equality}
use fmon.Paths.{separator}
use fmon.Paths.Clean.{split_path, push_element, push_elements, join_stack, is_abs, clean}

-- The root, or a path with no trailing separator.
abbrev pub IsTrimmed : Text → Type 0
IsTrimmed p = (p ≡ separator ∷ []) ⊎ ((trim_right separator p ≡ p) × (p ≢ []))

length-trim_right : (c : ℕ) (s : Text) → length (trim_right c s) ≤ length s
unfolding trim_right
length-trim_right c [] = omega arith
length-trim_right c (x ∷ xs) = ground (arith, length-trim_right c xs)

trim_right-snoc : (c : ℕ) (s : Text) → trim_right c (s ++ c ∷ []) ≡ trim_right c s
unfolding trim_right
trim_right-snoc c [] = ground arith
trim_right-snoc c (x ∷ xs) = rw (trim_right-snoc c xs)

-- What keeps its last byte under trimming is not extended by the byte that is trimmed.
pub snoc_not_trimmed : (c : ℕ) (s : Text) → trim_right c (s ++ c ∷ []) ≢ s ++ c ∷ []
snoc_not_trimmed c s e = absurd (
    omega (
      arith,
      ap (λ (t : Text). length t) (sym (trim_right-snoc c s) ∙ e),
      length-append s (c ∷ []),
      length-trim_right c s,
    ))

trim_right-append :
    (c : ℕ) (s t : Text) → trim_right c t ≢ [] → trim_right c (s ++ t) ≡ s ++ trim_right c t
unfolding trim_right
trim_right-append c [] t h = refl
trim_right-append c (x ∷ xs) t h =
    rw (trim_right-append c xs t h) (ground (arith, append_cases xs (trim_right c t)))
  where
    append_cases : (a b : Text) → (a ++ b ≡ []) → b ≡ []
    append_cases [] b e = e
    append_cases (y ∷ ys) b e = cc

trim_right_free : (c : ℕ) (s : Text) → All (λ x. x ≢ c) s → trim_right c s ≡ s
unfolding trim_right
trim_right_free c [] h = refl
trim_right_free c (x ∷ xs) h = rw (trim_right_free c xs h.1) (tail_cases xs h.0)
  where
    tail_cases :
        (ys : Text)
        → x ≢ c
        → ◌≡◌ {A = Text}
            (elim ys [ [] ↦ if eqb x c then [] else x ∷ [] | z ∷ zs ↦ x ∷ z ∷ zs ])
            (x ∷ ys)
    tail_cases [] n = ground arith
    tail_cases (z ∷ zs) n = refl

-- An element of a clean path.
abbrev IsElement : Text → Type 0
IsElement e = All (λ x. x ≢ separator) e × (e ≢ [])

split_path-All : (p : Text) → All (All (λ x. x ≢ separator)) (split_path p)
unfolding split_path
split_path-All [] = (tt, tt)
split_path-All (x ∷ xs) = elim (Bool-cases (eqb x separator)) [
  | inl e ↦ rw e (tt, split_path-All xs)
  | inr e ↦ rw e (extend (split_path xs) (split_path-All xs) (λ p. cc ((eqb_iff x separator).1 p)))
]
  where
    extend :
        (cs : List Text)
        → All (All (λ y. y ≢ separator)) cs
        → x ≢ separator
        → All (All (λ y. y ≢ separator)) (elim cs [ [] ↦ (x ∷ []) ∷ [] | d ∷ ds ↦ (x ∷ d) ∷ ds ])
    extend [] h n = ((n, tt), tt)
    extend (d ∷ ds) h n = ((n, h.0), h.1)

push_element-All :
    (rooted : Bool) (stack : List Text) (e : Text)
    → All IsElement stack
    → All (λ x. x ≢ separator) e
    → All IsElement (push_element rooted stack e)
unfolding push_element
push_element-All rooted stack e hs he = elim (Bool-cases (text_eq e [])) [
  | inl a ↦ rw a hs
  | inr a ↦
      let full : e ≢ [] = λ p. cc ((text_eq_iff e []).1 p) in
      rw a (elim (Bool-cases (text_eq e (bytes "."))) [
        | inl b ↦ rw b hs
        | inr b ↦ rw b (elim (Bool-cases (text_eq e (bytes ".."))) [
          | inl d ↦ rw d (up stack hs full)
          | inr d ↦ rw d ((he, full), hs)
        ])
      ])
]
  where
    up :
        (st : List Text)
        → All IsElement st
        → e ≢ []
        → All IsElement (elim st [
          | [] ↦ if rooted then [] else e ∷ []
          | t ∷ ts ↦ if t == bytes ".." then e ∷ t ∷ ts else ts
        ])
    up [] h n = elim (Bool-cases rooted) [ inl r ↦ rw r tt | inr r ↦ rw r ((he, n), tt) ]
    up (t ∷ ts) h n = elim (Bool-cases (text_eq t (bytes ".."))) [
      | inl r ↦ rw r ((he, n), h)
      | inr r ↦ rw r (h.1)
    ]

push_elements-All :
    (rooted : Bool) (stack es : List Text)
    → All IsElement stack
    → All (All (λ x. x ≢ separator)) es
    → All IsElement (push_elements rooted stack es)
unfolding push_elements
push_elements-All rooted stack [] hs he = hs
push_elements-All rooted stack (e ∷ es) hs he =
    push_elements-All rooted (push_element rooted stack e) es
      (push_element-All rooted stack e hs he.0) he.1

join_stack_trimmed :
    (pre e : Text) (es : List Text)
    → All IsElement (e ∷ es)
    → trim_right separator (pre ++ join_stack (e ∷ es)) ≡ pre ++ join_stack (e ∷ es)
unfolding join_stack
join_stack_trimmed pre e [] h =
    let t = trim_right_free separator e h.0.0 in
    trim_right-append separator pre e (λ n. h.0.1 (sym t ∙ n)) ∙ ap (λ (s : Text). pre ++ s) t
join_stack_trimmed pre e (f ∷ es) h =
    let t = trim_right_free separator e h.0.0 in
    let whole = pre ++ (join_stack (f ∷ es) ++ separator ∷ []) in
    let regroup : pre ++ (join_stack (f ∷ es) ++ separator ∷ e) ≡ whole ++ e = simp append_assoc in
    rw regroup (
      trim_right-append separator whole e (λ n. h.0.1 (sym t ∙ n))
      ∙ ap (λ (s : Text). whole ++ s) t)

-- The lexical clean form of an absolute path has no trailing separator, unless it is the root.
pub clean-IsTrimmed : (p : Text) → is_abs p ≡ true → IsTrimmed (clean p)
unfolding clean
clean-IsTrimmed p abs =
    rooted_case (push_elements (is_abs p) [] (split_path p))
      (push_elements-All (is_abs p) [] (split_path p) tt (split_path-All p))
  where
    rooted_case :
        (st : List Text)
        → All IsElement st
        → IsTrimmed (
            if is_abs p
            then separator ∷ join_stack st
            else if join_stack st == []
            then bytes "."
            else join_stack st)
    rooted_case [] h = rw abs (inl refl)
    rooted_case (e ∷ es) h = rw abs (inr (join_stack_trimmed (separator ∷ []) e es h, λ n. cc))

is_abs-append : (s t : Text) → s ≢ [] → is_abs (s ++ t) ≡ is_abs s
unfolding is_abs
is_abs-append [] t n = absurd (n refl)
is_abs-append (x ∷ s) t n = refl

is_abs-IsElement : (e : Text) → IsElement e → is_abs e ≡ false
unfolding is_abs
is_abs-IsElement [] h = absurd (h.1 refl)
is_abs-IsElement (x ∷ e) h = ground (arith, h.0.0)

join_stack-ne-nil : (e : Text) (es : List Text) → All IsElement (e ∷ es) → join_stack (e ∷ es) ≢ []
unfolding join_stack
join_stack-ne-nil e [] h = h.0.1
join_stack-ne-nil e (f ∷ es) h = tail_full (join_stack (f ∷ es))
  where
    tail_full : (s : Text) → s ++ separator ∷ e ≢ []
    tail_full [] g = cc
    tail_full (x ∷ s) g = cc

is_abs-join_stack :
    (e : Text) (es : List Text) → All IsElement (e ∷ es) → is_abs (join_stack (e ∷ es)) ≡ false
unfolding join_stack
is_abs-join_stack e [] h = is_abs-IsElement e h.0
is_abs-join_stack e (f ∷ es) h =
    is_abs-append (join_stack (f ∷ es)) (separator ∷ e) (join_stack-ne-nil f es h.1)
    ∙ is_abs-join_stack f es h.1

full_text : (s : Text) → s ≢ [] → text_eq s [] ≡ false
unfolding text_eq
full_text [] n = absurd (n refl)
full_text (x ∷ s) n = refl

-- Only an absolute path has an absolute clean form.
pub is_abs-clean : (p : Text) → is_abs (clean p) ≡ true → is_abs p ≡ true
unfolding clean
is_abs-clean p h =
    relative_case (Bool-cases (is_abs p)) (push_elements (is_abs p) [] (split_path p))
      (push_elements-All (is_abs p) [] (split_path p) tt (split_path-All p)) h
  where
    relative_case :
        (is_abs p ≡ true) ⊎ (is_abs p ≡ false)
        → (st : List Text) → All IsElement st
        → is_abs (
            if is_abs p
            then separator ∷ join_stack st
            else if join_stack st == []
            then bytes "."
            else join_stack st)
          ≡ true
        → is_abs p ≡ true
    relative_case (inl a) st g e = a
    relative_case (inr a) [] g e = absurd (dot (rw a at e))
      where
        dot : is_abs (if text_eq [] [] then bytes "." else []) ≡ true → ⊥
        dot k = ground (arith)
    relative_case (inr a) (x ∷ xs) g e =
        let full : text_eq (join_stack (x ∷ xs)) [] ≡ false =
          full_text (join_stack (x ∷ xs)) (join_stack-ne-nil x xs g) in
        let rel : is_abs (join_stack (x ∷ xs)) ≡ false = is_abs-join_stack x xs g in
        let k : is_abs (if text_eq (join_stack (x ∷ xs)) [] then bytes "." else join_stack (x ∷ xs))
            ≡ true =
          rw a at e in
        let k' : is_abs (join_stack (x ∷ xs)) ≡ true = rw full at k in cc
