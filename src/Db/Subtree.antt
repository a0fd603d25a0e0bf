-- ===== src/Db/Subtree.antt =====
-- queries.go: SubtreeClause and the queries restricted to a path. The range of texts from p/ up to
-- p0 is the tree below p.
use mathlib.Core.List.{append-nil}
use fmon.Base.{
  ℕ, ◌+◌, ◌≡◌, refl, sym, ap, ◌∙◌, inl, inr, Bool, true, false, ◌&&◌, ◌||◌, [], ◌∷◌, ◌++◌, arith,
  Bool-cases, ◌==◌, Text, text_eq, text_eq_iff, has_prefix, text_lt, text_le, trim_right,
  has_prefix-append, has_prefix_rest, nat_eq, text_equality,
}
use fmon.Base.Int.{int_equality}
use fmon.Paths.{separator, prefix_of, within}
use fmon.Paths.Laws.{within_rest, within_of_rest}

-- The arguments that the clause binds: the path, and the two ends of the range. `separator + 1` is
-- the byte '0'.
unfoldable pub subtree_args : Text → Text × Text × Text
subtree_args p =
    let base = trim_right separator p in (p, base ++ separator ∷ [], base ++ (separator + 1) ∷ [])

-- column = ? OR (column >= ? AND column < ?), by BINARY collation.
unfoldable pub subtree_clause : Text → Text → Bool
unfolding subtree_args
subtree_clause p column =
    let args = subtree_args p in
    column == args.0 || (text_le args.1 column && text_lt column args.2)

-- An empty path means no WHERE clause.
abbrev pub in_query : Text → Text → Bool
in_query path column = path == [] || subtree_clause path column

-- The bytes from base/ up to base0 are those that begin with base/.
range-has_prefix :
    (base s : Text) (c : ℕ)
    → (text_le (base ++ c ∷ []) s && text_lt s (base ++ (c + 1) ∷ []))
      ≡ has_prefix s (base ++ c ∷ [])
unfolding text_lt has_prefix
range-has_prefix [] [] c = refl
range-has_prefix [] (x ∷ []) c = ground arith
range-has_prefix [] (x ∷ y ∷ s) c = ground arith
range-has_prefix (b ∷ base) [] c = refl
range-has_prefix (b ∷ base) (x ∷ s) c = ground (arith, range-has_prefix base s c)

has_prefix-within : (s p : Text) → has_prefix s (prefix_of p) ≡ (s == prefix_of p || within s p)
has_prefix-within s p = elim (Bool-cases (has_prefix s (prefix_of p))) [
  | inl e ↦ let (r, g) = has_prefix_rest s (prefix_of p) e in rw e (yes_case r g)
  | inr e ↦ rw e (no_case e)
]
  where
    yes_case : (r : Text) → s ≡ prefix_of p ++ r → true ≡ (s == prefix_of p || within s p)
    yes_case [] g =
        let eq : text_eq s (prefix_of p) ≡ true =
          (text_eq_iff s (prefix_of p)).1 (g ∙ append-nil (prefix_of p)) in
        rw eq
    yes_case (c ∷ r) g = ground (arith, within_of_rest s p c r g)

    no_case : has_prefix s (prefix_of p) ≡ false → false ≡ (s == prefix_of p || within s p)
    no_case e = elim (Bool-cases (text_eq s (prefix_of p))) [
      | inl a ↦
          let g : s ≡ prefix_of p ++ [] =
            (text_eq_iff s (prefix_of p)).0 a ∙ sym (append-nil (prefix_of p)) in
          let h : has_prefix s (prefix_of p) ≡ true = rw g (has_prefix-append (prefix_of p) []) in
          cc
      | inr a ↦ elim (Bool-cases (within s p)) [
        | inl b ↦
            let (c, r, g) = within_rest s p b in
            let h : has_prefix s (prefix_of p) ≡ true =
              rw g (has_prefix-append (prefix_of p) (c ∷ r)) in
            cc
        | inr b ↦ rw (a, b)
      ]
    ]

-- The SQL clause for a path selects exactly that path, everything that `within` counts as strictly
-- inside it, and the path written with one trailing separator.
pub subtree_clause-within :
    (p s : Text) → subtree_clause p s ≡ (s == p || (s == prefix_of p || within s p))
unfolding subtree_clause
subtree_clause-within p s =
    ap (λ (b : Bool). s == p || b)
      (range-has_prefix (trim_right separator p) s separator ∙ has_prefix-within s p)
