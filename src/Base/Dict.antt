-- ===== src/Base/Dict.antt =====
-- Go maps with text keys, as association lists in which a key stands once.
use fmon.Base.{
  ◌≡◌, refl, Bool, false, ◌||◌, Option, none, some, List, [], ◌∷◌, arith, if◌then◌else◌, ◌==◌, Text,
  text_eq_iff, nat_eq, text_equality,
}
use fmon.Base.Int.{int_equality}

abbrev pub Dict {ℓ} : Type ℓ → Type ℓ
Dict V = List (Text × V)

module _ {ℓ} {V : Type ℓ} where
  unfoldable pub lookup : Text → Dict V → Option V
  lookup k [] = none
  lookup k ((j, v) ∷ m) = if j == k then some v else lookup k m

  -- `m[k] = v`
  unfoldable pub insert : Text → V → Dict V → Dict V
  insert k v [] = (k, v) ∷ []
  insert k v ((j, w) ∷ m) = if j == k then (k, v) ∷ m else (j, w) ∷ insert k v m

  unfoldable pub keys : Dict V → List Text
  keys [] = []
  keys ((j, v) ∷ m) = j ∷ keys m

  pub lookup-insert :
      (p q : Text) (a : V) (d : Dict V)
      → lookup q (insert p a d) ≡ (if p == q then some a else lookup q d)
  unfolding lookup insert
  lookup-insert p q a [] = refl
  lookup-insert p q a ((r, b) ∷ d) =
      ground (arith, text_eq_iff p q, text_eq_iff r p, text_eq_iff r q, lookup-insert p q a d)

-- Sets of paths, `map[string]struct{}` and `map[string]bool`.
unfoldable pub contains : Text → List Text → Bool
contains k [] = false
contains k (x ∷ xs) = x == k || contains k xs
