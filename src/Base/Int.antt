-- ===== src/Base/Int.antt =====
-- Signed integers over the native numbers: int64 and int values, under the library's names.
use fmon.Base.{
  ℕ, suc, ◌+◌, ◌-◌, ◌≡◌, ◌↔◌, Bool, true, false, arith, ltb, leb, eqb, if◌then◌else◌, Comparable,
}

-- `negsuc n` is -(n + 1).
pub data ℤ : Type 0 where
  pos : ℕ → ℤ
  negsuc : ℕ → ℤ

unfoldable pub int_eq : ℤ → ℤ → Bool
int_eq (pos a) (pos b) = eqb a b
int_eq (pos a) (negsuc b) = false
int_eq (negsuc a) (pos b) = false
int_eq (negsuc a) (negsuc b) = eqb a b

pub int_eq_iff : (a b : ℤ) → (int_eq a b ≡ true) ↔ (a ≡ b)
unfolding int_eq
int_eq_iff (pos a) (pos b) = ground arith
int_eq_iff (pos a) (negsuc b) = ground arith
int_eq_iff (negsuc a) (pos b) = ground arith
int_eq_iff (negsuc a) (negsuc b) = ground arith

instance abbrev pub int_equality : Comparable ℤ
int_equality = record { same = int_eq; same_iff = int_eq_iff }

-- `a < b`
abbrev pub int_lt : ℤ → ℤ → Bool
int_lt (pos a) (pos b) = ltb a b
int_lt (pos a) (negsuc b) = false
int_lt (negsuc a) (pos b) = true
int_lt (negsuc a) (negsuc b) = ltb b a

-- a - b
unfoldable pub int_sub : ℤ → ℤ → ℤ
int_sub (pos a) (pos b) = if leb b a then pos (a - b) else negsuc (b - a - 1)
int_sub (pos a) (negsuc b) = pos (a + suc b)
int_sub (negsuc a) (pos b) = negsuc (a + b)
int_sub (negsuc a) (negsuc b) = if leb a b then pos (b - a) else negsuc (a - b - 1)

unfoldable pub int_add : ℤ → ℤ → ℤ
unfolding int_sub
int_add (pos a) (pos b) = pos (a + b)
int_add (pos a) (negsuc b) = int_sub (pos a) (pos (suc b))
int_add (negsuc a) (pos b) = int_sub (pos b) (pos (suc a))
int_add (negsuc a) (negsuc b) = negsuc (a + b + 1)
