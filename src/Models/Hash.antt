-- ===== src/Models/Hash.antt =====
-- models.go: HashToDB and HashFromDB, which reinterpret the 64 bits of a hash as a signed integer.
use fmon.Base.{ℕ, ◌-◌, ◌%◌, ◌<◌, ◌≡◌, inl, inr, arith, ltb, if◌then◌else◌, Bool-cases}
use fmon.Base.Int.{ℤ, pos, negsuc}

abbrev pub hash_limit : ℕ
hash_limit = 18446744073709551616

abbrev pub sign_limit : ℕ
sign_limit = 9223372036854775808

unfoldable pub hash_to_db : ℕ → ℤ
hash_to_db h = if ltb h sign_limit then pos h else negsuc (hash_limit - h - 1)

unfoldable pub hash_from_db : ℤ → ℕ
hash_from_db (pos n) = n % hash_limit
hash_from_db (negsuc n) = hash_limit - 1 - n % hash_limit

-- What an int64 variable holds after an addition that gives this sum.
abbrev pub wrap_int64 : ℤ → ℤ
wrap_int64 z = hash_to_db (hash_from_db z)

-- The values of an SQLite INTEGER column.
abbrev pub IsInt64 : ℤ → Type 0
IsInt64 (pos n) = n < sign_limit
IsInt64 (negsuc n) = n < sign_limit

-- Every uint64 hash fits the INTEGER column and is read back unchanged.
pub hash_from_db-hash_to_db :
    (h : ℕ) → h < hash_limit → IsInt64 (hash_to_db h) × (hash_from_db (hash_to_db h) ≡ h)
unfolding hash_to_db hash_from_db
hash_from_db-hash_to_db h lt = elim (Bool-cases (ltb h sign_limit)) [
  | inl e ↦ rw e (ground arith, ground arith)
  | inr e ↦ rw e (ground arith, ground arith)
]
