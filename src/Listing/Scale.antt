-- ===== src/Listing/Scale.antt =====
-- list.go, humanBytes: the unit for a size.
use mathlib.Core.Path.{subst}
use native.Mathlib.Nat.{pow-suc, mul-suc, mul_right_comm, mul_assoc}
use fmon.Base.{
  ℕ, zero, suc, ◌+◌, ◌*◌, ◌/◌, ◌^◌, ◌≤◌, ◌<◌, ◌≡◌, refl, sym, ap, ◌∙◌, ◌⊎◌, inl, inr, Bool, true,
  false, arith, ltb, leb, if◌then◌else◌,
}
use fmon.Base.Int.{pos}
use fmon.Listing.Rows.{plain_size, scaled_size, scale_bytes, human_bytes}
use fmon.Models.Hash.{sign_limit}

mul_le : (a b c : ℕ) → a ≤ b → a * c ≤ b * c
mul_le a b zero h = omega arith
mul_le a b (suc c) h = omega (arith, mul_le a b c h, mul-suc a c, mul-suc b c)

-- The divisor for an exponent.
abbrev unit_of : ℕ → ℕ
unit_of e = 1024 ^ suc e

unit_of-suc : (e : ℕ) → unit_of e * 1024 ≡ unit_of (suc e)
unit_of-suc e = sym (pow-suc 1024 (suc e))

-- A divisor and its exponent that fit a size.
abbrev Fits : ℕ → ℕ → ℕ × ℕ → Type 0
Fits n top r = (k : ℕ) × (r ≡ (unit_of k, k)) × (k ≤ top) × (unit_of k ≤ n) × (n < unit_of k * 1024)

-- A quotient of a division, brought down by one unit.
scaled_down :
    (m n p : ℕ)
    → m * p ≤ n
    → n < (m + 1) * p
    → ((m / 1024) * (p * 1024) ≤ n) × (n < (m / 1024 + 1) * (p * 1024))
scaled_down m n p lo hi =
    let q = m / 1024 in
    let regroup : (k : ℕ) → k * (p * 1024) ≡ (k * 1024) * p =
      λ k. sym (mul_assoc k p 1024) ∙ mul_right_comm k p 1024 in
    (
      omega (arith, mul_le (q * 1024) m p (omega arith), regroup q),
      omega (arith, mul_le (m + 1) ((q + 1) * 1024) p (omega arith), regroup (q + 1)),
    )

scale_bytes-Fits :
    (fuel m e n : ℕ)
    → m * unit_of e ≤ n
    → n < (m + 1) * unit_of e
    → 0 < m
    → m < 1024 ^ suc fuel
    → Fits n (e + fuel) (scale_bytes fuel m (unit_of e) e)
unfolding scale_bytes
scale_bytes-Fits zero m e n lo hi full top = (
  e,
  refl,
  omega arith,
  omega (arith, mul_le 1 m (unit_of e) (omega arith)),
  omega (arith, mul_le (m + 1) 1024 (unit_of e) (omega arith)),
)
scale_bytes-Fits (suc fuel) m e n lo hi full top = by_test (leb 1024 m) refl λ h.
    let next = unit_of-suc e in
    let down = scaled_down m n (unit_of e) lo hi in
    let (k, r, le, below, above) =
      scale_bytes-Fits fuel (m / 1024) (suc e) n (subst (λ (d : ℕ). m / 1024 * d ≤ n) next down.0)
        (subst (λ (d : ℕ). n < (m / 1024 + 1) * d) next down.1) (ground arith)
        (omega (arith, pow-suc 1024 (suc fuel))) in
    (k, ap (λ d. scale_bytes fuel (m / 1024) d (suc e)) next ∙ r, omega arith, below, above)
  where
    by_test :
        (b : Bool)
        → leb 1024 m ≡ b
        → (leb 1024 m ≡ true
            → Fits n (e + suc fuel) (scale_bytes fuel (m / 1024) (unit_of e * 1024) (suc e)))
        → Fits n
            (e + suc fuel)
            (if b then scale_bytes fuel (m / 1024) (unit_of e * 1024) (suc e) else (unit_of e, e))
    by_test true h more = more h
    by_test false h more = (
      e,
      refl,
      omega arith,
      omega (arith, mul_le 1 m (unit_of e) (omega arith)),
      omega (arith, mul_le (m + 1) 1024 (unit_of e) (ground arith)),
    )

-- A size that fits an int64 is printed with the largest unit that it reaches: below 1024 as it is,
-- and else with a unit that exists ("KMGTPE" has six) and that unit's power of 1024 as the divisor,
-- which is not larger than the size, while 1024 times the divisor is larger.
pub human_bytes-IsScaled :
    (n : ℕ)
    → n < sign_limit
    → ((n < 1024) × (human_bytes (pos n) ≡ plain_size (pos n)))
      ⊎ ((k : ℕ) × (human_bytes (pos n) ≡ scaled_size n (1024 ^ suc k) k)
          × (k ≤ 5)
          × (1024 ^ suc k ≤ n)
          × (n < 1024 ^ suc k * 1024))
unfolding human_bytes
human_bytes-IsScaled n small = by_test (ltb n 1024) refl
  where
    by_test :
        (b : Bool)
        → ltb n 1024 ≡ b
        → ((n < 1024) × (human_bytes (pos n) ≡ plain_size (pos n)))
          ⊎ ((k : ℕ) × (human_bytes (pos n) ≡ scaled_size n (1024 ^ suc k) k)
              × (k ≤ 5)
              × (1024 ^ suc k ≤ n)
              × (n < 1024 ^ suc k * 1024))
    by_test true h = inl (ground arith, rw (h, human_bytes) refl)
    by_test false h =
        let (k, r, le, below, above) =
          scale_bytes-Fits 5 (n / 1024) 0 n (omega arith) (omega arith) (ground arith)
            (omega arith) in
        inr (
          k,
          rw (h, human_bytes) (ap (λ (p : ℕ × ℕ). scaled_size n p.0 p.1) r),
          omega arith,
          below,
          above,
        )
