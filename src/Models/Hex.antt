-- ===== src/Models/Hex.antt =====
-- internal/models/models.go: FormatHash, the verb %016x of a uint64.
use native.Mathlib.Nat.{pow-suc}
use fmon.Base.{
  ℕ, zero, suc, ◌+◌, ◌-◌, ◌*◌, ◌/◌, ◌%◌, ◌^◌, ◌<◌, ◌≡◌, refl, ◌∙◌, [], ◌∷◌, ◌++◌, arith, ltb,
  if◌then◌else◌, length, length-append, Text,
}

abbrev hex_digit : ℕ → ℕ
hex_digit d = if ltb d 10 then b'0' + d else b'a' + (d - 10)

-- The last `width` digits, with leading zeros. A uint64 has at most sixteen.
unfoldable pub fixed_hex : ℕ → ℕ → Text
fixed_hex zero n = []
fixed_hex (suc width) n = fixed_hex width (n / 16) ++ hex_digit (n % 16) ∷ []

unfoldable pub format_hash : ℕ → Text
unfolding fixed_hex
format_hash h = fixed_hex 16 h

-- An independent reader of hexadecimal digits.
abbrev digit_value : ℕ → ℕ
digit_value c = if ltb c b'a' then c - b'0' else c - b'a' + 10

pub hex_value : ℕ → Text → ℕ
hex_value acc [] = acc
hex_value acc (c ∷ s) = hex_value (acc * 16 + digit_value c) s

hex_value-append : (acc : ℕ) (s t : Text) → hex_value acc (s ++ t) ≡ hex_value (hex_value acc s) t
unfolding hex_value
hex_value-append acc [] t = refl
hex_value-append acc (c ∷ s) t = hex_value-append (acc * 16 + digit_value c) s t

digit_value-hex_digit : (d : ℕ) → d < 16 → digit_value (hex_digit d) ≡ d
digit_value-hex_digit d h = ground arith

hex_value-fixed_hex : (width n : ℕ) → n < 16 ^ width → hex_value 0 (fixed_hex width n) ≡ n
unfolding hex_value fixed_hex
hex_value-fixed_hex zero n h = omega arith
hex_value-fixed_hex (suc width) n h =
    let front : n / 16 < 16 ^ width = omega (arith, pow-suc 16 width) in
    hex_value-append 0 (fixed_hex width (n / 16)) (hex_digit (n % 16) ∷ [])
    ∙ omega (
      arith,
      hex_value-fixed_hex width (n / 16) front,
      digit_value-hex_digit (n % 16) (omega arith),
    )

length-fixed_hex : (width n : ℕ) → length (fixed_hex width n) ≡ width
unfolding fixed_hex
length-fixed_hex zero n = refl
length-fixed_hex (suc width) n = omega (
  arith,
  length-append (fixed_hex width (n / 16)) (hex_digit (n % 16) ∷ []),
  length-fixed_hex width (n / 16),
)

-- A printed hash has sixteen digits, and reading them gives the hash back.
pub hex_value-format_hash :
    (h : ℕ) → h < 2 ^ 64 → (length (format_hash h) ≡ 16) × (hex_value 0 (format_hash h) ≡ h)
unfolding format_hash
hex_value-format_hash h small = (length-fixed_hex 16 h, hex_value-fixed_hex 16 h (omega arith))
