-- ===== src/Notify/Render/Plain.antt =====
-- A small instance of the formats, for the tests: quoting drops the line breaks.
use fmon.Base.{◌≡◌, refl, inl, inr, false, not, [], ◌∷◌, eqb, Bool-cases, keep_if, Text, bytes}
use fmon.Notify.{newline}
use fmon.Notify.Render.{Formats}
use fmon.Notify.Render.Injection.{has_newline, IsPlain}

abbrev pub plain_formats : Formats
plain_formats = record {
  quote = λ t. keep_if (λ c. not (eqb c newline)) t;
  rfc3339 = λ t. bytes "2024-05-01T00:00:00Z";
  duration_text = λ t. bytes "1s";
}

has_newline-keep_if : (t : Text) → has_newline (keep_if (λ c. not (eqb c newline)) t) ≡ false
has_newline-keep_if [] = refl
has_newline-keep_if (c ∷ t) = elim (Bool-cases (eqb c newline)) [
  | inl e ↦ rw e (has_newline-keep_if t)
  | inr e ↦ rw (e, e) (has_newline-keep_if t)
]

pub plain_formats-IsPlain : IsPlain plain_formats
plain_formats-IsPlain = record { quoted = has_newline-keep_if; dated = λ t. refl }
