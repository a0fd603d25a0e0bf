-- ===== src/Config/Valid.antt =====
-- Validate, against a description of the settings that a run can use.
use fmon.Base.{
  ℕ, suc, ◌≤◌, ◌≡◌, refl, ◌≢◌, ◌⊎◌, inl, inr, true, false, not, ◌&&◌, ◌||◌, Option, none, some,
  List, [], ◌∷◌, arith, eqb, Bool-cases, Option-cases, ◌==◌, length, All, Text, text_eq_iff, nat_eq,
  text_equality,
}
use fmon.Base.Int.{ℤ, pos, negsuc, int_lt, int_equality}
use fmon.Config.{
  SmtpConfig, ScriptConfig, Config, detail_summary, detail_full, security_starttls, security_tls,
  security_none, valid_detail, Validators, timeout_duration, check_patterns, check_smtp,
  positive_duration, check_script, check_scripts, validate,
}

abbrev IsDetail : Text → Type 0
IsDetail t = (t ≡ detail_summary) ⊎ (t ≡ detail_full)

abbrev IsSecurity : Text → Type 0
IsSecurity t = (t ≡ security_starttls) ⊎ ((t ≡ security_tls) ⊎ (t ≡ security_none))

-- Between the bounds, both included.
abbrev IsBetween : ℕ → ℕ → ℤ → Type 0
IsBetween lo hi z = (n : ℕ) × (z ≡ pos n) × (lo ≤ n) × (n ≤ hi)

module _ (v : Validators) where
  -- The timeout of a script is the positive duration that its text denotes.
  abbrev HasTimeout : ScriptConfig → Type 0
  HasTimeout s =
      (d : ℤ) × (v.parse_duration s.timeout ≡ some d)
      × (int_lt (pos 0) d ≡ true)
      × (timeout_duration v s ≡ d)

  abbrev pub IsUsableScript : ScriptConfig → Type 0
  IsUsableScript s =
      (v.trim_space s.path ≢ [])
      × IsDetail s.detail
      × HasTimeout s
      × ((n : ℕ) × (s.max_message_bytes ≡ pos n) × (200 ≤ n))

  abbrev pub IsUsableSmtp : SmtpConfig → Type 0
  IsUsableSmtp s =
      IsSecurity s.security
      × (v.trim_space s.host ≢ [])
      × IsBetween 1 65535 s.port
      × (v.trim_space s.sender ≢ [])
      × (s.recipients ≢ [])
      × ((s.security ≢ security_none) ⊎ (s.username ≡ []))

  -- What the commands and the sinks take for granted of the settings.
  abbrev pub IsUsable : Config → Type 0
  IsUsable c =
      IsDetail c.log.detail
      × IsDetail c.smtp.detail
      × All (λ p. v.validate_pattern p ≡ true) c.exclude
      × ((c.smtp.enabled ≡ false) ⊎ IsUsableSmtp c.smtp)
      × All IsUsableScript c.scripts

valid_detail-IsDetail : (t : Text) → valid_detail t ≡ true → IsDetail t
unfolding valid_detail
valid_detail-IsDetail t h = grind (arith, text_eq_iff t detail_summary, text_eq_iff t detail_full)

in_bounds :
    (lo hi : ℕ) (z : ℤ) → int_lt z (pos lo) ≡ false → int_lt (pos hi) z ≡ false → IsBetween lo hi z
in_bounds lo hi (pos n) h k = (n, refl, ground arith, ground arith)
in_bounds lo hi (negsuc n) h k = ground arith

not_empty : (t : Text) → (t == []) ≡ false → t ≢ []
not_empty t h k = ground (arith, text_eq_iff t [])

module _ (v : Validators) where
  timeout_of : (s : ScriptConfig) → not (positive_duration v s.timeout) ≡ false → HasTimeout v s
  unfolding positive_duration timeout_duration
  timeout_of s h = by_parse (v.parse_duration s.timeout) refl
    where
      by_parse : (o : Option ℤ) → v.parse_duration s.timeout ≡ o → HasTimeout v s
      by_parse none e = ground arith
      by_parse (some d) e =
          let positive : int_lt (pos 0) d ≡ true = ground arith in
          (d, e, positive, rw (e, timeout_duration) (rw positive refl))

  at_least : (z : ℤ) → int_lt z (pos 200) ≡ false → (n : ℕ) × (z ≡ pos n) × (200 ≤ n)
  at_least (pos n) h = (n, refl, ground arith)
  at_least (negsuc n) h = ground arith

  script_of : (i : ℕ) (s : ScriptConfig) → check_script v i s ≡ none → IsUsableScript v s
  unfolding check_script
  script_of i s h = (
    not_empty (v.trim_space s.path) (ground arith),
    valid_detail-IsDetail s.detail (ground arith),
    timeout_of s (ground arith),
    at_least s.max_message_bytes (ground arith),
  )

  scripts_of :
      (i : ℕ) (ss : List ScriptConfig) → check_scripts v i ss ≡ none → All (IsUsableScript v) ss
  unfolding check_scripts
  scripts_of i [] h = tt
  scripts_of i (s ∷ ss) h = elim (Option-cases (check_script v i s)) [
    | inl e ↦ (script_of i s e, scripts_of (suc i) ss (ground arith))
    | inr (x, e) ↦ ground arith
  ]

  patterns_of :
      (ps : List Text) → check_patterns v ps ≡ none → All (λ p. v.validate_pattern p ≡ true) ps
  unfolding check_patterns
  patterns_of [] h = tt
  patterns_of (p ∷ ps) h = (ground arith, patterns_of ps (ground arith))

  check_smtp-IsSecurity :
      (t : Text)
      → not (t == security_starttls || t == security_tls || t == security_none) ≡ false
      → IsSecurity t
  check_smtp-IsSecurity t h = grind (
    arith,
    text_eq_iff t security_starttls,
    text_eq_iff t security_tls,
    text_eq_iff t security_none,
  )

  recipients_of : (ts : List Text) → eqb (length ts) 0 ≡ false → ts ≢ []
  recipients_of [] h k = ground arith
  recipients_of (t ∷ ts) h k = ground arith

  unauthenticated :
      (s : SmtpConfig)
      → (not (s.username == []) && s.security == security_none) ≡ false
      → (s.security ≢ security_none) ⊎ (s.username ≡ [])
  unauthenticated s h = elim (Bool-cases (s.username == [])) [
    | inl e ↦ inr ((text_eq_iff s.username []).0 e)
    | inr e ↦ inl λ k. let same = (text_eq_iff s.security security_none).1 k in ground arith
  ]

  smtp_of : (s : SmtpConfig) → check_smtp v s ≡ none → IsUsableSmtp v s
  unfolding check_smtp
  smtp_of s h = (
    check_smtp-IsSecurity s.security (ground arith),
    not_empty (v.trim_space s.host) (ground arith),
    in_bounds 1 65535 s.port (ground arith) (ground arith),
    not_empty (v.trim_space s.sender) (ground arith),
    recipients_of s.recipients (ground arith),
    unauthenticated s (ground arith),
  )

  -- The port, the security mode, the patterns, the timeouts and the limits that Validate lets pass
  -- are the ones that the rest of the program can use; in particular a script's timeout is the
  -- duration that its text denotes, never the stand-in of thirty seconds.
  pub validate-IsUsable : (c : Config) → validate v c ≡ none → IsUsable v c
  unfolding validate
  validate-IsUsable c h = (
    valid_detail-IsDetail c.log.detail (ground arith),
    valid_detail-IsDetail c.smtp.detail (ground arith),
    patterns_of c.exclude (ground arith),
    elim (Bool-cases c.smtp.enabled) [
      | inl e ↦ inr (smtp_of c.smtp (ground arith))
      | inr e ↦ inl e
    ],
    scripts_of 0 c.scripts (ground arith),
  )
