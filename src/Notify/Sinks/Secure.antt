-- ===== src/Notify/Sinks/Secure.antt =====
-- notify.go: sendMail, and the state of its line.
use fmon.Base.{
  ℕ, ◌≡◌, refl, ◌≢◌, ◌⊎◌, inl, inr, Bool, true, false, not, ◌&&◌, [], arith, Text, text_eq,
  text_eq_iff,
}
use fmon.Config.{SmtpConfig, security_starttls, security_tls, security_none, Validators}
use fmon.Config.Password.{is_exposed, read_password, check_mode, password}
use fmon.Config.Valid.{IsUsableSmtp}
use fmon.Exec.{no_starttls, Outcome, found, failed, Env, World, Result, ok, err, ask}
use fmon.Exec.Keeps.{After}
use fmon.Exec.Leads.{Leads, Leads-pure, Leads-raise, Leads-if, Leads-ask, Leads-bind}
use fmon.Notify.Delivery.{connect_plain, connect_tls, handshake, starttls, auth}
use fmon.Notify.Render.{Formats}
use fmon.Notify.Sinks.{connect, start_tls, authenticate, send_mail}
use fmon.Notify.Sinks.Session.{
  line_after, IsDiscreet, At, send-Leads, open-Leads, send_message-Leads,
}
use fmon.Report.{Report}

ask_line {ℓ} :
    {A : Type ℓ} (private b : Bool) (g : Env → ℕ → A)
    → Leads (At private b) (At private b) (IsDiscreet private) (ask g)
ask_line private b g = Leads-ask g (λ w h. h)

module _ (private : Bool) (sec : Text) where
  connect_encrypted :
      text_eq sec security_tls ≡ true
      → Leads (IsDiscreet private) (At private true) (IsDiscreet private) (connect sec)
  unfolding connect line_after
  connect_encrypted e =
      Leads-if (text_eq sec security_tls) _ _
        (λ _.
          Leads-bind _ _ (open-Leads private true connect_tls (λ b. refl))
            λ _. send-Leads private true true handshake refl)
        (λ f. absurd (ground arith))

  connect_clear :
      text_eq sec security_tls ≡ false
      → Leads (IsDiscreet private) (At private false) (IsDiscreet private) (connect sec)
  unfolding connect line_after
  connect_clear e =
      Leads-if (text_eq sec security_tls) _ _ (λ f. absurd (ground arith))
        (λ _.
          Leads-bind _ _ (open-Leads private false connect_plain (λ b. refl))
            λ _. send-Leads private false false handshake refl)

  start_tls_skipped :
      (b : Bool)
      → text_eq sec security_starttls ≡ false
      → Leads (At private b) (At private b) (IsDiscreet private) (start_tls sec)
  unfolding start_tls
  start_tls_skipped b e =
      Leads-if (text_eq sec security_starttls) _ _ (λ f. absurd (ground arith))
        (λ _. Leads-pure tt (λ w h. h))

  start_tls_done :
      text_eq sec security_starttls ≡ true
      → Leads (At private false) (At private true) (IsDiscreet private) (start_tls sec)
  unfolding start_tls line_after
  start_tls_done e =
      Leads-if (text_eq sec security_starttls) _ _
        (λ _. Leads-bind _ _ (ask_line private false (λ env n. env.offers_starttls n)) λ offered.
          Leads-if offered _ _ (λ _. send-Leads private false true starttls refl)
            (λ _. Leads-raise no_starttls (λ w h. (false, h))))
        (λ f. absurd (ground arith))

authenticate-Leads :
    (private b : Bool) (s : SmtpConfig) (secret : Text)
    → (b ≡ true) ⊎ (s.username ≡ [])
    → Leads (At private b) (At private b) (IsDiscreet private) (authenticate s secret)
unfolding authenticate line_after
authenticate-Leads private b s secret (inl e) =
    Leads-if (not (text_eq s.username [])) _ _
      (λ _. send-Leads private b b (auth s.username secret) (rw e refl))
      (λ _. Leads-pure tt (λ w h. h))
authenticate-Leads private b s secret (inr e) =
    Leads-if (not (text_eq s.username [])) _ _
      (λ f. absurd (ground (arith, text_eq_iff s.username []))) (λ _. Leads-pure tt (λ w h. h))

module _ (private : Bool) where
  IsDiscreet-ask {ℓ} :
      {A : Type ℓ} (g : Env → ℕ → A)
      → Leads (IsDiscreet private) (IsDiscreet private) (IsDiscreet private) (ask g)
  IsDiscreet-ask g = Leads-ask g (λ w h. h)

  check_mode-Leads :
      (p : Text) (o : Outcome ℕ)
      → Leads (IsDiscreet private) (IsDiscreet private) (IsDiscreet private) (check_mode p o)
  unfolding check_mode
  check_mode-Leads p (failed e) = Leads-raise _ (λ w h. h)
  check_mode-Leads p (found mode) =
      Leads-if (is_exposed mode) _ _ (λ _. Leads-raise _ (λ w h. h)) (λ _. Leads-pure tt (λ w h. h))

  read_password-Leads :
      (p : Text) (o : Outcome Text)
      → Leads (IsDiscreet private) (IsDiscreet private) (IsDiscreet private) (read_password p o)
  unfolding read_password
  read_password-Leads p (failed e) = Leads-raise _ (λ w h. h)
  read_password-Leads p (found t) = Leads-pure _ (λ w h. h)

  password-Leads :
      (s : SmtpConfig)
      → Leads (IsDiscreet private) (IsDiscreet private) (IsDiscreet private) (password s)
  unfolding password
  password-Leads s =
      Leads-if (not (text_eq s.password_file [])) _ _
        (λ _. Leads-bind _ _ (IsDiscreet-ask (λ env n. env.file_mode n s.password_file)) λ mode.
          Leads-bind _ _ (check_mode-Leads s.password_file mode) λ _.
            Leads-bind _ _ (IsDiscreet-ask (λ env n. env.read_file n s.password_file))
              λ content. read_password-Leads s.password_file content)
        (λ _.
          Leads-if (not (text_eq s.password_env [])) _ _
            (λ _. IsDiscreet-ask (λ env n. env.getenv n s.password_env))
            (λ _. Leads-pure _ (λ w h. h)))

module _ (f : Formats) (private : Bool) (s : SmtpConfig) (r : Report) where
  -- The session, by the way in which it opens.
  session-Leads :
      (clear b : Bool)
      → Leads (IsDiscreet private) (At private clear) (IsDiscreet private) (connect s.security)
      → Leads (At private clear) (At private b) (IsDiscreet private) (start_tls s.security)
      → (b ≡ true) ⊎ (s.username ≡ [])
      → (private && not b) ≡ false
      → Leads (IsDiscreet private) (At private b) (IsDiscreet private) (send_mail f s r)
  unfolding send_mail
  session-Leads clear b opened secured account calm =
      Leads-bind _ _ (password-Leads private s) λ secret. Leads-bind _ _ opened λ _.
        Leads-bind _ _ secured λ _.
          Leads-bind _ _ (authenticate-Leads private b s secret account)
            λ _. send_message-Leads private b calm s _ _

-- Whether the settings ask for an encrypted line.
abbrev pub is_private : SmtpConfig → Bool
is_private s = not (text_eq s.security security_none)

After-IsDiscreet :
    (private b : Bool) (o : Result (Unit {0}) × World)
    → After (At private b) (IsDiscreet private) o
    → IsDiscreet private o.1
After-IsDiscreet private b (ok _, w) h = (b, h)
After-IsDiscreet private b (err e, w) h = h

-- With usable settings, a mail session sends no password over a line that is not encrypted, and with
-- `starttls` or `tls` nothing of the mail either, whatever the server answers and wherever it fails.
pub send_mail-IsDiscreet :
    (f : Formats) (v : Validators) (s : SmtpConfig) (r : Report) (env : Env) (w : World)
    → IsUsableSmtp v s
    → IsDiscreet (is_private s) w
    → IsDiscreet (is_private s) (send_mail f s r env w).1
unfolding text_eq
send_mail-IsDiscreet f v s r env w u h = by_security u.0
  where
    by_security :
        (s.security ≡ security_starttls)
          ⊎ ((s.security ≡ security_tls) ⊎ (s.security ≡ security_none))
        → IsDiscreet (is_private s) (send_mail f s r env w).1
    by_security (inl e) = After-IsDiscreet (is_private s) true (send_mail f s r env w) (
        (session-Leads f (is_private s) s r false true
            (connect_clear (is_private s) s.security (rw e refl))
            (start_tls_done (is_private s) s.security (rw e refl)) (inl refl) (ground arith)).at
          env w h)
    by_security (inr (inl e)) = After-IsDiscreet (is_private s) true (send_mail f s r env w) (
        (session-Leads f (is_private s) s r true true
            (connect_encrypted (is_private s) s.security (rw e refl))
            (start_tls_skipped (is_private s) s.security true (rw e refl)) (inl refl)
            (ground arith)).at
          env w h)
    by_security (inr (inr e)) = After-IsDiscreet (is_private s) false (send_mail f s r env w) (
        (session-Leads f (is_private s) s r false false
            (connect_clear (is_private s) s.security (rw e refl))
            (start_tls_skipped (is_private s) s.security false (rw e refl)) (inr (no_account u.5))
            (rw e refl)).at
          env w h)
      where
        no_account : (s.security ≢ security_none) ⊎ (s.username ≡ []) → s.username ≡ []
        no_account (inl n) = absurd (n e)
        no_account (inr p) = p
