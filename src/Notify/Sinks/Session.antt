-- ===== src/Notify/Sinks/Session.antt =====
-- What reaches the mail server unencrypted.
use fmon.Base.{
  ◌≡◌, refl, ◌∙◌, Bool, true, false, not, ◌&&◌, Option, none, some, List, [], ◌∷◌, ◌++◌, arith,
  if◌then◌else◌, Text,
}
use fmon.Config.{SmtpConfig}
use fmon.Exec.{Env, World, pure, raise, ask}
use fmon.Exec.Keeps.{After}
use fmon.Exec.Leads.{Leads, Leads-pure, Leads-bind}
use fmon.Notify.Delivery.{
  SmtpCommand, connect_plain, connect_tls, starttls, auth, mail_from, rcpt_to, data_start, data_end,
  quit, head_text, body_text,
}
use fmon.Notify.Sinks.{header_safe, send, send_recipients, send_message}

-- What must not be sent in the clear: the account, and with `private` the mail itself.
abbrev pub needs_tls : Bool → SmtpCommand → Bool
needs_tls private (auth u p) = true
needs_tls private (mail_from a) = private
needs_tls private (rcpt_to a) = private
needs_tls private (head_text t) = private
needs_tls private (body_text t) = private
needs_tls private c = false

-- The connection after a step: `some true` is encrypted. `none` means that something was sent in the
-- clear that must not be.
unfoldable pub line_after : Bool → Bool → SmtpCommand → Option Bool
line_after private encrypted connect_plain = some false
line_after private encrypted connect_tls = some true
line_after private encrypted starttls = some true
line_after private encrypted c =
    if needs_tls private c then (if encrypted then some true else none) else some encrypted

abbrev line_step : Bool → Option Bool → SmtpCommand → Option Bool
line_step private none c = none
line_step private (some encrypted) c = line_after private encrypted c

-- The state of the line after all the sessions, from a closed line.
unfoldable pub line_state : Bool → Option Bool → List SmtpCommand → Option Bool
unfolding line_after
line_state private s [] = s
line_state private s (c ∷ cs) = line_state private (line_step private s c) cs

pub line_state-snoc :
    (private : Bool) (s : Option Bool) (cs : List SmtpCommand) (c : SmtpCommand)
    → line_state private s (cs ++ c ∷ []) ≡ line_step private (line_state private s cs) c
unfolding line_state
line_state-snoc private s [] c = refl
line_state-snoc private s (x ∷ cs) c = line_state-snoc private (line_step private s x) cs c

-- Nothing was sent in the clear that must not be.
abbrev pub IsDiscreet : Bool → World → Type 0
IsDiscreet private w = (b : Bool) × (line_state private (some false) w.smtp_log ≡ some b)

-- The state of the line is this one.
abbrev pub At : Bool → Bool → World → Type 0
At private b w = line_state private (some false) w.smtp_log ≡ some b

pub At-IsDiscreet : (private b : Bool) (w : World) → At private b w → IsDiscreet private w
At-IsDiscreet private b w h = (b, h)

module _ (private : Bool) where
  -- A step from a known state of the line to another.
  pub send-Leads :
      (b b' : Bool) (c : SmtpCommand)
      → line_after private b c ≡ some b'
      → Leads (At private b) (At private b') (IsDiscreet private) (send c)
  unfolding send ask
  send-Leads b b' c h = record { at = λ env w p. by_fault env w p (env.smtp_fault w.tick) refl }
    where
      sent :
          (w : World)
          → At private b w
          → line_state private (some false) (w.smtp_log ++ c ∷ []) ≡ some b'
      sent w p = line_state-snoc private (some false) w.smtp_log c ∙ (rw p h)

      by_fault :
          (env : Env) (w : World)
          → At private b w
          → (o : Option Text) → env.smtp_fault w.tick ≡ o
          → After (At private b') (IsDiscreet private) (send c env w)
      by_fault env w p none e = rw (e, pure) (sent w p)
      by_fault env w p (some m) e = rw (e, raise) (b', sent w p)

  -- A step that opens a connection, from any state.
  pub open-Leads :
      (b' : Bool) (c : SmtpCommand)
      → ((b : Bool) → line_after private b c ≡ some b')
      → Leads (IsDiscreet private) (At private b') (IsDiscreet private) (send c)
  open-Leads b' c h = record { at = λ env w p. (send-Leads p.0 b' c (h p.0)).at env w p.1 }

  module _ (b : Bool) (calm : (private && not b) ≡ false) where
    keep-Leads :
        (c : SmtpCommand)
        → line_after private b c ≡ some b
        → Leads (At private b) (At private b) (IsDiscreet private) (send c)
    keep-Leads c h = send-Leads b b c h

    send_recipients-Leads :
        (ts : List Text)
        → Leads (At private b) (At private b) (IsDiscreet private) (send_recipients ts)
    unfolding send_recipients
    send_recipients-Leads [] = Leads-pure tt (λ w h. h)
    send_recipients-Leads (t ∷ ts) =
        Leads-bind _ _ (keep-Leads (rcpt_to (header_safe t)) (unfold line_after in ground arith))
          λ _. send_recipients-Leads ts

    pub send_message-Leads :
        (s : SmtpConfig) (head body : Text)
        → Leads (At private b) (At private b) (IsDiscreet private) (send_message s head body)
    unfolding send_message
    send_message-Leads s head body =
        Leads-bind _ _
          (keep-Leads (mail_from (header_safe s.sender)) (unfold line_after in ground arith))
          λ _. Leads-bind _ _ (send_recipients-Leads s.recipients) λ _.
            Leads-bind _ _ (keep-Leads data_start (unfold line_after in refl)) λ _.
              Leads-bind _ _ (keep-Leads (head_text head) (unfold line_after in ground arith)) λ _.
                Leads-bind _ _ (keep-Leads (body_text body) (unfold line_after in ground arith))
                  λ _.
                    Leads-bind _ _ (keep-Leads data_end (unfold line_after in refl))
                      λ _. keep-Leads quit (unfold line_after in refl)
