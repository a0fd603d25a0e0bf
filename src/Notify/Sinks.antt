-- ===== src/Notify/Sinks.antt =====
-- notify.go: Notify and its sinks. time.ParseDuration is a parameter (`Validators`), and so are the
-- texts that the libraries format (`Formats`).
pub mod Session
pub mod Secure
pub mod All
pub mod Tests
use fmon.Base.{
  ℕ, ◌/◌, ◌%◌, Bool, not, ◌||◌, none, some, List, [], ◌∷◌, ◌++◌, ltb, if◌then◌else◌, ◌==◌, length,
  keep_if, Text, bytes, trim_right, nat_eq, text_equality,
}
use fmon.Base.Decimal.{decimal}
use fmon.Base.Int.{ℤ, int_equality}
use fmon.Config.{
  SmtpConfig, ScriptConfig, security_starttls, security_tls, Validators, timeout_duration,
}
use fmon.Config.Password.{password}
use fmon.Exec.{
  Error, io_failed, no_starttls, smtp_failed, timed_out, script_failed, Outcome, found, failed,
  log_sink, sink_line, World, Result, ok, err, Exec, pure, raise, ask, gets, modify, ◌>>=◌, ◌>>◌,
  warnf,
}
use fmon.Notify.{newline, cut_utf8, truncate_message}
use fmon.Notify.Delivery.{
  SmtpCommand, connect_plain, connect_tls, handshake, starttls, auth, mail_from, rcpt_to,
  data_start, data_end, quit, head_text, body_text, ScriptCall, ScriptEnd, succeeded, not_started,
  past_deadline, ended_badly, Sink, sink_log, sink_smtp, sink_script,
}
use fmon.Notify.Render.{Formats, Counts, render}
use fmon.Report.{writable_script, Report, report_counts, is_empty}

-- ---- the log file ---------------------------------------------------------------

-- The text and a newline; what a failing write leaves behind is not modelled.
unfoldable pub append_log : Text → Exec (Unit {0})
unfolding ask modify raise ◌>>=◌
append_log text = do
  fault ← ask (λ env n. env.append_fault n)
  elim fault [
    | some m ↦ raise (io_failed m)
    | none ↦ modify (λ w. record w { log_file = w.log_file ++ (text ++ newline ∷ []) ∷ [] })
  ]

-- ---- mail -------------------------------------------------------------------------

-- `headerSafe`
unfoldable pub header_safe : Text → Text
header_safe s = keep_if (λ c. not (c == b'\r' || c == b'\n')) s

-- One step of the session; the server or the network may fail it.
unfoldable pub send : SmtpCommand → Exec (Unit {0})
unfolding modify ask raise pure ◌>>=◌
send c = do
  modify (λ w. record w { smtp_log = w.smtp_log ++ c ∷ [] })
  fault ← ask (λ env n. env.smtp_fault n)
  elim fault [ some m ↦ raise (smtp_failed c m) | none ↦ pure tt ]

unfoldable pub connect : Text → Exec (Unit {0})
unfolding send ◌>>=◌
connect security =
    if security == security_tls
    then (do send connect_tls; send handshake)
    else (do send connect_plain; send handshake)

unfoldable pub start_tls : Text → Exec (Unit {0})
unfolding ask send raise pure ◌>>=◌
start_tls security =
    if security == security_starttls
    then (do
      offered ← ask (λ env n. env.offers_starttls n)
      if offered then send starttls else raise no_starttls)
    else pure tt

unfoldable pub authenticate : SmtpConfig → Text → Exec (Unit {0})
unfolding send pure
authenticate s secret = if not (s.username == []) then send (auth s.username secret) else pure tt

unfoldable pub send_recipients : List Text → Exec (Unit {0})
unfolding send pure ◌>>=◌
send_recipients [] = pure tt
send_recipients (to ∷ rest) = do send (rcpt_to (header_safe to)); send_recipients rest

unfoldable pub subject : Report → Text
unfolding header_safe
subject r =
    (if ltb 0 (length r.alerts) then bytes "[fmon] ALERT on " else bytes "[fmon] ")
    ++ (header_safe r.host ++ (bytes ": " ++ (decimal (length r.changes) ++ bytes " change(s)")))

abbrev join_addresses : List Text → Text
join_addresses [] = []
join_addresses (a ∷ []) = a
join_addresses (a ∷ b ∷ rest) = a ++ (bytes ", " ++ join_addresses (b ∷ rest))

-- The header of the mail before its encoding: From, To and the subject.
abbrev head_of : SmtpConfig → Report → Text
head_of s r =
    bytes "From: "
    ++ (header_safe s.sender
        ++ (bytes "\r\nTo: "
            ++ (header_safe (join_addresses s.recipients) ++ (bytes "\r\nSubject: " ++ subject r))))

-- From MAIL FROM to QUIT.
unfoldable pub send_message : SmtpConfig → Text → Text → Exec (Unit {0})
unfolding send send_recipients ◌>>=◌
send_message s head body = do
  send (mail_from (header_safe s.sender))
  send_recipients s.recipients
  send data_start
  send (head_text head)
  send (body_text body)
  send data_end
  send quit

-- `info.Mode().Perm() & 0o022 != 0`: the group or the others may write.
abbrev pub is_writable : ℕ → Bool
is_writable mode = (mode / 16) % 2 == 1 || (mode / 2) % 2 == 1

unfoldable pub warn_script : Text → Outcome ℕ → Exec (Unit {0})
unfolding warnf pure
warn_script path (failed e) = pure tt
warn_script path (found mode) = if is_writable mode then warnf (writable_script path) else pure tt

-- What cmd.Run leaves; an empty output is not shown.
unfoldable pub script_result : ℤ → (Text → Text) → ScriptEnd → Exec (Unit {0})
unfolding raise pure cut_utf8
script_result timeout trim succeeded = pure tt
script_result timeout trim (not_started m) = raise (script_failed m [])
script_result timeout trim past_deadline = raise (timed_out timeout)
script_result timeout trim (ended_badly m output) =
    raise (script_failed m (trim (cut_utf8 output 500)))

module _ (f : Formats) where
  unfoldable pub send_mail : SmtpConfig → Report → Exec (Unit {0})
  unfolding password connect start_tls authenticate send_message ◌>>=◌ render subject header_safe
  send_mail s r = do
    secret ← password s
    connect s.security
    start_tls s.security
    authenticate s secret
    send_message s (head_of s r) (render f s.detail r)

  -- ---- scripts ----------------------------------------------------------------------

  abbrev script_environment : ScriptConfig → Report → Counts → List (Text × Text)
  script_environment s r (a, m, d) =
      (bytes "FMON_TOTAL", decimal (length r.changes))
      ∷ (bytes "FMON_ADDED", decimal a)
      ∷ (bytes "FMON_MODIFIED", decimal m)
      ∷ (bytes "FMON_DELETED", decimal d)
      ∷ (bytes "FMON_MISSING_SOURCES", decimal r.missing_sources)
      ∷ (bytes "FMON_TIMESTAMP", f.rfc3339 r.time)
      ∷ (bytes "FMON_HOSTNAME", r.host)
      ∷ (bytes "FMON_DETAIL", s.detail)
      ∷ []

  abbrev pub script_message : ScriptConfig → Report → Text
  script_message s r =
      trim_right newline (truncate_message (render f s.detail r) s.max_message_bytes)

  module _ (v : Validators) where
    abbrev pub script_call : ScriptConfig → Report → ScriptCall
    script_call s r = record {
      path = s.path;
      message = script_message s r;
      timeout = timeout_duration v s;
      environment = script_environment s r (report_counts r);
    }

    -- The call is recorded; whether it starts a process is for the outside to say.
    unfoldable pub run_script : Report → ScriptConfig → Exec (Unit {0})
    unfolding ask warn_script script_result modify ◌>>=◌ render truncate_message timeout_duration
    run_script r s = do
      mode ← ask (λ env n. env.file_mode n s.path)
      warn_script s.path mode
      let call = script_call s r
      modify (λ w. record w { script_calls = w.script_calls ++ call ∷ [] })
      outcome ← ask (λ env n. env.run_command n s.path call.message)
      trim ← ask (λ env n. env.trim_space)
      script_result call.timeout trim outcome

    -- ---- Notify -----------------------------------------------------------------------

    abbrev pub Failures : Type 0
    Failures = List (Sink × Error)

    -- The sink's error as a value; what it did stays done.
    abbrev pub attempted : Sink → Failures → Result (Unit {0}) × World → Result Failures × World
    attempted sink errs (ok _, w) = (ok errs, w)
    attempted sink errs (err e, w) = (
      ok (errs ++ (sink, e) ∷ []),
      record w { stderr = w.stderr ++ sink_line sink e ∷ []; log = w.log ++ log_sink sink e ∷ [] },
    )

    unfoldable pub run_sink : Sink → Exec (Unit {0}) → Failures → Exec Failures
    run_sink sink m errs env w = attempted sink errs (m env w)

    unfoldable pub run_scripts : Report → List ScriptConfig → Failures → Exec Failures
    unfolding run_sink run_script pure ◌>>=◌
    run_scripts r [] errs = pure errs
    run_scripts r (s ∷ scripts) errs = do
      errs' ← run_sink (sink_script s.path) (run_script r s) errs
      run_scripts r scripts errs'

    unfoldable pub notify : Report → Exec Failures
    unfolding is_empty gets pure run_sink append_log send_mail run_scripts render ◌>>=◌
    notify r = if is_empty r then pure [] else do
      cfg ← gets (λ w. w.cfg)
      errs ← run_sink sink_log (append_log (render f cfg.log.detail r)) []
      errs' ←
          (if cfg.smtp.enabled then run_sink sink_smtp (send_mail cfg.smtp r) errs else pure errs)
      run_scripts r cfg.scripts errs'
