-- ===== src/Notify/Sinks/Tests.antt =====
-- Deliveries to failing sinks, and a mail session on a server without STARTTLS.
use fmon.Base.{
  ◌≡◌, refl, inl, true, false, some, [], ◌∷◌, ◌++◌, map, arith, Text, bytes, text_eq, trim_right,
}
use fmon.Base.Dict.{lookup}
use fmon.Base.Int.{pos}
use fmon.Config.{SmtpConfig, ScriptConfig, detail_full, default_config, Validators}
use fmon.Config.Password.{password}
use fmon.Config.Valid.{IsUsableSmtp}
use fmon.Exec.{Env, World, pure, raise, ask, modify, ◌>>=◌}
use fmon.Exec.Keeps.{Succeeds}
use fmon.Models.{event_added, Change}
use fmon.Notify.{newline, split_lines, count_changes, truncate_message}
use fmon.Notify.Delivery.{connect_plain, handshake, ended_badly}
use fmon.Notify.Render.{source_counts, report_lines, render}
use fmon.Notify.Render.Forgery.{split_lines-render}
use fmon.Notify.Render.Plain.{plain_formats, plain_formats-IsPlain}
use fmon.Notify.Render.Sources.{lookup-source_counts-counts}
use fmon.Notify.Sinks.{send, connect, start_tls, authenticate, send_message, send_mail, notify}
use fmon.Notify.Sinks.All.{told, notify-Ran}
use fmon.Notify.Sinks.Secure.{is_private, send_mail-IsDiscreet}
use fmon.Notify.Sinks.Session.{line_state, IsDiscreet}
use fmon.Report.{Report, new_report, counts, is_empty}
use fmon.Scanner.Machine.{quiet_env, world}

abbrev validators : Validators
validators = record {
  validate_pattern = λ p. true;
  parse_duration = λ t. some (pos 30000000000);
  trim_space = λ t. t;
}

-- A file whose name holds a line break and the text of another change.
abbrev forging : Change
forging = record {
  event = event_added;
  path = bytes "/d/a\nDELETED  \"/d/b\"";
  source = bytes "/d";
  old_hash = 0;
  new_hash = 7;
  old_size = pos 0;
  new_size = pos 3;
}

abbrev report : Report
report = record (new_report (pos 5) (bytes "host") false) { changes = forging ∷ [] }

split_lines-render_example :
    (split_lines (render plain_formats detail_full report)
      ≡ report_lines plain_formats detail_full report ++ [] ∷ [])
    × (count_changes (split_lines (render plain_formats detail_full report)) ≡ 1)
unfolding text_eq
split_lines-render_example =
    split_lines-render plain_formats detail_full report plain_formats-IsPlain refl

lookup-source_counts-counts_example :
    lookup (bytes "/d") (source_counts (forging ∷ forging ∷ []) []) ≡ some (2, 0, 0)
unfolding counts text_eq
lookup-source_counts-counts_example =
    lookup-source_counts-counts (bytes "/d") (forging ∷ forging ∷ [])

abbrev script_at : Text → ScriptConfig
script_at p = record {
  path = p;
  detail = detail_full;
  timeout = bytes "30s";
  max_message_bytes = pos 1000;
}

abbrev mail_settings : SmtpConfig
mail_settings = record default_config.smtp { enabled = true; username = bytes "fmon" }

-- The disk is full, the mail server refuses, and every script fails.
abbrev broken_env : Env
broken_env = record quiet_env {
  append_fault = λ n. some (bytes "no space left on device");
  smtp_fault = λ n. some (bytes "connection refused");
  run_command = λ n p m. ended_badly (bytes "exit status 1") [];
}

abbrev two_scripts : World
two_scripts = record world {
  cfg = record default_config {
    smtp = mail_settings;
    scripts = script_at (bytes "/bin/a") ∷ script_at (bytes "/bin/b") ∷ [];
  };
}

-- What both scripts are told.
abbrev argument : Text
argument =
    trim_right newline (truncate_message (render plain_formats detail_full report) (pos 1000))

notify-Ran_example :
    Succeeds
      (λ _ w'.
        map told w'.script_calls ≡ (bytes "/bin/a", argument) ∷ (bytes "/bin/b", argument) ∷ [])
      (notify plain_formats validators report broken_env two_scripts)
unfolding is_empty
notify-Ran_example = notify-Ran validators plain_formats report broken_env two_scripts

-- A server that does not offer STARTTLS, and a password in the variable.
abbrev old_server : Env
old_server = record quiet_env { offers_starttls = λ n. false; getenv = λ n v. bytes "secret" }

mail_settings-IsUsableSmtp : IsUsableSmtp validators mail_settings
mail_settings-IsUsableSmtp = (
  inl refl,
  (λ e. grind arith),
  (587, refl, omega arith, omega arith),
  (λ e. grind arith),
  (λ e. grind arith),
  inl (λ e. grind arith),
)

send_mail-IsDiscreet_example :
    IsDiscreet
      (is_private mail_settings)
      (send_mail plain_formats mail_settings report old_server world).1
send_mail-IsDiscreet_example =
    send_mail-IsDiscreet plain_formats validators mail_settings report old_server world
      mail_settings-IsUsableSmtp (false, unfold line_state in refl)

-- Without STARTTLS the session ends after the greeting.
no_starttls_session :
    (send_mail plain_formats mail_settings report old_server world).1.smtp_log
    ≡ connect_plain ∷ handshake ∷ []
unfolding send_mail password connect start_tls authenticate send_message ask send ◌>>=◌ text_eq
    modify pure raise
no_starttls_session = refl
