-- ===== src/Notify/Delivery.antt =====
-- notify.go: what the sinks ask of the outside: the commands of a mail session, and the calls of
-- `cmd.Run` for the notification scripts.
use fmon.Base.{List, Text}
use fmon.Base.Int.{ℤ}

-- The steps of a mail session, in the order in which they reach the server.
pub data SmtpCommand : Type 0 where
  connect_plain connect_tls handshake starttls : SmtpCommand
  auth : Text → Text → SmtpCommand
  mail_from rcpt_to : Text → SmtpCommand
  data_start data_end quit : SmtpCommand
  head_text body_text : Text → SmtpCommand

-- A call of `cmd.Run`: the path, the only argument, the timeout and the variables that are added.
pub record ScriptCall : Type 0 where
  pub path : Text
  pub message : Text
  pub timeout : ℤ
  pub environment : List (Text × Text)

-- What `cmd.Run` answers. A script that does not succeed leaves an error and an output. None is
-- started if the context was cancelled before the call, or if the file cannot be executed: then the
-- answer is that error.
pub data ScriptEnd : Type 0 where
  succeeded : ScriptEnd
  not_started : Text → ScriptEnd
  past_deadline : ScriptEnd
  ended_badly : Text → Text → ScriptEnd

pub data Sink : Type 0 where
  sink_log sink_smtp : Sink
  sink_script : Text → Sink
