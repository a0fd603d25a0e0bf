-- ===== src/Exec.antt =====
-- internal/monitor/app.go, and the monad of the commands. An action reads the outside world, has the
-- program's state in hand, and returns a value or a Go error. What was written before an error
-- stays written; a transaction undoes its own writes (`Exec/Tx`).
pub mod Keeps
pub mod Leads
pub mod Tx
pub mod Atomic
pub mod Committed
use fmon.Base.{ℕ, suc, Bool, true, false, Option, List, [], ◌∷◌, ◌++◌, if◌then◌else◌, Text, bytes}
use fmon.Base.Dict.{Dict}
use fmon.Base.Int.{ℤ}
use fmon.Config.{Config, ConfigError}
use fmon.Db.{Db}
use fmon.Listing.Rows.{Size, SourceRow}
use fmon.Main.Usage.{UsageError}
use fmon.Models.{SourceType, Source, FileState, HistoryEntry}
use fmon.Notify.Delivery.{SmtpCommand, ScriptCall, ScriptEnd, Sink}
use fmon.Report.{Message, Alert, Report}

-- The errors that end a command.
pub data Error : Type 0 where
  locked : Error
  newer_schema : Error
  canceled : Error
  sql_error : Text → Error
  constraint_failed : Error
  tx_finished : Error
  no_absolute_path : Text → Error
  not_watched : Text → Error
  covered : Text → Text → Error
  not_planned : Text → Error
  no_access : Text → Error
  not_watchable : Text → Error
  save_failed : Text → Error
  aborted : Error
  confirmation_required : Error
  no_confirmation : Error
  io_failed : Text → Error
  password_exposed : Text → Error
  no_starttls : Error
  smtp_failed : SmtpCommand → Text → Error
  timed_out : ℤ → Error
  script_failed : Text → Text → Error
  no_config_dir : Error
  check_failed : Text → Error
  not_initialized : Text → Error
  config_missing : Text → Error
  bad_toml : Text → Error
  bad_config : ConfigError → Error
  -- A panic of the program.
  index_out_of_range : Error
  -- `migrations[i]` with an index below 0
  negative_index : Error
  -- The fuel of a loop was not enough, which no run meets.
  out_of_fuel : Error
  -- An error with the hint of Remove, and the path that the hint prints.
  with_hint : Error → Text → Error

-- What a failing call to the file system reports. ENOENT and ENOTDIR are told apart from the rest.
pub data FsError : Type 0 where
  not_exist : FsError
  not_dir : FsError
  other_error : Text → FsError

pub data EntryKind : Type 0 where
  is_dir : EntryKind
  is_regular : EntryKind
  is_special : EntryKind

-- `fs.FileInfo`: the type, the size and the modification time in nanoseconds.
pub record FileInfo : Type 0 where
  pub kind : EntryKind
  pub size : ℤ
  pub mod_time : ℤ

pub data Outcome {ℓ} (A : Type ℓ) : Type ℓ where
  found : A → Outcome A
  failed : FsError → Outcome A

-- A directory tree as filepath.WalkDir meets it. A directory comes with the error of listing it, if
-- there is one, and the entries that were listed; a regular file with what `d.Info()` returns.
mutual
  pub data Tree : Type 0 where
    dir : Option FsError → Entries → Tree
    file : Outcome FileInfo → Tree
    special : Tree

  pub data Entries : Type 0 where
    end : Entries
    entry : Text → Tree → Entries → Entries

-- The world outside the program. What it answers may depend on when it is asked: each function
-- takes the number of the question. `sql_fault` is the message of a database driver that fails,
-- `save_fault` the error of writing fmon.toml, `hash_file` the xxHash64 sum of a file's content,
-- `read_line` a line of the standard input (`none` at its end), `glob` doublestar.Match (`none` is
-- its error), `trim_space` strings.TrimSpace. Then come the sinks: the log file, the permission bits,
-- the content of a file, a variable, the end of a script, the mail server. The last four are for the
-- start: the failure of making a directory or a file, the directories of the user, the host name.
pub record Env : Type 0 where
  pub clock : ℕ → ℤ
  pub is_canceled : ℕ → Bool
  pub sql_fault : ℕ → Option Text
  pub lstat : ℕ → Text → Outcome FileInfo
  pub walk : ℕ → Text → Outcome Tree
  pub hash_file : ℕ → Text → Outcome ℕ
  pub working_dir : ℕ → Option Text
  pub eval_symlinks : ℕ → Text → Option Text
  pub stat : ℕ → Text → Outcome FileInfo
  pub save_fault : ℕ → Option Text
  pub is_terminal : ℕ → Bool
  pub read_line : ℕ → Option Text
  pub trim_space : Text → Text
  pub append_fault : ℕ → Option Text
  pub file_mode : ℕ → Text → Outcome ℕ
  pub read_file : ℕ → Text → Outcome Text
  pub getenv : ℕ → Text → Text
  pub run_command : ℕ → Text → Text → ScriptEnd
  pub smtp_fault : ℕ → Option Text
  pub offers_starttls : ℕ → Bool
  pub create_fault : ℕ → Text → Option Text
  pub user_config_dir : ℕ → Option Text
  pub home_dir : ℕ → Option Text
  pub host_name : ℕ → Text
  pub glob : Text → Text → Option Bool

-- `sourceScan` of scanner.go
pub record SourceScan : Type 0 where
  pub src : Source
  pub baseline : Bool
  pub full : Bool
  pub states : Dict FileState
  pub seen : List Text
  pub unreadable : List Text

pub data LogLine : Type 0 where
  log_warning : Message → LogLine
  log_error : Message → LogLine
  log_alert : Alert → LogLine
  log_removed : Text → LogLine
  log_baselining : Text → SourceType → LogLine
  log_pruned : Text → LogLine
  log_sink : Sink → Error → LogLine

-- Lines on stderr: a warning, an error, or progress (with -v).
pub data StderrLine : Type 0 where
  warning_line : Message → StderrLine
  error_line : Message → StderrLine
  sink_line : Sink → Error → StderrLine
  usage_error_line : UsageError → StderrLine
  fail_line : Error → StderrLine
  aborted_line : StderrLine
  progress_line : SourceType → Text → ℕ → ℕ → StderrLine

-- What the commands print on stdout.
pub data OutputLine : Type 0 where
  prompt_line : OutputLine
  resolves_line : Text → Text → OutputLine
  added_file_line : Text → ℤ → OutputLine
  added_folder_line : Text → ℕ → ℤ → OutputLine
  skipped_line : ℕ → OutputLine
  removed_line : Text → OutputLine
  initialized_line : OutputLine
  deleted_line : ℕ → OutputLine
  no_history_line : OutputLine
  history_line : HistoryEntry → OutputLine
  text_line : Text → OutputLine
  no_sources_line table_header_line pending_hint_line orphaned_hint_line no_files_line : OutputLine
  row_line : SourceRow → OutputLine
  sources_line : ℕ → ℕ → Size → OutputLine
  exclude_line : List Text → OutputLine
  file_line : FileState → OutputLine
  version_line usage_line no_command_line : OutputLine
  not_found_line : Text → OutputLine
  created_line : Text → OutputLine

-- The state of a run: the questions asked so far, the tables as the open connection sees them, the
-- tables to go back to while a write transaction is open, the report and the source scan that the
-- code passes by pointer, the App, the settings that fmon.toml holds, the reports in the log file, the
-- mail sessions, the calls of scripts, and the directories and files that were made if missing.
pub record World : Type 0 where
  pub tick : ℕ
  pub tables : Db
  pub saved : Option Db
  pub rep : Report
  pub sc : SourceScan
  pub stderr : List StderrLine
  pub log : List LogLine
  pub stdout : List OutputLine
  pub cfg : Config
  pub config_file : Config
  pub log_file : List Text
  pub smtp_log : List SmtpCommand
  pub script_calls : List ScriptCall
  pub created : List Text
  pub verbose : Bool
  pub quiet : Bool
  pub hostname : Text

pub data Result {ℓ} (A : Type ℓ) : Type ℓ where
  ok : A → Result A
  err : Error → Result A

abbrev pub Exec {ℓ} : Type ℓ → Type ℓ
Exec A = Env → World → Result A × World

module _ {ℓ} {A : Type ℓ} where
  unfoldable pub pure : A → Exec A
  pure a env w = (ok a, w)

  unfoldable pub raise : Error → Exec A
  raise e env w = (err e, w)

  -- One question to the outside world.
  unfoldable pub ask : (Env → ℕ → A) → Exec A
  ask question env w = (ok (question env w.tick), record w { tick = suc w.tick })

  unfoldable pub gets : (World → A) → Exec A
  gets f env w = (ok (f w), w)

unfoldable pub modify : (World → World) → Exec (Unit {0})
modify f env w = (ok tt, f w)

module _ {ℓ κ} {A : Type ℓ} {B : Type κ} where
  abbrev pub and_then : Env → (A → Exec B) → Result A × World → Result B × World
  and_then env f (ok a, w) = f a env w
  and_then env f (err e, w) = (err e, w)

  infixl 10 ◌>>=◌
  unfoldable pub ◌>>=◌ : Exec A → (A → Exec B) → Exec B
  ◌>>=◌ m f env w = and_then env f (m env w)

infixl 10 ◌>>◌
abbrev pub ◌>>◌ {κ} : {B : Type κ} → Exec (Unit {0}) → Exec B → Exec B
m >> n = m >>= λ _. n

-- `if test { action }`
abbrev pub when : Bool → Exec (Unit {0}) → Exec (Unit {0})
when b m = if b then m else pure tt

-- ---- app.go -----------------------------------------------------------------

unfoldable pub now : Exec ℤ
now = ask (λ env n. env.clock n)

-- `ctx.Err()` as the error of the call.
unfoldable pub check_canceled : Exec (Unit {0})
unfolding ask raise pure ◌>>=◌
check_canceled = do c ← ask (λ env n. env.is_canceled n); if c then raise canceled else pure tt

abbrev pub log_line : LogLine → World → World
log_line l w = record w { log = w.log ++ l ∷ [] }

unfoldable pub warnf : Message → Exec (Unit {0})
unfolding modify
warnf m =
    modify
      λ w. record w { stderr = w.stderr ++ warning_line m ∷ []; log = w.log ++ log_warning m ∷ [] }

abbrev pub add_error : Message → Report → Report
add_error m r = record r { errors = r.errors ++ m ∷ [] }

unfoldable pub non_fatal : Message → Exec (Unit {0})
unfolding modify
non_fatal m = modify λ w. record w {
  rep = add_error m w.rep;
  stderr = w.stderr ++ error_line m ∷ [];
  log = w.log ++ log_error m ∷ [];
}

unfoldable pub vlogf : StderrLine → Exec (Unit {0})
unfolding modify
vlogf l = modify λ w. if w.verbose then record w { stderr = w.stderr ++ l ∷ [] } else w

abbrev pub print : OutputLine → World → World
print l w = record w { stdout = w.stdout ++ l ∷ [] }

-- What infof does: a line on stdout unless -q was given.
abbrev pub inform : OutputLine → World → World
inform l w = if w.quiet then w else print l w

unfoldable pub infof : OutputLine → Exec (Unit {0})
unfolding modify
infof l = modify (inform l)

-- A prompt, or a line that the command exists to produce.
unfoldable pub put_line : OutputLine → Exec (Unit {0})
unfolding modify
put_line l = modify (print l)

unfoldable pub add_log : LogLine → Exec (Unit {0})
unfolding modify
add_log l = modify (log_line l)

unfoldable pub change_report : (Report → Report) → Exec (Unit {0})
unfolding modify
change_report f = modify λ w. record w { rep = f w.rep }

unfoldable pub change_scan : (SourceScan → SourceScan) → Exec (Unit {0})
unfolding modify
change_scan f = modify λ w. record w { sc = f w.sc }

-- `isNotExist` of paths.go
unfoldable pub is_not_exist : FsError → Bool
is_not_exist not_exist = true
is_not_exist not_dir = true
is_not_exist (other_error m) = false

-- `err.Error()` of a file system error.
abbrev pub error_text : FsError → Text
error_text not_exist = bytes "no such file or directory"
error_text not_dir = bytes "not a directory"
error_text (other_error m) = m
