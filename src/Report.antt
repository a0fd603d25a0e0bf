-- ===== src/Report.antt =====
-- scanner.go: Report, and the messages that the scanner writes. A message is a constructor for each
-- format of the source with the values that it prints.
pub mod Numbers
mod Tests
use fmon.Base.{ℕ, ◌+◌, Bool, ◌&&◌, List, [], ◌∷◌, ltb, eqb, length, Text}
use fmon.Base.Int.{ℤ, pos}
use fmon.Models.{SourceType, event_added, event_modified, event_deleted, Change}

-- Warnings and non-fatal errors.
pub data Message : Type 0 where
  not_absolute : Text → Message
  overlapping : Text → Text → Message
  configured_missing : Text → Message
  configured_stat : Text → Text → Message
  configured_special : Text → Message
  cannot_stat : SourceType → Text → Text → Message
  replaced : SourceType → Text → Message
  source_missing : SourceType → Text → Message
  cannot_read_directory : Text → Text → Message
  cannot_access : Text → Text → Message
  cannot_stat_entry : Text → Text → Message
  hash_failed : Text → Message
  nothing_added : Text → Text → Message
  writable_script : Text → Message

pub data Alert : Type 0 where
  alert_deleted : SourceType → Text → Alert

pub data Notice : Type 0 where
  notice_db_missing : Notice
  notice_upgrade : Notice
  notice_back : SourceType → Text → Notice

pub record Report : Type 0 where
  pub time : ℤ
  pub host : Text
  pub changes : List Change
  pub alerts : List Alert
  pub notices : List Notice
  pub errors : List Message
  pub missing_sources : ℕ
  pub sources : ℕ
  pub files_scanned : ℕ
  pub files_hashed : ℕ
  pub duration : ℤ
  pub full : Bool

abbrev pub new_report : ℤ → Text → Bool → Report
new_report time host full = record {
  time = time;
  host = host;
  changes = [];
  alerts = [];
  notices = [];
  errors = [];
  missing_sources = 0;
  sources = 0;
  files_scanned = 0;
  files_hashed = 0;
  duration = pos 0;
  full = full;
}

-- The loop of Counts, with its three accumulators.
unfoldable pub counts : List Change → ℕ × ℕ × ℕ → ℕ × ℕ × ℕ
counts [] n = n
counts (c ∷ changes) (added, modified, deleted) = counts changes (elim c.event [
  | event_added ↦ (added + 1, modified, deleted)
  | event_modified ↦ (added, modified + 1, deleted)
  | event_deleted ↦ (added, modified, deleted + 1)
])

unfoldable pub report_counts : Report → ℕ × ℕ × ℕ
unfolding counts
report_counts r = counts r.changes (0, 0, 0)

unfoldable pub is_empty : Report → Bool
is_empty r = eqb (length r.changes) 0 && eqb (length r.alerts) 0 && eqb (length r.notices) 0

unfoldable pub has_errors : Report → Bool
has_errors r = ltb 0 (length r.errors)
