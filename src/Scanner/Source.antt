-- ===== src/Scanner/Source.antt =====
-- scanner.go: handleMissing and scanSource.
use fmon.Base.{suc, Bool, true, false, not, none, List, [], ◌∷◌, ◌++◌, if◌then◌else◌, Text}
use fmon.Base.Dict.{Dict}
use fmon.Base.Int.{ℤ}
use fmon.Exec.{
  EntryKind, is_dir, is_regular, FileInfo, Outcome, found, failed, SourceScan, log_alert, Exec,
  pure, ask, ◌>>=◌, ◌>>◌, now, warnf, non_fatal, add_log, change_report, change_scan, is_not_exist,
  error_text,
}
use fmon.Models.{
  SourceType, source_file, source_folder, SourceStatus, status_active, status_missing,
  event_deleted, Source, FileState, HistoryEntry,
}
use fmon.Queries.{set_source_status, load_file_states, insert_history}
use fmon.Report.{
  cannot_stat, replaced, source_missing, Alert, alert_deleted, Notice, notice_back, Report,
}
use fmon.Scanner.File.{check_file}
use fmon.Scanner.Folder.{walk_folder, finish_folder}

abbrev pub count_missing : Report → Report
count_missing r = record r { missing_sources = suc r.missing_sources }

abbrev pub add_alert : Alert → Report → Report
add_alert a r = record r { alerts = r.alerts ++ a ∷ [] }

abbrev pub add_notice : Notice → Report → Report
add_notice n r = record r { notices = r.notices ++ n ∷ [] }

-- The record of a root that is gone has no hash and no size.
abbrev pub root_entry : Source → ℤ → HistoryEntry
root_entry src t = record {
  id = 0;
  path = src.path;
  event = event_deleted;
  old_hash = none;
  new_hash = none;
  old_size = none;
  new_size = none;
  timestamp = t;
}

-- By the stored status: a warning for a source already marked, else the mark, the record and the
-- alert.
unfoldable pub missing_by_status : SourceStatus → Source → Exec (Unit {0})
unfolding warnf set_source_status now insert_history change_report add_log ◌>>=◌
missing_by_status status_missing src = warnf (source_missing src.typ src.path)
missing_by_status status_active src = do
  set_source_status src.id status_missing
  t ← now
  insert_history (root_entry src t)
  let alert = alert_deleted src.typ src.path
  change_report (add_alert alert)
  add_log (log_alert alert)

unfoldable pub handle_missing : Source → Exec (Unit {0})
unfolding change_report missing_by_status ◌>>=◌
handle_missing src = do change_report count_missing; missing_by_status src.status src

-- A source that was marked missing is back.
unfoldable pub mark_back : SourceStatus → Source → Exec (Unit {0})
unfolding set_source_status change_report pure ◌>>=◌
mark_back status_active src = pure tt
mark_back status_missing src = do
  set_source_status src.id status_active
  change_report (add_notice (notice_back src.typ src.path))

-- The root is still the kind of entry that is watched.
unfoldable pub same_kind : SourceType → EntryKind → Bool
same_kind source_folder is_dir = true
same_kind source_file is_regular = true
same_kind typ kind = false

unfoldable pub scan_contents : SourceType → List Text → Text → FileInfo → Exec (Unit {0})
unfolding check_file walk_folder finish_folder ◌>>=◌
scan_contents source_file patterns path info = check_file path info
scan_contents source_folder patterns path info = do
  walk_folder patterns path
  finish_folder patterns

abbrev pub new_scan : Source → Bool → Bool → Dict FileState → SourceScan
new_scan src baseline full states = record {
  src = src;
  baseline = baseline;
  full = full;
  states = states;
  seen = [];
  unreadable = [];
}

-- What follows a successful Lstat of the root.
unfoldable pub scan_present : Source → List Text → Bool → Bool → FileInfo → Exec (Unit {0})
unfolding mark_back same_kind non_fatal load_file_states change_scan scan_contents ◌>>=◌
scan_present src patterns baseline full info = do
  mark_back src.status src
  if not (same_kind src.typ info.kind) then non_fatal (replaced src.typ src.path) else do
    states ← load_file_states src.id
    change_scan (λ _. new_scan src baseline full states)
    scan_contents src.typ patterns src.path info

unfoldable pub after_lstat : Source → List Text → Bool → Bool → Outcome FileInfo → Exec (Unit {0})
unfolding handle_missing non_fatal scan_present
after_lstat src patterns baseline full (failed e) =
    if is_not_exist e
    then handle_missing src
    else non_fatal (cannot_stat src.typ src.path (error_text e))
after_lstat src patterns baseline full (found info) = scan_present src patterns baseline full info

unfoldable pub scan_source : Source → List Text → Bool → Bool → Exec (Unit {0})
unfolding ask after_lstat ◌>>=◌
scan_source src patterns baseline full = do
  info ← ask (λ env n. env.lstat n src.path)
  after_lstat src patterns baseline full info
