-- ===== src/Scanner/File.antt =====
-- scanner.go: emit and checkFile.
use fmon.Base.{
  ℕ, suc, Bool, false, not, ◌&&◌, Option, none, some, [], ◌∷◌, ◌++◌, if◌then◌else◌, ◌==◌, Text,
  nat_eq, text_equality,
}
use fmon.Base.Dict.{lookup}
use fmon.Base.Int.{ℤ, pos, int_equality}
use fmon.Exec.{
  FileInfo, Outcome, found, failed, SourceScan, Exec, pure, ask, gets, ◌>>=◌, ◌>>◌, now,
  check_canceled, non_fatal, change_report, change_scan, error_text,
}
use fmon.Models.{
  EventType, event_added, event_modified, event_deleted, Source, FileState, HistoryEntry, Change,
}
use fmon.Queries.{upsert_file_state, insert_history}
use fmon.Report.{hash_failed, Report}

abbrev pub added_change : Text → ℕ → ℤ → Change
added_change p sum size = record {
  event = event_added;
  path = p;
  source = [];
  old_hash = 0;
  new_hash = sum;
  old_size = pos 0;
  new_size = size;
}

abbrev pub modified_change : Text → FileState → ℕ → ℤ → Change
modified_change p old sum size = record {
  event = event_modified;
  path = p;
  source = [];
  old_hash = old.hash;
  new_hash = sum;
  old_size = old.size;
  new_size = size;
}

abbrev pub deleted_change : Text → FileState → Change
deleted_change p old = record {
  event = event_deleted;
  path = p;
  source = [];
  old_hash = old.hash;
  new_hash = 0;
  old_size = old.size;
  new_size = pos 0;
}

-- The hash and size fields that the event has; the others stay nil.
abbrev pub entry_for : EventType → Change → ℤ → HistoryEntry
entry_for event_added c t = record {
  id = 0;
  path = c.path;
  event = event_added;
  old_hash = none;
  new_hash = some c.new_hash;
  old_size = none;
  new_size = some c.new_size;
  timestamp = t;
}
entry_for event_modified c t = record {
  id = 0;
  path = c.path;
  event = event_modified;
  old_hash = some c.old_hash;
  new_hash = some c.new_hash;
  old_size = some c.old_size;
  new_size = some c.new_size;
  timestamp = t;
}
entry_for event_deleted c t = record {
  id = 0;
  path = c.path;
  event = event_deleted;
  old_hash = some c.old_hash;
  new_hash = none;
  old_size = some c.old_size;
  new_size = none;
  timestamp = t;
}

abbrev pub add_change : Change → Report → Report
add_change c r = record r { changes = r.changes ++ c ∷ [] }

unfoldable pub emit : Source → Change → Exec (Unit {0})
unfolding change_report now ◌>>=◌ insert_history
emit src c = do
  let change = record c { source = src.path }
  change_report (add_change change)
  t ← now
  insert_history (entry_for change.event change t)

-- Pass 1: the size and the modification time are the stored ones, and the scan is not a full one.
unfoldable pub stat_unchanged : Bool → Option FileState → FileInfo → Bool
stat_unchanged full none info = false
stat_unchanged full (some old) info =
    not full && (old.size == info.size && old.mod_time == info.mod_time)

-- The switch of pass 2: a new file, a changed one, or a changed time alone.
unfoldable pub report_hashed :
    Source → Bool → Text → FileInfo → ℕ → Option FileState → Exec (Unit {0})
unfolding emit pure
report_hashed src baseline p info sum none =
    if not baseline then emit src (added_change p sum info.size) else pure tt
report_hashed src baseline p info sum (some old) =
    if not (old.hash == sum) then emit src (modified_change p old sum info.size) else pure tt

abbrev pub hashed_state : Source → Text → FileInfo → ℕ → ℤ → FileState
hashed_state src p info sum t = record {
  id = 0;
  source_id = src.id;
  path = p;
  hash = sum;
  size = info.size;
  mod_time = info.mod_time;
  updated_at = t;
}

abbrev pub count_hashed : Report → Report
count_hashed r = record r { files_hashed = suc r.files_hashed }

abbrev pub count_scanned : Report → Report
count_scanned r = record r { files_scanned = suc r.files_scanned }

abbrev pub mark_seen : Text → SourceScan → SourceScan
mark_seen p sc = record sc { seen = p ∷ sc.seen }

-- What follows hasher.File.
unfoldable pub after_hash : SourceScan → Text → FileInfo → Outcome ℕ → Exec (Unit {0})
unfolding check_canceled non_fatal change_report now report_hashed upsert_file_state ◌>>=◌
after_hash sc p info (failed e) = do check_canceled; non_fatal (hash_failed (error_text e))
after_hash sc p info (found sum) = do
  change_report count_hashed
  t ← now
  report_hashed sc.src sc.baseline p info sum (lookup p sc.states)
  upsert_file_state (hashed_state sc.src p info sum t)

unfoldable pub check_file : Text → FileInfo → Exec (Unit {0})
unfolding change_scan change_report gets ask after_hash stat_unchanged pure ◌>>=◌
check_file p info = do
  change_scan (mark_seen p)
  change_report count_scanned
  sc ← gets (λ w. w.sc)
  if stat_unchanged sc.full (lookup p sc.states) info
      then pure tt
      else do sum ← ask (λ env n. env.hash_file n p); after_hash sc p info sum
