-- ===== src/Queries.antt =====
-- internal/db/queries.go: the functions that the commands call, each one statement on the tables of
-- `Db` that the driver may fail to run.
use fmon.Base.{ℕ, Bool, Option, none, some, List, [], Text}
use fmon.Base.Dict.{Dict}
use fmon.Base.Int.{ℤ}
use fmon.Db.{
  Db, select_meta, upsert_meta, delete_meta_row, insert_source_row, select_sources,
  update_source_status, delete_source_row, collect_states, upsert_file_row, delete_file_row,
  insert_history_row, has_rows, delete_history_rows, delete_file_rows, delete_source_rows,
  delete_meta_rows,
}
use fmon.Db.History.{query_history, clear_history_rows}
use fmon.Db.Totals.{FileTotals, select_totals, select_file_states}
use fmon.Exec.{Exec, ◌>>=◌, ◌>>◌}
use fmon.Exec.Tx.{sql}
use fmon.Models.{SourceType, SourceStatus, Source, FileState, HistoryEntry}

-- A statement that only reads.
abbrev pub reading {ℓ} : {A : Type ℓ} → (Db → A) → Db → Option (A × Db)
reading f d = some (f d, d)

-- A statement that breaks no constraint.
abbrev pub writing : (Db → Db) → Db → Option (Unit {0} × Db)
writing f d = some (tt, f d)

abbrev pub writing_if : (Db → Option Db) → Db → Option (Unit {0} × Db)
writing_if f d = elim (f d) [ none ↦ none | some d' ↦ some (tt, d') ]

unfoldable pub get_meta : Text → Exec (Option Text)
unfolding sql
get_meta key = sql (reading (select_meta key))

unfoldable pub set_meta : Text → Text → Exec (Unit {0})
unfolding sql
set_meta key value = sql (writing (upsert_meta key value))

unfoldable pub delete_meta : Text → Exec (Unit {0})
unfolding sql
delete_meta key = sql (writing (delete_meta_row key))

unfoldable pub insert_source : Text → SourceType → ℤ → Exec ℕ
unfolding sql
insert_source path typ time = sql (insert_source_row path typ time)

unfoldable pub list_sources : Exec (List Source)
unfolding sql
list_sources = sql (reading select_sources)

unfoldable pub set_source_status : ℕ → SourceStatus → Exec (Unit {0})
unfolding sql
set_source_status id status = sql (writing (update_source_status id status))

unfoldable pub delete_source : ℕ → Exec (Unit {0})
unfolding sql
delete_source id = sql (writing (delete_source_row id))

abbrev pub states_of : ℕ → Db → Dict FileState
states_of id d = collect_states id d.files_state []

unfoldable pub load_file_states : ℕ → Exec (Dict FileState)
unfolding sql
load_file_states id = sql (reading (states_of id))

unfoldable pub upsert_file_state : FileState → Exec (Unit {0})
unfolding sql
upsert_file_state s = sql (writing_if (upsert_file_row s))

unfoldable pub delete_file_state : Text → Exec (Unit {0})
unfolding sql
delete_file_state path = sql (writing (delete_file_row path))

unfoldable pub insert_history : HistoryEntry → Exec (Unit {0})
unfolding sql
insert_history e = sql (writing (insert_history_row e))

unfoldable pub query_history_entries : Text → ℤ → Exec (List HistoryEntry)
unfolding sql
query_history_entries path limit = sql (reading (query_history path limit))

unfoldable pub clear_history_log : Text → Exec ℕ
unfolding sql
clear_history_log path = sql λ d. some (clear_history_rows path d)

unfoldable pub has_data : Exec Bool
unfolding sql
has_data = sql (reading has_rows)

unfoldable pub reset_all : Exec (Unit {0})
unfolding sql ◌>>=◌
reset_all = do
  sql (writing delete_history_rows)
  sql (writing delete_file_rows)
  sql (writing delete_source_rows)
  sql (writing delete_meta_rows)

unfoldable pub file_totals_by_source : Exec (ℕ → FileTotals)
unfolding sql
file_totals_by_source = sql select_totals

-- The rows that ForEachFileState hands to its function, in their order.
unfoldable pub file_states : Text → Exec (List FileState)
unfolding sql
file_states path = sql (reading (select_file_states path))
