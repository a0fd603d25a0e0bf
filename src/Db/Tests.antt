-- ===== src/Db/Tests.antt =====
-- The theorems about the tables at concrete rows.
use fmon.Base.{
  ◌+◌, ◌≡◌, refl, inr, false, ◌||◌, none, [], ◌∷◌, map, arith, ◌==◌, length, take, Pairwise, bytes,
  text_eq, text_lt, trim_right, nat_eq, text_equality,
}
use fmon.Base.Dict.{lookup}
use fmon.Base.Int.{pos, int_eq, int_equality}
use fmon.Base.Sorting.{sort}
use fmon.Db.{
  FileRow, Db, empty_db, new_source, delete_source_row, collect_states, update_row, upsert_file_row,
  delete_file_row,
}
use fmon.Db.Cells.{
  put, remove_path, remove_owner, of_owner, cells, state_cell, files_state_refines_cells,
}
use fmon.Db.Consistent.{IsConsistent}
use fmon.Db.History.{query_history, clear_history_rows}
use fmon.Db.History.Cleared.{query_history-clear_history_rows}
use fmon.Db.History.Order.{IsNewer, query_history-IsNewer}
use fmon.Db.States.{IsStored, upsert_file_row-IsStored}
use fmon.Db.Subtree.{subtree_clause, subtree_clause-within}
use fmon.Migrate.{schema_v1}
use fmon.Models.{source_folder, event_deleted, Source, FileState, HistoryEntry}
use fmon.Paths.{prefix_of, within, overlaps}

abbrev source : Source
source = new_source 1 (bytes "/d") source_folder (pos 1)

abbrev row : FileRow
row = record {
  id = 1;
  source_id = 1;
  file_path = bytes "/d/a";
  last_hash = pos 5;
  size = pos 3;
  mod_time = pos 2;
  updated_at = pos 2;
}

abbrev tables : Db
tables = record {
  user_version = pos 1;
  schema = schema_v1;
  meta = [];
  watched_sources = source ∷ [];
  files_state = row ∷ [];
  history_log = [];
}

abbrev state : FileState
state = record {
  id = 0;
  source_id = 1;
  path = bytes "/d/a";
  hash = 18446744073709551615;
  size = pos 4;
  mod_time = pos 9;
  updated_at = pos 9;
}

tables-IsConsistent : IsConsistent tables
tables-IsConsistent = record {
  source_paths = (tt, tt);
  source_keys = (tt, tt);
  file_paths = (tt, tt);
  owners = (refl, tt);
}

upsert_file_row-IsStored_example : IsStored state (
    lookup
      (bytes "/d/a")
      (collect_states 1 (record tables { files_state = update_row state row ∷ [] }).files_state []))
unfolding upsert_file_row text_eq
upsert_file_row-IsStored_example =
    upsert_file_row-IsStored state tables
      (record tables { files_state = update_row state row ∷ [] }) (omega arith) tables-IsConsistent
      refl

-- The row after an upsert, and the map that the table stands for.
files_state_refines_cells_example :
    let after = (record tables { files_state = update_row state row ∷ [] }).files_state in
    (cells after (bytes "/d/a") ≡ put state (cells tables.files_state) (bytes "/d/a"))
    × (cells (delete_file_row (bytes "/d/a") tables).files_state (bytes "/d/a")
        ≡ remove_path (bytes "/d/a") (cells tables.files_state) (bytes "/d/a"))
    × (cells (delete_source_row 1 tables).files_state (bytes "/d/a")
        ≡ remove_owner 1 (cells tables.files_state) (bytes "/d/a"))
    × (state_cell (lookup (bytes "/d/a") (collect_states 1 tables.files_state []))
        ≡ of_owner 1 (cells tables.files_state) (bytes "/d/a"))
unfolding upsert_file_row text_eq
files_state_refines_cells_example =
    files_state_refines_cells state tables
      (record tables { files_state = update_row state row ∷ [] }) (bytes "/d/a") 1 (bytes "/d/a")
      tables-IsConsistent (omega arith) refl

subtree_clause-within_example : subtree_clause (bytes "/a") (bytes "/a/b") ≡ (
    bytes "/a/b" == bytes "/a"
    || (bytes "/a/b" == prefix_of (bytes "/a") || within (bytes "/a/b") (bytes "/a")))
subtree_clause-within_example = subtree_clause-within (bytes "/a") (bytes "/a/b")

sibling : subtree_clause (bytes "/a") (bytes "/ab") ≡ false
unfolding subtree_clause text_eq text_lt trim_right
sibling = refl

abbrev two_rows : Db
two_rows = record empty_db {
  history_log =
      record {
        id = 1;
        file_path = bytes "/a/f";
        event_type = event_deleted;
        old_hash = none;
        new_hash = none;
        old_size = none;
        new_size = none;
        timestamp = pos 4;
      }
      ∷ record {
        id = 2;
        file_path = bytes "/b";
        event_type = event_deleted;
        old_hash = none;
        new_hash = none;
        old_size = none;
        new_size = none;
        timestamp = pos 5;
      }
      ∷ [];
}

query_history-clear_history_rows_example :
    let cleared = clear_history_rows (bytes "/a") two_rows in
    (query_history (bytes "/a") (pos 10) cleared.1 ≡ [])
    × (cleared.0 + length cleared.1.history_log ≡ 2)
    × (query_history (bytes "/b") (pos 10) cleared.1 ≡ query_history (bytes "/b") (pos 10) two_rows)
query_history-clear_history_rows_example =
    query_history-clear_history_rows (bytes "/a") (bytes "/b") (pos 10) two_rows
      (inr (unfold trim_right in refl, λ e. grind arith))
      (inr (unfold trim_right in refl, λ e. grind arith))
      (unfold overlaps within text_eq trim_right in refl)

-- Newest first, and the limit takes the newest.
newest : map (λ (e : HistoryEntry). e.id) (query_history [] (pos 1) two_rows) ≡ 2 ∷ []
unfolding query_history sort text_eq int_eq
newest = refl

query_history-IsNewer_example :
    Pairwise IsNewer (query_history [] (pos 0) two_rows)
    × (query_history [] (pos 1) two_rows ≡ take 1 (query_history [] (pos 0) two_rows))
query_history-IsNewer_example = query_history-IsNewer [] (pos 0) 0 two_rows
