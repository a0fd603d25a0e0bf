-- ===== src/Db/History.antt =====
-- queries.go: QueryHistory and ClearHistory on the rows of history_log.
pub mod Order
pub mod Cleared
use fmon.Base.{
  ℕ, suc, Bool, not, ◌&&◌, ◌||◌, Option, none, some, List, map, ltb, ◌==◌, length, take, keep_if,
  Text, nat_eq, text_equality,
}
use fmon.Base.Int.{ℤ, pos, int_lt, int_equality}
use fmon.Base.Sorting.{sort}
use fmon.Db.{HistoryRow, Db}
use fmon.Db.Subtree.{in_query}
use fmon.Models.{HistoryEntry}
use fmon.Models.Hash.{hash_from_db}

unfoldable pub read_hash : Option ℤ → Option ℕ
read_hash none = none
read_hash (some h) = some (hash_from_db h)

unfoldable pub read_history_row : HistoryRow → HistoryEntry
unfolding read_hash
read_history_row r = record {
  id = r.id;
  path = r.file_path;
  event = r.event_type;
  old_hash = read_hash r.old_hash;
  new_hash = read_hash r.new_hash;
  old_size = r.old_size;
  new_size = r.new_size;
  timestamp = r.timestamp;
}

-- ORDER BY timestamp DESC, id DESC
abbrev pub newer : HistoryRow → HistoryRow → Bool
newer r q = int_lt q.timestamp r.timestamp || (r.timestamp == q.timestamp && ltb q.id r.id)

-- LIMIT; no limit for zero and below.
unfoldable pub limited : ℤ → List HistoryRow → List HistoryRow
limited (pos (suc n)) rows = take (suc n) rows
limited limit rows = rows

unfoldable pub query_history : Text → ℤ → Db → List HistoryEntry
unfolding read_history_row limited
query_history path limit d = map read_history_row (
    limited limit
      (sort newer (keep_if (λ (r : HistoryRow). in_query path r.file_path) d.history_log)))

-- The number of rows that match, and the tables without them.
unfoldable pub clear_history_rows : Text → Db → ℕ × Db
clear_history_rows path d = (
  length (keep_if (λ (r : HistoryRow). in_query path r.file_path) d.history_log),
  record d {
    history_log = keep_if (λ (r : HistoryRow). not (in_query path r.file_path)) d.history_log;
  },
)
