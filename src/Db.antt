-- ===== src/Db.antt =====
-- internal/db: the four tables of the schema (migrate.go) and the SQL statements of queries.go, each
-- as a function on the tables. A statement that breaks a constraint of the schema changes nothing
-- and gives `none`. An INTEGER PRIMARY KEY takes one more than the largest id of its table.
pub mod Subtree
pub mod Consistent
pub mod States
pub mod History
pub mod Totals
pub mod Cells
mod Tests
use Prim.Native.Nat.{max}
use fmon.Base.{
  ℕ, suc, ◌+◌, Bool, true, false, not, ◌||◌, Option, none, some, List, [], ◌∷◌, ◌++◌, map, ltb,
  if◌then◌else◌, ◌==◌, length, keep_if, any_of, Text, bytes, text_lt, nat_eq, text_equality,
}
use fmon.Base.Dict.{Dict, lookup, insert}
use fmon.Base.Int.{ℤ, pos, int_equality}
use fmon.Base.Sorting.{sort}
use fmon.Models.{
  SourceType, SourceStatus, status_active, EventType, Source, FileState, HistoryEntry,
}
use fmon.Models.Hash.{hash_to_db, hash_from_db}

-- The pragmas that `dsn` of db.go has every connection set. Without foreign_keys, SQLite neither checks
-- a foreign key nor cascades.
pub data Pragma : Type 0 where
  foreign_keys journal_wal synchronous_normal : Pragma
  busy_timeout : ℕ → Pragma

abbrev pub connection_pragmas : List Pragma
connection_pragmas = foreign_keys ∷ journal_wal ∷ synchronous_normal ∷ busy_timeout 5000 ∷ []

abbrev pub enforces_keys : List Pragma → Bool
enforces_keys [] = false
enforces_keys (foreign_keys ∷ ps) = true
enforces_keys (p ∷ ps) = enforces_keys ps

pub record FileRow : Type 0 where
  pub id : ℕ
  pub source_id : ℕ
  pub file_path : Text
  pub last_hash : ℤ
  pub size : ℤ
  pub mod_time : ℤ
  pub updated_at : ℤ

pub record HistoryRow : Type 0 where
  pub id : ℕ
  pub file_path : Text
  pub event_type : EventType
  pub old_hash : Option ℤ
  pub new_hash : Option ℤ
  pub old_size : Option ℤ
  pub new_size : Option ℤ
  pub timestamp : ℤ

-- The tables and the indexes of migrateV1.
pub data SchemaObject : Type 0 where
  table_meta table_watched_sources table_files_state table_history_log : SchemaObject
  index_source index_history_path index_history_time : SchemaObject

-- The content of the database file: `PRAGMA user_version`, the schema, and the rows. A table that is
-- not in the schema has no rows.
pub record Db : Type 0 where
  pub user_version : ℤ
  pub schema : List SchemaObject
  pub meta : Dict Text
  pub watched_sources : List Source
  pub files_state : List FileRow
  pub history_log : List HistoryRow

abbrev pub empty_db : Db
empty_db = record {
  user_version = pos 0;
  schema = [];
  meta = [];
  watched_sources = [];
  files_state = [];
  history_log = [];
}

-- The id that SQLite gives the next row of a table.
unfoldable pub next_id : List ℕ → ℕ
next_id [] = 1
next_id (n ∷ ns) = max (suc n) (next_id ns)

-- ---- meta -----------------------------------------------------------------

abbrev pub needs_baseline : Text
needs_baseline = bytes "needs_baseline"

abbrev pub baseline_upgrade : Text
baseline_upgrade = bytes "1"

abbrev pub baseline_db_missing : Text
baseline_db_missing = bytes "db-missing"

unfoldable pub select_meta : Text → Db → Option Text
select_meta key d = lookup key d.meta

unfoldable pub upsert_meta : Text → Text → Db → Db
upsert_meta key value d = record d { meta = insert key value d.meta }

unfoldable pub delete_meta_row : Text → Db → Db
delete_meta_row key d = record d { meta = keep_if (λ row. not (row.0 == key)) d.meta }

-- ---- watched_sources ------------------------------------------------------

abbrev pub source_ids : List Source → List ℕ
source_ids = map (λ (s : Source). s.id)

abbrev pub has_source_path : Text → List Source → Bool
has_source_path p = any_of (λ (s : Source). s.path == p)

abbrev pub has_source_id : ℕ → List Source → Bool
has_source_id id = any_of (λ (s : Source). s.id == id)

abbrev pub new_source : ℕ → Text → SourceType → ℤ → Source
new_source id path typ now = record {
  id = id;
  path = path;
  typ = typ;
  status = status_active;
  created_at = now;
}

-- `path` is UNIQUE.
unfoldable pub insert_source_row : Text → SourceType → ℤ → Db → Option (ℕ × Db)
insert_source_row path typ now d =
    let id = next_id (source_ids d.watched_sources) in
    if has_source_path path d.watched_sources
    then none
    else some
        (id, record d { watched_sources = d.watched_sources ++ new_source id path typ now ∷ [] })

-- ORDER BY path
unfoldable pub select_sources : Db → List Source
select_sources d = sort (λ (s t : Source). text_lt s.path t.path) d.watched_sources

abbrev pub with_status : ℕ → SourceStatus → Source → Source
with_status id status s = if s.id == id then record s { status = status } else s

unfoldable pub update_source_status : ℕ → SourceStatus → Db → Db
update_source_status id status d = record d {
  watched_sources = map (with_status id status) d.watched_sources;
}

-- The foreign key's ON DELETE CASCADE removes the source's file rows.
unfoldable pub delete_source_row : ℕ → Db → Db
delete_source_row id d = record d {
  watched_sources = keep_if (λ (s : Source). not (s.id == id)) d.watched_sources;
  files_state =
      if enforces_keys connection_pragmas
      then keep_if (λ (r : FileRow). not (r.source_id == id)) d.files_state
      else d.files_state;
}

-- ---- files_state ------------------------------------------------------------

abbrev pub file_ids : List FileRow → List ℕ
file_ids = map (λ (r : FileRow). r.id)

unfoldable pub read_file_row : FileRow → FileState
read_file_row r = record {
  id = r.id;
  source_id = r.source_id;
  path = r.file_path;
  hash = hash_from_db r.last_hash;
  size = r.size;
  mod_time = r.mod_time;
  updated_at = r.updated_at;
}

-- The loop over the rows of one source, into a map keyed by path.
unfoldable pub collect_states : ℕ → List FileRow → Dict FileState → Dict FileState
collect_states id [] out = out
collect_states id (r ∷ rows) out =
    collect_states id rows
      (if r.source_id == id then insert r.file_path (read_file_row r) out else out)

-- The columns that ON CONFLICT(file_path) DO UPDATE sets; the id stays.
abbrev pub update_row : FileState → FileRow → FileRow
update_row s r = record r {
  source_id = s.source_id;
  last_hash = hash_to_db s.hash;
  size = s.size;
  mod_time = s.mod_time;
  updated_at = s.updated_at;
}

abbrev pub new_row : ℕ → FileState → FileRow
new_row id s = record {
  id = id;
  source_id = s.source_id;
  file_path = s.path;
  last_hash = hash_to_db s.hash;
  size = s.size;
  mod_time = s.mod_time;
  updated_at = s.updated_at;
}

unfoldable pub upsert_row : ℕ → FileState → List FileRow → List FileRow
upsert_row id s [] = new_row id s ∷ []
upsert_row id s (r ∷ rows) =
    if r.file_path == s.path then update_row s r ∷ rows else r ∷ upsert_row id s rows

-- `source_id` REFERENCES watched_sources(id).
unfoldable pub upsert_file_row : FileState → Db → Option Db
unfolding upsert_row
upsert_file_row s d =
    if not (enforces_keys connection_pragmas) || has_source_id s.source_id d.watched_sources
    then some
        (record d { files_state = upsert_row (next_id (file_ids d.files_state)) s d.files_state })
    else none

unfoldable pub delete_file_row : Text → Db → Db
delete_file_row path d = record d {
  files_state = keep_if (λ (r : FileRow). not (r.file_path == path)) d.files_state;
}

-- ---- history_log --------------------------------------------------------------

abbrev pub history_ids : List HistoryRow → List ℕ
history_ids = map (λ (r : HistoryRow). r.id)

-- `hashArg`: a nil hash is NULL, any other is stored as its int64 bit pattern.
unfoldable pub hash_arg : Option ℕ → Option ℤ
hash_arg none = none
hash_arg (some h) = some (hash_to_db h)

unfoldable pub insert_history_row : HistoryEntry → Db → Db
unfolding hash_arg
insert_history_row e d =
    let row : HistoryRow = record {
      id = next_id (history_ids d.history_log);
      file_path = e.path;
      event_type = e.event;
      old_hash = hash_arg e.old_hash;
      new_hash = hash_arg e.new_hash;
      old_size = e.old_size;
      new_size = e.new_size;
      timestamp = e.timestamp;
    } in
    record d { history_log = d.history_log ++ row ∷ [] }

-- ---- maintenance ------------------------------------------------------------

unfoldable pub has_rows : Db → Bool
has_rows d = ltb 0 (length d.watched_sources + length d.history_log)

-- The four DELETE statements of ResetAll, each over a whole table; deleting a source cascades.
unfoldable pub delete_history_rows : Db → Db
delete_history_rows d = record d { history_log = [] }

unfoldable pub delete_file_rows : Db → Db
delete_file_rows d = record d { files_state = [] }

unfoldable pub delete_source_rows : Db → Db
delete_source_rows d = record d { watched_sources = []; files_state = [] }

unfoldable pub delete_meta_rows : Db → Db
delete_meta_rows d = record d { meta = [] }
