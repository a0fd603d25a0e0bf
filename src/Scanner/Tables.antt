-- ===== src/Scanner/Tables.antt =====
-- The unique and foreign keys of the sources and the file states, after every statement of a scan.
use mathlib.Core.Path.{subst}
use fmon.Base.{sym}
use fmon.Db.{Db, delete_meta_row, insert_history_row}
use fmon.Db.Consistent.{
  IsConsistent, insert_source_row-IsConsistent, update_source_status-IsConsistent,
  delete_source_row-IsConsistent, upsert_file_row-IsConsistent, delete_file_row-IsConsistent,
}
use fmon.Exec.{World}
use fmon.Exec.Keeps.{Anything}
use fmon.Models.{HistoryEntry}
use fmon.Scanner.Stable.{
  Statement, source_inserted, status_updated, source_deleted, file_upserted, file_deleted,
  meta_deleted, Stable,
}

Statement-IsConsistent : {d d' : Db} → Statement d d' → IsConsistent d → IsConsistent d'
unfolding delete_meta_row
Statement-IsConsistent {d} {d'} (source_inserted p typ t id e) c =
    insert_source_row-IsConsistent p typ t d id d' c e
Statement-IsConsistent {d} (status_updated id status) c =
    update_source_status-IsConsistent id status d c
Statement-IsConsistent {d} (source_deleted id) c = delete_source_row-IsConsistent id d c
Statement-IsConsistent {d} {d'} (file_upserted s e) c = upsert_file_row-IsConsistent s d d' c e
Statement-IsConsistent {d} (file_deleted p) c = delete_file_row-IsConsistent p d c
Statement-IsConsistent {d} (meta_deleted key) c = record {
  source_paths = c.source_paths;
  source_keys = c.source_keys;
  file_paths = c.file_paths;
  owners = c.owners;
}

pub insert_history_row-IsConsistent :
    (e : HistoryEntry) (d : Db) → IsConsistent d → IsConsistent (insert_history_row e d)
unfolding insert_history_row
insert_history_row-IsConsistent e d c = record {
  source_paths = c.source_paths;
  source_keys = c.source_keys;
  file_paths = c.file_paths;
  owners = c.owners;
}

abbrev pub HasConsistentTables : World → Type 0
HasConsistentTables w = IsConsistent w.tables

pub HasConsistentTables-Stable : Stable HasConsistentTables Anything
HasConsistentTables-Stable = record {
  failing = λ w w' h s. tt;
  quiet = λ w w' h s t c a. subst IsConsistent (sym t) h;
  statement = λ w w' h s t c a. Statement-IsConsistent t h;
  changed = λ w w' c t h s d e a.
      subst IsConsistent (sym d) (insert_history_row-IsConsistent _ w.tables h);
  lost = λ w w' src t h s d e a.
      subst IsConsistent (sym d) (insert_history_row-IsConsistent _ w.tables h);
}
