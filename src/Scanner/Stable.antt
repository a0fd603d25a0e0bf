-- ===== src/Scanner/Stable.antt =====
-- What a scan can do to the state of a run, as an interface. An invariant that is stable under each
-- kind of step is kept by every action of the scanner; the children prove that once, for any such
-- invariant, and `Scanner/Atomicity` and the modules beside it fill the interface.
pub mod Actions
pub mod Files
pub mod Plans
use fmon.Base.{ℕ, ◌≡◌, some, [], ◌∷◌, ◌++◌, Text}
use fmon.Base.Int.{ℤ}
use fmon.Db.{
  Db, delete_meta_row, insert_source_row, update_source_status, delete_source_row, upsert_file_row,
  delete_file_row, insert_history_row,
}
use fmon.Exec.{World}
use fmon.Models.{SourceType, SourceStatus, Source, FileState, Change}
use fmon.Report.{alert_deleted}
use fmon.Scanner.File.{entry_for}
use fmon.Scanner.Source.{root_entry}

-- The statements of a scan other than those that write the history.
pub data Statement (d : Db) : Db → Type 0 where
  source_inserted :
      (p : Text) (typ : SourceType) (t : ℤ) (id : ℕ) {d' : Db}
      → insert_source_row p typ t d ≡ some (id, d')
      → Statement d d'
  status_updated : (id : ℕ) (status : SourceStatus) → Statement d (update_source_status id status d)
  source_deleted : (id : ℕ) → Statement d (delete_source_row id d)
  file_upserted : (s : FileState) {d' : Db} → upsert_file_row s d ≡ some d' → Statement d d'
  file_deleted : (p : Text) → Statement d (delete_file_row p d)
  meta_deleted : (key : Text) → Statement d (delete_meta_row key d)

-- The parts of the state that an invariant may speak of: the tables to go back to, the tables, the
-- changes and the alerts. `P` holds while the scan runs, `E` after an error.
pub record Stable (P E : World → Type 0) : Type 0 where
  pub failing : (w w' : World) → P w → w'.saved ≡ w.saved → E w'
  pub quiet :
      (w w' : World)
      → P w
      → w'.saved ≡ w.saved
      → w'.tables ≡ w.tables
      → w'.rep.changes ≡ w.rep.changes
      → w'.rep.alerts ≡ w.rep.alerts
      → P w'
  pub statement :
      (w w' : World)
      → P w
      → w'.saved ≡ w.saved
      → Statement w.tables w'.tables
      → w'.rep.changes ≡ w.rep.changes
      → w'.rep.alerts ≡ w.rep.alerts
      → P w'
  pub changed :
      (w w' : World) (c : Change) (t : ℤ)
      → P w
      → w'.saved ≡ w.saved
      → w'.tables ≡ insert_history_row (entry_for c.event c t) w.tables
      → w'.rep.changes ≡ w.rep.changes ++ c ∷ []
      → w'.rep.alerts ≡ w.rep.alerts
      → P w'
  pub lost :
      (w w' : World) (s : Source) (t : ℤ)
      → P w
      → w'.saved ≡ w.saved
      → w'.tables ≡ insert_history_row (root_entry s t) w.tables
      → w'.rep.changes ≡ w.rep.changes
      → w'.rep.alerts ≡ w.rep.alerts ++ alert_deleted s.typ s.path ∷ []
      → P w'
