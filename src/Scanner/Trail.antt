-- ===== src/Scanner/Trail.antt =====
-- The audit history of a scan: one row for each reported change and for each alert, in order, and
-- nothing else; what was in the history stays.
use fmon.Base.{ℕ, ◌≡◌, refl, ap, List, [], ◌∷◌, ◌++◌, arith}
use fmon.Base.Int.{ℤ}
use fmon.Db.{
  HistoryRow, Db, delete_meta_row, insert_source_row, update_source_status, delete_source_row,
  upsert_file_row, delete_file_row, hash_arg, insert_history_row,
}
use fmon.Exec.{World}
use fmon.Exec.Keeps.{Anything}
use fmon.Models.{Source, HistoryEntry, Change}
use fmon.Report.{Alert, alert_deleted}
use fmon.Scanner.File.{entry_for}
use fmon.Scanner.Source.{root_entry}
use fmon.Scanner.Stable.{
  Statement, source_inserted, status_updated, source_deleted, file_upserted, file_deleted,
  meta_deleted, Stable,
}

-- The row that a history entry becomes.
abbrev pub history_row : ℕ → HistoryEntry → HistoryRow
history_row id e = record {
  id = id;
  file_path = e.path;
  event_type = e.event;
  old_hash = hash_arg e.old_hash;
  new_hash = hash_arg e.new_hash;
  old_size = e.old_size;
  new_size = e.new_size;
  timestamp = e.timestamp;
}

-- A history that extends `start` by the records of these changes and alerts.
pub data Recorded (start : List HistoryRow)
    : List HistoryRow → List Change → List Alert → Type 0 where
  nothing : Recorded start start [] []
  change_recorded :
      {rows : List HistoryRow} {cs : List Change} {as' : List Alert}
      → Recorded start rows cs as'
      → (c : Change) (t : ℤ) (id : ℕ)
      → Recorded start (rows ++ history_row id (entry_for c.event c t) ∷ []) (cs ++ c ∷ []) as'
  root_recorded :
      {rows : List HistoryRow} {cs : List Change} {as' : List Alert}
      → Recorded start rows cs as'
      → (s : Source) (t : ℤ) (id : ℕ)
      → Recorded start
          (rows ++ history_row id (root_entry s t) ∷ [])
          cs
          (as' ++ alert_deleted s.typ s.path ∷ [])

abbrev pub IsRecorded : List HistoryRow → World → Type 0
IsRecorded start w = Recorded start w.tables.history_log w.rep.changes w.rep.alerts

pub Recorded-subst :
    (start : List HistoryRow) {h h' : List HistoryRow} {c c' : List Change} {a a' : List Alert}
    → h' ≡ h
    → c' ≡ c
    → a' ≡ a
    → Recorded start h c a
    → Recorded start h' c' a'
Recorded-subst start eh ec ea r = rw (eh, ec, ea) r

-- No statement of a scan but an insertion touches the history.
history-Statement : {d d' : Db} → Statement d d' → d'.history_log ≡ d.history_log
unfolding insert_source_row update_source_status delete_source_row upsert_file_row delete_file_row
    delete_meta_row
history-Statement (source_inserted p typ t id e) = ground arith
history-Statement (status_updated id status) = refl
history-Statement (source_deleted id) = refl
history-Statement (file_upserted s e) = ground arith
history-Statement (file_deleted p) = refl
history-Statement (meta_deleted key) = refl

pub IsRecorded-Stable : (start : List HistoryRow) → Stable (IsRecorded start) Anything
unfolding insert_history_row
IsRecorded-Stable start = record {
  failing = λ w w' h s. tt;
  quiet = λ w w' h s t c a. Recorded-subst start (ap (λ (d : Db). d.history_log) t) c a h;
  statement = λ w w' h s t c a. Recorded-subst start (history-Statement t) c a h;
  changed = λ w w' c t h s d e a.
      Recorded-subst start (ap (λ (x : Db). x.history_log) d) e a (change_recorded h c t _);
  lost = λ w w' src t h s d e a.
      Recorded-subst start (ap (λ (x : Db). x.history_log) d) e a (root_recorded h src t _);
}
