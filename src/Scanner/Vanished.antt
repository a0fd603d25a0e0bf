-- ===== src/Scanner/Vanished.antt =====
-- scanner.go: a source whose root is gone (handleMissing).
use fmon.Base.{suc, ◌≡◌, refl, Bool, true, Option, none, some, List, [], ◌∷◌, ◌++◌, map, Text}
use fmon.Db.{Db, with_status, update_source_status, insert_history_row}
use fmon.Exec.{FsError, failed, Env, World, Result, ok, err, ask, warnf, is_not_exist}
use fmon.Exec.Tx.{sql}
use fmon.Models.{SourceStatus, status_active, status_missing, Source}
use fmon.Report.{Alert, alert_deleted}
use fmon.Scanner.Source.{count_missing, missing_by_status, handle_missing, after_lstat, scan_source}

-- The alert and the status are due when the source is not marked missing yet. `d` and `alerts` are
-- those before the scan of the source.
abbrev pub AlertsOnce : SourceStatus → Source → Db → List Alert → Result (Unit {0}) × World → Type 0
AlertsOnce status_missing src d alerts (r, v) = (v.tables ≡ d) × (v.rep.alerts ≡ alerts)
AlertsOnce status_active src d alerts (ok _, v) =
    (v.rep.alerts ≡ alerts ++ alert_deleted src.typ src.path ∷ [])
    × (v.tables.watched_sources ≡ map (with_status src.id status_missing) d.watched_sources)
AlertsOnce status_active src d alerts (err e, v) = v.rep.alerts ≡ alerts

abbrev pub KeepsStates : Db → Result (Unit {0}) × World → Type 0
KeepsStates d (r, v) = v.tables.files_state ≡ d.files_state

missing_by_status-AlertsOnce :
    (st : SourceStatus) (src : Source) (env : Env) (w : World)
    → KeepsStates w.tables (missing_by_status st src env w)
      × AlertsOnce st src w.tables w.rep.alerts (missing_by_status st src env w)
unfolding missing_by_status warnf ask insert_history_row update_source_status
missing_by_status-AlertsOnce status_missing src env w = (refl, (refl, refl))
missing_by_status-AlertsOnce status_active src env w =
    by_faults (env.sql_fault w.tick) (env.sql_fault (suc (suc w.tick))) refl refl
  where
    by_faults :
        (f g : Option Text)
        → env.sql_fault w.tick ≡ f
        → env.sql_fault (suc (suc w.tick)) ≡ g
        → KeepsStates w.tables (missing_by_status status_active src env w)
          × AlertsOnce status_active src w.tables w.rep.alerts
              (missing_by_status status_active src env w)
    by_faults (some m) g e k = rw (e, sql) (refl, refl)
    by_faults none (some m) e k = rw (e, sql) (rw (k, sql) (refl, refl))
    by_faults none none e k = rw (e, sql) (rw (k, sql) (refl, (refl, refl)))

-- When Lstat finds no root: the file states stay as they are, so that a source that comes back is
-- compared with them; the first scan raises one alert and marks the source missing, and a later
-- scan changes no table and raises no alert. If the database fails, no alert is raised.
pub scan_source-AlertsOnce :
    (src : Source) (patterns : List Text) (baseline full : Bool) (env : Env) (w : World)
    (e : FsError)
    → env.lstat w.tick src.path ≡ failed e
    → is_not_exist e ≡ true
    → KeepsStates w.tables (scan_source src patterns baseline full env w)
      × AlertsOnce src.status src w.tables w.rep.alerts
          (scan_source src patterns baseline full env w)
unfolding scan_source ask
scan_source-AlertsOnce src patterns baseline full env w e gone absent =
    rw (gone, after_lstat)
      (rw (absent, handle_missing)
        (missing_by_status-AlertsOnce src.status src env
          (record w { tick = suc w.tick; rep = count_missing w.rep })))
