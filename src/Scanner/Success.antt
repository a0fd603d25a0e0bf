-- ===== src/Scanner/Success.antt =====
-- What a successful scan guarantees.
use mathlib.Core.Path.{subst}
use fmon.Base.{suc, ◌≡◌, refl, sym, ap, Bool, none, List, Text}
use fmon.Db.{Db}
use fmon.Db.Consistent.{IsConsistent}
use fmon.Exec.{Env, World, ok, ask}
use fmon.Exec.Committed.{Returning, with_tx-Returning}
use fmon.Exec.Keeps.{Anything}
use fmon.Report.{Report}
use fmon.Scanner.Plan.{PlannedSource}
use fmon.Scanner.Scan.{scan_body, finish_scan, start_report, scan}
use fmon.Scanner.Stable.{Stable}
use fmon.Scanner.Stable.Plans.{Keeps-scan_body}
use fmon.Scanner.Tables.{HasConsistentTables, HasConsistentTables-Stable}
use fmon.Scanner.Trail.{Recorded, nothing, IsRecorded, Recorded-subst, IsRecorded-Stable}

-- The state that Scan begins with: its report is new.
abbrev started : Bool → Env → World → World
started full env w = start_report full (env.clock w.tick) (record w { tick = suc w.tick })

finish_returns :
    (P : World → Type 0)
    (rename : (w w' : World)
      → P w
      → w'.tables ≡ w.tables
      → w'.rep.changes ≡ w.rep.changes
      → w'.rep.alerts ≡ w.rep.alerts
      → P w')
    (planned : List PlannedSource) (env : Env) (w : World)
    → P w
    → w.saved ≡ none
    → let r = finish_scan planned env w in (P r.1 × (r.0 ≡ r.1.rep)) × (r.1.saved ≡ none)
finish_returns P rename planned env w h s = ((rename w _ h refl refl refl, refl), s)

module _ (P : World → Type 0)
    (rename : (w w' : World)
      → P w
      → w'.tables ≡ w.tables
      → w'.rep.changes ≡ w.rep.changes
      → w'.rep.alerts ≡ w.rep.alerts
      → P w')
    (S : Stable P Anything) where
  -- A stable invariant of the tables, the changes and the alerts holds after a successful scan.
  scan-Returning :
      (full : Bool) (only : List Text) (env : Env) (w : World)
      → P (started full env w)
      → Returning (λ rep w'. P w' × (rep ≡ w'.rep)) (scan full only env w)
  unfolding scan ask
  scan-Returning full only env w h =
      with_tx-Returning finish_scan P (λ rep w'. P w' × (rep ≡ w'.rep))
        (λ v n s p. rename v _ p refl refl refl) (finish_returns P rename) (scan_body full only)
        (Keeps-scan_body S full only) env (started full env w) h

-- Every change and every alert of the report has one row in the history, in the order in which they
-- were found, with the hashes and sizes that the event has; nothing else is added, and the rows
-- that were there stay.
pub scan-Recorded :
    (full : Bool) (only : List Text) (env : Env) (w w' : World) (rep : Report)
    → scan full only env w ≡ (ok rep, w')
    → Recorded w.tables.history_log w'.tables.history_log rep.changes rep.alerts
scan-Recorded full only env w w' rep e =
    let start = w.tables.history_log in
    let q : Returning (λ (r : Report) v. IsRecorded start v × (r ≡ v.rep)) (scan full only env w) =
      scan-Returning (IsRecorded start)
        (λ v v' h t c a. Recorded-subst start (ap (λ (d : Db). d.history_log) t) c a h)
        (IsRecorded-Stable start) full only env w nothing in
    let r : IsRecorded start w' × (rep ≡ w'.rep) =
      subst (Returning (λ (r : Report) v. IsRecorded start v × (r ≡ v.rep))) e q in
    rw (r.1) (r.0)

-- The unique and foreign keys of the sources and the file states hold after a successful scan if they
-- held before it.
pub scan-IsConsistent :
    (full : Bool) (only : List Text) (env : Env) (w w' : World) (rep : Report)
    → IsConsistent w.tables
    → scan full only env w ≡ (ok rep, w')
    → IsConsistent w'.tables
scan-IsConsistent full only env w w' rep c e =
    let q : Returning (λ (r : Report) v. HasConsistentTables v × (r ≡ v.rep))
        (scan full only env w) =
      scan-Returning HasConsistentTables (λ v v' h t x a. subst IsConsistent (sym t) h)
        HasConsistentTables-Stable full only env w c in
    (subst (Returning (λ (r : Report) v. HasConsistentTables v × (r ≡ v.rep))) e q).0
