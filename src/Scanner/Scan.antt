-- ===== src/Scanner/Scan.antt =====
-- scanner.go: Scan.
use fmon.Base.{
  ℕ, suc, ◌-◌, Bool, true, false, ◌||◌, Option, none, some, List, [], ◌∷◌, if◌then◌else◌, ◌==◌,
  length, Text, nat_eq, text_equality,
}
use fmon.Base.Int.{ℤ, int_sub, int_equality}
use fmon.Db.{needs_baseline, baseline_db_missing}
use fmon.Exec.{
  Env, progress_line, World, Exec, pure, gets, modify, ◌>>=◌, ◌>>◌, now, check_canceled, vlogf,
  change_report,
}
use fmon.Exec.Atomic.{commit_then}
use fmon.Exec.Tx.{commit, with_tx}
use fmon.Queries.{get_meta, delete_meta}
use fmon.Report.{notice_db_missing, notice_upgrade, Report, new_report}
use fmon.Scanner.Plan.{PlannedSource, reconcile, filter_planned}
use fmon.Scanner.Source.{add_notice, scan_source}

-- The notice for a pending baseline; the flag is `baselineAll`.
unfoldable pub note_baseline : Option Text → Exec Bool
unfolding change_report pure ◌>>=◌
note_baseline none = pure false
note_baseline (some v) = do
  change_report
      (add_notice (if v == baseline_db_missing then notice_db_missing else notice_upgrade))
  pure true

-- The body of the loop over the plan.
unfoldable pub scan_planned : List Text → Bool → Bool → PlannedSource → Exec (Unit {0})
unfolding check_canceled gets scan_source vlogf ◌>>=◌
scan_planned patterns baseline_all full ps = do
  check_canceled
  before ← gets (λ w. w.rep)
  scan_source ps.src patterns (ps.baseline || baseline_all) full
  after ← gets (λ w. w.rep)
  vlogf (
      progress_line ps.src.typ ps.src.path (after.files_scanned - before.files_scanned)
        (after.files_hashed - before.files_hashed))

unfoldable pub scan_all : List Text → Bool → Bool → List PlannedSource → Exec (Unit {0})
unfolding scan_planned
scan_all patterns baseline_all full [] = pure tt
scan_all patterns baseline_all full (ps ∷ planned) = do
  scan_planned patterns baseline_all full ps
  scan_all patterns baseline_all full planned

abbrev pub select_planned : List Text → List PlannedSource → Exec (List PlannedSource)
select_planned [] planned = pure planned
select_planned (arg ∷ args) planned = filter_planned planned (arg ∷ args)

-- The statements of the transaction, before its COMMIT.
unfoldable pub scan_body : Bool → List Text → Exec (List PlannedSource)
unfolding get_meta note_baseline reconcile filter_planned gets scan_all delete_meta ◌>>=◌
scan_body full only = do
  value ← get_meta needs_baseline
  baseline_all ← note_baseline value
  all ← reconcile
  planned ← select_planned only all
  patterns ← gets (λ w. w.cfg.exclude)
  scan_all patterns baseline_all full planned
  if baseline_all then delete_meta needs_baseline else pure tt
  pure planned

abbrev finish_report : ℕ → ℤ → Report → Report
finish_report n t r = record r { sources = n; duration = int_sub t r.time }

-- After the COMMIT: the number of sources and the time that the scan took.
abbrev pub finish_scan : List PlannedSource → Env → World → Report × World
finish_scan planned env w =
    let rep = finish_report (length planned) (env.clock w.tick) w.rep in
    (rep, record w { tick = suc w.tick; rep = rep })

abbrev pub start_report : Bool → ℤ → World → World
start_report full t w = record w { rep = new_report t w.hostname full }

unfoldable pub scan : Bool → List Text → Exec Report
unfolding now modify with_tx scan_body commit ◌>>=◌
scan full only = do
  started ← now
  modify (start_report full started)
  with_tx (scan_body full only >>= commit_then finish_scan)
