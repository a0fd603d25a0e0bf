-- ===== src/Scanner/Tests.antt =====
-- A scan of one changed file, and the theorems at that run.
use fmon.Base.{◌≡◌, refl, false, [], ◌∷◌, Pairwise, bytes, text_eq, text_lt, trim_right}
use fmon.Base.Dict.{lookup, insert, contains}
use fmon.Base.Int.{int_eq}
use fmon.Base.Sorting.{sort}
use fmon.Db.{
  next_id, select_meta, select_sources, read_file_row, collect_states, upsert_file_row,
  insert_history_row,
}
use fmon.Exec.{not_exist, failed, Env, World, Result, ok, err, is_not_exist}
use fmon.Exec.Atomic.{Undone}
use fmon.Exec.Keeps.{Succeeds}
use fmon.Models.{status_active}
use fmon.Models.Hash.{hash_to_db, hash_from_db}
use fmon.Paths.{within, overlaps}
use fmon.Paths.Clean.{is_abs, clean}
use fmon.Report.{Report, report_counts}
use fmon.Scanner.Accepted.{IsPlan, accept_sources-IsPlan}
use fmon.Scanner.Atomicity.{scan-Undone}
use fmon.Scanner.Machine.{quiet_env, failing_env, file_source, tables, world}
use fmon.Scanner.Plan.{accept_sources, index_sources, accept_configured}
use fmon.Scanner.Scan.{scan}
use fmon.Scanner.Sharing.{ShareNoFile, accept_configured-ShareNoFile}
use fmon.Scanner.Source.{same_kind, scan_source}
use fmon.Scanner.Success.{scan-Recorded}
use fmon.Scanner.Trail.{Recorded}
use fmon.Scanner.Vanished.{AlertsOnce, KeepsStates, scan_source-AlertsOnce}

abbrev report_of : Result Report × World → Report
report_of (ok rep, w) = rep
report_of (err e, w) = w.rep

run : Result Report × World
unfolding scan select_meta lookup is_abs clean sort contains select_sources text_eq index_sources
    insert collect_states trim_right int_eq within overlaps read_file_row hash_from_db hash_to_db
    upsert_file_row next_id insert_history_row same_kind text_lt
run = scan false [] quiet_env world

run_returns : run ≡ (ok (report_of run), run.1)
unfolding run
run_returns = refl

run_counts : report_counts (report_of run) ≡ (0, 1, 0)
unfolding run report_counts
run_counts = refl

scan-Undone_example : Undone tables (scan false [] failing_env world)
scan-Undone_example = scan-Undone false [] failing_env world

scan-Recorded_example :
    Recorded [] run.1.tables.history_log (report_of run).changes (report_of run).alerts
unfolding run
scan-Recorded_example = scan-Recorded false [] quiet_env world run.1 (report_of run) run_returns

failed_run : Result Report × World
unfolding run
failed_run = scan false [] failing_env world

accept_configured-ShareNoFile_example :
    Succeeds
      (λ accepted _. Pairwise ShareNoFile accepted)
      (accept_configured
        (bytes "/a/" ∷ bytes "/a/b" ∷ bytes "rel" ∷ bytes "/c" ∷ [])
        quiet_env
        world)
accept_configured-ShareNoFile_example =
    accept_configured-ShareNoFile (bytes "/a/" ∷ bytes "/a/b" ∷ bytes "rel" ∷ bytes "/c" ∷ [])
      quiet_env world

accept_sources-IsPlan_example :
    Succeeds
      (λ accepted _. IsPlan (bytes "/a" ∷ bytes "/a/b" ∷ []) accepted)
      (accept_sources (bytes "/a" ∷ bytes "/a/b" ∷ []) [] quiet_env world)
accept_sources-IsPlan_example =
    accept_sources-IsPlan (bytes "/a" ∷ bytes "/a/b" ∷ []) quiet_env world

-- The machine without the watched file.
abbrev gone_env : Env
gone_env = record quiet_env { lstat = λ n p. failed not_exist }

scan_source-AlertsOnce_example :
    KeepsStates tables (scan_source file_source [] false false gone_env world)
    × AlertsOnce status_active file_source tables []
        (scan_source file_source [] false false gone_env world)
scan_source-AlertsOnce_example =
    scan_source-AlertsOnce file_source [] false false gone_env world not_exist refl
      (unfold is_not_exist in refl)
