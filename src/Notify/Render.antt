-- ===== src/Notify/Render.antt =====
-- notify.go: Render; output.go: PrintScan. The texts of alerts and notices are those of scanner.go.
-- strconv.Quote, time.Format and Duration.String are parameters.
pub mod Sources
pub mod Injection
pub mod Forgery
pub mod Plain
use fmon.Base.{
  ℕ, ◌+◌, Option, none, some, List, [], ◌∷◌, ◌++◌, map, ltb, if◌then◌else◌, ◌==◌, length, Text,
  bytes, text_lt, nat_eq, text_equality,
}
use fmon.Base.Decimal.{decimal}
use fmon.Base.Dict.{Dict, lookup, insert, keys}
use fmon.Base.Int.{ℤ, int_equality}
use fmon.Base.Sorting.{sort}
use fmon.Config.{detail_full}
use fmon.Models.{
  SourceType, source_file, source_folder, EventType, event_added, event_modified, event_deleted,
  Change,
}
use fmon.Notify.{newline, change_lines}
use fmon.Report.{
  Alert, alert_deleted, Notice, notice_db_missing, notice_upgrade, notice_back, Report,
  report_counts, is_empty,
}

pub record Formats : Type 0 where
  pub quote : Text → Text
  pub rfc3339 : ℤ → Text
  pub duration_text : ℤ → Text

unfoldable pub kind_of : SourceType → Text
kind_of source_file = bytes "file"
kind_of source_folder = bytes "folder"

unfoldable pub alert_text : Formats → Alert → Text
unfolding kind_of
alert_text f (alert_deleted typ path) =
    bytes "ALERT: Tracked "
    ++ (kind_of typ ++ (bytes " " ++ (f.quote path ++ bytes " was deleted from disk!")))

unfoldable pub notice_text : Formats → Notice → Text
unfolding kind_of
notice_text f notice_db_missing =
    bytes
      "NOTICE: database was missing and has been recreated; baseline rebuilt, changes made before this scan are not reported"
notice_text f notice_upgrade =
    bytes "NOTICE: baseline rebuilt after upgrade; changes since the previous scan are not reported"
notice_text f (notice_back typ path) =
    bytes "NOTICE: Tracked "
    ++ (kind_of typ ++ (bytes " " ++ (f.quote path ++ bytes " is back on disk")))

-- ---- counts by source -----------------------------------------------------------

abbrev pub Counts : Type 0
Counts = ℕ × ℕ × ℕ

abbrev pub bump : EventType → Counts → Counts
bump event_added (a, m, d) = (a + 1, m, d)
bump event_modified (a, m, d) = (a, m + 1, d)
bump event_deleted (a, m, d) = (a, m, d + 1)

abbrev pub or_zero : Option Counts → Counts
or_zero none = (0, 0, 0)
or_zero (some n) = n

-- The loop that fills `per`.
unfoldable pub source_counts : List Change → Dict Counts → Dict Counts
source_counts [] per = per
source_counts (c ∷ changes) per =
    source_counts changes (insert c.source (bump c.event (or_zero (lookup c.source per))) per)

abbrev pub source_text : Formats → Text → Counts → Text
source_text f s (a, m, d) =
    bytes "SOURCE "
    ++ (f.quote s
        ++ (bytes " added="
            ++ (decimal a
                ++ (bytes " modified=" ++ (decimal m ++ (bytes " deleted=" ++ decimal d))))))

unfoldable pub source_lines : Formats → List Change → List Text
unfolding source_counts
source_lines f changes =
    let per = source_counts changes [] in
    map (λ s. source_text f s (or_zero (lookup s per))) (sort text_lt (keys per))

-- ---- Render -----------------------------------------------------------------------

abbrev pub header_text : Formats → Report → Counts → Text
header_text f r (a, m, d) =
    bytes "[fmon] host="
    ++ (r.host
        ++ (bytes " time="
            ++ (f.rfc3339 r.time
                ++ (bytes " changes="
                    ++ (decimal (length r.changes)
                        ++ (bytes " (added "
                            ++ (decimal a
                                ++ (bytes ", modified "
                                    ++ (decimal m
                                        ++ (bytes ", deleted " ++ (decimal d ++ bytes ")")))))))))))

abbrev pub error_lines : Report → List Text
error_lines r =
    if ltb 0 (length r.errors)
    then (bytes "WARNING: "
        ++ (decimal (length r.errors)
            ++ bytes " non-fatal error(s) occurred during the scan; see fmon.log"))
      ∷ []
    else []

-- The lines that Render writes, each of which it ends with a newline.
unfoldable pub report_lines : Formats → Text → Report → List Text
unfolding report_counts alert_text notice_text source_lines change_lines
report_lines f detail r =
    header_text f r (report_counts r)
    ∷ (map (alert_text f) r.alerts
        ++ (map (notice_text f) r.notices
            ++ (error_lines r
                ++ (source_lines f r.changes
                    ++ (if detail == detail_full then change_lines f.quote r.changes else [])))))

abbrev pub write_lines : List Text → Text
write_lines [] = []
write_lines (l ∷ ls) = l ++ newline ∷ write_lines ls

unfoldable pub render : Formats → Text → Report → Text
unfolding report_lines
render f detail r = write_lines (report_lines f detail r)

-- ---- PrintScan ----------------------------------------------------------------------

abbrev scan_prefix : Report → Text
scan_prefix r =
    (if is_empty r then bytes "No changes. " else [])
    ++ (if r.full then bytes "Full scan. " else [])

abbrev missing_text : Report → Text
missing_text r =
    if ltb 0 r.missing_sources
    then bytes " (" ++ (decimal r.missing_sources ++ bytes " missing)")
    else []

unfoldable pub statistics : Formats → Report → Counts → Text
unfolding is_empty
statistics f r (a, m, d) =
    scan_prefix r
    ++ (bytes "Scan finished in "
        ++ (f.duration_text r.duration
            ++ (bytes ": "
                ++ (decimal r.sources
                    ++ (bytes " source(s)"
                        ++ (missing_text r
                            ++ (bytes ", "
                                ++ (decimal r.files_scanned
                                    ++ (bytes " file(s) scanned ("
                                        ++ (decimal r.files_hashed
                                            ++ (bytes " hashed), "
                                                ++ (decimal a
                                                    ++ (bytes " added, "
                                                        ++ (decimal m
                                                            ++ (bytes " modified, "
                                                            ++ (decimal d
                                                            ++ (bytes " deleted, "
                                                            ++ (decimal (length r.errors)
                                                            ++ bytes " error(s)"))))))))))))))))))

abbrev pub printed_lines : Formats → Report → List Text
printed_lines f r =
    map (alert_text f) r.alerts ++ (map (notice_text f) r.notices ++ change_lines f.quote r.changes)

abbrev blank_after : List Text → List Text
blank_after [] = []
blank_after (l ∷ ls) = (l ∷ ls) ++ [] ∷ []

-- PrintScan without -q: the lines, an empty line after them if there are any, and the statistics.
unfoldable pub scan_lines : Formats → Report → List Text
unfolding alert_text notice_text change_lines statistics report_counts
scan_lines f r = blank_after (printed_lines f r) ++ statistics f r (report_counts r) ∷ []
