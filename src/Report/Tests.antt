-- ===== src/Report/Tests.antt =====
-- The counts of a report.
use fmon.Base.{◌+◌, ◌≡◌, refl, false, [], ◌∷◌, length, bytes}
use fmon.Base.Int.{pos}
use fmon.Models.{EventType, event_added, event_deleted, Change}
use fmon.Report.{Report, new_report, report_counts}
use fmon.Report.Numbers.{report_counts_lem}

abbrev change : EventType → Change
change e = record {
  event = e;
  path = bytes "/d/a";
  source = bytes "/d";
  old_hash = 1;
  new_hash = 2;
  old_size = pos 3;
  new_size = pos 4;
}

abbrev report : Report
report = record (new_report (pos 0) (bytes "host") false) {
  changes = change event_added ∷ change event_deleted ∷ change event_added ∷ [];
}

report_counts_example_value : report_counts report ≡ (2, 0, 1)
unfolding report_counts
report_counts_example_value = refl

report_counts_lem_example :
    ((report_counts report).0 ≡ 2)
    × ((report_counts report).1 ≡ 0)
    × ((report_counts report).2 ≡ 1)
    × (2 + 0 + 1 ≡ length report.changes)
report_counts_lem_example = report_counts_lem report
