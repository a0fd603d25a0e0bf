-- ===== src/Scanner/Atomicity.antt =====
-- Scan is all or nothing: its transaction is undone when it fails.
use fmon.Base.{suc, ◌∙◌, Bool, List, Text}
use fmon.Db.{Db}
use fmon.Exec.{Env, World, ask}
use fmon.Exec.Atomic.{
  IsOpen, IsRecoverable, recover_open, Undone, commit_then, Undone-commit_then, with_tx-Undone,
}
use fmon.Scanner.Scan.{scan_body, finish_scan, start_report, scan}
use fmon.Scanner.Stable.{Stable}
use fmon.Scanner.Stable.Plans.{Keeps-scan_body}

pub IsOpen-Stable : (before : Db) → Stable (IsOpen before) (IsRecoverable before)
IsOpen-Stable before = record {
  failing = λ w w' h s. recover_open before w' (s ∙ h);
  quiet = λ w w' h s t c a. s ∙ h;
  statement = λ w w' h s t c a. s ∙ h;
  changed = λ w w' c t h s d e a. s ∙ h;
  lost = λ w w' src t h s d e a. s ∙ h;
}

-- Whatever the file system, the database driver and a cancellation do, at any point: a scan that
-- returns an error has left the tables as they were before it.
pub scan-Undone :
    (full : Bool) (only : List Text) (env : Env) (w : World)
    → Undone w.tables (scan full only env w)
unfolding scan ask
scan-Undone full only env w =
    with_tx-Undone (commit_then finish_scan) (Undone-commit_then finish_scan) (scan_body full only)
      (λ before. Keeps-scan_body (IsOpen-Stable before) full only) env
      (start_report full (env.clock w.tick) (record w { tick = suc w.tick }))
