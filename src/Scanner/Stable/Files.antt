-- ===== src/Scanner/Stable/Files.antt =====
-- One file, one folder and one source.
use fmon.Base.{ℕ, ◌≡◌, refl, Bool, Option, none, some, List, [], ◌∷◌, Text}
use fmon.Base.Int.{ℤ}
use fmon.Exec.{
  FsError, EntryKind, is_dir, is_regular, is_special, FileInfo, Outcome, found, failed, Tree, dir,
  file, special, Entries, end, entry, Env, SourceScan, log_alert, World, ◌>>=◌, ◌>>◌, add_log,
  change_report, change_scan,
}
use fmon.Exec.Keeps.{After, Keeps, Keeps-pure, Keeps-if, Keeps-bind}
use fmon.Exec.Tx.{sql}
use fmon.Models.{
  SourceType, source_file, source_folder, SourceStatus, status_active, status_missing, Source,
  FileState,
}
use fmon.Queries.{insert_history}
use fmon.Report.{alert_deleted}
use fmon.Scanner.File.{
  report_hashed, count_hashed, count_scanned, mark_seen, after_hash, check_file,
}
use fmon.Scanner.Folder.{
  excluded, child_path, report_listing, visit_info, visit_file, walk_tree, walk_entries, walk_from,
  walk_folder, finish_file, finish_files, finish_folder,
}
use fmon.Scanner.Source.{
  add_alert, root_entry, missing_by_status, handle_missing, mark_back, scan_contents, scan_present,
  after_lstat, scan_source,
}
use fmon.Scanner.Stable.{Stable}
use fmon.Scanner.Stable.Actions.{
  Keeps-check_canceled, Keeps-now, Keeps-warnf, Keeps-non_fatal, Keeps-change_scan,
  Keeps-change_report, Keeps-set_source_status, action_rules,
}

module _ {P E : World → Type 0} (S : Stable P E) where
  Keeps-count_hashed : Keeps P E (change_report count_hashed)
  Keeps-count_hashed = Keeps-change_report S _ (λ r. refl) (λ r. refl)

  Keeps-count_scanned : Keeps P E (change_report count_scanned)
  Keeps-count_scanned = Keeps-change_report S _ (λ r. refl) (λ r. refl)

  Keeps-mark_seen : (p : Text) → Keeps P E (change_scan (mark_seen p))
  Keeps-mark_seen p = Keeps-change_scan S _

  pub Keeps-report_hashed :
      (src : Source) (baseline : Bool) (p : Text) (info : FileInfo) (sum : ℕ)
      (old : Option FileState)
      → Keeps P E (report_hashed src baseline p info sum old)
  unfolding report_hashed
  Keeps-report_hashed src baseline p info sum none = search (action_rules)
  Keeps-report_hashed src baseline p info sum (some old) = search (action_rules)

  pub Keeps-after_hash :
      (sc : SourceScan) (p : Text) (info : FileInfo) (sum : Outcome ℕ)
      → Keeps P E (after_hash sc p info sum)
  unfolding after_hash
  Keeps-after_hash sc p info (failed e) = search (action_rules)
  Keeps-after_hash sc p info (found sum) =
      search (action_rules, Keeps-count_hashed, Keeps-report_hashed) depth 9

  pub Keeps-check_file : (p : Text) (info : FileInfo) → Keeps P E (check_file p info)
  unfolding check_file
  Keeps-check_file p info =
      search (action_rules, Keeps-mark_seen, Keeps-count_scanned, Keeps-after_hash) depth 9

  pub Keeps-excluded : (patterns : List Text) (p : Text) → Keeps P E (excluded patterns p)
  unfolding excluded
  Keeps-excluded patterns p = record { at = λ env w h. h }

  Keeps-report_listing : (p : Text) (e : Option FsError) → Keeps P E (report_listing p e)
  unfolding report_listing
  Keeps-report_listing p none = search (action_rules)
  Keeps-report_listing p (some e) = search (action_rules)

  Keeps-visit_info : (k : EntryKind) (p : Text) (info : FileInfo) → Keeps P E (visit_info k p info)
  unfolding visit_info
  Keeps-visit_info is_regular p info = Keeps-check_file p info
  Keeps-visit_info is_dir p info = Keeps-pure tt
  Keeps-visit_info is_special p info = Keeps-pure tt

  Keeps-visit_file : (p : Text) (info : Outcome FileInfo) → Keeps P E (visit_file p info)
  unfolding visit_file
  Keeps-visit_file p (failed e) = search (action_rules)
  Keeps-visit_file p (found info) = Keeps-visit_info info.kind p info

  mutual
    unfolding walk_tree

    Keeps-walk_tree :
        (t : Tree) (patterns : List Text) (root p : Text) → Keeps P E (walk_tree patterns root p t)
    Keeps-walk_tree (dir listing es) patterns root p = Keeps-bind _ _ (Keeps-check_canceled S) λ _.
        Keeps-bind _ _ (Keeps-excluded patterns p) λ skip.
          Keeps-if _ _ _ (λ _. Keeps-pure tt)
            λ _.
              Keeps-bind _ _ (Keeps-report_listing p listing)
                λ _. Keeps-walk_entries es patterns root p
    Keeps-walk_tree (file info) patterns root p =
        search (action_rules, Keeps-excluded, Keeps-visit_file)
    Keeps-walk_tree special patterns root p = Keeps-check_canceled S

    Keeps-walk_entries :
        (es : Entries) (patterns : List Text) (root p : Text)
        → Keeps P E (walk_entries patterns root p es)
    Keeps-walk_entries end patterns root p = Keeps-pure tt
    Keeps-walk_entries (entry name t es) patterns root p =
        Keeps-bind _ _ (Keeps-walk_tree t patterns root (child_path p name))
          λ _. Keeps-walk_entries es patterns root p

  Keeps-walk_from :
      (patterns : List Text) (root : Text) (t : Outcome Tree)
      → Keeps P E (walk_from patterns root t)
  Keeps-walk_from patterns root (failed e) = Keeps-non_fatal S _
  Keeps-walk_from patterns root (found t) = Keeps-walk_tree t patterns root root

  Keeps-walk_folder : (patterns : List Text) (root : Text) → Keeps P E (walk_folder patterns root)
  unfolding walk_folder
  Keeps-walk_folder patterns root = search (action_rules, Keeps-walk_from)

  Keeps-finish_file :
      (patterns : List Text) (sc : SourceScan) (p : Text) → Keeps P E (finish_file patterns sc p)
  unfolding finish_file
  Keeps-finish_file patterns sc p = search (action_rules, Keeps-excluded) depth 9

  Keeps-finish_files :
      (patterns : List Text) (sc : SourceScan) (ps : List Text)
      → Keeps P E (finish_files patterns sc ps)
  unfolding finish_files
  Keeps-finish_files patterns sc [] = Keeps-pure tt
  Keeps-finish_files patterns sc (p ∷ ps) =
      Keeps-bind _ _ (Keeps-finish_file patterns sc p) λ _. Keeps-finish_files patterns sc ps

  Keeps-finish_folder : (patterns : List Text) → Keeps P E (finish_folder patterns)
  unfolding finish_folder
  Keeps-finish_folder patterns = search (action_rules, Keeps-finish_files)

  -- The record, the alert and the log line of a root that is gone are one step.
  Keeps-lost :
      (src : Source) (t : ℤ)
      → let alert = alert_deleted src.typ src.path in
        Keeps P E (
          insert_history (root_entry src t)
          >> (change_report (add_alert alert) >> add_log (log_alert alert)))
  Keeps-lost src t = record { at = λ env w h. by_fault env w h (env.sql_fault w.tick) refl }
    where
      by_fault :
          (env : Env) (w : World)
          → P w
          → (f : Option Text) → env.sql_fault w.tick ≡ f
          → let alert = alert_deleted src.typ src.path in
            After P E (
              (insert_history (root_entry src t)
                  >> (change_report (add_alert alert) >> add_log (log_alert alert)))
                env w)
      by_fault env w h (some m) e =
          unfold insert_history change_report add_log ◌>>=◌ in rw (e, sql) (S.failing w _ h refl)
      by_fault env w h none e =
          unfold insert_history change_report add_log ◌>>=◌ in
          rw (e, sql) (S.lost w _ src t h refl refl refl refl)

  Keeps-missing_by_status :
      (st : SourceStatus) (src : Source) → Keeps P E (missing_by_status st src)
  unfolding missing_by_status
  Keeps-missing_by_status status_missing src = Keeps-warnf S _
  Keeps-missing_by_status status_active src =
      Keeps-bind _ _ (Keeps-set_source_status S _ _)
        λ _. Keeps-bind _ _ (Keeps-now S) λ t. Keeps-lost src t

  Keeps-handle_missing : (src : Source) → Keeps P E (handle_missing src)
  unfolding handle_missing
  Keeps-handle_missing src =
      Keeps-bind _ _ (Keeps-change_report S _ (λ r. refl) (λ r. refl))
        λ _. Keeps-missing_by_status src.status src

  Keeps-mark_back : (st : SourceStatus) (src : Source) → Keeps P E (mark_back st src)
  unfolding mark_back
  Keeps-mark_back status_active src = Keeps-pure tt
  Keeps-mark_back status_missing src =
      Keeps-bind _ _ (Keeps-set_source_status S _ _)
        λ _. Keeps-change_report S _ (λ r. refl) (λ r. refl)

  Keeps-scan_contents :
      (typ : SourceType) (patterns : List Text) (p : Text) (info : FileInfo)
      → Keeps P E (scan_contents typ patterns p info)
  unfolding scan_contents
  Keeps-scan_contents source_file patterns p info = Keeps-check_file p info
  Keeps-scan_contents source_folder patterns p info =
      search (action_rules, Keeps-walk_folder, Keeps-finish_folder)

  Keeps-scan_present :
      (src : Source) (patterns : List Text) (baseline full : Bool) (info : FileInfo)
      → Keeps P E (scan_present src patterns baseline full info)
  unfolding scan_present
  Keeps-scan_present src patterns baseline full info =
      search (action_rules, Keeps-mark_back, Keeps-scan_contents) depth 9

  Keeps-after_lstat :
      (src : Source) (patterns : List Text) (baseline full : Bool) (info : Outcome FileInfo)
      → Keeps P E (after_lstat src patterns baseline full info)
  unfolding after_lstat
  Keeps-after_lstat src patterns baseline full (failed e) =
      search (action_rules, Keeps-handle_missing)
  Keeps-after_lstat src patterns baseline full (found info) =
      Keeps-scan_present src patterns baseline full info

  pub Keeps-scan_source :
      (src : Source) (patterns : List Text) (baseline full : Bool)
      → Keeps P E (scan_source src patterns baseline full)
  unfolding scan_source
  Keeps-scan_source src patterns baseline full = search (action_rules, Keeps-after_lstat)
