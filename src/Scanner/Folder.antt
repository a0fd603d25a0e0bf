-- ===== src/Scanner/Folder.antt =====
-- scanner.go: the walk over a folder (filepath.WalkDir with its callback) and finishFolder.
use fmon.Base.{
  Bool, not, ◌&&◌, Option, none, some, List, [], ◌∷◌, ◌++◌, if◌then◌else◌, ◌==◌, keep_if, Text,
  text_lt, nat_eq, text_equality,
}
use fmon.Base.Dict.{lookup, keys, contains}
use fmon.Base.Int.{pos, int_equality}
use fmon.Base.Sorting.{sort}
use fmon.Exclude.{match_path}
use fmon.Exec.{
  FsError, EntryKind, is_dir, is_regular, is_special, FileInfo, Outcome, found, failed, Tree, dir,
  file, special, Entries, end, entry, SourceScan, log_pruned, ok, Exec, pure, ask, gets, ◌>>=◌,
  ◌>>◌, check_canceled, non_fatal, add_log, change_scan, is_not_exist, error_text,
}
use fmon.Models.{FileState}
use fmon.Paths.{prefix_of, under_any}
use fmon.Queries.{delete_file_state}
use fmon.Report.{cannot_read_directory, cannot_access, cannot_stat_entry}
use fmon.Scanner.File.{deleted_change, emit, mark_seen, check_file}

unfoldable pub excluded : List Text → Text → Exec Bool
excluded patterns p env w = (ok (match_path env.glob patterns p), w)

-- The path of an entry of a directory.
abbrev pub child_path : Text → Text → Text
child_path p name = prefix_of p ++ name

-- The callback's second call for a directory that could not be listed.
unfoldable pub report_listing : Text → Option FsError → Exec (Unit {0})
unfolding change_scan non_fatal ◌>>=◌ pure
report_listing p none = pure tt
report_listing p (some e) = do
  change_scan (λ sc. record sc { unreadable = sc.unreadable ++ p ∷ [] })
  non_fatal (cannot_read_directory p (error_text e))

-- `d.Info()` may find that the entry is no regular file any more.
unfoldable pub visit_info : EntryKind → Text → FileInfo → Exec (Unit {0})
unfolding check_file pure
visit_info is_regular p info = check_file p info
visit_info is_dir p info = pure tt
visit_info is_special p info = pure tt

-- The callback for a regular file that no pattern excludes: `d.Info()` and the check.
unfoldable pub visit_file : Text → Outcome FileInfo → Exec (Unit {0})
unfolding change_scan non_fatal ◌>>=◌ pure visit_info
visit_file p (failed e) =
    if is_not_exist e
    then pure tt
    else do change_scan (mark_seen p); non_fatal (cannot_stat_entry p (error_text e))
visit_file p (found info) = visit_info info.kind p info

-- WalkDir below one entry. The root is never skipped; a directory that a pattern excludes is
-- skipped with all below it; after a failed listing the entries that it gave are still visited.
unfoldable mutual
  pub walk_tree : List Text → Text → Text → Tree → Exec (Unit {0})
  walk_tree patterns root p (dir listing entries) = do
    check_canceled
    skip ← excluded patterns p
    if not (p == root) && skip
        then pure tt
        else do report_listing p listing; walk_entries patterns root p entries
  walk_tree patterns root p (file info) = do
    check_canceled
    skip ← excluded patterns p
    if skip then pure tt else visit_file p info
  walk_tree patterns root p special = check_canceled

  pub walk_entries : List Text → Text → Text → Entries → Exec (Unit {0})
  walk_entries patterns root p end = pure tt
  walk_entries patterns root p (entry name tree entries) = do
    walk_tree patterns root (child_path p name) tree
    walk_entries patterns root p entries

abbrev pub walk_from : List Text → Text → Outcome Tree → Exec (Unit {0})
walk_from patterns root (failed e) = non_fatal (cannot_access root (error_text e))
walk_from patterns root (found tree) = walk_tree patterns root root tree

unfoldable pub walk_folder : List Text → Text → Exec (Unit {0})
unfolding ask ◌>>=◌ walk_tree
walk_folder patterns root = do tree ← ask (λ env n. env.walk n root); walk_from patterns root tree

-- The stored files that the walk has not seen, in order.
unfoldable pub gone_files : SourceScan → List Text
gone_files sc = sort text_lt (keep_if (λ p. not (contains p sc.seen)) (keys sc.states))

abbrev zero_state : FileState
zero_state = record {
  id = 0;
  source_id = 0;
  path = [];
  hash = 0;
  size = pos 0;
  mod_time = pos 0;
  updated_at = pos 0;
}

-- `sc.states[p]`
abbrev pub stored_state : Text → SourceScan → FileState
stored_state p sc = elim (lookup p sc.states) [ none ↦ zero_state | some s ↦ s ]

-- The body of the loop over the files that are gone.
unfoldable pub finish_file : List Text → SourceScan → Text → Exec (Unit {0})
unfolding excluded add_log delete_file_state emit pure ◌>>=◌
finish_file patterns sc p = if under_any p sc.unreadable then pure tt else do
  skip ← excluded patterns p
  if skip then (do add_log (log_pruned p); delete_file_state p) else do
    if not sc.baseline then emit sc.src (deleted_change p (stored_state p sc)) else pure tt
    delete_file_state p

unfoldable pub finish_files : List Text → SourceScan → List Text → Exec (Unit {0})
unfolding finish_file ◌>>=◌
finish_files patterns sc [] = pure tt
finish_files patterns sc (p ∷ ps) = do finish_file patterns sc p; finish_files patterns sc ps

unfoldable pub finish_folder : List Text → Exec (Unit {0})
unfolding gets ◌>>=◌ finish_files gone_files
finish_folder patterns = do sc ← gets (λ w. w.sc); finish_files patterns sc (gone_files sc)
