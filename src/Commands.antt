-- ===== src/Commands.antt =====
-- commands.go: the commands that change what is watched, and those on the history. The lines that they
-- print are constructors with the values in them; Format has the text of a history line.
pub mod Open
pub mod Before
pub mod Undone
pub mod Format
pub mod Lines
mod Tests
use mathlib.Core.List.{reverse}
use fmon.Base.{
  ℕ, suc, Bool, true, false, not, ◌||◌, Option, none, some, List, [], ◌∷◌, ◌++◌, map, ltb,
  if◌then◌else◌, ◌==◌, length, Text, bytes, nat_eq, text_equality,
}
use fmon.Base.Int.{ℤ, pos, int_sub, int_equality}
use fmon.Config.{Config, add_source, remove_source, clear_sources}
use fmon.Exec.{
  Error, sql_error, not_watched, covered, no_access, not_watchable, save_failed, aborted,
  confirmation_required, no_confirmation, with_hint, is_dir, is_regular, is_special, FileInfo,
  Outcome, found, failed, Env, OutputLine, prompt_line, resolves_line, added_file_line,
  added_folder_line, skipped_line, removed_line, initialized_line, deleted_line, no_history_line,
  history_line, World, Result, ok, err, Exec, pure, raise, ask, gets, modify, ◌>>=◌, ◌>>◌, now,
  warnf, inform, infof, put_line, change_report,
}
use fmon.Exec.Atomic.{commit_then}
use fmon.Exec.Tx.{lower, contains_text, commit, with_tx}
use fmon.Models.{SourceType, source_file, source_folder, status_active, Source, HistoryEntry}
use fmon.Paths.{equal_path}
use fmon.Paths.Clean.{clean}
use fmon.Queries.{
  insert_source, list_sources, delete_source, query_history_entries, clear_history_log, has_data,
  reset_all,
}
use fmon.Report.{nothing_added, new_report}
use fmon.Scanner.Plan.{find_conflict, normalize_path, resolve_watched_source}
use fmon.Scanner.Source.{scan_source}

-- ---- confirm --------------------------------------------------------------------

abbrev lower_case : Text → Text
lower_case t = map lower t

abbrev pub says_yes : Text → Bool
says_yes t = let ans = lower_case t in ans == bytes "y" || ans == bytes "yes"

unfoldable pub confirm : Bool → Exec Bool
unfolding ask put_line pure raise ◌>>=◌
confirm assume_yes = if assume_yes then pure true else do
  terminal ← ask (λ env n. env.is_terminal n)
  if terminal
      then (do
        put_line prompt_line
        trim ← ask (λ env n. env.trim_space)
        line ← ask (λ env n. env.read_line n)
        elim line [ none ↦ raise no_confirmation | some l ↦ pure (says_yes (trim l)) ])
      else raise confirmation_required

-- ---- fmon.toml ----------------------------------------------------------------------

-- Save: the file is replaced as a whole, or it stays and the error is returned.
unfoldable pub save : Exec (Option Text)
unfolding ask modify pure ◌>>=◌
save = do
  fault ← ask (λ env n. env.save_fault n)
  elim fault [
    | some m ↦ pure (some m)
    | none ↦ (do modify (λ w. record w { config_file = w.cfg }); pure none)
  ]

abbrev change_config : (Config → Config) → Exec (Unit {0})
change_config f = modify λ w. record w { cfg = f w.cfg }

-- `if err := Save(); err != nil { undo; return err }`
abbrev pub save_or : (Config → Config) → Exec (Unit {0})
save_or undo = do
  fault ← save
  elim fault [ none ↦ pure tt | some m ↦ (do change_config undo; raise (save_failed m)) ]

abbrev unchanged : Config → Config
unchanged c = c

-- ---- Init ---------------------------------------------------------------------------

unfoldable pub init_body : Exec (Unit {0})
unfolding reset_all modify save raise pure clear_sources ◌>>=◌
init_body = do reset_all; change_config clear_sources; save_or unchanged

abbrev pub finish_init : Unit {0} → Env → World → Unit {0} × World
finish_init _ env w = (tt, inform initialized_line w)

unfoldable pub consent : Bool → Bool → Exec (Unit {0})
unfolding confirm raise pure ◌>>=◌
consent needed assume_yes =
    if needed
    then (do agreed ← confirm assume_yes; if agreed then pure tt else raise aborted)
    else pure tt

unfoldable pub init : Bool → Exec (Unit {0})
unfolding has_data gets consent with_tx init_body commit ◌>>=◌
init assume_yes = do
  has ← has_data
  sources ← gets (λ w. w.cfg.sources)
  consent (has || ltb 0 (length sources)) assume_yes
  with_tx (init_body >>= commit_then finish_init)

-- ---- Add ----------------------------------------------------------------------------

-- The baseline of a new source.
unfoldable pub index_source : Text → SourceType → Exec (Unit {0})
unfolding now insert_source gets change_report scan_source ◌>>=◌
index_source p typ = do
  t ← now
  id ← insert_source p typ t
  time ← now
  host ← gets (λ w. w.hostname)
  change_report (λ r. new_report time host false)
  patterns ← gets (λ w. w.cfg.exclude)
  scan_source (record { id = id; path = p; typ = typ; status = status_active; created_at = pos 0 })
      patterns true false

unfoldable pub save_source : Text → Exec (Unit {0})
unfolding modify save raise pure ◌>>=◌
save_source p = do change_config (add_source p); save_or (remove_source p)

-- What follows the loop over the known paths; `false` means that nothing was added.
unfoldable pub add_unless : Text → SourceType → Option Text → Exec Bool
unfolding warnf index_source save_source pure ◌>>=◌
add_unless p typ (some other) = do warnf (nothing_added p other); pure false
add_unless p typ none = do index_source p typ; save_source p; pure true

unfoldable pub add_body : Text → SourceType → Exec Bool
unfolding list_sources gets find_conflict add_unless ◌>>=◌
add_body p typ = do
  existing ← list_sources
  sources ← gets (λ w. w.cfg.sources)
  add_unless p typ (find_conflict p (sources ++ map (λ (s : Source). s.path) existing))

abbrev added_line : Text → SourceType → ℕ → ℤ → OutputLine
added_line p source_file n d = added_file_line p d
added_line p source_folder n d = added_folder_line p n d

abbrev pub finish_add : ℤ → Text → SourceType → Unit {0} → Env → World → Unit {0} × World
finish_add started p typ _ env w =
    let w' =
      inform (added_line p typ w.rep.files_scanned (int_sub (env.clock w.tick) started))
        (record w { tick = suc w.tick }) in
    let skipped = length w.rep.errors in
    (tt, if ltb 0 skipped then inform (skipped_line skipped) w' else w')

-- An overlapping path returns before the commit, and the deferred rollback ends the transaction.
unfoldable pub end_add : ℤ → Text → SourceType → Bool → Exec (Unit {0})
unfolding commit pure ◌>>=◌
end_add started p typ false = pure tt
end_add started p typ true = commit_then (finish_add started p typ) tt

unfoldable pub add_as : ℤ → Text → SourceType → Exec (Unit {0})
unfolding with_tx add_body end_add ◌>>=◌
add_as started p typ = with_tx (add_body p typ >>= end_add started p typ)

unfoldable pub add_stat : ℤ → Text → Outcome FileInfo → Exec (Unit {0})
unfolding raise add_as
add_stat started p (failed e) = raise (no_access p)
add_stat started p (found info) = elim info.kind [
  | is_dir ↦ add_as started p source_folder
  | is_regular ↦ add_as started p source_file
  | is_special ↦ raise (not_watchable p)
]

unfoldable pub add_resolved : ℤ → Text → Option Text → Exec (Unit {0})
unfolding infof pure raise ask add_stat ◌>>=◌
add_resolved started abs none = raise (no_access abs)
add_resolved started abs (some link) = do
  let p = clean link
  if not (equal_path p abs) then infof (resolves_line abs p) else pure tt
  info ← ask (λ env n. env.stat n p)
  add_stat started p info

unfoldable pub add : Text → Exec (Unit {0})
unfolding now normalize_path ask add_resolved ◌>>=◌
add arg = do
  started ← now
  abs ← normalize_path arg
  link ← ask (λ env n. env.eval_symlinks n abs)
  add_resolved started abs link

-- ---- Remove -------------------------------------------------------------------------

-- `strings.Contains(err.Error(), "covered by")`: the texts that can contain it are a quoted path and
-- the message of the database driver.
unfoldable pub mentions_cover : Error → Bool
unfolding contains_text
mentions_cover (covered p q) = true
mentions_cover (not_watched p) = contains_text p (bytes "covered by")
mentions_cover (sql_error m) = contains_text m (bytes "covered by")
mentions_cover e = false

-- resolveWatchedSource, and the hint for its error. With an error the target is the empty text.
unfoldable pub hinted : Result Text × World → Result Text × World
unfolding mentions_cover
hinted (ok target, w) = (ok target, w)
hinted (err e, w) = (err (if mentions_cover e then with_hint e [] else e), w)

unfoldable pub resolve_target : Text → Exec Text
unfolding resolve_watched_source gets hinted ◌>>=◌
resolve_target arg env w =
    hinted ((gets (λ w. w.cfg.sources) >>= λ sources. resolve_watched_source sources arg) env w)

-- The first row with the path is deleted.
unfoldable pub delete_target : Text → List Source → Exec (Unit {0})
unfolding delete_source pure
delete_target target [] = pure tt
delete_target target (s ∷ sources) =
    let rest = delete_target target sources in if s.path == target then delete_source s.id else rest

unfoldable pub remove_body : Text → Exec Text
unfolding resolve_target list_sources delete_target modify save raise pure ◌>>=◌
remove_body arg = do
  target ← resolve_target arg
  sources ← list_sources
  delete_target target sources
  change_config (remove_source target)
  save_or unchanged
  pure target

abbrev pub finish_remove : Text → Env → World → Unit {0} × World
finish_remove target env w = (tt, inform (removed_line target) w)

unfoldable pub remove : Text → Exec (Unit {0})
unfolding with_tx remove_body commit ◌>>=◌
remove arg = with_tx (remove_body arg >>= commit_then finish_remove)

-- ---- History --------------------------------------------------------------------------

abbrev query_path : Text → Exec Text
query_path path = if path == [] then pure path else normalize_path path

-- The loop from the last entry to the first.
unfoldable pub print_entries : List HistoryEntry → Exec (Unit {0})
unfolding put_line pure ◌>>=◌
print_entries [] = pure tt
print_entries (e ∷ entries) = do put_line (history_line e); print_entries entries

unfoldable pub history : Text → ℤ → Exec (Unit {0})
unfolding normalize_path query_history_entries put_line print_entries pure ◌>>=◌
history path limit = do
  abs ← query_path path
  entries ← query_history_entries abs limit
  elim entries [ [] ↦ put_line no_history_line | e ∷ es ↦ print_entries (reverse (e ∷ es)) ]

abbrev pub finish_clear : ℕ → Env → World → Unit {0} × World
finish_clear n env w = (tt, inform (deleted_line n) w)

unfoldable pub clear_history : Text → Exec (Unit {0})
unfolding with_tx clear_history_log commit ◌>>=◌
clear_history path = with_tx (clear_history_log path >>= commit_then finish_clear)

unfoldable pub clear_history_path : Text → Exec (Unit {0})
unfolding normalize_path clear_history ◌>>=◌
clear_history_path path = do abs ← normalize_path path; clear_history abs

unfoldable pub clear_history_all : Exec (Unit {0})
unfolding clear_history
clear_history_all = clear_history []
