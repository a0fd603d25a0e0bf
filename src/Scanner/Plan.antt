-- ===== src/Scanner/Plan.antt =====
-- scanner.go: reconcile and filterPlanned; commands.go: resolveWatchedSource; paths.go:
-- normalizePath.
use fmon.Base.{
  Bool, true, false, not, Option, none, some, List, [], ◌∷◌, ◌++◌, map, if◌then◌else◌, Text,
  text_lt,
}
use fmon.Base.Dict.{Dict, lookup, insert, contains}
use fmon.Base.Int.{ℤ, pos}
use fmon.Base.Sorting.{sort}
use fmon.Exec.{
  no_absolute_path, not_watched, covered, not_planned, is_dir, is_regular, is_special, FileInfo,
  Outcome, found, failed, log_removed, log_baselining, Exec, pure, raise, ask, gets, ◌>>=◌, ◌>>◌,
  now, warnf, non_fatal, add_log, is_not_exist, error_text,
}
use fmon.Models.{SourceType, source_file, source_folder, status_active, Source}
use fmon.Paths.{separator, equal_path, within, overlaps}
use fmon.Paths.Clean.{is_abs, clean}
use fmon.Queries.{insert_source, list_sources, delete_source}
use fmon.Report.{not_absolute, overlapping, configured_missing, configured_stat, configured_special}

pub record PlannedSource : Type 0 where
  pub src : Source
  pub baseline : Bool

-- ---- reconcile ----------------------------------------------------------------

-- The body of the loop over the configured paths. `seen` holds the paths of `configured`.
unfoldable pub normalize_source : Text → List Text → Exec (List Text)
unfolding warnf pure ◌>>=◌
normalize_source p configured =
    let np = clean p in
    if not (is_abs np)
    then (do warnf (not_absolute p); pure configured)
    else pure (if contains np configured then configured else configured ++ np ∷ [])

unfoldable pub normalize_sources : List Text → List Text → Exec (List Text)
unfolding normalize_source
normalize_sources [] configured = pure configured
normalize_sources (p ∷ ps) configured = do
  configured' ← normalize_source p configured
  normalize_sources ps configured'

-- The first accepted path that overlaps.
unfoldable pub find_conflict : Text → List Text → Option Text
find_conflict p [] = none
find_conflict p (q ∷ accepted) =
    let rest = find_conflict p accepted in if overlaps p q then some q else rest

unfoldable pub accept_source : Text → List Text → Exec (List Text)
unfolding find_conflict warnf pure ◌>>=◌
accept_source p accepted = elim (find_conflict p accepted) [
  | some q ↦ (do warnf (overlapping p q); pure accepted)
  | none ↦ pure (accepted ++ p ∷ [])
]

unfoldable pub accept_sources : List Text → List Text → Exec (List Text)
unfolding accept_source
accept_sources [] accepted = pure accepted
accept_sources (p ∷ ps) accepted = do
  accepted' ← accept_source p accepted
  accept_sources ps accepted'

-- A source of the database that is no longer accepted is deleted.
unfoldable pub drop_source : List Text → Source → Exec (Unit {0})
unfolding delete_source add_log pure ◌>>=◌
drop_source keep s =
    if not (contains s.path keep)
    then (do delete_source s.id; add_log (log_removed s.path))
    else pure tt

unfoldable pub drop_sources : List Text → List Source → Exec (Unit {0})
unfolding drop_source
drop_sources keep [] = pure tt
drop_sources keep (s ∷ sources) = do drop_source keep s; drop_sources keep sources

-- `byPath`
unfoldable pub index_sources : List Source → Dict Source → Dict Source
index_sources [] m = m
index_sources (s ∷ sources) m = index_sources sources (insert s.path s m)

-- The zero value of CreatedAt, which the plan never reads.
abbrev zero_time : ℤ
zero_time = pos 0

unfoldable pub insert_planned : Text → SourceType → Exec (Option PlannedSource)
unfolding now insert_source add_log pure ◌>>=◌
insert_planned p typ = do
  t ← now
  id ← insert_source p typ t
  add_log (log_baselining p typ)
  pure (
      some (record {
        src = record {
          id = id;
          path = p;
          typ = typ;
          status = status_active;
          created_at = zero_time;
        };
        baseline = true;
      }))

-- A path of fmon.toml that the database does not know.
unfoldable pub plan_unknown : Text → Outcome FileInfo → Exec (Option PlannedSource)
unfolding warnf non_fatal insert_planned pure ◌>>=◌
plan_unknown p (failed e) = do
  if is_not_exist e
      then warnf (configured_missing p)
      else non_fatal (configured_stat p (error_text e))
  pure none
plan_unknown p (found info) = elim info.kind [
  | is_dir ↦ insert_planned p source_folder
  | is_regular ↦ insert_planned p source_file
  | is_special ↦ (do non_fatal (configured_special p); pure none)
]

unfoldable pub plan_source : Dict Source → Text → Exec (Option PlannedSource)
unfolding ask plan_unknown pure ◌>>=◌
plan_source by_path p = elim (lookup p by_path) [
  | some s ↦ pure (some (record { src = s; baseline = false }))
  | none ↦ (do info ← ask (λ env n. env.lstat n p); plan_unknown p info)
]

abbrev pub push_planned : Option PlannedSource → List PlannedSource → List PlannedSource
push_planned none out = out
push_planned (some ps) out = out ++ ps ∷ []

unfoldable pub plan_sources :
    Dict Source → List Text → List PlannedSource → Exec (List PlannedSource)
unfolding plan_source
plan_sources by_path [] out = pure out
plan_sources by_path (p ∷ ps) out = do
  planned ← plan_source by_path p
  plan_sources by_path ps (push_planned planned out)

-- The sources of fmon.toml to watch: normalized, without doubles, sorted, without overlaps.
unfoldable pub accept_configured : List Text → Exec (List Text)
unfolding normalize_sources accept_sources ◌>>=◌
accept_configured cfg_sources = do
  configured ← normalize_sources cfg_sources []
  accept_sources (sort text_lt configured) []

unfoldable pub reconcile : Exec (List PlannedSource)
unfolding list_sources gets accept_configured drop_sources plan_sources ◌>>=◌
reconcile = do
  db_sources ← list_sources
  cfg_sources ← gets (λ w. w.cfg.sources)
  accepted ← accept_configured cfg_sources
  drop_sources accepted db_sources
  plan_sources (index_sources db_sources []) accepted []

-- ---- resolveWatchedSource ---------------------------------------------------

-- filepath.Abs, then filepath.Clean.
unfoldable pub normalize_path : Text → Exec Text
unfolding ask pure raise ◌>>=◌
normalize_path p = if is_abs p then pure (clean (clean p)) else do
  wd ← ask (λ env n. env.working_dir n)
  elim wd [ none ↦ raise (no_absolute_path p) | some d ↦ pure (clean (clean (d ++ separator ∷ p))) ]

-- The given path, and its form without symbolic links where that is another path.
abbrev pub candidate_paths : Text → Option Text → List Text
candidate_paths abs none = abs ∷ []
candidate_paths abs (some r) =
    if not (equal_path (clean r) abs) then abs ∷ clean r ∷ [] else abs ∷ []

unfoldable pub find_equal : Text → List Text → Option Text
find_equal c [] = none
find_equal c (p ∷ paths) = let rest = find_equal c paths in if equal_path c p then some p else rest

unfoldable pub find_watched : List Text → List Text → Option Text
unfolding find_equal
find_watched [] paths = none
find_watched (c ∷ candidates) paths =
    let rest = find_watched candidates paths in
    elim (find_equal c paths) [ some p ↦ some p | none ↦ rest ]

unfoldable pub find_cover : Text → List Text → Option Text
find_cover p [] = none
find_cover p (q ∷ paths) = let rest = find_cover p paths in if within p q then some q else rest

unfoldable pub resolved : Text → List Text → List Text → Exec Text
unfolding find_watched find_cover raise pure
resolved abs candidates watched = elim (find_watched candidates watched) [
  | some p ↦ pure p
  | none ↦ elim (find_cover abs watched) [
    | some q ↦ raise (covered abs q)
    | none ↦ raise (not_watched abs)
  ]
]

unfoldable pub resolve_watched_source : List Text → Text → Exec Text
unfolding normalize_path ask list_sources resolved ◌>>=◌
resolve_watched_source cfg_sources arg = do
  abs ← normalize_path arg
  link ← ask (λ env n. env.eval_symlinks n abs)
  sources ← list_sources
  resolved abs (candidate_paths abs link) (cfg_sources ++ map (λ (s : Source). s.path) sources)

-- ---- filterPlanned ------------------------------------------------------------

unfoldable pub index_planned : List PlannedSource → Dict PlannedSource → Dict PlannedSource
index_planned [] m = m
index_planned (ps ∷ planned) m = index_planned planned (insert ps.src.path ps m)

-- The body of the loop over the arguments, with `seen` and `out`.
unfoldable pub filter_target :
    Dict PlannedSource
    → Text
    → List Text × List PlannedSource
    → Exec (List Text × List PlannedSource)
unfolding pure raise
filter_target by_path target (seen, out) =
    if contains target seen then pure (seen, out) else elim (lookup target by_path) [
      | none ↦ raise (not_planned target)
      | some ps ↦ pure (target ∷ seen, out ++ ps ∷ [])
    ]

unfoldable pub filter_args :
    Dict PlannedSource
    → List Text
    → List Text
    → List Text × List PlannedSource
    → Exec (List PlannedSource)
unfolding resolve_watched_source filter_target ◌>>=◌
filter_args by_path cfg_sources [] (seen, out) = pure out
filter_args by_path cfg_sources (arg ∷ args) state = do
  target ← resolve_watched_source cfg_sources arg
  state' ← filter_target by_path target state
  filter_args by_path cfg_sources args state'

unfoldable pub filter_planned : List PlannedSource → List Text → Exec (List PlannedSource)
unfolding gets filter_args index_planned ◌>>=◌
filter_planned planned only = do
  cfg_sources ← gets (λ w. w.cfg.sources)
  filter_args (index_planned planned []) cfg_sources only ([], [])
