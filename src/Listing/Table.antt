-- ===== src/Listing/Table.antt =====
-- list.go: the list command. A line of the table is a constructor with its row.
use fmon.Base.{
  ℕ, ◌+◌, Bool, not, none, some, List, [], ◌∷◌, ◌++◌, map, ltb, if◌then◌else◌, ◌==◌, length,
  keep_if, any_of, Text, text_lt, nat_eq, text_equality,
}
use fmon.Base.Dict.{contains}
use fmon.Base.Int.{ℤ, pos, int_add, int_equality}
use fmon.Base.Sorting.{sort}
use fmon.Config.{Config}
use fmon.Db.Totals.{FileTotals}
use fmon.Exec.{
  is_dir, is_regular, is_special, FileInfo, Outcome, found, failed, OutputLine, no_sources_line,
  table_header_line, pending_hint_line, orphaned_hint_line, no_files_line, row_line, sources_line,
  exclude_line, file_line, Exec, pure, ask, gets, ◌>>=◌, ◌>>◌, put_line,
}
use fmon.Listing.Rows.{
  RowType, typ_of, unreadable_type, other_type, RowStatus, stored_status, status_pending,
  status_orphaned, SourceRow, human_bytes,
}
use fmon.Models.{source_file, source_folder, Source, FileState}
use fmon.Models.Hash.{hash_to_db, hash_from_db, wrap_int64}
use fmon.Paths.Clean.{clean}
use fmon.Queries.{list_sources, file_totals_by_source, file_states}
use fmon.Scanner.Plan.{normalize_path}

-- The map `inConfig`, by its keys.
unfoldable pub configured : List Text → List Text
unfolding contains clean
configured [] = []
configured (p ∷ sources) =
    let rest = configured sources in if contains (clean p) rest then rest else clean p ∷ rest

abbrev status_of : List Text → Source → RowStatus
status_of config s = if contains s.path config then stored_status s.status else status_orphaned

unfoldable pub source_row : List Text → (ℕ → FileTotals) → Source → SourceRow
unfolding contains human_bytes
source_row config totals s =
    let t = totals s.id in
    record {
      path = s.path;
      typ = typ_of s.typ;
      status = status_of config s;
      files = some t.files;
      size = some (human_bytes t.bytes);
      created = some s.created_at;
    }

abbrev pub pending_row : Text → RowType → SourceRow
pending_row p typ = record {
  path = p;
  typ = typ;
  status = status_pending;
  files = none;
  size = none;
  created = none;
}

-- The configured paths that the database does not have.
unfoldable pub pending_paths : List Text → List Source → List Text
unfolding contains
pending_paths config sources =
    keep_if (λ p. not (contains p (map (λ (s : Source). s.path) sources))) config

abbrev pub type_of : Outcome FileInfo → RowType
type_of (failed e) = unreadable_type
type_of (found info) = elim info.kind [
  | is_dir ↦ typ_of source_folder
  | is_regular ↦ typ_of source_file
  | is_special ↦ other_type
]

unfoldable pub guess_type : Text → Exec RowType
unfolding ask pure ◌>>=◌
guess_type p = do o ← ask (λ env n. env.lstat n p); pure (type_of o)

unfoldable pub pending_rows : List Text → Exec (List SourceRow)
unfolding guess_type pure ◌>>=◌
pending_rows [] = pure []
pending_rows (p ∷ paths) = do
  typ ← guess_type p
  rows ← pending_rows paths
  pure (pending_row p typ ∷ rows)

unfoldable pub print_lines : List OutputLine → Exec (Unit {0})
unfolding put_line pure ◌>>=◌
print_lines [] = pure tt
print_lines (l ∷ lines) = do put_line l; print_lines lines

-- `totalBytes += t.Bytes` in an int64.
unfoldable pub total_bytes : (ℕ → FileTotals) → ℤ → List Source → ℤ
unfolding int_add hash_to_db hash_from_db
total_bytes totals n [] = n
total_bytes totals n (s ∷ sources) =
    total_bytes totals (wrap_int64 (int_add n (totals s.id).bytes)) sources

unfoldable pub total_files : (ℕ → FileTotals) → List Source → ℕ
total_files totals [] = 0
total_files totals (s ∷ sources) = (totals s.id).files + total_files totals sources

abbrev is_orphaned : List Text → Source → Bool
is_orphaned config s = not (contains s.path config)

-- The lines of the table and those below it.
unfoldable pub table_lines :
    Config → (ℕ → FileTotals) → List Source → List SourceRow → List OutputLine
unfolding configured total_bytes total_files human_bytes pending_paths contains
table_lines cfg totals sources rows =
    let config = configured cfg.sources in
    table_header_line
    ∷ (map row_line (sort (λ (r q : SourceRow). text_lt r.path q.path) rows)
        ++ (sources_line (length rows) (total_files totals sources)
              (human_bytes (total_bytes totals (pos 0) sources))
            ∷ ((if ltb 0 (length cfg.exclude) then exclude_line cfg.exclude ∷ [] else [])
                ++ ((if ltb 0 (length (pending_paths config sources))
                      then pending_hint_line ∷ []
                      else [])
                    ++ (if any_of (is_orphaned config) sources
                        then orphaned_hint_line ∷ []
                        else [])))))

abbrev pub print_table : Config → (ℕ → FileTotals) → List Source → List SourceRow → Exec (Unit {0})
print_table cfg totals sources [] = put_line no_sources_line
print_table cfg totals sources (r ∷ rows) = print_lines (table_lines cfg totals sources (r ∷ rows))

unfoldable pub list_watched : Exec (Unit {0})
unfolding list_sources file_totals_by_source gets pending_rows configured pending_paths source_row
    put_line print_lines table_lines ◌>>=◌
list_watched = do
  sources ← list_sources
  totals ← file_totals_by_source
  cfg ← gets (λ w. w.cfg)
  let config = configured cfg.sources
  pending ← pending_rows (pending_paths config sources)
  print_table cfg totals sources (map (source_row config totals) sources ++ pending)

abbrev pub print_files : List FileState → Exec (Unit {0})
print_files [] = put_line no_files_line
print_files (s ∷ states) = print_lines (map file_line (s ∷ states))

unfoldable pub list_files : Text → Exec (Unit {0})
unfolding normalize_path file_states put_line print_lines pure ◌>>=◌
list_files path = do
  abs ← if path == [] then pure path else normalize_path path
  states ← file_states abs
  print_files states

-- `List`
unfoldable pub list : Bool → Text → Exec (Unit {0})
unfolding list_files list_watched
list files path = if files then list_files path else list_watched
