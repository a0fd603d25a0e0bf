-- ===== src/Listing/Reads.antt =====
-- list.go: the list command, and the state that it finds.
use fmon.Base.{
  ℕ, ◌≡◌, refl, ◌∙◌, Bool, Option, none, some, List, [], ◌∷◌, ◌++◌, arith, ◌==◌, Text, nat_eq,
  text_equality,
}
use fmon.Base.Int.{int_equality}
use fmon.Config.{Config}
use fmon.Db.{Db, select_sources}
use fmon.Db.Totals.{FileTotals, select_totals, select_file_states}
use fmon.Exec.{
  Error, no_absolute_path, Env, OutputLine, no_sources_line, no_files_line, World, Exec, pure,
  raise, ask, put_line,
}
use fmon.Exec.Keeps.{
  After, Keeps, Keeps-pure, Keeps-raise, Keeps-gets, Keeps-ask, Keeps-if, Keeps-sql, Keeps-modify,
  Keeps-bind,
}
use fmon.Exec.Tx.{sql}
use fmon.Listing.Rows.{SourceRow}
use fmon.Listing.Table.{
  configured, pending_row, pending_paths, type_of, guess_type, pending_rows, print_lines,
  print_table, list_watched, print_files, list_files, list,
}
use fmon.Models.{Source, FileState}
use fmon.Paths.{separator}
use fmon.Paths.Clean.{is_abs, clean}
use fmon.Queries.{reading, list_sources, file_totals_by_source, file_states}
use fmon.Scanner.Plan.{normalize_path}

-- The tables, the settings and their file, and the files that the program makes are the same.
abbrev pub Unchanged : World → World → Type 0
Unchanged before w =
    (w.tables ≡ before.tables)
    × (w.saved ≡ before.saved)
    × (w.cfg ≡ before.cfg)
    × (w.config_file ≡ before.config_file)
    × (w.created ≡ before.created)

module _ (before : World) where
  abbrev Quiet {ℓ} : {A : Type ℓ} → Exec A → Type ℓ
  Quiet m = Keeps (Unchanged before) (Unchanged before) m

  Quiet-ask {ℓ} : {A : Type ℓ} (g : Env → ℕ → A) → Quiet (ask g)
  Quiet-ask g = Keeps-ask g (λ w h. h)

  Quiet-raise {ℓ} : {A : Type ℓ} (e : Error) → Quiet (raise {A = A} e)
  Quiet-raise e = Keeps-raise e (λ w h. h)

  Quiet-put_line : (l : OutputLine) → Quiet (put_line l)
  unfolding put_line
  Quiet-put_line l = Keeps-modify _ (λ w h. h)

  -- A statement that leaves the tables as they are.
  Quiet-sql {ℓ} :
      {A : Type ℓ} (run : Db → Option (A × Db))
      → ((d : Db) (a : A) (e : Db) → run d ≡ some (a, e) → e ≡ d)
      → Quiet (sql run)
  Quiet-sql run same =
      Keeps-sql run (λ w h. h) (λ w a d h e. (same w.tables a d e ∙ h.0, h.1, h.2, h.3, h.4))

  Quiet-list_sources : Quiet list_sources
  unfolding list_sources
  Quiet-list_sources = Quiet-sql (reading select_sources) (λ d a e h. ground arith)

  Quiet-file_totals : Quiet file_totals_by_source
  unfolding file_totals_by_source select_totals
  Quiet-file_totals = Quiet-sql select_totals (λ d a e h. ground arith)

  Quiet-file_states : (p : Text) → Quiet (file_states p)
  unfolding file_states
  Quiet-file_states p = Quiet-sql (reading (select_file_states p)) (λ d a e h. ground arith)

  Quiet-normalize_path : (p : Text) → Quiet (normalize_path p)
  unfolding normalize_path
  Quiet-normalize_path p =
      Keeps-if (is_abs p) _ _ (λ _. Keeps-pure _)
        λ _. Keeps-bind _ _ (Quiet-ask (λ env n. env.working_dir n)) by_dir
    where
      by_dir :
          (wd : Option Text)
          → Keeps {0} {A = Text} (Unchanged before) (Unchanged before) (elim wd [
            | none ↦ raise (no_absolute_path p)
            | some c ↦ pure (clean (clean (c ++ separator ∷ p)))
          ])
      by_dir none = Quiet-raise (no_absolute_path p)
      by_dir (some c) = Keeps-pure _

  Quiet-print_lines : (ls : List OutputLine) → Quiet (print_lines ls)
  unfolding print_lines
  Quiet-print_lines [] = Keeps-pure tt
  Quiet-print_lines (l ∷ ls) = Keeps-bind _ _ (Quiet-put_line l) λ _. Quiet-print_lines ls

  Quiet-pending_rows : (ps : List Text) → Quiet (pending_rows ps)
  unfolding pending_rows guess_type
  Quiet-pending_rows [] = Keeps-pure []
  Quiet-pending_rows (p ∷ ps) =
      Keeps-bind _ _
        (Keeps-bind _ _ (Quiet-ask (λ env n. env.lstat n p)) λ o. Keeps-pure (type_of o))
        λ typ. Keeps-bind _ _ (Quiet-pending_rows ps) λ rows. Keeps-pure (pending_row p typ ∷ rows)

  Quiet-print_table :
      (cfg : Config) (totals : ℕ → FileTotals) (sources : List Source) (rows : List SourceRow)
      → Quiet (print_table cfg totals sources rows)
  Quiet-print_table cfg totals sources [] = Quiet-put_line no_sources_line
  Quiet-print_table cfg totals sources (r ∷ rows) = Quiet-print_lines _

  Quiet-print_files : (states : List FileState) → Quiet (print_files states)
  Quiet-print_files [] = Quiet-put_line no_files_line
  Quiet-print_files (s ∷ states) = Quiet-print_lines _

  Quiet-list_watched : Quiet list_watched
  unfolding list_watched
  Quiet-list_watched = Keeps-bind _ _ Quiet-list_sources λ sources.
      Keeps-bind _ _ Quiet-file_totals λ totals.
        Keeps-bind _ _ (Keeps-gets (λ (w : World). w.cfg)) λ cfg.
          Keeps-bind _ _ (Quiet-pending_rows (pending_paths (configured cfg.sources) sources))
            λ pending. Quiet-print_table cfg totals sources _

  Quiet-list_files : (p : Text) → Quiet (list_files p)
  unfolding list_files
  Quiet-list_files p =
      Keeps-bind _ _ (Keeps-if (p == []) _ _ (λ _. Keeps-pure p) (λ _. Quiet-normalize_path p))
        λ abs. Keeps-bind _ _ (Quiet-file_states abs) λ states. Quiet-print_files states

  pub Quiet-list : (files : Bool) (p : Text) → Quiet (list files p)
  unfolding list
  Quiet-list files p = Keeps-if files _ _ (λ _. Quiet-list_files p) (λ _. Quiet-list_watched)

-- Whether List succeeds or fails, the tables, the settings and the files are as they were.
pub list-Unchanged :
    (files : Bool) (p : Text) (env : Env) (w : World)
    → After (Unchanged w) (Unchanged w) (list files p env w)
list-Unchanged files p env w = (Quiet-list w files p).at env w (refl, refl, refl, refl, refl)
