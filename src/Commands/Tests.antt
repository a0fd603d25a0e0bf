-- ===== src/Commands/Tests.antt =====
-- The commands on a small machine.
use fmon.Base.{
  ◌≡◌, refl, true, false, Option, none, some, [], ◌∷◌, ◌++◌, map, length, bytes, text_eq,
}
use fmon.Base.Int.{pos}
use fmon.Base.Sorting.{sort}
use fmon.Commands.{init, add, hinted, remove, clear_history}
use fmon.Commands.Format.{format_history}
use fmon.Commands.Lines.{split_lines-format_history}
use fmon.Commands.Undone.{commands-Undone}
use fmon.Config.{default_config, remove_source}
use fmon.Db.{
  select_sources, has_rows, delete_history_rows, delete_file_rows, delete_source_rows,
  delete_meta_rows,
}
use fmon.Exec.{
  Error, covered, save_failed, confirmation_required, with_hint, Env, World, Result, ok, err,
}
use fmon.Exec.Atomic.{Undone}
use fmon.Models.{event_added, HistoryEntry}
use fmon.Notify.{split_lines}
use fmon.Notify.Render.{write_lines}
use fmon.Notify.Render.Plain.{plain_formats, plain_formats-IsPlain}
use fmon.Paths.{equal_path}
use fmon.Paths.Clean.{is_abs, clean}
use fmon.Scanner.Machine.{quiet_env, tables, world}

-- The machine with a fmon.toml that cannot be written.
abbrev read_only_env : Env
read_only_env = record quiet_env { save_fault = λ n. some (bytes "permission denied") }

abbrev error_of {ℓ} : {A : Type ℓ} → Result A × World → Option Error
error_of (ok a, w) = none
error_of (err e, w) = some e

covered_hint :
    error_of (hinted (err (covered (bytes "/d/x") (bytes "/d")), world))
    ≡ some (with_hint (covered (bytes "/d/x") (bytes "/d")) [])
unfolding hinted
covered_hint = refl

declined : error_of (init false quiet_env world) ≡ some confirmation_required
unfolding init has_rows
declined = refl

not_saved :
    error_of (init true read_only_env world) ≡ some (save_failed (bytes "permission denied"))
unfolding init has_rows delete_history_rows delete_file_rows delete_source_rows delete_meta_rows
not_saved = refl

initialized : (init true quiet_env world).1.config_file.sources ≡ []
unfolding init has_rows delete_history_rows delete_file_rows delete_source_rows delete_meta_rows
initialized = refl

commands-Undone_example :
    Undone tables (add (bytes "/f") read_only_env world)
    × Undone tables (remove (bytes "/f") read_only_env world)
    × Undone tables (init true read_only_env world)
    × Undone tables (clear_history [] read_only_env world)
commands-Undone_example = commands-Undone (bytes "/f") [] true read_only_env world

-- The settings list a folder with a trailing separator, as a user may write it.
abbrev slashed : World
slashed = record world {
  cfg = record default_config { sources = bytes "/f/" ∷ [] };
  config_file = record default_config { sources = bytes "/f/" ∷ [] };
}

-- `fmon rm /f` says that it removed the source, and fmon.toml still lists it.
still_listed :
    ((remove (bytes "/f") quiet_env slashed).0 ≡ ok tt)
    × ((remove (bytes "/f") quiet_env slashed).1.config_file.sources ≡ bytes "/f/" ∷ [])
unfolding remove is_abs equal_path text_eq clean select_sources sort remove_source
still_listed = (refl, refl)

abbrev added : HistoryEntry
added = record {
  id = 1;
  path = bytes "/d/a\n2024-05-01T00:00:00Z  DELETED   /d/b";
  event = event_added;
  old_hash = none;
  new_hash = some 7;
  old_size = none;
  new_size = some (pos 3);
  timestamp = pos 5;
}

split_lines-format_history_example :
    (split_lines (write_lines (map (format_history plain_formats) (added ∷ [])))
      ≡ map (format_history plain_formats) (added ∷ []) ++ [] ∷ [])
    × (length (split_lines (write_lines (map (format_history plain_formats) (added ∷ [])))) ≡ 2)
split_lines-format_history_example =
    split_lines-format_history plain_formats (added ∷ []) plain_formats-IsPlain
