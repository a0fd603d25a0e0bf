-- ===== src/Main/Run.antt =====
-- main.go: run, from the arguments to the exit code; output.go: PrintScan.
use fmon.Base.{
  ℕ, suc, Bool, true, false, not, ◌&&◌, ◌||◌, Option, none, some, List, [], ◌∷◌, ◌++◌, map, ltb,
  if◌then◌else◌, ◌==◌, length, Text, bytes, nat_eq, text_equality,
}
use fmon.Base.Int.{pos, int_equality}
use fmon.Commands.{init, add, remove, history, clear_history_path, clear_history_all}
use fmon.Config.{Config}
use fmon.Db.{needs_baseline, baseline_db_missing}
use fmon.Exec.{
  Error, aborted, not_initialized, config_missing, index_out_of_range, negative_index, out_of_fuel,
  Env, StderrLine, usage_error_line, fail_line, aborted_line, OutputLine, text_line, version_line,
  usage_line, no_command_line, not_found_line, created_line, World, Result, ok, err, Exec, pure,
  raise, ask, modify, ◌>>=◌, ◌>>◌, put_line,
}
use fmon.Listing.Table.{list}
use fmon.Main.Args.{
  Globals, TopFlags, SubFlags, Parsed, parsed, asked_help, bad_flags, parse_interspersed,
  command_scan, command_init, command_clear, command_add, command_rm, command_history, command_list,
  max_positional, check_args,
}
use fmon.Main.Setup.{
  ConfigPaths, Libraries, resolve_paths, file_exists, make_path, load_config, open_database,
}
use fmon.Main.Usage.{UsageError, alias_with_command, unknown_command}
use fmon.Notify.Delivery.{Sink}
use fmon.Notify.Render.{Formats, scan_lines}
use fmon.Notify.Sinks.{notify}
use fmon.Queries.{set_meta}
use fmon.Report.{Report, has_errors}
use fmon.Scanner.Scan.{scan}

abbrev exit_ok : ℕ
exit_ok = 0

abbrev exit_fatal : ℕ
exit_fatal = 1

abbrev exit_non_fatal : ℕ
exit_non_fatal = 2

unfoldable pub put_error : StderrLine → Exec (Unit {0})
unfolding modify
put_error l = modify λ w. record w { stderr = w.stderr ++ l ∷ [] }

-- The closure `fail`
unfoldable pub fail_with : Error → Exec ℕ
unfolding put_error pure ◌>>=◌
fail_with e = do put_error (fail_line e); pure exit_fatal

unfoldable pub refuse : UsageError → Exec ℕ
unfolding put_error pure ◌>>=◌
refuse e = do put_error (usage_error_line e); pure exit_fatal

-- The panic of a callee, which passes every `if err != nil`. The other one, `positional[0]`, is
-- raised by run itself, where no error is handled.
abbrev pub is_panic : Error → Bool
is_panic negative_index = true
is_panic e = false

module _ {A : Type 0} where
  abbrev pub handled : Env → (A → Exec ℕ) → Result A × World → Result ℕ × World
  handled env next (ok a, w) = next a env w
  handled env next (err e, w) = (if is_panic e then raise e else fail_with e) env w

  -- `if err != nil { return fail(err) }`
  unfoldable pub or_fail : Exec A → (A → Exec ℕ) → Exec ℕ
  unfolding fail_with raise
  or_fail m next env w = handled env next (m env w)

-- `errors.Is(err, monitor.ErrAborted)`
abbrev pub is_aborted : Error → Bool
is_aborted aborted = true
is_aborted e = false

-- The end of run: the error of the command.
abbrev pub ended : Env → Exec ℕ → Result (Unit {0}) × World → Result ℕ × World
ended env next (ok _, w) = next env w
ended env next (err e, w) =
    (if is_panic e
        then raise e
        else if is_aborted e
        then put_error aborted_line >> pure exit_fatal
        else fail_with e)
      env w

unfoldable pub finish_with : Exec (Unit {0}) → Exec ℕ → Exec ℕ
unfolding fail_with put_error pure ◌>>=◌
finish_with m next env w = ended env next (m env w)

abbrev to_lines : Formats → Report → List OutputLine
to_lines f rep = map text_line (scan_lines f rep)

-- PrintScan
unfoldable pub print_scan : Formats → Report → Exec (Unit {0})
unfolding modify scan_lines
print_scan f rep =
    modify λ w. if w.quiet then w else record w { stdout = w.stdout ++ to_lines f rep }

-- positional[0], which panics if there is none.
unfoldable pub first_argument : List Text → Exec Text
unfolding raise pure
first_argument [] = raise index_out_of_range
first_argument (p ∷ ps) = pure p

abbrev pub or_empty : List Text → Text
or_empty [] = []
or_empty (p ∷ ps) = p

module _ (lib : Libraries) where
  abbrev pub scan_code : Report → List (Sink × Error) → ℕ
  scan_code rep errs = if has_errors rep || ltb 0 (length errs) then exit_non_fatal else exit_ok

  unfoldable pub report_scan : Report → Exec ℕ
  unfolding print_scan notify has_errors pure ◌>>=◌
  report_scan rep = do
    print_scan lib.formats rep
    errs ← notify lib.formats lib.validators rep
    pure (scan_code rep errs)

  unfoldable pub run_scan : SubFlags → List Text → Exec ℕ
  unfolding scan report_scan or_fail
  run_scan flags positional = or_fail (scan flags.full positional) report_scan

  abbrev pub done : Exec ℕ
  done = pure exit_ok

  unfoldable pub run_add : Bool → ConfigPaths → SubFlags → List Text → Exec ℕ
  unfolding first_argument add put_line finish_with pure ◌>>=◌
  run_add config_existed paths flags positional = do
    p ← first_argument positional
    finish_with (add p) (
        if not config_existed && not flags.globals.quiet
        then (do put_line (created_line paths.config_path); done)
        else done)

  unfoldable pub run_remove : List Text → Exec ℕ
  unfolding first_argument remove finish_with pure ◌>>=◌
  run_remove positional = do p ← first_argument positional; finish_with (remove p) done

  unfoldable pub run_clear : SubFlags → Exec ℕ
  unfolding init clear_history_all clear_history_path finish_with pure
  run_clear flags =
      finish_with
        (if flags.all
          then init flags.globals.yes_flag
          else if flags.history_all
          then clear_history_all
          else clear_history_path flags.path)
        done

  unfoldable pub dispatch : Text → Bool → ConfigPaths → SubFlags → List Text → Exec ℕ
  unfolding run_scan run_add run_remove run_clear list history init finish_with pure
  dispatch cmd config_existed paths flags positional =
      if cmd == command_scan
      then run_scan flags positional
      else if cmd == command_list
      then finish_with (list flags.files (or_empty positional)) done
      else if cmd == command_init
      then finish_with (init flags.globals.yes_flag) done
      else if cmd == command_add
      then run_add config_existed paths flags positional
      else if cmd == command_rm
      then run_remove positional
      else if cmd == command_history
      then finish_with (history (or_empty positional) flags.limit) done
      else if cmd == command_clear
      then run_clear flags
      else done

  -- ---- environment setup -----------------------------------------------------------

  abbrev host_or_unknown : Text → Text
  host_or_unknown host = if host == [] then bytes "unknown" else host

  -- The App that main builds.
  abbrev pub set_app : Config → SubFlags → Text → World → World
  set_app cfg flags host w = record w {
    cfg = cfg;
    verbose = flags.globals.verbose;
    quiet = flags.globals.quiet;
    hostname = host_or_unknown host;
  }

  unfoldable pub note_missing : Bool → Bool → Config → Exec (Unit {0})
  unfolding set_meta pure
  note_missing config_existed db_existed cfg =
      if config_existed && (not db_existed && ltb 0 (length cfg.sources))
      then set_meta needs_baseline baseline_db_missing
      else pure tt

  -- From EnsureDir on.
  unfoldable pub start_app : Text → Bool → Bool → ConfigPaths → SubFlags → List Text → Exec ℕ
  unfolding make_path load_config open_database note_missing ask modify dispatch or_fail ◌>>=◌
  start_app cmd config_existed db_existed paths flags positional =
      or_fail (make_path paths.dir_path) λ _. or_fail (load_config lib paths.config_path) λ cfg.
        or_fail (make_path paths.log_path) λ _. or_fail (open_database paths.db_path) λ _.
          or_fail (note_missing config_existed db_existed cfg) λ _. do
            host ← ask (λ env n. env.host_name n)
            modify (set_app cfg flags host)
            dispatch cmd config_existed paths flags positional

  -- The switch on what exists.
  unfoldable pub decide_start : Text → Bool → Bool → ConfigPaths → SubFlags → List Text → Exec ℕ
  unfolding put_line fail_with start_app pure ◌>>=◌
  decide_start cmd config_existed db_existed paths flags positional =
      if not config_existed
        && (not db_existed && (not (cmd == command_init) && not (cmd == command_add)))
      then (if cmd == command_list || cmd == command_history
          then (do put_line (not_found_line paths.config_path); pure exit_ok)
          else fail_with (not_initialized paths.config_path))
      else if not config_existed
          && (db_existed && (cmd == command_scan || (cmd == command_add || cmd == command_rm)))
      then fail_with (config_missing paths.config_path)
      else start_app cmd config_existed db_existed paths flags positional

  -- Once the paths are known.
  unfoldable pub set_up_in : Text → SubFlags → List Text → ConfigPaths → Exec ℕ
  unfolding file_exists decide_start or_fail
  set_up_in cmd flags positional paths = or_fail (file_exists paths.config_path) λ config_existed.
      or_fail (file_exists paths.db_path)
        λ db_existed. decide_start cmd config_existed db_existed paths flags positional

  unfoldable pub set_up : Text → SubFlags → List Text → Exec ℕ
  unfolding resolve_paths set_up_in or_fail
  set_up cmd flags positional =
      or_fail (resolve_paths flags.globals.config_dir) (set_up_in cmd flags positional)

  -- ---- arguments -----------------------------------------------------------------------

  abbrev pub new_flags : Globals → SubFlags
  new_flags g = record {
    globals = g;
    limit = pos 100;
    full = false;
    files = false;
    all = false;
    history_all = false;
    path = [];
    given = [];
  }

  unfoldable pub run_parsed : Text → Option ℕ → Option (Parsed (SubFlags × List Text)) → Exec ℕ
  unfolding check_args refuse set_up raise pure
  run_parsed cmd most none = raise out_of_fuel
  run_parsed cmd most (some asked_help) = pure exit_ok
  run_parsed cmd most (some bad_flags) = pure exit_fatal
  run_parsed cmd most (some (parsed (flags, positional))) =
      elim (check_args cmd most flags positional) [
        | some e ↦ refuse e
        | none ↦ set_up cmd flags positional
      ]

  unfoldable pub run_command : Globals → Text → List Text → Exec ℕ
  unfolding max_positional refuse run_parsed parse_interspersed
  run_command g cmd rest = elim (max_positional cmd) [
    | none ↦ refuse (unknown_command cmd)
    | some most ↦
        run_parsed cmd most (parse_interspersed lib.flags (suc (length rest)) (new_flags g) [] rest)
  ]

  abbrev pub answer : OutputLine → Exec ℕ
  answer l = put_line l >> pure exit_ok

  unfoldable pub select_command : TopFlags → Text → List Text → Exec ℕ
  unfolding refuse run_command put_line pure ◌>>=◌
  select_command top cmd rest =
      if top.show_version || cmd == bytes "version"
      then answer version_line
      else if cmd == bytes "help"
      then answer usage_line
      else if top.scan_alias && not (cmd == [])
      then refuse alias_with_command
      else if top.scan_alias
      then run_command top.globals command_scan rest
      else if cmd == []
      then answer no_command_line
      else run_command top.globals cmd rest

  unfoldable pub select_first : TopFlags → List Text → Exec ℕ
  unfolding select_command
  select_first top [] = select_command top [] []
  select_first top (cmd ∷ rest) = select_command top cmd rest

  unfoldable pub run_args : List Text → Exec ℕ
  unfolding select_first pure
  run_args args = elim (lib.flags.parse_top args) [
    | asked_help ↦ pure exit_ok
    | bad_flags ↦ pure exit_fatal
    | parsed (top, rest) ↦ select_first top rest
  ]
