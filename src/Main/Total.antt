-- ===== src/Main/Total.antt =====
-- main.go: the exit codes of run.
use mathlib.Core.Path.{subst}
use fmon.Base.{
  ℕ, suc, ◌≤◌, ◌≡◌, refl, sym, ◌⊎◌, inl, inr, Bool, false, not, ◌&&◌, ◌||◌, Option, none, some,
  List, [], ◌∷◌, arith, if◌then◌else◌, ◌==◌, length, Text, nat_eq, text_equality,
}
use fmon.Base.Int.{int_equality}
use fmon.Commands.{init, add, remove, history}
use fmon.Exec.{
  Error, Env, version_line, usage_line, no_command_line, not_found_line, created_line, World,
  Result, ok, err, Exec, pure, ask, modify, ◌>>=◌,
}
use fmon.Exec.Keeps.{Succeeds}
use fmon.Listing.Table.{list}
use fmon.Main.Args.{
  Globals, TopFlags, SubFlags, Parsed, parsed, asked_help, bad_flags, parse_interspersed,
  command_scan, command_init, command_clear, command_add, command_rm, command_history, command_list,
  max_positional, extra_argument, check_shape, check_args,
}
use fmon.Main.Ends.{
  EndsWell, Total, Always, Total-pure, Total-if, Total-if_not, Total-bind, Always-modify,
  Always-ask, Total-fail, Total-refuse, Total-answer, Total-or_fail, Total-finish_with,
}
use fmon.Main.Loop.{LeavesLess, parse_interspersed-Agree}
use fmon.Main.Run.{
  refuse, finish_with, print_scan, first_argument, or_empty, scan_code, report_scan, run_scan, done,
  run_add, run_remove, run_clear, dispatch, set_app, note_missing, start_app, decide_start,
  set_up_in, set_up, new_flags, run_parsed, run_command, select_command, select_first, run_args,
}
use fmon.Main.Setup.{
  ConfigPaths, Libraries, resolve_paths, file_exists, make_path, load_config, open_database,
}
use fmon.Main.Usage.{UsageError, unknown_command, unexpected_argument}
use fmon.Notify.Delivery.{Sink}
use fmon.Notify.Sinks.{notify}
use fmon.Notify.Sinks.All.{notify-Ran}
use fmon.Report.{Report}
use fmon.Scanner.Scan.{scan}

-- The commands that take an argument have one.
HasArgument : Text → List Text → Type 0
HasArgument cmd positional =
    ((cmd == command_add || cmd == command_rm) ≡ false)
    ⊎ ((p : Text) × (ps : List Text) × (positional ≡ p ∷ ps))

check_shape-HasArgument :
    (cmd : Text) (flags : SubFlags) (positional : List Text)
    → check_shape cmd flags positional ≡ none
    → HasArgument cmd positional
unfolding check_shape HasArgument
check_shape-HasArgument cmd flags [] h = inl (ground arith)
check_shape-HasArgument cmd flags (p ∷ ps) h = inr (p, ps, refl)

check_args-HasArgument :
    (cmd : Text) (most : Option ℕ) (flags : SubFlags) (positional : List Text)
    → check_args cmd most flags positional ≡ none
    → HasArgument cmd positional
unfolding check_args
check_args-HasArgument cmd most flags positional h =
    check_shape-HasArgument cmd flags positional
      (by_extra (extra_argument most positional) (ground arith))
  where
    by_extra :
        (o : Option Text)
        → (elim o as (λ _. Option UsageError) [
          | some p ↦ some (unexpected_argument p)
          | none ↦ check_shape cmd flags positional
        ])
          ≡ none
        → check_shape cmd flags positional ≡ none
    by_extra none e = e
    by_extra (some p) e = absurd (ground arith)

Succeeds-any :
    {A : Type 0} (Q : A → World → Type 0) (o : Result A × World)
    → Succeeds Q o
    → Succeeds (λ _ _. Unit {0}) o
Succeeds-any Q (ok a, w) h = tt
Succeeds-any Q (err e, w) h = h

module _ (lib : Libraries) where
  Always-notify : (rep : Report) → Always (notify lib.formats lib.validators rep)
  Always-notify rep = record {
    at = λ env w.
        Succeeds-any _ (notify lib.formats lib.validators rep env w)
          (notify-Ran lib.validators lib.formats rep env w);
  }

  Always-print_scan : (rep : Report) → Always (print_scan lib.formats rep)
  unfolding print_scan
  Always-print_scan rep = Always-modify _

  small_code : (rep : Report) (errs : List (Sink × Error)) → scan_code lib rep errs ≤ 2
  small_code rep errs = ground arith

  Total-report_scan : (rep : Report) → Total (report_scan lib rep)
  unfolding report_scan
  Total-report_scan rep = Total-bind (print_scan lib.formats rep) _ (Always-print_scan rep) λ _.
      Total-bind (notify lib.formats lib.validators rep) _ (Always-notify rep)
        λ errs. Total-pure (scan_code lib rep errs) (small_code rep errs)

  Total-done : Total (done lib)
  Total-done = Total-pure 0 (omega arith)

  Total-run_scan :
      (flags : SubFlags) (positional : List Text) → Total (run_scan lib flags positional)
  unfolding run_scan
  Total-run_scan flags positional = Total-or_fail (scan flags.full positional) _ Total-report_scan

  Total-run_add :
      (b : Bool) (paths : ConfigPaths) (flags : SubFlags) (p : Text) (ps : List Text)
      → Total (run_add lib b paths flags (p ∷ ps))
  unfolding run_add first_argument pure ◌>>=◌
  Total-run_add b paths flags p ps = Total-finish_with (add p) _ (
      Total-if (not b && not flags.globals.quiet) _ _
        (Total-answer lib (created_line paths.config_path)) Total-done)

  Total-run_remove : (p : Text) (ps : List Text) → Total (run_remove lib (p ∷ ps))
  unfolding run_remove first_argument pure ◌>>=◌
  Total-run_remove p ps = Total-finish_with (remove p) _ Total-done

  Total-run_clear : (flags : SubFlags) → Total (run_clear lib flags)
  unfolding run_clear
  Total-run_clear flags = Total-finish_with _ _ Total-done

  Total-dispatch :
      (cmd : Text) (b : Bool) (paths : ConfigPaths) (flags : SubFlags) (positional : List Text)
      → HasArgument cmd positional
      → Total (dispatch lib cmd b paths flags positional)
  unfolding dispatch HasArgument
  Total-dispatch cmd b paths flags positional has =
      Total-if (cmd == command_scan) _ _ (Total-run_scan flags positional) (
        Total-if (cmd == command_list) _ _
          (Total-finish_with (list flags.files (or_empty positional)) _ Total-done)
          (Total-if (cmd == command_init) _ _
            (Total-finish_with (init flags.globals.yes_flag) _ Total-done) (with_argument has)))
    where
      rest : Exec ℕ
      rest =
          if cmd == command_history
          then finish_with (history (or_empty positional) flags.limit) (done lib)
          else if cmd == command_clear
          then run_clear lib flags
          else done lib

      Total-rest : Total rest
      Total-rest =
          Total-if (cmd == command_history) _ _
            (Total-finish_with (history (or_empty positional) flags.limit) _ Total-done)
            (Total-if (cmd == command_clear) _ _ (Total-run_clear flags) Total-done)

      with_argument :
          HasArgument cmd positional
          → Total (
              if cmd == command_add
              then run_add lib b paths flags positional
              else if cmd == command_rm
              then run_remove lib positional
              else rest)
      with_argument (inl n) =
          Total-if_not (cmd == command_add) _ _ (ground arith)
            (Total-if_not (cmd == command_rm) _ _ (ground arith) Total-rest)
      with_argument (inr (p, ps, e)) =
          subst
            (λ x. Total (
              if cmd == command_add
              then run_add lib b paths flags x
              else if cmd == command_rm
              then run_remove lib x
              else rest))
            (sym e)
            (Total-if (cmd == command_add) _ _ (Total-run_add b paths flags p ps)
              (Total-if (cmd == command_rm) _ _ (Total-run_remove p ps) Total-rest))

  Total-start_app :
      (cmd : Text) (ce de : Bool) (paths : ConfigPaths) (flags : SubFlags) (positional : List Text)
      → HasArgument cmd positional
      → Total (start_app lib cmd ce de paths flags positional)
  unfolding start_app
  Total-start_app cmd ce de paths flags positional has =
      Total-or_fail (make_path paths.dir_path) _ λ _.
        Total-or_fail (load_config lib paths.config_path) _ λ cfg.
          Total-or_fail (make_path paths.log_path) _ λ _.
            Total-or_fail (open_database paths.db_path) _ λ _.
              Total-or_fail (note_missing lib ce de cfg) _ λ _.
                Total-bind (ask (λ env n. env.host_name n)) _
                  (Always-ask (λ env n. env.host_name n))
                  λ host.
                    Total-bind (modify (set_app lib cfg flags host)) _
                      (Always-modify (set_app lib cfg flags host))
                      λ _. Total-dispatch cmd ce paths flags positional has

  Total-decide_start :
      (cmd : Text) (ce de : Bool) (paths : ConfigPaths) (flags : SubFlags) (positional : List Text)
      → HasArgument cmd positional
      → Total (decide_start lib cmd ce de paths flags positional)
  unfolding decide_start
  Total-decide_start cmd ce de paths flags positional has =
      Total-if _ _ _
        (Total-if _ _ _ (Total-answer lib (not_found_line paths.config_path)) (Total-fail _))
        (Total-if _ _ _ (Total-fail _) (Total-start_app cmd ce de paths flags positional has))

  Total-set_up_in :
      (cmd : Text) (flags : SubFlags) (positional : List Text) (paths : ConfigPaths)
      → HasArgument cmd positional
      → Total (set_up_in lib cmd flags positional paths)
  unfolding set_up_in
  Total-set_up_in cmd flags positional paths has =
      Total-or_fail (file_exists paths.config_path) _ λ ce.
        Total-or_fail (file_exists paths.db_path) _
          λ de. Total-decide_start cmd ce de paths flags positional has

  Total-set_up :
      (cmd : Text) (flags : SubFlags) (positional : List Text)
      → HasArgument cmd positional
      → Total (set_up lib cmd flags positional)
  unfolding set_up
  Total-set_up cmd flags positional has =
      Total-or_fail (resolve_paths flags.globals.config_dir) (set_up_in lib cmd flags positional)
        λ paths. Total-set_up_in cmd flags positional paths has

  Total-run_parsed :
      (cmd : Text) (most : Option ℕ) (r : Parsed (SubFlags × List Text))
      → Total (run_parsed lib cmd most (some r))
  unfolding run_parsed
  Total-run_parsed cmd most asked_help = Total-pure 0 (omega arith)
  Total-run_parsed cmd most bad_flags = Total-pure 1 (omega arith)
  Total-run_parsed cmd most (parsed (flags, positional)) =
      by_check (check_args cmd most flags positional) refl
    where
      by_check :
          (o : Option UsageError)
          → check_args cmd most flags positional ≡ o
          → Total (elim o [ some e ↦ refuse e | none ↦ set_up lib cmd flags positional ])
      by_check (some e) h = Total-refuse e
      by_check none h =
          Total-set_up cmd flags positional (check_args-HasArgument cmd most flags positional h)

  module _ (less : LeavesLess lib.flags) where
    Total-run_command :
        (g : Globals) (cmd : Text) (rest : List Text) → Total (run_command lib g cmd rest)
    unfolding run_command
    Total-run_command g cmd rest = by_command (max_positional cmd)
      where
        by_command :
            (o : Option (Option ℕ))
            → Total (elim o [
              | none ↦ refuse (unknown_command cmd)
              | some most ↦
                  run_parsed lib cmd most
                    (parse_interspersed lib.flags (suc (length rest)) (new_flags lib g) [] rest)
            ])
        by_command none = Total-refuse _
        by_command (some most) =
            let (r, e, _) =
              parse_interspersed-Agree lib.flags less (suc (length rest)) (suc (length rest))
                (new_flags lib g) [] rest (omega arith) (omega arith) in
            rw e (Total-run_parsed cmd most r)

    Total-select :
        (top : TopFlags) (cmd : Text) (rest : List Text) → Total (select_command lib top cmd rest)
    unfolding select_command
    Total-select top cmd rest = Total-if _ _ _ (Total-answer lib version_line) (
        Total-if _ _ _ (Total-answer lib usage_line) (
          Total-if _ _ _ (Total-refuse _) (
            Total-if _ _ _ (Total-run_command top.globals command_scan rest) (
              Total-if _ _ _ (Total-answer lib no_command_line)
                (Total-run_command top.globals cmd rest)))))

    -- If Parse leaves no more arguments than it was given, then on every command line and in every
    -- world the program ends with the exit code 0, 1 or 2, or with the panic of `migrations[i]` at an
    -- index below 0: no loop goes on for ever, and `positional[0]` is never out of range.
    pub run_args-Returns :
        (args : List Text) (env : Env) (w : World) → EndsWell (run_args lib args env w)
    unfolding run_args select_first
    run_args-Returns args env w = (by_parse (lib.flags.parse_top args)).at env w
      where
        by_parse :
            (o : Parsed (TopFlags × List Text))
            → Total (elim o [
              | asked_help ↦ pure 0
              | bad_flags ↦ pure 1
              | parsed (top, rest) ↦ select_first lib top rest
            ])
        by_parse asked_help = Total-pure 0 (omega arith)
        by_parse bad_flags = Total-pure 1 (omega arith)
        by_parse (parsed (top, [])) = Total-select top [] []
        by_parse (parsed (top, cmd ∷ rest)) = Total-select top cmd rest
