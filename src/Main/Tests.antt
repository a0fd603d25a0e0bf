-- ===== src/Main/Tests.antt =====
-- The command line on a machine without a configuration, and on one whose disk fails.
use fmon.Base.{
  ℕ, ◌≡◌, refl, ap, inl, true, false, some, List, [], ◌∷◌, arith, length, Text, bytes, text_eq,
}
use fmon.Base.Dict.{contains}
use fmon.Base.Int.{pos}
use fmon.Exec.{not_exist, failed, Env, ok, pure, ask, modify, ◌>>=◌, put_line}
use fmon.Exec.Keeps.{Succeeds}
use fmon.Listing.Reads.{Unchanged}
use fmon.Main.Args.{
  Globals, SubFlags, Parsed, parsed, asked_help, bad_flags, FlagParser, parse_interspersed,
  max_positional, extra_argument, check_clear, check_shape, check_args,
}
use fmon.Main.Codes.{Spared, dispatch-Spared}
use fmon.Main.Ends.{EndsWell}
use fmon.Main.Loop.{LeavesLess, parse_interspersed-Agree}
use fmon.Main.Run.{
  or_fail, dispatch, decide_start, set_up_in, set_up, new_flags, run_parsed, run_command,
  select_command, select_first, run_args,
}
use fmon.Main.Setup.{
  ConfigPaths, decoded, Libraries, absolute, resolve_paths, known_file, file_exists,
}
use fmon.Main.Total.{run_args-Returns}
use fmon.Main.Untouched.{set_up_in-Refused}
use fmon.Paths.Clean.{is_abs, clean}
use fmon.Scanner.Machine.{quiet_env, failing_env, tables, world}

abbrev no_globals : Globals
no_globals = record { config_dir = bytes "/c"; verbose = false; quiet = false; yes_flag = false }

-- A parser for command lines without flags.
abbrev plain_parser : FlagParser
plain_parser = record {
  parse_top = λ args.
      parsed (record { globals = no_globals; scan_alias = false; show_version = false }, args);
  parse_sub = λ flags args. parsed (flags, args);
}

left_over : Parsed (SubFlags × List Text) → ℕ
left_over (parsed (flags, rest)) = length rest
left_over asked_help = 0
left_over bad_flags = 0

plain_parser-LeavesLess : LeavesLess plain_parser
unfolding left_over
plain_parser-LeavesLess flags args flags' rest e = omega (arith, ap left_over e)

abbrev libraries : Libraries
libraries = record {
  decode = λ t c. decoded c;
  flags = plain_parser;
  validators = record {
    validate_pattern = λ p. true;
    parse_duration = λ t. some (pos 30000000000);
    trim_space = λ t. t;
  };
  formats = record {
    quote = λ t. t;
    rfc3339 = λ t. bytes "2024-05-01T00:00:00Z";
    duration_text = λ t. bytes "1s";
  };
}

abbrev flags : SubFlags
flags = new_flags libraries no_globals

parse_interspersed-Agree_example :
    (r : Parsed (SubFlags × List Text)) × (parse_interspersed plain_parser 3 flags []
        (bytes "/a" ∷ bytes "/b" ∷ [])
      ≡ some r)
    × (parse_interspersed plain_parser 9 flags [] (bytes "/a" ∷ bytes "/b" ∷ []) ≡ some r)
parse_interspersed-Agree_example =
    parse_interspersed-Agree plain_parser plain_parser-LeavesLess 3 9 flags []
      (bytes "/a" ∷ bytes "/b" ∷ []) (omega arith) (omega arith)

-- A machine on which there is no file at all.
abbrev empty_env : Env
empty_env = record quiet_env { stat = λ n p. failed not_exist; read_file = λ n p. failed not_exist }

run_args-Returns_example :
    EndsWell (run_args libraries (bytes "scan" ∷ bytes "/a" ∷ []) empty_env world)
run_args-Returns_example =
    run_args-Returns libraries plain_parser-LeavesLess (bytes "scan" ∷ bytes "/a" ∷ []) empty_env
      world

abbrev paths : ConfigPaths
paths = record {
  dir_path = bytes "/c";
  config_path = bytes "/c/fmon.toml";
  db_path = bytes "/c/fmon.db";
  log_path = bytes "/c/fmon.log";
}

dispatch-Spared_example :
    Spared tables (dispatch libraries (bytes "scan") true paths flags [] failing_env world)
dispatch-Spared_example =
    dispatch-Spared libraries (bytes "scan") true paths flags [] failing_env world

set_up_in-Refused_example :
    Succeeds
      (λ code u. (code ≡ 1) × Unchanged world u)
      (set_up_in libraries (bytes "scan") flags [] paths empty_env world)
unfolding text_eq
set_up_in-Refused_example =
    set_up_in-Refused libraries (bytes "scan") paths flags [] refl empty_env world (λ n. refl)
      (inl refl)

-- `fmon list` on that machine prints a hint and exits with 0.
list_hints : (run_args libraries (bytes "list" ∷ []) empty_env world).0 ≡ ok 0
unfolding run_args select_first select_command run_command run_parsed max_positional
    parse_interspersed check_args extra_argument check_shape check_clear contains set_up set_up_in
    resolve_paths absolute or_fail file_exists known_file decide_start put_line text_eq ask pure
    modify clean is_abs ◌>>=◌
list_hints = refl
