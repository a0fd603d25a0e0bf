-- ===== src/Main/Args.antt =====
-- main.go: the flags and the checks of the arguments.
use fmon.Base.{
  ℕ, zero, suc, ◌+◌, Bool, not, ◌&&◌, ◌||◌, Option, none, some, List, [], ◌∷◌, ◌++◌, ltb,
  if◌then◌else◌, ◌==◌, length, drop, Text, bytes, nat_eq, text_equality,
}
use fmon.Base.Dict.{contains}
use fmon.Base.Int.{ℤ, int_equality}
use fmon.Main.Usage.{
  UsageError, limit_outside_history, files_outside_list, full_outside_scan,
  clear_flag_outside_clear, unexpected_argument, requires_path, filter_requires_files,
  clear_requires_one,
}

pub record Globals : Type 0 where
  pub config_dir : Text
  pub verbose : Bool
  pub quiet : Bool
  pub yes_flag : Bool

pub record TopFlags : Type 0 where
  pub globals : Globals
  pub scan_alias : Bool
  pub show_version : Bool

-- The flags of a command, and the names of those that were given.
pub record SubFlags : Type 0 where
  pub globals : Globals
  pub limit : ℤ
  pub full : Bool
  pub files : Bool
  pub all : Bool
  pub history_all : Bool
  pub path : Text
  pub given : List Text

pub data Parsed {ℓ} (A : Type ℓ) : Type ℓ where
  parsed : A → Parsed A
  asked_help : Parsed A
  bad_flags : Parsed A

-- The flag package: Parse on one argument list, with the flags as they were and as they are after it,
-- and the arguments from the first positional one on. What it prints is not modelled.
pub record FlagParser : Type 0 where
  pub parse_top : List Text → Parsed (TopFlags × List Text)
  pub parse_sub : SubFlags → List Text → Parsed (SubFlags × List Text)

-- parseInterspersed; a turn takes at least one argument away, so their number and one more turn are
-- enough. `none` is a run out of fuel.
unfoldable pub parse_interspersed :
    FlagParser → ℕ → SubFlags → List Text → List Text → Option (Parsed (SubFlags × List Text))
parse_interspersed fp zero flags positional args = none
parse_interspersed fp (suc fuel) flags positional args = elim (fp.parse_sub flags args) [
  | asked_help ↦ some asked_help
  | bad_flags ↦ some bad_flags
  | parsed (flags', rest) ↦ elim rest [
    | [] ↦ some (parsed (flags', positional))
    | a ∷ more ↦ parse_interspersed fp fuel flags' (positional ++ a ∷ []) more
  ]
]

abbrev pub command_scan : Text
command_scan = bytes "scan"

abbrev pub command_init : Text
command_init = bytes "init"

abbrev pub command_clear : Text
command_clear = bytes "clear"

abbrev pub command_add : Text
command_add = bytes "add"

abbrev pub command_rm : Text
command_rm = bytes "rm"

abbrev pub command_history : Text
command_history = bytes "history"

abbrev pub command_list : Text
command_list = bytes "list"

-- The map of the numbers of positional arguments: `some none` is no limit, `none` an unknown command.
unfoldable pub max_positional : Text → Option (Option ℕ)
max_positional cmd =
    if cmd == command_scan
    then some none
    else if cmd == command_init || cmd == command_clear
    then some (some 0)
    else if cmd == command_add || cmd == command_rm || cmd == command_history || cmd == command_list
    then some (some 1)
    else none

abbrev is_given : Text → SubFlags → Bool
is_given name flags = contains name flags.given

-- `maxPositional >= 0 && len(positional) > maxPositional`, with the argument that is shown.
unfoldable pub extra_argument : Option ℕ → List Text → Option Text
extra_argument none positional = none
extra_argument (some n) positional = elim (drop n positional) [ [] ↦ none | p ∷ ps ↦ some p ]

abbrev count_set : Bool → Bool → Bool → ℕ
count_set a b c = (if a then 1 else 0) + ((if b then 1 else 0) + (if c then 1 else 0))

unfoldable pub check_clear : Text → SubFlags → Option UsageError
check_clear cmd flags =
    if cmd == command_clear
      && not (count_set flags.all flags.history_all (not (flags.path == [])) == 1)
    then some clear_requires_one
    else none

-- The cases of the switch after the first five, and the check of `clear`.
unfoldable pub check_shape : Text → SubFlags → List Text → Option UsageError
unfolding check_clear
check_shape cmd flags positional =
    if (cmd == command_add || cmd == command_rm) && not (length positional == 1)
    then some (requires_path cmd)
    else if cmd == command_list && (ltb 0 (length positional) && not flags.files)
    then some filter_requires_files
    else check_clear cmd flags

unfoldable pub check_args : Text → Option ℕ → SubFlags → List Text → Option UsageError
unfolding extra_argument check_shape contains
check_args cmd most flags positional =
    if is_given (bytes "limit") flags && not (cmd == command_history)
    then some limit_outside_history
    else if is_given (bytes "files") flags && not (cmd == command_list)
    then some files_outside_list
    else if is_given (bytes "full") flags && not (cmd == command_scan)
    then some full_outside_scan
    else if (is_given (bytes "all") flags
          || (is_given (bytes "history-all") flags || is_given (bytes "path") flags))
        && not (cmd == command_clear)
    then some clear_flag_outside_clear
    else elim (extra_argument most positional) [
      | some p ↦ some (unexpected_argument p)
      | none ↦ check_shape cmd flags positional
    ]
