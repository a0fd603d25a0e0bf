-- ===== src/Main/Usage.antt =====
-- main.go: the errors in the arguments, one for each format.
use fmon.Base.{Text}

pub data UsageError : Type 0 where
  alias_with_command : UsageError
  unknown_command : Text → UsageError
  limit_outside_history files_outside_list full_outside_scan clear_flag_outside_clear : UsageError
  unexpected_argument : Text → UsageError
  requires_path : Text → UsageError
  filter_requires_files : UsageError
  clear_requires_one : UsageError
