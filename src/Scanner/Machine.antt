-- ===== src/Scanner/Machine.antt =====
-- A small machine with one watched file, for the tests of the commands.
use fmon.Base.{true, false, none, some, [], ◌∷◌, leb, if◌then◌else◌, bytes}
use fmon.Base.Int.{pos}
use fmon.Config.{default_config}
use fmon.Db.{FileRow, Db}
use fmon.Exec.{not_exist, is_regular, FileInfo, found, failed, file, Env, SourceScan, World}
use fmon.Migrate.{schema_v1}
use fmon.Models.{source_file, status_active, Source}
use fmon.Notify.Delivery.{succeeded}
use fmon.Report.{new_report}

abbrev pub file_info : FileInfo
file_info = record { kind = is_regular; size = pos 3; mod_time = pos 9 }

-- A quiet machine: the regular file /f, with the hash 77.
abbrev pub quiet_env : Env
quiet_env = record {
  clock = λ n. pos n;
  is_canceled = λ n. false;
  sql_fault = λ n. none;
  lstat = λ n p. found file_info;
  walk = λ n p. found (file (found file_info));
  hash_file = λ n p. found 77;
  working_dir = λ n. some (bytes "/");
  eval_symlinks = λ n p. some p;
  stat = λ n p. found file_info;
  save_fault = λ n. none;
  is_terminal = λ n. false;
  read_line = λ n. none;
  trim_space = λ t. t;
  append_fault = λ n. none;
  file_mode = λ n p. found 0x180;
  read_file = λ n p. failed not_exist;
  getenv = λ n v. [];
  run_command = λ n p m. succeeded;
  smtp_fault = λ n. none;
  offers_starttls = λ n. true;
  create_fault = λ n p. none;
  user_config_dir = λ n. some (bytes "/home/u/.config");
  home_dir = λ n. some (bytes "/home/u");
  host_name = λ n. bytes "host";
  glob = λ pat p. some false;
}

-- The same machine with a database driver that fails at the COMMIT.
abbrev pub failing_env : Env
failing_env = record quiet_env {
  sql_fault = λ n. if leb 13 n then some (bytes "disk I/O error") else none;
}

abbrev pub file_source : Source
file_source = record {
  id = 1;
  path = bytes "/f";
  typ = source_file;
  status = status_active;
  created_at = pos 1;
}

abbrev pub stored_file : FileRow
stored_file = record {
  id = 1;
  source_id = 1;
  file_path = bytes "/f";
  last_hash = pos 5;
  size = pos 3;
  mod_time = pos 2;
  updated_at = pos 2;
}

abbrev pub tables : Db
tables = record {
  user_version = pos 1;
  schema = schema_v1;
  meta = [];
  watched_sources = file_source ∷ [];
  files_state = stored_file ∷ [];
  history_log = [];
}

abbrev pub idle_scan : SourceScan
idle_scan = record {
  src = file_source;
  baseline = false;
  full = false;
  states = [];
  seen = [];
  unreadable = [];
}

abbrev pub world : World
world = record {
  tick = 0;
  tables = tables;
  saved = none;
  rep = new_report (pos 0) [] false;
  sc = idle_scan;
  stderr = [];
  log = [];
  stdout = [];
  cfg = record default_config { sources = bytes "/f" ∷ [] };
  config_file = record default_config { sources = bytes "/f" ∷ [] };
  log_file = [];
  smtp_log = [];
  script_calls = [];
  created = [];
  verbose = false;
  quiet = false;
  hostname = bytes "host";
}
