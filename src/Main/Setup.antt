-- ===== src/Main/Setup.antt =====
-- config.go: ResolvePaths, EnsureDir and Load; db.go: Open; main.go: fileExists.
use fmon.Base.{
  Bool, true, false, Option, none, some, [], ◌∷◌, ◌++◌, if◌then◌else◌, ◌==◌, Text, bytes, nat_eq,
  text_equality,
}
use fmon.Base.Int.{int_equality}
use fmon.Config.{Config, default_config, apply_script_defaults, Validators, validate}
use fmon.Exec.{
  no_absolute_path, io_failed, no_config_dir, check_failed, bad_toml, bad_config, not_exist,
  not_dir, other_error, FileInfo, Outcome, found, failed, Exec, pure, raise, ask, modify, ◌>>=◌,
  ◌>>◌, error_text,
}
use fmon.Exec.Tx.{sql}
use fmon.Main.Args.{FlagParser}
use fmon.Migrate.{migrate}
use fmon.Notify.Render.{Formats}
use fmon.Paths.{separator}
use fmon.Paths.Clean.{is_abs, clean}
use fmon.Queries.{reading}

pub record ConfigPaths : Type 0 where
  pub dir_path : Text
  pub config_path : Text
  pub db_path : Text
  pub log_path : Text

-- What toml.Decode makes of a text on top of the defaults, with unknown settings refused.
pub data Decoded : Type 0 where
  decoded : Config → Decoded
  not_toml : Text → Decoded

-- The libraries: TOML, flags, and those of Validate and of the messages.
pub record Libraries : Type 0 where
  pub decode : Text → Config → Decoded
  pub flags : FlagParser
  pub validators : Validators
  pub formats : Formats

-- `filepath.Join` of a path that is not empty
abbrev join : Text → Text → Text
join a b = clean (a ++ separator ∷ b)

-- `filepath.Abs`
unfoldable pub absolute : Text → Exec Text
unfolding is_abs clean ask raise pure ◌>>=◌
absolute p = if is_abs p then pure (clean p) else do
  wd ← ask (λ env n. env.working_dir n)
  elim wd [ none ↦ raise (no_absolute_path p) | some c ↦ pure (join c p) ]

-- The directory of the user's settings; an empty text stands for none.
abbrev user_dir : Option Text → Text
user_dir none = []
user_dir (some base) = if base == [] then [] else join base (bytes "fmon")

unfoldable pub from_home : Option Text → Exec Text
unfolding raise pure clean
from_home none = raise no_config_dir
from_home (some home) =
    if home == [] then raise no_config_dir else pure (join home (bytes ".config/fmon"))

abbrev or_ask : Text → Exec Text → Exec Text
or_ask folder next = if folder == [] then next else pure folder

abbrev paths_in : Text → ConfigPaths
paths_in folder = record {
  dir_path = folder;
  config_path = join folder (bytes "fmon.toml");
  db_path = join folder (bytes "fmon.db");
  log_path = join folder (bytes "fmon.log");
}

unfoldable pub resolve_paths : Text → Exec ConfigPaths
unfolding ask pure from_home absolute clean ◌>>=◌
resolve_paths flag_dir = do
  named ← or_ask flag_dir (ask (λ env n. env.getenv n (bytes "FMON_CONFIG_DIR")))
  base ← or_ask named (ask (λ env n. user_dir (env.user_config_dir n)))
  folder ← or_ask base (ask (λ env n. env.home_dir n) >>= from_home)
  abs ← absolute folder
  pure (paths_in abs)

-- A missing parent that is no directory is an error here, unlike in `is_not_exist`.
unfoldable pub known_file : Text → Outcome FileInfo → Exec Bool
unfolding raise pure
known_file path (found info) = pure true
known_file path (failed not_exist) = pure false
known_file path (failed not_dir) = raise (check_failed path)
known_file path (failed (other_error m)) = raise (check_failed path)

unfoldable pub file_exists : Text → Exec Bool
unfolding ask known_file ◌>>=◌
file_exists path = ask (λ env n. env.stat n path) >>= known_file path

-- MkdirAll, and OpenFile with O_CREATE.
unfoldable pub make_path : Text → Exec (Unit {0})
unfolding ask raise modify ◌>>=◌
make_path path = do
  fault ← ask (λ env n. env.create_fault n path)
  elim fault [
    | some m ↦ raise (io_failed m)
    | none ↦ modify (λ w. record w { created = w.created ++ path ∷ [] })
  ]

module _ (lib : Libraries) where
  unfoldable pub check_config : Config → Exec Config
  unfolding validate raise pure
  check_config cfg = elim (validate lib.validators cfg) [
    | some e ↦ raise (bad_config e)
    | none ↦ pure cfg
  ]

  unfoldable pub read_config : Outcome Text → Exec Config
  unfolding raise pure check_config apply_script_defaults
  read_config (failed not_exist) = pure default_config
  read_config (failed not_dir) = raise (io_failed (error_text not_dir))
  read_config (failed (other_error m)) = raise (io_failed m)
  read_config (found text) = elim (lib.decode text default_config) [
    | not_toml m ↦ raise (bad_toml m)
    | decoded cfg ↦ check_config (apply_script_defaults cfg)
  ]

  -- `config.Load`
  unfoldable pub load_config : Text → Exec Config
  unfolding ask read_config ◌>>=◌
  load_config path = ask (λ env n. env.read_file n path) >>= read_config

unfoldable pub ping : Exec (Unit {0})
unfolding sql
ping = sql (reading (λ d. tt))

-- `db.Open`: the file is made if it is missing, then the schema is brought up to date.
unfoldable pub open_database : Text → Exec (Unit {0})
unfolding make_path ping migrate ◌>>=◌
open_database path = do make_path path; ping; migrate
