-- ===== src/Config.antt =====
-- internal/config/config.go: the content of fmon.toml, its defaults, its validation and the source
-- list. The TOML text is not modelled; Config/Write is the writing of the file.
-- `runtime.GOOS` is not "windows" (see Paths).
pub mod Valid
pub mod Password
pub mod Write
mod Tests
use fmon.Base.{
  ℕ, suc, ◌+◌, Bool, false, not, ◌&&◌, ◌||◌, Option, none, some, List, [], ◌∷◌, ◌++◌, map, eqb,
  if◌then◌else◌, ◌==◌, length, keep_if, Text, bytes, nat_eq, text_equality,
}
use fmon.Base.Int.{ℤ, pos, int_lt, int_equality}

pub record LogConfig : Type 0 where
  pub detail : Text

pub record SmtpConfig : Type 0 where
  pub enabled : Bool
  pub host : Text
  pub port : ℤ
  pub security : Text
  pub username : Text
  pub password_env : Text
  pub password_file : Text
  pub sender : Text
  pub recipients : List Text
  pub detail : Text

pub record ScriptConfig : Type 0 where
  pub path : Text
  pub detail : Text
  pub timeout : Text
  pub max_message_bytes : ℤ

pub record Config : Type 0 where
  pub sources : List Text
  pub exclude : List Text
  pub log : LogConfig
  pub smtp : SmtpConfig
  pub scripts : List ScriptConfig

abbrev pub detail_summary : Text
detail_summary = bytes "summary"

abbrev pub detail_full : Text
detail_full = bytes "full"

abbrev pub security_starttls : Text
security_starttls = bytes "starttls"

abbrev pub security_tls : Text
security_tls = bytes "tls"

abbrev pub security_none : Text
security_none = bytes "none"

abbrev pub default_max_message_bytes : ℤ
default_max_message_bytes = pos 100000

abbrev pub default_config : Config
default_config = record {
  sources = [];
  exclude = bytes "*.tmp" ∷ bytes "*.swp" ∷ bytes "**/.git/**" ∷ [];
  log = record { detail = detail_full };
  smtp = record {
    enabled = false;
    host = bytes "smtp.example.com";
    port = pos 587;
    security = security_starttls;
    username = [];
    password_env = bytes "FMON_SMTP_PASSWORD";
    password_file = [];
    sender = bytes "fmon@example.com";
    recipients = bytes "admin@example.com" ∷ [];
    detail = detail_full;
  };
  scripts = [];
}

-- ---- source list helpers ----------------------------------------------------

unfoldable pub has_source : Text → List Text → Bool
has_source path [] = false
has_source path (s ∷ sources) = s == path || has_source path sources

unfoldable pub add_source : Text → Config → Config
unfolding has_source
add_source path c =
    if not (has_source path c.sources) then record c { sources = c.sources ++ path ∷ [] } else c

unfoldable pub remove_source : Text → Config → Config
remove_source path c = record c { sources = keep_if (λ s. not (s == path)) c.sources }

unfoldable pub clear_sources : Config → Config
clear_sources c = record c { sources = [] }

-- ---- defaults and validation --------------------------------------------------

unfoldable pub script_defaults : ScriptConfig → ScriptConfig
script_defaults s = record s {
  detail = if s.detail == [] then detail_summary else s.detail;
  timeout = if s.timeout == [] then bytes "30s" else s.timeout;
  max_message_bytes =
      if s.max_message_bytes == pos 0 then default_max_message_bytes else s.max_message_bytes;
}

unfoldable pub apply_script_defaults : Config → Config
unfolding script_defaults
apply_script_defaults c = record c { scripts = map script_defaults c.scripts }

unfoldable pub valid_detail : Text → Bool
valid_detail v = v == detail_summary || v == detail_full

-- The errors of Validate, one for each format.
pub data ConfigError : Type 0 where
  log_detail smtp_detail smtp_security : Text → ConfigError
  exclude_pattern : Text → ConfigError
  smtp_host smtp_addresses smtp_authentication : ConfigError
  smtp_port : ℤ → ConfigError
  script_path : ℕ → ConfigError
  script_detail script_timeout : Text → Text → ConfigError
  script_max_bytes : Text → ConfigError

-- What Validate calls outside the program: doublestar.ValidatePattern, time.ParseDuration (in
-- nanoseconds; `none` is its error) and strings.TrimSpace.
pub record Validators : Type 0 where
  pub validate_pattern : Text → Bool
  pub parse_duration : Text → Option ℤ
  pub trim_space : Text → Text

-- TimeoutDuration: thirty seconds stand in for what does not parse or is not positive.
unfoldable pub timeout_duration : Validators → ScriptConfig → ℤ
timeout_duration v s = elim (v.parse_duration s.timeout) [
  | none ↦ pos 30000000000
  | some d ↦ if int_lt (pos 0) d then d else pos 30000000000
]

module _ (v : Validators) where
  unfoldable pub check_patterns : List Text → Option ConfigError
  check_patterns [] = none
  check_patterns (p ∷ ps) =
      let rest = check_patterns ps in
      if not (v.validate_pattern p) then some (exclude_pattern p) else rest

  -- The body of `if c.SMTP.Enabled`.
  unfoldable pub check_smtp : SmtpConfig → Option ConfigError
  check_smtp s =
      if not (
        s.security == security_starttls
        || s.security == security_tls
        || s.security == security_none)
      then some (smtp_security s.security)
      else if v.trim_space s.host == []
      then some smtp_host
      else if int_lt s.port (pos 1) || int_lt (pos 65535) s.port
      then some (smtp_port s.port)
      else if v.trim_space s.sender == [] || eqb (length s.recipients) 0
      then some smtp_addresses
      else if not (s.username == []) && s.security == security_none
      then some smtp_authentication
      else none

  unfoldable pub positive_duration : Text → Bool
  positive_duration t = elim (v.parse_duration t) [ none ↦ false | some d ↦ int_lt (pos 0) d ]

  -- The body of the loop over the scripts, for the i-th of them.
  unfoldable pub check_script : ℕ → ScriptConfig → Option ConfigError
  unfolding valid_detail positive_duration
  check_script i s =
      if v.trim_space s.path == []
      then some (script_path (i + 1))
      else if not (valid_detail s.detail)
      then some (script_detail s.path s.detail)
      else if not (positive_duration s.timeout)
      then some (script_timeout s.path s.timeout)
      else if int_lt s.max_message_bytes (pos 200)
      then some (script_max_bytes s.path)
      else none

  unfoldable pub check_scripts : ℕ → List ScriptConfig → Option ConfigError
  check_scripts i [] = none
  check_scripts i (s ∷ scripts) =
      let rest = check_scripts (suc i) scripts in
      elim (check_script i s) [ some e ↦ some e | none ↦ rest ]

  -- The first of the errors, in the order of the checks; `none` is success.
  unfoldable pub validate : Config → Option ConfigError
  unfolding check_patterns check_smtp check_scripts valid_detail
  validate c =
      if not (valid_detail c.log.detail)
      then some (log_detail c.log.detail)
      else elim (check_patterns c.exclude) [
        | some e ↦ some e
        | none ↦
            if not (valid_detail c.smtp.detail)
            then some (smtp_detail c.smtp.detail)
            else elim (if c.smtp.enabled then check_smtp c.smtp else none) [
              | some e ↦ some e
              | none ↦ check_scripts 0 c.scripts
            ]
      ]
