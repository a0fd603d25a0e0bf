-- ===== src/Config/Tests.antt =====
-- Validate at the default settings with one script.
use fmon.Base.{
  ◌+◌, ◌-◌, ◌*◌, ◌^◌, ◌≡◌, refl, true, Option, none, some, [], ◌∷◌, if◌then◌else◌, ◌==◌, All, Text,
  bytes, text_eq, nat_eq, text_equality,
}
use fmon.Base.Int.{ℤ, pos, int_eq, int_equality}
use fmon.Config.{
  ScriptConfig, Config, default_config, add_source, apply_script_defaults, script_detail,
  Validators, check_script, validate,
}
use fmon.Config.Valid.{IsUsable, validate-IsUsable}
use fmon.Config.Write.{
  Disk, WriteFaults, write_file_atomic, IsWhole, IsFinished, write_file_atomic-IsWhole,
}

abbrev script : ScriptConfig
script = record {
  path = bytes "/usr/local/bin/alert";
  detail = [];
  timeout = bytes "10s";
  max_message_bytes = pos 0;
}

abbrev settings : Config
settings = record default_config {
  smtp = record default_config.smtp { enabled = true };
  scripts = script ∷ [];
}

-- Durations of whole seconds up to 99, and no white space.
abbrev seconds : Text → Option ℤ
seconds (a ∷ b ∷ c ∷ []) =
    if c == b's' then some (pos ((10 * (a - 48) + (b - 48)) * 10 ^ 9)) else none
seconds _ = none

abbrev validators : Validators
validators = record { validate_pattern = λ p. true; parse_duration = seconds; trim_space = λ t. t }

validates_defaults : validate validators (apply_script_defaults settings) ≡ none
unfolding validate apply_script_defaults text_eq check_script int_eq
validates_defaults = refl

rejects_raw : validate validators settings ≡ some (script_detail script.path [])
unfolding validate text_eq check_script
rejects_raw = refl

abbrev duplicate : Config
duplicate = add_source (bytes "/a") (add_source (bytes "/b") (add_source (bytes "/a") settings))

added_once : duplicate.sources ≡ bytes "/a" ∷ bytes "/b" ∷ []
unfolding add_source text_eq
added_once = refl

validate-IsUsable_example : IsUsable validators (apply_script_defaults settings)
validate-IsUsable_example =
    validate-IsUsable validators (apply_script_defaults settings) validates_defaults

-- The disk is full: the write stops half-way.
abbrev full_disk : WriteFaults
full_disk = record {
  at_create = none;
  at_write = some (bytes "no space left on device");
  at_chmod = none;
  at_sync = none;
  at_close = none;
  at_rename = none;
  partial = bytes "sour";
  is_removed = true;
}

abbrev old_settings : Disk
old_settings = record {
  target = some (record { content = bytes "sources = []"; is_synced = true });
  temporary = none;
}

write_file_atomic-IsWhole_example :
    All
      (IsWhole (bytes "sources = [1]") old_settings)
      (write_file_atomic full_disk (bytes "sources = [1]") old_settings).1
    × IsFinished
        (bytes "sources = [1]")
        old_settings
        (write_file_atomic full_disk (bytes "sources = [1]") old_settings)
write_file_atomic-IsWhole_example =
    write_file_atomic-IsWhole full_disk (bytes "sources = [1]") old_settings
