-- ===== src/Notify/Tests.antt =====
-- Truncation and change lines at fixed messages.
use fmon.Base.{
  ℕ, ◌≤◌, ◌≡◌, refl, true, none, some, [], ◌∷◌, ◌++◌, arith, length, All, Text, bytes, text_eq,
  has_prefix, trim_right,
}
use fmon.Base.Decimal.{decimal}
use fmon.Base.Int.{pos}
use fmon.Config.{ScriptConfig, Config, default_config, Validators, check_script, validate}
use fmon.Models.{event_deleted, Change}
use fmon.Notify.{newline, change_lines, cut_utf8, count_changes, truncate_message}
use fmon.Notify.Limits.{validate-truncate_message}
use fmon.Notify.Lines.{count_changes-change_lines}
use fmon.Notify.Size.{length-truncate_message}

cut_two_bytes : cut_utf8 (0x61 ∷ 0xc3 ∷ 0xa9 ∷ []) 2 ≡ 0x61 ∷ []
unfolding cut_utf8
cut_two_bytes = refl

cut_whole_rune : cut_utf8 (0xc3 ∷ 0xa9 ∷ 0x61 ∷ []) 2 ≡ 0xc3 ∷ 0xa9 ∷ []
unfolding cut_utf8
cut_whole_rune = refl

header_cut :
    truncate_message (bytes "ADDED x" ++ newline ∷ bytes "ADDED y") (pos 4)
    ≡ newline ∷ bytes "... and 1 more changes (see fmon history)" ++ newline ∷ []
unfolding truncate_message decimal has_prefix trim_right
header_cut = refl

-- Six lines of 51 bytes.
abbrev long_line : Text
long_line = bytes "ADDED    \"/var/lib/fmon/a/long/path/aa\" size=10240\n"

abbrev long_message : Text
long_message =
    long_line ++ (long_line ++ (long_line ++ (long_line ++ (long_line ++ (long_line ++ [])))))

length-truncate_message_example : length (truncate_message long_message (pos 200)) ≤ 200
length-truncate_message_example =
    length-truncate_message long_message 200 (omega arith) (omega arith)

abbrev change : Change
change = record {
  event = event_deleted;
  path = bytes "/d/a";
  source = bytes "/d";
  old_hash = 1;
  new_hash = 0;
  old_size = pos 3;
  new_size = pos 0;
}

count_changes-change_lines_example :
    (length (change_lines (λ p. p) (change ∷ [])) ≡ 1)
    × (count_changes (change_lines (λ p. p) (change ∷ [])) ≡ 1)
count_changes-change_lines_example = count_changes-change_lines (λ p. p) (change ∷ [])

abbrev settings : Config
settings = record default_config {
  scripts =
      record {
        path = bytes "/usr/bin/alert";
        detail = bytes "full";
        timeout = bytes "30s";
        max_message_bytes = pos 200;
      }
      ∷ [];
}

abbrev validators : Validators
validators = record {
  validate_pattern = λ p. true;
  parse_duration = λ t. some (pos 30000000000);
  trim_space = λ t. t;
}

validates : validate validators settings ≡ none
unfolding validate text_eq check_script
validates = refl

validate-truncate_message_example :
    All
      (λ (s : ScriptConfig).
        (n : ℕ) × (s.max_message_bytes ≡ pos n)
        × (length (truncate_message long_message s.max_message_bytes) ≤ n))
      settings.scripts
validate-truncate_message_example =
    validate-truncate_message validators settings validates long_message (omega arith)

-- The message has six lines; two of them fit, and the trailer counts the other four.
long_message_cut :
    truncate_message long_message (pos 200)
    ≡ long_line
      ++ (long_line ++ (bytes "... and 4 more changes (see fmon history)" ++ newline ∷ []))
unfolding truncate_message decimal has_prefix trim_right
long_message_cut = refl
