-- ===== src/Notify/Limits.antt =====
-- The limits of truncateMessage, for the limits that Validate lets pass.
use fmon.Base.{ℕ, ◌^◌, ◌≤◌, ◌<◌, ◌≡◌, none, length, All, All-map, Text}
use fmon.Base.Int.{pos}
use fmon.Config.{ScriptConfig, Config, Validators, validate}
use fmon.Config.Valid.{IsUsableScript, validate-IsUsable}
use fmon.Notify.{truncate_message}
use fmon.Notify.Size.{length-truncate_message}

-- With settings that pass Validate, no message is longer than the limit of the script it is for.
pub validate-truncate_message :
    (v : Validators) (c : Config)
    → validate v c ≡ none
    → (msg : Text) → length msg < 2 ^ 63
    → All
        (λ (s : ScriptConfig).
          (n : ℕ) × (s.max_message_bytes ≡ pos n)
          × (length (truncate_message msg s.max_message_bytes) ≤ n))
        c.scripts
validate-truncate_message v c ok_c msg short =
    All-map (IsUsableScript v) _ c.scripts limited (validate-IsUsable v c ok_c).4
  where
    limited :
        (s : ScriptConfig)
        → IsUsableScript v s
        → (n : ℕ) × (s.max_message_bytes ≡ pos n)
          × (length (truncate_message msg s.max_message_bytes) ≤ n)
    limited s u = let (n, e, low) = u.3 in (n, e, rw e (length-truncate_message msg n low short))
