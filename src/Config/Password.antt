-- ===== src/Config/Password.antt =====
-- config.go: Password, the secret of the mail account.
use fmon.Base.{ℕ, ◌%◌, Bool, not, ◌||◌, [], ◌∷◌, if◌then◌else◌, ◌==◌, Text, nat_eq, text_equality}
use fmon.Base.Int.{int_equality}
use fmon.Config.{SmtpConfig}
use fmon.Exec.{
  io_failed, password_exposed, Outcome, found, failed, Exec, pure, raise, ask, ◌>>=◌, ◌>>◌,
  error_text,
}

abbrev is_line_end : ℕ → Bool
is_line_end c = c == b'\n' || c == b'\r'

-- `strings.TrimRight(s, "\r\n")`
unfoldable pub trim_line_ends : Text → Text
trim_line_ends [] = []
trim_line_ends (x ∷ xs) =
    let rest = trim_line_ends xs in
    elim rest [ [] ↦ if is_line_end x then [] else x ∷ [] | y ∷ ys ↦ x ∷ y ∷ ys ]

-- `info.Mode().Perm() & 0o077 != 0`: one of the six bits of the group and of the others is set.
abbrev pub is_exposed : ℕ → Bool
is_exposed mode = not (mode % 64 == 0)

unfoldable pub read_password : Text → Outcome Text → Exec Text
unfolding trim_line_ends raise pure
read_password path (failed e) = raise (io_failed (error_text e))
read_password path (found content) = pure (trim_line_ends content)

unfoldable pub check_mode : Text → Outcome ℕ → Exec (Unit {0})
unfolding raise pure
check_mode path (failed e) = raise (io_failed (error_text e))
check_mode path (found mode) = if is_exposed mode then raise (password_exposed path) else pure tt

unfoldable pub password : SmtpConfig → Exec Text
unfolding ask read_password check_mode pure ◌>>=◌
password s =
    if not (s.password_file == [])
    then (do
      mode ← ask (λ env n. env.file_mode n s.password_file)
      check_mode s.password_file mode
      content ← ask (λ env n. env.read_file n s.password_file)
      read_password s.password_file content)
    else if not (s.password_env == [])
    then ask (λ env n. env.getenv n s.password_env)
    else pure []
