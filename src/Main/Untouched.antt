-- ===== src/Main/Untouched.antt =====
-- main.go: the start where fmon was never set up, or has lost its settings.
use mathlib.Core.Path.{subst}
use fmon.Base.{
  ℕ, suc, ◌≡◌, refl, sym, ◌⊎◌, inl, inr, Bool, true, false, not, ◌&&◌, ◌||◌, List, arith,
  if◌then◌else◌, Bool-cases, ◌==◌, Text, text_eq, text_eq_iff, nat_eq, text_equality,
}
use fmon.Base.Int.{int_equality}
use fmon.Exec.{
  Error, not_initialized, config_missing, not_exist, not_dir, other_error, FileInfo, Outcome, found,
  failed, Env, World, Result, ok, err, Exec, pure, raise, ask, modify, ◌>>=◌, put_line,
}
use fmon.Exec.Keeps.{After, Keeps, Keeps-pure, Keeps-raise, Keeps-ask, Keeps-bind, Succeeds}
use fmon.Listing.Reads.{Unchanged}
use fmon.Main.Args.{
  SubFlags, command_scan, command_init, command_add, command_rm, command_history, command_list,
}
use fmon.Main.Run.{put_error, fail_with, is_panic, handled, or_fail, decide_start, set_up_in}
use fmon.Main.Setup.{ConfigPaths, Libraries, known_file, file_exists}

exists_none :
    (p : Text) (env : Env) (w : World)
    → ((n : ℕ) → env.stat n p ≡ failed not_exist)
    → file_exists p env w ≡ (ok false, record w { tick = suc w.tick })
unfolding file_exists known_file ask pure ◌>>=◌
exists_none p env w h = rw (h w.tick) refl

exists_Unchanged :
    (before : World) (p : Text) → Keeps (Unchanged before) (Unchanged before) (file_exists p)
unfolding file_exists known_file
exists_Unchanged before p = Keeps-bind _ _ (Keeps-ask (λ env n. env.stat n p) (λ w h. h)) by_outcome
  where
    by_outcome :
        (o : Outcome FileInfo) → Keeps (Unchanged before) (Unchanged before) (known_file p o)
    by_outcome (found info) = Keeps-pure true
    by_outcome (failed not_exist) = Keeps-pure false
    by_outcome (failed not_dir) = Keeps-raise _ (λ w h. h)
    by_outcome (failed (other_error m)) = Keeps-raise _ (λ w h. h)

-- The exit code for a command that is refused: `list` and `history` only print a hint.
abbrev pub refusal_code : Text → ℕ
refusal_code cmd = if cmd == command_list || cmd == command_history then 0 else 1

-- The command was refused and nothing was touched.
abbrev pub Refused : Text → World → Result ℕ × World → Type 0
Refused cmd before o = Succeeds (λ code u. (code ≡ refusal_code cmd) × Unchanged before u) o

fail_Refused :
    (cmd : Text) (before : World) (e : Error) (env : Env) (w : World)
    → (cmd == command_list || cmd == command_history) ≡ false
    → Unchanged before w
    → Refused cmd before (fail_with e env w)
unfolding fail_with put_error modify pure ◌>>=◌
fail_Refused cmd before e env w h same = rw h (refl, same)

-- A command that is `scan` or `rm` is neither of those that only print.
scan_or_rm :
    (cmd : Text)
    → (cmd == command_scan || cmd == command_rm) ≡ true
    → (cmd == command_list || cmd == command_history) ≡ false
unfolding text_eq
scan_or_rm cmd h = by_scan (Bool-cases (cmd == command_scan))
  where
    by_scan :
        ((cmd == command_scan) ≡ true) ⊎ ((cmd == command_scan) ≡ false)
        → (cmd == command_list || cmd == command_history) ≡ false
    by_scan (inl e) =
        subst (λ c. (c == command_list || c == command_history) ≡ false)
          (sym ((text_eq_iff cmd command_scan).0 e)) refl
    by_scan (inr e) =
        subst (λ c. (c == command_list || c == command_history) ≡ false)
          (sym ((text_eq_iff cmd command_rm).0 (ground arith))) refl

-- The action ends without the panic.
abbrev HasNoPanic : {A : Type 0} → Result A × World → Type 0
HasNoPanic (ok a, w) = Unit
HasNoPanic (err e, w) = is_panic e ≡ false

exists_calm : (p : Text) (env : Env) (w : World) → HasNoPanic (file_exists p env w)
unfolding file_exists ask known_file raise pure ◌>>=◌
exists_calm p env w = by_outcome (env.stat w.tick p)
  where
    by_outcome :
        (o : Outcome FileInfo) → HasNoPanic (known_file p o env (record w { tick = suc w.tick }))
    by_outcome (found i) = tt
    by_outcome (failed not_exist) = tt
    by_outcome (failed not_dir) = refl
    by_outcome (failed (other_error m)) = refl

module _ (lib : Libraries) (cmd : Text) (paths : ConfigPaths) (flags : SubFlags)
    (positional : List Text) (other : (cmd == command_init || cmd == command_add) ≡ false) where
  Refused-if :
      (before : World) (b : Bool) (m n : Exec ℕ) (env : Env) (w : World)
      → (b ≡ true → Refused cmd before (m env w))
      → (b ≡ false → Refused cmd before (n env w))
      → Refused cmd before ((if b then m else n) env w)
  Refused-if before true m n env w km kn = km refl
  Refused-if before false m n env w km kn = kn refl

  -- Neither file is there.
  decide-Refused :
      (before : World) (env : Env) (w : World)
      → Unchanged before w
      → Refused cmd before (decide_start lib cmd false false paths flags positional env w)
  unfolding decide_start put_line modify pure ◌>>=◌
  decide-Refused before env w same =
      Refused-if before (not (cmd == command_init) && not (cmd == command_add)) _ _ env w
        (λ _.
          Refused-if before (cmd == command_list || cmd == command_history) _ _ env w
            (λ e. rw e (refl, same))
            (λ e. fail_Refused cmd before (not_initialized paths.config_path) env w e same))
        (λ e. absurd (ground arith))

  -- The database is there.
  decide-Refused_db :
      (before : World) (env : Env) (w : World)
      → (cmd == command_scan || cmd == command_rm) ≡ true
      → Unchanged before w
      → Refused cmd before (decide_start lib cmd false true paths flags positional env w)
  unfolding decide_start
  decide-Refused_db before env w h same =
      Refused-if before (cmd == command_scan || (cmd == command_add || cmd == command_rm)) _ _ env w
        (λ _.
          fail_Refused cmd before (config_missing paths.config_path) env w (scan_or_rm cmd h) same)
        (λ e. absurd (ground arith))

  -- Without fmon.toml, and without a database or for `scan` and `rm` also with one, every command but
  -- `init` and `add` ends before anything is made: no directory, no file, no row and no setting
  -- changes, and the exit code is 1, or 0 for `list` and `history`.
  pub set_up_in-Refused :
      (env : Env) (w : World)
      → ((n : ℕ) → env.stat n paths.config_path ≡ failed not_exist)
      → ((cmd == command_scan || cmd == command_rm) ≡ true)
        ⊎ ((n : ℕ) → env.stat n paths.db_path ≡ failed not_exist)
      → Refused cmd w (set_up_in lib cmd flags positional paths env w)
  unfolding set_up_in or_fail
  set_up_in-Refused env w missing which =
      rw (exists_none paths.config_path env w missing) (by_which which)
    where
      asked : World
      asked = record w { tick = suc w.tick }

      next : Bool → Exec ℕ
      next db_existed = decide_start lib cmd false db_existed paths flags positional

      by_result :
          (cmd == command_scan || cmd == command_rm) ≡ true
          → (o : Result Bool × World) → After (Unchanged w) (Unchanged w) o
          → HasNoPanic o
          → Refused cmd w (handled env next o)
      by_result h (ok false, u) same calm = decide-Refused w env u same
      by_result h (ok true, u) same calm = decide-Refused_db w env u h same
      by_result h (err e, u) same calm =
          rw calm (fail_Refused cmd w e env u (scan_or_rm cmd h) same)

      by_which :
          ((cmd == command_scan || cmd == command_rm) ≡ true)
            ⊎ ((n : ℕ) → env.stat n paths.db_path ≡ failed not_exist)
          → Refused cmd w (handled env next (file_exists paths.db_path env asked))
      by_which (inl h) =
          by_result h (file_exists paths.db_path env asked)
            ((exists_Unchanged w paths.db_path).at env asked (refl, refl, refl, refl, refl))
            (exists_calm paths.db_path env asked)
      by_which (inr h) = rw (exists_none paths.db_path env asked h) (
          decide-Refused w env (record asked { tick = suc asked.tick })
            (refl, refl, refl, refl, refl))
