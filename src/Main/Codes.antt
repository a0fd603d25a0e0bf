-- ===== src/Main/Codes.antt =====
-- main.go: the exit code, and the database.
use mathlib.Core.List.{reverse}
use fmon.Base.{
  ℕ, ◌≡◌, refl, ◌≢◌, ◌⊎◌, inl, inr, Bool, true, false, not, ◌&&◌, List, [], ◌∷◌, arith,
  if◌then◌else◌, ◌==◌, Text, nat_eq, text_equality,
}
use fmon.Base.Int.{ℤ, int_equality}
use fmon.Commands.{
  init, add, remove, print_entries, history, clear_history, clear_history_path, clear_history_all,
}
use fmon.Commands.Before.{Same, Undone-bind, Same-put_line, Same-normalize_path}
use fmon.Commands.Undone.{commands-Undone}
use fmon.Db.{Db}
use fmon.Db.History.{query_history}
use fmon.Exec.{
  Error, Env, aborted_line, no_history_line, history_line, created_line, World, Result, ok, err,
  Exec, pure, raise, modify, and_then, ◌>>=◌, ◌>>◌, put_line,
}
use fmon.Exec.Atomic.{Undone}
use fmon.Exec.Committed.{Returning}
use fmon.Exec.Keeps.{After, Keeps, Keeps-pure, Keeps-if, Keeps-sql, Keeps-bind}
use fmon.Listing.Reads.{Unchanged, list-Unchanged}
use fmon.Listing.Table.{list}
use fmon.Main.Args.{
  SubFlags, command_scan, command_init, command_clear, command_add, command_rm, command_history,
  command_list,
}
use fmon.Main.Run.{
  put_error, fail_with, is_panic, handled, or_fail, is_aborted, ended, finish_with, print_scan,
  first_argument, or_empty, scan_code, report_scan, run_scan, done, run_add, run_remove, run_clear,
  dispatch,
}
use fmon.Main.Setup.{ConfigPaths, Libraries}
use fmon.Models.{HistoryEntry}
use fmon.Notify.Delivery.{Sink}
use fmon.Notify.Sinks.{notify}
use fmon.Queries.{reading, query_history_entries}
use fmon.Report.{Report}
use fmon.Scanner.Atomicity.{scan-Undone}
use fmon.Scanner.Plan.{normalize_path}
use fmon.Scanner.Scan.{scan}

-- The code is not that of a fatal error, or the tables are as they were.
abbrev pub Spared : Db → Result ℕ × World → Type 0
Spared before (ok code, w) = (code ≢ 1) ⊎ (w.tables ≡ before)
Spared before (err e, w) = Unit

-- The action never gives the code of a fatal error.
record NeverOne (m : Exec ℕ) : Type 0 where
  pub at : (env : Env) (w : World) → Returning (λ code _. code ≢ 1) (m env w)

NeverOne-pure : (n : ℕ) → n ≢ 1 → NeverOne (pure n)
unfolding pure
NeverOne-pure n h = record { at = λ env w. h }

NeverOne-bind :
    {A : Type 0} (m : Exec A) (k : A → Exec ℕ) → ((a : A) → NeverOne (k a)) → NeverOne (m >>= k)
unfolding ◌>>=◌
NeverOne-bind {A} m k h = record { at = λ env w. by_result env (m env w) }
  where
    by_result :
        (env : Env) (o : Result A × World) → Returning (λ code _. code ≢ 1) (and_then env k o)
    by_result env (ok a, w) = (h a).at env w
    by_result env (err e, w) = tt

NeverOne-if : (b : Bool) (m n : Exec ℕ) → NeverOne m → NeverOne n → NeverOne (if b then m else n)
NeverOne-if true m n km kn = km
NeverOne-if false m n km kn = kn

Spared-never : (d : Db) (o : Result ℕ × World) → Returning (λ code _. code ≢ 1) o → Spared d o
Spared-never d (ok code, w) h = inl h
Spared-never d (err e, w) h = tt

Spared-fail :
    (d : Db) (e : Error) (env : Env) (w : World) → w.tables ≡ d → Spared d (fail_with e env w)
unfolding fail_with put_error modify pure ◌>>=◌
Spared-fail d e env w h = inr h

-- A panic ends the program without an exit code of run.
Spared-panic :
    (d : Db) (e : Error) (m : Exec ℕ) (env : Env) (w : World)
    → Spared d (m env w)
    → Spared d ((if is_panic e then raise e else m) env w)
unfolding raise
Spared-panic d e m env w h = by_test (is_panic e)
  where
    by_test : (b : Bool) → Spared d ((if b then raise e else m) env w)
    by_test true = tt
    by_test false = h

-- The command has undone its writes when it fails.
Undoes : {A : Type 0} → Exec A → Type 0
Undoes m = (env : Env) (w : World) → Undone w.tables (m env w)

Spared-or_fail :
    {A : Type 0} (m : Exec A) (k : A → Exec ℕ)
    → Undoes m
    → ((a : A) → NeverOne (k a))
    → (env : Env) (w : World) → Spared w.tables (or_fail m k env w)
unfolding or_fail Undoes
Spared-or_fail {A} m k undoes never env w = by_result (m env w) (undoes env w)
  where
    by_result : (o : Result A × World) → Undone w.tables o → Spared w.tables (handled env k o)
    by_result (ok a, u) h = Spared-never w.tables (k a env u) ((never a).at env u)
    by_result (err e, u) h =
        Spared-panic w.tables e (fail_with e) env u (Spared-fail w.tables e env u h)

Spared-finish_with :
    (m : Exec (Unit {0})) (k : Exec ℕ)
    → Undoes m
    → NeverOne k
    → (env : Env) (w : World) → Spared w.tables (finish_with m k env w)
unfolding finish_with Undoes
Spared-finish_with m k undoes never env w = by_result (m env w) (undoes env w)
  where
    by_error :
        (b : Bool) (e : Error) (u : World)
        → u.tables ≡ w.tables
        → Spared w.tables ((if b then put_error aborted_line >> pure 1 else fail_with e) env u)
    by_error true e u h = unfold put_error modify pure ◌>>=◌ in inr h
    by_error false e u h = Spared-fail w.tables e env u h

    by_result :
        (o : Result (Unit {0}) × World) → Undone w.tables o → Spared w.tables (ended env k o)
    by_result (ok _, u) h = Spared-never w.tables (k env u) (never.at env u)
    by_result (err e, u) h = Spared-panic w.tables e _ env u (by_error (is_aborted e) e u h)

Undone-Same : {A : Type 0} (d : Db) (o : Result A × World) → After (Same d) (Same d) o → Undone d o
Undone-Same d (ok a, w) h = tt
Undone-Same d (err e, w) h = h

Undoes-list : (files : Bool) (p : Text) → Undoes (list files p)
unfolding Undoes
Undoes-list files p env w = by_result (list files p env w) (list-Unchanged files p env w)
  where
    by_result :
        (o : Result (Unit {0}) × World) → After (Unchanged w) (Unchanged w) o → Undone w.tables o
    by_result (ok _, u) h = tt
    by_result (err e, u) h = h.0

Same-print_entries : (d : Db) (es : List HistoryEntry) → Keeps (Same d) (Same d) (print_entries es)
unfolding print_entries
Same-print_entries d [] = Keeps-pure tt
Same-print_entries d (e ∷ es) =
    Keeps-bind _ _ (Same-put_line d (history_line e)) λ _. Same-print_entries d es

Same-history : (d : Db) (p : Text) (n : ℤ) → Keeps (Same d) (Same d) (history p n)
unfolding history query_history_entries
Same-history d p n =
    Keeps-bind _ _ (Keeps-if (p == []) _ _ (λ _. Keeps-pure p) (λ _. Same-normalize_path d p))
      λ abs.
        Keeps-bind _ _
          (Keeps-sql (reading (query_history abs n)) (λ w h. h) (λ w a v h e. ground arith))
          by_entries
  where
    by_entries :
        (es : List HistoryEntry)
        → Keeps {0} {A = Unit {0}} (Same d) (Same d) (elim es [
          | [] ↦ put_line no_history_line
          | e ∷ es' ↦ print_entries (reverse (e ∷ es'))
        ])
    by_entries [] = Same-put_line d no_history_line
    by_entries (e ∷ es) = Same-print_entries d (reverse (e ∷ es))

Undoes-history : (p : Text) (n : ℤ) → Undoes (history p n)
unfolding Undoes
Undoes-history p n env w =
    Undone-Same w.tables (history p n env w) ((Same-history w.tables p n).at env w refl)

Undoes-clear_path : (p : Text) → Undoes (clear_history_path p)
unfolding Undoes clear_history_path
Undoes-clear_path p env w =
    Undone-bind w.tables (normalize_path p) clear_history env w (Same-normalize_path w.tables p)
      refl λ abs u. (commands-Undone [] abs false env u).3

module _ (lib : Libraries) where
  NeverOne-done : NeverOne (done lib)
  NeverOne-done = NeverOne-pure 0 (λ e. grind arith)

  NeverOne-code : (rep : Report) (errs : List (Sink × Error)) → scan_code lib rep errs ≢ 1
  NeverOne-code rep errs e = ground arith

  NeverOne-report_scan : (rep : Report) → NeverOne (report_scan lib rep)
  unfolding report_scan
  NeverOne-report_scan rep = NeverOne-bind (print_scan lib.formats rep) _ λ _.
      NeverOne-bind (notify lib.formats lib.validators rep) _
        λ errs. NeverOne-pure (scan_code lib rep errs) (NeverOne-code rep errs)

  Undoes-scan : (full : Bool) (only : List Text) → Undoes (scan full only)
  unfolding Undoes
  Undoes-scan full only env w = scan-Undone full only env w

  Undoes-add : (p : Text) → Undoes (add p)
  unfolding Undoes
  Undoes-add p env w = (commands-Undone p [] false env w).0

  Undoes-remove : (p : Text) → Undoes (remove p)
  unfolding Undoes
  Undoes-remove p env w = (commands-Undone p [] false env w).1

  Undoes-init : (b : Bool) → Undoes (init b)
  unfolding Undoes
  Undoes-init b env w = (commands-Undone [] [] b env w).2

  Undoes-clear_all : Undoes clear_history_all
  unfolding Undoes clear_history_all
  Undoes-clear_all env w = (commands-Undone [] [] false env w).3

  -- The action spares the tables when it ends with a fatal error.
  Spares : Exec ℕ → Type 0
  Spares m = (env : Env) (w : World) → Spared w.tables (m env w)

  Spares-if : (b : Bool) (m n : Exec ℕ) → Spares m → Spares n → Spares (if b then m else n)
  Spares-if true m n km kn = km
  Spares-if false m n km kn = kn

  Spares-plain : (m : Exec (Unit {0})) → Undoes m → Spares (finish_with m (done lib))
  unfolding Spares
  Spares-plain m h = Spared-finish_with m (done lib) h NeverOne-done

  Spares-done : Spares (done lib)
  unfolding Spares pure
  Spares-done env w = inl (λ e. grind arith)

  Spares-run_scan :
      (flags : SubFlags) (positional : List Text) → Spares (run_scan lib flags positional)
  unfolding Spares run_scan
  Spares-run_scan flags positional =
      Spared-or_fail (scan flags.full positional) (report_scan lib)
        (Undoes-scan flags.full positional) NeverOne-report_scan

  Spares-run_add :
      (b : Bool) (paths : ConfigPaths) (flags : SubFlags) (positional : List Text)
      → Spares (run_add lib b paths flags positional)
  unfolding Spares run_add first_argument raise pure ◌>>=◌
  Spares-run_add b paths flags [] env w = tt
  Spares-run_add b paths flags (p ∷ ps) env w =
      Spared-finish_with (add p) _ (Undoes-add p)
        (NeverOne-if (not b && not flags.globals.quiet) _ _
          (NeverOne-bind (put_line (created_line paths.config_path)) _ λ _. NeverOne-done)
          NeverOne-done)
        env w

  Spares-run_remove : (positional : List Text) → Spares (run_remove lib positional)
  unfolding Spares run_remove first_argument raise pure ◌>>=◌
  Spares-run_remove [] env w = tt
  Spares-run_remove (p ∷ ps) env w = Spares-plain (remove p) (Undoes-remove p) env w

  Undoes-if : (b : Bool) (m n : Exec (Unit {0})) → Undoes m → Undoes n → Undoes (if b then m else n)
  Undoes-if true m n km kn = km
  Undoes-if false m n km kn = kn

  Spares-run_clear : (flags : SubFlags) → Spares (run_clear lib flags)
  unfolding run_clear
  Spares-run_clear flags = Spares-plain _ (
      Undoes-if flags.all _ _ (Undoes-init flags.globals.yes_flag)
        (Undoes-if flags.history_all _ _ Undoes-clear_all (Undoes-clear_path flags.path)))

  -- Whichever command runs, and whatever it meets: if the exit code is that of a fatal error, then the
  -- tables are as the command found them.
  pub dispatch-Spared :
      (cmd : Text) (config_existed : Bool) (paths : ConfigPaths) (flags : SubFlags)
      (positional : List Text) (env : Env) (w : World)
      → Spared w.tables (dispatch lib cmd config_existed paths flags positional env w)
  unfolding dispatch Spares
  dispatch-Spared cmd b paths flags positional =
      Spares-if (cmd == command_scan) _ _ (Spares-run_scan flags positional) (
        Spares-if (cmd == command_list) _ _
          (Spares-plain (list flags.files (or_empty positional))
            (Undoes-list flags.files (or_empty positional)))
          (Spares-if (cmd == command_init) _ _
            (Spares-plain (init flags.globals.yes_flag) (Undoes-init flags.globals.yes_flag))
            (Spares-if (cmd == command_add) _ _ (Spares-run_add b paths flags positional) (
              Spares-if (cmd == command_rm) _ _ (Spares-run_remove positional) (
                Spares-if (cmd == command_history) _ _
                  (Spares-plain (history (or_empty positional) flags.limit)
                    (Undoes-history (or_empty positional) flags.limit))
                  (Spares-if (cmd == command_clear) _ _ (Spares-run_clear flags) Spares-done))))))
