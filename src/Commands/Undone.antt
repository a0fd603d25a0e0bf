-- ===== src/Commands/Undone.antt =====
-- add, remove, init and clear are all or nothing for the tables.
use fmon.Base.{refl, Bool, true, false, not, ◌||◌, Option, none, some, List, ltb, length, Text}
use fmon.Base.Int.{ℤ}
use fmon.Commands.{
  init_body, finish_init, consent, init, add_body, finish_add, end_add, add_as, add_stat,
  add_resolved, add, remove_body, finish_remove, remove, finish_clear, clear_history,
}
use fmon.Commands.Before.{
  Undone-bind, Same-ask, Same-now, Same-infof, Same-normalize_path, Same-has_data, Same-consent,
}
use fmon.Commands.Open.{Keeps-init_body, Keeps-add_body, Keeps-remove_body, Keeps-clear}
use fmon.Db.{Db}
use fmon.Exec.{
  not_watchable, EntryKind, is_dir, is_regular, is_special, FileInfo, Outcome, found, failed, Env,
  resolves_line, World, Exec, raise, ask, gets, ◌>>=◌, ◌>>◌, now,
}
use fmon.Exec.Atomic.{IsOpen, Undone, commit_then, Undone-commit_then, with_tx-Undone}
use fmon.Exec.Keeps.{Keeps-pure, Keeps-gets, Keeps-if}
use fmon.Exec.Tx.{deferred, with_tx}
use fmon.Models.{SourceType, source_file, source_folder}
use fmon.Paths.{equal_path}
use fmon.Paths.Clean.{clean}
use fmon.Queries.{clear_history_log, has_data}
use fmon.Scanner.Plan.{normalize_path}

module _ (arg : Text) (env : Env) (w : World) where
  clear_history-Undone : Undone w.tables (clear_history arg env w)
  unfolding clear_history
  clear_history-Undone =
      with_tx-Undone (commit_then finish_clear) (Undone-commit_then finish_clear)
        (clear_history_log arg) (λ before. Keeps-clear before arg) env w

  remove-Undone : Undone w.tables (remove arg env w)
  unfolding remove
  remove-Undone =
      with_tx-Undone (commit_then finish_remove) (Undone-commit_then finish_remove)
        (remove_body arg) (λ before. Keeps-remove_body before arg) env w

Undone-end_add :
    (started : ℤ) (p : Text) (typ : SourceType) (b : Bool) (before : Db) (env : Env) (w : World)
    → IsOpen before w
    → Undone before (deferred (end_add started p typ b env w))
unfolding end_add
Undone-end_add started p typ false before env w h = tt
Undone-end_add started p typ true before env w h =
    Undone-commit_then (finish_add started p typ) tt before env w h

add_as-Undone :
    (started : ℤ) (p : Text) (typ : SourceType) (env : Env) (w : World)
    → Undone w.tables (add_as started p typ env w)
unfolding add_as
add_as-Undone started p typ env w =
    with_tx-Undone (end_add started p typ) (Undone-end_add started p typ) (add_body p typ)
      (λ before. Keeps-add_body before p typ) env w

init_tx-Undone :
    (env : Env) (w : World)
    → Undone w.tables (with_tx (init_body >>= commit_then finish_init) env w)
init_tx-Undone env w =
    with_tx-Undone (commit_then finish_init) (Undone-commit_then finish_init) init_body
      Keeps-init_body env w

-- What Init does once it knows whether the database has rows.
abbrev init_rest : Bool → Bool → Exec (Unit {0})
init_rest assume_yes has = gets (λ w. w.cfg.sources) >>= λ sources.
    consent (has || ltb 0 (length sources)) assume_yes
    >> with_tx (init_body >>= commit_then finish_init)

init-Undone : (assume_yes : Bool) (env : Env) (w : World) → Undone w.tables (init assume_yes env w)
unfolding init
init-Undone b env w =
    let tx = with_tx (init_body >>= commit_then finish_init) in
    Undone-bind w.tables has_data (init_rest b) env w (Same-has_data w.tables) refl λ has w1.
      Undone-bind w1.tables (gets (λ (v : World). v.cfg.sources))
        (λ (sources : List Text). consent (has || ltb 0 (length sources)) b >> tx) env w1
        (Keeps-gets (λ (v : World). v.cfg.sources)) refl
        λ sources w2.
          Undone-bind w2.tables (consent (has || ltb 0 (length sources)) b) (λ _. tx) env w2
            (Same-consent w2.tables (has || ltb 0 (length sources)) b) refl
            λ _ w3. init_tx-Undone env w3

add_stat-Undone :
    (started : ℤ) (p : Text) (o : Outcome FileInfo) (env : Env) (w : World)
    → Undone w.tables (add_stat started p o env w)
unfolding add_stat raise
add_stat-Undone started p (failed e) env w = refl
add_stat-Undone started p (found info) env w = by_kind info.kind
  where
    by_kind :
        (k : EntryKind)
        → Undone {A = Unit {0}} w.tables (
            (elim k as (λ _. Exec (Unit {0})) [
              | is_dir ↦ add_as started p source_folder
              | is_regular ↦ add_as started p source_file
              | is_special ↦ raise (not_watchable p)
            ])
              env w)
    by_kind is_dir = add_as-Undone started p source_folder env w
    by_kind is_regular = add_as-Undone started p source_file env w
    by_kind is_special = refl

add_resolved-Undone :
    (started : ℤ) (abs : Text) (o : Option Text) (env : Env) (w : World)
    → Undone w.tables (add_resolved started abs o env w)
unfolding add_resolved raise
add_resolved-Undone started abs none env w = refl
add_resolved-Undone started abs (some link) env w =
    Undone-bind w.tables _
      (λ _. ask (λ env n. env.stat n (clean link)) >>= add_stat started (clean link)) env w
      (Keeps-if (not (equal_path (clean link) abs)) _ _
        (λ _. Same-infof w.tables (resolves_line abs (clean link))) (λ _. Keeps-pure tt))
      refl
      λ _ w1.
        Undone-bind w1.tables _ (add_stat started (clean link)) env w1
          (Same-ask w1.tables (λ env n. env.stat n (clean link))) refl
          λ info w2. add_stat-Undone started (clean link) info env w2

add-Undone : (arg : Text) (env : Env) (w : World) → Undone w.tables (add arg env w)
unfolding add
add-Undone arg env w =
    let ask_link : Text → Exec (Option Text) = λ abs. ask (λ env n. env.eval_symlinks n abs) in
    Undone-bind w.tables now
      (λ started. normalize_path arg >>= λ abs. ask_link abs >>= add_resolved started abs) env w
      (Same-now w.tables) refl
      λ started w1.
        Undone-bind w1.tables (normalize_path arg)
          (λ abs. ask_link abs >>= add_resolved started abs) env w1
          (Same-normalize_path w1.tables arg) refl
          λ abs w2.
            Undone-bind w2.tables (ask_link abs) (add_resolved started abs) env w2
              (Same-ask w2.tables (λ env n. env.eval_symlinks n abs)) refl
              λ link w3. add_resolved-Undone started abs link env w3

-- Whatever the outside world answers, and wherever they fail (a refused confirmation, a path that
-- cannot be read, the database, the writing of fmon.toml): `add`, `rm`, `init` and `history clear`
-- leave the tables as they were when they return an error.
pub commands-Undone :
    (arg path : Text) (assume_yes : Bool) (env : Env) (w : World)
    → Undone w.tables (add arg env w)
      × Undone w.tables (remove arg env w)
      × Undone w.tables (init assume_yes env w)
      × Undone w.tables (clear_history path env w)
commands-Undone arg path b env w = (
  add-Undone arg env w,
  remove-Undone arg env w,
  init-Undone b env w,
  clear_history-Undone path env w,
)
