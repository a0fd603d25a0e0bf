-- ===== src/Commands/Open.antt =====
-- The statements of the commands keep their transaction open.
use fmon.Base.{false, Option, none, some, List, [], ◌∷◌, ◌==◌, Text, nat_eq, text_equality}
use fmon.Base.Int.{int_equality}
use fmon.Commands.{
  save, save_or, init_body, index_source, save_source, add_unless, add_body, hinted, resolve_target,
  delete_target, remove_body,
}
use fmon.Config.{Config, add_source, remove_source}
use fmon.Db.{Db}
use fmon.Db.History.{clear_history_rows}
use fmon.Exec.{save_failed, World, Result, ok, err, pure, raise, modify, ◌>>◌, change_report}
use fmon.Exec.Atomic.{IsOpen, IsRecoverable, recover_open}
use fmon.Exec.Keeps.{
  After, Keeps, Keeps-pure, Keeps-gets, Keeps-if, Keeps-sql, Keeps-modify, Keeps-bind, keeps_rules,
}
use fmon.Exec.Tx.{sql}
use fmon.Models.{SourceType, Source}
use fmon.Queries.{clear_history_log, reset_all}
use fmon.Report.{nothing_added, Report}
use fmon.Scanner.Atomicity.{IsOpen-Stable}
use fmon.Scanner.Stable.Actions.{
  Keeps-question, Keeps-fail, Keeps-warnf, Keeps-delete_source, action_rules,
}
use fmon.Scanner.Stable.Files.{Keeps-scan_source}
use fmon.Scanner.Stable.Plans.{Keeps-resolve_watched_source}

-- Any statement, question or message keeps the transaction open.
module _ (before : Db) where
  pub any_sql {ℓ} :
      {A : Type ℓ} (run : Db → Option (A × Db))
      → Keeps (IsOpen before) (IsRecoverable before) (sql run)
  any_sql run = Keeps-sql run (λ w h. recover_open before _ h) (λ w a d h e. h)

  pub any_config :
      (f : Config → Config)
      → Keeps (IsOpen before) (IsRecoverable before) (modify λ w. record w { cfg = f w.cfg })
  any_config f = Keeps-modify _ (λ w h. h)

  pub Keeps-save : Keeps (IsOpen before) (IsRecoverable before) save
  unfolding save
  Keeps-save =
      Keeps-bind _ _ (Keeps-question (IsOpen-Stable before) (λ env n. env.save_fault n)) by_fault
    where
      by_fault :
          (o : Option Text)
          → Keeps {0} {A = Option Text} (IsOpen before) (IsRecoverable before) (elim o [
            | some m ↦ pure (some m)
            | none ↦ (do modify (λ w. record w { config_file = w.cfg }); pure none)
          ])
      by_fault (some m) = Keeps-pure (some m)
      by_fault none =
          Keeps-bind _ _ (Keeps-modify (λ w. record w { config_file = w.cfg }) (λ w h. h))
            λ _. Keeps-pure none

  pub Keeps-save_or :
      (undo : Config → Config) → Keeps (IsOpen before) (IsRecoverable before) (save_or undo)
  Keeps-save_or undo = Keeps-bind _ _ Keeps-save by_fault
    where
      by_fault :
          (o : Option Text)
          → Keeps {0} {A = Unit {0}} (IsOpen before) (IsRecoverable before) (elim o [
            | none ↦ pure tt
            | some m ↦ (do modify (λ w. record w { cfg = undo w.cfg }); raise (save_failed m))
          ])
      by_fault none = Keeps-pure _
      by_fault (some m) =
          Keeps-bind _ _ (any_config undo) λ _. Keeps-fail (IsOpen-Stable before) (save_failed m)

  pub Keeps-reset_all : Keeps (IsOpen before) (IsRecoverable before) reset_all
  unfolding reset_all
  Keeps-reset_all = search (any_sql, keeps_rules) depth 9

  pub Keeps-init_body : Keeps (IsOpen before) (IsRecoverable before) init_body
  unfolding init_body
  Keeps-init_body = search (Keeps-reset_all, Keeps-modify, Keeps-save_or, keeps_rules)

  pub any_report :
      (f : Report → Report) → Keeps (IsOpen before) (IsRecoverable before) (change_report f)
  unfolding change_report
  any_report f = Keeps-modify _ (λ w h. h)

  pub Keeps-index_source :
      (p : Text) (typ : SourceType)
      → Keeps (IsOpen before) (IsRecoverable before) (index_source p typ)
  unfolding index_source
  Keeps-index_source p typ =
      search (action_rules, IsOpen-Stable, any_report, Keeps-scan_source) depth 14

  pub Keeps-save_source : (p : Text) → Keeps (IsOpen before) (IsRecoverable before) (save_source p)
  unfolding save_source
  Keeps-save_source p =
      Keeps-bind _ _ (any_config (add_source p)) λ _. Keeps-save_or (remove_source p)

  pub Keeps-add_unless :
      (p : Text) (typ : SourceType) (o : Option Text)
      → Keeps (IsOpen before) (IsRecoverable before) (add_unless p typ o)
  unfolding add_unless
  Keeps-add_unless p typ none = search (Keeps-index_source, Keeps-save_source, keeps_rules)
  Keeps-add_unless p typ (some q) =
      Keeps-bind _ _ (Keeps-warnf (IsOpen-Stable before) (nothing_added p q)) λ _. Keeps-pure false

  pub Keeps-add_body :
      (p : Text) (typ : SourceType) → Keeps (IsOpen before) (IsRecoverable before) (add_body p typ)
  unfolding add_body
  Keeps-add_body p typ = search (action_rules, IsOpen-Stable, Keeps-add_unless) depth 9

  pub After-hinted :
      (r : Result Text × World)
      → After (IsOpen before) (IsRecoverable before) r
      → After (IsOpen before) (IsRecoverable before) (hinted r)
  unfolding hinted
  After-hinted (ok t, w) h = h
  After-hinted (err e, w) h = h

  pub Keeps-resolve_target :
      (arg : Text) → Keeps (IsOpen before) (IsRecoverable before) (resolve_target arg)
  unfolding resolve_target
  Keeps-resolve_target arg = record {
    at = λ env w h. After-hinted _ (
        (Keeps-bind _ _ (Keeps-gets (λ w. w.cfg.sources))
            (λ sources. Keeps-resolve_watched_source (IsOpen-Stable before) sources arg)).at
          env w h);
  }

  pub Keeps-delete_target :
      (target : Text) (ss : List Source)
      → Keeps (IsOpen before) (IsRecoverable before) (delete_target target ss)
  unfolding delete_target
  Keeps-delete_target target [] = Keeps-pure tt
  Keeps-delete_target target (s ∷ ss) =
      Keeps-if (s.path == target) _ _ (λ _. Keeps-delete_source (IsOpen-Stable before) s.id)
        (λ _. Keeps-delete_target target ss)

  pub Keeps-remove_body :
      (arg : Text) → Keeps (IsOpen before) (IsRecoverable before) (remove_body arg)
  unfolding remove_body
  Keeps-remove_body arg =
      search
        (
          action_rules, IsOpen-Stable, Keeps-resolve_target, Keeps-delete_target, Keeps-modify,
          Keeps-save_or,
        )
        depth 14

  pub Keeps-clear :
      (path : Text) → Keeps (IsOpen before) (IsRecoverable before) (clear_history_log path)
  unfolding clear_history_log
  Keeps-clear path = any_sql (λ d. some (clear_history_rows path d))
