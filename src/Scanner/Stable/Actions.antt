-- ===== src/Scanner/Stable/Actions.antt =====
-- The single steps: questions, messages and statements.
use mathlib.Core.Path.{subst}
use fmon.Base.{ℕ, suc, ◌≡◌, refl, Option, none, some, arith, Text}
use fmon.Base.Int.{ℤ}
use fmon.Db.{Db}
use fmon.Exec.{
  Error, Env, SourceScan, LogLine, StderrLine, World, raise, ask, now, check_canceled, warnf,
  non_fatal, vlogf, add_log, change_report, change_scan,
}
use fmon.Exec.Keeps.{After, Keeps, Keeps-raise, Keeps-ask, Keeps-sql, Keeps-modify, keeps_rules}
use fmon.Exec.Tx.{sql}
use fmon.Models.{SourceType, SourceStatus, Source, FileState, Change}
use fmon.Queries.{
  get_meta, delete_meta, insert_source, list_sources, set_source_status, delete_source,
  load_file_states, upsert_file_state, delete_file_state,
}
use fmon.Report.{Message, Report}
use fmon.Scanner.File.{emit}
use fmon.Scanner.Stable.{
  Statement, source_inserted, status_updated, source_deleted, file_upserted, file_deleted,
  meta_deleted, Stable,
}

module _ {P E : World → Type 0} (S : Stable P E) where
  pub Keeps-question {ℓ} : {A : Type ℓ} (f : Env → ℕ → A) → Keeps P E (ask f)
  Keeps-question f = Keeps-ask f (λ w h. S.quiet w _ h refl refl refl refl)

  pub Keeps-fail {ℓ} : {A : Type ℓ} (e : Error) → Keeps P E (raise {A = A} e)
  Keeps-fail e = Keeps-raise e (λ w h. S.failing w w h refl)

  pub Keeps-check_canceled : Keeps P E check_canceled
  unfolding check_canceled
  Keeps-check_canceled = search (keeps_rules, Keeps-question, Keeps-fail)

  pub Keeps-now : Keeps P E now
  unfolding now
  Keeps-now = search Keeps-question

  pub Keeps-warnf : (m : Message) → Keeps P E (warnf m)
  unfolding warnf
  Keeps-warnf m = Keeps-modify _ (λ w h. S.quiet w _ h refl refl refl refl)

  pub Keeps-non_fatal : (m : Message) → Keeps P E (non_fatal m)
  unfolding non_fatal
  Keeps-non_fatal m = Keeps-modify _ (λ w h. S.quiet w _ h refl refl refl refl)

  pub Keeps-add_log : (l : LogLine) → Keeps P E (add_log l)
  unfolding add_log
  Keeps-add_log l = Keeps-modify _ (λ w h. S.quiet w _ h refl refl refl refl)

  pub Keeps-vlogf : (l : StderrLine) → Keeps P E (vlogf l)
  unfolding vlogf
  Keeps-vlogf l =
      Keeps-modify _
        (λ w h. S.quiet w _ h (ground arith) (ground arith) (ground arith) (ground arith))

  pub Keeps-change_scan : (f : SourceScan → SourceScan) → Keeps P E (change_scan f)
  unfolding change_scan
  Keeps-change_scan f = Keeps-modify _ (λ w h. S.quiet w _ h refl refl refl refl)

  -- A change of the report that leaves the changes and the alerts alone.
  pub Keeps-change_report :
      (f : Report → Report)
      → ((r : Report) → (f r).changes ≡ r.changes)
      → ((r : Report) → (f r).alerts ≡ r.alerts)
      → Keeps P E (change_report f)
  unfolding change_report
  Keeps-change_report f c a = Keeps-modify _ (λ w h. S.quiet w _ h refl refl (c w.rep) (a w.rep))

  pub Keeps-reading {ℓ} : {A : Type ℓ} (f : Db → A) → Keeps P E (sql (λ d. some (f d, d)))
  Keeps-reading f =
      Keeps-sql _ (λ w h. S.failing w _ h refl)
        λ w a d h e. S.quiet w _ h refl (ground arith) refl refl

  pub Keeps-writing :
      (f : Db → Db)
      → ((d : Db) → Statement d (f d))
      → Keeps P E (sql {A = Unit {0}} (λ d. some (tt, f d)))
  Keeps-writing f s =
      Keeps-sql _ (λ w h. S.failing w _ h refl)
        λ w a d h e.
          S.statement w _ h refl (subst (Statement w.tables) (ground arith) (s w.tables)) refl refl

  pub Keeps-get_meta : (key : Text) → Keeps P E (get_meta key)
  unfolding get_meta
  Keeps-get_meta key = Keeps-reading _

  pub Keeps-list_sources : Keeps P E list_sources
  unfolding list_sources
  Keeps-list_sources = Keeps-reading _

  pub Keeps-load_file_states : (id : ℕ) → Keeps P E (load_file_states id)
  unfolding load_file_states
  Keeps-load_file_states id = Keeps-reading _

  pub Keeps-delete_meta : (key : Text) → Keeps P E (delete_meta key)
  unfolding delete_meta
  Keeps-delete_meta key = Keeps-writing _ (λ d. meta_deleted key)

  pub Keeps-set_source_status : (id : ℕ) (st : SourceStatus) → Keeps P E (set_source_status id st)
  unfolding set_source_status
  Keeps-set_source_status id st = Keeps-writing _ (λ d. status_updated id st)

  pub Keeps-delete_source : (id : ℕ) → Keeps P E (delete_source id)
  unfolding delete_source
  Keeps-delete_source id = Keeps-writing _ (λ d. source_deleted id)

  pub Keeps-delete_file_state : (p : Text) → Keeps P E (delete_file_state p)
  unfolding delete_file_state
  Keeps-delete_file_state p = Keeps-writing _ (λ d. file_deleted p)

  pub Keeps-insert_source :
      (p : Text) (typ : SourceType) (t : ℤ) → Keeps P E (insert_source p typ t)
  unfolding insert_source
  Keeps-insert_source p typ t =
      Keeps-sql _ (λ w h. S.failing w _ h refl)
        λ w id d h e. S.statement w _ h refl (source_inserted p typ t id e) refl refl

  pub Keeps-upsert_file_state : (s : FileState) → Keeps P E (upsert_file_state s)
  unfolding upsert_file_state
  Keeps-upsert_file_state s =
      Keeps-sql _ (λ w h. S.failing w _ h refl)
        λ w a d h e. S.statement w _ h refl (file_upserted s (ground arith)) refl refl

  -- A change and its record are one step.
  pub Keeps-emit : (src : Source) (c : Change) → Keeps P E (emit src c)
  unfolding emit ask
  Keeps-emit src c = record { at = λ env w h. by_fault env w h (env.sql_fault (suc w.tick)) refl }
    where
      by_fault :
          (env : Env) (w : World)
          → P w
          → (f : Option Text) → env.sql_fault (suc w.tick) ≡ f
          → After P E (emit src c env w)
      by_fault env w h (some m) e = rw (e, sql) (S.failing w _ h refl)
      by_fault env w h none e =
          rw (e, sql)
            (S.changed w _ (record c { source = src.path }) (env.clock w.tick) h refl refl refl
              refl)

pub ruleset action_rules = (
  keeps_rules, Keeps-question, Keeps-fail, Keeps-check_canceled, Keeps-now, Keeps-warnf,
  Keeps-non_fatal, Keeps-add_log, Keeps-vlogf, Keeps-change_scan, Keeps-get_meta,
  Keeps-list_sources, Keeps-load_file_states, Keeps-delete_meta, Keeps-set_source_status,
  Keeps-delete_source, Keeps-delete_file_state, Keeps-insert_source, Keeps-upsert_file_state,
  Keeps-emit,
)
