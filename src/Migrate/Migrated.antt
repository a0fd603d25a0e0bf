-- ===== src/Migrate/Migrated.antt =====
-- migrate.go: the end of a migration.
use fmon.Base.{
  zero, suc, ◌≡◌, refl, ap, ◌∙◌, inl, inr, Bool, true, false, Option, none, some, List, [], ◌∷◌,
  arith, if◌then◌else◌, Bool-cases, ◌==◌, Text, nat_eq, text_equality,
}
use fmon.Base.Int.{ℤ, pos, negsuc, int_eq, int_lt, int_equality}
use fmon.Commands.Before.{Undone-bind}
use fmon.Commands.Open.{any_sql}
use fmon.Db.{SchemaObject, Db}
use fmon.Exec.{
  locked, newer_schema, sql_error, negative_index, Env, World, Result, ok, err, Exec, pure, raise,
  ◌>>=◌,
}
use fmon.Exec.Atomic.{
  IsOpen, IsRecoverable, recover_open, Undone, commit_then, Undone-commit_then, with_tx-Undone,
}
use fmon.Exec.Keeps.{Keeps, Keeps-pure, Keeps-raise, Keeps-if, Keeps-sql, Keeps-bind}
use fmon.Exec.Tx.{is_busy, begin_immediate, inside, with_tx}
use fmon.Migrate.{
  create_object, create, create_all, schema_v1, migrate_v1, migrations, schema_version,
  read_version, write_version, run_migrations, migrate_locked, finish_migrate, migrate,
}
use fmon.Migrate.Stages.{SameRows, IsKnown, IsMigrated, Sure-migrate_locked, Sure-end}
use fmon.Migrate.Sure.{IsDriver, Sound, Sure, Sure-pure, Sure-sql, Sure-bind}
use fmon.Queries.{reading, writing, writing_if}

-- What follows the first reading of the version.
abbrev pub migrate_rest : ℤ → Exec (Unit {0})
migrate_rest current =
    if int_lt (pos schema_version) current
    then raise newer_schema
    else if current == pos schema_version
    then pure tt
    else with_tx (migrate_locked >>= commit_then finish_migrate)

same : {d before : Db} → d ≡ before → SameRows before d
same p = (
  ap (λ (d : Db). d.meta) p,
  ap (λ (d : Db). d.watched_sources) p,
  ap (λ (d : Db). d.files_state) p,
  ap (λ (d : Db). d.history_log) p,
)

Sure-version :
    (before : Db)
    → Sure
        (λ w. w.tables ≡ before)
        (λ v w. (v ≡ before.user_version) × (w.tables ≡ before))
        read_version
unfolding read_version
Sure-version before =
    Sure-sql _
      λ w p. (w.tables.user_version, w.tables, refl, (ap (λ (d : Db). d.user_version) p, p))

IsDriver-begin : (b : Bool) (m : Text) → IsDriver (if b then locked else sql_error m)
IsDriver-begin true m = tt
IsDriver-begin false m = tt

module _ (before : Db) where
  abbrev Begun : World → Type 0
  Begun w = (w.saved ≡ some before) × (w.tables ≡ before)

  Sure-begin : Sure (λ w. w.tables ≡ before) (λ _. Begun) begin_immediate
  unfolding begin_immediate
  Sure-begin = record {
    at = λ env w p. by_fault env w p (env.sql_fault w.tick) (env.sql_fault (suc w.tick)) refl refl;
  }
    where
      by_fault :
          (env : Env) (w : World)
          → w.tables ≡ before
          → (f g : Option Text) → env.sql_fault w.tick ≡ f
          → env.sql_fault (suc w.tick) ≡ g
          → Sound (λ (_ : Unit {0}). Begun) (begin_immediate env w)
      by_fault env w p (some m) g e k = rw (e, begin_immediate) tt
      by_fault env w p none (some m) e k =
          rw (e, begin_immediate) (rw (k, begin_immediate) (IsDriver-begin (is_busy m) m))
      by_fault env w p none none e k =
          rw (e, begin_immediate) (rw (k, begin_immediate) (ap some p, p))

  Sure-inside :
      IsKnown before
      → (env : Env) (o : Result (Unit {0}) × World) → Sound (λ _. Begun) o
      → Sound
          (λ (_ : Unit {0}) u. IsMigrated before u.tables)
          (inside (migrate_locked >>= commit_then finish_migrate) env o)
  unfolding ◌>>=◌
  Sure-inside (inl (ev, es)) env (ok tt, w) p = Sure-end before env (migrate_locked env w) (
      (Sure-migrate_locked before (pos 0) [] (inl (refl, refl))).at env w (
        p.0,
        (ap (λ (d : Db). d.user_version) p.1 ∙ ev, ap (λ (d : Db). d.schema) p.1 ∙ es),
        same p.1,
      ))
  Sure-inside (inr (ev, es)) env (ok tt, w) p = Sure-end before env (migrate_locked env w) (
      (Sure-migrate_locked before (pos 1) schema_v1 (inr (refl, refl))).at env w (
        p.0,
        (ap (λ (d : Db). d.user_version) p.1 ∙ ev, ap (λ (d : Db). d.schema) p.1 ∙ es),
        same p.1,
      ))
  Sure-inside known env (err e, w) p = p

  Sure-tx :
      IsKnown before
      → Sure
          (λ w. w.tables ≡ before)
          (λ _ u. IsMigrated before u.tables)
          (with_tx (migrate_locked >>= commit_then finish_migrate))
  unfolding with_tx
  Sure-tx known = record {
    at = λ env w p. Sure-inside known env (begin_immediate env w) (Sure-begin.at env w p);
  }

  Sure-rest :
      (n : ℤ)
      → n ≡ before.user_version
      → IsKnown before
      → Sure (λ w. w.tables ≡ before) (λ _ u. IsMigrated before u.tables) (migrate_rest n)
  unfolding schema_version migrations int_eq
  Sure-rest n e (inl known) = rw (e ∙ known.0) (Sure-tx (inl known))
  Sure-rest n e (inr known) = rw (e ∙ known.0) (
      Sure-pure tt λ w p. (
        (ap (λ (d : Db). d.user_version) p ∙ known.0, ap (λ (d : Db). d.schema) p ∙ known.1),
        same p,
      ))

module _ (before : Db) where
  Keeps-create_all :
      (os : List SchemaObject) → Keeps (IsOpen before) (IsRecoverable before) (create_all os)
  unfolding create_all create
  Keeps-create_all [] = Keeps-pure tt
  Keeps-create_all (o ∷ os) =
      Keeps-bind _ _ (any_sql before (writing_if (create_object o))) λ _. Keeps-create_all os

  Keeps-run_migrations :
      (v : ℤ) → Keeps (IsOpen before) (IsRecoverable before) (run_migrations v migrations)
  unfolding run_migrations migrations migrate_v1
  Keeps-run_migrations (negsuc v) = Keeps-raise negative_index (recover_open before)
  Keeps-run_migrations (pos zero) = Keeps-bind _ _ (Keeps-create_all schema_v1) λ _. Keeps-pure tt
  Keeps-run_migrations (pos (suc v)) = Keeps-pure tt

  Keeps-migrate_locked : Keeps (IsOpen before) (IsRecoverable before) migrate_locked
  unfolding migrate_locked read_version write_version
  Keeps-migrate_locked =
      Keeps-bind _ _ (any_sql before (reading (λ (d : Db). d.user_version))) λ current.
        Keeps-bind _ _
          (Keeps-if (int_lt (pos schema_version) current) _ _
            (λ _. Keeps-raise newer_schema (recover_open before)) (λ _. Keeps-pure tt))
          λ _.
            Keeps-bind _ _ (Keeps-run_migrations current)
              λ _. any_sql before (writing (λ d. record d { user_version = pos schema_version }))

migrate_rest-Undone : (v : ℤ) (env : Env) (w : World) → Undone w.tables (migrate_rest v env w)
unfolding raise pure
migrate_rest-Undone v env w = elim (Bool-cases (int_lt (pos schema_version) v)) [
  | inl e ↦ rw e refl
  | inr e ↦ rw e (elim (Bool-cases (v == pos schema_version)) [
    | inl k ↦ rw k tt
    | inr k ↦ rw k (
        with_tx-Undone (commit_then finish_migrate) (Undone-commit_then finish_migrate)
          migrate_locked Keeps-migrate_locked env w)
  ])
]

-- A migration that fails has changed nothing.
migrate-Undone : (env : Env) (w : World) → Undone w.tables (migrate env w)
unfolding migrate read_version
migrate-Undone env w =
    Undone-bind w.tables read_version migrate_rest env w
      (Keeps-sql (reading (λ (d : Db). d.user_version)) (λ w h. h) (λ w a v h e. ground arith)) refl
      λ v u. migrate_rest-Undone v env u

-- If the version is 0 and the schema empty, or the version is 1 and the schema the one of this binary,
-- then a migration ends with the schema of this binary, the version 1, and the rows that were there;
-- only the driver can make it fail, and then the tables, the schema and the version are as they were.
pub migrate-IsMigrated :
    (env : Env) (w : World)
    → IsKnown w.tables
    → Sound (λ _ u. IsMigrated w.tables u.tables) (migrate env w) × Undone w.tables (migrate env w)
unfolding migrate
migrate-IsMigrated env w known = (
  (Sure-bind {R = λ _ u. IsMigrated w.tables u.tables} {P = λ u. u.tables ≡ w.tables} read_version
        migrate_rest (Sure-version w.tables)
        λ v. record { at = λ env u p. (Sure-rest w.tables v p.0 known).at env u p.1 }).at
      env w refl,
  migrate-Undone env w,
)
