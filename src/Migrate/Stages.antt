-- ===== src/Migrate/Stages.antt =====
-- migrate.go: the version and the schema after each statement of a migration.
use mathlib.Core.List.{append_assoc, append-nil}
use mathlib.Core.Path.{subst}
use fmon.Base.{
  ◌≡◌, refl, sym, ap, ◌∙◌, ◌⊎◌, inl, inr, Bool, true, ◌&&◌, Option, none, some, List, [], ◌∷◌, ◌++◌,
  arith, if◌then◌else◌, Text,
}
use fmon.Base.Int.{ℤ, pos, int_lt}
use fmon.Db.{SchemaObject, Db}
use fmon.Exec.{newer_schema, Env, World, Result, ok, err, Exec, pure, raise, and_then, ◌>>=◌, ◌>>◌}
use fmon.Exec.Atomic.{commit_then}
use fmon.Exec.Tx.{commit, rollback, deferred}
use fmon.Migrate.{
  can_create, create_object, create, create_all, schema_v1, migrate_v1, migrations, schema_version,
  read_version, write_version, run_migrations, migrate_locked, finish_migrate,
}
use fmon.Migrate.Sure.{Sound, Sure, Sure-pure, Sure-sql, Sure-bind}

-- The rows of the four tables.
abbrev pub SameRows : Db → Db → Type 0
SameRows d d' =
    (d'.meta ≡ d.meta)
    × (d'.watched_sources ≡ d.watched_sources)
    × (d'.files_state ≡ d.files_state)
    × (d'.history_log ≡ d.history_log)

abbrev pub HasVersion : ℤ → List SchemaObject → Db → Type 0
HasVersion v s d = (d.user_version ≡ v) × (d.schema ≡ s)

-- A new database file, or one that this binary has migrated.
abbrev pub IsKnown : Db → Type 0
IsKnown d = HasVersion (pos 0) [] d ⊎ HasVersion (pos 1) schema_v1 d

-- The tables have the schema of this binary and the rows that they had.
abbrev pub IsMigrated : Db → Db → Type 0
IsMigrated before d = HasVersion (pos 1) schema_v1 d × SameRows before d

abbrev creatable : List SchemaObject → List SchemaObject → Bool
creatable [] s = true
creatable (o ∷ os) s = can_create o s && creatable os (s ++ o ∷ [])

module _ (before : Db) where
  -- Inside the transaction: the version and the schema so far.
  abbrev pub Stage : ℤ → List SchemaObject → World → Type 0
  Stage v s w = (w.saved ≡ some before) × HasVersion v s w.tables × SameRows before w.tables

  create_object-some :
      (o : SchemaObject) (d : Db)
      → can_create o d.schema ≡ true
      → create_object o d ≡ some (record d { schema = d.schema ++ o ∷ [] })
  unfolding create_object
  create_object-some o d h = rw h refl

  Sure-create :
      (v : ℤ) (s : List SchemaObject) (o : SchemaObject)
      → can_create o s ≡ true
      → Sure (Stage v s) (λ _. Stage v (s ++ o ∷ [])) (create o)
  unfolding create
  Sure-create v s o h = Sure-sql _ λ w p. (
    tt,
    record w.tables { schema = w.tables.schema ++ o ∷ [] },
    ap (λ (x : Option Db). elim x [ none ↦ none | some d ↦ some (tt, d) ])
        (create_object-some o w.tables (ap (can_create o) p.1.1 ∙ h)),
    (p.0, (p.1.0, ap (λ (x : List SchemaObject). x ++ o ∷ []) p.1.1), p.2),
  )

  Sure-create_all :
      (v : ℤ) (os s : List SchemaObject)
      → creatable os s ≡ true
      → Sure (Stage v s) (λ _. Stage v (s ++ os)) (create_all os)
  unfolding create_all pure
  Sure-create_all v [] s h = record {
    at = λ env w p. (p.0, (p.1.0, p.1.1 ∙ sym (append-nil s)), p.2);
  }
  Sure-create_all v (o ∷ os) s h = Sure-bind _ _ (Sure-create v s o (ground arith)) λ _.
      subst (λ x. Sure (Stage v (s ++ o ∷ [])) (λ _. Stage v x) (create_all os))
        (append_assoc s (o ∷ []) os) (Sure-create_all v os (s ++ o ∷ []) (ground arith))

  Sure-write_version :
      (v n : ℤ) (s : List SchemaObject) → Sure (Stage v s) (λ _. Stage n s) (write_version n)
  unfolding write_version
  Sure-write_version v n s =
      Sure-sql _ λ w p. (tt, record w.tables { user_version = n }, refl, (p.0, (refl, p.1.1), p.2))

  pub Sure-read_version :
      (v : ℤ) (s : List SchemaObject) → Sure (Stage v s) (λ a w. (a ≡ v) × Stage v s w) read_version
  unfolding read_version
  Sure-read_version v s = Sure-sql _ λ w p. (w.tables.user_version, w.tables, refl, (p.1.0, p))

  Sure-migrate_v1 : Sure (Stage (pos 0) []) (λ _. Stage (pos 0) schema_v1) migrate_v1
  unfolding migrate_v1
  Sure-migrate_v1 = Sure-create_all (pos 0) schema_v1 [] refl

  -- The migrations that are left, by the version that was read.
  Sure-run :
      (v : ℤ) (s : List SchemaObject)
      → ((v ≡ pos 0) × (s ≡ [])) ⊎ ((v ≡ pos 1) × (s ≡ schema_v1))
      → Sure (Stage v s) (λ _. Stage v schema_v1) (run_migrations v migrations)
  unfolding run_migrations migrations
  Sure-run v s (inl (ev, es)) =
      rw (ev, es) (Sure-bind _ _ Sure-migrate_v1 λ _. Sure-pure tt (λ w p. p))
  Sure-run v s (inr (ev, es)) = rw (ev, es) (Sure-pure tt (λ w p. p))

  -- What follows the second reading of the version.
  abbrev locked_rest : ℤ → Exec (Unit {0})
  locked_rest current = do
    if int_lt (pos schema_version) current then raise newer_schema else pure tt
    run_migrations current migrations
    write_version (pos schema_version)

  Sure-locked_rest :
      (v : ℤ) (s : List SchemaObject)
      → ((v ≡ pos 0) × (s ≡ [])) ⊎ ((v ≡ pos 1) × (s ≡ schema_v1))
      → Sure (Stage v s) (λ _. Stage (pos 1) schema_v1) (locked_rest v)
  unfolding schema_version migrations
  Sure-locked_rest v s h =
      Sure-bind {Q = λ _. Stage v s} _ _ (not_newer h)
        λ _. Sure-bind _ _ (Sure-run v s h) λ _. Sure-write_version v (pos 1) schema_v1
    where
      not_newer :
          ((v ≡ pos 0) × (s ≡ [])) ⊎ ((v ≡ pos 1) × (s ≡ schema_v1))
          → Sure
              (Stage v s)
              (λ (_ : Unit {0}). Stage v s)
              (if int_lt (pos schema_version) v then raise newer_schema else pure tt)
      not_newer (inl (e, _)) = rw e (Sure-pure tt (λ w p. p))
      not_newer (inr (e, _)) = rw e (Sure-pure tt (λ w p. p))

  pub Sure-migrate_locked :
      (v : ℤ) (s : List SchemaObject)
      → ((v ≡ pos 0) × (s ≡ [])) ⊎ ((v ≡ pos 1) × (s ≡ schema_v1))
      → Sure (Stage v s) (λ _. Stage (pos 1) schema_v1) migrate_locked
  unfolding migrate_locked
  Sure-migrate_locked v s h = Sure-bind _ _ (Sure-read_version v s) λ a. record {
    at = λ env w p.
        (subst (λ x. Sure (Stage v s) (λ _. Stage (pos 1) schema_v1) (locked_rest x)) (sym p.0)
            (Sure-locked_rest v s h)).at
          env w p.1;
  }

  -- The transaction, from the tables at its beginning.
  Sure-commit :
      (v : ℤ) (s : List SchemaObject)
      → (env : Env) (w : World) → Stage v s w
      → Sound
          (λ (_ : Unit {0}) u. HasVersion v s u.tables × SameRows before u.tables)
          (deferred (commit_then finish_migrate tt env w))
  unfolding commit ◌>>=◌ rollback
  Sure-commit v s env w p = by_fault (env.sql_fault w.tick) refl
    where
      by_fault :
          (o : Option Text)
          → env.sql_fault w.tick ≡ o
          → Sound
              (λ (_ : Unit {0}) u. HasVersion v s u.tables × SameRows before u.tables)
              (deferred (commit_then finish_migrate tt env w))
      by_fault (some m) e = rw (p.0, commit) (rw (e, commit) tt)
      by_fault none e = rw (p.0, commit) (rw (e, commit) (p.1, p.2))

  pub Sure-end :
      (env : Env) (o : Result (Unit {0}) × World)
      → Sound (λ _. Stage (pos 1) schema_v1) o
      → Sound
          (λ (_ : Unit {0}) u. IsMigrated before u.tables)
          (deferred (and_then env (commit_then finish_migrate) o))
  Sure-end env (ok tt, w) p = Sure-commit (pos 1) schema_v1 env w p
  Sure-end env (err e, w) p = p
