-- ===== src/Migrate/Refused.antt =====
-- migrate.go: the versions that a migration does not take.
use fmon.Base.{zero, suc, ◌≡◌, refl, true, Option, none, some, arith, ltb}
use fmon.Base.Int.{ℤ, pos, negsuc, int_eq}
use fmon.Exec.{Error, newer_schema, negative_index, Env, World, err, pure, raise, ◌>>=◌}
use fmon.Exec.Tx.{sql, begin_immediate, rollback, with_tx}
use fmon.Migrate.{migrations, schema_version, read_version, run_migrations, migrate_locked, migrate}
use fmon.Scanner.Check.{IsSound}

-- The error for a stored version, unless it is 0 or 1.
abbrev pub refusal : ℤ → Option Error
refusal (negsuc n) = some negative_index
refusal (pos zero) = none
refusal (pos (suc zero)) = none
refusal (pos (suc (suc n))) = some newer_schema

-- If the driver does not fail, a version that this binary does not know makes the migration fail and
-- leaves the tables as they were: ErrNewerSchema for one above 1, and for one below 0 the panic of
-- `migrations[i]`.
pub migrate-Refuses :
    (env : Env) (w : World) (e : Error)
    → IsSound env
    → refusal w.tables.user_version ≡ some e
    → ((migrate env w).0 ≡ err e) × ((migrate env w).1.tables ≡ w.tables)
unfolding migrate read_version migrate_locked with_tx run_migrations migrations schema_version raise
    pure ◌>>=◌ rollback int_eq
migrate-Refuses env w e sound h = by_version w.tables.user_version refl h
  where
    by_version :
        (v : ℤ)
        → w.tables.user_version ≡ v
        → refusal v ≡ some e
        → ((migrate env w).0 ≡ err e) × ((migrate env w).1.tables ≡ w.tables)
    by_version (negsuc n) k r =
        rw (sound w.tick, sql)
          (rw k (
            rw (sound (suc w.tick), begin_immediate)
              (rw (sound (suc (suc w.tick)), begin_immediate)
                (rw (sound (suc (suc (suc w.tick))), sql) (cc, refl)))))
    by_version (pos zero) k r = cc
    by_version (pos (suc zero)) k r = cc
    by_version (pos (suc (suc n))) k r =
        let newer : ltb 1 (suc (suc n)) ≡ true = ground arith in
        rw (sound w.tick, sql) (rw k (rw newer (cc, refl)))
