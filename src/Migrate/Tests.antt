-- ===== src/Migrate/Tests.antt =====
-- Migrations of a new file and of a newer one.
use fmon.Base.{◌≡◌, refl, inl}
use fmon.Base.Int.{negsuc, int_eq}
use fmon.Db.{empty_db}
use fmon.Exec.{negative_index, World, ok, err, pure, ◌>>=◌}
use fmon.Exec.Atomic.{Undone}
use fmon.Exec.Tx.{sql, begin_immediate, commit, rollback, with_tx}
use fmon.Migrate.{
  create_object, create, create_all, migrate_v1, migrations, schema_version, read_version,
  write_version, run_migrations, migrate_locked, migrate,
}
use fmon.Migrate.Migrated.{migrate-IsMigrated}
use fmon.Migrate.Refused.{migrate-Refuses}
use fmon.Migrate.Stages.{IsMigrated}
use fmon.Migrate.Sure.{Sound}
use fmon.Scanner.Machine.{quiet_env, world}

abbrev new_file : World
new_file = record world { tables = empty_db }

migrate-IsMigrated_example :
    Sound (λ _ u. IsMigrated empty_db u.tables) (migrate quiet_env new_file)
    × Undone empty_db (migrate quiet_env new_file)
migrate-IsMigrated_example = migrate-IsMigrated quiet_env new_file (inl (refl, refl))

-- The migration of a new file returns.
migrates : (migrate quiet_env new_file).0 ≡ ok tt
unfolding migrate read_version with_tx migrate_locked sql run_migrations migrations migrate_v1
    create_all create create_object write_version schema_version pure ◌>>=◌ begin_immediate commit
    rollback int_eq
migrates = refl

abbrev negative_file : World
negative_file = record world { tables = record empty_db { user_version = negsuc 0 } }

migrate-Refuses_example :
    ((migrate quiet_env negative_file).0 ≡ err negative_index)
    × ((migrate quiet_env negative_file).1.tables ≡ negative_file.tables)
migrate-Refuses_example = migrate-Refuses quiet_env negative_file negative_index (λ n. refl) refl
