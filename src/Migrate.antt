-- ===== src/Migrate.antt =====
-- internal/db/migrate.go. A migration is an action on the tables; a statement that makes what is
-- there already breaks a constraint.
pub mod Sure
pub mod Stages
pub mod Migrated
pub mod Refused
mod Tests
use fmon.Base.{
  ℕ, zero, suc, Bool, true, not, ◌&&◌, Option, none, some, List, [], ◌∷◌, ◌++◌, eqb, if◌then◌else◌,
  ◌==◌, length, any_of, nat_eq, text_equality,
}
use fmon.Base.Int.{ℤ, pos, negsuc, int_lt, int_equality}
use fmon.Db.{
  SchemaObject, table_meta, table_watched_sources, table_files_state, table_history_log,
  index_source, index_history_path, index_history_time, Db,
}
use fmon.Exec.{newer_schema, negative_index, Env, World, Exec, pure, raise, ◌>>=◌, ◌>>◌}
use fmon.Exec.Atomic.{commit_then}
use fmon.Exec.Tx.{sql, commit, with_tx}
use fmon.Queries.{reading, writing, writing_if}

abbrev object_code : SchemaObject → ℕ
object_code table_meta = 0
object_code table_watched_sources = 1
object_code table_files_state = 2
object_code table_history_log = 3
object_code index_source = 4
object_code index_history_path = 5
object_code index_history_time = 6

abbrev pub has_object : SchemaObject → List SchemaObject → Bool
has_object o schema = any_of (λ x. eqb (object_code x) (object_code o)) schema

-- The table that an index is on.
abbrev indexed_table : SchemaObject → Option SchemaObject
indexed_table index_source = some table_files_state
indexed_table index_history_path = some table_history_log
indexed_table index_history_time = some table_history_log
indexed_table o = none

abbrev pub can_create : SchemaObject → List SchemaObject → Bool
can_create o schema =
    not (has_object o schema)
    && elim (indexed_table o) [ none ↦ true | some t ↦ has_object t schema ]

-- CREATE TABLE and CREATE INDEX
unfoldable pub create_object : SchemaObject → Db → Option Db
create_object o d =
    if can_create o d.schema then some (record d { schema = d.schema ++ o ∷ [] }) else none

unfoldable pub create : SchemaObject → Exec (Unit {0})
unfolding sql create_object
create o = sql (writing_if (create_object o))

-- The loop over the statements.
unfoldable pub create_all : List SchemaObject → Exec (Unit {0})
unfolding create pure ◌>>=◌
create_all [] = pure tt
create_all (o ∷ objects) = do create o; create_all objects

abbrev pub schema_v1 : List SchemaObject
schema_v1 =
    table_meta ∷ table_watched_sources ∷ table_files_state ∷ index_source ∷ table_history_log
    ∷ index_history_path ∷ index_history_time ∷ []

unfoldable pub migrate_v1 : Exec (Unit {0})
unfolding create_all
migrate_v1 = create_all schema_v1

unfoldable pub migrations : List (Exec (Unit {0}))
unfolding migrate_v1
migrations = migrate_v1 ∷ []

-- `SchemaVersion`
unfoldable pub schema_version : ℕ
unfolding migrations
schema_version = length migrations

unfoldable pub read_version : Exec ℤ
unfolding sql
read_version = sql (reading (λ (d : Db). d.user_version))

unfoldable pub write_version : ℤ → Exec (Unit {0})
unfolding sql
write_version n = sql (writing (λ d. record d { user_version = n }))

-- `for i := current; i < len(migrations); i++`, from the list of the migrations: a negative index
-- makes `migrations[i]` panic.
unfoldable pub run_migrations : ℤ → List (Exec (Unit {0})) → Exec (Unit {0})
unfolding raise pure ◌>>=◌
run_migrations (negsuc n) ms = raise negative_index
run_migrations (pos n) [] = pure tt
run_migrations (pos zero) (m ∷ ms) = do m; run_migrations (pos zero) ms
run_migrations (pos (suc n)) (m ∷ ms) = run_migrations (pos n) ms

-- What is done under the lock, before the COMMIT.
unfoldable pub migrate_locked : Exec (Unit {0})
unfolding read_version run_migrations write_version raise migrations schema_version pure ◌>>=◌
migrate_locked = do
  current ← read_version
  if int_lt (pos schema_version) current then raise newer_schema else pure tt
  run_migrations current migrations
  write_version (pos schema_version)

abbrev pub finish_migrate : Unit {0} → Env → World → Unit {0} × World
finish_migrate _ env w = (tt, w)

unfoldable pub migrate : Exec (Unit {0})
unfolding read_version migrate_locked with_tx commit schema_version raise pure ◌>>=◌
migrate = do
  current ← read_version
  if int_lt (pos schema_version) current
      then raise newer_schema
      else if current == pos schema_version
      then pure tt
      else with_tx (migrate_locked >>= commit_then finish_migrate)
