-- ===== src/Exec/Tx.antt =====
-- internal/db/db.go: the write transaction. BEGIN IMMEDIATE takes the tables as they are, COMMIT
-- keeps the writes, ROLLBACK (the deferred cleanup) restores what BEGIN saw.
use fmon.Base.{
  ℕ, suc, ◌+◌, Bool, ◌&&◌, ◌||◌, Option, none, some, [], ◌∷◌, map, leb, if◌then◌else◌, Text, bytes,
  has_prefix,
}
use fmon.Db.{Db}
use fmon.Exec.{
  Error, locked, sql_error, constraint_failed, tx_finished, Env, World, Result, ok, err, Exec,
}

-- The text of a driver's error, in lower case.
abbrev pub lower : ℕ → ℕ
lower c = if leb b'A' c && leb c b'Z' then c + 32 else c

-- `strings.Contains`
unfoldable pub contains_text : Text → Text → Bool
contains_text [] t = has_prefix [] t
contains_text (x ∷ s) t = has_prefix (x ∷ s) t || contains_text s t

unfoldable pub is_busy : Text → Bool
unfolding contains_text has_prefix
is_busy message =
    let m = map lower message in
    contains_text m (bytes "database is locked") || contains_text m (bytes "sqlite_busy")

abbrev begin_error : Text → Error
begin_error m = if is_busy m then locked else sql_error m

-- A statement that the driver runs: it may fail, and it may break a constraint.
module _ {ℓ} {A : Type ℓ} where
  unfoldable pub sql : (Db → Option (A × Db)) → Exec A
  sql run env w = elim (env.sql_fault w.tick) [
    | some m ↦ (err (sql_error m), record w { tick = suc w.tick })
    | none ↦ elim (run w.tables) [
      | none ↦ (err constraint_failed, record w { tick = suc w.tick })
      | some (a, d) ↦ (ok a, record w { tick = suc w.tick; tables = d })
    ]
  ]

-- BeginImmediate: a connection, then the statement.
unfoldable pub begin_immediate : Exec (Unit {0})
begin_immediate env w = elim (env.sql_fault w.tick) [
  | some m ↦ (err (sql_error m), record w { tick = suc w.tick })
  | none ↦ elim (env.sql_fault (suc w.tick)) [
    | some m ↦ (err (begin_error m), record w { tick = suc (suc w.tick) })
    | none ↦ (ok tt, record w { tick = suc (suc w.tick); saved = some w.tables })
  ]
]

-- Commit: a failing COMMIT is followed by a ROLLBACK; the transaction is finished either way.
unfoldable pub commit : Exec (Unit {0})
commit env w = elim w.saved [
  | none ↦ (err tx_finished, w)
  | some before ↦ elim (env.sql_fault w.tick) [
    | some m ↦ (err (sql_error m), record w { tick = suc w.tick; tables = before; saved = none })
    | none ↦ (ok tt, record w { tick = suc w.tick; saved = none })
  ]
]

-- Rollback: it does nothing once the transaction is finished. An error of its ROLLBACK is dropped by
-- the deferred call; its connection then goes back to the pool with the transaction still open, and
-- the writes are undone when run closes the database at its end. The model undoes them at once.
unfoldable pub rollback : World → World
rollback w = elim w.saved [ none ↦ w | some before ↦ record w { tables = before; saved = none } ]

-- tx, err := BeginImmediate; defer tx.Rollback(); body
module _ {ℓ} {A : Type ℓ} where
  abbrev pub deferred : Result A × World → Result A × World
  deferred (r, w) = (r, rollback w)

  abbrev pub inside : Exec A → Env → Result (Unit {0}) × World → Result A × World
  inside body env (ok _, w) = deferred (body env w)
  inside body env (err e, w) = (err e, w)

  unfoldable pub with_tx : Exec A → Exec A
  unfolding begin_immediate rollback
  with_tx body env w = inside body env (begin_immediate env w)
