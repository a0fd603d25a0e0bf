-- ===== src/Migrate/Sure.antt =====
-- Hoare triples of actions that only the database driver can make fail.
use fmon.Base.{suc, ◌≡◌, refl, Option, none, some, Text}
use fmon.Db.{Db}
use fmon.Exec.{Error, locked, sql_error, Env, World, Result, ok, err, Exec, pure, and_then, ◌>>=◌}
use fmon.Exec.Tx.{sql}

-- The errors that the driver answers with.
abbrev pub IsDriver : Error → Type 0
IsDriver (sql_error m) = Unit
IsDriver locked = Unit
IsDriver e = ⊥

abbrev pub Sound {ℓ} : {A : Type ℓ} → (A → World → Type 0) → Result A × World → Type 0
Sound Q (ok a, w) = Q a w
Sound Q (err e, w) = IsDriver e

-- From `P` the action returns in `Q`, unless the driver fails.
pub record Sure {ℓ} {A : Type ℓ} (P : World → Type 0) (Q : A → World → Type 0) (m : Exec A)
    : Type ℓ where
  pub at : (env : Env) (w : World) → P w → Sound Q (m env w)

module _ {A : Type 0} {P : World → Type 0} {Q : A → World → Type 0} where
  pub Sure-pure : (a : A) → ((w : World) → P w → Q a w) → Sure P Q (pure a)
  unfolding pure
  Sure-pure a h = record { at = λ env w p. h w p }

  pub Sure-sql :
      (run : Db → Option (A × Db))
      → ((w : World)
          → P w
          → (a : A) × (d : Db) × (run w.tables ≡ some (a, d))
            × Q a (record w { tick = suc w.tick; tables = d }))
      → Sure P Q (sql run)
  unfolding sql
  Sure-sql run h = record { at = λ env w p. by_fault env w (h w p) (env.sql_fault w.tick) refl }
    where
      by_fault :
          (env : Env) (w : World)
          → (a : A) × (d : Db) × (run w.tables ≡ some (a, d))
            × Q a (record w { tick = suc w.tick; tables = d })
          → (o : Option Text) → env.sql_fault w.tick ≡ o
          → Sound Q (sql run env w)
      by_fault env w q (some m) e = rw (e, sql) tt
      by_fault env w (a, d, k, q) none e = rw (e, k, sql) q

module _ {A B : Type 0} {Q : A → World → Type 0} {R : B → World → Type 0} where
  Sound-and_then :
      (env : Env) (o : Result A × World) (f : A → Exec B)
      → Sound Q o
      → ((a : A) → Sure (Q a) R (f a))
      → Sound R (and_then env f o)
  Sound-and_then env (ok a, w) f q k = (k a).at env w q
  Sound-and_then env (err e, w) f q k = q

  pub Sure-bind :
      {P : World → Type 0} (m : Exec A) (f : A → Exec B)
      → Sure P Q m
      → ((a : A) → Sure (Q a) R (f a))
      → Sure P R (m >>= f)
  unfolding ◌>>=◌
  Sure-bind m f km kf = record { at = λ env w p. Sound-and_then env (m env w) f (km.at env w p) kf }
