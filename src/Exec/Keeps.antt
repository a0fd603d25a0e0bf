-- ===== src/Exec/Keeps.antt =====
-- Invariants of actions: `P` holds after an action that returns, `E` after one that fails.
use fmon.Base.{ℕ, suc, ◌≡◌, refl, Bool, true, false, Option, none, some, if◌then◌else◌, Text}
use fmon.Db.{Db}
use fmon.Exec.{
  Error, sql_error, constraint_failed, Env, World, Result, ok, err, Exec, pure, raise, ask, gets,
  modify, and_then, ◌>>=◌,
}
use fmon.Exec.Tx.{sql}

abbrev pub After {ℓ} :
    {A : Type ℓ} → (World → Type 0) → (World → Type 0) → Result A × World → Type 0
After P E (ok a, w) = P w
After P E (err e, w) = E w

pub record Keeps {ℓ} {A : Type ℓ} (P E : World → Type 0) (m : Exec A) : Type ℓ where
  pub at : (env : Env) (w : World) → P w → After P E (m env w)

-- Nothing is said of the world after an error.
abbrev pub Anything : World → Type 0
Anything w = Unit

module _ {ℓ} {A : Type ℓ} {P E : World → Type 0} where
  pub Keeps-pure : (a : A) → Keeps P E (pure a)
  unfolding pure
  Keeps-pure a = record { at = λ env w h. h }

  pub Keeps-raise : (e : Error) → ((w : World) → P w → E w) → Keeps P E (raise {A = A} e)
  unfolding raise
  Keeps-raise e weaken = record { at = λ env w h. weaken w h }

  pub Keeps-gets : (f : World → A) → Keeps P E (gets f)
  unfolding gets
  Keeps-gets f = record { at = λ env w h. h }

  pub Keeps-ask :
      (f : Env → ℕ → A)
      → ((w : World) → P w → P (record w { tick = suc w.tick }))
      → Keeps P E (ask f)
  unfolding ask
  Keeps-ask f h = record { at = λ env w p. h w p }

  pub Keeps-if :
      (b : Bool) (m n : Exec A)
      → (b ≡ true → Keeps P E m)
      → (b ≡ false → Keeps P E n)
      → Keeps P E (if b then m else n)
  Keeps-if true m n km kn = km refl
  Keeps-if false m n km kn = kn refl

  -- A statement on the tables: its question, its failures, and the tables that it leaves.
  pub Keeps-sql :
      (run : Db → Option (A × Db))
      → ((w : World) → P w → E (record w { tick = suc w.tick }))
      → ((w : World) (a : A) (d : Db)
          → P w
          → run w.tables ≡ some (a, d)
          → P (record w { tick = suc w.tick; tables = d }))
      → Keeps P E (sql run)
  unfolding sql
  Keeps-sql run fail step = record {
    at = λ env w p. on_fault env w p (env.sql_fault w.tick) (run w.tables) refl;
  }
    where
      on_fault :
          (env : Env) (w : World)
          → P w
          → (f : Option Text) (o : Option (A × Db)) → run w.tables ≡ o
          → After {A = A} P E (elim f [
            | some m ↦ (err (sql_error m), record w { tick = suc w.tick })
            | none ↦ elim o [
              | none ↦ (err constraint_failed, record w { tick = suc w.tick })
              | some (a, d) ↦ (ok a, record w { tick = suc w.tick; tables = d })
            ]
          ])
      on_fault env w p (some m) o e = fail w p
      on_fault env w p none none e = fail w p
      on_fault env w p none (some (a, d)) e = step w a d p e

pub Keeps-modify :
    {P E : World → Type 0} (f : World → World)
    → ((w : World) → P w → P (f w))
    → Keeps P E (modify f)
unfolding modify
Keeps-modify f h = record { at = λ env w p. h w p }

module _ {ℓ κ} {A : Type ℓ} {B : Type κ} {P E : World → Type 0} where
  After-and_then :
      (env : Env) (r : Result A × World) (f : A → Exec B)
      → After P E r
      → ((a : A) → Keeps P E (f a))
      → After P E (and_then env f r)
  After-and_then env (ok a, w) f h k = (k a).at env w h
  After-and_then env (err e, w) f h k = h

  pub Keeps-bind :
      (m : Exec A) (f : A → Exec B)
      → Keeps P E m
      → ((a : A) → Keeps P E (f a))
      → Keeps P E (m >>= f)
  unfolding ◌>>=◌
  Keeps-bind m f km kf = record {
    at = λ env w h. After-and_then env (m env w) f (km.at env w h) kf;
  }

pub ruleset keeps_rules = (Keeps-pure, Keeps-gets, Keeps-if, Keeps-bind)

-- The run returns, and this holds of its value and its state.
abbrev pub Succeeds {ℓ} : {A : Type ℓ} → (A → World → Type 0) → Result A × World → Type 0
Succeeds Q (ok a, w) = Q a w
Succeeds Q (err e, w) = ⊥

pub Succeeds-bind :
    {A B : Type 0} (Q : A → World → Type 0) (R : B → World → Type 0) (env : Env)
    (r : Result A × World) (f : A → Exec B)
    → Succeeds Q r
    → ((a : A) (w : World) → Q a w → Succeeds R (f a env w))
    → Succeeds R (and_then env f r)
Succeeds-bind Q R env (ok a, w) f h k = k a w h
Succeeds-bind Q R env (err e, w) f h k = h
