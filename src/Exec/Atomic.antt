-- ===== src/Exec/Atomic.antt =====
-- A transaction that fails leaves the tables as they were before it began.
use fmon.Base.{suc, ◌≡◌, refl, Option, none, some, Text}
use fmon.Db.{Db}
use fmon.Exec.{Env, World, Result, ok, err, Exec, and_then, ◌>>=◌, ◌>>◌}
use fmon.Exec.Keeps.{After, Keeps}
use fmon.Exec.Tx.{begin_immediate, commit, rollback, deferred, inside, with_tx}

-- A write transaction is open, begun on these tables.
abbrev pub IsOpen : Db → World → Type 0
IsOpen before w = w.saved ≡ some before

-- The deferred rollback ends with these tables.
abbrev pub IsRecoverable : Db → World → Type 0
IsRecoverable before w = (rollback w).tables ≡ before

pub recover_open : (before : Db) (w : World) → IsOpen before w → IsRecoverable before w
unfolding rollback
recover_open before w h = rw (h, rollback) refl

-- A failed run has undone its writes.
abbrev pub Undone {ℓ} : {A : Type ℓ} → Db → Result A × World → Type 0
Undone before (ok a, w) = Unit
Undone before (err e, w) = w.tables ≡ before

module _ {A B : Type 0} (finish : A → Env → World → B × World) where
  -- The end of a transaction: the commit, and what cannot fail any more.
  abbrev pub commit_then : A → Exec B
  commit_then a = commit >> λ env w. let (b, w') = finish a env w in (ok b, w')

  pub Undone-commit_then :
      (a : A) (before : Db) (env : Env) (w : World)
      → IsOpen before w
      → Undone before (deferred (commit_then a env w))
  unfolding commit ◌>>=◌ rollback
  Undone-commit_then a before env w h = by_fault (env.sql_fault w.tick) refl
    where
      by_fault :
          (f : Option Text)
          → env.sql_fault w.tick ≡ f
          → Undone before (deferred (commit_then a env w))
      by_fault (some m) e = rw (h, commit) (rw (e, commit) refl)
      by_fault none e = rw (h, commit) (rw (e, commit) tt)

module _ {A B : Type 0} (next : A → Exec B)
    (ends : (a : A) (before : Db) (env : Env) (w : World)
      → IsOpen before w
      → Undone before (deferred (next a env w))) where
  Undone-and_then :
      (before : Db) (env : Env) (r : Result A × World)
      → After (IsOpen before) (IsRecoverable before) r
      → Undone before (deferred (and_then env next r))
  Undone-and_then before env (ok a, w) h = ends a before env w h
  Undone-and_then before env (err e, w) h = h

  Undone-inside :
      (m : Exec A)
      → ((before : Db) → Keeps (IsOpen before) (IsRecoverable before) m)
      → (before : Db) (env : Env) (r : Result (Unit {0}) × World)
      → After (IsOpen before) (λ w. w.tables ≡ before) r
      → Undone before (inside (m >>= next) env r)
  unfolding ◌>>=◌
  Undone-inside m keeps before env (ok _, w) h =
      Undone-and_then before env (m env w) ((keeps before).at env w h)
  Undone-inside m keeps before env (err e, w) h = h

  begin_opens :
      (env : Env) (w : World)
      → After (IsOpen w.tables) (λ v. v.tables ≡ w.tables) (begin_immediate env w)
  unfolding begin_immediate
  begin_opens env w = by_fault (env.sql_fault w.tick) (env.sql_fault (suc w.tick)) refl refl
    where
      by_fault :
          (f g : Option Text)
          → env.sql_fault w.tick ≡ f
          → env.sql_fault (suc w.tick) ≡ g
          → After (IsOpen w.tables) (λ v. v.tables ≡ w.tables) (begin_immediate env w)
      by_fault (some m) g e k = rw (e, begin_immediate) refl
      by_fault none (some m) e k = rw (e, begin_immediate) (rw (k, begin_immediate) refl)
      by_fault none none e k = rw (e, begin_immediate) (rw (k, begin_immediate) refl)

  -- Whatever the world answers: an error of the transaction means that no write is left.
  pub with_tx-Undone :
      (m : Exec A)
      → ((before : Db) → Keeps (IsOpen before) (IsRecoverable before) m)
      → (env : Env) (w : World) → Undone w.tables (with_tx (m >>= next) env w)
  unfolding with_tx
  with_tx-Undone m keeps env w =
      Undone-inside m keeps w.tables env (begin_immediate env w) (begin_opens env w)
