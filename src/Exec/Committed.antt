-- ===== src/Exec/Committed.antt =====
-- What a transaction's body establishes holds of the state that a successful commit leaves.
use fmon.Base.{ℕ, suc, ◌≡◌, refl, Option, none, some, Text}
use fmon.Db.{Db}
use fmon.Exec.{Env, World, Result, ok, err, Exec, and_then, ◌>>=◌}
use fmon.Exec.Atomic.{commit_then}
use fmon.Exec.Keeps.{After, Keeps, Anything}
use fmon.Exec.Tx.{begin_immediate, commit, rollback, deferred, inside, with_tx}

-- What holds of the value and the state of a run that returns.
abbrev pub Returning {ℓ} : {A : Type ℓ} → (A → World → Type 0) → Result A × World → Type 0
Returning Q (ok a, w) = Q a w
Returning Q (err e, w) = Unit

module _ {A B : Type 0} (finish : A → Env → World → B × World) (P : World → Type 0)
    (Q : B → World → Type 0)
    (reopen : (w : World) (n : ℕ) (s : Option Db) → P w → P (record w { tick = n; saved = s }))
    (finished : (a : A) (env : Env) (w : World)
      → P w
      → w.saved ≡ none
      → Q (finish a env w).0 (finish a env w).1 × ((finish a env w).1.saved ≡ none)) where
  Returning-commit_then :
      (a : A) (env : Env) (w : World) → P w → Returning Q (deferred (commit_then finish a env w))
  unfolding commit ◌>>=◌ rollback
  Returning-commit_then a env w h = by_state w.saved (env.sql_fault w.tick) refl refl
    where
      by_state :
          (s : Option Db) (f : Option Text)
          → w.saved ≡ s
          → env.sql_fault w.tick ≡ f
          → Returning Q (deferred (commit_then finish a env w))
      by_state none f e k = rw (e, commit) tt
      by_state (some d) (some m) e k = rw (e, commit) (rw (k, commit) tt)
      by_state (some d) none e k =
          let committed = record w { tick = suc w.tick; saved = none } in
          let q = finished a env committed (reopen w (suc w.tick) none h) refl in
          rw (e, commit) (rw (k, commit) (rw (q.1, rollback) q.0))

  Returning-and_then :
      (env : Env) (r : Result A × World)
      → After P Anything r
      → Returning Q (deferred (and_then env (commit_then finish) r))
  Returning-and_then env (ok a, w) h = Returning-commit_then a env w h
  Returning-and_then env (err e, w) h = tt

  Returning-inside :
      (m : Exec A)
      → Keeps P Anything m
      → (env : Env) (r : Result (Unit {0}) × World) → After P Anything r
      → Returning Q (inside (m >>= commit_then finish) env r)
  unfolding ◌>>=◌
  Returning-inside m keeps env (ok _, w) h = Returning-and_then env (m env w) (keeps.at env w h)
  Returning-inside m keeps env (err e, w) h = tt

  begin_keeps : (env : Env) (w : World) → P w → After P Anything (begin_immediate env w)
  unfolding begin_immediate
  begin_keeps env w h = by_fault (env.sql_fault w.tick) (env.sql_fault (suc w.tick)) refl refl
    where
      by_fault :
          (f g : Option Text)
          → env.sql_fault w.tick ≡ f
          → env.sql_fault (suc w.tick) ≡ g
          → After P Anything (begin_immediate env w)
      by_fault (some m) g e k = rw (e, begin_immediate) tt
      by_fault none (some m) e k = rw (e, begin_immediate) (rw (k, begin_immediate) tt)
      by_fault none none e k =
          rw (e, begin_immediate)
            (rw (k, begin_immediate) (reopen w (suc (suc w.tick)) (some w.tables) h))

  pub with_tx-Returning :
      (m : Exec A)
      → Keeps P Anything m
      → (env : Env) (w : World) → P w
      → Returning Q (with_tx (m >>= commit_then finish) env w)
  unfolding with_tx
  with_tx-Returning m keeps env w h =
      Returning-inside m keeps env (begin_immediate env w) (begin_keeps env w h)

pub Returning-bind :
    {A B : Type 0} (Q : A → World → Type 0) (R : B → World → Type 0) (env : Env)
    (r : Result A × World) (f : A → Exec B)
    → Returning Q r
    → ((a : A) (w : World) → Q a w → Returning R (f a env w))
    → Returning R (and_then env f r)
Returning-bind Q R env (ok a, w) f h k = k a w h
Returning-bind Q R env (err e, w) f h k = tt
