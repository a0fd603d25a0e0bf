-- ===== src/Main/Ends.antt =====
-- main.go: actions that end with an exit code.
use fmon.Base.{ℕ, ◌≤◌, ◌≡◌, refl, Bool, true, false, arith, if◌then◌else◌}
use fmon.Exec.{
  Error, negative_index, Env, aborted_line, OutputLine, World, Result, ok, err, Exec, pure, raise,
  ask, modify, and_then, ◌>>=◌, ◌>>◌, put_line,
}
use fmon.Exec.Keeps.{Succeeds}
use fmon.Main.Run.{
  put_error, fail_with, refuse, is_panic, handled, or_fail, is_aborted, ended, finish_with, answer,
}
use fmon.Main.Setup.{Libraries}
use fmon.Main.Usage.{UsageError}

-- An exit code, or the panic of `migrations[i]` at an index below 0.
abbrev pub EndsWell : Result ℕ × World → Type 0
EndsWell (ok code, w) = code ≤ 2
EndsWell (err e, w) = e ≡ negative_index

-- The action ends so.
pub record Total (m : Exec ℕ) : Type 0 where
  pub at : (env : Env) (w : World) → EndsWell (m env w)

-- The action cannot fail.
pub record Always {A : Type 0} (m : Exec A) : Type 0 where
  pub at : (env : Env) (w : World) → Succeeds (λ _ _. Unit {0}) (m env w)

pub Total-pure : (n : ℕ) → n ≤ 2 → Total (pure n)
unfolding pure
Total-pure n h = record { at = λ env w. h }

pub Total-if : (b : Bool) (m n : Exec ℕ) → Total m → Total n → Total (if b then m else n)
Total-if true m n km kn = km
Total-if false m n km kn = kn

pub Total-if_not : (b : Bool) (m n : Exec ℕ) → b ≡ false → Total n → Total (if b then m else n)
Total-if_not true m n h k = absurd (ground arith)
Total-if_not false m n h k = k

pub Total-bind :
    {A : Type 0} (m : Exec A) (k : A → Exec ℕ)
    → Always m
    → ((a : A) → Total (k a))
    → Total (m >>= k)
unfolding ◌>>=◌
Total-bind {A} m k always total = record { at = λ env w. by_result env (m env w) (always.at env w) }
  where
    by_result :
        (env : Env) (o : Result A × World)
        → Succeeds (λ _ _. Unit {0}) o
        → EndsWell (and_then env k o)
    by_result env (ok a, u) h = (total a).at env u
    by_result env (err e, u) h = elim h [ ]

pub Always-modify : (f : World → World) → Always (modify f)
unfolding modify
Always-modify f = record { at = λ env w. tt }

pub Always-ask : {A : Type 0} (g : Env → ℕ → A) → Always (ask g)
unfolding ask
Always-ask g = record { at = λ env w. tt }

pub Total-fail : (e : Error) → Total (fail_with e)
unfolding fail_with put_error
Total-fail e = Total-bind _ _ (Always-modify _) λ _. Total-pure 1 (omega arith)

pub Total-refuse : (e : UsageError) → Total (refuse e)
unfolding refuse put_error
Total-refuse e = Total-bind _ _ (Always-modify _) λ _. Total-pure 1 (omega arith)

pub Total-answer : (lib : Libraries) (l : OutputLine) → Total (answer lib l)
unfolding put_line
Total-answer lib l = Total-bind _ _ (Always-modify _) λ _. Total-pure 0 (omega arith)

is_panic-eq : (e : Error) → is_panic e ≡ true → e ≡ negative_index
is_panic-eq negative_index h = refl
is_panic-eq e h = ground arith

-- An error that is no panic becomes an exit code.
Total-panic : (e : Error) (m : Exec ℕ) → Total m → Total (if is_panic e then raise e else m)
unfolding raise
Total-panic e m total = record { at = λ env w. by_test (is_panic e) refl env w }
  where
    by_test :
        (b : Bool)
        → is_panic e ≡ b
        → (env : Env) (w : World) → EndsWell ((if b then raise e else m) env w)
    by_test true h env w = is_panic-eq e h
    by_test false h env w = total.at env w

-- Every error of `m` but the panic becomes an exit code.
pub Total-or_fail :
    {A : Type 0} (m : Exec A) (k : A → Exec ℕ) → ((a : A) → Total (k a)) → Total (or_fail m k)
unfolding or_fail
Total-or_fail {A} m k total = record { at = λ env w. by_result env (m env w) }
  where
    by_result : (env : Env) (o : Result A × World) → EndsWell (handled env k o)
    by_result env (ok a, w) = (total a).at env w
    by_result env (err e, w) = (Total-panic e (fail_with e) (Total-fail e)).at env w

pub Total-aborted : Total (put_error aborted_line >> pure 1)
unfolding put_error
Total-aborted = Total-bind _ _ (Always-modify _) λ _. Total-pure 1 (omega arith)

pub Total-finish_with : (m : Exec (Unit {0})) (k : Exec ℕ) → Total k → Total (finish_with m k)
unfolding finish_with
Total-finish_with m k total = record { at = λ env w. by_result env (m env w) }
  where
    by_result : (env : Env) (o : Result (Unit {0}) × World) → EndsWell (ended env k o)
    by_result env (ok _, w) = total.at env w
    by_result env (err e, w) =
        (Total-panic e _ (
            Total-if (is_aborted e) (put_error aborted_line >> pure 1) (fail_with e) Total-aborted
              (Total-fail e))).at
          env w
