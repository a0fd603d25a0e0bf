-- ===== src/Commands/Before.antt =====
-- What the commands do before their transaction leaves the tables alone.
use mathlib.Core.Path.{subst}
use fmon.Base.{ℕ, ◌≡◌, Bool, true, false, Option, none, some, ◌∷◌, ◌++◌, arith, Text}
use fmon.Commands.{says_yes, confirm, consent}
use fmon.Db.{Db, has_rows}
use fmon.Exec.{
  Error, no_absolute_path, no_confirmation, Env, OutputLine, World, Result, ok, err, Exec, pure,
  raise, ask, and_then, ◌>>=◌, now, infof, put_line,
}
use fmon.Exec.Atomic.{Undone}
use fmon.Exec.Keeps.{
  After, Keeps, Keeps-pure, Keeps-raise, Keeps-ask, Keeps-if, Keeps-sql, Keeps-modify, Keeps-bind,
  keeps_rules,
}
use fmon.Paths.{separator}
use fmon.Paths.Clean.{is_abs, clean}
use fmon.Queries.{has_data}
use fmon.Scanner.Plan.{normalize_path}

-- What comes before a transaction leaves the tables alone.
abbrev pub Same : Db → World → Type 0
Same d w = w.tables ≡ d

pub Undone-bind :
    {A B : Type 0} (d : Db) (m : Exec A) (f : A → Exec B) (env : Env) (w : World)
    → Keeps (Same d) (Same d) m
    → w.tables ≡ d
    → ((a : A) (w' : World) → Undone w'.tables (f a env w'))
    → Undone d ((m >>= f) env w)
unfolding ◌>>=◌
Undone-bind {A} {B} d m f env w keeps h k = by_result (m env w) (keeps.at env w h)
  where
    by_result : (r : Result A × World) → After (Same d) (Same d) r → Undone d (and_then env f r)
    by_result (ok a, v) e = subst (λ x. Undone x (f a env v)) e (k a v)
    by_result (err x, v) e = e

module _ (d : Db) where
  pub Same-ask {ℓ} : {A : Type ℓ} (f : Env → ℕ → A) → Keeps (Same d) (Same d) (ask f)
  Same-ask f = Keeps-ask f (λ w h. h)

  pub Same-fail {ℓ} : {A : Type ℓ} (e : Error) → Keeps (Same d) (Same d) (raise {A = A} e)
  Same-fail e = Keeps-raise e (λ w h. h)

  pub Same-now : Keeps (Same d) (Same d) now
  unfolding now
  Same-now = Same-ask (λ env n. env.clock n)

  pub Same-infof : (l : OutputLine) → Keeps (Same d) (Same d) (infof l)
  unfolding infof
  Same-infof l = Keeps-modify _ (λ w h. ground arith)

  pub Same-put_line : (l : OutputLine) → Keeps (Same d) (Same d) (put_line l)
  unfolding put_line
  Same-put_line l = Keeps-modify _ (λ w h. h)

  pub Same-normalize_path : (p : Text) → Keeps (Same d) (Same d) (normalize_path p)
  unfolding normalize_path
  Same-normalize_path p =
      Keeps-if (is_abs p) _ _ (λ _. Keeps-pure _)
        λ _. Keeps-bind _ _ (Same-ask (λ env n. env.working_dir n)) by_dir
    where
      by_dir :
          (wd : Option Text)
          → Keeps {0} {A = Text} (Same d) (Same d) (elim wd [
            | none ↦ raise (no_absolute_path p)
            | some c ↦ pure (clean (clean (c ++ separator ∷ p)))
          ])
      by_dir none = Same-fail (no_absolute_path p)
      by_dir (some c) = Keeps-pure _

  pub Same-has_data : Keeps (Same d) (Same d) has_data
  unfolding has_data
  Same-has_data = Keeps-sql (λ t. some (has_rows t, t)) (λ w h. h) (λ w a v h e. ground arith)

  pub Same-answer :
      (trim : Text → Text) (line : Option Text)
      → Keeps {0} {A = Bool}
          (Same d)
          (Same d)
          (elim line [ none ↦ raise no_confirmation | some l ↦ pure (says_yes (trim l)) ])
  Same-answer trim none = Same-fail no_confirmation
  Same-answer trim (some l) = Keeps-pure _

  pub Same-confirm : (b : Bool) → Keeps (Same d) (Same d) (confirm b)
  unfolding confirm
  Same-confirm true = Keeps-pure true
  Same-confirm false = search (keeps_rules, Same-ask, Same-put_line, Same-answer, Same-fail) depth 9

  pub Same-consent : (needed b : Bool) → Keeps (Same d) (Same d) (consent needed b)
  unfolding consent
  Same-consent needed b = search (keeps_rules, Same-confirm, Same-fail)
