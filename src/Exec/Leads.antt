-- ===== src/Exec/Leads.antt =====
-- Hoare triples of actions: from `P`, the action returns in `Q` or fails in `E`.
use fmon.Base.{ℕ, suc, ◌≡◌, refl, Bool, true, false, if◌then◌else◌}
use fmon.Exec.{Error, Env, World, Result, ok, err, Exec, pure, raise, ask, and_then, ◌>>=◌}
use fmon.Exec.Keeps.{After}

pub record Leads {ℓ} {A : Type ℓ} (P Q E : World → Type 0) (m : Exec A) : Type ℓ where
  pub at : (env : Env) (w : World) → P w → After Q E (m env w)

module _ {ℓ} {A : Type ℓ} {P Q E : World → Type 0} where
  pub Leads-pure : (a : A) → ((w : World) → P w → Q w) → Leads P Q E (pure a)
  unfolding pure
  Leads-pure a h = record { at = λ env w p. h w p }

  pub Leads-raise : (e : Error) → ((w : World) → P w → E w) → Leads P Q E (raise {A = A} e)
  unfolding raise
  Leads-raise e h = record { at = λ env w p. h w p }

  pub Leads-if :
      (b : Bool) (m n : Exec A)
      → (b ≡ true → Leads P Q E m)
      → (b ≡ false → Leads P Q E n)
      → Leads P Q E (if b then m else n)
  Leads-if true m n km kn = km refl
  Leads-if false m n km kn = kn refl

module _ {ℓ} {A : Type ℓ} {P E : World → Type 0} where
  pub Leads-ask :
      (f : Env → ℕ → A)
      → ((w : World) → P w → P (record w { tick = suc w.tick }))
      → Leads P P E (ask f)
  unfolding ask
  Leads-ask f h = record { at = λ env w p. h w p }

module _ {ℓ κ} {A : Type ℓ} {B : Type κ} {P Q R E : World → Type 0} where
  pub Leads-bind :
      (m : Exec A) (f : A → Exec B)
      → Leads P Q E m
      → ((a : A) → Leads Q R E (f a))
      → Leads P R E (m >>= f)
  unfolding ◌>>=◌
  Leads-bind m f km kf = record { at = λ env w p. step env (m env w) (km.at env w p) }
    where
      step : (env : Env) (r : Result A × World) → After Q E r → After R E (and_then env f r)
      step env (ok a, v) q = (kf a).at env v q
      step env (err x, v) q = q
