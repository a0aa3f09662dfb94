-- ===== src/Effects/Leads.antt =====
-- What the values of an action satisfy in one environment, whatever the world; and what a
-- continuation may rely on of what comes before it.
use almanak_keeperhub.Prelude.{◌≡◌, refl, Bool, true, false, if◌then◌else◌}
use almanak_keeperhub.Errors.{Error, Result, ok, err}
use almanak_keeperhub.Effects.{World, Host, Action, attempt, pure, raise, continue, ◌>>=◌}
use almanak_keeperhub.Effects.Frame.{Outcome}

abbrev pub Any : Error → Type 0
Any e = Unit

-- In the environment, a value satisfies P.
pub record Leads {A : Type 0} (h : Host) (P : A → Type 0) (m : Action A) : Type 0 where
  pub at : (w : World) → Outcome P Any (m h w).0

module _ {A B : Type 0} {P : B → Type 0} {h : Host} where
  continued :
      (r : Result A) (f : A → Action B) (v : World)
      → ((a : A) → r ≡ ok a → Leads h P (f a))
      → Outcome P Any (continue r f h v).0
  unfolding continue
  continued (ok a) f v k = (k a refl).at v
  continued (err e) f v k = tt

  pub Leads-bind :
      (m : Action A) {f : A → Action B}
      → ((a : A) (w : World) → (m h w).0 ≡ ok a → Leads h P (f a))
      → Leads h P (m >>= f)
  unfolding ◌>>=◌
  Leads-bind m {f} k = record { at = λ w. continued (m h w).0 f (m h w).1 (λ a e. k a w e) }

  pub Leads-attempt :
      (m : Action A) {f : Result A → Action B}
      → ((r : Result A) → (w : World) × ((m h w).0 ≡ r) → Leads h P (f r))
      → Leads h P (attempt m >>= f)
  unfolding ◌>>=◌ attempt continue
  Leads-attempt m k = record { at = λ w. (k (m h w).0 (w, refl)).at (m h w).1 }

module _ {A : Type 0} {P : A → Type 0} {h : Host} where
  pub Leads-pure : (a : A) → P a → Leads h P (pure a)
  unfolding pure
  Leads-pure a p = record { at = λ w. p }

  pub Leads-raise : (e : Error) → Leads h P (raise e)
  unfolding raise
  Leads-raise e = record { at = λ w. tt }

  pub Leads-if :
      (b : Bool) {m n : Action A}
      → (b ≡ true → Leads h P m)
      → (b ≡ false → Leads h P n)
      → Leads h P (if b then m else n)
  Leads-if true d e = d refl
  Leads-if false d e = e refl

module _ {A : Type 0} {P Q : A → Type 0} where
  moved : (r : Result A) → ((a : A) → P a → Q a) → Outcome P Any r → Outcome Q Any r
  moved (ok a) k p = k a p
  moved (err e) k p = tt

  pub Leads-mono : {h : Host} {m : Action A} → ((a : A) → P a → Q a) → Leads h P m → Leads h Q m
  Leads-mono {h} {m} k d = record { at = λ w. moved (m h w).0 k (d.at w) }
