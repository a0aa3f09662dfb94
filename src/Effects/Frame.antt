-- ===== src/Effects/Frame.antt =====
-- What a call does to the state, whatever it returns, and what it returns, whatever the state: two
-- judgements, with one rule for each way to build an action.
use almanak_keeperhub.Prelude.{◌≡◌, refl, Bool, true, false, if◌then◌else◌}
use almanak_keeperhub.Errors.{Error, Result, ok, err}
use almanak_keeperhub.Effects.{
  Host, World, Action, pure, raise, lift, gets, asks, attempt, continue, ◌>>=◌,
}

-- A relation between the states before and after, closed under doing nothing and doing two things.
pub record Frame : Type 1 where
  pub rel : World → World → Type 0
  pub stay : (w : World) → rel w w
  pub compose : (u v w : World) → rel u v → rel v w → rel u w

-- The state moves within the frame, also where the call raises.
pub record Keeps {A : Type 0} (F : Frame) (m : Action A) : Type 0 where
  pub at : (h : Host) (w : World) → F.rel w (m h w).1

module _ {A : Type 0} {F : Frame} where
  pub Keeps-pure : (a : A) → Keeps F (pure a)
  unfolding pure
  Keeps-pure a = record { at = λ h w. F.stay w }

  pub Keeps-raise : (e : Error) → Keeps F (raise {A = A} e)
  unfolding raise
  Keeps-raise e = record { at = λ h w. F.stay w }

  pub Keeps-lift : (r : Result A) → Keeps F (lift r)
  unfolding lift
  Keeps-lift r = record { at = λ h w. F.stay w }

  pub Keeps-gets : (f : World → A) → Keeps F (gets f)
  unfolding gets
  Keeps-gets f = record { at = λ h w. F.stay w }

  pub Keeps-asks : (f : Host → A) → Keeps F (asks f)
  unfolding asks
  Keeps-asks f = record { at = λ h w. F.stay w }

  pub Keeps-if : (b : Bool) {m n : Action A} → Keeps F m → Keeps F n → Keeps F (if b then m else n)
  Keeps-if true km kn = km
  Keeps-if false km kn = kn

  pub Keeps-attempt : {m : Action A} → Keeps F m → Keeps F (attempt m)
  unfolding attempt
  Keeps-attempt k = record { at = λ h w. k.at h w }

  -- A call that is passed on as a function of the host and the state.
  pub Keeps-eta : {m : Action A} → Keeps F m → Keeps F (λ h w. m h w)
  Keeps-eta k = record { at = λ h w. k.at h w }

module _ {A B : Type 0} {F : Frame} where
  continue-moves :
      (r : Result A) (f : A → Action B) (u v : World) (h : Host)
      → F.rel u v
      → ((a : A) → Keeps F (f a))
      → F.rel u (continue r f h v).1
  unfolding continue
  continue-moves (ok a) f u v h m d = F.compose u v _ m ((d a).at h v)
  continue-moves (err e) f u v h m d = m

  -- What follows a value that may be an exception may rely on where the value comes from.
  pub Keeps-lift-bind :
      (r : Result A) {f : A → Action B}
      → ((a : A) → r ≡ ok a → Keeps F (f a))
      → Keeps F (lift r >>= f)
  unfolding lift ◌>>=◌
  Keeps-lift-bind (ok a) k = Keeps-eta (k a refl)
  Keeps-lift-bind (err e) k = record { at = λ h w. F.stay w }

  pub Keeps-bind :
      {m : Action A} {f : A → Action B} → Keeps F m → ((a : A) → Keeps F (f a)) → Keeps F (m >>= f)
  unfolding ◌>>=◌
  Keeps-bind {m} {f} d e = record {
    at = λ h w. continue-moves (m h w).0 f w (m h w).1 h (d.at h w) e;
  }

pub ruleset keeps_rules = (
  Keeps-pure, Keeps-raise, Keeps-lift, Keeps-gets, Keeps-asks, Keeps-if, Keeps-attempt, Keeps-eta,
  Keeps-bind,
)

abbrev pub Outcome : {A : Type 0} → (A → Type 0) → (Error → Type 0) → Result A → Type 0
Outcome P E (ok a) = P a
Outcome P E (err e) = E e

abbrev pub Anything : {A : Type 0} → A → Type 0
Anything a = Unit

-- A value satisfies P, an exception E.
pub record Ends {A : Type 0} (P : A → Type 0) (E : Error → Type 0) (m : Action A) : Type 0 where
  pub at : (h : Host) (w : World) → Outcome P E (m h w).0

module _ {A : Type 0} {P : A → Type 0} {E : Error → Type 0} where
  pub Ends-pure : (a : A) → P a → Ends P E (pure a)
  unfolding pure
  Ends-pure a p = record { at = λ h w. p }

  pub Ends-raise : (e : Error) → E e → Ends P E (raise e)
  unfolding raise
  Ends-raise e p = record { at = λ h w. p }

  pub Ends-lift : (r : Result A) → Outcome P E r → Ends P E (lift r)
  unfolding lift
  Ends-lift r p = record { at = λ h w. p }

  pub Ends-gets : (f : World → A) → ((w : World) → P (f w)) → Ends P E (gets f)
  unfolding gets
  Ends-gets f p = record { at = λ h w. p w }

  pub Ends-asks : (f : Host → A) → ((h : Host) → P (f h)) → Ends P E (asks f)
  unfolding asks
  Ends-asks f p = record { at = λ h w. p h }

  pub Ends-if :
      (b : Bool) {m n : Action A}
      → (b ≡ true → Ends P E m)
      → (b ≡ false → Ends P E n)
      → Ends P E (if b then m else n)
  Ends-if true d e = d refl
  Ends-if false d e = e refl

  pub Ends-attempt :
      {E' : Error → Type 0} {m : Action A} → Ends P E m → Ends (Outcome P E) E' (attempt m)
  unfolding attempt
  Ends-attempt d = record { at = λ h w. d.at h w }

  pub Ends-eta : {m : Action A} → Ends P E m → Ends P E (λ h w. m h w)
  Ends-eta d = record { at = λ h w. d.at h w }

module _ {A B : Type 0} {P : A → Type 0} {Q : B → Type 0} {E : Error → Type 0} where
  continue-Ends :
      (r : Result A) (f : A → Action B) (v : World) (h : Host)
      → Outcome P E r
      → ((a : A) → P a → Ends Q E (f a))
      → Outcome Q E (continue r f h v).0
  unfolding continue
  continue-Ends (ok a) f v h p d = (d a p).at h v
  continue-Ends (err e) f v h p d = p

  pub Ends-bind :
      {m : Action A} {f : A → Action B}
      → Ends P E m
      → ((a : A) → P a → Ends Q E (f a))
      → Ends Q E (m >>= f)
  unfolding ◌>>=◌
  Ends-bind {m} {f} d e = record { at = λ h w. continue-Ends (m h w).0 f (m h w).1 h (d.at h w) e }

-- The same of calls on one host, for what depends on how the server behaves.
pub record EndsOn {A : Type 0} (h : Host) (P : A → Type 0) (E : Error → Type 0) (m : Action A)
    : Type 0 where
  pub at : (w : World) → Outcome P E (m h w).0

module _ {A : Type 0} {h : Host} {P : A → Type 0} {E : Error → Type 0} where
  pub EndsOn-of_Ends : {m : Action A} → Ends P E m → EndsOn h P E m
  EndsOn-of_Ends e = record { at = λ w. e.at h w }

  pub EndsOn-pure : (a : A) → P a → EndsOn h P E (pure a)
  EndsOn-pure a p = EndsOn-of_Ends (Ends-pure a p)

  pub EndsOn-raise : (e : Error) → E e → EndsOn h P E (raise e)
  EndsOn-raise e p = EndsOn-of_Ends (Ends-raise e p)

  pub EndsOn-lift : (r : Result A) → Outcome P E r → EndsOn h P E (lift r)
  EndsOn-lift r p = EndsOn-of_Ends (Ends-lift r p)

  pub EndsOn-if :
      (b : Bool) {m n : Action A}
      → EndsOn h P E m
      → EndsOn h P E n
      → EndsOn h P E (if b then m else n)
  EndsOn-if true d e = d
  EndsOn-if false d e = e

  pub EndsOn-attempt :
      {E' : Error → Type 0} {m : Action A} → EndsOn h P E m → EndsOn h (Outcome P E) E' (attempt m)
  unfolding attempt
  EndsOn-attempt d = record { at = λ w. d.at w }

  pub EndsOn-eta : {m : Action A} → EndsOn h P E m → EndsOn h P E (λ h' w. m h' w)
  EndsOn-eta d = record { at = λ w. d.at w }

module _ {A B : Type 0} {h : Host} {P : A → Type 0} {Q : B → Type 0} {E : Error → Type 0} where
  continue-EndsOn :
      (r : Result A) (f : A → Action B) (v : World)
      → Outcome P E r
      → ((a : A) → P a → EndsOn h Q E (f a))
      → Outcome Q E (continue r f h v).0
  unfolding continue
  continue-EndsOn (ok a) f v p d = (d a p).at v
  continue-EndsOn (err e) f v p d = p

  pub EndsOn-bind :
      {m : Action A} {f : A → Action B}
      → EndsOn h P E m
      → ((a : A) → P a → EndsOn h Q E (f a))
      → EndsOn h Q E (m >>= f)
  unfolding ◌>>=◌
  EndsOn-bind {m} {f} d e = record { at = λ w. continue-EndsOn (m h w).0 f (m h w).1 (d.at w) e }
