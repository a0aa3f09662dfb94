-- ===== src/Effects/Triple.antt =====
-- What a call's value says about the state that it leaves, given what held before.
use almanak_keeperhub.Prelude.{◌≡◌, refl, Bool, true, false, if◌then◌else◌}
use almanak_keeperhub.Errors.{Error, Result, ok, err}
use almanak_keeperhub.Effects.{Host, World, Action, pure, raise, gets, continue, ◌>>=◌}
use almanak_keeperhub.Effects.Frame.{Frame, Keeps}

abbrev pub Left : {A : Type 0} → (A → World → Type 0) → Result A → World → Type 0
Left Q (ok a) w = Q a w
Left Q (err e) w = Unit

-- From a state that satisfies P, a value is returned in a state that Q relates it to.
pub record Triple {A : Type 0} (P : World → Type 0) (m : Action A) (Q : A → World → Type 0)
    : Type 0 where
  pub at : (h : Host) (w : World) → P w → Left Q (m h w).0 (m h w).1

module _ {A : Type 0} {P : World → Type 0} {Q : A → World → Type 0} where
  pub Triple-pure : (a : A) → ((w : World) → P w → Q a w) → Triple P (pure a) Q
  unfolding pure
  Triple-pure a k = record { at = λ h w p. k w p }

  pub Triple-raise : (e : Error) → Triple P (raise e) Q
  unfolding raise
  Triple-raise e = record { at = λ h w p. tt }

  pub Triple-gets : (f : World → A) → ((w : World) → P w → Q (f w) w) → Triple P (gets f) Q
  unfolding gets
  Triple-gets f k = record { at = λ h w p. k w p }

  pub Triple-if :
      (b : Bool) {m n : Action A} → Triple P m Q → Triple P n Q → Triple P (if b then m else n) Q
  Triple-if true s t = s
  Triple-if false s t = t

  pub Triple-split :
      (b : Bool) {m n : Action A}
      → (b ≡ true → Triple P m Q)
      → (b ≡ false → Triple P n Q)
      → Triple P (if b then m else n) Q
  Triple-split true s t = s refl
  Triple-split false s t = t refl

  pub Triple-weaken :
      {S : World → Type 0} {m : Action A} → Triple S m Q → ((w : World) → P w → S w) → Triple P m Q
  Triple-weaken t k = record { at = λ h w p. t.at h w (k w p) }

  pub Triple-eta : {m : Action A} → Triple P m Q → Triple P (λ h w. m h w) Q
  Triple-eta t = record { at = λ h w p. t.at h w p }

module _ {A B : Type 0} {R : A → World → Type 0} {Q : B → World → Type 0} where
  continue-Left :
      (r : Result A) (f : A → Action B) (v : World) (h : Host)
      → Left R r v
      → ((a : A) → Triple (R a) (f a) Q)
      → Left Q (continue r f h v).0 (continue r f h v).1
  unfolding continue
  continue-Left (ok a) f v h p k = (k a).at h v p
  continue-Left (err e) f v h p k = tt

  pub Triple-bind :
      {P : World → Type 0} {m : Action A} {f : A → Action B}
      → Triple P m R
      → ((a : A) → Triple (R a) (f a) Q)
      → Triple P (m >>= f) Q
  unfolding ◌>>=◌
  Triple-bind {P} {m} {f} s k = record {
    at = λ h w p. continue-Left (m h w).0 f (m h w).1 h (s.at h w p) k;
  }

-- What a frame preserves holds after the call too, next to what the call leaves.
module _ {A : Type 0} (P : World → Type 0) (F : Frame)
    (kept : (u v : World) → F.rel u v → P u → P v) where
  always :
      (Q : A → World → Type 0) (r : Result A) (w : World)
      → Left Q r w
      → P w
      → Left (λ a v. Q a v × P v) r w
  always Q (ok a) w q p = (q, p)
  always Q (err e) w q p = tt

  pub Triple-keeps :
      {S : World → Type 0} {Q : A → World → Type 0} {m : Action A}
      → Keeps F m
      → Triple S m Q
      → Triple (λ w. S w × P w) m (λ a w. Q a w × P w)
  Triple-keeps {S} {Q} {m} k t = record {
    at = λ h w p. always Q (m h w).0 (m h w).1 (t.at h w p.0) (kept w (m h w).1 (k.at h w) p.1);
  }

  nothing : (r : Result A) (w : World) → P w → Left (λ a v. P v) r w
  nothing (ok a) w p = p
  nothing (err e) w p = tt

  pub Triple-frame : {m : Action A} → Keeps F m → Triple P m (λ a w. P w)
  Triple-frame {m} k = record {
    at = λ h w p. nothing (m h w).0 (m h w).1 (kept w (m h w).1 (k.at h w) p);
  }

module _ {A : Type 0} where
  trivial : (r : Result A) (w : World) → Left (λ a v. Unit) r w
  trivial (ok a) w = tt
  trivial (err e) w = tt

  pub Triple-any : {P : World → Type 0} (m : Action A) → Triple P m (λ a w. Unit)
  Triple-any m = record { at = λ h w p. trivial (m h w).0 (m h w).1 }
