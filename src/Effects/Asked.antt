-- ===== src/Effects/Asked.antt =====
-- The requests that a call sends, whatever it does to the rest of the state.
use mathlib.Core.List.{append_assoc}
use almanak_keeperhub.Prelude.{◌≡◌, refl, sym, ap, ◌∙◌, List, [], ◌++◌, All, All-append}
use almanak_keeperhub.Effects.{Request, World, Alert, modify, notify}
use almanak_keeperhub.Effects.Frame.{Frame, Keeps}

-- The requests sent between two states all satisfy P.
pub record Asked (P : Request → Type 0) (u v : World) : Type 0 where
  pub new : List Request
  pub sent : v.sent ≡ new ++ u.sent
  pub allowed : All P new

module _ (P : Request → Type 0) where
  pub Asked-stay : (u v : World) → v.sent ≡ u.sent → Asked P u v
  Asked-stay u v same = record { new = []; sent = same; allowed = tt }

  pub Asked-compose : (u v w : World) → Asked P u v → Asked P v w → Asked P u w
  Asked-compose u v w s t = record {
    new = t.new ++ s.new;
    sent = t.sent ∙ (ap (λ l. t.new ++ l) s.sent ∙ sym (append_assoc t.new s.new u.sent));
    allowed = All-append P t.new s.new t.allowed s.allowed;
  }

  abbrev pub Asks : Frame
  Asks = record { rel = Asked P; stay = λ w. Asked-stay w w refl; compose = Asked-compose }

  pub Keeps-modify :
      (g : World → World) → ((w : World) → (g w).sent ≡ w.sent) → Keeps Asks (modify g)
  unfolding modify
  Keeps-modify g same = record { at = λ h w. Asked-stay w (g w) (same w) }

  pub Keeps-notify : (a : Alert) → Keeps Asks (notify a)
  unfolding notify
  Keeps-notify a = record { at = λ h w. Asked-stay w _ refl }
