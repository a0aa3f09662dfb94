-- ===== src/Client/Steps.antt =====
-- What the client's methods do to the state: they send requests of a given kind and learn the
-- API's capabilities; they leave the receipts file, the alerts and the submitter alone.
use mathlib.Core.List.{append_assoc}
use native.Mathlib.Nat.{le_refl, le_trans, le-add_right}
use almanak_keeperhub.Prelude.{
  ◌||◌, ◌==◌, ◌+◌, ◌≤◌, String, ◌≡◌, refl, sym, ap, ◌∙◌, ◌⊎◌, inl, inr, Bool, true, false, Option,
  none, some, List, [], ◌∷◌, ◌++◌, All, All-append, if◌then◌else◌, is_some,
}
use almanak_keeperhub.Prelude.Int.{ℤ}
use almanak_keeperhub.Python.Json.{Value, Dict, text_of}
use almanak_keeperhub.Effects.{
  Request, Response, Reply, response, transport_error, World, Host, Action, answer, pure, gets,
  asks, http, sleep, modify, ◌>>=◌, ◌>>◌,
}
use almanak_keeperhub.Effects.Frame.{Frame, Keeps, Keeps-if, Keeps-pure, Keeps-raise}
use almanak_keeperhub.Client.Calls.{ContractCall, raw_only}
use almanak_keeperhub.Client.Answers.{rejects_unknown_shape}
use almanak_keeperhub.Client.Methods.{
  set_raw_calldata, set_call_sequence, learn, learned, accept, fall_back,
}

-- A flag that is known keeps its value.
abbrev pub Latched : Option Bool → Option Bool → Type 0
Latched a b = (a ≡ none) ⊎ (b ≡ a)

pub record Step (P : Request → Type 0) (u v : World) : Type 0 where
  pub new : List Request
  pub sent : v.sent ≡ new ++ u.sent
  pub allowed : All P new
  pub clock : u.clock ≤ v.clock
  pub file : v.file ≡ u.file
  pub alerts : v.alerts ≡ u.alerts
  pub executions : v.executions ≡ u.executions
  pub raw_calldata : Latched u.capabilities.raw_calldata v.capabilities.raw_calldata

Latched-trans : {a b c : Option Bool} → Latched a b → Latched b c → Latched a c
Latched-trans {a} {b} {c} (inl e) k = inl e
Latched-trans {a} {b} {c} (inr e) (inl f) = inl (sym e ∙ f)
Latched-trans {a} {b} {c} (inr e) (inr f) = inr (f ∙ e)

module _ (P : Request → Type 0) where
  pub Step-stay : (w : World) → Step P w w
  Step-stay w = record {
    new = [];
    sent = refl;
    allowed = tt;
    clock = le_refl _;
    file = refl;
    alerts = refl;
    executions = refl;
    raw_calldata = inr refl;
  }

  pub Step-compose : (u v w : World) → Step P u v → Step P v w → Step P u w
  Step-compose u v w s t = record {
    new = t.new ++ s.new;
    sent = t.sent ∙ (ap (λ l. t.new ++ l) s.sent ∙ sym (append_assoc t.new s.new u.sent));
    allowed = All-append P t.new s.new t.allowed s.allowed;
    clock = le_trans s.clock t.clock;
    file = t.file ∙ s.file;
    alerts = t.alerts ∙ s.alerts;
    executions = t.executions ∙ s.executions;
    raw_calldata = Latched-trans s.raw_calldata t.raw_calldata;
  }

  abbrev pub Sends : Frame
  Sends = record { rel = Step P; stay = Step-stay; compose = Step-compose }

module _ {P : Request → Type 0} where
  answered :
      (r : Request)
      → P r
      → (h : Host) (w : World) (reply : Reply)
      → Step P w
          (answer reply h (record w { sent = r ∷ w.sent; clock = w.clock + h.latency w.sent })).1
  unfolding answer
  answered r p h w (response a) = record {
    new = r ∷ [];
    sent = refl;
    allowed = (p, tt);
    clock = le-add_right _ _;
    file = refl;
    alerts = refl;
    executions = refl;
    raw_calldata = inr refl;
  }
  answered r p h w (transport_error a) = record {
    new = r ∷ [];
    sent = refl;
    allowed = (p, tt);
    clock = le-add_right _ _;
    file = refl;
    alerts = refl;
    executions = refl;
    raw_calldata = inr refl;
  }

  pub Keeps-http : (r : Request) → P r → Keeps (Sends P) (http r)
  unfolding http
  Keeps-http r p = record { at = λ h w. answered r p h w (h.server w.sent r) }

  pub Keeps-sleep : (d : ℤ) → Keeps (Sends P) (sleep d)
  unfolding sleep
  Keeps-sleep d = record {
    at = λ h w. record {
      new = [];
      sent = refl;
      allowed = tt;
      clock = le-add_right _ _;
      file = refl;
      alerts = refl;
      executions = refl;
      raw_calldata = inr refl;
    };
  }

  pub Keeps-set_call_sequence : (b : Bool) → Keeps (Sends P) (set_call_sequence b)
  unfolding set_call_sequence modify
  Keeps-set_call_sequence b = record {
    at = λ h w. record {
      new = [];
      sent = refl;
      allowed = tt;
      clock = le_refl _;
      file = refl;
      alerts = refl;
      executions = refl;
      raw_calldata = inr refl;
    };
  }

  set_raw_calldata-Step :
      (b : Bool) (h : Host) (w : World)
      → w.capabilities.raw_calldata ≡ none
      → Step P w (set_raw_calldata b h w).1
  unfolding set_raw_calldata modify
  set_raw_calldata-Step b h w unknown = record {
    new = [];
    sent = refl;
    allowed = tt;
    clock = le_refl _;
    file = refl;
    alerts = refl;
    executions = refl;
    raw_calldata = inl unknown;
  }

  -- After a step from a state where the flag is unknown, the rest of a block.
  after_flag :
      {A : Type 0} (b : Bool) (m : Action A) (h : Host) (w : World)
      → w.capabilities.raw_calldata ≡ none
      → Keeps (Sends P) m
      → Step P w ((set_raw_calldata b >> m) h w).1
  unfolding ◌>>=◌ set_raw_calldata modify
  after_flag b m h w unknown k =
      Step-compose P w (set_raw_calldata b h w).1 _ (set_raw_calldata-Step b h w unknown)
        (k.at h (set_raw_calldata b h w).1)

  if_at :
      {A : Type 0} (b : Bool) (m n : Action A) {h : Host} {w : World}
      → Step P w (m h w).1
      → Step P w (n h w).1
      → Step P w ((if b then m else n) h w).1
  if_at true m n p q = p
  if_at false m n p q = q

  learned-Step :
      (c : ContractCall) (again : Action (Response × Dict × Bool)) (r : Response) (payload : Dict)
      (raw : Bool) (show_value : Value → String) (h : Host) (w : World) (flag : Option Bool)
      → w.capabilities.raw_calldata ≡ flag
      → Keeps (Sends P) again
      → Step P w (learned c again r payload raw (is_some flag) show_value h w).1
  unfolding learned accept fall_back pure
  learned-Step c again r payload true show_value h w (some b) e k = Step-stay P w
  learned-Step c again r payload false show_value h w (some b) e k = Step-stay P w
  learned-Step c again r payload false show_value h w none e k = Step-stay P w
  learned-Step c again r payload true show_value h w none e k =
      if_at (rejects_unknown_shape _ _ _ _ _) _ _
        (after_flag false _ h w e (Keeps-if (raw_only c) (Keeps-raise _) k))
        (if_at (r.status_code == 200 || r.status_code == 202) _ _
          (after_flag true _ h w e (Keeps-pure _)) (Step-stay P w))

  pub Keeps-learn :
      (c : ContractCall) (again : Action (Response × Dict × Bool)) (r : Response) (payload : Dict)
      (raw : Bool)
      → Keeps (Sends P) again
      → Keeps (Sends P) (learn c again r payload raw)
  unfolding learn gets asks ◌>>=◌
  Keeps-learn c again r payload raw k = record {
    at = λ h w. learned-Step c again r payload raw (text_of h.repr) h w _ refl k;
  }
