-- ===== src/Client/Ends.antt =====
-- How the client's methods end: with a value, or with an exception of the client or of httpx. The
-- two rounds of `_post_call` always suffice.
use almanak_keeperhub.Prelude.{
  String, ◌≡◌, refl, inl, inr, Bool, true, false, ◌||◌, Option, none, some, arith, ◌==◌,
  if◌then◌else◌, Bool-cases,
}
use almanak_keeperhub.Python.Json.{Value, Dict, get, as_str, put, bool as flag}
use almanak_keeperhub.Errors.{Error, Result, ok, err, api, transport, value_error, type_error}
use almanak_keeperhub.Effects.{
  Request, Response, Reply, response, transport_error, World, Host, Action, answer, pure, raise,
  gets, asks, lift, modify, http, continue, ◌>>=◌,
}
use almanak_keeperhub.Effects.Frame.{
  Outcome, Anything, Ends, Ends-pure, Ends-raise, Ends-lift, Ends-asks, Ends-bind,
}
use almanak_keeperhub.Client.Calls.{ContractCall, raw_only, body}
use almanak_keeperhub.Client.Answers.{raise_for_status, receipt_items}
use almanak_keeperhub.Client.Methods.{
  exchange, post_request, contract_call_path, set_raw_calldata, use_raw, fall_back, accept, learned,
  learn, post_call_step, post_call_from, post_call, read_envelope, execute_contract_call, read_hint,
  execution_status,
}

-- The exceptions that a single exchange may end with.
abbrev pub IsClientError : Error → Type 0
IsClientError (api e) = Unit
IsClientError (transport e) = Unit
IsClientError (value_error e) = Unit
IsClientError (type_error e) = Unit
IsClientError e = ⊥

abbrev pub Answers : {A : Type 0} → Result A → Type 0
Answers = Outcome Anything IsClientError

answered : (reply : Reply) (h : Host) (w : World) → Answers (answer reply h w).0
unfolding answer
answered (response r) h w = tt
answered (transport_error e) h w = tt

Ends-http : (r : Request) → Ends Anything IsClientError (http r)
unfolding http
Ends-http r = record { at = λ h w. answered (h.server w.sent r) h _ }

pub Ends-exchange : (r : Request) → Ends Anything IsClientError (exchange r)
unfolding exchange
Ends-exchange r = Ends-bind (Ends-http r) (λ a p. Ends-pure _ tt)

raise_for_status-ends : (r : Response) (payload : Dict) → Answers (raise_for_status r payload)
unfolding raise_for_status
raise_for_status-ends r payload = ground arith

receipt_items-ends : (v : Value) → Answers (receipt_items v)
unfolding receipt_items
receipt_items-ends v = ground arith

read_hint-ends : (h : Host) (header : Option String) → Answers (read_hint h header)
unfolding read_hint
read_hint-ends h header = ground arith

body-ends : (raw : Bool) (c : ContractCall) → Answers (body raw c)
unfolding body
body-ends raw c = ground arith

pub Ends-execution_status : (id : String) → Ends Anything IsClientError (execution_status id)
unfolding execution_status
Ends-execution_status id = Ends-bind (Ends-exchange _) λ a p.
    Ends-bind (Ends-lift _ (raise_for_status-ends _ _)) λ _ _.
      Ends-bind {P = Anything} (Ends-asks _ (λ h. tt)) λ host _.
        Ends-bind (Ends-lift _ (read_hint-ends host _))
          λ hint _. Ends-bind (Ends-lift _ (receipt_items-ends _)) λ items _. Ends-pure _ tt

module _ (c : ContractCall) (simulate : Bool) (key : Option String) where
  -- The second round is made where the flag is known to be False and the call has a typed spelling.
  abbrev Falls : Action (Response × Dict × Bool) → Type 0
  Falls again =
      (h : Host) (w : World)
      → w.capabilities.raw_calldata ≡ some false
      → raw_only c ≡ false
      → Answers (again h w).0

  fall_back-ends :
      (again : Action (Response × Dict × Bool)) (r : Response) (payload : Dict) (h : Host)
      (w : World)
      → Falls again
      → Answers (fall_back c again r payload h w).0
  unfolding fall_back set_raw_calldata modify raise ◌>>=◌
  fall_back-ends again r payload h w f = elim (Bool-cases (raw_only c)) [
    | inl e ↦ rw e tt
    | inr e ↦ rw e (f h _ refl e)
  ]

  accept-ends :
      (r : Response) (payload : Dict) (raw : Bool) (h : Host) (w : World)
      → Answers (accept r payload raw h w).0
  unfolding accept set_raw_calldata modify pure ◌>>=◌
  accept-ends r payload raw h w = elim (Bool-cases (r.status_code == 200 || r.status_code == 202)) [
    | inl e ↦ rw e tt
    | inr e ↦ rw e tt
  ]

  learn-ends :
      (again : Action (Response × Dict × Bool)) (r : Response) (payload : Dict) (raw : Bool)
      (h : Host) (w : World)
      → Falls again
      → Answers (learn c again r payload raw h w).0
  unfolding learn learned gets asks pure ◌>>=◌
  learn-ends again r payload raw h w f =
      ground (arith, fall_back-ends again r payload h w f, accept-ends r payload raw h w)

  -- With the flag known to be False the typed spelling is sent, and its answer is returned.
  learn_typed-ends :
      (again : Action (Response × Dict × Bool)) (r : Response) (payload : Dict) (h : Host)
      (w : World)
      → Answers (learn c again r payload false h w).0
  unfolding learn learned gets asks pure ◌>>=◌
  learn_typed-ends again r payload h w = tt

  abbrev after :
      Action (Response × Dict × Bool) → Bool → Response × Dict → Action (Response × Dict × Bool)
  after again raw a = learn c again a.0 a.1 raw

  exchanged :
      (raw : Bool) (again : Action (Response × Dict × Bool)) (request : Request) (h : Host)
      (w : World)
      → ((r : Response) (payload : Dict) (w' : World)
          → Answers (learn c again r payload raw h w').0)
      → Answers ((exchange request >>= after again raw) h w).0
  unfolding ◌>>=◌
  exchanged raw again request h w l = next (exchange request h w).0 ((Ends-exchange request).at h w)
    where
      next :
          (r : Result (Response × Dict))
          → Answers r
          → Answers (continue r (after again raw) h (exchange request h w).1).0
      next (ok a) p = l a.0 a.1 _
      next (err e) p = p

  step-ends :
      (again : Action (Response × Dict × Bool)) (h : Host) (w : World)
      → (use_raw c w.capabilities ≡ true → Falls again)
      → Answers (post_call_step c simulate key again h w).0
  unfolding post_call_step gets ◌>>=◌ lift
  step-ends again h w f = go (use_raw c w.capabilities) f
    where
      typed :
          (raw : Bool)
          → (raw ≡ true → Falls again)
          → (r : Response) (payload : Dict) (w' : World)
          → Answers (learn c again r payload raw h w').0
      typed true f r payload w' = learn-ends again r payload true h w' (f refl)
      typed false f r payload w' = learn_typed-ends again r payload h w'

      go :
          (raw : Bool)
          → (raw ≡ true → Falls again)
          → Answers
              ((lift (body raw c) >>= λ fields.
                  exchange (
                    post_request contract_call_path key
                      (if simulate then put "simulate" (flag true) fields else fields))
                  >>= λ a. learn c again a.0 a.1 raw)
                h w).0
      go raw f = fielded (body raw c) (body-ends raw c)
        where
          fielded :
              (fields : Result Dict)
              → Answers fields
              → Answers
                  ((lift fields >>= λ fields.
                      exchange (
                        post_request contract_call_path key
                          (if simulate then put "simulate" (flag true) fields else fields))
                      >>= λ a. learn c again a.0 a.1 raw)
                    h w).0
          fielded (ok d) p = exchanged raw again _ h w (typed raw f)
          fielded (err e) p = p

  second_round :
      (h : Host) (w : World)
      → w.capabilities.raw_calldata ≡ some false
      → raw_only c ≡ false
      → use_raw c w.capabilities ≡ true
      → ⊥
  unfolding use_raw
  second_round h w known typed raw = ground arith

-- `_post_call` ends within two rounds: with a value, or an exception of the API, of httpx or of
-- `body`.
pub post_call-Ends :
    (c : ContractCall) (simulate : Bool) (key : Option String)
    → Ends Anything IsClientError (post_call c simulate key)
unfolding post_call post_call_from
post_call-Ends c simulate key = record {
  at = λ h w. step-ends c simulate key _ h w λ _ h' w' known typed.
      step-ends c simulate key _ h' w'
        λ raw. absurd (second_round c simulate key h' w' known typed raw);
}

pub Ends-execute_contract_call :
    (c : ContractCall) (key : String) → Ends Anything IsClientError (execute_contract_call c key)
unfolding execute_contract_call
Ends-execute_contract_call c key = Ends-bind (post_call-Ends c false (some key)) λ a _.
    Ends-bind (Ends-lift _ (raise_for_status-ends _ _))
      λ _ _. Ends-read_envelope a.0 a.1 (as_str (get "executionId" a.1))
  where
    Ends-read_envelope :
        (r : Response) (payload : Dict) (id : Option String)
        → Ends Anything IsClientError (read_envelope r payload id)
    Ends-read_envelope r payload none = unfold read_envelope in Ends-raise _ tt
    Ends-read_envelope r payload (some id) =
        unfold read_envelope in
        Ends-bind {P = Anything} (Ends-asks _ (λ h. tt)) (λ repr _. Ends-pure _ tt)
