-- ===== src/Submitter/Total.antt =====
-- How a broadcast and a bundle end. On a server whose answers take time, every loop ends; and no
-- rate limit, 5xx answer or transport error decides the outcome.
use almanak_keeperhub.Prelude.{
  ℕ, zero, suc, ◌+◌, ◌≤◌, ◌<◌, String, ◌≡◌, refl, inl, inr, Option, none, some, List, arith, ltb,
  Bool-cases,
}
use almanak_keeperhub.Prelude.Int.{ℤ}
use almanak_keeperhub.Python.Text.{is_text}
use almanak_keeperhub.Errors.{
  ApiKind, ApiError, Error, Result, ok, err, api, transport, timeout, value_error, type_error,
  key_error, submission,
}
use almanak_keeperhub.Effects.{
  Request, Host, Action, ExecutionStatus, ExecutionEnvelope, Execution, settled, pure, raise,
  attempt, sleep, modify, ◌>>=◌,
}
use almanak_keeperhub.Effects.Frame.{
  Outcome, Anything, Ends, Ends-pure, Ends-raise, EndsOn, EndsOn-of_Ends, EndsOn-pure, EndsOn-raise,
  EndsOn-if, EndsOn-attempt, EndsOn-eta, EndsOn-bind,
}
use almanak_keeperhub.Client.Calls.{ContractCall}
use almanak_keeperhub.Client.Ends.{IsClientError, Ends-execute_contract_call}
use almanak_keeperhub.Client.Polling.{wait_for_terminal}
use almanak_keeperhub.Client.Deadline.{IsFinal, Concludes, wait_for_terminal-Concludes}
use almanak_keeperhub.Submitter.Types.{Settings, remember}
use almanak_keeperhub.Submitter.Broadcast.{
  Decision, retry, refuse, sent, decision, api_decision, retry_or_give_up, given_up, no_hash,
  resolved, remember_hash, resolve_hash, act, broadcast_from, broadcast,
}

-- The exceptions that leave the submitter: a SubmissionError, an API error that is no rate limit,
-- no 503 and below 500, or what an unreadable answer or receipts file raises.
abbrev pub IsDecided : Error → Type 0
IsDecided (submission e) = Unit
IsDecided (api e) = IsFinal e.kind × (e.status < 500)
IsDecided (value_error e) = Unit
IsDecided (type_error e) = Unit
IsDecided (key_error e) = Unit
IsDecided e = ⊥

-- Every request takes a tick of the clock at least.
abbrev pub TakesTime : Host → Type 0
TakesTime h = (l : List Request) → 1 ≤ h.latency l

-- How a wait ends, apart from the time.
abbrev pub WaitEnds : Result ExecutionStatus → Type 0
WaitEnds (err (timeout e)) = Unit
WaitEnds r = Outcome Anything IsDecided r

WaitEnds-of_Concludes :
    (deadline now : ℕ) (r : Result ExecutionStatus) → Concludes deadline r now → WaitEnds r
WaitEnds-of_Concludes deadline now (ok s) p = tt
WaitEnds-of_Concludes deadline now (err (timeout e)) p = tt
WaitEnds-of_Concludes deadline now (err (api e)) p = p
WaitEnds-of_Concludes deadline now (err (value_error e)) p = tt
WaitEnds-of_Concludes deadline now (err (type_error e)) p = tt
WaitEnds-of_Concludes deadline now (err e) p = absurd p

pub attempt-wait :
    (h : Host) (id : String) (limit : ℕ) (d : ℤ)
    → TakesTime h
    → EndsOn h WaitEnds IsDecided (attempt (wait_for_terminal id limit d))
unfolding attempt
attempt-wait h id limit d t = record {
  at = λ w. WaitEnds-of_Concludes _ _ _ (wait_for_terminal-Concludes h id limit d w t);
}

pub Ends-remember : (k : String) (e : Execution) → Ends Anything IsDecided (remember k e)
unfolding remember modify
Ends-remember k e = record { at = λ h w. tt }

Ends-remember_hash :
    (s : ExecutionStatus) (hash : Option String) → Ends Anything IsDecided (remember_hash s hash)
unfolding remember_hash
Ends-remember_hash s none = Ends-pure _ tt
Ends-remember_hash s (some hash) = elim (Bool-cases (is_text hash)) [
  | inl e ↦ rw e (Ends-remember hash (settled s))
  | inr e ↦ rw e (Ends-pure _ tt)
]

resolved-Ends :
    (s : Settings) (envelope : ExecutionEnvelope) (r : Result ExecutionStatus)
    → WaitEnds r
    → Ends Anything IsDecided (resolved s envelope r)
unfolding resolved no_hash
resolved-Ends s envelope (ok status) p = Ends-pure _ tt
resolved-Ends s envelope (err (timeout e)) p = Ends-raise _ tt
resolved-Ends s envelope (err (api e)) p = Ends-raise _ p
resolved-Ends s envelope (err (value_error e)) p = Ends-raise _ tt
resolved-Ends s envelope (err (type_error e)) p = Ends-raise _ tt
resolved-Ends s envelope (err (key_error e)) p = Ends-raise _ tt
resolved-Ends s envelope (err (submission e)) p = Ends-raise _ tt
resolved-Ends s envelope (err e) p = absurd p

module _ (h : Host) (takes_time : TakesTime h) (s : Settings) where
  abbrev Decides : {A : Type 0} → Action A → Type 0
  Decides = EndsOn h Anything IsDecided

  resolve_hash-ends : (envelope : ExecutionEnvelope) → Decides (resolve_hash s envelope)
  unfolding resolve_hash
  resolve_hash-ends envelope = EndsOn-if _ (EndsOn-pure _ tt) (
      EndsOn-bind (attempt-wait h _ _ _ takes_time) λ r p.
        EndsOn-bind (EndsOn-of_Ends (resolved-Ends s envelope r p)) λ status _.
          EndsOn-bind (EndsOn-of_Ends (Ends-remember_hash status _)) λ _ _. EndsOn-pure _ tt)

  -- A decision raises only what is decided.
  abbrev IsSound : Decision → Type 0
  IsSound (refuse e) = IsDecided e
  IsSound d = Unit

  api_decision-IsSound :
      (attempts : ℕ) (kind : ApiKind) (e : ApiError) → IsSound (api_decision attempts kind e)
  unfolding api_decision
  api_decision-IsSound attempts kind e = ground arith

  decision-IsSound :
      (attempts : ℕ) (r : Result ExecutionEnvelope)
      → Outcome Anything IsClientError r
      → IsSound (decision attempts r)
  unfolding decision
  decision-IsSound attempts (ok envelope) p = tt
  decision-IsSound attempts (err (api e)) p = api_decision-IsSound attempts e.kind e
  decision-IsSound attempts (err (transport e)) p = tt
  decision-IsSound attempts (err (value_error e)) p = tt
  decision-IsSound attempts (err (type_error e)) p = tt
  decision-IsSound attempts (err e) p = absurd p

  -- A retry that is made is one of the first `max_retries`.
  retry_or_give_up-ends :
      (attempts : ℕ) (delay : ℤ) (reason : String)
      → EndsOn h
          (λ n. (n ≡ attempts + 1) × (n ≤ s.max_retries))
          IsDecided
          (retry_or_give_up s attempts delay reason)
  unfolding retry_or_give_up given_up raise sleep pure ◌>>=◌
  retry_or_give_up-ends attempts delay reason =
      elim (Bool-cases (ltb s.max_retries (attempts + 1))) [
        | inl over ↦ rw over (record { at = λ w. tt })
        | inr under ↦ rw under (record { at = λ w. (refl, ground arith) })
      ]

  act-ends :
      (attempts : ℕ) (again : ℕ → Action ExecutionEnvelope) (d : Decision)
      → IsSound d
      → ((n : ℕ) → n ≡ attempts + 1 → n ≤ s.max_retries → Decides (again n))
      → Decides (act s attempts again d)
  unfolding act
  act-ends attempts again (retry delay reason) sound next =
      EndsOn-bind (retry_or_give_up-ends attempts delay reason) (λ n p. next n p.0 p.1)
  act-ends attempts again (refuse e) sound next = EndsOn-raise e sound
  act-ends attempts again (sent envelope) sound next = resolve_hash-ends envelope

  broadcast_from-ends :
      (fuel : ℕ) (call : ContractCall) (key : String) (attempts : ℕ)
      → attempts ≤ s.max_retries
      → s.max_retries < attempts + fuel
      → Decides (broadcast_from fuel s call key attempts)
  unfolding broadcast_from
  broadcast_from-ends zero call key attempts low enough = absurd (omega arith)
  broadcast_from-ends (suc fuel) call key attempts low enough =
      EndsOn-bind (EndsOn-attempt (EndsOn-of_Ends (Ends-execute_contract_call call key))) λ r p.
        act-ends attempts _ (decision attempts r) (decision-IsSound attempts r p)
          λ n next within. EndsOn-eta (broadcast_from-ends fuel call key n within (omega arith))

  pub broadcast-ends : (call : ContractCall) (key : String) → Decides (broadcast s call key)
  unfolding broadcast
  broadcast-ends call key =
      broadcast_from-ends (suc s.max_retries) call key 0 (omega arith) (omega arith)
