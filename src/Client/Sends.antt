-- ===== src/Client/Sends.antt =====
-- What each of the client's methods may send: a condition on the requests of its kind.
use almanak_keeperhub.Prelude.{
  ℕ, zero, suc, ◌+◌, String, Bool, true, false, Option, none, some, List, [], ◌∷◌, ◌≡◌, refl,
  if◌then◌else◌, arith,
}
use almanak_keeperhub.Prelude.Int.{ℤ}
use almanak_keeperhub.Python.Json.{Dict, get, as_str, find, put, bool, find-put}
use almanak_keeperhub.Effects.{Request, Response, Action, ExecutionStatus}
use almanak_keeperhub.Effects.Frame.{
  Keeps, keeps_rules, Keeps-if, Keeps-bind, Keeps-pure, Keeps-raise, Keeps-gets, Keeps-lift,
  Keeps-lift-bind, Keeps-eta, Keeps-attempt,
}
use almanak_keeperhub.Client.Calls.{ContractCall, body}
use almanak_keeperhub.Client.Bodies.{Carries, body-Carries}
use almanak_keeperhub.Client.Methods.{
  exchange, get_request, post_request, contract_call_path, post_call_step, post_call_from,
  post_call, simulate_contract_call, read_sequence, simulate_call_sequence, check_and_execute,
  check_and_execute_path, present, read_envelope, execute_contract_call, status_path,
  execution_status,
}
use almanak_keeperhub.Client.Polling.{
  Verdict, finished, give_up, wait, follow, poll, wait_for_terminal,
}
use almanak_keeperhub.Client.Steps.{
  Sends, Keeps-http, Keeps-sleep, Keeps-set_call_sequence, Keeps-learn,
}

-- The body of a dry run says that it is one.
abbrev pub IsMarked : Dict → Type 0
IsMarked d = find "simulate" d ≡ some (bool true)

marked :
    (simulate : Bool) (fields : Dict)
    → simulate ≡ true
    → IsMarked (if simulate then put "simulate" (bool true) fields else fields)
marked true fields p = find-put "simulate" "simulate" (bool true) fields
marked false fields p = cc

carried :
    {c : ContractCall} (simulate : Bool) (fields : Dict)
    → Carries c fields
    → simulate ≡ false
    → Carries c (if simulate then put "simulate" (bool true) fields else fields)
carried true fields k p = absurd (ground arith)
carried false fields k p = k

module _ {P : Request → Type 0} where
  pub Keeps-exchange : (r : Request) → P r → Keeps (Sends P) (exchange r)
  unfolding exchange
  Keeps-exchange r p = Keeps-bind (Keeps-http r p) (λ a. Keeps-pure _)

  -- The polls and calls of a client, by what may be sent.
  pub Keeps-post_call_from :
      (fuel : ℕ) (c : ContractCall) (simulate : Bool) (key : Option String)
      → ((d : Dict)
          → (simulate ≡ true → IsMarked d)
          → (simulate ≡ false → Carries c d)
          → P (post_request contract_call_path key d))
      → Keeps (Sends P) (post_call_from fuel c simulate key)
  unfolding post_call_from post_call_step
  Keeps-post_call_from zero c simulate key p = Keeps-raise _
  Keeps-post_call_from (suc fuel) c simulate key p = Keeps-bind (Keeps-gets _) λ raw.
      Keeps-lift-bind (body _ c) λ fields made.
        Keeps-bind
          (Keeps-exchange _
            (p _ (marked simulate fields) (carried simulate fields (body-Carries _ c fields made))))
          λ a. Keeps-learn c _ a.0 a.1 raw (Keeps-eta (Keeps-post_call_from fuel c simulate key p))

  pub Keeps-post_call :
      (c : ContractCall) (simulate : Bool) (key : Option String)
      → ((d : Dict)
          → (simulate ≡ true → IsMarked d)
          → (simulate ≡ false → Carries c d)
          → P (post_request contract_call_path key d))
      → Keeps (Sends P) (post_call c simulate key)
  unfolding post_call
  Keeps-post_call c simulate key = Keeps-post_call_from 2 c simulate key

  pub Keeps-execute_contract_call :
      (c : ContractCall) (key : String)
      → ((d : Dict) → Carries c d → P (post_request contract_call_path (some key) d))
      → Keeps (Sends P) (execute_contract_call c key)
  unfolding execute_contract_call
  Keeps-execute_contract_call c key p =
      Keeps-bind (Keeps-post_call c false (some key) (λ d _ m. p d (m refl))) λ a.
        Keeps-bind (Keeps-lift _) λ _. Keeps-read_envelope a.0 a.1 (as_str (get "executionId" a.1))
    where
      Keeps-read_envelope :
          (r : Response) (payload : Dict) (id : Option String)
          → Keeps (Sends P) (read_envelope r payload id)
      Keeps-read_envelope r payload none = unfold read_envelope in Keeps-raise _
      Keeps-read_envelope r payload (some id) = unfold read_envelope in search keeps_rules

  pub Keeps-simulate_contract_call :
      (c : ContractCall)
      → ((d : Dict) → IsMarked d → P (post_request contract_call_path none d))
      → Keeps (Sends P) (simulate_contract_call c)
  unfolding simulate_contract_call
  Keeps-simulate_contract_call c p =
      Keeps-bind (Keeps-post_call c true none (λ d m _. p d (m refl))) (λ a. search keeps_rules)

  pub Keeps-simulate_call_sequence :
      (cs : List ContractCall)
      → ((d : Dict) → IsMarked d → P (post_request contract_call_path none d))
      → Keeps (Sends P) (simulate_call_sequence cs)
  unfolding simulate_call_sequence read_sequence find
  Keeps-simulate_call_sequence [] p = Keeps-pure _
  Keeps-simulate_call_sequence (c ∷ cs) p = Keeps-bind (Keeps-gets _) λ supported.
      Keeps-if _ (Keeps-pure _) (
        Keeps-bind (Keeps-lift _) λ entries.
          Keeps-bind (Keeps-exchange _ (p _ refl))
            λ a. search (keeps_rules, Keeps-set_call_sequence) depth 9)

  pub Keeps-check_and_execute :
      (check : ContractCall) (operator value : String) (action : ContractCall) (key : Option String)
      (simulate : Bool)
      → ((d : Dict)
          → (simulate ≡ true → IsMarked d)
          → P (post_request check_and_execute_path (present key) d))
      → Keeps (Sends P) (check_and_execute check operator value action key simulate)
  unfolding check_and_execute
  Keeps-check_and_execute check operator value action key simulate p =
      Keeps-bind (Keeps-lift _) λ check_body. Keeps-bind (Keeps-lift _) λ action_body.
        Keeps-bind (Keeps-exchange _ (p _ (marked simulate _))) λ a. search keeps_rules

  pub Keeps-execution_status :
      (id : String) → P (get_request (status_path id)) → Keeps (Sends P) (execution_status id)
  unfolding execution_status
  Keeps-execution_status id p = Keeps-bind (Keeps-exchange _ p) (λ a. search keeps_rules depth 8)

  Keeps-follow :
      (id : String) (timeout deadline : ℕ) {again : Action ExecutionStatus} (v : Verdict)
      → Keeps (Sends P) again
      → Keeps (Sends P) (follow id timeout deadline again v)
  unfolding follow
  Keeps-follow id timeout deadline (finished s) k = Keeps-pure _
  Keeps-follow id timeout deadline (give_up e) k = Keeps-raise _
  Keeps-follow id timeout deadline (wait d problem) k =
      Keeps-bind (Keeps-gets _)
        λ now. Keeps-if _ (Keeps-raise _) (Keeps-bind (Keeps-sleep d) (λ _. k))

  Keeps-poll :
      (fuel : ℕ) (id : String) (timeout deadline : ℕ) (d : ℤ)
      → P (get_request (status_path id))
      → Keeps (Sends P) (poll fuel id timeout deadline d)
  unfolding poll
  Keeps-poll zero id timeout deadline d p = Keeps-raise _
  Keeps-poll (suc fuel) id timeout deadline d p =
      Keeps-bind (Keeps-attempt (Keeps-execution_status id p)) λ r.
        Keeps-follow id timeout deadline _ (Keeps-eta (Keeps-poll fuel id timeout deadline d p))

  pub Keeps-wait_for_terminal :
      (id : String) (timeout : ℕ) (d : ℤ)
      → P (get_request (status_path id))
      → Keeps (Sends P) (wait_for_terminal id timeout d)
  unfolding wait_for_terminal
  Keeps-wait_for_terminal id timeout d p =
      Keeps-bind (Keeps-gets _) (λ start. Keeps-poll (timeout + 2) id timeout (start + timeout) d p)
