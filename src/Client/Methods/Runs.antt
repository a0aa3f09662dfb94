-- ===== src/Client/Methods/Runs.antt =====
-- client.py: dry runs of a call and of a sequence, guarded executions and broadcasts.
use almanak_keeperhub.Prelude.{
  String, Bool, true, false, not, ◌&&◌, ◌||◌, Option, none, some, List, [], ◌∷◌, map, leb, ◌==◌,
  if◌then◌else◌, any, get_or,
}
use almanak_keeperhub.Prelude.Int.{pos}
use almanak_keeperhub.Python.Text.{is_text}
use almanak_keeperhub.Python.Json.{
  Value, Dict, bool, num, str, arr, obj, empty, entry, truthy, get, get_default, put, update,
  remove, as_str, as_dict, is_true, is_list, is_null, dicts, items_of, text_of,
}
use almanak_keeperhub.Errors.{Result, ok, err}
use almanak_keeperhub.Effects.{
  Response, ExecutionEnvelope, Action, pure, lift, gets, asks, ◌>>=◌, ◌>>◌,
}
use almanak_keeperhub.Client.Calls.{ContractCall, raw_only, body}
use almanak_keeperhub.Client.Answers.{
  SimulationOutcome, SequenceOutcome, GuardedOutcome, message, rejects_unknown_shape,
  raise_for_status, simulation_outcome,
}
use almanak_keeperhub.Client.Methods.Posts.{
  exchange, post_request, contract_call_path, raise_plain, raise_unavailable, requires,
  set_call_sequence, not_false, post_call,
}

unfoldable pub simulate_contract_call : ContractCall → Action SimulationOutcome
simulate_contract_call c = do
  (r, payload, raw) ← post_call c true none
  let outcome = simulation_outcome payload (r.status_code == 200)
  if r.status_code == 503
      then raise_unavailable r payload
      else if r.status_code == 200 || r.status_code == 400
      then pure outcome
      else lift (raise_for_status r payload) >> pure outcome

-- The entries of a sequence: each call's typed body without its chain.
sequence_entries : List ContractCall → Result (List Dict)
sequence_entries [] = ok []
sequence_entries (c ∷ cs) =
    let rest = sequence_entries cs in
    elim (body false c) [
      | ok d ↦ elim rest [ ok ds ↦ ok (remove "chainId" d ∷ ds) | err e ↦ err e ]
      | err e ↦ err e
    ]

unfoldable pub sequence_outcome : Response → Dict → SequenceOutcome
sequence_outcome r payload = record {
  success = truthy (get "success" payload) && r.status_code == 200;
  results =
      map (λ d. simulation_outcome d (truthy (get "success" d)))
        (elim (get "results" payload) [ arr vs ↦ dicts vs | _ ↦ [] ]);
  mechanism = get "mechanism" payload;
  atomic = truthy (get "atomic" payload);
  raw = payload;
}

-- The branches of `simulate_call_sequence` on the answer.
unfoldable pub read_sequence : Response → Dict → Action (Option SequenceOutcome)
read_sequence r payload = do
  repr ← asks (λ h. h.repr)
  let listed = is_list (get "results" payload)
  if rejects_unknown_shape requires (text_of repr) r.status_code payload "contractAddress"
      then (set_call_sequence false >> pure none)
      else if r.status_code == 503 && not listed
      then raise_unavailable r payload
      else (lift (
            if r.status_code == 200 || (r.status_code == 400 || r.status_code == 503)
            then ok tt
            else raise_for_status r payload)
          >> (if listed
              then (set_call_sequence true >> pure (some (sequence_outcome r payload)))
              else raise_plain (message payload "sequence dry run returned no results") r payload))

unfoldable pub simulate_call_sequence : List ContractCall → Action (Option SequenceOutcome)
unfolding sequence_entries
simulate_call_sequence [] = pure none
simulate_call_sequence (c ∷ cs) = do
  supported ← gets (λ w. not_false w.capabilities.call_sequence)
  if not supported || any raw_only (c ∷ cs) then pure none else do
    entries ← lift (sequence_entries (c ∷ cs))
    (r, payload) ← exchange (
        post_request contract_call_path none (
          entry "chainId" (num (pos c.chain_id))
            (entry "simulate" (bool true) (entry "calls" (arr (items_of entries)) empty))))
    read_sequence r payload

unfoldable pub guarded_outcome : (Value → String) → Dict → GuardedOutcome
guarded_outcome show_value payload =
    let condition = get_or (as_dict (get "conditionResult" payload)) empty in
    record {
      executed = truthy (get "executed" payload);
      condition = record {
        met = truthy (get "met" condition);
        observed_value = printed (get "observedValue" condition);
        target_value = printed (get "targetValue" condition);
        operator = get "operator" condition;
      };
      execution_id = as_str (get "executionId" payload);
      status = get "status" payload;
      transaction_hash = as_str (get "transactionHash" payload);
      idempotent_replay = is_true (get "idempotentReplay" payload);
      raw = payload;
    }
  where
    printed : Value → Option String
    printed v = if is_null v then none else some (show_value v)

abbrev pub check_and_execute_path : String
check_and_execute_path = "/api/execute/check-and-execute"

-- A header is sent only for a key that is not empty.
abbrev pub present : Option String → Option String
present none = none
present (some key) = if is_text key then some key else none

unfoldable pub check_and_execute :
    ContractCall → String → String → ContractCall → Option String → Bool → Action GuardedOutcome
check_and_execute check operator value action idempotency_key simulate = do
  check_body ← lift (body false check)
  action_body ← lift (body false action)
  let fields = update check_body (
      entry "condition" (obj (entry "operator" (str operator) (entry "value" (str value) empty)))
        (entry "action" (obj (remove "chainId" action_body)) empty))
  (r, payload) ← exchange (
      post_request check_and_execute_path (present idempotency_key)
        (if simulate then put "simulate" (bool true) fields else fields))
  repr ← asks (λ h. h.repr)
  lift (
        if leb 400 r.status_code
          && not (r.status_code == 400 && truthy (get "conditionResult" payload))
        then raise_for_status r payload
        else ok tt)
      >> pure (guarded_outcome (text_of repr) payload)

unfoldable pub envelope_of : (Value → String) → String → Dict → ExecutionEnvelope
envelope_of show_value execution_id payload = record {
  execution_id = execution_id;
  status = show_value (get_default "status" (str "") payload);
  transaction_hash = as_str (get "transactionHash" payload);
  transaction_link = as_str (get "transactionLink" payload);
  error = as_str (get "error" payload);
  idempotent_replay = is_true (get "idempotentReplay" payload);
  raw = payload;
}

unfoldable pub read_envelope : Response → Dict → Option String → Action ExecutionEnvelope
read_envelope r payload none = raise_plain "broadcast response carried no executionId" r payload
read_envelope r payload (some execution_id) = do
  repr ← asks (λ h. h.repr)
  pure (envelope_of (text_of repr) execution_id payload)

unfoldable pub execute_contract_call : ContractCall → String → Action ExecutionEnvelope
execute_contract_call c idempotency_key = do
  (r, payload, raw) ← post_call c false (some idempotency_key)
  lift (raise_for_status r payload)
  read_envelope r payload (as_str (get "executionId" payload))
