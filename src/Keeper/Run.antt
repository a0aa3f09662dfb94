-- ===== src/Keeper/Run.antt =====
-- keeper.py: `run_now`, which triggers a workflow and follows it to its end. Times are in ticks.
use almanak_keeperhub.Prelude.{
  ℕ, zero, suc, ◌+◌, ◌*◌, Bool, String, Option, none, some, List, [], ◌∷◌, ltb, leb, if◌then◌else◌,
  any, str_eq,
}
use almanak_keeperhub.Prelude.Int.{ℤ, pos, pos_part}
use almanak_keeperhub.Python.Text.{is_text, take, join}
use almanak_keeperhub.Python.Json.{Value, Dict, str, arr, obj, nil, empty, entry, get, text_of}
use almanak_keeperhub.Python.Dumps.{dumps}
use almanak_keeperhub.Errors.{Result, ok, err, value_error, attribute_error, out_of_fuel}
use almanak_keeperhub.Effects.{
  Host, Action, second, pure, raise, lift, gets, asks, sleep, http, ◌>>=◌, ◌>>◌,
}
use almanak_keeperhub.Client.Answers.{or_value, receipt_items}
use almanak_keeperhub.Client.Methods.{get_request, post_request}
use almanak_keeperhub.Keeper.Remote.{content, failed, workflow_path}

-- What `run_now` returns.
pub record RunResult : Type 0 where
  pub execution_id : String
  pub status : Value
  pub error : Value
  pub transaction_hashes : Value
  pub trace : Value
  pub node_statuses : List Dict
  pub progress : Value
  pub started_at : Value
  pub completed_at : Value

abbrev pub terminal_statuses : List String
terminal_statuses = "success" ∷ "completed" ∷ "error" ∷ "failed" ∷ "system_error" ∷ "cancelled" ∷ []

-- `str(status) in (...)`
unfoldable pub is_terminal : (Value → String) → Value → Bool
is_terminal show_value status = any (str_eq (show_value status)) terminal_statuses

-- `float(hint) if hint and float(hint) > 0 else 5.0`
unfoldable pub interval : Host → Option String → Result ℤ
interval h none = ok (pos (5 * second))
interval h (some hint) =
    if is_text hint
    then elim (h.float_of hint) [
      | none ↦ err (value_error (join ("could not convert string to float: " ∷ hint ∷ [])))
      | some d ↦ ok (if ltb 0 (pos_part d) then d else pos (5 * second))
    ]
    else ok (pos (5 * second))

-- What has `get`.
unfoldable pub dict_of : Value → Result Dict
dict_of (obj d) = ok d
dict_of v = err (attribute_error "object has no attribute 'get'")

-- What `run_now` makes of the last status.
unfoldable pub finish : String → Dict → Action RunResult
finish execution_id status = do
  nodes ← lift (receipt_items (get "nodeStatuses" status))
  context ← lift (dict_of (or_value (get "errorContext" status) (obj empty)))
  pure (record {
    execution_id = execution_id;
    status = get "status" status;
    error = or_value (get "error" context) (get "error" status);
    transaction_hashes = or_value (get "transactionHashes" status) (arr nil);
    trace =
        or_value (get "executionTrace" context) (or_value (get "executionTrace" status) (arr nil));
    node_statuses = nodes;
    progress = or_value (get "progress" status) (obj empty);
    started_at = get "startedAt" status;
    completed_at = get "completedAt" status;
  })

unfoldable pub run_status_path : String → String
run_status_path execution_id = join ("/api/workflows/executions/" ∷ execution_id ∷ "/status" ∷ [])

-- What follows a status: the end of the loop, or a pause and the next round.
unfoldable pub after_status : (Dict → Action Dict) → Host → Option String → Dict → Action Dict
after_status again host hint status =
    if is_terminal (text_of host.repr) (get "status" status)
    then pure status
    else do d ← lift (interval host hint); sleep d >> again status

-- One poll, and what follows it.
unfoldable pub poll_status : (Dict → Action Dict) → String → Action Dict
poll_status again execution_id = do
  r ← http (get_request (run_status_path execution_id))
  payload ← if leb 400 r.status_code then failed "status" r (take 300 r.text) else lift (content r)
  status ← lift (dict_of payload)
  host ← asks (λ h. h)
  after_status again host r.poll_interval_hint status

-- The loop, from its test; `status` is what the round before learnt.
unfoldable pub follow_run : ℕ → String → ℕ → Dict → Action Dict
follow_run zero execution_id deadline status = raise out_of_fuel
follow_run (suc fuel) execution_id deadline status = do
  now ← gets (λ w. w.clock)
  if ltb now deadline
      then poll_status (λ s h w. follow_run fuel execution_id deadline s h w) execution_id
      else pure status

unfoldable pub execute_path : String → String
execute_path workflow_id = join (workflow_path workflow_id ∷ "/execute" ∷ [])

-- The first request: the answer's dict.
unfoldable pub trigger_run : String → Dict → Action Dict
trigger_run workflow_id input = do
  r ← http (post_request (execute_path workflow_id) none (entry "input" (obj input) empty))
  payload ← lift (content r)
  if leb 400 r.status_code
      then failed "execute" r (take 400 (dumps payload))
      else lift (dict_of payload)

-- The loop of a run that was triggered at `start`, and the result. Each round takes a tick at
-- least, so `timeout + 1` rounds are enough.
unfoldable pub follow_from : ℕ → String → Dict → ℕ → Action RunResult
follow_from timeout execution_id payload start = do
  status ← follow_run (timeout + 1) execution_id (start + timeout) payload
  finish execution_id status

unfoldable pub run_now : String → ℕ → Dict → Action RunResult
run_now workflow_id timeout input = do
  payload ← trigger_run workflow_id input
  repr ← asks (λ h. h.repr)
  start ← gets (λ w. w.clock)
  follow_from timeout (text_of repr (or_value (get "executionId" payload) (str ""))) payload start
