-- ===== src/Submitter/Broadcast.antt =====
-- submitter.py: `_broadcast`, `_retry_or_give_up` and `_resolve_hash`.
use almanak_keeperhub.Prelude.{
  ℕ, zero, suc, ◌+◌, ◌*◌, String, true, false, ◌||◌, Option, none, some, [], ◌∷◌, if◌then◌else◌,
  ltb, leb, str_eq, is_some, get_or,
}
use almanak_keeperhub.Prelude.Int.{ℤ, scale}
use almanak_keeperhub.Python.Text.{show, join, is_text}
use almanak_keeperhub.Errors.{
  ApiKind, ApiError, Error, Result, plain, auth, conflict, in_progress, unavailable, rate_limited,
  ok, err, api, transport, timeout, out_of_fuel, original_execution_id,
}
use almanak_keeperhub.Effects.{
  ExecutionStatus, ExecutionEnvelope, settled, Action, second, seconds, pure, raise, attempt, sleep,
  ◌>>=◌, ◌>>◌,
}
use almanak_keeperhub.Client.Calls.{ContractCall}
use almanak_keeperhub.Client.Methods.{execute_contract_call}
use almanak_keeperhub.Client.Polling.{wait_for_terminal, poll_interval, show_seconds}
use almanak_keeperhub.Submitter.Types.{Settings, refusal, remember}

-- What one attempt decides: a delay before the same request, an exception, or an envelope.
pub data Decision : Type 0 where
  retry : ℤ → String → Decision
  refuse : Error → Decision
  sent : ExecutionEnvelope → Decision

cannot_broadcast : ApiError → Error
cannot_broadcast e =
    refusal (join ("KeeperHub credential cannot broadcast: " ∷ e.message ∷ [])) none (some false)

key_reused : ApiError → Error
key_reused e =
    refusal
      (join (
        "idempotency key reused with a different body (original execution "
        ∷ get_or (original_execution_id e) "None"
        ∷ "); refusing to broadcast"
        ∷ []))
      none (some false)

refused_broadcast : ApiError → Error
refused_broadcast e =
    refusal
      (join ("KeeperHub refused the broadcast (HTTP " ∷ show e.status ∷ "): " ∷ e.message ∷ []))
      none (some false)

-- `3.0 * (attempts + 1)`
abbrev back_off : ℕ → ℤ
back_off attempts = seconds (3 * (attempts + 1))

unfoldable pub api_decision : ℕ → ApiKind → ApiError → Decision
unfolding cannot_broadcast key_reused refused_broadcast
api_decision attempts in_progress e = retry (seconds 2) "first attempt still in progress"
api_decision attempts (rate_limited retry_after) e = retry (scale second retry_after) e.message
api_decision attempts unavailable e = retry (back_off attempts) e.message
api_decision attempts conflict e = refuse (key_reused e)
api_decision attempts auth e = refuse (cannot_broadcast e)
api_decision attempts plain e =
    if leb 500 e.status then retry (back_off attempts) e.message else refuse (refused_broadcast e)

-- The handlers of the `try` in `_broadcast`.
unfoldable pub decision : ℕ → Result ExecutionEnvelope → Decision
unfolding api_decision
decision attempts (ok envelope) = sent envelope
decision attempts (err (api e)) = api_decision attempts e.kind e
decision attempts (err (transport problem)) = retry (back_off attempts) problem
decision attempts (err e) = refuse e

unfoldable pub given_up : ℕ → String → Error
given_up attempts reason =
    refusal
      (join (
        "KeeperHub broadcast not confirmed after "
        ∷ show attempts
        ∷ " retries ("
        ∷ reason
        ∷ "); the idempotency key was never rotated, retry the same tick later"
        ∷ []))
      none (some true)

-- `_retry_or_give_up`
unfoldable pub retry_or_give_up : Settings → ℕ → ℤ → String → Action ℕ
retry_or_give_up s attempts delay reason =
    if ltb s.max_retries (attempts + 1)
    then raise (given_up attempts reason)
    else sleep delay >> pure (attempts + 1)

unfoldable pub no_hash : Settings → ExecutionEnvelope → Error
no_hash s envelope =
    refusal
      (join (
        "KeeperHub execution "
        ∷ envelope.execution_id
        ∷ " is '"
        ∷ envelope.status
        ∷ "' without a hash after "
        ∷ show_seconds s.confirmation_timeout
        ∷ "s; do not resend, keep the same idempotency key and poll again"
        ∷ []))
      none (some true)

-- The handler `except TimeoutError` of `_resolve_hash`.
unfoldable pub resolved :
    Settings → ExecutionEnvelope → Result ExecutionStatus → Action ExecutionStatus
resolved s envelope (ok status) = pure status
resolved s envelope (err (timeout e)) = raise (no_hash s envelope)
resolved s envelope (err e) = raise e

unfoldable pub remember_hash : ExecutionStatus → Option String → Action Unit
remember_hash status none = pure tt
remember_hash status (some hash) = if is_text hash then remember hash (settled status) else pure tt

unfoldable pub from_status : ExecutionEnvelope → ExecutionStatus → ExecutionEnvelope
from_status envelope status = record {
  execution_id = status.execution_id;
  status = status.status;
  transaction_hash = status.transaction_hash;
  transaction_link = status.transaction_link;
  error = status.error;
  idempotent_replay = envelope.idempotent_replay;
  raw = status.raw;
}

-- `_resolve_hash`
unfoldable pub resolve_hash : Settings → ExecutionEnvelope → Action ExecutionEnvelope
unfolding remember_hash
resolve_hash s envelope =
    if is_some envelope.transaction_hash || str_eq envelope.status "failed"
    then pure envelope
    else do
      outcome ←
          attempt (wait_for_terminal envelope.execution_id s.confirmation_timeout poll_interval)
      status ← resolved s envelope outcome
      remember_hash status status.transaction_hash
      pure (from_status envelope status)

-- What follows a decision; `again` is the next round of the loop.
unfoldable pub act :
    Settings → ℕ → (ℕ → Action ExecutionEnvelope) → Decision → Action ExecutionEnvelope
act s attempts again (retry delay reason) = do
  attempts' ← retry_or_give_up s attempts delay reason
  again attempts'
act s attempts again (refuse e) = raise e
act s attempts again (sent envelope) = resolve_hash s envelope

unfoldable pub broadcast_from : ℕ → Settings → ContractCall → String → ℕ → Action ExecutionEnvelope
broadcast_from zero s call key attempts = raise out_of_fuel
broadcast_from (suc fuel) s call key attempts = do
  outcome ← attempt (execute_contract_call call key)
  act s attempts (λ n h w. broadcast_from fuel s call key n h w) (decision attempts outcome)

-- `_broadcast`: the rounds are the first attempt and `max_retries` retries.
unfoldable pub broadcast : Settings → ContractCall → String → Action ExecutionEnvelope
broadcast s call key = broadcast_from (suc s.max_retries) s call key 0
