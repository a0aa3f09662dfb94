-- ===== src/Client/Polling.antt =====
-- client.py: `wait_for_terminal`. Times are in ticks.
use almanak_keeperhub.Prelude.{
  ℕ, zero, suc, ◌+◌, ◌/◌, String, Option, none, some, [], ◌∷◌, ltb, leb, if◌then◌else◌,
}
use almanak_keeperhub.Prelude.Int.{ℤ, pos, eqb_ℤ, scale}
use almanak_keeperhub.Python.Text.{is_text, show, join}
use almanak_keeperhub.Errors.{
  ApiKind, ApiError, Error, Result, rate_limited, unavailable, api, transport, timeout, out_of_fuel,
  ok, err,
}
use almanak_keeperhub.Effects.{
  ExecutionStatus, Action, second, pure, raise, gets, attempt, sleep, ◌>>=◌, ◌>>◌,
}
use almanak_keeperhub.Client.Answers.{terminal}
use almanak_keeperhub.Client.Methods.{execution_status}

-- What one poll decides: stop with a status, raise, or wait so long, with the problem met.
pub data Verdict : Type 0 where
  finished : ExecutionStatus → Verdict
  give_up : Error → Verdict
  wait : ℤ → Option String → Verdict

-- `raise` of a plain API error below 500, and a retry of all other API errors.
unfoldable pub api_verdict : ℤ → ApiKind → ApiError → Verdict
api_verdict default_interval (rate_limited retry_after) e =
    wait (scale second retry_after) (some e.message)
api_verdict default_interval unavailable e = wait default_interval (some e.message)
api_verdict default_interval kind e =
    if ltb e.status 500 then give_up (api e) else wait default_interval (some e.message)

next_interval : ℤ → Option ℤ → ℤ
next_interval default_interval none = default_interval
next_interval default_interval (some hint) = if eqb_ℤ hint (pos 0) then default_interval else hint

-- The handlers of the `try` in the loop.
unfoldable pub verdict : ℤ → Result ExecutionStatus → Verdict
unfolding api_verdict next_interval
verdict default_interval (ok status) =
    if terminal status
    then finished status
    else wait (next_interval default_interval status.poll_hint_seconds) none
verdict default_interval (err (api e)) = api_verdict default_interval e.kind e
verdict default_interval (err (transport problem)) = wait default_interval (some problem)
verdict default_interval (err e) = give_up e

-- `{t:.0f}` of a whole number of seconds.
abbrev pub show_seconds : ℕ → String
show_seconds t = show (t / second)

problem_text : Option String → String
problem_text none = ""
problem_text (some problem) =
    if is_text problem then join (" (last poll problem: " ∷ problem ∷ ")" ∷ []) else ""

unfoldable pub not_terminal : String → ℕ → Option String → Error
unfolding problem_text
not_terminal execution_id timeout_seconds last_problem = timeout (
    join (
      "KeeperHub execution "
      ∷ execution_id
      ∷ " not terminal after "
      ∷ show_seconds timeout_seconds
      ∷ "s"
      ∷ problem_text last_problem
      ∷ "; do not resend, keep the same idempotency key and poll again"
      ∷ []))

-- What follows a verdict; `again` is the next round.
unfoldable pub follow : String → ℕ → ℕ → Action ExecutionStatus → Verdict → Action ExecutionStatus
follow execution_id timeout_seconds deadline again (finished status) = pure status
follow execution_id timeout_seconds deadline again (give_up e) = raise e
follow execution_id timeout_seconds deadline again (wait interval last_problem) = do
  now ← gets (λ w. w.clock)
  if leb deadline now
      then raise (not_terminal execution_id timeout_seconds last_problem)
      else (sleep interval >> again)

unfoldable pub poll : ℕ → String → ℕ → ℕ → ℤ → Action ExecutionStatus
poll zero execution_id timeout_seconds deadline default_interval = raise out_of_fuel
poll (suc fuel) execution_id timeout_seconds deadline default_interval = do
  outcome ← attempt (execution_status execution_id)
  follow execution_id timeout_seconds deadline
      (λ h w. poll fuel execution_id timeout_seconds deadline default_interval h w)
      (verdict default_interval outcome)

-- A round takes a tick at least, so there are at most `timeout_seconds + 2` rounds.
unfoldable pub wait_for_terminal : String → ℕ → ℤ → Action ExecutionStatus
wait_for_terminal execution_id timeout_seconds default_interval = do
  start ← gets (λ w. w.clock)
  poll (timeout_seconds + 2) execution_id timeout_seconds (start + timeout_seconds) default_interval

-- The default of the parameter `default_interval`.
abbrev pub poll_interval : ℤ
poll_interval = pos 3_000_000
