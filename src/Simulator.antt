-- ===== src/Simulator.antt =====
-- simulator.py: a dry run by KeeperHub, of the calls that the signer's `call_for` makes of the
-- transactions.
pub mod DryRun
pub mod Complete
pub mod Backed
pub mod Tests
use almanak_keeperhub.Prelude.{
  ℕ, zero, suc, ◌+◌, ◌*◌, ◌==◌, String, Bool, true, false, not, ◌&&◌, Option, none, some, List, [],
  ◌∷◌, ◌++◌, map, if◌then◌else◌, ltb, length, get_or,
}
use almanak_keeperhub.Prelude.Int.{ℤ, pos, negsuc, eqb_ℤ, ltb_ℤ, scale}
use almanak_keeperhub.Python.Text.{join, show, show_ℤ, is_text}
use almanak_keeperhub.Python.Json.{
  Value, Dict, null, bool, num, str, empty, entry, truthy, eq_str, text_of,
}
use almanak_keeperhub.Errors.{
  ApiKind, Error, Result, plain, rate_limited, unavailable, ok, err, api, transport, signing,
  assertion_error,
}
use almanak_keeperhub.Effects.{
  Action, second, seconds, pure, raise, asks, gets, attempt, sleep, notify, ◌>>=◌, ◌>>◌,
}
use almanak_keeperhub.Client.Calls.{ContractCall, label}
use almanak_keeperhub.Client.Answers.{SimulationOutcome, SequenceOutcome, or_value}
use almanak_keeperhub.Client.Methods.{simulate_contract_call, simulate_call_sequence}
use almanak_keeperhub.Receipts.{record_simulation}
use almanak_keeperhub.Calldata.Index.{SelectorIndex}
use almanak_keeperhub.Calldata.Decode.{EthAbi}
use almanak_keeperhub.Signer.{UnsignedTransaction, text_of_to}
use almanak_keeperhub.Signer.Calls.{call_for}

-- Almanak's `SimulationResult`; the reason is null where there is none.
pub record SimulationResult : Type 0 where
  pub success : Bool
  pub simulated : Bool
  pub gas_estimates : List ℤ
  pub warnings : List String
  pub revert_reason : Value

abbrev pub fallback_gas : ℤ
fallback_gas = pos 300_000

-- `_failure`
unfoldable pub failure : Value → Bool → SimulationResult
failure reason simulated = record {
  success = false;
  simulated = simulated;
  gas_estimates = [];
  warnings = [];
  revert_reason = reason;
}

abbrev pub passed : List ℤ → List String → SimulationResult
passed gas_estimates warnings = record {
  success = true;
  simulated = true;
  gas_estimates = gas_estimates;
  warnings = warnings;
  revert_reason = null;
}

-- What `_with_retries` reads of an exception that it retries: its text, its status and the seconds
-- that it asks to wait.
abbrev pub transient_api : ApiKind → String → ℕ → Option (String × ℕ × ℤ)
transient_api (rate_limited retry_after) message status = some (message, status, retry_after)
transient_api unavailable message status = some (message, status, pos 0)
transient_api kind message status = none

unfoldable pub transient : Error → Option (String × ℕ × ℤ)
transient (api e) = transient_api e.kind e.message e.status
transient (transport problem) = some (problem, 0, pos 0)
transient e = none

-- `float(retry_after or 0) or 2.0 * (attempt + 1)`
abbrev pub retry_delay : ℕ → ℤ → ℤ
retry_delay tried retry_after =
    if eqb_ℤ retry_after (pos 0) then seconds (2 * (tried + 1)) else scale second retry_after

module _ {A : Type 0} where
  unfoldable pub retried : ℕ → Action A → Error → Option (String × ℕ × ℤ) → Action A
  retried tried again e none = raise e
  retried tried again e (some (message, status, retry_after)) =
      if tried == 2
      then raise
          (api (record { kind = plain; message = message; status = status; payload = empty }))
      else sleep (retry_delay tried retry_after) >> again

  unfoldable pub handled : ℕ → Action A → Result A → Action A
  unfolding transient
  handled tried again (ok a) = pure a
  handled tried again (err e) = retried tried again e (transient e)

  -- The rounds of `_with_retries` from one on; the last raises `AssertionError("unreachable")`.
  unfoldable pub rounds : ℕ → ℕ → Action A → Action A
  rounds zero tried request = raise assertion_error
  rounds (suc fuel) tried request = do
    outcome ← attempt request
    handled tried (λ h w. rounds fuel (tried + 1) request h w) outcome

  -- `_with_retries`
  unfoldable pub with_retries : Action A → Action A
  unfolding rounds
  with_retries request = rounds 3 0 request

-- `a or b` of an optional amount of gas.
abbrev pub gas_or : Option ℤ → ℤ → ℤ
gas_or none b = b
gas_or (some n) b = if eqb_ℤ n (pos 0) then b else n

opt_num : Option ℤ → Value
opt_num none = null
opt_num (some n) = num n

-- `reason or "simulation failed"`, with the code, if any.
with_code : (Value → String) → Value → Option String → Value
with_code show_value reason none = reason
with_code show_value reason (some code) =
    if is_text code then str (join (show_value reason ∷ " [code=" ∷ code ∷ "]" ∷ [])) else reason

-- `_refuse`
unfoldable pub refuse_run :
    UnsignedTransaction → ContractCall → Value → Option String → Bool → Action SimulationResult
unfolding with_code
refuse_run tx call reason code would_revert = do
  repr ← asks (λ h. h.repr)
  let stated = with_code (text_of repr) (or_value reason (str "simulation failed")) code
  record_simulation (
      entry "chain_id" (num (pos tx.chain_id)) (
        entry "to" (str (text_of_to tx.to)) (
          entry "function" (str (label call)) (
            entry "success" (bool false)
              (entry "would_revert" (bool would_revert) (entry "error" stated empty))))))
  notify (record {
    event = "refused by dry run";
    detail = join (
        label call
        ∷ " -> "
        ∷ text_of_to tx.to
        ∷ " on chain "
        ∷ show tx.chain_id
        ∷ ": "
        ∷ text_of repr stated
        ∷ []);
    link = none;
  })
  pure (failure stated true)

-- `_record_ok`
unfoldable pub record_ok : UnsignedTransaction → ContractCall → Option ℤ → Value → Action Unit
unfolding opt_num
record_ok tx call gas_estimate mechanism = record_simulation (
    entry "chain_id" (num (pos tx.chain_id)) (
      entry "to" (str (text_of_to tx.to)) (
        entry "function" (str (label call)) (
          entry "success" (bool true) (
            entry "would_revert" (bool false) (
              entry "gas_estimate" (opt_num gas_estimate)
                (if truthy mechanism then entry "mechanism" mechanism empty else empty)))))))

-- The reason that `_from_sequence` gives for a call that fails.
sequence_reason : (Value → String) → ℕ → ContractCall → SimulationOutcome → Value
sequence_reason show_value index call result =
    let reason = show_value (or_value result.revert_reason (str "simulation failed")) in
    let before : ℤ = elim index [ zero ↦ negsuc 0 | suc i ↦ pos i ] in
    str (
      if eq_str result.failure_kind "unavailable"
      then join (
          "tx["
          ∷ show index
          ∷ "] could not be simulated against the state tx["
          ∷ show_ℤ before
          ∷ "] produces: "
          ∷ reason
          ∷ [])
      else join (
          "tx["
          ∷ show index
          ∷ "] "
          ∷ label call
          ∷ " would fail after tx[0.."
          ∷ show_ℤ before
          ∷ "]: "
          ∷ reason
          ∷ []))

-- A transaction with its call.
abbrev pub Compiled : Type 0
Compiled = UnsignedTransaction × ContractCall

-- The loop of `_from_sequence`, from a position on, with the estimates so far. It stops at the
-- shorter list.
unfoldable pub sequence_from :
    Value → ℕ → ℕ → List ℤ → List Compiled → List SimulationOutcome → Action SimulationResult
unfolding sequence_reason
sequence_from mechanism total index gas ((tx, call) ∷ txs) (result ∷ results) =
    if result.success
    then (record_ok tx call result.gas_estimate mechanism
        >> sequence_from mechanism total (index + 1)
            (gas ++ gas_or result.gas_estimate (gas_or tx.gas_limit fallback_gas) ∷ []) txs results)
    else (asks (λ h. h.repr) >>= λ repr.
        refuse_run tx call (sequence_reason (text_of repr) index call result) result.code
          result.would_revert)
sequence_from mechanism total index gas txs results =
    if ltb (length gas) total
    then pure (failure (str "KeeperHub answered for fewer calls than were sent") false)
    else pure (passed gas [])

-- `tx.gas_limit if tx.gas_limit and tx.gas_limit > 0 else FALLBACK_GAS`
abbrev pub limit_of : Option ℤ → ℤ
limit_of none = fallback_gas
limit_of (some n) = if ltb_ℤ (pos 0) n then n else fallback_gas

-- The transactions after the first, from an index on: their gas and their warnings.
unfoldable pub unchained : ℕ → List Compiled → List ℤ × List String
unchained index [] = ([], [])
unchained index ((tx, call) ∷ txs) =
    let (gas, warnings) = unchained (index + 1) txs in
    let fallback = limit_of tx.gas_limit in
    (
      fallback ∷ gas,
      join (
            "tx["
            ∷ show (index + 1)
            ∷ "] depends on state written by tx["
            ∷ show index
            ∷ "]; this KeeperHub cannot chain calls, using compiler gas limit "
            ∷ show_ℤ fallback
            ∷ [])
          ∷ warnings,
    )

unfoldable pub unavailable_run : String → SimulationResult
unfolding failure
unavailable_run message =
    failure (str (join ("KeeperHub simulator unavailable: " ∷ message ∷ []))) false

-- The loop of `simulate` after the dry run of the first call.
unfoldable pub after_first :
    UnsignedTransaction
    → ContractCall
    → List Compiled
    → Result SimulationOutcome
    → Action SimulationResult
unfolding unchained
after_first tx call txs (ok outcome) =
    if outcome.success
    then (record_ok tx call outcome.gas_estimate null
        >> pure (
            passed
              (gas_or outcome.gas_estimate (gas_or tx.gas_limit fallback_gas) ∷ (unchained 0 txs).0)
              (unchained 0 txs).1))
    else refuse_run tx call outcome.revert_reason outcome.code outcome.would_revert
after_first tx call txs (err (api e)) = pure (unavailable_run e.message)
after_first tx call txs (err e) = raise e

unfoldable pub first_only : Compiled → List Compiled → Action SimulationResult
first_only (tx, call) txs = do
  outcome ← attempt (with_retries (simulate_contract_call call))
  after_first tx call txs outcome

unfoldable pub after_sequence :
    Compiled → List Compiled → Result (Option SequenceOutcome) → Action SimulationResult
after_sequence t ts (ok none) = first_only t ts
after_sequence t ts (ok (some sequence)) =
    sequence_from sequence.mechanism (length (t ∷ ts)) 0 [] (t ∷ ts) sequence.results
after_sequence t ts (err (api e)) = pure (unavailable_run e.message)
after_sequence t ts (err e) = raise e

-- The two ways to ask for a dry run, by how many calls there are.
unfoldable pub simulate_calls : List Compiled → Action SimulationResult
simulate_calls [] = pure (record (passed [] []) { simulated = false })
simulate_calls (t ∷ []) = first_only t []
simulate_calls (t ∷ (u ∷ ts)) = do
  outcome ← attempt (with_retries (simulate_call_sequence (map (λ c. c.1) (t ∷ u ∷ ts))))
  after_sequence t (u ∷ ts) outcome

-- A transaction with its call, before the others; the first exception ends it.
unfoldable pub with_call :
    UnsignedTransaction → Result ContractCall → Result (List Compiled) → Result (List Compiled)
with_call tx (err e) rest = err e
with_call tx (ok call) (err e) = err e
with_call tx (ok call) (ok rest) = ok ((tx, call) ∷ rest)

-- `[call_for(tx, ...) for tx in txs]`, with the transactions.
unfoldable pub compile_all :
    EthAbi → SelectorIndex → Option Bool → List UnsignedTransaction → Result (List Compiled)
unfolding with_call
compile_all eth index raw_calldata [] = ok []
compile_all eth index raw_calldata (tx ∷ txs) =
    with_call tx (call_for eth tx index raw_calldata) (compile_all eth index raw_calldata txs)

-- The `except SigningError` of `simulate`.
unfoldable pub after_compile : Result (List Compiled) → Action SimulationResult
unfolding failure simulate_calls
after_compile (ok compiled) = simulate_calls compiled
after_compile (err (signing m)) = pure (failure (str m) false)
after_compile (err e) = raise e

-- `simulate`
unfoldable pub simulate :
    EthAbi → SelectorIndex → List UnsignedTransaction → Action SimulationResult
unfolding after_compile compile_all
simulate eth index [] = pure (record (passed [] []) { simulated = false })
simulate eth index (tx ∷ txs) = do
  raw_calldata ← gets (λ w. w.capabilities.raw_calldata)
  after_compile (compile_all eth index raw_calldata (tx ∷ txs))
