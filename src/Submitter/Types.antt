-- ===== src/Submitter/Types.antt =====
-- submitter.py and signer.py: what the submitter is given, and what it returns.
use almanak_keeperhub.Prelude.{
  ℕ, String, Bool, Option, none, some, List, [], ◌∷◌, if◌then◌else◌, str_eq,
}
use almanak_keeperhub.Python.Text.{is_text, lower}
use almanak_keeperhub.Python.Json.{Dict}
use almanak_keeperhub.Errors.{Error, submission}
use almanak_keeperhub.Effects.{Execution, Action, modify}
use almanak_keeperhub.Client.Calls.{ContractCall}

-- The fields that `KeeperHubSubmitter.__init__` sets once; times are in ticks.
pub record Settings : Type 0 where
  pub confirmation_timeout : ℕ
  pub max_retries : ℕ
  pub receipts_path : String

-- A `SignedTransaction` as the submitter tells them apart: one of its own signer with the call
-- that it prepared, or another.
pub data SignedTransaction : Type 0 where
  prepared : ContractCall → String → SignedTransaction
  foreign : SignedTransaction

-- Almanak's `SubmissionResult`.
pub record SubmissionResult : Type 0 where
  pub tx_hash : String
  pub submitted : Bool
  pub error : Option String

-- Almanak's `TransactionReceipt`.
pub record TransactionReceipt : Type 0 where
  pub tx_hash : String
  pub block_number : ℕ
  pub block_hash : String
  pub gas_used : ℕ
  pub effective_gas_price : ℕ
  pub status : ℕ
  pub logs : List Dict

-- `raise SubmissionError(message, tx_hash=..., recoverable=...)`
abbrev pub refusal : String → Option String → Option Bool → Error
refusal message tx_hash recoverable =
    submission (record { message = message; tx_hash = tx_hash; recoverable = recoverable })

-- `error or fallback`
abbrev pub text_or : Option String → String → String
text_or none fallback = fallback
text_or (some s) fallback = if is_text s then s else fallback

-- `self._executions.get(k)` and `self._executions[k] = v`
unfoldable pub lookup : String → List (String × Execution) → Option Execution
lookup k [] = none
lookup k ((j, v) ∷ l) = if str_eq j k then some v else lookup k l

unfoldable pub remember : String → Execution → Action Unit
remember tx_hash e = modify (λ w. record w { executions = (lower tx_hash, e) ∷ w.executions })
