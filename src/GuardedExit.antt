-- ===== src/GuardedExit.antt =====
-- guarded_exit.py: a redeem that KeeperHub runs only if the wallet still holds the shares.
pub mod Outcome
use almanak_keeperhub.Prelude.{
  ℕ, ◌==◌, String, Bool, true, false, ◌&&◌, Option, none, some, List, [], ◌∷◌, map, if◌then◌else◌,
  get_or, all, is_empty, is_some,
}
use almanak_keeperhub.Prelude.Int.{pos}
use almanak_keeperhub.Python.Text.{join, lower, show, is_text}
use almanak_keeperhub.Python.Json.{
  Value, Items, Dict, null, bool, num, str, arr, obj, nil, cons, empty, entry, truthy, get, put,
  text_of,
}
use almanak_keeperhub.Errors.{assertion_error}
use almanak_keeperhub.Effects.{ExecutionStatus, Receipt, Action, pure, raise, asks, ◌>>=◌, ◌>>◌}
use almanak_keeperhub.Client.Calls.{ContractCall}
use almanak_keeperhub.Client.Answers.{ConditionResult, GuardedOutcome, or_value}
use almanak_keeperhub.Client.Methods.{check_and_execute}
use almanak_keeperhub.Client.Polling.{wait_for_terminal, poll_interval}
use almanak_keeperhub.Receipts.{record_execution, record_simulation, update}

pub record GuardedExit : Type 0 where
  pub vault : String
  pub chain_id : ℕ
  pub wallet : String
  pub shares : ℕ
  pub work_id : String

abi_argument : String → String → Value
abi_argument name type = obj (entry "name" (str name) (entry "type" (str type) empty))

abi_function : String → String → Items → String → String → Items
unfolding abi_argument
abi_function name mutability inputs output output_type =
    cons
      (obj (
        entry "type" (str "function") (
          entry "name" (str name) (
            entry "stateMutability" (str mutability) (
              entry "inputs" (arr inputs)
                (entry "outputs" (arr (cons (abi_argument output output_type) nil)) empty))))))
      nil

balance_of_abi : Items
unfolding abi_function abi_argument
balance_of_abi =
    abi_function "balanceOf" "view" (cons (abi_argument "account" "address") nil) "" "uint256"

redeem_abi : Items
unfolding abi_function abi_argument
redeem_abi =
    abi_function "redeem" "nonpayable"
      (cons (abi_argument "shares" "uint256")
        (cons (abi_argument "receiver" "address") (cons (abi_argument "owner" "address") nil)))
      "assets" "uint256"

-- `GuardedExit.check`
unfoldable pub check : GuardedExit → ContractCall
unfolding balance_of_abi
check e = record {
  contract_address = e.vault;
  chain_id = e.chain_id;
  function_name = "balanceOf";
  function_args = cons (str e.wallet) nil;
  abi = balance_of_abi;
  value_wei = 0;
  data_hex = none;
}

-- `GuardedExit.action`, with the hexadecimal calldata that eth_utils and eth_abi make of
-- `redeem(shares, wallet, wallet)`.
unfoldable pub action : (ℕ → String → String → String) → GuardedExit → ContractCall
unfolding redeem_abi
action redeem_data e = record {
  contract_address = e.vault;
  chain_id = e.chain_id;
  function_name = "redeem";
  function_args = cons (str (show e.shares)) (cons (str e.wallet) (cons (str e.wallet) nil));
  abi = redeem_abi;
  value_wei = 0;
  data_hex = some (join ("0x" ∷ redeem_data e.shares e.wallet e.wallet ∷ []));
}

-- What the key of an exit is the digest of.
unfoldable pub key_text : GuardedExit → String
key_text e = join (
    "guarded-exit/v2|"
    ∷ show e.chain_id
    ∷ "|"
    ∷ lower e.wallet
    ∷ "|"
    ∷ lower e.vault
    ∷ "|"
    ∷ show e.shares
    ∷ "|"
    ∷ e.work_id
    ∷ [])

-- `GuardedExit.idempotency_key`
unfoldable pub idempotency_key : (String → String) → GuardedExit → String
idempotency_key sha256 e = sha256 (key_text e)

abbrev opt_text : Option String → Value
opt_text none = null
opt_text (some s) = str s

-- `condition.__dict__`
condition_fields : ConditionResult → Value
condition_fields c = obj (
    entry "met" (bool c.met) (
      entry "observed_value" (opt_text c.observed_value)
        (entry "target_value" (opt_text c.target_value) (entry "operator" c.operator empty))))

-- The fields that every entry of an exit has first.
exit_fields : GuardedExit → Dict → Dict
exit_fields e rest =
    entry "chain_id" (num (pos e.chain_id))
      (entry "to" (str e.vault) (entry "function" (str "redeem") rest))

unfoldable pub dry_run_fields : (Value → String) → GuardedExit → GuardedOutcome → Dict
unfolding exit_fields condition_fields
dry_run_fields show_value e outcome = exit_fields e (
    entry "success" (bool outcome.executed) (
      entry "would_revert" (bool (truthy (get "wouldRevert" outcome.raw))) (
        entry "guarded" (bool true) (
          entry "condition" (condition_fields outcome.condition) (
            entry "error"
              (if outcome.executed
                then null
                else str (
                    show_value
                      (or_value (get "revertReason" outcome.raw) (str "condition not met"))))
              empty)))))

unfoldable pub unmet_fields : (Value → String) → GuardedExit → GuardedOutcome → Dict
unfolding exit_fields condition_fields
unmet_fields show_value e outcome = exit_fields e (
    entry "success" (bool false) (
      entry "would_revert" (bool false) (
        entry "guarded" (bool true) (
          entry "condition" (condition_fields outcome.condition) (
            entry "error"
              (str (
                join (
                  "guard not met: vault balance "
                  ∷ get_or outcome.condition.observed_value "None"
                  ∷ " "
                  ∷ show_value outcome.condition.operator
                  ∷ " "
                  ∷ get_or outcome.condition.target_value "None"
                  ∷ " is false; nothing broadcast"
                  ∷ [])))
              empty)))))

unfoldable pub executed_fields : (String → String) → GuardedExit → GuardedOutcome → Dict
unfolding exit_fields condition_fields
executed_fields sha256 e outcome = exit_fields e (
    entry "tx_hash" (opt_text outcome.transaction_hash) (
      entry "status" outcome.status (
        entry "idempotency_key" (str (idempotency_key sha256 e)) (
          entry "idempotent_replay" (bool outcome.idempotent_replay) (
            entry "guarded" (bool true)
              (entry "condition" (condition_fields outcome.condition) empty))))))

-- `a or b` of two optional texts.
abbrev pub text_or_else : Option String → Option String → Option String
text_or_else none b = b
text_or_else (some s) b = if is_text s then some s else b

statuses : List Receipt → Items
statuses [] = nil
statuses (r ∷ rs) = cons r.receipt_status (statuses rs)

unfoldable pub settled_fields : GuardedOutcome → ExecutionStatus → Dict
unfolding statuses
settled_fields outcome status = entry "status" (str status.status) (
    entry "tx_hash" (opt_text (text_or_else status.transaction_hash outcome.transaction_hash)) (
      entry "transaction_link" (opt_text status.transaction_link) (
        entry "verified"
          (if is_empty status.receipts then null else bool (all (λ r. r.verified) status.receipts))
          (entry "receipt_status" (arr (statuses status.receipts))
            (entry "sponsored" (bool status.sponsored) empty)))))

unfoldable pub settled_outcome : GuardedOutcome → String → ExecutionStatus → GuardedOutcome
settled_outcome outcome execution_id status = record {
  executed = true;
  condition = outcome.condition;
  execution_id = some execution_id;
  status = str status.status;
  transaction_hash = text_or_else status.transaction_hash outcome.transaction_hash;
  idempotent_replay = outcome.idempotent_replay;
  raw = put "settled" (obj status.raw) outcome.raw;
}

-- What follows an exit that KeeperHub ran: the log, the settlement, the log again.
unfoldable pub settle_exit : GuardedExit → ℕ → GuardedOutcome → String → Action GuardedOutcome
settle_exit e limit outcome execution_id = do
  sha256 ← asks (λ h. h.sha256)
  record_execution execution_id (executed_fields sha256 e outcome)
  status ← wait_for_terminal execution_id limit poll_interval
  update execution_id (settled_fields outcome status)
  pure (settled_outcome outcome execution_id status)

-- `assert outcome.execution_id`
unfoldable pub after_execution :
    GuardedExit → ℕ → GuardedOutcome → Option String → Action GuardedOutcome
after_execution e limit outcome none = raise assertion_error
after_execution e limit outcome (some execution_id) =
    if is_text execution_id then settle_exit e limit outcome execution_id else raise assertion_error

unfoldable pub after_guard : GuardedExit → ℕ → Bool → GuardedOutcome → Action GuardedOutcome
after_guard e limit simulate outcome = do
  repr ← asks (λ h. h.repr)
  if simulate
      then record_simulation (dry_run_fields (text_of repr) e outcome) >> pure outcome
      else if outcome.executed
      then after_execution e limit outcome outcome.execution_id
      else record_simulation (unmet_fields (text_of repr) e outcome) >> pure outcome

-- `run_guarded_exit`, with the default settle timeout left to the caller.
unfoldable pub run_guarded_exit :
    (ℕ → String → String → String) → GuardedExit → Bool → ℕ → Action GuardedOutcome
run_guarded_exit redeem_data e simulate settle_timeout = do
  sha256 ← asks (λ h. h.sha256)
  outcome ←
      check_and_execute (check e) "gte" (show e.shares) (action redeem_data e)
        (if simulate then none else some (idempotency_key sha256 e)) simulate
  after_guard e settle_timeout simulate outcome
