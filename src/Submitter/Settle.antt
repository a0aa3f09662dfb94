-- ===== src/Submitter/Settle.antt =====
-- submitter.py: `execution_for`, `_settle` and `get_receipt`.
use almanak_keeperhub.Prelude.{
  ℕ, String, Bool, true, false, not, ◌&&◌, ◌||◌, Option, none, some, List, [], ◌∷◌, if◌then◌else◌,
  ◌==◌, str_eq, is_empty, any, all,
}
use almanak_keeperhub.Prelude.Int.{ℤ, pos, eqb_ℤ, pos_part}
use almanak_keeperhub.Python.Text.{join, lower}
use almanak_keeperhub.Python.Json.{
  Value, Items, Dict, null, bool, str, arr, nil, cons, empty, entry, truthy, find, get, as_str,
  eq_str, text_of,
}
use almanak_keeperhub.Errors.{Error, Result, ok, err, timeout, key_error}
use almanak_keeperhub.Effects.{
  ChainReceipt, Receipt, ExecutionStatus, ExecutionEnvelope, Execution, settled, pending, Action,
  pure, raise, lift, gets, asks, attempt, notify, ◌>>=◌, ◌>>◌,
}
use almanak_keeperhub.Client.Answers.{terminal, or_value}
use almanak_keeperhub.Client.Polling.{wait_for_terminal, poll_interval, show_seconds}
use almanak_keeperhub.Receipts.{find_by_hash, update}
use almanak_keeperhub.Submitter.Types.{Settings, TransactionReceipt, refusal, lookup, remember}

-- `{[r.verified for r in status.receipts]}` in an f-string.
flags : List Receipt → String
flags [] = ""
flags (r ∷ []) = if r.verified then "True" else "False"
flags (r ∷ rs) = join ((if r.verified then "True" else "False") ∷ ", " ∷ flags rs ∷ [])

shown_flags : List Receipt → String
unfolding flags
shown_flags rs = join ("[" ∷ flags rs ∷ "]" ∷ [])

no_execution : Settings → String → Error
no_execution s tx_hash =
    refusal
      (join (
        "no KeeperHub execution known for " ∷ tx_hash ∷ " (not in memory, not in " ∷ s.receipts_path
        ∷ ")" ∷ []))
      (some tx_hash) none

-- `recorded["execution_id"]`
unfoldable pub recorded_id : (Value → String) → Option Value → Result String
recorded_id show_value none = err (key_error "execution_id")
recorded_id show_value (some v) = ok (show_value v)

-- The envelope that `execution_for` rebuilds from an entry of the log.
unfoldable pub resumed : (Value → String) → String → String → Dict → ExecutionEnvelope
resumed show_value tx_hash execution_id recorded = record {
  execution_id = execution_id;
  status = show_value (or_value (get "status" recorded) (str "unconfirmed"));
  transaction_hash = some tx_hash;
  transaction_link = as_str (get "transaction_link" recorded);
  error = none;
  idempotent_replay = truthy (get "idempotent_replay" recorded);
  raw = recorded;
}

unfoldable pub from_log : Settings → String → Option Dict → Action Execution
unfolding no_execution recorded_id
from_log s tx_hash none = raise (no_execution s tx_hash)
from_log s tx_hash (some recorded) = do
  repr ← asks (λ h. h.repr)
  id ← lift (recorded_id (text_of repr) (find "execution_id" recorded))
  let envelope = pending (resumed (text_of repr) tx_hash id recorded)
  remember tx_hash envelope >> pure envelope

unfoldable pub known_or_logged : Settings → String → Option Execution → Action Execution
known_or_logged s tx_hash (some known) = pure known
known_or_logged s tx_hash none = do recorded ← find_by_hash tx_hash; from_log s tx_hash recorded

-- `execution_for`
unfoldable pub execution_for : Settings → String → Action Execution
execution_for s tx_hash = do
  known ← gets (λ w. lookup (lower tx_hash) w.executions)
  known_or_logged s tx_hash known

unfoldable pub id_of : Execution → String
id_of (settled status) = status.execution_id
id_of (pending envelope) = envelope.execution_id

unfoldable pub unconfirmed : String → String → ℕ → Error
unconfirmed execution_id tx_hash limit =
    refusal
      (join (
        "KeeperHub execution "
        ∷ execution_id
        ∷ " still unconfirmed after "
        ∷ show_seconds limit
        ∷ "s; do not resend, keep the same idempotency key and poll the receipt again"
        ∷ []))
      (some tx_hash) (some true)

-- The handler `except TimeoutError` of `_settle`.
unfoldable pub confirmed : String → String → ℕ → Result ExecutionStatus → Action ExecutionStatus
confirmed execution_id tx_hash limit (ok status) = pure status
confirmed execution_id tx_hash limit (err (timeout e)) =
    raise (unconfirmed execution_id tx_hash limit)
confirmed execution_id tx_hash limit (err e) = raise e

receipt_statuses : List Receipt → Items
receipt_statuses [] = nil
receipt_statuses (r ∷ rs) = cons r.receipt_status (receipt_statuses rs)

abbrev pub opt_str : Option String → Value
opt_str none = null
opt_str (some s) = str s

all_verified : List Receipt → Value
all_verified rs = if is_empty rs then null else bool (all (λ r. r.verified) rs)

-- The fields that `_settle` writes into the log.
unfoldable pub settlement : ExecutionStatus → Dict
unfolding receipt_statuses all_verified
settlement status = entry "status" (str status.status) (
    entry "verified" (all_verified status.receipts) (
      entry "receipt_status" (arr (receipt_statuses status.receipts)) (
        entry "transaction_link" (opt_str status.transaction_link)
          (entry "sponsored" (bool status.sponsored) empty))))

unfoldable pub settle_execution : String → ℕ → String → Action ExecutionStatus
unfolding shown_flags
settle_execution tx_hash limit execution_id = do
  outcome ← attempt (wait_for_terminal execution_id limit poll_interval)
  status ← confirmed execution_id tx_hash limit outcome
  remember tx_hash (settled status)
  notify (record {
    event =
        if str_eq status.status "completed" || str_eq status.status "success"
        then "settled"
        else "failed";
    detail = join (
        "execution "
        ∷ status.execution_id
        ∷ " "
        ∷ status.status
        ∷ ", verified="
        ∷ shown_flags status.receipts
        ∷ []);
    link = status.transaction_link;
  })
  update status.execution_id (settlement status)
  pure status

unfoldable pub settle_known : String → ℕ → Execution → Action ExecutionStatus
settle_known tx_hash limit (settled status) =
    if terminal status then pure status else settle_execution tx_hash limit status.execution_id
settle_known tx_hash limit (pending envelope) = settle_execution tx_hash limit envelope.execution_id

-- `_settle`
unfoldable pub settle : Settings → String → ℕ → Action ExecutionStatus
settle s tx_hash limit = do known ← execution_for s tx_hash; settle_known tx_hash limit known

-- `r.receipt_status in FAILED_RECEIPT_STATUSES`
abbrev pub is_failed : Receipt → Bool
is_failed r = eq_str r.receipt_status "reverted" || eq_str r.receipt_status "safe_inner_failure"

abbrev pub is_about : String → Receipt → Bool
is_about tx_hash r = str_eq (lower r.hash) (lower tx_hash)

-- A block number that is there and not zero.
abbrev pub has_block : Option ℤ → Bool
has_block none = false
has_block (some n) = not (eqb_ℤ n (pos 0))

unfoldable pub find_first : (Receipt → Bool) → List Receipt → Option Receipt
find_first test [] = none
find_first test (r ∷ rs) = let rest = find_first test rs in if test r then some r else rest

-- `int(x or 0)` of a block number or an amount of gas.
abbrev pub nat_or_zero : Option ℤ → ℕ
nat_or_zero none = 0
nat_or_zero (some n) = pos_part n

unreadable : String → ExecutionStatus → Error
unreadable tx_hash status =
    refusal
      (join (
        "KeeperHub execution "
        ∷ status.execution_id
        ∷ " is '"
        ∷ status.status
        ∷ "' (verified="
        ∷ shown_flags status.receipts
        ∷ ") but this process could not read the receipt for "
        ∷ tx_hash
        ∷ " from its RPC; the transaction is not resent, keep the same idempotency key and retry the receipt read"
        ∷ []))
      (some tx_hash) none

-- KeeperHub's verified receipt, where the chain's cannot be read.
unfoldable pub from_keeperhub : String → Receipt → TransactionReceipt
from_keeperhub tx_hash r = record {
  tx_hash = tx_hash;
  block_number = nat_or_zero r.block_number;
  block_hash = "";
  gas_used = nat_or_zero r.gas_used;
  effective_gas_price = 0;
  status = if is_failed r then 0 else 1;
  logs = [];
}

-- `_to_almanak_receipt`
unfoldable pub to_almanak_receipt : ChainReceipt → String → TransactionReceipt
to_almanak_receipt raw tx_hash = record {
  tx_hash = tx_hash;
  block_number = raw.block_number;
  block_hash = raw.block_hash;
  gas_used = raw.gas_used;
  effective_gas_price = raw.effective_gas_price;
  status = raw.status;
  logs = raw.logs;
}

-- The rest of `get_receipt` once the execution has settled.
unfoldable pub receipt_for :
    String → ExecutionStatus → Option ChainReceipt → Result TransactionReceipt
unfolding from_keeperhub to_almanak_receipt unreadable shown_flags
receipt_for tx_hash status none =
    elim (find_first (λ r. is_about tx_hash r && (r.verified && has_block r.block_number))
      status.receipts) [
        | none ↦ err (unreadable tx_hash status)
        | some r ↦ ok (from_keeperhub tx_hash r)
      ]
receipt_for tx_hash status (some raw) =
    let receipt = to_almanak_receipt raw tx_hash in
    if receipt.status == 1 && any (λ r. is_about tx_hash r && is_failed r) status.receipts
    then ok (record receipt { status = 0 })
    else ok receipt

-- `get_receipt`
unfoldable pub get_receipt : Settings → String → ℕ → Action TransactionReceipt
get_receipt s tx_hash limit = do
  status ← settle s tx_hash limit
  sent ← gets (λ w. w.sent)
  raw ← asks (λ h. h.fetch_receipt sent tx_hash)
  lift (receipt_for tx_hash status raw)
