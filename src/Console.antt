-- ===== src/Console.antt =====
-- console/server.py: `build_state`, what the operator's page shows, from the files that it reads. A
-- file is given by what `json.loads` makes of it, and none where it is missing or is not JSON.
pub mod Accounted
pub mod Tests
use Prim.Native.Char.{code}
use Prim.Native.String.{◌++◌}
use almanak_keeperhub.Prelude.{
  ℕ, zero, suc, ◌+◌, ◌==◌, String, Bool, true, false, not, ◌&&◌, ◌||◌, Option, none, some, List, [],
  ◌∷◌, map, str_eq, if◌then◌else◌, any, length, get_or,
}
use almanak_keeperhub.Prelude.Int.{ℤ, pos, eqb_ℤ}
use almanak_keeperhub.Python.Text.{is_text, int_of, join, lower, upper, take, drop, char_of}
use almanak_keeperhub.Python.Json.{
  Value, Items, Dict, null, bool, num, str, arr, obj, nil, truthy, get, get_default, eq_str,
  as_dict, put, dicts, is_true,
}
use almanak_keeperhub.Errors.{Result, ok, err, value_error, type_error, ◌>>=◌}
use almanak_keeperhub.Client.Answers.{or_value}
use almanak_keeperhub.Keeper.Params.{iterated}
use almanak_keeperhub.Receipts.{at_least, printed, keep}

abbrev pub explorers : List (ℕ × String)
explorers =
    (8453, "https://basescan.org/tx/")
    ∷ (1, "https://etherscan.io/tx/")
    ∷ (42161, "https://arbiscan.io/tx/")
    ∷ (10, "https://optimistic.etherscan.io/tx/")
    ∷ (137, "https://polygonscan.com/tx/")
    ∷ (84532, "https://sepolia.basescan.org/tx/")
    ∷ (11155111, "https://sepolia.etherscan.io/tx/")
    ∷ []

-- `EXPLORERS.get(chain_id)`
unfoldable pub explorer_prefix : List (ℕ × String) → ℤ → Option String
explorer_prefix [] chain_id = none
explorer_prefix ((id, prefix) ∷ rest) chain_id =
    if eqb_ℤ (pos id) chain_id then some prefix else explorer_prefix rest chain_id

-- `int(v)`
unfoldable pub int_value : Value → Result ℤ
int_value (num n) = ok n
int_value (bool b) = ok (pos (if b then 1 else 0))
int_value (str s) = elim (int_of s) [
  | none ↦ err (value_error (join ("invalid literal for int() with base 10: '" ∷ s ∷ "'" ∷ [])))
  | some n ↦ ok n
]
int_value v = err (type_error "int() argument must be a string or a real number")

-- `f"{prefix}{tx_hash}" if prefix and tx_hash else None`
unfoldable pub hash_link : (Value → String) → Option String → Value → Value
hash_link show_value none tx_hash = null
hash_link show_value (some prefix) tx_hash =
    if truthy tx_hash then str (join (prefix ∷ show_value tx_hash ∷ [])) else null

-- `_explorer`, with null for None.
unfoldable pub explorer : (Value → String) → Dict → Result Value
explorer show_value e =
    if truthy (get "transaction_link" e)
    then ok (str (show_value (get "transaction_link" e)))
    else (int_value (or_value (get "chain_id" e) (num (pos 0))) >>= λ chain_id.
        ok (hash_link show_value (explorer_prefix explorers chain_id) (get "tx_hash" e)))

unfoldable pub outcome_of : String → String
outcome_of status =
    if any (str_eq status) ("completed" ∷ "success" ∷ [])
    then "ok"
    else if any (str_eq status) ("failed" ∷ "error" ∷ "system_error" ∷ "cancelled" ∷ [])
    then "bad"
    else "pending"

-- The row of an execution.
unfoldable pub execution_row : (Value → String) → Dict → Result Dict
execution_row show_value e =
    let status = show_value (or_value (get "status" e) (str "unknown")) in
    explorer show_value e >>= λ link.
    ok (put "outcome" (str (outcome_of status)) (put "explorer" link (put "status" (str status) e)))

unfoldable pub execution_rows : (Value → String) → List Dict → Result (List Dict)
execution_rows show_value [] = ok []
execution_rows show_value (e ∷ es) =
    execution_row show_value e >>= λ row. execution_rows show_value es >>= λ rows. ok (row ∷ rows)

-- `sorted(..., key=recorded_at, reverse=True)`, which keeps the order of equals.
unfoldable pub insert_row : (Value → String) → Dict → List Dict → List Dict
insert_row show_value e [] = e ∷ []
insert_row show_value e (d ∷ ds) =
    let rest = insert_row show_value e ds in
    if at_least (printed show_value "recorded_at" e) (printed show_value "recorded_at" d)
    then e ∷ d ∷ ds
    else d ∷ rest

unfoldable pub newest_first : (Value → String) → List Dict → List Dict
newest_first show_value [] = []
newest_first show_value (e ∷ es) = insert_row show_value e (newest_first show_value es)

abbrev pub is_simulation : Dict → Bool
is_simulation e = eq_str (get "type" e) "simulation"

-- `sum(1 for e in rows if p(e))`
unfoldable pub count : (Dict → Bool) → List Dict → ℕ
count p [] = 0
count p (e ∷ es) = let rest = count p es in if p e then suc rest else rest

-- `[e for e in _read_json(path, []) if isinstance(e, dict)]`
unfoldable pub rows_in : Option Value → Result (List Dict)
rows_in file = iterated (get_or file (arr nil)) >>= λ items. ok (dicts items)

-- `x if isinstance(x, dict) else None`
unfoldable pub document_in : Option Value → Option Dict
document_in none = none
document_in (some v) = as_dict v

-- `s.replace("_", " ").capitalize()`
spaced : String → String
unfolding char_of
spaced String.[] = ""
spaced (String.◌∷◌ c s) = String.◌∷◌ (if code c == b'_' then char_of 32 else c) (spaced s)

unfoldable pub heading : String → String
unfolding spaced
heading kind = upper (take 1 (spaced kind)) ++ lower (drop 1 (spaced kind))

abbrev pub failure_titles : List (String × String)
failure_titles =
    ("revert_caught_by_dry_run", "Revert caught by dry run")
    ∷ ("dry_run_revert", "Revert caught by dry run")
    ∷ ("duplicate_blocked", "Duplicate blocked by idempotency")
    ∷ ("cap_refused", "Stablecoin cap refused before signing")
    ∷ ("duplicate_blocked_by_idempotency", "Duplicate blocked by idempotency")
    ∷ ("rpc_outage", "Local RPC outage, broadcast still landed")
    ∷ ("unknown_selector_refused", "Unknown selector refused offline")
    ∷ ("crash_and_resume", "Crash after broadcast, resumed by a new process")
    ∷ []

unfoldable pub title_for : List (String × String) → String → String → String
title_for [] kind default = default
title_for ((k, title) ∷ rest) kind default =
    if str_eq k kind then title else title_for rest kind default

unfoldable pub failure_mode : (Value → String) → Dict → Dict
failure_mode show_value d =
    put "title"
      (str (
        title_for failure_titles (show_value (get "kind" d))
          (heading (show_value (get_default "kind" (str "") d)))))
      d

abbrev pub refusal_kinds : List String
refusal_kinds =
    "revert_caught_by_dry_run" ∷ "dry_run_revert" ∷ "cap_refused" ∷ "unknown_selector_refused" ∷ []

pub record Summary : Type 0 where
  pub executions : ℕ
  pub verified : ℕ
  pub replays : ℕ
  pub sponsored : ℕ
  pub in_flight : ℕ
  pub failed : ℕ
  pub refused_before_broadcast : ℕ
  pub dry_runs : ℕ
  pub dry_run_refusals : ℕ

-- What is built, but for the time and the arguments that are passed on.
pub record State : Type 0 where
  pub summary : Summary
  pub executions : List Dict
  pub simulations : List Dict
  pub failure_modes : List Dict
  pub benchmark : Option Dict
  pub api_features : Option Dict
  pub conformance : Option Dict

abbrev pub has_outcome : String → Dict → Bool
has_outcome outcome e = eq_str (get "outcome" e) outcome

unfoldable pub summary_of : (Value → String) → List Dict → List Dict → List Dict → Summary
summary_of show_value executions simulations demos = record {
  executions = length executions;
  verified = count (λ e. is_true (get "verified" e)) executions;
  replays = count (λ e. truthy (get "idempotent_replay" e)) executions;
  sponsored = count (λ e. truthy (get "sponsored" e)) executions;
  in_flight = count (has_outcome "pending") executions;
  failed = count (has_outcome "bad") executions;
  refused_before_broadcast =
      count (λ d. any (str_eq (show_value (get "kind" d))) refusal_kinds) demos;
  dry_runs = length simulations;
  dry_run_refusals = count (λ s. not (truthy (get "success" s))) simulations;
}

unfoldable pub first_rows : ℕ → List Dict → List Dict
first_rows zero rows = []
first_rows (suc n) [] = []
first_rows (suc n) (e ∷ es) = e ∷ first_rows n es

unfoldable pub state_from :
    (Value → String)
    → List Dict
    → List Dict
    → List Dict
    → Option Value
    → Option Value
    → Option Value
    → State
state_from show_value simulations executions demos benchmark features conformance = record {
  summary = summary_of show_value executions simulations demos;
  executions = executions;
  simulations = first_rows 50 simulations;
  failure_modes = map (failure_mode show_value) demos;
  benchmark = document_in benchmark;
  api_features = document_in features;
  conformance = document_in conformance;
}

unfoldable pub build_state :
    (Value → String)
    → Option Value
    → Option Value
    → Option Value
    → Option Value
    → Option Value
    → Result State
build_state show_value receipts demo_receipts benchmark features conformance =
    rows_in receipts >>= λ rows.
    execution_rows show_value (newest_first show_value (keep (λ e. not (is_simulation e)) rows))
    >>= λ executions. rows_in demo_receipts >>= λ demos. ok (
        state_from show_value (newest_first show_value (keep is_simulation rows)) executions demos
          benchmark features conformance)
