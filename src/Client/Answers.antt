-- ===== src/Client/Answers.antt =====
-- client.py: reading what the API answers. Fields that are passed on unread keep their JSON value;
-- a hash, a link or an error that is no text is read as absent.
use almanak_keeperhub.Prelude.{
  ℕ, ◌+◌, String, Bool, true, ◌&&◌, ◌||◌, Option, none, some, List, [], ◌∷◌, ltb, ◌==◌, str_eq,
  if◌then◌else◌, get_or,
}
use almanak_keeperhub.Prelude.Int.{ℤ, pos, eqb_ℤ}
use almanak_keeperhub.Python.Text.{is_text, show, int_of, join}
use almanak_keeperhub.Python.Json.{
  Value, Dict, null, bool, num, str, arr, obj, empty, truthy, find, get, as_str, eq_str, dicts,
}
use almanak_keeperhub.Errors.{
  ApiKind, Result, plain, auth, conflict, in_progress, unavailable, rate_limited, api, ok, err,
  type_error,
}
use almanak_keeperhub.Effects.{Response, ExecutionStatus}

-- `_int_or_none`
unfoldable pub int_or_none : Value → Option ℤ
int_or_none (bool b) = some (pos (if b then 1 else 0))
int_or_none (num n) = some n
int_or_none (str s) = if is_text s then int_of s else none
int_or_none v = none

-- `_json_or_empty`
unfoldable pub json_or_empty : Response → Dict
json_or_empty r = elim r.body [ some (obj d) ↦ d | _ ↦ empty ]

-- A field that counts in `_message`: a text that is not empty.
usable : Value → Option String
usable (str s) = if is_text s then some s else none
usable v = none

-- `_message`
unfoldable pub message : Dict → String → String
unfolding usable
message payload fallback =
    get_or (usable (get "message" payload))
      (get_or (usable (get "error" payload)) (get_or (usable (get "details" payload)) fallback))

-- `_rejects_unknown_shape`; `contains` is the test `"required" in str(...)`.
unfoldable pub rejects_unknown_shape : (String → Bool) → (Value → String) → ℕ → Dict → String → Bool
rejects_unknown_shape contains show_value status payload missing_field =
    status == 400
    && (eq_str (get "field" payload) missing_field
        && contains (elim (find "error" payload) [ none ↦ "" | some v ↦ show_value v ]))

-- `_int_or_none(response.headers.get("Retry-After")) or 5`
unfoldable pub retry_after_seconds : Response → ℤ
unfolding int_or_none
retry_after_seconds r =
    let header : Value = elim r.retry_after [ none ↦ null | some s ↦ str s ] in
    elim (int_or_none header) [ none ↦ pos 5 | some n ↦ if eqb_ℤ n (pos 0) then pos 5 else n ]

-- The class that `_raise_for_status` raises for a status of 400 or more.
unfoldable pub kind_of : Response → Dict → ApiKind
kind_of r payload =
    let status = r.status_code in
    let code = get "code" payload in
    let scope =
      eq_str (get "error" payload) "insufficient_scope" || eq_str code "insufficient_scope" in
    if status == 401 || (status == 403 && scope)
    then auth
    else if status == 409 && eq_str code "idempotency_conflict"
    then conflict
    else if status == 409 && eq_str code "idempotency_in_progress"
    then in_progress
    else if status == 429
    then rate_limited (retry_after_seconds r)
    else if status == 503
    then unavailable
    else plain

-- `_raise_for_status`
unfoldable pub raise_for_status : Response → Dict → Result (Unit {0})
raise_for_status r payload =
    if ltb r.status_code 400
    then ok tt
    else err (
        api (record {
          kind = kind_of r payload;
          message = message payload (join ("KeeperHub returned HTTP " ∷ show r.status_code ∷ []));
          status = r.status_code;
          payload = payload;
        }))

pub record SimulationOutcome : Type 0 where
  pub success : Bool
  pub would_revert : Bool
  pub gas_estimate : Option ℤ
  pub sender : Value
  pub failure_kind : Value
  pub revert_reason : Value
  pub code : Option String
  pub balance_wei : Option ℤ
  pub required_wei : Option ℤ
  pub raw : Dict

-- `a or b`
abbrev pub or_value : Value → Value → Value
or_value a b = if truthy a then a else b

-- `_simulation_outcome`
unfoldable pub simulation_outcome : Dict → Bool → SimulationOutcome
unfolding int_or_none
simulation_outcome payload is_ok = record {
  success = truthy (get "success" payload) && is_ok;
  would_revert = truthy (get "wouldRevert" payload);
  gas_estimate = int_or_none (get "gasEstimate" payload);
  sender = get "from" payload;
  failure_kind = get "failureKind" payload;
  revert_reason = or_value (get "revertReason" payload) (get "error" payload);
  code = as_str (get "code" payload);
  balance_wei = int_or_none (get "balanceWei" payload);
  required_wei = int_or_none (get "requiredWei" payload);
  raw = payload;
}

pub record SequenceOutcome : Type 0 where
  pub success : Bool
  pub results : List SimulationOutcome
  pub mechanism : Value
  pub atomic : Bool
  pub raw : Dict

-- `SequenceOutcome.first_failure`, from the index of the first result given.
unfoldable pub first_failure : ℕ → List SimulationOutcome → Option ℕ
first_failure i [] = none
first_failure i (r ∷ rs) = let rest = first_failure (i + 1) rs in if r.success then rest else some i

pub record ConditionResult : Type 0 where
  pub met : Bool
  pub observed_value : Option String
  pub target_value : Option String
  pub operator : Value

pub record GuardedOutcome : Type 0 where
  pub executed : Bool
  pub condition : ConditionResult
  pub execution_id : Option String
  pub status : Value
  pub transaction_hash : Option String
  pub idempotent_replay : Bool
  pub raw : Dict

-- `payload.get("receipts") or []`, kept to the dicts; a number or a flag cannot be iterated.
unfoldable pub receipt_items : Value → Result (List Dict)
receipt_items (arr vs) = ok (dicts vs)
receipt_items (num n) =
    if truthy (num n) then err (type_error "'int' object is not iterable") else ok []
receipt_items (bool true) = err (type_error "'bool' object is not iterable")
receipt_items v = ok []

-- `ExecutionStatus.terminal`: the server's hint first, then the status.
unfoldable pub terminal : ExecutionStatus → Bool
terminal s = elim s.poll_hint_seconds [
  | some hint ↦ eqb_ℤ hint (pos 0)
  | none ↦ str_eq s.status "completed" || str_eq s.status "failed"
]
