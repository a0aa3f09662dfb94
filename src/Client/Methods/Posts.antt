-- ===== src/Client/Methods/Posts.antt =====
-- client.py: `_use_raw` and `_post_call`, which learns whether KeeperHub takes raw calldata.
use text.Mathlib.Text.{find?}
use almanak_keeperhub.Prelude.{
  ℕ, zero, suc, String, Bool, true, false, not, ◌&&◌, ◌||◌, Option, none, some, ◌==◌, if◌then◌else◌,
  is_some,
}
use almanak_keeperhub.Python.Json.{Value, Dict, bool, put, text_of}
use almanak_keeperhub.Errors.{plain, unavailable, api, out_of_fuel}
use almanak_keeperhub.Effects.{
  Request, Response, Capabilities, Action, get as get_method, post, pure, raise, lift, gets, asks,
  modify, http, ◌>>=◌, ◌>>◌,
}
use almanak_keeperhub.Client.Calls.{ContractCall, has_data, raw_only, body}
use almanak_keeperhub.Client.Answers.{json_or_empty, message, rejects_unknown_shape}

-- A request and the dict in its answer.
unfoldable pub exchange : Request → Action (Response × Dict)
exchange r = do response ← http r; pure (response, json_or_empty response)

abbrev pub get_request : String → Request
get_request path = record { method = get_method; path = path; idempotency_key = none; body = none }

abbrev pub post_request : String → Option String → Dict → Request
post_request path key body = record {
  method = post;
  path = path;
  idempotency_key = key;
  body = some body;
}

abbrev pub contract_call_path : String
contract_call_path = "/api/execute/contract-call"

abbrev pub raise_plain : {A : Type 0} → String → Response → Dict → Action A
raise_plain m r payload =
    raise (api (record { kind = plain; message = m; status = r.status_code; payload = payload }))

abbrev pub raise_unavailable : {A : Type 0} → Response → Dict → Action A
raise_unavailable r payload = raise (
    api (record {
      kind = unavailable;
      message = message payload "simulator unavailable";
      status = 503;
      payload = payload;
    }))

-- `"required" in text`
abbrev pub requires : String → Bool
requires text = is_some (find? text "required")

unfoldable pub set_raw_calldata : Bool → Action Unit
set_raw_calldata b =
    modify λ w. record w { capabilities = record w.capabilities { raw_calldata = some b } }

unfoldable pub set_call_sequence : Bool → Action Unit
set_call_sequence b =
    modify λ w. record w { capabilities = record w.capabilities { call_sequence = some b } }

-- `flag is not False`
abbrev pub not_false : Option Bool → Bool
not_false (some false) = false
not_false flag = true

-- `_use_raw`
unfoldable pub use_raw : ContractCall → Capabilities → Bool
use_raw c capabilities = has_data c && (raw_only c || not_false capabilities.raw_calldata)

-- An older API rejects the raw shape: the flag is set, and the typed spelling is tried, if any.
unfoldable pub fall_back :
    ContractCall
    → Action (Response × Dict × Bool)
    → Response
    → Dict
    → Action (Response × Dict × Bool)
fall_back c again r payload =
    set_raw_calldata false
    >> (if raw_only c
        then raise_plain
            "this KeeperHub does not accept raw calldata and the selector is not in the local index"
            r payload
        else again)

unfoldable pub accept : Response → Dict → Bool → Action (Response × Dict × Bool)
accept r payload raw =
    if r.status_code == 200 || r.status_code == 202
    then set_raw_calldata true >> pure (r, payload, raw)
    else pure (r, payload, raw)

unfoldable pub learned :
    ContractCall
    → Action (Response × Dict × Bool)
    → Response
    → Dict
    → Bool
    → Bool
    → (Value → String)
    → Action (Response × Dict × Bool)
learned c again r payload raw known show_value =
    if raw && not known
    then if rejects_unknown_shape requires show_value r.status_code payload "functionName"
      then fall_back c again r payload
      else accept r payload raw
    else pure (r, payload, raw)

-- What `_post_call` does with the answer.
unfoldable pub learn :
    ContractCall
    → Action (Response × Dict × Bool)
    → Response
    → Dict
    → Bool
    → Action (Response × Dict × Bool)
learn c again r payload raw = do
  known ← gets (λ w. is_some w.capabilities.raw_calldata)
  repr ← asks (λ h. h.repr)
  learned c again r payload raw known (text_of repr)

-- `_post_call`, with its recursive call as `again`.
unfoldable pub post_call_step :
    ContractCall
    → Bool
    → Option String
    → Action (Response × Dict × Bool)
    → Action (Response × Dict × Bool)
post_call_step c simulate key again = do
  raw ← gets (λ w. use_raw c w.capabilities)
  fields ← lift (body raw c)
  (r, payload) ← exchange (
      post_request contract_call_path key
        (if simulate then put "simulate" (bool true) fields else fields))
  learn c again r payload raw

unfoldable pub post_call_from :
    ℕ → ContractCall → Bool → Option String → Action (Response × Dict × Bool)
post_call_from zero c simulate key = raise out_of_fuel
post_call_from (suc fuel) c simulate key =
    post_call_step c simulate key (λ h w. post_call_from fuel c simulate key h w)

-- Two rounds are enough: the first latches the flag that would lead to another.
unfoldable pub post_call : ContractCall → Bool → Option String → Action (Response × Dict × Bool)
unfolding post_call_from
post_call c simulate key = post_call_from 2 c simulate key
