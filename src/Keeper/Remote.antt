-- ===== src/Keeper/Remote.antt =====
-- keeper.py: `deploy`, `set_enabled`, `validate_remote`, `executions` and `list_workflows`. A path
-- stands with its query.
use almanak_keeperhub.Prelude.{ℕ, String, Bool, none, some, List, [], ◌∷◌, leb, if◌then◌else◌}
use almanak_keeperhub.Prelude.Int.{pos}
use almanak_keeperhub.Python.Text.{is_text, show, take, join}
use almanak_keeperhub.Python.Json.{
  Value, Dict, bool, num, arr, obj, nil, empty, entry, get, find, dicts, update as merge,
}
use almanak_keeperhub.Errors.{Result, ok, err, value_error, runtime_error, attribute_error}
use almanak_keeperhub.Effects.{Request, Response, Action, patch, pure, raise, lift, http, ◌>>=◌}
use almanak_keeperhub.Client.Answers.{or_value}
use almanak_keeperhub.Client.Methods.{get_request, post_request}
use almanak_keeperhub.Keeper.{fields}

-- `response.json() if response.content else {}`
unfoldable pub content : Response → Result Value
content r =
    if is_text r.text
    then elim r.body [ none ↦ err (value_error "Expecting value") | some v ↦ ok v ]
    else ok (obj empty)

-- `RuntimeError(f"{what} failed (HTTP {status}): {text}")`
unfoldable pub failed : {A : Type 0} → String → Response → String → Action A
failed what r text =
    raise (runtime_error (join (what ∷ " failed (HTTP " ∷ show r.status_code ∷ "): " ∷ text ∷ [])))

-- The content of an answer below 400.
unfoldable pub content_or : String → ℕ → Response → Action Value
content_or what limit r =
    if leb 400 r.status_code then failed what r (take limit r.text) else lift (content r)

unfoldable pub deploy : Dict → Action Value
deploy workflow = do
  r ← http (post_request "/api/workflows/create" none workflow)
  content_or "create" 400 r

abbrev patch_request : String → Dict → Request
patch_request path body = record {
  method = patch;
  path = path;
  idempotency_key = none;
  body = some body;
}

abbrev pub workflow_path : String → String
workflow_path workflow_id = join ("/api/workflows/" ∷ workflow_id ∷ [])

unfoldable pub set_enabled : String → Bool → Action Value
set_enabled workflow_id enabled = do
  r ← http (patch_request (workflow_path workflow_id) (entry "enabled" (bool enabled) empty))
  content_or "update" 400 r

-- The verdict inside an answer: under `result` if that is a dict, or the answer itself, or `{}`.
unfoldable pub verdict_in : Value → Value
verdict_in payload = or_value (unwrapped payload) (obj empty)
  where
    inner : Value → Value → Value
    inner payload (obj d) = obj d
    inner payload v = payload

    unwrapped : Value → Value
    unwrapped (obj d) = inner (obj d) (get "result" d)
    unwrapped v = v

-- `{"valid": ..., "errors": ..., "warnings": ..., **result}`; only a dict has `get`.
unfoldable pub verdict_fields : Value → Result Dict
verdict_fields (obj d) = ok (
    merge
      (fields (
        ("valid", get "valid" d)
        ∷ ("errors", or_value (get "errors" d) (arr nil))
        ∷ ("warnings", or_value (get "warnings" d) (arr nil))
        ∷ []))
      d)
verdict_fields v = err (attribute_error "object has no attribute 'get'")

unfoldable pub validate_remote : String → Action Dict
unfolding verdict_in
validate_remote workflow_id = do
  r ← http (get_request (join (workflow_path workflow_id ∷ "/validate?deepCheck=true" ∷ [])))
  payload ← lift (content r)
  if leb 400 r.status_code
      then pure (fields (("status", num (pos r.status_code)) ∷ ("error", payload) ∷ []))
      else lift (verdict_fields (verdict_in payload))

rows_of : Value → List Dict
rows_of (arr vs) = dicts vs
rows_of v = []

-- The dicts of the list under a key, or of the answer itself.
unfoldable pub rows_under : String → Value → List Dict
unfolding rows_of
rows_under key (obj d) = elim (find key d) [ none ↦ [] | some v ↦ rows_of v ]
rows_under key v = rows_of v

unfoldable pub executions : String → ℕ → Action (List Dict)
executions workflow_id limit = do
  r ← http (get_request (join (workflow_path workflow_id ∷ "/executions?limit=" ∷ show limit ∷ [])))
  payload ← content_or "executions" 300 r
  pure (rows_under "executions" payload)

unfoldable pub list_workflows : Action (List Dict)
list_workflows = do
  r ← http (get_request "/api/workflows?limit=50")
  payload ← content_or "list" 300 r
  pure (rows_under "workflows" payload)
