-- ===== src/ExitWorkflow/Outcome.antt =====
-- exit_workflow.py: `guard_outcome`, of what `run_now` returns.
use almanak_keeperhub.Prelude.{
  ℕ, ◌+◌, String, Bool, true, false, not, ◌&&◌, ◌||◌, Option, none, some, List, [], ◌∷◌, ◌++◌, any,
  str_eq, is_some, if◌then◌else◌,
}
use almanak_keeperhub.Prelude.Int.{pos}
use almanak_keeperhub.Python.Text.{join}
use almanak_keeperhub.Python.Json.{
  Value, Items, Dict, num, str, arr, obj, nil, cons, empty, entry, truthy, find, get, get_default,
  put, text_of,
}
use almanak_keeperhub.Errors.{Result, ok, err, attribute_error, ◌>>=◌}
use almanak_keeperhub.Client.Answers.{or_value}
use almanak_keeperhub.Keeper.Params.{iterated}
use almanak_keeperhub.Keeper.Run.{RunResult, dict_of}

pub record GuardOutcome : Type 0 where
  pub executed : Bool
  pub stopped_at_gate : Bool
  pub status : String
  pub trace : List String
  pub steps : String
  pub transactions : Value
  pub error : Value

abbrev pub node_order : List String
node_order = "trigger" ∷ "shares" ∷ "gate" ∷ "redeem" ∷ []

-- The comprehension that makes `reported`, from the entries so far: a status by node.
unfoldable pub report : (Value → String) → List Dict → Dict → Dict
report show_value [] reported = reported
report show_value (n ∷ ns) reported = report show_value ns (
    if truthy (get "nodeId" n)
    then put (show_value (get "nodeId" n)) (str (show_value (or_value (get "status" n) (str ""))))
        reported
    else reported)

-- `f"{node}:{status}"`; what `reported` holds is a text.
abbrev pub line : String → Value → String
line node (str status) = join (node ∷ ":" ∷ status ∷ [])
line node v = node

abbrev pub with_line : String → Option Value → List String → List String
with_line node none lines = lines
with_line node (some status) lines = line node status ∷ lines

-- The lines of the nodes of a list that were reported.
unfoldable pub ordered_lines : List String → Dict → List String
ordered_lines [] reported = []
ordered_lines (node ∷ nodes) reported =
    with_line node (find node reported) (ordered_lines nodes reported)

-- The lines of the nodes that are not in `NODE_ORDER`.
unfoldable pub other_lines : Dict → List String
other_lines empty = []
other_lines (entry node status rest) =
    let lines = other_lines rest in
    if any (str_eq node) node_order then lines else line node status ∷ lines

size : Dict → ℕ
size empty = 0
size (entry k v d) = 1 + size d

-- `any(str(tx.get("nodeId")) == "redeem" for tx in hashes)`, which stops at the first that is.
unfoldable pub has_redeem : (Value → String) → Items → Result Bool
has_redeem show_value nil = ok false
has_redeem show_value (cons (obj tx) rest) =
    let later = has_redeem show_value rest in
    if str_eq (show_value (get "nodeId" tx)) "redeem" then ok true else later
has_redeem show_value (cons v rest) = err (attribute_error "object has no attribute 'get'")

unfoldable pub reached_redeem : (Value → String) → Dict → Value → Result Bool
reached_redeem show_value reported hashes =
    if is_some (find "redeem" reported)
    then ok true
    else (iterated hashes >>= has_redeem show_value)

unfoldable pub is_completed : String → Bool
is_completed status = str_eq status "success" || str_eq status "completed"

steps_text : (Value → String) → Dict → Dict → String
unfolding size
steps_text show_value reported progress = join (
    show_value (get_default "completedSteps" (num (pos (size reported))) progress)
    ∷ " of "
    ∷ show_value (get_default "totalSteps" (num (pos 4)) progress)
    ∷ [])

unfoldable pub guard_fields :
    (Value → String) → RunResult → Dict → Value → Bool → Dict → GuardOutcome
unfolding steps_text
guard_fields show_value r reported hashes reached progress =
    let status = show_value (or_value r.status (str "")) in
    record {
      executed = reached && (is_completed status && truthy hashes);
      stopped_at_gate = not reached && (is_completed status && is_some (find "gate" reported));
      status = status;
      trace = ordered_lines node_order reported ++ other_lines reported;
      steps = steps_text show_value reported progress;
      transactions = hashes;
      error = r.error;
    }

unfoldable pub guard_outcome : (Value → String) → RunResult → Result GuardOutcome
guard_outcome repr r =
    let show_value = text_of repr in
    let reported = report show_value r.node_statuses empty in
    let hashes = or_value r.transaction_hashes (arr nil) in
    reached_redeem show_value reported hashes >>= λ reached.
    dict_of (or_value r.progress (obj empty)) >>= λ progress.
    ok (guard_fields show_value r reported hashes reached progress)
