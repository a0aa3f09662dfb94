-- ===== src/ExitWorkflow/Reported.antt =====
-- exit_workflow.py: what `guard_outcome` says is so in what KeeperHub reported.
use mathlib.Core.List.{Memᴰ}
use mathlib.Core.List.Memᴰ
use almanak_keeperhub.Prelude.{
  String, ◌≡◌, refl, sym, ◌∙◌, ap, inl, inr, Bool, true, false, not, ◌&&◌, ◌||◌, Option, none, some,
  List, [], ◌∷◌, ◌++◌, any, str_eq, arith, eq_iff, if◌then◌else◌, is_some, Bool-cases,
}
use almanak_keeperhub.Python.Text.{join}
use almanak_keeperhub.Python.Json.{
  dicts, null, bool, num, Value, Items, Dict, str, arr, obj, nil, cons, empty, entry, truthy, find,
  get, put, text_of, find-put,
}
use almanak_keeperhub.Errors.{ok, ok-steps, ◌>>=◌}
use almanak_keeperhub.Keeper.Params.{iterated}
use almanak_keeperhub.Client.Answers.{or_value}
use almanak_keeperhub.Keeper.Run.{RunResult, dict_of}
use almanak_keeperhub.ExitWorkflow.Outcome.{
  GuardOutcome, report, line, with_line, ordered_lines, other_lines, node_order, has_redeem,
  reached_redeem, is_completed, guard_fields, guard_outcome,
}

module _ (show_value : Value → String) where
  -- The report is about the node.
  abbrev pub names : String → Dict → Bool
  names node n = truthy (get "nodeId" n) && str_eq (show_value (get "nodeId" n)) node

  -- The node's status: that of its last report.
  abbrev pub last_status : String → List Dict → Option String
  last_status node [] = none
  last_status node (n ∷ ns) = elim (last_status node ns) [
    | some s ↦ some s
    | none ↦ if names node n then some (show_value (or_value (get "status" n) (str ""))) else none
  ]

  abbrev or_found : Option String → Option Value → Option Value
  or_found none v = v
  or_found (some s) v = some (str s)

  abbrev own_status : Dict → String
  own_status n = show_value (or_value (get "status" n) (str ""))

  one_report :
      (node : String) (known own : Bool) (id : String) (status : String) (d : Dict)
      → own ≡ (known && str_eq id node)
      → find node (if known then put id (str status) d else d)
        ≡ or_found (if own then some status else none) (find node d)
  one_report node true own id status d e = ground (arith, find-put id node (str status) d)
  one_report node false own id status d e = rw e refl

  later_first :
      (later own : Option String) (v w : Option Value)
      → v ≡ or_found own w
      → or_found later v ≡ or_found (elim later [ some s ↦ some s | none ↦ own ]) w
  later_first none own v w e = e
  later_first (some s) own v w e = refl

  report-last :
      (node : String) (ns : List Dict) (d : Dict)
      → find node (report show_value ns d) ≡ or_found (last_status node ns) (find node d)
  unfolding report
  report-last node [] d = refl
  report-last node (n ∷ ns) d =
      report-last node ns _
      ∙ later_first (last_status node ns) _ _ (find node d)
          (one_report node (truthy (get "nodeId" n)) (names node n) _ (own_status n) d refl)

  -- Whether KeeperHub reported the node.
  abbrev pub is_reported : String → List Dict → Bool
  is_reported node ns = is_some (last_status node ns)

with_line-keeps :
    {l : String} (node : String) (status : Option Value) (lines : List String)
    → Memᴰ l lines
    → Memᴰ l (with_line node status lines)
with_line-keeps node none lines m = m
with_line-keeps node (some status) lines m = Memᴰ.tail m

-- Each reported node has its line among those of its list.
ordered_lines-has :
    (node : String) (nodes : List String) (d : Dict) (v : Value)
    → any (str_eq node) nodes ≡ true
    → find node d ≡ some v
    → Memᴰ (line node v) (ordered_lines nodes d)
unfolding ordered_lines
ordered_lines-has node (k ∷ ks) d v among found = elim (Bool-cases (str_eq node k)) [
  | inl e ↦ let same = (eq_iff node k).0 e in rw (sym same) (rw found (Memᴰ.head refl))
  | inr e ↦
      with_line-keeps k (find k d) _
        (ordered_lines-has node ks d v (ground (arith, among, e)) found)
]
ordered_lines-has node [] d v among found = absurd (ground arith)

module _ {l : String} (lines : List String) where
  skipped : (k : String) (b : Bool) → Memᴰ l lines → Memᴰ l (if b then lines else k ∷ lines)
  skipped k true m = m
  skipped k false m = Memᴰ.tail m

  shown : (b : Bool) → b ≡ false → Memᴰ l (if b then lines else l ∷ lines)
  shown true e = absurd (ground arith)
  shown false e = Memᴰ.head refl

other_lines-has :
    (node : String) (d : Dict) (v : Value)
    → any (str_eq node) node_order ≡ false
    → find node d ≡ some v
    → Memᴰ (line node v) (other_lines d)
unfolding other_lines find
other_lines-has node empty v among found = absurd (ground arith)
other_lines-has node (entry k w d) v among found = elim (Bool-cases (str_eq k node)) [
  | inl e ↦
      let same : k ≡ node = (eq_iff k node).0 e in
      let this : w ≡ v = ground (arith, found, e) in
      rw same (rw this (shown (other_lines d) (any (str_eq node) node_order) among))
  | inr e ↦
      skipped (other_lines d) (line k w) (any (str_eq k) node_order)
        (other_lines-has node d v among (ground (arith, found, e)))
]

module _ (show_value : Value → String) where
  -- A transaction of the redeem among those that KeeperHub lists.
  abbrev pub is_redeem : Dict → Bool
  is_redeem tx = str_eq (show_value (get "nodeId" tx)) "redeem"

  abbrev pub sent_redeem : Value → Bool
  sent_redeem (arr vs) = any is_redeem (dicts vs)
  sent_redeem v = false

  has_redeem-any :
      (vs : Items) (b : Bool) → has_redeem show_value vs ≡ ok b → b ≡ any is_redeem (dicts vs)
  unfolding has_redeem dicts
  has_redeem-any nil b e = ground arith
  has_redeem-any (cons (obj tx) rest) b e = elim (Bool-cases (is_redeem tx)) [
    | inl this ↦ ground (arith, e, this)
    | inr other ↦ rw other (has_redeem-any rest b (ground (arith, e, other)))
  ]
  has_redeem-any (cons v rest) b e = absurd (ground arith)

  iterated-sent :
      (hashes : Value) (b : Bool)
      → (iterated hashes >>= has_redeem show_value) ≡ ok b
      → b ≡ sent_redeem hashes
  unfolding iterated has_redeem
  iterated-sent (arr vs) b e = has_redeem-any vs b e
  iterated-sent (str String.[]) b e = ground arith
  iterated-sent (str (String.◌∷◌ c s)) b e = absurd (ground arith)
  iterated-sent (obj empty) b e = ground arith
  iterated-sent (obj (entry k v d)) b e = absurd (ground arith)
  iterated-sent null b e = absurd (ground arith)
  iterated-sent (bool flag) b e = absurd (ground arith)
  iterated-sent (num n) b e = absurd (ground arith)

  reached_redeem-known :
      (reported : Dict) (hashes : Value) (b : Bool)
      → reached_redeem show_value reported hashes ≡ ok b
      → b ≡ (is_some (find "redeem" reported) || sent_redeem hashes)
  unfolding reached_redeem
  reached_redeem-known reported hashes b e = elim (Bool-cases (is_some (find "redeem" reported))) [
    | inl found ↦ ground (arith, e, found)
    | inr missing ↦ rw missing (iterated-sent hashes b (ground (arith, e, missing)))
  ]

-- What the outcome says, by what KeeperHub reported of the nodes and the transactions.
pub record IsFaithful (show_value : Value → String) (r : RunResult) (o : GuardOutcome)
    : Type 0 where
  pub status : o.status ≡ show_value (or_value r.status (str ""))
  pub transactions : o.transactions ≡ or_value r.transaction_hashes (arr nil)
  pub executed : o.executed ≡ (
      (is_reported show_value "redeem" r.node_statuses || sent_redeem show_value o.transactions)
      && (is_completed o.status && truthy o.transactions))
  pub stopped : o.stopped_at_gate ≡ (
      not (is_reported show_value "redeem" r.node_statuses || sent_redeem show_value o.transactions)
      && (is_completed o.status && is_reported show_value "gate" r.node_statuses))
  pub traced :
      (node status : String)
      → last_status show_value node r.node_statuses ≡ some status
      → Memᴰ (join (node ∷ ":" ∷ status ∷ [])) o.trace

found-reported :
    (show_value : Value → String) (node : String) (ns : List Dict)
    → is_some (find node (report show_value ns empty)) ≡ is_reported show_value node ns
unfolding find
found-reported show_value node ns =
    ap is_some (report-last show_value node ns empty) ∙ same (last_status show_value node ns)
  where
    same : (s : Option String) → is_some (or_found show_value s none) ≡ is_some s
    same none = refl
    same (some s) = refl

trace-has :
    (show_value : Value → String) (ns : List Dict) (node status : String)
    → last_status show_value node ns ≡ some status
    → let reported = report show_value ns empty in
      Memᴰ (line node (str status)) (ordered_lines node_order reported ++ other_lines reported)
trace-has show_value ns node status last =
    let reported = report show_value ns empty in
    let found : find node reported ≡ some (str status) =
      report-last show_value node ns empty ∙ rw last refl in
    elim (Bool-cases (any (str_eq node) node_order)) [
      | inl e ↦ Memᴰ.append_left _ (ordered_lines-has node node_order reported (str status) e found)
      | inr e ↦
          Memᴰ.append_right (ordered_lines node_order reported)
            (other_lines-has node reported (str status) e found)
    ]

guard_fields-IsFaithful :
    (show_value : Value → String) (r : RunResult) (hashes : Value) (reached : Bool)
    (progress : Dict)
    → reached_redeem show_value (report show_value r.node_statuses empty) hashes ≡ ok reached
    → hashes ≡ or_value r.transaction_hashes (arr nil)
    → IsFaithful show_value r (
        guard_fields show_value r (report show_value r.node_statuses empty) hashes reached progress)
unfolding guard_fields
guard_fields-IsFaithful show_value r hashes reached progress e of =
    let known : reached
        ≡ (is_reported show_value "redeem" r.node_statuses || sent_redeem show_value hashes) =
      reached_redeem-known show_value _ hashes reached e
      ∙ ap (λ b. b || sent_redeem show_value hashes)
          (found-reported show_value "redeem" r.node_statuses) in
    record {
      status = refl;
      transactions = of;
      executed = rw known refl;
      stopped = rw known (rw (found-reported show_value "gate" r.node_statuses) refl);
      traced = λ node status last. trace-has show_value r.node_statuses node status last;
    }

-- What guard_outcome says of a run: its status and its transactions are those of the run; executed
-- exactly if the run is completed, has transactions, and KeeperHub reports the redeem node or a
-- transaction of it; stopped at the gate exactly if it is completed and KeeperHub reports the gate
-- but neither of those; and the trace has a line for each node that KeeperHub reports, with the
-- status of its last report.
pub guard_outcome-IsFaithful :
    (repr : Value → String) (r : RunResult) (o : GuardOutcome)
    → guard_outcome repr r ≡ ok o
    → IsFaithful (text_of repr) r o
unfolding guard_outcome
guard_outcome-IsFaithful repr r o e =
    let (reached, known, rest) = ok-steps (reached_redeem _ _ _) _ e in
    let (progress, read, last) = ok-steps (dict_of _) _ rest in
    let this : o ≡ guard_fields (text_of repr) r _ _ reached progress = ground (arith, last) in
    rw this (guard_fields-IsFaithful (text_of repr) r _ reached progress known refl)
