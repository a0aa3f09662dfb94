-- ===== src/Keeper/Gated.antt =====
-- keeper.py and exit_workflow.py: what a workflow lets happen. Its nodes run from the trigger along
-- its edges, and an edge with the handle "true" is taken only if the condition at its source holds.
use mathlib.Core.List.{Memᴰ}
use mathlib.Core.List.Memᴰ
use almanak_keeperhub.Prelude.{
  String, ◌≡◌, inl, inr, Bool, true, some, List, [], ◌∷◌, All, map, if◌then◌else◌, get_or,
}
use almanak_keeperhub.Python.Text.{join}
use almanak_keeperhub.Python.Json.{Value, Dict, str, arr, empty, dicts, find, get, eq_str, as_dict}

-- The dicts in the list under a key.
abbrev pub listed : String → Dict → List Dict
listed key d = elim (get key d) [ arr vs ↦ dicts vs | _ ↦ [] ]

abbrev pub Joins : Dict → String → String → Type 0
Joins e n m = (find "source" e ≡ some (str n)) × (find "target" e ≡ some (str m))

abbrev pub IsOpen : Bool → Dict → Type 0
IsOpen holds e = find "sourceHandle" e ≡ some (str "true") → holds ≡ true

-- The nodes that run, given whether the condition holds.
pub data Runs (workflow : Dict) (holds : Bool) : String → Type 0 where
  start : Runs workflow holds "trigger"
  step :
      {n m : String} (e : Dict)
      → Runs workflow holds n
      → Memᴰ e (listed "edges" workflow)
      → Joins e n m
      → IsOpen holds e
      → Runs workflow holds m

module _ (P : String → Type 0) (holds : Bool) where
  -- An edge that is taken leads from a node with the property to one with it.
  abbrev pub Carries : Dict → Type 0
  Carries e = (n m : String) → Joins e n m → IsOpen holds e → P n → P m

  All-at : (l : List Dict) {e : Dict} → All Carries l → Memᴰ e l → Carries e
  All-at (x ∷ xs) {e} h m = elim (Memᴰ.cases_cons m) [
    | inl same ↦ rw same h.0
    | inr later ↦ All-at xs h.1 later
  ]
  All-at [] h m = absurd (Memᴰ.not-nil m)

  pub Runs-induction :
      (workflow : Dict) {n : String}
      → P "trigger"
      → All Carries (listed "edges" workflow)
      → Runs workflow holds n
      → P n
  Runs-induction workflow first edges start = first
  Runs-induction workflow first edges (step e r m j o) =
      All-at _ edges m _ _ j o (Runs-induction workflow first edges r)

abbrev pub under : String → Dict → Dict
under key d = get_or (as_dict (get key d)) empty

data_in : String → List Dict → Dict
data_in id [] = empty
data_in id (n ∷ ns) = if eq_str (get "id" n) id then under "data" n else data_in id ns

-- The data of a node, and its configuration.
unfoldable pub data_of : String → Dict → Dict
unfolding data_in
data_of id workflow = data_in id (listed "nodes" workflow)

unfoldable pub config_of : String → Dict → Dict
unfolding data_of
config_of id workflow = under "config" (data_of id workflow)

-- The text of a value that is one.
abbrev text_in : Value → String
text_in v = elim v [ str s ↦ s | _ ↦ "" ]

-- What KeeperHub puts the output of a node in the place of: the reference names the node and its
-- label as they stand in the workflow.
unfoldable pub output_of : String → String → Dict → String
unfolding data_of
output_of id name workflow =
    join ("{{@" ∷ id ∷ ":" ∷ text_in (get "label" (data_of id workflow)) ∷ "." ∷ name ∷ "}}" ∷ [])

-- How the comparisons of the condition are joined.
unfoldable pub logic : Dict → Value
unfolding config_of
logic workflow = get "logic" (under "group" (under "conditionConfig" (config_of "gate" workflow)))

-- The comparisons of the condition: operator, left and right.
unfoldable pub comparisons : Dict → List (Value × Value × Value)
unfolding config_of
comparisons workflow =
    map (λ r. (get "operator" r, get "leftOperand" r, get "rightOperand" r))
      (listed "rules" (under "group" (under "conditionConfig" (config_of "gate" workflow))))
