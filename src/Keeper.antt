-- ===== src/Keeper.antt =====
-- keeper.py: the workflow that KeeperHub runs between the ticks of the strategy. A workflow is the
-- JSON document that is posted.
pub mod Compounder
pub mod Remote
pub mod Run
pub mod Params
pub mod Sourced
pub mod Gated
pub mod Window
pub mod Endings
pub mod Finished
pub mod Tests
use almanak_keeperhub.Prelude.{◌-◌, String, Option, none, some, List, [], ◌∷◌, if◌then◌else◌}
use almanak_keeperhub.Python.Text.{is_text, take, drop, length, join}
use almanak_keeperhub.Python.Json.{Value, Items, Dict, str, obj, nil, cons, empty, entry}
use almanak_keeperhub.Python.Dumps.{dumps}

-- A dict and a list as they are written in the source.
abbrev pub fields : List (String × Value) → Dict
fields [] = empty
fields ((k, v) ∷ rest) = entry k v (fields rest)

abbrev pub values : List Value → Items
values [] = nil
values (v ∷ rest) = cons v (values rest)

-- `_ref`
unfoldable pub ref : String → String → String → String
ref node_id label name = join ("{{@" ∷ node_id ∷ ":" ∷ label ∷ "." ∷ name ∷ "}}" ∷ [])

abbrev pub node : String → String → String → List (String × Value) → Value
node id kind label config = obj (
    fields (
      ("id", str id)
      ∷ ("type", str kind)
      ∷ (
        "data",
        obj (
            fields
              (("type", str kind) ∷ ("label", str label) ∷ ("config", obj (fields config)) ∷ [])),
      )
      ∷ []))

-- One of the rules of a condition.
abbrev pub rule : String → String → String → String → Value
rule id operator left right = obj (
    fields (
      ("id", str id)
      ∷ ("operator", str operator)
      ∷ ("leftOperand", str left)
      ∷ ("rightOperand", str right)
      ∷ []))

-- An edge, and an edge that is taken if the condition at its source holds.
abbrev pub edge : String → String → String → Value
edge id source target =
    obj (fields (("id", str id) ∷ ("source", str source) ∷ ("target", str target) ∷ []))

abbrev pub true_edge : String → String → String → Value
true_edge id source target = obj (
    fields (
      ("id", str id)
      ∷ ("source", str source)
      ∷ ("target", str target)
      ∷ ("sourceHandle", str "true")
      ∷ []))

-- The text of `tokenConfig`.
unfoldable pub token_config : String → String → String
token_config address symbol = dumps (
    obj (
      fields (
        ("mode", str "custom")
        ∷ ("customToken", obj (fields (("address", str address) ∷ ("symbol", str symbol) ∷ [])))
        ∷ [])))

-- The text of `_protocolMeta`.
unfoldable pub protocol_meta : String → String
protocol_meta function_name = dumps (
    obj (
      fields (
        ("protocolSlug", str "morpho")
        ∷ ("contractKey", str "vault")
        ∷ ("functionName", str function_name)
        ∷ ("actionType", str "write")
        ∷ [])))

-- `{address[:6]}...{address[-4:]}`
unfoldable pub shortened : String → String
shortened address = join (take 6 address ∷ "..." ∷ drop (length address - 4) address ∷ [])

-- `name or default`
unfoldable pub name_or : Option String → String → String
name_or none default = default
name_or (some name) default = if is_text name then name else default
