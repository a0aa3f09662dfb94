-- ===== src/ExitWorkflow.antt =====
-- exit_workflow.py: the guarded exit as a workflow of KeeperHub, and what a run of it says.
pub mod Guarded
pub mod Outcome
pub mod Reported
pub mod Tests
use almanak_keeperhub.Prelude.{
  ℕ, ◌+◌, String, Bool, true, false, not, ◌&&◌, ◌||◌, Option, none, some, List, [], ◌∷◌, ◌++◌, any,
  str_eq, map, is_some, if◌then◌else◌, get_or,
}
use almanak_keeperhub.Prelude.Int.{pos}
use almanak_keeperhub.Python.Text.{show, take, drop, length, join}
use almanak_keeperhub.Python.Json.{
  Value, Items, Dict, bool, num, str, arr, obj, nil, cons, empty, entry, truthy, find, get,
  get_default, put, text_of,
}
use almanak_keeperhub.Errors.{Result, ok, err, ◌>>=◌}
use almanak_keeperhub.Client.Answers.{or_value}
use almanak_keeperhub.Keeper.{
  fields, values, ref, node, rule, edge, true_edge, token_config, protocol_meta, shortened, name_or,
}

-- The arguments of `build_exit_guard_workflow`.
pub record ExitGuard : Type 0 where
  pub vault : String
  pub chain_id : ℕ
  pub wallet : String
  pub share_symbol : String
  pub name : Option String

unfoldable pub decided : String
decided = ref "trigger" "Exit decision" "shares"

unfoldable pub held_raw : String
held_raw = ref "shares" "Vault shares held" "balance.balanceRaw"

decision_node : Value
decision_node = node "trigger" "trigger" "Exit decision" (("triggerType", str "Manual") ∷ [])

shares_node : ExitGuard → Value
shares_node e = node "shares" "action" "Vault shares held" (
    ("actionType", str "web3/check-token-balance")
    ∷ ("network", str (show e.chain_id))
    ∷ ("address", str e.wallet)
    ∷ ("tokenConfig", str (token_config e.vault e.share_symbol))
    ∷ [])

guard_node : Value
guard_node = node "gate" "action" "Position still covers the decision" (
    ("actionType", str "Condition")
    ∷ ("condition", str (join (held_raw ∷ " >= " ∷ decided ∷ [])))
    ∷ (
      "conditionConfig",
      obj (
          fields (
            (
              "group",
              obj (
                  fields (
                    ("id", str "guard")
                    ∷ ("logic", str "AND")
                    ∷ ("rules", arr (values (rule "still-holds" ">=" held_raw decided ∷ [])))
                    ∷ [])),
            )
            ∷ [])),
    )
    ∷ [])

redeem_node : ExitGuard → Value
redeem_node e = node "redeem" "action" "Redeem through KeeperHub" (
    ("actionType", str "morpho/vault-redeem")
    ∷ ("network", str (show e.chain_id))
    ∷ ("contractAddress", str e.vault)
    ∷ ("shares", str decided)
    ∷ ("receiver", str e.wallet)
    ∷ ("owner", str e.wallet)
    ∷ ("_protocolMeta", str (protocol_meta "redeem"))
    ∷ [])

exit_name : ExitGuard → String
exit_name e = join ("almanak-keeperhub guarded exit (" ∷ shortened e.vault ∷ ")" ∷ [])

exit_description : ExitGuard → String
exit_description e = join (
    "Run with {\"input\": {\"shares\": N}}: read the vault shares " ∷ e.wallet ∷ " holds in "
    ∷ e.vault
    ∷ "; if they still cover N, redeem N to the wallet. A decision the position no longer covers stops at the Condition and broadcasts nothing. Generated by almanak-keeperhub."
    ∷ [])

unfoldable pub build_exit_guard_workflow : ExitGuard → Dict
unfolding decision_node shares_node guard_node redeem_node exit_name exit_description
build_exit_guard_workflow e = fields (
    ("name", str (name_or e.name (exit_name e)))
    ∷ ("description", str (exit_description e))
    ∷ ("nodes", arr (values (decision_node ∷ shares_node e ∷ guard_node ∷ redeem_node e ∷ [])))
    ∷ (
      "edges",
      arr (
          values (
            edge "trigger->shares" "trigger" "shares"
            ∷ edge "shares->gate" "shares" "gate"
            ∷ true_edge "gate->redeem" "gate" "redeem"
            ∷ [])),
    )
    ∷ ("enabled", bool false)
    ∷ [])
