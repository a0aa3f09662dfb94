-- ===== src/Keeper/Compounder.antt =====
-- keeper.py: `build_compounder_workflow`.
use almanak_keeperhub.Prelude.{ℕ, String, false, Option, [], ◌∷◌}
use almanak_keeperhub.Python.Text.{show, join}
use almanak_keeperhub.Python.Json.{Value, Dict, bool, str, arr, obj}
use almanak_keeperhub.Keeper.{
  fields, values, ref, node, rule, edge, true_edge, token_config, protocol_meta, shortened, name_or,
}

-- The arguments of the builder; those with a default in the source have to be given.
pub record Compounder : Type 0 where
  pub vault : String
  pub token : String
  pub token_symbol : String
  pub chain_id : ℕ
  pub wallet : String
  pub min_amount : String
  pub max_amount : String
  pub cron : String
  pub name : Option String

unfoldable pub balance_label : Compounder → String
balance_label c = join ("Idle " ∷ c.token_symbol ∷ [])

-- The references `human` and `raw` to the balance that was read.
unfoldable pub human : Compounder → String
unfolding balance_label
human c = ref "balance" (balance_label c) "balance.balance"

unfoldable pub raw : Compounder → String
unfolding balance_label
raw c = ref "balance" (balance_label c) "balance.balanceRaw"

schedule_node : Compounder → Value
schedule_node c = node "trigger" "trigger" "Compound schedule" (
    ("triggerType", str "Schedule")
    ∷ ("scheduleCron", str c.cron)
    ∷ ("scheduleTimezone", str "UTC")
    ∷ [])

balance_node : Compounder → Value
balance_node c = node "balance" "action" (balance_label c) (
    ("actionType", str "web3/check-token-balance")
    ∷ ("network", str (show c.chain_id))
    ∷ ("address", str c.wallet)
    ∷ ("tokenConfig", str (token_config c.token c.token_symbol))
    ∷ [])

window_node : Compounder → Value
window_node c =
    node "gate" "action"
      (join ("Between " ∷ c.min_amount ∷ " and " ∷ c.max_amount ∷ " " ∷ c.token_symbol ∷ []))
      (("actionType", str "Condition")
        ∷ (
          "condition",
          str (
              join
                (human c ∷ " >= " ∷ c.min_amount ∷ " && " ∷ human c ∷ " <= " ∷ c.max_amount ∷ [])),
        )
        ∷ (
          "conditionConfig",
          obj (
              fields (
                (
                  "group",
                  obj (
                      fields (
                        ("id", str "window")
                        ∷ ("logic", str "AND")
                        ∷ (
                          "rules",
                          arr (
                              values (
                                rule "at-least-min" ">=" (human c) c.min_amount
                                ∷ rule "at-most-max" "<=" (human c) c.max_amount
                                ∷ [])),
                        )
                        ∷ [])),
                )
                ∷ [])),
        )
        ∷ [])

approve_node : Compounder → Value
approve_node c =
    node "approve" "action" (join ("Approve " ∷ c.token_symbol ∷ " for the vault" ∷ [])) (
      ("actionType", str "web3/approve-token")
      ∷ ("network", str (show c.chain_id))
      ∷ ("tokenConfig", str (token_config c.token c.token_symbol))
      ∷ ("spenderAddress", str c.vault)
      ∷ ("amount", str (human c))
      ∷ [])

deposit_node : Compounder → Value
deposit_node c = node "deposit" "action" "Deposit into the vault" (
    ("actionType", str "morpho/vault-deposit")
    ∷ ("network", str (show c.chain_id))
    ∷ ("contractAddress", str c.vault)
    ∷ ("assets", str (raw c))
    ∷ ("receiver", str c.wallet)
    ∷ ("_protocolMeta", str (protocol_meta "deposit"))
    ∷ [])

compounder_name : Compounder → String
compounder_name c =
    join ("almanak-keeperhub compounder (" ∷ c.token_symbol ∷ " -> " ∷ shortened c.vault ∷ ")" ∷ [])

compounder_description : Compounder → String
compounder_description c = join (
    "Every tick of `" ∷ c.cron ∷ "`: read idle " ∷ c.token_symbol ∷ " of " ∷ c.wallet
    ∷ "; if between " ∷ c.min_amount ∷ " and " ∷ c.max_amount
    ∷ ", approve and deposit it into vault " ∷ c.vault
    ∷ ". Larger balances are left for the Almanak strategy to size. Generated by almanak-keeperhub."
    ∷ [])

unfoldable pub build_compounder_workflow : Compounder → Dict
unfolding schedule_node balance_node window_node approve_node deposit_node compounder_name
    compounder_description
build_compounder_workflow c = fields (
    ("name", str (name_or c.name (compounder_name c)))
    ∷ ("description", str (compounder_description c))
    ∷ (
      "nodes",
      arr (
          values (
            schedule_node c
            ∷ balance_node c
            ∷ window_node c
            ∷ approve_node c
            ∷ deposit_node c
            ∷ [])),
    )
    ∷ (
      "edges",
      arr (
          values (
            edge "trigger->balance" "trigger" "balance"
            ∷ edge "balance->gate" "balance" "gate"
            ∷ true_edge "gate->approve" "gate" "approve"
            ∷ edge "approve->deposit" "approve" "deposit"
            ∷ [])),
    )
    ∷ ("enabled", bool false)
    ∷ [])
