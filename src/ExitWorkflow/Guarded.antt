-- ===== src/ExitWorkflow/Guarded.antt =====
-- exit_workflow.py: the redeem runs behind the condition only.
use mathlib.Core.List.Memᴰ
use almanak_keeperhub.Prelude.{String, ◌≡◌, ◌⊎◌, true, false, [], ◌∷◌}
use almanak_keeperhub.Python.Json.{Dict, str, get}
use almanak_keeperhub.Python.Text.{join}
use almanak_keeperhub.Keeper.{token_config}
use almanak_keeperhub.Keeper.Gated.{Runs, config_of, comparisons, output_of, logic}
use almanak_keeperhub.ExitWorkflow.{ExitGuard}

abbrev pub IsBefore : String → Type 0
IsBefore n = (n ≡ "trigger") ⊎ (n ≡ "shares") ⊎ (n ≡ "gate")

pub record IsGuarded (e : ExitGuard) (workflow : Dict) : Type 0 where
  pub closed : (n : String) → Runs workflow false n → IsBefore n
  pub opened : Runs workflow true "redeem"
  -- The balance that was read is compared with the very number of shares that is redeemed.
  pub covered :
      comparisons workflow
      ≡ (
        str ">=",
        str (output_of "shares" "balance.balanceRaw" workflow),
        get "shares" (config_of "redeem" workflow),
      )
        ∷ []
  pub joined : logic workflow ≡ str "AND"
  pub decision :
      get "shares" (config_of "redeem" workflow) ≡ str (output_of "trigger" "shares" workflow)
  pub text :
      get "condition" (config_of "gate" workflow)
      ≡ str (
          join (
            output_of "shares" "balance.balanceRaw" workflow
            ∷ " >= "
            ∷ output_of "trigger" "shares" workflow
            ∷ []))
  pub actions :
      (get "actionType" (config_of "shares" workflow) ≡ str "web3/check-token-balance")
      × (get "actionType" (config_of "redeem" workflow) ≡ str "morpho/vault-redeem")
  pub holder :
      (get "owner" (config_of "redeem" workflow) ≡ get "address" (config_of "shares" workflow))
      × (get "receiver" (config_of "redeem" workflow) ≡ get "address" (config_of "shares" workflow))
  pub vault :
      (get "contractAddress" (config_of "redeem" workflow) ≡ str e.vault)
      × (get "tokenConfig" (config_of "shares" workflow)
          ≡ str (token_config e.vault e.share_symbol))
