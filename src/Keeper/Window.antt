-- ===== src/Keeper/Window.antt =====
-- keeper.py: the compounder moves nothing but a balance inside of its window.
use mathlib.Core.List.Memᴰ
use almanak_keeperhub.Prelude.{String, ◌≡◌, ◌⊎◌, true, false, [], ◌∷◌}
use almanak_keeperhub.Python.Text.{join}
use almanak_keeperhub.Python.Json.{Dict, str, get}
use almanak_keeperhub.Keeper.Compounder.{Compounder}
use almanak_keeperhub.Keeper.Gated.{Runs, config_of, comparisons, output_of, logic}

abbrev pub IsEarly : String → Type 0
IsEarly n = (n ≡ "trigger") ⊎ (n ≡ "balance") ⊎ (n ≡ "gate")

-- What makes a workflow safe to leave to KeeperHub.
pub record IsBounded (c : Compounder) (workflow : Dict) : Type 0 where
  -- Where the condition fails nothing runs behind it, and where it holds the deposit does run.
  pub closed : (n : String) → Runs workflow false n → IsEarly n
  pub opened : Runs workflow true "deposit"
  -- The condition bounds the very amount that is approved.
  pub window :
      comparisons workflow
      ≡ (str ">=", get "amount" (config_of "approve" workflow), str c.min_amount)
        ∷ (str "<=", get "amount" (config_of "approve" workflow), str c.max_amount)
        ∷ []
  pub joined : logic workflow ≡ str "AND"
  pub text :
      get "condition" (config_of "gate" workflow)
      ≡ str (
          join (
            output_of "balance" "balance.balance" workflow
            ∷ " >= "
            ∷ c.min_amount
            ∷ " && "
            ∷ output_of "balance" "balance.balance" workflow
            ∷ " <= "
            ∷ c.max_amount
            ∷ []))
  -- What is approved and what is deposited is the balance that was read.
  pub amount :
      get "amount" (config_of "approve" workflow)
      ≡ str (output_of "balance" "balance.balance" workflow)
  pub assets :
      get "assets" (config_of "deposit" workflow)
      ≡ str (output_of "balance" "balance.balanceRaw" workflow)
  -- The approval is for the contract of the deposit, which is for the wallet whose balance is read.
  pub spender :
      get "spenderAddress" (config_of "approve" workflow)
      ≡ get "contractAddress" (config_of "deposit" workflow)
  pub receiver :
      get "receiver" (config_of "deposit" workflow) ≡ get "address" (config_of "balance" workflow)
  pub token :
      get "tokenConfig" (config_of "approve" workflow)
      ≡ get "tokenConfig" (config_of "balance" workflow)
