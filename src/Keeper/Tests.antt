-- ===== src/Keeper/Tests.antt =====
-- A compounder, a run on a server that ends it, and a configuration.
use almanak_keeperhub.Prelude.{
  ℕ, ◌+◌, String, ◌≡◌, refl, Option, none, some, [], ◌∷◌, str_eq, arith, if◌then◌else◌,
}
use almanak_keeperhub.Python.Json.{Dict, str, arr, obj, nil, cons, text_of, find}
use almanak_keeperhub.Errors.{ok}
use almanak_keeperhub.Effects.{response, Host, World, get, post, patch, missing}
use almanak_keeperhub.Keeper.{fields}
use almanak_keeperhub.Keeper.Compounder.{Compounder}
use almanak_keeperhub.Keeper.Run.{run_now, dict_of}
use almanak_keeperhub.Keeper.Endings.{Ended, Followed}
use almanak_keeperhub.Keeper.Finished.{run_now-Ended}
use almanak_keeperhub.Keeper.Params.{
  KeeperParams, known_token, iterated, is_funding, funded, token_for, with_vault, with_token,
  on_chain, keeper_params_from_config,
}
use almanak_keeperhub.Python.Text.{upper}
use almanak_keeperhub.Keeper.Sourced.{IsSourced, keeper_params_from_config-IsSourced}

abbrev compounder : Compounder
compounder = record {
  vault = "0xVaultVault";
  token = "0xToken";
  token_symbol = "USDC";
  chain_id = 84532;
  wallet = "0xWallet";
  min_amount = "1";
  max_amount = "90";
  cron = "0 */6 * * *";
  name = none;
}

abbrev started : Dict
started = fields (("executionId", str "run-1") ∷ [])

abbrev finished : Dict
finished = fields (("status", str "success") ∷ [])

abbrev host : Host
host = record {
  server = λ earlier r. response (record {
    status_code = 200;
    retry_after = none;
    poll_interval_hint = none;
    text = "{}";
    body = some (obj (elim r.method [ get ↦ finished | post ↦ started | patch ↦ started ]));
  });
  latency = λ earlier. 1;
  fetch_receipt = λ earlier hash. none;
  float_of = λ s. none;
  isoformat = λ now. "2026-01-01T00:00:00+00:00";
  sha256 = λ s. s;
  repr = λ v. "";
}

abbrev world : World
world = record {
  sent = [];
  clock = 0;
  file = missing;
  alerts = [];
  capabilities = record { raw_calldata = none; call_sequence = none };
  wallet_address = none;
  executions = [];
  tx_hashes = [];
}

run_now-Ended_example :
    let (r, w') = run_now "keeper" 300 started host world in
    Ended (λ result now. Followed host (0 + 300) result.status now) r w'.clock
run_now-Ended_example = run_now-Ended host "keeper" 300 started world (λ l. omega arith)

abbrev configuration : Dict
configuration = fields (
    ("chain", str "sepolia")
    ∷ ("vault_address", str "0xVault")
    ∷ (
      "token_funding",
      arr (cons (obj (fields (("symbol", str "usdc") ∷ ("address", str "0xToken") ∷ []))) nil),
    )
    ∷ [])

abbrev chains : String → Option ℕ
chains name = if str_eq name "sepolia" then some 11155111 else none

abbrev parameters : KeeperParams
parameters = record {
  vault = "0xVault";
  token = "0xToken";
  token_symbol = "USDC";
  chain_id = 11155111;
  chain_name = "sepolia";
}

configured : keeper_params_from_config chains (λ v. "") (obj configuration) ≡ ok parameters
unfolding keeper_params_from_config dict_of on_chain known_token token_for iterated funded
    is_funding with_token with_vault upper find text_of
configured = refl

keeper_params_from_config-IsSourced_example :
    IsSourced chains (text_of (λ v. "")) configuration parameters
keeper_params_from_config-IsSourced_example =
    keeper_params_from_config-IsSourced chains (λ v. "") configuration parameters configured
