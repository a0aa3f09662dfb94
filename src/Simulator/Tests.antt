-- ===== src/Simulator/Tests.antt =====
-- Dry runs on a server that answers a sequence, once it is asked a second time.
use almanak_keeperhub.Prelude.{true, none, some, List, [], ◌∷◌}
use almanak_keeperhub.Prelude.Int.{pos}
use almanak_keeperhub.Python.Json.{Value, Dict, bool, num, arr, obj, nil, cons, empty, entry}
use almanak_keeperhub.Effects.{response, transport_error, Host, World, missing}
use almanak_keeperhub.Effects.Asked.{Asked}
use almanak_keeperhub.Calldata.Tests.{toy_abi, toy_index}
use almanak_keeperhub.Signer.{UnsignedTransaction}
use almanak_keeperhub.Simulator.{simulate}
use almanak_keeperhub.Simulator.DryRun.{IsDryRun, simulate-dry}

abbrev estimate : Value
estimate = obj (entry "success" (bool true) (entry "gasEstimate" (num (pos 50_000)) empty))

abbrev answer : Dict
answer =
    entry "success" (bool true) (entry "results" (arr (cons estimate (cons estimate nil))) empty)

abbrev host : Host
host = record {
  server = λ earlier r. elim earlier [
    | [] ↦ transport_error "connection reset"
    | ◌∷◌ e es ↦ response (record {
      status_code = 200;
      retry_after = none;
      poll_interval_hint = none;
      text = "{}";
      body = some (obj answer);
    })
  ];
  latency = λ earlier. 1;
  fetch_receipt = λ earlier hash. none;
  float_of = λ s. none;
  isoformat = λ now. "2026-01-01T00:00:00+00:00";
  sha256 = λ s. s;
  repr = λ v. "";
}

abbrev start : World
start = record {
  sent = [];
  clock = 0;
  file = missing;
  alerts = [];
  capabilities = record { raw_calldata = none; call_sequence = none };
  wallet_address = none;
  executions = [];
  tx_hashes = [];
}

abbrev transaction : UnsignedTransaction
transaction = record {
  chain_id = 8453;
  to = some "0xVault";
  from_address = none;
  data_hex = some "0x60fe47b107";
  value = none;
  gas_limit = some (pos 90_000);
  nonce = some 4;
}

abbrev bundle : List UnsignedTransaction
bundle = transaction ∷ transaction ∷ []

simulate-dry_example : Asked IsDryRun start (simulate toy_abi toy_index bundle host start).1
simulate-dry_example = simulate-dry toy_abi toy_index host bundle start
