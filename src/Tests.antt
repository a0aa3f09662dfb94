-- ===== src/Tests.antt =====
-- Runs on a small server: it takes calldata, answers a broadcast with an execution and a hash, and
-- a status poll with a verified receipt.
use almanak_keeperhub.Prelude.{
  Option, ℕ, String, ◌≡◌, ◌⊎◌, refl, true, false, none, some, List, [], ◌∷◌, arith, if◌then◌else◌,
}
use almanak_keeperhub.Prelude.Int.{pos}
use almanak_keeperhub.Python.Text.{lower}
use almanak_keeperhub.Python.Json.{
  dicts, Dict, bool, num, str, arr, obj, nil, cons, empty, entry, find, text_of,
}
use almanak_keeperhub.Errors.{ok}
use almanak_keeperhub.Effects.{
  Response, Reply, response, transport_error, get, post, patch, Host, World, missing, garbled,
  document, pending, ExecutionEnvelope, continue, pure, asks, gets, lift, ◌>>=◌,
}
use almanak_keeperhub.Effects.Asked.{Asked}
use almanak_keeperhub.Effects.Frame.{Outcome, Anything, Ends}
use almanak_keeperhub.Effects.Triple.{Left}
use almanak_keeperhub.Client.Calls.{ContractCall, wei_to_ether_string}
use almanak_keeperhub.Client.Answers.{raise_for_status}
use almanak_keeperhub.Client.Methods.{
  post_call, execute_contract_call, simulate_contract_call, simulate_call_sequence,
  check_and_execute, present,
}
use almanak_keeperhub.Client.Polling.{wait_for_terminal, poll_interval}
use almanak_keeperhub.Client.Ends.{IsClientError, post_call-Ends}
use almanak_keeperhub.Client.Deadline.{Concludes, wait_for_terminal-Concludes}
use almanak_keeperhub.Client.Kinds.{Classified, raise_for_status-Classified}
use almanak_keeperhub.Client.Ether.{wei_of, wei_to_ether_string-exact}
use almanak_keeperhub.Client.Latch.{Remembers, raw_calldata-Remembers}
use almanak_keeperhub.Receipts.{
  parse, read, find_by_hash, find_last, has_hash, record_execution, record_simulation, update,
  execution_entry,
}
use almanak_keeperhub.Receipts.Lookup.{
  IsRefused, FoundSettled, garbled-IsRefused, record_execution-find_by_hash, update-find_by_hash,
}
use almanak_keeperhub.Submitter.Types.{Settings, SignedTransaction, prepared}
use almanak_keeperhub.Submitter.Settle.{execution_for, get_receipt}
use almanak_keeperhub.Submitter.Submit.{keep_hash, submit}
use almanak_keeperhub.Submitter.Total.{IsDecided, TakesTime}
use almanak_keeperhub.Submitter.Bundle.{Reports, submit-Reports}
use almanak_keeperhub.Submitter.Keys.{IsPoll, IsAttempt, submit-keys}
use almanak_keeperhub.Submitter.Kept.{AllKept, submit-logged}
use almanak_keeperhub.Submitter.Resume.{IsPending, restarted, keep_hash-execution_for}
use almanak_keeperhub.Submitter.Verdict.{Settled, get_receipt-Supported}
use almanak_keeperhub.GuardedExit.{GuardedExit, run_guarded_exit}
use almanak_keeperhub.GuardedExit.Outcome.{
  IsGuarded, own_key, Accounted, run_guarded_exit-keys, run_guarded_exit-Accounted,
}

abbrev accepted : Dict
accepted = entry "executionId" (str "exec-1") (
    entry "status" (str "running")
      (entry "transactionHash" (str "0xAB") (entry "executed" (bool true) empty)))

abbrev completed : Dict
completed = entry "executionId" (str "exec-1") (
    entry "status" (str "completed") (
      entry "transactionHash" (str "0xAB") (
        entry "receipts"
          (arr (
            cons
              (obj (
                entry "hash" (str "0xab") (
                  entry "verified" (bool true) (
                    entry "receiptStatus" (str "success")
                      (entry "blockNumber" (num (pos 7)) empty)))))
              nil))
          empty)))

abbrev answer_with : ℕ → Dict → Reply
answer_with code payload = response (record {
  status_code = code;
  retry_after = none;
  poll_interval_hint = none;
  text = "{}";
  body = some (obj payload);
})

abbrev host : Host
host = record {
  server = λ earlier r. elim r.method [
    | get ↦ answer_with 200 completed
    | post ↦ answer_with 202 accepted
    | patch ↦ transport_error "no route"
  ];
  latency = λ earlier. 1;
  fetch_receipt = λ earlier hash. none;
  float_of = λ s. none;
  isoformat = λ now. "2026-01-01T00:00:00+00:00";
  sha256 = λ s. s;
  repr = λ v. "";
}

abbrev start : World
start = record {
  sent = [];
  clock = 0;
  file = missing;
  alerts = [];
  capabilities = record { raw_calldata = some true; call_sequence = none };
  wallet_address = none;
  executions = [];
  tx_hashes = [];
}

abbrev deposit : ContractCall
deposit = record {
  contract_address = "0xVault";
  chain_id = 8453;
  function_name = "deposit";
  function_args = cons (str "1000") (cons (str "0xWallet") nil);
  abi = nil;
  value_wei = 0;
  data_hex = some "0x6e553f65";
}

abbrev bundle : List SignedTransaction
bundle =
    prepared (record deposit { function_name = "approve" }) "key-1" ∷ prepared deposit "key-2" ∷ []

abbrev settings : Settings
settings = record {
  confirmation_timeout = 60_000_000;
  max_retries = 3;
  receipts_path = "receipts.json";
}

abbrev envelope : ExecutionEnvelope
envelope = record {
  execution_id = "exec-1";
  status = "running";
  transaction_hash = some "0xAB";
  transaction_link = none;
  error = none;
  idempotent_replay = false;
  raw = accepted;
}

abbrev fields : Dict
fields = entry "tx_hash" (str "0xAB") empty

abbrev exit : GuardedExit
exit = record {
  vault = "0xVault";
  chain_id = 8453;
  wallet = "0xWallet";
  shares = 5;
  work_id = "decision-1";
}

abbrev redeem_data : ℕ → String → String → String
redeem_data shares receiver owner = "ba087652"

takes_time : TakesTime host
takes_time l = omega arith

submit-keys_example :
    Asked (λ r. IsPoll r ⊎ IsAttempt bundle r) start (submit settings bundle host start).1
submit-keys_example = submit-keys host settings bundle start

submit-logged_example :
    Left AllKept (submit settings bundle host start).0 (submit settings bundle host start).1
submit-logged_example = submit-logged host settings bundle start

submit-Reports_example : Outcome (Reports 2) IsDecided (submit settings bundle host start).0
submit-Reports_example = submit-Reports host settings bundle start takes_time

keep_hash-execution_for_example :
    Left
      (λ _ v. IsPending "exec-1" "0xab" (execution_for settings "0xab" host (restarted v)).0)
      (keep_hash deposit "key-2" "0xAB" envelope host start).0
      (keep_hash deposit "key-2" "0xAB" envelope host start).1
unfolding lower
keep_hash-execution_for_example =
    keep_hash-execution_for settings host start deposit "key-2" "0xAB" "0xab" envelope refl

-- A bundle's execution that is known and has not settled: KeeperHub's verified receipt settles it.
abbrev known : World
known = record start { executions = ("0xab", pending envelope) ∷ [] }

get_receipt-Supported_example :
    Outcome
      (λ receipt. Settled settings "0xAB" 60_000_000 host known receipt)
      (λ e. Unit)
      (get_receipt settings "0xAB" 60_000_000 host known).0
get_receipt-Supported_example = get_receipt-Supported settings "0xAB" 60_000_000 host known

post_call-Ends_example : Ends Anything IsClientError (post_call deposit false (some "key-2"))
post_call-Ends_example = post_call-Ends deposit false (some "key-2")

wait_for_terminal-Concludes_example :
    let (r, w) = wait_for_terminal "exec-1" 60_000_000 poll_interval host start in
    Concludes 60_000_000 r w.clock
wait_for_terminal-Concludes_example =
    wait_for_terminal-Concludes host "exec-1" 60_000_000 poll_interval start takes_time

abbrev busy : Response
busy = record {
  status_code = 429;
  retry_after = some "2";
  poll_interval_hint = none;
  text = "{}";
  body = none;
}

raise_for_status-Classified_example : Classified busy empty (raise_for_status busy empty)
raise_for_status-Classified_example = raise_for_status-Classified busy empty

wei_to_ether_string-exact_example :
    wei_of 0 (wei_to_ether_string 1_500_000_000_000_000_000) ≡ 1_500_000_000_000_000_000
wei_to_ether_string-exact_example = wei_to_ether_string-exact 1_500_000_000_000_000_000

raw_calldata-Remembers_example :
    Remembers (execute_contract_call deposit "key-2") host start
    × Remembers (simulate_contract_call deposit) host start
    × Remembers (simulate_call_sequence (deposit ∷ [])) host start
    × Remembers (check_and_execute deposit "gte" "5" deposit none true) host start
raw_calldata-Remembers_example =
    raw_calldata-Remembers host start deposit deposit (deposit ∷ []) "key-2" "gte" "5" none true

garbled-IsRefused_example :
    let w = record start { file = garbled } in
    IsRefused w (record_execution "exec-1" fields host w)
    × IsRefused w (record_simulation fields host w)
    × IsRefused w (update "exec-1" fields host w)
garbled-IsRefused_example =
    garbled-IsRefused host (record start { file = garbled }) "exec-1" fields refl

record_execution-find_by_hash_example :
    (find_by_hash "0xab" host (record_execution "exec-1" fields host start).1).0
    ≡ ok (
        if has_hash (text_of host.repr) "0xab" (execution_entry "exec-1" (host.isoformat 0) fields)
        then some (execution_entry "exec-1" (host.isoformat 0) fields)
        else none)
unfolding find_by_hash read parse find_last gets lift asks pure continue ◌>>=◌
record_execution-find_by_hash_example =
    record_execution-find_by_hash host start "exec-1" "0xab" fields none refl

abbrev done : Dict
done = entry "status" (str "completed") empty

abbrev earlier : Dict
earlier = entry "execution_id" (str "exec-1") (entry "tx_hash" (str "0xAB") empty)

abbrev logged : World
logged = record start { file = document (arr (cons (obj earlier) nil)) }

update-find_by_hash_example :
    (after : Option Dict) × ((find_by_hash "0xab" host (update "exec-1" done host logged).1).0
      ≡ ok after)
    × FoundSettled "exec-1" done (host.isoformat 0) (some earlier) after
unfolding find_by_hash read parse dicts find find_last lower text_of gets lift asks pure continue
    ◌>>=◌
update-find_by_hash_example =
    update-find_by_hash host logged "exec-1" "0xab" done (some earlier) refl refl

run_guarded_exit-keys_example :
    Asked
      (IsGuarded false (present (own_key host false exit)))
      start
      (run_guarded_exit redeem_data exit false 60_000_000 host start).1
run_guarded_exit-keys_example = run_guarded_exit-keys redeem_data exit false 60_000_000 host start

run_guarded_exit-Accounted_example :
    Left Accounted
      (run_guarded_exit redeem_data exit false 60_000_000 host start).0
      (run_guarded_exit redeem_data exit false 60_000_000 host start).1
run_guarded_exit-Accounted_example =
    run_guarded_exit-Accounted redeem_data exit 60_000_000 host start
