-- ===== src/Client/Methods/Status.antt =====
-- client.py: `execution_status`, and `wallet_address` with its two paths.
use almanak_keeperhub.Prelude.{
  String, Option, none, some, [], ◌∷◌, map, if◌then◌else◌, is_some, get_or,
}
use almanak_keeperhub.Prelude.Int.{ℤ}
use almanak_keeperhub.Python.Text.{is_text, join}
use almanak_keeperhub.Python.Json.{Value, Dict, str, get, get_default, as_str, is_true, text_of}
use almanak_keeperhub.Errors.{Result, value_error, ok, err}
use almanak_keeperhub.Effects.{
  Response, Receipt, ExecutionStatus, Host, Action, pure, lift, gets, asks, modify, ◌>>=◌, ◌>>◌,
}
use almanak_keeperhub.Client.Answers.{int_or_none, raise_for_status, receipt_items}
use almanak_keeperhub.Client.Methods.Posts.{exchange, get_request, raise_plain}

receipt_of : (Value → String) → Dict → Receipt
receipt_of show_value item = record {
  hash = show_value (get "hash" item);
  chain_id = int_or_none (get "chainId" item);
  verified = is_true (get "verified" item);
  receipt_status = get "receiptStatus" item;
  block_number = int_or_none (get "blockNumber" item);
  gas_used = int_or_none (get "gasUsed" item);
}

-- The header as a number of ticks; `float` raises a ValueError on other texts.
unfoldable pub read_hint : Host → Option String → Result (Option ℤ)
read_hint h none = ok none
read_hint h (some text) =
    if is_text text
    then elim (h.float_of text) [
      | none ↦ err (value_error (join ("could not convert string to float: " ∷ text ∷ [])))
      | some n ↦ ok (some n)
    ]
    else ok none

unfoldable pub status_path : String → String
status_path execution_id = join ("/api/execute/" ∷ execution_id ∷ "/status" ∷ [])

unfoldable pub execution_status : String → Action ExecutionStatus
unfolding receipt_of read_hint
execution_status execution_id = do
  (r, payload) ← exchange (get_request (status_path execution_id))
  lift (raise_for_status r payload)
  host ← asks (λ h. h)
  hint ← lift (read_hint host r.poll_interval_hint)
  items ← lift (receipt_items (get "receipts" payload))
  pure (record {
    execution_id = text_of host.repr (get_default "executionId" (str execution_id) payload);
    status = text_of host.repr (get_default "status" (str "") payload);
    transaction_hash = as_str (get "transactionHash" payload);
    transaction_link = as_str (get "transactionLink" payload);
    sponsored = is_true (get "sponsored" payload);
    receipts = map (receipt_of (text_of host.repr)) items;
    error = as_str (get "error" payload);
    poll_hint_seconds = hint;
    raw = payload;
  })

unfoldable pub address_from : String → Action (Response × Dict × Option String)
address_from path = do
  (r, payload) ← exchange (get_request path)
  lift (raise_for_status r payload)
  let address = as_str (get "walletAddress" payload)
  pure (r, payload, if is_text (get_or address "") then address else none)

remember_address : Option String → Response → Dict → Action String
remember_address (some address) r payload =
    modify (λ w. record w { wallet_address = some address }) >> pure address
remember_address none r payload =
    raise_plain
      "KeeperHub returned no walletAddress from /api/user or /api/user/wallet. Provision the organization wallet in the app (Settings > Organization > Wallets), or set KEEPERHUB_WALLET_ADDRESS explicitly."
      r payload

fetch_address : Action String
unfolding remember_address
fetch_address = do
  (r, payload, address) ← address_from "/api/user"
  if is_some address then remember_address address r payload else do
    (r', payload', address') ← address_from "/api/user/wallet"
    remember_address address' r' payload'

known_or_fetched : Option String → Action String
unfolding fetch_address
known_or_fetched (some address) = pure address
known_or_fetched none = fetch_address

unfoldable pub wallet_address : Action String
unfolding known_or_fetched
wallet_address = do known ← gets (λ w. w.wallet_address); known_or_fetched known
