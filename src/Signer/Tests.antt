-- ===== src/Signer/Tests.antt =====
-- Runs of almanak_keeperhub/signer.py: two attempts at one deposit, under different nonces.
use almanak_keeperhub.Prelude.{String, ◌≡◌, ◌↔◌, refl, none, some, [], ◌∷◌}
use almanak_keeperhub.Python.Text.{lower, show}
use almanak_keeperhub.Signer.{UnsignedTransaction, joined_parts, idempotency_key_for}
use almanak_keeperhub.Errors.{ok}
use almanak_keeperhub.Calldata.Tests.{toy_abi, toy_index, set_seven, decoded, toy_index_built}
use almanak_keeperhub.Signer.Calls.{KeeperHubSignedTransaction, call_for, sign}
use almanak_keeperhub.Signer.Signed.{IsSigned, sign-IsSigned}
use almanak_keeperhub.Signer.Keys.{IsSameCall, idempotency_key_for-identifies}

abbrev first_attempt : UnsignedTransaction
first_attempt = record {
  chain_id = 8453;
  to = some "0xAB";
  data_hex = some "0x6E553f65";
  value = some 0;
  gas_limit = none;
  from_address = none;
  nonce = some 1;
}

abbrev second_attempt : UnsignedTransaction
second_attempt = record {
  chain_id = 8453;
  to = some "0xab";
  data_hex = some "0x6e553f65";
  value = none;
  gas_limit = none;
  from_address = none;
  nonce = some 2;
}

abbrev first_intent : String
first_intent = "intent-1"

abbrev second_intent : String
second_intent = "intent-2"

attempts_same : IsSameCall first_attempt second_attempt "0xC1" "0xc1"
unfolding lower
attempts_same = record { chain_id = refl; sender = refl; to = refl; data_hex = refl; value = refl }

first_text :
    joined_parts first_attempt "0xC1" "intent-1" ""
    ≡ "almanak-keeperhub/v2|8453|0xc1|0xab|0x6e553f65|0|intent-1|"
unfolding joined_parts show lower
first_text = refl

idempotency_key_for-identifies_example :
    (idempotency_key_for (λ s. s) first_attempt "0xC1" first_intent ""
      ≡ idempotency_key_for (λ s. s) second_attempt "0xc1" second_intent "")
    ↔ (first_intent ≡ second_intent)
idempotency_key_for-identifies_example =
    idempotency_key_for-identifies (λ s. s) first_attempt second_attempt "0xC1" "0xc1" first_intent
      second_intent "" attempts_same (λ h. h)

abbrev setting : UnsignedTransaction
setting = record {
  chain_id = 8453;
  to = some "0xC0";
  from_address = some "0xc1";
  data_hex = some "0x60fe47b107";
  value = none;
  gas_limit = none;
  nonce = some 3;
}

abbrev signed_setting : KeeperHubSignedTransaction
signed_setting = record {
  raw_tx = "0x";
  tx_hash = "0xk";
  unsigned_tx = setting;
  call = record {
    contract_address = "0xC0";
    chain_id = 8453;
    function_name = "set";
    function_args = set_seven.function_args;
    abi = set_seven.abi;
    value_wei = 0;
    data_hex = some "0x60fe47b107";
  };
  idempotency_key = "k";
}

setting_signed :
    sign toy_abi (λ s. "k") "0xC1" toy_index none first_intent "" setting ≡ ok signed_setting
unfolding sign call_for lower idempotency_key_for
setting_signed = rw decoded

sign-IsSigned_example :
    IsSigned toy_abi (λ s. "k") "0xC1" none first_intent "" setting signed_setting
sign-IsSigned_example =
    sign-IsSigned toy_abi (λ s. "k") "0xC1" ("set(uint256)" ∷ []) [] toy_index none first_intent ""
      setting signed_setting toy_index_built setting_signed
