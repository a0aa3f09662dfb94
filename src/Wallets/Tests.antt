-- ===== src/Wallets/Tests.antt =====
-- Runs of almanak_keeperhub/wallets.py: KeeperHub names the wallet in its second answer.
use almanak_keeperhub.Prelude.{String, ◌≡◌, refl, some, if◌then◌else◌, str_eq}
use almanak_keeperhub.Python.Text.{lower}
use almanak_keeperhub.Python.Json.{Value, find, str, obj, empty, entry, text_of}
use almanak_keeperhub.Errors.{Result, ok}
use almanak_keeperhub.Wallets.{Environment, HttpResponse, resolve_wallet_address}
use almanak_keeperhub.Wallets.Agreed.{IsAgreed, resolve_wallet_address-IsAgreed}

abbrev http_get : String → Result HttpResponse
http_get url = ok (record {
  status_code = 200;
  text = "";
  json =
      if str_eq url "https://kh.test/api/user"
      then some (obj empty)
      else some (obj (entry "walletAddress" (str "0xAb") empty));
})

abbrev explicit_wallet : Environment
explicit_wallet = record {
  wallet_address = some "0xaB";
  api_key = "kh_1";
  base_url = some "https://kh.test/";
}

abbrev wallet : String
wallet = "0xAb"

no_repr : Value → String
no_repr v = ""

wallet_found : resolve_wallet_address no_repr http_get explicit_wallet ≡ ok wallet
unfolding resolve_wallet_address find lower text_of
wallet_found = refl

resolve_wallet_address-IsAgreed_example : IsAgreed no_repr http_get explicit_wallet wallet
resolve_wallet_address-IsAgreed_example =
    resolve_wallet_address-IsAgreed no_repr http_get explicit_wallet wallet wallet_found
