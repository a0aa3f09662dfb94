-- ===== src/Wallets.antt =====
-- almanak_keeperhub/wallets.py: `resolve_wallet_address`, which names the organization's wallet.
pub mod Agreed
mod Tests
use Prim.Native.Char.{code}
use almanak_keeperhub.Prelude.{
  ℕ, String, Bool, not, ◌&&◌, Option, none, some, [], ◌∷◌, ◌==◌, str_eq, get_or, if◌then◌else◌,
}
use almanak_keeperhub.Python.Text.{is_text, join, lower, show, take}
use almanak_keeperhub.Python.Json.{Value, null, obj, truthy, get, text_of}
use almanak_keeperhub.Errors.{Result, ok, err, runtime_error, attribute_error}

-- The environment variables that the function reads; a missing KEEPERHUB_API_KEY is empty.
pub record Environment : Type 0 where
  pub wallet_address : Option String
  pub api_key : String
  pub base_url : Option String

-- What the function reads of httpx's response; `json` is none where it raises a ValueError.
pub record HttpResponse : Type 0 where
  pub status_code : ℕ
  pub text : String
  pub json : Option Value

-- `s.rstrip("/")`
unfoldable pub rstrip_slashes : String → String
rstrip_slashes String.[] = ""
rstrip_slashes (String.◌∷◌ c s) =
    let rest = rstrip_slashes s in
    if not (is_text rest) && code c == b'/' then "" else String.◌∷◌ c rest

abbrev pub default_base_url : String
default_base_url = "https://app.keeperhub.com"

unfoldable pub base_url_of : Environment → String
unfolding rstrip_slashes
base_url_of env = rstrip_slashes (get_or env.base_url default_base_url)

-- `response.json().get("walletAddress")`
unfoldable pub address_in : Option Value → Result Value
address_in none = ok null
address_in (some (obj d)) = ok (get "walletAddress" d)
address_in (some v) = err (attribute_error "get")

-- A round of the loop, by what httpx makes of the request.
unfoldable pub address_of : String → Result HttpResponse → Result Value
unfolding address_in
address_of url (err e) = err e
address_of url (ok r) =
    if r.status_code == 200
    then address_in r.json
    else err (
        runtime_error (
          join
            ("GET " ∷ url ∷ " returned HTTP " ∷ show r.status_code ∷ ": " ∷ take 200 r.text ∷ [])))

-- The loop, by what its first round found.
unfoldable pub or_next : Result Value → Result Value → Result Value
or_next (err e) second = err e
or_next (ok address) second = if truthy address then ok address else second

unfoldable pub find_address : (String → Result HttpResponse) → String → Result Value
unfolding address_of or_next
find_address http_get base =
    let user = join (base ∷ "/api/user" ∷ []) in
    let wallet = join (base ∷ "/api/user/wallet" ∷ []) in
    or_next (address_of user (http_get user)) (address_of wallet (http_get wallet))

-- `explicit and explicit.lower() != str(address).lower()`
unfoldable pub disagrees : Option String → String → Bool
disagrees none address = Bool.false
disagrees (some explicit) address =
    is_text explicit && not (str_eq (lower explicit) (lower address))

unfoldable pub cross_checked :
    (Value → String) → Option String → String → Result Value → Result String
unfolding disagrees
cross_checked repr explicit base (err e) = err e
cross_checked repr explicit base (ok address) =
    if not (truthy address)
    then err (
        runtime_error
          "KeeperHub returned no walletAddress; provision the organization wallet in the app (Settings > Organization > Wallets) or set KEEPERHUB_WALLET_ADDRESS")
    else if disagrees explicit (text_of repr address)
    then err (
        runtime_error (
          join (
            "KEEPERHUB_WALLET_ADDRESS is "
            ∷ get_or explicit "None"
            ∷ " but "
            ∷ base
            ∷ " signs as "
            ∷ text_of repr address
            ∷ "; refusing to compile intents for a wallet KeeperHub will not send from. Unset the variable or point it at that wallet."
            ∷ [])))
    else ok (text_of repr address)

-- `if explicit: return explicit`
unfoldable pub without_key : Option String → Result String
without_key none = err (
    runtime_error
      "KEEPERHUB_API_KEY is not set; create an organization API key with mcp:write scope")
without_key (some explicit) =
    if is_text explicit
    then ok explicit
    else err (
        runtime_error
          "KEEPERHUB_API_KEY is not set; create an organization API key with mcp:write scope")

-- `resolve_wallet_address`; `http_get` is `httpx.get` with the key's headers.
unfoldable pub resolve_wallet_address :
    (Value → String) → (String → Result HttpResponse) → Environment → Result String
unfolding without_key base_url_of find_address cross_checked
resolve_wallet_address repr http_get env =
    if is_text env.api_key
    then cross_checked repr env.wallet_address (base_url_of env)
        (find_address http_get (base_url_of env))
    else without_key env.wallet_address
