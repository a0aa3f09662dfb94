-- ===== src/Keeper/Params.antt =====
-- keeper.py: `keeper_params_from_config`, on what `json.loads` makes of the file. Almanak's
-- `ChainRegistry.try_resolve` is a parameter: the chain identifier of a name that it knows.
use almanak_keeperhub.Prelude.{
  ℕ, String, Bool, ◌&&◌, Option, none, some, List, [], ◌∷◌, ◌==◌, str_eq, if◌then◌else◌,
}
use almanak_keeperhub.Python.Text.{show, upper, join}
use almanak_keeperhub.Python.Json.{
  Value, Items, Dict, str, arr, obj, nil, cons, empty, entry, truthy, get, get_default, text_of,
}
use almanak_keeperhub.Errors.{Result, ok, err, value_error, type_error, attribute_error, ◌>>=◌}
use almanak_keeperhub.Client.Answers.{or_value}
use almanak_keeperhub.Keeper.Run.{dict_of}

pub record KeeperParams : Type 0 where
  pub vault : String
  pub token : String
  pub token_symbol : String
  pub chain_id : ℕ
  pub chain_name : String

abbrev pub known_tokens : List (ℕ × String × String)
known_tokens =
    (8453, "USDC", "0x833589fCD6eDb6E08f4c7C32D4f71b54bdA02913")
    ∷ (84532, "USDC", "0x036CbD53842c5426634e7929541eC2318f3dCF7e")
    ∷ (8453, "WETH", "0x4200000000000000000000000000000000000006")
    ∷ (42161, "USDC", "0xaf88d065e77c8cC2239327C5EDb3A432268e5831")
    ∷ (1, "USDC", "0xA0b86991c6218b36c1d19D4a2e9Eb0cE3606eB48")
    ∷ []

-- `KNOWN_TOKENS.get((chain_id, symbol))`
unfoldable pub known_token : List (ℕ × String × String) → ℕ → String → Option String
known_token [] chain_id symbol = none
known_token ((id, name, address) ∷ tokens) chain_id symbol =
    if id == chain_id && str_eq name symbol
    then some address
    else known_token tokens chain_id symbol

characters : String → Items
characters String.[] = nil
characters (String.◌∷◌ c s) = cons (str (String.◌∷◌ c "")) (characters s)

keys : Dict → Items
keys empty = nil
keys (entry k v d) = cons (str k) (keys d)

-- What a `for` makes of a value.
unfoldable pub iterated : Value → Result Items
unfolding characters keys
iterated (arr vs) = ok vs
iterated (str s) = ok (characters s)
iterated (obj d) = ok (keys d)
iterated v = err (type_error "object is not iterable")

-- The test of an entry of `token_funding`.
unfoldable pub is_funding : (Value → String) → String → Dict → Bool
is_funding show_value symbol e =
    str_eq (upper (show_value (get_default "symbol" (str "") e))) symbol && truthy (get "address" e)

-- The loop over `token_funding`: the last entry that passes the test counts.
unfoldable pub funded : (Value → String) → String → Items → Option String → Result (Option String)
funded show_value symbol nil token = ok token
funded show_value symbol (cons (obj e) rest) token =
    funded show_value symbol rest
      (if is_funding show_value symbol e then some (show_value (get "address" e)) else token)
funded show_value symbol (cons v rest) token = err (attribute_error "object has no attribute 'get'")

-- The token's address: the known one, or that of the configuration.
unfoldable pub token_for :
    (Value → String) → Dict → ℕ → String → Option String → Result (Option String)
token_for show_value config chain_id symbol (some token) = ok (some token)
token_for show_value config chain_id symbol none = do
  entries ← iterated (get_default "token_funding" (arr nil) config)
  funded show_value symbol entries none

-- The check of the vault, and the result.
unfoldable pub with_vault : (Value → String) → KeeperParams → Value → Result KeeperParams
with_vault show_value params vault =
    if truthy vault
    then ok (record params { vault = show_value vault })
    else err (value_error "config.json has no vault_address; pass --vault")

unfoldable pub with_token :
    (Value → String) → Dict → String → ℕ → String → Option String → Result KeeperParams
with_token show_value config chain_name chain_id symbol none = err (
    value_error (
      join
        ("no address known for " ∷ symbol ∷ " on chain " ∷ show chain_id ∷ "; pass --token" ∷ [])))
with_token show_value config chain_name chain_id symbol (some token) =
    with_vault show_value
      (record {
        vault = "";
        token = token;
        token_symbol = symbol;
        chain_id = chain_id;
        chain_name = chain_name;
      })
      (get "vault_address" config)

unfoldable pub on_chain : (Value → String) → Dict → String → Option ℕ → Result KeeperParams
on_chain repr config chain_name none = err (
    value_error (
      join (
        "config.json chain "
        ∷ repr (str chain_name)
        ∷ " is not a chain Almanak knows; fix it or pass --chain"
        ∷ [])))
on_chain repr config chain_name (some chain_id) = do
  let symbol = upper (text_of repr (or_value (get "deposit_token" config) (str "USDC")))
  token ← token_for (text_of repr) config chain_id symbol (known_token known_tokens chain_id symbol)
  with_token (text_of repr) config chain_name chain_id symbol token

unfoldable pub keeper_params_from_config :
    (String → Option ℕ) → (Value → String) → Value → Result KeeperParams
keeper_params_from_config try_resolve repr document = do
  config ← dict_of document
  let chain_name = text_of repr (or_value (get "chain" config) (str "base"))
  on_chain repr config chain_name (try_resolve chain_name)
