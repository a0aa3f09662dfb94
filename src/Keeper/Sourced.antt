-- ===== src/Keeper/Sourced.antt =====
-- keeper.py: where the parameters of `keeper_params_from_config` come from.
use mathlib.Core.List.{Memᴰ}
use almanak_keeperhub.Prelude.{
  ℕ, String, ◌≡◌, refl, ◌⊎◌, inl, inr, true, Option, none, some, List, [], ◌∷◌, arith, Bool-cases,
}
use almanak_keeperhub.Python.Json.{
  Value, Items, Dict, null, bool, num, str, empty, entry, arr, obj, nil, cons, truthy, get,
  get_default, dicts, text_of,
}
use almanak_keeperhub.Errors.{ok, ok-steps, ◌>>=◌}
use almanak_keeperhub.Python.Text.{upper}
use almanak_keeperhub.Client.Answers.{or_value}
use almanak_keeperhub.Keeper.Run.{dict_of}
use almanak_keeperhub.Keeper.Params.{
  KeeperParams, known_tokens, known_token, iterated, is_funding, funded, token_for, with_vault,
  with_token, on_chain, keeper_params_from_config,
}

-- The dicts of a list.
abbrev pub entries_of : Value → List Dict
entries_of (arr vs) = dicts vs
entries_of v = []

module _ (show_value : Value → String) (symbol : String) where
  -- An entry that funds the token is where its address comes from.
  abbrev pub Funds : List Dict → String → Type 0
  Funds entries token =
      (e : Dict) × Memᴰ e entries
      × (is_funding show_value symbol e ≡ true)
      × (token ≡ show_value (get "address" e))

  later : {e : Dict} {es : List Dict} {token : String} → Funds es token → Funds (e ∷ es) token
  later (e, m, funding, address) = (e, Memᴰ.tail m, funding, address)

  funded-Funds :
      (entries : Items) (before : Option String) (token : String)
      → funded show_value symbol entries before ≡ ok (some token)
      → (before ≡ some token) ⊎ Funds (dicts entries) token
  unfolding funded dicts
  funded-Funds nil before token e = inl (ground (arith, e))
  funded-Funds (cons (obj d) rest) before token e = elim (funded-Funds rest _ token e) [
    | inr funds ↦ inr (later funds)
    | inl now ↦ elim (Bool-cases (is_funding show_value symbol d)) [
      | inl funding ↦ inr (d, Memᴰ.head refl, funding, ground (arith, now, funding))
      | inr other ↦ inl (ground (arith, now, other))
    ]
  ]
  funded-Funds (cons v rest) before token e = absurd (ground arith)

  iterated-Funds :
      (v : Value) (token : String)
      → (iterated v >>= λ entries. funded show_value symbol entries none) ≡ ok (some token)
      → Funds (entries_of v) token
  unfolding iterated
  iterated-Funds (arr vs) token e = elim (funded-Funds vs none token e) [
    | inl e ↦ absurd (ground arith)
    | inr funds ↦ funds
  ]
  iterated-Funds (str String.[]) token e = absurd (unfold funded in ground arith)
  iterated-Funds (str (String.◌∷◌ c s)) token e = absurd (unfold funded in ground arith)
  iterated-Funds (obj empty) token e = absurd (unfold funded in ground arith)
  iterated-Funds (obj (entry k v d)) token e = absurd (unfold funded in ground arith)
  iterated-Funds null token e = absurd (ground arith)
  iterated-Funds (bool flag) token e = absurd (ground arith)
  iterated-Funds (num n) token e = absurd (ground arith)

-- The parameters agree with the chain registry, the known tokens and the configuration.
pub record IsSourced (try_resolve : String → Option ℕ) (show_value : Value → String) (config : Dict)
    (p : KeeperParams) : Type 0 where
  pub name : p.chain_name ≡ show_value (or_value (get "chain" config) (str "base"))
  pub symbol :
      p.token_symbol ≡ upper (show_value (or_value (get "deposit_token" config) (str "USDC")))
  pub chain : try_resolve p.chain_name ≡ some p.chain_id
  pub token :
      (known_token known_tokens p.chain_id p.token_symbol ≡ some p.token)
      ⊎ ((known_token known_tokens p.chain_id p.token_symbol ≡ none)
          × Funds show_value p.token_symbol
              (entries_of (get_default "token_funding" (arr nil) config))
              p.token)
  pub vault :
      (truthy (get "vault_address" config) ≡ true)
      × (p.vault ≡ show_value (get "vault_address" config))

with_vault-steps :
    (show_value : Value → String) (start p : KeeperParams) (v : Value)
    → with_vault show_value start v ≡ ok p
    → (truthy v ≡ true) × (p ≡ record start { vault = show_value v })
unfolding with_vault
with_vault-steps show_value start p v e = elim (Bool-cases (truthy v)) [
  | inl set ↦ (set, ground (arith, e, set))
  | inr missing ↦ absurd (ground (arith, e, missing))
]

module _ (try_resolve : String → Option ℕ) (show_value : Value → String) (config : Dict) where
  token_for-Sourced :
      (chain_id : ℕ) (symbol : String) (known : Option String) (token : String)
      → token_for show_value config chain_id symbol known ≡ ok (some token)
      → (known ≡ some token)
        ⊎ ((known ≡ none)
            × Funds show_value symbol
                (entries_of (get_default "token_funding" (arr nil) config))
                token)
  unfolding token_for
  token_for-Sourced chain_id symbol (some t) token e = inl (ground (arith, e))
  token_for-Sourced chain_id symbol none token e = inr (
    refl,
    iterated-Funds show_value symbol (get_default "token_funding" (arr nil) config) token e,
  )

  with_token-IsSourced :
      (chain_name : String) (chain_id : ℕ) (symbol : String) (token : Option String)
      (p : KeeperParams)
      → chain_name ≡ show_value (or_value (get "chain" config) (str "base"))
      → symbol ≡ upper (show_value (or_value (get "deposit_token" config) (str "USDC")))
      → try_resolve chain_name ≡ some chain_id
      → token_for show_value config chain_id symbol (known_token known_tokens chain_id symbol)
        ≡ ok token
      → with_token show_value config chain_name chain_id symbol token ≡ ok p
      → IsSourced try_resolve show_value config p
  unfolding with_token
  with_token-IsSourced chain_name chain_id symbol none p name of chain found e =
      absurd (ground arith)
  with_token-IsSourced chain_name chain_id symbol (some token) p name of chain found e =
      let (set, this) = with_vault-steps show_value _ p (get "vault_address" config) e in
      rw this record {
        name = name;
        symbol = of;
        chain = chain;
        token = token_for-Sourced chain_id symbol _ token found;
        vault = (set, refl);
      }

-- The parameters that keeper_params_from_config reads: the chain's name and the token's symbol, in
-- capitals, are the ones that are configured, or base and USDC; the chain identifier is that of
-- the chain's name; the token is the known one for the chain and the symbol if there is one, and
-- otherwise the address of an entry of token_funding with that symbol; and the vault is the one
-- that is configured.
pub keeper_params_from_config-IsSourced :
    (try_resolve : String → Option ℕ) (repr : Value → String) (config : Dict) (p : KeeperParams)
    → keeper_params_from_config try_resolve repr (obj config) ≡ ok p
    → IsSourced try_resolve (text_of repr) config p
unfolding keeper_params_from_config dict_of on_chain
keeper_params_from_config-IsSourced try_resolve repr config p e =
    on_chain-IsSourced _ (try_resolve _) refl refl e
  where
    on_chain-IsSourced :
        (chain_name : String) (chain_id : Option ℕ)
        → chain_name ≡ text_of repr (or_value (get "chain" config) (str "base"))
        → try_resolve chain_name ≡ chain_id
        → on_chain repr config chain_name chain_id ≡ ok p
        → IsSourced try_resolve (text_of repr) config p
    on_chain-IsSourced chain_name none name chain e = absurd (ground arith)
    on_chain-IsSourced chain_name (some chain_id) name chain e =
        let (token, found, rest) = ok-steps (token_for _ _ _ _ _) _ e in
        with_token-IsSourced try_resolve (text_of repr) config chain_name chain_id _ token p name
          refl chain found rest
