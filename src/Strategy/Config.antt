-- ===== src/Strategy/Config.antt =====
-- demos/metamorpho_base_yield/strategy.py: the checks of `__init__`. The amounts of a
-- configuration are not negative, and the symbol of a token holds no quotation mark.
use almanak_keeperhub.Prelude.{
  ℕ, ◌^◌, ◌≤◌, ◌≡◌, String, false, not, ◌||◌, Option, none, some, [], ◌∷◌, if◌then◌else◌, str_eq,
}
use almanak_keeperhub.Prelude.Int.{ℤ, pos, pos_part, eqb_ℤ, ltb_ℤ}
use almanak_keeperhub.Python.Text.{upper, join, show, show_ℤ}
use almanak_keeperhub.Errors.{Error, Result, ok, err, value_error}
use almanak_keeperhub.Strategy.{Settings, one_unit, assets_to_human}

-- What `get_config` reads.
pub record Config : Type 0 where
  pub deposit_token : String
  pub deposit_amount : ℕ
  pub min_deposit_usd : ℕ
  pub max_vault_allocation_pct : ℕ
  pub compound_interval_hours : ℕ
  pub deposit_token_decimals : ℤ
  pub min_apy_floor : ℤ
  pub exit_confirm_checks : ℤ

-- `_USD_PEGGED_DEPOSIT_TOKEN_DECIMALS`
unfoldable pub pegged_decimals : String → Option ℕ
pegged_decimals symbol =
    if str_eq symbol "USDC" || str_eq symbol "USDT" || str_eq symbol "USDBC"
    then some 6
    else if str_eq symbol "DAI" || str_eq symbol "USDS"
    then some 18
    else none

not_pegged : String → Error
not_pegged token = value_error (
    join (
      "metamorpho_base_yield reports value_usd as the deposit token's human amount, which is only USD-accurate for a USD-pegged token; got deposit_token='"
      ∷ token
      ∷ "'. Use a stablecoin (['DAI', 'USDBC', 'USDC', 'USDS', 'USDT']) or value the position via the framework PositionType.VAULT on-chain repricer."
      ∷ []))

mismatch : Config → ℕ → Error
mismatch c expected = value_error (
    join (
      "deposit_token_decimals="
      ∷ show_ℤ c.deposit_token_decimals
      ∷ " does not match the on-chain decimals for deposit_token='"
      ∷ c.deposit_token
      ∷ "' (expected "
      ∷ show expected
      ∷ "); a mismatch mis-scales the reported value_usd (VIB-5392)."
      ∷ []))

unfoldable pub settings_of : Config → Settings
settings_of c = record {
  deposit_amount = c.deposit_amount;
  min_deposit_usd = c.min_deposit_usd;
  max_vault_allocation_pct = c.max_vault_allocation_pct;
  compound_interval_hours = c.compound_interval_hours;
  deposit_token_decimals = pos_part c.deposit_token_decimals;
  min_apy_floor = c.min_apy_floor;
  exit_confirm_checks = pos_part c.exit_confirm_checks;
}

-- The checks from the decimals of the token on.
unfoldable pub check_decimals : Config → ℕ → Result Settings
unfolding mismatch
check_decimals c expected =
    if not (eqb_ℤ c.deposit_token_decimals (pos expected))
    then err (mismatch c expected)
    else if ltb_ℤ c.min_apy_floor (pos 0)
    then err (value_error "min_apy_floor must be >= 0")
    else if ltb_ℤ c.exit_confirm_checks (pos 1)
    then err (value_error "exit_confirm_checks must be >= 1")
    else ok (settings_of c)

unfoldable pub check_token : Config → Option ℕ → Result Settings
unfolding not_pegged
check_token c none = err (not_pegged c.deposit_token)
check_token c (some expected) = check_decimals c expected

-- `__init__`
unfoldable pub configure : Config → Result Settings
configure c =
    if ltb_ℤ c.deposit_token_decimals (pos 0)
    then err (value_error "deposit_token_decimals must be >= 0")
    else check_token c (pegged_decimals (upper c.deposit_token))

-- A configuration that the strategy accepts: the token is pegged and has its decimals, the floor
-- is not negative, at least one check confirms an exit, and 10 ^ decimals raw units are reported
-- as one whole.
abbrev pub IsAccepted : Config → Settings → Type 0
IsAccepted c s =
    (pegged_decimals (upper c.deposit_token) ≡ some s.deposit_token_decimals)
    × (ltb_ℤ s.min_apy_floor (pos 0) ≡ false)
    × (1 ≤ s.exit_confirm_checks)
    × (assets_to_human s (10 ^ s.deposit_token_decimals) ≡ one_unit)
