-- ===== src/Strategy.antt =====
-- demos/metamorpho_base_yield/strategy.py: a vault position that is entered and left by the yield.
-- A `Decimal` is a whole number of 10 ^ -20 of its unit, an instant a number of microseconds, and
-- the reason of a hold is its template with the values that it shows.
pub mod Rules
pub mod Runs
pub mod Reach
pub mod Saved
pub mod Restart
pub mod Config
pub mod Tests
use almanak_keeperhub.Prelude.{
  ℕ, ◌+◌, ◌*◌, ◌-◌, ◌/◌, ◌^◌, ◌==◌, String, Bool, true, false, ◌&&◌, ◌||◌, not, Option, none, some,
  List, [], ◌∷◌, if◌then◌else◌, ltb, leb,
}
use almanak_keeperhub.Prelude.Int.{ℤ, ltb_ℤ}
use almanak_keeperhub.Errors.{Result, ok, err, value_error}

-- The strings of `_state`; a restored one may be any.
pub data Phase : Type 0 where
  idle depositing deposited compounding redeeming : Phase
  unknown : String → Phase

-- The fields that `__init__` sets once.
pub record Settings : Type 0 where
  pub deposit_amount : ℕ
  pub min_deposit_usd : ℕ
  pub max_vault_allocation_pct : ℕ
  pub compound_interval_hours : ℕ
  pub deposit_token_decimals : ℕ
  pub min_apy_floor : ℤ
  pub exit_confirm_checks : ℕ

pub record State : Type 0 where
  pub phase : Phase
  pub previous_stable_state : Phase
  pub total_deposited : ℕ
  pub deposit_shares : ℕ
  pub deposit_timestamp : Option ℕ
  pub last_compound_time : Option ℕ
  pub last_seen_market_ts : Option ℕ
  pub redeem_assets : ℕ
  pub total_yield_earned : ℕ
  pub epochs_completed : ℕ
  pub compounds_completed : ℕ
  pub current_apy : Option ℤ
  pub below_floor_count : ℕ

unfoldable pub initial : State
initial = record {
  phase = idle;
  previous_stable_state = idle;
  total_deposited = 0;
  deposit_shares = 0;
  deposit_timestamp = none;
  last_compound_time = none;
  last_seen_market_ts = none;
  redeem_assets = 0;
  total_yield_earned = 0;
  epochs_completed = 0;
  compounds_completed = 0;
  current_apy = none;
  below_floor_count = 0;
}

pub record Balance : Type 0 where
  pub balance : ℕ
  pub balance_usd : ℕ

-- What `market.balance` and `market.lending_rate` give: a value or the exception that their callers
-- handle, as its text. Other exceptions leave `decide` as they are.
pub data Reading (A : Type 0) : Type 0 where
  value : A → Reading A
  unavailable : String → Reading A

-- A rate of the market; none is one that is not finite.
pub record Market : Type 0 where
  pub timestamp : Option ℕ
  pub balance : Reading Balance
  pub rate : Reading (Option ℤ)

pub data Reason : Type 0 where
  reverted : Phase → Reason
  unknown_state : String → Reason
  balance_unavailable : String → Reason
  insufficient : ℕ → Reason
  staying_out : ℤ → Reason
  too_small : Reason
  apy_unavailable : Reason
  below_floor : ℤ → ℕ → Reason
  active : Option ℤ → ℕ → Reason

-- The protocol, the vault, the token and the chain of an intent are the strategy's own.
pub data Intent : Type 0 where
  hold : Reason → Intent
  vault_deposit : ℕ → Intent
  vault_redeem : Intent

-- `Decimal("1")`
abbrev pub one_unit : ℕ
one_unit = 10 ^ 20

abbrev pub smaller : ℕ → ℕ → ℕ
smaller a b = if ltb b a then b else a

-- What a call decides, with the state that it leaves.
abbrev pub Decided : Type 0
Decided = Result Intent × State

-- `a or b` of an instant that may be missing.
abbrev pub or_now : Option ℕ → ℕ → ℕ
or_now none now = now
or_now (some t) now = t

-- `_read_apy`, with the state in which it leaves `_current_apy`.
unfoldable pub read_apy : Market → State → Result (Option ℤ) × State
read_apy market st = elim market.rate [
  | unavailable problem ↦ (ok none, st)
  | value none ↦ (err (value_error "APY read returned non-finite value"), st)
  | value (some apy) ↦ (ok (some apy), record st { current_apy = some apy })
]

-- `apy is not None and apy < floor`
abbrev pub is_below : ℤ → Option ℤ → Bool
is_below floor none = false
is_below floor (some apy) = ltb_ℤ apy floor

-- `_handle_idle` after the yield gate.
unfoldable pub enter : Settings → ℕ → ℕ → State → Decided
enter s now available st =
    let amount = smaller s.deposit_amount (available * s.max_vault_allocation_pct / 100) in
    if ltb amount one_unit then (ok (hold too_small), st) else (
      ok (vault_deposit amount),
      record st {
        previous_stable_state = st.phase;
        phase = depositing;
        deposit_timestamp = some (or_now st.last_seen_market_ts now);
      },
    )

unfoldable pub gate : Settings → ℕ → ℕ → Result (Option ℤ) × State → Decided
gate s now available (err e, st) = (err e, st)
gate s now available (ok none, st) = enter s now available st
gate s now available (ok (some apy), st) =
    if ltb_ℤ apy s.min_apy_floor
    then (ok (hold (staying_out apy)), st)
    else enter s now available st

-- `_handle_idle`
unfoldable pub handle_idle : Settings → ℕ → Market → State → Decided
handle_idle s now market st = elim market.balance [
  | unavailable problem ↦ (ok (hold (balance_unavailable problem)), st)
  | value b ↦
      (if ltb b.balance_usd s.min_deposit_usd
        then (ok (hold (insufficient b.balance_usd)), st)
        else gate s now b.balance (read_apy market st))
]

abbrev pub hour : ℕ
hour = 3_600_000_000

abbrev pub reached : ℕ → ℕ → ℕ → Bool
reached hours reference now = leb (reference + hours * hour) now

-- `_should_compound`
unfoldable pub should_compound : Settings → ℕ → State → Bool
should_compound s now st = elim st.last_compound_time [
  | some reference ↦ reached s.compound_interval_hours reference (or_now st.last_seen_market_ts now)
  | none ↦ elim st.deposit_timestamp [
    | none ↦ false
    | some reference ↦
        reached s.compound_interval_hours reference (or_now st.last_seen_market_ts now)
  ]
]

-- The balance that may be compounded: none of it where it cannot be read.
abbrev pub idle_balance : Reading Balance → Balance
idle_balance (value b) = b
idle_balance (unavailable problem) = record { balance = 0; balance_usd = 0 }

unfoldable pub stay : State → Decided
stay st = (ok (hold (active st.current_apy st.epochs_completed)), st)

unfoldable pub compound : Settings → Balance → State → Decided
compound s b st =
    if leb s.min_deposit_usd b.balance_usd
    then (
      ok (vault_deposit (smaller b.balance s.deposit_amount)),
      record st { previous_stable_state = st.phase; phase = compounding },
    )
    else stay st

-- The branches of `_handle_deposited` on the rate.
unfoldable pub healthy : Settings → ℕ → Market → State → Decided
healthy s now market st =
    let st' = record st { below_floor_count = 0 } in
    if should_compound s now st' then compound s (idle_balance market.balance) st' else stay st'

unfoldable pub sagging : Settings → ℤ → State → Decided
sagging s apy st =
    let st' = record st { below_floor_count = st.below_floor_count + 1 } in
    if leb s.exit_confirm_checks st'.below_floor_count
    then (ok vault_redeem, record st' { previous_stable_state = st.phase; phase = redeeming })
    else (ok (hold (below_floor apy st'.below_floor_count)), st')

unfoldable pub monitor : Settings → ℕ → Market → Result (Option ℤ) × State → Decided
monitor s now market (err e, st) = (err e, st)
monitor s now market (ok none, st) = (ok (hold apy_unavailable), st)
monitor s now market (ok (some apy), st) =
    if ltb_ℤ apy s.min_apy_floor then sagging s apy st else healthy s now market st

-- `_handle_deposited`
unfoldable pub handle_deposited : Settings → ℕ → Market → State → Decided
handle_deposited s now market st = monitor s now market (read_apy market st)

unfoldable pub revert : State → Decided
revert st =
    (ok (hold (reverted st.previous_stable_state)), record st { phase = st.previous_stable_state })

unfoldable pub decide_in : Phase → Settings → ℕ → Market → State → Decided
decide_in idle s now market st = handle_idle s now market st
decide_in deposited s now market st = handle_deposited s now market st
decide_in depositing s now market st = revert st
decide_in redeeming s now market st = revert st
decide_in compounding s now market st = revert st
decide_in (unknown name) s now market st = (ok (hold (unknown_state name)), st)

-- `decide`, at the wall clock `now`.
unfoldable pub decide : Settings → ℕ → Market → State → Decided
decide s now market st =
    decide_in st.phase s now market (record st { last_seen_market_ts = market.timestamp })

-- `result.extracted_data`: the assets and shares of a deposit, the assets of a redemption.
pub record Extracted : Type 0 where
  pub deposit_data : Option (ℕ × ℕ)
  pub redeem_data : Option ℕ

-- `_assets_to_human`, for at most 20 decimals.
unfoldable pub assets_to_human : Settings → ℕ → ℕ
assets_to_human s raw_assets = raw_assets * (one_unit / 10 ^ s.deposit_token_decimals)

unfoldable pub confirm_phase : ℕ → Phase → State → State
confirm_phase now compounding st = record st {
  compounds_completed = st.compounds_completed + 1;
  last_compound_time = some (or_now st.last_seen_market_ts now);
  phase = deposited;
}
confirm_phase now phase st = record st {
  phase = deposited;
  epochs_completed = st.epochs_completed + 1;
}

unfoldable pub add_deposit : Settings → Option (ℕ × ℕ) → State → State
unfolding assets_to_human
add_deposit s none st = st
add_deposit s (some (assets, shares)) st = record st {
  total_deposited = st.total_deposited + assets_to_human s assets;
  deposit_shares = st.deposit_shares + shares;
}

unfoldable pub deposit_executed : Settings → ℕ → Extracted → State → State
deposit_executed s now extracted st =
    add_deposit s extracted.deposit_data (confirm_phase now st.phase st)

unfoldable pub earn : Settings → Option ℕ → State → State
unfolding assets_to_human
earn s none st = st
earn s (some raw_assets) st =
    let received = assets_to_human s raw_assets in
    record st {
      redeem_assets = received;
      total_yield_earned = st.total_yield_earned + (received - st.total_deposited);
    }

unfoldable pub redeem_executed : Settings → Extracted → State → State
redeem_executed s extracted st = record (earn s extracted.redeem_data st) {
  phase = idle;
  total_deposited = 0;
  deposit_shares = 0;
  below_floor_count = 0;
  deposit_timestamp = none;
  last_compound_time = none;
}

-- `on_intent_executed`, at the wall clock `now`.
unfoldable pub on_intent_executed : Settings → ℕ → Intent → Bool → Extracted → State → State
on_intent_executed s now intent false extracted st = record st { phase = st.previous_stable_state }
on_intent_executed s now (vault_deposit amount) true extracted st =
    deposit_executed s now extracted st
on_intent_executed s now vault_redeem true extracted st = redeem_executed s extracted st
on_intent_executed s now (hold reason) true extracted st = st

abbrev pub is_invested : Phase → Bool
is_invested deposited = true
is_invested compounding = true
is_invested redeeming = true
is_invested _ = false

abbrev pub has_position : State → Bool
has_position st = is_invested st.phase && ltb 0 st.deposit_shares

-- `get_open_positions`: the reported USD value of each position.
unfoldable pub get_open_positions : State → List ℕ
get_open_positions st = if has_position st then st.total_deposited ∷ [] else []

-- `generate_teardown_intents`
unfoldable pub generate_teardown_intents : State → List Intent
generate_teardown_intents st = if has_position st then vault_redeem ∷ [] else []
