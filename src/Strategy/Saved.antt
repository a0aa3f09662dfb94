-- ===== src/Strategy/Saved.antt =====
-- demos/metamorpho_base_yield/strategy.py: `get_persistent_state` and `load_persistent_state`, on
-- the dict that is persisted. The printing and reading of a `Decimal` and of a `datetime`, `int`
-- of a text and `repr` are parameters.
use almanak_keeperhub.Prelude.{ℕ, String, Option, none, some, str_eq, if◌then◌else◌}
use almanak_keeperhub.Prelude.Int.{ℤ, pos, negsuc}
use almanak_keeperhub.Python.Json.{
  Value, Dict, null, bool, num, str, empty, entry, find, get, truthy, text_of,
}
use almanak_keeperhub.Strategy.{
  Phase, idle, depositing, deposited, compounding, redeeming, unknown, State,
}

-- `str(Decimal)` and `Decimal(text)`, `isoformat` and `fromisoformat`, `int(text)` and `repr`;
-- none is an exception.
pub record Texts : Type 0 where
  pub str_decimal : ℤ → String
  pub decimal : String → Option ℤ
  pub isoformat : ℕ → String
  pub fromisoformat : String → Option ℕ
  pub int_text : String → Option ℤ
  pub repr : Value → String

-- The strings of `_state`.
unfoldable pub state_text : Phase → String
state_text idle = "idle"
state_text depositing = "depositing"
state_text deposited = "deposited"
state_text compounding = "compounding"
state_text redeeming = "redeeming"
state_text (unknown name) = name

unfoldable pub phase_of : String → Phase
phase_of name =
    if str_eq name "idle"
    then idle
    else if str_eq name "depositing"
    then depositing
    else if str_eq name "deposited"
    then deposited
    else if str_eq name "compounding"
    then compounding
    else if str_eq name "redeeming"
    then redeeming
    else unknown name

-- `t.isoformat() if t else None`
unfoldable pub saved_instant : Texts → Option ℕ → Value
saved_instant t none = null
saved_instant t (some at) = str (t.isoformat at)

-- `str(rate) if rate is not None else None`
unfoldable pub saved_rate : Texts → Option ℤ → Value
saved_rate t none = null
saved_rate t (some rate) = str (t.str_decimal rate)

unfoldable pub get_persistent_state : Texts → State → Dict
get_persistent_state t st = entry "state" (str (state_text st.phase)) (
    entry "previous_stable_state" (str (state_text st.previous_stable_state)) (
      entry "total_deposited" (str (t.str_decimal (pos st.total_deposited))) (
        entry "deposit_shares" (str (t.str_decimal (pos st.deposit_shares))) (
          entry "deposit_timestamp" (saved_instant t st.deposit_timestamp) (
            entry "last_compound_time" (saved_instant t st.last_compound_time) (
              entry "redeem_assets" (str (t.str_decimal (pos st.redeem_assets))) (
                entry "total_yield_earned" (str (t.str_decimal (pos st.total_yield_earned))) (
                  entry "epochs_completed" (num (pos st.epochs_completed)) (
                    entry "compounds_completed" (num (pos st.compounds_completed)) (
                      entry "current_apy" (saved_rate t st.current_apy)
                        (entry "below_floor_count" (num (pos st.below_floor_count)) empty)))))))))))

-- What none stands for in a load: an exception, or a number below zero where the state has none.
infixl 10 ◌>>=◌
abbrev ◌>>=◌ : {A B : Type 0} → Option A → (A → Option B) → Option B
none >>= f = none
some a >>= f = f a

abbrev natural : ℤ → Option ℕ
natural (pos n) = some n
natural (negsuc n) = none

-- `if key in state: ...`, of a string, of a `Decimal` and of an `int`.
unfoldable pub loaded_phase : Texts → Option Value → Phase → Phase
loaded_phase t none old = old
loaded_phase t (some (str name)) old = phase_of name
loaded_phase t (some v) old = unknown (text_of t.repr v)

unfoldable pub loaded_amount : Texts → Option Value → ℕ → Option ℕ
loaded_amount t none old = some old
loaded_amount t (some v) old = t.decimal (text_of t.repr v) >>= natural

unfoldable pub loaded_count : Texts → Option Value → ℕ → Option ℕ
loaded_count t none old = some old
loaded_count t (some (num n)) old = natural n
loaded_count t (some (str s)) old = t.int_text s >>= natural
loaded_count t (some (bool b)) old = some (if b then 1 else 0)
loaded_count t (some v) old = none

read_instant : Texts → Value → Option (Option ℕ)
read_instant t (str s) = t.fromisoformat s >>= λ at. some (some at)
read_instant t v = none

-- `if state.get(key): ...`, of an instant and of a rate.
unfoldable pub loaded_instant : Texts → Value → Option ℕ → Option (Option ℕ)
unfolding read_instant
loaded_instant t v old = if truthy v then read_instant t v else some old

unfoldable pub loaded_rate : Texts → Value → Option ℤ → Option (Option ℤ)
loaded_rate t v old =
    if truthy v then (t.decimal (text_of t.repr v) >>= λ rate. some (some rate)) else some old

unfoldable pub load_persistent_state : Texts → Dict → State → Option State
load_persistent_state t d st = do
  total_deposited ← loaded_amount t (find "total_deposited" d) st.total_deposited
  deposit_shares ← loaded_amount t (find "deposit_shares" d) st.deposit_shares
  deposit_timestamp ← loaded_instant t (get "deposit_timestamp" d) st.deposit_timestamp
  last_compound_time ← loaded_instant t (get "last_compound_time" d) st.last_compound_time
  redeem_assets ← loaded_amount t (find "redeem_assets" d) st.redeem_assets
  total_yield_earned ← loaded_amount t (find "total_yield_earned" d) st.total_yield_earned
  epochs_completed ← loaded_count t (find "epochs_completed" d) st.epochs_completed
  compounds_completed ← loaded_count t (find "compounds_completed" d) st.compounds_completed
  below_floor_count ← loaded_count t (find "below_floor_count" d) st.below_floor_count
  current_apy ← loaded_rate t (get "current_apy" d) st.current_apy
  some (record {
    phase = loaded_phase t (find "state" d) st.phase;
    previous_stable_state =
        loaded_phase t (find "previous_stable_state" d) st.previous_stable_state;
    total_deposited = total_deposited;
    deposit_shares = deposit_shares;
    deposit_timestamp = deposit_timestamp;
    last_compound_time = last_compound_time;
    last_seen_market_ts = st.last_seen_market_ts;
    redeem_assets = redeem_assets;
    total_yield_earned = total_yield_earned;
    epochs_completed = epochs_completed;
    compounds_completed = compounds_completed;
    current_apy = current_apy;
    below_floor_count = below_floor_count;
  })
