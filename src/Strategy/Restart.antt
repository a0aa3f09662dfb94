-- ===== src/Strategy/Restart.antt =====
-- demos/metamorpho_base_yield/strategy.py: a strategy that starts again from what was persisted.
use almanak_keeperhub.Prelude.{ℕ, String, ◌≡◌, refl, true, Option, none, some, arith}
use almanak_keeperhub.Prelude.Int.{ℤ, pos}
use almanak_keeperhub.Python.Json.{str, find, text_of, truthy}
use almanak_keeperhub.Strategy.{Phase, Settings, State, initial, Market, decide}
use almanak_keeperhub.Strategy.Saved.{
  Texts, state_text, phase_of, saved_instant, saved_rate, get_persistent_state, loaded_phase,
  loaded_amount, loaded_count, loaded_instant, loaded_rate, load_persistent_state,
}

-- Python reads its own texts back, and reads nothing from an empty one.
pub record IsExact (t : Texts) : Type 0 where
  pub decimals : (n : ℤ) → t.decimal (t.str_decimal n) ≡ some n
  pub instants : (at : ℕ) → t.fromisoformat (t.isoformat at) ≡ some at
  pub no_decimal : t.decimal "" ≡ none
  pub no_instant : t.fromisoformat "" ≡ none

-- A phase that is named as it is: an unknown one has none of the names of the others.
abbrev pub IsNamed : Phase → Type 0
IsNamed phase = phase_of (state_text phase) ≡ phase

-- A text that is read where an empty one is not is true.
printed :
    {A : Type 0} (s : String) (read : String → Option A) (a : A)
    → read "" ≡ none
    → read s ≡ some a
    → truthy (str s) ≡ true
printed String.[] read a blank back = absurd (ground (arith, blank, back))
printed (String.◌∷◌ c s) read a blank back = refl

module _ (t : Texts) (exact : IsExact t) where
  amount-back : (n old : ℕ) → loaded_amount t (some (str (t.str_decimal (pos n)))) old ≡ some n
  unfolding loaded_amount text_of
  amount-back n old = rw (exact.decimals (pos n)) refl

  instant-back : (o : Option ℕ) → loaded_instant t (saved_instant t o) none ≡ some o
  unfolding loaded_instant saved_instant
  instant-back none = refl
  instant-back (some at) =
      rw (printed (t.isoformat at) t.fromisoformat at exact.no_instant (exact.instants at))
        (rw (exact.instants at) refl)

  rate-back : (o : Option ℤ) → loaded_rate t (saved_rate t o) none ≡ some o
  unfolding loaded_rate saved_rate text_of
  rate-back none = refl
  rate-back (some rate) =
      rw (printed (t.str_decimal rate) t.decimal rate exact.no_decimal (exact.decimals rate))
        (rw (exact.decimals rate) refl)

  restored :
      (st : State)
      → IsNamed st.phase
      → IsNamed st.previous_stable_state
      → load_persistent_state t (get_persistent_state t st) initial
        ≡ some (record st { last_seen_market_ts = none })
  unfolding load_persistent_state get_persistent_state initial find loaded_count loaded_phase
  restored st named before = rw (amount-back st.total_deposited 0) (
      rw (amount-back st.deposit_shares 0) (
        rw (instant-back st.deposit_timestamp) (
          rw (instant-back st.last_compound_time) (
            rw (amount-back st.redeem_assets 0) (
              rw (amount-back st.total_yield_earned 0)
                (rw (rate-back st.current_apy) (rw named (rw before refl))))))))

-- A restart is invisible: a new strategy that loads the dict that another persisted has all of its
-- fields but the market clock, and decides, with the state that it leaves, as the other would;
-- given that the texts of numbers and instants are read back as they were, and that no unknown
-- phase has the name of another one.
pub load_persistent_state-decide :
    (t : Texts) (s : Settings) (now : ℕ) (market : Market) (st : State)
    → IsExact t
    → IsNamed st.phase
    → IsNamed st.previous_stable_state
    → (load_persistent_state t (get_persistent_state t st) initial
        ≡ some (record st { last_seen_market_ts = none }))
      × (decide s now market (record st { last_seen_market_ts = none }) ≡ decide s now market st)
unfolding decide
load_persistent_state-decide t s now market st exact named before =
    (restored t exact st named before, refl)
