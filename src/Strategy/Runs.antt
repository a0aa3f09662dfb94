-- ===== src/Strategy/Runs.antt =====
-- demos/metamorpho_base_yield/strategy.py: the states that a run of the strategy reaches.
use almanak_keeperhub.Prelude.{ℕ, ◌≡◌, Bool, true, Option, none, some, [], ◌∷◌, ◌⊎◌}
use almanak_keeperhub.Errors.{Result, ok, err}
use almanak_keeperhub.Strategy.{
  Phase, idle, depositing, deposited, compounding, redeeming, Settings, State, initial, Market,
  Intent, hold, vault_deposit, vault_redeem, Extracted, decide, on_intent_executed,
  generate_teardown_intents,
}

-- The intent that waits for its report.
abbrev pub awaited : Result Intent → Option Intent
awaited (ok (hold reason)) = none
awaited (ok (vault_deposit amount)) = some (vault_deposit amount)
awaited (ok vault_redeem) = some vault_redeem
awaited (err e) = none

-- The states that a run reaches, with the intent that waits for its report. A teardown redeems in
-- the place of what waits; the one report that no run has is that of a failed redemption of a
-- teardown where the previous stable state is not `deposited`.
pub data Reaches (s : Settings) : State → Option Intent → Type 0 where
  start : Reaches s initial none
  ticks :
      (now : ℕ) (market : Market) (st : State) (waiting : Option Intent)
      → Reaches s st waiting
      → Reaches s (decide s now market st).1 (awaited (decide s now market st).0)
  reports :
      (now : ℕ) (intent : Intent) (success : Bool) (extracted : Extracted) (st : State)
      → Reaches s st (some intent)
      → Reaches s (on_intent_executed s now intent success extracted st) none
  tears_down :
      (now : ℕ) (success : Bool) (extracted : Extracted) (st : State) (waiting : Option Intent)
      → generate_teardown_intents st ≡ vault_redeem ∷ []
      → (success ≡ true) ⊎ (st.previous_stable_state ≡ deposited)
      → Reaches s st waiting
      → Reaches s (on_intent_executed s now vault_redeem success extracted st) none

-- Nothing is deposited.
abbrev pub IsEmpty : State → Type 0
IsEmpty st = (st.total_deposited ≡ 0) × (st.deposit_shares ≡ 0)

-- What each phase says of the state and of the intent that waits.
abbrev pub Fits : Phase → State → Option Intent → Type 0
Fits idle st none = IsEmpty st
Fits deposited st none = Unit
Fits depositing st (some (vault_deposit amount)) = (st.previous_stable_state ≡ idle) × IsEmpty st
Fits compounding st (some (vault_deposit amount)) = st.previous_stable_state ≡ deposited
Fits redeeming st (some vault_redeem) = st.previous_stable_state ≡ deposited
Fits phase st waiting = ⊥

abbrev pub IsSound : State → Option Intent → Type 0
IsSound st waiting = Fits st.phase st waiting
