-- ===== src/Strategy/Rules.antt =====
-- When the strategy moves capital.
use almanak_keeperhub.Prelude.{
  ℕ, ◌+◌, ◌*◌, ◌/◌, ◌≤◌, ◌≡◌, ◌⊎◌, refl, inl, inr, Bool, true, false, Option, none, some, arith,
  ltb, leb, leb→le, Bool-cases,
}
use almanak_keeperhub.Prelude.Int.{ℤ, ltb_ℤ}
use almanak_keeperhub.Errors.{Result, ok, err}
use almanak_keeperhub.Strategy.{
  Phase, idle, depositing, deposited, compounding, redeeming, unknown, Settings, State, Balance,
  Reading, value, unavailable, Market, Intent, hold, vault_deposit, vault_redeem, one_unit, smaller,
  read_apy, enter, gate, handle_idle, should_compound, idle_balance, stay, compound, healthy,
  sagging, monitor, handle_deposited, revert, decide_in, decide,
}

-- The rate can be read, and it is at the floor or above.
abbrev pub IsHealthy : ℤ → Reading (Option ℤ) → Type 0
IsHealthy floor (value (some apy)) = ltb_ℤ apy floor ≡ false
IsHealthy floor reading = ⊥

-- The rate can be read, and it is below the floor.
abbrev pub IsSagging : ℤ → Reading (Option ℤ) → Type 0
IsSagging floor (value (some apy)) = ltb_ℤ apy floor ≡ true
IsSagging floor reading = ⊥

-- The balance can be read, and it covers a first deposit within the configured share.
abbrev pub Affordable : Settings → Reading Balance → ℕ → Type 0
Affordable s (value b) amount =
    (s.min_deposit_usd ≤ b.balance_usd)
    × (one_unit ≤ amount)
    × (amount ≤ s.deposit_amount)
    × (amount * 100 ≤ b.balance * s.max_vault_allocation_pct)
Affordable s (unavailable problem) amount = ⊥

abbrev pub IsEntry : Settings → Market → State → ℕ → Type 0
IsEntry s market st amount =
    (st.phase ≡ idle)
    × Affordable s market.balance amount
    × ¬ (IsSagging s.min_apy_floor market.rate)

abbrev pub IsCompound : Settings → Market → State → ℕ → Type 0
IsCompound s market st amount =
    (st.phase ≡ deposited)
    × IsHealthy s.min_apy_floor market.rate
    × (s.min_deposit_usd ≤ (idle_balance market.balance).balance_usd)
    × (amount ≤ (idle_balance market.balance).balance)
    × (amount ≤ s.deposit_amount)

abbrev pub IsExit : Settings → Market → State → Type 0
IsExit s market st =
    (st.phase ≡ deposited)
    × IsSagging s.min_apy_floor market.rate
    × (s.exit_confirm_checks ≤ st.below_floor_count + 1)

-- What lets the strategy decide an intent.
abbrev pub IsJustified : Settings → Market → State → Result Intent → Type 0
IsJustified s market st (ok (vault_deposit amount)) =
    IsEntry s market st amount ⊎ IsCompound s market st amount
IsJustified s market st (ok vault_redeem) = IsExit s market st
IsJustified s market st (ok (hold reason)) = Unit
IsJustified s market st (err e) = Unit

module _ (s : Settings) (now : ℕ) (market : Market) (st : State) where
  smaller-left : (a b : ℕ) → smaller a b ≤ a
  smaller-left a b = ground arith

  smaller-right : (a b : ℕ) → smaller a b ≤ b
  smaller-right a b = ground arith

  large_enough : (a b : ℕ) → ltb a b ≡ false → b ≤ a
  large_enough a b e = ground arith

  share : (a m : ℕ) → a ≤ m / 100 → a * 100 ≤ m
  share a m h = omega arith

  enter-IsJustified :
      (b : Balance) (v : State)
      → st.phase ≡ idle
      → market.balance ≡ value b
      → s.min_deposit_usd ≤ b.balance_usd
      → ¬ (IsSagging s.min_apy_floor market.rate)
      → IsJustified s market st (enter s now b.balance v).0
  unfolding enter
  enter-IsJustified b v at read rich floor =
      elim (Bool-cases
        (ltb (smaller s.deposit_amount (b.balance * s.max_vault_allocation_pct / 100)) one_unit)) [
          | inl small ↦ rw small tt
          | inr large ↦ rw large (
              inl (
                at,
                rw read
                    (rich, large_enough _ _ large, smaller-left _ _, share _ _ (smaller-right _ _)),
                floor,
              ))
        ]

  gate-IsJustified :
      (b : Balance) (v : State) (rate : Reading (Option ℤ))
      → st.phase ≡ idle
      → market.balance ≡ value b
      → s.min_deposit_usd ≤ b.balance_usd
      → market.rate ≡ rate
      → IsJustified s market st
          (gate s now b.balance (read_apy (record market { rate = rate }) v)).0
  unfolding gate read_apy
  gate-IsJustified b v (unavailable problem) at read rich e =
      enter-IsJustified b v at read rich (rw e (λ p. p))
  gate-IsJustified b v (value none) at read rich e = tt
  gate-IsJustified b v (value (some apy)) at read rich e =
      elim (Bool-cases (ltb_ℤ apy s.min_apy_floor)) [
        | inl low ↦ rw low tt
        | inr high ↦ rw high (enter-IsJustified b _ at read rich (rw e (λ p. differ _ high p)))
      ]
    where
      differ : (b : Bool) → b ≡ false → ¬ (b ≡ true)
      differ b p q = cc

  handle_idle-IsJustified :
      (v : State) (balance : Reading Balance)
      → st.phase ≡ idle
      → market.balance ≡ balance
      → IsJustified s market st (handle_idle s now (record market { balance = balance }) v).0
  unfolding handle_idle read_apy
  handle_idle-IsJustified v (unavailable problem) at read = tt
  handle_idle-IsJustified v (value b) at read =
      elim (Bool-cases (ltb b.balance_usd s.min_deposit_usd)) [
        | inl poor ↦ rw poor tt
        | inr rich ↦ rw rich (gate-IsJustified b v market.rate at read (large_enough _ _ rich) refl)
      ]

  compound-IsJustified :
      (v : State)
      → st.phase ≡ deposited
      → IsHealthy s.min_apy_floor market.rate
      → IsJustified s market st (compound s (idle_balance market.balance) v).0
  unfolding compound stay
  compound-IsJustified v at high =
      elim (Bool-cases (leb s.min_deposit_usd (idle_balance market.balance).balance_usd)) [
        | inl rich ↦ rw rich (inr (at, high, leb→le _ _ rich, smaller-left _ _, smaller-right _ _))
        | inr poor ↦ rw poor tt
      ]

  healthy-IsJustified :
      (v : State)
      → st.phase ≡ deposited
      → IsHealthy s.min_apy_floor market.rate
      → IsJustified s market st (healthy s now market v).0
  unfolding healthy stay
  healthy-IsJustified v at high =
      elim (Bool-cases (should_compound s now (record v { below_floor_count = 0 }))) [
        | inl due ↦ rw due (compound-IsJustified _ at high)
        | inr early ↦ rw early tt
      ]

  sagging-IsJustified :
      (v : State) (apy : ℤ)
      → v.below_floor_count ≡ st.below_floor_count
      → st.phase ≡ deposited
      → IsSagging s.min_apy_floor market.rate
      → IsJustified s market st (sagging s apy v).0
  unfolding sagging
  sagging-IsJustified v apy same at low =
      elim (Bool-cases (leb s.exit_confirm_checks (v.below_floor_count + 1))) [
        | inl enough ↦ rw enough (at, low, rw⁻¹ same (leb→le _ _ enough))
        | inr few ↦ rw few tt
      ]

  monitor-IsJustified :
      (v : State) (rate : Reading (Option ℤ))
      → v.below_floor_count ≡ st.below_floor_count
      → st.phase ≡ deposited
      → market.rate ≡ rate
      → IsJustified s market st
          (monitor s now market (read_apy (record market { rate = rate }) v)).0
  unfolding monitor read_apy
  monitor-IsJustified v (unavailable problem) same at e = tt
  monitor-IsJustified v (value none) same at e = tt
  monitor-IsJustified v (value (some apy)) same at e =
      elim (Bool-cases (ltb_ℤ apy s.min_apy_floor)) [
        | inl low ↦ rw low (sagging-IsJustified _ apy same at (rw e low))
        | inr high ↦ rw high (healthy-IsJustified _ at (rw e high))
      ]

  decide_in-IsJustified :
      (phase : Phase) (v : State)
      → st.phase ≡ phase
      → v.below_floor_count ≡ st.below_floor_count
      → IsJustified s market st (decide_in phase s now market v).0
  unfolding decide_in revert handle_deposited
  decide_in-IsJustified idle v at same = handle_idle-IsJustified v market.balance at refl
  decide_in-IsJustified deposited v at same = monitor-IsJustified v market.rate same at refl
  decide_in-IsJustified depositing v at same = tt
  decide_in-IsJustified redeeming v at same = tt
  decide_in-IsJustified compounding v at same = tt
  decide_in-IsJustified (unknown name) v at same = tt

-- The strategy deposits only from idle, a readable balance of the minimum value and an amount of
-- one unit at least, within the configured amount and share of the balance, unless the rate can be
-- read and is below the floor, or from deposited, at a readable rate that is not below the floor,
-- an amount within the idle balance; it redeems only from deposited, at a readable rate below the
-- floor that is the last of the configured number of confirmations.
pub decide-IsJustified :
    (s : Settings) (now : ℕ) (market : Market) (st : State)
    → IsJustified s market st (decide s now market st).0
unfolding decide
decide-IsJustified s now market st = decide_in-IsJustified s now market st st.phase _ refl refl
