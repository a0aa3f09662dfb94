-- ===== src/Strategy/Reach.antt =====
-- The runs of the strategy: the framework asks it to decide, and reports an intent that it decided
-- before it asks again, or loses the report.
use std.Path.{subst}
use almanak_keeperhub.Prelude.{
  sym, ◌∙◌, ◌⊎◌, ◌*◌, ◌/◌, ℕ, ◌+◌, ◌≡◌, refl, Bool, true, false, Option, none, some, [], ◌∷◌, arith,
  ltb, leb, ◌&&◌, if◌then◌else◌, Bool-cases, inl, inr,
}
use almanak_keeperhub.Prelude.Int.{ℤ, ltb_ℤ}
use almanak_keeperhub.Errors.{Result}
use almanak_keeperhub.Strategy.{
  Phase, idle, depositing, deposited, compounding, redeeming, unknown, Settings, State, initial,
  Balance, Reading, value, unavailable, Market, Intent, vault_deposit, vault_redeem, Extracted,
  Decided, one_unit, smaller, read_apy, enter, gate, handle_idle, should_compound, idle_balance,
  stay, compound, healthy, sagging, monitor, handle_deposited, revert, decide_in, decide,
  confirm_phase, add_deposit, deposit_executed, redeem_executed, on_intent_executed, is_invested,
  has_position, get_open_positions, generate_teardown_intents,
}
use almanak_keeperhub.Strategy.Runs.{
  awaited, Reaches, start, ticks, reports, tears_down, IsEmpty, Fits, IsSound,
}

record Settles (d : Decided) : Type 0 where
  sound : IsSound d.1 (awaited d.0)

Fits-at :
    (phase : Phase) (v : State) (waiting : Option Intent)
    → v.phase ≡ phase
    → Fits phase v waiting
    → IsSound v waiting
Fits-at phase v waiting at p = subst (λ x. Fits x v waiting) (sym at) p

module _ (s : Settings) (now : ℕ) (market : Market) where
  rests-idle :
      {r : Result Intent} (v : State)
      → awaited r ≡ none
      → v.phase ≡ idle
      → IsEmpty v
      → Settles (r, v)
  rests-idle {r} v quiet at empty = record {
    sound = Fits-at idle v (awaited r) at (rw quiet empty);
  }

  rests-deposited :
      {r : Result Intent} (v : State) → awaited r ≡ none → v.phase ≡ deposited → Settles (r, v)
  rests-deposited {r} v quiet at = record {
    sound = Fits-at deposited v (awaited r) at (rw quiet tt);
  }

  enter-IsSound :
      (available : ℕ) (v : State) → v.phase ≡ idle → IsEmpty v → Settles (enter s now available v)
  unfolding enter
  enter-IsSound available v at empty =
      elim (Bool-cases
        (ltb (smaller s.deposit_amount (available * s.max_vault_allocation_pct / 100)) one_unit)) [
          | inl e ↦ rw e (rests-idle v refl at empty)
          | inr e ↦ rw e (record { sound = (at, empty) })
        ]

  gate-IsSound :
      (available : ℕ) (v : State) (rate : Reading (Option ℤ))
      → v.phase ≡ idle
      → IsEmpty v
      → Settles (gate s now available (read_apy (record market { rate = rate }) v))
  unfolding gate read_apy
  gate-IsSound available v (unavailable problem) at empty = enter-IsSound available v at empty
  gate-IsSound available v (value none) at empty = rests-idle v refl at empty
  gate-IsSound available v (value (some apy)) at empty =
      elim (Bool-cases (ltb_ℤ apy s.min_apy_floor)) [
        | inl e ↦ rw e (rests-idle _ refl at empty)
        | inr e ↦ rw e (enter-IsSound available _ at empty)
      ]

  handle_idle-IsSound :
      (v : State) (balance : Reading Balance)
      → v.phase ≡ idle
      → IsEmpty v
      → Settles (handle_idle s now (record market { balance = balance }) v)
  unfolding handle_idle read_apy
  handle_idle-IsSound v (unavailable problem) at empty = rests-idle v refl at empty
  handle_idle-IsSound v (value b) at empty =
      elim (Bool-cases (ltb b.balance_usd s.min_deposit_usd)) [
        | inl e ↦ rw e (rests-idle v refl at empty)
        | inr e ↦ rw e (gate-IsSound b.balance v market.rate at empty)
      ]

  compound-IsSound :
      (v : State) → v.phase ≡ deposited → Settles (compound s (idle_balance market.balance) v)
  unfolding compound stay
  compound-IsSound v at =
      elim (Bool-cases (leb s.min_deposit_usd (idle_balance market.balance).balance_usd)) [
        | inl e ↦ rw e (record { sound = at })
        | inr e ↦ rw e (rests-deposited v refl at)
      ]

  healthy-IsSound : (v : State) → v.phase ≡ deposited → Settles (healthy s now market v)
  unfolding healthy stay
  healthy-IsSound v at =
      elim (Bool-cases (should_compound s now (record v { below_floor_count = 0 }))) [
        | inl e ↦ rw e (compound-IsSound _ at)
        | inr e ↦ rw e (rests-deposited _ refl at)
      ]

  sagging-IsSound : (v : State) (apy : ℤ) → v.phase ≡ deposited → Settles (sagging s apy v)
  unfolding sagging
  sagging-IsSound v apy at =
      elim (Bool-cases (leb s.exit_confirm_checks (v.below_floor_count + 1))) [
        | inl e ↦ rw e (record { sound = at })
        | inr e ↦ rw e (rests-deposited _ refl at)
      ]

  monitor-IsSound :
      (v : State) (rate : Reading (Option ℤ))
      → v.phase ≡ deposited
      → Settles (monitor s now market (read_apy (record market { rate = rate }) v))
  unfolding monitor read_apy
  monitor-IsSound v (unavailable problem) at = rests-deposited v refl at
  monitor-IsSound v (value none) at = rests-deposited v refl at
  monitor-IsSound v (value (some apy)) at = elim (Bool-cases (ltb_ℤ apy s.min_apy_floor)) [
    | inl e ↦ rw e (sagging-IsSound _ apy at)
    | inr e ↦ rw e (healthy-IsSound _ at)
  ]

  decide_in-IsSound :
      (phase : Phase) (v : State) (waiting : Option Intent)
      → v.phase ≡ phase
      → Fits phase v waiting
      → Settles (decide_in phase s now market v)
  unfolding decide_in revert handle_deposited
  decide_in-IsSound idle v none at p = handle_idle-IsSound v market.balance at p
  decide_in-IsSound deposited v none at p = monitor-IsSound v market.rate at
  decide_in-IsSound depositing v (some (vault_deposit amount)) at p = record {
    sound = Fits-at idle (record v { phase = v.previous_stable_state }) none p.0 p.1;
  }
  decide_in-IsSound compounding v (some (vault_deposit amount)) at p = record {
    sound = Fits-at deposited (record v { phase = v.previous_stable_state }) none p tt;
  }
  decide_in-IsSound redeeming v (some vault_redeem) at p = record {
    sound = Fits-at deposited (record v { phase = v.previous_stable_state }) none p tt;
  }
  decide_in-IsSound phase v waiting at p = elim p [ ]

Fits-seen :
    (phase : Phase) (st : State) (seen : Option ℕ) (waiting : Option Intent)
    → Fits phase st waiting
    → Fits phase (record st { last_seen_market_ts = seen }) waiting
Fits-seen idle st seen none p = p
Fits-seen deposited st seen none p = p
Fits-seen depositing st seen (some (vault_deposit amount)) p = p
Fits-seen compounding st seen (some (vault_deposit amount)) p = p
Fits-seen redeeming st seen (some vault_redeem) p = p
Fits-seen phase st seen waiting p = elim p [ ]

module _ (s : Settings) (now : ℕ) (extracted : Extracted) where
  confirm_phase-deposited :
      (phase : Phase) (st : State) → (confirm_phase now phase st).phase ≡ deposited
  unfolding confirm_phase
  confirm_phase-deposited compounding st = refl
  confirm_phase-deposited idle st = refl
  confirm_phase-deposited depositing st = refl
  confirm_phase-deposited deposited st = refl
  confirm_phase-deposited redeeming st = refl
  confirm_phase-deposited (unknown name) st = refl

  add_deposit-phase :
      (st : State) (found : Option (ℕ × ℕ)) → (add_deposit s found st).phase ≡ st.phase
  unfolding add_deposit
  add_deposit-phase st none = refl
  add_deposit-phase st (some (assets, shares)) = refl

  deposit_executed-IsSound : (st : State) → IsSound (deposit_executed s now extracted st) none
  unfolding deposit_executed
  deposit_executed-IsSound st =
      Fits-at deposited _ none
        (add_deposit-phase _ extracted.deposit_data ∙ confirm_phase-deposited st.phase st) tt

  on_intent_executed-IsSound :
      (phase : Phase) (intent : Intent) (success : Bool) (st : State)
      → Fits phase st (some intent)
      → IsSound (on_intent_executed s now intent success extracted st) none
  unfolding on_intent_executed redeem_executed
  on_intent_executed-IsSound depositing (vault_deposit amount) true st p =
      deposit_executed-IsSound st
  on_intent_executed-IsSound compounding (vault_deposit amount) true st p =
      deposit_executed-IsSound st
  on_intent_executed-IsSound redeeming vault_redeem true st p = (refl, refl)
  on_intent_executed-IsSound depositing (vault_deposit amount) false st p =
      Fits-at idle (record st { phase = st.previous_stable_state }) none p.0 p.1
  on_intent_executed-IsSound compounding (vault_deposit amount) false st p =
      Fits-at deposited (record st { phase = st.previous_stable_state }) none p tt
  on_intent_executed-IsSound redeeming vault_redeem false st p =
      Fits-at deposited (record st { phase = st.previous_stable_state }) none p tt
  on_intent_executed-IsSound phase intent success st p = elim p [ ]

torn_down-IsSound :
    (s : Settings) (now : ℕ) (extracted : Extracted) (success : Bool) (st : State)
    → (success ≡ true) ⊎ (st.previous_stable_state ≡ deposited)
    → IsSound (on_intent_executed s now vault_redeem success extracted st) none
unfolding on_intent_executed redeem_executed
torn_down-IsSound s now extracted true st ends = (refl, refl)
torn_down-IsSound s now extracted false st (inl wrong) = absurd (ground arith)
torn_down-IsSound s now extracted false st (inr back) =
    Fits-at deposited (record st { phase = st.previous_stable_state }) none back tt

-- In every run of decisions, of the reports of what they decide, and of redemptions of a teardown
-- that succeed or fail where the previous stable state is deposited, the phase tells the truth: an
-- idle strategy has deposited nothing and awaits no report; one that deposits, compounds or
-- redeems awaits the report of that intent, and goes back, should it fail or get lost, to idle
-- with nothing deposited or to deposited; and no other phase occurs.
pub Reaches-IsSound :
    (s : Settings) (st : State) (waiting : Option Intent)
    → Reaches s st waiting
    → IsSound st waiting
unfolding initial decide
Reaches-IsSound s st waiting start = (refl, refl)
Reaches-IsSound s _ _ (ticks now market st waiting run) =
    (decide_in-IsSound s now market st.phase (record st { last_seen_market_ts = market.timestamp })
      waiting refl
      (Fits-seen st.phase st market.timestamp waiting (Reaches-IsSound s st waiting run))).sound
Reaches-IsSound s _ _ (reports now intent success extracted st run) =
    on_intent_executed-IsSound s now extracted st.phase intent success st
      (Reaches-IsSound s st (some intent) run)
Reaches-IsSound s _ _ (tears_down now success extracted st waiting planned ends run) =
    torn_down-IsSound s now extracted success st ends

uninvested :
    (phase : Phase) (st : State) (waiting : Option Intent)
    → Fits phase st waiting
    → is_invested phase ≡ false
    → st.deposit_shares ≡ 0
uninvested idle st none p out = p.1
uninvested depositing st (some (vault_deposit amount)) p out = p.1.1
uninvested deposited st none p out = cc
uninvested compounding st (some (vault_deposit amount)) p out = cc
uninvested redeeming st (some vault_redeem) p out = cc
uninvested phase st waiting p out = elim p [ ]

empty_if : {A : Type 0} (b : Bool) (a : A) → (if b then a ∷ [] else []) ≡ [] → b ≡ false
empty_if true a p = cc
empty_if false a p = refl

no_shares : (b : Bool) (n : ℕ) → (b && ltb 0 n) ≡ false → b ≡ true → n ≡ 0
no_shares b n p q = ground arith

shares-zero :
    (st : State) (waiting : Option Intent)
    → IsSound st waiting
    → has_position st ≡ false
    → st.deposit_shares ≡ 0
shares-zero st waiting sound closed = elim (Bool-cases (is_invested st.phase)) [
  | inl invested ↦ no_shares _ _ closed invested
  | inr out ↦ uninvested st.phase st waiting sound out
]

-- In every run of decisions, of the reports of what they decide, and of redemptions of a teardown
-- that succeed or fail where the previous stable state is deposited, a strategy whose teardown
-- redeems nothing, or that reports no open position, has no shares recorded.
pub teardown-covers :
    (s : Settings) (st : State) (waiting : Option Intent)
    → Reaches s st waiting
    → (generate_teardown_intents st ≡ []) ⊎ (get_open_positions st ≡ [])
    → st.deposit_shares ≡ 0
unfolding generate_teardown_intents get_open_positions
teardown-covers s st waiting run (inl silent) =
    shares-zero st waiting (Reaches-IsSound s st waiting run) (empty_if _ _ silent)
teardown-covers s st waiting run (inr silent) =
    shares-zero st waiting (Reaches-IsSound s st waiting run) (empty_if _ _ silent)
