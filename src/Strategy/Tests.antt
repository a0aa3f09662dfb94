-- ===== src/Strategy/Tests.antt =====
-- A run of the strategy on a healthy market.
use Prim.Native.Char.{code}
use almanak_keeperhub.Prelude.{
  ℕ, zero, suc, ◌+◌, ◌==◌, String, Option, if◌then◌else◌, arith, ◌*◌, ◌≡◌, refl, true, false, [],
  ◌∷◌, some, none, inl,
}
use almanak_keeperhub.Prelude.Int.{ℤ, pos, negsuc}
use almanak_keeperhub.Strategy.{
  deposited, Settings, State, initial, Market, value, vault_deposit, vault_redeem, Extracted,
  one_unit, decide, decide_in, handle_idle, gate, read_apy, enter, generate_teardown_intents,
  on_intent_executed, deposit_executed, confirm_phase, add_deposit,
}
use almanak_keeperhub.Strategy.Config.{Config}
use almanak_keeperhub.Strategy.Rules.{IsJustified, decide-IsJustified}
use almanak_keeperhub.Strategy.Runs.{Reaches, start, ticks, reports, tears_down, awaited, IsSound}
use almanak_keeperhub.Strategy.Reach.{Reaches-IsSound, teardown-covers}
use almanak_keeperhub.Strategy.Saved.{
  Texts, state_text, phase_of, get_persistent_state, load_persistent_state,
}
use almanak_keeperhub.Strategy.Restart.{IsExact, load_persistent_state-decide}
use almanak_keeperhub.Python.Text.{char_of}

abbrev settings : Settings
settings = record {
  deposit_amount = 1000 * one_unit;
  min_deposit_usd = 100 * one_unit;
  max_vault_allocation_pct = 80;
  compound_interval_hours = 24;
  deposit_token_decimals = 6;
  min_apy_floor = pos (3 * one_unit);
  exit_confirm_checks = 2;
}

abbrev market : Market
market = record {
  timestamp = some 7;
  balance = value (record { balance = 500 * one_unit; balance_usd = 500 * one_unit });
  rate = value (some (pos (5 * one_unit)));
}

abbrev entered : State
entered = (decide settings 8 market initial).1

enters : awaited (decide settings 8 market initial).0 ≡ some (vault_deposit (400 * one_unit))
unfolding decide decide_in handle_idle gate read_apy enter initial
enters = refl

entering : Reaches settings entered (some (vault_deposit (400 * one_unit)))
unfolding decide decide_in handle_idle gate read_apy enter initial
entering = ticks 8 market initial none start

abbrev received : Extracted
received = record { deposit_data = some (400_000_000, 390_000_000); redeem_data = none }

decide-IsJustified_example :
    IsJustified settings market initial (decide settings 8 market initial).0
decide-IsJustified_example = decide-IsJustified settings 8 market initial

abbrev vested : State
vested = on_intent_executed settings 9 (vault_deposit (400 * one_unit)) true received entered

abbrev returned : Extracted
returned = record { deposit_data = none; redeem_data = some 410_000_000 }

holds : Reaches settings vested none
holds = reports 9 (vault_deposit (400 * one_unit)) true received entered entering

planned : generate_teardown_intents vested ≡ vault_redeem ∷ []
unfolding generate_teardown_intents on_intent_executed deposit_executed confirm_phase add_deposit
    decide decide_in handle_idle gate read_apy enter initial
planned = refl

-- A deposit, its report and a teardown: the strategy is idle and records nothing.
Reaches-IsSound_example :
    IsSound (on_intent_executed settings 10 vault_redeem true returned vested) none
Reaches-IsSound_example =
    Reaches-IsSound settings (on_intent_executed settings 10 vault_redeem true returned vested) none
      (tears_down 10 true returned vested none planned (inl refl) holds)

teardown-covers_example : entered.deposit_shares ≡ 0
unfolding generate_teardown_intents decide decide_in handle_idle gate read_apy enter initial
teardown-covers_example =
    teardown-covers settings entered (some (vault_deposit (400 * one_unit))) entering (inl refl)

-- Numbers as strokes behind a sign.
strokes : ℕ → String
strokes zero = ""
strokes (suc n) = String.◌∷◌ (char_of 49) (strokes n)

count : String → ℕ
count String.[] = 0
count (String.◌∷◌ c s) = 1 + count s

count-strokes : (n : ℕ) → count (strokes n) ≡ n
unfolding count strokes
count-strokes zero = refl
count-strokes (suc n) = omega (arith, count-strokes n)

abbrev signed : ℤ → String
signed (pos n) = String.◌∷◌ (char_of 43) (strokes n)
signed (negsuc n) = String.◌∷◌ (char_of 45) (strokes n)

abbrev read_signed : String → Option ℤ
read_signed String.[] = none
read_signed (String.◌∷◌ c s) = some (if code c == 45 then negsuc (count s) else pos (count s))

abbrev read_stamp : String → Option ℕ
read_stamp String.[] = none
read_stamp (String.◌∷◌ c s) = some (count s)

abbrev texts : Texts
texts = record {
  str_decimal = signed;
  decimal = read_signed;
  isoformat = λ at. String.◌∷◌ (char_of 84) (strokes at);
  fromisoformat = read_stamp;
  int_text = read_signed;
  repr = λ v. "";
}

read_back : (n : ℤ) → read_signed (signed n) ≡ some n
unfolding char_of
read_back (pos n) = rw (count-strokes n) refl
read_back (negsuc n) = rw (count-strokes n) refl

texts-IsExact : IsExact texts
texts-IsExact = record {
  decimals = read_back;
  instants = λ at. rw (count-strokes at) refl;
  no_decimal = refl;
  no_instant = refl;
}

load_persistent_state-decide_example :
    (load_persistent_state texts (get_persistent_state texts entered) initial
      ≡ some (record entered { last_seen_market_ts = none }))
    × (decide settings 9 market (record entered { last_seen_market_ts = none })
        ≡ decide settings 9 market entered)
unfolding phase_of state_text decide decide_in handle_idle gate read_apy enter initial
load_persistent_state-decide_example =
    load_persistent_state-decide texts settings 9 market entered texts-IsExact refl refl

abbrev config : Config
config = record {
  deposit_token = "usdc";
  deposit_amount = 1000 * one_unit;
  min_deposit_usd = 100 * one_unit;
  max_vault_allocation_pct = 80;
  compound_interval_hours = 24;
  deposit_token_decimals = pos 6;
  min_apy_floor = pos (3 * one_unit);
  exit_confirm_checks = pos 2;
}

-- A deposited strategy whose last stable state is idle, as a successful deposit leaves it.
abbrev holding : State
holding = record initial {
  phase = deposited;
  deposit_shares = 390_000_000;
  total_deposited = 400 * one_unit;
}

-- A redemption that fails without a decision makes it forget its position.
forgets :
    generate_teardown_intents (on_intent_executed settings 9 vault_redeem false received holding)
    ≡ []
unfolding generate_teardown_intents on_intent_executed initial
forgets = refl
