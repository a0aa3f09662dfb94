-- ===== src/Simulator/Backed.antt =====
-- simulator.py: what KeeperHub answered, where a dry run succeeds.
use almanak_keeperhub.Prelude.{
  String, ◌≡◌, ◌⊎◌, Bool, true, Option, none, some, List, [], ◌∷◌, ◌++◌, map, length,
}
use almanak_keeperhub.Prelude.Int.{ℤ}
use almanak_keeperhub.Python.Json.{Value}
use almanak_keeperhub.Errors.{ok}
use almanak_keeperhub.Effects.{World, Host, Action}
use almanak_keeperhub.Effects.Leads.{Leads, Leads-bind, Leads-pure}
use almanak_keeperhub.Client.Calls.{ContractCall}
use almanak_keeperhub.Client.Answers.{SimulationOutcome, SequenceOutcome}
use almanak_keeperhub.Client.Methods.{simulate_contract_call, simulate_call_sequence}
use almanak_keeperhub.Calldata.Index.{SelectorIndex}
use almanak_keeperhub.Calldata.Decode.{EthAbi}
use almanak_keeperhub.Signer.{UnsignedTransaction}
use almanak_keeperhub.Simulator.{
  compile_all, SimulationResult, Compiled, failure, refuse_run, with_retries, gas_or, limit_of,
  fallback_gas,
}

-- The answer is a success for each of the transactions, in order.
abbrev pub AllPass : List Compiled → List SimulationOutcome → Type 0
AllPass [] results = Unit
AllPass (t ∷ ts) [] = ⊥
AllPass (t ∷ ts) (result ∷ results) = (result.success ≡ true) × AllPass ts results

-- The gas of a transaction: what KeeperHub estimates, or else its limit, or else the fallback.
abbrev pub gas_for : Compiled → SimulationOutcome → ℤ
gas_for (tx, call) result = gas_or result.gas_estimate (gas_or tx.gas_limit fallback_gas)

abbrev pub all_gas : List Compiled → List SimulationOutcome → List ℤ
all_gas [] results = []
all_gas (t ∷ ts) [] = []
all_gas (t ∷ ts) (result ∷ results) = gas_for t result ∷ all_gas ts results

module _ (h : Host) where
  -- What a request comes to, with its retries, in some state of the world.
  abbrev pub Answers : {A : Type 0} → Action A → A → Type 0
  Answers request a = (w : World) × ((with_retries request h w).0 ≡ ok a)

  -- KeeperHub passed the first transaction, and has no way to chain the others: their gas is their
  -- limits, and there is a warning for each.
  pub record ByFirst (t : Compiled) (ts : List Compiled) (r : SimulationResult) : Type 0 where
    pub outcome : SimulationOutcome
    pub answered : Answers (simulate_contract_call t.1) outcome
    pub passed : outcome.success ≡ true
    pub alone : (ts ≡ []) ⊎ Answers (simulate_call_sequence (map (λ c. c.1) (t ∷ ts))) none
    pub gas : r.gas_estimates ≡ gas_for t outcome ∷ map (λ c. limit_of c.0.gas_limit) ts
    pub warned : length r.warnings ≡ length ts

  -- KeeperHub passed the whole sequence.
  pub record BySequence (ts : List Compiled) (r : SimulationResult) : Type 0 where
    pub sequence : SequenceOutcome
    pub answered : Answers (simulate_call_sequence (map (λ c. c.1) ts)) (some sequence)
    pub passed : AllPass ts sequence.results
    pub gas : r.gas_estimates ≡ all_gas ts sequence.results

  abbrev pub Backs : List Compiled → SimulationResult → Type 0
  Backs [] r = r.gas_estimates ≡ []
  Backs (t ∷ ts) r = ByFirst t ts r ⊎ BySequence (t ∷ ts) r

  -- A success is backed by an answer of KeeperHub to the calls of the transactions.
  abbrev pub IsBacked :
      EthAbi → SelectorIndex → List UnsignedTransaction → SimulationResult → Type 0
  IsBacked eth index txs r =
      r.success ≡ true
      → (raw_calldata : Option Bool) × (compiled : List Compiled) × (compile_all eth index
            raw_calldata txs
          ≡ ok compiled)
        × Backs compiled r

  -- What holds of a success.
  abbrev OnSuccess : (SimulationResult → Type 0) → SimulationResult → Type 0
  OnSuccess P r = r.success ≡ true → P r

  refused :
      (P : SimulationResult → Type 0) (tx : UnsignedTransaction) (call : ContractCall)
      (reason : Value) (code : Option String) (would_revert : Bool)
      → Leads h (OnSuccess P) (refuse_run tx call reason code would_revert)
  unfolding refuse_run failure
  refused P tx call reason code would_revert =
      Leads-bind _ λ _ _ _. Leads-bind _ λ _ _ _. Leads-bind _ λ _ _ _. Leads-pure _ (λ p. cc)

  -- A sequence whose rest passed, with the gas so far.
  abbrev Passed : List ℤ → List Compiled → List SimulationOutcome → SimulationResult → Type 0
  Passed gas txs results r = AllPass txs results × (r.gas_estimates ≡ gas ++ all_gas txs results)
