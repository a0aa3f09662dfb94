-- ===== src/Simulator/Complete.antt =====
-- The success of a dry run speaks for every transaction.
use almanak_keeperhub.Prelude.{
  ℕ, suc, ◌+◌, ◌==◌, String, ◌≡◌, refl, sym, ap, Bool, true, false, not, Option, none, some, List,
  [], ◌∷◌, arith, ltb, length, length-append,
}
use almanak_keeperhub.Prelude.Int.{ℤ}
use almanak_keeperhub.Python.Json.{Value}
use almanak_keeperhub.Errors.{Error, Result, ok, err, api, signing}
use almanak_keeperhub.Effects.{World, Host, Action}
use almanak_keeperhub.Effects.Frame.{
  Outcome, Anything, Ends, Ends-pure, Ends-raise, Ends-bind, Ends-if,
}
use almanak_keeperhub.Client.Calls.{ContractCall}
use almanak_keeperhub.Client.Answers.{SimulationOutcome, SequenceOutcome}
use almanak_keeperhub.Calldata.Index.{SelectorIndex}
use almanak_keeperhub.Calldata.Decode.{EthAbi}
use almanak_keeperhub.Signer.{UnsignedTransaction}
use almanak_keeperhub.Signer.Calls.{call_for}
use almanak_keeperhub.Simulator.{
  with_call, compile_all, after_compile, simulate_calls, SimulationResult, Compiled, failure,
  refuse_run, sequence_from, unchained, unavailable_run, after_first, first_only, after_sequence,
  simulate,
}

-- A success was simulated, unless there was nothing to simulate, with an estimate for each
-- transaction.
abbrev pub IsComplete : ℕ → SimulationResult → Type 0
IsComplete n r = r.success ≡ true → (length r.gas_estimates ≡ n) × (r.simulated ≡ not (n == 0))

abbrev pub AnyError : Error → Type 0
AnyError e = Unit

abbrev Completes : ℕ → Action SimulationResult → Type 0
Completes n m = Ends (IsComplete n) AnyError m

Ends-any : {A : Type 0} (m : Action A) → Ends Anything AnyError m
Ends-any {A} m = record { at = λ h w. any (m h w).0 }
  where
    any : (r : Result A) → Outcome Anything AnyError r
    any (ok a) = tt
    any (err e) = tt

refuse_run-Completes :
    (n : ℕ) (tx : UnsignedTransaction) (call : ContractCall) (reason : Value) (code : Option String)
    (would_revert : Bool)
    → Completes n (refuse_run tx call reason code would_revert)
unfolding refuse_run failure
refuse_run-Completes n tx call reason code would_revert =
    Ends-bind (Ends-any _)
      λ repr _. Ends-bind (Ends-any _) λ _ _. Ends-bind (Ends-any _) λ _ _. Ends-pure _ (λ p. cc)

some_simulated : (n : ℕ) → true ≡ not (suc n == 0)
some_simulated n = ground arith

cut_short : (a b n : ℕ) → a + suc b ≡ suc n → ltb a (suc n) ≡ false → ⊥
cut_short a b n p q = ground arith

sequence_from-Completes :
    (mechanism : Value) (n index : ℕ) (gas : List ℤ) (txs : List Compiled)
    (results : List SimulationOutcome)
    → length gas + length txs ≡ suc n
    → Completes (suc n) (sequence_from mechanism (suc n) index gas txs results)
unfolding sequence_from failure
sequence_from-Completes mechanism n index gas ((tx, call) ∷ txs) (result ∷ results) e =
    Ends-if result.success
      (λ good. Ends-bind (Ends-any _) (λ _ _.
        sequence_from-Completes mechanism n (index + 1) _ txs results
          (rw length-append (omega arith))))
      (λ bad. Ends-bind (Ends-any _) (λ repr _. refuse_run-Completes (suc n) tx call _ _ _))
sequence_from-Completes mechanism n index gas [] results e =
    Ends-if (ltb (length gas) (suc n)) (λ few. Ends-pure _ (λ p. cc))
      (λ enough. Ends-pure _ (λ p. (omega arith, some_simulated n)))
sequence_from-Completes mechanism n index gas (t ∷ ts) [] e =
    Ends-if (ltb (length gas) (suc n)) (λ few. Ends-pure _ (λ p. cc))
      (λ enough. Ends-pure _ (λ p. absurd (cut_short _ _ n e enough)))

length-unchained : (index : ℕ) (txs : List Compiled) → length (unchained index txs).0 ≡ length txs
unfolding unchained
length-unchained index [] = refl
length-unchained index ((tx, call) ∷ txs) = ap suc (length-unchained (index + 1) txs)

after_first-Completes :
    (tx : UnsignedTransaction) (call : ContractCall) (txs : List Compiled)
    (r : Result SimulationOutcome)
    → Completes (suc (length txs)) (after_first tx call txs r)
unfolding after_first unavailable_run failure
after_first-Completes tx call txs (ok outcome) =
    Ends-if outcome.success
      (λ good.
        Ends-bind (Ends-any _) (λ _ _.
          Ends-pure _ (λ p. (ap suc (length-unchained 0 txs), some_simulated (length txs)))))
      (λ bad. refuse_run-Completes _ tx call _ _ _)
after_first-Completes tx call txs (err (api e)) = Ends-pure _ (λ p. cc)
after_first-Completes tx call txs (err e) = Ends-raise _ tt

first_only-Completes :
    (t : Compiled) (ts : List Compiled) → Completes (suc (length ts)) (first_only t ts)
unfolding first_only
first_only-Completes (tx, call) ts =
    Ends-bind (Ends-any _) (λ r _. after_first-Completes tx call ts r)

after_sequence-Completes :
    (t : Compiled) (ts : List Compiled) (r : Result (Option SequenceOutcome))
    → Completes (suc (length ts)) (after_sequence t ts r)
unfolding after_sequence unavailable_run failure
after_sequence-Completes t ts (ok none) = first_only-Completes t ts
after_sequence-Completes t ts (ok (some sequence)) =
    sequence_from-Completes _ (length ts) 0 [] (t ∷ ts) _ (omega arith)
after_sequence-Completes t ts (err (api e)) = Ends-pure _ (λ p. cc)
after_sequence-Completes t ts (err e) = Ends-raise _ tt

simulate_calls-Completes : (txs : List Compiled) → Completes (length txs) (simulate_calls txs)
unfolding simulate_calls
simulate_calls-Completes [] = Ends-pure _ (λ p. (refl, refl))
simulate_calls-Completes (t ∷ []) = first_only-Completes t []
simulate_calls-Completes (t ∷ (u ∷ ts)) =
    Ends-bind (Ends-any _) (λ r _. after_sequence-Completes t (u ∷ ts) r)

length-with_call :
    (tx : UnsignedTransaction) (call : Result ContractCall) (rest : Result (List Compiled)) (n : ℕ)
    (compiled : List Compiled)
    → ((cs : List Compiled) → rest ≡ ok cs → length cs ≡ n)
    → with_call tx call rest ≡ ok compiled
    → length compiled ≡ suc n
unfolding with_call
length-with_call tx (err e) rest n compiled k h = cc
length-with_call tx (ok call) (err e) n compiled k h = cc
length-with_call tx (ok call) (ok cs) n compiled k h =
    let made : (tx, call) ∷ cs ≡ compiled = cc in rw (sym made) (ap suc (k cs refl))

length-compile_all :
    (eth : EthAbi) (index : SelectorIndex) (raw_calldata : Option Bool)
    (txs : List UnsignedTransaction) (compiled : List Compiled)
    → compile_all eth index raw_calldata txs ≡ ok compiled
    → length compiled ≡ length txs
unfolding compile_all
length-compile_all eth index raw_calldata [] compiled h =
    let made : [] ≡ compiled = cc in rw (sym made)
length-compile_all eth index raw_calldata (tx ∷ txs) compiled h =
    length-with_call tx (call_for eth tx index raw_calldata)
      (compile_all eth index raw_calldata txs) (length txs) compiled
      (length-compile_all eth index raw_calldata txs) h

after_compile-Completes :
    (r : Result (List Compiled)) (n : ℕ)
    → ((compiled : List Compiled) → r ≡ ok compiled → length compiled ≡ n)
    → Completes n (after_compile r)
unfolding after_compile failure
after_compile-Completes (ok compiled) n e =
    rw (sym (e compiled refl)) (simulate_calls-Completes compiled)
after_compile-Completes (err (signing m)) n e = Ends-pure _ (λ p. cc)
after_compile-Completes (err x) n e = Ends-raise _ tt

simulate-Completes :
    (eth : EthAbi) (index : SelectorIndex) (txs : List UnsignedTransaction)
    → Completes (length txs) (simulate eth index txs)
unfolding simulate
simulate-Completes eth index [] = Ends-pure _ (λ p. (refl, refl))
simulate-Completes eth index (tx ∷ txs) = Ends-bind (Ends-any _) (λ raw_calldata _.
    after_compile-Completes (compile_all eth index raw_calldata (tx ∷ txs)) (suc (length txs))
      (λ compiled c. length-compile_all eth index raw_calldata (tx ∷ txs) compiled c))

-- A dry run that succeeds was simulated, unless there was no transaction, and it has an estimate
-- of gas for each transaction: a sequence that is answered in part never succeeds.
pub simulate-IsComplete :
    (eth : EthAbi) (index : SelectorIndex) (h : Host) (txs : List UnsignedTransaction) (w : World)
    → Outcome (IsComplete (length txs)) AnyError (simulate eth index txs h w).0
simulate-IsComplete eth index h txs w = (simulate-Completes eth index txs).at h w
