-- ===== src/Simulator/DryRun.antt =====
-- A dry run never broadcasts.
use almanak_keeperhub.Prelude.{
  ℕ, zero, suc, ◌+◌, ◌==◌, String, ◌≡◌, refl, Bool, Option, none, some, List, [], ◌∷◌, ltb, length,
}
use almanak_keeperhub.Prelude.Int.{ℤ}
use almanak_keeperhub.Python.Json.{Value, Dict}
use almanak_keeperhub.Errors.{Error, Result, ok, err, api, signing}
use almanak_keeperhub.Effects.{Request, World, Host, Action}
use almanak_keeperhub.Effects.Frame.{
  Keeps, Keeps-pure, Keeps-raise, Keeps-asks, Keeps-gets, Keeps-if, Keeps-attempt, Keeps-eta,
  Keeps-bind,
}
use almanak_keeperhub.Effects.Asked.{Asked, Asks, Keeps-notify}
use almanak_keeperhub.Client.Calls.{ContractCall}
use almanak_keeperhub.Client.Answers.{SimulationOutcome, SequenceOutcome}
use almanak_keeperhub.Client.Methods.{contract_call_path}
use almanak_keeperhub.Client.Steps.{Keeps-sleep}
use almanak_keeperhub.Client.Sends.{
  IsMarked, Keeps-simulate_contract_call, Keeps-simulate_call_sequence,
}
use almanak_keeperhub.Receipts.Quiet.{Keeps-record_simulation, Asks-of_Sends}
use almanak_keeperhub.Calldata.Index.{SelectorIndex}
use almanak_keeperhub.Calldata.Decode.{EthAbi}
use almanak_keeperhub.Signer.{UnsignedTransaction}
use almanak_keeperhub.Simulator.{
  Compiled, simulate_calls, compile_all, after_compile, retried, handled, rounds, with_retries,
  transient, refuse_run, record_ok, sequence_from, after_first, first_only, after_sequence,
  simulate, retry_delay,
}

-- A request that asks for a dry run: no idempotency key, and a body that says so.
abbrev pub IsMarkedBody : Option Dict → Type 0
IsMarkedBody none = ⊥
IsMarkedBody (some d) = IsMarked d

abbrev pub IsDryRun : Request → Type 0
IsDryRun r = (r.path ≡ contract_call_path) × (r.idempotency_key ≡ none) × IsMarkedBody r.body

abbrev Quiet : {A : Type 0} → Action A → Type 0
Quiet m = Keeps (Asks IsDryRun) m

module _ {A : Type 0} where
  Keeps-retried :
      (tried : ℕ) {again : Action A} (e : Error) (t : Option (String × ℕ × ℤ))
      → Quiet again
      → Quiet (retried tried again e t)
  unfolding retried
  Keeps-retried tried e none k = Keeps-raise e
  Keeps-retried tried e (some (message, status, retry_after)) k =
      Keeps-if (tried == 2) (Keeps-raise _)
        (Keeps-bind (Asks-of_Sends IsDryRun (Keeps-sleep (retry_delay tried retry_after))) (λ _. k))

  Keeps-handled :
      (tried : ℕ) {again : Action A} (r : Result A) → Quiet again → Quiet (handled tried again r)
  unfolding handled
  Keeps-handled tried (ok a) k = Keeps-pure a
  Keeps-handled tried (err e) k = Keeps-retried tried e (transient e) k

  Keeps-rounds :
      (fuel tried : ℕ) {request : Action A} → Quiet request → Quiet (rounds fuel tried request)
  unfolding rounds
  Keeps-rounds zero tried k = Keeps-raise _
  Keeps-rounds (suc fuel) tried k =
      Keeps-bind (Keeps-attempt k)
        (λ r. Keeps-handled tried r (Keeps-eta (Keeps-rounds fuel (tried + 1) k)))

  Keeps-with_retries : {request : Action A} → Quiet request → Quiet (with_retries request)
  unfolding with_retries
  Keeps-with_retries k = Keeps-rounds 3 0 k

Keeps-refuse_run :
    (tx : UnsignedTransaction) (call : ContractCall) (reason : Value) (code : Option String)
    (would_revert : Bool)
    → Quiet (refuse_run tx call reason code would_revert)
unfolding refuse_run
Keeps-refuse_run tx call reason code would_revert = Keeps-bind (Keeps-asks _) λ repr.
    Keeps-bind (Keeps-record_simulation IsDryRun _)
      λ _. Keeps-bind (Keeps-notify IsDryRun _) λ _. Keeps-pure _

Keeps-record_ok :
    (tx : UnsignedTransaction) (call : ContractCall) (gas : Option ℤ) (mechanism : Value)
    → Quiet (record_ok tx call gas mechanism)
unfolding record_ok
Keeps-record_ok tx call gas mechanism = Keeps-record_simulation IsDryRun _

Keeps-sequence_from :
    (mechanism : Value) (total index : ℕ) (gas : List ℤ) (txs : List Compiled)
    (results : List SimulationOutcome)
    → Quiet (sequence_from mechanism total index gas txs results)
unfolding sequence_from
Keeps-sequence_from mechanism total index gas ((tx, call) ∷ txs) (result ∷ results) =
    Keeps-if result.success
      (Keeps-bind (Keeps-record_ok tx call _ mechanism)
        (λ _. Keeps-sequence_from mechanism total (index + 1) _ txs results))
      (Keeps-bind (Keeps-asks _) (λ repr. Keeps-refuse_run tx call _ _ _))
Keeps-sequence_from mechanism total index gas [] results =
    Keeps-if (ltb (length gas) total) (Keeps-pure _) (Keeps-pure _)
Keeps-sequence_from mechanism total index gas (t ∷ ts) [] =
    Keeps-if (ltb (length gas) total) (Keeps-pure _) (Keeps-pure _)

Keeps-after_first :
    (tx : UnsignedTransaction) (call : ContractCall) (txs : List Compiled)
    (r : Result SimulationOutcome)
    → Quiet (after_first tx call txs r)
unfolding after_first
Keeps-after_first tx call txs (ok outcome) =
    Keeps-if outcome.success (Keeps-bind (Keeps-record_ok tx call _ _) (λ _. Keeps-pure _))
      (Keeps-refuse_run tx call _ _ _)
Keeps-after_first tx call txs (err (api e)) = Keeps-pure _
Keeps-after_first tx call txs (err e) = Keeps-raise _

Keeps-first_only : (t : Compiled) (ts : List Compiled) → Quiet (first_only t ts)
unfolding first_only
Keeps-first_only (tx, call) ts =
    Keeps-bind
      (Keeps-attempt (
        Keeps-with_retries
          (Asks-of_Sends IsDryRun (Keeps-simulate_contract_call call (λ d m. (refl, refl, m))))))
      (λ r. Keeps-after_first tx call ts r)

Keeps-after_sequence :
    (t : Compiled) (ts : List Compiled) (r : Result (Option SequenceOutcome))
    → Quiet (after_sequence t ts r)
unfolding after_sequence
Keeps-after_sequence t ts (ok none) = Keeps-first_only t ts
Keeps-after_sequence t ts (ok (some sequence)) = Keeps-sequence_from _ _ 0 [] (t ∷ ts) _
Keeps-after_sequence t ts (err (api e)) = Keeps-pure _
Keeps-after_sequence t ts (err e) = Keeps-raise _

Keeps-simulate_calls : (txs : List Compiled) → Quiet (simulate_calls txs)
unfolding simulate_calls
Keeps-simulate_calls [] = Keeps-pure _
Keeps-simulate_calls (t ∷ []) = Keeps-first_only t []
Keeps-simulate_calls (t ∷ (u ∷ ts)) =
    Keeps-bind
      (Keeps-attempt (
        Keeps-with_retries
          (Asks-of_Sends IsDryRun (Keeps-simulate_call_sequence _ (λ d m. (refl, refl, m))))))
      (λ r. Keeps-after_sequence t (u ∷ ts) r)

Keeps-after_compile : (r : Result (List Compiled)) → Quiet (after_compile r)
unfolding after_compile
Keeps-after_compile (ok compiled) = Keeps-simulate_calls compiled
Keeps-after_compile (err (signing m)) = Keeps-pure _
Keeps-after_compile (err e) = Keeps-raise _

Keeps-simulate :
    (eth : EthAbi) (index : SelectorIndex) (txs : List UnsignedTransaction)
    → Quiet (simulate eth index txs)
unfolding simulate
Keeps-simulate eth index [] = Keeps-pure _
Keeps-simulate eth index (tx ∷ txs) =
    Keeps-bind (Keeps-gets _)
      (λ raw_calldata. Keeps-after_compile (compile_all eth index raw_calldata (tx ∷ txs)))

-- The simulator never broadcasts: each request that it sends, retries and fallbacks included, has
-- no idempotency key and a body that is marked as a dry run.
pub simulate-dry :
    (eth : EthAbi) (index : SelectorIndex) (h : Host) (txs : List UnsignedTransaction) (w : World)
    → Asked IsDryRun w (simulate eth index txs h w).1
simulate-dry eth index h txs w = (Keeps-simulate eth index txs).at h w
