-- ===== src/Submitter/Submit.antt =====
-- submitter.py: `submit` and `_abandon_rest`.
use almanak_keeperhub.Prelude.{
  ℕ, ◌+◌, String, Bool, true, false, not, ◌&&◌, Option, none, some, List, [], ◌∷◌, if◌then◌else◌,
  ◌==◌, str_eq, is_empty, length,
}
use almanak_keeperhub.Prelude.Int.{pos}
use almanak_keeperhub.Python.Text.{show, join}
use almanak_keeperhub.Python.Json.{Dict, num, str, bool, empty, entry}
use almanak_keeperhub.Errors.{Result, ok, err, submission}
use almanak_keeperhub.Effects.{
  ExecutionStatus, ExecutionEnvelope, pending, Action, pure, raise, attempt, modify, notify, ◌>>=◌,
  ◌>>◌,
}
use almanak_keeperhub.Client.Calls.{ContractCall}
use almanak_keeperhub.Receipts.{record_execution}
use almanak_keeperhub.Submitter.Types.{
  Settings, SignedTransaction, prepared, foreign, SubmissionResult, refusal, text_or, remember,
}
use almanak_keeperhub.Submitter.Broadcast.{broadcast}
use almanak_keeperhub.Submitter.Settle.{settle, opt_str}

abbrev pub not_sent : String → SubmissionResult
not_sent reason = record { tx_hash = ""; submitted = false; error = some reason }

abbrev pub was_sent : String → SubmissionResult
was_sent tx_hash = record { tx_hash = tx_hash; submitted = true; error = none }

-- `_abandon_rest`, from the position of the first transaction given.
unfoldable pub abandon : ℕ → ℕ → String → List SignedTransaction → List SubmissionResult
abandon position total reason [] = []
abandon position total reason (t ∷ ts) =
    not_sent (
      join (
        "not sent: transaction "
        ∷ show (position + 1)
        ∷ "/"
        ∷ show total
        ∷ " depends on an earlier one that did not complete ("
        ∷ reason
        ∷ ")"
        ∷ []))
    ∷ abandon (position + 1) total reason ts

-- The log entry of a broadcast.
unfoldable pub broadcast_fields : ContractCall → String → String → ExecutionEnvelope → Dict
broadcast_fields call key tx_hash envelope = entry "chain_id" (num (pos call.chain_id)) (
    entry "to" (str call.contract_address) (
      entry "function" (str call.function_name) (
        entry "tx_hash" (str tx_hash) (
          entry "transaction_link" (opt_str envelope.transaction_link) (
            entry "status" (str envelope.status) (
              entry "idempotency_key" (str key)
                (entry "idempotent_replay" (bool envelope.idempotent_replay) empty)))))))

described : ContractCall → String
described call = join (call.function_name ∷ " -> " ∷ call.contract_address ∷ [])

-- `signed.tx_hash = envelope.transaction_hash`
unfoldable pub assign : String → String → Action Unit
assign key tx_hash = modify (λ w. record w { tx_hashes = (key, tx_hash) ∷ w.tx_hashes })

-- What `submit` does with a hash: the transaction, the memory, the log and the operator learn it.
unfoldable pub keep_hash : ContractCall → String → String → ExecutionEnvelope → Action Unit
unfolding described
keep_hash call key tx_hash envelope = do
  assign key tx_hash
  remember tx_hash (pending envelope)
  record_execution envelope.execution_id (broadcast_fields call key tx_hash envelope)
  notify (record {
    event = join ("broadcast" ∷ (if envelope.idempotent_replay then " (replay)" else "") ∷ []);
    detail = join (
        described call
        ∷ " on chain "
        ∷ show call.chain_id
        ∷ ", execution "
        ∷ envelope.execution_id
        ∷ []);
    link = envelope.transaction_link;
  })

-- How the bundle goes on after a transaction: give up with a reason, or send the next.
abbrev Rest : Type 0
Rest = String → List SubmissionResult

unfoldable pub after_settle :
    Rest → Action (List SubmissionResult) → Result ExecutionStatus → Action (List SubmissionResult)
after_settle give_up again (ok status) =
    if str_eq status.status "failed"
    then pure (
        give_up (
          text_or status.error
            (join ("KeeperHub execution " ∷ status.execution_id ∷ " failed while settling" ∷ []))))
    else again
after_settle give_up again (err (submission e)) = pure (give_up e.message)
after_settle give_up again (err e) = raise e

unfoldable pub after_hash :
    Settings
    → Rest
    → Action (List SubmissionResult)
    → Bool
    → String
    → ExecutionEnvelope
    → Action (List SubmissionResult)
after_hash s give_up again is_last tx_hash envelope =
    if str_eq envelope.status "failed"
    then pure (
        give_up (
          text_or envelope.error
            (join ("KeeperHub execution " ∷ envelope.execution_id ∷ " failed" ∷ []))))
    else if not is_last && not (str_eq envelope.status "completed")
    then attempt (settle s tx_hash s.confirmation_timeout) >>= after_settle give_up again
    else again

unfoldable pub refused : ContractCall → String → Action Unit
unfolding described
refused call reason = notify (record {
  event = "refused before broadcast";
  detail = join (described call ∷ ": " ∷ reason ∷ []);
  link = none;
})

unfoldable pub after_envelope :
    Settings
    → Rest
    → Action (List SubmissionResult)
    → Bool
    → ContractCall
    → String
    → ExecutionEnvelope
    → Option String
    → Action (List SubmissionResult)
after_envelope s give_up again is_last call key envelope none =
    let reason = text_or envelope.error (
      join (
        "KeeperHub execution " ∷ envelope.execution_id ∷ " ended '" ∷ envelope.status ∷ "'"
        ∷ [])) in
    refused call reason >> pure (not_sent reason ∷ give_up reason)
after_envelope s give_up again is_last call key envelope (some tx_hash) = do
  keep_hash call key tx_hash envelope
  rest ← after_hash s give_up again is_last tx_hash envelope
  pure (was_sent tx_hash ∷ rest)

unfoldable pub after_broadcast :
    Settings
    → Rest
    → Action (List SubmissionResult)
    → Bool
    → Bool
    → ContractCall
    → String
    → Result ExecutionEnvelope
    → Action (List SubmissionResult)
after_broadcast s give_up again is_first is_last call key (ok envelope) =
    after_envelope s give_up again is_last call key envelope envelope.transaction_hash
after_broadcast s give_up again is_first is_last call key (err (submission e)) =
    if is_first then raise (submission e) else pure (not_sent e.message ∷ give_up e.message)
after_broadcast s give_up again is_first is_last call key (err e) = raise e

unfoldable pub submit_from :
    Settings → ℕ → ℕ → List SignedTransaction → Action (List SubmissionResult)
submit_from s total index [] = pure []
submit_from s total index (foreign ∷ ts) =
    raise
      (refusal "KeeperHubSubmitter only accepts transactions prepared by KeeperHubSigner" none none)
submit_from s total index (prepared call key ∷ ts) = do
  outcome ← attempt (broadcast s call key)
  after_broadcast s (λ reason. abandon (index + 1) total reason ts)
      (λ h w. submit_from s total (index + 1) ts h w) (index == 0) (is_empty ts) call key outcome

-- `submit`
unfoldable pub submit : Settings → List SignedTransaction → Action (List SubmissionResult)
submit s txs = submit_from s (length txs) 0 txs
