-- ===== src/Submitter/Bundle.antt =====
-- What `submit` reports: one result for each transaction, the sent ones in front. On a server whose
-- answers take time it always ends, with a report or an exception of a known kind.
use almanak_keeperhub.Prelude.{
  ℕ, suc, ◌+◌, String, ◌≡◌, ◌≢◌, ◌⊎◌, refl, ap, inl, inr, Bool, true, false, Option, none, some,
  List, [], ◌∷◌, not, ◌&&◌, ◌==◌, str_eq, length, All, is_empty,
}
use almanak_keeperhub.Errors.{Result, ok, err, api, value_error, type_error, key_error, submission}
use almanak_keeperhub.Effects.{World, Host, Action, ExecutionStatus, ExecutionEnvelope, pure}
use almanak_keeperhub.Effects.Frame.{
  Outcome, Anything, EndsOn, EndsOn-of_Ends, EndsOn-pure, EndsOn-raise, EndsOn-if, EndsOn-attempt,
  EndsOn-eta, EndsOn-bind,
}
use almanak_keeperhub.Client.Calls.{ContractCall}
use almanak_keeperhub.Submitter.Types.{
  Settings, SignedTransaction, prepared, foreign, SubmissionResult,
}
use almanak_keeperhub.Submitter.Submit.{
  abandon, after_settle, after_hash, refused, after_envelope, after_broadcast, submit_from, submit,
}
use almanak_keeperhub.Submitter.Total.{IsDecided, TakesTime, broadcast-ends}
use almanak_keeperhub.Submitter.Ends.{Ends-notify, settle-ends, keep_hash-Ends}

-- What is sent stands in front of what is not; what is not sent has a reason and no hash.
abbrev pub IsUnsent : SubmissionResult → Type 0
IsUnsent r = (r.submitted ≡ false) × (r.tx_hash ≡ "") × (r.error ≢ none)

abbrev pub IsBundle : List SubmissionResult → Type 0
IsBundle [] = Unit
IsBundle (r ∷ rs) =
    ((r.submitted ≡ true) × (r.error ≡ none) × IsBundle rs) ⊎ (IsUnsent r × All IsUnsent rs)

-- The report on n transactions.
abbrev pub Reports : ℕ → List SubmissionResult → Type 0
Reports n rs = (length rs ≡ n) × IsBundle rs

IsBundle-unsent : (rs : List SubmissionResult) → All IsUnsent rs → IsBundle rs
IsBundle-unsent [] p = tt
IsBundle-unsent (r ∷ rs) p = inr (p.0, p.1)

abandon-IsUnsent :
    (position total : ℕ) (reason : String) (ts : List SignedTransaction)
    → All IsUnsent (abandon position total reason ts)
unfolding abandon
abandon-IsUnsent position total reason [] = tt
abandon-IsUnsent position total reason (t ∷ ts) =
    ((refl, refl, λ e. cc), abandon-IsUnsent (position + 1) total reason ts)

length-abandon :
    (position total : ℕ) (reason : String) (ts : List SignedTransaction)
    → length (abandon position total reason ts) ≡ length ts
unfolding abandon
length-abandon position total reason [] = refl
length-abandon position total reason (t ∷ ts) =
    ap suc (length-abandon (position + 1) total reason ts)

module _ (h : Host) (takes_time : TakesTime h) (s : Settings) where
  abbrev Reporting : ℕ → Action (List SubmissionResult) → Type 0
  Reporting n = EndsOn h (Reports n) IsDecided

  module _ (n : ℕ) (give_up : String → List SubmissionResult)
      (unsent : (reason : String) → (length (give_up reason) ≡ n) × All IsUnsent (give_up reason))
      (again : Action (List SubmissionResult)) (more : Reporting n again) where
    gives_up : (reason : String) → Reporting n (pure (give_up reason))
    gives_up reason =
        EndsOn-pure _ ((unsent reason).0, IsBundle-unsent (give_up reason) (unsent reason).1)

    after_settle-ends :
        (r : Result ExecutionStatus)
        → Outcome Anything IsDecided r
        → Reporting n (after_settle give_up again r)
    unfolding after_settle
    after_settle-ends (ok status) p = EndsOn-if (str_eq status.status "failed") (gives_up _) more
    after_settle-ends (err (submission e)) p = gives_up e.message
    after_settle-ends (err (api e)) p = EndsOn-raise _ p
    after_settle-ends (err (value_error e)) p = EndsOn-raise _ p
    after_settle-ends (err (type_error e)) p = EndsOn-raise _ p
    after_settle-ends (err (key_error e)) p = EndsOn-raise _ p
    after_settle-ends (err e) p = absurd p

    after_hash-ends :
        (is_last : Bool) (hash : String) (envelope : ExecutionEnvelope)
        → Reporting n (after_hash s give_up again is_last hash envelope)
    unfolding after_hash
    after_hash-ends is_last hash envelope =
        EndsOn-if (str_eq envelope.status "failed") (gives_up _) (
          EndsOn-if (not is_last && not (str_eq envelope.status "completed"))
            (EndsOn-bind (EndsOn-attempt (settle-ends h takes_time s hash s.confirmation_timeout))
              after_settle-ends)
            more)

    after_envelope-ends :
        (is_last : Bool) (call : ContractCall) (key : String) (envelope : ExecutionEnvelope)
        (hash : Option String)
        → Reporting (suc n) (after_envelope s give_up again is_last call key envelope hash)
    unfolding after_envelope refused
    after_envelope-ends is_last call key envelope none =
        EndsOn-bind (EndsOn-of_Ends (Ends-notify _))
          λ _ _. EndsOn-pure _ (ap suc (unsent _).0, inr ((refl, refl, λ e. cc), (unsent _).1))
    after_envelope-ends is_last call key envelope (some hash) =
        EndsOn-bind (EndsOn-of_Ends (keep_hash-Ends h takes_time s call key hash envelope)) λ _ _.
          EndsOn-bind (after_hash-ends is_last hash envelope)
            λ rs p. EndsOn-pure _ (ap suc p.0, inl (refl, refl, p.1))

    after_broadcast-ends :
        (is_first is_last : Bool) (call : ContractCall) (key : String)
        (r : Result ExecutionEnvelope)
        → Outcome Anything IsDecided r
        → Reporting (suc n) (after_broadcast s give_up again is_first is_last call key r)
    unfolding after_broadcast
    after_broadcast-ends is_first is_last call key (ok envelope) p =
        after_envelope-ends is_last call key envelope envelope.transaction_hash
    after_broadcast-ends is_first is_last call key (err (submission e)) p =
        EndsOn-if is_first (EndsOn-raise _ tt)
          (EndsOn-pure _ (ap suc (unsent _).0, inr ((refl, refl, λ e. cc), (unsent _).1)))
    after_broadcast-ends is_first is_last call key (err (api e)) p = EndsOn-raise _ p
    after_broadcast-ends is_first is_last call key (err (value_error e)) p = EndsOn-raise _ p
    after_broadcast-ends is_first is_last call key (err (type_error e)) p = EndsOn-raise _ p
    after_broadcast-ends is_first is_last call key (err (key_error e)) p = EndsOn-raise _ p
    after_broadcast-ends is_first is_last call key (err e) p = absurd p

  submit_from-ends :
      (total index : ℕ) (ts : List SignedTransaction)
      → Reporting (length ts) (submit_from s total index ts)
  unfolding submit_from
  submit_from-ends total index [] = EndsOn-pure _ (refl, tt)
  submit_from-ends total index (foreign ∷ ts) = EndsOn-raise _ tt
  submit_from-ends total index (prepared call key ∷ ts) =
      EndsOn-bind (EndsOn-attempt (broadcast-ends h takes_time s call key)) λ r p.
        after_broadcast-ends (length ts) (λ reason. abandon (index + 1) total reason ts)
          (λ reason. (
            length-abandon (index + 1) total reason ts,
            abandon-IsUnsent (index + 1) total reason ts,
          ))
          _ (EndsOn-eta (submit_from-ends total (index + 1) ts)) (index == 0) (is_empty ts) call key
          r p

-- On a server whose answers take time, `submit` always ends. It reports one result for each
-- transaction of the bundle, the sent ones in front and each of the others with a reason and no
-- hash; or it raises a SubmissionError, an API error below 500 that is no rate limit, or what an
-- unreadable answer or receipts file raises: no transport error, rate limit, 503 or other 5xx
-- leaves it.
pub submit-Reports :
    (h : Host) (s : Settings) (txs : List SignedTransaction) (w : World)
    → TakesTime h
    → Outcome (Reports (length txs)) IsDecided (submit s txs h w).0
unfolding submit
submit-Reports h s txs w takes_time = (submit_from-ends h takes_time s (length txs) 0 txs).at w
