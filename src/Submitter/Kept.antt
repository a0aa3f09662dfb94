-- ===== src/Submitter/Kept.antt =====
-- No hash is lost: what `submit` reports as sent stands in the receipts file.
use almanak_keeperhub.Prelude.{
  ℕ, ◌+◌, String, ◌≡◌, refl, Bool, true, Option, none, some, List, [], ◌∷◌, All, length, ◌==◌,
  is_empty,
}
use almanak_keeperhub.Python.Json.{find, put, update as update_dict}
use almanak_keeperhub.Errors.{Result, ok, err, submission}
use almanak_keeperhub.Effects.{World, Host, Action, ExecutionStatus, ExecutionEnvelope}
use almanak_keeperhub.Effects.Frame.{Keeps, Keeps-eta}
use almanak_keeperhub.Effects.Triple.{
  Left, Triple, Triple-pure, Triple-raise, Triple-if, Triple-eta, Triple-weaken, Triple-bind,
  Triple-any, Triple-frame, Triple-keeps,
}
use almanak_keeperhub.Client.Calls.{ContractCall}
use almanak_keeperhub.Receipts.{execution_entry}
use almanak_keeperhub.Receipts.Entries.{record_execution-Holds}
use almanak_keeperhub.Submitter.Types.{
  Settings, SignedTransaction, prepared, foreign, SubmissionResult,
}
use almanak_keeperhub.Submitter.Submit.{
  assign, abandon, broadcast_fields, keep_hash, after_settle, after_hash, after_envelope,
  after_broadcast, submit_from, submit,
}
use almanak_keeperhub.Submitter.Frames.{MaySend, Keeps-submit_from, Keeps-after_hash}
use almanak_keeperhub.Submitter.Logged.{HasHash, IsLogged, Logs, logs-Respects}

abbrev Anywhere : World → Type 0
Anywhere w = Unit

abbrev LoggedIn : String → World → Type 0
LoggedIn hash w = IsLogged hash w.file

fields-HasHash :
    (call : ContractCall) (key hash id now : String) (envelope : ExecutionEnvelope)
    → HasHash hash (execution_entry id now (broadcast_fields call key hash envelope))
unfolding execution_entry broadcast_fields update_dict put find
fields-HasHash call key hash id now envelope = refl

keep_hash-Logged :
    (call : ContractCall) (key hash : String) (envelope : ExecutionEnvelope)
    → Triple Anywhere (keep_hash call key hash envelope) (λ _ w. LoggedIn hash w)
unfolding keep_hash
keep_hash-Logged call key hash envelope = Triple-bind (Triple-any (assign key hash)) λ _.
    Triple-bind (Triple-any _) λ _.
      Triple-bind
        (record_execution-Holds (HasHash hash) _ _
          (λ now. fields-HasHash call key hash _ now envelope))
        λ _. Triple-frame (LoggedIn hash) (Logs hash) (λ u v k. k) ((logs-Respects hash).notifies _)

-- A transaction that is reported as sent has its hash in the log.
abbrev pub IsKept : World → SubmissionResult → Type 0
IsKept w r = r.submitted ≡ true → LoggedIn r.tx_hash w

abbrev pub AllKept : List SubmissionResult → World → Type 0
AllKept rs w = All (IsKept w) rs

abandon-IsKept :
    (position total : ℕ) (reason : String) (ts : List SignedTransaction) (w : World)
    → AllKept (abandon position total reason ts) w
unfolding abandon
abandon-IsKept position total reason [] w = tt
abandon-IsKept position total reason (t ∷ ts) w =
    (λ p. cc, abandon-IsKept (position + 1) total reason ts w)

module _ (s : Settings) (give_up : String → List SubmissionResult)
    (given : (reason : String) (w : World) → AllKept (give_up reason) w)
    (again : Action (List SubmissionResult)) (more : Triple Anywhere again AllKept)
    (logs : (hash : String) → Keeps (Logs hash) again) where
  after_settle-kept :
      (r : Result ExecutionStatus) → Triple Anywhere (after_settle give_up again r) AllKept
  unfolding after_settle
  after_settle-kept (ok status) = Triple-if _ (Triple-pure _ (λ w p. given _ w)) more
  after_settle-kept (err (submission e)) = Triple-pure _ (λ w p. given _ w)
  after_settle-kept (err e) = Triple-raise e

  after_hash-kept :
      (is_last : Bool) (hash : String) (envelope : ExecutionEnvelope)
      → Triple Anywhere (after_hash s give_up again is_last hash envelope) AllKept
  unfolding after_hash
  after_hash-kept is_last hash envelope =
      Triple-if _ (Triple-pure _ (λ w p. given _ w))
        (Triple-if _ (Triple-bind (Triple-any _) after_settle-kept) more)

  after_envelope-kept :
      (is_last : Bool) (call : ContractCall) (key : String) (envelope : ExecutionEnvelope)
      (hash : Option String)
      → Triple Anywhere (after_envelope s give_up again is_last call key envelope hash) AllKept
  unfolding after_envelope
  after_envelope-kept is_last call key envelope none =
      Triple-bind (Triple-any _) (λ _. Triple-pure _ (λ w p. (λ q. cc, given _ w)))
  after_envelope-kept is_last call key envelope (some hash) =
      Triple-bind (keep_hash-Logged call key hash envelope) λ _.
        Triple-bind
          (Triple-weaken
            (Triple-keeps (LoggedIn hash) (Logs hash) (λ u v k. k)
              (Keeps-after_hash (logs-Respects hash) s give_up again (logs hash) is_last hash
                envelope)
              (after_hash-kept is_last hash envelope))
            (λ w p. (tt, p)))
          λ rs. Triple-pure _ (λ w p. (λ q. p.1, p.0))

  after_broadcast-kept :
      (is_first is_last : Bool) (call : ContractCall) (key : String) (r : Result ExecutionEnvelope)
      → Triple Anywhere (after_broadcast s give_up again is_first is_last call key r) AllKept
  unfolding after_broadcast
  after_broadcast-kept is_first is_last call key (ok envelope) =
      after_envelope-kept is_last call key envelope _
  after_broadcast-kept is_first is_last call key (err (submission e)) =
      Triple-if _ (Triple-raise _) (Triple-pure _ (λ w p. (λ q. cc, given _ w)))
  after_broadcast-kept is_first is_last call key (err e) = Triple-raise e

any-MaySend : (ts : List SignedTransaction) → All (MaySend (λ r. Unit)) ts
any-MaySend [] = tt
any-MaySend (foreign ∷ ts) = (tt, any-MaySend ts)
any-MaySend (prepared call key ∷ ts) = (λ d c. tt, any-MaySend ts)

submit_from-kept :
    (s : Settings) (total index : ℕ) (ts : List SignedTransaction)
    → Triple Anywhere (submit_from s total index ts) AllKept
unfolding submit_from
submit_from-kept s total index [] = Triple-pure _ (λ w p. tt)
submit_from-kept s total index (foreign ∷ ts) = Triple-raise _
submit_from-kept s total index (prepared call key ∷ ts) = Triple-bind (Triple-any _) λ r.
    after_broadcast-kept s _ (λ reason w. abandon-IsKept (index + 1) total reason ts w) _
      (Triple-eta (submit_from-kept s total (index + 1) ts))
      (λ hash.
        Keeps-eta (Keeps-submit_from (logs-Respects hash) s total (index + 1) ts (any-MaySend ts)))
      (index == 0) (is_empty ts) call key r

-- Whatever the server answers, when `submit` returns its results, the receipts file is readable
-- and holds an entry with the hash of each transaction that they report as sent, also of those
-- that were sent before a later one failed.
pub submit-logged :
    (h : Host) (s : Settings) (txs : List SignedTransaction) (w : World)
    → Left AllKept (submit s txs h w).0 (submit s txs h w).1
unfolding submit
submit-logged h s txs w = (submit_from-kept s (length txs) 0 txs).at h w tt
