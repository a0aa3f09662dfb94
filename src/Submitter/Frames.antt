-- ===== src/Submitter/Frames.antt =====
-- A frame that the submitter's own effects and the client's methods respect is respected by
-- `submit` as a whole.
use almanak_keeperhub.Prelude.{
  ℕ, zero, suc, ◌+◌, String, Bool, Option, none, some, List, [], ◌∷◌, ◌==◌, is_empty, All,
}
use almanak_keeperhub.Prelude.Int.{ℤ}
use almanak_keeperhub.Python.Json.{Dict}
use almanak_keeperhub.Errors.{Result, ok, err, timeout, submission}
use almanak_keeperhub.Effects.{
  Request, Alert, Action, ExecutionStatus, ExecutionEnvelope, Execution, settled, pending, notify,
}
use almanak_keeperhub.Effects.Frame.{
  Frame, Keeps, Keeps-pure, Keeps-raise, Keeps-lift, Keeps-gets, Keeps-asks, Keeps-if,
  Keeps-attempt, Keeps-eta, Keeps-bind, keeps_rules,
}
use almanak_keeperhub.Client.Calls.{ContractCall}
use almanak_keeperhub.Client.Bodies.{Carries}
use almanak_keeperhub.Client.Answers.{terminal}
use almanak_keeperhub.Client.Polling.{wait_for_terminal}
use almanak_keeperhub.Client.Methods.{get_request, post_request, contract_call_path, status_path}
use almanak_keeperhub.Client.Steps.{Sends, Keeps-sleep}
use almanak_keeperhub.Client.Sends.{Keeps-execute_contract_call, Keeps-wait_for_terminal}
use almanak_keeperhub.Receipts.{read, find_by_hash, record_execution, update}
use almanak_keeperhub.Submitter.Types.{
  Settings, SignedTransaction, prepared, foreign, SubmissionResult, remember,
}
use almanak_keeperhub.Submitter.Broadcast.{
  Decision, retry, refuse, sent, decision, retry_or_give_up, resolved, remember_hash, resolve_hash,
  act, broadcast_from, broadcast,
}
use almanak_keeperhub.Submitter.Settle.{
  from_log, known_or_logged, execution_for, confirmed, settlement, settle_execution, settle_known,
  settle,
}
use almanak_keeperhub.Submitter.Submit.{
  assign, keep_hash, after_settle, after_hash, refused, after_envelope, after_broadcast,
  submit_from,
}

pub record Respects (F : Frame) (P : Request → Type 0) : Type 1 where
  pub client : (A : Type 0) (m : Action A) → Keeps (Sends P) m → Keeps F m
  pub polls : (id : String) → P (get_request (status_path id))
  pub remembers : (hash : String) (e : Execution) → Keeps F (remember hash e)
  pub notifies : (a : Alert) → Keeps F (notify a)
  pub assigns : (key hash : String) → Keeps F (assign key hash)
  pub records : (id : String) (fields : Dict) → Keeps F (record_execution id fields)
  pub settles : (id : String) (status : ExecutionStatus) → Keeps F (update id (settlement status))

-- The requests that a transaction may send.
abbrev pub MaySend : (Request → Type 0) → SignedTransaction → Type 0
MaySend P foreign = Unit
MaySend P (prepared call key) =
    (d : Dict) → Carries call d → P (post_request contract_call_path (some key) d)

module _ {F : Frame} {P : Request → Type 0} (f : Respects F P) (s : Settings) where
  Keeps-resolved :
      (envelope : ExecutionEnvelope) (r : Result ExecutionStatus) → Keeps F (resolved s envelope r)
  unfolding resolved
  Keeps-resolved envelope (ok status) = Keeps-pure _
  Keeps-resolved envelope (err (timeout e)) = Keeps-raise _
  Keeps-resolved envelope (err e) = Keeps-raise _

  Keeps-remember_hash :
      (status : ExecutionStatus) (hash : Option String) → Keeps F (remember_hash status hash)
  unfolding remember_hash
  Keeps-remember_hash status none = Keeps-pure _
  Keeps-remember_hash status (some hash) = Keeps-if _ (f.remembers hash _) (Keeps-pure _)

  Keeps-wait : (id : String) (limit : ℕ) (d : ℤ) → Keeps F (wait_for_terminal id limit d)
  Keeps-wait id limit d = f.client _ _ (Keeps-wait_for_terminal id limit d (f.polls id))

  Keeps-resolve_hash : (envelope : ExecutionEnvelope) → Keeps F (resolve_hash s envelope)
  unfolding resolve_hash
  Keeps-resolve_hash envelope = Keeps-if _ (Keeps-pure _) (
      Keeps-bind (Keeps-attempt (Keeps-wait _ _ _)) λ r.
        Keeps-bind (Keeps-resolved envelope r)
          λ status. Keeps-bind (Keeps-remember_hash status _) λ _. Keeps-pure _)

  Keeps-retry_or_give_up :
      (attempts : ℕ) (delay : ℤ) (reason : String)
      → Keeps F (retry_or_give_up s attempts delay reason)
  unfolding retry_or_give_up
  Keeps-retry_or_give_up attempts delay reason =
      Keeps-if _ (Keeps-raise _) (Keeps-bind (f.client _ _ (Keeps-sleep delay)) (λ _. Keeps-pure _))

  Keeps-act :
      (attempts : ℕ) (again : ℕ → Action ExecutionEnvelope) (d : Decision)
      → ((n : ℕ) → Keeps F (again n))
      → Keeps F (act s attempts again d)
  unfolding act
  Keeps-act attempts again (retry delay reason) k =
      Keeps-bind (Keeps-retry_or_give_up attempts delay reason) k
  Keeps-act attempts again (refuse e) k = Keeps-raise e
  Keeps-act attempts again (sent envelope) k = Keeps-resolve_hash envelope

  Keeps-broadcast_from :
      (fuel : ℕ) (call : ContractCall) (key : String) (attempts : ℕ)
      → MaySend P (prepared call key)
      → Keeps F (broadcast_from fuel s call key attempts)
  unfolding broadcast_from
  Keeps-broadcast_from zero call key attempts p = Keeps-raise _
  Keeps-broadcast_from (suc fuel) call key attempts p =
      Keeps-bind (Keeps-attempt (f.client _ _ (Keeps-execute_contract_call call key p))) λ r.
        Keeps-act attempts _ (decision attempts r)
          λ n. Keeps-eta (Keeps-broadcast_from fuel call key n p)

  pub Keeps-broadcast :
      (call : ContractCall) (key : String)
      → MaySend P (prepared call key)
      → Keeps F (broadcast s call key)
  unfolding broadcast
  Keeps-broadcast call key p = Keeps-broadcast_from (suc s.max_retries) call key 0 p

  Keeps-find_by_hash : (hash : String) → Keeps F (find_by_hash hash)
  unfolding find_by_hash read
  Keeps-find_by_hash hash = search keeps_rules depth 9

  Keeps-from_log : (hash : String) (found : Option Dict) → Keeps F (from_log s hash found)
  unfolding from_log
  Keeps-from_log hash none = Keeps-raise _
  Keeps-from_log hash (some recorded) =
      Keeps-bind (Keeps-asks _)
        λ repr. Keeps-bind (Keeps-lift _) λ id. Keeps-bind (f.remembers hash _) λ _. Keeps-pure _

  Keeps-known_or_logged :
      (hash : String) (known : Option Execution) → Keeps F (known_or_logged s hash known)
  unfolding known_or_logged
  Keeps-known_or_logged hash (some known) = Keeps-pure _
  Keeps-known_or_logged hash none =
      Keeps-bind (Keeps-find_by_hash hash) (λ found. Keeps-from_log hash found)

  Keeps-confirmed :
      (id hash : String) (limit : ℕ) (r : Result ExecutionStatus)
      → Keeps F (confirmed id hash limit r)
  unfolding confirmed
  Keeps-confirmed id hash limit (ok status) = Keeps-pure _
  Keeps-confirmed id hash limit (err (timeout e)) = Keeps-raise _
  Keeps-confirmed id hash limit (err e) = Keeps-raise _

  Keeps-settle_execution :
      (hash : String) (limit : ℕ) (id : String) → Keeps F (settle_execution hash limit id)
  unfolding settle_execution
  Keeps-settle_execution hash limit id = Keeps-bind (Keeps-attempt (Keeps-wait id limit _)) λ r.
      Keeps-bind (Keeps-confirmed id hash limit r) λ status.
        Keeps-bind (f.remembers hash _)
          λ _. Keeps-bind (f.notifies _) λ _. Keeps-bind (f.settles _ status) λ _. Keeps-pure _

  Keeps-settle_known :
      (hash : String) (limit : ℕ) (known : Execution) → Keeps F (settle_known hash limit known)
  unfolding settle_known
  Keeps-settle_known hash limit (settled status) =
      Keeps-if (terminal status) (Keeps-pure _) (Keeps-settle_execution hash limit _)
  Keeps-settle_known hash limit (pending envelope) = Keeps-settle_execution hash limit _

  pub Keeps-settle : (hash : String) (limit : ℕ) → Keeps F (settle s hash limit)
  unfolding settle execution_for
  Keeps-settle hash limit =
      Keeps-bind (Keeps-bind (Keeps-gets _) (λ known. Keeps-known_or_logged hash known))
        λ known. Keeps-settle_known hash limit known

  pub Keeps-keep_hash :
      (call : ContractCall) (key hash : String) (envelope : ExecutionEnvelope)
      → Keeps F (keep_hash call key hash envelope)
  unfolding keep_hash
  Keeps-keep_hash call key hash envelope =
      Keeps-bind (f.assigns key hash)
        λ _. Keeps-bind (f.remembers hash _) λ _. Keeps-bind (f.records _ _) λ _. f.notifies _

  module _ (give_up : String → List SubmissionResult) (again : Action (List SubmissionResult))
      (more : Keeps F again) where
    Keeps-after_settle : (r : Result ExecutionStatus) → Keeps F (after_settle give_up again r)
    unfolding after_settle
    Keeps-after_settle (ok status) = Keeps-if _ (Keeps-pure _) more
    Keeps-after_settle (err (submission e)) = Keeps-pure _
    Keeps-after_settle (err e) = Keeps-raise _

    pub Keeps-after_hash :
        (is_last : Bool) (hash : String) (envelope : ExecutionEnvelope)
        → Keeps F (after_hash s give_up again is_last hash envelope)
    unfolding after_hash
    Keeps-after_hash is_last hash envelope = Keeps-if _ (Keeps-pure _) (
        Keeps-if _
          (Keeps-bind (Keeps-attempt (Keeps-settle hash s.confirmation_timeout)) Keeps-after_settle)
          more)

    Keeps-after_envelope :
        (is_last : Bool) (call : ContractCall) (key : String) (envelope : ExecutionEnvelope)
        (hash : Option String)
        → Keeps F (after_envelope s give_up again is_last call key envelope hash)
    unfolding after_envelope refused
    Keeps-after_envelope is_last call key envelope none =
        Keeps-bind (f.notifies _) (λ _. Keeps-pure _)
    Keeps-after_envelope is_last call key envelope (some hash) =
        Keeps-bind (Keeps-keep_hash call key hash envelope)
          λ _. Keeps-bind (Keeps-after_hash is_last hash envelope) λ rs. Keeps-pure _

    Keeps-after_broadcast :
        (is_first is_last : Bool) (call : ContractCall) (key : String)
        (r : Result ExecutionEnvelope)
        → Keeps F (after_broadcast s give_up again is_first is_last call key r)
    unfolding after_broadcast
    Keeps-after_broadcast is_first is_last call key (ok envelope) =
        Keeps-after_envelope is_last call key envelope _
    Keeps-after_broadcast is_first is_last call key (err (submission e)) =
        Keeps-if is_first (Keeps-raise _) (Keeps-pure _)
    Keeps-after_broadcast is_first is_last call key (err e) = Keeps-raise _

  pub Keeps-submit_from :
      (total index : ℕ) (ts : List SignedTransaction)
      → All (MaySend P) ts
      → Keeps F (submit_from s total index ts)
  unfolding submit_from
  Keeps-submit_from total index [] p = Keeps-pure _
  Keeps-submit_from total index (foreign ∷ ts) p = Keeps-raise _
  Keeps-submit_from total index (prepared call key ∷ ts) p =
      Keeps-bind (Keeps-attempt (Keeps-broadcast call key p.0)) λ r.
        Keeps-after_broadcast _ _ (Keeps-eta (Keeps-submit_from total (index + 1) ts p.1))
          (index == 0) (is_empty ts) call key r
