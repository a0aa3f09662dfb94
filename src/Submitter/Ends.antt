-- ===== src/Submitter/Ends.antt =====
-- How the submitter's reads and writes of the log and its waits end.
use almanak_keeperhub.Prelude.{ℕ, String, Option, none, some, List, arith}
use almanak_keeperhub.Python.Json.{Value, Dict, find, text_of}
use almanak_keeperhub.Errors.{
  Result, ok, err, api, timeout, value_error, type_error, key_error, submission,
}
use almanak_keeperhub.Effects.{
  World, Host, Alert, File, ExecutionStatus, ExecutionEnvelope, Execution, settled, pending, modify,
  notify,
}
use almanak_keeperhub.Effects.Frame.{
  Outcome, Anything, Ends, Ends-pure, Ends-raise, Ends-lift, Ends-gets, Ends-asks, Ends-bind,
  EndsOn, EndsOn-of_Ends, EndsOn-pure, EndsOn-if, EndsOn-bind,
}
use almanak_keeperhub.Client.Answers.{terminal}
use almanak_keeperhub.Client.Calls.{ContractCall}
use almanak_keeperhub.Receipts.{
  parse, read, mutate, timestamp, record_execution, update, find_by_hash,
}
use almanak_keeperhub.Submitter.Types.{Settings}
use almanak_keeperhub.Submitter.Settle.{
  execution_for, known_or_logged, from_log, recorded_id, confirmed, unconfirmed, settle_execution,
  settle_known, settle,
}
use almanak_keeperhub.Submitter.Submit.{assign, keep_hash}
use almanak_keeperhub.Submitter.Total.{IsDecided, TakesTime, WaitEnds, attempt-wait, Ends-remember}

pub Ends-notify : (a : Alert) → Ends Anything IsDecided (notify a)
unfolding notify
Ends-notify a = record { at = λ h w. tt }

Ends-modify : (f : World → World) → Ends Anything IsDecided (modify f)
unfolding modify
Ends-modify f = record { at = λ h w. tt }

parse-ends : (file : File) → Outcome Anything IsDecided (parse file)
unfolding parse
parse-ends file = ground arith

Ends-mutate : (apply : List Dict → List Dict) → Ends Anything IsDecided (mutate apply)
unfolding mutate
Ends-mutate apply =
    Ends-bind {P = Anything} (Ends-gets _ (λ w. tt))
      λ file _. Ends-bind (Ends-lift _ (parse-ends file)) λ entries _. Ends-modify _

Ends-timestamp : Ends Anything IsDecided timestamp
unfolding timestamp
Ends-timestamp = Ends-bind {P = Anything} (Ends-gets _ (λ w. tt)) (λ now _. Ends-asks _ (λ h. tt))

Ends-record_execution :
    (id : String) (fields : Dict) → Ends Anything IsDecided (record_execution id fields)
unfolding record_execution
Ends-record_execution id fields = Ends-bind Ends-timestamp (λ now _. Ends-mutate _)

Ends-update : (id : String) (fields : Dict) → Ends Anything IsDecided (update id fields)
unfolding update
Ends-update id fields = Ends-bind Ends-timestamp (λ now _. Ends-mutate _)

Ends-find_by_hash : (hash : String) → Ends Anything IsDecided (find_by_hash hash)
unfolding find_by_hash read
Ends-find_by_hash hash =
    Ends-bind {P = Anything}
      (Ends-bind {P = Anything} (Ends-gets _ (λ w. tt)) (λ file _. Ends-lift _ (parse-ends file)))
      λ entries _. Ends-bind {P = Anything} (Ends-asks _ (λ h. tt)) λ repr _. Ends-pure _ tt

recorded_id-ends :
    (show_value : Value → String) (v : Option Value)
    → Outcome Anything IsDecided (recorded_id show_value v)
unfolding recorded_id
recorded_id-ends show_value none = tt
recorded_id-ends show_value (some v) = tt

Ends-from_log :
    (s : Settings) (hash : String) (found : Option Dict)
    → Ends Anything IsDecided (from_log s hash found)
unfolding from_log
Ends-from_log s hash none = Ends-raise _ tt
Ends-from_log s hash (some recorded) = Ends-bind {P = Anything} (Ends-asks _ (λ h. tt)) λ repr _.
    Ends-bind (Ends-lift _ (recorded_id-ends (text_of repr) (find "execution_id" recorded)))
      λ id _. Ends-bind (Ends-remember hash _) λ _ _. Ends-pure _ tt

Ends-execution_for : (s : Settings) (hash : String) → Ends Anything IsDecided (execution_for s hash)
unfolding execution_for
Ends-execution_for s hash = Ends-bind {P = Anything} (Ends-gets _ (λ w. tt)) (λ known _. go known)
  where
    go : (known : Option Execution) → Ends Anything IsDecided (known_or_logged s hash known)
    go (some known) = unfold known_or_logged in Ends-pure _ tt
    go none =
        unfold known_or_logged in
        Ends-bind (Ends-find_by_hash hash) (λ found _. Ends-from_log s hash found)

confirmed-Ends :
    (id hash : String) (limit : ℕ) (r : Result ExecutionStatus)
    → WaitEnds r
    → Ends Anything IsDecided (confirmed id hash limit r)
unfolding confirmed unconfirmed
confirmed-Ends id hash limit (ok status) p = Ends-pure _ tt
confirmed-Ends id hash limit (err (timeout e)) p = Ends-raise _ tt
confirmed-Ends id hash limit (err (api e)) p = Ends-raise _ p
confirmed-Ends id hash limit (err (value_error e)) p = Ends-raise _ tt
confirmed-Ends id hash limit (err (type_error e)) p = Ends-raise _ tt
confirmed-Ends id hash limit (err (key_error e)) p = Ends-raise _ tt
confirmed-Ends id hash limit (err (submission e)) p = Ends-raise _ tt
confirmed-Ends id hash limit (err e) p = absurd p

module _ (h : Host) (takes_time : TakesTime h) (s : Settings) where
  settle_execution-ends :
      (hash : String) (limit : ℕ) (id : String)
      → EndsOn h Anything IsDecided (settle_execution hash limit id)
  unfolding settle_execution
  settle_execution-ends hash limit id = EndsOn-bind (attempt-wait h _ _ _ takes_time) λ r p.
      EndsOn-bind (EndsOn-of_Ends (confirmed-Ends id hash limit r p)) λ status _. EndsOn-of_Ends (
        Ends-bind (Ends-remember hash _)
          λ _ _. Ends-bind (Ends-notify _) λ _ _. Ends-bind (Ends-update _ _) λ _ _. Ends-pure _ tt)

  settle_known-ends :
      (hash : String) (limit : ℕ) (known : Execution)
      → EndsOn h Anything IsDecided (settle_known hash limit known)
  unfolding settle_known
  settle_known-ends hash limit (settled status) =
      EndsOn-if (terminal status) (EndsOn-pure _ tt) (settle_execution-ends hash limit _)
  settle_known-ends hash limit (pending envelope) = settle_execution-ends hash limit _

  pub settle-ends : (hash : String) (limit : ℕ) → EndsOn h Anything IsDecided (settle s hash limit)
  unfolding settle
  settle-ends hash limit =
      EndsOn-bind (EndsOn-of_Ends (Ends-execution_for s hash))
        (λ known _. settle_known-ends hash limit known)

  pub keep_hash-Ends :
      (call : ContractCall) (key hash : String) (envelope : ExecutionEnvelope)
      → Ends Anything IsDecided (keep_hash call key hash envelope)
  unfolding keep_hash assign
  keep_hash-Ends call key hash envelope = Ends-bind (Ends-modify _) λ _ _.
      Ends-bind (Ends-remember hash _)
        λ _ _. Ends-bind (Ends-record_execution _ _) λ _ _. Ends-notify _
