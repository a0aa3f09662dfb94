-- ===== src/Receipts/Quiet.antt =====
-- Writing to the log sends no request.
use almanak_keeperhub.Prelude.{String, refl, List}
use almanak_keeperhub.Python.Json.{Dict}
use almanak_keeperhub.Effects.{Request, Action}
use almanak_keeperhub.Effects.Frame.{Keeps, Keeps-bind, Keeps-gets, Keeps-asks, Keeps-lift}
use almanak_keeperhub.Effects.Asked.{Asks, Keeps-modify}
use almanak_keeperhub.Client.Steps.{Sends}
use almanak_keeperhub.Receipts.{mutate, timestamp, record_execution, record_simulation, update}

module _ (P : Request → Type 0) where
  Keeps-mutate : (apply : List Dict → List Dict) → Keeps (Asks P) (mutate apply)
  unfolding mutate
  Keeps-mutate apply =
      Keeps-bind (Keeps-gets _)
        (λ file. Keeps-bind (Keeps-lift _) (λ entries. Keeps-modify P _ (λ w. refl)))

  Keeps-timestamp : Keeps (Asks P) timestamp
  unfolding timestamp
  Keeps-timestamp = Keeps-bind (Keeps-gets _) (λ now. Keeps-asks _)

  pub Keeps-record_execution :
      (id : String) (fields : Dict) → Keeps (Asks P) (record_execution id fields)
  unfolding record_execution
  Keeps-record_execution id fields = Keeps-bind Keeps-timestamp (λ now. Keeps-mutate _)

  pub Keeps-record_simulation : (fields : Dict) → Keeps (Asks P) (record_simulation fields)
  unfolding record_simulation
  Keeps-record_simulation fields = Keeps-bind Keeps-timestamp (λ now. Keeps-mutate _)

  pub Keeps-update : (id : String) (fields : Dict) → Keeps (Asks P) (update id fields)
  unfolding update
  Keeps-update id fields = Keeps-bind Keeps-timestamp (λ now. Keeps-mutate _)

  -- What the client's methods send.
  pub Asks-of_Sends : {A : Type 0} {m : Action A} → Keeps (Sends P) m → Keeps (Asks P) m
  Asks-of_Sends k = record {
    at = λ h w. let s = k.at h w in record { new = s.new; sent = s.sent; allowed = s.allowed };
  }
