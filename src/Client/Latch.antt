-- ===== src/Client/Latch.antt =====
-- What the client has learned of raw calldata it does not forget.
use almanak_keeperhub.Prelude.{String, ◌≡◌, ◌∙◌, inl, inr, Bool, Option, some, List}
use almanak_keeperhub.Effects.{Request, World, Host, Action}
use almanak_keeperhub.Effects.Frame.{Keeps}
use almanak_keeperhub.Client.Calls.{ContractCall}
use almanak_keeperhub.Client.Methods.{
  execute_contract_call, simulate_contract_call, simulate_call_sequence, check_and_execute,
}
use almanak_keeperhub.Client.Steps.{Latched, Sends}
use almanak_keeperhub.Client.Sends.{
  Keeps-execute_contract_call, Keeps-simulate_contract_call, Keeps-simulate_call_sequence,
  Keeps-check_and_execute,
}

abbrev AnyRequest : Request → Type 0
AnyRequest r = Unit

-- The call leaves the flag of raw calldata, once it is known, as it is.
abbrev pub Remembers : {A : Type 0} → Action A → Host → World → Type 0
Remembers m h w =
    (b : Bool) → w.capabilities.raw_calldata ≡ some b → (m h w).1.capabilities.raw_calldata ≡ some b

latch : (a c : Option Bool) → Latched a c → (b : Bool) → a ≡ some b → c ≡ some b
latch a c (inl unknown) b known = cc
latch a c (inr same) b known = same ∙ known

Keeps-Remembers :
    {A : Type 0} {m : Action A}
    → Keeps (Sends AnyRequest) m
    → (h : Host) (w : World) → Remembers m h w
Keeps-Remembers k h w = latch _ _ (k.at h w).raw_calldata

-- Whether KeeperHub takes raw calldata is asked once: whatever it answers later, a broadcast, a
-- dry run of one call or of a sequence, and a guarded execution leave a known answer as it is.
pub raw_calldata-Remembers :
    (h : Host) (w : World) (call check : ContractCall) (calls : List ContractCall)
    (key operator value : String) (guard : Option String) (simulate : Bool)
    → Remembers (execute_contract_call call key) h w
      × Remembers (simulate_contract_call call) h w
      × Remembers (simulate_call_sequence calls) h w
      × Remembers (check_and_execute check operator value call guard simulate) h w
raw_calldata-Remembers h w call check calls key operator value guard simulate = (
  Keeps-Remembers (Keeps-execute_contract_call call key (λ d c. tt)) h w,
  Keeps-Remembers (Keeps-simulate_contract_call call (λ d m. tt)) h w,
  Keeps-Remembers (Keeps-simulate_call_sequence calls (λ d m. tt)) h w,
  Keeps-Remembers (Keeps-check_and_execute check operator value call guard simulate (λ d m. tt)) h
      w,
)
