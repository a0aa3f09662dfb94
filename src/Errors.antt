-- ===== src/Errors.antt =====
-- errors.py, and the exceptions of the libraries that the package raises or handles.
use almanak_keeperhub.Prelude.{ℕ, String, ◌≡◌, refl, Bool, Option}
use almanak_keeperhub.Prelude.Int.{ℤ}
use almanak_keeperhub.Python.Json.{Dict, as_str, as_bool, get}

-- The subclasses of `KeeperHubAPIError`, and the class itself.
pub data ApiKind : Type 0 where
  plain auth conflict in_progress unavailable : ApiKind
  rate_limited : ℤ → ApiKind

-- `KeeperHubAPIError`, with the message that `str(exc)` gives.
pub record ApiError : Type 0 where
  pub kind : ApiKind
  pub message : String
  pub status : ℕ
  pub payload : Dict

-- The properties `code`, `retryable` and `original_execution_id`.
unfoldable pub code : ApiError → Option String
code e = as_str (get "code" e.payload)

unfoldable pub retryable : ApiError → Option Bool
retryable e = as_bool (get "retryable" e.payload)

unfoldable pub original_execution_id : ApiError → Option String
original_execution_id e = as_str (get "originalExecutionId" e.payload)

-- `UndecodableCalldata`: the selector and the contract that it was meant for.
pub record Undecodable : Type 0 where
  pub selector : String
  pub to : String

-- Almanak's `SubmissionError`; the arguments that a call leaves out are none.
pub record Submission : Type 0 where
  pub message : String
  pub tx_hash : Option String
  pub recoverable : Option Bool

pub data Error : Type 0 where
  api : ApiError → Error
  undecodable : Undecodable → Error
  submission : Submission → Error
  signing : String → Error
  transport : String → Error
  timeout : String → Error
  value_error type_error key_error runtime_error attribute_error : String → Error
  assertion_error : Error
  -- A loop of the model is out of fuel: no Python exception, and proved not to occur.
  out_of_fuel : Error

pub data Result {ℓ} (A : Type ℓ) : Type ℓ where
  ok : A → Result A
  err : Error → Result A

-- A step that may raise, and the step after it.
module _ {ℓ κ} {A : Type ℓ} {B : Type κ} where
  infixl 5 ◌>>=◌
  abbrev pub ◌>>=◌ : Result A → (A → Result B) → Result B
  ◌>>=◌ (err problem) next = err problem
  ◌>>=◌ (ok a) next = next a

  infixl 5 ◌>>◌
  abbrev pub ◌>>◌ : Result A → Result B → Result B
  ◌>>◌ first second = first >>= λ a. second

  -- Two steps that do not raise.
  pub ok-steps :
      {b : B} (first : Result A) (next : A → Result B) (whole : (first >>= next) ≡ ok b)
      → (a : A) × (first ≡ ok a) × (next a ≡ ok b)
  ok-steps (err problem) next whole = cc
  ok-steps (ok a) next whole = (a, refl, whole)

pub >>=_assoc {ℓ κ ι} :
    {A : Type ℓ} {B : Type κ} {C : Type ι} (m : Result A) (f : A → Result B) (g : B → Result C)
    → (m >>= λ a. f a >>= g) ≡ ((m >>= f) >>= g)
>>=_assoc (ok a) f g = refl
>>=_assoc (err e) f g = refl
