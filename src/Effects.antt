-- ===== src/Effects.antt =====
-- What a method call can do: send a request, sleep, read the clock, read and write the receipts
-- file, alert the operator, change the client's and the submitter's fields, and raise.
-- What was written before a raise stays written, so the state comes back beside an error too.
pub mod Frame
pub mod Leads
pub mod Triple
pub mod Asked
use almanak_keeperhub.Prelude.{
  ℕ, ◌+◌, ◌*◌, String, ◌≡◌, refl, Bool, Option, none, some, List, [], ◌∷◌, if◌then◌else◌,
}
use almanak_keeperhub.Prelude.Int.{ℤ, pos, pos_part}
use almanak_keeperhub.Python.Json.{Value, Dict}
use almanak_keeperhub.Errors.{Error, transport, Result, ok, err}

pub data Method : Type 0 where
  get post patch : Method

-- What the package passes to httpx: the path, the `Idempotency-Key` header and the JSON body.
pub record Request : Type 0 where
  pub method : Method
  pub path : String
  pub idempotency_key : Option String
  pub body : Option Dict

-- `text` is empty where there is no content, and `body` is none where `response.json()` raises a
-- ValueError.
pub record Response : Type 0 where
  pub status_code : ℕ
  pub retry_after : Option String
  pub poll_interval_hint : Option String
  pub text : String
  pub body : Option Value

pub data Reply : Type 0 where
  response : Response → Reply
  transport_error : String → Reply

-- A receipt as web3 reads it from the chain: the fields that the submitter uses.
pub record ChainReceipt : Type 0 where
  pub block_number : ℕ
  pub block_hash : String
  pub gas_used : ℕ
  pub effective_gas_price : ℕ
  pub status : ℕ
  pub logs : List Dict

-- What lies outside of the package. The KeeperHub server answers a request by all those before it,
-- newest first, and the answer takes `latency` ticks. `fetch_receipt` is the submitter's receipt
-- fetcher, `float_of` reads a text as a number of seconds, in ticks, and `isoformat` prints a clock
-- value as a UTC timestamp.
pub record Host : Type 0 where
  pub server : List Request → Request → Reply
  pub latency : List Request → ℕ
  pub fetch_receipt : List Request → String → Option ChainReceipt
  pub float_of : String → Option ℤ
  pub isoformat : ℕ → String
  pub sha256 : String → String
  pub repr : Value → String

-- A tick is a microsecond.
abbrev pub second : ℕ
second = 1_000_000

-- The receipts file by what `json.loads` makes of it.
pub data File : Type 0 where
  missing blank garbled : File
  document : Value → File

-- `Capabilities` of client.py; none is "not yet known".
pub record Capabilities : Type 0 where
  pub raw_calldata : Option Bool
  pub call_sequence : Option Bool

-- One message of `TelegramNotifier.send`.
pub record Alert : Type 0 where
  pub event : String
  pub detail : String
  pub link : Option String

-- `Receipt`, `ExecutionStatus` and `ExecutionEnvelope` of client.py.
pub record Receipt : Type 0 where
  pub hash : String
  pub chain_id : Option ℤ
  pub verified : Bool
  pub receipt_status : Value
  pub block_number : Option ℤ
  pub gas_used : Option ℤ

pub record ExecutionStatus : Type 0 where
  pub execution_id : String
  pub status : String
  pub transaction_hash : Option String
  pub transaction_link : Option String
  pub sponsored : Bool
  pub receipts : List Receipt
  pub error : Option String
  pub poll_hint_seconds : Option ℤ
  pub raw : Dict

pub record ExecutionEnvelope : Type 0 where
  pub execution_id : String
  pub status : String
  pub transaction_hash : Option String
  pub transaction_link : Option String
  pub error : Option String
  pub idempotent_replay : Bool
  pub raw : Dict

pub data Execution : Type 0 where
  settled : ExecutionStatus → Execution
  pending : ExecutionEnvelope → Execution

-- The state: the requests sent so far, newest first, the clock in ticks, the receipts file, the
-- alerts, newest first, the client's capabilities and `_wallet_address`, and the submitter's
-- `_executions`, newest first. `tx_hashes` holds what `submit` writes into the field `tx_hash` of
-- the transactions that it was given, by idempotency key.
pub record World : Type 0 where
  pub sent : List Request
  pub clock : ℕ
  pub file : File
  pub alerts : List Alert
  pub capabilities : Capabilities
  pub wallet_address : Option String
  pub executions : List (String × Execution)
  pub tx_hashes : List (String × String)

abbrev pub Action : Type 0 → Type 0
Action A = Host → World → Result A × World

module _ {A : Type 0} where
  unfoldable pub pure : A → Action A
  pure a h w = (ok a, w)

  unfoldable pub raise : Error → Action A
  raise e h w = (err e, w)

  unfoldable pub lift : Result A → Action A
  lift r h w = (r, w)

  unfoldable pub gets : (World → A) → Action A
  gets f h w = (ok (f w), w)

  unfoldable pub asks : (Host → A) → Action A
  asks f h w = (ok (f h), w)

  -- `try`: the outcome as a value.
  unfoldable pub attempt : Action A → Action (Result A)
  attempt m h w = let (r, w') = m h w in (ok r, w')

unfoldable pub modify : (World → World) → Action Unit
modify f h w = (ok tt, f w)

module _ {A B : Type 0} where
  unfoldable pub continue : Result A → (A → Action B) → Action B
  continue (ok a) f h w = f a h w
  continue (err e) f h w = (err e, w)

  infixl 10 ◌>>=◌ ◌>>◌
  unfoldable pub ◌>>=◌ : Action A → (A → Action B) → Action B
  unfolding continue
  ◌>>=◌ m f h w = let (r, w') = m h w in continue r f h w'

  abbrev pub ◌>>◌ : Action A → Action B → Action B
  m >> n = m >>= λ _. n

unfoldable pub answer : Reply → Action Response
answer (response r) h w = (ok r, w)
answer (transport_error e) h w = (err (transport e), w)

-- One request through httpx.
unfoldable pub http : Request → Action Response
unfolding answer
http r h w =
    answer (h.server w.sent r) h
      (record w { sent = r ∷ w.sent; clock = w.clock + h.latency w.sent })

-- `await asyncio.sleep(d)`; a negative delay does not wait.
unfoldable pub sleep : ℤ → Action Unit
sleep d h w = (ok tt, record w { clock = w.clock + pos_part d })

abbrev pub seconds : ℕ → ℤ
seconds n = pos (second * n)

-- `TelegramNotifier.send`: best effort, so it never raises.
unfoldable pub notify : Alert → Action Unit
notify a h w = (ok tt, record w { alerts = a ∷ w.alerts })
