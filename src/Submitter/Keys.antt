-- ===== src/Submitter/Keys.antt =====
-- A bundle sends attempts under its own transactions' keys, and status polls, and nothing else.
use almanak_keeperhub.Prelude.{String, ◌≡◌, ◌⊎◌, refl, inl, inr, some, List, [], ◌∷◌, All, length}
use almanak_keeperhub.Python.Json.{Dict}
use almanak_keeperhub.Client.Calls.{ContractCall}
use almanak_keeperhub.Client.Bodies.{Carries}
use almanak_keeperhub.Effects.{Request, World, Host}
use almanak_keeperhub.Effects.Asked.{Asked, Asks, Keeps-modify, Keeps-notify}
use almanak_keeperhub.Receipts.Quiet.{Keeps-record_execution, Keeps-update, Asks-of_Sends}
use almanak_keeperhub.Client.Methods.{get_request, contract_call_path, status_path}
use almanak_keeperhub.Submitter.Types.{Settings, SignedTransaction, prepared, foreign, remember}
use almanak_keeperhub.Submitter.Submit.{assign, submit}
use almanak_keeperhub.Submitter.Frames.{Respects, MaySend, Keeps-submit_from}

module _ (P : Request → Type 0) where
  pub asks-Respects : ((id : String) → P (get_request (status_path id))) → Respects (Asks P) P
  unfolding remember assign
  asks-Respects polls = record {
    client = λ A m k. Asks-of_Sends P k;
    polls = polls;
    remembers = λ hash e. Keeps-modify P _ (λ w. refl);
    notifies = λ a. Keeps-notify P a;
    assigns = λ key hash. Keeps-modify P _ (λ w. refl);
    records = λ id fields. Keeps-record_execution P id fields;
    settles = λ id status. Keeps-update P id _;
  }

-- A broadcast of the call, which it makes for real, under a key.
abbrev Posts : ContractCall → String → Request → Type 0
Posts call key r =
    (r.path ≡ contract_call_path)
    × (r.idempotency_key ≡ some key)
    × ((d : Dict) × (r.body ≡ some d) × Carries call d)

-- A broadcast of one of the transactions, under the key that its signer gave it.
abbrev pub IsAttempt : List SignedTransaction → Request → Type 0
IsAttempt [] r = ⊥
IsAttempt (foreign ∷ ts) r = IsAttempt ts r
IsAttempt (prepared call key ∷ ts) r = Posts call key r ⊎ IsAttempt ts r

abbrev pub IsPoll : Request → Type 0
IsPoll r = (id : String) × (r ≡ get_request (status_path id))

module _ (P : Request → Type 0) where
  MaySend-All :
      (ts : List SignedTransaction) → ((r : Request) → IsAttempt ts r → P r) → All (MaySend P) ts
  MaySend-All [] k = tt
  MaySend-All (foreign ∷ ts) k = (tt, MaySend-All ts k)
  MaySend-All (prepared call key ∷ ts) k =
      (λ d c. k _ (inl (refl, refl, (d, refl, c))), MaySend-All ts (λ r p. k r (inr p)))

-- Whatever the server answers, and however `submit` ends, each request that it sends is a status
-- poll or posts one of the bundle's transactions, with its contract, its chain, its calldata or
-- its function with arguments and ABI, and its value, under that transaction's own idempotency
-- key: no retry and no fallback to the typed spelling changes the call or the key, or drops the
-- key.
pub submit-keys :
    (h : Host) (s : Settings) (txs : List SignedTransaction) (w : World)
    → Asked (λ r. IsPoll r ⊎ IsAttempt txs r) w (submit s txs h w).1
unfolding submit
submit-keys h s txs w =
    (Keeps-submit_from (asks-Respects (λ r. IsPoll r ⊎ IsAttempt txs r) (λ id. inl (id, refl))) s
        (length txs) 0 txs (MaySend-All (λ r. IsPoll r ⊎ IsAttempt txs r) txs (λ r p. inr p))).at
      h w
