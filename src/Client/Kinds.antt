-- ===== src/Client/Kinds.antt =====
-- The class that an answer raises says which answer it was.
use almanak_keeperhub.Prelude.{
  ◌≤◌, ◌<◌, String, ◌≡◌, refl, ◌≢◌, inl, inr, Bool, true, ◌&&◌, ◌||◌, ◌==◌, arith, ltb, Bool-cases,
}
use almanak_keeperhub.Python.Json.{Dict, get, eq_str}
use almanak_keeperhub.Errors.{
  ApiKind, Result, plain, auth, conflict, in_progress, unavailable, rate_limited, ok, err, api,
}
use almanak_keeperhub.Effects.{Response}
use almanak_keeperhub.Client.Answers.{kind_of, raise_for_status, retry_after_seconds}

abbrev pub has_code : Dict → String → Bool
has_code payload s = eq_str (get "code" payload) s

abbrev pub says_scope : Dict → Bool
says_scope payload =
    eq_str (get "error" payload) "insufficient_scope" || has_code payload "insufficient_scope"

-- The answers that each class of error stands for.
abbrev pub Means : ApiKind → Response → Dict → Type 0
Means auth r payload =
    ((r.status_code == 401) || ((r.status_code == 403) && says_scope payload)) ≡ true
Means conflict r payload = (r.status_code ≡ 409) × (has_code payload "idempotency_conflict" ≡ true)
Means in_progress r payload =
    (r.status_code ≡ 409) × (has_code payload "idempotency_in_progress" ≡ true)
Means (rate_limited n) r payload = (r.status_code ≡ 429) × (n ≡ retry_after_seconds r)
Means unavailable r payload = r.status_code ≡ 503
Means plain r payload =
    (r.status_code ≢ 401)
    × (r.status_code ≢ 429)
    × (r.status_code ≢ 503)
    × (says_scope payload ≡ true → r.status_code ≢ 403)
    × (has_code payload "idempotency_conflict" ≡ true → r.status_code ≢ 409)
    × (has_code payload "idempotency_in_progress" ≡ true → r.status_code ≢ 409)

kind_of-Means : (r : Response) (payload : Dict) → Means (kind_of r payload) r payload
unfolding kind_of
kind_of-Means r payload = ground arith

abbrev pub Classified : Response → Dict → Result (Unit {0}) → Type 0
Classified r payload (ok u) = r.status_code < 400
Classified r payload (err (api e)) =
    (400 ≤ r.status_code)
    × (e.status ≡ r.status_code)
    × (e.payload ≡ payload)
    × Means e.kind r payload
Classified r payload (err e) = ⊥

-- `_raise_for_status` passes exactly the answers below 400; for the others it raises an API error
-- with the answer's status and payload, whose class is the one that the status and the code call
-- for, a plain error only where no subclass fits.
pub raise_for_status-Classified :
    (r : Response) (payload : Dict) → Classified r payload (raise_for_status r payload)
unfolding raise_for_status
raise_for_status-Classified r payload = elim (Bool-cases (ltb r.status_code 400)) [
  | inl below ↦ rw below (ground arith)
  | inr above ↦ rw above (ground arith, refl, refl, kind_of-Means r payload)
]
