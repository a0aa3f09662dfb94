-- ===== src/Client/Deadline.antt =====
-- `wait_for_terminal` ends: with a terminal status, with a TimeoutError that does not come before
-- the deadline, or with an answer that a retry would not change.
use native.Mathlib.Nat.{le_refl, le_trans}
use almanak_keeperhub.Prelude.{
  ℕ, zero, suc, ◌+◌, ◌≤◌, ◌<◌, String, ◌≡◌, refl, inl, inr, true, List, ◌∷◌, arith, leb, leb→le,
  leb-false→lt, Bool-cases,
}
use almanak_keeperhub.Prelude.Int.{ℤ}
use almanak_keeperhub.Errors.{
  ApiKind, ApiError, Result, plain, auth, conflict, in_progress, unavailable, rate_limited, ok, err,
  api, transport, timeout, value_error, type_error,
}
use almanak_keeperhub.Effects.{
  Request, World, Host, Action, Reply, response, transport_error, ExecutionStatus, answer, pure,
  continue, raise, gets, attempt, sleep, http, ◌>>=◌,
}
use almanak_keeperhub.Effects.Frame.{Keeps, Keeps-pure, keeps_rules}
use almanak_keeperhub.Client.Answers.{terminal}
use almanak_keeperhub.Client.Methods.{exchange, execution_status}
use almanak_keeperhub.Client.Polling.{
  Verdict, finished, give_up, wait, verdict, api_verdict, follow, poll, wait_for_terminal,
  not_terminal,
}
use almanak_keeperhub.Client.Ends.{Answers, Ends-execution_status}
use almanak_keeperhub.Client.Steps.{Sends}

-- An API error that polling again would not change.
abbrev pub IsFinal : ApiKind → Type 0
IsFinal unavailable = ⊥
IsFinal (rate_limited n) = ⊥
IsFinal kind = Unit

-- How a wait with a deadline may end, with the clock at its end.
abbrev pub Concludes : ℕ → Result ExecutionStatus → ℕ → Type 0
Concludes deadline (ok status) now = terminal status ≡ true
Concludes deadline (err (timeout e)) now = deadline ≤ now
Concludes deadline (err (api e)) now = IsFinal e.kind × (e.status < 500)
Concludes deadline (err (value_error e)) now = Unit
Concludes deadline (err (type_error e)) now = Unit
Concludes deadline (err e) now = ⊥

-- A verdict ends the wait only so.
abbrev IsSound : Verdict → Type 0
IsSound (finished status) = terminal status ≡ true
IsSound (give_up e) = (deadline now : ℕ) → Concludes deadline (err e) now
IsSound (wait d problem) = Unit

api_verdict-IsSound :
    (d : ℤ) (kind : ApiKind) (e : ApiError) → e.kind ≡ kind → IsSound (api_verdict d kind e)
unfolding api_verdict
api_verdict-IsSound d (rate_limited n) e same = tt
api_verdict-IsSound d unavailable e same = tt
api_verdict-IsSound d plain e same = ground arith
api_verdict-IsSound d auth e same = ground arith
api_verdict-IsSound d conflict e same = ground arith
api_verdict-IsSound d in_progress e same = ground arith

verdict-IsSound : (d : ℤ) (r : Result ExecutionStatus) → Answers r → IsSound (verdict d r)
unfolding verdict
verdict-IsSound d (ok s) p = elim (Bool-cases (terminal s)) [ inl e ↦ rw e e | inr e ↦ rw e tt ]
verdict-IsSound d (err (api e)) p = api_verdict-IsSound d e.kind e refl
verdict-IsSound d (err (transport e)) p = tt
verdict-IsSound d (err (value_error e)) p = λ _ _. tt
verdict-IsSound d (err (type_error e)) p = λ _ _. tt
verdict-IsSound d (err e) p = absurd p

abbrev Any : Request → Type 0
Any r = Unit

module _ {A B : Type 0} where
  bind-clock :
      {c : ℕ} (m : Action A) (f : A → Action B) (h : Host) (w : World)
      → c ≤ (m h w).1.clock
      → ((a : A) → Keeps (Sends Any) (f a))
      → c ≤ ((m >>= f) h w).1.clock
  unfolding ◌>>=◌
  bind-clock {c} m f h w past k = go (m h w).0
    where
      go : (r : Result A) → c ≤ (continue r f h (m h w).1).1.clock
      go (ok a) = le_trans past ((k a).at h (m h w).1).clock
      go (err e) = past

http-clock :
    (r : Request) (h : Host) (w : World) → w.clock + h.latency w.sent ≤ (http r h w).1.clock
unfolding http
http-clock r h w = go (h.server w.sent r)
  where
    go :
        (reply : Reply)
        → w.clock + h.latency w.sent
          ≤ (answer reply h
              (record w { sent = r ∷ w.sent; clock = w.clock + h.latency w.sent })).1.clock
    go (response a) = unfold answer in le_refl _
    go (transport_error e) = unfold answer in le_refl _

exchange-clock :
    (r : Request) (h : Host) (w : World) → w.clock + h.latency w.sent ≤ (exchange r h w).1.clock
unfolding exchange
exchange-clock r h w = bind-clock (http r) _ h w (http-clock r h w) (λ a. Keeps-pure _)

-- A poll takes its request's latency at least.
execution_status-clock :
    (id : String) (h : Host) (w : World)
    → w.clock + h.latency w.sent ≤ (execution_status id h w).1.clock
unfolding execution_status
execution_status-clock id h w =
    bind-clock (exchange _) _ h w (exchange-clock _ h w) (λ a. search keeps_rules depth 8)

module _ (h : Host) (takes_time : (l : List Request) → 1 ≤ h.latency l) where
  module _ (id : String) (limit deadline : ℕ) (d : ℤ) where
    abbrev Stops : Action ExecutionStatus → World → Type 0
    Stops m w = Concludes deadline (m h w).0 (m h w).1.clock

    follow-Stops :
        (again : Action ExecutionStatus) (v : Verdict) (w : World)
        → IsSound v
        → ((w' : World) → w.clock ≤ w'.clock → w.clock < deadline → Stops again w')
        → Stops (follow id limit deadline again v) w
    unfolding follow
    follow-Stops again (finished status) w sound next = unfold pure in sound
    follow-Stops again (give_up e) w sound next = unfold raise in sound deadline w.clock
    follow-Stops again (wait interval problem) w sound next =
        elim (Bool-cases (leb deadline w.clock)) [
          | inl past ↦ unfold gets ◌>>=◌ raise not_terminal in rw past (leb→le _ _ past)
          | inr before ↦
              unfold gets ◌>>=◌ sleep in rw before (next _ (omega arith) (leb-false→lt _ _ before))
        ]

    poll-Stops :
        (fuel : ℕ) (w : World)
        → deadline < w.clock + suc fuel
        → Stops (poll (suc fuel) id limit deadline d) w
    unfolding poll attempt ◌>>=◌
    poll-Stops zero w enough =
        follow-Stops _ (verdict d (execution_status id h w).0) (execution_status id h w).1
          (verdict-IsSound d _ ((Ends-execution_status id).at h w))
          λ w' later before.
            absurd (omega (arith, execution_status-clock id h w, takes_time w.sent))
    poll-Stops (suc fuel) w enough =
        follow-Stops _ (verdict d (execution_status id h w).0) (execution_status id h w).1
          (verdict-IsSound d _ ((Ends-execution_status id).at h w))
          λ w' later before.
            poll-Stops fuel w' (omega (arith, execution_status-clock id h w, takes_time w.sent))

-- If every request takes a tick, the wait ends: it returns a terminal status, or raises
-- TimeoutError not before the deadline, or passes on an API error below 500 that is no rate limit,
-- or what an unreadable answer raises; rate limits, 5xx answers and transport errors never end it.
pub wait_for_terminal-Concludes :
    (h : Host) (id : String) (limit : ℕ) (d : ℤ) (w : World)
    → ((l : List Request) → 1 ≤ h.latency l)
    → let (r, w') = wait_for_terminal id limit d h w in Concludes (w.clock + limit) r w'.clock
unfolding wait_for_terminal gets ◌>>=◌
wait_for_terminal-Concludes h id limit d w takes_time =
    let more : limit + 2 ≡ suc (limit + 1) = omega arith in
    rw more (poll-Stops h takes_time id limit (w.clock + limit) d (limit + 1) w (omega arith))
