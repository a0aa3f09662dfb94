-- ===== src/Keeper/Finished.antt =====
-- keeper.py: how `run_now` ends.
use native.Mathlib.Nat.{le_refl, le_trans, le-add_right}
use almanak_keeperhub.Prelude.{
  ℕ, zero, suc, ◌+◌, ◌≤◌, ◌<◌, String, ◌≡◌, inl, inr, Option, List, ◌∷◌, arith, ltb, leb, ltb→lt,
  Bool-cases, if◌then◌else◌,
}
use almanak_keeperhub.Python.Text.{take}
use almanak_keeperhub.Python.Dumps.{dumps}
use almanak_keeperhub.Python.Json.{Value, Dict, get, text_of}
use almanak_keeperhub.Errors.{Result, ok, err}
use almanak_keeperhub.Effects.{
  Request, Response, Reply, response, transport_error, World, Host, Action, answer, pure, raise,
  continue, lift, gets, asks, sleep, http, ◌>>=◌,
}
use almanak_keeperhub.Client.Methods.{get_request}
use almanak_keeperhub.Keeper.Remote.{content, failed}
use almanak_keeperhub.Keeper.Run.{
  RunResult, is_terminal, interval, dict_of, finish, run_status_path, follow_from, after_status,
  poll_status, follow_run, trigger_run, run_now,
}
use almanak_keeperhub.Keeper.Endings.{
  Ended, From, content-Ended, dict_of-Ended, interval-Ended, receipt_items-Ended, Followed,
}

module _ (h : Host) where
  abbrev Stops : {A : Type 0} → (A → ℕ → Type 0) → Action A → World → Type 0
  Stops P m w = Ended P (m h w).0 (m h w).1.clock

  bind-Stops :
      {A B : Type 0} (P : A → ℕ → Type 0) (Q : B → ℕ → Type 0) (m : Action A) (f : A → Action B)
      (w : World)
      → Stops P m w
      → ((a : A) (w' : World) → P a w'.clock → Stops Q (f a) w')
      → Stops Q (m >>= f) w
  unfolding ◌>>=◌
  bind-Stops {A} {B} P Q m f w first next = go (m h w).0 first
    where
      go :
          (r : Result A)
          → Ended P r (m h w).1.clock
          → Ended Q (continue r f h (m h w).1).0 (continue r f h (m h w).1).1.clock
      go (ok a) first = unfold continue in next a (m h w).1 first
      go (err e) first = unfold continue in first

  asks-Stops :
      {A B : Type 0} (Q : B → ℕ → Type 0) (g : Host → A) (f : A → Action B) (w : World)
      → Stops Q (f (g h)) w
      → Stops Q (asks g >>= f) w
  unfolding ◌>>=◌ asks continue
  asks-Stops Q g f w next = next

  module _ (takes_time : (l : List Request) → 1 ≤ h.latency l) where
    http-Stops : (r : Request) (w : World) → Stops (From (w.clock + 1)) (http r) w
    unfolding http
    http-Stops r w = go (h.server w.sent r)
      where
        go :
            (reply : Reply)
            → Stops
                (From (w.clock + 1))
                (answer reply)
                (record w { sent = r ∷ w.sent; clock = w.clock + h.latency w.sent })
        go (response a) = unfold answer in omega (arith, takes_time w.sent)
        go (transport_error e) = unfold answer in tt

    abbrev Loop : ℕ → Dict → ℕ → Type 0
    Loop deadline status now = Followed h deadline (get "status" status) now

    after_status-Stops :
        (deadline : ℕ) (again : Dict → Action Dict) (hint : Option String) (status : Dict)
        (w : World)
        → ((w' : World) → w.clock ≤ w'.clock → Stops (Loop deadline) (again status) w')
        → Stops (Loop deadline) (after_status again h hint status) w
    unfolding after_status
    after_status-Stops deadline again hint status w next =
        elim (Bool-cases (is_terminal (text_of h.repr) (get "status" status))) [
          | inl e ↦ unfold pure in rw e (inl e)
          | inr e ↦ rw e (
              bind-Stops (From w.clock) (Loop deadline) (lift (interval h hint)) _ w
                (unfold lift in interval-Ended w.clock h hint w.clock (le_refl _))
                λ d w' past.
                  unfold ◌>>=◌ sleep continue in
                  next (record w' { clock = w'.clock + _ }) (le_trans past (le-add_right _ _)))
        ]

    refused-Stops :
        (c : ℕ) (what : String) (r : Response) (text : String) (w : World)
        → c ≤ w.clock
        → Stops (From c) (if leb 400 r.status_code then failed what r text else lift (content r)) w
    unfolding failed lift raise
    refused-Stops c what r text w past = elim (Bool-cases (leb 400 r.status_code)) [
      | inl e ↦ rw e tt
      | inr e ↦ rw e (content-Ended c r w.clock past)
    ]

    poll_status-Stops :
        (deadline : ℕ) (again : Dict → Action Dict) (id : String) (w : World)
        → ((s : Dict) (w' : World) → w.clock < w'.clock → Stops (Loop deadline) (again s) w')
        → Stops (Loop deadline) (poll_status again id) w
    unfolding poll_status
    poll_status-Stops deadline again id w next =
        let later = w.clock + 1 in
        bind-Stops (From later) (Loop deadline) (http (get_request (run_status_path id))) _ w
          (http-Stops _ w)
          λ r w1 p1.
            bind-Stops (From later) (Loop deadline) _ _ w1
              (refused-Stops later "status" r (take 300 r.text) w1 p1)
              λ payload w2 p2.
                bind-Stops (From later) (Loop deadline) (lift (dict_of payload)) _ w2
                  (unfold lift in dict_of-Ended (λ now. later ≤ now) payload w2.clock p2)
                  λ status w3 p3.
                    asks-Stops (Loop deadline) (λ h. h) _ w3
                      (after_status-Stops deadline again r.poll_interval_hint status w3
                        λ w4 p4. next status w4 (omega (arith, p3, p4)))

    round-Stops :
        (fuel deadline : ℕ) (id : String) (status : Dict) (w : World)
        → (w.clock < deadline
            → (s : Dict) (w' : World) → w.clock < w'.clock
            → Stops (Loop deadline) (follow_run fuel id deadline s) w')
        → Stops (Loop deadline) (follow_run (suc fuel) id deadline status) w
    unfolding follow_run gets ◌>>=◌ continue
    round-Stops fuel deadline id status w again = elim (Bool-cases (ltb w.clock deadline)) [
      | inl early ↦ rw early (poll_status-Stops deadline _ id w (again (ltb→lt _ _ early)))
      | inr late ↦ unfold pure in rw late (inr (ground arith))
    ]

    follow_run-Stops :
        (fuel deadline : ℕ) (id : String) (status : Dict) (w : World)
        → deadline < w.clock + suc fuel
        → Stops (Loop deadline) (follow_run (suc fuel) id deadline status) w
    follow_run-Stops zero deadline id status w enough =
        round-Stops zero deadline id status w
          λ early s w' later. absurd (omega (arith, enough, early))
    follow_run-Stops (suc fuel) deadline id status w enough =
        round-Stops (suc fuel) deadline id status w
          λ early s w' later. follow_run-Stops fuel deadline id s w' (omega (arith, enough, later))

    trigger_run-Stops :
        (id : String) (input : Dict) (w : World) → Stops (From w.clock) (trigger_run id input) w
    unfolding trigger_run
    trigger_run-Stops id input w =
        bind-Stops (From w.clock) (From w.clock) _ _ w (weaken _ _ (http-Stops _ w)) λ r w1 p1.
          bind-Stops (From w.clock) (From w.clock) (lift (content r)) _ w1
            (unfold lift in content-Ended w.clock r w1.clock p1)
            λ payload w2 p2. refused r payload w2 p2
      where
        weaken :
            (r : Result Response) (now : ℕ)
            → Ended (From (w.clock + 1)) r now
            → Ended (From w.clock) r now
        weaken (ok a) now p = omega (arith, p)
        weaken (err e) now p = p

        refused :
            (r : Response) (payload : Value) (w2 : World)
            → w.clock ≤ w2.clock
            → Stops
                (From w.clock)
                (if leb 400 r.status_code
                  then failed "execute" r (take 400 (dumps payload))
                  else lift (dict_of payload))
                w2
        refused r payload w2 past =
            unfold failed lift raise in
            elim (Bool-cases (leb 400 r.status_code)) [
              | inl e ↦ rw e tt
              | inr e ↦ rw e (dict_of-Ended (λ now. w.clock ≤ now) payload w2.clock past)
            ]

    abbrev Finished : ℕ → RunResult → ℕ → Type 0
    Finished deadline r now = Followed h deadline r.status now

    finish-Stops :
        (deadline : ℕ) (id : String) (status : Dict) (w : World)
        → Loop deadline status w.clock
        → Stops (Finished deadline) (finish id status) w
    unfolding finish
    finish-Stops deadline id status w done =
        bind-Stops (λ nodes. Loop deadline status) (Finished deadline) _ _ w
          (unfold lift in receipt_items-Ended (λ nodes. Loop deadline status) _ w.clock (λ l. done))
          λ nodes w1 p1.
            bind-Stops (λ context. Loop deadline status) (Finished deadline) _ _ w1
              (unfold lift in dict_of-Ended (Loop deadline status) _ w1.clock p1)
              λ context w2 p2. unfold pure in p2

    follow_from-Stops :
        (limit : ℕ) (id : String) (payload : Dict) (start deadline : ℕ) (w : World)
        → start ≤ w.clock
        → deadline ≤ start + limit
        → Stops (Finished deadline) (follow_from limit id payload start) w
    unfolding follow_from
    follow_from-Stops limit id payload start deadline w past enough =
        let more : limit + 1 ≡ suc limit = omega arith in
        bind-Stops (Loop (start + limit)) (Finished deadline)
          (follow_run (limit + 1) id (start + limit) payload) _ w
          (rw more (follow_run-Stops limit (start + limit) id payload w (omega (arith, past))))
          λ status w1 done. finish-Stops deadline id status w1 (sooner _ _ done)
      where
        sooner :
            (v : Value) (now : ℕ) → Followed h (start + limit) v now → Followed h deadline v now
        sooner v now (inl e) = inl e
        sooner v now (inr late) = inr (omega (arith, late, enough))

-- If every request takes a tick, run_now ends. What it returns has a terminal status, or the time
-- given has passed since the call; an exception is one of httpx, of an answer of 400 or more, or of
-- an answer that does not have the expected shape.
pub run_now-Ended :
    (h : Host) (id : String) (limit : ℕ) (input : Dict) (w : World)
    → ((l : List Request) → 1 ≤ h.latency l)
    → let (r, w') = run_now id limit input h w in
      Ended (λ result now. Followed h (w.clock + limit) result.status now) r w'.clock
unfolding run_now
run_now-Ended h id limit input w takes_time =
    bind-Stops h (From w.clock)
      (λ (result : RunResult) (now : ℕ). Followed h (w.clock + limit) result.status now)
      (trigger_run id input) _ w (trigger_run-Stops h takes_time id input w)
      λ payload w1 p1.
        unfold asks gets ◌>>=◌ continue in
        follow_from-Stops h takes_time limit _ payload w1.clock (w.clock + limit) w1 (le_refl _)
          (omega (arith, p1))
