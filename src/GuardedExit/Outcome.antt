-- ===== src/GuardedExit/Outcome.antt =====
-- What a guarded exit sends, and what it leaves in the log.
use almanak_keeperhub.Prelude.{
  ℕ, String, ◌≡◌, ◌⊎◌, refl, ◌∙◌, inl, inr, Bool, true, false, Option, none, some, if◌then◌else◌,
  Bool-cases,
}
use almanak_keeperhub.Python.Text.{show, is_text}
use almanak_keeperhub.Python.Json.{Dict, str, find, put, update as update_dict, find-put}
use almanak_keeperhub.Effects.{Request, World, Host, ExecutionStatus, asks, continue, ◌>>=◌}
use almanak_keeperhub.Effects.Frame.{
  Keeps, Keeps-pure, Keeps-raise, Keeps-if, Keeps-bind, Keeps-asks,
}
use almanak_keeperhub.Effects.Asked.{Asked, Asks}
use almanak_keeperhub.Effects.Triple.{
  Left, Triple, Triple-pure, Triple-raise, Triple-split, Triple-bind, Triple-any, Triple-frame,
  Triple-weaken,
}
use almanak_keeperhub.Client.Answers.{GuardedOutcome}
use almanak_keeperhub.Client.Methods.{
  get_request, post_request, status_path, present, check_and_execute, check_and_execute_path,
}
use almanak_keeperhub.Client.Polling.{wait_for_terminal, poll_interval}
use almanak_keeperhub.Client.Sends.{IsMarked, Keeps-check_and_execute, Keeps-wait_for_terminal}
use almanak_keeperhub.Receipts.{execution_entry, touch, is_for}
use almanak_keeperhub.Receipts.Entries.{Holds, Holding, Keeps-update, record_execution-Holds}
use almanak_keeperhub.Receipts.Quiet.{Asks-of_Sends}
use almanak_keeperhub.Receipts.Quiet as Quiet
use almanak_keeperhub.GuardedExit.{
  GuardedExit, check, action, idempotency_key, executed_fields, settled_fields, settled_outcome,
  settle_exit, after_execution, after_guard, run_guarded_exit,
}

-- A body that says that it is a dry run, if it is to be one.
abbrev pub IsLabelled : Bool → Option Dict → Type 0
IsLabelled simulate none = ⊥
IsLabelled simulate (some d) = simulate ≡ true → IsMarked d

-- A guarded execution under the key, or a status poll.
abbrev pub IsGuarded : Bool → Option String → Request → Type 0
IsGuarded simulate key r =
    ((id : String) × (r ≡ get_request (status_path id)))
    ⊎ ((r.path ≡ check_and_execute_path) × (r.idempotency_key ≡ key) × IsLabelled simulate r.body)

module _ (P : Request → Type 0) (polls : (id : String) → P (get_request (status_path id)))
    (e : GuardedExit) (limit : ℕ) where
  Keeps-settle_exit :
      (outcome : GuardedOutcome) (id : String) → Keeps (Asks P) (settle_exit e limit outcome id)
  unfolding settle_exit
  Keeps-settle_exit outcome id = Keeps-bind (Keeps-asks _) λ sha256.
      Keeps-bind (Quiet.Keeps-record_execution P id _) λ _.
        Keeps-bind (Asks-of_Sends P (Keeps-wait_for_terminal id limit poll_interval (polls id)))
          λ status. Keeps-bind (Quiet.Keeps-update P id _) λ _. Keeps-pure _

  Keeps-after_execution :
      (outcome : GuardedOutcome) (id : Option String)
      → Keeps (Asks P) (after_execution e limit outcome id)
  unfolding after_execution
  Keeps-after_execution outcome none = Keeps-raise _
  Keeps-after_execution outcome (some id) =
      Keeps-if _ (Keeps-settle_exit outcome id) (Keeps-raise _)

  Keeps-after_guard :
      (simulate : Bool) (outcome : GuardedOutcome)
      → Keeps (Asks P) (after_guard e limit simulate outcome)
  unfolding after_guard
  Keeps-after_guard simulate outcome = Keeps-bind (Keeps-asks _) λ repr.
      Keeps-if simulate (Keeps-bind (Quiet.Keeps-record_simulation P _) (λ _. Keeps-pure _)) (
        Keeps-if _ (Keeps-after_execution outcome _)
          (Keeps-bind (Quiet.Keeps-record_simulation P _) (λ _. Keeps-pure _)))

  Keeps-guarded :
      (redeem_data : ℕ → String → String → String) (simulate : Bool) (key : Option String)
      → ((d : Dict)
          → (simulate ≡ true → IsMarked d)
          → P (post_request check_and_execute_path (present key) d))
      → Keeps (Asks P) (
          check_and_execute (check e) "gte" (show e.shares) (action redeem_data e) key simulate
          >>= after_guard e limit simulate)
  Keeps-guarded redeem_data simulate key p =
      Keeps-bind (Asks-of_Sends P (Keeps-check_and_execute _ _ _ _ key simulate p))
        (λ outcome. Keeps-after_guard simulate outcome)

abbrev pub own_key : Host → Bool → GuardedExit → Option String
own_key h simulate e = if simulate then none else some (idempotency_key h.sha256 e)

-- A guarded exit sends one kind of request besides status polls: a guarded execution, under the
-- decision's own key, or under no key and with a body that says so when it is a dry run.
pub run_guarded_exit-keys :
    (redeem_data : ℕ → String → String → String) (e : GuardedExit) (simulate : Bool) (limit : ℕ)
    (h : Host) (w : World)
    → Asked
        (IsGuarded simulate (present (own_key h simulate e)))
        w
        (run_guarded_exit redeem_data e simulate limit h w).1
unfolding run_guarded_exit asks continue ◌>>=◌
run_guarded_exit-keys redeem_data e simulate limit h w =
    (Keeps-guarded (IsGuarded simulate (present (own_key h simulate e))) (λ id. inl (id, refl)) e
        limit redeem_data simulate (own_key h simulate e) (λ d m. inr (refl, refl, m))).at
      h w

-- An entry of the execution.
abbrev pub HasId : String → Dict → Type 0
HasId id e = find "execution_id" e ≡ some (str id)

-- An outcome that says executed names an execution that the log holds.
abbrev pub Accounted : GuardedOutcome → World → Type 0
Accounted outcome w =
    outcome.executed ≡ true
    → (id : String) × (outcome.execution_id ≡ some id)
      × (is_text id ≡ true)
      × Holds (HasId id) w.file

touch-id :
    (id other now : String) (outcome : GuardedOutcome) (status : ExecutionStatus) (e : Dict)
    → HasId id e
    → HasId id (touch other (settled_fields outcome status) now e)
unfolding touch settled_fields update_dict
touch-id id other now outcome status e p = elim (Bool-cases (is_for other e)) [
  | inl own ↦ rw own ((simp find-put) ∙ p)
  | inr foreign ↦ rw foreign p
]

entry-id :
    (id now : String) (sha256 : String → String) (e : GuardedExit) (outcome : GuardedOutcome)
    → HasId id (execution_entry id now (executed_fields sha256 e outcome))
unfolding execution_entry executed_fields update_dict put find
entry-id id now sha256 e outcome = refl

abbrev Anywhere : World → Type 0
Anywhere w = Unit

module _ (e : GuardedExit) (limit : ℕ) where
  settle_exit-Accounted :
      (outcome : GuardedOutcome) (id : String)
      → is_text id ≡ true
      → Triple Anywhere (settle_exit e limit outcome id) Accounted
  unfolding settle_exit settled_outcome
  settle_exit-Accounted outcome id written = Triple-bind (Triple-any _) λ sha256.
      Triple-bind
        (Triple-weaken
          (record_execution-Holds (HasId id) id _ (λ now. entry-id id now sha256 e outcome))
          (λ w p. tt))
        λ _.
          Triple-bind
            (Triple-frame (λ w. Holds (HasId id) w.file) (Holding (HasId id)) (λ u v k. k)
              (waits id))
            λ status.
              Triple-bind
                (Triple-frame (λ w. Holds (HasId id) w.file) (Holding (HasId id)) (λ u v k. k)
                  (Keeps-update (HasId id) id _ (λ now d p. touch-id id id now outcome status d p)))
                λ _. Triple-pure _ (λ w p q. (id, refl, written, p))
    where
      waits : (id : String) → Keeps (Holding (HasId id)) (wait_for_terminal id limit poll_interval)
      waits id = record {
        at = λ h w p.
            rw ((Keeps-wait_for_terminal {P = λ r. Unit} id limit poll_interval tt).at h w).file p;
      }

  after_execution-Accounted :
      (outcome : GuardedOutcome) (id : Option String)
      → Triple Anywhere (after_execution e limit outcome id) Accounted
  unfolding after_execution
  after_execution-Accounted outcome none = Triple-raise _
  after_execution-Accounted outcome (some id) = elim (Bool-cases (is_text id)) [
    | inl written ↦ rw written (settle_exit-Accounted outcome id written)
    | inr blank ↦ rw blank (Triple-raise _)
  ]

  after_guard-Accounted :
      (outcome : GuardedOutcome) → Triple Anywhere (after_guard e limit false outcome) Accounted
  unfolding after_guard
  after_guard-Accounted outcome = Triple-bind (Triple-any _) λ repr.
      Triple-weaken
        (Triple-split outcome.executed (λ ran. after_execution-Accounted outcome _)
          (λ stopped. Triple-bind (Triple-any _) (λ _. Triple-pure outcome (λ w p q. cc))))
        (λ w p. tt)

-- A guarded exit that is not a dry run and returns an outcome that says executed has an execution
-- identifier, which is not empty, and the log holds an entry under it.
pub run_guarded_exit-Accounted :
    (redeem_data : ℕ → String → String → String) (e : GuardedExit) (limit : ℕ) (h : Host)
    (w : World)
    → Left Accounted
        (run_guarded_exit redeem_data e false limit h w).0
        (run_guarded_exit redeem_data e false limit h w).1
unfolding run_guarded_exit
run_guarded_exit-Accounted redeem_data e limit h w =
    (Triple-bind {P = Anywhere} (Triple-any _)
        (λ sha256. Triple-bind (Triple-any _) (after_guard-Accounted e limit))).at
      h w tt
