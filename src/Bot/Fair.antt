-- ===== src/Bot/Fair.antt =====
-- bot.py: what each command makes pending and starts.
use almanak_keeperhub.Prelude.{
  ℕ, ◌+◌, ◌≤◌, String, ◌≡◌, refl, sym, ap, ◌⊎◌, inl, inr, Bool, true, false, ◌&&◌, ◌||◌, Option,
  none, some, List, [], ◌∷◌, str_eq, eq_iff, arith, ltb, if◌then◌else◌, Bool-cases, Option-cases,
}
use almanak_keeperhub.Bot.{
  Setup, OperatorBot, Job, Reply, Command, cli, demo_script, say, run, simulate, tick, exit, guard,
  confirm, cancel, demo, demos, looked_up, commands, confirm_window,
}
use almanak_keeperhub.Bot.Handle.{
  first_word, guard_text, tick_text, exit_text, obey_word, obey, arm, is_armed, simulate_command,
  stale_guard, guard_command, cancel_command, confirm_command, confirm_pending, confirm_pending,
  demo_command, launch, start_held,
}

-- The jobs that need no confirmation: a dry run, a decision that is stale on purpose, and a demo.
abbrev pub last : List String → String
last [] = ""
last (a ∷ []) = a
last (a ∷ b ∷ rest) = last (b ∷ rest)

abbrev pub subcommand : List String → String
subcommand [] = ""
subcommand (a ∷ rest) = a

abbrev pub is_unarmed : Job → Bool
is_unarmed (cli argv label held) =
    str_eq (last argv) "--simulate-only" || str_eq (last argv) "--stale"
is_unarmed (demo_script name) = true

-- The action that a command arms, and the one that the command line of a job carries out: its
-- subcommand, where a run is of one tick, and not a dry run.
abbrev pub action_of : Command → Option String
action_of tick = some "tick"
action_of exit = some "exit"
action_of guard = some "guard"
action_of command = none

abbrev pub purpose : Job → Option String
purpose (cli argv label held) =
    if str_eq (subcommand argv) "run" && str_eq (last argv) "--simulate-only"
    then none
    else looked_up (subcommand argv)
        (("run", "tick") ∷ ("exit", "exit") ∷ ("exit-guard", "guard") ∷ [])
purpose (demo_script name) = none

-- A confirmation of what was armed at a time, which it uses up.
pub record IsConfirmed (before : OperatorBot) (now : ℕ) (after : OperatorBot) (job : Job)
    : Type 0 where
  pub action : String
  pub at : ℕ
  pub armed : before.pending ≡ some (action, at)
  pub in_time : now ≤ at + confirm_window
  pub free : before.busy ≡ none
  pub used : after.pending ≡ none
  pub does : (command : Command) → action_of command ≡ some action → purpose job ≡ some action

abbrev pub Launches : OperatorBot → ℕ → OperatorBot × Reply → Type 0
Launches before now (after, run job) = (is_unarmed job ≡ true) ⊎ IsConfirmed before now after job
Launches before now (after, reply) = Unit

-- What is pending after a command.
abbrev pub Pends : Option Command → OperatorBot → ℕ → OperatorBot → Type 0
Pends command before now after =
    (after.pending ≡ before.pending)
    ⊎ (after.pending ≡ none)
    ⊎ ((c : Command) × (action : String) × (command ≡ some c)
        × (action_of c ≡ some action)
        × (after.pending ≡ some (action, now)))

pub record IsFair (command : Option Command) (before : OperatorBot) (now : ℕ)
    (after : OperatorBot × Reply) : Type 0 where
  pub owner : after.0.owner_chat_id ≡ before.owner_chat_id
  pub pends : Pends command before now after.0
  pub launches : Launches before now after

-- A reply that leaves the bot alone and starts nothing.
said :
    (command : Option Command) (bot : OperatorBot) (now : ℕ) (text : String)
    → IsFair command bot now (bot, say text)
said command bot now text = record { owner = refl; pends = inl refl; launches = tt }

arm-IsFair :
    (c : Command) (action text : String) (now : ℕ) (bot : OperatorBot)
    → action_of c ≡ some action
    → IsFair (some c) bot now (arm action text now bot)
unfolding arm
arm-IsFair c action text now bot e = elim (Option-cases bot.busy) [
  | inr (busy, held) ↦ rw held (said _ _ now _)
  | inl free ↦ elim (Bool-cases (is_armed action now bot.pending)) [
    | inl armed ↦ rw free (rw armed (said _ _ now _))
    | inr other ↦ rw free (
        rw other
          record { owner = refl; pends = inr (inr (c, action, refl, e, refl)); launches = tt })
  ]
]

simulate-IsFair :
    (setup : Setup) (now : ℕ) (bot : OperatorBot)
    → IsFair (some simulate) bot now (simulate_command setup bot)
unfolding simulate_command
simulate-IsFair setup now bot = elim (Option-cases bot.busy) [
  | inr (busy, held) ↦ rw held (said _ _ now _)
  | inl free ↦ rw free record { owner = refl; pends = inl refl; launches = inl refl }
]

stale-IsFair :
    (setup : Setup) (now : ℕ) (bot : OperatorBot)
    → IsFair (some guard) bot now (stale_guard setup bot)
unfolding stale_guard start_held
stale-IsFair setup now bot = elim (Option-cases bot.busy) [
  | inr (busy, held) ↦ rw held (said _ _ now _)
  | inl free ↦ rw free record { owner = refl; pends = inl refl; launches = inl refl }
]

guard-IsFair :
    (setup : Setup) (args : List String) (now : ℕ) (bot : OperatorBot)
    → IsFair (some guard) bot now (guard_command setup args now bot)
unfolding guard_command
guard-IsFair setup args now bot =
    by_test _ (stale-IsFair setup now bot) (arm-IsFair guard "guard" guard_text now bot refl)
  where
    by_test :
        (b : Bool) {x y : OperatorBot × Reply}
        → IsFair (some guard) bot now x
        → IsFair (some guard) bot now y
        → IsFair (some guard) bot now (if b then x else y)
    by_test true p q = p
    by_test false p q = q

cancel-IsFair : (now : ℕ) (bot : OperatorBot) → IsFair (some cancel) bot now (cancel_command bot)
unfolding cancel_command
cancel-IsFair now bot = elim (Option-cases bot.pending) [
  | inl e ↦ rw e (said _ _ now _)
  | inr (armed, e) ↦ rw e record { owner = refl; pends = inr (inl refl); launches = tt }
]

demo-IsFair :
    (args : List String) (now : ℕ) (bot : OperatorBot)
    → IsFair (some demo) bot now (demo_command args bot)
unfolding demo_command
demo-IsFair args now bot = elim (Option-cases (looked_up (first_word args) demos)) [
  | inl e ↦ rw e (said _ _ now _)
  | inr (name, e) ↦ rw e record { owner = refl; pends = inl refl; launches = inl refl }
]

-- Each action is carried out by its own job.
start_held-IsFair :
    (action : String) (at now : ℕ) (bot : OperatorBot) (name : String) (argv : List String)
    (label : String)
    → bot.pending ≡ some (action, at)
    → bot.busy ≡ none
    → ltb (at + confirm_window) now ≡ false
    → ((c : Command) → action_of c ≡ some action → purpose (cli argv label true) ≡ some action)
    → IsFair (some confirm) bot now (start_held name argv label (record bot { pending = none }))
unfolding start_held
start_held-IsFair action at now bot name argv label armed free fresh does = record {
  owner = refl;
  pends = inr (inl refl);
  launches = inr (record {
    action = action;
    at = at;
    armed = armed;
    in_time = ground (arith, fresh);
    free = free;
    used = refl;
    does = does;
  });
}

only_tick :
    (c : Command) (action : String)
    → str_eq action "guard" ≡ false
    → str_eq action "exit" ≡ false
    → action_of c ≡ some action
    → some "tick" ≡ some action
only_tick tick action g e a = a
only_tick exit action g e a = absurd (ground (arith, eq_iff action "exit", a, e))
only_tick guard action g e a = absurd (ground (arith, eq_iff action "guard", a, g))
only_tick c action g e a = absurd (ground arith)

launch-IsFair :
    (setup : Setup) (action : String) (at now : ℕ) (bot : OperatorBot)
    → bot.pending ≡ some (action, at)
    → bot.busy ≡ none
    → ltb (at + confirm_window) now ≡ false
    → IsFair (some confirm) bot now (launch setup action (record bot { pending = none }))
unfolding launch looked_up
launch-IsFair setup action at now bot armed free fresh = elim (Bool-cases (str_eq action "guard")) [
  | inl e ↦ rw e (
      start_held-IsFair action at now bot _
        ("exit-guard" ∷ "run" ∷ "-d" ∷ setup.strategy_dir ∷ "--chain" ∷ setup.chain ∷ [])
        "workflow guard" armed free fresh λ c a. ap some (sym ((eq_iff action "guard").0 e)))
  | inr g ↦ rw g (elim (Bool-cases (str_eq action "exit")) [
    | inl e ↦ rw e (
        start_held-IsFair action at now bot _
          ("exit" ∷ "-d" ∷ setup.strategy_dir ∷ "--chain" ∷ setup.chain ∷ []) "guarded exit" armed
          free fresh λ c a. ap some (sym ((eq_iff action "exit").0 e)))
    | inr e ↦ rw e (
        start_held-IsFair action at now bot _
          ("run" ∷ "-d" ∷ setup.strategy_dir ∷ "--once" ∷ "--fresh" ∷ []) "real tick" armed free
          fresh λ c a. only_tick c action g e a)
  ])
]

confirm_pending-IsFair :
    (setup : Setup) (now : ℕ) (bot : OperatorBot) (busy : Option String)
    (pending : Option (String × ℕ))
    → bot.busy ≡ busy
    → bot.pending ≡ pending
    → IsFair (some confirm) bot now (confirm_pending setup now bot busy pending)
unfolding confirm_pending
confirm_pending-IsFair setup now bot (some busy) pending b p = said _ _ now _
confirm_pending-IsFair setup now bot none none b p = record {
  owner = refl;
  pends = inr (inl refl);
  launches = tt;
}
confirm_pending-IsFair setup now bot none (some (action, at)) b p =
    elim (Bool-cases (ltb (at + confirm_window) now)) [
      | inl late ↦ rw late record { owner = refl; pends = inr (inl refl); launches = tt }
      | inr fresh ↦ rw fresh (launch-IsFair setup action at now bot p b fresh)
    ]

module _ (setup : Setup) (args : List String) (now : ℕ) (bot : OperatorBot) where
  obey-IsFair : (c : Command) → IsFair (some c) bot now (obey setup c args now bot)
  unfolding obey confirm_command
  obey-IsFair simulate = simulate-IsFair setup now bot
  obey-IsFair tick = arm-IsFair tick "tick" tick_text now bot refl
  obey-IsFair exit = arm-IsFair exit "exit" exit_text now bot refl
  obey-IsFair guard = guard-IsFair setup args now bot
  obey-IsFair confirm = confirm_pending-IsFair setup now bot bot.busy bot.pending refl refl
  obey-IsFair cancel = cancel-IsFair now bot
  obey-IsFair demo = demo-IsFair args now bot
  obey-IsFair c = record { owner = refl; pends = inl refl; launches = tt }

  pub obey_word-IsFair :
      (word : String) → IsFair (looked_up word commands) bot now (obey_word setup word args now bot)
  unfolding obey_word
  obey_word-IsFair word = elim (Option-cases (looked_up word commands)) [
    | inl e ↦ rw e (said _ _ now _)
    | inr (c, e) ↦ rw e (obey-IsFair c)
  ]
