-- ===== src/Bot/Single.antt =====
-- bot.py: one action at a time.
use almanak_keeperhub.Prelude.{
  Option-cases, is_some, ◌==◌, ℕ, zero, suc, ◌+◌, ◌≤◌, String, ◌≡◌, refl, inl, inr, Option, none,
  some, List, [], ◌∷◌, arith, if◌then◌else◌, Bool-cases, All, ltb, Bool, false, not, str_eq, ◌&&◌,
}
use almanak_keeperhub.Bot.{
  Setup, OperatorBot, Job, Reply, Command, cli, demo_script, say, view, run, fail, holds, help,
  status, executions, dryruns, keeper, verify, simulate, tick, exit, guard, confirm, cancel, demo,
  looked_up, commands, confirm_window,
}
use almanak_keeperhub.Bot.Words.{words_of, before_at}
use almanak_keeperhub.Python.Text.{lower}
use almanak_keeperhub.Bot.Handle.{
  guard_text, tick_text, exit_text, handle, handle_words, answer_chat, claim, obey_word, obey, arm,
  simulate_command, stale_guard, guard_command, cancel_command, confirm_command, confirm_pending,
  demo_command, launch, start_held, is_stale,
}
use almanak_keeperhub.Bot.Fair.{last, subcommand}
use almanak_keeperhub.Bot.Turns.{System, Event, message, ended, started, end_at, turn, turns}

-- A real action or a stale decision, by its command line: a command of the package that is no dry
-- run.
abbrev pub acts : Job → Bool
acts (cli argv label held) =
    not (str_eq (subcommand argv) "run" && str_eq (last argv) "--simulate-only")
acts (demo_script name) = false

abbrev held : Job → ℕ
held job = if acts job then 1 else 0

-- How many of the jobs that run are real actions or stale decisions.
abbrev pub holders : List Job → ℕ
holders [] = 0
holders (job ∷ jobs) = held job + holders jobs

abbrev occupied : Option String → ℕ
occupied none = 0
occupied (some name) = 1

abbrev new_holders : Reply → ℕ
new_holders (run job) = held job
new_holders reply = 0

-- A job frees the bot at its end exactly if it is an action.
abbrev Frees : Job → Type 0
Frees job = holds job ≡ acts job

abbrev NewFrees : Reply → Type 0
NewFrees (run job) = Frees job
NewFrees reply = Unit

-- An action starts only where the bot was free, and occupies it.
abbrev IsBalanced : OperatorBot → OperatorBot × Reply → Type 0
IsBalanced before (after, reply) =
    (occupied after.busy ≡ occupied before.busy + new_holders reply) × NewFrees reply

arm-IsBalanced :
    (action text : String) (now : ℕ) (bot : OperatorBot) → IsBalanced bot (arm action text now bot)
unfolding arm
arm-IsBalanced action text now bot = ground arith

simulate-IsBalanced :
    (setup : Setup) (bot : OperatorBot) → IsBalanced bot (simulate_command setup bot)
unfolding simulate_command
simulate-IsBalanced setup bot = ground arith

stale-IsBalanced : (setup : Setup) (bot : OperatorBot) → IsBalanced bot (stale_guard setup bot)
unfolding stale_guard start_held
stale-IsBalanced setup bot = ground arith

cancel-IsBalanced : (bot : OperatorBot) → IsBalanced bot (cancel_command bot)
unfolding cancel_command
cancel-IsBalanced bot = ground arith

-- What is armed starts as an action, whichever it is.
launch-IsBalanced :
    (setup : Setup) (action : String) (bot : OperatorBot)
    → bot.busy ≡ none
    → IsBalanced bot (launch setup action bot)
unfolding launch start_held
launch-IsBalanced setup action bot free = elim (Bool-cases (str_eq action "guard")) [
  | inl e ↦ rw e (rw free (refl, refl))
  | inr g ↦ rw g (elim (Bool-cases (str_eq action "exit")) [
    | inl e ↦ rw e (rw free (refl, refl))
    | inr e ↦ rw e (rw free (refl, refl))
  ])
]

confirm_pending-IsBalanced :
    (setup : Setup) (now : ℕ) (bot : OperatorBot) (busy : Option String)
    (pending : Option (String × ℕ))
    → bot.busy ≡ busy
    → IsBalanced bot (confirm_pending setup now bot busy pending)
unfolding confirm_pending
confirm_pending-IsBalanced setup now bot (some busy) pending e = (omega arith, tt)
confirm_pending-IsBalanced setup now bot none none e = (omega arith, tt)
confirm_pending-IsBalanced setup now bot none (some (action, at)) e =
    elim (Bool-cases (ltb (at + confirm_window) now)) [
      | inl late ↦ rw late (omega arith, tt)
      | inr fresh ↦ rw fresh (launch-IsBalanced setup action (record bot { pending = none }) e)
    ]

confirm-IsBalanced :
    (setup : Setup) (now : ℕ) (bot : OperatorBot) → IsBalanced bot (confirm_command setup now bot)
unfolding confirm_command
confirm-IsBalanced setup now bot =
    confirm_pending-IsBalanced setup now bot bot.busy bot.pending refl

demo-IsBalanced : (args : List String) (bot : OperatorBot) → IsBalanced bot (demo_command args bot)
unfolding demo_command
demo-IsBalanced args bot = ground arith

claim-IsBalanced :
    (setup : Setup) (chat_id word : String) (args : List String) (bot : OperatorBot)
    → IsBalanced bot (claim setup chat_id word args bot)
unfolding claim
claim-IsBalanced setup chat_id word args bot = ground arith

guard-IsBalanced :
    (setup : Setup) (args : List String) (now : ℕ) (bot : OperatorBot)
    → IsBalanced bot (guard_command setup args now bot)
unfolding guard_command
guard-IsBalanced setup args now bot =
    ground (arith, stale-IsBalanced setup bot, arm-IsBalanced "guard" guard_text now bot)

module _ (setup : Setup) (args : List String) (now : ℕ) (bot : OperatorBot) where
  obey-IsBalanced : (command : Command) → IsBalanced bot (obey setup command args now bot)
  unfolding obey
  obey-IsBalanced help = (omega arith, tt)
  obey-IsBalanced status = (omega arith, tt)
  obey-IsBalanced executions = (omega arith, tt)
  obey-IsBalanced dryruns = (omega arith, tt)
  obey-IsBalanced keeper = (omega arith, tt)
  obey-IsBalanced verify = (omega arith, tt)
  obey-IsBalanced simulate = simulate-IsBalanced setup bot
  obey-IsBalanced tick = arm-IsBalanced "tick" tick_text now bot
  obey-IsBalanced exit = arm-IsBalanced "exit" exit_text now bot
  obey-IsBalanced guard = guard-IsBalanced setup args now bot
  obey-IsBalanced confirm = confirm-IsBalanced setup now bot
  obey-IsBalanced cancel = cancel-IsBalanced bot
  obey-IsBalanced demo = demo-IsBalanced args bot

  obey_word-IsBalanced : (word : String) → IsBalanced bot (obey_word setup word args now bot)
  unfolding obey_word
  obey_word-IsBalanced word = elim (Option-cases (looked_up word commands)) [
    | inl e ↦ rw e (omega arith, tt)
    | inr (command, e) ↦ rw e (obey-IsBalanced command)
  ]

handle-IsBalanced :
    (setup : Setup) (chat_id text : String) (sent_at : Option ℕ) (now : ℕ) (bot : OperatorBot)
    → IsBalanced bot (handle setup chat_id text sent_at now bot)
unfolding handle
handle-IsBalanced setup chat_id text sent_at now bot = elim (Bool-cases (is_stale sent_at now)) [
  | inl e ↦ rw e (omega arith, tt)
  | inr e ↦ rw e (by_words (words_of text))
]
  where
    by_words : (words : List String) → IsBalanced bot (handle_words setup chat_id words now bot)
    by_words [] = unfold handle_words in (omega arith, tt)
    by_words (word ∷ args) =
        unfold handle_words answer_chat in
        ground (
          arith,
          claim-IsBalanced setup chat_id (before_at (lower word)) args bot,
          obey_word-IsBalanced setup args now bot (before_at (lower word)),
        )

abbrev pub IsBusy : System → Type 0
IsBusy s = (holders s.running ≡ occupied s.bot.busy) × All Frees s.running

abbrev BusyAfter : ℕ → System → Type 0
BusyAfter before s = (before + holders s.running ≡ occupied s.bot.busy) × All Frees s.running

-- The bot is free again once the action that occupied it ends.
end_at-BusyAfter :
    (n : ℕ) (bot : OperatorBot) (before : ℕ) (running : List Job)
    → BusyAfter before (record { bot = bot; running = running })
    → BusyAfter before (end_at n bot running)
unfolding end_at
end_at-BusyAfter n bot before [] e = e
end_at-BusyAfter zero bot before (job ∷ jobs) (e, frees) = (ground (arith, e, frees.0), frees.1)
end_at-BusyAfter (suc n) bot before (job ∷ jobs) (e, frees) =
    let rest = end_at-BusyAfter n bot (before + held job) jobs (omega (arith, e), frees.1) in
    (omega (arith, rest.0), (frees.0, rest.1))

turns-IsBusy :
    (setup : Setup) (events : List Event) (s : System) → IsBusy s → IsBusy (turns setup events s)
unfolding turns turn
turns-IsBusy setup [] s e = e
turns-IsBusy setup (ended n ∷ events) s (e, frees) =
    let after = end_at-BusyAfter n s.bot 0 s.running (omega (arith, e), frees) in
    turns-IsBusy setup events (end_at n s.bot s.running) (omega (arith, after.0), after.1)
turns-IsBusy setup (message chat_id text sent_at now ∷ events) s (e, frees) =
    turns-IsBusy setup events _ (
      counted (handle setup chat_id text sent_at now s.bot)
        (handle-IsBalanced setup chat_id text sent_at now s.bot))
  where
    counted :
        (after : OperatorBot × Reply)
        → IsBalanced s.bot after
        → IsBusy (record { bot = after.0; running = started after.1 s.running })
    counted (bot, run job) (balanced, free) = (omega (arith, balanced, e), (free, frees))
    counted (bot, say text) (balanced, free) = (omega (arith, balanced, e), frees)
    counted (bot, view name args) (balanced, free) = (omega (arith, balanced, e), frees)
    counted (bot, fail problem) (balanced, free) = (omega (arith, balanced, e), frees)

-- At most one of the running jobs is an action, and the bot is busy exactly while there is one.
abbrev pub IsSingle : System → Type 0
IsSingle s = (holders s.running ≤ 1) × (is_some s.bot.busy ≡ (holders s.running == 1))

IsSingle-of : (s : System) → IsBusy s → IsSingle s
IsSingle-of s busy = by_busy s.bot.busy busy.0
  where
    by_busy :
        (busy : Option String)
        → holders s.running ≡ occupied busy
        → (holders s.running ≤ 1) × (is_some busy ≡ (holders s.running == 1))
    by_busy none e = (omega (arith, e), ground (arith, e))
    by_busy (some name) e = (omega (arith, e), ground (arith, e))

-- A bot that has just been made.
abbrev pub idle : Option String → System
idle owner = record {
  bot = record { owner_chat_id = owner; pending = none; busy = none };
  running = [];
}

-- However messages and the ends of jobs interleave, from a bot that has just been made at most one
-- of the running jobs is a real action or a stale decision by its command line, which is one of the
-- package's that is no dry run, and the bot is busy exactly while there is one.
pub turns-IsSingle :
    (setup : Setup) (owner : Option String) (events : List Event)
    → IsSingle (turns setup events (idle owner))
turns-IsSingle setup owner events =
    IsSingle-of (turns setup events (idle owner))
      (turns-IsBusy setup events (idle owner) (refl, tt))
