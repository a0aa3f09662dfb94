-- ===== src/Bot/Handle.antt =====
-- bot.py: `handle` and the handlers that act.
use almanak_keeperhub.Prelude.{
  ℕ, ◌+◌, String, Bool, true, false, not, ◌&&◌, Option, none, some, List, [], ◌∷◌, ltb, str_eq,
  if◌then◌else◌,
}
use almanak_keeperhub.Python.Text.{lower, join}
use almanak_keeperhub.Errors.{type_error}
use almanak_keeperhub.Bot.{
  Setup, OperatorBot, Reply, Command, cli, demo_script, say, view, run, fail, help, status,
  executions, dryruns, keeper, verify, simulate, tick, exit, guard, confirm, cancel, demo, commands,
  demos, looked_up, confirm_window, stale_after,
}
use almanak_keeperhub.Bot.Words.{words_of, before_at, is_ascii}

abbrev pub help_text : String
help_text =
    "<b>almanak-keeperhub operator bot</b>\nAlmanak decides. KeeperHub lands it. This chat is the operator's view.\n\n<b>Read</b>\n/status  wallet, chain, counts, keeper\n/executions [n]  latest executions with links\n/dryruns  latest KeeperHub dry runs\n/keeper  the scheduled compounder KeeperHub runs\n/verify &lt;tx hash or execution id&gt;  KeeperHub's verdict and who acted on chain\n\n<b>Act</b> (each asks for /confirm)\n/simulate  dry-run one strategy tick through KeeperHub, nothing broadcast\n/tick  one real strategy tick: Almanak plans, KeeperHub dry-runs, signs and broadcasts\n/exit  redeem the vault position; KeeperHub re-reads the balance before it acts\n/guard  the same exit as a KeeperHub workflow: a Condition node re-reads the shares, then Morpho redeem\n\n<b>Break it on purpose</b>\n/demo &lt;revert|cap|duplicate|crash|selector|rpc|stale&gt;\n/guard stale  a decision the position no longer covers, sent to the workflow: the Condition stops it\n\n/cancel drops a pending tick, exit or guard. Buttons under each reply do the same as typing."

still_working : String → String → String
still_working busy rest = join ("Still working on the " ∷ busy ∷ ". Wait for its reply" ∷ rest ∷ [])

-- `self._pending[0] == action and time.time() - self._pending[1] < 60`
unfoldable pub is_armed : String → ℕ → Option (String × ℕ) → Bool
is_armed action now none = false
is_armed action now (some (armed, at)) = str_eq armed action && ltb now (at + confirm_window)

-- `_arm`, and the reply of the handler that called it.
unfoldable pub arm : String → String → ℕ → OperatorBot → OperatorBot × Reply
unfolding is_armed still_working
arm action announcement now bot = go bot.busy
  where
    go : Option String → OperatorBot × Reply
    go (some busy) = (bot, say (still_working busy " before starting another action."))
    go none =
        if is_armed action now bot.pending
        then (
          bot,
          say (
              join ("The " ∷ action ∷ " is already armed. Tap Confirm to run it, or Cancel." ∷ [])),
        )
        else (record bot { pending = some (action, now) }, say announcement)

abbrev pub tick_text : String
tick_text =
    "<b>Real tick</b>: Almanak plans the intent, KeeperHub dry-runs it, then signs in its enclave and broadcasts. Test USDC moves. Send /confirm within 60 seconds."

abbrev pub exit_text : String
exit_text =
    "<b>Guarded exit</b>: the redeem goes out as KeeperHub check-and-execute. KeeperHub reads the vault balance itself right before the write and refuses if the position is gone. Send /confirm within 60 seconds."

abbrev pub guard_text : String
guard_text =
    "<b>Workflow guard</b>: the exit decision triggers the KeeperHub workflow. Its nodes read the vault shares, a Condition compares them with the decision, and the Morpho redeem runs only on the true branch. Send /confirm within 60 seconds."

-- A job that sets `_busy`, under what it is called.
unfoldable pub start_held : String → List String → String → OperatorBot → OperatorBot × Reply
start_held name argv label bot = (record bot { busy = some name }, run (cli argv label true))

-- `_simulate`, which runs beside other actions.
unfoldable pub simulate_command : Setup → OperatorBot → OperatorBot × Reply
unfolding still_working
simulate_command setup bot = go bot.busy
  where
    go : Option String → OperatorBot × Reply
    go (some busy) = (bot, say (still_working busy "."))
    go none = (
      bot,
      run (
          cli ("run" ∷ "-d" ∷ setup.strategy_dir ∷ "--once" ∷ "--fresh" ∷ "--simulate-only" ∷ [])
            "dry run" false),
    )

-- The branch of `_guard` for a stale decision.
unfoldable pub stale_guard : Setup → OperatorBot → OperatorBot × Reply
unfolding still_working start_held
stale_guard setup bot = go bot.busy
  where
    go : Option String → OperatorBot × Reply
    go (some busy) = (bot, say (still_working busy "."))
    go none =
        start_held "stale decision"
          ("exit-guard" ∷ "run" ∷ "-d" ∷ setup.strategy_dir ∷ "--chain" ∷ setup.chain ∷ "--stale"
            ∷ [])
          "workflow guard, stale decision" bot

asks_stale : List String → Bool
asks_stale [] = false
asks_stale (a ∷ args) = str_eq (lower a) "stale"

unfoldable pub guard_command : Setup → List String → ℕ → OperatorBot → OperatorBot × Reply
unfolding asks_stale
guard_command setup args now bot =
    if asks_stale args then stale_guard setup bot else arm "guard" guard_text now bot

-- `_cancel`
unfoldable pub cancel_command : OperatorBot → OperatorBot × Reply
cancel_command bot = go bot.pending
  where
    go : Option (String × ℕ) → OperatorBot × Reply
    go none = (bot, say "Nothing pending.")
    go (some (action, at)) = (
      record bot { pending = none },
      say (join ("Cancelled the pending " ∷ action ∷ ". Nothing was sent." ∷ [])),
    )

-- The job of an action that was armed.
unfoldable pub launch : Setup → String → OperatorBot → OperatorBot × Reply
launch setup action bot =
    if str_eq action "guard"
    then start_held "workflow guard"
        ("exit-guard" ∷ "run" ∷ "-d" ∷ setup.strategy_dir ∷ "--chain" ∷ setup.chain ∷ [])
        "workflow guard" bot
    else if str_eq action "exit"
    then start_held "guarded exit"
        ("exit" ∷ "-d" ∷ setup.strategy_dir ∷ "--chain" ∷ setup.chain ∷ []) "guarded exit" bot
    else start_held "real tick" ("run" ∷ "-d" ∷ setup.strategy_dir ∷ "--once" ∷ "--fresh" ∷ [])
        "real tick" bot

abbrev pub expired_text : String
expired_text =
    "Nothing pending, or it expired. Send /tick, /exit or /guard first, then /confirm within 60 seconds."

-- `_confirm`, by what is busy and what is pending.
unfoldable pub confirm_pending :
    Setup → ℕ → OperatorBot → Option String → Option (String × ℕ) → OperatorBot × Reply
unfolding still_working
confirm_pending setup now bot (some busy) pending = (bot, say (still_working busy "."))
confirm_pending setup now bot none none = (record bot { pending = none }, say expired_text)
confirm_pending setup now bot none (some (action, at)) =
    if ltb (at + confirm_window) now
    then (record bot { pending = none }, say expired_text)
    else launch setup action (record bot { pending = none })

unfoldable pub confirm_command : Setup → ℕ → OperatorBot → OperatorBot × Reply
confirm_command setup now bot = confirm_pending setup now bot bot.busy bot.pending

abbrev pub first_word : List String → String
first_word [] = ""
first_word (a ∷ args) = lower a

abbrev pub demo_usage : String
demo_usage = "Usage: /demo <revert|cap|duplicate|crash|selector|rpc|stale>"

-- `_demo`; all names of DEMOS are texts.
unfoldable pub demo_command : List String → OperatorBot → OperatorBot × Reply
demo_command args bot = go (looked_up (first_word args) demos)
  where
    go : Option String → OperatorBot × Reply
    go none = (bot, say demo_usage)
    go (some name) = (bot, run (demo_script name))

-- The handler of a command.
unfoldable pub obey : Setup → Command → List String → ℕ → OperatorBot → OperatorBot × Reply
obey setup help args now bot = (bot, say help_text)
obey setup status args now bot = (bot, view "/status" args)
obey setup executions args now bot = (bot, view "/executions" args)
obey setup dryruns args now bot = (bot, view "/dryruns" args)
obey setup keeper args now bot = (bot, view "/keeper" args)
obey setup verify args now bot = (bot, view "/verify" args)
obey setup simulate args now bot = simulate_command setup bot
obey setup tick args now bot = arm "tick" tick_text now bot
obey setup exit args now bot = arm "exit" exit_text now bot
obey setup guard args now bot = guard_command setup args now bot
obey setup confirm args now bot = confirm_command setup now bot
obey setup cancel args now bot = cancel_command bot
obey setup demo args now bot = demo_command args bot

unfoldable pub obey_word : Setup → String → List String → ℕ → OperatorBot → OperatorBot × Reply
obey_word setup word args now bot = go (looked_up word commands)
  where
    go : Option Command → OperatorBot × Reply
    go none = (bot, say (join ("Unknown command " ∷ word ∷ ". Send /help for the list." ∷ [])))
    go (some command) = obey setup command args now bot

abbrev pub no_owner_text : String
no_owner_text =
    "This bot has no owner yet. Send /start <secret>; the secret is printed where the bot was started."

-- A message while no chat owns the bot.
unfoldable pub claim : Setup → String → String → List String → OperatorBot → OperatorBot × Reply
claim setup chat_id word [] bot = (bot, say no_owner_text)
claim setup chat_id word (given ∷ args) bot =
    if str_eq word "/start"
    then if not (is_ascii given && is_ascii setup.start_secret)
      then (bot, fail (type_error "comparing strings with non-ASCII characters is not supported"))
      else if str_eq given setup.start_secret
      then (
        record bot { owner_chat_id = some chat_id },
        say (
            join (
              "This chat now owns the bot. Save it so restarts keep it:\n"
              ∷ "ALMANAK_KEEPERHUB_TELEGRAM_CHAT_ID=" ∷ chat_id ∷ "\n\n" ∷ help_text ∷ [])),
      )
      else (bot, say no_owner_text)
    else (bot, say no_owner_text)

-- A message of some words, by who owns the bot.
unfoldable pub answer_chat :
    Setup → String → String → List String → ℕ → OperatorBot → Option String → OperatorBot × Reply
answer_chat setup chat_id word args now bot none = claim setup chat_id word args bot
answer_chat setup chat_id word args now bot (some owner) =
    if str_eq chat_id owner
    then obey_word setup word args now bot
    else (bot, say "Not authorised: this bot answers only its owner's chat.")

-- `sent_at is not None and time.time() - sent_at > STALE_AFTER_SECONDS`
unfoldable pub is_stale : Option ℕ → ℕ → Bool
is_stale none now = false
is_stale (some sent_at) now = ltb (sent_at + stale_after) now

unfoldable pub handle_words : Setup → String → List String → ℕ → OperatorBot → OperatorBot × Reply
handle_words setup chat_id [] now bot = (bot, say help_text)
handle_words setup chat_id (word ∷ args) now bot =
    answer_chat setup chat_id (before_at (lower word)) args now bot bot.owner_chat_id

-- `handle`
unfoldable pub handle : Setup → String → String → Option ℕ → ℕ → OperatorBot → OperatorBot × Reply
handle setup chat_id text sent_at now bot =
    if is_stale sent_at now
    then (bot, say "")
    else handle_words setup chat_id (words_of text) now bot
