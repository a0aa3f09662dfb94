-- ===== src/Bot.antt =====
-- bot.py: the operator's bot, as a state machine. A command runs without a break up to the job
-- that it starts, so commands and the ends of jobs interleave. Times are in microseconds, and the
-- text of the commands that only read is left open.
pub mod Words
pub mod Handle
pub mod Turns
pub mod Single
pub mod Fair
pub mod Confirmed
pub mod Ordered
pub mod Tests
use almanak_keeperhub.Prelude.{
  ℕ, ◌*◌, String, Bool, true, false, Option, none, some, List, [], ◌∷◌, ltb, leb, str_eq, ◌&&◌,
  if◌then◌else◌,
}
use almanak_keeperhub.Python.Text.{join}
use almanak_keeperhub.Effects.{second}
use almanak_keeperhub.Errors.{Error}

-- What the constructor is given and keeps: the chat may change it only by `/start`.
pub record Setup : Type 0 where
  pub strategy_dir : String
  pub chain : String
  pub start_secret : String

-- The fields of `OperatorBot` that change.
pub record OperatorBot : Type 0 where
  pub owner_chat_id : Option String
  pub pending : Option (String × ℕ)
  pub busy : Option String

-- What is started beside the bot: the package's own command line with its arguments, a label, and
-- whether `_busy` is set until it ends; or the script of a demo.
pub data Job : Type 0 where
  cli : List String → String → Bool → Job
  demo_script : String → Job

abbrev pub holds : Job → Bool
holds (cli argv label held) = held
holds (demo_script name) = false

-- The answer to a message: a text, the text of a command that only reads, a job whose output it
-- will be, or an exception.
pub data Reply : Type 0 where
  say : String → Reply
  view : String → List String → Reply
  run : Job → Reply
  fail : Error → Reply

-- The handlers of `handle`.
pub data Command : Type 0 where
  help status executions dryruns keeper verify simulate tick exit guard confirm cancel demo :
      Command

abbrev pub commands : List (String × Command)
commands =
    ("/start", help)
    ∷ ("/help", help)
    ∷ ("/status", status)
    ∷ ("/executions", executions)
    ∷ ("/dryruns", dryruns)
    ∷ ("/keeper", keeper)
    ∷ ("/verify", verify)
    ∷ ("/simulate", simulate)
    ∷ ("/tick", tick)
    ∷ ("/exit", exit)
    ∷ ("/guard", guard)
    ∷ ("/confirm", confirm)
    ∷ ("/cancel", cancel)
    ∷ ("/demo", demo)
    ∷ []

abbrev pub demos : List (String × String)
demos =
    ("revert", "revert_caught_by_dry_run")
    ∷ ("cap", "cap_refused")
    ∷ ("duplicate", "duplicate_blocked_by_idempotency")
    ∷ ("crash", "crash_and_resume")
    ∷ ("selector", "unknown_selector_refused")
    ∷ ("rpc", "rpc_outage")
    ∷ ("stale", "stale_exit_not_executed")
    ∷ []

-- `{...}.get(key)`
unfoldable pub looked_up : {A : Type 0} → String → List (String × A) → Option A
looked_up key [] = none
looked_up key ((k, a) ∷ rest) = if str_eq k key then some a else looked_up key rest

abbrev pub confirm_window : ℕ
confirm_window = 60 * second

abbrev pub stale_after : ℕ
stale_after = 180 * second
