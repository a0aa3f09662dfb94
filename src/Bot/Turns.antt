-- ===== src/Bot/Turns.antt =====
-- bot.py: how messages and the ends of jobs follow one another. Each update is a task of its own, a
-- job runs in a thread, and the `finally` of a job that set `_busy` frees the bot, also after an
-- exception.
use almanak_keeperhub.Prelude.{ℕ, zero, suc, String, Option, none, List, [], ◌∷◌, if◌then◌else◌}
use almanak_keeperhub.Bot.{Setup, OperatorBot, Job, Reply, run, holds}
use almanak_keeperhub.Bot.Handle.{handle}

-- The bot and the jobs that run, newest first.
pub record System : Type 0 where
  pub bot : OperatorBot
  pub running : List Job

-- A message of a chat, with the time that Telegram gives it and the time that it is handled at; or
-- the end of the job at a position.
pub data Event : Type 0 where
  message : String → String → Option ℕ → ℕ → Event
  ended : ℕ → Event

abbrev pub started : Reply → List Job → List Job
started (run job) running = job ∷ running
started reply running = running

-- `finally: self._busy = None`
abbrev pub release : Job → OperatorBot → OperatorBot
release job bot = if holds job then record bot { busy = none } else bot

-- The system without the job at a position; `done` are the jobs before it.
unfoldable pub end_at : ℕ → OperatorBot → List Job → System
end_at n bot [] = record { bot = bot; running = [] }
end_at zero bot (job ∷ jobs) = record { bot = release job bot; running = jobs }
end_at (suc n) bot (job ∷ jobs) =
    let rest = end_at n bot jobs in record rest { running = job ∷ rest.running }

unfoldable pub turn : Setup → Event → System → System
unfolding end_at
turn setup (message chat_id text sent_at now) s =
    let (bot, reply) = handle setup chat_id text sent_at now s.bot in
    record { bot = bot; running = started reply s.running }
turn setup (ended n) s = end_at n s.bot s.running

unfoldable pub turns : Setup → List Event → System → System
unfolding turn
turns setup [] s = s
turns setup (e ∷ es) s = turns setup es (turn setup e s)
