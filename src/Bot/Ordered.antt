-- ===== src/Bot/Ordered.antt =====
-- bot.py: a real action is one that the owner asked for in an earlier message and confirmed in
-- time.
use mathlib.Core.List.{Memᴰ}
use almanak_keeperhub.Prelude.{
  ℕ, zero, suc, ◌+◌, ◌≤◌, String, ◌≡◌, refl, sym, ◌∙◌, ◌⊎◌, inl, inr, true, Option, none, some,
  List, [], ◌∷◌, arith,
}
use almanak_keeperhub.Bot.{
  Setup, OperatorBot, Job, Reply, Command, say, view, run, fail, looked_up, commands,
  confirm_window,
}
use almanak_keeperhub.Bot.Words.{words_of}
use almanak_keeperhub.Bot.Handle.{handle}
use almanak_keeperhub.Bot.Turns.{System, Event, message, ended, end_at, turn}
use almanak_keeperhub.Bot.Single.{idle}
use almanak_keeperhub.Bot.Fair.{is_unarmed, IsConfirmed, action_of, purpose}
use almanak_keeperhub.Bot.Confirmed.{IsAuthorised, Launched, command_word, handle-IsAuthorised}

-- The systems that come of some events, newest first.
pub data Reaches (setup : Setup) (owner : Option String) : List Event → System → Type 0 where
  first : Reaches setup owner [] (idle owner)
  then_turn :
      {past : List Event} {s : System} (e : Event)
      → Reaches setup owner past s
      → Reaches setup owner (e ∷ past) (turn setup e s)

-- A message at a time by which the owner armed an action.
abbrev pub Asked : List Event → OperatorBot → String → ℕ → Type 0
Asked past bot action at =
    (chat_id : String) × (text : String) × (sent_at : Option ℕ) × (c : Command) × (bot.owner_chat_id
      ≡ some chat_id)
    × Memᴰ (message chat_id text sent_at at) past
    × (looked_up (command_word (words_of text)) commands ≡ some c)
    × (action_of c ≡ some action)

abbrev AllAsked : List Event → OperatorBot → Type 0
AllAsked past bot =
    (action : String) (at : ℕ) → bot.pending ≡ some (action, at) → Asked past bot action at

-- The owner of a bot that has one stays.
kept_owner :
    (setup : Setup) (chat_id text : String) (now : ℕ) (bot : OperatorBot)
    (after : OperatorBot × Reply) (owner : String)
    → IsAuthorised setup chat_id text now bot after
    → bot.owner_chat_id ≡ some owner
    → after.0.owner_chat_id ≡ some owner
kept_owner setup chat_id text now bot after owner a owned = elim a.owner [
  | inl same ↦ same ∙ owned
  | inr (free, claimed, word, args, e) ↦ absurd (ground (arith, free, owned))
]

parts : (x y : String × ℕ) → some x ≡ some y → (x.0 ≡ y.0) × (x.1 ≡ y.1)
parts (a, n) (b, m) e = (ground (arith, e), ground (arith, e))

message-AllAsked :
    (setup : Setup) (past : List Event) (chat_id text : String) (sent_at : Option ℕ) (now : ℕ)
    (bot : OperatorBot) (after : OperatorBot × Reply)
    → IsAuthorised setup chat_id text now bot after
    → AllAsked past bot
    → AllAsked (message chat_id text sent_at now ∷ past) after.0
message-AllAsked setup past chat_id text sent_at now bot after a asked action at pending =
    elim a.pends [
      | inl same ↦ earlier (asked action at (sym same ∙ pending))
      | inr (owned, inl same) ↦ earlier (asked action at (sym same ∙ pending))
      | inr (owned, inr (inl cleared)) ↦ absurd (ground (arith, cleared, pending))
      | inr (owned, inr (inr (c, armed, looked, does, now_pending))) ↦
          let (named, timed) = parts (armed, now) (action, at) (sym now_pending ∙ pending) in
          rw (sym named) (
            rw (sym timed) (
              chat_id,
              text,
              sent_at,
              c,
              kept_owner setup chat_id text now bot after chat_id a owned,
              Memᴰ.head refl,
              looked,
              does,
            ))
    ]
  where
    earlier :
        Asked past bot action at → Asked (message chat_id text sent_at now ∷ past) after.0 action at
    earlier (chat, words, sent, c, owned, m, looked, does) = (
      chat,
      words,
      sent,
      c,
      kept_owner setup chat_id text now bot after chat a owned,
      Memᴰ.tail m,
      looked,
      does,
    )

-- The end of a job changes neither the owner nor what is pending.
end_at-keeps :
    (n : ℕ) (bot : OperatorBot) (running : List Job)
    → ((end_at n bot running).bot.owner_chat_id ≡ bot.owner_chat_id)
      × ((end_at n bot running).bot.pending ≡ bot.pending)
unfolding end_at
end_at-keeps n bot [] = (refl, refl)
end_at-keeps zero bot (job ∷ jobs) = ground arith
end_at-keeps (suc n) bot (job ∷ jobs) = end_at-keeps n bot jobs

turn-AllAsked :
    (setup : Setup) (e : Event) (past : List Event) (s : System)
    → AllAsked past s.bot
    → AllAsked (e ∷ past) (turn setup e s).bot
unfolding turn
turn-AllAsked setup (message chat_id text sent_at now) past s asked =
    message-AllAsked setup past chat_id text sent_at now s.bot
      (handle setup chat_id text sent_at now s.bot)
      (handle-IsAuthorised setup chat_id text sent_at now s.bot) asked
turn-AllAsked setup (ended n) past s asked = λ action at pending.
    let (same_owner, same) = end_at-keeps n s.bot s.running in
    later action at same_owner (asked action at (sym same ∙ pending))
  where
    later :
        (action : String) (at : ℕ)
        → (end_at n s.bot s.running).bot.owner_chat_id ≡ s.bot.owner_chat_id
        → Asked past s.bot action at
        → Asked (ended n ∷ past) (end_at n s.bot s.running).bot action at
    later action at same (chat, words, sent, c, owned, m, looked, does) =
        (chat, words, sent, c, same ∙ owned, Memᴰ.tail m, looked, does)

Reaches-AllAsked :
    (setup : Setup) (owner : Option String) (past : List Event) (s : System)
    → Reaches setup owner past s
    → AllAsked past s.bot
Reaches-AllAsked setup owner past s first = λ action at pending. absurd (ground arith)
Reaches-AllAsked setup owner past s (then_turn {past = before} {s = t} e r) =
    turn-AllAsked setup e before t (Reaches-AllAsked setup owner before t r)

-- A real action: the owner armed it by an earlier message, and confirms it now, in time; nothing
-- else holds the bot, and the next confirmation needs another command.
pub record IsOrdered (past : List Event) (before : OperatorBot) (now : ℕ) (after : OperatorBot)
    (job : Job) : Type 0 where
  pub action : String
  pub at : ℕ
  pub asked : Asked past before action at
  pub in_time : now ≤ at + confirm_window
  pub free : before.busy ≡ none
  pub used : after.pending ≡ none
  pub does : purpose job ≡ some action

abbrev pub Ordered : List Event → String → OperatorBot → ℕ → OperatorBot × Reply → Type 0
Ordered past chat_id before now (after, run job) =
    (before.owner_chat_id ≡ some chat_id)
    × ((is_unarmed job ≡ true) ⊎ IsOrdered past before now after job)
Ordered past chat_id before now (after, reply) = Unit

-- In every run of messages and ends of jobs, a job that a message starts is for the owner's chat,
-- and it is a dry run, a decision that is stale on purpose or a demo, or it carries out the action
-- that an earlier message of the owner armed at most 60 seconds before, while nothing else held
-- the bot; it uses that message up.
pub handle-Ordered :
    (setup : Setup) (owner : Option String) (past : List Event) (s : System) (chat_id text : String)
    (sent_at : Option ℕ) (now : ℕ)
    → Reaches setup owner past s
    → Ordered past chat_id s.bot now (handle setup chat_id text sent_at now s.bot)
handle-Ordered setup owner past s chat_id text sent_at now r =
    ordered (handle setup chat_id text sent_at now s.bot)
      (handle-IsAuthorised setup chat_id text sent_at now s.bot).launches
  where
    confirmed :
        (after : OperatorBot) (job : Job)
        → IsConfirmed s.bot now after job
        → IsOrdered past s.bot now after job
    confirmed after job c =
        let asked = Reaches-AllAsked setup owner past s r c.action c.at c.armed in
        let (chat, words, sent, command, owned, m, looked, does) = asked in
        record {
          action = c.action;
          at = c.at;
          asked = asked;
          in_time = c.in_time;
          free = c.free;
          used = c.used;
          does = c.does command does;
        }

    ordered :
        (after : OperatorBot × Reply)
        → Launched chat_id s.bot now after
        → Ordered past chat_id s.bot now after
    ordered (after, run job) (owned, inl unarmed) = (owned, inl unarmed)
    ordered (after, run job) (owned, inr c) = (owned, inr (confirmed after job c))
    ordered (after, say text) l = tt
    ordered (after, view name args) l = tt
    ordered (after, fail e) l = tt
