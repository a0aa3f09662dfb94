-- ===== src/Bot/Tests.antt =====
-- The owner of a bot arms a tick and confirms it.
use almanak_keeperhub.Prelude.{◌≡◌, refl, some, none, true, [], ◌∷◌}
use almanak_keeperhub.Python.Text.{lower}
use almanak_keeperhub.Bot.{Setup, cli, run, looked_up}
use almanak_keeperhub.Bot.Words.{words_of, before_at}
use almanak_keeperhub.Bot.Handle.{
  handle, handle_words, answer_chat, obey_word, obey, arm, is_armed, confirm_command,
  confirm_pending, launch, start_held, is_stale,
}
use almanak_keeperhub.Bot.Turns.{System, Event, message, ended, turn, turns}
use almanak_keeperhub.Bot.Single.{IsSingle, idle, turns-IsSingle}
use almanak_keeperhub.Bot.Confirmed.{IsAuthorised, handle-IsAuthorised}
use almanak_keeperhub.Bot.Ordered.{first, then_turn, Ordered, handle-Ordered}

abbrev setup : Setup
setup = record { strategy_dir = "strategy"; chain = "base"; start_secret = "s3cret" }

abbrev ask : Event
ask = message "7" "/tick" (some 1) 2

abbrev confirm : Event
confirm = message "7" "/confirm" (some 20) 30

abbrev armed : System
armed = turn setup ask (idle (some "7"))

confirmed-job :
    (handle setup "7" "/confirm" (some 20) 30 armed.bot).1
    ≡ run (cli ("run" ∷ "-d" ∷ "strategy" ∷ "--once" ∷ "--fresh" ∷ []) "real tick" true)
unfolding handle handle_words answer_chat obey_word obey arm is_armed confirm_command
    confirm_pending launch start_held is_stale turn words_of before_at lower looked_up
confirmed-job = refl

turns-IsSingle_example :
    IsSingle (turns setup (ask ∷ confirm ∷ confirm ∷ ended 0 ∷ []) (idle (some "7")))
turns-IsSingle_example = turns-IsSingle setup (some "7") (ask ∷ confirm ∷ confirm ∷ ended 0 ∷ [])

handle-IsAuthorised_example :
    IsAuthorised setup "8" "/start s3cret" 30
      (idle none).bot
      (handle setup "8" "/start s3cret" (some 20) 30 (idle none).bot)
handle-IsAuthorised_example =
    handle-IsAuthorised setup "8" "/start s3cret" (some 20) 30 (idle none).bot

handle-Ordered_example :
    Ordered (ask ∷ []) "7" armed.bot 30 (handle setup "7" "/confirm" (some 20) 30 armed.bot)
handle-Ordered_example =
    handle-Ordered setup (some "7") (ask ∷ []) armed "7" "/confirm" (some 20) 30
      (then_turn ask first)
