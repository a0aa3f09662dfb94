-- ===== src/Bot/Confirmed.antt =====
-- bot.py: no real action without the owner's command and confirmation.
use almanak_keeperhub.Prelude.{
  ℕ, String, ◌≡◌, refl, sym, ◌∙◌, ap, ◌⊎◌, inl, inr, true, not, ◌&&◌, Option, none, some, List, [],
  ◌∷◌, str_eq, eq_iff, Bool-cases,
}
use almanak_keeperhub.Python.Text.{lower}
use almanak_keeperhub.Bot.{Setup, OperatorBot, Reply, say, view, run, fail, looked_up, commands}
use almanak_keeperhub.Bot.Words.{words_of, before_at, is_ascii}
use almanak_keeperhub.Bot.Handle.{handle, handle_words, answer_chat, claim, is_stale}
use almanak_keeperhub.Bot.Fair.{is_unarmed, IsConfirmed, Launches, Pends, IsFair, obey_word-IsFair}

-- The word of a text that `handle` looks up.
abbrev pub command_word : List String → String
command_word [] = ""
command_word (word ∷ args) = before_at (lower word)

abbrev pub Owned : Setup → String → String → OperatorBot → OperatorBot → Type 0
Owned setup chat_id text before after =
    (after.owner_chat_id ≡ before.owner_chat_id)
    ⊎ ((before.owner_chat_id ≡ none)
        × (after.owner_chat_id ≡ some chat_id)
        × (word : String) × (args : List String) × (words_of text
            ≡ word ∷ setup.start_secret ∷ args))

abbrev pub Arms : String → OperatorBot → String → ℕ → OperatorBot → Type 0
Arms chat_id before word now after =
    (before.owner_chat_id ≡ some chat_id) × Pends (looked_up word commands) before now after

abbrev pub Launched : String → OperatorBot → ℕ → OperatorBot × Reply → Type 0
Launched chat_id before now (after, run job) =
    (before.owner_chat_id ≡ some chat_id)
    × ((is_unarmed job ≡ true) ⊎ IsConfirmed before now after job)
Launched chat_id before now (after, reply) = Unit

-- What one message of a chat does to the bot, and what it starts.
pub record IsAuthorised (setup : Setup) (chat_id text : String) (now : ℕ) (before : OperatorBot)
    (after : OperatorBot × Reply) : Type 0 where
  -- An owner stays, and the bot is claimed by the secret only.
  pub owner : Owned setup chat_id text before after.0
  -- Only the owner changes what is pending.
  pub pends :
      (after.0.pending ≡ before.pending)
      ⊎ Arms chat_id before (command_word (words_of text)) now after.0
  pub launches : Launched chat_id before now after

fair-IsAuthorised :
    (setup : Setup) (chat_id text word : String) (now : ℕ) (bot : OperatorBot)
    (after : OperatorBot × Reply)
    → bot.owner_chat_id ≡ some chat_id
    → word ≡ command_word (words_of text)
    → IsFair (looked_up word commands) bot now after
    → IsAuthorised setup chat_id text now bot after
fair-IsAuthorised setup chat_id text word now bot after owned same fair = record {
  owner = inl fair.owner;
  pends = inr (owned, rw (sym same) fair.pends);
  launches = launched after fair.launches;
}
  where
    launched : (x : OperatorBot × Reply) → Launches bot now x → Launched chat_id bot now x
    launched (b, run job) l = (owned, l)
    launched (b, say t) l = tt
    launched (b, view n a) l = tt
    launched (b, fail e) l = tt

quiet :
    (setup : Setup) (chat_id text : String) (now : ℕ) (bot : OperatorBot) (reply : String)
    → IsAuthorised setup chat_id text now bot (bot, say reply)
quiet setup chat_id text now bot reply = record {
  owner = inl refl;
  pends = inl refl;
  launches = tt;
}

claim-IsAuthorised :
    (setup : Setup) (chat_id text word first : String) (args : List String) (now : ℕ)
    (bot : OperatorBot)
    → bot.owner_chat_id ≡ none
    → words_of text ≡ first ∷ args
    → IsAuthorised setup chat_id text now bot (claim setup chat_id word args bot)
unfolding claim
claim-IsAuthorised setup chat_id text word first [] now bot free e =
    quiet setup chat_id text now bot _
claim-IsAuthorised setup chat_id text word first (given ∷ args) now bot free e =
    elim (Bool-cases (str_eq word "/start")) [
      | inr other ↦ rw other (quiet setup chat_id text now bot _)
      | inl start ↦
          rw start (elim (Bool-cases (not (is_ascii given && is_ascii setup.start_secret))) [
            | inl odd ↦ rw odd record { owner = inl refl; pends = inl refl; launches = tt }
            | inr ascii ↦ rw ascii (elim (Bool-cases (str_eq given setup.start_secret)) [
              | inr wrong ↦ rw wrong (quiet setup chat_id text now bot _)
              | inl right ↦ rw right record {
                owner = inr (
                  free,
                  refl,
                  first,
                  args,
                  rw (sym ((eq_iff given setup.start_secret).0 right)) e,
                );
                pends = inl refl;
                launches = tt;
              }
            ])
          ])
    ]

-- A bot does with a message of a chat only what its owner asks for: who owns it changes only for a
-- chat that gives the secret while no chat does, only the owner's commands change what is pending,
-- and a job is started only for the owner, and only if it is a dry run, a decision that is stale on
-- purpose or a demo, or the owner confirms an action that was armed at most 60 seconds before.
pub handle-IsAuthorised :
    (setup : Setup) (chat_id text : String) (sent_at : Option ℕ) (now : ℕ) (bot : OperatorBot)
    → IsAuthorised setup chat_id text now bot (handle setup chat_id text sent_at now bot)
unfolding handle
handle-IsAuthorised setup chat_id text sent_at now bot = elim (Bool-cases (is_stale sent_at now)) [
  | inl e ↦ rw e (quiet setup chat_id text now bot "")
  | inr e ↦ rw e (by_words (words_of text) refl)
]
  where
    by_owner :
        (word : String) (args : List String) (owner : Option String)
        → words_of text ≡ word ∷ args
        → bot.owner_chat_id ≡ owner
        → IsAuthorised setup chat_id text now bot
            (answer_chat setup chat_id (before_at (lower word)) args now bot owner)
    by_owner word args none e owned =
        unfold answer_chat in claim-IsAuthorised setup chat_id text _ word args now bot owned e
    by_owner word args (some owner) e owned =
        unfold answer_chat in
        elim (Bool-cases (str_eq chat_id owner)) [
          | inr other ↦ rw other (quiet setup chat_id text now bot _)
          | inl same ↦ rw same (
              fair-IsAuthorised setup chat_id text (before_at (lower word)) now bot _
                (owned ∙ ap some (sym ((eq_iff chat_id owner).0 same))) (rw e refl)
                (obey_word-IsFair setup args now bot (before_at (lower word))))
        ]

    by_words :
        (words : List String)
        → words_of text ≡ words
        → IsAuthorised setup chat_id text now bot (handle_words setup chat_id words now bot)
    by_words [] e = unfold handle_words in quiet setup chat_id text now bot _
    by_words (word ∷ args) e = unfold handle_words in by_owner word args bot.owner_chat_id e refl
