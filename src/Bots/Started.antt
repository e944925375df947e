-- ===== src/Bots/Started.antt =====
-- bot/BotsEnvironment.cpp: the boxes of the bots that have been added, and who a chat message gets to.
use twitch_chat_worker.Base.{
  ℕ, ◌≡◌, refl, ap, ◌∙◌, not, ◌&&◌, false, Option-cases, Bool-cases, inl, inr, none, List, [], ◌∷◌,
  ◌++◌, if◌then◌else◌, arith,
}
use twitch_chat_worker.Base.Key.{Text, text_key, number_key, int_key, ◌==◌, eq_iff}
use twitch_chat_worker.Base.Dict.{lookup, has, lookup-emplace}
use twitch_chat_worker.DbController.BotRows.{BotConfig}
use twitch_chat_worker.MessageProcessor.{ChatMessage}
use twitch_chat_worker.Bots.{
  Environment, new_engine, add_bot, add_bots, ignored, send_to_box, evt_chat_message,
}
use twitch_chat_worker.Bots.Deliveries.{send_to_box-append}

-- A message to a channel without a box has no engine to get to.
abbrev pub IsBoxed : Environment → Type 0
IsBoxed env =
    (m : ChatMessage) → lookup m.channel env.bot_boxes ≡ none → send_to_box m env.engines ≡ []

-- A new bot's own channel has a box, and no box goes away.
no_box :
    (config : BotConfig) (channel : Text) (env : Environment)
    → lookup channel (add_bot config env).bot_boxes ≡ none
    → (lookup channel env.bot_boxes ≡ none) × ((config.channel == channel) ≡ false)
unfolding add_bot has
no_box config channel env h =
    let emplaced = lookup-emplace config.channel channel config.channel env.bot_boxes in
    elim (Bool-cases (config.channel == channel)) [
      | inr e ↦ (ground (arith, e, h, emplaced), e)
      | inl e ↦
          let same : lookup config.channel env.bot_boxes ≡ lookup channel env.bot_boxes =
            ap (λ k. lookup k env.bot_boxes) ((eq_iff config.channel channel).0 e) in
          elim (Option-cases (lookup channel env.bot_boxes)) [
            | inl p ↦ absurd (ground (arith, e, h, emplaced, same, p))
            | inr (box, p) ↦ absurd (ground (arith, e, h, emplaced, same, p))
          ]
    ]

send_to_box-elsewhere :
    (n : ℕ) (m : ChatMessage) (config : BotConfig)
    → (config.channel == m.channel) ≡ false
    → send_to_box m (new_engine n config.channel config ∷ []) ≡ []
unfolding send_to_box new_engine
send_to_box-elsewhere n m config h = rw (h) refl

add_bot-IsBoxed :
    (config : BotConfig) (env : Environment) → IsBoxed env → IsBoxed (add_bot config env)
unfolding add_bot
add_bot-IsBoxed config env boxed m h =
    let (none_before, elsewhere) = no_box config m.channel env h in
    send_to_box-append m env.engines (new_engine env.fresh config.channel config ∷ [])
    ∙ ap (λ ds. ds ++ send_to_box m (new_engine env.fresh config.channel config ∷ []))
        (boxed m none_before)
    ∙ send_to_box-elsewhere env.fresh m config elsewhere

pub add_bots-IsBoxed :
    (configs : List BotConfig) (env : Environment) → IsBoxed env → IsBoxed (add_bots configs env)
unfolding add_bots
add_bots-IsBoxed [] env boxed = boxed
add_bots-IsBoxed (config ∷ configs) env boxed =
    add_bots-IsBoxed configs (add_bot config env) (add_bot-IsBoxed config env boxed)

pub ignore_users-add_bots :
    (configs : List BotConfig) (env : Environment)
    → (add_bots configs env).ignore_users ≡ env.ignore_users
unfolding add_bots add_bot
ignore_users-add_bots [] env = refl
ignore_users-add_bots (config ∷ configs) env = ignore_users-add_bots configs (add_bot config env)

pub evt_chat_message-IsBoxed :
    (m : ChatMessage) (env : Environment)
    → IsBoxed env
    → evt_chat_message m env
      ≡ (if m.valid && not (ignored m.user env.ignore_users) then send_to_box m env.engines else [])
unfolding evt_chat_message
evt_chat_message-IsBoxed m env boxed = elim (Option-cases (lookup m.channel env.bot_boxes)) [
  | inl p ↦ ground (arith, p, boxed m p)
  | inr (box, p) ↦ ground (arith, p)
]
