-- ===== src/Bots/Answers.antt =====
-- A line of IRC on its way through MessageProcessor.cpp, bot/BotsEnvironment.cpp, bot/BotEngine.cpp, the
-- handlers of the bots and irc/IRCController.cpp. What nlohmann::json reads of a handler's additional
-- text, what a Lua script does, `absl::StartsWith` and the language detector are parameters.
pub mod Lines
use twitch_chat_worker.Base.{
  ℕ, ◌≡◌, refl, sym, ap, ◌∙◌, inl, inr, Bool, true, false, ◌&&◌, ◌||◌, not, Option, none, some,
  List, [], ◌∷◌, ◌++◌, All, append_assoc, append-nil, arith, if◌then◌else◌, Bool-cases,
}
use twitch_chat_worker.Base.Key.{Text, text_key, number_key, int_key, ◌==◌}
use twitch_chat_worker.Base.Int.{ℤ, pos}
use twitch_chat_worker.Base.Dict.{lookup, value_or}
use twitch_chat_worker.Base.Fault.{◌>>=◌}
use twitch_chat_worker.Uri.{is_empty}
use twitch_chat_worker.DbController.BotRows.{HandlerConfig, BotConfig}
use twitch_chat_worker.MessageProcessor.{ChatMessage, transform}
use twitch_chat_worker.Irc.Session.{Message}
use twitch_chat_worker.Bots.{
  Delivery, lua, command, unknown, handler_type, load_handlers, new_engine, each_handler, no_bots,
  add_bot, add_bots, ignored, evt_bot_message, send_to_box, evt_chat_message,
}
use twitch_chat_worker.Bots.Deliveries.{send_to_box-append}
use twitch_chat_worker.Bots.Started.{
  add_bots-IsBoxed, ignore_users-add_bots, evt_chat_message-IsBoxed,
}
use twitch_chat_worker.Bots.Command.{
  Fields, Additional, discarded, throws, fields, Out, send, log, new_handler, handle_bot_message,
  answer_text,
}
use twitch_chat_worker.Irc.Controller.{Controller, Sent, evt_send_message}
use twitch_chat_worker.Irc.Controller.Runs.{Reachable, message_for, evt_send_message-Reachable}

-- What the controller makes of what handlers send to it, in order.
abbrev pub deliver : List Out → Controller → Option (List Sent)
deliver [] c = some []
deliver (send user channel text ∷ outs) c = do
  out ← evt_send_message user channel text c
  rest ← deliver outs c
  some (out ++ rest)
deliver (log user bot handler text ∷ outs) c = deliver outs c

-- What the messages of handlers are to be: each goes to the client of its account, and is counted.
abbrev pub sent_for : Controller → List Out → List Sent
sent_for c [] = []
sent_for c (send user channel text ∷ outs) =
    message_for (lookup user c.by_name) user channel text ++ sent_for c outs
sent_for c (log user bot handler text ∷ outs) = sent_for c outs

pub deliver-Reachable :
    (c : Controller) (outs : List Out) → Reachable c → deliver outs c ≡ some (sent_for c outs)
deliver-Reachable c [] r = refl
deliver-Reachable c (send user channel text ∷ outs) r =
    rw (evt_send_message-Reachable c user channel text r, deliver-Reachable c outs r) refl
deliver-Reachable c (log user bot handler text ∷ outs) r = deliver-Reachable c outs r

-- Whether a user is among some.
abbrev pub is_among : Text → List Text → Bool
is_among user [] = false
is_among user (u ∷ users) = u == user || is_among user users

pub ignored-is_among : (user : Text) (users : List Text) → ignored user users ≡ is_among user users
unfolding ignored
ignored-is_among user [] = refl
ignored-is_among user (u ∷ users) = ground (arith, ignored-is_among user users)

module _ (parse : Text → Additional) (starts_with : Text → Text → Bool)
    (run_lua : HandlerConfig → BotConfig → ChatMessage → List Out) where
  -- A handler gets a message; `none` is an exception of its constructor.
  unfoldable pub react : ChatMessage → Delivery → Option (List Out)
  unfolding handler_type new_handler handle_bot_message
  react m d = elim (handler_type d.handler.type_id) [
    | lua ↦ some (run_lua d.handler d.config m)
    | command ↦ do
      h ← new_handler d.handler.id d.handler.text (parse d.handler.additional)
      some (handle_bot_message starts_with h d.config m)
    | unknown ↦ some []
  ]

  unfoldable pub reactions : ChatMessage → List Delivery → Option (List Out)
  unfolding react
  reactions m [] = some []
  reactions m (d ∷ ds) = do outs ← react m d; rest ← reactions m ds; some (outs ++ rest)

  -- What a command is to answer: the command and the user come from `additional`.
  abbrev pub reply : Additional → HandlerConfig → BotConfig → ChatMessage → List Out
  reply discarded h config m = []
  reply throws h config m = []
  reply (fields f) h config m =
      let command = value_or [] f.route_text in
      let user = value_or [] f.route_user in
      let mention = if value_or false f.params_mention then b'@' ∷ m.user ++ b' ' ∷ [] else [] in
      if not (is_empty h.text)
        && not (is_empty command)
        && starts_with m.text command
        && (is_empty user || m.user == user)
      then send config.account config.channel (mention ++ h.text)
        ∷ log config.user_id config.bot_id h.id (mention ++ h.text)
        ∷ []
      else []

  -- What a handler is to do, by its type.
  abbrev pub response : HandlerConfig → BotConfig → ChatMessage → List Out
  response h config m =
      if h.type_id == pos 1
      then run_lua h config m
      else if h.type_id == pos 2
      then reply (parse h.additional) h config m
      else []

  abbrev pub responses : List HandlerConfig → BotConfig → ChatMessage → List Out
  responses [] config m = []
  responses (h ∷ hs) config m = response h config m ++ responses hs config m

  -- What the bots are to do about a message that is not dropped: those of its channel whose account
  -- has not written it, in order.
  abbrev pub bots_responses : List BotConfig → ChatMessage → List Out
  bots_responses [] m = []
  bots_responses (config ∷ configs) m =
      (if config.channel == m.channel && not (m.user == config.account)
        then responses config.handlers config m
        else [])
      ++ bots_responses configs m

  -- Each handler can be made of its configuration.
  abbrev pub AllConstruct : List HandlerConfig → Type 0
  AllConstruct hs = All (λ h. ¬ (parse h.additional ≡ throws)) hs
