-- ===== src/Tests/Messages.antt =====
-- bot/BotsEnvironment.cpp: two bots on one channel.
use twitch_chat_worker.Base.{◌≡◌, refl, true, List, [], ◌∷◌, arith, filter}
use twitch_chat_worker.Base.Key.{codes, number_key, int_key, text_eq, int_eq}
use twitch_chat_worker.Base.Dict.{lookup}
use twitch_chat_worker.Base.Int.{ℤ, pos}
use twitch_chat_worker.DbController.BotRows.{HandlerConfig, BotConfig, no_config}
use twitch_chat_worker.MessageProcessor.{ChatMessage}
use twitch_chat_worker.Bots.{Engine, Environment, add_bot, remove_id, ignored, evt_chat_message}
use twitch_chat_worker.Bots.Deliveries.{
  is_known, delivered_to, remove_id-delivered_to, add_bot-delivered_to,
}

abbrev handler : ℤ → ℤ → HandlerConfig
handler id type = record { id = id; type_id = type; text = codes "hello"; additional = [] }

abbrev config : BotConfig
config = record no_config {
  bot_id = pos 7;
  account = codes "bot";
  channel = codes "a";
  handlers = handler (pos 1) (pos 1) ∷ handler (pos 2) (pos 3) ∷ handler (pos 3) (pos 2) ∷ [];
}

abbrev made : List HandlerConfig
made = handler (pos 1) (pos 1) ∷ handler (pos 3) (pos 2) ∷ []

abbrev engine : Engine
engine = record { address = 0; box = codes "a"; config = config; handlers = made }

abbrev other : Engine
other = record {
  address = 1;
  box = codes "a";
  config = record config { bot_id = pos 8 };
  handlers = made;
}

abbrev environment : Environment
environment = record {
  ignore_users = codes "service" ∷ [];
  bots_by_id = (pos 7, 0) ∷ (pos 8, 1) ∷ [];
  bot_boxes = (codes "a", codes "a") ∷ [];
  engines = engine ∷ other ∷ [];
  fresh = 2;
}

abbrev message : ChatMessage
message = record {
  user = codes "bob";
  channel = codes "a";
  text = codes "hello";
  lang = codes "UNKNOWN";
  timestamp = 0;
  valid = true;
}

remove_id-delivered_to_example :
    delivered_to 0 (evt_chat_message message (remove_id (pos 7) environment).1) ≡ []
unfolding lookup int_eq
remove_id-delivered_to_example = remove_id-delivered_to (pos 7) 0 0 message environment refl

add_bot-delivered_to_example :
    delivered_to 2
      (evt_chat_message message (add_bot (record config { bot_id = pos 9 }) environment))
    ≡ filter is_known config.handlers
unfolding ignored text_eq
add_bot-delivered_to_example =
    add_bot-delivered_to (record config { bot_id = pos 9 }) message environment
      (omega arith, (omega arith, tt)) refl refl refl refl

-- The type 3 is none of the known ones.
only_known : filter is_known config.handlers ≡ made
unfolding int_eq
only_known = refl
