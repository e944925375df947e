-- ===== src/Bots/Answers/Lines.antt =====
-- bot/BotsEnvironment.cpp and bot/BotEngine.cpp: what the bots answer to a line of IRC, with the filters on
-- its way.
use twitch_chat_worker.Base.Key.{text_key, number_key, int_key}
use twitch_chat_worker.Irc.Controller.{Controller}
