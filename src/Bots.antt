-- ===== src/Bots.antt =====
-- bot/BotsEnvironment.cpp and bot/BotEngine.cpp: the bots by their ids, and how a chat message reaches the
-- handlers of a bot. An agent is a number, its address; what the data base returns is an argument. An
-- engine handles its shutdown and reload messages at once; the result of a message is
-- which handlers get it, in order.
pub mod Answers
pub mod Command
pub mod Deliveries
pub mod Started
use twitch_chat_worker.Base.{
  ℕ, suc, Bool, true, false, Option, none, some, List, [], ◌∷◌, ◌++◌, eqb, if◌then◌else◌,
}
use twitch_chat_worker.Base.Key.{Text, text_key, number_key, int_key, ◌==◌}
use twitch_chat_worker.Base.Int.{ℤ, pos}
use twitch_chat_worker.Base.Dict.{Dict, lookup, emplace, erase}
use twitch_chat_worker.DbController.BotRows.{HandlerConfig, BotConfig}
use twitch_chat_worker.MessageProcessor.{ChatMessage}

-- `BotEventHandler::HandlerType`
pub data HandlerType : Type 0 where
  lua command unknown : HandlerType

-- `static_cast<HandlerType>`, where any other number goes to the `default` of the switch
unfoldable pub handler_type : ℤ → HandlerType
handler_type t = if t == pos 1 then lua else if t == pos 2 then command else unknown

-- A `BotEngine`: the channel whose box it is subscribed to, its configuration, and its handlers, each
-- by the configuration that its constructor gets.
pub record Engine : Type 0 where
  pub address : ℕ
  pub box : Text
  pub config : BotConfig
  pub handlers : List HandlerConfig

pub record Environment : Type 0 where
  pub ignore_users : List Text
  pub bots_by_id : Dict ℤ ℕ
  -- the channels with a box
  pub bot_boxes : Dict Text Text
  -- the agents that run
  pub engines : List Engine
  pub fresh : ℕ

unfoldable pub load_handlers : List HandlerConfig → List HandlerConfig
unfolding handler_type
load_handlers [] = []
load_handlers (h ∷ hs) =
    let rest = load_handlers hs in
    elim (handler_type h.type_id) [ lua ↦ h ∷ rest | command ↦ h ∷ rest | unknown ↦ rest ]

-- The constructor of `BotEngine`
unfoldable pub new_engine : ℕ → Text → BotConfig → Engine
unfolding load_handlers
new_engine address box config = record {
  address = address;
  box = box;
  config = config;
  handlers = load_handlers config.handlers;
}

-- The engine's `evtReload`: it stays subscribed to the box of its first configuration.
unfoldable pub reload_engine : BotConfig → Engine → Engine
unfolding load_handlers
reload_engine config e = record e { config = config; handlers = load_handlers config.handlers }

unfoldable pub reload_at : ℕ → BotConfig → List Engine → List Engine
unfolding reload_engine
reload_at a config [] = []
reload_at a config (e ∷ es) =
    (if eqb e.address a then reload_engine config e else e) ∷ reload_at a config es

-- The engine's `evtShutdown`
unfoldable pub shut_down : ℕ → List Engine → List Engine
shut_down a [] = []
shut_down a (e ∷ es) = let rest = shut_down a es in if eqb e.address a then rest else e ∷ rest

-- The constructor, over the service accounts that are loaded.
abbrev pub no_bots : List Text → Environment
no_bots users = record {
  ignore_users = users;
  bots_by_id = [];
  bot_boxes = [];
  engines = [];
  fresh = 0;
}

unfoldable pub add_bot : BotConfig → Environment → Environment
unfolding new_engine
add_bot config env = record env {
  bot_boxes = emplace config.channel config.channel env.bot_boxes;
  engines = env.engines ++ new_engine env.fresh config.channel config ∷ [];
  bots_by_id = emplace config.bot_id env.fresh env.bots_by_id;
  fresh = suc env.fresh;
}

unfoldable pub add_bots : List BotConfig → Environment → Environment
unfolding add_bot
add_bots [] env = env
add_bots (config ∷ configs) env = add_bots configs (add_bot config env)

-- What `json::parse` and the reading of "id" give: nothing, an exception, no number, or the id.
pub data Body : Type 0 where
  discarded unreadable no_number : Body
  bot : ℤ → Body

-- The status and what is answered with it; `none` is an exception.
pub data Answer : Type 0 where
  failed_to_parse wrong_bot_id already_added not_found not_found_in_db done : Answer

abbrev pub Reply : Type 0
Reply = Option (Answer × Environment)

-- The configuration as it is loaded: `bot_id` is 0 if there is none.
unfoldable pub add_id : ℤ → BotConfig → Environment → Answer × Environment
unfolding add_bot
add_id id config env = elim (lookup id env.bots_by_id) [
  | some a ↦ (already_added, env)
  | none ↦ if config.bot_id == pos 0 then (not_found_in_db, env) else (done, add_bot config env)
]

unfoldable pub evt_http_add : (ℤ → BotConfig) → Body → Environment → Reply
unfolding add_id
evt_http_add load discarded env = some (failed_to_parse, env)
evt_http_add load unreadable env = none
evt_http_add load no_number env = some (wrong_bot_id, env)
evt_http_add load (bot id) env = some (add_id id (load id) env)

unfoldable pub remove_id : ℤ → Environment → Answer × Environment
remove_id id env = elim (lookup id env.bots_by_id) [
  | none ↦ (not_found, env)
  | some a ↦
      (done, record env { engines = shut_down a env.engines; bots_by_id = erase id env.bots_by_id })
]

unfoldable pub evt_http_remove : Body → Environment → Reply
unfolding remove_id
evt_http_remove discarded env = some (failed_to_parse, env)
evt_http_remove unreadable env = none
evt_http_remove no_number env = some (wrong_bot_id, env)
evt_http_remove (bot id) env = some (remove_id id env)

unfoldable pub reload_id : ℤ → BotConfig → Environment → Answer × Environment
unfolding reload_at
reload_id id config env = elim (lookup id env.bots_by_id) [
  | none ↦ (not_found, env)
  | some a ↦
      if config.bot_id == pos 0
      then (not_found_in_db, env)
      else (done, record env { engines = reload_at a config env.engines })
]

unfoldable pub evt_http_reload : (ℤ → BotConfig) → Body → Environment → Reply
unfolding reload_id
evt_http_reload load discarded env = some (failed_to_parse, env)
evt_http_reload load unreadable env = none
evt_http_reload load no_number env = some (wrong_bot_id, env)
evt_http_reload load (bot id) env = some (reload_id id (load id) env)

-- The loop of `evtHttpReloadAll` over the configurations by their ids.
unfoldable pub reload_all : List (ℤ × BotConfig) → Environment → Environment
unfolding add_bot reload_at
reload_all [] env = env
reload_all ((id, config) ∷ configs) env =
    let env' : Environment = elim (lookup id env.bots_by_id) [
      | none ↦ add_bot config env
      | some a ↦ record env { engines = reload_at a config env.engines }
    ] in
    reload_all configs env'

unfoldable pub ignored : Text → List Text → Bool
ignored user [] = false
ignored user (u ∷ users) = if u == user then true else ignored user users

-- What gets a message: the engine at an address, one of its handlers, and the bot's configuration,
-- which the handler reads.
pub record Delivery : Type 0 where
  pub engine : ℕ
  pub handler : HandlerConfig
  pub config : BotConfig

-- The engine at an address, with each of the handlers.
unfoldable pub each_handler : ℕ → BotConfig → List HandlerConfig → List Delivery
each_handler a config [] = []
each_handler a config (h ∷ hs) =
    record { engine = a; handler = h; config = config } ∷ each_handler a config hs

-- The engine's `evtBotMessage`: the handlers that get the message.
unfoldable pub evt_bot_message : ChatMessage → Engine → List Delivery
unfolding each_handler
evt_bot_message m e =
    if m.user == e.config.account then [] else each_handler e.address e.config e.handlers

-- The engines that are subscribed to a channel's box.
unfoldable pub send_to_box : ChatMessage → List Engine → List Delivery
unfolding evt_bot_message
send_to_box m [] = []
send_to_box m (e ∷ es) =
    let rest = send_to_box m es in if e.box == m.channel then evt_bot_message m e ++ rest else rest

unfoldable pub evt_chat_message : ChatMessage → Environment → List Delivery
unfolding send_to_box ignored
evt_chat_message m env =
    if m.valid
    then (if ignored m.user env.ignore_users then [] else elim (lookup m.channel env.bot_boxes) [
      | none ↦ []
      | some box ↦ send_to_box m env.engines
    ])
    else []
