-- ===== src/HttpController.antt =====
-- HttpController.cpp and HttpControllerEvents.h: which event a request becomes. The path comes split at
-- its slashes.
pub mod Paths
-- The events of HttpControllerEvents.h.
use twitch_chat_worker.Base.{
  ℕ, zero, suc, ◌+◌, ◌-◌, ◌*◌, ◌/◌, ◌%◌, ◌^◌, ◌≤◌, ◌<◌, ◌≡◌, refl, sym, ap, ap₂, subst, ◌∙◌, ◌≢◌,
  ◌↔◌, ◌⊎◌, inl, inr, Bool, true, false, ◌&&◌, ◌||◌, not, Option, none, some, List, [], ◌∷◌, ◌++◌,
  map, append-nil, append_assoc, arith, u32_mod, ltb, leb, eqb, if◌then◌else◌, Bool-cases, eqb_iff,
  length, get_elem?, take, filter, All, All-append,
}
use twitch_chat_worker.Base.Key.{Text, codes, text_key, number_key, int_key, ◌==◌, eq_iff, eq_refl}
use twitch_chat_worker.Base.Int.{ℤ, pos, negsuc}
use twitch_chat_worker.Base.Dict.{
  Dict, lookup, has, insert_at, emplace, update, erase, lookup-emplace, lookup-update, lookup-erase,
  value_or, lookup-update-emplace,
}
use twitch_chat_worker.Base.Fault.{◌>>=◌, OnSome, OnSome-bind, OnSome-any, OnSome-map}

pub data Event : Type 0 where
  stats_irc stats_account stats_channel stats_bot stats_storage stats_db stats_so5disp : Event
  irc_reload irc_custom : Event
  channel_join channel_leave channel_message : Event
  account_reload account_add account_remove : Event
  app_shutdown app_version : Event
  bot_add bot_remove bot_reload bot_reloadall : Event

-- The event is sent to the listeners, or the request is answered at once.
pub data Handled : Type 0 where
  sends : Event → Handled
  bad_request not_found : Handled

-- A chain of `match_handle`, the name with its event.
unfoldable pub match_handle : Text → List (Text × Event) → Handled
match_handle name [] = not_found
match_handle name ((arg, event) ∷ args) =
    let rest = match_handle name args in if name == arg then sends event else rest

abbrev pub stats_events : List (Text × Event)
stats_events =
    (codes "irc", stats_irc)
    ∷ (codes "account", stats_account)
    ∷ (codes "channel", stats_channel)
    ∷ (codes "bot", stats_bot)
    ∷ (codes "storage", stats_storage)
    ∷ (codes "db", stats_db)
    ∷ (codes "so5disp", stats_so5disp)
    ∷ []

abbrev pub irc_events : List (Text × Event)
irc_events = (codes "reload", irc_reload) ∷ (codes "custom", irc_custom) ∷ []

abbrev pub channel_events : List (Text × Event)
channel_events =
    (codes "join", channel_join)
    ∷ (codes "leave", channel_leave)
    ∷ (codes "message", channel_message)
    ∷ []

abbrev pub account_events : List (Text × Event)
account_events =
    (codes "reload", account_reload)
    ∷ (codes "add", account_add)
    ∷ (codes "remove", account_remove)
    ∷ []

abbrev pub app_events : List (Text × Event)
app_events = (codes "shutdown", app_shutdown) ∷ (codes "version", app_version) ∷ []

abbrev pub bot_events : List (Text × Event)
bot_events =
    (codes "add", bot_add)
    ∷ (codes "remove", bot_remove)
    ∷ (codes "reload", bot_reload)
    ∷ (codes "reloadall", bot_reloadall)
    ∷ []

-- After "irc", "channel" or "account": the third part.
unfoldable pub match_third : Text → List Text → Handled
unfolding match_handle
match_third second [] = not_found
match_third second (third ∷ rest) =
    if second == codes "channel"
    then match_handle third channel_events
    else if second == codes "account"
    then match_handle third account_events
    else not_found

abbrev pub or_else : Handled → Handled → Handled
or_else (sends event) next = sends event
or_else bad_request next = bad_request
or_else not_found next = next

-- After "irc": the second part, and those that follow.
unfoldable pub match_irc : Text → List Text → Handled
unfolding match_handle match_third
match_irc second rest = or_else (match_handle second irc_events) (match_third second rest)

unfoldable pub handle_request : List Text → Handled
unfolding match_handle match_irc
handle_request [] = bad_request
handle_request (first ∷ []) = bad_request
handle_request (first ∷ second ∷ rest) =
    if first == codes "stats"
    then match_handle second stats_events
    else if first == codes "irc"
    then match_irc second rest
    else if first == codes "app"
    then match_handle second app_events
    else if first == codes "bot"
    then match_handle second bot_events
    else not_found
