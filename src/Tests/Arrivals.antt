-- ===== src/Tests/Arrivals.antt =====
-- irc/IRCSession.cpp: a session that receives a message, a pong and a numeric reply.
use twitch_chat_worker.Base.{ℕ, ◌+◌, ◌%◌, ◌^◌, ◌≡◌, refl, true, false, none, some, List, [], ◌∷◌}
use twitch_chat_worker.Base.Key.{Text, codes, text_key, number_key, int_key}
use twitch_chat_worker.Irc.Statistic.{empty}
use twitch_chat_worker.Irc.Session.{
  Session, Effect, send_message, send_statistic, new_session, count_in, cut_hash, on_channel,
  on_pong, send_selector_stats,
}
use twitch_chat_worker.Irc.Session.Callbacks.{on_event, reported}
use twitch_chat_worker.Irc.Session.Dispatch.{
  Slot, event_log, event_channel, event_pong, event_numeric, Passed, callbacks, on_log, call, calls,
}
use twitch_chat_worker.Irc.Session.Dispatch.Counting.{calls-in_count}

abbrev passed : List Text → Passed
passed params = record { origin = codes "bob"; params = params; len = 0; line_length = 40 }

abbrev arrived : List (ℕ × Slot × Passed)
arrived =
    (6, event_log, passed [])
    ∷ (7, event_channel, passed (codes "#a" ∷ codes "hi" ∷ []))
    ∷ (8, event_pong, passed [])
    ∷ (9, event_numeric, passed [])
    ∷ []

-- A line longer than the buffer, when traces are shown.
too_long : on_log true 3000 ≡ none
unfolding on_log
too_long = refl

abbrev session : Session
session = record {
  address = 10;
  id = 0;
  stats_so5 = empty;
  stats_selector = record empty { in_count = 1 };
  logged = false;
  ping_timer = false;
  last_ping = 0;
  last_pong = 8;
}

abbrev effects : List Effect
effects =
    send_message
      (record { channel = codes "a"; nickname = codes "bob"; text = codes "hi"; timestamp = 7 })
    ∷ send_statistic 0 (record empty { in_count = 2; rtt = 8 })
    ∷ []

arrives : calls true arrived (new_session 10 0 0) ≡ some (session, effects)
unfolding calls call callbacks on_log on_event on_channel on_pong count_in cut_hash
    send_selector_stats new_session
arrives = refl

calls-in_count_example : (reported effects + 1) % 2 ^ 32 ≡ 3 % 2 ^ 32
unfolding new_session
calls-in_count_example = calls-in_count true arrived (new_session 10 0 0) session effects arrives
