-- ===== src/Irc/Session/Callbacks.antt =====
-- The callbacks of `IRCSession` for what the server sends (irc/IRCSession.cpp), and what they count.
use twitch_chat_worker.Base.{ℕ, ◌+◌, ◌%◌, ◌^◌, ◌≡◌, Option, some, List, [], ◌∷◌, ◌++◌, arith}
use twitch_chat_worker.Base.Key.{Text, text_key, number_key, int_key}
use twitch_chat_worker.Base.Fault.{OnSome}
use twitch_chat_worker.Irc.Session.{
  Session, Effect, send_statistic, count_in, cut_hash, on_channel, on_join, on_pong,
  send_selector_stats,
}

-- What arrives; `origin` and the parameters where the callback uses them.
pub data ServerEvent : Type 0 where
  nick quit part mode umode topic kick privmsg notice channel_notice invite ctcp_req ctcp_rep
        unknown numeric dcc_chat_req dcc_send_req :
      ServerEvent
  join : List Text → ServerEvent
  channel ctcp_action : Text → List Text → ServerEvent
  pong : ServerEvent

-- The callback for what arrives at the time `now`.
unfoldable pub on_event : ℕ → ServerEvent → Session → Option (Session × List Effect)
unfolding on_channel on_join on_pong
on_event now (join params) s = on_join params s
on_event now (channel origin params) s = on_channel now origin params s
on_event now (ctcp_action origin params) s = on_channel now origin params s
on_event now pong s = some (on_pong now s)
on_event now e s = some (count_in s, [])

-- The incoming commands in the statistics that were handed to the listener.
count_of : Effect → ℕ
count_of (send_statistic id stats) = stats.in_count
count_of e = 0

unfoldable pub reported : List Effect → ℕ
unfolding count_of
reported [] = 0
reported (e ∷ out) = count_of e + reported out

pub reported-append : (xs ys : List Effect) → reported (xs ++ ys) ≡ reported xs + reported ys
unfolding reported
reported-append [] ys = omega arith
reported-append (x ∷ xs) ys = omega (arith, reported-append xs ys)

-- Of what a callback leaves: in what it reports and in what it keeps, `n` more commands.
abbrev pub Counts : ℕ → Session → Session × List Effect → Type 0
Counts n s x =
    (reported x.1 + x.0.stats_selector.in_count) % 2 ^ 32 ≡ (s.stats_selector.in_count + n) % 2 ^ 32

on_channel-Counts :
    (now : ℕ) (origin : Text) (params : List Text) (s : Session)
    → OnSome (Counts 1 s) (on_channel now origin params s)
unfolding on_channel reported count_in cut_hash
on_channel-Counts now origin [] s = omega arith
on_channel-Counts now origin ([] ∷ params) s = tt
on_channel-Counts now origin ((c ∷ name) ∷ params) s = omega arith

on_join-Counts : (params : List Text) (s : Session) → OnSome (Counts 1 s) (on_join params s)
unfolding on_join reported count_in
on_join-Counts [] s = omega arith
on_join-Counts ([] ∷ params) s = tt
on_join-Counts ((c ∷ name) ∷ params) s = omega arith

on_pong-Counts : (now : ℕ) (s : Session) → Counts 1 s (on_pong now s)
unfolding on_pong reported count_in send_selector_stats
on_pong-Counts now s = omega arith

count_in-Counts : (s : Session) → Counts 1 s (count_in s, [])
unfolding count_in reported
count_in-Counts s = omega arith

pub on_event-Counts :
    (now : ℕ) (e : ServerEvent) (s : Session) → OnSome (Counts 1 s) (on_event now e s)
unfolding on_event
on_event-Counts now (join params) s = on_join-Counts params s
on_event-Counts now (channel origin params) s = on_channel-Counts now origin params s
on_event-Counts now (ctcp_action origin params) s = on_channel-Counts now origin params s
on_event-Counts now pong s = on_pong-Counts now s
on_event-Counts now nick s = count_in-Counts s
on_event-Counts now quit s = count_in-Counts s
on_event-Counts now part s = count_in-Counts s
on_event-Counts now mode s = count_in-Counts s
on_event-Counts now umode s = count_in-Counts s
on_event-Counts now topic s = count_in-Counts s
on_event-Counts now kick s = count_in-Counts s
on_event-Counts now privmsg s = count_in-Counts s
on_event-Counts now notice s = count_in-Counts s
on_event-Counts now channel_notice s = count_in-Counts s
on_event-Counts now invite s = count_in-Counts s
on_event-Counts now ctcp_req s = count_in-Counts s
on_event-Counts now ctcp_rep s = count_in-Counts s
on_event-Counts now unknown s = count_in-Counts s
on_event-Counts now numeric s = count_in-Counts s
on_event-Counts now dcc_chat_req s = count_in-Counts s
on_event-Counts now dcc_send_req s = count_in-Counts s
