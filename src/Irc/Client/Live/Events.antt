-- ===== src/Irc/Client/Live/Events.antt =====
-- The session pointers in the channel list, over the messages and callbacks of `IRCClient`.
use twitch_chat_worker.Base.{
  ℕ, ◌≡◌, subst, inl, inr, Bool, true, Bool-cases, List, [], ◌∷◌, ◌++◌, Option, none, some,
  if◌then◌else◌,
}
use twitch_chat_worker.Base.Fault.{◌>>=◌}
use twitch_chat_worker.Base.Fault.{OnSome, OnSome-bind, OnSome-any}
use twitch_chat_worker.Base.Key.{Text}
use twitch_chat_worker.Irc.Channels.{
  Channel, extract_channel, reserve_channels_for_session, select_not_joined_channels,
}
use twitch_chat_worker.Irc.Session
use twitch_chat_worker.Irc.Session.{
  Session, Net, Effect, set_ping_timer, Ping, timeout, pinged, mark_logged_in, send_check_joined,
  send_logged_in_check,
}
use twitch_chat_worker.Irc.Session.Outgoing.{send_join, send_part, send_message_to, send_raw}
use twitch_chat_worker.Irc.Client.State.{
  Client, Step, find_session, on_session, modify, for_each, on_pointer, forget,
}
use twitch_chat_worker.Irc.Client.Handlers.{
  session_disconnected, retry, evt_connect, evt_leave_channel, evt_send_message, evt_send_irc,
  evt_send_ping, evt_gather_stats, evt_channel_joined, rejoin, evt_check_joined_channels,
  session_logged_in,
}
use twitch_chat_worker.Irc.Client.Events.{
  Event, reload, connect, logged_in_check, join_channel, leave_channel, send_message, send_irc,
  send_ping, gather_stats, channel_joined, check_joined_channels, logged_in, lost_connection, step,
}
use twitch_chat_worker.Irc.Client.Live.{
  addresses, Same, Same-trans, on_session-Same, modify-Same, forget-Same, for_each-Same,
}
use twitch_chat_worker.Irc.Client.Live.Channels.{
  AllLive, AllLive-mark_channel_joined, AllLive-extract_channel, AllLive-reserve, listed,
}
use twitch_chat_worker.Irc.Client.Live.Steps.{
  IsLive, After, Same-IsLive, on_pointer-Same, send_by_next-Same, After-Same, evt_reload-IsLive,
  session_disconnected-IsLive, evt_logged_in_check-IsLive, evt_join_channel-IsLive, modify-listed,
}

evt_connect-IsLive :
    (net : Net) (now a attempt : ℕ) (c : Client)
    → IsLive c
    → After (evt_connect net now a attempt c)
unfolding evt_connect After
evt_connect-IsLive net now a attempt c l = elim (Bool-cases (net.is_connected a)) [
  | inl e ↦ rw (e) (
      OnSome-bind (λ _. Unit) (λ x. IsLive x.0) (find_session a c.sessions) (λ s. some (c, []))
        (OnSome-any (find_session a c.sessions)) (λ s _. l))
  | inr e ↦ rw (e) (
      OnSome-bind (λ x. Same c x.1) (λ x. IsLive x.0) (on_session a (Session.connect net now) c) _
        (on_session-Same a (Session.connect net now) c)
        (λ x k.
          OnSome-bind {X = List Effect} {Y = Client × List Effect} (λ _. Unit) (λ y. IsLive y.0)
            (if x.0 then some (send_logged_in_check a ∷ []) else retry c.attempts_limit a attempt)
            (λ more. some (x.1, x.2 ++ more)) (OnSome-any _) (λ more _. Same-IsLive c x.1 k l)))
]

sent-IsLive :
    (c : Client) (r : Option (Bool × Client × List Effect))
    → OnSome (λ x. Same c x.1) r
    → IsLive c
    → After (forget r)
sent-IsLive c r h l = After-Same c (forget r) (forget-Same c r h) l

evt_leave_channel-IsLive :
    (net : Net) (name : Text) (c : Client) → IsLive c → After (evt_leave_channel net name c)
unfolding evt_leave_channel After
evt_leave_channel-IsLive net name c l = by_channel (extract_channel name c.channels).0
  where
    c' : Client
    c' = record c { channels = (extract_channel name c.channels).1 }

    by_channel :
        (found : Option Channel)
        → After (elim found as (λ _. Step) [
          | none ↦ some (c, [])
          | some ch ↦ forget (on_pointer ch.session (send_part net name) c')
        ])
    by_channel none = l
    by_channel (some ch) =
        sent-IsLive c' (on_pointer ch.session (send_part net name) c')
          (on_pointer-Same ch.session (send_part net name) c')
          (AllLive-extract_channel (addresses c.sessions) name c.channels l)

evt_send_ping-IsLive :
    (net : Net) (now a : ℕ) (host : Text) (c : Client)
    → IsLive c
    → After (evt_send_ping net now a host c)
unfolding evt_send_ping After
evt_send_ping-IsLive net now a host c l =
    OnSome-bind (λ x. Same c x.1) (λ x. IsLive x.0)
      (on_session a (Session.send_ping net now host) c) _
      (on_session-Same a (Session.send_ping net now host) c)
      (λ x k. by_ping x.1 x.2 x.0 (Same-IsLive c x.1 k l))
  where
    by_ping :
        (c' : Client) (out : List Effect) (ping : Ping)
        → IsLive c'
        → After (elim ping as (λ _. Step) [
          | timeout ↦ (do (c'', out') ← session_disconnected a c'; some (c'', out ++ out'))
          | pinged done ↦ some (c', out)
        ])
    by_ping c' out timeout k =
        OnSome-bind (λ x. IsLive x.0) (λ x. IsLive x.0) (session_disconnected a c')
          (λ x. some (x.0, out ++ x.1)) (session_disconnected-IsLive a c' k) (λ x m. m)
    by_ping c' out (pinged done) k = k

rejoin-Same :
    (net : Net) (a : ℕ) (name : Text) (c : Client) → OnSome (λ x. Same c x.0) (rejoin net a name c)
unfolding rejoin
rejoin-Same net a name c =
    OnSome-bind (λ x. Same c x.0) (λ x. Same c x.0) (forget (on_session a (send_part net name) c)) _
      (forget-Same c _ (on_session-Same a (send_part net name) c))
      (λ x k.
        OnSome-bind (λ y. Same x.0 y.0) (λ y. Same c y.0)
          (forget (on_session a (send_join net name none) x.0)) (λ y. some (y.0, x.1 ++ y.1))
          (forget-Same x.0 _ (on_session-Same a (send_join net name none) x.0))
          (λ y m. Same-trans c x.0 y.0 k m))

evt_check_joined_channels-IsLive :
    (net : Net) (a : ℕ) (names : List Text) (c : Client)
    → IsLive c
    → After (evt_check_joined_channels net a names c)
unfolding evt_check_joined_channels After
evt_check_joined_channels-IsLive net a names c l =
    by_names (select_not_joined_channels names c.channels)
  where
    by_names :
        (names' : List Text)
        → After (elim names' as (λ _. Step) [
          | [] ↦ some (c, [])
          | first ∷ others ↦ (do
            (c', out) ← for_each (first ∷ others) (rejoin net a) c
            some (c', out ++ send_check_joined a (first ∷ others) ∷ []))
        ])
    by_names [] = l
    by_names (first ∷ others) =
        OnSome-bind (λ x. Same c x.0) (λ x. IsLive x.0) (for_each (first ∷ others) (rejoin net a) c)
          (λ x. some (x.0, x.1 ++ send_check_joined a (first ∷ others) ∷ []))
          (for_each-Same (first ∷ others) (rejoin net a) (rejoin-Same net a) c)
          (λ x k. Same-IsLive c x.0 k l)

-- What a session that logs in does once its channels are reserved.
joins-IsLive :
    (net : Net) (a : ℕ) (names : List Text) (c : Client)
    → IsLive c
    → After (do
      (c2, out) ← for_each names (λ name c'. forget (on_session a (send_join net name none) c')) c
      (c3, _) ← modify a (λ s. (set_ping_timer true s, [])) c2
      some (c3, out ++ send_check_joined a names ∷ []))
unfolding After
joins-IsLive net a names c l =
    OnSome-bind (λ x. Same c x.0) (λ x. IsLive x.0)
      (for_each names (λ name c'. forget (on_session a (send_join net name none) c')) c) _
      (for_each-Same names _
        (λ name c'. forget-Same c' _ (on_session-Same a (send_join net name none) c')) c)
      (λ x k.
        OnSome-bind (λ y. Same x.0 y.0) (λ y. IsLive y.0)
          (modify a (λ s. (set_ping_timer true s, [])) x.0)
          (λ y. some (y.0, x.1 ++ send_check_joined a names ∷ []))
          (modify-Same a (λ s. (set_ping_timer true s, [])) x.0)
          (λ y m. Same-IsLive x.0 y.0 m (Same-IsLive c x.0 k l)))

session_logged_in-IsLive :
    (net : Net) (a : ℕ) (c : Client) → IsLive c → After (session_logged_in net a c)
unfolding session_logged_in After
session_logged_in-IsLive net a c l =
    OnSome-bind (λ x. Same c x.0 × (listed a (addresses x.0.sessions) ≡ true)) (λ x. IsLive x.0)
      (modify a (λ s. (mark_logged_in s, [])) c) _ (modify-listed a (λ s. (mark_logged_in s, [])) c)
      (λ x k.
        OnSome-bind (λ y. AllLive (addresses x.0.sessions) y.1) (λ y. IsLive y.0)
          (reserve_channels_for_session x.0.session_count a x.0.channels) _
          (AllLive-reserve (addresses x.0.sessions) x.0.session_count a x.0.channels k.1
            (Same-IsLive c x.0 k.0 l))
          (λ y m. joins-IsLive net a y.0 (record x.0 { channels = y.1 }) m))

step-After : (net : Net) (now : ℕ) (e : Event) (c : Client) → IsLive c → After (step net now e c)
unfolding step After evt_send_message evt_send_irc evt_channel_joined evt_gather_stats
step-After net now (reload n names) c l = evt_reload-IsLive now n names c
step-After net now (connect a attempt) c l = evt_connect-IsLive net now a attempt c l
step-After net now (logged_in_check a) c l = evt_logged_in_check-IsLive a c l
step-After net now (join_channel name) c l = evt_join_channel-IsLive net name c l
step-After net now (leave_channel name) c l = evt_leave_channel-IsLive net name c l
step-After net now (send_message name text) c l =
    sent-IsLive c _ (send_by_next-Same net (send_message_to net name text) c) l
step-After net now (send_irc message) c l =
    sent-IsLive c _ (send_by_next-Same net (send_raw net message) c) l
step-After net now (send_ping a host) c l = evt_send_ping-IsLive net now a host c l
step-After net now gather_stats c l = l
step-After net now (channel_joined name) c l =
    AllLive-mark_channel_joined (addresses c.sessions) name c.channels l
step-After net now (check_joined_channels a names) c l =
    evt_check_joined_channels-IsLive net a names c l
step-After net now (logged_in a) c l = session_logged_in-IsLive net a c l
step-After net now (lost_connection a) c l = session_disconnected-IsLive a c l

-- Whatever message or callback the client handles without a fault, and whatever libircclient
-- answers, the pointers of its channels are null or lead to sessions that it holds, if they were
-- so before.
pub step-IsLive :
    (net : Net) (now : ℕ) (e : Event) (c c' : Client) (out : List Effect)
    → IsLive c
    → step net now e c ≡ some (c', out)
    → IsLive c'
unfolding After
step-IsLive net now e c c' out l h = subst After h (step-After net now e c l)
