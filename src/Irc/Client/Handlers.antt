-- ===== src/Irc/Client/Handlers.antt =====
-- The handlers of `IRCClient`, and the callbacks of its sessions.
use twitch_chat_worker.Base.{
  ℕ, zero, suc, ◌+◌, ◌^◌, true, List, [], ◌∷◌, ◌++◌, Option, none, some, length, ltb, eqb,
  if◌then◌else◌,
}
use twitch_chat_worker.Base.Fault.{◌>>=◌}
use twitch_chat_worker.Base.Int.{ℤ, at_least}
use twitch_chat_worker.Base.Key.{Text}
use twitch_chat_worker.Irc.Channels.{
  Channel, ChannelMap, new_channel, load, in_list, add_channel, extract_channel,
  mark_channel_joined, select_not_joined_channels, reserve_channels_for_session,
  detach_and_part_from_session, dump_channels_to_session_id,
}
use twitch_chat_worker.Irc.Session.{
  Session, Net, Effect, disconnected, send_connect, send_logged_in_check, send_check_joined,
  send_channels, notify_disconnected, pool_add, pool_remove, new_session, connect, set_ping_timer,
  drop_connection, timeout, pinged, send_ping, mark_logged_in,
}
use twitch_chat_worker.Irc.Session.Outgoing.{send_join, send_part, send_message_to, send_raw}
use twitch_chat_worker.Irc.Client.State.{
  Client, Step, find_session, on_session, modify, for_each, get_next_connected_session_round_robin,
  on_pointer, send_by_next, forget,
}

unfoldable pub add_new_session : ℕ → Client → Client × List Effect
add_new_session now c =
    let s = new_session c.fresh (length c.sessions) now in
    (
      record c { sessions = c.sessions ++ s ∷ []; fresh = suc c.fresh },
      pool_add s.address ∷ send_connect s.address 0 0 ∷ [],
    )

unfoldable pub add_new_sessions : ℕ → ℕ → Client → Client × List Effect
add_new_sessions zero now c = (c, [])
add_new_sessions (suc n) now c =
    let (c', out) = add_new_session now c in
    let (c'', out') = add_new_sessions n now c' in (c'', out ++ out')

abbrev pub min_sess_count : ℕ
min_sess_count = 1

-- `so_evt_start`, with the names that the data base has for the account
unfoldable pub so_evt_start : ℕ → List Text → Client → Client × List Effect
so_evt_start now names c =
    add_new_sessions (at_least min_sess_count c.session_count) now
      (record c { channels = load names })

-- `pool->removeSession(session); session->disconnect();` for each session
unfoldable pub so_evt_finish : List Session → List Effect
so_evt_finish [] = []
so_evt_finish (s ∷ ss) = pool_remove s.address ∷ disconnected s.address ∷ so_evt_finish ss

-- `evtReload`; the sessions end, and with them their ping timers.
unfoldable pub evt_reload : ℕ → ℤ → List Text → Client → Client × List Effect
unfolding so_evt_finish
evt_reload now session_count names c =
    let (c', out) =
      add_new_sessions (at_least min_sess_count session_count) now
        (record c { session_count = session_count; sessions = []; channels = load names }) in
    (c', so_evt_finish c.sessions ++ out)

-- The listener's `onDisconnected`
unfoldable pub on_disconnected : ℕ → Client → Client × List Effect
on_disconnected a c = (
  record c { channels = detach_and_part_from_session a c.channels },
  notify_disconnected a ∷ send_connect a 0 0 ∷ [],
)

-- `IRCSession::onDisconnected`, with the listener's part
unfoldable pub session_disconnected : ℕ → Client → Step
unfolding on_disconnected
session_disconnected a c = do
  (c', out) ← modify a drop_connection c
  let (c'', out') = on_disconnected a c'
  some (c'', out ++ out')

-- The reconnection after a failure: `none` is a shift by 31 or more.
unfoldable pub retry : ℕ → ℕ → ℕ → Option (List Effect)
retry limit a attempt =
    let next = if eqb (attempt + 1) limit then 0 else attempt + 1 in
    if ltb next 31 then some (send_connect a next (2 ^ next) ∷ []) else none

unfoldable pub evt_connect : Net → ℕ → ℕ → ℕ → Client → Step
unfolding retry
evt_connect net now a attempt c =
    if net.is_connected a then (find_session a c.sessions >>= λ s. some (c, [])) else (do
      (done, c', out) ← on_session a (connect net now) c
      more ← if done then some (send_logged_in_check a ∷ []) else retry c.attempts_limit a attempt
      some (c', out ++ more))

unfoldable pub evt_logged_in_check : ℕ → Client → Step
unfolding session_disconnected
evt_logged_in_check a c = do
  s ← find_session a c.sessions
  if s.logged then some (c, []) else session_disconnected a c

unfoldable pub join_to_channel : Net → Text → Option ℕ → Client → Step
join_to_channel net name session c = if in_list name c.channels then some (c, []) else (do
  (done, c', out) ← on_pointer session (send_join net name none) c
  let channel : Channel = record (new_channel name) { session = session }
  let channels : ChannelMap = if done then add_channel channel c'.channels else c'.channels
  some (record c' { channels = channels }, out))

unfoldable pub evt_join_channel : Net → Text → Client → Step
unfolding join_to_channel
evt_join_channel net name c = do
  (session, c') ← get_next_connected_session_round_robin net c
  join_to_channel net name session c'

-- `leaveFromChannel`, the body of `evtLeaveChannel`
unfoldable pub evt_leave_channel : Net → Text → Client → Step
evt_leave_channel net name c =
    let (found, rest) = extract_channel name c.channels in
    elim found [
      | none ↦ some (c, [])
      | some ch ↦ forget (on_pointer ch.session (send_part net name) (record c { channels = rest }))
    ]

unfoldable pub evt_send_message : Net → Text → Text → Client → Step
evt_send_message net channel text c = forget (send_by_next net (send_message_to net channel text) c)

unfoldable pub evt_send_irc : Net → Text → Client → Step
evt_send_irc net message c = forget (send_by_next net (send_raw net message) c)

-- `evtSendPING`, and what `sendPing` does to the client when the last pong is too old
unfoldable pub evt_send_ping : Net → ℕ → ℕ → Text → Client → Step
unfolding session_disconnected
evt_send_ping net now a host c = do
  (ping, c', out) ← on_session a (send_ping net now host) c
  elim ping [
    | timeout ↦ (do (c'', out') ← session_disconnected a c'; some (c'', out ++ out'))
    | pinged done ↦ some (c', out)
  ]

-- `getId` through the pointers that the channels hold; 0 stands for a pointer that leads nowhere.
unfoldable pub id_of : List Session → ℕ → ℕ
id_of ss a = elim (find_session a ss) [ none ↦ 0 | some s ↦ s.id ]

unfoldable pub evt_gather_stats : Client → Client × List Effect
unfolding id_of
evt_gather_stats c =
    (c, send_channels (dump_channels_to_session_id (id_of c.sessions) c.channels) ∷ [])

unfoldable pub evt_channel_joined : Text → Client → Client
evt_channel_joined name c = record c { channels = mark_channel_joined name c.channels }

-- `sendPart` and `sendJoin` of one channel on the session
unfoldable pub rejoin : Net → ℕ → Text → Client → Step
rejoin net a name c = do
  (c', out) ← forget (on_session a (send_part net name) c)
  (c'', out') ← forget (on_session a (send_join net name none) c')
  some (c'', out ++ out')

unfoldable pub evt_check_joined_channels : Net → ℕ → List Text → Client → Step
unfolding rejoin
evt_check_joined_channels net a names c = elim (select_not_joined_channels names c.channels) [
  | [] ↦ some (c, [])
  | first ∷ others ↦ (do
    (c', out) ← for_each (first ∷ others) (rejoin net a) c
    some (c', out ++ send_check_joined a (first ∷ others) ∷ []))
]

-- `IRCSession::onLoggedIn` and the listener's `onLoggedIn`
unfoldable pub session_logged_in : Net → ℕ → Client → Step
session_logged_in net a c = do
  (c1, _) ← modify a (λ s. (mark_logged_in s, [])) c
  (names, channels) ← reserve_channels_for_session c1.session_count a c1.channels
  (c2, out) ←
      for_each names (λ name c'. forget (on_session a (send_join net name none) c'))
        (record c1 { channels = channels })
  (c3, _) ← modify a (λ s. (set_ping_timer true s, [])) c2
  some (c3, out ++ send_check_joined a names ∷ [])
