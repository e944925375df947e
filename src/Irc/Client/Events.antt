-- ===== src/Irc/Client/Events.antt =====
-- The messages and callbacks that `IRCClient` handles one at a time (`so_define_agent` and the
-- `IRCSessionListener` interface), as steps of one machine.
use twitch_chat_worker.Base.{ℕ, List, [], some}
use twitch_chat_worker.Base.Int.{ℤ}
use twitch_chat_worker.Base.Key.{Text}
use twitch_chat_worker.Irc.Session.{Net}
use twitch_chat_worker.Irc.Client.State.{Client, Step}
use twitch_chat_worker.Irc.Client.Handlers.{
  evt_reload, evt_connect, evt_logged_in_check, evt_join_channel, evt_leave_channel,
  evt_send_message, evt_send_irc, evt_send_ping, evt_gather_stats, evt_channel_joined,
  evt_check_joined_channels, session_logged_in, session_disconnected,
}

pub data Event : Type 0 where
  -- the new count of sessions, and the names that the data base has
  reload : ℤ → List Text → Event
  -- the session, and the attempt
  connect : ℕ → ℕ → Event
  logged_in_check : ℕ → Event
  join_channel leave_channel : Text → Event
  send_message : Text → Text → Event
  send_irc : Text → Event
  -- the session, and the host
  send_ping : ℕ → Text → Event
  gather_stats : Event
  channel_joined : Text → Event
  check_joined_channels : ℕ → List Text → Event
  -- the callbacks of a session
  logged_in lost_connection : ℕ → Event

-- One message or callback, at the time `now`.
unfoldable pub step : Net → ℕ → Event → Client → Step
step net now (reload n names) c = some (evt_reload now n names c)
step net now (connect a attempt) c = evt_connect net now a attempt c
step net now (logged_in_check a) c = evt_logged_in_check a c
step net now (join_channel name) c = evt_join_channel net name c
step net now (leave_channel name) c = evt_leave_channel net name c
step net now (send_message name text) c = evt_send_message net name text c
step net now (send_irc message) c = evt_send_irc net message c
step net now (send_ping a host) c = evt_send_ping net now a host c
step net now gather_stats c = some (evt_gather_stats c)
step net now (channel_joined name) c = some (evt_channel_joined name c, [])
step net now (check_joined_channels a names) c = evt_check_joined_channels net a names c
step net now (logged_in a) c = session_logged_in net a c
step net now (lost_connection a) c = session_disconnected a c
