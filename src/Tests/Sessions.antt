-- ===== src/Tests/Sessions.antt =====
-- irc/IRCClient.cpp and irc/IRCChannelList.cpp: an account with a few channels and sessions.
use twitch_chat_worker.Base.{
  ℕ, ◌<◌, ◌≡◌, ◌≢◌, refl, true, false, List, [], ◌∷◌, Option, none, some, take, arith, eqb,
}
use twitch_chat_worker.Base.Int.{pos, to_size}
use twitch_chat_worker.Base.Key.{Text, codes}
use twitch_chat_worker.Irc.Channels.{
  Channel, ChannelMap, reserve_channels_for_session, detach_and_part_from_session,
}
use twitch_chat_worker.Irc.Channels.Reserve.{
  unattached, attach_first, reserve_all, every_channel_reserved, reserve_channels_for_session_lem,
}
use twitch_chat_worker.Irc.Channels.Attach.{served_by, served_by-detach_and_part_from_session}
use twitch_chat_worker.Irc.Statistic.{Statistic}
use twitch_chat_worker.Irc.Session.{Net, sent, irc_cmd_msg, new_session}
use twitch_chat_worker.Irc.Client.Commands.{send_message}
use twitch_chat_worker.Irc.Client.Delivery.{send_message_delivers}
use twitch_chat_worker.Irc.Client.State.{
  Client, get_next_session_round_robin, get_next_connected_session_round_robin,
}
use twitch_chat_worker.Irc.Client.Handlers.{evt_reload}
use twitch_chat_worker.Irc.Client.Events.{reload, step}
use twitch_chat_worker.Irc.Client.RoundRobin.{get_next_connected_session_round_robin_finds}
use twitch_chat_worker.Irc.Client.Reload.{evt_reload_leaves_index}
use twitch_chat_worker.Irc.Client.Live.Steps.{IsLive}
use twitch_chat_worker.Irc.Client.Live.Events.{step-IsLive}

abbrev channel : Text → Option ℕ → Text × Channel
channel name session = (name, record { name = name; session = session; joined = false })

-- The second channel is served by the session at 11.
abbrev channels : ChannelMap
channels =
    channel (codes "a") none
    ∷ channel (codes "b") (some 11)
    ∷ channel (codes "c") none
    ∷ channel (codes "d") none
    ∷ []

-- Three sessions; the index is at the last one.
abbrev client : Client
client = record {
  session_count = pos 3;
  attempts_limit = 30;
  channels = channels;
  sessions = new_session 10 0 0 ∷ new_session 11 1 0 ∷ new_session 12 2 0 ∷ [];
  cur = 2;
  fresh = 13;
}

-- Only the session at 11 is connected.
abbrev net : Net
net = record { is_connected = λ a. eqb a 11; connects = λ a. true; accepts = λ a c. true }

abbrev names : List Text
names = codes "a" ∷ codes "e" ∷ []

two_sessions : to_size (pos 2) ≢ 0
two_sessions h = absurd (omega (arith, h))

every_channel_reserved_example :
    (m' : ChannelMap) × (reserve_all (pos 2) (10 ∷ 12 ∷ []) channels ≡ some m')
    × (unattached m' ≡ [])
every_channel_reserved_example =
    every_channel_reserved (pos 2) (10 ∷ 12 ∷ []) channels two_sessions (omega arith)

reserve_channels_for_session_lem_example :
    reserve_channels_for_session (pos 2) 10 channels
    ≡ some (take 3 (unattached channels), attach_first 3 10 channels)
reserve_channels_for_session_lem_example =
    reserve_channels_for_session_lem (pos 2) 10 channels two_sessions

served_by-detach_and_part_from_session_example :
    served_by 11 (detach_and_part_from_session 11 channels) ≡ []
served_by-detach_and_part_from_session_example =
    served_by-detach_and_part_from_session 11 11 channels

step-IsLive_example : IsLive (evt_reload 5 (pos 2) names client).0
unfolding step new_session
step-IsLive_example =
    step-IsLive net 5 (reload (pos 2) names) client (evt_reload 5 (pos 2) names client).0
      (evt_reload 5 (pos 2) names client).1 (tt, (refl, (tt, (tt, tt)))) refl

get_next_connected_session_round_robin_finds_example :
    (a : ℕ) × (k : ℕ) × (get_next_connected_session_round_robin net client
      ≡ some (some a, record client { cur = k }))
    × (net.is_connected a ≡ true)
    × (k < 3)
unfolding new_session
get_next_connected_session_round_robin_finds_example =
    get_next_connected_session_round_robin_finds net client 1 (new_session 11 1 0) (omega arith)
      (omega arith) refl refl

evt_reload_leaves_index_example :
    get_next_session_round_robin (evt_reload 5 (pos 2) names client).0 ≡ none
evt_reload_leaves_index_example =
    evt_reload_leaves_index 5 2 names client (omega arith) (omega arith)

abbrev counted : ℕ → Statistic
counted n = record {
  success = n;
  failed = 1;
  loggedin = n;
  in_bytes = 100;
  in_count = n;
  out_bytes = 7;
  join = n;
  part = 0;
  privmsg = 2;
  out_count = n;
  rtt = n;
}

send_message_delivers_example :
    (a : ℕ) × (c' : Client) × (send_message net (codes "#a") (codes "hi") client
      ≡ some (true, c', sent a (irc_cmd_msg (codes "#a") (codes "hi")) ∷ []))
    × (net.is_connected a ≡ true)
unfolding new_session
send_message_delivers_example =
    send_message_delivers net client (codes "#a") (codes "hi") 1 (new_session 11 1 0) (λ a. refl)
      (omega arith) (omega arith) refl refl
