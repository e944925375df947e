-- ===== src/Irc/Session.antt =====
-- irc/IRCSession.h and irc/IRCSession.cpp: one connection of an account. What libircclient answers
-- is a parameter, `Net`; what the session does to the outside is a list of effects.
pub mod Callbacks
pub mod Dispatch
pub mod Outgoing
use twitch_chat_worker.Base.{
  ℕ, ◌+◌, ◌-◌, ◌%◌, ◌^◌, Bool, true, false, List, [], ◌∷◌, ◌++◌, Option, none, some, leb, eqb,
  if◌then◌else◌, add32,
}
use twitch_chat_worker.Base.Fault.{◌>>=◌}
use twitch_chat_worker.Base.Key.{Text}
use twitch_chat_worker.Irc.Statistic.{Statistic, empty}

-- The calls of libircclient that write to the connection.
pub data Command : Type 0 where
  irc_cmd_quit irc_cmd_list : Option Text → Command
  irc_cmd_part irc_cmd_names irc_cmd_user_mode irc_cmd_nick irc_cmd_whois irc_cmd_ping
        irc_send_raw :
      Text → Command
  irc_cmd_join : Text → Option Text → Command
  irc_cmd_topic irc_cmd_invite irc_cmd_msg irc_cmd_notice irc_cmd_ctcp_request irc_cmd_ctcp_reply
        irc_cmd_me irc_cmd_channel_mode :
      Text → Text → Command
  irc_cmd_kick : Text → Text → Option Text → Command

pub record Session : Type 0 where
  -- the pointer
  pub address : ℕ
  pub id : ℕ
  pub stats_so5 : Statistic
  pub stats_selector : Statistic
  pub logged : Bool
  -- whether `pingTimer` holds a timer
  pub ping_timer : Bool
  pub last_ping : ℕ
  pub last_pong : ℕ

-- What libircclient answers for the session at an address while a handler runs.
pub record Net : Type 0 where
  pub is_connected : ℕ → Bool
  pub connects : ℕ → Bool
  pub accepts : ℕ → Command → Bool

pub record Message : Type 0 where
  pub channel : Text
  pub nickname : Text
  pub text : Text
  pub timestamp : ℕ

-- What a session or its client does to the outside.
pub data Effect : Type 0 where
  -- a command that libircclient has taken, a connection, `irc_disconnect`
  sent : ℕ → Command → Effect
  connected disconnected : ℕ → Effect
  -- messages to the client itself: at once, or after a delay
  send_connect : ℕ → ℕ → ℕ → Effect
  send_logged_in_check : ℕ → Effect
  send_check_joined : ℕ → List Text → Effect
  send_channel_joined : ℕ → Text → Effect
  -- to the message processor, the statistics collector and the notifier
  send_message : Message → Effect
  send_statistic : ℕ → Statistic → Effect
  send_channels : List (Text × ℕ) → Effect
  -- `IRCSelectorPool::addSession` and `removeSession`
  pool_add pool_remove : ℕ → Effect
  notify_disconnected : ℕ → Effect

unfoldable pub new_session : ℕ → ℕ → ℕ → Session
new_session address id now = record {
  address = address;
  id = id;
  stats_so5 = empty;
  stats_selector = empty;
  logged = false;
  ping_timer = false;
  last_ping = now;
  last_pong = now;
}

-- `internalIrcSend`: `true` if libircclient takes the command.
unfoldable pub internal_irc_send : Net → Command → Session → Bool × Session × List Effect
internal_irc_send net c s =
    if net.accepts s.address c
    then (
      true,
      record s { stats_so5 = record s.stats_so5 { out_count = add32 s.stats_so5.out_count 1 } },
      sent s.address c ∷ [],
    )
    else (false, s, [])

-- `connect`: the times and the flag are reset by a connection that succeeds only.
unfoldable pub connect : Net → ℕ → Session → Bool × Session × List Effect
connect net now s =
    if net.connects s.address
    then (
      true,
      record s {
        last_ping = now;
        last_pong = now;
        logged = false;
        stats_so5 = record s.stats_so5 { success = add32 s.stats_so5.success 1 };
      },
      connected s.address ∷ [],
    )
    else (
      false,
      record s { stats_so5 = record s.stats_so5 { failed = add32 s.stats_so5.failed 1 } },
      [],
    )

unfoldable pub set_ping_timer : Bool → Session → Session
set_ping_timer timer s = record s { ping_timer = timer }

-- `onDisconnected` up to the call of the listener, which belongs to the client
unfoldable pub drop_connection : Session → Session × List Effect
drop_connection s = (record s { ping_timer = false }, disconnected s.address ∷ [])

abbrev pub ping_pong_timeout_ms : ℕ
ping_pong_timeout_ms = 10500

-- `lastPingTime - lastPongTime >= PING_PONG_TIMEOUT_MS`, a difference of signed numbers
unfoldable pub timed_out : Session → Bool
timed_out s = leb (s.last_pong + ping_pong_timeout_ms) s.last_ping

-- `sendStats(statsFromSo5Thread)`
unfoldable pub send_so5_stats : Session → Session × List Effect
send_so5_stats s = (record s { stats_so5 = empty }, send_statistic s.id s.stats_so5 ∷ [])

unfoldable pub send_selector_stats : Session → Session × List Effect
send_selector_stats s =
    (record s { stats_selector = empty }, send_statistic s.id s.stats_selector ∷ [])

pub data Ping : Type 0 where
  timeout : Ping
  pinged : Bool → Ping

-- `sendPing` up to its call of `onDisconnected`, which the client makes on `timeout`
unfoldable pub send_ping : Net → ℕ → Text → Session → Ping × Session × List Effect
unfolding send_so5_stats timed_out internal_irc_send
send_ping net now host s =
    let (s', stats) = send_so5_stats s in
    let (done, s'', out) = internal_irc_send net (irc_cmd_ping host) s' in
    if timed_out s'
    then (timeout, s', stats)
    else if done
    then (pinged true, record s'' { last_ping = now }, stats ++ out)
    else (pinged false, s'', stats ++ out)

-- The counters that the selector thread keeps.
unfoldable pub on_send_data_len : ℕ → Session → Session
on_send_data_len len s = record s {
  stats_selector = record s.stats_selector {
    out_bytes = (s.stats_selector.out_bytes + len) % 2 ^ 64;
  };
}

unfoldable pub on_recv_data_len : ℕ → Session → Session
on_recv_data_len len s = record s {
  stats_selector = record s.stats_selector {
    in_bytes = (s.stats_selector.in_bytes + len) % 2 ^ 64;
  };
}

-- `++statsFromSelectorThread.commands.in.count`, the whole effect of the callbacks that only log
unfoldable pub count_in : Session → Session
count_in s = record s {
  stats_selector = record s.stats_selector { in_count = add32 s.stats_selector.in_count 1 };
}

-- `onLoggedIn` up to the call of the listener
unfoldable pub mark_logged_in : Session → Session
mark_logged_in s = record s {
  stats_selector = record s.stats_selector { loggedin = add32 s.stats_selector.loggedin 1 };
  logged = true;
}

-- `onPong`; the difference of signed times is stored as an `unsigned int`.
unfoldable pub on_pong : ℕ → Session → Session × List Effect
unfolding count_in send_selector_stats
on_pong now s =
    let rtt = (now % 2 ^ 32 + 2 ^ 32 - s.last_ping % 2 ^ 32) % 2 ^ 32 in
    send_selector_stats (
      count_in
        (record s { last_pong = now; stats_selector = record s.stats_selector { rtt = rtt } }))

-- `front()[0] == '#' ? front().substr(1) : front()`, undefined on an empty parameter (`none`)
unfoldable pub cut_hash : Text → Option Text
cut_hash [] = none
cut_hash (c ∷ name) = some (if eqb c b'#' then name else c ∷ name)

last_of : Text → List Text → Text
last_of x [] = x
last_of x (y ∷ ys) = last_of y ys

-- `onChannel` and `onCtcpAction`: the first parameter is the channel, the last one the text.
unfoldable pub on_channel : ℕ → Text → List Text → Session → Option (Session × List Effect)
unfolding count_in cut_hash last_of
on_channel now origin [] s = some (count_in s, [])
on_channel now origin (first ∷ params) s = do
  channel ← cut_hash first
  let message : Message = record {
    channel = channel;
    nickname = origin;
    text = last_of first params;
    timestamp = now;
  }
  some (count_in s, send_message message ∷ [])

-- `onJoin`: `params.front().substr(1)`, which throws on an empty parameter (`none`).
unfoldable pub on_join : List Text → Session → Option (Session × List Effect)
unfolding count_in
on_join [] s = some (count_in s, [])
on_join ([] ∷ params) s = none
on_join ((c ∷ name) ∷ params) s = some (count_in s, send_channel_joined s.address name ∷ [])
