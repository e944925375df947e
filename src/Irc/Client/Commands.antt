-- ===== src/Irc/Client/Commands.antt =====
-- The commands of `IRCClient`, its part of `IRCSessionInterface`. All but `sendQuit`, `sendPart` and
-- `sendPing` go out on the next connected session.
use twitch_chat_worker.Base.{Bool, true, List, Option, none, some}
use twitch_chat_worker.Base.Fault.{◌>>=◌}
use twitch_chat_worker.Base.Key.{Text}
use twitch_chat_worker.Irc.Session.{Net, Effect}
use twitch_chat_worker.Irc.Session.Outgoing
use twitch_chat_worker.Irc.Client.State.{Client, Step, send_by_next, send_to_all}

-- What a command answers, the client, and the effects.
abbrev pub Answer : Type 0
Answer = Option (Bool × Client × List Effect)

-- `true`, whatever the sessions have answered
unfoldable pub succeed : Step → Answer
succeed r = r >>= λ p. some (true, p.0, p.1)

unfoldable pub send_quit : Net → Text → Client → Answer
unfolding succeed
send_quit net reason c = succeed (send_to_all (Outgoing.send_quit net reason) c)

unfoldable pub send_part : Net → Text → Client → Answer
unfolding succeed
send_part net channel c = succeed (send_to_all (Outgoing.send_part net channel) c)

unfoldable pub send_join : Net → Text → Client → Answer
send_join net channel c = send_by_next net (Outgoing.send_join net channel none) c

unfoldable pub send_join_with_key : Net → Text → Text → Client → Answer
send_join_with_key net channel channel_key c =
    send_by_next net (Outgoing.send_join net channel (some channel_key)) c

unfoldable pub send_topic : Net → Text → Text → Client → Answer
send_topic net channel topic c = send_by_next net (Outgoing.send_topic net channel topic) c

unfoldable pub send_names : Net → Text → Client → Answer
send_names net channel c = send_by_next net (Outgoing.send_names net channel) c

unfoldable pub send_list : Net → Text → Client → Answer
send_list net channel c = send_by_next net (Outgoing.send_list net channel) c

unfoldable pub send_invite : Net → Text → Text → Client → Answer
send_invite net channel nick c = send_by_next net (Outgoing.send_invite net channel nick) c

unfoldable pub send_kick : Net → Text → Text → Text → Client → Answer
send_kick net channel nick comment c =
    send_by_next net (Outgoing.send_kick net channel nick comment) c

unfoldable pub send_message : Net → Text → Text → Client → Answer
send_message net channel text c = send_by_next net (Outgoing.send_message_to net channel text) c

unfoldable pub send_notice : Net → Text → Text → Client → Answer
send_notice net channel text c = send_by_next net (Outgoing.send_notice net channel text) c

unfoldable pub send_me : Net → Text → Text → Client → Answer
send_me net channel text c = send_by_next net (Outgoing.send_me net channel text) c

unfoldable pub send_channel_mode : Net → Text → Text → Client → Answer
send_channel_mode net channel mode c =
    send_by_next net (Outgoing.send_channel_mode net channel mode) c

unfoldable pub send_ctcp_request : Net → Text → Text → Client → Answer
send_ctcp_request net nick reply c = send_by_next net (Outgoing.send_ctcp_request net nick reply) c

unfoldable pub send_ctcp_reply : Net → Text → Text → Client → Answer
send_ctcp_reply net nick reply c = send_by_next net (Outgoing.send_ctcp_reply net nick reply) c

unfoldable pub send_user_mode : Net → Text → Client → Answer
send_user_mode net mode c = send_by_next net (Outgoing.send_user_mode net mode) c

unfoldable pub send_nick : Net → Text → Client → Answer
send_nick net newnick c = send_by_next net (Outgoing.send_nick net newnick) c

unfoldable pub send_whois : Net → Text → Client → Answer
send_whois net nick c = send_by_next net (Outgoing.send_whois net nick) c

unfoldable pub send_raw : Net → Text → Client → Answer
send_raw net raw c = send_by_next net (Outgoing.send_raw net raw) c
