-- ===== src/Irc/Session/Outgoing.antt =====
-- irc/IRCSession.cpp, `sendQuit` to `sendUserMode`: what the session writes to the connection.
use twitch_chat_worker.Base.{Bool, List, [], ◌∷◌, Option, none, some, add32}
use twitch_chat_worker.Base.Key.{Text}
use twitch_chat_worker.Irc.Session.{
  Session, Net, Effect, internal_irc_send, irc_cmd_quit, irc_cmd_list, irc_cmd_part, irc_cmd_names,
  irc_cmd_user_mode, irc_cmd_nick, irc_send_raw, irc_cmd_join, irc_cmd_topic, irc_cmd_invite,
  irc_cmd_msg, irc_cmd_notice, irc_cmd_ctcp_request, irc_cmd_ctcp_reply, irc_cmd_me,
  irc_cmd_channel_mode, irc_cmd_kick,
}

-- `s.empty() ? nullptr : s.c_str()`
unfoldable nullable : Text → Option Text
nullable [] = none
nullable (c ∷ t) = some (c ∷ t)

unfoldable pub send_quit : Net → Text → Session → Bool × Session × List Effect
unfolding internal_irc_send nullable
send_quit net reason s = internal_irc_send net (irc_cmd_quit (nullable reason)) s

unfoldable pub send_join : Net → Text → Option Text → Session → Bool × Session × List Effect
unfolding internal_irc_send
send_join net channel channel_key s =
    internal_irc_send net (irc_cmd_join channel channel_key)
      (record s { stats_so5 = record s.stats_so5 { join = add32 s.stats_so5.join 1 } })

unfoldable pub send_part : Net → Text → Session → Bool × Session × List Effect
unfolding internal_irc_send
send_part net channel s =
    internal_irc_send net (irc_cmd_part channel)
      (record s { stats_so5 = record s.stats_so5 { part = add32 s.stats_so5.part 1 } })

unfoldable pub send_message_to : Net → Text → Text → Session → Bool × Session × List Effect
unfolding internal_irc_send
send_message_to net channel text s =
    internal_irc_send net (irc_cmd_msg channel text)
      (record s { stats_so5 = record s.stats_so5 { privmsg = add32 s.stats_so5.privmsg 1 } })

unfoldable pub send_nick : Net → Text → Session → Bool × Session × List Effect
unfolding internal_irc_send
send_nick net newnick s = internal_irc_send net (irc_cmd_nick newnick) s

-- The code passes `irc_cmd_nick`.
unfoldable pub send_whois : Net → Text → Session → Bool × Session × List Effect
unfolding internal_irc_send
send_whois net nick s = internal_irc_send net (irc_cmd_nick nick) s

unfoldable pub send_raw : Net → Text → Session → Bool × Session × List Effect
unfolding internal_irc_send
send_raw net raw s = internal_irc_send net (irc_send_raw raw) s

unfoldable pub send_topic : Net → Text → Text → Session → Bool × Session × List Effect
unfolding internal_irc_send
send_topic net channel topic s = internal_irc_send net (irc_cmd_topic channel topic) s

unfoldable pub send_names : Net → Text → Session → Bool × Session × List Effect
unfolding internal_irc_send
send_names net channel s = internal_irc_send net (irc_cmd_names channel) s

unfoldable pub send_list : Net → Text → Session → Bool × Session × List Effect
unfolding internal_irc_send nullable
send_list net channel s = internal_irc_send net (irc_cmd_list (nullable channel)) s

unfoldable pub send_invite : Net → Text → Text → Session → Bool × Session × List Effect
unfolding internal_irc_send
send_invite net channel nick s = internal_irc_send net (irc_cmd_invite nick channel) s

unfoldable pub send_kick : Net → Text → Text → Text → Session → Bool × Session × List Effect
unfolding internal_irc_send nullable
send_kick net channel nick comment s =
    internal_irc_send net (irc_cmd_kick nick channel (nullable comment)) s

unfoldable pub send_notice : Net → Text → Text → Session → Bool × Session × List Effect
unfolding internal_irc_send
send_notice net channel text s = internal_irc_send net (irc_cmd_notice channel text) s

unfoldable pub send_ctcp_request : Net → Text → Text → Session → Bool × Session × List Effect
unfolding internal_irc_send
send_ctcp_request net nick reply s = internal_irc_send net (irc_cmd_ctcp_request nick reply) s

unfoldable pub send_ctcp_reply : Net → Text → Text → Session → Bool × Session × List Effect
unfolding internal_irc_send
send_ctcp_reply net nick reply s = internal_irc_send net (irc_cmd_ctcp_reply nick reply) s

unfoldable pub send_me : Net → Text → Text → Session → Bool × Session × List Effect
unfolding internal_irc_send
send_me net channel text s = internal_irc_send net (irc_cmd_me channel text) s

unfoldable pub send_channel_mode : Net → Text → Text → Session → Bool × Session × List Effect
unfolding internal_irc_send
send_channel_mode net channel mode s = internal_irc_send net (irc_cmd_channel_mode channel mode) s

unfoldable pub send_user_mode : Net → Text → Session → Bool × Session × List Effect
unfolding internal_irc_send
send_user_mode net mode s = internal_irc_send net (irc_cmd_user_mode mode) s
