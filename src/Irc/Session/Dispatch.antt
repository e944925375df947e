-- ===== src/Irc/Session/Dispatch.antt =====
-- irc/IRCSessionCallback.h and .cpp: the table of functions that libircclient calls, and what each makes
-- of its arguments.
pub mod Counting
use twitch_chat_worker.Base.{
  ℕ, zero, suc, ◌+◌, ◌-◌, ◌*◌, ◌/◌, ◌%◌, ◌^◌, ◌≤◌, ◌<◌, ◌≡◌, refl, sym, ap, ap₂, subst, ◌∙◌, ◌≢◌,
  ◌↔◌, ◌⊎◌, inl, inr, Bool, true, false, ◌&&◌, ◌||◌, not, Option, none, some, List, [], ◌∷◌, ◌++◌,
  map, append-nil, append_assoc, arith, u32_mod, add32, ltb, leb, eqb, if◌then◌else◌, Bool-cases,
  Option-cases, eqb_iff, length, replicate, take-all, length-append, length-replicate, max,
  get_elem?, get_elem?-none, drop, take, filter, All, All-append,
}
use twitch_chat_worker.Base.Key.{Text, codes, text_key, number_key, int_key, ◌==◌, eq_iff, eq_refl}
use twitch_chat_worker.Base.Int.{ℤ, pos, negsuc}
use twitch_chat_worker.Base.Dict.{
  Dict, lookup, has, insert_at, emplace, update, erase, lookup-emplace, lookup-update, lookup-erase,
  value_or, lookup-update-emplace,
}
use twitch_chat_worker.Base.Fault.{◌>>=◌, OnSome, OnSome-bind, OnSome-any, OnSome-map}
use twitch_chat_worker.Irc.Session.{
  Session, Effect, drop_connection, on_send_data_len, on_recv_data_len, mark_logged_in,
}
use twitch_chat_worker.Irc.Session.Callbacks.{
  ServerEvent, nick, quit, part, mode, umode, topic, kick, privmsg, notice, channel_notice, invite,
  ctcp_req, ctcp_rep, unknown, numeric, dcc_chat_req, dcc_send_req, join, channel, ctcp_action,
  pong, on_event,
}

-- The fields of `irc_callbacks_t`.
pub data Slot : Type 0 where
  event_log event_connect event_disconnect event_send_data event_recv_data event_login : Slot
  event_nick event_quit event_join event_part event_mode event_umode event_topic event_kick : Slot
  event_channel event_privmsg event_notice event_channel_notice event_invite : Slot
  event_ctcp_req event_ctcp_rep event_ctcp_action event_pong event_unknown event_numeric : Slot
  event_dcc_chat_req event_dcc_send_req : Slot

-- What a static function of the file calls: a member that is about the connection, or one of those in
-- Callbacks.
pub data Member : Type 0 where
  log connected disconnected send_data recv_data logged_in : Member
  server_event : ServerEvent → Member

-- What libircclient passes: the origin or the host, the parameters, the length of the data, and that
-- of the line to log.
pub record Passed : Type 0 where
  pub origin : Text
  pub params : List Text
  pub len : ℕ
  pub line_length : ℕ

-- The constructor, each function by what it calls.
unfoldable pub callbacks : Slot → Passed → Member
callbacks event_log p = log
callbacks event_connect p = connected
callbacks event_disconnect p = disconnected
callbacks event_send_data p = send_data
callbacks event_recv_data p = recv_data
callbacks event_login p = logged_in
callbacks event_join p = server_event (join p.params)
callbacks event_channel p = server_event (channel p.origin p.params)
callbacks event_ctcp_action p = server_event (ctcp_action p.origin p.params)
callbacks event_pong p = server_event pong
callbacks event_nick p = server_event nick
callbacks event_quit p = server_event quit
callbacks event_part p = server_event part
callbacks event_mode p = server_event mode
callbacks event_umode p = server_event umode
callbacks event_topic p = server_event topic
callbacks event_kick p = server_event kick
callbacks event_privmsg p = server_event privmsg
callbacks event_notice p = server_event notice
callbacks event_channel_notice p = server_event channel_notice
callbacks event_invite p = server_event invite
callbacks event_ctcp_req p = server_event ctcp_req
callbacks event_ctcp_rep p = server_event ctcp_rep
callbacks event_unknown p = server_event unknown
callbacks event_numeric p = server_event numeric
callbacks event_dcc_chat_req p = server_event dcc_chat_req
callbacks event_dcc_send_req p = server_event dcc_send_req

-- `std::string_view(msg, len - 1)` of a buffer of 2048 bytes, when it is read: what is behind the
-- buffer, and a length of -1, is undefined.
unfoldable pub on_log : Bool → ℕ → Option (Unit {0})
on_log traces len = if traces && (eqb len 0 || ltb 2048 (len - 1)) then none else some tt

-- A call of libircclient at the time `now`, up to the calls of the listener. `traces` is whether the
-- logger shows traces.
unfoldable pub call : Bool → ℕ → Slot → Passed → Session → Option (Session × List Effect)
unfolding callbacks on_log
call traces now slot p s = elim (callbacks slot p) [
  | log ↦ on_log traces p.line_length >>= λ _. some (s, [])
  | connected ↦ some (s, [])
  | disconnected ↦ some (drop_connection s)
  | send_data ↦ some (on_send_data_len p.len s, [])
  | recv_data ↦ some (on_recv_data_len p.len s, [])
  | logged_in ↦ some (mark_logged_in s, [])
  | server_event e ↦ on_event now e s
]

-- Calls one after another, each with its time.
unfoldable pub calls : Bool → List (ℕ × Slot × Passed) → Session → Option (Session × List Effect)
calls traces [] s = some (s, [])
calls traces ((now, slot, p) ∷ cs) s = do
  (s', out) ← call traces now slot p s
  (s'', out') ← calls traces cs s'
  some (s'', out ++ out')
