-- ===== src/Http/Server.antt =====
-- http/server/HTTPServerSession.h and .cpp: a connection of the HTTP server. A request is a text, as is a
-- response; the handler answers in an event of its own, since it may do so on another thread.
pub mod Turns
use twitch_chat_worker.Base.{
  ℕ, zero, suc, ◌+◌, ◌-◌, ◌*◌, ◌/◌, ◌%◌, ◌^◌, ◌≤◌, ◌<◌, ◌≡◌, refl, sym, ap, ap₂, subst, ◌∙◌, ◌≢◌,
  ◌↔◌, ◌⊎◌, inl, inr, Bool, true, false, ◌&&◌, ◌||◌, not, Option, none, some, List, [], ◌∷◌, ◌++◌,
  map, append-nil, append_assoc, arith, u32_mod, add32, ltb, leb, eqb, if◌then◌else◌, Bool-cases,
  Option-cases, eqb_iff, length, replicate, take-all, length-append, length-replicate, max,
  get_elem?, get_elem?-none, take, filter, All, All-append,
}
use twitch_chat_worker.Base.Key.{Text, codes, text_key, number_key, int_key, ◌==◌, eq_iff, eq_refl}
use twitch_chat_worker.Base.Int.{ℤ, pos, negsuc}
use twitch_chat_worker.Base.Dict.{
  Dict, lookup, has, insert_at, emplace, update, erase, lookup-emplace, lookup-update, lookup-erase,
  value_or, lookup-update-emplace,
}
use twitch_chat_worker.Base.Fault.{◌>>=◌, OnSome, OnSome-bind, OnSome-any, OnSome-map}
use twitch_chat_worker.Base
use twitch_chat_worker.Http.{
  ErrorCode, success, eof, not_connected, stream_truncated, timeout, end_of_stream, other_error,
  Stream, tcp, ssl, Errors, log_error, is_error,
}

-- `http::message`, with what `need_eof` says of it.
pub record Message : Type 0 where
  pub text : Text
  pub need_eof : Bool

-- What the session waits for: the dispatch of `start`, an operation, or the handler's answer.
pub data Waiting : Type 0 where
  dispatched handshaking reading responding shutting_down : Waiting
  writing : Bool → Waiting

pub record Session : Type 0 where
  pub stream : Stream
  -- `none`: empty; what the handler has moved from stays `some`
  pub request : Option Text
  -- `none`: a null pointer
  pub response : Option Message
  pub waiting : Option Waiting
  -- the requests given to the handler, and the messages given to `async_write`
  pub handed : List Text
  pub sent : List Message
  pub errors : Errors

-- A completion with its error, what has been read, and the error of a TCP stream's shutdown; or the
-- call of the `SendLambda`.
pub data Event : Type 0 where
  completes : ErrorCode → Text → ErrorCode → Event
  responds : Message → Event

abbrev log : ErrorCode → Text → Session → Session
log ec context s = record s { errors = log_error ec context s.errors }

-- The constructor, then `run`.
abbrev pub run : Stream → Session
run stream = record {
  stream = stream;
  request = none;
  response = none;
  waiting = some dispatched;
  handed = [];
  sent = [];
  errors = [];
}

-- `read`
unfoldable pub start_read : Session → Session
start_read s = record s { request = none; waiting = some reading }

-- `start`
unfoldable pub start : Session → Session
start s = elim s.stream [ tcp ↦ start_read s | ssl ↦ record s { waiting = some handshaking } ]

-- `handshake`
unfoldable pub handshake : ErrorCode → Session → Session
handshake ec s = if is_error ec then log ec (codes "Failed handshake") s else start_read s

-- `onShutdown`
unfoldable pub on_shutdown : ErrorCode → Session → Session
on_shutdown ec s = if is_error ec then log ec (codes "Failed shutdown") s else s

-- `close`
unfoldable pub close : ErrorCode → Session → Session
close shutdown_ec s = elim s.stream [
  | tcp ↦ on_shutdown shutdown_ec s
  | ssl ↦ record s { waiting = some shutting_down }
]

-- `onRead`
unfoldable pub on_read : ErrorCode → Text → ErrorCode → Session → Session
on_read end_of_stream request shutdown_ec s = close shutdown_ec s
on_read success request shutdown_ec s = record s {
  request = some request;
  handed = s.handed ++ request ∷ [];
  waiting = some responding;
}
on_read ec request shutdown_ec s = log ec (codes "Failed read") s

-- `SendLambda::operator()`
unfoldable pub send : Message → Session → Session
send msg s = record s {
  response = some msg;
  sent = s.sent ++ msg ∷ [];
  waiting = some (writing msg.need_eof);
}

-- `onWrite`
unfoldable pub on_write : Bool → ErrorCode → ErrorCode → Session → Session
on_write need_eof ec shutdown_ec s =
    if is_error ec
    then log ec (codes "Failed write") s
    else if need_eof
    then close shutdown_ec s
    else start_read (record s { response = none })

abbrev pub handle : Waiting → Event → Session → Session
handle dispatched (completes ec request shutdown_ec) s = start s
handle handshaking (completes ec request shutdown_ec) s = handshake ec s
handle reading (completes ec request shutdown_ec) s = on_read ec request shutdown_ec s
handle shutting_down (completes ec request shutdown_ec) s = on_shutdown ec s
handle (writing need_eof) (completes ec request shutdown_ec) s = on_write need_eof ec shutdown_ec s
handle responding (responds msg) s = send msg s
handle responding (completes ec request shutdown_ec) s = record s { waiting = some responding }
handle dispatched (responds msg) s = record s { waiting = some dispatched }
handle handshaking (responds msg) s = record s { waiting = some handshaking }
handle reading (responds msg) s = record s { waiting = some reading }
handle shutting_down (responds msg) s = record s { waiting = some shutting_down }
handle (writing need_eof) (responds msg) s = record s { waiting = some (writing need_eof) }

-- What the session waits for happens, which calls its handler; nothing else can happen.
unfoldable pub step : Event → Session → Session
step e s = elim s.waiting [ none ↦ s | some w ↦ handle w e (record s { waiting = none }) ]

unfoldable pub steps : List Event → Session → Session
steps [] s = s
steps (e ∷ es) s = steps es (step e s)
